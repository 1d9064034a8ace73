-- ===== src/Config.antt =====
-- internal/config/config.go: the values of csa.toml, peers.toml and policy.toml, and the lookups on
-- them. Reading and decoding the files is left out: a Config stands for what Load returns, with
-- the secrets that Secrets() read once.
pub mod Problems
pub mod Labels
pub mod Own
pub mod Roster
pub mod Rules
pub mod Keys
pub mod Diff
use callsignet.Base.{
  ℕ, String, not, ◌||◌, Option, none, some, List, [], ◌∷◌, ◌++◌, ℤ, pos, int_beq, if◌then◌else◌,
  ◌==◌, string_key, contains, is_empty,
}
use callsignet.Net.{Addr, is_4, unmap, Prefix, addr_key}

-- The parsers of the standard library that the program calls on texts of the configuration.
pub record Parsers : Type 0 where
  pub parse_addr : String → Option Addr  -- netip.ParseAddr
  pub parse_addr_port : String → Option (Addr × ℕ)  -- netip.ParseAddrPort
  pub parse_prefix : String → Option Prefix  -- netip.ParsePrefix
  pub parse_date : String → Option ℕ  -- time.ParseInLocation(dateLayout, s, time.Local)

pub record Tun : Type 0 where
  pub name : String
  pub mtu : ℤ

pub record GuardSettings : Type 0 where
  pub mode : String
  pub keep_tcp : List ℤ
  pub keep_udp : List ℤ

pub record NatSettings : Type 0 where
  pub outgoing : String
  pub incoming : String

pub record PskSettings : Type 0 where
  pub dir : String
  pub mode : String

pub record Self : Type 0 where
  pub peer_id : String
  pub private_key : String
  pub tunnel_cidr : String
  pub listen_port : ℤ
  pub tun : Tun
  pub guard : GuardSettings
  pub nat : NatSettings
  pub psk : PskSettings

pub record Service : Type 0 where
  pub app : String
  pub port : ℤ

pub record Peer : Type 0 where
  pub peer_id : String
  pub public_key : String
  pub tunnel_ip : String
  pub endpoints : List String
  pub addresses : List String
  pub services : List Service

pub record Inbound : Type 0 where
  pub app : String
  pub allow : List String
  pub allow_cidr : List String
  pub expires : String

pub record Policy : Type 0 where
  pub inbound : List Inbound
  pub outbound : List String

-- `psk` has no entry for a peer without a key; the errors are kept as their messages.
pub record Secrets : Type 0 where
  pub private : String
  pub private_err : Option String
  pub psk : List (String × String)
  pub psk_err : List (String × String)

pub record Config : Type 0 where
  pub self : Self
  pub peers : List Peer
  pub policy : Policy
  pub secrets : Secrets

abbrev pub default_tun_name : String
default_tun_name = "cs0"

abbrev pub default_tun_mtu : ℤ
default_tun_mtu = pos 1420

unfoldable pub tun_name : Self → String
tun_name s = if s.tun.name == "" then default_tun_name else s.tun.name

unfoldable pub tun_mtu : Self → ℤ
tun_mtu s = if int_beq s.tun.mtu (pos 0) then default_tun_mtu else s.tun.mtu

-- `c.Find(peerID)`: the first entry of that name.
unfoldable pub find_peer : String → List Peer → Option Peer
find_peer id [] = none
find_peer id (p ∷ ps) = if p.peer_id == id then some p else find_peer id ps

-- The closure `add` of RealIPs. `seen` holds exactly the addresses of `out`.
unfoldable pub add_real : List Addr → Addr → List Addr
add_real out a = if not (is_4 (unmap a)) || contains (unmap a) out then out else out ++ unmap a ∷ []

module _ (P : Parsers) where
  unfoldable pub add_addresses : List Addr → List String → List Addr
  add_addresses out [] = out
  add_addresses out (s ∷ ss) =
      add_addresses (elim (P.parse_addr s) [ none ↦ out | some a ↦ add_real out a ]) ss

  unfoldable pub add_endpoints : List Addr → List String → List Addr
  add_endpoints out [] = out
  add_endpoints out (s ∷ ss) =
      add_endpoints (elim (P.parse_addr_port s) [ none ↦ out | some (a, port) ↦ add_real out a ]) ss

  -- `p.RealIPs()`.
  unfoldable pub real_ips : Peer → List Addr
  unfolding add_addresses add_endpoints
  real_ips p =
      if not (is_empty p.addresses)
      then add_addresses [] p.addresses
      else add_endpoints [] p.endpoints
