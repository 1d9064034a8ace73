-- ===== src/Nat.antt =====
-- internal/nat/nat.go: the nftables table that translates addresses, and natConfig of
-- cmd/csa/main.go.
--
-- A chain is the list of its rules; a chain that the mode leaves out is empty, which does the same.
-- dedup has the same body as the one of internal/guard/guard.go.
pub mod Steer
pub mod Table
use callsignet.Base.{
  ℕ, String, Bool, true, false, not, ◌&&◌, ◌||◌, Option, none, some, List, [], ◌∷◌, ◌++◌, ℤ, ◌==◌,
  string_key, if◌then◌else◌, value_or, is_empty,
}
use callsignet.Net.{Addr, invalid, is_valid, Prefix}
use callsignet.Config.{Parsers, Peer, Config, tun_name, real_ips}
use callsignet.Guard.{dedup, service_ports}

pub data Outgoing : Type 0 where
  out_services : Outgoing
  out_off : Outgoing

pub data Incoming : Type 0 where
  in_real_ip : Incoming
  in_tunnel_ip : Incoming

-- The second value is whether the text is read without an error.
unfoldable pub parse_outgoing : String → Outgoing × Bool
parse_outgoing s =
    if s == "" || s == "services"
    then (out_services, true)
    else if s == "off"
    then (out_off, true)
    else (out_services, false)

unfoldable pub parse_incoming : String → Incoming × Bool
parse_incoming s =
    if s == "" || s == "real-ip"
    then (in_real_ip, true)
    else if s == "tunnel-ip"
    then (in_tunnel_ip, true)
    else (in_real_ip, false)

pub record NatPeer : Type 0 where
  pub tunnel_ip : Addr
  pub real_ips : List Addr
  pub ports : List ℤ

pub record NatConfig : Type 0 where
  pub outgoing : Outgoing
  pub incoming : Incoming
  pub iface : String
  pub tunnel_cidr : Prefix
  pub self_tunnel_ip : Addr
  pub self_real_ip : Addr
  pub peers : List NatPeer

-- `c.Empty()`.
unfoldable pub is_nothing : NatConfig → Bool
is_nothing c = elim c.outgoing [
  | out_services ↦ false
  | out_off ↦ elim c.incoming [ in_real_ip ↦ false | in_tunnel_ip ↦ true ]
]

-- A rule that changes a destination in the chain `output`.
pub data Steering : Type 0 where
  dnat_tcp : Addr → ℤ → Addr → Steering
  dnat_udp : Addr → ℤ → Addr → Steering

-- A rule of another chain: the interface, the address that it looks for, and the new one.
pub record Rewrite : Type 0 where
  pub iface : String
  pub addr : Addr
  pub to : Addr

pub record NatTable : Type 0 where
  pub output : List Steering
  pub postrouting : List (String × Prefix × Addr)
  pub prerouting : List Rewrite
  pub input : List Rewrite

unfoldable pub steer_ports : Addr → Addr → List ℤ → List Steering
steer_ports real to [] = []
steer_ports real to (port ∷ ports) =
    dnat_tcp real port to ∷ dnat_udp real port to ∷ steer_ports real to ports

unfoldable pub steer_reals : List ℤ → Addr → List Addr → List Steering
steer_reals ports to [] = []
steer_reals ports to (real ∷ reals) = steer_ports real to ports ++ steer_reals ports to reals

unfoldable pub steer_peers : List NatPeer → List Steering
steer_peers [] = []
steer_peers (p ∷ ps) = steer_reals (dedup p.ports) p.tunnel_ip p.real_ips ++ steer_peers ps

unfoldable pub present_peers : String → List NatPeer → List Rewrite
present_peers iface [] = []
present_peers iface (p ∷ ps) = elim p.real_ips [
  | [] ↦ present_peers iface ps
  | real ∷ _ ↦ record { iface = iface; addr = p.tunnel_ip; to = real } ∷ present_peers iface ps
]

abbrev pub steers : Outgoing → Bool
steers out_services = true
steers out_off = false

abbrev pub presents : Incoming → Bool
presents in_real_ip = true
presents in_tunnel_ip = false

unfoldable pub nat_rules : NatConfig → NatTable
nat_rules c =
    let here : Rewrite = record { iface = c.iface; addr = c.self_tunnel_ip; to = c.self_real_ip } in
    record {
      output = if steers c.outgoing then steer_peers c.peers else [];
      postrouting =
          if steers c.outgoing then (c.iface, c.tunnel_cidr, c.self_tunnel_ip) ∷ [] else [];
      prerouting = if presents c.incoming && is_valid c.self_real_ip then here ∷ [] else [];
      input = if presents c.incoming then present_peers c.iface c.peers else [];
    }

abbrev first_or : Addr → List Addr → Addr
first_or a [] = a
first_or _ (b ∷ _) = b

module _ (P : Parsers) where
  -- One round of the loop of natConfig.
  unfoldable pub add_nat_peer : String → NatConfig → Peer → NatConfig
  add_nat_peer self_id n p =
      let ip = value_or invalid (P.parse_addr p.tunnel_ip) in
      let reals = real_ips P p in
      let peer : NatPeer = record {
        tunnel_ip = ip;
        real_ips = reals;
        ports = service_ports p.services;
      } in
      if p.peer_id == self_id
      then record n { self_tunnel_ip = ip; self_real_ip = first_or n.self_real_ip reals }
      else record n { peers = n.peers ++ peer ∷ [] }

  unfoldable pub add_nat_peers : String → NatConfig → List Peer → NatConfig
  add_nat_peers self_id n [] = n
  add_nat_peers self_id n (p ∷ ps) = add_nat_peers self_id (add_nat_peer self_id n p) ps

  unfoldable pub nat_config : Config → NatConfig
  nat_config c =
      let start : NatConfig = record {
        outgoing = (parse_outgoing c.self.nat.outgoing).0;
        incoming = (parse_incoming c.self.nat.incoming).0;
        iface = tun_name c.self;
        tunnel_cidr =
            value_or (record { addr = invalid; bits = 0 }) (P.parse_prefix c.self.tunnel_cidr);
        self_tunnel_ip = invalid;
        self_real_ip = invalid;
        peers = [];
      } in
      add_nat_peers c.self.peer_id start c.peers
