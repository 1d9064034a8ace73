-- ===== src/Config/Problems.antt =====
-- What Validate in internal/config/validate.go reports, a constructor for each message, and what it
-- reads besides the configuration.
use callsignet.Base.{ℕ, String, Bool, Option, none, some, List, [], ◌∷◌, ℤ, if◌then◌else◌}
use callsignet.Net.{Addr, Prefix}
use callsignet.Config.{Parsers}

-- The first argument of checkLabel.
pub data LabelKind : Type 0 where
  peer_id_label : LabelKind
  app_label : LabelKind

pub data Problem : Type 0 where
  label_empty : LabelKind → Problem
  label_long : LabelKind → String → Problem
  label_bytes : LabelKind → String → Problem
  label_hyphen : LabelKind → String → Problem
  iface_empty : Problem
  iface_long : String → Problem
  iface_dots : String → Problem
  iface_bytes : String → Problem
  self_id_missing : Problem
  unreadable : String → Problem
  listen_port_range : ℤ → Problem
  mtu_range : ℤ → Problem
  guard_mode_bad : String → Problem
  keep_range : ℤ → Problem
  keep_unused : Problem
  outgoing_bad : String → Problem
  incoming_bad : String → Problem
  tunnel_cidr_bad : String → Problem
  tunnel_cidr_family : String → Problem
  tunnel_cidr_overlap : Prefix → Prefix → Problem
  no_peers : Problem
  peer_id_missing : Problem
  peer_id_twice : String → Problem
  key_missing : String → Problem
  key_bad : String → Problem
  key_twice : String → String → Problem
  ip_bad : String → String → Problem
  ip_twice : String → String → String → Problem
  ip_family : String → String → Problem
  ip_outside : String → Addr → Prefix → Problem
  endpoint_bad : String → String → Problem
  endpoint_port : String → String → Problem
  address_bad : String → String → Problem
  address_family : String → String → Problem
  address_inside : String → String → Problem
  real_inside : String → Addr → Problem
  real_twice : Addr → String → String → Problem
  service_unnamed : String → Problem
  app_twice : String → String → Problem
  port_range : String → String → ℤ → Problem
  port_twice : String → ℤ → String → String → Problem
  port_listening : String → ℤ → Problem
  self_unlisted : String → Problem
  real_ip_unknown : String → Problem
  inbound_app : String → Problem
  allow_unknown : String → Problem
  allow_cidr_bad : String → Problem
  expires_missing : String → Problem
  expires_bad : String → String → Problem
  already_expired : String → String → Problem
  outbound_shape : String → Problem
  outbound_peer : String → Problem
  outbound_app : String → String → Problem
  private_shape : String → Problem
  private_unusable : String → Problem
  pair_mismatch : String → String → Problem
  psk_mode_bad : String → Problem
  psk_dir_missing : Problem
  psk_missing : String → Problem

-- An interface of the machine: for each of its addresses that is a network, the address and the
-- ones of its mask. `addrs` is `none` where they cannot be read.
pub record Interface : Type 0 where
  pub name : String
  pub addrs : Option (List (Addr × ℕ))

pub record Host : Type 0 where
  pub parsers : Parsers
  pub now : ℕ
  pub interfaces : Option (List Interface)  -- net.Interfaces()
  pub trim_space : String → String  -- strings.TrimSpace
  pub decode64 : String → Option (List ℕ)  -- base64.StdEncoding.DecodeString
  pub encode64 : List ℕ → String  -- base64.StdEncoding.EncodeToString
  pub public_of : List ℕ → Option (List ℕ)  -- ecdh.X25519(): NewPrivateKey, then PublicKey

-- `if b { p = append(p, x) }`.
abbrev pub when : Bool → Problem → List Problem
when b x = if b then x ∷ [] else []

abbrev pub listed : Option Problem → List Problem
listed none = []
listed (some x) = x ∷ []
