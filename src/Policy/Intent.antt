-- ===== src/Policy/Intent.antt =====
-- What policy.toml means, read entry by entry with no table, for internal/policy/policy.go.
use callsignet.Base.{
  ℕ, String, Bool, false, not, ◌&&◌, ◌||◌, Option, none, some, List, [], ◌∷◌, ◌==◌, nat_key,
  string_key, if◌then◌else◌, ltb, contains, is_empty, any, to_uint16,
}
use callsignet.Net.{Addr, is_valid, prefix_contains, addr_key}
use callsignet.Config.{Parsers, Service, Peer, Inbound, Config, find_peer}
use callsignet.Policy.Compile.{cut}

abbrev pub or_else {ℓ} : {A : Type ℓ} → Option A → Option A → Option A
or_else (some a) b = some a
or_else none b = b

-- Whether there is a value, and it passes the test.
abbrev pub for_some {ℓ} : {A : Type ℓ} → Option A → (A → Bool) → Bool
for_some none test = false
for_some (some a) test = test a

-- The port of an app among services: the last entry of that name counts.
unfoldable pub port_among : String → List Service → Option ℕ
port_among app [] = none
port_among app (s ∷ ss) =
    or_else (port_among app ss) (if s.app == app then some (to_uint16 s.port) else none)

-- The services of a peer: those of the last entry of that name.
unfoldable pub services_of : String → List Peer → Option (List Service)
services_of id [] = none
services_of id (p ∷ ps) =
    or_else (services_of id ps) (if p.peer_id == id then some p.services else none)

abbrev pub port_in : String → Option (List Service) → Option ℕ
port_in app none = none
port_in app (some ss) = port_among app ss

-- The port that a peer's app listens on.
unfoldable pub service_port : List Peer → String → String → Option ℕ
service_port peers id app = port_in app (services_of id peers)

abbrev pub is_port : Option ℕ → ℕ → Bool
is_port none port = false
is_port (some p) port = p == port

module _ (P : Parsers) where
  abbrev pub has_ip : Peer → Addr → Bool
  has_ip p ip = elim (P.parse_addr p.tunnel_ip) [ none ↦ false | some a ↦ a == ip ]

  -- Whose tunnel address it is: the last entry with that address.
  unfoldable pub owner_of : Addr → List Peer → Option String
  owner_of ip [] = none
  owner_of ip (p ∷ ps) = or_else (owner_of ip ps) (if has_ip p ip then some p.peer_id else none)

  -- Whether a range of allow-cidr holds the source.
  abbrev pub covers : Addr → String → Bool
  covers from s = elim (P.parse_prefix s) [ none ↦ false | some pfx ↦ prefix_contains pfx from ]

  abbrev pub in_date : ℕ → String → Bool
  in_date now s =
      s == "" || elim (P.parse_date s) [ none ↦ false | some t ↦ t == 0 || not (ltb t now) ]

  -- Whether one [[inbound]] entry admits a peer that comes from a source.
  unfoldable pub entry_admits : ℕ → Inbound → String → Addr → Bool
  entry_admits now e id from =
      not (is_empty e.allow && is_empty e.allow_cidr)
      && in_date now e.expires
      && (is_empty e.allow || contains id e.allow)
      && (is_empty e.allow_cidr || (is_valid from && any (covers from) e.allow_cidr))

  -- Whether some [[inbound]] entry of an app on that port admits the peer.
  unfoldable pub port_admits : ℕ → Config → String → ℕ → Addr → Bool
  port_admits now c id port from =
      any
        (λ e.
          is_port (service_port c.peers c.self.peer_id e.app) port && entry_admits now e id from)
        c.policy.inbound

  -- Whether the target of an outbound entry is that address and port.
  unfoldable pub aims_at : List Peer → Addr → ℕ → String → Bool
  aims_at peers dst port t = elim (cut t) [
    | none ↦ false
    | some (id, app) ↦ elim (find_peer id peers) [
      | none ↦ false
      | some peer ↦ has_ip peer dst && is_port (service_port peers id app) port
    ]
  ]

  -- Whether the target of an outbound entry is on the machine of that address.
  unfoldable pub aims_at_host : List Peer → Addr → String → Bool
  aims_at_host peers dst t = elim (cut t) [
    | none ↦ false
    | some (id, app) ↦ elim (find_peer id peers) [ none ↦ false | some peer ↦ has_ip peer dst ]
  ]
