-- ===== src/Policy/Tables.antt =====
-- The tables of New in internal/policy/policy.go against the list of peers.
use callsignet.Base.{
  ℕ, String, true, false, Option, none, some, List, [], ◌∷◌, ◌≡◌, refl, sym, ◌∙◌, Bool, ap, inl,
  inr, arith, ◌==◌, nat_key, string_key, if◌then◌else◌, find, put, find-put, to_uint16,
  Option-cases, ok,
}
use callsignet.Net.{Addr, addr_key}
use callsignet.Config.{Parsers, Service, Peer}
use callsignet.Policy.Compile.{Tables, add_services, add_peers, port_at}
use callsignet.Policy.Intent.{or_else, port_among, services_of, port_in, service_port, owner_of}

find-add_services :
    (app : String) (m : List (String × ℕ)) (ss : List Service)
    → find app (add_services m ss) ≡ or_else (port_among app ss) (find app m)
unfolding add_services port_among
find-add_services app m [] = refl
find-add_services app m (s ∷ ss) = ground (
  arith,
  find-add_services app (put s.app (to_uint16 s.port) m) ss,
  find-put s.app app (to_uint16 s.port) m,
)

-- What the port table says of an app, from the table of the peers read so far.
abbrev known_port : String → Option (List Service) → Option ℕ → Option ℕ
known_port app none before = before
known_port app (some ss) before = port_among app ss

known_port-none : (app : String) (o : Option (List Service)) → known_port app o none ≡ port_in app o
known_port-none app none = refl
known_port-none app (some ss) = refl

known_port-or_else :
    (app : String) (found : Option (List Service)) (ss : List Service) (b : Bool)
    (before : Option ℕ)
    → known_port app (or_else found (if b then some ss else none)) before
      ≡ known_port app found (if b then port_among app ss else before)
known_port-or_else app none ss true before = refl
known_port-or_else app none ss false before = refl
known_port-or_else app (some _) ss true before = refl
known_port-or_else app (some _) ss false before = refl

-- The tables after one peer.
abbrev pub after_peer : Tables → Peer → Addr → Tables
after_peer t p ip = record {
  peer_by_ip = put ip p.peer_id t.peer_by_ip;
  port_of = put p.peer_id (add_services [] p.services) t.port_of;
}

port_at-after_peer :
    (id app : String) (t : Tables) (p : Peer) (ip : Addr)
    → port_at (after_peer t p ip).port_of id app
      ≡ (if p.peer_id == id then port_among app p.services else port_at t.port_of id app)
unfolding port_at find
port_at-after_peer id app t p ip = ground (
  arith,
  find-put p.peer_id id (add_services [] p.services) t.port_of,
  find-add_services app [] p.services,
)

module _ (P : Parsers) where
  -- One round of the loop over the peers.
  pub record PeerRound (t : Tables) (p : Peer) (ps : List Peer) (t' : Tables) : Type 0 where
    pub ip : Addr
    pub read : P.parse_addr p.tunnel_ip ≡ some ip
    pub rest : add_peers P (after_peer t p ip) ps ≡ ok t'

  pub add_peers-cons :
      (t : Tables) (p : Peer) (ps : List Peer) {t' : Tables}
      → add_peers P t (p ∷ ps) ≡ ok t'
      → PeerRound t p ps t'
  unfolding add_peers
  add_peers-cons t p ps h = elim (Option-cases (P.parse_addr p.tunnel_ip)) [
    | inl bad ↦ absurd (ground arith)
    | inr (ip, read) ↦ record { ip = ip; read = read; rest = ground arith }
  ]

  find-add_peers_ip :
      (ip : Addr) (t : Tables) (ps : List Peer) {t' : Tables}
      → add_peers P t ps ≡ ok t'
      → find ip t'.peer_by_ip ≡ or_else (owner_of P ip ps) (find ip t.peer_by_ip)
  unfolding add_peers owner_of
  find-add_peers_ip ip t [] h = ground arith
  find-add_peers_ip ip t (p ∷ ps) h =
      let c = add_peers-cons t p ps h in
      ground (
        arith,
        c.read,
        find-add_peers_ip ip (after_peer t p c.ip) ps c.rest,
        find-put c.ip ip p.peer_id t.peer_by_ip,
      )

  port_at-add_peers :
      (id app : String) (t : Tables) (ps : List Peer) {t' : Tables}
      → add_peers P t ps ≡ ok t'
      → port_at t'.port_of id app ≡ known_port app (services_of id ps) (port_at t.port_of id app)
  unfolding add_peers services_of
  port_at-add_peers id app t [] {t'} h =
      let e : t' ≡ t = cc in ap (λ (u : Tables). port_at u.port_of id app) e
  port_at-add_peers id app t (p ∷ ps) h =
      let c = add_peers-cons t p ps h in
      port_at-add_peers id app (after_peer t p c.ip) ps c.rest
      ∙ ap (known_port app (services_of id ps)) (port_at-after_peer id app t p c.ip)
      ∙ sym (known_port-or_else app (services_of id ps) p.services (p.peer_id == id) _)

  -- The tables of a run hold, for each address, the last peer that has it, and for each peer and
  -- app, the port of the last service of that name in the last entry of that name.
  pub tables-peers :
      (ps : List Peer) (t : Tables)
      → add_peers P (record { peer_by_ip = []; port_of = [] }) ps ≡ ok t
      → ((ip : Addr) → find ip t.peer_by_ip ≡ owner_of P ip ps)
        × ((id app : String) → port_at t.port_of id app ≡ service_port ps id app)
  unfolding service_port port_at find
  tables-peers ps t h = (
    λ ip. ground (arith, find-add_peers_ip ip _ ps h),
    λ id app. port_at-add_peers id app _ ps h ∙ known_port-none app (services_of id ps),
  )
