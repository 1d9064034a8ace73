-- ===== src/Policy/Loops.antt =====
-- The loops of New in internal/policy/policy.go: what a successful run went through.
use callsignet.Base.{
  ℕ, String, some, List, [], ◌∷◌, ◌≡◌, subst, inl, inr, arith, Option-cases, value_or, ok,
  Result-cases, >>=_inverse,
}
use callsignet.Net.{Addr, invalid}
use callsignet.Config.{Parsers, Peer, Inbound, Config, find_peer}
use callsignet.Policy.{Rule, Rules}
use callsignet.Policy.Compile.{
  Tables, add_rule, add_inbounds, add_target, add_outbounds, add_peers, blank, new, make_rule,
  port_at, cut,
}

module _ (P : Parsers) (port_of : List (String × List (String × ℕ))) where
  -- One round of the loop over [[inbound]].
  pub record Round (id : String) (r : Rules) (e : Inbound) (es : List Inbound) (r' : Rules)
      : Type 0 where
    pub port : ℕ
    pub rule : Rule
    pub served : port_at port_of id e.app ≡ some port
    pub made : make_rule P e ≡ ok rule
    pub rest : add_inbounds P port_of id (add_rule r port rule) es ≡ ok r'

  pub add_inbounds-cons :
      (id : String) (r : Rules) (e : Inbound) (es : List Inbound) {r' : Rules}
      → add_inbounds P port_of id r (e ∷ es) ≡ ok r'
      → Round id r e es r'
  unfolding add_inbounds
  add_inbounds-cons id r e es h = elim (Option-cases (port_at port_of id e.app)) [
    | inl missing ↦ absurd (ground arith)
    | inr (port, found) ↦ elim (Result-cases (make_rule P e)) [
      | inl (u, made) ↦ record {
        port = port;
        rule = u;
        served = found;
        made = made;
        rest = ground arith;
      }
      | inr (x, failed) ↦ absurd (ground arith)
    ]
  ]

  -- One round of the loop over outbound.
  pub record Aim (peers : List Peer) (r : Rules) (t : String) (ts : List String) (r' : Rules)
      : Type 0 where
    pub id : String
    pub app : String
    pub port : ℕ
    pub peer : Peer
    pub shape : cut t ≡ some (id, app)
    pub served : port_at port_of id app ≡ some port
    pub found : find_peer id peers ≡ some peer
    pub rest :
        add_outbounds P port_of peers
          (add_target r (value_or invalid (P.parse_addr peer.tunnel_ip)) port)
          ts
        ≡ ok r'

  pub add_outbounds-cons :
      (peers : List Peer) (r : Rules) (t : String) (ts : List String) {r' : Rules}
      → add_outbounds P port_of peers r (t ∷ ts) ≡ ok r'
      → Aim peers r t ts r'
  unfolding add_outbounds
  add_outbounds-cons peers r t ts h = elim (Option-cases (cut t)) [
    | inl missing ↦ absurd (ground arith)
    | inr ((id, app), shape) ↦ elim (Option-cases (port_at port_of id app)) [
      | inl missing ↦ absurd (ground arith)
      | inr (port, served) ↦ elim (Option-cases (find_peer id peers)) [
        | inl missing ↦ absurd (ground arith)
        | inr (peer, found) ↦ record {
          id = id;
          app = app;
          port = port;
          peer = peer;
          shape = shape;
          served = served;
          found = found;
          rest = ground arith;
        }
      ]
    ]
  ]

  -- What each write keeps, the loops keep.
  module _ {ℓ} (Q : Rules → Type ℓ) where
    pub add_inbounds_inv :
        ((r : Rules) (port : ℕ) (u : Rule) → Q r → Q (add_rule r port u))
        → (id : String) (r : Rules) (es : List Inbound) {r' : Rules} → Q r
        → add_inbounds P port_of id r es ≡ ok r'
        → Q r'
    unfolding add_inbounds
    add_inbounds_inv keep id r [] q h = subst Q (cc) q
    add_inbounds_inv keep id r (e ∷ es) q h =
        let c = add_inbounds-cons id r e es h in
        add_inbounds_inv keep id (add_rule r c.port c.rule) es (keep r c.port c.rule q) c.rest

    pub add_outbounds_inv :
        ((r : Rules) (ip : Addr) (port : ℕ) → Q r → Q (add_target r ip port))
        → (peers : List Peer) (r : Rules) (ts : List String) {r' : Rules} → Q r
        → add_outbounds P port_of peers r ts ≡ ok r'
        → Q r'
    unfolding add_outbounds
    add_outbounds_inv keep peers r [] q h = subst Q (cc) q
    add_outbounds_inv keep peers r (t ∷ ts) q h =
        let c = add_outbounds-cons peers r t ts h in
        let ip = value_or invalid (P.parse_addr c.peer.tunnel_ip) in
        add_outbounds_inv keep peers (add_target r ip c.port) ts (keep r ip c.port q) c.rest

-- The parts of a successful run of New.
pub record Built (P : Parsers) (c : Config) (r : Rules) : Type 0 where
  pub self : Peer
  pub tables : Tables
  pub middle : Rules
  pub self_found : find_peer c.self.peer_id c.peers ≡ some self
  pub tables_made : add_peers P (record { peer_by_ip = []; port_of = [] }) c.peers ≡ ok tables
  pub inbound_made :
      add_inbounds P tables.port_of c.self.peer_id (blank tables c.self.peer_id) c.policy.inbound
      ≡ ok middle
  pub outbound_made : add_outbounds P tables.port_of c.peers middle c.policy.outbound ≡ ok r

pub new-Built : (P : Parsers) (c : Config) {r : Rules} → new P c ≡ ok r → Built P c r
unfolding new
new-Built P c h = elim (Option-cases (find_peer c.self.peer_id c.peers)) [
  | inl missing ↦ absurd (ground arith)
  | inr (self, found) ↦ elim (Option-cases (P.parse_addr self.tunnel_ip)) [
    | inl bad ↦ absurd (ground arith)
    | inr (ip, read) ↦
        let (t, tables, h₁) = >>=_inverse _ _ (rw read at (rw (found, new) at h)) in
        let (m, middle, h₂) = >>=_inverse _ _ h₁ in
        record {
          self = self;
          tables = t;
          middle = m;
          self_found = found;
          tables_made = tables;
          inbound_made = middle;
          outbound_made = h₂;
        }
  ]
]
