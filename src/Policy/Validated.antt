-- ===== src/Policy/Validated.antt =====
-- Validate of internal/config/validate.go against New of internal/policy/policy.go.
use callsignet.Base.{
  ℕ, String, Bool, true, false, not, ◌&&◌, ◌||◌, none, some, List, [], ◌∷◌, ◌++◌, ◌≡◌, refl, arith,
  ◌==◌, string_key, contains, is_empty, all, Bool-cases, Option-cases, inl, inr, ok, value_or,
  to_uint16,
}
use callsignet.Net.{invalid, Prefix, masked}
use callsignet.Config.{Parsers, Service, Peer, Inbound, Config, find_peer}
use callsignet.Config.Problems.{Problem, Host, when, self_unlisted}
use callsignet.Config.Own.{check_self}
use callsignet.Config.Roster.{check_each, check_listed, check_peers, check_real_ip, unseen}
use callsignet.Config.Rules.{
  has_app, app_problems, allow_problems, cidr_problems, expires_problems, inbound_problems,
  target_problems, outbound_problems, check_policy,
}
use callsignet.Config.Keys.{check_key_pair, check_psk, validate}
use callsignet.Policy.{Rule, Rules}
use callsignet.Policy.Compile.{
  Tables, cut, port_at, add_all, add_cidrs, parse_expires, make_rule, add_rule, add_inbounds,
  add_target, add_outbounds, blank, new, add_peers,
}
use callsignet.Policy.Intent.{port_among, service_port}
use callsignet.Policy.Tables.{tables-peers}
use callsignet.Policy.Roster.{
  no_problems, when-none, services_of-find_peer, add_peers_sound, ids-check_each, read-find_peer,
}

-- Whether New can read the date of an entry, where Validate does not look at it.
abbrev pub date_reads : Parsers → Inbound → Bool
date_reads P e =
    not (is_empty e.allow_cidr)
    || e.expires == ""
    || elim (P.parse_date e.expires) [ none ↦ false | some _ ↦ true ]

has_app-port_among :
    (app : String) (ss : List Service)
    → has_app ss app ≡ true
    → (port : ℕ) × (port_among app ss ≡ some port)
unfolding has_app port_among
has_app-port_among app [] h = absurd (ground arith)
has_app-port_among app (s ∷ ss) h = elim (Option-cases (port_among app ss)) [
  | inl last ↦ elim (Bool-cases (s.app == app)) [
    | inl this ↦ (to_uint16 s.port, ground arith)
    | inr other ↦ let (port, e) = has_app-port_among app ss (ground arith) in (port, ground arith)
  ]
  | inr (port, e) ↦ (port, ground arith)
]

add_cidrs-ok :
    (P : Parsers) (app : String) (out : List Prefix) (ss : List String)
    → cidr_problems P ss ≡ []
    → (cidrs : List Prefix) × (add_cidrs P app out ss ≡ ok cidrs)
unfolding cidr_problems add_cidrs
add_cidrs-ok P app out [] h = (out, refl)
add_cidrs-ok P app out (s ∷ ss) h = elim (Option-cases (P.parse_prefix s)) [
  | inl bad ↦ absurd (ground arith)
  | inr (pfx, e) ↦
      let (cidrs, f) = add_cidrs-ok P app (out ++ masked pfx ∷ []) ss (ground arith) in
      (cidrs, ground arith)
]

parse_expires-ok :
    (h : Host) (e : Inbound)
    → expires_problems h e ≡ []
    → date_reads h.parsers e ≡ true
    → (t : ℕ) × (parse_expires h.parsers e.app e.expires ≡ ok t)
unfolding expires_problems parse_expires
parse_expires-ok h e found reads = elim (Bool-cases (e.expires == "")) [
  | inl unset ↦ (0, ground arith)
  | inr set ↦ elim (Option-cases (h.parsers.parse_date e.expires)) [
    | inl bad ↦ absurd (ground arith)
    | inr (t, f) ↦ (t, ground arith)
  ]
]

make_rule-ok :
    (h : Host) (e : Inbound)
    → cidr_problems h.parsers e.allow_cidr ≡ []
    → expires_problems h e ≡ []
    → date_reads h.parsers e ≡ true
    → (u : Rule) × (make_rule h.parsers e ≡ ok u)
unfolding make_rule
make_rule-ok h e cidrs_ok expires_ok reads =
    let (cidrs, c) = add_cidrs-ok h.parsers e.app [] e.allow_cidr cidrs_ok in
    let (t, d) = parse_expires-ok h e expires_ok reads in
    (record { app = e.app; peers = add_all [] e.allow; cidrs = cidrs; expires = t }, rw (c, d) refl)

-- The problems of an entry and of those behind it, or of the five parts of Validate.
five_parts :
    (a b d e f : List Problem)
    → a ++ b ++ d ++ e ++ f ≡ []
    → (a ≡ []) × (b ≡ []) × (d ≡ []) × (e ≡ []) × (f ≡ [])
five_parts [] [] [] [] f h = (refl, refl, refl, refl, h)
five_parts (x ∷ a) b d e f h = absurd (ground arith)
five_parts [] (x ∷ b) d e f h = absurd (ground arith)
five_parts [] [] (x ∷ d) e f h = absurd (ground arith)
five_parts [] [] [] (x ∷ e) f h = absurd (ground arith)

check_self-named : (h : Host) (c : Config) → check_self h c ≡ [] → (c.self.peer_id == "") ≡ false
unfolding check_self
check_self-named h c clean = elim (Bool-cases (c.self.peer_id == "")) [
  | inl nameless ↦ absurd (ground arith)
  | inr named ↦ named
]

module _ (h : Host) (c : Config) (found : (check_each h c unseen c.peers).1 ≡ []) where
  abbrev P : Parsers
  P = h.parsers

  port_at-ok :
      (t : Tables) (id app : String) (p : Peer)
      → add_peers P (record { peer_by_ip = []; port_of = [] }) c.peers ≡ ok t
      → find_peer id c.peers ≡ some p
      → has_app p.services app ≡ true
      → (port : ℕ) × (port_at t.port_of id app ≡ some port)
  unfolding service_port
  port_at-ok t id app p built peer serves =
      let (port, e) = has_app-port_among app p.services serves in
      (
        port,
        ground (
          arith,
          (tables-peers P c.peers t built).1 id app,
          services_of-find_peer h c id unseen c.peers found,
          peer,
          e,
        ),
      )

  add_inbounds-ok :
      (t : Tables) (self : Peer) (r : Rules) (es : List Inbound)
      → add_peers P (record { peer_by_ip = []; port_of = [] }) c.peers ≡ ok t
      → find_peer c.self.peer_id c.peers ≡ some self
      → inbound_problems h c es ≡ []
      → all (date_reads P) es ≡ true
      → (r' : Rules) × (add_inbounds P t.port_of c.self.peer_id r es ≡ ok r')
  unfolding add_inbounds inbound_problems app_problems
  add_inbounds-ok t self r [] built listed none_found reads = (r, refl)
  add_inbounds-ok t self r (e ∷ es) built listed none_found reads =
      let parts =
        five_parts (app_problems c e) (allow_problems c.peers e.allow)
          (cidr_problems P e.allow_cidr) (expires_problems h e) (inbound_problems h c es)
          none_found in
      let serves : has_app self.services e.app ≡ true = ground (arith, parts.0) in
      let (port, at) = port_at-ok t c.self.peer_id e.app self built listed serves in
      let (u, made) = make_rule-ok h e parts.2 parts.3 (ground arith) in
      let (r', rest) =
        add_inbounds-ok t self (add_rule r port u) es built listed parts.4 (ground arith) in
      (r', ground arith)

  add_outbounds-ok :
      (t : Tables) (r : Rules) (ts : List String)
      → add_peers P (record { peer_by_ip = []; port_of = [] }) c.peers ≡ ok t
      → outbound_problems c.peers ts ≡ []
      → (r' : Rules) × (add_outbounds P t.port_of c.peers r ts ≡ ok r')
  unfolding add_outbounds outbound_problems target_problems
  add_outbounds-ok t r [] built none_found = (r, refl)
  add_outbounds-ok t r (s ∷ ss) built none_found =
      let both =
        no_problems (target_problems c.peers s) (outbound_problems c.peers ss) none_found in
      elim (Option-cases (cut s)) [
        | inl bad ↦ absurd (ground (arith, both.0))
        | inr ((id, app), shape) ↦ elim (Option-cases (find_peer id c.peers)) [
          | inl missing ↦ absurd (ground (arith, both.0))
          | inr (p, peer) ↦
              let served : has_app p.services app ≡ true = ground (arith, both.0) in
              let (port, at) = port_at-ok t id app p built peer served in
              let ip = value_or invalid (P.parse_addr p.tunnel_ip) in
              let (r', rest) = add_outbounds-ok t (add_target r ip port) ss built both.1 in
              (r', ground arith)
        ]
      ]

-- What the checks of the peers give: the rounds of the loop find nothing, and this machine is among
-- the peers.
check_peers_sound :
    (h : Host) (c : Config)
    → (c.self.peer_id == "") ≡ false
    → check_peers h c ≡ []
    → ((check_each h c unseen c.peers).1 ≡ [])
      × ((self : Peer) × (find_peer c.self.peer_id c.peers ≡ some self))
unfolding check_peers check_listed contains
check_peers_sound h c named clean =
    let all_of = check_each h c unseen c.peers in
    let both = no_problems all_of.1 (check_listed h c all_of.0.ids) (ground arith) in
    let unlisted = not (c.self.peer_id == "") && not (contains c.self.peer_id all_of.0.ids) in
    let ends =
      no_problems (when unlisted (self_unlisted c.self.peer_id)) (check_real_ip h c) both.1 in
    let known : contains c.self.peer_id all_of.0.ids ≡ true =
      ground (arith, when-none unlisted (self_unlisted c.self.peer_id) ends.0) in
    (both.0, ids-check_each h c c.self.peer_id unseen c.peers both.0 known refl)

-- Where Validate finds nothing in a configuration, New builds the rules: no error, and no nil peer,
-- is left to the start of csa. The date of an entry that has no allow-cidr must be one that New can
-- read, since Validate looks at the dates of the others only.
pub validate-new :
    (h : Host) (c : Config)
    → validate h c ≡ []
    → all (date_reads h.parsers) c.policy.inbound ≡ true
    → (r : Rules) × (new h.parsers c ≡ ok r)
unfolding validate check_policy new
validate-new h c clean reads =
    let parts =
      five_parts (check_self h c) (check_peers h c) (check_policy h c) (check_key_pair h c)
        (check_psk h c) clean in
    let named = check_self-named h c parts.0 in
    let (found, (self, listed)) = check_peers_sound h c named parts.1 in
    let (ins, outs) =
      no_problems (inbound_problems h c c.policy.inbound)
        (outbound_problems c.peers c.policy.outbound) parts.2 in
    let (ip, read) = read-find_peer h c c.self.peer_id unseen c.peers self found listed in
    let (t, built) =
      add_peers_sound h c unseen (record { peer_by_ip = []; port_of = [] }) c.peers found in
    let (r, entered) =
      add_inbounds-ok h c found t self (blank t c.self.peer_id) c.policy.inbound built listed ins
        reads in
    let (r', aimed) = add_outbounds-ok h c found t r c.policy.outbound built outs in
    (r', ground arith)
