-- ===== src/Policy/Decisions.antt =====
-- The reasons of refusal that Inbound of internal/policy/policy.go gives.
use callsignet.Base.{
  ℕ, String, Bool, true, false, not, ◌&&◌, ◌||◌, some, List, [], ◌∷◌, ◌≡◌, inl, inr, arith, ◌==◌,
  nat_key, string_key, eq_iff, is_empty, contains, any, value_or, find, Option-cases,
}
use callsignet.Net.{Addr, addr_key}
use callsignet.Policy.{
  Rule, Rules, rule_expired, outside_cidrs, dead, in_any, allows, ban_reason, judge, inbound,
  denied,
}

abbrev names : String → Rule → Bool
names id u = is_empty u.peers || contains id u.peers

-- A rule of that app that names the peer, is in force, and has ranges, none of which holds the
-- source.
abbrev pub misses_source : ℕ → String → Addr → String → Rule → Bool
misses_source now id from app u =
    names id u
    && not (dead now u)
    && not (is_empty u.cidrs)
    && not (in_any u.cidrs from)
    && u.app == app

-- A rule of that app and date that names the peer, whose date is past.
abbrev pub is_past : ℕ → String → String → ℕ → Rule → Bool
is_past now id app day u = names id u && dead now u && u.app == app && u.expires == day

ban_outside :
    (now : ℕ) (us : List Rule) (id who app : String) (from seen : Addr)
    → any (λ u. allows now u id from) us ≡ false
    → ban_reason now us id from ≡ some (outside_cidrs who app seen)
    → (who ≡ id) × (seen ≡ from) × (any (misses_source now id from app) us ≡ true)
unfolding ban_reason allows
ban_outside now [] id who app from seen closed h = cc
ban_outside now (u ∷ us) id who app from seen closed h =
    ground (arith, eq_iff u.app app, ban_outside now us id who app from seen)

ban_expired :
    (now : ℕ) (us : List Rule) (id app : String) (day : ℕ) (from : Addr)
    → ban_reason now us id from ≡ some (rule_expired app day)
    → any (is_past now id app day) us ≡ true
unfolding ban_reason
ban_expired now [] id app day from h = cc
ban_expired now (u ∷ us) id app day from h =
    ground (arith, eq_iff u.app app, ban_expired now us id app day from)

-- Where the refusal of a packet that came in blames the source, the peer is the sender, the address
-- is the observed source, and a rule of that app at the port names the sender, is in force, and has
-- ranges of which none holds that source.
pub inbound-outside_cidrs :
    (now : ℕ) (r : Rules) (src : Addr) (port : ℕ) (from : Addr) (who app : String) (seen : Addr)
    → inbound now r src port from ≡ denied (outside_cidrs who app seen)
    → (find src r.peer_by_ip ≡ some who)
      × (seen ≡ from)
      × (any (misses_source now who from app) (value_or [] (find port r.inbound)) ≡ true)
unfolding inbound judge
inbound-outside_cidrs now r src port from who app seen h =
    elim (Option-cases (find src r.peer_by_ip)) [
      | inl stranger ↦ absurd (ground arith)
      | inr (id, known) ↦ elim (Option-cases (find port r.inbound)) [
        | inl shut ↦ absurd (ground arith)
        | inr (us, opened) ↦ ground (arith, ban_outside now us id who app from seen)
      ]
    ]

-- Where it blames a date, a rule of that app and date at the port names the sender, and the date
-- is past.
pub inbound-rule_expired :
    (now : ℕ) (r : Rules) (src : Addr) (port : ℕ) (from : Addr) (app : String) (day : ℕ)
    → inbound now r src port from ≡ denied (rule_expired app day)
    → (id : String) × (find src r.peer_by_ip ≡ some id)
      × (any (is_past now id app day) (value_or [] (find port r.inbound)) ≡ true)
unfolding inbound judge
inbound-rule_expired now r src port from app day h = elim (Option-cases (find src r.peer_by_ip)) [
  | inl stranger ↦ absurd (ground arith)
  | inr (id, known) ↦ elim (Option-cases (find port r.inbound)) [
    | inl shut ↦ absurd (ground arith)
    | inr (us, opened) ↦ (id, known, ground (arith, ban_expired now us id app day from))
  ]
]
