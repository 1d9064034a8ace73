-- ===== src/Policy/Source.antt =====
-- NeedsSource and NeedsSourceICMP of internal/policy/policy.go: when the observed source of a
-- packet has no part in the decision.
use mathlib.Core.Bool.{◌&&◌}
use callsignet.Base.{
  ℕ, String, Bool, true, false, not, List, [], ◌∷◌, ◌++◌, ◌≡◌, ◌==◌, refl, arith, nat_key,
  if◌then◌else◌, is_empty, any, all, find, value_or, find-put, ok, inl, inr, Option-cases,
}
use callsignet.Net.{Addr, addr_key}
use callsignet.Config.{Parsers, Config}
use callsignet.Policy.{
  Rule, Rules, Reason, allows, ban_reason, judge, app_name, not_in_policy, nothing_open, inbound,
  inbound_icmp, needs_source, needs_source_icmp,
}
use callsignet.Policy.Compile.{Tables, add_rule, add_target, blank, new}
use callsignet.Policy.Loops.{add_inbounds_inv, add_outbounds_inv, new-Built}

abbrev cidr_free : List Rule → Bool
cidr_free us = all (λ u. is_empty u.cidrs) us

abbrev rules_at : ℕ → Rules → List Rule
rules_at port r = value_or [] (find port r.inbound)

cidr_free-append :
    (us : List Rule) (u : Rule) → cidr_free (us ++ u ∷ []) ≡ (cidr_free us && is_empty u.cidrs)
cidr_free-append [] u = ground arith
cidr_free-append (x ∷ us) u = ground (arith, cidr_free-append us u)

-- What the flags promise of the rules.
record Flagged (r : Rules) : Type 0 where
  at : (port : ℕ) → needs_source r port ≡ false → cidr_free (rules_at port r) ≡ true
  icmp : r.need_source_icmp ≡ false → cidr_free r.all_inbound ≡ true

Flagged-blank : (t : Tables) (id : String) → Flagged (blank t id)
unfolding find
Flagged-blank t id = record { at = λ port h. refl; icmp = λ h. refl }

rules_at-add_rule :
    (r : Rules) (p q : ℕ) (u : Rule)
    → rules_at q (add_rule r p u) ≡ (if p == q then rules_at p r ++ u ∷ [] else rules_at q r)
unfolding add_rule
rules_at-add_rule r p q u = ground (arith, find-put p q (rules_at p r ++ u ∷ []) r.inbound)

needs-add_rule :
    (r : Rules) (p q : ℕ) (u : Rule)
    → needs_source (add_rule r p u) q
      ≡ (if p == q && not (is_empty u.cidrs) then true else needs_source r q)
unfolding add_rule needs_source
needs-add_rule r p q u = ground (arith, find-put p q true r.need_source)

at-add_rule :
    (r : Rules) (p q : ℕ) (u : Rule)
    → Flagged r
    → needs_source (add_rule r p u) q ≡ false
    → cidr_free (rules_at q (add_rule r p u)) ≡ true
at-add_rule r p q u f h = ground (
  arith,
  f.at q,
  f.at p,
  rules_at-add_rule r p q u,
  needs-add_rule r p q u,
  cidr_free-append (rules_at p r) u,
)

icmp-add_rule :
    (r : Rules) (p : ℕ) (u : Rule)
    → Flagged r
    → (add_rule r p u).need_source_icmp ≡ false
    → cidr_free (add_rule r p u).all_inbound ≡ true
unfolding add_rule
icmp-add_rule r p u f h = ground (arith, f.icmp, cidr_free-append r.all_inbound u)

-- Writing an outbound target touches nothing that Flagged speaks of.
Flagged-add_target : (r : Rules) (ip : Addr) (port : ℕ) → Flagged r → Flagged (add_target r ip port)
unfolding add_target needs_source
Flagged-add_target r ip port f = record { at = f.at; icmp = f.icmp }

Flagged-add_rule : (r : Rules) (p : ℕ) (u : Rule) → Flagged r → Flagged (add_rule r p u)
Flagged-add_rule r p u f = record {
  at = λ q h. at-add_rule r p q u f h;
  icmp = λ h. icmp-add_rule r p u f h;
}

new-Flagged : (P : Parsers) (c : Config) {r : Rules} → new P c ≡ ok r → Flagged r
new-Flagged P c h =
    let b = new-Built P c h in
    let start = Flagged-blank b.tables c.self.peer_id in
    let ports = b.tables.port_of in
    let middle =
      add_inbounds_inv P ports Flagged Flagged-add_rule c.self.peer_id _ c.policy.inbound start
        b.inbound_made in
    add_outbounds_inv P ports Flagged Flagged-add_target c.peers _ c.policy.outbound middle
      b.outbound_made

allows_free :
    (now : ℕ) (u : Rule) (id : String) (f g : Addr)
    → is_empty u.cidrs ≡ true
    → allows now u id f ≡ allows now u id g
unfolding allows
allows_free now u id f g h = ground arith

any_free :
    (now : ℕ) (us : List Rule) (id : String) (f g : Addr)
    → cidr_free us ≡ true
    → any (λ u. allows now u id f) us ≡ any (λ u. allows now u id g) us
any_free now [] id f g h = refl
any_free now (u ∷ us) id f g h = ground (arith, allows_free now u id f g, any_free now us id f g)

ban_free :
    (now : ℕ) (us : List Rule) (id : String) (f g : Addr)
    → cidr_free us ≡ true
    → ban_reason now us id f ≡ ban_reason now us id g
unfolding ban_reason
ban_free now [] id f g h = refl
ban_free now (u ∷ us) id f g h = ground (arith, ban_free now us id f g)

judge_free :
    (now : ℕ) (us : List Rule) (id : String) (f g : Addr) (why : Reason)
    → cidr_free us ≡ true
    → judge now us id f why ≡ judge now us id g why
unfolding judge
judge_free now us id f g why h = rw (any_free now us id f g h, ban_free now us id f g h)

-- Under rules that New built, the decision on a packet to a port for which NeedsSource is false is
-- the same, its reason included, whatever source was observed.
pub inbound-source_free :
    (P : Parsers) (c : Config) (r : Rules) (now : ℕ) (src : Addr) (port : ℕ) (f g : Addr)
    → new P c ≡ ok r
    → needs_source r port ≡ false
    → inbound now r src port f ≡ inbound now r src port g
unfolding inbound
inbound-source_free P c r now src port f g built h =
    let free = (new-Flagged P c built).at port h in
    elim (Option-cases (find src r.peer_by_ip)) [
      | inl stranger ↦ ground arith
      | inr (id, known) ↦ elim (Option-cases (find port r.inbound)) [
        | inl shut ↦ ground arith
        | inr (us, opened) ↦
            ground (arith, judge_free now us id f g (not_in_policy id (app_name r port)))
      ]
    ]

-- The same for a packet without a port, if NeedsSourceICMP is false.
pub inbound_icmp-source_free :
    (P : Parsers) (c : Config) (r : Rules) (now : ℕ) (src : Addr) (f g : Addr)
    → new P c ≡ ok r
    → needs_source_icmp r ≡ false
    → inbound_icmp now r src f ≡ inbound_icmp now r src g
unfolding inbound_icmp needs_source_icmp
inbound_icmp-source_free P c r now src f g built h =
    let free = (new-Flagged P c built).icmp h in
    elim (Option-cases (find src r.peer_by_ip)) [
      | inl stranger ↦ ground arith
      | inr (id, known) ↦ ground (arith, judge_free now r.all_inbound id f g (nothing_open id))
    ]
