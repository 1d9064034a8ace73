-- ===== src/Reload/Agree.antt =====
-- After a reload by cmd/csa/main.go, the parts of the machine follow one configuration.
use callsignet.Base.{
  String, true, Option, none, some, List, is_empty, ◌≡◌, refl, arith, Bool-cases, inl, inr, subst,
  sym,
}
use callsignet.Config.{Config}
use callsignet.Config.Problems.{Host}
use callsignet.Config.Keys.{validate}
use callsignet.Config.Diff.{any_change, diff}
use callsignet.Guard.{GuardConfig, guard_config}
use callsignet.Nat.{NatConfig, nat_config}
use callsignet.Reload.{
  Parts, Answer, nothing_changed, restored, mixed, reloaded, apply_parts, back, settle, reload_with,
  reload,
}

-- What it means that a part follows a configuration, and that a call that succeeds makes its own
-- part follow it, and takes no other part from what it follows.
pub record Follows {S : Type 0} (M : Parts S) : Type 1 where
  pub IsDev : Config → S → Type 0
  pub IsGuard : GuardConfig → S → Type 0
  pub IsNat : NatConfig → S → Type 0
  pub dev_sets : (c : Config) (s : S) → (M.dev_reload c s).1 ≡ true → IsDev c (M.dev_reload c s).0
  pub guard_sets :
      (g : GuardConfig) (s : S) → (M.guard_apply g s).1 ≡ true → IsGuard g (M.guard_apply g s).0
  pub nat_sets : (n : NatConfig) (s : S) → (M.nat_apply n s).1 ≡ true → IsNat n (M.nat_apply n s).0
  pub guard_keeps_dev :
      (g : GuardConfig) (c : Config) (s : S) → IsDev c s → IsDev c (M.guard_apply g s).0
  pub nat_keeps_dev : (n : NatConfig) (c : Config) (s : S) → IsDev c s → IsDev c (M.nat_apply n s).0
  pub nat_keeps_guard :
      (n : NatConfig) (g : GuardConfig) (s : S) → IsGuard g s → IsGuard g (M.nat_apply n s).0

module _ {S : Type 0} (M : Parts S) (F : Follows M) (h : Host)
    (sort : List String → List String) where
  -- All three parts follow the configuration.
  abbrev pub Agrees : Config → S → Type 0
  Agrees c s =
      F.IsDev c s × F.IsGuard (guard_config h.parsers c) s × F.IsNat (nat_config h.parsers c) s

  -- What an answer says of the configuration in force and of the machine before and after.
  abbrev pub Settled : Config → Option Config → S → Config → S → Answer → Type 0
  Settled live cur s live' s' mixed = live' ≡ live
  Settled live cur s live' s' nothing_changed = (cur ≡ some live') × (s' ≡ s)
  Settled live cur s live' s' (reloaded _) = (cur ≡ some live') × Agrees live' s'
  Settled live cur s live' s' restored = (live' ≡ live) × Agrees live' s'
  Settled live cur s live' s' _ = (live' ≡ live) × (s' ≡ s)

  module _ (c : Config) (s : S) where
    abbrev s₁ : S
    s₁ = (M.dev_reload c s).0

    abbrev s₂ : S
    s₂ = (M.guard_apply (guard_config h.parsers c) s₁).0

    abbrev s₃ : S
    s₃ = (M.nat_apply (nat_config h.parsers c) s₂).0

    steps_agree :
        (M.dev_reload c s).1 ≡ true
        → (M.guard_apply (guard_config h.parsers c) s₁).1 ≡ true
        → (M.nat_apply (nat_config h.parsers c) s₂).1 ≡ true
        → Agrees c s₃
    steps_agree dev_ok guard_ok nat_ok =
        let g = guard_config h.parsers c in
        let n = nat_config h.parsers c in
        (
          F.nat_keeps_dev n c s₂ (F.guard_keeps_dev g c s₁ (F.dev_sets c s dev_ok)),
          F.nat_keeps_guard n g s₂ (F.guard_sets g s₁ guard_ok),
          F.nat_sets n s₂ nat_ok,
        )

    apply_parts_agree : (apply_parts M h sort c s).1 ≡ true → Agrees c (apply_parts M h sort c s).0
    unfolding apply_parts
    apply_parts_agree e =
        let all : Agrees c s₃ = steps_agree (ground arith) (ground arith) (ground arith) in
        let last : (apply_parts M h sort c s).0 ≡ s₃ = ground arith in
        subst (Agrees c) (sym last) all

    back_agree : (back M h sort c s).1 ≡ true → Agrees c (back M h sort c s).0
    unfolding back
    back_agree e = steps_agree (ground arith) (ground arith) (ground arith)

  -- What settle leaves behind.
  settle_agrees :
      (live cur : Config) (s : S)
      → let (live', (s', a)) = settle M h sort live cur s in Settled live (some cur) s live' s' a
  unfolding settle
  settle_agrees live cur s = elim (Bool-cases (apply_parts M h sort cur s).1) [
    | inl applied ↦ rw (applied) (refl, apply_parts_agree cur s applied)
    | inr failed ↦ elim (Bool-cases (back M h sort live (apply_parts M h sort cur s).0).1) [
      | inl undone ↦
          rw (failed, undone) (refl, back_agree live (apply_parts M h sort cur s).0 undone)
      | inr stuck ↦ rw (failed, stuck) refl
    ]
  ]

  -- Under the assumption that each call of a part that succeeds, on the way forward and on the way
  -- back, makes that part follow the configuration it was given, and takes no other part from the
  -- one it follows: a reload that answers that it is done leaves the new configuration in force,
  -- and the device, the guard and the address translation follow it. One that answers that it was
  -- undone leaves the old one, and all three follow that. Without that assumption, every refusal
  -- before the first step leaves the machine and the configuration as they were; a reload that
  -- finds nothing changed takes the new values without touching the machine; and one that could
  -- not be undone keeps the old configuration.
  pub reload-Settled :
      (live : Config) (cur : Option Config) (s : S)
      → let (live', (s', a)) = reload M h sort live cur s in Settled live cur s live' s' a
  unfolding reload reload_with
  reload-Settled live none s = (refl, refl)
  reload-Settled live (some cur) s =
      let ch = diff sort live cur in
      let g = M.guard_check (guard_config h.parsers cur) s in
      let n = M.nat_check (nat_config h.parsers cur) s in
      elim (Bool-cases (is_empty (validate h cur))) [
        | inr bad ↦ rw (bad) (refl, refl)
        | inl clean ↦ elim (Bool-cases ch.self_changed) [
          | inl own ↦ rw (clean, own) (refl, refl)
          | inr kept ↦ elim (Bool-cases ch.self_peer_changed) [
            | inl me ↦ rw (clean, kept, me) (refl, refl)
            | inr same ↦ elim (Bool-cases (any_change ch)) [
              | inr nothing ↦ rw (nothing, clean, kept, same) (refl, refl)
              | inl change ↦ elim (Bool-cases g) [
                | inr refused ↦ rw (change, clean, kept, same, refused) (refl, refl)
                | inl taken ↦ elim (Bool-cases n) [
                  | inr refused ↦ rw (change, clean, kept, same, taken, refused) (refl, refl)
                  | inl both ↦
                      rw (change, clean, kept, same, taken, both) (settle_agrees live cur s)
                ]
              ]
            ]
          ]
        ]
      ]
