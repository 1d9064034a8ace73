-- ===== src/Reload.antt =====
-- reload, back and rollback of cmd/csa/main.go.
--
-- `Parts` stands for the interfaces device, gate and rewriter: what a call does to the state of the
-- running machine, and whether it returns no error. What config.Load gives is an argument.
pub mod Agree
pub mod Machine
use callsignet.Base.{
  String, Bool, true, false, not, ◌&&◌, Option, none, some, List, [], ◌∷◌, is_empty, if◌then◌else◌,
}
use callsignet.Config.{Config}
use callsignet.Config.Problems.{Host, Problem}
use callsignet.Config.Keys.{validate}
use callsignet.Config.Diff.{Changes, any_change, diff}
use callsignet.Guard.{GuardConfig, guard_config}
use callsignet.Nat.{NatConfig, nat_config}

pub record Parts (S : Type 0) : Type 0 where
  pub dev_reload : Config → S → S × Bool
  pub guard_check : GuardConfig → S → Bool
  pub guard_apply : GuardConfig → S → S × Bool
  pub nat_check : NatConfig → S → Bool
  pub nat_apply : NatConfig → S → S × Bool

pub data Answer : Type 0 where
  load_failed : Answer
  problems_found : List Problem → Answer
  self_changed : Answer
  self_peer_changed : Answer
  nothing_changed : Answer
  check_failed : Answer
  restored : Answer
  mixed : Answer
  reloaded : Changes → Answer

module _ {S : Type 0} (M : Parts S) (h : Host) (sort : List String → List String) where
  -- The three steps that change the machine, up to the first that fails.
  unfoldable pub apply_parts : Config → S → S × Bool
  apply_parts c s =
      let (s₁, dev_ok) = M.dev_reload c s in
      let (s₂, guard_ok) = M.guard_apply (guard_config h.parsers c) s₁ in
      let (s₃, nat_ok) = M.nat_apply (nat_config h.parsers c) s₂ in
      if not dev_ok then (s₁, false) else if not guard_ok then (s₂, false) else (s₃, nat_ok)

  -- back, with rollback: all three steps, whichever fail.
  unfoldable pub back : Config → S → S × Bool
  back old s =
      let (s₁, dev_ok) = M.dev_reload old s in
      let (s₂, guard_ok) = M.guard_apply (guard_config h.parsers old) s₁ in
      let (s₃, nat_ok) = M.nat_apply (nat_config h.parsers old) s₂ in
      (s₃, dev_ok && guard_ok && nat_ok)

  -- The end of reload, where both checks passed.
  unfoldable pub settle : Config → Config → S → Config × (S × Answer)
  settle live cur s =
      let (s₁, applied) = apply_parts cur s in
      let (s₂, undone) = back live s₁ in
      if applied
      then (cur, (s₁, reloaded (diff sort live cur)))
      else (live, (s₂, if undone then restored else mixed))

  unfoldable pub reload_with : Config → Config → S → Config × (S × Answer)
  reload_with live cur s =
      let ch = diff sort live cur in
      if not (is_empty (validate h cur))
      then (live, (s, problems_found (validate h cur)))
      else if ch.self_changed
      then (live, (s, self_changed))
      else if ch.self_peer_changed
      then (live, (s, self_peer_changed))
      else if not (any_change ch)
      then (cur, (s, nothing_changed))
      else if not (M.guard_check (guard_config h.parsers cur) s)
      then (live, (s, check_failed))
      else if not (M.nat_check (nat_config h.parsers cur) s)
      then (live, (s, check_failed))
      else settle live cur s

  -- `none` is an error of config.Load.
  unfoldable pub reload : Config → Option Config → S → Config × (S × Answer)
  reload live none s = (live, (s, load_failed))
  reload live (some cur) s = reload_with live cur s
