-- ===== src/Reload/Machine.antt =====
-- reload of cmd/csa/main.go on the machine itself: the device of internal/wgdev, the guard of
-- internal/guard and the address translation of internal/nat in place of the three interfaces.
--
-- What nft answers to the guard and to the address translation is a parameter.
use callsignet.Base.{
  ℕ, String, Bool, true, false, Option, none, some, List, ◌≡◌, refl, subst, arith,
}
use callsignet.Config.{Config}
use callsignet.Config.Problems.{Host}
use callsignet.Filter.{Moment}
use callsignet.Wg.{Line}
use callsignet.Device.{Device, reload_device}
use callsignet.Device.Settled.{IsSettled, reload_device-settles}
use callsignet.Guard.{Nft, Guard, GuardConfig, guard_config}
use callsignet.Guard.Table
use callsignet.Nat.{NatConfig, nat_config}
use callsignet.Nat.Table.{Nat}
use callsignet.Config.Diff.{Changes}
use callsignet.Reload.{Parts, reloaded, restored, reload}
use callsignet.Reload.Agree.{Follows, Settled, reload-Settled}

pub record Machine (S : Type 0) : Type 0 where
  pub dev : Device S
  pub guard : Guard
  pub nat : Nat

-- `err == nil`.
abbrev pub is_nil {ℓ} : {E : Type ℓ} → Option E → Bool
is_nil none = true
is_nil (some _) = false

pub is_nil-none {ℓ} : {E : Type ℓ} (e : Option E) → is_nil e ≡ true → e ≡ none
is_nil-none none h = refl
is_nil-none (some x) h = absurd (ground arith)

module _ {S : Type 0} (set : List Line → S → S × Bool) (h : Host) (hex : List ℕ → String)
    (sort : List String → List String) (ask : Device S → Moment)
    (guard_nft nat_nft : Machine S → Nft) where
  abbrev pub parts : Parts (Machine S)
  parts = record {
    dev_reload = λ c m.
        let (d, e) = reload_device set h hex sort ask m.dev c in (record m { dev = d }, is_nil e);
    guard_check = λ g m. is_nil (callsignet.Guard.check (guard_nft m) g);
    guard_apply = λ g m.
        let (x, e) = callsignet.Guard.apply (guard_nft m) m.guard g in
        (record m { guard = x }, is_nil e);
    nat_check = λ n m. is_nil (callsignet.Nat.Table.check (nat_nft m) n);
    nat_apply = λ n m.
        let (x, e) = callsignet.Nat.Table.apply (nat_nft m) m.nat n in
        (record m { nat = x }, is_nil e);
  }

  -- The device follows a configuration when all that it works by is made from it; the other two
  -- when the kernel has the table of the configuration.
  abbrev pub parts_follow : Follows parts
  parts_follow = record {
    IsDev = λ c m. (m.dev.snap.cfg ≡ c) × IsSettled h hex m.dev;
    IsGuard = λ g m. callsignet.Guard.Table.Holds g m.guard;
    IsNat = λ n m. callsignet.Nat.Table.Holds n m.nat;
    dev_sets = λ c m done.
        reload_device-settles set h hex sort ask m.dev c
          (is_nil-none (reload_device set h hex sort ask m.dev c).1 done);
    guard_sets = λ g m done.
        callsignet.Guard.Table.apply-Holds (guard_nft m) m.guard g
          (is_nil-none (callsignet.Guard.apply (guard_nft m) m.guard g).1 done);
    nat_sets = λ n m done.
        callsignet.Nat.Table.apply-Holds (nat_nft m) m.nat n
          (is_nil-none (callsignet.Nat.Table.apply (nat_nft m) m.nat n).1 done);
    guard_keeps_dev = λ g c m same. same;
    nat_keeps_dev = λ n c m same. same;
    nat_keeps_guard = λ n g m same. same;
  }

  -- Every part works by the configuration.
  abbrev pub Works : Config → Machine S → Type 0
  Works c m =
      (m.dev.snap.cfg ≡ c)
      × IsSettled h hex m.dev
      × callsignet.Guard.Table.Holds (guard_config h.parsers c) m.guard
      × callsignet.Nat.Table.Holds (nat_config h.parsers c) m.nat

  -- After a `csa reload` that answers that it is done, the new configuration is the one that was
  -- read, the device judges packets by its rules, and the kernel has its guard and its address
  -- translation. Where nft is missing and a mode asks for no table, an older table may be left,
  -- and the part says that it did not look.
  pub reload-Holds :
      (live : Config) (cur : Option Config) (m : Machine S) (ch : Changes)
      → (reload parts h sort live cur m).1.1 ≡ reloaded ch
      → (cur ≡ some (reload parts h sort live cur m).0)
        × Works (reload parts h sort live cur m).0 (reload parts h sort live cur m).1.0
  reload-Holds live cur m ch e =
      let (live', (m', a)) = reload parts h sort live cur m in
      let (now, (dev, guard, nat)) =
        subst (λ x. Settled parts parts_follow h sort live cur m live' m' x) e
          (reload-Settled parts parts_follow h sort live cur m) in
      (now, (dev.0, dev.1, guard, nat))

  -- After one that answers that it was undone, all three are those of the old configuration.
  reload-restored :
      (live : Config) (cur : Option Config) (m : Machine S)
      → (reload parts h sort live cur m).1.1 ≡ restored
      → ((reload parts h sort live cur m).0 ≡ live)
        × Works live (reload parts h sort live cur m).1.0
  reload-restored live cur m e =
      let (live', (m', a)) = reload parts h sort live cur m in
      let (same, (dev, guard, nat)) =
        subst (λ x. Settled parts parts_follow h sort live cur m live' m' x) e
          (reload-Settled parts parts_follow h sort live cur m) in
      (same, subst (λ c. Works c m') same (dev.0, dev.1, guard, nat))
