-- ===== src/Base/Maps.antt =====
-- Go's maps as association lists: a key stands once, and a write to a key that is there replaces
-- its value. The order of the pairs is one of the orders in which Go may walk the map.
use Prim.Native.Nat.{◌+◌, ◌≤◌}
use mathlib.Core.Path.{◌≡◌, refl}
use mathlib.Core.Option.{Option, none, some}
use mathlib.Core.List.{List, [], ◌∷◌}
use native.Mathlib.Omega.{arith}
use callsignet.Base.Tests.{if◌then◌else◌}
use callsignet.Base.Lists.{length}
use callsignet.Base.Keys.{IsKey, ◌==◌}

-- `m[k]`, where a missing key reads the zero value.
abbrev pub value_or {ℓ} : {V : Type ℓ} → V → Option V → V
value_or d none = d
value_or d (some v) = v

module _ {ℓ κ} {K : Type ℓ} {V : Type κ} ⦃key : IsKey K⦄ where
  -- `v, ok := m[k]`.
  unfoldable pub find : K → List (K × V) → Option V
  find wanted [] = none
  find wanted ((k, v) ∷ rest) = if k == wanted then some v else find wanted rest

  -- `m[k] = v`.
  unfoldable pub put : K → V → List (K × V) → List (K × V)
  put k new [] = (k, new) ∷ []
  put k new ((j, old) ∷ rest) = if j == k then (k, new) ∷ rest else (j, old) ∷ put k new rest

  -- A lookup after a write.
  pub find-put :
      (written wanted : K) (new : V) (m : List (K × V))
      → find wanted (put written new m) ≡ (if written == wanted then some new else find wanted m)
  unfolding put find
  find-put written wanted new [] = refl
  find-put written wanted new ((j, old) ∷ rest) = ground (
    arith,
    find-put written wanted new rest,
    key.test_iff j written,
    key.test_iff j wanted,
    key.test_iff written wanted,
  )

  -- A write adds at most one entry.
  pub length-put :
      (written : K) (new : V) (m : List (K × V)) → length (put written new m) ≤ length m + 1
  unfolding put
  length-put written new [] = omega arith
  length-put written new ((j, old) ∷ rest) = ground (arith, length-put written new rest)
