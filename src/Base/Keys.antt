-- ===== src/Base/Keys.antt =====
-- Types whose values the program compares by `==`.
use Prim.Native.Nat.{ℕ}
use Prim.Native.String.{String}
use mathlib.Core.Path.{◌≡◌, refl}
use mathlib.Core.Logic.{◌↔◌}
use mathlib.Core.Bool.{Bool, true, ◌||◌, false, ◌&&◌}
use mathlib.Core.List.{List, [], ◌∷◌}
use native.Mathlib.Omega.{arith}
use text.Mathlib.Text.{◌==◌ as str_eq}
use text.Mathlib.TextEquality.{eq_iff}
use callsignet.Base.Tests.{nat_beq, nat_beq_iff}

-- A decidable `==`, as Go requires it of the keys of a map.
pub record IsKey {κ} (K : Type κ) : Type κ where
  pub test : K → K → Bool
  pub test_iff : (j k : K) → (test j k ≡ true) ↔ (j ≡ k)

instance abbrev pub string_key : IsKey String
string_key = record { test_iff = eq_iff; test = str_eq }

instance abbrev pub nat_key : IsKey ℕ
nat_key = record { test_iff = nat_beq_iff; test = nat_beq }

infix 50 ◌==◌
abbrev pub ◌==◌ {κ} : {K : Type κ} ⦃key : IsKey K⦄ → K → K → Bool
◌==◌ ⦃key⦄ j k = key.test j k

module _ {ℓ} {A : Type ℓ} ⦃e : IsKey A⦄ where
  -- Whether a list holds the value.
  unfoldable pub contains : A → List A → Bool
  contains wanted [] = false
  contains wanted (first ∷ others) = first == wanted || contains wanted others

  pub test_self : (a : A) → (a == a) ≡ true
  test_self a = (e.test_iff a a).1 refl

  unfoldable pub list_beq : List A → List A → Bool
  list_beq [] [] = true
  list_beq [] (_ ∷ _) = false
  list_beq (_ ∷ _) [] = false
  list_beq (x ∷ xs) (y ∷ ys) = x == y && list_beq xs ys

  pub list_beq_iff : (xs ys : List A) → (list_beq xs ys ≡ true) ↔ (xs ≡ ys)
  unfolding list_beq
  list_beq_iff [] [] = ground arith
  list_beq_iff [] (_ ∷ _) = ground arith
  list_beq_iff (_ ∷ _) [] = ground arith
  list_beq_iff (x ∷ xs) (y ∷ ys) = ground (arith, e.test_iff x y, list_beq_iff xs ys)
