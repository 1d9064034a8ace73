-- ===== src/Packet/Checksum.antt =====
-- `checksum` of internal/policy/packet.go: the fold ends, and a packet that holds its checksum
-- sums to zero.
use native.Mathlib.Nat.{zero-add}
use callsignet.Base.{
  ℕ, zero, suc, ◌+◌, ◌*◌, ◌/◌, ◌%◌, ◌^◌, ◌≤◌, ◌<◌, ◌≡◌, refl, arith, List, [], ◌∷◌, nat_key, length,
  All,
}
use callsignet.Packet.{sum_words, fold, fold_fuel, complement, checksum}

abbrev pub IsByte : ℕ → Type 0
IsByte x = x < 256

abbrev pub IsBytes : List ℕ → Type 0
IsBytes b = All IsByte b

-- Three rounds bring every uint32 below 2^16.
pub fold-lt : (s : ℕ) → s < 2 ^ 32 → fold fold_fuel s < 65536
unfolding fold
fold-lt s h = ground arith

-- A round keeps the remainder by 65535, and a positive sum stays positive.
pub fold-mod : (fuel s : ℕ) → fold fuel s % 65535 ≡ s % 65535
unfolding fold
fold-mod zero s = refl
fold-mod (suc fuel) s = ground (arith, fold-mod fuel (s % 65536 + s / 65536))

pub fold-pos : (fuel s : ℕ) → 0 < s → 0 < fold fuel s
unfolding fold
fold-pos zero s h = h
fold-pos (suc fuel) s h = ground (arith, fold-pos fuel (s % 65536 + s / 65536))

-- The sum without the wrap of uint32.
unfoldable pub plain_sum : List ℕ → ℕ
plain_sum [] = 0
plain_sum (x ∷ []) = x * 256
plain_sum (x ∷ y ∷ rest) = x * 256 + y + plain_sum rest

pub plain_sum-le : (b : List ℕ) → IsBytes b → plain_sum b ≤ 65535 * length b
unfolding plain_sum
plain_sum-le [] h = omega arith
plain_sum-le (x ∷ []) h = omega arith
plain_sum-le (x ∷ y ∷ rest) (p, (q, h)) = omega (arith, plain_sum-le rest h)

pub sum_words-plain :
    (s : ℕ) (b : List ℕ) → s + plain_sum b < 2 ^ 32 → sum_words s b ≡ s + plain_sum b
unfolding sum_words plain_sum
sum_words-plain s [] h = omega arith
sum_words-plain s (x ∷ []) h = omega arith
sum_words-plain s (x ∷ y ∷ rest) h =
    let e : (s + (x * 256 + y)) % 2 ^ 32 ≡ s + (x * 256 + y) = omega arith in
    rw e (omega (arith, sum_words-plain (s + (x * 256 + y)) rest (omega arith)))

-- A sum that is a positive multiple of 65535 has the checksum zero.
pub complement-fold :
    (s : ℕ) → 0 < s → s < 2 ^ 32 → s % 65535 ≡ 0 → complement (fold fold_fuel s) ≡ 0
complement-fold s p h m = omega (arith, fold-lt s h, fold-mod fold_fuel s, fold-pos fold_fuel s p)

fold-le : (fuel s : ℕ) → fold fuel s ≤ s
unfolding fold
fold-le zero s = omega arith
fold-le (suc fuel) s = ground (arith, fold-le fuel (s % 65536 + s / 65536))

-- A sum and its own checksum add up to a positive multiple of 65535.
pub add-complement :
    (s : ℕ)
    → s < 2 ^ 32
    → (0 < s + complement (fold fold_fuel s)) × ((s + complement (fold fold_fuel s)) % 65535 ≡ 0)
add-complement s h =
    omega (arith, fold-lt s h, fold-mod fold_fuel s, fold-pos fold_fuel s, fold-le fold_fuel s)

-- Adding the checksum of a sum to that sum gives the checksum zero.
pub checks :
    (s : ℕ) → s < 2 ^ 31 → complement (fold fold_fuel (s + complement (fold fold_fuel s))) ≡ 0
checks s h =
    let c = complement (fold fold_fuel s) in
    let (p, m) = add-complement s (omega arith) in complement-fold (s + c) p (omega arith) m

-- The checksum of bytes, from their plain sum.
pub checksum-plain :
    (b : List ℕ)
    → IsBytes b
    → length b ≤ 30000
    → (plain_sum b < 2 ^ 31) × (checksum b ≡ complement (fold fold_fuel (plain_sum b)))
unfolding checksum
checksum-plain b h short =
    let bound : plain_sum b < 2 ^ 31 = omega (arith, plain_sum-le b h) in
    (bound, rw (sum_words-plain 0 b (omega arith)) (rw zero-add))

pub checksum-lt : (b : List ℕ) → checksum b < 65536
unfolding checksum
checksum-lt b = omega arith

-- A packet that holds the checksum of the packet without it has the checksum zero.
pub checksum_of-filled :
    (blank filled : List ℕ)
    → IsBytes blank
    → IsBytes filled
    → length blank ≤ 30000
    → length filled ≤ 30000
    → plain_sum filled ≡ plain_sum blank + checksum blank
    → checksum filled ≡ 0
checksum_of-filled blank filled hb hf sb sf added =
    let (bound, plain) = checksum-plain blank hb sb in
    let (bound', plain') = checksum-plain filled hf sf in
    rw (plain', added, plain) (checks (plain_sum blank) bound)
