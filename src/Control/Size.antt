-- ===== src/Control/Size.antt =====
-- size of internal/control/status.go: which sizes it can write.
use callsignet.Base.{
  ℕ, ◌+◌, ◌*◌, ◌/◌, ◌^◌, ◌≤◌, ◌<◌, ◌≡◌, ◌↔◌, sym, ap, ◌∙◌, arith, none, some, pos, get_elem?,
  Option-cases, ltb, Bool-cases, inl, inr,
}
use callsignet.Control.{in_units, out_of_range, unit_loop, units, size}

-- The unit of a size: the divisor, which is a power of 1024, is at most the size, and the next one
-- is above it.
pub unit_loop_lem :
    (n : ℕ)
    → 1024 ≤ n
    → n < 2 ^ 63
    → let (div, exp) = unit_loop 6 (n / 1024) 1024 0 in
      (div ≤ n) × (n < div * 1024) × (div ≡ 1024 ^ (exp + 1))
unfolding unit_loop
unit_loop_lem n large small = ground arith

-- The index of the unit is past the letters from 1024 ^ 5 on.
unit_loop-index :
    (n : ℕ)
    → 1024 ≤ n
    → n < 2 ^ 63
    → (get_elem? units (unit_loop 6 (n / 1024) 1024 0).1 ≡ none) ↔ (1024 ^ 5 ≤ n)
unfolding unit_loop
unit_loop-index n large small = ground arith

-- csa status can write a size that is an int64 exactly if it is below 1024 ^ 5 bytes; the letter
-- of the unit belongs to the divisor, which is the largest power of 1024 that is at most the size.
pub size_lem :
    (n : ℕ)
    → n < 2 ^ 63
    → ((size (pos n) ≡ out_of_range) ↔ (1024 ^ 5 ≤ n))
      × ((div unit : ℕ)
          → size (pos n) ≡ in_units n div unit
          → (div ≤ n)
            × (n < div * 1024)
            × ((e : ℕ) × (div ≡ 1024 ^ (e + 1)) × (get_elem? units e ≡ some unit)))
unfolding size
size_lem n small = elim (Bool-cases (ltb n 1024)) [
  | inl few ↦ (ground (arith, few), λ div unit e. absurd (ground (arith, few)))
  | inr many ↦
      let large : 1024 ≤ n = ground (arith, many) in
      let (low, high, power) = unit_loop_lem n large small in
      let index = unit_loop-index n large small in
      let (div, exp) = unit_loop 6 (n / 1024) 1024 0 in
      elim (Option-cases (get_elem? units exp)) [
        | inl past ↦
            (ground (arith, many, past, index), λ div' unit e. absurd (ground (arith, many, past)))
        | inr (letter, found) ↦ (
          ground (arith, many, found, index),
          λ div' unit e.
              let same : div ≡ div' = ground (arith, many, found) in
              let named : letter ≡ unit = ground (arith, many, found) in
              (
                ground (arith, low, same),
                ground (arith, high, same),
                (exp, sym same ∙ power, found ∙ ap some named),
              ),
        )
      ]
]
