-- ===== src/Control.antt =====
-- internal/control/status.go: how `csa status` writes sizes, and how it lays out its table.
--
-- The loop of size has six rounds of fuel, since an int64 is below 1024 ^ 7.
pub mod Size
use callsignet.Base.{
  ℕ, zero, suc, ◌+◌, ◌*◌, ◌/◌, Option, none, some, List, [], ◌∷◌, ℤ, pos, negsuc, ltb, leb,
  get_elem?, if◌then◌else◌,
}

-- What size writes: bytes; or a number of bytes, what it is divided by, and the letter of the unit.
-- `out_of_range` is the panic of the index.
pub data Shown : Type 0 where
  in_bytes : ℤ → Shown
  in_units : ℕ → ℕ → ℕ → Shown
  out_of_range : Shown

-- The loop: the divisor, and the index of the unit.
unfoldable pub unit_loop : ℕ → ℕ → ℕ → ℕ → ℕ × ℕ
unit_loop zero v div exp = (div, exp)
unit_loop (suc fuel) v div exp =
    let next = unit_loop fuel (v / 1024) (div * 1024) (exp + 1) in
    if leb 1024 v then next else (div, exp)

abbrev pub units : List ℕ
units = b'K' ∷ b'M' ∷ b'G' ∷ b'T' ∷ []

unfoldable pub size : ℤ → Shown
size (negsuc n) = in_bytes (negsuc n)
size (pos n) =
    let (div, exp) = unit_loop 6 (n / 1024) 1024 0 in
    let scaled : Shown = elim (get_elem? units exp) [
      | none ↦ out_of_range
      | some unit ↦ in_units n div unit
    ] in
    if ltb n 1024 then in_bytes (pos n) else scaled
