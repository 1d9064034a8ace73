-- ===== src/Guard/Table.antt =====
-- Apply of internal/guard/guard.go: the table that it leaves in the kernel.
use callsignet.Base.{true, false, none, some, ◌≡◌, ◌⊎◌, arith, inl, inr, Bool-cases}
use callsignet.Guard.{Nft, Guard, GuardConfig, is_off, guard_rules, remove_table, apply}

-- That the kernel has the table of a configuration: its rules, or none where the mode is "off".
-- Where nft is missing nobody looked, and an older table may be there.
abbrev pub Holds : GuardConfig → Guard → Type 0
Holds c g =
    ((is_off c.mode ≡ false) × (g.table ≡ some (guard_rules c)))
    ⊎ ((is_off c.mode ≡ true) × ((g.table ≡ none) ⊎ (g.unchecked ≡ true)))

-- An Apply without an error puts the table of its configuration in place, or takes it away.
pub apply-Holds :
    (nft : Nft) (g : Guard) (c : GuardConfig) → (apply nft g c).1 ≡ none → Holds c (apply nft g c).0
unfolding apply remove_table
apply-Holds nft g c done = elim (Bool-cases (is_off c.mode)) [
  | inl off ↦ elim (Bool-cases nft.found) [
    | inl found ↦ inr (off, inl (ground arith))
    | inr lost ↦ inr (off, inr (ground arith))
  ]
  | inr rules ↦ inl (rules, ground arith)
]
