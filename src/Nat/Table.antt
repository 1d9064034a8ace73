-- ===== src/Nat/Table.antt =====
-- The table of internal/nat/nat.go in the kernel: Check, Apply, Keep and Close.
--
-- The state holds the fields of NAT and the table that the kernel has under its name. What nft
-- answers is a parameter of each call.
use callsignet.Base.{
  Bool, true, false, not, Option, none, some, if◌then◌else◌, Result, ok, err, ◌≡◌, ◌⊎◌, arith, inl,
  inr, Bool-cases,
}
use callsignet.Guard.{Nft, GuardError, nft_missing, nft_refuses}
use callsignet.Nat.{
  Outgoing, Incoming, out_services, in_real_ip, NatConfig, NatTable, is_nothing, nat_rules,
}

pub record Nat : Type 0 where
  pub outgoing : Outgoing
  pub incoming : Incoming
  pub on : Bool
  pub keep : Bool
  pub unchecked : Bool
  pub table : Option NatTable

-- New, where the kernel has this table.
unfoldable pub new_nat : Option NatTable → Nat
new_nat left = record {
  outgoing = out_services;
  incoming = in_real_ip;
  on = false;
  keep = false;
  unchecked = false;
  table = left;
}

unfoldable pub check : Nft → NatConfig → Option GuardError
check nft c =
    if is_nothing c
    then none
    else if not nft.found
    then some nft_missing
    else if not nft.takes
    then some nft_refuses
    else none

unfoldable pub remove_table : Nft → Option NatTable → Result GuardError (Option NatTable × Bool)
remove_table nft table =
    if not nft.found
    then ok (table, false)
    else if not nft.takes
    then err nft_refuses
    else ok (none, true)

abbrev apply_nothing : Nat → Result GuardError (Option NatTable × Bool) → Nat × Option GuardError
apply_nothing n (err e) = (n, some e)
apply_nothing n (ok (table, checked)) =
    (record n { on = false; unchecked = not checked; table = table }, none)

unfoldable pub apply : Nft → Nat → NatConfig → Nat × Option GuardError
apply nft n c =
    let n₁ = record n { outgoing = c.outgoing; incoming = c.incoming } in
    let n₂ = record n₁ { unchecked = false } in
    if is_nothing c
    then apply_nothing n₁ (remove_table nft n₁.table)
    else if not nft.found
    then (n₁, some nft_missing)
    else if not nft.takes
    then (n₂, some nft_refuses)
    else (record n₂ { on = true; table = some (nat_rules c) }, none)

unfoldable pub keep_table : Nat → Nat
keep_table n = record n { keep = true }

-- Close, where nft deletes the table or does not.
unfoldable pub close : Bool → Nat → Nat
close deletes n =
    if not n.on
    then n
    else if n.keep
    then n
    else if not deletes
    then n
    else record n { on = false; table = none }

-- That the kernel has the table of a configuration: its rules, or none where it asks for none.
-- Where nft is missing nobody looked, and an older table may be there.
abbrev pub Holds : NatConfig → Nat → Type 0
Holds c n =
    ((is_nothing c ≡ false) × (n.table ≡ some (nat_rules c)))
    ⊎ ((is_nothing c ≡ true) × ((n.table ≡ none) ⊎ (n.unchecked ≡ true)))

-- An Apply without an error puts the table of its configuration in place, or takes it away.
pub apply-Holds :
    (nft : Nft) (n : Nat) (c : NatConfig) → (apply nft n c).1 ≡ none → Holds c (apply nft n c).0
unfolding apply remove_table
apply-Holds nft n c done = elim (Bool-cases (is_nothing c)) [
  | inl nothing ↦ elim (Bool-cases nft.found) [
    | inl found ↦ inr (nothing, inl (ground arith))
    | inr lost ↦ inr (nothing, inr (ground arith))
  ]
  | inr rules ↦ inl (rules, ground arith)
]
