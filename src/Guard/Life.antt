-- ===== src/Guard/Life.antt =====
-- The life of a guard of internal/guard/guard.go: Apply, Keep and Close in any order.
use callsignet.Base.{
  Bool, true, false, not, ◌&&◌, Option, none, some, List, [], ◌∷◌, ◌≡◌, refl, ap, all, ◌∙◌, arith,
  if◌then◌else◌,
}
use callsignet.Guard.Verdict.{Arrival, accepts}
use callsignet.Guard.{
  Mode, mode_off, mode_services, mode_all, GuardConfig, guard_rules, Line, Guard, Nft, apply,
  remove_table, keep_table, close,
}

pub data Call : Type 0 where
  apply_call : Nft → GuardConfig → Call
  keep_call : Call
  close_call : Bool → Call

unfoldable pub step : Guard → Call → Guard
step g (apply_call nft c) = (apply nft g c).0
step g keep_call = keep_table g
step g (close_call deletes) = close deletes g

unfoldable pub run : Guard → List Call → Guard
run g [] = g
run g (c ∷ cs) = run (step g c) cs

-- The table that stands after the calls, where `on` says whether a table of this guard is there,
-- and `kept` whether Keep was called.
pub record Life : Type 0 where
  pub on : Bool
  pub kept : Bool
  pub table : Option (List Line)

abbrev off : Mode → Bool
off mode_off = true
off _ = false

-- What a call promises: a table is replaced only by a ruleset that nft took, and it goes only where
-- the mode is off or a Close comes without a Keep before it.
unfoldable pub promise : Life → Call → Life
promise l (apply_call nft c) =
    if not (nft.found && nft.takes)
    then (if off c.mode && not nft.found then record l { on = false } else l)
    else if off c.mode
    then record l { on = false; table = none }
    else record l { on = true; table = some (guard_rules c) }
promise l keep_call = record l { kept = true }
promise l (close_call deletes) =
    if l.on && not l.kept && deletes then record l { on = false; table = none } else l

unfoldable pub promises : Life → List Call → Life
promises l [] = l
promises l (c ∷ cs) = promises (promise l c) cs

abbrev pub life_of : Guard → Life
life_of g = record { on = g.on; kept = g.keep; table = g.table }

life-apply :
    (g : Guard) (nft : Nft) (c : GuardConfig) (m : Mode)
    → c.mode ≡ m
    → life_of (apply nft g c).0 ≡ promise (life_of g) (apply_call nft c)
unfolding promise apply remove_table
life-apply g nft c mode_off e = ground arith
life-apply g nft c mode_all e = ground arith
life-apply g nft c mode_services e = ground arith

life-step : (g : Guard) (c : Call) → life_of (step g c) ≡ promise (life_of g) c
unfolding step promise keep_table close
life-step g (apply_call nft c) = life-apply g nft c c.mode refl
life-step g keep_call = refl
life-step g (close_call deletes) = ground arith

-- Whatever calls are made, in any order and with any answers of nft, the table that the kernel has
-- and what the guard believes of it are what the calls promise: Apply puts the ruleset of its mode
-- in place if nft takes it and else leaves the table as it was, the mode "off" removes any table,
-- and Close removes the table only where this guard put it there and Keep was not called before.
pub run-promises : (g : Guard) (cs : List Call) → life_of (run g cs) ≡ promises (life_of g) cs
unfolding run promises
run-promises g [] = refl
run-promises g (c ∷ cs) = run-promises (step g c) cs ∙ ap (λ l. promises l cs) (life-step g c)

-- Whether the kernel's table, where it has one, turns the packet away.
abbrev pub refuses : Option (List Line) → Arrival → Bool
refuses none a = false
refuses (some ls) a = not (accepts ls a)

-- Each ruleset that the calls put in place turns the packet away, too.
abbrev pub keeps_shut : Arrival → Call → Bool
keeps_shut a (apply_call nft c) = not (off c.mode) && not (accepts (guard_rules c) a)
keeps_shut a _ = true

shut-apply :
    (a : Arrival) (g : Guard) (nft : Nft) (c : GuardConfig) (m : Mode)
    → c.mode ≡ m
    → g.keep ≡ true
    → refuses g.table a ≡ true
    → keeps_shut a (apply_call nft c) ≡ true
    → ((apply nft g c).0.keep ≡ true) × (refuses (apply nft g c).0.table a ≡ true)
unfolding apply
shut-apply a g nft c mode_off e k r s = ground arith
shut-apply a g nft c mode_all e k r s = ground arith
shut-apply a g nft c mode_services e k r s = ground arith

shut-step :
    (a : Arrival) (g : Guard) (c : Call)
    → g.keep ≡ true
    → refuses g.table a ≡ true
    → keeps_shut a c ≡ true
    → ((step g c).keep ≡ true) × (refuses (step g c).table a ≡ true)
unfolding step apply keep_table close
shut-step a g (apply_call nft c) k r s = shut-apply a g nft c c.mode refl k r s
shut-step a g keep_call k r s = ground arith
shut-step a g (close_call deletes) k r s = ground arith

-- After Keep, a packet that the table turns away stays out: no Close opens the table again, and no
-- Apply does, whether nft takes it or not, as long as the rulesets that are applied turn the packet
-- away and none has the mode "off".
pub run-refuses :
    (a : Arrival) (g : Guard) (cs : List Call)
    → g.keep ≡ true
    → refuses g.table a ≡ true
    → all (keeps_shut a) cs ≡ true
    → refuses (run g cs).table a ≡ true
unfolding run
run-refuses a g [] k r s = r
run-refuses a g (c ∷ cs) k r s =
    let (k', r') = shut-step a g c k r (ground arith) in
    run-refuses a (step g c) cs k' r' (ground arith)
