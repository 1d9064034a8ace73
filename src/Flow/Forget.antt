-- ===== src/Flow/Forget.antt =====
-- Forget of internal/wgdev/flow.go: what a change of policy takes back.
use callsignet.Base.{◌+◌, ◌≡◌, refl, arith, Bool, true, false, not, ◌&&◌, [], ◌∷◌, length, any}
use callsignet.Flow.{FlowKey, FlowState, Flows, Seen, forget_seen, forget}

-- Whether an entry is to be forgotten.
abbrev pub revoked : (FlowKey → Bool) → FlowKey × FlowState → Bool
revoked keep (k, e) = e.allowed && not (keep k)

forget_seen_lem :
    (keep : FlowKey → Bool) (m : Seen)
    → (any (revoked keep) (forget_seen keep m).0 ≡ false)
      × (length (forget_seen keep m).0 + (forget_seen keep m).1 ≡ length m)
unfolding forget_seen
forget_seen_lem keep [] = (refl, omega arith)
forget_seen_lem keep ((k, e) ∷ m) = let ih = forget_seen_lem keep m in (ground arith, ground arith)

forget_seen_keeps :
    (keep : FlowKey → Bool) (p : FlowKey × FlowState → Bool) (m : Seen)
    → ((x : FlowKey × FlowState) → p x ≡ true → revoked keep x ≡ false)
    → any p (forget_seen keep m).0 ≡ any p m
unfolding forget_seen
forget_seen_keeps keep p [] h = refl
forget_seen_keeps keep p ((k, e) ∷ m) h = ground (arith, h (k, e), forget_seen_keeps keep p m h)

-- After Forget no allowed connection is left that `keep` refuses; what it returns is the number of
-- entries deleted; and no other entry is touched: a test that fails on all that is to be forgotten
-- finds an entry after it exactly where it did before.
pub forget_lem :
    (f : Flows) (keep : FlowKey → Bool)
    → (any (revoked keep) (forget f keep).0.seen ≡ false)
      × (length (forget f keep).0.seen + (forget f keep).1 ≡ length f.seen)
      × ((p : FlowKey × FlowState → Bool)
          → ((x : FlowKey × FlowState) → p x ≡ true → revoked keep x ≡ false)
          → any p (forget f keep).0.seen ≡ any p f.seen)
unfolding forget
forget_lem f keep =
    let (gone, counted) = forget_seen_lem keep f.seen in
    (gone, counted, λ p h. forget_seen_keeps keep p f.seen h)
