-- ===== src/Flow/Grant.antt =====
-- Which replies internal/wgdev/flow.go lets through, over every sequence of steps.
use callsignet.Base.{
  ℕ, zero, suc, ◌+◌, ◌≡◌, inl, inr, arith, Bool, true, false, ◌&&◌, ◌||◌, some, List, [], ◌∷◌, ◌<◌,
  ◌==◌, any, find, put, drop, Option-cases,
}
use callsignet.Flow.{
  FlowKey, FlowState, flow_key_beq_iff, Flows, Seen, half, IsWalk, drop_old, sweep, make_room,
  first, allow, is_reply, forget_seen, forget, flow_as_key, reverse, ttl_of, new_conns,
}

pub data Op : Type 0 where
  op_first : FlowKey → Op
  op_allow : FlowKey → Op
  op_reply : FlowKey → Op
  op_forget : (FlowKey → Bool) → Op

-- Whether a connection stands admitted by a history that begins with `g`: it was allowed, and no
-- later Forget refused it.
abbrev pub granted : FlowKey → Bool → List (ℕ × Op) → Bool
granted k g [] = g
granted k g ((now, op_first j) ∷ ops) = granted k g ops
granted k g ((now, op_allow j) ∷ ops) = granted k (g || j == k) ops
granted k g ((now, op_reply j) ∷ ops) = granted k g ops
granted k g ((now, op_forget keep) ∷ ops) = granted k (g && keep k) ops

-- Whether the memory holds the connection as allowed.
abbrev pub is_entry : FlowKey → FlowKey × FlowState → Bool
is_entry k (j, e) = j == k && e.allowed

abbrev pub holds : FlowKey → Seen → Bool
holds k m = any (is_entry k) m

holds-drop_old :
    (f : Flows) (now : ℕ) (k : FlowKey) (m : Seen)
    → holds k (drop_old f now m) ≡ true
    → holds k m ≡ true
unfolding drop_old
holds-drop_old f now k [] h = h
holds-drop_old f now k ((j, e) ∷ m) h = ground (arith, holds-drop_old f now k m)

holds-drop : (n : ℕ) (k : FlowKey) (m : Seen) → holds k (drop n m) ≡ true → holds k m ≡ true
holds-drop zero k m h = h
holds-drop (suc n) k [] h = h
holds-drop (suc n) k (x ∷ m) h = ground (arith, holds-drop n k m)

holds-put :
    (k j : FlowKey) (e : FlowState) (m : Seen)
    → holds k (put j e m) ≡ true
    → ((j == k && e.allowed) || holds k m) ≡ true
unfolding put
holds-put k j e [] h = ground arith
holds-put k j e ((i, d) ∷ m) h = ground (arith, holds-put k j e m)

holds-find :
    (k : FlowKey) (e : FlowState) (m : Seen)
    → find k m ≡ some e
    → e.allowed ≡ true
    → holds k m ≡ true
unfolding find
holds-find k e [] h a = cc
holds-find k e ((j, d) ∷ m) h a = ground (arith, holds-find k e m)

holds-forget_seen :
    (keep : FlowKey → Bool) (k : FlowKey) (m : Seen)
    → holds k (forget_seen keep m).0 ≡ true
    → (holds k m && keep k) ≡ true
unfolding forget_seen
holds-forget_seen keep k [] h = ground arith
holds-forget_seen keep k ((j, e) ∷ m) h =
    ground (arith, holds-forget_seen keep k m, flow_key_beq_iff j k)

module _ (walk : Seen → Seen) where
  -- One step of the program, and a run of them.
  unfoldable pub step : Flows → ℕ × Op → Flows
  step f (now, op_first k) = (first walk f now k).0
  step f (now, op_allow k) = allow walk f now k
  step f (now, op_reply k) = (is_reply walk f now k).0
  step f (now, op_forget keep) = (forget f keep).0

  unfoldable pub run : Flows → List (ℕ × Op) → Flows
  run f [] = f
  run f (o ∷ ops) = run (step f o) ops

  module _ (w : IsWalk walk) where
    holds-make_room :
        (f : Flows) (now : ℕ) (k : FlowKey)
        → holds k (make_room walk f now).seen ≡ true
        → holds k f.seen ≡ true
    unfolding sweep
    holds-make_room f now k h =
        let young = drop_old f now f.seen in
        ground (
          arith,
          holds-drop (half young) k (walk young),
          w.same_any (is_entry k) young,
          holds-drop_old f now k f.seen,
        )

    holds-first :
        (f : Flows) (now : ℕ) (j k : FlowKey)
        → holds k (first walk f now j).0.seen ≡ true
        → holds k f.seen ≡ true
    unfolding first
    holds-first f now j k h = elim (Option-cases (find j f.seen)) [
      | inl new ↦ ground (
        arith,
        holds-put k j (record { at = now; allowed = false }) (make_room walk f now).seen,
        holds-make_room f now k,
      )
      | inr (e, old) ↦ ground (
        arith,
        holds-put k j (record { at = now; allowed = false }) (make_room walk f now).seen,
        holds-put k j (record { at = now; allowed = e.allowed }) f.seen,
        holds-make_room f now k,
        holds-find j e f.seen old,
        flow_key_beq_iff j k,
      )
    ]

    holds-is_reply :
        (f : Flows) (now : ℕ) (j k : FlowKey)
        → holds k (is_reply walk f now j).0.seen ≡ true
        → holds k f.seen ≡ true
    unfolding is_reply
    holds-is_reply f now j k h = elim (Option-cases (find (reverse j) f.seen)) [
      | inl new ↦ ground arith
      | inr (e, old) ↦ ground (
        arith,
        holds-put k (reverse j) (record { at = now; allowed = e.allowed }) f.seen,
        holds-find (reverse j) e f.seen old,
        flow_key_beq_iff (reverse j) k,
      )
    ]

    holds-allow :
        (f : Flows) (now : ℕ) (j k : FlowKey)
        → holds k (allow walk f now j).seen ≡ true
        → (holds k f.seen || j == k) ≡ true
    unfolding allow
    holds-allow f now j k h = ground (
      arith,
      holds-put k j (record { at = now; allowed = true }) (make_room walk f now).seen,
      holds-make_room f now k,
    )

    granted_mono :
        (k : FlowKey) (a b : Bool) (ops : List (ℕ × Op))
        → (a ≡ true → b ≡ true)
        → granted k a ops ≡ true
        → granted k b ops ≡ true
    granted_mono k a b [] m h = m h
    granted_mono k a b ((now, op_first j) ∷ ops) m h = granted_mono k a b ops m h
    granted_mono k a b ((now, op_allow j) ∷ ops) m h =
        granted_mono k (a || j == k) (b || j == k) ops (λ e. ground arith) h
    granted_mono k a b ((now, op_reply j) ∷ ops) m h = granted_mono k a b ops m h
    granted_mono k a b ((now, op_forget keep) ∷ ops) m h =
        granted_mono k (a && keep k) (b && keep k) ops (λ e. ground arith) h

    holds-run :
        (k : FlowKey) (f : Flows) (ops : List (ℕ × Op))
        → holds k (run f ops).seen ≡ true
        → granted k (holds k f.seen) ops ≡ true
    unfolding run step forget
    holds-run k f [] h = h
    holds-run k f ((now, op_first j) ∷ ops) h =
        granted_mono k _ _ ops (holds-first f now j k) (holds-run k (first walk f now j).0 ops h)
    holds-run k f ((now, op_allow j) ∷ ops) h =
        granted_mono k _ _ ops (holds-allow f now j k) (holds-run k (allow walk f now j) ops h)
    holds-run k f ((now, op_reply j) ∷ ops) h =
        granted_mono k _ _ ops (holds-is_reply f now j k)
          (holds-run k (is_reply walk f now j).0 ops h)
    holds-run k f ((now, op_forget keep) ∷ ops) h =
        granted_mono k _ _ ops (holds-forget_seen keep k f.seen)
          (holds-run k (forget f keep).0 ops h)

  -- Where IsReply says yes, the reverse connection is held as allowed and its time is not over.
  pub is_reply-holds :
      (f : Flows) (now : ℕ) (k : FlowKey)
      → (is_reply walk f now k).1 ≡ true
      → (holds (reverse k) f.seen ≡ true)
        × (e : FlowState) × (find (reverse k) f.seen ≡ some e)
        × (now < e.at + ttl_of f (reverse k))
  unfolding is_reply
  is_reply-holds f now k h = elim (Option-cases (find (reverse k) f.seen)) [
    | inl new ↦ absurd (ground arith)
    | inr (e, old) ↦ (holds-find (reverse k) e f.seen old (ground arith), e, old, ground arith)
  ]

-- After every sequence of steps from an empty memory, a packet passes as a reply only if the
-- reverse connection was allowed in it, and no Forget after that refused the connection.
pub is_reply-granted :
    (walk : Seen → Seen) (w : IsWalk walk) (max now : ℕ) (k : FlowKey) (ops : List (ℕ × Op))
    → (is_reply walk (run walk (new_conns max) ops) now k).1 ≡ true
    → granted (reverse k) false ops ≡ true
unfolding new_conns
is_reply-granted walk w max now k ops h =
    let (held, e, found, live) = is_reply-holds walk (run walk (new_conns max) ops) now k h in
    holds-run walk w (reverse k) (new_conns max) ops held
