-- ===== src/Flow/Size.antt =====
-- The bound on the memory of internal/wgdev/flow.go.
use callsignet.Base.{
  ℕ, ◌≤◌, ◌<◌, ◌≡◌, inl, inr, arith, Bool, true, false, some, [], ◌∷◌, length, length-drop,
  length-put, find, put, Option-cases,
}
use callsignet.Flow.{
  FlowKey, FlowState, Flows, Seen, half, IsWalk, drop_old, sweep, make_room, write, first, allow,
  is_reply, flow_as_key, reverse,
}

length-drop_old : (f : Flows) (now : ℕ) (m : Seen) → length (drop_old f now m) ≤ length m
unfolding drop_old
length-drop_old f now [] = omega arith
length-drop_old f now ((k, e) ∷ m) = ground (arith, length-drop_old f now m)

-- A write to a key that is there adds no entry.
length-put_known :
    (k : FlowKey) (v e : FlowState) (m : Seen) → find k m ≡ some e → length (put k v m) ≡ length m
unfolding find put
length-put_known k v e [] h = cc
length-put_known k v e ((j, w) ∷ m) h = ground (arith, length-put_known k v e m)

module _ (walk : Seen → Seen) (w : IsWalk walk) where
  -- A sweep of a memory that is at most full leaves room for one entry.
  length-sweep :
      (f : Flows) (now : ℕ)
      → 0 < f.max
      → length f.seen ≤ f.max
      → length (sweep walk f now).seen < f.max
  unfolding sweep
  length-sweep f now p h =
      let young = drop_old f now f.seen in
      ground (
        arith,
        length-drop_old f now f.seen,
        length-drop (half young) (walk young),
        w.same_length young,
      )

  length-make_room :
      (f : Flows) (now : ℕ)
      → 0 < f.max
      → length f.seen ≤ f.max
      → (length (make_room walk f now).seen < f.max) × ((make_room walk f now).max ≡ f.max)
  unfolding sweep
  length-make_room f now p h = ground (arith, length-sweep f now p h)

  room_for_one :
      (f : Flows) (now at : ℕ) (k : FlowKey) (b : Bool)
      → 0 < f.max
      → length f.seen ≤ f.max
      → (length (write walk (make_room walk f now) k at b).seen ≤ f.max)
        × ((write walk (make_room walk f now) k at b).max ≡ f.max)
  room_for_one f now at k b p h = omega (
    arith,
    length-make_room f now p h,
    length-put k (record { at = at; allowed = b }) (make_room walk f now).seen,
  )

  -- Where `max` is above 0, and a walk over the map gives each of its entries once, a memory that
  -- holds at most `max` entries does so after First, Allow and IsReply, and none of them changes
  -- `max`.
  pub size_bound :
      (f : Flows) (now : ℕ) (k : FlowKey)
      → 0 < f.max
      → length f.seen ≤ f.max
      → ((length (first walk f now k).0.seen ≤ f.max) × ((first walk f now k).0.max ≡ f.max))
        × ((length (allow walk f now k).seen ≤ f.max) × ((allow walk f now k).max ≡ f.max))
        × ((length (is_reply walk f now k).0.seen ≤ f.max)
            × ((is_reply walk f now k).0.max ≡ f.max))
  unfolding first allow is_reply
  size_bound f now k p h = (first_bound, allow_bound, reply_bound)
    where
      first_bound :
          (length (first walk f now k).0.seen ≤ f.max) × ((first walk f now k).0.max ≡ f.max)
      first_bound = elim (Option-cases (find k f.seen)) [
        | inl new ↦ ground (arith, room_for_one f now now k false p h)
        | inr (e, old) ↦ ground (
          arith,
          room_for_one f now now k false p h,
          length-put_known k (record { at = now; allowed = e.allowed }) e f.seen old,
        )
      ]

      allow_bound : (length (allow walk f now k).seen ≤ f.max) × ((allow walk f now k).max ≡ f.max)
      allow_bound = room_for_one f now now k true p h

      reply_bound :
          (length (is_reply walk f now k).0.seen ≤ f.max) × ((is_reply walk f now k).0.max ≡ f.max)
      reply_bound = elim (Option-cases (find (reverse k) f.seen)) [
        | inl new ↦ ground arith
        | inr (e, old) ↦ ground (
          arith,
          length-put_known (reverse k) (record { at = now; allowed = e.allowed }) e f.seen old,
        )
      ]
