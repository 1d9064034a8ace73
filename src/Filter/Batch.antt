-- ===== src/Filter/Batch.antt =====
-- The loop of Read of internal/wgdev/filter.go, which moves the packets it keeps to the front.
use mathlib.Core.Path.{ap₂}
use callsignet.Base.{
  ℕ, ◌+◌, ◌≡◌, refl, sym, ◌∙◌, ap, inl, inr, arith, List, [], ◌∷◌, ◌++◌, length, length-append,
  get_or, set, take, if◌then◌else◌, not, Bool-cases, append_assoc, append-nil,
}
use callsignet.Filter.{Filter, Moment, allow_out, clamp, reject, read_one, read_loop, read}

-- What Read is for, from the packet at `i` on: the packets that may go out, lowered, in their
-- order; each other one is rejected.
pub passed : (ℕ → Moment) → ℕ → Filter → List (List ℕ) → Filter × List (List ℕ)
passed ms i f [] = (f, [])
passed ms i f (pkt ∷ pkts) =
    let (g, (d, passes)) = allow_out (ms i) f pkt in
    let (h, out) = clamp g pkt in
    let (h', rest) = passed ms (i + 1) h pkts in
    let refused = passed ms (i + 1) (reject g pkt) pkts in
    if passes then (h', out ∷ rest) else refused

module _ {ℓ} {A : Type ℓ} where
  get_or-append :
      (xs : List A) (y : A) (ys : List A) (d : A) → get_or (xs ++ y ∷ ys) (length xs) d ≡ y
  get_or-append [] y ys d = refl
  get_or-append (x ∷ xs) y ys d = get_or-append xs y ys d

  set-append :
      (xs : List A) (y v : A) (ys : List A) → set (xs ++ y ∷ ys) (length xs) v ≡ xs ++ v ∷ ys
  set-append [] y v ys = refl
  set-append (x ∷ xs) y v ys = ap (λ l. x ∷ l) (set-append xs y v ys)

  take-append : (xs ys : List A) → take (length xs) (xs ++ ys) ≡ xs
  take-append [] ys = refl
  take-append (x ∷ xs) ys = ap (λ l. x ∷ l) (take-append xs ys)

  -- The buffers between the kept packets and the next one, after one more is kept.
  shift : List A → A → List A
  shift [] v = []
  shift (j ∷ js) v = js ++ v ∷ []

  keep_one :
      (ks js : List A) (v : A) (ps : List A)
      → set (ks ++ (js ++ v ∷ ps)) (length ks) v ≡ (ks ++ v ∷ []) ++ (shift js v ++ ps)
  unfolding shift
  keep_one ks [] v ps = set-append ks v v ps ∙ sym (append_assoc ks (v ∷ []) ps)
  keep_one ks (j ∷ js) v ps =
      set-append ks j v (js ++ v ∷ ps)
      ∙ ap (λ l. ks ++ v ∷ l) (sym (append_assoc js (v ∷ []) ps))
      ∙ sym (append_assoc ks (v ∷ []) ((js ++ v ∷ []) ++ ps))

  length-shift :
      (ks js : List A) (v : A)
      → length (ks ++ v ∷ []) + length (shift js v) ≡ length ks + length js + 1
  unfolding shift
  length-shift ks [] v = omega (arith, length-append {ℓ} ks (v ∷ []))
  length-shift ks (j ∷ js) v =
      omega (arith, length-append {ℓ} ks (v ∷ []), length-append {ℓ} js (v ∷ []))

-- The buffers at a round: the kept packets, some that are done with, and those to come.
record Round (ks js ps bufs : List (List ℕ)) (kept i : ℕ) : Type 0 where
  held : bufs ≡ ks ++ (js ++ ps)
  count : kept ≡ length ks
  place : i ≡ length ks + length js

at_place :
    (ks js ps bufs : List (List ℕ)) (p : List ℕ) (kept i : ℕ)
    → Round ks js (p ∷ ps) bufs kept i
    → (bufs ≡ (ks ++ js) ++ p ∷ ps) × (i ≡ length (ks ++ js)) × (get_or bufs i [] ≡ p)
at_place ks js ps bufs p kept i r =
    let e : bufs ≡ (ks ++ js) ++ p ∷ ps = r.held ∙ sym (append_assoc ks js (p ∷ ps)) in
    let n : i ≡ length (ks ++ js) = omega (arith, length-append {0} ks js, r.place) in
    (e, n, rw (e, n) (get_or-append (ks ++ js) p ps []))

kept_buffers :
    (ks js ps bufs : List (List ℕ)) (p v : List ℕ) (kept i : ℕ)
    → Round ks js (p ∷ ps) bufs kept i
    → set (set bufs i v) kept v ≡ (ks ++ v ∷ []) ++ (shift js v ++ ps)
kept_buffers ks js ps bufs p v kept i r =
    let (e, n, found) = at_place ks js ps bufs p kept i r in
    ap (λ l. set l kept v)
      (ap₂ (λ l j. set l j v) e n ∙ set-append (ks ++ js) p v ps ∙ append_assoc ks js (v ∷ ps))
    ∙ ap (λ j. set (ks ++ (js ++ v ∷ ps)) j v) r.count
    ∙ keep_one ks js v ps

-- The round after a packet was kept, and the round after one was rejected.
Round-keep :
    (ks js ps bufs : List (List ℕ)) (p v : List ℕ) (kept i : ℕ)
    → Round ks js (p ∷ ps) bufs kept i
    → Round (ks ++ v ∷ []) (shift js v) ps (set (set bufs i v) kept v) (kept + 1) (i + 1)
Round-keep ks js ps bufs p v kept i r = record {
  held = kept_buffers ks js ps bufs p v kept i r;
  count = omega (arith, r.count, length-append {0} ks (v ∷ []));
  place = omega (arith, r.place, length-shift {0} ks js v);
}

Round-reject :
    (ks js ps bufs : List (List ℕ)) (p : List ℕ) (kept i : ℕ)
    → Round ks js (p ∷ ps) bufs kept i
    → Round ks (js ++ p ∷ []) ps bufs kept (i + 1)
Round-reject ks js ps bufs p kept i r = record {
  held = r.held ∙ ap (λ l. ks ++ l) (sym (append_assoc js (p ∷ []) ps));
  count = r.count;
  place = omega (arith, r.place, length-append {0} js (p ∷ []));
}

read_one_lem :
    (m : Moment) (f : Filter) (bufs : List (List ℕ)) (p : List ℕ) (kept i : ℕ)
    → get_or bufs i [] ≡ p
    → let (g, (d, passes)) = allow_out m f p in
      let (h, out) = clamp g p in
      read_one m f bufs kept i ≡ (
        if not passes
        then (reject g p, (bufs, kept))
        else (h, (set (set bufs i out) kept out, kept + 1)))
unfolding read_one
read_one_lem m f bufs p kept i e = rw e

loop_passed :
    (ms : ℕ → Moment) (f : Filter) (ks js ps bufs : List (List ℕ)) (kept i : ℕ)
    → Round ks js ps bufs kept i
    → let done = read_loop ms f bufs kept i (length ps) in
      (done.0 ≡ (passed ms i f ps).0) × (take done.1.1 done.1.0 ≡ ks ++ (passed ms i f ps).1)
unfolding read_loop passed
loop_passed ms f ks js [] bufs kept i r =
    (refl, rw (r.held, r.count) (take-append ks (js ++ []) ∙ sym (append-nil ks)))
loop_passed ms f ks js (p ∷ ps) bufs kept i r =
    let one = read_one_lem (ms i) f bufs p kept i (at_place ks js ps bufs p kept i r).2 in
    let g = (allow_out (ms i) f p).0 in
    let h = (clamp g p).0 in
    let out = (clamp g p).1 in
    elim (Bool-cases (allow_out (ms i) f p).1.1) [
      | inl passes ↦
          let ih =
            loop_passed ms h (ks ++ out ∷ []) (shift js out) ps (set (set bufs i out) kept out)
              (kept + 1) (i + 1) (Round-keep ks js ps bufs p out kept i r) in
          rw (one, read_loop) (rw passes (ih.0, ih.1 ∙ append_assoc ks (out ∷ []) _))
      | inr refused ↦
          let ih =
            loop_passed ms (reject g p) ks (js ++ p ∷ []) ps bufs kept (i + 1)
              (Round-reject ks js ps bufs p kept i r) in
          rw (one, read_loop) (rw refused (ih.0, ih.1))
    ]

-- Read leaves, in its first buffers and in their order, exactly the packets that may go out, each
-- judged at its own time by the rules loaded for it and lowered by the clamp, and rejects every
-- other one.
pub read-passed :
    (ms : ℕ → Moment) (f : Filter) (bufs : List (List ℕ)) → read ms f bufs ≡ passed ms 0 f bufs
unfolding read
read-passed ms f bufs =
    let start : Round [] [] bufs bufs 0 0 = record { held = refl; count = refl; place = refl } in
    let (same, kept) = loop_passed ms f [] [] bufs bufs 0 0 start in λ i. (same i, kept i)
