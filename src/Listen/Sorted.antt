-- ===== src/Listen/Sorted.antt =====
-- sortPorts of internal/guard/listen.go: it puts distinct ports into a strict order, and loses
-- none.
use callsignet.Base.{
  Bool, true, false, not, ◌&&◌, ◌||◌, List, [], ◌∷◌, any, all, ◌≡◌, refl, arith, Bool-cases, inl,
  inr,
}
use callsignet.Listen.{Port, same_port, less, sink, sort_loop, reverse_onto, sort_ports}

any-sink : (q : Port → Bool) (p : Port) (xs : List Port) → any q (sink p xs) ≡ (q p || any q xs)
unfolding sink
any-sink q p [] = refl
any-sink q p (x ∷ xs) = ground (arith, any-sink q p xs)

all-sink : (q : Port → Bool) (p : Port) (xs : List Port) → all q (sink p xs) ≡ (q p && all q xs)
unfolding sink
all-sink q p [] = refl
all-sink q p (x ∷ xs) = ground (arith, all-sink q p xs)

any-sort_loop :
    (q : Port → Bool) (before ps : List Port)
    → any q (sort_loop before ps) ≡ (any q before || any q ps)
unfolding sort_loop
any-sort_loop q before [] = ground arith
any-sort_loop q before (p ∷ ps) =
    ground (arith, any-sort_loop q (sink p before) ps, any-sink q p before)

pub any-reverse_onto :
    (q : Port → Bool) (out ps : List Port) → any q (reverse_onto out ps) ≡ (any q out || any q ps)
unfolding reverse_onto
any-reverse_onto q out [] = ground arith
any-reverse_onto q out (p ∷ ps) = ground (arith, any-reverse_onto q (p ∷ out) ps)

pub any-sort_ports : (q : Port → Bool) (ps : List Port) → any q (sort_ports ps) ≡ any q ps
unfolding sort_ports
any-sort_ports q ps = ground (arith, any-reverse_onto q [] (sort_loop [] ps), any-sort_loop q [] ps)

-- Each port is before all that follow it.
abbrev pub rising : List Port → Bool
rising [] = true
rising (p ∷ ps) = all (less p) ps && rising ps

abbrev falling : List Port → Bool
falling [] = true
falling (p ∷ ps) = all (λ x. less x p) ps && falling ps

-- No port stands twice.
abbrev pub distinct : List Port → Bool
distinct [] = true
distinct (p ∷ ps) = not (any (same_port p) ps) && distinct ps

less_total : (a b : Port) → same_port a b ≡ false → less a b ≡ false → less b a ≡ true
unfolding less
less_total a b differ up = ground arith

less_trans : (a b c : Port) → less a b ≡ true → less b c ≡ true → less a c ≡ true
unfolding less
less_trans a b c ab bc = ground arith

all-less :
    (p q : Port) (xs : List Port)
    → less q p ≡ true
    → all (λ x. less x q) xs ≡ true
    → all (λ x. less x p) xs ≡ true
all-less p q [] h below = refl
all-less p q (x ∷ xs) h below = ground (arith, all-less p q xs h, less_trans x q p)

sink-falling :
    (p : Port) (xs : List Port)
    → falling xs ≡ true
    → any (same_port p) xs ≡ false
    → falling (sink p xs) ≡ true
unfolding sink
sink-falling p [] falls fresh = refl
sink-falling p (q ∷ qs) falls fresh = elim (Bool-cases (less p q)) [
  | inl below ↦ ground (arith, sink-falling p qs, all-sink (λ x. less x q) p qs)
  | inr above ↦ ground (arith, less_total p q, all-less p q qs)
]

-- None of the ports stands among those before.
abbrev apart : List Port → List Port → Bool
apart before = all (λ x. not (any (same_port x) before))

apart-sink :
    (p : Port) (before ps : List Port)
    → any (same_port p) ps ≡ false
    → apart before ps ≡ true
    → apart (sink p before) ps ≡ true
apart-sink p before [] fresh free = refl
apart-sink p before (x ∷ ps) fresh free =
    ground (arith, any-sink (same_port x) p before, apart-sink p before ps)

sort_loop-falling :
    (before ps : List Port)
    → falling before ≡ true
    → distinct ps ≡ true
    → apart before ps ≡ true
    → falling (sort_loop before ps) ≡ true
unfolding sort_loop
sort_loop-falling before [] falls once free = falls
sort_loop-falling before (p ∷ ps) falls once free =
    sort_loop-falling (sink p before) ps (sink-falling p before falls (ground arith)) (ground arith)
      (apart-sink p before ps (ground arith) (ground arith))

-- Each port is before all of the others.
abbrev above : List Port → List Port → Bool
above out = all (λ x. all (less x) out)

above-cons :
    (p : Port) (out ps : List Port)
    → all (λ x. less x p) ps ≡ true
    → above out ps ≡ true
    → above (p ∷ out) ps ≡ true
above-cons p out [] below free = refl
above-cons p out (x ∷ ps) below free = ground (arith, above-cons p out ps)

reverse_onto-rising :
    (out ps : List Port)
    → rising out ≡ true
    → falling ps ≡ true
    → above out ps ≡ true
    → rising (reverse_onto out ps) ≡ true
unfolding reverse_onto
reverse_onto-rising out [] rises falls free = rises
reverse_onto-rising out (p ∷ ps) rises falls free =
    reverse_onto-rising (p ∷ out) ps (ground arith) (ground arith)
      (above-cons p out ps (ground arith) (ground arith))

apart_nil : (ps : List Port) → apart [] ps ≡ true
apart_nil [] = refl
apart_nil (p ∷ ps) = ground (arith, apart_nil ps)

above_nil : (ps : List Port) → above [] ps ≡ true
above_nil [] = refl
above_nil (p ∷ ps) = ground (arith, above_nil ps)

pub sort_ports-rising : (ps : List Port) → distinct ps ≡ true → rising (sort_ports ps) ≡ true
unfolding sort_ports
sort_ports-rising ps once =
    reverse_onto-rising [] (sort_loop [] ps) refl (sort_loop-falling [] ps refl once (apart_nil ps))
      (above_nil (sort_loop [] ps))

apart-cons :
    (p : Port) (out ps : List Port)
    → any (same_port p) ps ≡ false
    → apart out ps ≡ true
    → apart (p ∷ out) ps ≡ true
apart-cons p out [] fresh free = refl
apart-cons p out (x ∷ ps) fresh free = ground (arith, apart-cons p out ps)

distinct-reverse_onto :
    (out ps : List Port)
    → distinct out ≡ true
    → distinct ps ≡ true
    → apart out ps ≡ true
    → distinct (reverse_onto out ps) ≡ true
unfolding reverse_onto
distinct-reverse_onto out [] kept once free = kept
distinct-reverse_onto out (p ∷ ps) kept once free =
    distinct-reverse_onto (p ∷ out) ps (ground arith) (ground arith)
      (apart-cons p out ps (ground arith) (ground arith))

pub distinct-reverse : (ps : List Port) → distinct ps ≡ true → distinct (reverse_onto [] ps) ≡ true
distinct-reverse ps once = distinct-reverse_onto [] ps refl once (apart_nil ps)
