-- ===== src/Guard/Ports.antt =====
-- dedup in internal/guard/guard.go: the ports, each once, in order.
use callsignet.Base.{
  Bool, true, false, ◌&&◌, ◌||◌, List, [], ◌∷◌, ◌++◌, ℤ, pos, negsuc, int_beq, int_leb, int_ltb,
  not, ◌≡◌, refl, ◌∙◌, arith, Bool-cases, inl, inr,
}
use callsignet.Config.Diff.Equal.{int_beq_iff}
use callsignet.Guard.{has_port, insert, sort, once, dedup}

has_port-insert :
    (x p : ℤ) (ps : List ℤ) → has_port x (insert p ps) ≡ (int_beq p x || has_port x ps)
unfolding has_port insert
has_port-insert x p [] = refl
has_port-insert x p (q ∷ qs) = ground (arith, has_port-insert x p qs)

has_port-sort : (x : ℤ) (ps : List ℤ) → has_port x (sort ps) ≡ has_port x ps
unfolding has_port sort
has_port-sort x [] = refl
has_port-sort x (p ∷ ps) = ground (arith, has_port-sort x ps, has_port-insert x p (sort ps))

has_port-append :
    (x : ℤ) (ps qs : List ℤ) → has_port x (ps ++ qs) ≡ (has_port x ps || has_port x qs)
unfolding has_port
has_port-append x [] qs = refl
has_port-append x (p ∷ ps) qs = ground (arith, has_port-append x ps qs)

has_port-once :
    (x : ℤ) (out ps : List ℤ) → has_port x (once out ps) ≡ (has_port x out || has_port x ps)
unfolding has_port once
has_port-once x out [] = ground arith
has_port-once x out (p ∷ ps) = ground (
  arith,
  has_port-once x out ps,
  has_port-once x (out ++ p ∷ []) ps,
  has_port-append x out (p ∷ []),
  int_beq_iff p x,
)

pub has_port-dedup : (x : ℤ) (ps : List ℤ) → has_port x (dedup ps) ≡ has_port x ps
unfolding dedup has_port
has_port-dedup x ps = has_port-sort x (once [] ps) ∙ has_port-once x [] ps

-- Each port is smaller than the one behind it.
abbrev pub above : ℤ → List ℤ → Bool
above p [] = true
above p (q ∷ qs) = int_ltb p q

unfoldable pub rising : List ℤ → Bool
rising [] = true
rising (p ∷ qs) = above p qs && rising qs

int_order :
    (a b : ℤ) → (int_leb a b ≡ not (int_ltb b a)) × (int_leb a b ≡ (int_beq a b || int_ltb a b))
int_order (pos a) (pos b) = ground arith
int_order (pos a) (negsuc b) = ground arith
int_order (negsuc a) (pos b) = ground arith
int_order (negsuc a) (negsuc b) = ground arith

above-insert :
    (x p : ℤ) (ps : List ℤ) → int_ltb x p ≡ true → above x ps ≡ true → above x (insert p ps) ≡ true
unfolding insert
above-insert x p [] h k = h
above-insert x p (q ∷ qs) h k = ground arith

rising-insert :
    (p : ℤ) (ps : List ℤ) → rising ps ≡ true → has_port p ps ≡ false → rising (insert p ps) ≡ true
unfolding insert rising has_port
rising-insert p [] h fresh = refl
rising-insert p (q ∷ qs) h fresh = ground (
  arith,
  rising-insert p qs,
  above-insert q p qs,
  int_order p q,
  int_order q p,
  int_beq_iff p q,
  int_beq_iff q p,
)

-- No port stands twice.
unfoldable pub distinct : List ℤ → Bool
distinct [] = true
distinct (p ∷ ps) = not (has_port p ps) && distinct ps

distinct-append :
    (ps : List ℤ) (p : ℤ)
    → distinct ps ≡ true
    → has_port p ps ≡ false
    → distinct (ps ++ p ∷ []) ≡ true
unfolding distinct has_port
distinct-append [] p h fresh = refl
distinct-append (q ∷ qs) p h fresh =
    ground
      (arith, distinct-append qs p, has_port-append q qs (p ∷ []), int_beq_iff p q, int_beq_iff q p)

distinct-once : (out ps : List ℤ) → distinct out ≡ true → distinct (once out ps) ≡ true
unfolding once
distinct-once out [] h = h
distinct-once out (p ∷ ps) h = elim (Bool-cases (has_port p out)) [
  | inl seen ↦ ground (arith, distinct-once out ps h)
  | inr new ↦ ground (arith, distinct-once (out ++ p ∷ []) ps (distinct-append out p h new))
]

rising-sort : (ps : List ℤ) → distinct ps ≡ true → rising (sort ps) ≡ true
unfolding sort distinct rising
rising-sort [] h = refl
rising-sort (p ∷ ps) h =
    ground (arith, rising-sort ps, rising-insert p (sort ps), has_port-sort p ps)

-- dedup keeps the ports of a list, and no other, in rising order, so that each stands once.
pub dedup-rising :
    (ps : List ℤ) → (rising (dedup ps) ≡ true) × ((x : ℤ) → has_port x (dedup ps) ≡ has_port x ps)
unfolding dedup distinct
dedup-rising ps = (rising-sort (once [] ps) (distinct-once [] ps refl), λ x. has_port-dedup x ps)
