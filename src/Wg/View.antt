-- ===== src/Wg/View.antt =====
-- What the lines of internal/wgdev/uapi.go do to wg, of which the program only relies on what its
-- configuration interface documents.
use callsignet.Base.{
  String, Bool, true, false, not, ◌&&◌, ◌||◌, Option, none, some, List, [], ◌∷◌, ◌++◌, ◌==◌,
  nat_key, string_key, any, if◌then◌else◌, ◌≡◌, refl, arith,
}
use callsignet.Wg.{Line}
use callsignet.Wg.Orders.{Give, render_gives, render_drops}

-- What wg holds of a peer, by its key: whether it knows the peer, and its pre-shared key and
-- address. The address is the one that wg was given or has seen since.
pub record View : Type 0 where
  pub known : String → Bool
  pub psk : String → Option String
  pub at : String → Option String

-- `remove=true` takes a peer away with all that wg held of it.
abbrev pub drop_key : String → View → View
drop_key k v = record {
  known = λ j. not (k == j) && v.known j;
  psk = λ j. if k == j then none else v.psk j;
  at = λ j. if k == j then none else v.at j;
}

abbrev pub or_kept : Option String → Option String → Option String
or_kept (some x) before = some x
or_kept none before = before

-- A peer that is set is there afterwards. What is not written is kept.
abbrev pub give_key : Give → View → View
give_key g v = record {
  known = λ j. g.key == j || v.known j;
  psk = λ j. if g.key == j then or_kept g.psk (v.psk j) else v.psk j;
  at = λ j. if g.key == j then or_kept g.at (v.at j) else v.at j;
}

unfoldable pub drop_all : List String → View → View
drop_all [] v = v
drop_all (k ∷ ks) v = drop_all ks (drop_key k v)

unfoldable pub give_all : List Give → View → View
give_all [] v = v
give_all (g ∷ gs) v = give_all gs (give_key g v)

-- wg, as an interface: a batch that it takes does what its orders say. One that it refuses may have
-- been taken in part.
pub record Wg (S : Type 0) : Type 0 where
  pub set : List Line → S → S × Bool
  pub view : S → View
  pub obeys :
      (ks : List String) (gs : List Give) (s s' : S)
      → set (render_drops ks ++ render_gives gs) s ≡ (s', true)
      → view s' ≡ give_all gs (drop_all ks (view s))

-- Whether an order names the peer of that key.
abbrev pub holds : String → List String → Bool
holds k = any (λ j. j == k)

abbrev pub gives_key : String → List Give → Bool
gives_key k = any (λ g. g.key == k)

known-drop_all :
    (ks : List String) (v : View) (k : String)
    → (drop_all ks v).known k ≡ (not (holds k ks) && v.known k)
unfolding drop_all
known-drop_all [] v k = ground arith
known-drop_all (j ∷ ks) v k = ground (arith, known-drop_all ks (drop_key j v) k)

known-give_all :
    (gs : List Give) (v : View) (k : String)
    → (give_all gs v).known k ≡ (gives_key k gs || v.known k)
unfolding give_all
known-give_all [] v k = ground arith
known-give_all (g ∷ gs) v k = ground (arith, known-give_all gs (give_key g v) k)

-- wg knows the peers that are set, and those that it knew and that are not taken away.
pub known-orders :
    (ks : List String) (gs : List Give) (v : View) (k : String)
    → (give_all gs (drop_all ks v)).known k ≡ (gives_key k gs || not (holds k ks) && v.known k)
known-orders ks gs v k = ground (arith, known-give_all gs (drop_all ks v) k, known-drop_all ks v k)

held-drop_all :
    (ks : List String) (v : View) (k : String)
    → holds k ks ≡ false
    → ((drop_all ks v).psk k ≡ v.psk k) × ((drop_all ks v).at k ≡ v.at k)
unfolding drop_all
held-drop_all [] v k h = (refl, refl)
held-drop_all (j ∷ ks) v k h = ground (arith, held-drop_all ks (drop_key j v) k)

held-give_all :
    (gs : List Give) (v : View) (k : String)
    → gives_key k gs ≡ false
    → ((give_all gs v).psk k ≡ v.psk k) × ((give_all gs v).at k ≡ v.at k)
unfolding give_all
held-give_all [] v k h = (refl, refl)
held-give_all (g ∷ gs) v k h = ground (arith, held-give_all gs (give_key g v) k)

-- A peer that no order names is left as it was.
pub held-orders :
    (ks : List String) (gs : List Give) (v : View) (k : String)
    → holds k ks ≡ false
    → gives_key k gs ≡ false
    → ((give_all gs (drop_all ks v)).psk k ≡ v.psk k)
      × ((give_all gs (drop_all ks v)).at k ≡ v.at k)
held-orders ks gs v k h g =
    ground (arith, held-give_all gs (drop_all ks v) k g, held-drop_all ks v k h)

-- Whether an order gives the peer of that key a pre-shared key.
abbrev pub gives_psk : String → Give → Bool
gives_psk k g = g.key == k && elim g.psk [ none ↦ false | some _ ↦ true ]

psk-give_all :
    (gs : List Give) (v : View) (k : String)
    → any (gives_psk k) gs ≡ false
    → (give_all gs v).psk k ≡ v.psk k
unfolding give_all
psk-give_all [] v k h = refl
psk-give_all (g ∷ gs) v k h = ground (arith, psk-give_all gs (give_key g v) k)

-- A pre-shared key that no order replaces is kept.
pub psk-orders :
    (ks : List String) (gs : List Give) (v : View) (k : String)
    → holds k ks ≡ false
    → any (gives_psk k) gs ≡ false
    → (give_all gs (drop_all ks v)).psk k ≡ v.psk k
psk-orders ks gs v k h g =
    ground (arith, psk-give_all gs (drop_all ks v) k g, held-drop_all ks v k h)
