-- ===== src/Config/Diff/Walk.antt =====
-- The loops of internal/config/diff.go over its maps.
use callsignet.Base.{
  String, Bool, true, false, not, ◌&&◌, ◌||◌, Option, none, some, List, [], ◌∷◌, ◌++◌, ◌≡◌, refl,
  arith, ◌==◌, string_key, eq_iff, contains, find, put, find-put, if◌then◌else◌, Option-cases, inl,
  inr,
}
use callsignet.Config.{Peer}
use callsignet.Config.Diff.{Changes, same_peer, by_id, removed_from, diff_peer, diff_peers}

-- The last entry of a name, which is the one that the map keeps.
unfoldable pub last_peer : String → List Peer → Option Peer
last_peer id [] = none
last_peer id (p ∷ ps) = elim (last_peer id ps) [
  | some q ↦ some q
  | none ↦ if p.peer_id == id then some p else none
]

pub last_peer-name :
    (id : String) (ps : List Peer) (p : Peer) → last_peer id ps ≡ some p → p.peer_id ≡ id
unfolding last_peer
last_peer-name id [] p h = ground arith
last_peer-name id (q ∷ ps) p h = elim (Option-cases (last_peer id ps)) [
  | inl e ↦ ground (arith, eq_iff q.peer_id id)
  | inr (r, e) ↦ ground (arith, last_peer-name id ps p)
]

abbrev or_before : Option Peer → Option Peer → Option Peer
or_before (some q) before = some q
or_before none before = before

find-by_id_from :
    (id : String) (m : List (String × Peer)) (ps : List Peer)
    → find id (by_id m ps) ≡ or_before (last_peer id ps) (find id m)
unfolding by_id last_peer
find-by_id_from id m [] = refl
find-by_id_from id m (p ∷ ps) =
    ground (arith, find-by_id_from id (put p.peer_id p m) ps, find-put p.peer_id id p m)

pub find-by_id : (id : String) (ps : List Peer) → find id (by_id [] ps) ≡ last_peer id ps
unfolding find
find-by_id id ps = ground (arith, find-by_id_from id [] ps)

-- No name stands twice in the map.
unfoldable pub unique {ℓ} : {V : Type ℓ} → List (String × V) → Bool
unique [] = true
unique ((k, _) ∷ m) = elim (find k m) [ none ↦ unique m | some _ ↦ false ]

pub unique-put {ℓ} :
    {V : Type ℓ} (k : String) (v : V) (m : List (String × V))
    → unique m ≡ true
    → unique (put k v m) ≡ true
unfolding unique put find
unique-put k v [] u = refl
unique-put k v ((j, w) ∷ m) u =
    ground (arith, unique-put k v m, find-put k j v m, eq_iff j k, eq_iff k j)

unique-by_id_from :
    (m : List (String × Peer)) (ps : List Peer) → unique m ≡ true → unique (by_id m ps) ≡ true
unfolding by_id
unique-by_id_from m [] u = u
unique-by_id_from m (p ∷ ps) u =
    unique-by_id_from (put p.peer_id p m) ps (unique-put p.peer_id p m u)

pub unique-by_id : (ps : List Peer) → unique (by_id [] ps) ≡ true
unfolding unique
unique-by_id ps = unique-by_id_from [] ps refl

pub contains-append :
    (x : String) (xs ys : List String) → contains x (xs ++ ys) ≡ (contains x xs || contains x ys)
unfolding contains
contains-append x [] ys = refl
contains-append x (y ∷ xs) ys = ground (arith, contains-append x xs ys)

-- The names of the map whose entries pass a test.
unfoldable pub ids_where {ℓ} : {V : Type ℓ} → (String → V → Bool) → List (String × V) → List String
ids_where q [] = []
ids_where q ((k, v) ∷ m) = let rest = ids_where q m in if q k v then k ∷ rest else rest

abbrev pub passes {ℓ} : {V : Type ℓ} → (V → Bool) → Option V → Bool
passes q none = false
passes q (some v) = q v

contains-ids_where-none {ℓ} :
    {V : Type ℓ} (x : String) (q : String → V → Bool) (m : List (String × V))
    → find x m ≡ none
    → contains x (ids_where q m) ≡ false
unfolding ids_where find contains
contains-ids_where-none x q [] h = refl
contains-ids_where-none x q ((k, v) ∷ m) h =
    ground (arith, contains-ids_where-none x q m, eq_iff k x)

pub contains-ids_where {ℓ} :
    {V : Type ℓ} (x : String) (q : String → V → Bool) (m : List (String × V))
    → unique m ≡ true
    → contains x (ids_where q m) ≡ passes (q x) (find x m)
unfolding ids_where find contains unique
contains-ids_where x q [] u = refl
contains-ids_where x q ((k, v) ∷ m) u =
    ground (arith, contains-ids_where x q m, contains-ids_where-none x q m, eq_iff k x)

-- What the loop over the peers does with one of them.
pub data Fate : Type 0 where
  absent : Fate
  added : Fate
  removed : Fate
  same : Fate
  fixed : Fate
  changed : Fate

-- The keys that a running interface cannot change.
abbrev pub same_identity : Peer → Peer → Bool
same_identity o p = o.public_key == p.public_key && o.tunnel_ip == p.tunnel_ip

abbrev pub fate : Bool → Option Peer → Option Peer → Fate
fate is_self none none = absent
fate is_self none (some _) = added
fate is_self (some _) none = removed
fate is_self (some o) (some p) =
    if same_peer o p then same else if is_self && not (same_identity o p) then fixed else changed

abbrev pub is_added : Fate → Bool
is_added added = true
is_added _ = false

abbrev pub is_removed : Fate → Bool
is_removed removed = true
is_removed _ = false

abbrev pub is_fixed : Fate → Bool
is_fixed fixed = true
is_fixed _ = false

abbrev pub is_changed : Fate → Bool
is_changed changed = true
is_changed _ = false

pub contains-removed_from :
    (x : String) (cur : List (String × Peer)) (out : List String) (m : List (String × Peer))
    → contains x (removed_from cur out m) ≡ (
        contains x out
        || contains x (ids_where (λ id o. is_removed (fate false (some o) (find id cur))) m))
unfolding removed_from ids_where contains
contains-removed_from x cur out [] = ground arith
contains-removed_from x cur out ((id, o) ∷ m) = ground (
  arith,
  contains-removed_from x cur out m,
  contains-removed_from x cur (out ++ id ∷ []) m,
  contains-append x out (id ∷ []),
)

-- The names that the loop over the peers that are puts on a list.
module _ (old : List (String × Peer)) (self_id : String) where
  abbrev pub fate_of : String → Peer → Fate
  fate_of id p = fate (id == self_id) (find id old) (some p)

  pub contains-added :
      (x : String) (c : Changes) (m : List (String × Peer))
      → contains x (diff_peers old self_id c m).added_peers
        ≡ (contains x c.added_peers || contains x (ids_where (λ id p. is_added (fate_of id p)) m))
  unfolding diff_peers diff_peer ids_where contains
  contains-added x c [] = ground arith
  contains-added x c ((id, p) ∷ m) = ground (
    arith,
    contains-added x (diff_peer old self_id c id p) m,
    contains-append x c.added_peers (id ∷ []),
  )

  pub contains-changed :
      (x : String) (c : Changes) (m : List (String × Peer))
      → contains x (diff_peers old self_id c m).changed_peers ≡ (
          contains x c.changed_peers
          || contains x (ids_where (λ id p. is_changed (fate_of id p)) m))
  unfolding diff_peers diff_peer ids_where contains
  contains-changed x c [] = ground arith
  contains-changed x c ((id, p) ∷ m) = ground (
    arith,
    contains-changed x (diff_peer old self_id c id p) m,
    contains-append x c.changed_peers (id ∷ []),
  )

  pub fixed_self :
      (c : Changes) (m : List (String × Peer))
      → (diff_peers old self_id c m).self_peer_changed
        ≡ (c.self_peer_changed || contains self_id (ids_where (λ id p. is_fixed (fate_of id p)) m))
  unfolding diff_peers diff_peer ids_where contains
  fixed_self c [] = ground arith
  fixed_self c ((id, p) ∷ m) =
      ground (arith, fixed_self (diff_peer old self_id c id p) m, eq_iff id self_id)

  abbrev pub Kept : Changes → Changes → Type 0
  Kept c d =
      (d.removed_peers ≡ c.removed_peers)
      × (d.policy_changed ≡ c.policy_changed)
      × (d.self_changed ≡ c.self_changed)
      × (d.psk_peers ≡ c.psk_peers)

  pub diff_peers-Kept :
      (c : Changes) (m : List (String × Peer)) → Kept c (diff_peers old self_id c m)
  unfolding diff_peers diff_peer
  diff_peers-Kept c [] = (refl, refl, refl, refl)
  diff_peers-Kept c ((id, p) ∷ m) = ground (arith, diff_peers-Kept (diff_peer old self_id c id p) m)

-- A walk of one map and the lookup in both.
pub passes-added :
    (me : Bool) (o n : Option Peer)
    → passes (λ p. is_added (fate me o (some p))) n ≡ is_added (fate me o n)
passes-added me none none = refl
passes-added me (some o) none = refl
passes-added me o (some n) = refl

pub passes-changed :
    (me : Bool) (o n : Option Peer)
    → passes (λ p. is_changed (fate me o (some p))) n ≡ is_changed (fate me o n)
passes-changed me none none = refl
passes-changed me (some o) none = refl
passes-changed me o (some n) = refl

pub passes-fixed :
    (me : Bool) (o n : Option Peer)
    → passes (λ p. is_fixed (fate me o (some p))) n ≡ is_fixed (fate me o n)
passes-fixed me none none = refl
passes-fixed me (some o) none = refl
passes-fixed me o (some n) = refl

pub passes-removed :
    (me : Bool) (o n : Option Peer)
    → passes (λ q. is_removed (fate false (some q) n)) o ≡ is_removed (fate me o n)
passes-removed me none none = refl
passes-removed me none (some n) = refl
passes-removed me (some o) none = refl
passes-removed me (some o) (some n) = ground arith
