-- ===== src/Wg/Entries.antt =====
-- The maps of internal/wgdev/uapi.go: what a walk of one meets.
use callsignet.Base.{
  String, Bool, true, some, List, [], ◌∷◌, any, all, contains, ◌==◌, string_key, eq_iff, test_self,
  find, put, ◌≡◌, refl, arith, Bool-cases, inl, inr,
}
use callsignet.Config.{Peer, Config}
use callsignet.Config.Diff.Walk.{unique, unique-put}
use callsignet.Wg.{peers_by_id, peers_of, names_of}

unique-peers_by_id :
    (self_id : String) (m : List (String × Peer)) (ps : List Peer)
    → unique m ≡ true
    → unique (peers_by_id self_id m ps) ≡ true
unfolding peers_by_id
unique-peers_by_id self_id m [] u = u
unique-peers_by_id self_id m (p ∷ ps) u = elim (Bool-cases (p.peer_id == self_id)) [
  | inl me ↦ ground (arith, unique-peers_by_id self_id m ps u)
  | inr other ↦
      ground (arith, unique-peers_by_id self_id (put p.peer_id p m) ps (unique-put p.peer_id p m u))
]

pub unique-peers_of : (c : Config) → unique (peers_of c) ≡ true
unfolding unique
unique-peers_of c = unique-peers_by_id c.self.peer_id [] c.peers refl

pub any-find :
    (q : String × Peer → Bool) (m : List (String × Peer)) (id : String) (p : Peer)
    → find id m ≡ some p
    → q (id, p) ≡ true
    → any q m ≡ true
unfolding find
any-find q [] id p f h = absurd (ground arith)
any-find q ((j, r) ∷ m) id p f h = elim (Bool-cases (j == id)) [
  | inl here ↦ ground (arith, eq_iff j id)
  | inr past ↦ ground (arith, any-find q m id p (ground arith) h)
]

-- An entry that passes is what a lookup of its name finds.
pub any_entry :
    (q : String × Peer → Bool) (m : List (String × Peer))
    → unique m ≡ true
    → any q m ≡ true
    → (id : String) × (p : Peer) × (find id m ≡ some p) × (q (id, p) ≡ true)
unfolding unique find
any_entry q [] u h = absurd (ground arith)
any_entry q ((j, r) ∷ m) u h = elim (Bool-cases (q (j, r))) [
  | inl this ↦ (j, r, ground (arith, test_self j), this)
  | inr other ↦
      let (id, p, found, passed) = any_entry q m (ground arith) (ground arith) in
      (id, p, ground (arith, eq_iff j id), passed)
]

pub any-contains :
    (q : String → Bool) (ids : List String) (id : String)
    → contains id ids ≡ true
    → q id ≡ true
    → any q ids ≡ true
unfolding contains
any-contains q [] id c h = absurd (ground arith)
any-contains q (j ∷ ids) id c h = ground (arith, any-contains q ids id, eq_iff j id)

pub all-contains :
    (q : String → Bool) (ids : List String) (id : String)
    → all q ids ≡ true
    → contains id ids ≡ true
    → q id ≡ true
unfolding contains
all-contains q [] id a c = absurd (ground arith)
all-contains q (j ∷ ids) id a c = ground (arith, all-contains q ids id, eq_iff j id)

-- The passing of a list of names, with a name that passes and stands in it.
pub any_name :
    (q : String → Bool) (ids : List String)
    → any q ids ≡ true
    → (id : String) × (contains id ids ≡ true) × (q id ≡ true)
unfolding contains
any_name q [] h = absurd (ground arith)
any_name q (j ∷ ids) h = elim (Bool-cases (q j)) [
  | inl this ↦ (j, ground (arith, test_self j), this)
  | inr other ↦
      let (id, c, e) = any_name q ids (ground arith) in (id, ground (arith, test_self id), e)
]

pub contains-names_of :
    (id : String) (m : List (String × Peer)) (p : Peer)
    → find id m ≡ some p
    → contains id (names_of m) ≡ true
unfolding find contains
contains-names_of id [] p f = absurd (ground arith)
contains-names_of id ((j, r) ∷ m) p f = ground (arith, contains-names_of id m p)
