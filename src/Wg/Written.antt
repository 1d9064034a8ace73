-- ===== src/Wg/Written.antt =====
-- Which keys the orders of UAPIReload in internal/wgdev/uapi.go name, and for which peers.
use callsignet.Base.{
  ℕ, String, Bool, true, false, Option, none, some, List, any, all, any-gather, contains, ◌==◌,
  nat_key, string_key, find, ◌≡◌, refl, sym, ◌∙◌, arith, Option-cases, inl, inr,
}
use callsignet.Config.{Peer}
use callsignet.Config.Problems.{Host}
use callsignet.Config.Diff.Walk.{unique}
use callsignet.Wg.{unchanged}
use callsignet.Wg.Orders.{
  listed, hex_of, gone_key, gone_keys, writes, old_key, old_keys, gift, gives, is_read,
}
use callsignet.Wg.View.{holds, gives_key}
use callsignet.Wg.Entries.{any-find, any_entry, any-contains, all-contains, any_name}

module _ (h : Host) (hex : List ℕ → String) where
  abbrev key_is : String → Option String → Bool
  key_is k none = false
  key_is k (some j) = j == k

  -- Whether a peer has that key, read as wg reads it.
  abbrev pub has_key : String → Peer → Bool
  has_key k p = key_is k (hex_of h hex p.public_key)

  -- Whether some peer of the map has it.
  abbrev pub keyed : String → List (String × Peer) → Bool
  keyed k = any (λ e. has_key k e.1)

  -- No two peers have one key.
  abbrev pub OneKey : List (String × Peer) → Type 0
  OneKey m =
      (k i j : String) (p q : Peer)
      → find i m ≡ some p
      → find j m ≡ some q
      → has_key k p ≡ true
      → has_key k q ≡ true
      → i ≡ j

  holds-listed : (k : String) (o : Option String) → holds k (listed o) ≡ key_is k o
  holds-listed k none = refl
  holds-listed k (some j) = ground arith

  module _ (o n : List (String × Peer)) (k : String) where
    pub gone-inverse :
        unique o ≡ true
        → holds k (gone_keys h hex n o) ≡ true
        → (id : String) × (p : Peer) × (find id o ≡ some p)
          × (find id n ≡ none)
          × (has_key k p ≡ true)
    gone-inverse u e =
        let q : String × Peer → Bool = λ e. holds k (gone_key h hex n e) in
        let walked : any q o ≡ true = sym (any-gather (λ j. j == k) (gone_key h hex n) o) ∙ e in
        let (id, p, found, passed) = any_entry q o u walked in
        elim (Option-cases (find id n)) [
          | inl gone ↦
              (id, p, found, gone, ground (arith, holds-listed k (hex_of h hex p.public_key)))
          | inr (r, there) ↦ absurd (ground arith)
        ]

    pub gone-holds :
        (id : String) (p : Peer)
        → find id o ≡ some p
        → find id n ≡ none
        → has_key k p ≡ true
        → holds k (gone_keys h hex n o) ≡ true
    gone-holds id p found gone has =
        any-gather (λ j. j == k) (gone_key h hex n) o
        ∙ any-find (λ e. holds k (gone_key h hex n e)) o id p found
            (ground (arith, holds-listed k (hex_of h hex p.public_key)))

    module _ (old_psk cur_psk : List (String × String)) (ids : List String) where
      pub old-inverse :
          holds k (old_keys h hex o n old_psk cur_psk ids) ≡ true
          → (id : String) × (r : Peer) × (p : Peer) × (find id o ≡ some r)
            × (find id n ≡ some p)
            × (has_key k r ≡ true)
            × ((r.public_key == p.public_key) ≡ false)
      old-inverse e =
          let q : String → Bool = λ id. holds k (old_key h hex o n old_psk cur_psk id) in
          let walked : any q ids ≡ true =
            sym (any-gather (λ j. j == k) (old_key h hex o n old_psk cur_psk) ids) ∙ e in
          let (id, stands, passed) = any_name q ids walked in
          elim (Option-cases (find id n)) [
            | inl gone ↦ absurd (ground arith)
            | inr (p, there) ↦ elim (Option-cases (find id o)) [
              | inl new ↦ absurd (ground arith)
              | inr (r, was) ↦ (
                id,
                r,
                p,
                was,
                there,
                ground (arith, holds-listed k (hex_of h hex r.public_key)),
                ground arith,
              )
            ]
          ]

      pub old-holds :
          (id : String) (r p : Peer)
          → find id o ≡ some r
          → find id n ≡ some p
          → has_key k r ≡ true
          → (r.public_key == p.public_key) ≡ false
          → contains id ids ≡ true
          → holds k (old_keys h hex o n old_psk cur_psk ids) ≡ true
      unfolding unchanged
      old-holds id r p was there has differs stands =
          any-gather (λ j. j == k) (old_key h hex o n old_psk cur_psk) ids
          ∙ any-contains (λ id. holds k (old_key h hex o n old_psk cur_psk id)) ids id stands
              (ground (arith, holds-listed k (hex_of h hex r.public_key)))

      pub gives-inverse :
          all (is_read h hex o n old_psk cur_psk) ids ≡ true
          → gives_key k (gives h hex o n old_psk cur_psk ids) ≡ true
          → (id : String) × (p : Peer) × (find id n ≡ some p)
            × (has_key k p ≡ true)
            × (writes h hex o n old_psk cur_psk id p ≡ true)
      gives-inverse read e =
          let q : String → Bool = λ id. gives_key k (gift h hex o n old_psk cur_psk id) in
          let walked : any q ids ≡ true =
            sym (any-gather (λ g. g.key == k) (gift h hex o n old_psk cur_psk) ids) ∙ e in
          let (id, stands, passed) = any_name q ids walked in
          let legible = all-contains (is_read h hex o n old_psk cur_psk) ids id read stands in
          elim (Option-cases (find id n)) [
            | inl gone ↦ absurd (ground arith)
            | inr (p, there) ↦ elim (Option-cases (hex_of h hex p.public_key)) [
              | inl bad ↦ absurd (ground arith)
              | inr (j, good) ↦ (id, p, there, ground arith, ground arith)
            ]
          ]

      pub gives-holds :
          (id : String) (p : Peer)
          → find id n ≡ some p
          → has_key k p ≡ true
          → writes h hex o n old_psk cur_psk id p ≡ true
          → contains id ids ≡ true
          → gives_key k (gives h hex o n old_psk cur_psk ids) ≡ true
      gives-holds id p there has written stands =
          any-gather (λ g. g.key == k) (gift h hex o n old_psk cur_psk) ids
          ∙ any-contains (λ id. gives_key k (gift h hex o n old_psk cur_psk id)) ids id stands
              (elim (Option-cases (hex_of h hex p.public_key)) [
                | inl bad ↦ absurd (ground arith)
                | inr (j, good) ↦ ground arith
              ])
