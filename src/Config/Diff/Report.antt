-- ===== src/Config/Diff/Report.antt =====
-- What Diff in internal/config/diff.go reports, against the entries of both configurations.
use callsignet.Base.{
  String, Bool, true, false, not, ◌&&◌, ◌||◌, Option, none, some, List, [], ◌∷◌, ◌≡◌, ◌↔◌, refl,
  arith, ◌==◌, string_key, eq_iff, test_self, contains, find, value_or, Option-cases, Bool-cases,
  inl, inr, ◌∙◌, ap,
}
use callsignet.Config.{Peer, Config}
use callsignet.Config.Diff.{
  Changes, by_id, psk_walk, psk_round, diff_peers, changed_psk, diff, diff_start,
}
use callsignet.Config.Diff.Equal.{same_self_iff, same_policy_iff}
use callsignet.Config.Diff.Walk.{
  last_peer, find-by_id, unique-by_id, contains-append, contains-ids_where, fate, is_added,
  is_removed, is_fixed, is_changed, contains-removed_from, contains-added, contains-changed,
  fixed_self, fate_of, diff_peers-Kept, passes-added, passes-changed, passes-fixed, passes-removed,
}

-- sort.Strings keeps what is on the list.
pub record IsSort (sort : List String → List String) : Type 0 where
  pub same_names : (x : String) (xs : List String) → contains x (sort xs) ≡ contains x xs

-- The keys of a peer differ.
abbrev pub psk_differs : Config → Config → String → Bool
psk_differs old cur id =
    not (value_or "" (find id old.secrets.psk) == value_or "" (find id cur.secrets.psk))

abbrev is_there : Option String → Bool
is_there none = false
is_there (some _) = true

module _ (a b : List (String × String)) (x : String) where
  abbrev differs : Bool
  differs = not (value_or "" (find x a) == value_or "" (find x b))

  round-seen :
      (st : List String × List String) (id : String)
      → contains x (psk_round a b st id).0 ≡ (contains x st.0 || id == x)
  unfolding psk_round contains
  round-seen (seen, out) id = elim (Bool-cases (contains id seen)) [
    | inl h ↦ ground (arith, eq_iff id x)
    | inr h ↦ ground arith
  ]

  round-out :
      (st : List String × List String) (id : String)
      → contains x st.1 ≡ (contains x st.0 && differs)
      → contains x (psk_round a b st id).1 ≡ (contains x (psk_round a b st id).0 && differs)
  unfolding psk_round contains
  round-out (seen, out) id h = elim (Bool-cases (id == x)) [
    | inl e ↦ ground (arith, (eq_iff id x).0 e, contains-append x out (id ∷ []))
    | inr e ↦ ground (arith, contains-append x out (id ∷ []))
  ]

  walk-seen :
      (st : List String × List String) (m : List (String × String))
      → contains x (psk_walk a b st m).0 ≡ (contains x st.0 || is_there (find x m))
  unfolding psk_walk find
  walk-seen st [] = ground arith
  walk-seen st ((id, v) ∷ m) = ground (arith, walk-seen (psk_round a b st id) m, round-seen st id)

  walk-out :
      (st : List String × List String) (m : List (String × String))
      → contains x st.1 ≡ (contains x st.0 && differs)
      → contains x (psk_walk a b st m).1 ≡ (contains x (psk_walk a b st m).0 && differs)
  unfolding psk_walk
  walk-out st [] h = h
  walk-out st ((id, v) ∷ m) h = walk-out (psk_round a b st id) m (round-out st id h)

  both-out : contains x (psk_walk a b (psk_walk a b ([], []) a) b).1 ≡ differs
  unfolding contains
  both-out =
      let first = psk_walk a b ([], []) a in
      let seen_a = walk-seen ([], []) a in
      let seen_b = walk-seen first b in
      let out_b = walk-out first b (walk-out ([], []) a refl) in
      elim (Option-cases (find x a)) [
        | inl no_a ↦ elim (Option-cases (find x b)) [
          | inl no_b ↦ let nothing : differs ≡ false = rw (no_a, no_b) in ground (arith, nothing)
          | inr (k, there) ↦ ground arith
        ]
        | inr (k, there) ↦ ground arith
      ]

module _ (sort : List String → List String) (S : IsSort sort) where
  changed_psk_names :
      (old cur : Config) (x : String)
      → contains x (changed_psk sort old cur) ≡ psk_differs old cur x
  unfolding changed_psk
  changed_psk_names old cur x = S.same_names x _ ∙ both-out old.secrets.psk cur.secrets.psk x

  module _ (old cur : Config) where
    abbrev o : List (String × Peer)
    o = by_id [] old.peers

    abbrev n : List (String × Peer)
    n = by_id [] cur.peers

    abbrev me : String
    me = cur.self.peer_id

    abbrev looped : Changes
    looped = diff_peers o me (diff_start sort old cur) n

    added_names :
        (x : String)
        → contains x looped.added_peers
          ≡ is_added (fate (x == me) (last_peer x old.peers) (last_peer x cur.peers))
    unfolding contains
    added_names x = rw (
      contains-added o me x (diff_start sort old cur) n,
      contains-ids_where x (λ id p. is_added (fate_of o me id p)) n (unique-by_id cur.peers),
      find-by_id x old.peers,
      find-by_id x cur.peers,
      passes-added (x == me) (last_peer x old.peers) (last_peer x cur.peers),
    )

    changed_names :
        (x : String)
        → contains x looped.changed_peers
          ≡ is_changed (fate (x == me) (last_peer x old.peers) (last_peer x cur.peers))
    unfolding contains
    changed_names x = rw (
      contains-changed o me x (diff_start sort old cur) n,
      contains-ids_where x (λ id p. is_changed (fate_of o me id p)) n (unique-by_id cur.peers),
      find-by_id x old.peers,
      find-by_id x cur.peers,
      passes-changed (x == me) (last_peer x old.peers) (last_peer x cur.peers),
    )

    removed_names :
        (x : String)
        → contains x looped.removed_peers
          ≡ is_removed (fate (x == me) (last_peer x old.peers) (last_peer x cur.peers))
    unfolding contains
    removed_names x = rw (
      (diff_peers-Kept o me (diff_start sort old cur) n).0,
      contains-removed_from x n [] o,
      contains-ids_where x (λ id p. is_removed (fate false (some p) (find id n))) o
          (unique-by_id old.peers),
      find-by_id x old.peers,
      find-by_id x cur.peers,
      passes-removed (x == me) (last_peer x old.peers) (last_peer x cur.peers),
    )

    fixed_me :
        looped.self_peer_changed
        ≡ is_fixed (fate true (last_peer me old.peers) (last_peer me cur.peers))
    fixed_me = rw (
      fixed_self o me (diff_start sort old cur) n,
      contains-ids_where me (λ id p. is_fixed (fate_of o me id p)) n (unique-by_id cur.peers),
      test_self me,
      find-by_id me old.peers,
      find-by_id me cur.peers,
      passes-fixed true (last_peer me old.peers) (last_peer me cur.peers),
    )

  -- What the report of Diff names is what happened between the two lists of peers, where the last
  -- entry of a name counts: the added, removed and changed peers, the peers whose pre-shared key
  -- differs, and, for this machine, a change of what the interface is made from. The reports on
  -- csa.toml and policy.toml say whether the values are equal.
  pub diff-fate :
      (old cur : Config) (x : String)
      → let d = diff sort old cur in
        let me = cur.self.peer_id in
        let f = fate (x == me) (last_peer x old.peers) (last_peer x cur.peers) in
        let g = fate true (last_peer me old.peers) (last_peer me cur.peers) in
        (contains x d.added_peers ≡ is_added f)
        × (contains x d.removed_peers ≡ is_removed f)
        × (contains x d.changed_peers ≡ is_changed f)
        × (d.self_peer_changed ≡ is_fixed g)
        × (contains x d.psk_peers ≡ psk_differs old cur x)
        × ((d.self_changed ≡ false) ↔ (old.self ≡ cur.self))
        × ((d.policy_changed ≡ false) ↔ (old.policy ≡ cur.policy))
  unfolding diff
  diff-fate old cur x =
      let kept = diff_peers-Kept _ _ (diff_start sort old cur) _ in
      (
        S.same_names x _ ∙ added_names old cur x,
        S.same_names x _ ∙ removed_names old cur x,
        S.same_names x _ ∙ changed_names old cur x,
        fixed_me old cur,
        ap (contains x) kept.3 ∙ changed_psk_names old cur x,
        ground (arith, kept, same_self_iff old.self cur.self),
        ground (arith, kept, same_policy_iff old.policy cur.policy),
      )
