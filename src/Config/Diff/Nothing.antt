-- ===== src/Config/Diff/Nothing.antt =====
-- `Any` of internal/config/diff.go: whether a reload has anything to do.
use callsignet.Base.{
  String, Bool, true, false, not, ◌&&◌, Option, none, some, List, [], ◌∷◌, ◌≡◌, ◌↔◌, refl, arith,
  ◌==◌, string_key, eq_iff, test_self, contains, is_empty, Option-cases, Bool-cases, inl, inr, ◌∙◌,
  sym,
}
use callsignet.Config.{Peer, Config}
use callsignet.Config.Diff.{Changes, diff, any_change}
use callsignet.Config.Diff.Equal.{same_peer_iff}
use callsignet.Config.Diff.Walk.{
  last_peer, last_peer-name, Fate, fate, is_added, is_removed, is_fixed, is_changed,
}
use callsignet.Config.Diff.Report.{IsSort, psk_differs, diff-fate}

-- Nothing happened to the peers of this name.
abbrev is_same : Fate → Bool
is_same f = not (is_added f) && not (is_removed f) && not (is_fixed f) && not (is_changed f)

fate-equal :
    (b : Bool) (id : String) (olds curs : List Peer)
    → (is_same (fate b (last_peer id olds) (last_peer id curs)) ≡ true)
      ↔ (last_peer id olds ≡ last_peer id curs)
fate-equal b id olds curs = elim (Option-cases (last_peer id olds)) [
  | inl no_old ↦ elim (Option-cases (last_peer id curs)) [
    | inl no_cur ↦ ground arith
    | inr (p, e) ↦ ground arith
  ]
  | inr (o, e) ↦ elim (Option-cases (last_peer id curs)) [
    | inl no_cur ↦ ground arith
    | inr (p, f) ↦
        let one : o.peer_id ≡ p.peer_id =
          last_peer-name id olds o e ∙ sym (last_peer-name id curs p f) in
        ground (arith, same_peer_iff o p one)
  ]
]

none_in : (xs : List String) → is_empty xs ≡ true → (x : String) → contains x xs ≡ false
unfolding contains
none_in [] h x = refl
none_in (y ∷ ys) h x = ground arith

empty_of : (xs : List String) → ((x : String) → contains x xs ≡ false) → is_empty xs ≡ true
unfolding contains
empty_of [] h = refl
empty_of (y ∷ ys) h = ground (arith, h y, test_self y)

-- A fixed peer is this machine's.
fixed-me : (b : Bool) (o n : Option Peer) → is_fixed (fate b o n) ≡ true → b ≡ true
fixed-me b none none h = ground arith
fixed-me b none (some n) h = ground arith
fixed-me b (some o) none h = ground arith
fixed-me b (some o) (some n) h = ground arith

module _ (sort : List String → List String) (S : IsSort sort) where
  module _ (old cur : Config) where
    abbrev d : Changes
    d = diff sort old cur

    abbrev f : String → Fate
    f x = fate (x == cur.self.peer_id) (last_peer x old.peers) (last_peer x cur.peers)

    abbrev g : Fate
    g = fate true (last_peer cur.self.peer_id old.peers) (last_peer cur.self.peer_id cur.peers)

    not_fixed : is_fixed g ≡ false → (x : String) → is_fixed (f x) ≡ false
    not_fixed h x = elim (Bool-cases (is_fixed (f x))) [
      | inr still ↦ still
      | inl moved ↦
          let b = fixed-me (x == cur.self.peer_id) _ _ moved in
          let e : x ≡ cur.self.peer_id = (eq_iff x cur.self.peer_id).0 b in
          let alike : f x ≡ g = rw (b, e) in absurd (ground (arith, alike))
    ]

    same_of : any_change d ≡ false → (x : String) → is_same (f x) ≡ true
    unfolding any_change
    same_of h x =
        let at = diff-fate sort S old cur x in
        ground (
          arith,
          at.0,
          at.1,
          at.2,
          none_in d.added_peers (ground arith) x,
          none_in d.removed_peers (ground arith) x,
          none_in d.changed_peers (ground arith) x,
          not_fixed (sym at.3 ∙ ground arith) x,
        )

    nothing_named :
        ((x : String) → is_same (f x) ≡ true)
        → (is_empty d.added_peers ≡ true)
          × (is_empty d.removed_peers ≡ true)
          × (is_empty d.changed_peers ≡ true)
          × (d.self_peer_changed ≡ false)
    nothing_named h =
        let at : (x : String) → _ = diff-fate sort S old cur in
        let me = cur.self.peer_id in
        (
          empty_of d.added_peers (λ x. (at x).0 ∙ ground (arith, h x)),
          empty_of d.removed_peers (λ x. (at x).1 ∙ ground (arith, h x)),
          empty_of d.changed_peers (λ x. (at x).2 ∙ ground (arith, h x)),
          (at me).3 ∙ ground (arith, h me, test_self me),
        )

  -- Any answers that nothing changed exactly where csa.toml and policy.toml hold the same values,
  -- each name has the same last entry in peers.toml or none, and each peer the same pre-shared key.
  pub any_change-diff :
      (old cur : Config)
      → (any_change (diff sort old cur) ≡ false) ↔ (
          (old.self ≡ cur.self)
          × (old.policy ≡ cur.policy)
          × ((x : String) → last_peer x old.peers ≡ last_peer x cur.peers)
          × ((x : String) → psk_differs old cur x ≡ false))
  unfolding any_change
  any_change-diff old cur =
      let d = diff sort old cur in
      let me = cur.self.peer_id in
      let at : (x : String) → _ = diff-fate sort S old cur in
      let eq : (x : String) → _ = λ x. fate-equal (x == me) x old.peers cur.peers in
      (
        λ h. (
          (at me).5.0 (ground arith),
          (at me).6.0 (ground arith),
          λ x. (eq x).0 (same_of old cur h x),
          λ x. sym (at x).4 ∙ none_in d.psk_peers (ground arith) x,
        ),
        λ (self, policy, peers, psk).
            let named = nothing_named old cur (λ x. (eq x).1 (peers x)) in
            ground (
              arith,
              named,
              (at me).5.1 self,
              (at me).6.1 policy,
              empty_of d.psk_peers (λ x. (at x).4 ∙ psk x),
            ),
      )
