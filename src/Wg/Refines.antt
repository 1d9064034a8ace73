-- ===== src/Wg/Refines.antt =====
-- wg after UAPIReload of internal/wgdev/uapi.go: the peers that it knows, and those that it leaves
-- be.
use callsignet.Base.{
  ℕ, String, true, false, not, ◌&&◌, ◌||◌, some, List, ◌++◌, all, any-append, contains, ◌==◌,
  string_key, eq_iff, find, ok, ◌≡◌, sym, ap, ◌∙◌, arith, Bool-cases, Option-cases, inl, inr,
}
use callsignet.Config.{Peer, Config}
use callsignet.Config.Problems.{Host}
use callsignet.Config.Diff.Walk.{unique}
use callsignet.Config.Diff.Report.{IsSort}
use callsignet.Wg.{Line, unchanged, uapi_reload, peers_of, names_of}
use callsignet.Wg.Orders.{gone_keys, writes, old_keys, gives, is_read, uapi_reload-ok}
use callsignet.Wg.View.{View, Wg, holds, gives_key, drop_all, give_all, known-orders}
use callsignet.Wg.Entries.{unique-peers_of, any-find, any_entry, contains-names_of}
use callsignet.Wg.Written.{
  has_key, keyed, OneKey, gone-inverse, gone-holds, old-inverse, old-holds, gives-inverse,
  gives-holds,
}

module _ (h : Host) (hex : List ℕ → String) where
  module _ (o n : List (String × Peer)) (old_psk cur_psk : List (String × String))
      (ids : List String) (k : String) (u : unique o ≡ true) where
    -- The keys that are taken away.
    abbrev pub drops : List String
    drops = gone_keys h hex n o ++ old_keys h hex o n old_psk cur_psk ids

    -- A peer that keeps its key is not taken away, where no other had that key.
    pub stays :
        OneKey h hex o
        → (id : String) (r p : Peer) → find id o ≡ some r
        → find id n ≡ some p
        → has_key h hex k r ≡ true
        → r.public_key ≡ p.public_key
        → holds k drops ≡ false
    stays one id r p was there has same = elim (Bool-cases (holds k drops)) [
      | inr out ↦ out
      | inl dropped ↦ elim (Bool-cases (holds k (gone_keys h hex n o))) [
        | inl first ↦
            let (j, q, found, gone, has') = gone-inverse h hex o n k u first in
            let e : j ≡ id = one k j id q r found was has' has in absurd (ground arith)
        | inr other ↦
            let second : holds k (old_keys h hex o n old_psk cur_psk ids) ≡ true = ground (
              arith,
              any-append (λ j. j == k) (gone_keys h hex n o)
                  (old_keys h hex o n old_psk cur_psk ids),
            ) in
            let (j, q, q', found, now, has', differs) =
              old-inverse h hex o n k old_psk cur_psk ids second in
            let e : j ≡ id = one k j id q r found was has' has in
            absurd (ground (arith, eq_iff q.public_key q'.public_key))
      ]
    ]

    -- A key that no peer has any more is taken away.
    leaves :
        (id : String) (r : Peer)
        → find id o ≡ some r
        → has_key h hex k r ≡ true
        → keyed h hex k n ≡ false
        → ((p : Peer) → find id n ≡ some p → contains id ids ≡ true)
        → holds k drops ≡ true
    leaves id r was has nobody stands = elim (Option-cases (find id n)) [
      | inl gone ↦ ground (
        arith,
        any-append (λ j. j == k) (gone_keys h hex n o) (old_keys h hex o n old_psk cur_psk ids),
        gone-holds h hex o n k id r was gone has,
      )
      | inr (p, there) ↦ elim (Bool-cases (r.public_key == p.public_key)) [
        | inl same ↦
            let key : r.public_key ≡ p.public_key = (eq_iff r.public_key p.public_key).0 same in
            let has' : has_key h hex k p ≡ true = rw (← key) has in
            absurd (ground (arith, any-find (λ e. has_key h hex k e.1) n id p there has'))
        | inr differs ↦ ground (
          arith,
          any-append (λ j. j == k) (gone_keys h hex n o) (old_keys h hex o n old_psk cur_psk ids),
          old-holds h hex o n k old_psk cur_psk ids id r p was there has differs (stands p there),
        )
      ]
    ]

    kept_known :
        OneKey h hex o
        → (id : String) (p : Peer) → find id n ≡ some p
        → keyed h hex k n ≡ true
        → has_key h hex k p ≡ true
        → writes h hex o n old_psk cur_psk id p ≡ false
        → (gives_key k (gives h hex o n old_psk cur_psk ids)
            || not (holds k drops) && keyed h hex k o)
          ≡ keyed h hex k n
    unfolding unchanged
    kept_known one id p there has has' same = elim (Option-cases (find id o)) [
      | inl new ↦ absurd (ground arith)
      | inr (r, was) ↦
          let key : r.public_key ≡ p.public_key =
            ground (arith, eq_iff r.public_key p.public_key) in
          let had : has_key h hex k r ≡ true = rw key has' in
          ground (
            arith,
            has,
            stays one id r p was there had key,
            any-find (λ e. has_key h hex k e.1) o id r was had,
          )
    ]

    gone_known :
        unique n ≡ true
        → ((id : String) (p : Peer) → find id n ≡ some p → contains id ids ≡ true)
        → all (is_read h hex o n old_psk cur_psk) ids ≡ true
        → keyed h hex k n ≡ false
        → (gives_key k (gives h hex o n old_psk cur_psk ids)
            || not (holds k drops) && keyed h hex k o)
          ≡ keyed h hex k n
    gone_known v stands read nobody =
        elim (Bool-cases (gives_key k (gives h hex o n old_psk cur_psk ids))) [
          | inl given ↦
              let (id, p, there, has, written) =
                gives-inverse h hex o n k old_psk cur_psk ids read given in
              absurd (ground (arith, any-find (λ e. has_key h hex k e.1) n id p there has))
          | inr not_given ↦ elim (Bool-cases (keyed h hex k o)) [
            | inr never ↦ ground arith
            | inl had ↦
                let (id, r, was, has) = any_entry (λ e. has_key h hex k e.1) o u had in
                ground (arith, leaves id r was has nobody (stands id))
          ]
        ]

    -- The peers that the orders leave in wg.
    left_known :
        unique n ≡ true
        → OneKey h hex o
        → ((id : String) (p : Peer) → find id n ≡ some p → contains id ids ≡ true)
        → all (is_read h hex o n old_psk cur_psk) ids ≡ true
        → (gives_key k (gives h hex o n old_psk cur_psk ids)
            || not (holds k drops) && keyed h hex k o)
          ≡ keyed h hex k n
    left_known v one stands read = elim (Bool-cases (keyed h hex k n)) [
      | inl has ↦
          let (id, p, there, has') = any_entry (λ e. has_key h hex k e.1) n v has in
          elim (Bool-cases (writes h hex o n old_psk cur_psk id p)) [
            | inl written ↦ ground (
              arith,
              gives-holds h hex o n k old_psk cur_psk ids id p there has' written
                  (stands id p there),
            )
            | inr same ↦ kept_known one id p there has has' same
          ]
      | inr nobody ↦ gone_known v stands read nobody
    ]

  -- A reload of wg in which wg knew exactly the keys of the old configuration's peers, each of
  -- which belongs to one peer: once wg took the batch, and where the sort keeps the names, it
  -- knows exactly the keys of the new configuration's peers, whatever keys were swapped, removed
  -- or added.
  pub uapi_reload-known :
      {S : Type 0} (W : Wg S) (sort : List String → List String) (I : IsSort sort)
      (old cur : Config) (old_psk cur_psk : List (String × String)) (lines : List Line) (s s' : S)
      → uapi_reload h hex sort old cur old_psk cur_psk ≡ ok lines
      → W.set lines s ≡ (s', true)
      → OneKey h hex (peers_of old)
      → ((k : String) → (W.view s).known k ≡ keyed h hex k (peers_of old))
      → (k : String) → (W.view s').known k ≡ keyed h hex k (peers_of cur)
  uapi_reload-known W sort I old cur old_psk cur_psk lines s s' written taken one knew k =
      let o = peers_of old in
      let n = peers_of cur in
      let ids = sort (names_of n) in
      let (text, read) = uapi_reload-ok h hex sort old cur old_psk cur_psk written in
      let ks = drops o n old_psk cur_psk ids k (unique-peers_of old) in
      let gs = gives h hex o n old_psk cur_psk ids in
      let after : W.view s' ≡ give_all gs (drop_all ks (W.view s)) =
        W.obeys ks gs s s' (ap (λ l. W.set l s) (sym text) ∙ taken) in
      ap (λ (v : View). v.known k) after
      ∙ known-orders ks gs (W.view s) k
      ∙ ap (λ b. gives_key k gs || not (holds k ks) && b) (knew k)
      ∙ left_known o n old_psk cur_psk ids k (unique-peers_of old) (unique-peers_of cur) one
          (λ id p there. I.same_names id (names_of n) ∙ contains-names_of id n p there) read
