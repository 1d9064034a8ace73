-- ===== src/Wg/Kept.antt =====
-- What a reload by UAPIReload of internal/wgdev/uapi.go leaves in wg as it was.
use callsignet.Base.{
  ℕ, String, Bool, true, false, not, none, some, List, any, all, any-gather, string_key, find, ok,
  ◌≡◌, sym, ap, ◌∙◌, arith, Bool-cases, Option-cases, inl, inr,
}
use callsignet.Config.{Peer, Config}
use callsignet.Config.Problems.{Host}
use callsignet.Wg.{Line, unchanged, uapi_reload, peers_of, psk_at, names_of}
use callsignet.Wg.Orders.{Give, writes, gives, gift, is_read, uapi_reload-ok, hex_of, psk_given}
use callsignet.Wg.View.{
  View, Wg, holds, gives_key, gives_psk, drop_all, give_all, held-orders, psk-orders,
}
use callsignet.Wg.Entries.{unique-peers_of, any_name, all-contains}
use callsignet.Wg.Written.{has_key, OneKey, gives-inverse}
use callsignet.Wg.Refines.{drops, stays}

module _ (h : Host) (hex : List ℕ → String) where
  -- A peer that is not written gets nothing from the orders.
  not_given :
      (o n : List (String × Peer)) (k : String) (old_psk cur_psk : List (String × String))
      (ids : List String)
      → OneKey h hex n
      → all (is_read h hex o n old_psk cur_psk) ids ≡ true
      → (id : String) (p : Peer) → find id n ≡ some p
      → has_key h hex k p ≡ true
      → writes h hex o n old_psk cur_psk id p ≡ false
      → gives_key k (gives h hex o n old_psk cur_psk ids) ≡ false
  not_given o n k old_psk cur_psk ids one read id p there has same =
      elim (Bool-cases (gives_key k (gives h hex o n old_psk cur_psk ids))) [
        | inr out ↦ out
        | inl given ↦
            let (j, q, there', has', written) =
              gives-inverse h hex o n k old_psk cur_psk ids read given in
            let e : j ≡ id = one k j id q p there' there has' has in absurd (ground (arith, e))
      ]

  -- A peer whose pre-shared key is gone is given none.
  no_psk_given :
      (o n : List (String × Peer)) (k : String) (old_psk cur_psk : List (String × String))
      (ids : List String)
      → OneKey h hex n
      → all (is_read h hex o n old_psk cur_psk) ids ≡ true
      → (id : String) (p : Peer) → find id n ≡ some p
      → has_key h hex k p ≡ true
      → psk_at id cur_psk ≡ ""
      → any (gives_psk k) (gives h hex o n old_psk cur_psk ids) ≡ false
  no_psk_given o n k old_psk cur_psk ids one read id p there has no_key =
      elim (Bool-cases (any (gives_psk k) (gives h hex o n old_psk cur_psk ids))) [
        | inr out ↦ out
        | inl given ↦
            let q : String → Bool = λ id. any (gives_psk k) (gift h hex o n old_psk cur_psk id) in
            let walked : any q ids ≡ true =
              sym (any-gather (gives_psk k) (gift h hex o n old_psk cur_psk) ids) ∙ given in
            let (j, stands, passed) = any_name q ids walked in
            let legible = all-contains (is_read h hex o n old_psk cur_psk) ids j read stands in
            elim (Option-cases (find j n)) [
              | inl gone ↦ absurd (ground arith)
              | inr (r, there') ↦ elim (Option-cases (hex_of h hex r.public_key)) [
                | inl bad ↦ absurd (ground arith)
                | inr (i, good) ↦
                    let has' : has_key h hex k r ≡ true = ground arith in
                    let e : j ≡ id = one k j id r p there' there has' has in
                    let none_left : psk_given h hex (psk_at j cur_psk) ≡ none =
                      ap (λ name. psk_given h hex (psk_at name cur_psk)) e
                      ∙ ap (psk_given h hex) no_key in
                    absurd (ground (arith, none_left))
              ]
            ]
      ]

  module _ {S : Type 0} (W : Wg S) (sort : List String → List String) (old cur : Config)
      (old_psk cur_psk : List (String × String)) (lines : List Line) (s s' : S)
      (written : uapi_reload h hex sort old cur old_psk cur_psk ≡ ok lines)
      (taken : W.set lines s ≡ (s', true)) (one : OneKey h hex (peers_of old))
      (one' : OneKey h hex (peers_of cur)) (id k : String) (r p : Peer)
      (was : find id (peers_of old) ≡ some r) (there : find id (peers_of cur) ≡ some p)
      (key : r.public_key ≡ p.public_key) (has : has_key h hex k p ≡ true) where
    abbrev ids : List String
    ids = sort (names_of (peers_of cur))

    abbrev ks : List String
    ks = drops h hex (peers_of old) (peers_of cur) old_psk cur_psk ids k (unique-peers_of old)

    abbrev gs : List Give
    gs = gives h hex (peers_of old) (peers_of cur) old_psk cur_psk ids

    after : W.view s' ≡ give_all gs (drop_all ks (W.view s))
    after =
        let (text, read) = uapi_reload-ok h hex sort old cur old_psk cur_psk written in
        W.obeys ks gs s s' (ap (λ l. W.set l s) (sym text) ∙ taken)

    all_read : all (is_read h hex (peers_of old) (peers_of cur) old_psk cur_psk) ids ≡ true
    all_read = (uapi_reload-ok h hex sort old cur old_psk cur_psk written).1

    undropped : holds k ks ≡ false
    undropped =
        stays h hex (peers_of old) (peers_of cur) old_psk cur_psk ids k (unique-peers_of old) one id
          r p was there (rw key has) key

    -- A peer that the new configuration leaves as it was, its pre-shared key included, keeps in wg
    -- the address at which it was last seen and its pre-shared key, once wg took the batch. No two
    -- peers have one key, neither before nor after.
    pub uapi_reload-untouched :
        unchanged (some r) p (psk_at id old_psk) (psk_at id cur_psk) ≡ true
        → ((W.view s').psk k ≡ (W.view s).psk k) × ((W.view s').at k ≡ (W.view s).at k)
    uapi_reload-untouched same =
        let still : unchanged (find id (peers_of old)) p (psk_at id old_psk) (psk_at id cur_psk)
            ≡ true =
          rw was same in
        let out : gives_key k gs ≡ false =
          not_given (peers_of old) (peers_of cur) k old_psk cur_psk ids one' all_read id p there has
            (ap not still) in
        let held = held-orders ks gs (W.view s) k undropped out in
        (ap (λ (v : View). v.psk k) after ∙ held.0, ap (λ (v : View). v.at k) after ∙ held.1)

    -- A peer that keeps its public key and has no pre-shared key any more keeps the old one in wg,
    -- once wg took the batch: the reload writes no preshared_key line for it and does not take it
    -- away first. No two peers have one key, neither before nor after.
    pub uapi_reload-psk_kept : psk_at id cur_psk ≡ "" → (W.view s').psk k ≡ (W.view s).psk k
    uapi_reload-psk_kept no_key =
        ap (λ (v : View). v.psk k) after
        ∙ psk-orders ks gs (W.view s) k undropped (
            no_psk_given (peers_of old) (peers_of cur) k old_psk cur_psk ids one' all_read id p
              there has no_key)
