-- ===== src/Wg/Orders.antt =====
-- The texts of internal/wgdev/uapi.go read as orders: the keys of the peers that are taken away,
-- then the peers that are set.
use callsignet.Base.{
  ℕ, String, Bool, true, false, not, ◌||◌, Option, none, some, List, [], ◌∷◌, ◌++◌, ◌==◌, nat_key,
  string_key, find, value_or, gather, all, if◌then◌else◌, ok, >>=_inverse, ◌≡◌, refl, arith,
  Option-cases, Bool-cases, inl, inr, Result-cases,
}
use callsignet.Config.{Peer, Config}
use callsignet.Config.Problems.{Host}
use callsignet.Wg.{
  Line, public_key, remove, replace_allowed_ips, allowed_ip, preshared_key, endpoint, keepalive,
  keepalive_seconds, endpoint_lines, key_to_hex, write_psk, peer_lines, remove_lines, gone_lines,
  unchanged, rekey_lines, reload_each, uapi_reload, peers_of, psk_at, names_of,
}

-- A peer that is set: its key, its tunnel address, and its pre-shared key and address if they are
-- written.
pub record Give : Type 0 where
  pub key : String
  pub ip : String
  pub psk : Option String
  pub at : Option String

abbrev pub psk_line : Option String → List Line
psk_line none = []
psk_line (some k) = preshared_key k ∷ []

abbrev pub at_line : Option String → List Line
at_line none = []
at_line (some ep) = endpoint ep ∷ []

abbrev pub give_lines : Give → List Line
give_lines g =
    public_key g.key
    ∷ replace_allowed_ips
    ∷ allowed_ip g.ip
    ∷ (psk_line g.psk ++ (at_line g.at ++ keepalive keepalive_seconds ∷ []))

unfoldable pub render_gives : List Give → List Line
render_gives [] = []
render_gives (g ∷ gs) = give_lines g ++ render_gives gs

unfoldable pub render_drops : List String → List Line
render_drops [] = []
render_drops (k ∷ ks) = public_key k ∷ remove ∷ render_drops ks

render_drops-append :
    (js ks : List String) → render_drops (js ++ ks) ≡ render_drops js ++ render_drops ks
unfolding render_drops
render_drops-append [] ks = refl
render_drops-append (j ∷ js) ks = cc (render_drops-append js ks)

abbrev pub head_of : List String → Option String
head_of [] = none
head_of (s ∷ _) = some s

abbrev pub listed : Option String → List String
listed none = []
listed (some k) = k ∷ []

module _ (h : Host) (hex : List ℕ → String) where
  abbrev pub hex_of : String → Option String
  hex_of = key_to_hex h hex

  -- The pre-shared key that is written: none for the empty text.
  abbrev pub psk_given : String → Option String
  psk_given key = if key == "" then none else hex_of key

  abbrev pub give_of : Peer → String → Give
  give_of p psk = record {
    key = value_or "" (hex_of p.public_key);
    ip = p.tunnel_ip;
    psk = psk_given psk;
    at = head_of p.endpoints;
  }

  -- The keys of the peers that are gone.
  abbrev pub gone_key : List (String × Peer) → String × Peer → List String
  gone_key cur (id, p) = elim (find id cur) [ none ↦ listed (hex_of p.public_key) | some _ ↦ [] ]

  abbrev pub gone_keys : List (String × Peer) → List (String × Peer) → List String
  gone_keys cur = gather (gone_key cur)

  abbrev pub rekeyed : Option Peer → Peer → List String
  rekeyed none p = []
  rekeyed (some o) p =
      if not (o.public_key == p.public_key) then listed (hex_of o.public_key) else []

  module _ (old cur : List (String × Peer)) (old_psk cur_psk : List (String × String)) where
    -- Whether a name is written.
    abbrev pub writes : String → Peer → Bool
    writes id p = not (unchanged (find id old) p (psk_at id old_psk) (psk_at id cur_psk))

    abbrev pub old_key : String → List String
    old_key id = elim (find id cur) [
      | none ↦ []
      | some p ↦ if writes id p then rekeyed (find id old) p else []
    ]

    abbrev pub old_keys : List String → List String
    old_keys = gather old_key

    abbrev pub gift : String → List Give
    gift id = elim (find id cur) [
      | none ↦ []
      | some p ↦ if writes id p then give_of p (psk_at id cur_psk) ∷ [] else []
    ]

    abbrev pub gives : List String → List Give
    gives = gather gift

    -- The keys that are written can be read.
    abbrev pub is_read : String → Bool
    is_read id = elim (find id cur) [
      | none ↦ true
      | some p ↦
          unchanged (find id old) p (psk_at id old_psk) (psk_at id cur_psk)
          || elim (hex_of p.public_key) [ none ↦ false | some _ ↦ true ]
    ]

  remove_lines-listed : (key : String) → remove_lines h hex key ≡ render_drops (listed (hex_of key))
  unfolding render_drops
  remove_lines-listed key = elim (Option-cases (hex_of key)) [
    | inl bad ↦ ground arith
    | inr (k, e) ↦ ground arith
  ]

  gone_lines-gone_keys :
      (cur m : List (String × Peer)) → gone_lines h hex cur m ≡ render_drops (gone_keys cur m)
  unfolding gone_lines render_drops
  gone_lines-gone_keys cur [] = refl
  gone_lines-gone_keys cur ((id, p) ∷ m) = ground (
    arith,
    gone_lines-gone_keys cur m,
    remove_lines-listed p.public_key,
    render_drops-append (listed (hex_of p.public_key)) (gone_keys cur m),
  )

  rekey_lines-rekeyed :
      (o : Option Peer) (p : Peer) → rekey_lines h hex o p ≡ render_drops (rekeyed o p)
  unfolding render_drops
  rekey_lines-rekeyed none p = refl
  rekey_lines-rekeyed (some o) p = ground (arith, remove_lines-listed o.public_key)

  endpoint_lines-at_line : (eps : List String) → endpoint_lines eps ≡ at_line (head_of eps)
  endpoint_lines-at_line [] = refl
  endpoint_lines-at_line (ep ∷ eps) = refl

  write_psk-ok :
      (key id : String) {lines : List Line}
      → write_psk h hex key id ≡ ok lines
      → lines ≡ psk_line (psk_given key)
  unfolding write_psk
  write_psk-ok key id e = ground arith

  peer_lines-ok :
      (id : String) (p : Peer) (psk : String) {lines : List Line}
      → peer_lines h hex id p psk ≡ ok lines
      → (lines ≡ give_lines (give_of p psk)) × (hex_of p.public_key ≡ some (give_of p psk).key)
  unfolding peer_lines
  peer_lines-ok id p psk e = elim (Option-cases (hex_of p.public_key)) [
    | inl bad ↦ absurd (ground arith)
    | inr (k, found) ↦ elim (Result-cases (write_psk h hex psk id)) [
      | inl (ls, w) ↦ ground (arith, write_psk-ok psk id w, endpoint_lines-at_line p.endpoints)
      | inr (x, w) ↦ absurd (ground arith)
    ]
  ]

  module _ (old cur : List (String × Peer)) (old_psk cur_psk : List (String × String)) where
    reload_each-ok :
        (ids : List String) {both : List Line × List Line}
        → reload_each h hex old cur old_psk cur_psk ids ≡ ok both
        → (both.0 ≡ render_drops (old_keys old cur old_psk cur_psk ids))
          × (both.1 ≡ render_gives (gives old cur old_psk cur_psk ids))
          × (all (is_read old cur old_psk cur_psk) ids ≡ true)
    unfolding reload_each render_drops render_gives
    reload_each-ok [] e = ground arith
    reload_each-ok (id ∷ ids) {both} e = elim (Option-cases (find id cur)) [
      | inl missing ↦ ground (arith, reload_each-ok ids {both = both})
      | inr (p, found) ↦
          elim (Bool-cases (unchanged (find id old) p (psk_at id old_psk) (psk_at id cur_psk))) [
            | inl same ↦ ground (arith, reload_each-ok ids {both = both})
            | inr differs ↦ elim (Result-cases (peer_lines h hex id p (psk_at id cur_psk))) [
              | inr (x, bad) ↦ absurd (ground arith)
              | inl (lines, written) ↦
                  elim (Result-cases (reload_each h hex old cur old_psk cur_psk ids)) [
                    | inr (x, bad) ↦ absurd (ground arith)
                    | inl (rest, later) ↦
                        let split : both
                            ≡ (rekey_lines h hex (find id old) p ++ rest.0, lines ++ rest.1) =
                          ground arith in
                        ground (
                          arith,
                          peer_lines-ok id p (psk_at id cur_psk) written,
                          reload_each-ok ids later,
                          rekey_lines-rekeyed (find id old) p,
                          render_drops-append (rekeyed (find id old) p)
                              (old_keys old cur old_psk cur_psk ids),
                        )
                  ]
            ]
          ]
    ]

  -- What UAPIReload writes takes away the peers that are gone and the old keys of those that have a
  -- new one, and then sets each peer that is new or changed.
  pub uapi_reload-ok :
      (sort : List String → List String) (old cur : Config)
      (old_psk cur_psk : List (String × String)) {lines : List Line}
      → uapi_reload h hex sort old cur old_psk cur_psk ≡ ok lines
      → let ids = sort (names_of (peers_of cur)) in
        (lines
          ≡ render_drops (
              gone_keys (peers_of cur) (peers_of old)
              ++ old_keys (peers_of old) (peers_of cur) old_psk cur_psk ids)
            ++ render_gives (gives (peers_of old) (peers_of cur) old_psk cur_psk ids))
        × (all (is_read (peers_of old) (peers_of cur) old_psk cur_psk) ids ≡ true)
  unfolding uapi_reload
  uapi_reload-ok sort old cur old_psk cur_psk {lines} e =
      let ids = sort (names_of (peers_of cur)) in
      let (both, walked, done) =
        >>=_inverse (reload_each h hex (peers_of old) (peers_of cur) old_psk cur_psk ids) _ e in
      let (drops, adds, read) =
        reload_each-ok (peers_of old) (peers_of cur) old_psk cur_psk ids walked in
      ground (
        arith,
        read,
        done,
        drops,
        adds,
        gone_lines-gone_keys (peers_of cur) (peers_of old),
        render_drops-append (gone_keys (peers_of cur) (peers_of old))
            (old_keys (peers_of old) (peers_of cur) old_psk cur_psk ids),
      )
