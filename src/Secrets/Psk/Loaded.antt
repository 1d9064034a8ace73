-- ===== src/Secrets/Psk/Loaded.antt =====
-- What internal/config/config.go accepts as pre-shared keys, and what PSKs then returns.
use callsignet.Base.{
  ℕ, String, true, false, Option, none, some, List, [], ◌∷◌, all, any, ◌==◌, nat_key, string_key,
  length, find, if◌then◌else◌, find-put, Result, ok, err, ◌≡◌, ◌∙◌, refl, sym, ap, arith,
  Option-cases, Bool-cases, Result-cases, inl, inr,
}
use callsignet.Config.{Peer, Config, Secrets}
use callsignet.Config.Problems.{Host}
use callsignet.Secrets.{Files, read_secret}
use callsignet.Secrets.Psk.{
  LoadError, psk_path, accept_psk, load_psk, read_psk, read_psks, load_private, read_secrets,
  psk_errors, psks,
}

-- A key that wg takes as one: 32 bytes, not all of them zero, and the trimmed text of a file that
-- ReadSecret gives.
pub record IsUsable (fs : Files) (h : Host) (path key : String) : Type 0 where
  pub bytes : List ℕ
  pub raw : List ℕ
  pub is_read : read_secret fs path ≡ ok bytes
  pub trimmed : key ≡ h.trim_space (fs.text_of bytes)
  pub decoded : h.decode64 key ≡ some raw
  pub size : length raw ≡ 32
  pub not_zero : all (λ b. b == 0) raw ≡ false

module _ (fs : Files) (h : Host) (c : Config) where
  accept_psk-ok :
      (path key : String) {o : Option String}
      → accept_psk fs h c path key ≡ ok o
      → (o ≡ some key)
        × ((raw : List ℕ) × (h.decode64 key ≡ some raw)
            × (length raw ≡ 32)
            × (all (λ b. b == 0) raw ≡ false))
  unfolding accept_psk
  accept_psk-ok path key {o} done = elim (Option-cases (h.decode64 key)) [
    | inl bad ↦ absurd (ground (arith, bad))
    | inr (raw, good) ↦ elim (Bool-cases (length raw == 32)) [
      | inr short ↦ absurd (ground (arith, good))
      | inl full ↦ elim (Bool-cases (all (λ b. b == 0) raw)) [
        | inl zero ↦ absurd (ground (arith, good, full))
        | inr keyed ↦ (ground (arith, good, full, keyed), (raw, good, ground (arith, full), keyed))
      ]
    ]
  ]

  pub load_psk-IsUsable :
      (id key : String)
      → load_psk fs h c id ≡ ok (some key)
      → IsUsable fs h (psk_path fs h c id) key
  unfolding load_psk
  load_psk-IsUsable id key done = elim (Bool-cases (psk_path fs h c id == "")) [
    | inl nowhere ↦ absurd (ground (arith, nowhere))
    | inr somewhere ↦ elim (Result-cases (read_secret fs (psk_path fs h c id))) [
      | inr (x, bad) ↦ absurd (ground (arith, somewhere, bad))
      | inl (b, found) ↦
          let (same, (raw, good, full, keyed)) =
            accept_psk-ok (psk_path fs h c id) (h.trim_space (fs.text_of b)) {o = some key}
              (ground (arith, somewhere, found)) in
          let named : key ≡ h.trim_space (fs.text_of b) = ground arith in
          record {
            bytes = b;
            raw = raw;
            is_read = found;
            trimmed = named;
            decoded = ap h.decode64 named ∙ good;
            size = full;
            not_zero = keyed;
          }
    ]
  ]

  -- What a peer's file adds to the keys and to the errors.
  abbrev pub gain : Result LoadError (Option String) → Option String → Option String
  gain (ok (some key)) before = some key
  gain (ok none) before = before
  gain (err e) before = before

  abbrev pub fault :
      (LoadError → String) → Result LoadError (Option String) → Option String → Option String
  fault say (err e) before = some (say e)
  fault say (ok o) before = before

  pub gain-some :
      (r : Result LoadError (Option String)) (key : String)
      → gain r none ≡ some key
      → r ≡ ok (some key)
  gain-some (ok none) key e = absurd (ground arith)
  gain-some (ok (some k)) key e = ground arith
  gain-some (err x) key e = absurd (ground arith)

  again :
      (say : LoadError → String) (r : Result LoadError (Option String)) (a b : Option String)
      → (gain r (gain r a) ≡ gain r a) × (fault say r (fault say r b) ≡ fault say r b)
  again say (ok none) a b = (refl, refl)
  again say (ok (some key)) a b = (refl, refl)
  again say (err e) a b = (refl, refl)

  module _ (say : LoadError → String) (id : String) (other : (id == c.self.peer_id) ≡ false) where
    -- A round of the loop of readSecrets leaves this for the name `id`.
    read_psk-find :
        (s : Secrets) (p : Peer)
        → (find id (read_psk fs h c say s p).psk ≡ (
            if p.peer_id == id then gain (load_psk fs h c id) (find id s.psk) else find id s.psk))
          × (find id (read_psk fs h c say s p).psk_err ≡ (
              if p.peer_id == id
              then fault say (load_psk fs h c id) (find id s.psk_err)
              else find id s.psk_err))
    unfolding read_psk
    read_psk-find s p = elim (Bool-cases (p.peer_id == id)) [
      | inl this ↦
          let same : p.peer_id ≡ id = ground (arith, string_key.test_iff p.peer_id id) in
          let at = ap (load_psk fs h c) same in
          elim (Result-cases (load_psk fs h c id)) [
            | inr (e, bad) ↦
                ground (arith, this, same, at, bad, other, find-put p.peer_id id (say e) s.psk_err)
            | inl (none, none_there) ↦ ground (arith, this, same, at, none_there, other)
            | inl (some key, good) ↦
                ground (arith, this, same, at, good, other, find-put p.peer_id id key s.psk)
          ]
      | inr differs ↦ elim (Result-cases (load_psk fs h c p.peer_id)) [
        | inr (e, bad) ↦ ground (arith, differs, bad, find-put p.peer_id id (say e) s.psk_err)
        | inl (none, none_there) ↦ ground (arith, differs, none_there)
        | inl (some key, good) ↦ ground (arith, differs, good, find-put p.peer_id id key s.psk)
      ]
    ]

    read_psks-find :
        (s : Secrets) (ps : List Peer)
        → (find id (read_psks fs h c say s ps).psk ≡ (
            if any (λ p. p.peer_id == id) ps
            then gain (load_psk fs h c id) (find id s.psk)
            else find id s.psk))
          × (find id (read_psks fs h c say s ps).psk_err ≡ (
              if any (λ p. p.peer_id == id) ps
              then fault say (load_psk fs h c id) (find id s.psk_err)
              else find id s.psk_err))
    unfolding read_psks
    read_psks-find s [] = (refl, refl)
    read_psks-find s (p ∷ ps) =
        let s' = read_psk fs h c say s p in
        let r = load_psk fs h c id in
        let (step_psk, step_err) = read_psk-find s p in
        let (rest_psk, rest_err) = read_psks-find s' ps in
        let (same_psk, same_err) = again say r (find id s.psk) (find id s.psk_err) in
        (ground (arith, step_psk, rest_psk, same_psk), ground (arith, step_err, rest_err, same_err))

    -- What readSecrets leaves for a peer that is listed.
    pub read_secrets-find :
        any (λ p. p.peer_id == id) c.peers ≡ true
        → (find id (read_secrets fs h c say).psk ≡ gain (load_psk fs h c id) none)
          × (find id (read_secrets fs h c say).psk_err ≡ fault say (load_psk fs h c id) none)
    unfolding read_secrets find
    read_secrets-find listed = elim (Result-cases (load_private fs h c)) [
      | inl (key, read) ↦
          let s : Secrets = record { private = key; private_err = none; psk = []; psk_err = [] } in
          ground (arith, read, read_psks-find s c.peers)
      | inr (e, bad) ↦
          let s : Secrets = record {
            private = "";
            private_err = some (say e);
            psk = [];
            psk_err = [];
          } in
          ground (arith, bad, read_psks-find s c.peers)
    ]

  psk_errors-none :
      (errs : List (String × String)) (ps : List Peer) (id : String)
      → psk_errors errs ps ≡ none
      → any (λ p. p.peer_id == id) ps ≡ true
      → find id errs ≡ none
  unfolding psk_errors
  psk_errors-none errs [] id clean listed = absurd (ground arith)
  psk_errors-none errs (p ∷ ps) id clean listed = elim (Bool-cases (p.peer_id == id)) [
    | inl this ↦
        let same : p.peer_id ≡ id = ground (arith, string_key.test_iff p.peer_id id) in
        elim (Option-cases (find p.peer_id errs)) [
          | inl fine ↦ ap (λ x. find x errs) (sym same) ∙ fine
          | inr (e, bad) ↦ absurd (ground (arith, bad))
        ]
    | inr differs ↦ elim (Option-cases (find p.peer_id errs)) [
      | inl fine ↦ psk_errors-none errs ps id (ground (arith, fine)) (ground (arith, differs))
      | inr (e, bad) ↦ absurd (ground (arith, bad))
    ]
  ]

  -- Where PSKs returns keys for a configuration whose secrets were read, it returns for each other
  -- peer of peers.toml what LoadPSK found: a key, or none where there is no file of a key.
  pub psks-load_psk :
      (say : LoadError → String) (id : String) {m : List (String × String)}
      → psks (record c { secrets = read_secrets fs h c say }) ≡ ok m
      → any (λ p. p.peer_id == id) c.peers ≡ true
      → (id == c.self.peer_id) ≡ false
      → load_psk fs h c id ≡ ok (find id m)
  unfolding psks
  psks-load_psk say id {m} done listed other =
      let (keys, errs) = read_secrets-find say id other listed in
      let s = read_secrets fs h c say in
      elim (Option-cases (psk_errors s.psk_err c.peers)) [
        | inr (e, bad) ↦ absurd (ground (arith, bad))
        | inl clean ↦
            let fine = psk_errors-none s.psk_err c.peers id clean listed in
            let same : s.psk ≡ m = ground (arith, clean) in
            let named : find id s.psk ≡ find id m = ap (find id) same in
            elim (Result-cases (load_psk fs h c id)) [
              | inr (e, bad) ↦ absurd (ground (arith, errs, fine, bad))
              | inl (none, good) ↦ ground (arith, keys, good, named)
              | inl (some key, good) ↦ ground (arith, keys, good, named)
            ]
      ]
