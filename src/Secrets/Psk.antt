-- ===== src/Secrets/Psk.antt =====
-- readSecrets, PSKPath, LoadPSK and PSKs of internal/config/config.go: the private key and the
-- pre-shared keys.
--
-- `say` is the text of an error. The files do not change while they are read.
pub mod Loaded
pub mod Required
use callsignet.Base.{
  ℕ, String, Bool, true, false, not, ◌||◌, Option, none, some, List, [], ◌∷◌, all, ◌==◌, nat_key,
  string_key, length, find, put, if◌then◌else◌, Result, ok, err,
}
use callsignet.Config.{Peer, Config, Secrets}
use callsignet.Config.Problems.{Host}
use callsignet.Secrets.{Files, SecretError, not_there, read_secret}

pub data LoadError : Type 0 where
  no_private_key : LoadError
  private_missing : String → LoadError
  secret_bad : SecretError → LoadError
  psk_shape : String → LoadError
  psk_zero : String → LoadError

-- os.IsNotExist, on the errors of ReadSecret.
abbrev is_not_exist : SecretError → Bool
is_not_exist not_there = true
is_not_exist _ = false

-- `s + t`.
abbrev append_text : String → String → String
append_text String.[] t = t
append_text (String.◌∷◌ c s) t = String.◌∷◌ c (append_text s t)

module _ (fs : Files) (h : Host) (c : Config) where
  unfoldable pub psk_path : String → String
  psk_path id =
      if c.self.psk.dir == "" || id == c.self.peer_id
      then ""
      else fs.join c.self.psk.dir (append_text id ".key")

  -- The end of LoadPSK: the text of the file.
  unfoldable pub accept_psk : String → String → Result LoadError (Option String)
  accept_psk path key = elim (h.decode64 key) [
    | none ↦ err (psk_shape path)
    | some raw ↦
        if not (length raw == 32)
        then err (psk_shape path)
        else if all (λ b. b == 0) raw
        then err (psk_zero path)
        else ok (some key)
  ]

  -- A key, or `none` where there is none.
  unfoldable pub load_psk : String → Result LoadError (Option String)
  load_psk id =
      let path = psk_path id in
      if path == "" then ok none else elim (read_secret fs path) [
        | err e ↦ if is_not_exist e then ok none else err (secret_bad e)
        | ok b ↦ accept_psk path (h.trim_space (fs.text_of b))
      ]

  unfoldable pub load_private : Result LoadError String
  load_private =
      if c.self.private_key == ""
      then err no_private_key
      else elim (read_secret fs c.self.private_key) [
        | err e ↦
            if is_not_exist e then err (private_missing c.self.private_key) else err (secret_bad e)
        | ok b ↦ ok (h.trim_space (fs.text_of b))
      ]

  module _ (say : LoadError → String) where
    -- A round of the loop of readSecrets.
    unfoldable pub read_psk : Secrets → Peer → Secrets
    read_psk s p = if p.peer_id == c.self.peer_id then s else elim (load_psk p.peer_id) [
      | err e ↦ record s { psk_err = put p.peer_id (say e) s.psk_err }
      | ok none ↦ s
      | ok (some key) ↦ record s { psk = put p.peer_id key s.psk }
    ]

    unfoldable pub read_psks : Secrets → List Peer → Secrets
    read_psks s [] = s
    read_psks s (p ∷ ps) = read_psks (read_psk s p) ps

    unfoldable pub read_secrets : Secrets
    read_secrets =
        let s : Secrets = elim load_private [
          | err e ↦ record { private = ""; private_err = some (say e); psk = []; psk_err = [] }
          | ok key ↦ record { private = key; private_err = none; psk = []; psk_err = [] }
        ] in
        read_psks s c.peers

-- The errors of the keys, in the order of the peers.
unfoldable pub psk_errors : List (String × String) → List Peer → Option String
psk_errors errs [] = none
psk_errors errs (p ∷ ps) = elim (find p.peer_id errs) [
  | some e ↦ some e
  | none ↦ psk_errors errs ps
]

-- PSKs: the first peer whose key could not be read, or all keys.
unfoldable pub psks : Config → Result String (List (String × String))
psks c = elim (psk_errors c.secrets.psk_err c.peers) [ some e ↦ err e | none ↦ ok c.secrets.psk ]
