-- ===== src/Secrets.antt =====
-- internal/config/secret.go: reading a file that holds a secret.
--
-- What the file system answers is the record Files. A mode is its permission bits with the tests
-- of its kind. The loop up to the root has a round of fuel for each character of the path and one
-- more.
pub mod Place
pub mod Guarded
pub mod Psk
use Prim.Native.Char.{Char}
use callsignet.Base.{
  ℕ, zero, suc, ◌%◌, ◌/◌, String, Bool, true, false, not, ◌&&◌, ◌||◌, Option, none, some, List, [],
  ◌∷◌, ltb, ◌==◌, nat_key, string_key, length, take, if◌then◌else◌, Result, ok, err, ◌>>=◌,
}

-- fs.FileInfo of an open file; `owner` is `none` where it has no Stat_t.
pub record Stat : Type 0 where
  pub is_regular : Bool
  pub perm : ℕ
  pub owner : Option ℕ

-- A file that is open: `none` for an error of Stat and of reading.
pub record File : Type 0 where
  pub stat : Option Stat
  pub content : Option (List ℕ)

-- What os.OpenFile gives, without following a link at the end.
pub data Opened : Type 0 where
  missing : Opened
  a_link : Opened
  refused : Opened
  opened : File → Opened

-- fs.FileInfo of os.Lstat.
pub record Entry : Type 0 where
  pub is_link : Bool
  pub is_dir : Bool
  pub is_sticky : Bool
  pub perm : ℕ

pub record Files : Type 0 where
  pub open_file : String → Opened
  pub lstat : String → Option Entry
  pub abs : String → Option String  -- filepath.Abs
  pub dir : String → String  -- filepath.Dir
  pub eval_links : String → Option String  -- filepath.EvalSymlinks
  pub uid : ℕ  -- os.Getuid
  pub join : String → String → String  -- filepath.Join
  pub text_of : List ℕ → String  -- string(b)

pub data SecretError : Type 0 where
  not_there : SecretError
  linked : SecretError
  unopened : SecretError
  no_place : SecretError
  unseen_dir : String → SecretError
  not_dir : String → SecretError
  writable_dir : String → ℕ → SecretError
  too_deep : String → SecretError  -- out of fuel
  no_stat : SecretError
  not_regular : SecretError
  readable : ℕ → SecretError
  foreign : ℕ → SecretError
  unread : SecretError
  too_large : SecretError

abbrev pub secret_limit : ℕ
secret_limit = 4096

-- `perm & 0o022 != 0`.
abbrev pub others_write : ℕ → Bool
others_write perm = not (perm / 16 % 2 == 0) || not (perm / 2 % 2 == 0)

-- `perm & 0o077 != 0`.
abbrev pub others_use : ℕ → Bool
others_use perm = not (perm % 64 == 0)

-- `len(s)`, counted in characters: the fuel.
abbrev pub text_length : String → ℕ
text_length String.[] = 0
text_length (String.◌∷◌ c s) = suc (text_length s)

-- What is read of a file: at most a byte more than the limit `n`.
unfoldable pub at_most : ℕ → List ℕ → Result SecretError (List ℕ)
at_most n bytes = let b = take (suc n) bytes in if ltb n (length b) then err too_large else ok b

unfoldable pub read_content : Option (List ℕ) → Result SecretError (List ℕ)
read_content none = err unread
read_content (some bytes) = at_most secret_limit bytes

module _ (fs : Files) where
  unfoldable pub safe_dir : String → Option SecretError
  safe_dir d = elim (fs.lstat d) [
    | none ↦ some (unseen_dir d)
    | some e ↦
        if e.is_link
        then none
        else if not e.is_dir
        then some (not_dir d)
        else if others_write e.perm && not e.is_sticky
        then some (writable_dir d e.perm)
        else none
  ]

  -- The inner loop of safePath: the directory and all above it.
  unfoldable pub safe_up : ℕ → String → Option SecretError
  safe_up zero d = some (too_deep d)
  safe_up (suc fuel) d =
      let above = safe_up fuel (fs.dir d) in
      elim (safe_dir d) [ some e ↦ some e | none ↦ if fs.dir d == d then none else above ]

  -- The outer loop of safePath.
  unfoldable pub safe_all : List String → Option SecretError
  safe_all [] = none
  safe_all (d ∷ ds) = elim (safe_up (suc (text_length d)) d) [
    | some e ↦ some e
    | none ↦ safe_all ds
  ]

  -- The directories that safePath starts from: as written, and with its links resolved.
  unfoldable pub starts : String → List String
  starts d = elim (fs.eval_links d) [
    | none ↦ d ∷ []
    | some real ↦ if not (real == d) then d ∷ real ∷ [] else d ∷ []
  ]

  unfoldable pub safe_path : String → Option SecretError
  safe_path path = elim (fs.abs path) [
    | none ↦ some no_place
    | some p ↦ safe_all (starts (fs.dir p))
  ]

  -- `int(st.Uid) != uid && st.Uid != 0`.
  abbrev pub is_foreign : ℕ → Bool
  is_foreign owner = not (owner == fs.uid) && not (owner == 0)

  abbrev pub check_owner : Option ℕ → Option SecretError
  check_owner none = none
  check_owner (some owner) = if is_foreign owner then some (foreign owner) else none

  unfoldable pub check_stat : Option Stat → Option SecretError
  check_stat none = some no_stat
  check_stat (some st) =
      if not st.is_regular
      then some not_regular
      else if others_use st.perm
      then some (readable st.perm)
      else check_owner st.owner

  unfoldable pub read_secret : String → Result SecretError (List ℕ)
  read_secret path = elim (fs.open_file path) [
    | missing ↦ err not_there
    | a_link ↦ err linked
    | refused ↦ err unopened
    | opened f ↦ elim (safe_path path) [
      | some e ↦ err e
      | none ↦ elim (check_stat f.stat) [ some e ↦ err e | none ↦ read_content f.content ]
    ]
  ]
