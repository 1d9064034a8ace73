-- ===== src/Tests/Secrets.antt =====
-- A file system with one file, which holds a key.
use callsignet.Base.{
  ◌<◌, ◌≡◌, ◌↔◌, ◌⊎◌, inl, inr, refl, arith, String, Bool, true, false, none, some, List, [], ◌∷◌,
  ◌==◌, nat_key, string_key, ltb, find, put, if◌then◌else◌, ok,
}
use callsignet.Config.{Config}
use callsignet.Config.Keys.{psk_problems, psk_each, check_psk}
use callsignet.Secrets.{
  File, missing, opened, Files, writable_dir, no_place, text_length, safe_dir, safe_up, safe_all,
  starts, safe_path, check_stat, at_most, read_content, read_secret,
}
use callsignet.Secrets.Place.{IsPathLib, is_rooted, Holds, safe_path-found}
use callsignet.Secrets.Guarded.{IsGuarded, read_secret_iff}
use callsignet.Secrets.Psk.{
  LoadError, psk_path, accept_psk, load_psk, load_private, read_psk, read_psks, read_secrets,
  psk_errors, psks,
}
use callsignet.Secrets.Psk.Loaded.{IsUsable, psks-load_psk}
use callsignet.Secrets.Psk.Required.{check_psk-IsUsable}
use callsignet.Tests.Samples.{self_a, config_a}
use callsignet.Tests.Checks.{host_a}

abbrev key_file : File
key_file = record {
  stat = some (record { is_regular = true; perm = 384; owner = some 0 });
  content = some (75 ∷ []);
}

abbrev to_root : Bool → String → String
to_root true d = "/"
to_root false d = d

to_root-is_rooted : (b : Bool) (d : String) → is_rooted d ≡ true → is_rooted (to_root b d) ≡ true
to_root-is_rooted true d rooted = refl
to_root-is_rooted false d rooted = rooted

to_root_shorter :
    (b : Bool) (d : String)
    → ltb 1 (text_length d) ≡ b
    → (to_root b d ≡ d) ⊎ (text_length (to_root b d) < text_length d)
to_root_shorter true d long = inr (ground arith)
to_root_shorter false d short = inl refl

abbrev files : Files
files = record {
  open_file = λ p. if p == "/k" then opened key_file else missing;
  lstat = λ d. some (record { is_link = false; is_dir = true; is_sticky = false; perm = 493 });
  abs = λ p. if is_rooted p then some p else none;
  dir = λ d. to_root (ltb 1 (text_length d)) d;
  eval_links = λ d. some d;
  uid = 0;
  join = λ d name. "/k";
  text_of = λ bs. "K";
}

files-IsPathLib : IsPathLib files
files-IsPathLib = record {
  abs_rooted = λ p q e. ground arith;
  dir_rooted = λ d rooted. to_root-is_rooted (ltb 1 (text_length d)) d rooted;
  dir_shorter = λ d rooted. to_root_shorter (ltb 1 (text_length d)) d refl;
  links_rooted = λ d real rooted e. ground arith;
}

read_secret_iff_example : (read_secret files "/k" ≡ ok (75 ∷ [])) ↔ IsGuarded files "/k" (75 ∷ [])
read_secret_iff_example = read_secret_iff files "/k" (75 ∷ []) files-IsPathLib

key_read : read_secret files "/k" ≡ ok (75 ∷ [])
unfolding safe_dir safe_up safe_all starts safe_path check_stat at_most read_content read_secret
key_read = refl

-- srv-b has a pre-shared key in that file, and every peer must have one.
abbrev config_psk : Config
config_psk = record config_a {
  self = record self_a { psk = record { dir = "/psk"; mode = "required" } };
}

abbrev say : LoadError → String
say e = "bad"

abbrev with_secrets : Config
with_secrets = record config_psk { secrets = read_secrets files host_a config_psk say }

abbrev keys : List (String × String)
keys = ("srv-b", "K") ∷ []

psks_read : psks with_secrets ≡ ok keys
unfolding psks psk_errors read_secrets read_psks read_psk load_private load_psk accept_psk psk_path
    safe_dir safe_up safe_all starts safe_path check_stat at_most read_content read_secret find put
psks_read = refl

psks-load_psk_example : load_psk files host_a config_psk "srv-b" ≡ ok (find "srv-b" keys)
psks-load_psk_example = psks-load_psk files host_a config_psk say "srv-b" psks_read refl refl

none_missing : check_psk host_a with_secrets ≡ []
unfolding check_psk psk_each psk_problems read_secrets read_psks read_psk load_private load_psk
    accept_psk psk_path safe_dir safe_up safe_all starts safe_path check_stat at_most read_content
    read_secret find put
none_missing = refl

check_psk-IsUsable_example :
    (key : String) × (find "srv-b" with_secrets.secrets.psk ≡ some key)
    × IsUsable files host_a (psk_path files host_a config_psk "srv-b") key
check_psk-IsUsable_example =
    check_psk-IsUsable files host_a config_psk say "srv-b" none_missing refl refl refl

-- The same with directories that everyone can write.
abbrev open_files : Files
open_files = record files {
  lstat = λ d. some (record { is_link = false; is_dir = true; is_sticky = false; perm = 511 });
}

open_files-IsPathLib : IsPathLib open_files
open_files-IsPathLib = record {
  abs_rooted = files-IsPathLib.abs_rooted;
  dir_rooted = files-IsPathLib.dir_rooted;
  dir_shorter = files-IsPathLib.dir_shorter;
  links_rooted = files-IsPathLib.links_rooted;
}

root_writable : safe_path open_files "/k" ≡ some (writable_dir "/" 511)
unfolding safe_dir safe_up safe_all starts safe_path
root_writable = refl

safe_path-found_example :
    ((open_files.abs "/k" ≡ none) × (writable_dir "/" 511 ≡ no_place))
    ⊎ ((e : String) × Holds open_files "/k" e
        × (safe_dir open_files e ≡ some (writable_dir "/" 511)))
safe_path-found_example =
    safe_path-found open_files open_files-IsPathLib "/k" (writable_dir "/" 511) root_writable
