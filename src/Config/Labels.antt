-- ===== src/Config/Labels.antt =====
-- checkIface and checkLabel in internal/config/validate.go, on the bytes of a name.
use Prim.Native.Char.{code}
use callsignet.Base.{
  ℕ, String, Bool, not, ◌&&◌, ◌||◌, Option, none, some, List, [], ◌∷◌, ◌++◌, ◌+◌, ◌-◌, ◌/◌, ◌%◌,
  ltb, leb, if◌then◌else◌, ◌==◌, nat_key, string_key, length, any, all, get_or,
}
use callsignet.Config.Problems.{
  Problem, LabelKind, label_empty, label_long, label_bytes, label_hyphen, iface_empty, iface_long,
  iface_dots, iface_bytes,
}

-- The bytes of a character in UTF-8.
unfoldable pub encode : ℕ → List ℕ
encode n =
    if ltb n 0x80
    then n ∷ []
    else if ltb n 0x800
    then (0xc0 + n / 64) ∷ (0x80 + n % 64) ∷ []
    else if ltb n 0x10000
    then (0xe0 + n / 4096) ∷ (0x80 + n / 64 % 64) ∷ (0x80 + n % 64) ∷ []
    else (0xf0 + n / 262144) ∷ (0x80 + n / 4096 % 64) ∷ (0x80 + n / 64 % 64) ∷ (0x80 + n % 64) ∷ []

unfoldable pub bytes : String → List ℕ
bytes String.[] = []
bytes (String.◌∷◌ c s) = encode (code c) ++ bytes s

abbrev pub iface_byte_bad : ℕ → Bool
iface_byte_bad c = c == b'/' || c == b':' || leb c b' ' || c == 0x7f

unfoldable pub check_iface : String → Option Problem
check_iface v =
    if v == ""
    then some iface_empty
    else if ltb 15 (length (bytes v))
    then some (iface_long v)
    else if v == "." || v == ".."
    then some (iface_dots v)
    else if any iface_byte_bad (bytes v)
    then some (iface_bytes v)
    else none

abbrev pub label_byte : ℕ → Bool
label_byte c = leb b'a' c && leb c b'z' || leb b'0' c && leb c b'9' || c == b'-'

unfoldable pub check_label : LabelKind → String → Option Problem
check_label kind v =
    let bs = bytes v in
    if v == ""
    then some (label_empty kind)
    else if ltb 63 (length bs)
    then some (label_long kind v)
    else if not (all label_byte bs)
    then some (label_bytes kind v)
    else if get_or bs 0 0 == b'-' || get_or bs (length bs - 1) 0 == b'-'
    then some (label_hyphen kind v)
    else none
