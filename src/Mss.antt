-- ===== src/Mss.antt =====
-- internal/policy/mss.go: ClampMSS, which lowers the segment size that a TCP SYN announces.
--
-- A packet is the list of its bytes. The slices `tcp` and `opts` of the source share its bytes, so
-- they are positions in it. A result of false leaves the packet as it is.
pub mod Checksum
pub mod Scan
pub mod Bytes
pub mod Clamp
pub mod Announce
use callsignet.Base.{
  ℕ, zero, suc, ◌+◌, ◌-◌, ◌*◌, ◌/◌, ◌%◌, Bool, true, false, not, ◌&&◌, ◌||◌, Option, none, some,
  List, ltb, leb, if◌then◌else◌, ◌==◌, nat_key, length,
}
use callsignet.Packet.{
  byte, word, put_word, fold, fold_fuel, complement, version, header_length, frag_offset, proto_tcp,
}

abbrev pub mss_option : ℕ
mss_option = 2

-- The new value of the checksum where one word changes from `old` to `cur`, as in RFC 1624.
unfoldable pub fix_checksum : ℕ → ℕ → ℕ → ℕ
fix_checksum sum old cur = complement (fold fold_fuel (complement sum + complement old + cur))

-- How the loop over the options ends.
pub data Found : Type 0 where
  found_at : ℕ → Found
  no_option : Found
  out_of_fuel : Found

-- The loop over the options, which stand from `base` on in `count` bytes: the index of the option
-- at which it stops with kind 2 and length 4, or `no_option` where it returns false before.
unfoldable pub find_mss : ℕ → List ℕ → ℕ → ℕ → ℕ → Found
find_mss zero pkt base count i = out_of_fuel
find_mss (suc fuel) pkt base count i =
    let kind = byte pkt (base + i) in
    let l = byte pkt (base + (i + 1)) in
    let pad = find_mss fuel pkt base count (i + 1) in
    let next = find_mss fuel pkt base count (i + l) in
    if not (ltb i count)
    then no_option
    else if kind == 0
    then no_option
    else if kind == 1
    then pad
    else if leb count (i + 1)
    then no_option
    else if ltb l 2 || ltb count (i + l)
    then no_option
    else if kind == mss_option && l == 4
    then found_at i
    else next

-- `int(tcp[12]>>4) * 4`.
abbrev pub data_offset : List ℕ → ℕ
data_offset pkt = byte pkt (header_length pkt + 12) / 16 * 4

abbrev pub is_syn : List ℕ → Bool
is_syn pkt = not (byte pkt (header_length pkt + 13) / 2 % 2 == 0)

-- The guards before the loop.
unfoldable pub has_options : List ℕ → Bool
has_options pkt =
    if ltb (length pkt) 20 || not (version pkt == 4)
    then false
    else if not (byte pkt 9 == proto_tcp)
    then false
    else if not (frag_offset pkt == 0)
    then false
    else if ltb (header_length pkt) 20 || ltb (length pkt) (header_length pkt + 20)
    then false
    else if not (is_syn pkt)
    then false
    else if ltb (data_offset pkt) 20 || ltb (length pkt - header_length pkt) (data_offset pkt)
    then false
    else true

-- Where the loop stops, with a round of fuel for each byte of the options and one more.
abbrev pub mss_index : List ℕ → Found
mss_index pkt =
    find_mss (suc (data_offset pkt - 20)) pkt (header_length pkt + 20) (data_offset pkt - 20) 0

-- The body of the loop at the option: its value is the word two bytes on.
unfoldable pub clamp_at : List ℕ → ℕ → ℕ → Bool × List ℕ
clamp_at pkt max i =
    let at = header_length pkt + 20 + i + 2 in
    let sum_at = header_length pkt + 16 in
    let cur = word pkt at in
    let lowered = put_word pkt at max in
    if leb cur max
    then (false, pkt)
    else (true, put_word lowered sum_at (fix_checksum (word lowered sum_at) cur max))

unfoldable pub clamp_mss : List ℕ → ℕ → Bool × List ℕ
clamp_mss pkt max =
    if max == 0 || not (has_options pkt)
    then (false, pkt)
    else elim (mss_index pkt) [ found_at i ↦ clamp_at pkt max i | _ ↦ (false, pkt) ]
