-- ===== src/Mss/Clamp.antt =====
-- ClampMSS of internal/policy/mss.go: what it does to a packet that it changes.
use callsignet.Base.{
  ℕ, suc, ◌+◌, ◌-◌, ◌%◌, ◌≤◌, ◌<◌, ◌≡◌, ◌≢◌, ◌∙◌, inl, inr, arith, true, Option, none, some, List,
  length, if◌then◌else◌, nat_key, Bool-cases,
}
use callsignet.Packet.{byte, word, put_word, header_length}
use callsignet.Packet.Checksum.{IsBytes}
use callsignet.Packet.Parsing.{word-lt}
use callsignet.Mss.{
  found_at, fix_checksum, data_offset, is_syn, has_options, mss_index, clamp_at, clamp_mss,
}
use callsignet.Mss.Checksum.{fix_checksum_balance}
use callsignet.Mss.Scan.{Found-cases, find_mss_within, find_mss_prefix}
use callsignet.Mss.Bytes.{length-put_word, byte-put_word_ne, word-put_word}

-- Where the value of the segment size option stands, and where the TCP checksum stands.
abbrev pub mss_at : List ℕ → ℕ → ℕ
mss_at pkt i = header_length pkt + 20 + i + 2

abbrev pub sum_at : List ℕ → ℕ
sum_at pkt = header_length pkt + 16

-- The segment size that a packet announces, if it is a TCP SYN with the option.
pub announced : List ℕ → Option ℕ
announced pkt =
    if has_options pkt
    then elim (mss_index pkt) [ found_at i ↦ some (word pkt (mss_at pkt i)) | _ ↦ none ]
    else none

module _ (pkt : List ℕ) (guarded : has_options pkt ≡ true) where
  -- What the guards say of the lengths.
  guard_bounds :
      (20 ≤ header_length pkt)
      × (20 ≤ data_offset pkt)
      × (header_length pkt + data_offset pkt ≤ length pkt)
  unfolding has_options
  guard_bounds = ground arith

  module _ (i max : ℕ) (found : mss_index pkt ≡ found_at i) (small : max < 65536) where
    inside : mss_at pkt i + 1 < length pkt
    inside = omega (
      arith,
      guard_bounds,
      find_mss_within (suc (data_offset pkt - 20)) pkt (header_length pkt + 20)
          (data_offset pkt - 20) 0 i found,
    )

    abbrev lowered : List ℕ
    lowered = put_word pkt (mss_at pkt i) max

    abbrev clamped : List ℕ
    clamped =
        put_word lowered (sum_at pkt)
          (fix_checksum (word lowered (sum_at pkt)) (word pkt (mss_at pkt i)) max)

    -- No byte changes but those of the value and of the checksum.
    unchanged :
        (j : ℕ)
        → j ≢ sum_at pkt
        → j ≢ sum_at pkt + 1
        → j ≢ mss_at pkt i
        → j ≢ mss_at pkt i + 1
        → byte clamped j ≡ byte pkt j
    unchanged j a b c d =
        byte-put_word_ne lowered (sum_at pkt) _ j a b
        ∙ byte-put_word_ne pkt (mss_at pkt i) max j c d

    length-clamped : length clamped ≡ length pkt
    length-clamped = length-put_word lowered (sum_at pkt) _ ∙ length-put_word pkt (mss_at pkt i) max

    kept : (j : ℕ) → j < header_length pkt + 16 → byte clamped j ≡ byte pkt j
    kept j h = unchanged j (omega arith) (omega arith) (omega arith) (omega arith)

    kept_option :
        (j : ℕ)
        → j ≤ i + 1
        → byte clamped (header_length pkt + 20 + j) ≡ byte pkt (header_length pkt + 20 + j)
    kept_option j h = unchanged _ (omega arith) (omega arith) (omega arith) (omega arith)

    header_length-clamped : header_length clamped ≡ header_length pkt
    header_length-clamped = omega (arith, kept 0 (omega (arith, guard_bounds)))

    head_kept : (j : ℕ) → j < 36 → byte clamped j ≡ byte pkt j
    head_kept j h = kept j (omega (arith, guard_bounds))

    data_offset-clamped : data_offset clamped ≡ data_offset pkt
    data_offset-clamped =
        rw header_length-clamped (rw (kept (header_length pkt + 12) (omega arith)))

    is_syn-clamped : is_syn clamped ≡ is_syn pkt
    is_syn-clamped = rw header_length-clamped (rw (kept (header_length pkt + 13) (omega arith)))

    has_options-clamped : has_options clamped ≡ true
    unfolding has_options
    has_options-clamped = ground (
      arith,
      guarded,
      length-clamped,
      header_length-clamped,
      data_offset-clamped,
      is_syn-clamped,
      head_kept 0 (omega arith),
      head_kept 6 (omega arith),
      head_kept 7 (omega arith),
      head_kept 9 (omega arith),
    )

    mss_index-clamped : mss_index clamped ≡ found_at i
    mss_index-clamped = rw header_length-clamped (
        rw (kept (header_length pkt + 12) (omega arith)) (
          find_mss_prefix (suc (data_offset pkt - 20)) pkt clamped (header_length pkt + 20)
            (data_offset pkt - 20) 0 i found kept_option))

    value-clamped : word clamped (mss_at pkt i) ≡ max
    value-clamped =
        let low = word-put_word pkt (mss_at pkt i) max inside small in
        let at = mss_at pkt i in
        let a =
          byte-put_word_ne lowered (sum_at pkt)
            (fix_checksum (word lowered (sum_at pkt)) (word pkt at) max) at (omega arith)
            (omega arith) in
        let b =
          byte-put_word_ne lowered (sum_at pkt)
            (fix_checksum (word lowered (sum_at pkt)) (word pkt at) max) (at + 1) (omega arith)
            (omega arith) in
        omega (arith, low, a, b)

    announced-clamped : announced clamped ≡ some max
    unfolding announced
    announced-clamped =
        rw (has_options-clamped, mss_index-clamped, header_length-clamped) (rw value-clamped)

    -- The checksum takes up the change of the value.
    balance-clamped :
        IsBytes pkt
        → (word clamped (sum_at pkt) + max) % 65535
          ≡ (word pkt (sum_at pkt) + word pkt (mss_at pkt i)) % 65535
    balance-clamped bytes =
        let at = sum_at pkt in
        let old = word pkt (mss_at pkt i) in
        let (fits, even) =
          fix_checksum_balance (word pkt at) old max (word-lt pkt at bytes)
            (word-lt pkt (mss_at pkt i) bytes) small in
        let same : word lowered at ≡ word pkt at = omega (
          arith,
          byte-put_word_ne pkt (mss_at pkt i) max at (omega arith) (omega arith),
          byte-put_word_ne pkt (mss_at pkt i) max (at + 1) (omega arith) (omega arith),
        ) in
        let room : at + 1 < length lowered =
          omega (arith, guard_bounds, length-put_word pkt (mss_at pkt i) max, inside) in
        let fixed =
          word-put_word lowered at (fix_checksum (word lowered at) old max) room (rw same fits) in
        rw fixed (rw same even)

-- What ClampMSS did to a packet that it changed.
pub record Lowered (pkt : List ℕ) (max : ℕ) (out : List ℕ) : Type 0 where
  pub cur : ℕ
  pub at : ℕ
  pub before : announced pkt ≡ some cur
  pub larger : max < cur
  pub after : announced out ≡ some max
  pub size : length out ≡ length pkt
  pub rest :
      (j : ℕ) → j ≢ sum_at pkt → j ≢ sum_at pkt + 1 → j ≢ at → j ≢ at + 1 → byte out j ≡ byte pkt j
  pub balance : (word out (sum_at pkt) + max) % 65535 ≡ (word pkt (sum_at pkt) + cur) % 65535

-- Where ClampMSS returns true, the packet announced a segment size above the limit, and now
-- announces the limit. Its length is the same, no byte but the two of the value and the two of the
-- TCP checksum has changed, and the checksum takes up the change of the value, modulo 65535.
pub clamp_mss-Lowered :
    (pkt : List ℕ) (max : ℕ) (out : List ℕ)
    → IsBytes pkt
    → max < 65536
    → clamp_mss pkt max ≡ (true, out)
    → Lowered pkt max out
unfolding clamp_mss clamp_at announced
clamp_mss-Lowered pkt max out bytes small h = elim (Bool-cases (has_options pkt)) [
  | inr unguarded ↦ absurd (ground arith)
  | inl guarded ↦ elim (Found-cases (mss_index pkt)) [
    | inl (inl missing) ↦ absurd (ground arith)
    | inl (inr cut) ↦ absurd (ground arith)
    | inr (i, found) ↦
        let e : out ≡ clamped pkt guarded i max found small = ground arith in
        rw e (record {
          cur = word pkt (mss_at pkt i);
          at = mss_at pkt i;
          before = ground arith;
          larger = ground arith;
          after = announced-clamped pkt guarded i max found small;
          size = length-clamped pkt guarded i max found small;
          rest = unchanged pkt guarded i max found small;
          balance = balance-clamped pkt guarded i max found small bytes;
        })
  ]
]
