-- ===== src/Mss/Announce.antt =====
-- ClampMSS of internal/policy/mss.go: which packets it changes.
use callsignet.Base.{
  ℕ, zero, suc, ◌+◌, ◌-◌, ◌*◌, ◌/◌, ◌%◌, ◌≤◌, ◌<◌, ◌≡◌, ◌≢◌, ◌↔◌, ◌⊎◌, inl, inr, arith, true, false,
  List, length, nat_key, ◌==◌, Bool-cases,
}
use callsignet.Packet.{byte}
use callsignet.Mss.{found_at, find_mss, has_options, mss_index, clamp_at, clamp_mss}
use callsignet.Mss.Scan.{Found-cases}

-- The length of the IP header, and of the TCP header, in bytes.
abbrev pub ip_length : List ℕ → ℕ
ip_length pkt = byte pkt 0 % 16 * 4

abbrev pub tcp_length : List ℕ → ℕ
tcp_length pkt = byte pkt (ip_length pkt + 12) / 16 * 4

-- A packet that opens a TCP connection over IPv4, whole or the first of its fragments, and that
-- holds both headers.
pub record IsSyn (pkt : List ℕ) : Type 0 where
  pub has_header : 20 ≤ length pkt
  pub is_v4 : byte pkt 0 / 16 ≡ 4
  pub is_tcp : byte pkt 9 ≡ 6
  pub is_first : (byte pkt 6 * 256 + byte pkt 7) % 8192 ≡ 0
  pub ip_fits : 20 ≤ ip_length pkt
  pub has_tcp : ip_length pkt + 20 ≤ length pkt
  pub has_flag : byte pkt (ip_length pkt + 13) / 2 % 2 ≡ 1
  pub tcp_fits : 20 ≤ tcp_length pkt
  pub has_both : ip_length pkt + tcp_length pkt ≤ length pkt

-- The options from one index on, up to a segment size option at `k`: options of one byte, of kind
-- 1, and options that give their length, which is 2 at least and within the options; none before
-- is of kind 0, which ends the list, or is itself a segment size option.
pub data Reaches (pkt : List ℕ) (base count k : ℕ) : ℕ → Type 0 where
  stops :
      (i : ℕ)
      → i ≡ k
      → i + 4 ≤ count
      → byte pkt (base + i) ≡ 2
      → byte pkt (base + (i + 1)) ≡ 4
      → Reaches pkt base count k i
  pads :
      (i : ℕ)
      → i < count
      → byte pkt (base + i) ≡ 1
      → Reaches pkt base count k (i + 1)
      → Reaches pkt base count k i
  skips :
      (i : ℕ)
      → 2 ≤ byte pkt (base + i)
      → 2 ≤ byte pkt (base + (i + 1))
      → i + byte pkt (base + (i + 1)) ≤ count
      → (byte pkt (base + i) ≡ 2 → byte pkt (base + (i + 1)) ≢ 4)
      → Reaches pkt base count k (i + byte pkt (base + (i + 1)))
      → Reaches pkt base count k i

find_mss-Reaches :
    (f : ℕ) (pkt : List ℕ) (base count k i : ℕ)
    → find_mss f pkt base count i ≡ found_at k
    → Reaches pkt base count k i
unfolding find_mss
find_mss-Reaches zero pkt base count k i h = absurd (ground arith)
find_mss-Reaches (suc f) pkt base count k i h =
    let kind = byte pkt (base + i) in
    let l = byte pkt (base + (i + 1)) in
    elim (Bool-cases (kind == 1)) [
      | inl pad ↦
          pads i (ground arith) (ground arith)
            (find_mss-Reaches f pkt base count k (i + 1) (ground arith))
      | inr other ↦ elim (Bool-cases (kind == 2)) [
        | inl two ↦ elim (Bool-cases (l == 4)) [
          | inl four ↦ stops i (ground arith) (ground arith) (ground arith) (ground arith)
          | inr longer ↦
              skips i (ground arith) (ground arith) (ground arith) (λ a b. absurd (ground arith))
                (find_mss-Reaches f pkt base count k (i + l) (ground arith))
        ]
        | inr unknown ↦
            skips i (ground arith) (ground arith) (ground arith) (λ a b. absurd (ground arith))
              (find_mss-Reaches f pkt base count k (i + l) (ground arith))
      ]
    ]

Reaches-find_mss :
    (f : ℕ) (pkt : List ℕ) (base count k : ℕ) (i : ℕ)
    → count - i < f
    → Reaches pkt base count k i
    → find_mss f pkt base count i ≡ found_at k
unfolding find_mss
Reaches-find_mss zero pkt base count k i h r = absurd (omega arith)
Reaches-find_mss (suc f) pkt base count k _ h (stops i same fits two four) = ground arith
Reaches-find_mss (suc f) pkt base count k _ h (pads i inside one r) =
    ground (arith, Reaches-find_mss f pkt base count k (i + 1) (omega arith) r)
Reaches-find_mss (suc f) pkt base count k _ h (skips i kind l fits other r) =
    let ih = Reaches-find_mss f pkt base count k (i + byte pkt (base + (i + 1))) (omega arith) r in
    ground (arith, ih, other)

has_options-IsSyn : (pkt : List ℕ) → has_options pkt ≡ true → IsSyn pkt
unfolding has_options
has_options-IsSyn pkt h = record {
  has_header = ground arith;
  is_v4 = ground arith;
  is_tcp = ground arith;
  is_first = ground arith;
  ip_fits = ground arith;
  has_tcp = ground arith;
  has_flag = ground arith;
  tcp_fits = ground arith;
  has_both = ground arith;
}

IsSyn-has_options : (pkt : List ℕ) → IsSyn pkt → has_options pkt ≡ true
unfolding has_options
IsSyn-has_options pkt s = ground (
  arith, s.has_header, s.is_v4, s.is_tcp, s.is_first, s.ip_fits, s.has_tcp, s.has_flag, s.tcp_fits,
  s.has_both,
)

-- The value of an option at an index, big-endian.
abbrev pub value_at : List ℕ → ℕ → ℕ
value_at pkt k = byte pkt (ip_length pkt + 20 + k + 2) * 256 + byte pkt (ip_length pkt + 20 + k + 3)

-- The packet opens a TCP connection and announces a segment size above the limit.
pub record IsAbove (pkt : List ℕ) (max : ℕ) : Type 0 where
  pub syn : IsSyn pkt
  pub at : ℕ
  pub option : Reaches pkt (ip_length pkt + 20) (tcp_length pkt - 20) at 0
  pub above : max < value_at pkt at

IsAbove-clamp_mss :
    (pkt : List ℕ) (max : ℕ) → 0 < max → IsAbove pkt max → (clamp_mss pkt max).0 ≡ true
unfolding clamp_mss clamp_at
IsAbove-clamp_mss pkt max limited a =
    let found =
      Reaches-find_mss (suc (tcp_length pkt - 20)) pkt (ip_length pkt + 20) (tcp_length pkt - 20)
        a.at 0 (omega arith) a.option in
    ground (arith, found, IsSyn-has_options pkt a.syn, a.above)

clamp_mss-IsAbove :
    (pkt : List ℕ) (max : ℕ) → (clamp_mss pkt max).0 ≡ true → (0 < max) × IsAbove pkt max
unfolding clamp_mss clamp_at
clamp_mss-IsAbove pkt max h = elim (Found-cases (mss_index pkt)) [
  | inl (inl missing) ↦ absurd (ground arith)
  | inl (inr cut) ↦ absurd (ground arith)
  | inr (i, found) ↦ (
    ground arith,
    record {
      syn = has_options-IsSyn pkt (ground arith);
      at = i;
      option =
          find_mss-Reaches (suc (tcp_length pkt - 20)) pkt (ip_length pkt + 20)
            (tcp_length pkt - 20) i 0 found;
      above = ground arith;
    },
  )
]

-- ClampMSS returns true exactly when the limit is not 0 and the packet is an IPv4 packet, whole or
-- the first fragment, that holds a TCP header with the SYN flag and its options, in which a walk
-- option by option from the first comes to a segment size option of four bytes with a value above
-- the limit. Where it returns false it leaves the packet as it is.
pub clamp_mss_iff :
    (pkt : List ℕ) (max : ℕ)
    → (((clamp_mss pkt max).0 ≡ true) ↔ ((0 < max) × IsAbove pkt max))
      × (((clamp_mss pkt max).0 ≡ true) ⊎ (clamp_mss pkt max ≡ (false, pkt)))
unfolding clamp_mss clamp_at
clamp_mss_iff pkt max = (
  (clamp_mss-IsAbove pkt max, λ a. IsAbove-clamp_mss pkt max a.0 a.1),
  elim (Bool-cases (clamp_mss pkt max).0) [
    | inl changed ↦ inl changed
    | inr kept ↦ inr (ground arith)
  ],
)
