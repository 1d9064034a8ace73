-- ===== src/Listen/Local.antt =====
-- parseLocal of internal/guard/listen.go: the address and port of a socket.
use callsignet.Base.{
  ℕ, ◌+◌, ◌*◌, ◌^◌, ◌/◌, ◌%◌, String, false, not, ◌&&◌, Option, none, some, List, [], ◌∷◌, ◌==◌,
  nat_key, length, get_or, if◌then◌else◌, ◌≡◌, refl, arith, Option-cases, inl, inr,
}
use callsignet.Net.{Addr, v4, v6, unmap}
use callsignet.Listen.{ProcLib, flip, addr_from_slice, cut_colon, parse_local}

-- The kernel writes an address as words of four bytes, the lowest byte first.
abbrev pub low_word : List ℕ → ℕ → ℕ
low_word raw i =
    get_or raw i 0
    + get_or raw (i + 1) 0 * 256
    + get_or raw (i + 2) 0 * 65536
    + get_or raw (i + 3) 0 * 16777216

abbrev pub low_words : List ℕ → ℕ
low_words raw =
    low_word raw 0 * 2 ^ 96 + low_word raw 4 * 2 ^ 64 + low_word raw 8 * 2 ^ 32 + low_word raw 12

-- The address in these bytes; an IPv4 address may be written as an IPv6 one.
pub host_of : List ℕ → Option Addr
host_of raw =
    if length raw == 4
    then some (v4 (low_word raw 0))
    else if length raw == 16
    then some (
        if low_words raw / 2 ^ 32 == 65535
        then v4 (low_words raw % 2 ^ 32)
        else v6 (low_words raw) "")
    else none

-- What parseLocal makes of the decoded bytes.
abbrev host_read : List ℕ → Option Addr
host_read raw =
    if not (length raw == 4) && not (length raw == 16)
    then none
    else elim (addr_from_slice (flip raw)) [ none ↦ none | some a ↦ some (unmap a) ]

host_of_none :
    (raw : List ℕ)
    → (length raw == 4) ≡ false
    → (length raw == 16) ≡ false
    → host_read raw ≡ host_of raw
unfolding host_of
host_of_none raw short long = ground arith

host_of-flip : (raw : List ℕ) → host_read raw ≡ host_of raw
unfolding host_of flip unmap
host_of-flip [] = refl
host_of-flip (b0 ∷ []) = refl
host_of-flip (b0 ∷ b1 ∷ []) = refl
host_of-flip (b0 ∷ b1 ∷ b2 ∷ []) = refl
host_of-flip (b0 ∷ b1 ∷ b2 ∷ b3 ∷ []) = ground arith
host_of-flip (b0 ∷ b1 ∷ b2 ∷ b3 ∷ b4 ∷ []) = refl
host_of-flip (b0 ∷ b1 ∷ b2 ∷ b3 ∷ b4 ∷ b5 ∷ []) = refl
host_of-flip (b0 ∷ b1 ∷ b2 ∷ b3 ∷ b4 ∷ b5 ∷ b6 ∷ []) = refl
host_of-flip (b0 ∷ b1 ∷ b2 ∷ b3 ∷ b4 ∷ b5 ∷ b6 ∷ b7 ∷ []) = refl
host_of-flip (b0 ∷ b1 ∷ b2 ∷ b3 ∷ b4 ∷ b5 ∷ b6 ∷ b7 ∷ b8 ∷ []) = refl
host_of-flip (b0 ∷ b1 ∷ b2 ∷ b3 ∷ b4 ∷ b5 ∷ b6 ∷ b7 ∷ b8 ∷ b9 ∷ []) = refl
host_of-flip (b0 ∷ b1 ∷ b2 ∷ b3 ∷ b4 ∷ b5 ∷ b6 ∷ b7 ∷ b8 ∷ b9 ∷ b10 ∷ []) = refl
host_of-flip (b0 ∷ b1 ∷ b2 ∷ b3 ∷ b4 ∷ b5 ∷ b6 ∷ b7 ∷ b8 ∷ b9 ∷ b10 ∷ b11 ∷ []) = refl
host_of-flip (b0 ∷ b1 ∷ b2 ∷ b3 ∷ b4 ∷ b5 ∷ b6 ∷ b7 ∷ b8 ∷ b9 ∷ b10 ∷ b11 ∷ b12 ∷ []) = refl
host_of-flip (b0 ∷ b1 ∷ b2 ∷ b3 ∷ b4 ∷ b5 ∷ b6 ∷ b7 ∷ b8 ∷ b9 ∷ b10 ∷ b11 ∷ b12 ∷ b13 ∷ []) = refl
host_of-flip (b0 ∷ b1 ∷ b2 ∷ b3 ∷ b4 ∷ b5 ∷ b6 ∷ b7 ∷ b8 ∷ b9 ∷ b10 ∷ b11 ∷ b12 ∷ b13 ∷ b14 ∷ []) =
    refl
host_of-flip
      (b0 ∷ b1 ∷ b2 ∷ b3 ∷ b4 ∷ b5 ∷ b6 ∷ b7 ∷ b8 ∷ b9 ∷ b10 ∷ b11 ∷ b12 ∷ b13 ∷ b14 ∷ b15 ∷ []) =
    ground arith
host_of-flip
      (b0 ∷ b1 ∷ b2 ∷ b3 ∷ b4 ∷ b5 ∷ b6 ∷ b7 ∷ b8 ∷ b9 ∷ b10 ∷ b11 ∷ b12 ∷ b13 ∷ b14 ∷ b15 ∷ b16
        ∷ bs) =
    host_of_none
      (b0 ∷ b1 ∷ b2 ∷ b3 ∷ b4 ∷ b5 ∷ b6 ∷ b7 ∷ b8 ∷ b9 ∷ b10 ∷ b11 ∷ b12 ∷ b13 ∷ b14 ∷ b15 ∷ b16
        ∷ bs)
      (ground arith) (ground arith)

pub parse_local-host_of :
    (L : ProcLib) (s : String)
    → parse_local L s ≡ elim (cut_colon s) [
      | none ↦ none
      | some (h, port_hex) ↦ elim (L.parse_hex16 port_hex) [
        | none ↦ none
        | some port ↦ elim (L.decode_hex h) [
          | none ↦ none
          | some raw ↦ elim (host_of raw) [ none ↦ none | some a ↦ some (a, port) ]
        ]
      ]
    ]
unfolding parse_local
parse_local-host_of L s = elim (Option-cases (cut_colon s)) [
  | inl bare ↦ ground arith
  | inr ((h, port_hex), cut) ↦ elim (Option-cases (L.parse_hex16 port_hex)) [
    | inl unread ↦ ground arith
    | inr (port, read) ↦ elim (Option-cases (L.decode_hex h)) [
      | inl bad ↦ ground arith
      | inr (raw, decoded) ↦ ground (arith, host_of-flip raw)
    ]
  ]
]
