-- ===== src/Packet.antt =====
-- internal/policy/packet.go: what is read from an IPv4 packet, and the ICMP answer to a refused
-- one.
--
-- A packet is the list of its bytes. Every index that the source reads is checked against the
-- length before; `byte` reads 0 behind the end, where Go would panic.
pub mod Checksum
pub mod Parsing
pub mod Reject
use callsignet.Base.{
  ℕ, zero, suc, ◌+◌, ◌-◌, ◌*◌, ◌/◌, ◌%◌, ◌^◌, Bool, true, false, not, ◌&&◌, ◌||◌, Option, none,
  some, List, [], ◌∷◌, ◌++◌, ltb, leb, if◌then◌else◌, ◌==◌, nat_key, length, get_or, set, take,
  drop, replicate,
}
use callsignet.Net.{Addr, v4}

abbrev pub proto_icmp : ℕ
proto_icmp = 1

abbrev pub proto_tcp : ℕ
proto_tcp = 6

abbrev pub proto_udp : ℕ
proto_udp = 17

pub record Packet : Type 0 where
  pub src : Addr
  pub dst : Addr
  pub proto : ℕ
  pub src_port : ℕ
  pub dst_port : ℕ

abbrev pub byte : List ℕ → ℕ → ℕ
byte b i = get_or b i 0

-- `binary.BigEndian.Uint16(b[i:])` and `PutUint16`.
abbrev pub word : List ℕ → ℕ → ℕ
word b i = byte b i * 256 + byte b (i + 1)

unfoldable pub put_word : List ℕ → ℕ → ℕ → List ℕ
put_word b i v = set (set b i (v / 256 % 256)) (i + 1) (v % 256)

-- `netip.AddrFrom4` of the four bytes at an index.
abbrev pub addr_from4 : List ℕ → ℕ → Addr
addr_from4 b i =
    v4 (byte b i * 2 ^ 24 + byte b (i + 1) * 2 ^ 16 + byte b (i + 2) * 2 ^ 8 + byte b (i + 3))

-- The version and the header length in bytes, of the first byte.
abbrev pub version : List ℕ → ℕ
version b = byte b 0 / 16

abbrev pub header_length : List ℕ → ℕ
header_length b = byte b 0 % 16 * 4

abbrev pub frag_offset : List ℕ → ℕ
frag_offset b = word b 6 % 0x2000

unfoldable pub has_ports : Packet → Bool
has_ports p = p.proto == proto_tcp || p.proto == proto_udp

unfoldable pub parse : List ℕ → Option Packet
parse b =
    let ihl = header_length b in
    let proto = byte b 9 in
    let ported =
      frag_offset b == 0
      && (proto == proto_tcp || proto == proto_udp)
      && leb (ihl + 4) (length b) in
    if ltb (length b) 20 || not (version b == 4)
    then none
    else if ltb ihl 20 || ltb (length b) ihl
    then none
    else some (record {
      src = addr_from4 b 12;
      dst = addr_from4 b 16;
      proto = proto;
      src_port = if ported then word b ihl else 0;
      dst_port = if ported then word b (ihl + 2) else 0;
    })

-- The first loop of `checksum`: the big-endian words, in a uint32, then the odd last byte.
unfoldable pub sum_words : ℕ → List ℕ → ℕ
sum_words sum [] = sum
sum_words sum (x ∷ []) = (sum + x * 256) % 2 ^ 32
sum_words sum (x ∷ y ∷ rest) = sum_words ((sum + (x * 256 + y)) % 2 ^ 32) rest

-- `for sum>>16 != 0 { sum = sum&0xffff + sum>>16 }`, with fuel.
unfoldable pub fold : ℕ → ℕ → ℕ
fold zero sum = sum
fold (suc fuel) sum =
    let more = fold fuel (sum % 65536 + sum / 65536) in if sum / 65536 == 0 then sum else more

-- Three rounds fold every uint32.
abbrev pub fold_fuel : ℕ
fold_fuel = 3

-- `^uint16(n)`.
abbrev pub complement : ℕ → ℕ
complement n = 65535 - n % 65536

unfoldable pub checksum : List ℕ → ℕ
checksum b = complement (fold fold_fuel (sum_words 0 b))

-- The ICMP part: type 3, code 13, checksum, four unused bytes, and the quoted bytes.
unfoldable pub icmp_part : List ℕ → ℕ → List ℕ
icmp_part orig quote =
    let blank = 3 ∷ 13 ∷ replicate 6 0 ++ take quote orig in put_word blank 2 (checksum blank)

-- The IP header of the answer, of `total` bytes in all.
unfoldable pub reject_header : List ℕ → ℕ → List ℕ
reject_header orig total =
    let blank =
      0x45
      ∷ 0
      ∷ total / 256 % 256
      ∷ total % 256
      ∷ 0
      ∷ 0
      ∷ 0
      ∷ 0
      ∷ 64
      ∷ proto_icmp
      ∷ 0
      ∷ 0
      ∷ byte orig 16
      ∷ byte orig 17
      ∷ byte orig 18
      ∷ byte orig 19
      ∷ byte orig 12
      ∷ byte orig 13
      ∷ byte orig 14
      ∷ byte orig 15
      ∷ [] in
    put_word blank 10 (checksum blank)

abbrev pub quote_length : List ℕ → ℕ
quote_length orig =
    if ltb (length orig) (header_length orig + 8) then length orig else header_length orig + 8

-- `none` is nil.
unfoldable pub reject_icmp : List ℕ → Option (List ℕ)
reject_icmp orig =
    let icmp = icmp_part orig (quote_length orig) in
    if ltb (length orig) 20 then none else some (reject_header orig (20 + length icmp) ++ icmp)
