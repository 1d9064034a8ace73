-- ===== src/Packet/Parsing.antt =====
-- Parse of internal/policy/packet.go: the values that it returns.
use callsignet.Base.{ℕ, ◌+◌, ◌^◌, ◌≤◌, ◌<◌, ◌≡◌, arith, true, some, List, length}
use callsignet.Net.{Addr, invalid, v4, v6}
use callsignet.Packet.{Packet, word, parse, has_ports, frag_offset, header_length}
use callsignet.Packet.Checksum.{IsBytes}
use callsignet.Packet.Reject.{byte-lt}

-- The address is an IPv4 address.
abbrev pub Is32 : Addr → Type 0
Is32 invalid = ⊥
Is32 (v4 a) = a < 2 ^ 32
Is32 (v6 a z) = ⊥

pub word-lt : (b : List ℕ) (i : ℕ) → IsBytes b → word b i < 65536
word-lt b i h = omega (arith, byte-lt b i h, byte-lt b (i + 1) h)

-- What Parse reads from bytes fits its Go types: two IPv4 addresses, a uint8 and two uint16.
pub parse_bounds :
    (b : List ℕ) (p : Packet)
    → IsBytes b
    → parse b ≡ some p
    → Is32 p.src × Is32 p.dst × (p.proto < 256) × (p.src_port < 65536) × (p.dst_port < 65536)
unfolding parse
parse_bounds b p h e =
    let at = λ (i : ℕ). byte-lt b i h in
    let ports = word-lt b (header_length b) h in
    let ports' = word-lt b (header_length b + 2) h in
    let q = p in
    ground (arith, ports, ports', at 9, at 12, at 13, at 14, at 15, at 16, at 17, at 18, at 19)

-- Where Parse returns a port that is not 0, the packet is TCP or UDP and its first fragment, and
-- it is long enough to hold both ports.
pub parse_ports :
    (b : List ℕ) (p : Packet)
    → parse b ≡ some p
    → 0 < p.src_port + p.dst_port
    → (has_ports p ≡ true) × (frag_offset b ≡ 0) × (header_length b + 4 ≤ length b)
unfolding parse has_ports
parse_ports b p e h = ground arith
