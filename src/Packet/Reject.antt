-- ===== src/Packet/Reject.antt =====
-- RejectICMP of internal/policy/packet.go: its checksums are right.
use callsignet.Base.{
  ℕ, zero, suc, ◌+◌, ◌/◌, ◌%◌, ◌≤◌, ◌<◌, ◌≡◌, refl, ◌∙◌, arith, some, List, [], ◌∷◌, ◌++◌, length,
  take, drop, length-take, min,
}
use callsignet.Packet.{
  Packet, parse, addr_from4, proto_icmp, word, byte, put_word, checksum, icmp_part, reject_header,
  reject_icmp, quote_length,
}
use callsignet.Packet.Checksum.{IsBytes, plain_sum, checksum-lt, checksum_of-filled}

IsBytes-take : (n : ℕ) (b : List ℕ) → IsBytes b → IsBytes (take n b)
IsBytes-take zero b h = tt
IsBytes-take (suc n) [] h = tt
IsBytes-take (suc n) (x ∷ b) (p, h) = (p, IsBytes-take n b h)

pub byte-lt : (b : List ℕ) (i : ℕ) → IsBytes b → byte b i < 256
byte-lt [] i h = omega arith
byte-lt (x ∷ b) zero (p, h) = p
byte-lt (x ∷ b) (suc i) (p, h) = byte-lt b i h

-- The checksum of the ICMP part is right.
icmp_checks :
    (orig : List ℕ) (quote : ℕ) → IsBytes orig → quote ≤ 100 → checksum (icmp_part orig quote) ≡ 0
unfolding icmp_part put_word plain_sum
icmp_checks orig quote h short =
    let q = take quote orig in
    let blank : List ℕ = 3 ∷ 13 ∷ 0 ∷ 0 ∷ 0 ∷ 0 ∷ 0 ∷ 0 ∷ q in
    let c = checksum blank in
    let filled : List ℕ = 3 ∷ 13 ∷ c / 256 % 256 ∷ c % 256 ∷ 0 ∷ 0 ∷ 0 ∷ 0 ∷ q in
    let qh = IsBytes-take quote orig h in
    let ql : length q ≤ 100 = omega (arith, length-take quote orig) in
    let cb = checksum-lt blank in
    checksum_of-filled blank filled
      (
        omega arith,
        (
          omega arith,
          (
            omega arith,
            (omega arith, (omega arith, (omega arith, (omega arith, (omega arith, qh))))),
          ),
        ),
      )
      (
        omega arith,
        (
          omega arith,
          (
            omega arith,
            (omega arith, (omega arith, (omega arith, (omega arith, (omega arith, qh))))),
          ),
        ),
      )
      (omega arith) (omega arith) (omega (arith, cb))

-- The checksum of the header is right.
header_checks : (orig : List ℕ) (total : ℕ) → IsBytes orig → checksum (reject_header orig total) ≡ 0
unfolding reject_header put_word plain_sum
header_checks orig total h =
    let rest : List ℕ =
      byte orig 16
      ∷ byte orig 17
      ∷ byte orig 18
      ∷ byte orig 19
      ∷ byte orig 12
      ∷ byte orig 13
      ∷ byte orig 14
      ∷ byte orig 15
      ∷ [] in
    let start : ℕ → ℕ → List ℕ =
      λ a b. 0x45 ∷ 0 ∷ total / 256 % 256 ∷ total % 256 ∷ 0 ∷ 0 ∷ 0 ∷ 0 ∷ 64 ∷ 1 ∷ a ∷ b ∷ rest in
    let c = checksum (start 0 0) in
    let rh : IsBytes rest = (
      byte-lt orig 16 h,
      (
        byte-lt orig 17 h,
        (
          byte-lt orig 18 h,
          (
            byte-lt orig 19 h,
            (byte-lt orig 12 h, (byte-lt orig 13 h, (byte-lt orig 14 h, (byte-lt orig 15 h, tt)))),
          ),
        ),
      ),
    ) in
    let fh : (a b : ℕ) → a < 256 → b < 256 → IsBytes (start a b) = λ a b p q. (
      omega arith,
      (
        omega arith,
        (
          omega arith,
          (
            omega arith,
            (
              omega arith,
              (
                omega arith,
                (omega arith, (omega arith, (omega arith, (omega arith, (p, (q, rh)))))),
              ),
            ),
          ),
        ),
      ),
    ) in
    checksum_of-filled (start 0 0) (start (c / 256 % 256) (c % 256))
      (fh 0 0 (omega arith) (omega arith))
      (fh (c / 256 % 256) (c % 256) (omega arith) (omega arith)) (omega arith) (omega arith)
      (omega (arith, checksum-lt (start 0 0)))

take-header :
    (orig icmp : List ℕ) (total : ℕ)
    → (take 20 (reject_header orig total ++ icmp) ≡ reject_header orig total)
      × (drop 20 (reject_header orig total ++ icmp) ≡ icmp)
unfolding reject_header put_word
take-header orig icmp total = (refl, refl)

-- The answer to a refused packet has two right checksums: over its IP header, and over its ICMP
-- part.
pub reject_icmp-checksum :
    (orig out : List ℕ)
    → IsBytes orig
    → reject_icmp orig ≡ some out
    → (checksum (take 20 out) ≡ 0) × (checksum (drop 20 out) ≡ 0)
unfolding reject_icmp
reject_icmp-checksum orig out h made =
    let icmp = icmp_part orig (quote_length orig) in
    let total = 20 + length icmp in
    let e : out ≡ reject_header orig total ++ icmp = ground arith in
    let (head, tail) = take-header orig icmp total in
    rw (e, head, tail)
      (header_checks orig total h, icmp_checks orig (quote_length orig) h (ground arith))

parse-reject_header :
    (orig icmp : List ℕ) (total : ℕ)
    → parse (reject_header orig total ++ icmp)
      ≡ some (record {
        src = addr_from4 orig 16;
        dst = addr_from4 orig 12;
        proto = proto_icmp;
        src_port = 0;
        dst_port = 0;
      })
unfolding reject_header put_word parse
parse-reject_header orig icmp total = ground arith

-- Every packet that Parse reads gets an answer, which Parse reads as an ICMP packet without ports
-- from the packet's destination to its source.
pub parse-reject_icmp :
    (orig : List ℕ) (p : Packet)
    → parse orig ≡ some p
    → (out : List ℕ) × (reject_icmp orig ≡ some out)
      × (parse out
          ≡ some
              (record { src = p.dst; dst = p.src; proto = proto_icmp; src_port = 0; dst_port = 0 }))
unfolding reject_icmp parse
parse-reject_icmp orig p h =
    let icmp = icmp_part orig (quote_length orig) in
    let total = 20 + length icmp in
    (
      reject_header orig total ++ icmp,
      ground arith,
      parse-reject_header orig icmp total ∙ ground arith,
    )

length-icmp_part :
    (orig : List ℕ) (quote : ℕ) → length (icmp_part orig quote) ≡ 8 + min quote (length orig)
unfolding icmp_part put_word
length-icmp_part orig quote = omega (arith, length-take quote orig)

header_total :
    (orig icmp : List ℕ)
    → length icmp ≤ 76
    → let out = reject_header orig (20 + length icmp) ++ icmp in
      (length out ≤ 96) × (word out 2 ≡ length out)
unfolding reject_header put_word
header_total orig icmp h = (omega arith, omega arith)

-- The answer is at most 96 bytes, and its total length field is its length.
pub reject_icmp-length :
    (orig out : List ℕ)
    → reject_icmp orig ≡ some out
    → (length out ≤ 96) × (word out 2 ≡ length out)
unfolding reject_icmp
reject_icmp-length orig out h =
    let icmp = icmp_part orig (quote_length orig) in
    let e : out ≡ reject_header orig (20 + length icmp) ++ icmp = ground arith in
    rw e (header_total orig icmp (ground (arith, length-icmp_part orig (quote_length orig))))
