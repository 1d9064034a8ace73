-- ===== src/Tests/Packets.antt =====
-- Packets: a TCP SYN from 10.0.0.1 to 10.0.0.2 that announces 1460.
use callsignet.Base.{
  ℕ, ◌+◌, ◌%◌, ◌<◌, true, false, some, List, [], ◌∷◌, ◌≡◌, ◌≢◌, ◌↔◌, ◌⊎◌, refl, arith,
}
use callsignet.Net.{v4}
use callsignet.Packet.{
  Packet, proto_icmp, put_word, parse, sum_words, fold, checksum, icmp_part, reject_header,
  reject_icmp,
}
use callsignet.Packet.Checksum.{IsBytes}
use callsignet.Packet.Reject.{parse-reject_icmp}
use callsignet.Mss.{
  no_option, out_of_fuel, find_mss, has_options, fix_checksum, clamp_at, clamp_mss,
}
use callsignet.Mss.Checksum.{fix_checksum_balance}
use callsignet.Mss.Scan.{find_mss_ends}
use callsignet.Mss.Clamp.{Lowered, clamp_mss-Lowered}
use callsignet.Mss.Announce.{IsAbove, clamp_mss_iff}

abbrev pub syn : List ℕ
syn =
    0x45 ∷ 0 ∷ 0 ∷ 44 ∷ 0 ∷ 0 ∷ 0 ∷ 0 ∷ 64 ∷ 6 ∷ 0 ∷ 0 ∷ 10 ∷ 0 ∷ 0 ∷ 1 ∷ 10 ∷ 0 ∷ 0 ∷ 2 ∷ 156 ∷ 64
    ∷ 21 ∷ 56 ∷ 0 ∷ 0 ∷ 0 ∷ 1 ∷ 0 ∷ 0 ∷ 0 ∷ 0 ∷ 0x60 ∷ 2 ∷ 255 ∷ 255 ∷ 0x12 ∷ 0x34 ∷ 0 ∷ 0 ∷ 2 ∷ 4
    ∷ 5 ∷ 180 ∷ []

abbrev pub syn_packet : Packet
syn_packet = record {
  src = v4 167772161;
  dst = v4 167772162;
  proto = 6;
  src_port = 40000;
  dst_port = 5432;
}

pub syn-IsBytes : IsBytes syn
syn-IsBytes = omega arith

pub syn_parsed : parse syn ≡ some syn_packet
unfolding parse
syn_parsed = refl

abbrev syn_answer : List ℕ
syn_answer =
    69 ∷ 0 ∷ 0 ∷ 56 ∷ 0 ∷ 0 ∷ 0 ∷ 0 ∷ 64 ∷ 1 ∷ 102 ∷ 195 ∷ 10 ∷ 0 ∷ 0 ∷ 2 ∷ 10 ∷ 0 ∷ 0 ∷ 1 ∷ 3 ∷ 13
    ∷ 178 ∷ 67 ∷ 0 ∷ 0 ∷ 0 ∷ 0 ∷ 69 ∷ 0 ∷ 0 ∷ 44 ∷ 0 ∷ 0 ∷ 0 ∷ 0 ∷ 64 ∷ 6 ∷ 0 ∷ 0 ∷ 10 ∷ 0 ∷ 0 ∷ 1
    ∷ 10 ∷ 0 ∷ 0 ∷ 2 ∷ 156 ∷ 64 ∷ 21 ∷ 56 ∷ 0 ∷ 0 ∷ 0 ∷ 1 ∷ []

syn_answered : reject_icmp syn ≡ some syn_answer
unfolding reject_icmp reject_header icmp_part checksum sum_words fold put_word
syn_answered = refl

parse-reject_icmp_example :
    (out : List ℕ) × (reject_icmp syn ≡ some out)
    × (parse out
        ≡ some (record {
          src = syn_packet.dst;
          dst = syn_packet.src;
          proto = proto_icmp;
          src_port = 0;
          dst_port = 0;
        }))
parse-reject_icmp_example = parse-reject_icmp syn syn_packet syn_parsed

-- The same SYN under a limit of 1380: the value and the checksum change.
abbrev syn_lowered : List ℕ
syn_lowered =
    0x45 ∷ 0 ∷ 0 ∷ 44 ∷ 0 ∷ 0 ∷ 0 ∷ 0 ∷ 64 ∷ 6 ∷ 0 ∷ 0 ∷ 10 ∷ 0 ∷ 0 ∷ 1 ∷ 10 ∷ 0 ∷ 0 ∷ 2 ∷ 156 ∷ 64
    ∷ 21 ∷ 56 ∷ 0 ∷ 0 ∷ 0 ∷ 1 ∷ 0 ∷ 0 ∷ 0 ∷ 0 ∷ 0x60 ∷ 2 ∷ 255 ∷ 255 ∷ 18 ∷ 132 ∷ 0 ∷ 0 ∷ 2 ∷ 4 ∷ 5
    ∷ 100 ∷ []

syn_clamped : clamp_mss syn 1380 ≡ (true, syn_lowered)
unfolding clamp_mss clamp_at has_options find_mss fix_checksum fold put_word
syn_clamped = refl

clamp_mss-Lowered_example : Lowered syn 1380 syn_lowered
clamp_mss-Lowered_example =
    clamp_mss-Lowered syn 1380 syn_lowered syn-IsBytes (omega arith) syn_clamped

clamp_mss_iff_example :
    (((clamp_mss syn 1380).0 ≡ true) ↔ ((0 < 1380) × IsAbove syn 1380))
    × (((clamp_mss syn 1380).0 ≡ true) ⊎ (clamp_mss syn 1380 ≡ (false, syn)))
clamp_mss_iff_example = clamp_mss_iff syn 1380

fix_checksum_balance_example :
    (fix_checksum 0x1234 1460 1380 < 65536)
    × ((fix_checksum 0x1234 1460 1380 + 1380) % 65535 ≡ (0x1234 + 1460) % 65535)
fix_checksum_balance_example =
    fix_checksum_balance 0x1234 1460 1380 (omega arith) (omega arith) (omega arith)

find_mss_ends_example :
    (find_mss 5 syn 40 4 0 ≢ out_of_fuel) × (find_mss 9 syn 40 4 0 ≡ find_mss 5 syn 40 4 0)
find_mss_ends_example = find_mss_ends 5 9 syn 40 4 0 (omega arith) (omega arith)

-- An option whose length is 0 ends the walk.
length_zero : find_mss 9 (5 ∷ 0 ∷ 0 ∷ 0 ∷ []) 0 4 0 ≡ no_option
unfolding find_mss
length_zero = refl
