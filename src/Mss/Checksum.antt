-- ===== src/Mss/Checksum.antt =====
-- fixChecksum of internal/policy/mss.go.
use callsignet.Base.{ℕ, ◌+◌, ◌%◌, ◌<◌, ◌≡◌, arith}
use callsignet.Packet.{fold_fuel, complement}
use callsignet.Packet.Checksum.{fold-lt, fold-mod}
use callsignet.Mss.{fix_checksum}

-- The corrected checksum balances the change of the word: checksum and word add up to the same as
-- before, modulo 65535, and the checksum is a uint16.
pub fix_checksum_balance :
    (sum old cur : ℕ)
    → sum < 65536
    → old < 65536
    → cur < 65536
    → (fix_checksum sum old cur < 65536)
      × ((fix_checksum sum old cur + cur) % 65535 ≡ (sum + old) % 65535)
unfolding fix_checksum
fix_checksum_balance sum old cur hs ho hc =
    let x = complement sum + complement old + cur in
    (omega arith, omega (arith, fold-lt x (omega arith), fold-mod fold_fuel x))
