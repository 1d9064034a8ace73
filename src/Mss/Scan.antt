-- ===== src/Mss/Scan.antt =====
-- The loop over the TCP options of internal/policy/mss.go.
use callsignet.Base.{ℕ, zero, suc, ◌+◌, ◌-◌, ◌≤◌, ◌<◌, ◌≡◌, ◌≢◌, ◌⊎◌, inl, inr, refl, arith, List}
use callsignet.Packet.{byte}
use callsignet.Mss.{Found, no_option, found_at, out_of_fuel, find_mss}

pub Found-cases :
    (r : Found) → (((r ≡ no_option) ⊎ (r ≡ out_of_fuel)) ⊎ ((i : ℕ) × (r ≡ found_at i)))
Found-cases (found_at i) = inr (i, refl)
Found-cases no_option = inl (inl refl)
Found-cases out_of_fuel = inl (inr refl)

-- Each round moves on: with a round of fuel for each byte left and one more, the loop over the
-- options of a SYN ends before the fuel does, whatever the bytes are, and more fuel gives the same.
pub find_mss_ends :
    (f g : ℕ) (pkt : List ℕ) (base count i : ℕ)
    → count - i < f
    → f ≤ g
    → (find_mss f pkt base count i ≢ out_of_fuel)
      × (find_mss g pkt base count i ≡ find_mss f pkt base count i)
unfolding find_mss
find_mss_ends zero g pkt base count i h k = absurd (omega arith)
find_mss_ends (suc f) zero pkt base count i h k = absurd (omega arith)
find_mss_ends (suc f) (suc g) pkt base count i h k = (
  ground (
    arith,
    find_mss_ends f g pkt base count (i + 1),
    find_mss_ends f g pkt base count (i + byte pkt (base + (i + 1))),
  ),
  ground (
    arith,
    find_mss_ends f g pkt base count (i + 1),
    find_mss_ends f g pkt base count (i + byte pkt (base + (i + 1))),
  ),
)

-- The option found lies within the options, at or behind the start.
pub find_mss_within :
    (f : ℕ) (pkt : List ℕ) (base count i k : ℕ)
    → find_mss f pkt base count i ≡ found_at k
    → (i ≤ k) × (k + 4 ≤ count)
unfolding find_mss
find_mss_within zero pkt base count i k h = absurd (ground arith)
find_mss_within (suc f) pkt base count i k h = ground (
  arith,
  find_mss_within f pkt base count (i + 1) k,
  find_mss_within f pkt base count (i + byte pkt (base + (i + 1))) k,
)

-- The loop reads nothing behind the head of the option that it finds.
pub find_mss_prefix :
    (f : ℕ) (a b : List ℕ) (base count i k : ℕ)
    → find_mss f a base count i ≡ found_at k
    → ((j : ℕ) → j ≤ k + 1 → byte b (base + j) ≡ byte a (base + j))
    → find_mss f b base count i ≡ found_at k
unfolding find_mss
find_mss_prefix zero a b base count i k h same = absurd (ground arith)
find_mss_prefix (suc f) a b base count i k h same =
    let l = byte a (base + (i + 1)) in
    ground (
      arith,
      find_mss_within f a base count (i + 1) k,
      find_mss_within f a base count (i + l) k,
      find_mss_prefix f a b base count (i + 1) k,
      find_mss_prefix f a b base count (i + l) k,
      same i,
      same (i + 1),
    )
