-- ===== src/Net/Prefixes.antt =====
-- Clearing the host bits of a prefix changes nothing of what it contains.
use native.Mathlib.Nat.{mul-div_cancel, one-le-pow}
use callsignet.Base.{ℕ, ◌*◌, ◌/◌, ◌^◌, ◌-◌, ◌≡◌, refl, arith}
use callsignet.Net.{Addr, invalid, v4, v6, Prefix, prefix_contains, masked}

clear_low : (a k : ℕ) → a / 2 ^ k * 2 ^ k / 2 ^ k ≡ a / 2 ^ k
clear_low a k = mul-div_cancel (a / 2 ^ k) (one-le-pow k 2 (omega arith))

masked_at :
    (a : Addr) (n : ℕ) (ip : Addr)
    → prefix_contains (masked (record { addr = a; bits = n })) ip
      ≡ prefix_contains (record { addr = a; bits = n }) ip
unfolding prefix_contains masked
masked_at invalid n ip = refl
masked_at (v4 a) n ip = rw (clear_low a (32 - n))
masked_at (v6 a z) n ip = rw (clear_low a (128 - n))

pub prefix_contains-masked :
    (p : Prefix) (ip : Addr) → prefix_contains (masked p) ip ≡ prefix_contains p ip
prefix_contains-masked p ip = masked_at p.addr p.bits ip
