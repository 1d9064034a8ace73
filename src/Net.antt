-- ===== src/Net.antt =====
-- The values of Go's net/netip, Addr and Prefix, with the operations that the program calls on
-- them.
pub mod Prefixes
use callsignet.Base.{
  ℕ, ◌-◌, ◌*◌, ◌/◌, ◌^◌, String, ◌≡◌, ◌↔◌, Bool, true, false, not, ◌&&◌, arith, leb, ltb, min,
  Option, none, some, nat_beq, if◌then◌else◌, IsKey, ◌==◌, string_key, eq_iff, nat_key,
}

-- The zero Addr, an IPv4 address as a number below 2^32, and an IPv6 address as a number below
-- 2^128 with its zone, which is empty where there is none.
pub data Addr : Type 0 where
  invalid : Addr
  v4 : ℕ → Addr
  v6 : ℕ → String → Addr

unfoldable pub addr_beq : Addr → Addr → Bool
addr_beq invalid invalid = true
addr_beq (v4 a) (v4 b) = a == b
addr_beq (v6 a z) (v6 b w) = a == b && z == w
addr_beq _ _ = false

pub addr_beq_iff : (a b : Addr) → (addr_beq a b ≡ true) ↔ (a ≡ b)
unfolding addr_beq
addr_beq_iff invalid invalid = ground arith
addr_beq_iff (v4 a) (v4 b) = ground arith
addr_beq_iff (v6 a z) (v6 b w) = ground (arith, eq_iff z w)
addr_beq_iff _ _ = ground arith

instance abbrev pub addr_key : IsKey Addr
addr_key = record { test = addr_beq; test_iff = addr_beq_iff }

-- `a.IsValid()`.
abbrev pub is_valid : Addr → Bool
is_valid invalid = false
is_valid _ = true

-- `a.Is4()`: an IPv4 address mapped into IPv6 is none.
abbrev pub is_4 : Addr → Bool
is_4 (v4 _) = true
is_4 _ = false

-- `a.Unmap()`: ::ffff:a.b.c.d is a.b.c.d.
unfoldable pub unmap : Addr → Addr
unmap invalid = invalid
unmap (v4 a) = v4 a
unmap (v6 a z) = if a / 2 ^ 32 == 0xffff then v4 (a - 0xffff * 2 ^ 32) else v6 a z

abbrev pub has_zone : Addr → Bool
has_zone (v6 a z) = not (z == "")
has_zone _ = false

abbrev pub value_of : Addr → ℕ
value_of invalid = 0
value_of (v4 a) = a
value_of (v6 a z) = a

abbrev pub bit_len : Addr → ℕ
bit_len invalid = 0
bit_len (v4 _) = 32
bit_len (v6 _ _) = 128

-- A valid prefix: `bits` is at most the length of the address. The host bits may be set.
pub record Prefix : Type 0 where
  pub addr : Addr
  pub bits : ℕ

-- `p.Contains(ip)`: no zone, the same family, and the same leading bits.
unfoldable pub prefix_contains : Prefix → Addr → Bool
prefix_contains p ip =
    leb p.bits (bit_len p.addr)
    && not (has_zone ip)
    && not (nat_beq (bit_len p.addr) 0)
    && nat_beq (bit_len p.addr) (bit_len ip)
    && nat_beq (value_of p.addr / 2 ^ (bit_len p.addr - p.bits))
        (value_of ip / 2 ^ (bit_len p.addr - p.bits))

abbrev masked_addr : Addr → ℕ → Addr
masked_addr invalid n = invalid
masked_addr (v4 a) n = v4 (a / 2 ^ (32 - n) * 2 ^ (32 - n))
masked_addr (v6 a z) n = v6 (a / 2 ^ (128 - n) * 2 ^ (128 - n)) ""

-- `p.Masked()`: the host bits are cleared.
unfoldable pub masked : Prefix → Prefix
masked p = record { addr = masked_addr p.addr p.bits; bits = p.bits }

-- `a.Prefix(n)`: `none` where the address has fewer bits.
unfoldable pub prefix_of : Addr → ℕ → Option Prefix
prefix_of a n =
    if ltb (bit_len a) n then none else some (record { addr = masked_addr a n; bits = n })

-- `p.Overlaps(q)`: one family, and the same leading bits as far as both have them.
unfoldable pub overlaps : Prefix → Prefix → Bool
overlaps p q =
    let n = min p.bits q.bits in
    not (nat_beq (bit_len p.addr) 0)
    && nat_beq (bit_len p.addr) (bit_len q.addr)
    && nat_beq (value_of p.addr / 2 ^ (bit_len p.addr - n))
        (value_of q.addr / 2 ^ (bit_len p.addr - n))

-- `a.IsLoopback()`, of an address that is not mapped.
abbrev pub is_loopback : Addr → Bool
is_loopback invalid = false
is_loopback (v4 a) = a / 2 ^ 24 == 127
is_loopback (v6 a z) = a == 1
