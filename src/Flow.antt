-- ===== src/Flow.antt =====
-- internal/wgdev/flow.go: the memory of connections.
--
-- Times are nanoseconds. Each method runs under the mutex, so it is one step; it gets the time that
-- it read before. `now.Sub(at) < ttl` is written as `now < at + ttl`, which also holds where the
-- clock was read before another goroutine wrote `at`. Go walks a map in an order of its own: `walk`
-- gives the pairs in that order.
pub mod Size
pub mod Grant
pub mod Forget
use callsignet.Base.{
  ℕ, zero, suc, ◌+◌, ◌*◌, ◌/◌, ◌-◌, ◌≡◌, ◌↔◌, arith, Bool, true, false, not, ◌&&◌, ◌||◌, Option,
  none, some, List, [], ◌∷◌, ltb, leb, if◌then◌else◌, IsKey, ◌==◌, nat_key, length, drop, any, find,
  put, nat_beq,
}
use callsignet.Net.{Addr, addr_key, addr_beq_iff}
use callsignet.Packet.{Packet, proto_tcp, proto_udp}

pub record FlowKey : Type 0 where
  pub src : Addr
  pub dst : Addr
  pub sport : ℕ
  pub dport : ℕ
  pub proto : ℕ

abbrev pub flow_key_beq : FlowKey → FlowKey → Bool
flow_key_beq a b =
    a.src == b.src
    && a.dst == b.dst
    && nat_beq a.sport b.sport
    && nat_beq a.dport b.dport
    && nat_beq a.proto b.proto

pub flow_key_beq_iff : (a b : FlowKey) → (flow_key_beq a b ≡ true) ↔ (a ≡ b)
flow_key_beq_iff a b = ground (arith, addr_beq_iff a.src b.src, addr_beq_iff a.dst b.dst)

instance abbrev pub flow_as_key : IsKey FlowKey
flow_as_key = record { test = flow_key_beq; test_iff = flow_key_beq_iff }

abbrev pub key_of : Packet → FlowKey
key_of p = record {
  src = p.src;
  dst = p.dst;
  sport = p.src_port;
  dport = p.dst_port;
  proto = p.proto;
}

abbrev pub reverse : FlowKey → FlowKey
reverse k = record { src = k.dst; dst = k.src; sport = k.dport; dport = k.sport; proto = k.proto }

abbrev second : ℕ
second = 1000000000

abbrev pub log_ttl : ℕ
log_ttl = 120 * second

abbrev pub log_max : ℕ
log_max = 4096

abbrev pub conn_max : ℕ
conn_max = 16384

unfoldable pub conn_ttl : ℕ → ℕ
conn_ttl proto =
    if proto == proto_tcp
    then 3600 * second
    else if proto == proto_udp
    then 180 * second
    else 60 * second

pub record FlowState : Type 0 where
  pub at : ℕ
  pub allowed : Bool

abbrev pub Seen : Type 0
Seen = List (FlowKey × FlowState)

pub record Flows : Type 0 where
  pub seen : Seen
  pub ttl : ℕ
  pub max : ℕ
  pub by_proto : Bool

unfoldable pub new_flows : ℕ → ℕ → Flows
new_flows ttl max = record { seen = []; ttl = ttl; max = max; by_proto = false }

unfoldable pub new_conns : ℕ → Flows
new_conns max = record { seen = []; ttl = conn_ttl proto_tcp; max = max; by_proto = true }

unfoldable pub ttl_of : Flows → FlowKey → ℕ
ttl_of f k = if f.by_proto then conn_ttl k.proto else f.ttl

-- `now.Sub(e.at) < f.ttlOf(k)`.
abbrev pub is_live : Flows → ℕ → FlowKey → FlowState → Bool
is_live f now k e = ltb now (e.at + ttl_of f k)

-- The first loop of `sweep`.
unfoldable pub drop_old : Flows → ℕ → Seen → Seen
drop_old f now [] = []
drop_old f now ((k, e) ∷ m) =
    let rest = drop_old f now m in if not (is_live f now k e) then rest else (k, e) ∷ rest

-- How many entries the second loop deletes: it tests its count after the first.
abbrev pub half : Seen → ℕ
half m = let n = length m / 2 in if n == 0 then 1 else n

-- What a walk of a map promises: each entry once.
pub record IsWalk (walk : Seen → Seen) : Type 0 where
  pub same_length : (m : Seen) → length (walk m) ≡ length m
  pub same_any : (p : FlowKey × FlowState → Bool) (m : Seen) → any p (walk m) ≡ any p m

module _ (walk : Seen → Seen) where
  unfoldable pub sweep : Flows → ℕ → Flows
  sweep f now =
      let young = drop_old f now f.seen in
      record f { seen = if leb f.max (length young) then drop (half young) (walk young) else young }

  -- `if len(f.seen) >= f.max { f.sweep(now) }`.
  abbrev pub make_room : Flows → ℕ → Flows
  make_room f now = if leb f.max (length f.seen) then sweep f now else f

  -- `f.seen[k] = flowState{at: now, allowed: allowed}`.
  abbrev pub write : Flows → FlowKey → ℕ → Bool → Flows
  write f k now allowed = record f { seen = put k (record { at = now; allowed = allowed }) f.seen }

  unfoldable pub first : Flows → ℕ → FlowKey → Flows × Bool
  first f now k =
      let fresh : Flows × Bool = (write (make_room f now) k now false, true) in
      elim (find k f.seen) [
        | none ↦ fresh
        | some e ↦ if is_live f now k e then (write f k now e.allowed, false) else fresh
      ]

  unfoldable pub allow : Flows → ℕ → FlowKey → Flows
  allow f now k = write (make_room f now) k now true

  unfoldable pub is_reply : Flows → ℕ → FlowKey → Flows × Bool
  is_reply f now k =
      let rev = reverse k in
      elim (find rev f.seen) [
        | none ↦ (f, false)
        | some e ↦
            if not e.allowed || not (is_live f now rev e)
            then (f, false)
            else (write f rev now e.allowed, true)
      ]

-- The loop of `Forget`: what is left, and how many entries were deleted.
unfoldable pub forget_seen : (FlowKey → Bool) → Seen → Seen × ℕ
forget_seen keep [] = ([], 0)
forget_seen keep ((k, e) ∷ m) =
    let (rest, n) = forget_seen keep m in
    if e.allowed && not (keep k) then (rest, n + 1) else ((k, e) ∷ rest, n)

unfoldable pub forget : Flows → (FlowKey → Bool) → Flows × ℕ
forget f keep = let (rest, n) = forget_seen keep f.seen in (record f { seen = rest }, n)
