-- ===== src/Filter.antt =====
-- internal/wgdev/filter.go: the policy on the packets that pass the TUN interface.
--
-- allowOut and allowIn work on a Moment: the clock, the rules that the call loaded, and what wg
-- answers about the peers' addresses. Read and Write take one for each packet, by its place; the
-- readings of the clock within one call of allowOut or allowIn are one. What is logged, and what
-- is written to the device on the side, is kept as a list of events, the newest first. A packet is
-- the part of its buffer behind the offset.
pub mod Allowed
pub mod Intent
pub mod Replies
pub mod Stale
pub mod Bounds
pub mod Batch
use callsignet.Base.{
  ℕ, zero, suc, ◌+◌, String, Bool, true, false, not, ◌&&◌, ◌||◌, Option, none, some, List, [], ◌∷◌,
  ◌++◌, ltb, leb, if◌then◌else◌, ◌==◌, nat_key, string_key, find, length, get_elem?, set, get_or,
  take,
}
use callsignet.Net.{Addr, invalid, unmap, addr_key}
use callsignet.Packet.{Packet, parse, has_ports, reject_icmp}
use callsignet.Mss.{clamp_mss}
use callsignet.Policy.{
  Rules, Reason, no_reason, Decision, allowed, denied, inbound, inbound_icmp, outbound,
  outbound_icmp, needs_source, needs_source_icmp, peer_of,
}
use callsignet.Flow.{FlowKey, Flows, Seen, key_of, first, allow, is_reply}

-- peerName: the peer's name, or its address.
pub data PeerName : Type 0 where
  peer_named : String → PeerName
  peer_at : Addr → PeerName

pub data Event : Type 0 where
  opened_out : PeerName → Packet → Event
  blocked_out : Addr → Reason → Event
  opened_in : PeerName → Option String → Packet → Event
  blocked_in : PeerName → Addr → Reason → Event
  told_mss : ℕ → Event
  wrote : List ℕ → Event

pub record Filter : Type 0 where
  pub flows : Flows
  pub conns : Flows
  pub max_mss : ℕ
  pub clamped : ℕ
  pub told : Bool
  pub events : List Event

pub record Moment : Type 0 where
  pub now : ℕ
  pub rules : Rules
  pub observe : Option (String → String)
  pub parse_addr_port : String → Option (Addr × ℕ)  -- netip.ParseAddrPort
  pub walk : Seen → Seen  -- the order in which Go walks a map

abbrev emit : Filter → Event → Filter
emit f e = record f { events = e ∷ f.events }

unfoldable pub peer_name : Rules → Addr → PeerName
peer_name r ip = elim (peer_of r ip) [ none ↦ peer_at ip | some id ↦ peer_named id ]

-- `f.observe(id)` for the peer of that address; `none` where there is no peer or no `observe`.
abbrev ask : Moment → Addr → Option String
ask m ip = elim (peer_of m.rules ip) [
  | none ↦ none
  | some id ↦ elim m.observe [ none ↦ none | some look ↦ some (look id) ]
]

unfoldable pub observed_addr : Moment → Addr → Addr
observed_addr m ip = elim (ask m ip) [
  | none ↦ invalid
  | some text ↦ elim (m.parse_addr_port text) [ none ↦ invalid | some (a, port) ↦ unmap a ]
]

-- `none` is the text for an unknown source.
unfoldable pub observed : Moment → Addr → Option String
observed m ip = elim (ask m ip) [
  | none ↦ none
  | some text ↦ if not (text == "") then some text else none
]

-- The decision that allowOut takes from the policy.
unfoldable pub decide_out : Moment → Packet → Decision
decide_out m p =
    if has_ports p then outbound m.rules p.dst p.dst_port else outbound_icmp m.rules p.dst

-- The decision that allowIn takes from the policy.
unfoldable pub decide_in : Moment → Packet → Decision
decide_in m p =
    if has_ports p
    then inbound m.now m.rules p.src p.dst_port
        (if needs_source m.rules p.dst_port then observed_addr m p.src else invalid)
    else inbound_icmp m.now m.rules p.src
        (if needs_source_icmp m.rules then observed_addr m p.src else invalid)

-- The part of allowOut and allowIn that both share: a refused packet may be a reply; a connection
-- that was seen shortly before is not written down again.
abbrev pub settle :
    Moment
    → Filter
    → FlowKey
    → Decision
    → (Filter → Filter)
    → (Filter → Filter)
    → Filter × (Decision × Bool)
settle m f k d on_open on_block =
    let (conns, reply) = is_reply m.walk f.conns m.now k in
    let f₁ = if d.allow then f else record f { conns = conns } in
    let (flows, new) = first m.walk f₁.flows m.now k in
    let f₂ = record f₁ { flows = flows } in
    if not d.allow && reply
    then (f₁, (allowed, true))
    else if not new
    then (f₂, (d, d.allow))
    else if d.allow
    then (on_open (record f₂ { conns = allow m.walk f₂.conns m.now k }), (d, true))
    else (on_block f₂, (d, false))

unfoldable pub allow_out : Moment → Filter → List ℕ → Filter × (Decision × Bool)
allow_out m f pkt = elim (parse pkt) [
  | none ↦ (f, (denied no_reason, false))
  | some p ↦
      let d = decide_out m p in
      settle m f (key_of p) d (λ g. emit g (opened_out (peer_name m.rules p.dst) p))
        (λ g. emit g (blocked_out p.dst d.reason))
]

unfoldable pub allow_in : Moment → Filter → List ℕ → Filter × Bool
allow_in m f pkt = elim (parse pkt) [
  | none ↦ (f, false)
  | some p ↦
      let d = decide_in m p in
      let (g, (_, passes)) =
        settle m f (key_of p) d
          (λ g. emit g (opened_in (peer_name m.rules p.src) (observed m p.src) p))
          (λ g. emit g (blocked_in (peer_name m.rules p.src) p.src d.reason)) in
      (g, passes)
]

-- `f.clamp(pkt)`: the packet after it.
unfoldable pub clamp : Filter → List ℕ → Filter × List ℕ
clamp f pkt =
    let (done, out) = clamp_mss pkt f.max_mss in
    let g = record f { clamped = f.clamped + 1; told = true } in
    if not done then (f, out) else (if f.told then g else emit g (told_mss f.max_mss), out)

unfoldable pub reject : Filter → List ℕ → Filter
reject f pkt = elim (reject_icmp pkt) [ none ↦ f | some icmp ↦ emit f (wrote icmp) ]

-- One round of the loop of Read on the packet at `i`: `bufs` holds the packets, the first `kept` of
-- which are kept.
unfoldable pub read_one : Moment → Filter → List (List ℕ) → ℕ → ℕ → Filter × (List (List ℕ) × ℕ)
read_one m f bufs kept i =
    let pkt = get_or bufs i [] in
    let (g, (d, passes)) = allow_out m f pkt in
    let (h, out) = clamp g pkt in
    if not passes
    then (reject g pkt, (bufs, kept))
    else (h, (set (set bufs i out) kept out, kept + 1))

-- The loop of Read, on the packets from `i` on, `count` of them, each at its own moment.
unfoldable pub read_loop :
    (ℕ → Moment) → Filter → List (List ℕ) → ℕ → ℕ → ℕ → Filter × (List (List ℕ) × ℕ)
read_loop ms f bufs kept i zero = (f, (bufs, kept))
read_loop ms f bufs kept i (suc count) =
    let (g, (bufs', kept')) = read_one (ms i) f bufs kept i in
    read_loop ms g bufs' kept' (i + 1) count

-- Read, where the device gave these packets: what it leaves in the first buffers.
unfoldable pub read : (ℕ → Moment) → Filter → List (List ℕ) → Filter × List (List ℕ)
read ms f bufs =
    let (g, (bufs', kept)) = read_loop ms f bufs 0 0 (length bufs) in (g, take kept bufs')

-- The loop of Write, from the packet at `i` on, each at its own moment: what it passes on to the
-- device. A buffer that ends at the offset is an empty packet, and is skipped.
unfoldable pub write_loop : (ℕ → Moment) → ℕ → Filter → List (List ℕ) → Filter × List (List ℕ)
write_loop ms i f [] = (f, [])
write_loop ms i f (pkt ∷ pkts) =
    let (g, passes) = allow_in (ms i) f pkt in
    let (h, out) = clamp g pkt in
    let skip = write_loop ms (i + 1) f pkts in
    let drop = write_loop ms (i + 1) g pkts in
    let (h', rest) = write_loop ms (i + 1) h pkts in
    if leb (length pkt) 0 then skip else if passes then (h', out ∷ rest) else drop

-- Write: the packets that it passes on to the device.
unfoldable pub write : (ℕ → Moment) → Filter → List (List ℕ) → Filter × List (List ℕ)
write ms f pkts = write_loop ms 0 f pkts
