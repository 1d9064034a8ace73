-- ===== src/Tests/Flows.antt =====
-- Connections: the SYN of Packets goes out, and its answer comes in.
use callsignet.Base.{
  ℕ, ◌+◌, ◌≤◌, ◌<◌, Bool, true, false, ◌||◌, some, none, List, [], ◌∷◌, ◌≡◌, refl, arith, length,
  find, put,
}
use callsignet.Net.{v4, addr_key, addr_beq}
use callsignet.Policy.{outbound, inbound, needs_source}
use callsignet.Packet.{Packet, parse, has_ports}
use callsignet.Flow.{
  FlowKey, Flows, Seen, IsWalk, key_of, reverse, conn_max, log_max, log_ttl, new_conns, conn_ttl,
  ttl_of, first, allow, is_reply, drop_old, sweep, flow_as_key, is_live,
}
use callsignet.Flow.Size.{size_bound}
use callsignet.Flow.Grant.{Op, op_allow, op_first, granted, run, step, is_reply-granted}
use callsignet.Filter.{Filter, Moment, decide_out, decide_in, allow_out, allow_in, read}
use callsignet.Filter.Intent.{lets_to, lets_from, is_answer, allow_out-passes, allow_in-passes}
use callsignet.Policy.Intent.{for_some}
use callsignet.Filter.Replies.{answered}
use callsignet.Filter.Stale.{answer_refused}
use callsignet.Filter.Batch.{passed, read-passed}
use callsignet.Tests.Samples.{ip_a, ip_b, parsers, config_a, rules_a, new_a}
use callsignet.Tests.Packets.{syn, syn_packet, syn_parsed}

abbrev pub same_order : Seen → Seen
same_order m = m

pub same_order-IsWalk : IsWalk same_order
same_order-IsWalk = record { same_length = λ m. refl; same_any = λ p m. refl }

abbrev key : FlowKey
key = key_of syn_packet

abbrev conns : Flows
conns = record { seen = []; ttl = 3600000000000; max = conn_max; by_proto = true }

size_bound_example :
    ((length (first same_order conns 5 key).0.seen ≤ conns.max)
      × ((first same_order conns 5 key).0.max ≡ conns.max))
    × ((length (allow same_order conns 5 key).seen ≤ conns.max)
        × ((allow same_order conns 5 key).max ≡ conns.max))
    × ((length (is_reply same_order conns 5 key).0.seen ≤ conns.max)
        × ((is_reply same_order conns 5 key).0.max ≡ conns.max))
size_bound_example = size_bound same_order same_order-IsWalk conns 5 key (omega arith) (omega arith)

abbrev history : List (ℕ × Op)
history = (5, op_allow key) ∷ (9, op_first key) ∷ []

history_replies :
    (is_reply same_order (run same_order (new_conns conn_max) history) 20 (reverse key)).1 ≡ true
unfolding is_reply run step new_conns allow first find put sweep ttl_of conn_ttl addr_beq drop_old
history_replies = refl

is_reply-granted_example : granted (reverse (reverse key)) false history ≡ true
is_reply-granted_example =
    is_reply-granted same_order same_order-IsWalk conn_max 20 (reverse key) history history_replies

abbrev held : Flows
held = record conns { seen = (key, record { at = 5; allowed = true }) ∷ [] }

abbrev keep_none : FlowKey → Bool
keep_none k = false

-- The answer of 10.0.0.2.
abbrev answer : List ℕ
answer =
    0x45 ∷ 0 ∷ 0 ∷ 40 ∷ 0 ∷ 0 ∷ 0 ∷ 0 ∷ 64 ∷ 6 ∷ 0 ∷ 0 ∷ 10 ∷ 0 ∷ 0 ∷ 2 ∷ 10 ∷ 0 ∷ 0 ∷ 1 ∷ 21 ∷ 56
    ∷ 156 ∷ 64 ∷ 0 ∷ 0 ∷ 0 ∷ 1 ∷ 0 ∷ 0 ∷ 0 ∷ 2 ∷ 0x50 ∷ 18 ∷ 255 ∷ 255 ∷ 0 ∷ 0 ∷ 0 ∷ 0 ∷ []

abbrev answer_packet : Packet
answer_packet = record {
  src = v4 ip_b;
  dst = v4 ip_a;
  proto = 6;
  src_port = 5432;
  dst_port = 40000;
}

answer_parsed : parse answer ≡ some answer_packet
unfolding parse
answer_parsed = refl

abbrev pub moment : ℕ → Moment
moment now = record {
  now = now;
  rules = rules_a;
  observe = none;
  parse_addr_port = λ s. none;
  walk = same_order;
}

abbrev empty : Filter
empty = record {
  flows = record { seen = []; ttl = log_ttl; max = log_max; by_proto = false };
  conns = conns;
  max_mss = 1380;
  clamped = 0;
  told = false;
  events = [];
}

syn_goes_out : (decide_out (moment 5) syn_packet).allow ≡ true
unfolding decide_out has_ports outbound find addr_beq
syn_goes_out = refl

answer_not_in_policy : (decide_in (moment 20) answer_packet).allow ≡ false
unfolding decide_in has_ports inbound find addr_beq needs_source
answer_not_in_policy = refl

syn_new : (first (moment 5).walk empty.flows (moment 5).now key).1 ≡ true
unfolding first find
syn_new = refl

time_left : 20 < 5 + ttl_of conns key
unfolding ttl_of conn_ttl
time_left = omega arith

answered_example :
    ((decide_out (moment 5) syn_packet).allow ≡ true
      → (allow_in (moment 20) (allow_out (moment 5) empty syn).0 answer).1 ≡ true)
    × ((decide_in (moment 5) syn_packet).allow ≡ true
        → (allow_out (moment 20) (allow_in (moment 5) empty syn).0 answer).1.1 ≡ true)
answered_example =
    answered (moment 5) (moment 20) empty syn answer syn_packet answer_packet syn_parsed
      answer_parsed refl syn_new time_left

-- The log's memory knows the connection, and the memory of connections is empty.
abbrev stale : Filter
stale = record empty {
  flows = record empty.flows { seen = (key, record { at = 1; allowed = false }) ∷ [] };
}

stale_known : find key stale.flows.seen ≡ some (record { at = 1; allowed = false })
unfolding find addr_beq
stale_known = refl

stale_live : is_live stale.flows 5 key (record { at = 1; allowed = false }) ≡ true
unfolding ttl_of
stale_live = refl

stale_lost : (is_reply same_order stale.conns 20 (key_of answer_packet)).1 ≡ false
unfolding is_reply find
stale_lost = refl

answer_refused_example :
    ((allow_out (moment 5) stale syn).1.1 ≡ true)
    × ((allow_in (moment 20) (allow_out (moment 5) stale syn).0 answer).1 ≡ false)
answer_refused_example =
    answer_refused (moment 5) (moment 20) stale syn answer syn_packet answer_packet
      (record { at = 1; allowed = false }) syn_parsed answer_parsed syn_goes_out stale_known
      stale_live stale_lost answer_not_in_policy

allow_out-passes_example :
    (allow_out (moment 5) empty syn).1.1
    ≡ for_some (parse syn) (λ p.
      lets_to parsers config_a (moment 5) p.dst p.proto p.dst_port
      || is_answer (moment 5).now empty.conns p)
allow_out-passes_example = allow_out-passes parsers config_a (moment 5) empty syn new_a

allow_in-passes_example :
    (allow_in (moment 5) empty answer).1
    ≡ for_some (parse answer) (λ p.
      lets_from parsers config_a (moment 5) p.src p.proto p.dst_port
      || is_answer (moment 5).now empty.conns p)
allow_in-passes_example = allow_in-passes parsers config_a (moment 5) empty answer new_a

read-passed_example :
    read (λ i. moment (5 + i)) empty (answer ∷ syn ∷ [])
    ≡ passed (λ i. moment (5 + i)) 0 empty (answer ∷ syn ∷ [])
read-passed_example = read-passed (λ i. moment (5 + i)) empty (answer ∷ syn ∷ [])
