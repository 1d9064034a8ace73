-- ===== src/Filter/Allowed.antt =====
-- allowOut and allowIn of internal/wgdev/filter.go: which packets pass, and what they write down.
use callsignet.Base.{ℕ, ◌≡◌, arith, Bool, false, ◌||◌, none, some, List, if◌then◌else◌}
use callsignet.Packet.{Packet, parse}
use callsignet.Policy.{Decision}
use callsignet.Flow.{FlowKey, key_of, first, allow, is_reply}
use callsignet.Filter.{
  Filter, Moment, Event, decide_out, decide_in, allow_out, allow_in, settle, emit,
}

-- Whether a packet is a reply to a connection that the filter holds.
abbrev pub replies : Moment → Filter → Packet → Bool
replies m f p = (is_reply m.walk f.conns m.now (key_of p)).1

-- A packet that an app sends passes exactly when Parse reads it and the policy allows it or it is a
-- reply to a connection held as allowed.
pub allow_out-decide_out :
    (m : Moment) (f : Filter) (pkt : List ℕ)
    → (allow_out m f pkt).1.1
      ≡ elim (parse pkt) [ none ↦ false | some p ↦ (decide_out m p).allow || replies m f p ]
unfolding allow_out
allow_out-decide_out m f pkt = ground arith

-- A packet that came in passes exactly when Parse reads it and the policy for that direction
-- allows it or it is a reply to a connection held as allowed.
pub allow_in-decide_in :
    (m : Moment) (f : Filter) (pkt : List ℕ)
    → (allow_in m f pkt).1
      ≡ elim (parse pkt) [ none ↦ false | some p ↦ (decide_in m p).allow || replies m f p ]
unfolding allow_in
allow_in-decide_in m f pkt = ground arith

-- What either call does to the memory of connections: an allowed packet of a connection that is
-- new to the log's memory is written down as allowed; any other allowed packet writes nothing; a
-- refused one is looked up as a reply.
pub settle-conns :
    (m : Moment) (f : Filter) (k : FlowKey) (d : Decision) (e e' : Event)
    → (settle m f k d (λ g. emit g e) (λ g. emit g e')).0.conns ≡ (
        if d.allow
        then (if (first m.walk f.flows m.now k).1 then allow m.walk f.conns m.now k else f.conns)
        else (is_reply m.walk f.conns m.now k).0)
settle-conns m f k d e e' = ground arith
