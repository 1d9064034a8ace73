-- ===== src/Filter/Stale.antt =====
-- A connection of internal/wgdev/filter.go that the log's memory knows and the memory of
-- connections does not.
use callsignet.Base.{ℕ, ◌≡◌, arith, true, false, some, List, find}
use callsignet.Packet.{Packet, parse}
use callsignet.Flow.{FlowKey, FlowState, key_of, first, is_reply, is_live, flow_as_key}
use callsignet.Filter.{Filter, Moment, decide_out, decide_in, allow_out, allow_in}

first_known :
    (m : Moment) (f : Filter) (k : FlowKey) (e : FlowState)
    → find k f.flows.seen ≡ some e
    → is_live f.flows m.now k e ≡ true
    → (first m.walk f.flows m.now k).1 ≡ false
unfolding first
first_known m f k e h l = ground arith

-- A packet that the policy lets out, of a connection that the log's memory still knows while the
-- memory of connections holds no live entry for it, goes out, and its answer is refused if the
-- policy for that direction does not allow it by itself: the packet did not open the connection
-- again.
pub answer_refused :
    (m m' : Moment) (f : Filter) (pkt pkt' : List ℕ) (p p' : Packet) (e : FlowState)
    → parse pkt ≡ some p
    → parse pkt' ≡ some p'
    → (decide_out m p).allow ≡ true
    → find (key_of p) f.flows.seen ≡ some e
    → is_live f.flows m.now (key_of p) e ≡ true
    → (is_reply m'.walk f.conns m'.now (key_of p')).1 ≡ false
    → (decide_in m' p').allow ≡ false
    → ((allow_out m f pkt).1.1 ≡ true) × ((allow_in m' (allow_out m f pkt).0 pkt').1 ≡ false)
unfolding allow_out allow_in
answer_refused m m' f pkt pkt' p p' e read read' lets known live lost refused =
    let old = first_known m f (key_of p) e known live in (ground (arith, old), ground (arith, old))
