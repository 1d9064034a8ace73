-- ===== src/Filter/Replies.antt =====
-- Connections across both directions of internal/wgdev/filter.go.
use callsignet.Base.{ℕ, ◌+◌, ◌<◌, ◌≡◌, arith, true, some, List, find-put, test_self}
use callsignet.Packet.{Packet, parse}
use callsignet.Flow.{
  FlowKey, FlowState, Flows, Seen, key_of, reverse, first, allow, is_reply, make_room, sweep,
  ttl_of, flow_as_key,
}
use callsignet.Filter.{Filter, Moment, decide_out, decide_in, allow_out, allow_in}

-- A connection just allowed is known to its replies until its time is over.
is_reply-allow :
    (walk walk' : Seen → Seen) (f : Flows) (now now' : ℕ) (j k : FlowKey)
    → reverse j ≡ k
    → now' < now + ttl_of f k
    → (is_reply walk' (allow walk f now k) now' j).1 ≡ true
unfolding is_reply allow ttl_of sweep
is_reply-allow walk walk' f now now' j k back live =
    let e : FlowState = record { at = now; allowed = true } in
    let m = (make_room walk f now).seen in
    ground (arith, find-put k (reverse j) e m, test_self (reverse j), test_self k)

-- An allowed packet of a connection that is new to the log's memory opens the connection: a later
-- packet of the reverse connection passes the other direction, whatever the policy then says of
-- it, as long as no other packet came between and its time is not over. This is so for packets
-- that go out and are answered, and for packets that come in and are answered.
pub answered :
    (m m' : Moment) (f : Filter) (pkt pkt' : List ℕ) (p p' : Packet)
    → parse pkt ≡ some p
    → parse pkt' ≡ some p'
    → reverse (key_of p') ≡ key_of p
    → (first m.walk f.flows m.now (key_of p)).1 ≡ true
    → m'.now < m.now + ttl_of f.conns (key_of p)
    → ((decide_out m p).allow ≡ true → (allow_in m' (allow_out m f pkt).0 pkt').1 ≡ true)
      × ((decide_in m p).allow ≡ true → (allow_out m' (allow_in m f pkt).0 pkt').1.1 ≡ true)
unfolding allow_out allow_in
answered m m' f pkt pkt' p p' read read' back new live =
    let known =
      is_reply-allow m.walk m'.walk f.conns m.now m'.now (key_of p') (key_of p) back live in
    (λ h. ground (arith, known), λ h. ground (arith, known))
