-- ===== src/Filter/Bounds.antt =====
-- The memories of connections behind allowOut, allowIn, Read and Write of internal/wgdev/filter.go.
use callsignet.Base.{
  ℕ, zero, suc, ◌+◌, ◌≤◌, ◌≡◌, subst, arith, Bool, List, [], ◌∷◌, length, get_or, leb, Option-cases,
  Bool-cases, inl, inr,
}
use callsignet.Packet.{parse}
use callsignet.Policy.{Decision}
use callsignet.Flow.{FlowKey, IsWalk, forget, log_max, conn_max, key_of}
use callsignet.Flow.Size.{size_bound}
use callsignet.Flow.Forget.{forget_lem}
use callsignet.Filter.{
  Filter, Moment, Event, opened_out, blocked_out, opened_in, blocked_in, peer_name, observed,
  decide_out, decide_in, allow_out, allow_in, settle, emit, clamp, reject, read_one, read_loop,
  read, write_loop, write,
}

-- Neither memory holds more than its bound.
pub record IsBounded (f : Filter) : Type 0 where
  pub flows_max : f.flows.max ≡ log_max
  pub flows_bound : length f.flows.seen ≤ log_max
  pub conns_max : f.conns.max ≡ conn_max
  pub conns_bound : length f.conns.seen ≤ conn_max

settle-IsBounded :
    (m : Moment) (f : Filter) (k : FlowKey) (d : Decision) (e e' : Event)
    → IsWalk m.walk
    → IsBounded f
    → IsBounded (settle m f k d (λ g. emit g e) (λ g. emit g e')).0
settle-IsBounded m f k d e e' w b =
    let flows =
      size_bound m.walk w f.flows m.now k (omega (arith, b.flows_max))
        (omega (arith, b.flows_max, b.flows_bound)) in
    let conns =
      size_bound m.walk w f.conns m.now k (omega (arith, b.conns_max))
        (omega (arith, b.conns_max, b.conns_bound)) in
    record {
      flows_max = ground (arith, flows, b.flows_max);
      flows_bound = ground (arith, flows, b.flows_max, b.flows_bound);
      conns_max = ground (arith, conns, b.conns_max);
      conns_bound = ground (arith, conns, b.conns_max, b.conns_bound);
    }

-- Two filters with the same memories.
abbrev SameMemory : Filter → Filter → Type 0
SameMemory f g = (g.flows ≡ f.flows) × (g.conns ≡ f.conns)

IsBounded-SameMemory : (f g : Filter) → SameMemory f g → IsBounded f → IsBounded g
IsBounded-SameMemory f g same b = record {
  flows_max = ground (arith, same, b.flows_max);
  flows_bound = ground (arith, same, b.flows_bound);
  conns_max = ground (arith, same, b.conns_max);
  conns_bound = ground (arith, same, b.conns_bound);
}

clamp-SameMemory : (f : Filter) (pkt : List ℕ) → SameMemory f (clamp f pkt).0
unfolding clamp
clamp-SameMemory f pkt = ground arith

reject-SameMemory : (f : Filter) (pkt : List ℕ) → SameMemory f (reject f pkt)
unfolding reject
reject-SameMemory f pkt = ground arith

module _ (m : Moment) (w : IsWalk m.walk) where
  allow_out-IsBounded : (f : Filter) (pkt : List ℕ) → IsBounded f → IsBounded (allow_out m f pkt).0
  unfolding allow_out
  allow_out-IsBounded f pkt b = elim (Option-cases (parse pkt)) [
    | inl unread ↦ subst IsBounded (ground (arith, unread)) b
    | inr (p, read) ↦
        let d = decide_out m p in
        let e = opened_out (peer_name m.rules p.dst) p in
        subst IsBounded (ground (arith, read))
          (settle-IsBounded m f (key_of p) d e (blocked_out p.dst d.reason) w b)
  ]

  allow_in-IsBounded : (f : Filter) (pkt : List ℕ) → IsBounded f → IsBounded (allow_in m f pkt).0
  unfolding allow_in
  allow_in-IsBounded f pkt b = elim (Option-cases (parse pkt)) [
    | inl unread ↦ subst IsBounded (ground (arith, unread)) b
    | inr (p, read) ↦
        let d = decide_in m p in
        let e = opened_in (peer_name m.rules p.src) (observed m p.src) p in
        let e' = blocked_in (peer_name m.rules p.src) p.src d.reason in
        subst IsBounded (ground (arith, read)) (settle-IsBounded m f (key_of p) d e e' w b)
  ]

  read_one-IsBounded :
      (f : Filter) (bufs : List (List ℕ)) (kept i : ℕ)
      → IsBounded f
      → IsBounded (read_one m f bufs kept i).0
  unfolding read_one
  read_one-IsBounded f bufs kept i b =
      let pkt = get_or bufs i [] in
      let g = (allow_out m f pkt).0 in
      let settled = allow_out-IsBounded f pkt b in
      elim (Bool-cases (allow_out m f pkt).1.1) [
        | inl passes ↦
            subst IsBounded (ground (arith, passes))
              (IsBounded-SameMemory g (clamp g pkt).0 (clamp-SameMemory g pkt) settled)
        | inr refused ↦
            subst IsBounded (ground (arith, refused))
              (IsBounded-SameMemory g (reject g pkt) (reject-SameMemory g pkt) settled)
      ]

module _ (ms : ℕ → Moment) (w : (i : ℕ) → IsWalk (ms i).walk) where
  read_loop-IsBounded :
      (f : Filter) (bufs : List (List ℕ)) (kept i count : ℕ)
      → IsBounded f
      → IsBounded (read_loop ms f bufs kept i count).0
  unfolding read_loop
  read_loop-IsBounded f bufs kept i zero b = b
  read_loop-IsBounded f bufs kept i (suc count) b =
      let (g, (bufs', kept')) = read_one (ms i) f bufs kept i in
      read_loop-IsBounded g bufs' kept' (i + 1) count
        (read_one-IsBounded (ms i) (w i) f bufs kept i b)

  -- Read keeps both bounds.
  pub read-IsBounded :
      (f : Filter) (bufs : List (List ℕ)) → IsBounded f → IsBounded (read ms f bufs).0
  unfolding read
  read-IsBounded f bufs b = read_loop-IsBounded f bufs 0 0 (length bufs) b

  write_loop-IsBounded :
      (i : ℕ) (f : Filter) (pkts : List (List ℕ))
      → IsBounded f
      → IsBounded (write_loop ms i f pkts).0
  unfolding write_loop
  write_loop-IsBounded i f [] b = b
  write_loop-IsBounded i f (pkt ∷ pkts) b =
      let g = (allow_in (ms i) f pkt).0 in
      let settled = allow_in-IsBounded (ms i) (w i) f pkt b in
      let clamped = IsBounded-SameMemory g (clamp g pkt).0 (clamp-SameMemory g pkt) settled in
      elim (Bool-cases (leb (length pkt) 0)) [
        | inl void ↦ subst IsBounded (ground (arith, void)) (write_loop-IsBounded (i + 1) f pkts b)
        | inr full ↦ elim (Bool-cases (allow_in (ms i) f pkt).1) [
          | inl passes ↦
              subst IsBounded (ground (arith, full, passes))
                (write_loop-IsBounded (i + 1) (clamp g pkt).0 pkts clamped)
          | inr refused ↦
              subst IsBounded (ground (arith, full, refused))
                (write_loop-IsBounded (i + 1) g pkts settled)
        ]
      ]

  -- So does Write.
  pub write-IsBounded :
      (f : Filter) (pkts : List (List ℕ)) → IsBounded f → IsBounded (write ms f pkts).0
  unfolding write
  write-IsBounded f pkts b = write_loop-IsBounded 0 f pkts b

-- So does Forget.
pub forget-IsBounded :
    (f : Filter) (keep : FlowKey → Bool)
    → IsBounded f
    → IsBounded (record f { conns = (forget f.conns keep).0 })
unfolding forget
forget-IsBounded f keep b = record {
  flows_max = b.flows_max;
  flows_bound = b.flows_bound;
  conns_max = b.conns_max;
  conns_bound = omega (arith, (forget_lem f.conns keep).1, b.conns_bound);
}
