-- ===== src/Filter/Intent.antt =====
-- allowOut and allowIn of internal/wgdev/filter.go, under rules that New built, against policy.toml
-- and the connections that are held.
use callsignet.Base.{
  ℕ, ◌+◌, ◌≡◌, ◌∙◌, arith, Bool, ◌&&◌, ◌||◌, none, some, List, any, find, ltb, ◌==◌, nat_key,
  if◌then◌else◌, ok, Option-cases, inl, inr,
}
use callsignet.Net.{Addr, addr_key, invalid, unmap}
use callsignet.Config.{Parsers, Config}
use callsignet.Packet.{Packet, has_ports, parse}
use callsignet.Policy.{
  peer_of, inbound, inbound_icmp, outbound, outbound_icmp, needs_source, needs_source_icmp,
}
use callsignet.Policy.Compile.{new}
use callsignet.Policy.Intent.{for_some, owner_of, entry_admits, port_admits, aims_at, aims_at_host}
use callsignet.Policy.Loops.{new-Built}
use callsignet.Policy.Outgoing.{outbound-aims_at, outbound_icmp-aims_at_host}
use callsignet.Policy.Refines.{inbound-port_admits, inbound_icmp-entry_admits, peers_built}
use callsignet.Policy.Source.{inbound-source_free, inbound_icmp-source_free}
use callsignet.Flow.{Flows, flow_as_key, ttl_of, conn_ttl, is_reply}
use callsignet.Filter.{Filter, Moment, decide_out, decide_in, observed_addr, allow_out, allow_in}
use callsignet.Filter.Allowed.{replies, allow_out-decide_out, allow_in-decide_in}

-- TCP and UDP.
abbrev pub carries : ℕ → Bool
carries proto = proto == 6 || proto == 17

-- How long a connection is held, in nanoseconds: an hour for TCP, three minutes for UDP, and a
-- minute for the rest, where the memory tells them apart.
abbrev pub life : Flows → ℕ → ℕ
life f proto =
    if f.by_proto
    then (if proto == 6 then 3600000000000 else if proto == 17 then 180000000000 else 60000000000)
    else f.ttl

-- Whether the packet goes the other way on a connection that is held as allowed, and in time.
abbrev pub is_answer : ℕ → Flows → Packet → Bool
is_answer now f p =
    for_some
      (find
        (record {
          src = p.dst;
          dst = p.src;
          sport = p.dst_port;
          dport = p.src_port;
          proto = p.proto;
        })
        f.seen)
      (λ e. e.allowed && ltb now (e.at + life f p.proto))

is_reply-is_answer :
    (m : Moment) (f : Filter) (p : Packet) → replies m f p ≡ is_answer m.now f.conns p
unfolding is_reply ttl_of conn_ttl
is_reply-is_answer m f p = ground arith

module _ (P : Parsers) (c : Config) (m : Moment) where
  -- The address that wg sees behind a tunnel address.
  abbrev pub source_of : Addr → Addr
  source_of ip = elim (owner_of P ip c.peers) [
    | none ↦ invalid
    | some id ↦ elim m.observe [
      | none ↦ invalid
      | some look ↦ elim (m.parse_addr_port (look id)) [ none ↦ invalid | some (a, port) ↦ unmap a ]
    ]
  ]

  -- Whether policy.toml lets in what comes from that address to that port.
  abbrev pub lets_from : Addr → ℕ → ℕ → Bool
  lets_from src proto port = for_some (owner_of P src c.peers) (λ id.
      if carries proto
      then port_admits P m.now c id port (source_of src)
      else any (λ e. entry_admits P m.now e id (source_of src)) c.policy.inbound)

  -- Whether policy.toml lets out what goes to that address and port.
  abbrev pub lets_to : Addr → ℕ → ℕ → Bool
  lets_to dst proto port =
      if carries proto
      then any (aims_at P c.peers dst port) c.policy.outbound
      else any (aims_at_host P c.peers dst) c.policy.outbound

  module _ (built : new P c ≡ ok m.rules) where
    pub owner_built : (ip : Addr) → find ip m.rules.peer_by_ip ≡ owner_of P ip c.peers
    owner_built ip = peers_built P c (new-Built P c built) ip

    observed_addr-source_of : (ip : Addr) → observed_addr m ip ≡ source_of ip
    unfolding observed_addr peer_of
    observed_addr-source_of ip = ground (arith, owner_built ip)

    pub inbound-lets_from :
        (src : Addr) (proto port : ℕ)
        → (if carries proto
            then inbound m.now m.rules src port
                (if needs_source m.rules port then observed_addr m src else invalid)
            else inbound_icmp m.now m.rules src
                (if needs_source_icmp m.rules then observed_addr m src else invalid)).allow
          ≡ lets_from src proto port
    inbound-lets_from src proto port = ground (
      arith,
      observed_addr-source_of src,
      inbound-source_free P c m.rules m.now src port invalid (source_of src) built,
      inbound_icmp-source_free P c m.rules m.now src invalid (source_of src) built,
      inbound-port_admits P c m.rules m.now src port (source_of src) built,
      inbound_icmp-entry_admits P c m.rules m.now src (source_of src) built,
    )

    pub outbound-lets_to :
        (dst : Addr) (proto port : ℕ)
        → (if carries proto then outbound m.rules dst port else outbound_icmp m.rules dst).allow
          ≡ lets_to dst proto port
    outbound-lets_to dst proto port = ground (
      arith,
      outbound-aims_at P c m.rules dst port built,
      outbound_icmp-aims_at_host P c m.rules dst built,
    )

    pub decide_in-lets_from :
        (p : Packet) → (decide_in m p).allow ≡ lets_from p.src p.proto p.dst_port
    unfolding decide_in has_ports
    decide_in-lets_from p = inbound-lets_from p.src p.proto p.dst_port

    pub decide_out-lets_to :
        (p : Packet) → (decide_out m p).allow ≡ lets_to p.dst p.proto p.dst_port
    unfolding decide_out has_ports
    decide_out-lets_to p = outbound-lets_to p.dst p.proto p.dst_port

-- Under rules that New built, a packet that an app sends passes exactly when Parse reads it and one
-- of two things holds. Either an outbound entry of policy.toml names a service of the peer with
-- its destination address, for TCP and UDP the service on its destination port. Or the packet with
-- the two ends swapped is a connection that is held as allowed, and whose time is not over.
pub allow_out-passes :
    (P : Parsers) (c : Config) (m : Moment) (f : Filter) (pkt : List ℕ)
    → new P c ≡ ok m.rules
    → (allow_out m f pkt).1.1
      ≡ for_some
          (parse pkt)
          (λ p. lets_to P c m p.dst p.proto p.dst_port || is_answer m.now f.conns p)
allow_out-passes P c m f pkt built =
    allow_out-decide_out m f pkt ∙ elim (Option-cases (parse pkt)) [
      | inl unread ↦ ground arith
      | inr (p, read) ↦ ground (arith, decide_out-lets_to P c m built p, is_reply-is_answer m f p)
    ]

-- Under rules that New built, a packet that came in passes exactly when Parse reads it and one of
-- two things holds. Either its source address is the tunnel address of a peer that an [[inbound]]
-- entry of policy.toml admits, from the address that wg sees behind it and at that time, for TCP
-- and UDP an entry for an app of this machine on its destination port. Or the packet with the two
-- ends swapped is a connection that is held as allowed, and whose time is not over.
pub allow_in-passes :
    (P : Parsers) (c : Config) (m : Moment) (f : Filter) (pkt : List ℕ)
    → new P c ≡ ok m.rules
    → (allow_in m f pkt).1
      ≡ for_some
          (parse pkt)
          (λ p. lets_from P c m p.src p.proto p.dst_port || is_answer m.now f.conns p)
allow_in-passes P c m f pkt built = allow_in-decide_in m f pkt ∙ elim (Option-cases (parse pkt)) [
  | inl unread ↦ ground arith
  | inr (p, read) ↦ ground (arith, decide_in-lets_from P c m built p, is_reply-is_answer m f p)
]
