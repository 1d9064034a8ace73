-- ===== src/Policy/Outgoing.antt =====
-- Outbound and OutboundICMP of internal/policy/policy.go, under rules that New built, against
-- policy.toml.
use callsignet.Base.{
  ℕ, String, Bool, true, false, ◌&&◌, ◌||◌, some, List, [], ◌∷◌, ◌≡◌, sym, ◌∙◌, inl, inr, arith,
  ◌==◌, nat_key, string_key, any, or_false, find, find-put, value_or, ok, Bool-cases,
}
use callsignet.Net.{Addr, invalid, addr_key}
use callsignet.Config.{Parsers, Peer, Config, find_peer}
use callsignet.Policy.{Rules, target_key, outbound, outbound_icmp}
use callsignet.Policy.Compile.{Tables, add_peers, add_target, add_outbounds, new, port_at}
use callsignet.Policy.Loops.{add_outbounds-cons, new-Built}
use callsignet.Policy.Tables.{tables-peers, add_peers-cons, after_peer}
use callsignet.Policy.Refines.{same_outbound}
use callsignet.Policy.Intent.{service_port, aims_at, aims_at_host}

abbrev to_target : Rules → Addr → ℕ → Bool
to_target r dst port = value_or false (find (record { ip = dst; port = port }) r.outbound)

abbrev to_host : Rules → Addr → Bool
to_host r dst = value_or false (find dst r.outbound_peers)

outbound-to_target :
    (r : Rules) (dst : Addr) (port : ℕ) → (outbound r dst port).allow ≡ to_target r dst port
unfolding outbound
outbound-to_target r dst port = ground arith

outbound_icmp-to_host : (r : Rules) (dst : Addr) → (outbound_icmp r dst).allow ≡ to_host r dst
unfolding outbound_icmp
outbound_icmp-to_host r dst = ground arith

to_target-add_target :
    (r : Rules) (ip dst : Addr) (p q : ℕ)
    → to_target (add_target r ip p) dst q ≡ (to_target r dst q || (ip == dst && p == q))
unfolding add_target
to_target-add_target r ip dst p q =
    ground (
      arith,
      find-put (record { ip = ip; port = p }) (record { ip = dst; port = q }) true r.outbound,
    )

to_host-add_target :
    (r : Rules) (ip dst : Addr) (p : ℕ)
    → to_host (add_target r ip p) dst ≡ (to_host r dst || ip == dst)
unfolding add_target
to_host-add_target r ip dst p = ground (arith, find-put ip dst true r.outbound_peers)

-- Every entry that New read has an address.
find_peer-read :
    (P : Parsers) (id : String) (t : Tables) (ps : List Peer) (p : Peer) {t' : Tables}
    → add_peers P t ps ≡ ok t'
    → find_peer id ps ≡ some p
    → (ip : Addr) × (P.parse_addr p.tunnel_ip ≡ some ip)
unfolding find_peer
find_peer-read P id t [] p h f = cc
find_peer-read P id t (x ∷ ps) p h f =
    let c = add_peers-cons P t x ps h in
    elim (Bool-cases (x.peer_id == id)) [
      | inl same ↦ (c.ip, ground (arith, c.read))
      | inr other ↦ find_peer-read P id (after_peer t x c.ip) ps p c.rest (ground arith)
    ]

module _ (P : Parsers) (peers : List Peer) (t : Tables)
    (read : add_peers P (record { peer_by_ip = []; port_of = [] }) peers ≡ ok t) where
  port_read : (id app : String) → port_at t.port_of id app ≡ service_port peers id app
  port_read id app = (tables-peers P peers t read).1 id app

  to_target-add_outbounds :
      (dst : Addr) (port : ℕ) (r : Rules) (ts : List String) {r' : Rules}
      → add_outbounds P t.port_of peers r ts ≡ ok r'
      → to_target r' dst port ≡ (to_target r dst port || any (aims_at P peers dst port) ts)
  unfolding add_outbounds aims_at
  to_target-add_outbounds dst port r [] {r'} h = let e : r' ≡ r = cc in rw e (sym (or_false _))
  to_target-add_outbounds dst port r (x ∷ ts) h =
      let c = add_outbounds-cons P t.port_of peers r x ts h in
      let (ip, parsed) = find_peer-read P c.id _ peers c.peer read c.found in
      let ip' = value_or invalid (P.parse_addr c.peer.tunnel_ip) in
      ground (
        arith,
        parsed,
        c.shape,
        c.found,
        c.served,
        port_read c.id c.app,
        to_target-add_outbounds dst port (add_target r ip' c.port) ts c.rest,
        to_target-add_target r ip dst c.port port,
      )

  to_host-add_outbounds :
      (dst : Addr) (r : Rules) (ts : List String) {r' : Rules}
      → add_outbounds P t.port_of peers r ts ≡ ok r'
      → to_host r' dst ≡ (to_host r dst || any (aims_at_host P peers dst) ts)
  unfolding add_outbounds aims_at_host
  to_host-add_outbounds dst r [] {r'} h = let e : r' ≡ r = cc in rw e (sym (or_false _))
  to_host-add_outbounds dst r (x ∷ ts) h =
      let c = add_outbounds-cons P t.port_of peers r x ts h in
      let (ip, parsed) = find_peer-read P c.id _ peers c.peer read c.found in
      let ip' = value_or invalid (P.parse_addr c.peer.tunnel_ip) in
      ground (
        arith,
        parsed,
        c.shape,
        c.found,
        to_host-add_outbounds dst (add_target r ip' c.port) ts c.rest,
        to_host-add_target r ip dst c.port,
      )

-- Under rules that New built, a packet to an address and port may go out exactly when an outbound
-- entry names the service of a peer that has that tunnel address and that port.
pub outbound-aims_at :
    (P : Parsers) (c : Config) (r : Rules) (dst : Addr) (port : ℕ)
    → new P c ≡ ok r
    → (outbound r dst port).allow ≡ any (aims_at P c.peers dst port) c.policy.outbound
unfolding find
outbound-aims_at P c r dst port h =
    let b = new-Built P c h in
    let from = (same_outbound P c b).1 in
    outbound-to_target r dst port
    ∙ to_target-add_outbounds P c.peers b.tables b.tables_made dst port b.middle c.policy.outbound
        b.outbound_made
    ∙ rw from

-- Under rules that New built, a packet without a port may go out exactly when an outbound entry
-- names a service of a peer that has that tunnel address.
pub outbound_icmp-aims_at_host :
    (P : Parsers) (c : Config) (r : Rules) (dst : Addr)
    → new P c ≡ ok r
    → (outbound_icmp r dst).allow ≡ any (aims_at_host P c.peers dst) c.policy.outbound
unfolding find
outbound_icmp-aims_at_host P c r dst h =
    let b = new-Built P c h in
    let from = (same_outbound P c b).2 in
    outbound_icmp-to_host r dst
    ∙ to_host-add_outbounds P c.peers b.tables b.tables_made dst b.middle c.policy.outbound
        b.outbound_made
    ∙ rw from
