-- ===== src/Nat/Steer.antt =====
-- Which connections the table of internal/nat/nat.go takes into the tunnel.
use callsignet.Base.{
  Bool, ◌&&◌, ◌||◌, Option, none, some, List, [], ◌∷◌, ◌++◌, ℤ, int_beq, ◌==◌, nat_key, contains,
  ◌≡◌, refl, arith, if◌then◌else◌,
}
use callsignet.Net.{Addr, addr_key}
use callsignet.Guard.{has_port, dedup}
use callsignet.Guard.Ports.{has_port-dedup}
use callsignet.Guard.Verdict.{Kind, is_tcp, is_udp}
use callsignet.Nat.{
  NatPeer, NatConfig, Steering, dnat_tcp, dnat_udp, steer_ports, steer_reals, steer_peers, steers,
  nat_rules,
}

-- The new destination that the chain `output` gives to a packet: that of the first rule that
-- matches it.
unfoldable pub steered : List Steering → Addr → Kind → ℤ → Option Addr
steered [] dst k port = none
steered (dnat_tcp real p to ∷ rs) dst k port =
    if is_tcp k && (real == dst) && int_beq p port then some to else steered rs dst k port
steered (dnat_udp real p to ∷ rs) dst k port =
    if is_udp k && (real == dst) && int_beq p port then some to else steered rs dst k port

abbrev otherwise : Option Addr → Option Addr → Option Addr
otherwise (some a) b = some a
otherwise none b = b

abbrev pub carries_port : Kind → Bool
carries_port k = is_tcp k || is_udp k

-- The tunnel address of the first peer that has the address and serves the port.
unfoldable pub server_of : List NatPeer → Addr → ℤ → Option Addr
server_of [] dst port = none
server_of (p ∷ ps) dst port =
    if contains dst p.real_ips && has_port port p.ports
    then some p.tunnel_ip
    else server_of ps dst port

module _ (dst : Addr) (k : Kind) (port : ℤ) where
  steered-append :
      (rs ss : List Steering)
      → steered (rs ++ ss) dst k port ≡ otherwise (steered rs dst k port) (steered ss dst k port)
  unfolding steered
  steered-append [] ss = refl
  steered-append (dnat_tcp real p to ∷ rs) ss = ground (arith, steered-append rs ss)
  steered-append (dnat_udp real p to ∷ rs) ss = ground (arith, steered-append rs ss)

  steered-steer_ports :
      (real to : Addr) (ports : List ℤ)
      → steered (steer_ports real to ports) dst k port
        ≡ (if carries_port k && (real == dst) && has_port port ports then some to else none)
  unfolding steered steer_ports has_port
  steered-steer_ports real to [] = ground arith
  steered-steer_ports real to (p ∷ ports) = ground (arith, steered-steer_ports real to ports)

  steered-steer_reals :
      (ports : List ℤ) (to : Addr) (reals : List Addr)
      → steered (steer_reals ports to reals) dst k port
        ≡ (if carries_port k && contains dst reals && has_port port ports then some to else none)
  unfolding steered steer_reals contains
  steered-steer_reals ports to [] = ground arith
  steered-steer_reals ports to (real ∷ reals) = ground (
    arith,
    steered-append (steer_ports real to ports) (steer_reals ports to reals),
    steered-steer_ports real to ports,
    steered-steer_reals ports to reals,
  )

  steered-steer_peers :
      (ps : List NatPeer)
      → steered (steer_peers ps) dst k port
        ≡ (if carries_port k then server_of ps dst port else none)
  unfolding steered steer_peers server_of
  steered-steer_peers [] = ground arith
  steered-steer_peers (p ∷ ps) = ground (
    arith,
    steered-append (steer_reals (dedup p.ports) p.tunnel_ip p.real_ips) (steer_peers ps),
    steered-steer_reals (dedup p.ports) p.tunnel_ip p.real_ips,
    has_port-dedup port p.ports,
    steered-steer_peers ps,
  )

-- The table takes a TCP or UDP packet that leaves this machine to the tunnel address of the first
-- peer that has its destination among the real addresses and serves its port; it leaves every other
-- packet alone, and all of them where nat.outgoing is "off".
pub steered-nat_rules :
    (c : NatConfig) (dst : Addr) (k : Kind) (port : ℤ)
    → steered (nat_rules c).output dst k port
      ≡ (if steers c.outgoing && carries_port k then server_of c.peers dst port else none)
unfolding nat_rules steered
steered-nat_rules c dst k port = ground (arith, steered-steer_peers dst k port c.peers)
