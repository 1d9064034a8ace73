-- ===== src/Tests/Nat.antt =====
-- The address translation of srv-a.
use callsignet.Base.{some, none, ◌+◌, ◌&&◌, pos, ◌≡◌, refl, if◌then◌else◌, contains}
use callsignet.Net.{v4, addr_beq, unmap}
use callsignet.Config.{find_peer, tun_name, real_ips, add_addresses, add_endpoints, add_real}
use callsignet.Guard.{has_port}
use callsignet.Guard.Verdict.{tcp}
use callsignet.Nat.{
  NatConfig, nat_config, add_nat_peer, add_nat_peers, parse_outgoing, parse_incoming, steers,
  nat_rules,
}
use callsignet.Nat.Steer.{steered, server_of, carries_port, steered-nat_rules}
use callsignet.Tests.Samples.{ip_b, outside, parsers, config_a}

abbrev nat_a : NatConfig
nat_a = nat_config parsers config_a

steered-nat_rules_example : steered (nat_rules nat_a).output (v4 (outside + 7)) tcp (pos 5432) ≡ (
    if steers nat_a.outgoing && carries_port tcp
    then server_of nat_a.peers (v4 (outside + 7)) (pos 5432)
    else none)
steered-nat_rules_example = steered-nat_rules nat_a (v4 (outside + 7)) tcp (pos 5432)

served_by_b : server_of nat_a.peers (v4 (outside + 7)) (pos 5432) ≡ some (v4 ip_b)
unfolding nat_config add_nat_peer add_nat_peers parse_outgoing parse_incoming server_of find_peer
    tun_name real_ips add_addresses add_endpoints add_real has_port contains addr_beq unmap
served_by_b = refl
