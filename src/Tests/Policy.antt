-- ===== src/Tests/Policy.antt =====
-- The decisions of the policy of srv-a.
use callsignet.Base.{◌+◌, true, false, ◌≡◌, refl, any, find, contains, nat_key}
use callsignet.Net.{v4, invalid, addr_key, addr_beq, prefix_contains}
use callsignet.Policy.{
  denied, outside_cidrs, rule_expired, in_any, dead, allows, ban_reason, judge, inbound,
  inbound_icmp, outbound, needs_source, needs_source_icmp,
}
use callsignet.Policy.Source.{inbound-source_free}
use callsignet.Policy.Refines.{inbound-port_admits, inbound_icmp-entry_admits}
use callsignet.Policy.Outgoing.{outbound-aims_at}
use callsignet.Policy.Intent.{owner_of, port_admits, entry_admits, for_some, aims_at}
use callsignet.Tests.Samples.{
  ip_b, outside, parsers, config_a, rules_a, new_a, config_open, rules_open, new_open,
}

from_inside_range : (inbound 1000 rules_a (v4 ip_b) 8080 (v4 (outside + 7))).allow ≡ true
unfolding inbound judge allows dead in_any find contains prefix_contains addr_beq
from_inside_range = refl

inbound-port_admits_example :
    (inbound 1000 rules_a (v4 ip_b) 8080 (v4 (outside + 7))).allow
    ≡ for_some
        (owner_of parsers (v4 ip_b) config_a.peers)
        (λ id. port_admits parsers 1000 config_a id 8080 (v4 (outside + 7)))
inbound-port_admits_example =
    inbound-port_admits parsers config_a rules_a 1000 (v4 ip_b) 8080 (v4 (outside + 7)) new_a

inbound_icmp-entry_admits_example :
    (inbound_icmp 1000 rules_a (v4 ip_b) (v4 (outside + 7))).allow
    ≡ for_some
        (owner_of parsers (v4 ip_b) config_a.peers)
        (λ id. any (λ e. entry_admits parsers 1000 e id (v4 (outside + 7))) config_a.policy.inbound)
inbound_icmp-entry_admits_example =
    inbound_icmp-entry_admits parsers config_a rules_a 1000 (v4 ip_b) (v4 (outside + 7)) new_a

outbound-aims_at_example :
    (outbound rules_a (v4 ip_b) 5432).allow
    ≡ any (aims_at parsers config_a.peers (v4 ip_b) 5432) config_a.policy.outbound
outbound-aims_at_example = outbound-aims_at parsers config_a rules_a (v4 ip_b) 5432 new_a

no_source_needed : (needs_source rules_open 8080 ≡ false) × (needs_source_icmp rules_open ≡ false)
unfolding needs_source needs_source_icmp find
no_source_needed = (refl, refl)

inbound-source_free_example :
    inbound 1000 rules_open (v4 ip_b) 8080 invalid
    ≡ inbound 1000 rules_open (v4 ip_b) 8080 (v4 outside)
inbound-source_free_example =
    inbound-source_free parsers config_open rules_open 1000 (v4 ip_b) 8080 invalid (v4 outside)
      new_open no_source_needed.0

outside_denied :
    inbound 1000 rules_a (v4 ip_b) 8080 (v4 1) ≡ denied (outside_cidrs "srv-b" "web" (v4 1))
unfolding inbound judge allows dead in_any find contains prefix_contains addr_beq ban_reason
outside_denied = refl

expired_denied : inbound 3000 rules_a (v4 ip_b) 8080 (v4 outside) ≡ denied (rule_expired "web" 2000)
unfolding inbound judge allows dead in_any find contains prefix_contains addr_beq ban_reason
expired_denied = refl
