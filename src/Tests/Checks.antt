-- ===== src/Tests/Checks.antt =====
-- The checks of a configuration, and what a reload finds changed in it.
use callsignet.Base.{
  ◌+◌, String, true, false, none, some, List, [], ◌∷◌, replicate, pos, ◌==◌, nat_key, string_key,
  if◌then◌else◌, ◌≡◌, ◌↔◌, refl, ok, get_or, contains, find, put,
}
use callsignet.Net.{v4, addr_beq, prefix_contains, unmap, overlaps, prefix_of}
use callsignet.Config.{
  Parsers, Config, tun_name, find_peer, add_real, add_addresses, add_endpoints, real_ips,
}
use callsignet.Config.Problems.{Host}
use callsignet.Config.Labels.{encode, bytes, check_iface, check_label}
use callsignet.Config.Own.{
  keep_problems, check_guard, check_nat, prefixes_of, interface_prefixes, local_prefixes,
  overlap_problems, check_tunnel_cidr, check_self,
}
use callsignet.Config.Roster.{
  public_key, claim, check_key, check_ip, check_endpoints, check_addresses, claim_real, check_reals,
  port_owner, check_service, check_services, check_peer, check_each, check_real_ip, check_listed,
  check_peers,
}
use callsignet.Config.Rules.{
  has_app, allow_problems, cidr_problems, expires_problems, app_problems, inbound_problems,
  target_problems, outbound_problems, check_policy,
}
use callsignet.Config.Keys.{check_pair, check_key_pair, psk_problems, psk_each, check_psk, validate}
use callsignet.Config.Diff.{any_change, diff}
use callsignet.Config.Diff.Walk.{last_peer, fate, is_added, is_removed, is_changed, is_fixed}
use callsignet.Config.Diff.Report.{IsSort, psk_differs, diff-fate}
use callsignet.Config.Diff.Nothing.{any_change-diff}
use callsignet.Policy.{Rules}
use callsignet.Policy.Compile.{cut, new}
use callsignet.Policy.Validated.{validate-new}
use callsignet.Tests.Samples.{ip_a, outside, parsers, self_a, peer_a, config_a}

abbrev pub tunnel_parsers : Parsers
tunnel_parsers = record parsers {
  parse_prefix = λ s.
      if s == "10.0.0.0/24"
      then some (record { addr = v4 ip_a; bits = 24 })
      else parsers.parse_prefix s;
}

-- The keys of both machines are their names.
abbrev pub host_a : Host
host_a = record {
  parsers = tunnel_parsers;
  now = 1000;
  interfaces = some (record { name = "eth0"; addrs = some ((v4 (outside + 1), 24) ∷ []) } ∷ []);
  trim_space = λ s. s;
  decode64 = λ s.
      if s == "A"
      then some (replicate 32 1)
      else if s == "B"
      then some (replicate 32 2)
      else if s == "K"
      then some (replicate 32 3)
      else none;
  encode64 = λ bs. if get_or bs 0 0 == 1 then "A" else "B";
  public_of = λ bs. some (replicate 32 1);
}

abbrev pub config_v : Config
config_v = record config_a {
  self = record self_a { nat = record { outgoing = ""; incoming = "tunnel-ip" } };
}

pub clean_v : validate host_a config_v ≡ []
unfolding tun_name find_peer add_real add_addresses add_endpoints real_ips encode bytes check_iface
    check_label keep_problems check_guard check_nat prefixes_of interface_prefixes local_prefixes
    overlap_problems check_tunnel_cidr check_self public_key claim check_key check_ip
    check_endpoints check_addresses claim_real check_reals port_owner check_service check_services
    check_peer check_each check_real_ip check_listed check_peers has_app allow_problems
    cidr_problems expires_problems app_problems inbound_problems target_problems outbound_problems
    check_policy check_pair check_key_pair psk_problems psk_each check_psk validate cut contains
    find put addr_beq prefix_contains unmap overlaps prefix_of
clean_v = refl

validate-new_example : (r : Rules) × (new tunnel_parsers config_v ≡ ok r)
validate-new_example = validate-new host_a config_v clean_v refl

-- The names are put out in the order in which they were found.
abbrev pub as_found : List String → List String
as_found names = names

pub as_found-IsSort : IsSort as_found
as_found-IsSort = record { same_names = λ x xs. refl }

-- srv-b leaves, and srv-a serves another port.
abbrev config_b : Config
config_b = record config_a {
  peers = record peer_a { services = record { app = "web"; port = pos 9090 } ∷ [] } ∷ [];
}

diff-fate_example :
    let d = diff as_found config_a config_b in
    let f = fate false (last_peer "srv-b" config_a.peers) (last_peer "srv-b" config_b.peers) in
    let g = fate true (last_peer "srv-a" config_a.peers) (last_peer "srv-a" config_b.peers) in
    (contains "srv-b" d.added_peers ≡ is_added f)
    × (contains "srv-b" d.removed_peers ≡ is_removed f)
    × (contains "srv-b" d.changed_peers ≡ is_changed f)
    × (d.self_peer_changed ≡ is_fixed g)
    × (contains "srv-b" d.psk_peers ≡ psk_differs config_a config_b "srv-b")
    × ((d.self_changed ≡ false) ↔ (config_a.self ≡ config_b.self))
    × ((d.policy_changed ≡ false) ↔ (config_a.policy ≡ config_b.policy))
diff-fate_example = diff-fate as_found as_found-IsSort config_a config_b "srv-b"

any_change-diff_example : (any_change (diff as_found config_a config_b) ≡ false) ↔ (
    (config_a.self ≡ config_b.self)
    × (config_a.policy ≡ config_b.policy)
    × ((x : String) → last_peer x config_a.peers ≡ last_peer x config_b.peers)
    × ((x : String) → psk_differs config_a config_b x ≡ false))
any_change-diff_example = any_change-diff as_found as_found-IsSort config_a config_b
