-- ===== src/Tests/Samples.antt =====
-- A machine, srv-a, with one peer, srv-b.
use callsignet.Base.{
  ℕ, ◌+◌, ◌*◌, ◌^◌, true, false, none, some, [], ◌∷◌, pos, ◌==◌, string_key, if◌then◌else◌, ◌≡◌,
  refl, ok, find, put, contains,
}
use callsignet.Net.{v4, addr_key, addr_beq, masked}
use callsignet.Config.{Parsers, Self, Peer, Inbound, Config, find_peer}
use callsignet.Policy.{Rules, Rule, target_key}
use callsignet.Policy.Compile.{
  cut, add_services, name_ports, port_at, add_all, add_rule, add_target, add_peers, add_cidrs,
  parse_expires, make_rule, add_inbounds, add_outbounds, new,
}

abbrev pub ip_a : ℕ
ip_a = 10 * 2 ^ 24 + 1

abbrev pub ip_b : ℕ
ip_b = 10 * 2 ^ 24 + 2

abbrev pub outside : ℕ
outside = 192 * 2 ^ 24 + 2 * 2 ^ 8

abbrev pub parsers : Parsers
parsers = record {
  parse_addr = λ s.
      if s == "10.0.0.1" then some (v4 ip_a) else if s == "10.0.0.2" then some (v4 ip_b) else none;
  parse_addr_port = λ s. if s == "192.0.2.7:51820" then some (v4 (outside + 7), 51820) else none;
  parse_prefix = λ s.
      if s == "192.0.2.9/24" then some (record { addr = v4 (outside + 9); bits = 24 }) else none;
  parse_date = λ s. if s == "2030-01-01" then some 2000 else none;
}

abbrev pub self_a : Self
self_a = record {
  peer_id = "srv-a";
  private_key = "/etc/callsignet/private.key";
  tunnel_cidr = "10.0.0.0/24";
  listen_port = pos 51820;
  tun = record { name = ""; mtu = pos 0 };
  guard = record { mode = ""; keep_tcp = []; keep_udp = [] };
  nat = record { outgoing = ""; incoming = "" };
  psk = record { dir = ""; mode = "" };
}

abbrev pub peer_a : Peer
peer_a = record {
  peer_id = "srv-a";
  public_key = "A";
  tunnel_ip = "10.0.0.1";
  endpoints = [];
  addresses = [];
  services = record { app = "web"; port = pos 8080 } ∷ [];
}

abbrev pub peer_b : Peer
peer_b = record {
  peer_id = "srv-b";
  public_key = "B";
  tunnel_ip = "10.0.0.2";
  endpoints = "192.0.2.7:51820" ∷ [];
  addresses = [];
  services = record { app = "db"; port = pos 5432 } ∷ [];
}

abbrev pub entry_web : Inbound
entry_web = record {
  app = "web";
  allow = "srv-b" ∷ [];
  allow_cidr = "192.0.2.9/24" ∷ [];
  expires = "2030-01-01";
}

abbrev pub config_a : Config
config_a = record {
  self = self_a;
  peers = peer_a ∷ peer_b ∷ [];
  policy = record { inbound = entry_web ∷ []; outbound = "srv-b/db" ∷ [] };
  secrets = record { private = "K"; private_err = none; psk = []; psk_err = [] };
}

abbrev pub rule_web : Rule
rule_web = record {
  app = "web";
  peers = "srv-b" ∷ [];
  cidrs = record { addr = v4 outside; bits = 24 } ∷ [];
  expires = 2000;
}

abbrev pub rules_a : Rules
rules_a = record {
  peer_by_ip = (v4 ip_a, "srv-a") ∷ (v4 ip_b, "srv-b") ∷ [];
  inbound = (8080, rule_web ∷ []) ∷ [];
  all_inbound = rule_web ∷ [];
  need_source = (8080, true) ∷ [];
  need_source_icmp = true;
  app_by_port = (8080, "web") ∷ [];
  outbound = (record { ip = v4 ip_b; port = 5432 }, true) ∷ [];
  outbound_peers = (v4 ip_b, true) ∷ [];
}

pub new_a : new parsers config_a ≡ ok rules_a
unfolding new cut add_services name_ports port_at add_all add_rule add_target add_peers add_cidrs
    parse_expires make_rule add_inbounds add_outbounds find_peer find put contains masked addr_beq
new_a = refl

-- The same machine with no range on its entry.
abbrev pub config_open : Config
config_open = record config_a {
  policy = record {
    inbound = record { app = "web"; allow = "srv-b" ∷ []; allow_cidr = []; expires = "" } ∷ [];
    outbound = [];
  };
}

abbrev pub rules_open : Rules
rules_open = record {
  peer_by_ip = (v4 ip_a, "srv-a") ∷ (v4 ip_b, "srv-b") ∷ [];
  inbound = (8080, record { app = "web"; peers = "srv-b" ∷ []; cidrs = []; expires = 0 } ∷ []) ∷ [];
  all_inbound = record { app = "web"; peers = "srv-b" ∷ []; cidrs = []; expires = 0 } ∷ [];
  need_source = [];
  need_source_icmp = false;
  app_by_port = (8080, "web") ∷ [];
  outbound = [];
  outbound_peers = [];
}

pub new_open : new parsers config_open ≡ ok rules_open
unfolding new cut add_services name_ports port_at add_all add_rule add_target add_peers add_cidrs
    parse_expires make_rule add_inbounds add_outbounds find_peer find put contains masked addr_beq
new_open = refl
