-- ===== src/Config/Own.antt =====
-- checkSelf, checkGuard, checkNAT and localPrefixes in internal/config/validate.go: csa.toml.
use callsignet.Base.{
  ℕ, String, Bool, not, ◌&&◌, ◌||◌, none, some, List, [], ◌∷◌, ◌++◌, ℤ, pos, int_beq, int_ltb,
  int_leb, if◌then◌else◌, ◌==◌, string_key, is_empty,
}
use callsignet.Net.{Addr, unmap, is_4, is_loopback, Prefix, prefix_of, overlaps}
use callsignet.Config.{GuardSettings, NatSettings, Config, tun_name}
use callsignet.Config.Problems.{
  Problem, Interface, Host, when, listed, peer_id_label, self_id_missing, unreadable,
  listen_port_range, mtu_range, guard_mode_bad, keep_range, keep_unused, outgoing_bad, incoming_bad,
  tunnel_cidr_bad, tunnel_cidr_family, tunnel_cidr_overlap,
}
use callsignet.Config.Labels.{check_iface, check_label}

-- `port <= 0 || port > 65535`.
abbrev pub port_bad : ℤ → Bool
port_bad port = int_leb port (pos 0) || int_ltb (pos 65535) port

unfoldable pub keep_problems : List ℤ → List Problem
keep_problems [] = []
keep_problems (port ∷ ports) = when (port_bad port) (keep_range port) ++ keep_problems ports

unfoldable pub check_guard : GuardSettings → List Problem
check_guard g =
    when (not (g.mode == "" || g.mode == "services" || g.mode == "all" || g.mode == "off"))
      (guard_mode_bad g.mode)
    ++ keep_problems (g.keep_tcp ++ g.keep_udp)
    ++ when (not (g.mode == "all") && (not (is_empty g.keep_tcp) || not (is_empty g.keep_udp)))
        keep_unused

unfoldable pub check_nat : NatSettings → List Problem
check_nat n =
    when (not (n.outgoing == "" || n.outgoing == "services" || n.outgoing == "off"))
      (outgoing_bad n.outgoing)
    ++ when (not (n.incoming == "" || n.incoming == "real-ip" || n.incoming == "tunnel-ip"))
        (incoming_bad n.incoming)

-- The loop over the addresses of one interface.
unfoldable pub prefixes_of : List (Addr × ℕ) → List Prefix
prefixes_of [] = []
prefixes_of ((ip, ones) ∷ rest) = elim (prefix_of (unmap ip) ones) [
  | none ↦ prefixes_of rest
  | some pfx ↦ if is_loopback pfx.addr then prefixes_of rest else pfx ∷ prefixes_of rest
]

unfoldable pub interface_prefixes : String → List Interface → List Prefix
interface_prefixes skip [] = []
interface_prefixes skip (i ∷ is) =
    let rest = interface_prefixes skip is in
    if i.name == skip then rest else elim i.addrs [ none ↦ rest | some l ↦ prefixes_of l ++ rest ]

unfoldable pub local_prefixes : Host → String → List Prefix
local_prefixes h skip = elim h.interfaces [ none ↦ [] | some is ↦ interface_prefixes skip is ]

unfoldable pub overlap_problems : Prefix → List Prefix → List Problem
overlap_problems cidr [] = []
overlap_problems cidr (l ∷ ls) =
    when (overlaps cidr l) (tunnel_cidr_overlap cidr l) ++ overlap_problems cidr ls

-- The end of checkSelf.
unfoldable pub check_tunnel_cidr : Host → Config → List Problem
check_tunnel_cidr h c = elim (h.parsers.parse_prefix c.self.tunnel_cidr) [
  | none ↦ tunnel_cidr_bad c.self.tunnel_cidr ∷ []
  | some cidr ↦
      if not (is_4 cidr.addr)
      then tunnel_cidr_family c.self.tunnel_cidr ∷ []
      else overlap_problems cidr (local_prefixes h (tun_name c.self))
]

unfoldable pub check_self : Host → Config → List Problem
check_self h c =
    let s = c.self in
    let mtu = s.tun.mtu in
    (if s.peer_id == "" then self_id_missing ∷ [] else listed (check_label peer_id_label s.peer_id))
    ++ elim c.secrets.private_err [ none ↦ [] | some e ↦ unreadable e ∷ [] ]
    ++ when (port_bad s.listen_port) (listen_port_range s.listen_port)
    ++ listed (check_iface (tun_name s))
    ++ when (not (int_beq mtu (pos 0)) && (int_ltb mtu (pos 1280) || int_ltb (pos 1500) mtu))
        (mtu_range mtu)
    ++ check_guard s.guard
    ++ check_nat s.nat
    ++ check_tunnel_cidr h c
