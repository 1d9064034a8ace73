-- ===== src/Config/Roster.antt =====
-- publicKey and checkPeers in internal/config/validate.go: peers.toml.
--
-- The maps of the loop are lists: seenID holds the names, the others what stands under a key.
use callsignet.Base.{
  String, Bool, false, not, ◌&&◌, Option, none, some, List, [], ◌∷◌, ◌++◌, ℤ, int_beq, IsKey, ◌==◌,
  nat_key, string_key, contains, is_empty, all, find, put, length, if◌then◌else◌,
}
use callsignet.Net.{Addr, unmap, is_4, Prefix, prefix_contains, addr_key}
use callsignet.Config.{Service, Peer, Config, find_peer, real_ips}
use callsignet.Config.Problems.{
  Problem, Host, when, listed, peer_id_label, app_label, no_peers, peer_id_missing, peer_id_twice,
  key_missing, key_bad, key_twice, ip_bad, ip_twice, ip_family, ip_outside, endpoint_bad,
  endpoint_port, address_bad, address_family, address_inside, real_inside, real_twice,
  service_unnamed, app_twice, port_range, port_twice, port_listening, self_unlisted,
  real_ip_unknown,
}
use callsignet.Config.Labels.{check_label}
use callsignet.Config.Own.{port_bad}

-- `none` for each of its errors: no base64, not 32 bytes, all of them zero.
unfoldable pub public_key : Host → String → Option String
public_key h b64 = elim (h.decode64 (h.trim_space b64)) [
  | none ↦ none
  | some raw ↦
      if not (length raw == 32)
      then none
      else if all (λ b. b == 0) raw
      then none
      else some (h.encode64 raw)
]

-- The maps that live through the loop over the peers.
pub record Seen : Type 0 where
  pub ids : List String
  pub ips : List (String × String)
  pub keys : List (String × String)
  pub reals : List (Addr × String)

-- The case of a key that stands under another name, and the write where it does not.
unfoldable pub claim {κ} :
    {K : Type κ} ⦃key : IsKey K⦄
    → List (K × String)
    → K
    → String
    → (String → Problem)
    → List (K × String) × List Problem
claim m k id twice = elim (find k m) [
  | some other ↦ (m, twice other ∷ [])
  | none ↦ (put k id m, [])
]

unfoldable pub check_key :
    Host → List (String × String) → Peer → List (String × String) × List Problem
check_key h keys p = elim (public_key h p.public_key) [
  | none ↦ (keys, (if p.public_key == "" then key_missing p.peer_id else key_bad p.peer_id) ∷ [])
  | some key ↦
      if p.public_key == ""
      then (keys, key_missing p.peer_id ∷ [])
      else claim keys key p.peer_id (λ other. key_twice other p.peer_id)
]

-- `cidrOK == nil && cidr.Contains(a)`.
abbrev inside : Option Prefix → Addr → Bool
inside none a = false
inside (some cidr) a = prefix_contains cidr a

abbrev outside_problem : Option Prefix → String → Addr → List Problem
outside_problem none id ip = []
outside_problem (some cidr) id ip = when (not (prefix_contains cidr ip)) (ip_outside id ip cidr)

unfoldable pub check_ip :
    Host → Option Prefix → List (String × String) → Peer → List (String × String) × List Problem
check_ip h cidr ips p = elim (h.parsers.parse_addr p.tunnel_ip) [
  | none ↦ (ips, ip_bad p.peer_id p.tunnel_ip ∷ [])
  | some ip ↦
      let (ips', twice) =
        claim ips p.tunnel_ip p.peer_id (λ other. ip_twice p.tunnel_ip other p.peer_id) in
      (
        ips',
        twice
            ++ when (not (is_4 ip)) (ip_family p.peer_id p.tunnel_ip)
            ++ outside_problem cidr p.peer_id ip,
      )
]

unfoldable pub check_endpoints : Host → String → List String → List Problem
check_endpoints h id [] = []
check_endpoints h id (ep ∷ eps) =
    elim (h.parsers.parse_addr_port ep) [
      | none ↦ endpoint_bad id ep ∷ []
      | some (a, port) ↦ when (port == 0) (endpoint_port id ep)
    ]
    ++ check_endpoints h id eps

unfoldable pub check_addresses : Host → Option Prefix → String → List String → List Problem
check_addresses h cidr id [] = []
check_addresses h cidr id (s ∷ ss) =
    elim (h.parsers.parse_addr s) [
      | none ↦ address_bad id s ∷ []
      | some a ↦
          if not (is_4 (unmap a))
          then address_family id s ∷ []
          else when (inside cidr (unmap a)) (address_inside id s)
    ]
    ++ check_addresses h cidr id ss

-- One round of the loop over RealIPs.
unfoldable pub claim_real :
    List (Addr × String) → String → Addr → List (Addr × String) × List Problem
claim_real reals id a = elim (find a reals) [
  | none ↦ (put a id reals, [])
  | some other ↦
      if not (other == id) then (reals, real_twice a other id ∷ []) else (put a id reals, [])
]

unfoldable pub check_reals :
    Option Prefix → Peer → List (Addr × String) → List Addr → List (Addr × String) × List Problem
check_reals cidr p reals [] = (reals, [])
check_reals cidr p reals (a ∷ as') =
    let (reals₁, twice) = claim_real reals p.peer_id a in
    let (reals₂, rest) = check_reals cidr p reals₁ as' in
    (
      reals₂,
      when (is_empty p.addresses && inside cidr a) (real_inside p.peer_id a) ++ twice ++ rest,
    )

-- `seenPort[port]`.
unfoldable pub port_owner : ℤ → List (ℤ × String) → Option String
port_owner port [] = none
port_owner port ((q, app) ∷ rest) = if int_beq q port then some app else port_owner port rest

-- The problems of one service, from the apps and ports of those before it.
unfoldable pub check_service :
    Config → String → List String → List (ℤ × String) → Service → List Problem
check_service c id apps ports svc =
    (if svc.app == "" then service_unnamed id ∷ [] else listed (check_label app_label svc.app))
    ++ when (contains svc.app apps) (app_twice id svc.app)
    ++ when (port_bad svc.port) (port_range id svc.app svc.port)
    ++ elim (port_owner svc.port ports) [
      | none ↦ []
      | some other ↦ port_twice id svc.port other svc.app ∷ []
    ]
    ++ when (id == c.self.peer_id && int_beq svc.port c.self.listen_port)
        (port_listening svc.app svc.port)

unfoldable pub check_services :
    Config → String → List String → List (ℤ × String) → List Service → List Problem
check_services c id apps ports [] = []
check_services c id apps ports (svc ∷ svcs) =
    check_service c id apps ports svc
    ++ check_services c id (svc.app ∷ apps) (ports ++ (svc.port, svc.app) ∷ []) svcs

-- One round of the loop over the peers, where the peer has a name.
unfoldable pub check_peer : Host → Config → Seen → Peer → Seen × List Problem
check_peer h c seen p =
    let cidr = h.parsers.parse_prefix c.self.tunnel_cidr in
    let (keys, key_problems) = check_key h seen.keys p in
    let (ips, ip_problems) = check_ip h cidr seen.ips p in
    let (reals, real_problems) = check_reals cidr p seen.reals (real_ips h.parsers p) in
    (
      record { ids = p.peer_id ∷ seen.ids; ips = ips; keys = keys; reals = reals },
      listed (check_label peer_id_label p.peer_id)
          ++ when (contains p.peer_id seen.ids) (peer_id_twice p.peer_id)
          ++ key_problems
          ++ ip_problems
          ++ check_endpoints h p.peer_id p.endpoints
          ++ check_addresses h cidr p.peer_id p.addresses
          ++ real_problems
          ++ check_services c p.peer_id [] [] p.services,
    )

unfoldable pub check_each : Host → Config → Seen → List Peer → Seen × List Problem
check_each h c seen [] = (seen, [])
check_each h c seen (p ∷ ps) =
    let (next, problems) = check_peer h c seen p in
    let (end, rest) = check_each h c next ps in
    let (end', rest') = check_each h c seen ps in
    if p.peer_id == "" then (end', peer_id_missing ∷ rest') else (end, problems ++ rest)

abbrev pub unseen : Seen
unseen = record { ids = []; ips = []; keys = []; reals = [] }

-- nat.incoming needs an address of this machine.
unfoldable pub check_real_ip : Host → Config → List Problem
check_real_ip h c = elim (find_peer c.self.peer_id c.peers) [
  | none ↦ []
  | some self ↦
      when (not (c.self.nat.incoming == "tunnel-ip") && is_empty (real_ips h.parsers self))
        (real_ip_unknown c.self.peer_id)
]

-- The end of checkPeers: this machine among the peers.
unfoldable pub check_listed : Host → Config → List String → List Problem
check_listed h c ids =
    when (not (c.self.peer_id == "") && not (contains c.self.peer_id ids))
      (self_unlisted c.self.peer_id)
    ++ check_real_ip h c

unfoldable pub check_peers : Host → Config → List Problem
check_peers h c =
    let (seen, problems) = check_each h c unseen c.peers in
    if is_empty c.peers then no_peers ∷ [] else problems ++ check_listed h c seen.ids
