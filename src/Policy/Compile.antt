-- ===== src/Policy/Compile.antt =====
-- internal/policy/policy.go: New, which builds the rules from the configuration.
--
-- The calls that write the maps keep their order. The map from apps to ports is walked in the
-- order in which its keys were first written.
use Prim.Native.Char.{code}
use callsignet.Base.{
  ℕ, String, true, false, not, Option, none, some, List, [], ◌∷◌, ◌++◌, to_uint16, if◌then◌else◌,
  ◌==◌, nat_key, string_key, contains, is_empty, find, put, value_or, Result, ok, err, ◌>>=◌,
}
use callsignet.Net.{Addr, invalid, Prefix, masked, addr_key}
use callsignet.Config.{Parsers, Service, Peer, Inbound, Config, find_peer}
use callsignet.Policy.{Rule, Rules, target_key}

-- The errors of New; `nil_peer` is the panic of a nil pointer.
pub data NewError : Type 0 where
  self_missing : String → NewError
  self_ip_bad : String → NewError
  peer_ip_bad : String → String → NewError
  inbound_app_missing : String → NewError
  cidr_bad : String → String → NewError
  expires_bad : String → String → NewError
  outbound_shape_bad : String → NewError
  outbound_service_missing : String → NewError
  nil_peer : String → NewError

-- `cut(s)`: the texts before and after the first slash.
unfoldable pub cut : String → Option (String × String)
cut String.[] = none
cut (String.◌∷◌ c s) =
    let rest = cut s in
    if code c == b'/'
    then some ("", s)
    else elim rest [ none ↦ none | some (before, after) ↦ some (String.◌∷◌ c before, after) ]

pub record Tables : Type 0 where
  pub peer_by_ip : List (Addr × String)
  pub port_of : List (String × List (String × ℕ))

-- Writes the services of one peer.
unfoldable pub add_services : List (String × ℕ) → List Service → List (String × ℕ)
add_services m [] = m
add_services m (svc ∷ svcs) = add_services (put svc.app (to_uint16 svc.port) m) svcs

unfoldable pub name_ports : List (ℕ × String) → List (String × ℕ) → List (ℕ × String)
name_ports m [] = m
name_ports m ((app, port) ∷ rest) = name_ports (put port app m) rest

-- `portOf[id][app]`; the inner map of a missing peer is nil, and has no keys.
unfoldable pub port_at : List (String × List (String × ℕ)) → String → String → Option ℕ
port_at port_of id app = find app (value_or [] (find id port_of))

unfoldable pub add_all : List String → List String → List String
add_all ids [] = ids
add_all ids (x ∷ xs) = add_all (if contains x ids then ids else ids ++ x ∷ []) xs

-- The writes at the end of one round of the loop over [[inbound]].
unfoldable pub add_rule : Rules → ℕ → Rule → Rules
add_rule r port u =
    let needs = not (is_empty u.cidrs) in
    record r {
      inbound = put port (value_or [] (find port r.inbound) ++ u ∷ []) r.inbound;
      all_inbound = r.all_inbound ++ u ∷ [];
      need_source = if needs then put port true r.need_source else r.need_source;
      need_source_icmp = if needs then true else r.need_source_icmp;
    }

unfoldable pub add_target : Rules → Addr → ℕ → Rules
add_target r ip port = record r {
  outbound = put (record { ip = ip; port = port }) true r.outbound;
  outbound_peers = put ip true r.outbound_peers;
}

abbrev pub blank : Tables → String → Rules
blank t self_id = record {
  peer_by_ip = t.peer_by_ip;
  inbound = [];
  all_inbound = [];
  need_source = [];
  need_source_icmp = false;
  app_by_port = name_ports [] (value_or [] (find self_id t.port_of));
  outbound = [];
  outbound_peers = [];
}

module _ (P : Parsers) where
  unfoldable pub add_peers : Tables → List Peer → Result NewError Tables
  add_peers t [] = ok t
  add_peers t (p ∷ ps) = elim (P.parse_addr p.tunnel_ip) [
    | none ↦ err (peer_ip_bad p.peer_id p.tunnel_ip)
    | some ip ↦
        add_peers
          (record {
            peer_by_ip = put ip p.peer_id t.peer_by_ip;
            port_of = put p.peer_id (add_services [] p.services) t.port_of;
          })
          ps
  ]

  unfoldable pub add_cidrs : String → List Prefix → List String → Result NewError (List Prefix)
  add_cidrs app out [] = ok out
  add_cidrs app out (s ∷ ss) = elim (P.parse_prefix s) [
    | none ↦ err (cidr_bad app s)
    | some pfx ↦ add_cidrs app (out ++ masked pfx ∷ []) ss
  ]

  unfoldable pub parse_expires : String → String → Result NewError ℕ
  parse_expires app s =
      if not (s == "")
      then elim (P.parse_date s) [ none ↦ err (expires_bad app s) | some t ↦ ok t ]
      else ok 0

  unfoldable pub make_rule : Inbound → Result NewError Rule
  make_rule e = do
    cidrs ← add_cidrs e.app [] e.allow_cidr
    expires ← parse_expires e.app e.expires
    ok (record { app = e.app; peers = add_all [] e.allow; cidrs = cidrs; expires = expires })

  unfoldable pub add_inbounds :
      List (String × List (String × ℕ)) → String → Rules → List Inbound → Result NewError Rules
  add_inbounds port_of self_id r [] = ok r
  add_inbounds port_of self_id r (e ∷ es) = elim (port_at port_of self_id e.app) [
    | none ↦ err (inbound_app_missing e.app)
    | some port ↦ elim (make_rule e) [
      | err x ↦ err x
      | ok u ↦ add_inbounds port_of self_id (add_rule r port u) es
    ]
  ]

  unfoldable pub add_outbounds :
      List (String × List (String × ℕ)) → List Peer → Rules → List String → Result NewError Rules
  add_outbounds port_of peers r [] = ok r
  add_outbounds port_of peers r (t ∷ ts) = elim (cut t) [
    | none ↦ err (outbound_shape_bad t)
    | some (id, app) ↦ elim (port_at port_of id app) [
      | none ↦ err (outbound_service_missing t)
      | some port ↦ elim (find_peer id peers) [
        | none ↦ err (nil_peer id)
        | some peer ↦
            add_outbounds port_of peers
              (add_target r (value_or invalid (P.parse_addr peer.tunnel_ip)) port) ts
      ]
    ]
  ]

  unfoldable pub new : Config → Result NewError Rules
  new c = elim (find_peer c.self.peer_id c.peers) [
    | none ↦ err (self_missing c.self.peer_id)
    | some self ↦ elim (P.parse_addr self.tunnel_ip) [
      | none ↦ err (self_ip_bad self.tunnel_ip)
      | some _ ↦ do
        t ← add_peers (record { peer_by_ip = []; port_of = [] }) c.peers
        r ← add_inbounds t.port_of c.self.peer_id (blank t c.self.peer_id) c.policy.inbound
        add_outbounds t.port_of c.peers r c.policy.outbound
    ]
  ]
