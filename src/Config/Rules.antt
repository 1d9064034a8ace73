-- ===== src/Config/Rules.antt =====
-- checkPolicy and hasApp in internal/config/validate.go: policy.toml.
--
-- `cut` is strings.Cut at a slash.
use callsignet.Base.{
  String, Bool, true, false, not, none, some, List, [], ◌∷◌, ◌++◌, ltb, ◌==◌, string_key, is_empty,
  if◌then◌else◌,
}
use callsignet.Config.{Parsers, Service, Peer, Inbound, Config, find_peer}
use callsignet.Config.Problems.{
  Problem, Host, when, inbound_app, allow_unknown, allow_cidr_bad, expires_missing, expires_bad,
  already_expired, outbound_shape, outbound_peer, outbound_app,
}
use callsignet.Policy.Compile.{cut}

unfoldable pub has_app : List Service → String → Bool
has_app [] app = false
has_app (s ∷ ss) app = if s.app == app then true else has_app ss app

unfoldable pub allow_problems : List Peer → List String → List Problem
allow_problems peers [] = []
allow_problems peers (id ∷ ids) =
    elim (find_peer id peers) [ none ↦ allow_unknown id ∷ [] | some _ ↦ [] ]
    ++ allow_problems peers ids

unfoldable pub cidr_problems : Parsers → List String → List Problem
cidr_problems P [] = []
cidr_problems P (s ∷ ss) =
    elim (P.parse_prefix s) [ none ↦ allow_cidr_bad s ∷ [] | some _ ↦ [] ] ++ cidr_problems P ss

-- The date of an entry that has an allow-cidr.
unfoldable pub expires_problems : Host → Inbound → List Problem
expires_problems h e =
    if is_empty e.allow_cidr
    then []
    else if e.expires == ""
    then expires_missing e.app ∷ []
    else elim (h.parsers.parse_date e.expires) [
      | none ↦ expires_bad e.app e.expires ∷ []
      | some t ↦ when (ltb t h.now) (already_expired e.app e.expires)
    ]

-- The app of an entry is one of this machine's.
unfoldable pub app_problems : Config → Inbound → List Problem
app_problems c e = elim (find_peer c.self.peer_id c.peers) [
  | none ↦ []
  | some self ↦ when (not (has_app self.services e.app)) (inbound_app e.app)
]

unfoldable pub inbound_problems : Host → Config → List Inbound → List Problem
inbound_problems h c [] = []
inbound_problems h c (e ∷ es) =
    app_problems c e
    ++ allow_problems c.peers e.allow
    ++ cidr_problems h.parsers e.allow_cidr
    ++ expires_problems h e
    ++ inbound_problems h c es

unfoldable pub target_problems : List Peer → String → List Problem
target_problems peers t = elim (cut t) [
  | none ↦ outbound_shape t ∷ []
  | some (id, app) ↦ elim (find_peer id peers) [
    | none ↦ outbound_peer id ∷ []
    | some peer ↦ when (not (has_app peer.services app)) (outbound_app id app)
  ]
]

unfoldable pub outbound_problems : List Peer → List String → List Problem
outbound_problems peers [] = []
outbound_problems peers (t ∷ ts) = target_problems peers t ++ outbound_problems peers ts

unfoldable pub check_policy : Host → Config → List Problem
check_policy h c =
    inbound_problems h c c.policy.inbound ++ outbound_problems c.peers c.policy.outbound
