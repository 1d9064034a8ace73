-- ===== src/Config/Keys.antt =====
-- checkKeyPair, checkPSK and Validate in internal/config/validate.go.
use callsignet.Base.{
  ℕ, not, ◌&&◌, ◌||◌, none, some, List, [], ◌∷◌, ◌++◌, ◌==◌, nat_key, string_key, find, length,
  if◌then◌else◌,
}
use callsignet.Config.{Peer, Config, find_peer}
use callsignet.Config.Problems.{
  Problem, Host, when, unreadable, private_shape, private_unusable, pair_mismatch, psk_mode_bad,
  psk_dir_missing, psk_missing,
}
use callsignet.Config.Own.{check_self}
use callsignet.Config.Roster.{check_peers}
use callsignet.Config.Rules.{check_policy}

-- The comparison of the public key that belongs to the private key with the one of the entry.
unfoldable pub check_pair : Host → Config → Peer → List ℕ → List Problem
check_pair h c self priv = elim (h.public_of priv) [
  | none ↦ private_unusable c.self.private_key ∷ []
  | some pub_key ↦
      let got = h.encode64 pub_key in
      when (not (got == h.trim_space self.public_key)) (pair_mismatch got self.public_key)
]

unfoldable pub check_key_pair : Host → Config → List Problem
check_key_pair h c = elim (find_peer c.self.peer_id c.peers) [
  | none ↦ []
  | some self ↦ if c.self.private_key == "" then [] else elim c.secrets.private_err [
    | some _ ↦ []
    | none ↦ elim (h.decode64 c.secrets.private) [
      | none ↦ private_shape c.self.private_key ∷ []
      | some priv ↦
          if not (length priv == 32)
          then private_shape c.self.private_key ∷ []
          else check_pair h c self priv
    ]
  ]
]

-- One round of the loop of checkPSK.
unfoldable pub psk_problems : Config → Peer → List Problem
psk_problems c p =
    if p.peer_id == c.self.peer_id then [] else elim (find p.peer_id c.secrets.psk_err) [
      | some e ↦ unreadable e ∷ []
      | none ↦ elim (find p.peer_id c.secrets.psk) [
        | some _ ↦ []
        | none ↦ when (c.self.psk.mode == "required") (psk_missing p.peer_id)
      ]
    ]

unfoldable pub psk_each : Config → List Peer → List Problem
psk_each c [] = []
psk_each c (p ∷ ps) = psk_problems c p ++ psk_each c ps

unfoldable pub check_psk : Host → Config → List Problem
check_psk h c =
    let mode = c.self.psk.mode in
    let first =
      when (not (mode == "" || mode == "optional" || mode == "required")) (psk_mode_bad mode) in
    if mode == "required" && c.self.psk.dir == ""
    then first ++ psk_dir_missing ∷ []
    else if c.self.psk.dir == ""
    then first
    else first ++ psk_each c c.peers

unfoldable pub validate : Host → Config → List Problem
validate h c =
    check_self h c ++ check_peers h c ++ check_policy h c ++ check_key_pair h c ++ check_psk h c
