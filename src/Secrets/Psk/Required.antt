-- ===== src/Secrets/Psk/Required.antt =====
-- checkPSK of internal/config/validate.go against the keys that were read.
use callsignet.Base.{
  String, true, false, some, List, [], ◌∷◌, any, ◌==◌, string_key, find, ok, ◌≡◌, ◌∙◌, sym, ap,
  subst, arith, Option-cases, Bool-cases, inl, inr,
}
use callsignet.Config.{Peer, Config}
use callsignet.Config.Problems.{Host}
use callsignet.Config.Keys.{psk_problems, psk_each, check_psk}
use callsignet.Policy.Roster.{no_problems}
use callsignet.Secrets.{Files}
use callsignet.Secrets.Psk.{LoadError, psk_path, load_psk, read_secrets}
use callsignet.Secrets.Psk.Loaded.{IsUsable, load_psk-IsUsable, gain-some, read_secrets-find}

psk_problems-key :
    (c : Config) (p : Peer)
    → psk_problems c p ≡ []
    → (c.self.psk.mode == "required") ≡ true
    → (p.peer_id == c.self.peer_id) ≡ false
    → (key : String) × (find p.peer_id c.secrets.psk ≡ some key)
unfolding psk_problems
psk_problems-key c p clean required other = elim (Option-cases (find p.peer_id c.secrets.psk)) [
  | inr found ↦ found
  | inl missing ↦ elim (Option-cases (find p.peer_id c.secrets.psk_err)) [
    | inl fine ↦ absurd (ground (arith, missing, fine))
    | inr (e, bad) ↦ absurd (ground (arith, missing, bad))
  ]
]

psk_each-key :
    (c : Config) (ps : List Peer) (id : String)
    → psk_each c ps ≡ []
    → (c.self.psk.mode == "required") ≡ true
    → (id == c.self.peer_id) ≡ false
    → any (λ p. p.peer_id == id) ps ≡ true
    → (key : String) × (find id c.secrets.psk ≡ some key)
unfolding psk_each
psk_each-key c [] id clean required other listed = absurd (ground arith)
psk_each-key c (p ∷ ps) id clean required other listed =
    let both = no_problems (psk_problems c p) (psk_each c ps) clean in
    elim (Bool-cases (p.peer_id == id)) [
      | inr differs ↦ psk_each-key c ps id both.1 required other (ground (arith, differs))
      | inl this ↦
          let same : p.peer_id ≡ id = ground (arith, string_key.test_iff p.peer_id id) in
          let p_other = ap (λ x. x == c.self.peer_id) same ∙ other in
          subst (λ x. (key : String) × (find x c.secrets.psk ≡ some key)) same
            (psk_problems-key c p both.0 required p_other)
    ]

check_psk-key :
    (h : Host) (c : Config) (id : String)
    → check_psk h c ≡ []
    → (c.self.psk.mode == "required") ≡ true
    → (id == c.self.peer_id) ≡ false
    → any (λ p. p.peer_id == id) c.peers ≡ true
    → (key : String) × (find id c.secrets.psk ≡ some key)
unfolding check_psk
check_psk-key h c id clean required other listed = elim (Bool-cases (c.self.psk.dir == "")) [
  | inl nowhere ↦ absurd (ground (arith, nowhere))
  | inr somewhere ↦ psk_each-key c c.peers id (ground (arith, somewhere)) required other listed
]

-- Where a configuration whose secrets were read asks for pre-shared keys and Validate's check of
-- them finds nothing, each other peer of peers.toml has a key of 32 bytes that are not all zero,
-- from a file that ReadSecret gives.
pub check_psk-IsUsable :
    (fs : Files) (h : Host) (c : Config) (say : LoadError → String) (id : String)
    → let c' = record c { secrets = read_secrets fs h c say } in
      check_psk h c' ≡ []
      → c.self.psk.mode ≡ "required"
      → any (λ p. p.peer_id == id) c.peers ≡ true
      → (id == c.self.peer_id) ≡ false
      → (key : String) × (find id c'.secrets.psk ≡ some key)
        × IsUsable fs h (psk_path fs h c id) key
check_psk-IsUsable fs h c say id clean mode listed other =
    let c' = record c { secrets = read_secrets fs h c say } in
    let (key, found) = check_psk-key h c' id clean (ap (λ x. x == "required") mode) other listed in
    let (keys, errs) = read_secrets-find fs h c say id other listed in
    let loaded : load_psk fs h c id ≡ ok (some key) =
      gain-some fs h c (load_psk fs h c id) key (sym keys ∙ found) in
    (key, found, load_psk-IsUsable fs h c id key loaded)
