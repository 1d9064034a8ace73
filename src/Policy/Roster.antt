-- ===== src/Policy/Roster.antt =====
-- What checkPeers of internal/config/validate.go gives New of internal/policy/policy.go: where it
-- finds nothing, the names are distinct and each tunnel-ip is read.
use callsignet.Base.{
  String, Bool, true, false, Option, none, some, List, [], ◌∷◌, ◌++◌, ◌≡◌, refl, arith, ◌==◌,
  string_key, eq_iff, contains, Bool-cases, Option-cases, inl, inr, ok,
}
use callsignet.Net.{Addr, Prefix}
use callsignet.Config.{Service, Peer, Config, find_peer}
use callsignet.Config.Problems.{Problem, Host, when}
use callsignet.Config.Roster.{Seen, check_ip, check_peer, check_each}
use callsignet.Policy.Compile.{Tables, add_peers}
use callsignet.Policy.Tables.{after_peer}
use callsignet.Policy.Intent.{services_of}

pub no_problems : (xs ys : List Problem) → xs ++ ys ≡ [] → (xs ≡ []) × (ys ≡ [])
no_problems [] ys h = (refl, h)
no_problems (x ∷ xs) ys h = absurd (ground arith)

pub when-none : (b : Bool) (x : Problem) → when b x ≡ [] → b ≡ false
when-none true x h = absurd (ground arith)
when-none false x h = refl

-- The problems of one round, of which those of a name and of an address are asked for.
round_parts :
    (a b k i e d r s : List Problem)
    → a ++ b ++ k ++ i ++ e ++ d ++ r ++ s ≡ []
    → (b ≡ []) × (i ≡ [])
round_parts [] [] [] [] e d r s h = (refl, refl)
round_parts (x ∷ a) b k i e d r s h = absurd (ground arith)
round_parts [] (x ∷ b) k i e d r s h = absurd (ground arith)
round_parts [] [] (x ∷ k) i e d r s h = absurd (ground arith)
round_parts [] [] [] (x ∷ i) e d r s h = absurd (ground arith)

module _ (h : Host) (c : Config) where
  -- One round that finds nothing.
  pub record Sound (seen : Seen) (p : Peer) (ps : List Peer) : Type 0 where
    pub next : Seen
    pub ids : next.ids ≡ p.peer_id ∷ seen.ids
    pub fresh : contains p.peer_id seen.ids ≡ false
    pub ip : Addr
    pub read : h.parsers.parse_addr p.tunnel_ip ≡ some ip
    pub rest : (check_each h c next ps).1 ≡ []
    pub ended : (check_each h c seen (p ∷ ps)).0.ids ≡ (check_each h c next ps).0.ids

  check_ip-read :
      (cidr : Option Prefix) (ips : List (String × String)) (p : Peer)
      → (check_ip h cidr ips p).1 ≡ []
      → (ip : Addr) × (h.parsers.parse_addr p.tunnel_ip ≡ some ip)
  unfolding check_ip
  check_ip-read cidr ips p e = elim (Option-cases (h.parsers.parse_addr p.tunnel_ip)) [
    | inl bad ↦ absurd (ground arith)
    | inr found ↦ found
  ]

  check_each-cons :
      (seen : Seen) (p : Peer) (ps : List Peer)
      → (check_each h c seen (p ∷ ps)).1 ≡ []
      → Sound seen p ps
  unfolding check_each check_peer
  check_each-cons seen p ps e = elim (Bool-cases (p.peer_id == "")) [
    | inl nameless ↦ absurd (ground arith)
    | inr named ↦
        let round = check_peer h c seen p in
        let both = no_problems round.1 (check_each h c round.0 ps).1 (ground arith) in
        let over : (check_each h c seen (p ∷ ps)).0.ids ≡ (check_each h c round.0 ps).0.ids =
          ground arith in
        let parts = round_parts _ _ _ _ _ _ _ _ both.0 in
        let found = check_ip-read _ _ p parts.1 in
        record {
          next = round.0;
          ids = refl;
          fresh = when-none _ _ parts.0;
          ip = found.0;
          read = found.1;
          rest = both.1;
          ended = over;
        }
  ]

  -- Names that were seen before do not come again.
  services_of-seen :
      (id : String) (seen : Seen) (ps : List Peer)
      → (check_each h c seen ps).1 ≡ []
      → contains id seen.ids ≡ true
      → services_of id ps ≡ none
  unfolding services_of contains
  services_of-seen id seen [] e s = refl
  services_of-seen id seen (p ∷ ps) e s =
      let r = check_each-cons seen p ps e in
      ground (arith, r.ids, r.fresh, services_of-seen id r.next ps r.rest, eq_iff p.peer_id id)

  abbrev pub services_at : Option Peer → Option (List Service)
  services_at none = none
  services_at (some p) = some p.services

  -- The first entry of a name is the last one.
  pub services_of-find_peer :
      (id : String) (seen : Seen) (ps : List Peer)
      → (check_each h c seen ps).1 ≡ []
      → services_of id ps ≡ services_at (find_peer id ps)
  unfolding services_of find_peer contains
  services_of-find_peer id seen [] e = refl
  services_of-find_peer id seen (p ∷ ps) e =
      let r = check_each-cons seen p ps e in
      elim (Bool-cases (p.peer_id == id)) [
        | inl this ↦
            let here = services_of-seen id r.next ps r.rest (ground (arith, r.ids)) in ground arith
        | inr other ↦ ground (arith, services_of-find_peer id r.next ps r.rest)
      ]

  pub add_peers_sound :
      (seen : Seen) (t : Tables) (ps : List Peer)
      → (check_each h c seen ps).1 ≡ []
      → (t' : Tables) × (add_peers h.parsers t ps ≡ ok t')
  unfolding add_peers
  add_peers_sound seen t [] e = (t, refl)
  add_peers_sound seen t (p ∷ ps) e =
      let r = check_each-cons seen p ps e in
      let later = add_peers_sound r.next (after_peer t p r.ip) ps r.rest in
      (later.0, ground (arith, r.read))

  -- The names at the end of the loop.
  pub ids-check_each :
      (id : String) (seen : Seen) (ps : List Peer)
      → (check_each h c seen ps).1 ≡ []
      → contains id (check_each h c seen ps).0.ids ≡ true
      → contains id seen.ids ≡ false
      → (p : Peer) × (find_peer id ps ≡ some p)
  unfolding check_each find_peer contains
  ids-check_each id seen [] e there new = absurd (ground arith)
  ids-check_each id seen (p ∷ ps) e there new =
      let r = check_each-cons seen p ps e in
      elim (Bool-cases (p.peer_id == id)) [
        | inl this ↦ (p, ground arith)
        | inr other ↦
            let later =
              ids-check_each id r.next ps r.rest (ground (arith, r.ended))
                (ground (arith, r.ids)) in
            (later.0, ground (arith, later.1))
      ]

  pub read-find_peer :
      (id : String) (seen : Seen) (ps : List Peer) (p : Peer)
      → (check_each h c seen ps).1 ≡ []
      → find_peer id ps ≡ some p
      → (ip : Addr) × (h.parsers.parse_addr p.tunnel_ip ≡ some ip)
  unfolding find_peer
  read-find_peer id seen [] p e found = absurd (ground arith)
  read-find_peer id seen (q ∷ ps) p e found =
      let r = check_each-cons seen q ps e in
      elim (Bool-cases (q.peer_id == id)) [
        | inl this ↦ (r.ip, ground (arith, r.read))
        | inr other ↦ read-find_peer id r.next ps p r.rest (ground arith)
      ]
