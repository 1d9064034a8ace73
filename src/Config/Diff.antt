-- ===== src/Config/Diff.antt =====
-- internal/config/diff.go: what a new configuration changes in the one that is in force.
--
-- sort.Strings is the parameter `sort`. The secrets stand in the configurations as they were read.
pub mod Equal
pub mod Walk
pub mod Report
pub mod Nothing
use callsignet.Base.{
  ℕ, String, Bool, true, false, not, ◌&&◌, ◌||◌, Option, none, some, List, [], ◌∷◌, ◌++◌, ℤ,
  int_beq, ◌==◌, string_key, contains, is_empty, find, put, value_or, list_beq, if◌then◌else◌,
}
use callsignet.Config.{Tun, NatSettings, PskSettings, Self, Service, Peer, Inbound, Policy, Config}

pub record Changes : Type 0 where
  pub added_peers : List String
  pub removed_peers : List String
  pub changed_peers : List String
  pub policy_changed : Bool
  pub self_changed : Bool
  pub self_peer_changed : Bool
  pub psk_peers : List String

-- `c.Any()`.
unfoldable pub any_change : Changes → Bool
any_change c =
    not (is_empty c.added_peers)
    || not (is_empty c.removed_peers)
    || not (is_empty c.changed_peers)
    || not (is_empty c.psk_peers)
    || c.policy_changed
    || c.self_changed
    || c.self_peer_changed

abbrev pub same_strings : List String → List String → Bool
same_strings = list_beq

unfoldable pub same_ints : List ℤ → List ℤ → Bool
same_ints [] [] = true
same_ints [] (_ ∷ _) = false
same_ints (_ ∷ _) [] = false
same_ints (a ∷ as') (b ∷ bs) = int_beq a b && same_ints as' bs

-- `==` on structs.
abbrev pub same_tun : Tun → Tun → Bool
same_tun a b = a.name == b.name && int_beq a.mtu b.mtu

abbrev pub same_nat : NatSettings → NatSettings → Bool
same_nat a b = a.outgoing == b.outgoing && a.incoming == b.incoming

abbrev pub same_psk : PskSettings → PskSettings → Bool
same_psk a b = a.dir == b.dir && a.mode == b.mode

unfoldable pub same_self : Self → Self → Bool
same_self a b =
    if not (a.peer_id == b.peer_id)
      || not (a.private_key == b.private_key)
      || not (a.tunnel_cidr == b.tunnel_cidr)
      || not (int_beq a.listen_port b.listen_port)
      || not (same_tun a.tun b.tun)
      || not (a.guard.mode == b.guard.mode)
      || not (same_nat a.nat b.nat)
      || not (same_psk a.psk b.psk)
    then false
    else same_ints a.guard.keep_tcp b.guard.keep_tcp && same_ints a.guard.keep_udp b.guard.keep_udp

unfoldable pub same_services : List Service → List Service → Bool
same_services [] [] = true
same_services [] (_ ∷ _) = false
same_services (_ ∷ _) [] = false
same_services (a ∷ as') (b ∷ bs) = (a.app == b.app && int_beq a.port b.port) && same_services as' bs

unfoldable pub same_peer : Peer → Peer → Bool
same_peer a b =
    if not (a.public_key == b.public_key) || not (a.tunnel_ip == b.tunnel_ip)
    then false
    else if not (same_strings a.endpoints b.endpoints) || not (same_strings a.addresses b.addresses)
    then false
    else same_services a.services b.services

unfoldable pub same_inbounds : List Inbound → List Inbound → Bool
same_inbounds [] [] = true
same_inbounds [] (_ ∷ _) = false
same_inbounds (_ ∷ _) [] = false
same_inbounds (x ∷ xs) (y ∷ ys) =
    if not (x.app == y.app) || not (x.expires == y.expires)
    then false
    else if not (same_strings x.allow y.allow) || not (same_strings x.allow_cidr y.allow_cidr)
    then false
    else same_inbounds xs ys

unfoldable pub same_policy : Policy → Policy → Bool
same_policy a b =
    if not (same_strings a.outbound b.outbound) then false else same_inbounds a.inbound b.inbound

unfoldable pub by_id : List (String × Peer) → List Peer → List (String × Peer)
by_id m [] = m
by_id m (p ∷ ps) = by_id (put p.peer_id p m) ps

-- One round of the inner loop of changedPSK: the names seen, and the names put out.
unfoldable pub psk_round :
    List (String × String)
    → List (String × String)
    → List String × List String
    → String
    → List String × List String
psk_round a b (seen, out) id =
    let changed = not (value_or "" (find id a) == value_or "" (find id b)) in
    if contains id seen then (seen, out) else (id ∷ seen, if changed then out ++ id ∷ [] else out)

unfoldable pub psk_walk :
    List (String × String)
    → List (String × String)
    → List String × List String
    → List (String × String)
    → List String × List String
psk_walk a b state [] = state
psk_walk a b state ((id, _) ∷ m) = psk_walk a b (psk_round a b state id) m

-- The loop over the peers that were.
unfoldable pub removed_from :
    List (String × Peer) → List String → List (String × Peer) → List String
removed_from cur out [] = out
removed_from cur out ((id, _) ∷ m) = elim (find id cur) [
  | none ↦ removed_from cur (out ++ id ∷ []) m
  | some _ ↦ removed_from cur out m
]

-- One round of the loop over the peers that are.
unfoldable pub diff_peer : List (String × Peer) → String → Changes → String → Peer → Changes
diff_peer old self_id c id p = elim (find id old) [
  | none ↦ record c { added_peers = c.added_peers ++ id ∷ [] }
  | some o ↦
      if same_peer o p
      then c
      else if id == self_id
          && (not (o.public_key == p.public_key) || not (o.tunnel_ip == p.tunnel_ip))
      then record c { self_peer_changed = true }
      else record c { changed_peers = c.changed_peers ++ id ∷ [] }
]

unfoldable pub diff_peers : List (String × Peer) → String → Changes → List (String × Peer) → Changes
diff_peers old self_id c [] = c
diff_peers old self_id c ((id, p) ∷ m) = diff_peers old self_id (diff_peer old self_id c id p) m

module _ (sort : List String → List String) where
  unfoldable pub changed_psk : Config → Config → List String
  changed_psk old cur =
      let a = old.secrets.psk in
      let b = cur.secrets.psk in sort (psk_walk a b (psk_walk a b ([], []) a) b).1

  -- Diff before its loop over the peers that are.
  abbrev pub diff_start : Config → Config → Changes
  diff_start old cur = record {
    added_peers = [];
    removed_peers = removed_from (by_id [] cur.peers) [] (by_id [] old.peers);
    changed_peers = [];
    policy_changed = not (same_policy old.policy cur.policy);
    self_changed = not (same_self old.self cur.self);
    self_peer_changed = false;
    psk_peers = changed_psk old cur;
  }

  unfoldable pub diff : Config → Config → Changes
  diff old cur =
      let old_by_id = by_id [] old.peers in
      let cur_by_id = by_id [] cur.peers in
      let c = diff_peers old_by_id cur.self.peer_id (diff_start old cur) cur_by_id in
      record c {
        added_peers = sort c.added_peers;
        removed_peers = sort c.removed_peers;
        changed_peers = sort c.changed_peers;
      }
