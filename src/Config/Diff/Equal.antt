-- ===== src/Config/Diff/Equal.antt =====
-- The comparisons of internal/config/diff.go: each finds every difference.
use callsignet.Base.{
  true, List, [], ◌∷◌, ℤ, pos, negsuc, int_beq, nat_beq_iff, ◌≡◌, ◌↔◌, eq_iff, list_beq_iff,
  string_key, arith,
}
use callsignet.Config.{Service, Peer, Inbound, Policy, Self}
use callsignet.Config.Diff.{
  same_ints, same_services, same_inbounds, same_policy, same_peer, same_self,
}

pub int_beq_iff : (a b : ℤ) → (int_beq a b ≡ true) ↔ (a ≡ b)
int_beq_iff (pos a) (pos b) = ground (arith, nat_beq_iff a b)
int_beq_iff (negsuc a) (negsuc b) = ground (arith, nat_beq_iff a b)
int_beq_iff (pos _) (negsuc _) = ground arith
int_beq_iff (negsuc _) (pos _) = ground arith

same_ints_iff : (xs ys : List ℤ) → (same_ints xs ys ≡ true) ↔ (xs ≡ ys)
unfolding same_ints
same_ints_iff [] [] = ground arith
same_ints_iff [] (_ ∷ _) = ground arith
same_ints_iff (_ ∷ _) [] = ground arith
same_ints_iff (x ∷ xs) (y ∷ ys) = ground (arith, int_beq_iff x y, same_ints_iff xs ys)

same_services_iff : (xs ys : List Service) → (same_services xs ys ≡ true) ↔ (xs ≡ ys)
unfolding same_services
same_services_iff [] [] = ground arith
same_services_iff [] (_ ∷ _) = ground arith
same_services_iff (_ ∷ _) [] = ground arith
same_services_iff (x ∷ xs) (y ∷ ys) =
    ground (arith, int_beq_iff x.port y.port, eq_iff x.app y.app, same_services_iff xs ys)

same_inbounds_iff : (xs ys : List Inbound) → (same_inbounds xs ys ≡ true) ↔ (xs ≡ ys)
unfolding same_inbounds
same_inbounds_iff [] [] = ground arith
same_inbounds_iff [] (_ ∷ _) = ground arith
same_inbounds_iff (_ ∷ _) [] = ground arith
same_inbounds_iff (x ∷ xs) (y ∷ ys) = ground (
  arith,
  eq_iff x.app y.app,
  eq_iff x.expires y.expires,
  list_beq_iff x.allow y.allow,
  list_beq_iff x.allow_cidr y.allow_cidr,
  same_inbounds_iff xs ys,
)

pub same_policy_iff : (a b : Policy) → (same_policy a b ≡ true) ↔ (a ≡ b)
unfolding same_policy
same_policy_iff a b =
    ground (arith, list_beq_iff a.outbound b.outbound, same_inbounds_iff a.inbound b.inbound)

pub same_peer_iff : (a b : Peer) → a.peer_id ≡ b.peer_id → (same_peer a b ≡ true) ↔ (a ≡ b)
unfolding same_peer
same_peer_iff a b one = ground (
  arith,
  eq_iff a.public_key b.public_key,
  eq_iff a.tunnel_ip b.tunnel_ip,
  list_beq_iff a.endpoints b.endpoints,
  list_beq_iff a.addresses b.addresses,
  same_services_iff a.services b.services,
)

pub same_self_iff : (a b : Self) → (same_self a b ≡ true) ↔ (a ≡ b)
unfolding same_self
same_self_iff a b = ground (
  arith,
  eq_iff a.peer_id b.peer_id,
  eq_iff a.private_key b.private_key,
  eq_iff a.tunnel_cidr b.tunnel_cidr,
  int_beq_iff a.listen_port b.listen_port,
  eq_iff a.tun.name b.tun.name,
  int_beq_iff a.tun.mtu b.tun.mtu,
  eq_iff a.guard.mode b.guard.mode,
  eq_iff a.nat.outgoing b.nat.outgoing,
  eq_iff a.nat.incoming b.nat.incoming,
  eq_iff a.psk.dir b.psk.dir,
  eq_iff a.psk.mode b.psk.mode,
  same_ints_iff a.guard.keep_tcp b.guard.keep_tcp,
  same_ints_iff a.guard.keep_udp b.guard.keep_udp,
)
