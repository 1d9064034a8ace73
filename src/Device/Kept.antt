-- ===== src/Device/Kept.antt =====
-- Reload of internal/wgdev/device.go: which packets pass after it, against the policy.toml that it
-- took.
use callsignet.Base.{
  ℕ, ◌≡◌, sym, ap, ◌∙◌, arith, String, Bool, true, not, ◌||◌, none, some, List, ok,
}
use callsignet.Net.{Addr}
use callsignet.Config.{Parsers, Config}
use callsignet.Config.Problems.{Host}
use callsignet.Packet.{Packet, parse}
use callsignet.Policy.{peer_of}
use callsignet.Policy.Compile.{new}
use callsignet.Policy.Intent.{for_some, owner_of}
use callsignet.Flow.{FlowKey, key_of, reverse}
use callsignet.Filter.{Moment, allow_out, allow_in}
use callsignet.Filter.Intent.{
  lets_from, lets_to, owner_built, inbound-lets_from, outbound-lets_to, decide_in-lets_from,
  decide_out-lets_to,
}
use callsignet.Wg.{Line}
use callsignet.Device.{Device, still_allowed, reload_device}
use callsignet.Device.Revoke.{asked, reload_device-still_allowed}
use callsignet.Device.Settled.{reload_device-settles}

module _ (P : Parsers) (c : Config) (m : Moment) where
  -- Whether policy.toml allows a connection that is held. One that comes from the tunnel address of
  -- a peer of peers.toml, which this machine is too, is read as one that comes in; any other that
  -- goes to such an address as one that goes out.
  abbrev pub lets_stay : Addr → Addr → ℕ → ℕ → Bool
  lets_stay src dst proto port = elim (owner_of P src c.peers) [
    | some _ ↦ lets_from P c m src proto port
    | none ↦ for_some (owner_of P dst c.peers) (λ _. lets_to P c m dst proto port)
  ]

  still_allowed-lets_stay :
      (k : FlowKey)
      → new P c ≡ ok m.rules
      → still_allowed m k ≡ lets_stay k.src k.dst k.proto k.dport
  unfolding still_allowed peer_of
  still_allowed-lets_stay k built = ground (
    arith,
    owner_built P c m built k.src,
    owner_built P c m built k.dst,
    inbound-lets_from P c m built k.src k.proto k.dport,
    outbound-lets_to P c m built k.dst k.proto k.dport,
  )

module _ {S : Type 0} (set : List Line → S → S × Bool) (h : Host) (hex : List ℕ → String)
    (sort : List String → List String) (ask : Device S → Moment) where
  -- After a Reload of a configuration without an error, with no packet between, and under the rules
  -- that it stored: a packet of either direction passes only if policy.toml of that configuration
  -- lets it in, or out, or if it answers a connection that this policy.toml allowed at the time of
  -- the Reload, read as one that comes in where its source is the tunnel address of a peer in
  -- peers.toml, this machine included, and otherwise as one that goes out to such an address.
  pub reload_device-passes :
      (d : Device S) (c : Config) (m : Moment) (pkt : List ℕ) (p : Packet)
      → (reload_device set h hex sort ask d c).1 ≡ none
      → m.rules ≡ (reload_device set h hex sort ask d c).0.rules
      → parse pkt ≡ some p
      → let d' = (reload_device set h hex sort ask d c).0 in
        let then' = asked set h hex sort ask d d' in
        let stays = lets_stay h.parsers c then' p.dst p.src p.proto p.src_port in
        ((not (allow_in m d'.flt pkt).1
            || (lets_from h.parsers c m p.src p.proto p.dst_port || stays))
          ≡ true)
        × ((not (allow_out m d'.flt pkt).1.1
              || (lets_to h.parsers c m p.dst p.proto p.dst_port || stays))
            ≡ true)
  reload_device-passes d c m pkt p done fresh read =
      let d' = (reload_device set h hex sort ask d c).0 in
      let (same, settled) = reload_device-settles set h hex sort ask d c done in
      let built : new h.parsers c ≡ ok d'.rules =
        ap (new h.parsers) (sym same) ∙ settled.rules_made in
      let built' : new h.parsers c ≡ ok m.rules = built ∙ ap ok (sym fresh) in
      let (inner, outer) = reload_device-still_allowed set h hex sort ask d c m pkt p done read in
      let stays =
        still_allowed-lets_stay h.parsers c (asked set h hex sort ask d d') (reverse (key_of p))
          built in
      (
        ground (arith, inner, stays, decide_in-lets_from h.parsers c m built' p),
        ground (arith, outer, stays, decide_out-lets_to h.parsers c m built' p),
      )
