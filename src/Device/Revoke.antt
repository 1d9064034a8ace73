-- ===== src/Device/Revoke.antt =====
-- Reload of internal/wgdev/device.go: which packets pass after it.
use callsignet.Base.{
  ℕ, ◌≡◌, ◌∙◌, sym, ap, arith, String, Bool, true, false, not, ◌||◌, none, some, List, [], ◌∷◌, any,
  find, ◌==◌, ok, Option-cases, Bool-cases, inl, inr, Result-cases,
}
use callsignet.Config.{Config}
use callsignet.Config.Problems.{Host}
use callsignet.Policy.{Rules}
use callsignet.Packet.{Packet, parse}
use callsignet.Flow.{
  FlowKey, FlowState, Flows, Seen, flow_as_key, key_of, reverse, forget, is_reply,
}
use callsignet.Flow.Forget.{revoked, forget_lem}
use callsignet.Filter.{Moment, decide_out, decide_in, allow_out, allow_in}
use callsignet.Filter.Allowed.{allow_out-decide_out, allow_in-decide_in}
use callsignet.Wg.{Line}
use callsignet.Device.{Device, Snapshot, still_allowed, prepare, install, send, reload_device}

-- An allowed entry that is found is none of those that `keep` refuses.
find-kept :
    (keep : FlowKey → Bool) (k : FlowKey) (m : Seen) (e : FlowState)
    → any (revoked keep) m ≡ false
    → find k m ≡ some e
    → e.allowed ≡ true
    → keep k ≡ true
unfolding find
find-kept keep k [] e none_left found allowed = absurd (ground arith)
find-kept keep k ((j, x) ∷ m) e none_left found allowed = elim (Bool-cases (j == k)) [
  | inl same ↦ ground (arith, flow_as_key.test_iff j k)
  | inr other ↦ find-kept keep k m e (ground arith) (ground arith) allowed
]

-- No reply passes by an entry that Forget was to delete.
pub is_reply-forget :
    (walk : Seen → Seen) (f : Flows) (keep : FlowKey → Bool) (now : ℕ) (k : FlowKey)
    → (is_reply walk (forget f keep).0 now k).1 ≡ true
    → keep (reverse k) ≡ true
unfolding is_reply
is_reply-forget walk f keep now k passes =
    elim (Option-cases (find (reverse k) (forget f keep).0.seen)) [
      | inl missing ↦ absurd (ground arith)
      | inr (e, found) ↦
          find-kept keep (reverse k) (forget f keep).0.seen e (forget_lem f keep).0 found
            (ground arith)
    ]

module _ {S : Type 0} (set : List Line → S → S × Bool) (h : Host) (hex : List ℕ → String)
    (sort : List String → List String) (ask : Device S → Moment) where
  -- What Reload asks about the connections that it holds: the device has all but the memory of
  -- them.
  abbrev pub asked : Device S → Device S → Moment
  asked d d' = record (ask (record d' { flt = d.flt })) { rules = d'.rules }

  -- A call without an error ends in the stores.
  pub reload_device-stores :
      (d : Device S) (c : Config)
      → (reload_device set h hex sort ask d c).1 ≡ none
      → (wg : S) × (snap : Snapshot) × (lines : List Line) × (rules : Rules) × (prepare set h hex
            sort d c
          ≡ ok (snap, lines, rules))
        × ((reload_device set h hex sort ask d c).0
            ≡ install set h hex sort ask (record d { wg = wg }) snap rules)
  unfolding reload_device
  reload_device-stores d c done = elim (Result-cases (prepare set h hex sort d c)) [
    | inl ((snap, lines, rules), e) ↦ elim (Bool-cases (send set h hex sort lines d.wg).1) [
      | inl taken ↦
          ((send set h hex sort lines d.wg).0, snap, lines, rules, e, ground (arith, e, taken))
      | inr refused ↦ absurd (ground arith)
    ]
    | inr (x, e) ↦ absurd (ground arith)
  ]

  -- A connection's reply passes after Reload only if the new rules allow that connection.
  reload_device-replies :
      (d : Device S) (c : Config) (walk : Seen → Seen) (now : ℕ) (k : FlowKey)
      → (reload_device set h hex sort ask d c).1 ≡ none
      → (is_reply walk (reload_device set h hex sort ask d c).0.flt.conns now k).1 ≡ true
      → still_allowed (asked d (reload_device set h hex sort ask d c).0) (reverse k) ≡ true
  unfolding install
  reload_device-replies d c walk now k done passes =
      let (wg, snap, lines, rules, e, stores) = reload_device-stores d c done in
      let d' = record d { wg = wg; rules = rules; known = snap.known; snap = snap } in
      let keep = still_allowed (record (ask d') { rules = rules }) in
      ap (λ (x : Device S). still_allowed (asked d x) (reverse k)) stores
      ∙ is_reply-forget walk d.flt.conns keep now k
          (sym (ap (λ (x : Device S). (is_reply walk x.flt.conns now k).1) stores) ∙ passes)

  -- After a Reload without an error, with no packet between, what passes has the decision of the
  -- rules that judge it, or answers a connection for which stillAllowed says yes.
  pub reload_device-still_allowed :
      (d : Device S) (c : Config) (m : Moment) (pkt : List ℕ) (p : Packet)
      → (reload_device set h hex sort ask d c).1 ≡ none
      → parse pkt ≡ some p
      → let d' = (reload_device set h hex sort ask d c).0 in
        let answers = still_allowed (asked d d') (reverse (key_of p)) in
        ((not (allow_in m d'.flt pkt).1 || ((decide_in m p).allow || answers)) ≡ true)
        × ((not (allow_out m d'.flt pkt).1.1 || ((decide_out m p).allow || answers)) ≡ true)
  reload_device-still_allowed d c m pkt p done read =
      let d' = (reload_device set h hex sort ask d c).0 in
      let replies = reload_device-replies d c m.walk m.now (key_of p) done in
      (
        ground (arith, allow_in-decide_in m d'.flt pkt, replies),
        ground (arith, allow_out-decide_out m d'.flt pkt, replies),
      )
