-- ===== src/Device/Life.antt =====
-- A run of the device of internal/wgdev/device.go: packets, questions and reloads, one after
-- another.
--
-- A reload is one step: packets between its stores are left out. A batch of packets is one step
-- under one set of rules, with a clock for each packet.
use callsignet.Base.{
  ℕ, ◌≡◌, refl, sym, subst, arith, String, Bool, Option, List, [], ◌∷◌, All, ok, Option-cases, inl,
  inr,
}
use callsignet.Config.{Peer, Config}
use callsignet.Config.Problems.{Host}
use callsignet.Flow.{IsWalk, new_flows, new_conns}
use callsignet.Filter.{Moment, read, write}
use callsignet.Filter.Bounds.{IsBounded, read-IsBounded, write-IsBounded, forget-IsBounded}
use callsignet.Device.Revoke.{reload_device-stores}
use callsignet.Wg.{Line}
use callsignet.Status.{PeerStatus}
use callsignet.Device.{Device, begin, still_allowed, open_device, reload_device, install}
use callsignet.Device.Questions.{endpoint_of}
use callsignet.Device.Settled.{
  IsSettled, IsSettled-again, open_device-begin, reload_device-fails, open_device-IsSettled,
  reload_device-IsSettled,
}

-- What can happen to a device: packets of apps, packets that came in, a question for an address, a
-- change that wg makes itself, and Reload.
pub data Step (S : Type 0) : Type 0 where
  reads : (ℕ → Moment) → List (List ℕ) → Step S
  writes : (ℕ → Moment) → List (List ℕ) → Step S
  asks : ℕ → Option (List String) → String → Step S
  wg_moves : S → Step S
  reloads : (Device S → Moment) → Config → Step S

-- A walk gives each entry once.
abbrev pub IsFair : {S : Type 0} → Step S → Type 0
IsFair (reads ms bufs) = (i : ℕ) → IsWalk (ms i).walk
IsFair (writes ms bufs) = (i : ℕ) → IsWalk (ms i).walk
IsFair _ = Unit

module _ {S : Type 0} (set : List Line → S → S × Bool) (h : Host) (hex : List ℕ → String)
    (sort : List String → List String) (parse : List String → List (String × PeerStatus)) where
  -- The filter takes the rules of the device.
  abbrev at : (ℕ → Moment) → Device S → ℕ → Moment
  at ms d i = record (ms i) { rules = d.rules }

  unfoldable pub step : Device S → Step S → Device S
  step d (reads ms bufs) = record d { flt = (read (at ms d) d.flt bufs).0 }
  step d (writes ms bufs) = record d { flt = (write (at ms d) d.flt bufs).0 }
  step d (asks now state id) = record d { eps = (endpoint_of parse now state d.snap d.eps id).0 }
  step d (wg_moves wg) = record d { wg = wg }
  step d (reloads ask c) = (reload_device set h hex sort ask d c).0

  unfoldable pub run : Device S → List (Step S) → Device S
  run d [] = d
  run d (s ∷ ss) = run (step d s) ss

  abbrev Inv : Device S → Type 0
  Inv d = IsSettled h hex d × IsBounded d.flt

  reload_device-IsBounded :
      (ask : Device S → Moment) (d : Device S) (c : Config)
      → IsBounded d.flt
      → IsBounded (reload_device set h hex sort ask d c).0.flt
  unfolding install
  reload_device-IsBounded ask d c b = elim (Option-cases (reload_device set h hex sort ask d c).1) [
    | inr (x, failed) ↦
        subst (λ (y : Device S). IsBounded y.flt)
          (sym (reload_device-fails set h hex sort ask d c failed).0) b
    | inl done ↦
        let (wg, snap, lines, rules, e, stores) =
          reload_device-stores set h hex sort ask d c done in
        let d' = record d { wg = wg; rules = rules; known = snap.known; snap = snap } in
        let keep = still_allowed (record (ask d') { rules = rules }) in
        subst (λ (y : Device S). IsBounded y.flt) (sym stores) (forget-IsBounded d.flt keep b)
  ]

  step-Inv : (d : Device S) (s : Step S) → IsFair s → Inv d → Inv (step d s)
  unfolding step
  step-Inv d (reads ms bufs) w (i, b) =
      (IsSettled-again i refl refl refl, read-IsBounded (at ms d) w d.flt bufs b)
  step-Inv d (writes ms bufs) w (i, b) =
      (IsSettled-again i refl refl refl, write-IsBounded (at ms d) w d.flt bufs b)
  step-Inv d (asks now state id) w (i, b) = (IsSettled-again i refl refl refl, b)
  step-Inv d (wg_moves wg) w (i, b) = (IsSettled-again i refl refl refl, b)
  step-Inv d (reloads ask c) w (i, b) =
      (reload_device-IsSettled set h hex sort ask d c i, reload_device-IsBounded ask d c b)

  run-Inv : (d : Device S) (ss : List (Step S)) → All IsFair ss → Inv d → Inv (run d ss)
  unfolding run
  run-Inv d [] w i = i
  run-Inv d (s ∷ ss) (w, ws) i = run-Inv (step d s) ss ws (step-Inv d s w i)

  -- In every run of a device that Open returned, with walks that give each entry once: the rules
  -- that judge packets, the prepared values and the addresses that the socket knows are all made
  -- from one configuration, and neither memory of connections holds more than its bound.
  pub run-open_device :
      (fresh : Option S) (up : S → Bool) (link : Peer → Config → Bool) (c : Config) {d : Device S}
      (ss : List (Step S))
      → open_device set h hex sort fresh up link c ≡ ok d
      → All IsFair ss
      → IsSettled h hex (run d ss) × IsBounded (run d ss).flt
  unfolding new_flows new_conns
  run-open_device fresh up link c {d} ss opened fair =
      let begun = (open_device-begin set h hex sort fresh up link c opened).2 in
      let empty : IsBounded (begin c d.snap d.rules d.wg).flt = record {
        flows_max = refl;
        flows_bound = omega arith;
        conns_max = refl;
        conns_bound = omega arith;
      } in
      run-Inv d ss fair (
        open_device-IsSettled set h hex sort fresh up link c opened,
        subst (λ (y : Device S). IsBounded y.flt) (sym begun) empty,
      )
