-- ===== src/Device/Settled.antt =====
-- Open and Reload of internal/wgdev/device.go: the parts of a device that belong together, and
-- what a Reload that fails leaves.
use callsignet.Base.{
  ℕ, string_key, ◌≡◌, ◌⊎◌, ◌∙◌, refl, sym, ap, subst, arith, String, Bool, Option, none, some, List,
  [], ◌∷◌, ok, Option-cases, Bool-cases, inl, inr, Result-cases,
}
use callsignet.Config.{Peer, Config, find_peer}
use callsignet.Config.Problems.{Host}
use callsignet.Policy.{Rules}
use callsignet.Policy.Compile.{new}
use callsignet.Filter.{Moment}
use callsignet.Secrets.Psk.{psks}
use callsignet.Wg.{Line, uapi_config, uapi_reload}
use callsignet.Device.{
  DeviceError, set_refused, Device, Snapshot, add_peer, add_snapshot, new_snapshot, prepare,
  install, send, private_of, begin, start, open_device, reload_device,
}
use callsignet.Device.Revoke.{reload_device-stores}

-- The rules that judge packets, the prepared values and the addresses that the socket knows are all
-- made from one configuration.
pub record IsSettled (h : Host) (hex : List ℕ → String) {S : Type 0} (d : Device S) : Type 0 where
  pub rules_made : new h.parsers d.snap.cfg ≡ ok d.rules
  pub snap_made : new_snapshot h hex d.snap.cfg ≡ ok d.snap
  pub known_made : d.known ≡ d.snap.known

add_snapshot-cfg :
    (h : Host) (hex : List ℕ → String) (self_id : String) (s : Snapshot) (ps : List Peer)
    → (add_snapshot h hex self_id s ps).cfg ≡ s.cfg
unfolding add_snapshot add_peer
add_snapshot-cfg h hex self_id s [] = refl
add_snapshot-cfg h hex self_id s (p ∷ ps) =
    add_snapshot-cfg h hex self_id (add_peer h hex self_id s p) ps ∙ ground arith

new_snapshot-cfg :
    (h : Host) (hex : List ℕ → String) (c : Config) {snap : Snapshot}
    → new_snapshot h hex c ≡ ok snap
    → snap.cfg ≡ c
unfolding new_snapshot
new_snapshot-cfg h hex c made = elim (Result-cases (psks c)) [
  | inl (psk, read) ↦ ground (
    arith,
    add_snapshot-cfg h hex c.self.peer_id (record { cfg = c; pub_of = []; known = []; psk = psk })
        c.peers,
  )
  | inr (x, bad) ↦ absurd (ground arith)
]

-- The parts stay together where none of them changes.
pub IsSettled-again :
    {h : Host} {hex : List ℕ → String} {S : Type 0} {d d' : Device S}
    → IsSettled h hex d
    → d'.rules ≡ d.rules
    → d'.snap ≡ d.snap
    → d'.known ≡ d.known
    → IsSettled h hex d'
IsSettled-again {h} {hex} {S} {d} {d'} i same_rules same_snap same_known = record {
  rules_made = rw (same_rules, same_snap) i.rules_made;
  snap_made = rw same_snap i.snap_made;
  known_made = rw (same_known, same_snap) i.known_made;
}

module _ {S : Type 0} (set : List Line → S → S × Bool) (h : Host) (hex : List ℕ → String)
    (sort : List String → List String) where
  -- What the prepared values are made of.
  prepare-made :
      (d : Device S) (c : Config) {snap : Snapshot} {lines : List Line} {rules : Rules}
      → prepare set h hex sort d c ≡ ok (snap, lines, rules)
      → (new_snapshot h hex c ≡ ok snap) × (new h.parsers c ≡ ok rules)
  unfolding prepare
  prepare-made d c e = elim (Result-cases (new_snapshot h hex c)) [
    | inr (x, bad) ↦ absurd (ground arith)
    | inl (s, made) ↦ elim (Result-cases (uapi_reload h hex sort d.snap.cfg c d.snap.psk s.psk)) [
      | inr (x, bad) ↦ absurd (ground arith)
      | inl (ls, written) ↦ elim (Result-cases (new h.parsers c)) [
        | inr (x, bad) ↦ absurd (ground arith)
        | inl (r, built) ↦ ground (arith, made, written, built)
      ]
    ]
  ]

  -- What a start that succeeds leaves.
  pub start-begin :
      (fresh : Option S) (up : S → Bool) (link : Peer → Config → Bool) (c : Config) (self : Peer)
      (snap : Snapshot) (lines : List Line) (rules : Rules) {d : Device S}
      → start set h hex sort fresh up link c self (snap, lines, rules) ≡ ok d
      → d ≡ begin c snap rules d.wg
  unfolding start
  start-begin none up link c self snap lines rules opened = absurd (ground arith)
  start-begin (some wg₀) up link c self snap lines rules opened =
      elim (Bool-cases (set lines wg₀).1) [
        | inl taken ↦ ground (arith, taken)
        | inr refused ↦ absurd (ground arith)
      ]

  -- What an Open that succeeds leaves.
  pub open_device-begin :
      (fresh : Option S) (up : S → Bool) (link : Peer → Config → Bool) (c : Config) {d : Device S}
      → open_device set h hex sort fresh up link c ≡ ok d
      → (new_snapshot h hex c ≡ ok d.snap)
        × (new h.parsers c ≡ ok d.rules)
        × (d ≡ begin c d.snap d.rules d.wg)
  unfolding open_device
  open_device-begin fresh up link c {d} opened =
      elim (Option-cases (find_peer c.self.peer_id c.peers)) [
        | inl missing ↦ absurd (ground arith)
        | inr (self, listed) ↦ elim (Result-cases (private_of c)) [
          | inr (x, bad) ↦ absurd (ground (arith, listed))
          | inl (key, read) ↦ elim (Result-cases (new_snapshot h hex c)) [
            | inr (x, bad) ↦ absurd (ground (arith, listed, read))
            | inl (snap, made) ↦ elim (Result-cases (uapi_config h hex c key snap.psk)) [
              | inr (x, bad) ↦ absurd (ground (arith, listed, read, made))
              | inl (lines, written) ↦ elim (Result-cases (new h.parsers c)) [
                | inr (x, bad) ↦ absurd (ground (arith, listed, read, made, written))
                | inl (rules, built) ↦
                    let begun =
                      start-begin fresh up link c self snap lines rules {d = d}
                        (ground (arith, listed, read, made, written, built)) in
                    ground (arith, begun, made, built)
              ]
            ]
          ]
        ]
      ]

  -- Open makes all parts from its configuration.
  pub open_device-IsSettled :
      (fresh : Option S) (up : S → Bool) (link : Peer → Config → Bool) (c : Config) {d : Device S}
      → open_device set h hex sort fresh up link c ≡ ok d
      → IsSettled h hex d
  open_device-IsSettled fresh up link c {d} opened =
      let (snapped, built, begun) = open_device-begin fresh up link c opened in
      let same = new_snapshot-cfg h hex c snapped in
      record {
        rules_made = ap (new h.parsers) same ∙ built;
        snap_made = ap (new_snapshot h hex) same ∙ snapped;
        known_made = ap (λ (x : Device S). x.known) begun;
      }

  -- A Reload that returns an error leaves the filter and its memories, the rules, the prepared
  -- values and the socket as they were; and wg too, unless the error is that wg refused its
  -- orders.
  pub reload_device-fails :
      (ask : Device S → Moment) (d : Device S) (c : Config) {e : DeviceError}
      → (reload_device set h hex sort ask d c).1 ≡ some e
      → ((reload_device set h hex sort ask d c).0
          ≡ record d { wg = (reload_device set h hex sort ask d c).0.wg })
        × ((e ≡ set_refused) ⊎ ((reload_device set h hex sort ask d c).0 ≡ d))
  unfolding reload_device
  reload_device-fails ask d c failed = elim (Result-cases (prepare set h hex sort d c)) [
    | inr (x, bad) ↦ (ground (arith, bad), inr (ground (arith, bad)))
    | inl ((snap, lines, rules), made) ↦ elim (Bool-cases (send set h hex sort lines d.wg).1) [
      | inl taken ↦ absurd (ground (arith, made))
      | inr refused ↦ (ground (arith, made), inl (ground (arith, made)))
    ]
  ]

  -- A Reload without an error makes all parts from its configuration.
  pub reload_device-settles :
      (ask : Device S → Moment) (d : Device S) (c : Config)
      → (reload_device set h hex sort ask d c).1 ≡ none
      → ((reload_device set h hex sort ask d c).0.snap.cfg ≡ c)
        × IsSettled h hex (reload_device set h hex sort ask d c).0
  unfolding install
  reload_device-settles ask d c done =
      let (wg, snap, lines, rules, e, stores) = reload_device-stores set h hex sort ask d c done in
      let (snapped, built) = prepare-made d c e in
      let same = new_snapshot-cfg h hex c snapped in
      subst (λ (x : Device S). (x.snap.cfg ≡ c) × IsSettled h hex x) (sym stores)
        (
          same,
          record {
            rules_made = ap (new h.parsers) same ∙ built;
            snap_made = ap (new_snapshot h hex) same ∙ snapped;
            known_made = refl;
          },
        )

  -- Reload keeps the parts together, whether it returns an error or not.
  pub reload_device-IsSettled :
      (ask : Device S → Moment) (d : Device S) (c : Config)
      → IsSettled h hex d
      → IsSettled h hex (reload_device set h hex sort ask d c).0
  reload_device-IsSettled ask d c settled =
      elim (Option-cases (reload_device set h hex sort ask d c).1) [
        | inl done ↦ (reload_device-settles ask d c done).1
        | inr (x, failed) ↦
            subst (IsSettled h hex) (sym (reload_device-fails ask d c failed).0) (record {
              rules_made = settled.rules_made;
              snap_made = settled.snap_made;
              known_made = settled.known_made;
            })
      ]
