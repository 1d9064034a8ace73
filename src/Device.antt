-- ===== src/Device.antt =====
-- internal/wgdev/device.go: the state of csa's wg device, Open and Reload.
--
-- `S` is the state of wg, which `set` configures. It is a parameter, and so are the reading of the
-- clock and the sort of names. A map into bool is the list of its keys.
pub mod Revoke
pub mod Kept
pub mod Settled
pub mod Life
pub mod Questions
pub mod Fresh
use callsignet.Base.{
  ℕ, ◌+◌, ◌%◌, ℤ, to_uint16, String, Bool, true, false, not, ◌&&◌, ◌||◌, Option, none, some, List,
  [], ◌∷◌, ◌++◌, ltb, ◌==◌, nat_key, string_key, contains, is_empty, find, put, value_or,
  if◌then◌else◌, Result, ok, err, ◌>>=◌,
}
use callsignet.Net.{Addr, invalid}
use callsignet.Config.{Peer, Config, find_peer, tun_mtu}
use callsignet.Config.Problems.{Host}
use callsignet.Packet.{proto_tcp, proto_udp}
use callsignet.Policy.{
  Rules, inbound, inbound_icmp, outbound, outbound_icmp, needs_source, needs_source_icmp, peer_of,
}
use callsignet.Policy.Compile.{new, NewError}
use callsignet.Flow.{FlowKey, new_flows, new_conns, log_ttl, log_max, conn_max, forget}
use callsignet.Filter.{Filter, Moment, observed_addr}
use callsignet.Secrets.Psk.{psks}
use callsignet.Wg.{Line, WgError, key_to_hex, uapi_config, uapi_reload}

pub data DeviceError : Type 0 where
  psk_unreadable : String → DeviceError
  wg_bad : WgError → DeviceError
  rules_bad : NewError → DeviceError
  set_refused : DeviceError
  not_in_peers : String → DeviceError
  private_unreadable : String → DeviceError
  tun_refused : DeviceError
  up_refused : DeviceError
  link_refused : DeviceError

pub record Snapshot : Type 0 where
  pub cfg : Config
  pub pub_of : List (String × String)
  pub known : List String
  pub psk : List (String × String)

-- The memory of the addresses that wg was asked for.
pub record Endpoints : Type 0 where
  pub at : ℕ
  pub by_id : List (String × String)

-- `known` is the map of the UDP socket, which setKnown writes.
pub record Device (S : Type 0) : Type 0 where
  pub flt : Filter
  pub rules : Rules
  pub known : List String
  pub wg : S
  pub snap : Snapshot
  pub eps : Endpoints

abbrev pub wrap_psk :
    Result String (List (String × String)) → Result DeviceError (List (String × String))
wrap_psk (ok psk) = ok psk
wrap_psk (err e) = err (psk_unreadable e)

module _ (h : Host) (hex : List ℕ → String) where
  -- A round of the loop of newSnapshot.
  unfoldable pub add_peer : String → Snapshot → Peer → Snapshot
  add_peer self_id s p =
      let keyed : List (String × String) = elim (key_to_hex h hex p.public_key) [
        | none ↦ s.pub_of
        | some k ↦ put p.peer_id k s.pub_of
      ] in
      let next : Snapshot = record s { pub_of = keyed; known = s.known ++ p.endpoints } in
      if p.peer_id == self_id then s else next

  unfoldable pub add_snapshot : String → Snapshot → List Peer → Snapshot
  add_snapshot self_id s [] = s
  add_snapshot self_id s (p ∷ ps) = add_snapshot self_id (add_peer self_id s p) ps

  unfoldable pub new_snapshot : Config → Result DeviceError Snapshot
  new_snapshot c = do
    psk ← wrap_psk (psks c)
    ok (
        add_snapshot c.self.peer_id (record { cfg = c; pub_of = []; known = []; psk = psk })
          c.peers)

-- `hasPorts` of stillAllowed.
abbrev pub carries_port : FlowKey → Bool
carries_port k = k.proto == proto_tcp || k.proto == proto_udp

-- The moment holds the rules that are asked.
unfoldable pub still_allowed : Moment → FlowKey → Bool
still_allowed m k =
    let r = m.rules in
    let asks =
      carries_port k && needs_source r k.dport || not (carries_port k) && needs_source_icmp r in
    let from = if asks then observed_addr m k.src else invalid in
    elim (peer_of r k.src) [
      | some _ ↦
          if carries_port k
          then (inbound m.now r k.src k.dport from).allow
          else (inbound_icmp m.now r k.src from).allow
      | none ↦ elim (peer_of r k.dst) [
        | some _ ↦
            if carries_port k
            then (outbound r k.dst k.dport).allow
            else (outbound_icmp r k.dst).allow
        | none ↦ false
      ]
    ]

abbrev wrap_wg : Result WgError (List Line) → Result DeviceError (List Line)
wrap_wg (ok lines) = ok lines
wrap_wg (err e) = err (wg_bad e)

abbrev wrap_new : Result NewError Rules → Result DeviceError Rules
wrap_new (ok r) = ok r
wrap_new (err e) = err (rules_bad e)

-- A call's result: what the device is, and its error.
abbrev Outcome : Type 0 → Type 0
Outcome S = Device S × Option DeviceError

-- `Secrets().Private`, or the error of reading it.
abbrev pub private_of : Config → Result DeviceError String
private_of c = elim c.secrets.private_err [
  | some e ↦ err (private_unreadable e)
  | none ↦ ok c.secrets.private
]

-- `uint16(mtu - 40)`.
abbrev pub mss_limit : ℤ → ℕ
mss_limit mtu = (to_uint16 mtu + 65496) % 65536

-- The device that Open returns; wg was not asked for addresses before, which is the time 0.
abbrev pub begin : {S : Type 0} → Config → Snapshot → Rules → S → Device S
begin c snap rules wg = record {
  flt = record {
    flows = new_flows log_ttl log_max;
    conns = new_conns conn_max;
    max_mss = mss_limit (tun_mtu c.self);
    clamped = 0;
    told = false;
    events = [];
  };
  rules = rules;
  known = snap.known;
  wg = wg;
  snap = snap;
  eps = record { at = 0; by_id = [] };
}

module _ {S : Type 0} (set : List Line → S → S × Bool) (h : Host) (hex : List ℕ → String)
    (sort : List String → List String) where
  -- The end of Open: what it makes of the TUN interface.
  unfoldable pub start :
      Option S
      → (S → Bool)
      → (Peer → Config → Bool)
      → Config
      → Peer
      → Snapshot × List Line × Rules
      → Result DeviceError (Device S)
  start fresh up link c self (snap, lines, rules) = elim fresh [
    | none ↦ err tun_refused
    | some wg₀ ↦
        let (wg, taken) = set lines wg₀ in
        if not taken
        then err set_refused
        else if not (up wg)
        then err up_refused
        else if not (link self c)
        then err link_refused
        else ok (begin c snap rules wg)
  ]

  -- Open. `fresh` is wg on a new TUN interface, or `none` where there is none; `up` and `link` are
  -- whether wg starts and the interface takes its address.
  unfoldable pub open_device :
      Option S → (S → Bool) → (Peer → Config → Bool) → Config → Result DeviceError (Device S)
  open_device fresh up link c = elim (find_peer c.self.peer_id c.peers) [
    | none ↦ err (not_in_peers c.self.peer_id)
    | some self ↦ do
      private ← private_of c
      snap ← new_snapshot h hex c
      lines ← wrap_wg (uapi_config h hex c private snap.psk)
      rules ← wrap_new (new h.parsers c)
      start fresh up link c self (snap, lines, rules)
  ]

  -- What Reload makes before it changes anything.
  unfoldable pub prepare : Device S → Config → Result DeviceError (Snapshot × List Line × Rules)
  prepare d c = do
    snap ← new_snapshot h hex c
    lines ← wrap_wg (uapi_reload h hex sort d.snap.cfg c d.snap.psk snap.psk)
    rules ← wrap_new (new h.parsers c)
    ok (snap, lines, rules)

  -- The end of Reload: the stores, and the connections that are forgotten. `ask` reads the clock
  -- and the peers' addresses with the new rules.
  unfoldable pub install : (Device S → Moment) → Device S → Snapshot → Rules → Device S
  install ask d snap rules =
      let d' = record d { rules = rules; known = snap.known; snap = snap } in
      let m = record (ask d') { rules = rules } in
      record d' { flt = record d.flt { conns = (forget d.flt.conns (still_allowed m)).0 } }

  -- `if uapi != "" { ... IpcSet ... }`.
  unfoldable pub send : List Line → S → S × Bool
  send lines wg = if is_empty lines then (wg, true) else set lines wg

  unfoldable pub reload_device : (Device S → Moment) → Device S → Config → Outcome S
  reload_device ask d c = elim (prepare d c) [
    | err e ↦ (d, some e)
    | ok (snap, lines, rules) ↦
        let (wg, taken) = send lines d.wg in
        if not taken
        then (record d { wg = wg }, some set_refused)
        else (install ask (record d { wg = wg }) snap rules, none)
  ]
