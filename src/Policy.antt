-- ===== src/Policy.antt =====
-- internal/policy/policy.go: the rules that are in force, and the decision on each packet.
--
-- The clock is read once for a decision, as `now`, in nanoseconds since the zero time of Go's
-- `time`; an `expires` of 0 is that zero time, which stands for no date. The texts of the reasons
-- are constructors.
pub mod Compile
pub mod Loops
pub mod Allows
pub mod Decisions
pub mod Tables
pub mod Intent
pub mod Refines
pub mod Outgoing
pub mod Admission
pub mod Source
pub mod Roster
pub mod Validated
use callsignet.Base.{
  ℕ, String, Bool, true, false, not, ◌&&◌, ◌||◌, Option, none, some, List, [], ◌∷◌, if◌then◌else◌,
  ltb, IsKey, ◌==◌, nat_key, string_key, ◌≡◌, ◌↔◌, arith, contains, is_empty, any, find, value_or,
}
use callsignet.Net.{Addr, is_valid, Prefix, prefix_contains, addr_key, addr_beq_iff}

pub record Rule : Type 0 where
  pub app : String
  pub peers : List String
  pub cidrs : List Prefix
  pub expires : ℕ

pub record Target : Type 0 where
  pub ip : Addr
  pub port : ℕ

abbrev pub target_beq : Target → Target → Bool
target_beq a b = a.ip == b.ip && a.port == b.port

pub target_beq_iff : (a b : Target) → (target_beq a b ≡ true) ↔ (a ≡ b)
target_beq_iff a b = ground (arith, addr_beq_iff a.ip b.ip)

instance abbrev pub target_key : IsKey Target
target_key = record { test = target_beq; test_iff = target_beq_iff }

-- A map into bool reads false at a missing key, and none of these holds a false.
pub record Rules : Type 0 where
  pub peer_by_ip : List (Addr × String)
  pub inbound : List (ℕ × List Rule)
  pub all_inbound : List Rule
  pub need_source : List (ℕ × Bool)
  pub need_source_icmp : Bool
  pub app_by_port : List (ℕ × String)
  pub outbound : List (Target × Bool)
  pub outbound_peers : List (Addr × Bool)

-- What appName returns: the app's name, or the text for a port that has none.
pub data AppName : Type 0 where
  app_named : String → AppName
  port_numbered : ℕ → AppName

pub data Reason : Type 0 where
  no_reason : Reason
  sender_unknown : Reason
  port_not_open : String → ℕ → Reason
  rule_expired : String → ℕ → Reason
  outside_cidrs : String → String → Addr → Reason
  not_in_policy : String → AppName → Reason
  nothing_open : String → Reason
  not_in_outbound : String → ℕ → Reason
  no_outbound_service : String → Reason
  peer_unknown : Addr → Reason

pub record Decision : Type 0 where
  pub allow : Bool
  pub reason : Reason

abbrev pub allowed : Decision
allowed = record { allow = true; reason = no_reason }

abbrev pub denied : Reason → Decision
denied why = record { allow = false; reason = why }

unfoldable pub in_any : List Prefix → Addr → Bool
in_any cidrs ip = if not (is_valid ip) then false else any (λ c. prefix_contains c ip) cidrs

-- `u.dead()`: the clock is past a date that is set.
unfoldable pub dead : ℕ → Rule → Bool
dead now u = not (u.expires == 0) && ltb u.expires now

unfoldable pub allows : ℕ → Rule → String → Addr → Bool
allows now u id from =
    if is_empty u.peers && is_empty u.cidrs
    then false
    else if dead now u
    then false
    else if not (is_empty u.peers) && not (contains id u.peers)
    then false
    else if not (is_empty u.cidrs) && not (in_any u.cidrs from)
    then false
    else true

unfoldable pub ban_reason : ℕ → List Rule → String → Addr → Option Reason
ban_reason now [] id from = none
ban_reason now (u ∷ us) id from =
    let later = ban_reason now us id from in
    if not (is_empty u.peers) && not (contains id u.peers)
    then later
    else if dead now u
    then some (rule_expired u.app u.expires)
    else if not (is_empty u.cidrs)
    then some (outside_cidrs id u.app from)
    else later

abbrev name_of : ℕ → Option String → AppName
name_of port none = port_numbered port
name_of port (some app) = app_named app

unfoldable pub app_name : Rules → ℕ → AppName
app_name r port = name_of port (find port r.app_by_port)

-- The end of Inbound and InboundICMP: the rules in turn, then the reason of the refusal.
unfoldable pub judge : ℕ → List Rule → String → Addr → Reason → Decision
judge now rules id from otherwise =
    if any (λ u. allows now u id from) rules
    then allowed
    else denied (value_or otherwise (ban_reason now rules id from))

unfoldable pub inbound : ℕ → Rules → Addr → ℕ → Addr → Decision
inbound now r src port from = elim (find src r.peer_by_ip) [
  | none ↦ denied sender_unknown
  | some id ↦ elim (find port r.inbound) [
    | none ↦ denied (port_not_open id port)
    | some rules ↦ judge now rules id from (not_in_policy id (app_name r port))
  ]
]

unfoldable pub inbound_icmp : ℕ → Rules → Addr → Addr → Decision
inbound_icmp now r src from = elim (find src r.peer_by_ip) [
  | none ↦ denied sender_unknown
  | some id ↦ judge now r.all_inbound id from (nothing_open id)
]

unfoldable pub outbound : Rules → Addr → ℕ → Decision
outbound r dst port =
    if value_or false (find (record { ip = dst; port = port }) r.outbound)
    then allowed
    else elim (find dst r.peer_by_ip) [
      | some id ↦ denied (not_in_outbound id port)
      | none ↦ denied (peer_unknown dst)
    ]

unfoldable pub outbound_icmp : Rules → Addr → Decision
outbound_icmp r dst =
    if value_or false (find dst r.outbound_peers) then allowed else elim (find dst r.peer_by_ip) [
      | some id ↦ denied (no_outbound_service id)
      | none ↦ denied (peer_unknown dst)
    ]

unfoldable pub needs_source : Rules → ℕ → Bool
needs_source r port = value_or false (find port r.need_source)

unfoldable pub needs_source_icmp : Rules → Bool
needs_source_icmp r = r.need_source_icmp

unfoldable pub peer_of : Rules → Addr → Option String
peer_of r ip = find ip r.peer_by_ip
