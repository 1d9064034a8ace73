-- ===== src/Guard/Verdict.antt =====
-- What the ruleset of internal/guard/guard.go does with a packet that reaches this machine.
use callsignet.Base.{
  String, Bool, true, false, not, ◌&&◌, ◌||◌, List, [], ◌∷◌, ◌++◌, ℤ, int_beq, ◌==◌, string_key,
  ◌≡◌, refl, arith, or_false, if◌then◌else◌,
}
use callsignet.Guard.{
  Line, accept_iif, accept_udp, accept_tcp, accept_established, accept_icmp, drop_tcp, drop_udp,
  drop_rest, Mode, mode_services, mode_all, mode_off, GuardConfig, has_port, keep_lines, drop_lines,
  dedup, guard_rules, mode_lines,
}
use callsignet.Guard.Ports.{has_port-dedup}

pub data Kind : Type 0 where
  tcp : Kind
  udp : Kind
  icmp : Kind
  other : Kind

-- A packet of the input hook, as far as the rules look at it.
pub record Arrival : Type 0 where
  pub iif : String
  pub kind : Kind
  pub dport : ℤ
  pub established : Bool

abbrev pub is_tcp : Kind → Bool
is_tcp tcp = true
is_tcp _ = false

abbrev pub is_udp : Kind → Bool
is_udp udp = true
is_udp _ = false

abbrev pub is_icmp : Kind → Bool
is_icmp icmp = true
is_icmp _ = false

-- Whether the chain lets the packet through: the first rule that matches it decides, and its
-- policy is to accept.
unfoldable pub accepts : List Line → Arrival → Bool
accepts [] a = true
accepts (accept_iif name ∷ ls) a = if a.iif == name then true else accepts ls a
accepts (accept_udp p ∷ ls) a = if is_udp a.kind && int_beq p a.dport then true else accepts ls a
accepts (accept_tcp p ∷ ls) a = if is_tcp a.kind && int_beq p a.dport then true else accepts ls a
accepts (accept_established ∷ ls) a = if a.established then true else accepts ls a
accepts (accept_icmp ∷ ls) a = if is_icmp a.kind then true else accepts ls a
accepts (drop_tcp p ∷ ls) a = if is_tcp a.kind && int_beq p a.dport then false else accepts ls a
accepts (drop_udp p ∷ ls) a = if is_udp a.kind && int_beq p a.dport then false else accepts ls a
accepts (drop_rest ∷ ls) a = false

accepts-drop_lines :
    (ps : List ℤ) (a : Arrival)
    → accepts (drop_lines ps) a ≡ not ((is_tcp a.kind || is_udp a.kind) && has_port a.dport ps)
unfolding accepts drop_lines has_port
accepts-drop_lines [] a = ground arith
accepts-drop_lines (p ∷ ps) a = ground (arith, accepts-drop_lines ps a)

accepts-keep_tcp :
    (ps : List ℤ) (ls : List Line) (a : Arrival)
    → accepts (keep_lines accept_tcp ps ++ ls) a
      ≡ (is_tcp a.kind && has_port a.dport ps || accepts ls a)
unfolding accepts keep_lines has_port
accepts-keep_tcp [] ls a = ground arith
accepts-keep_tcp (p ∷ ps) ls a = ground (arith, accepts-keep_tcp ps ls a)

accepts-keep_udp :
    (ps : List ℤ) (ls : List Line) (a : Arrival)
    → accepts (keep_lines accept_udp ps ++ ls) a
      ≡ (is_udp a.kind && has_port a.dport ps || accepts ls a)
unfolding accepts keep_lines has_port
accepts-keep_udp [] ls a = ground arith
accepts-keep_udp (p ∷ ps) ls a = ground (arith, accepts-keep_udp ps ls a)

-- What comes in by the loopback interface or the tunnel, and the outer packets of the tunnel.
abbrev pub comes_open : GuardConfig → Arrival → Bool
comes_open c a = a.iif == "lo" || a.iif == c.iface || is_udp a.kind && int_beq c.wg_port a.dport

-- What each mode lets through of the rest.
abbrev pub mode_accepts : GuardConfig → Arrival → Mode → Bool
mode_accepts c a mode_all =
    a.established
    || is_icmp a.kind
    || is_tcp a.kind && has_port a.dport c.keep_tcp
    || is_udp a.kind && has_port a.dport c.keep_udp
mode_accepts c a _ = not ((is_tcp a.kind || is_udp a.kind) && has_port a.dport c.ports)

accepts-drop_rest : (a : Arrival) → accepts (drop_rest ∷ []) a ≡ false
unfolding accepts
accepts-drop_rest a = refl

accepts_all :
    (a : Arrival) (rest : Bool)
    → (if a.established then true else if is_icmp a.kind then true else rest)
      ≡ (a.established || is_icmp a.kind || rest)
accepts_all a rest = ground arith

abbrev kept_lines : GuardConfig → List Line
kept_lines c =
    keep_lines accept_tcp (dedup c.keep_tcp)
    ++ (keep_lines accept_udp (dedup c.keep_udp) ++ drop_rest ∷ [])

accepts-kept_lines :
    (c : GuardConfig) (a : Arrival)
    → accepts (kept_lines c) a ≡ (
        is_tcp a.kind && has_port a.dport c.keep_tcp
        || is_udp a.kind && has_port a.dport c.keep_udp)
accepts-kept_lines c a =
    let last : accepts (drop_rest ∷ []) a ≡ false = accepts-drop_rest a in
    rw (
      accepts-keep_tcp (dedup c.keep_tcp)
          (keep_lines accept_udp (dedup c.keep_udp) ++ drop_rest ∷ []) a,
      accepts-keep_udp (dedup c.keep_udp) (drop_rest ∷ []) a,
      has_port-dedup a.dport c.keep_tcp,
      has_port-dedup a.dport c.keep_udp,
      last,
      or_false (is_udp a.kind && has_port a.dport c.keep_udp),
    )

accepts-mode_lines :
    (c : GuardConfig) (a : Arrival) (m : Mode) → accepts (mode_lines c m) a ≡ mode_accepts c a m
unfolding accepts
accepts-mode_lines c a mode_all =
    rw
      (
        accepts-kept_lines c a,
        accepts_all a (
            is_tcp a.kind && has_port a.dport c.keep_tcp
            || is_udp a.kind && has_port a.dport c.keep_udp),
      )
      (ground arith)
accepts-mode_lines c a mode_services =
    ground (arith, accepts-drop_lines (dedup c.ports) a, has_port-dedup a.dport c.ports)
accepts-mode_lines c a mode_off =
    ground (arith, accepts-drop_lines (dedup c.ports) a, has_port-dedup a.dport c.ports)

-- The ruleset lets a packet through that comes in by the loopback interface or the tunnel, or is a
-- UDP packet to the port of wg. Of all others, the mode "all" lets through established connections,
-- ICMP, and TCP and UDP to their exceptions, and every other mode all but TCP and UDP to the
-- service ports.
pub accepts-guard_rules :
    (c : GuardConfig) (a : Arrival)
    → accepts (guard_rules c) a ≡ (comes_open c a || mode_accepts c a c.mode)
unfolding guard_rules accepts
accepts-guard_rules c a = ground (arith, accepts-mode_lines c a c.mode)
