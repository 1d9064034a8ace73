-- ===== src/Guard.antt =====
-- internal/guard/guard.go: the nftables table that closes the direct path, and guardConfig of
-- cmd/csa/main.go.
--
-- A ruleset is the list of the rules of its one chain; nft takes a batch as a whole or not at all.
-- The state holds the guard's fields and the table that the kernel has under its name. What nft
-- answers is a parameter of each call. The messages of Apply, tell and Close are left out, and with
-- them the ports that tell looks up.
pub mod Ports
pub mod Verdict
pub mod Services
pub mod Life
pub mod Table
use callsignet.Base.{
  ℕ, String, Bool, true, false, not, ◌&&◌, ◌||◌, Option, none, some, List, [], ◌∷◌, ◌++◌, ℤ,
  int_beq, int_leb, ◌==◌, string_key, if◌then◌else◌, value_or, Result, ok, err,
}
use callsignet.Net.{Addr, invalid}
use callsignet.Config.{Parsers, Service, Config as Settings, tun_name, find_peer}

pub data Mode : Type 0 where
  mode_services : Mode
  mode_all : Mode
  mode_off : Mode

-- The second value is whether the text is read without an error.
unfoldable pub parse_mode : String → Mode × Bool
parse_mode s =
    if s == "" || s == "services"
    then (mode_services, true)
    else if s == "all"
    then (mode_all, true)
    else if s == "off"
    then (mode_off, true)
    else (mode_services, false)

pub record GuardConfig : Type 0 where
  pub mode : Mode
  pub iface : String
  pub wg_port : ℤ
  pub ports : List ℤ
  pub self_ip : Addr
  pub keep_tcp : List ℤ
  pub keep_udp : List ℤ

-- `seen[v]`.
unfoldable pub has_port : ℤ → List ℤ → Bool
has_port p [] = false
has_port p (q ∷ qs) = int_beq q p || has_port p qs

unfoldable pub insert : ℤ → List ℤ → List ℤ
insert p [] = p ∷ []
insert p (q ∷ qs) = if int_leb p q then p ∷ q ∷ qs else q ∷ insert p qs

-- sort.Ints.
unfoldable pub sort : List ℤ → List ℤ
sort [] = []
sort (p ∷ ps) = insert p (sort ps)

-- The loop of dedup; `seen` holds exactly the ports of `out`.
unfoldable pub once : List ℤ → List ℤ → List ℤ
once out [] = out
once out (p ∷ ps) = once (if has_port p out then out else out ++ p ∷ []) ps

unfoldable pub dedup : List ℤ → List ℤ
dedup ports = sort (once [] ports)

pub data Line : Type 0 where
  accept_iif : String → Line
  accept_udp : ℤ → Line
  accept_tcp : ℤ → Line
  accept_established : Line
  accept_icmp : Line
  drop_tcp : ℤ → Line
  drop_udp : ℤ → Line
  drop_rest : Line

unfoldable pub keep_lines : (ℤ → Line) → List ℤ → List Line
keep_lines line [] = []
keep_lines line (p ∷ ps) = line p ∷ keep_lines line ps

unfoldable pub drop_lines : List ℤ → List Line
drop_lines [] = []
drop_lines (p ∷ ps) = drop_tcp p ∷ drop_udp p ∷ drop_lines ps

abbrev pub open_lines : GuardConfig → List Line
open_lines c = accept_iif "lo" ∷ accept_iif c.iface ∷ accept_udp c.wg_port ∷ []

abbrev pub mode_lines : GuardConfig → Mode → List Line
mode_lines c mode_all =
    accept_established ∷ accept_icmp ∷ keep_lines accept_tcp (dedup c.keep_tcp)
    ++ (keep_lines accept_udp (dedup c.keep_udp) ++ drop_rest ∷ [])
mode_lines c _ = drop_lines (dedup c.ports)

unfoldable pub guard_rules : GuardConfig → List Line
guard_rules c = open_lines c ++ mode_lines c c.mode

pub record Guard : Type 0 where
  pub mode : Mode
  pub on : Bool
  pub keep : Bool
  pub unchecked : Bool
  pub table : Option (List Line)

-- What a call of nft meets: whether the command is found, and whether it takes the batch.
pub record Nft : Type 0 where
  pub found : Bool
  pub takes : Bool

pub data GuardError : Type 0 where
  nft_missing : GuardError
  nft_refuses : GuardError

unfoldable pub new_guard : Option (List Line) → Guard
new_guard left = record {
  mode = mode_services;
  on = false;
  keep = false;
  unchecked = false;
  table = left;
}

abbrev pub is_off : Mode → Bool
is_off mode_off = true
is_off _ = false

-- Check: whether nft would take the batch. It changes nothing.
unfoldable pub check : Nft → GuardConfig → Option GuardError
check nft c =
    if is_off c.mode
    then none
    else if not nft.found
    then some nft_missing
    else if not nft.takes
    then some nft_refuses
    else none

-- removeTable: the table afterwards, and whether it was looked at.
unfoldable pub remove_table :
    Nft → Option (List Line) → Result GuardError (Option (List Line) × Bool)
remove_table nft table =
    if not nft.found
    then ok (table, false)
    else if not nft.takes
    then err nft_refuses
    else ok (none, true)

abbrev apply_off : Guard → Result GuardError (Option (List Line) × Bool) → Guard × Option GuardError
apply_off g (err e) = (g, some e)
apply_off g (ok (table, checked)) =
    (record g { on = false; unchecked = not checked; table = table }, none)

unfoldable pub apply : Nft → Guard → GuardConfig → Guard × Option GuardError
apply nft g c =
    let g₁ = record g { mode = c.mode } in
    let g₂ = record g₁ { unchecked = false } in
    if is_off c.mode
    then apply_off g₁ (remove_table nft g₁.table)
    else if not nft.found
    then (g₁, some nft_missing)
    else if not nft.takes
    then (g₂, some nft_refuses)
    else (record g₂ { on = true; table = some (guard_rules c) }, none)

unfoldable pub keep_table : Guard → Guard
keep_table g = record g { keep = true }

-- Close, where nft deletes the table or does not.
unfoldable pub close : Bool → Guard → Guard
close deletes g =
    if not g.on
    then g
    else if g.keep
    then g
    else if not deletes
    then g
    else record g { on = false; table = none }

abbrev pub service_ports : List Service → List ℤ
service_ports [] = []
service_ports (s ∷ ss) = s.port ∷ service_ports ss

unfoldable pub guard_config : Parsers → Settings → GuardConfig
guard_config P c =
    let g : GuardConfig = record {
      mode = (parse_mode c.self.guard.mode).0;
      iface = tun_name c.self;
      wg_port = c.self.listen_port;
      ports = [];
      self_ip = invalid;
      keep_tcp = c.self.guard.keep_tcp;
      keep_udp = c.self.guard.keep_udp;
    } in
    elim (find_peer c.self.peer_id c.peers) [
      | none ↦ g
      | some self ↦ record g {
        ports = service_ports self.services;
        self_ip = value_or invalid (P.parse_addr self.tunnel_ip);
      }
    ]
