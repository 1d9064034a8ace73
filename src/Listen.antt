-- ===== src/Listen.antt =====
-- internal/guard/listen.go: the ports of this machine that are open to the outside.
--
-- A file of /proc/net is the list of its lines, as strings.Split gives them. strings.Fields,
-- strconv.ParseUint and hex.DecodeString are parameters. The two texts of Port.Proto are
-- constructors, in their order.
pub mod Sorted
pub mod Shown
pub mod Local
pub mod Open
use Prim.Native.Char.{code}
use callsignet.Base.{
  ℕ, ◌+◌, ◌*◌, ◌^◌, String, Bool, true, false, not, ◌&&◌, ◌||◌, Option, none, some, List, [], ◌∷◌,
  ltb, nat_beq, any, ◌==◌, nat_key, string_key, length, if◌then◌else◌, get_elem?, drop, value_or,
}
use callsignet.Net.{Addr, invalid, v4, v6, addr_key, unmap, is_loopback, is_valid}

pub data Proto : Type 0 where
  tcp : Proto
  udp : Proto

abbrev pub rank : Proto → ℕ
rank tcp = 0
rank udp = 1

pub record Port : Type 0 where
  pub proto : Proto
  pub num : ℕ

abbrev pub same_port : Port → Port → Bool
same_port a b = nat_beq (rank a.proto) (rank b.proto) && nat_beq a.num b.num

unfoldable pub less : Port → Port → Bool
less a b =
    if not (nat_beq (rank a.proto) (rank b.proto))
    then ltb (rank a.proto) (rank b.proto)
    else ltb a.num b.num

-- The inner loop of sortPorts: the ports before this one, the last of them first.
unfoldable pub sink : Port → List Port → List Port
sink p [] = p ∷ []
sink p (q ∷ qs) = let rest = sink p qs in if less p q then q ∷ rest else p ∷ q ∷ qs

-- The outer loop, and the ports from first to last.
unfoldable pub sort_loop : List Port → List Port → List Port
sort_loop before [] = before
sort_loop before (p ∷ ps) = sort_loop (sink p before) ps

unfoldable pub reverse_onto : List Port → List Port → List Port
reverse_onto out [] = out
reverse_onto out (p ∷ ps) = reverse_onto (p ∷ out) ps

unfoldable pub sort_ports : List Port → List Port
sort_ports ps = reverse_onto [] (sort_loop [] ps)

pub record ProcLib : Type 0 where
  pub fields : String → List String  -- strings.Fields
  pub parse_hex16 : String → Option ℕ  -- strconv.ParseUint(s, 16, 16)
  pub decode_hex : String → Option (List ℕ)  -- hex.DecodeString

-- `strings.Cut(s, ":")`.
unfoldable pub cut_colon : String → Option (String × String)
cut_colon String.[] = none
cut_colon (String.◌∷◌ c s) =
    let rest = cut_colon s in
    if code c == b':'
    then some ("", s)
    else elim rest [ none ↦ none | some (a, b) ↦ some (String.◌∷◌ c a, b) ]

-- The bytes, four by four from back to front.
unfoldable pub flip : List ℕ → List ℕ
flip (a ∷ b ∷ c ∷ d ∷ rest) = d ∷ c ∷ b ∷ a ∷ flip rest
flip bytes = bytes

abbrev pub big_endian : ℕ → List ℕ → ℕ
big_endian n [] = n
big_endian n (b ∷ bs) = big_endian (n * 256 + b) bs

-- netip.AddrFromSlice.
abbrev pub addr_from_slice : List ℕ → Option Addr
addr_from_slice bytes =
    if length bytes == 4
    then some (v4 (big_endian 0 bytes))
    else if length bytes == 16
    then some (v6 (big_endian 0 bytes) "")
    else none

-- procNet with what the files hold.
abbrev pub proc_net : (String → Option (List String)) → List (Proto × String × Option (List String))
proc_net read =
    (tcp, "0A", read "/proc/net/tcp")
    ∷ (tcp, "0A", read "/proc/net/tcp6")
    ∷ (udp, "07", read "/proc/net/udp")
    ∷ (udp, "07", read "/proc/net/udp6")
    ∷ []

module _ (L : ProcLib) where
  unfoldable pub parse_local : String → Option (Addr × ℕ)
  parse_local s = elim (cut_colon s) [
    | none ↦ none
    | some (h, port_hex) ↦ elim (L.parse_hex16 port_hex) [
      | none ↦ none
      | some port ↦ elim (L.decode_hex h) [
        | none ↦ none
        | some raw ↦
            if not (length raw == 4) && not (length raw == 16)
            then none
            else elim (addr_from_slice (flip raw)) [ none ↦ none | some a ↦ some (unmap a, port) ]
      ]
    ]
  ]

  module _ (known : List ℕ) (self_ip : Addr) where
    -- The tests of a line: the port that it shows, if any.
    unfoldable pub line_port : Proto → String → String → Option Port
    line_port proto state line = elim (get_elem? (L.fields line) 3) [
      | none ↦ none
      | some st ↦ elim (parse_local (value_or "" (get_elem? (L.fields line) 1))) [
        | none ↦ none
        | some (addr, port) ↦
            if not (st == state)
            then none
            else if any (nat_beq port) known
            then none
            else if is_loopback addr || is_valid self_ip && addr == self_ip
            then none
            else some (record { proto = proto; num = port })
      ]
    ]

    -- The loop over the lines; `seen` holds exactly the ports of `out`. The order of `out` is that
    -- of the lines, the last first.
    unfoldable pub line_loop : Proto → String → List Port → List String → List Port
    line_loop proto state out [] = out
    line_loop proto state out (line ∷ lines) =
        let next : List Port = elim (line_port proto state line) [
          | none ↦ out
          | some p ↦ if any (same_port p) out then out else p ∷ out
        ] in
        line_loop proto state next lines

    -- A file is `none` where it cannot be read.
    unfoldable pub file_loop : List Port → List (Proto × String × Option (List String)) → List Port
    file_loop out [] = out
    file_loop out ((proto, state, none) ∷ files) = file_loop out files
    file_loop out ((proto, state, some lines) ∷ files) =
        file_loop (line_loop proto state out (drop 1 lines)) files

    unfoldable pub exposed : (String → Option (List String)) → List Port
    exposed read = sort_ports (reverse_onto [] (file_loop [] (proc_net read)))
