-- ===== src/Status.antt =====
-- internal/wgdev/status.go: what wg says of its peers.
--
-- A state is the list of its lines, as strings.Split gives them. strconv.ParseInt, whose error is
-- dropped, is the parameter `parse_int`.
pub mod Values
pub mod Sections
use Prim.Native.Char.{code}
use callsignet.Base.{
  ℕ, String, Bool, Option, none, some, List, [], ◌∷◌, ℤ, pos, int_ltb, ◌==◌, nat_key, string_key,
  find, put, value_or, if◌then◌else◌,
}

-- A handshake is time.Unix of its seconds and nanoseconds; `none` is the zero time.
pub record PeerStatus : Type 0 where
  pub public_key : String
  pub endpoint : String
  pub handshake : Option (ℤ × ℤ)
  pub rx_bytes : ℤ
  pub tx_bytes : ℤ

abbrev pub blank : String → PeerStatus
blank key = record {
  public_key = key;
  endpoint = "";
  handshake = none;
  rx_bytes = pos 0;
  tx_bytes = pos 0;
}

-- `strings.Cut(line, "=")`.
unfoldable pub cut_line : String → Option (String × String)
cut_line String.[] = none
cut_line (String.◌∷◌ c s) =
    let rest = cut_line s in
    if code c == b'='
    then some ("", s)
    else elim rest [ none ↦ none | some (k, v) ↦ some (String.◌∷◌ c k, v) ]

-- The variables of parseStatus.
pub record Scan : Type 0 where
  pub out : List (String × PeerStatus)
  pub cur : String
  pub sec : ℤ
  pub nsec : ℤ

abbrev pub entry : Scan → PeerStatus
entry s = value_or (blank "") (find s.cur s.out)

-- The closure `flush`.
unfoldable pub flush : Scan → Scan
flush s =
    let stamped : List (String × PeerStatus) =
      put s.cur (record (entry s) { handshake = some (s.sec, s.nsec) }) s.out in
    if s.cur == "" then s else record s {
      out = if int_ltb (pos 0) s.sec then stamped else s.out;
      sec = pos 0;
      nsec = pos 0;
    }

module _ (parse_int : String → ℤ) where
  -- The switch on the name of a value: the entry, and the two parts of the handshake.
  unfoldable pub read_value : PeerStatus × (ℤ × ℤ) → String → String → PeerStatus × (ℤ × ℤ)
  read_value (p, (sec, nsec)) k v =
      if k == "endpoint"
      then (record p { endpoint = v }, (sec, nsec))
      else if k == "rx_bytes"
      then (record p { rx_bytes = parse_int v }, (sec, nsec))
      else if k == "tx_bytes"
      then (record p { tx_bytes = parse_int v }, (sec, nsec))
      else if k == "last_handshake_time_sec"
      then (p, (parse_int v, nsec))
      else if k == "last_handshake_time_nsec"
      then (p, (sec, parse_int v))
      else (p, (sec, nsec))

  -- One round of the loop.
  unfoldable pub scan_line : Scan → String → Scan
  scan_line s line = elim (cut_line line) [
    | none ↦ s
    | some (k, v) ↦
        if k == "public_key"
        then (let f = flush s in record f { out = put v (blank v) f.out; cur = v })
        else if s.cur == ""
        then s
        else (let (p, (sec, nsec)) = read_value (entry s, (s.sec, s.nsec)) k v in
            record s { out = put s.cur p s.out; sec = sec; nsec = nsec })
  ]

  unfoldable pub scan_lines : Scan → List String → Scan
  scan_lines s [] = s
  scan_lines s (line ∷ lines) = scan_lines (scan_line s line) lines

  unfoldable pub parse_status : List String → List (String × PeerStatus)
  parse_status lines =
      (flush (scan_lines (record { out = []; cur = ""; sec = pos 0; nsec = pos 0 }) lines)).out
