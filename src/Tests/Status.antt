-- ===== src/Tests/Status.antt =====
-- A text of wg with two peers, read.
use callsignet.Base.{
  String, List, [], ◌∷◌, ℤ, pos, ◌==◌, string_key, if◌then◌else◌, some, none, find, put, ◌≡◌, refl,
}
use callsignet.Status.{PeerStatus, cut_line, flush, read_value, scan_line, scan_lines, parse_status}
use callsignet.Status.Sections.{sections, table, parse_status-sections}

abbrev pub parse_int : String → ℤ
parse_int s = if s == "7" then pos 7 else if s == "9" then pos 9 else pos 0

abbrev pub said : List String
said =
    "public_key=bb" ∷ "endpoint=192.0.2.7:51820" ∷ "last_handshake_time_sec=7" ∷ "rx_bytes=9"
    ∷ "public_key=cc" ∷ "tx_bytes=7" ∷ "errno=0" ∷ []

abbrev of_b : PeerStatus
of_b = record {
  public_key = "bb";
  endpoint = "192.0.2.7:51820";
  handshake = some (pos 7, pos 0);
  rx_bytes = pos 9;
  tx_bytes = pos 0;
}

abbrev of_c : PeerStatus
of_c = record {
  public_key = "cc";
  endpoint = "";
  handshake = none;
  rx_bytes = pos 0;
  tx_bytes = pos 7;
}

said_read : parse_status parse_int said ≡ ("bb", of_b) ∷ ("cc", of_c) ∷ []
unfolding cut_line flush read_value scan_line scan_lines parse_status find put
said_read = refl

parse_status-sections_example : parse_status parse_int said ≡ table parse_int [] (sections said).1
parse_status-sections_example = parse_status-sections parse_int said
