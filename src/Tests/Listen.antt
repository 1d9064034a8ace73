-- ===== src/Tests/Listen.antt =====
-- Open ports of a machine with two listening sockets, and the sizes of the status.
use callsignet.Base.{
  ℕ, ◌+◌, ◌*◌, ◌^◌, ◌≤◌, ◌<◌, ◌≡◌, ◌↔◌, refl, arith, String, true, Option, none, some, List, [],
  ◌∷◌, any, pos, get_elem?, ◌==◌, string_key, if◌then◌else◌,
}
use callsignet.Net.{v4, unmap, addr_beq}
use callsignet.Listen.{
  tcp, Port, ProcLib, exposed, file_loop, line_loop, line_port, parse_local, cut_colon, flip,
  sort_ports, sort_loop, sink, reverse_onto,
}
use callsignet.Listen.Open.{is_same, in_order, listening, files_of, file_has, exposed_lem}
use callsignet.Control.{in_units, out_of_range, unit_loop, units, size}
use callsignet.Control.Size.{size_lem}

-- Lines whose address is 1.2.3.4; one of them has the port 22, the other a port that csa knows.
abbrev lib : ProcLib
lib = record {
  fields = λ line.
      if line == "ssh"
      then "0:" ∷ "04030201:0016" ∷ "0:" ∷ "0A" ∷ []
      else "1:" ∷ "04030201:1F90" ∷ "0:" ∷ "0A" ∷ [];
  parse_hex16 = λ s. if s == "0016" then some 22 else some 8080;
  decode_hex = λ s. some (4 ∷ 3 ∷ 2 ∷ 1 ∷ []);
}

abbrev proc : String → Option (List String)
proc path = if path == "/proc/net/tcp" then some ("header" ∷ "web" ∷ "ssh" ∷ []) else none

abbrev ssh : Port
ssh = record { proto = tcp; num = 22 }

exposed_lem_example :
    (any (is_same ssh) (exposed lib (8080 ∷ []) (v4 7) proc)
      ≡ any (λ path. file_has lib (8080 ∷ []) (v4 7) 22 (listening tcp) (proc path)) (files_of tcp))
    × (in_order (exposed lib (8080 ∷ []) (v4 7) proc) ≡ true)
exposed_lem_example = exposed_lem lib (8080 ∷ []) (v4 7) proc ssh

only_ssh : exposed lib (8080 ∷ []) (v4 7) proc ≡ ssh ∷ []
unfolding exposed file_loop line_loop line_port parse_local cut_colon flip sort_ports sort_loop sink
    reverse_onto unmap addr_beq
only_ssh = refl

size_lem_example :
    ((size (pos 2048) ≡ out_of_range) ↔ (1024 ^ 5 ≤ 2048))
    × ((div unit : ℕ)
        → size (pos 2048) ≡ in_units 2048 div unit
        → (div ≤ 2048)
          × (2048 < div * 1024)
          × ((e : ℕ) × (div ≡ 1024 ^ (e + 1)) × (get_elem? units e ≡ some unit)))
size_lem_example = size_lem 2048 (omega arith)

too_large : size (pos (1024 ^ 5)) ≡ out_of_range
unfolding size unit_loop
too_large = refl
