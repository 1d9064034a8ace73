-- ===== src/Listen/Open.antt =====
-- Exposed of internal/guard/listen.go: which ports it returns, and in what order, against the lines
-- of /proc/net.
use callsignet.Base.{
  ℕ, String, Bool, true, false, not, ◌&&◌, Option, none, some, List, [], ◌∷◌, any, all, drop, ◌≡◌,
  ◌⊎◌, refl, sym, arith, ◌∙◌, inl, inr, ltb, nat_beq, nat_key, string_key, ◌==◌, get_elem?,
  value_or, any_cong,
}
use callsignet.Net.{Addr, addr_key, is_valid, is_loopback}
use callsignet.Policy.Intent.{for_some}
use callsignet.Listen.{
  Proto, tcp, udp, Port, same_port, less, ProcLib, cut_colon, line_port, proc_net, exposed,
}
use callsignet.Listen.Sorted.{rising}
use callsignet.Listen.Local.{host_of, parse_local-host_of}
use callsignet.Listen.Shown.{line_shows, file_shows, exposed-file_shows}

-- TCP stands before UDP, and then the lower number.
abbrev pub is_before : Port → Port → Bool
is_before a b = elim a.proto [
  | tcp ↦ elim b.proto [ tcp ↦ ltb a.num b.num | udp ↦ true ]
  | udp ↦ elim b.proto [ tcp ↦ false | udp ↦ ltb a.num b.num ]
]

abbrev pub is_same : Port → Port → Bool
is_same a b = elim a.proto [
  | tcp ↦ elim b.proto [ tcp ↦ nat_beq a.num b.num | udp ↦ false ]
  | udp ↦ elim b.proto [ tcp ↦ false | udp ↦ nat_beq a.num b.num ]
]

-- Each port stands before all that follow it.
abbrev pub in_order : List Port → Bool
in_order [] = true
in_order (p ∷ ps) = all (is_before p) ps && in_order ps

-- The state of a socket that listens, and the files that list the sockets.
abbrev pub listening : Proto → String
listening tcp = "0A"
listening udp = "07"

abbrev pub files_of : Proto → List String
files_of tcp = "/proc/net/tcp" ∷ "/proc/net/tcp6" ∷ []
files_of udp = "/proc/net/udp" ∷ "/proc/net/udp6" ∷ []

Proto-cases : (p : Proto) → (p ≡ tcp) ⊎ (p ≡ udp)
Proto-cases tcp = inl refl
Proto-cases udp = inr refl

less-is_before : (a b : Port) → less a b ≡ is_before a b
unfolding less
less-is_before a b = elim (Proto-cases a.proto) [
  | inl t ↦ elim (Proto-cases b.proto) [ inl t' ↦ ground arith | inr u' ↦ ground arith ]
  | inr u ↦ elim (Proto-cases b.proto) [ inl t' ↦ ground arith | inr u' ↦ ground arith ]
]

same_port-is_same : (a b : Port) → same_port a b ≡ is_same a b
same_port-is_same a b = elim (Proto-cases a.proto) [
  | inl t ↦ elim (Proto-cases b.proto) [ inl t' ↦ ground arith | inr u' ↦ ground arith ]
  | inr u ↦ elim (Proto-cases b.proto) [ inl t' ↦ ground arith | inr u' ↦ ground arith ]
]

all-is_before : (p : Port) (ps : List Port) → all (less p) ps ≡ all (is_before p) ps
all-is_before p [] = refl
all-is_before p (x ∷ ps) = ground (arith, less-is_before p x, all-is_before p ps)

rising-in_order : (ps : List Port) → rising ps ≡ in_order ps
rising-in_order [] = refl
rising-in_order (p ∷ ps) = ground (arith, all-is_before p ps, rising-in_order ps)

module _ (L : ProcLib) (known : List ℕ) (self_ip : Addr) where
  -- Whether the text of a socket's own end is at that port, which must not be known, and at an
  -- address from outside.
  abbrev pub is_open : ℕ → String → Bool
  is_open num s = for_some (cut_colon s) (λ c. for_some (L.parse_hex16 c.1) (λ n.
      n == num
      && not (any (nat_beq num) known)
      && for_some (L.decode_hex c.0) (λ raw.
        for_some (host_of raw)
          (λ a. not (is_loopback a) && not (is_valid self_ip && a == self_ip)))))

  -- Whether a line shows a socket in that state at that port.
  abbrev pub shows : ℕ → String → String → Bool
  shows num state line =
      for_some (get_elem? (L.fields line) 3) (λ st. st == state)
      && is_open num (value_or "" (get_elem? (L.fields line) 1))

  line_shows-shows :
      (p : Port) (proto : Proto) (state line : String)
      → line_shows L known self_ip p proto state line
        ≡ (is_same p (record { proto = proto; num = p.num }) && shows p.num state line)
  unfolding line_port
  line_shows-shows p tcp state line =
      let local = parse_local-host_of L (value_or "" (get_elem? (L.fields line) 1)) in
      elim (Proto-cases p.proto) [ inl t ↦ ground (arith, local) | inr u ↦ ground arith ]
  line_shows-shows p udp state line =
      let local = parse_local-host_of L (value_or "" (get_elem? (L.fields line) 1)) in
      elim (Proto-cases p.proto) [ inl t ↦ ground arith | inr u ↦ ground (arith, local) ]

  any-line_shows :
      (p : Port) (proto : Proto) (state : String) (lines : List String)
      → any (line_shows L known self_ip p proto state) lines
        ≡ (is_same p (record { proto = proto; num = p.num }) && any (shows p.num state) lines)
  any-line_shows p proto state [] = ground arith
  any-line_shows p proto state (line ∷ lines) =
      ground (arith, line_shows-shows p proto state line, any-line_shows p proto state lines)

  -- Whether a file shows it; the first line of a file is its heading.
  abbrev pub file_has : ℕ → String → Option (List String) → Bool
  file_has num state file = for_some file (λ lines. any (shows num state) (drop 1 lines))

  file_shows-file_has :
      (p : Port) (proto : Proto) (state : String) (file : Option (List String))
      → file_shows L known self_ip p (proto, state, file)
        ≡ (is_same p (record { proto = proto; num = p.num }) && file_has p.num state file)
  file_shows-file_has p proto state none = ground arith
  file_shows-file_has p proto state (some lines) =
      ground (arith, any-line_shows p proto state (drop 1 lines))

  any-proc_net :
      (read : String → Option (List String)) (p : Port)
      → any (file_shows L known self_ip p) (proc_net read)
        ≡ any (λ path. file_has p.num (listening p.proto) (read path)) (files_of p.proto)
  any-proc_net read p =
      let a = file_shows-file_has p tcp "0A" (read "/proc/net/tcp") in
      let b = file_shows-file_has p tcp "0A" (read "/proc/net/tcp6") in
      let c = file_shows-file_has p udp "07" (read "/proc/net/udp") in
      let d = file_shows-file_has p udp "07" (read "/proc/net/udp6") in
      elim (Proto-cases p.proto) [
        | inl t ↦ rw (a, b, c, d) (rw t (ground arith))
        | inr u ↦ rw (a, b, c, d) (rw u (ground arith))
      ]

  any-same_port : (p : Port) (ps : List Port) → any (same_port p) ps ≡ any (is_same p) ps
  any-same_port p ps = any_cong (same_port p) (is_same p) ps (same_port-is_same p)

  -- Exposed returns a port exactly if a line behind the heading of one of the two files of its
  -- protocol, which can be read, shows a socket at that port in the state for listening, at an
  -- address that is no loopback and not the tunnel address of this machine, and the port is not
  -- known. The ports stand in a strict order, so each stands once: TCP before UDP, and in either
  -- by number.
  pub exposed_lem :
      (read : String → Option (List String)) (p : Port)
      → (any (is_same p) (exposed L known self_ip read)
          ≡ any (λ path. file_has p.num (listening p.proto) (read path)) (files_of p.proto))
        × (in_order (exposed L known self_ip read) ≡ true)
  exposed_lem read p =
      let (shown, ordered) = exposed-file_shows L known self_ip read p in
      let ports = exposed L known self_ip read in
      (
        sym (any-same_port p ports) ∙ shown ∙ any-proc_net read p,
        sym (rising-in_order ports) ∙ ordered,
      )
