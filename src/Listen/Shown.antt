-- ===== src/Listen/Shown.antt =====
-- Exposed of internal/guard/listen.go: exactly which ports it returns.
use callsignet.Base.{
  ℕ, String, Bool, true, false, ◌||◌, Option, none, some, List, [], ◌∷◌, any, drop, ◌≡◌, refl,
  arith, ◌∙◌, Option-cases, Bool-cases, inl, inr,
}
use callsignet.Net.{Addr}
use callsignet.Listen.{
  Proto, Port, same_port, reverse_onto, ProcLib, line_port, line_loop, file_loop, proc_net, exposed,
}
use callsignet.Listen.Sorted.{
  any-reverse_onto, any-sort_ports, rising, distinct, sort_ports-rising, distinct-reverse,
}

-- A port that stands where an equal one stands.
any_same :
    (p q : Port) (xs : List Port)
    → same_port p q ≡ true
    → any (same_port q) xs ≡ true
    → any (same_port p) xs ≡ true
any_same p q [] same there = there
any_same p q (x ∷ xs) same there = ground (arith, any_same p q xs)

module _ (L : ProcLib) (known : List ℕ) (self_ip : Addr) where
  -- Whether a line, or a file, shows the port.
  abbrev pub line_shows : Port → Proto → String → String → Bool
  line_shows p proto state line = elim (line_port L known self_ip proto state line) [
    | none ↦ false
    | some q ↦ same_port p q
  ]

  abbrev pub file_shows : Port → Proto × String × Option (List String) → Bool
  file_shows p (proto, state, none) = false
  file_shows p (proto, state, some lines) = any (line_shows p proto state) (drop 1 lines)

  line_loop_lem :
      (p : Port) (proto : Proto) (state : String) (out : List Port) (lines : List String)
      → distinct out ≡ true
      → (any (same_port p) (line_loop L known self_ip proto state out lines)
          ≡ (any (same_port p) out || any (line_shows p proto state) lines))
        × (distinct (line_loop L known self_ip proto state out lines) ≡ true)
  unfolding line_loop
  line_loop_lem p proto state out [] once = (ground arith, once)
  line_loop_lem p proto state out (line ∷ lines) once =
      elim (Option-cases (line_port L known self_ip proto state line)) [
        | inl nothing ↦
            let ih = line_loop_lem p proto state out lines once in ground (arith, ih, nothing)
        | inr (q, shown) ↦ elim (Bool-cases (any (same_port q) out)) [
          | inl seen ↦
              let ih = line_loop_lem p proto state out lines once in
              ground (arith, ih, shown, seen, any_same p q out)
          | inr fresh ↦
              let ih = line_loop_lem p proto state (q ∷ out) lines (ground arith) in
              ground (arith, ih, shown, fresh)
        ]
      ]

  file_loop_lem :
      (p : Port) (out : List Port) (files : List (Proto × String × Option (List String)))
      → distinct out ≡ true
      → (any (same_port p) (file_loop L known self_ip out files)
          ≡ (any (same_port p) out || any (file_shows p) files))
        × (distinct (file_loop L known self_ip out files) ≡ true)
  unfolding file_loop
  file_loop_lem p out [] once = (ground arith, once)
  file_loop_lem p out ((proto, state, none) ∷ files) once =
      ground (arith, file_loop_lem p out files once)
  file_loop_lem p out ((proto, state, some lines) ∷ files) once =
      let (same, once') = line_loop_lem p proto state out (drop 1 lines) once in
      let out' = line_loop L known self_ip proto state out (drop 1 lines) in
      ground (arith, same, file_loop_lem p out' files once')

  -- What Exposed returns, by the tests of its lines.
  pub exposed-file_shows :
      (read : String → Option (List String)) (p : Port)
      → (any (same_port p) (exposed L known self_ip read) ≡ any (file_shows p) (proc_net read))
        × (rising (exposed L known self_ip read) ≡ true)
  unfolding exposed
  exposed-file_shows read p =
      let files = proc_net read in
      let found = file_loop L known self_ip [] files in
      let (shown, once) = file_loop_lem p [] files refl in
      (
        any-sort_ports (same_port p) (reverse_onto [] found)
            ∙ any-reverse_onto (same_port p) [] found
            ∙ shown,
        sort_ports-rising (reverse_onto [] found) (distinct-reverse found once),
      )
