-- ===== src/Status/Sections.antt =====
-- parseStatus of internal/wgdev/status.go against the text cut into the sections of its peers.
use callsignet.Base.{
  String, false, none, some, List, [], ◌∷◌, ℤ, pos, ◌==◌, string_key, eq_iff, test_self, put,
  find-put, if◌then◌else◌, ◌≡◌, sym, ap, ◌∙◌, arith, Option-cases, Bool-cases, inl, inr,
}
use callsignet.Status.{
  PeerStatus, blank, cut_line, Scan, entry, flush, read_value, scan_line, scan_lines, parse_status,
}
use callsignet.Status.Values.{sealed, read_values, status_of, status_of-sealed}

-- The values before the first key, and then for each key the values behind it.
unfoldable pub sections :
    List String → List (String × String) × List (String × List (String × String))
sections [] = ([], [])
sections (line ∷ lines) =
    let (values, later) = sections lines in
    elim (cut_line line) [
      | none ↦ (values, later)
      | some (k, v) ↦
          if k == "public_key" then ([], (v, values) ∷ later) else ((k, v) ∷ values, later)
    ]

put-put {ℓ} :
    {V : Type ℓ} (k : String) (v w : V) (m : List (String × V)) → put k w (put k v m) ≡ put k w m
unfolding put
put-put k v w [] = ground (arith, test_self k)
put-put k v w ((j, x) ∷ m) = ground (arith, test_self k, put-put k v w m)

module _ (parse_int : String → ℤ) where
  unfoldable pub table :
      List (String × PeerStatus)
      → List (String × List (String × String))
      → List (String × PeerStatus)
  table out [] = out
  table out ((key, values) ∷ later) = table (put key (status_of parse_int key values) out) later

  -- A scan that stands in a section.
  abbrev within : List (String × PeerStatus) → String → PeerStatus × (ℤ × ℤ) → Scan
  within out key (p, (sec, nsec)) = record {
    out = put key p out;
    cur = key;
    sec = sec;
    nsec = nsec;
  }

  entry-within :
      (out : List (String × PeerStatus)) (key : String) (t : PeerStatus × (ℤ × ℤ))
      → entry (within out key t) ≡ t.0
  entry-within out key t = ground (arith, find-put key key t.0 out, test_self key)

  flush-within :
      (out : List (String × PeerStatus)) (key : String) (t : PeerStatus × (ℤ × ℤ))
      → (key == "") ≡ false
      → flush (within out key t)
        ≡ record { out = put key (sealed t) out; cur = key; sec = pos 0; nsec = pos 0 }
  unfolding flush
  flush-within out key t named = ground (
    arith,
    entry-within out key t,
    put-put key t.0 (record t.0 { handshake = some (t.1.0, t.1.1) }) out,
  )

  abbrev outside : List (String × PeerStatus) → Scan
  outside out = record { out = out; cur = ""; sec = pos 0; nsec = pos 0 }

  abbrev finish : Scan → List String → List (String × PeerStatus)
  finish s lines = (flush (scan_lines parse_int s lines)).out

  -- A line in a section.
  scan_line-within :
      (out : List (String × PeerStatus)) (key : String) (t : PeerStatus × (ℤ × ℤ)) (line : String)
      → (key == "") ≡ false
      → scan_line parse_int (within out key t) line ≡ elim (cut_line line) [
        | none ↦ within out key t
        | some (k, v) ↦
            if k == "public_key"
            then record {
              out = put v (blank v) (put key (sealed t) out);
              cur = v;
              sec = pos 0;
              nsec = pos 0;
            }
            else within out key (read_value parse_int t k v)
      ]
  unfolding scan_line
  scan_line-within out key t line named = elim (Option-cases (cut_line line)) [
    | inl bad ↦ ground arith
    | inr ((k, v), cut) ↦ ground (
      arith,
      flush-within out key t named,
      entry-within out key t,
      put-put key t.0 (read_value parse_int t k v).0 out,
    )
  ]

  -- What the rest of a text adds, from inside of a section and from before the first.
  abbrev Within : List String → Type 0
  Within lines =
      (out : List (String × PeerStatus)) (key : String) (t : PeerStatus × (ℤ × ℤ))
      → (key == "") ≡ false
      → finish (within out key t) lines
        ≡ table (put key (sealed (read_values parse_int t (sections lines).0)) out)
            (sections lines).1

  abbrev Outside : List String → Type 0
  Outside lines =
      (out : List (String × PeerStatus)) → finish (outside out) lines ≡ table out (sections lines).1

  finish-blank :
      (lines : List String)
      → Within lines
      → Outside lines
      → (out : List (String × PeerStatus)) (key : String)
      → finish
          (record { out = put key (blank key) out; cur = key; sec = pos 0; nsec = pos 0 })
          lines
        ≡ table (put key (status_of parse_int key (sections lines).0) out) (sections lines).1
  finish-blank lines inner outer out key = elim (Bool-cases (key == "")) [
    | inl nameless ↦
        let e : key ≡ "" = (eq_iff key "").0 nameless in
        let opened : Scan = record {
          out = put key (blank key) out;
          cur = key;
          sec = pos 0;
          nsec = pos 0;
        } in
        let same : opened ≡ outside (put key (blank key) out) = rw e in
        ap (λ st. finish st lines) same
        ∙ outer (put key (blank key) out)
        ∙ ap (λ p. table (put key p out) (sections lines).1) (rw nameless)
    | inr named ↦
        inner out key (blank key, (pos 0, pos 0)) named
        ∙ ap (λ p. table (put key p out) (sections lines).1)
            (status_of-sealed parse_int key (sections lines).0 named)
  ]

  finish-nil : Within [] × Outside []
  unfolding scan_lines sections table flush
  finish-nil =
      (λ out key t named. ground (arith, flush-within out key t named), λ out. ground arith)

  -- The table of the sections of a text.
  abbrev tabled :
      List (String × PeerStatus)
      → String
      → PeerStatus × (ℤ × ℤ)
      → List (String × String) × List (String × List (String × String))
      → List (String × PeerStatus)
  tabled out key t s = table (put key (sealed (read_values parse_int t s.0)) out) s.1

  finish-cons-Within :
      (line : String) (lines : List String) → Within lines → Outside lines → Within (line ∷ lines)
  unfolding scan_lines sections table
  finish-cons-Within line lines inner outer out key t named = elim (Option-cases (cut_line line)) [
    | inl bad ↦
        let e : scan_line parse_int (within out key t) line ≡ within out key t =
          ground (arith, scan_line-within out key t line named) in
        let cut : sections (line ∷ lines) ≡ sections lines = ground arith in
        ap (λ st. finish st lines) e ∙ inner out key t named ∙ ap (tabled out key t) (sym cut)
    | inr ((k, v), good) ↦ elim (Bool-cases (k == "public_key")) [
      | inl opens ↦
          let next : Scan = record {
            out = put v (blank v) (put key (sealed t) out);
            cur = v;
            sec = pos 0;
            nsec = pos 0;
          } in
          let e : scan_line parse_int (within out key t) line ≡ next =
            ground (arith, scan_line-within out key t line named) in
          let cut : sections (line ∷ lines) ≡ ([], (v, (sections lines).0) ∷ (sections lines).1) =
            ground arith in
          ap (λ st. finish st lines) e
          ∙ finish-blank lines inner outer (put key (sealed t) out) v
          ∙ ap (tabled out key t) (sym cut)
      | inr holds ↦
          let e : scan_line parse_int (within out key t) line
              ≡ within out key (read_value parse_int t k v) =
            ground (arith, scan_line-within out key t line named) in
          let cut : sections (line ∷ lines) ≡ ((k, v) ∷ (sections lines).0, (sections lines).1) =
            ground arith in
          ap (λ st. finish st lines) e
          ∙ inner out key (read_value parse_int t k v) named
          ∙ ap (tabled out key t) (sym cut)
    ]
  ]

  finish-cons-Outside :
      (line : String) (lines : List String) → Within lines → Outside lines → Outside (line ∷ lines)
  unfolding scan_lines sections table scan_line flush
  finish-cons-Outside line lines inner outer out = elim (Option-cases (cut_line line)) [
    | inl bad ↦
        let e : scan_line parse_int (outside out) line ≡ outside out = ground arith in
        let cut : (sections (line ∷ lines)).1 ≡ (sections lines).1 = ground arith in
        ap (λ st. finish st lines) e ∙ outer out ∙ ap (table out) (sym cut)
    | inr ((k, v), good) ↦ elim (Bool-cases (k == "public_key")) [
      | inl opens ↦
          let next : Scan = record {
            out = put v (blank v) out;
            cur = v;
            sec = pos 0;
            nsec = pos 0;
          } in
          let e : scan_line parse_int (outside out) line ≡ next = ground arith in
          let cut : (sections (line ∷ lines)).1 ≡ (v, (sections lines).0) ∷ (sections lines).1 =
            ground arith in
          ap (λ st. finish st lines) e
          ∙ finish-blank lines inner outer out v
          ∙ ap (table out) (sym cut)
      | inr holds ↦
          let e : scan_line parse_int (outside out) line ≡ outside out = ground arith in
          let cut : (sections (line ∷ lines)).1 ≡ (sections lines).1 = ground arith in
          ap (λ st. finish st lines) e ∙ outer out ∙ ap (table out) (sym cut)
    ]
  ]

  finish-lines : (lines : List String) → Within lines × Outside lines
  finish-lines [] = finish-nil
  finish-lines (line ∷ lines) =
      let (inner, outer) = finish-lines lines in
      (finish-cons-Within line lines inner outer, finish-cons-Outside line lines inner outer)

  -- What parseStatus makes of any text: an entry for each key, in which the last value of each
  -- name counts that stands in the last section of that key, with a handshake where its seconds
  -- are above zero. What stands before the first key, and in a section with an empty key, is
  -- dropped.
  pub parse_status-sections :
      (lines : List String) → parse_status parse_int lines ≡ table [] (sections lines).1
  unfolding parse_status
  parse_status-sections lines = (finish-lines lines).1 []
