-- ===== src/Status/Values.antt =====
-- The switch of parseStatus of internal/wgdev/status.go, over all values of a section.
use callsignet.Base.{
  String, true, false, Option, none, some, List, [], ◌∷◌, ℤ, pos, int_ltb, ◌==◌, string_key, eq_iff,
  value_or, refl, if◌then◌else◌, ◌≡◌, sym, subst, ◌∙◌, arith, Bool-cases, inl, inr,
}
use callsignet.Status.{PeerStatus, blank, read_value}

-- A handshake counts from its first second.
abbrev pub sealed : PeerStatus × (ℤ × ℤ) → PeerStatus
sealed (p, (sec, nsec)) =
    if int_ltb (pos 0) sec then record p { handshake = some (sec, nsec) } else p

-- The last value of a name.
pub last_of : String → List (String × String) → Option String
last_of name [] = none
last_of name ((k, v) ∷ values) = elim (last_of name values) [
  | some w ↦ some w
  | none ↦ if k == name then some v else none
]

module _ (parse_int : String → ℤ) where
  abbrev pub read_values : PeerStatus × (ℤ × ℤ) → List (String × String) → PeerStatus × (ℤ × ℤ)
  read_values t [] = t
  read_values t ((k, v) ∷ values) = read_values (read_value parse_int t k v) values

  -- The number that the last value of a name says, or what there was before.
  abbrev number_or : ℤ → String → List (String × String) → ℤ
  number_or n name values = elim (last_of name values) [ none ↦ n | some v ↦ parse_int v ]

  abbrev merged : PeerStatus × (ℤ × ℤ) → List (String × String) → PeerStatus × (ℤ × ℤ)
  merged (p, (sec, nsec)) values = (
    record {
      public_key = p.public_key;
      endpoint = value_or p.endpoint (last_of "endpoint" values);
      handshake = p.handshake;
      rx_bytes = number_or p.rx_bytes "rx_bytes" values;
      tx_bytes = number_or p.tx_bytes "tx_bytes" values;
    },
    (
      number_or sec "last_handshake_time_sec" values,
      number_or nsec "last_handshake_time_nsec" values,
    ),
  )

  -- A value is read as the one name that it has.
  abbrev Merges : PeerStatus × (ℤ × ℤ) → List (String × String) → String → String → Type 0
  Merges t values v k = merged (read_value parse_int t k v) values ≡ merged t ((k, v) ∷ values)

  merged-cons :
      (t : PeerStatus × (ℤ × ℤ)) (k v : String) (values : List (String × String))
      → Merges t values v k
  unfolding last_of read_value
  merged-cons t k v values =
      let named = λ (name : String) (e : (k == name) ≡ true) (m : Merges t values v name).
        subst (Merges t values v) (sym ((eq_iff k name).0 e)) m in
      elim (Bool-cases (k == "endpoint")) [
        | inl e ↦ named "endpoint" e (ground arith)
        | inr not_endpoint ↦ elim (Bool-cases (k == "rx_bytes")) [
          | inl e ↦ named "rx_bytes" e (ground arith)
          | inr not_rx_bytes ↦ elim (Bool-cases (k == "tx_bytes")) [
            | inl e ↦ named "tx_bytes" e (ground arith)
            | inr not_tx_bytes ↦ elim (Bool-cases (k == "last_handshake_time_sec")) [
              | inl e ↦ named "last_handshake_time_sec" e (ground arith)
              | inr not_last_handshake_time_sec ↦
                  elim (Bool-cases (k == "last_handshake_time_nsec")) [
                    | inl e ↦ named "last_handshake_time_nsec" e (ground arith)
                    | inr not_last_handshake_time_nsec ↦ ground arith
                  ]
            ]
          ]
        ]
      ]

  read_values-merged :
      (t : PeerStatus × (ℤ × ℤ)) (values : List (String × String))
      → read_values t values ≡ merged t values
  unfolding last_of
  read_values-merged t [] = refl
  read_values-merged t ((k, v) ∷ values) =
      read_values-merged (read_value parse_int t k v) values ∙ merged-cons t k v values

  -- What a section says of its peer: the last value of each name counts, and a handshake counts
  -- from its first second. A section with no key says nothing.
  abbrev pub status_of : String → List (String × String) → PeerStatus
  status_of key values =
      let sec = number_or (pos 0) "last_handshake_time_sec" values in
      let nsec = number_or (pos 0) "last_handshake_time_nsec" values in
      if key == "" then blank key else record {
        public_key = key;
        endpoint = value_or "" (last_of "endpoint" values);
        handshake = if int_ltb (pos 0) sec then some (sec, nsec) else none;
        rx_bytes = number_or (pos 0) "rx_bytes" values;
        tx_bytes = number_or (pos 0) "tx_bytes" values;
      }

  pub status_of-sealed :
      (key : String) (values : List (String × String))
      → (key == "") ≡ false
      → sealed (read_values (blank key, (pos 0, pos 0)) values) ≡ status_of key values
  status_of-sealed key values named =
      ground (arith, read_values-merged (blank key, (pos 0, pos 0)) values)
