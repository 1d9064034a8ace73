-- ===== src/Device/Questions.antt =====
-- internal/wgdev/device.go: what the device asks wg, and what Status and HasPSK say.
--
-- The state that IpcGet gives is a list of lines, and `parse` is parseStatus; the clock is a
-- parameter.
use callsignet.Base.{
  ℕ, ◌+◌, String, Bool, true, false, not, Option, none, some, List, [], ◌∷◌, ltb, ◌==◌, string_key,
  find, value_or, if◌then◌else◌,
}
use callsignet.Status.{PeerStatus}
use callsignet.Device.{Snapshot, Endpoints}

abbrev second : ℕ
second = 1000000000

abbrev pub endpoint_ttl : ℕ
endpoint_ttl = second

module _ (parse : List String → List (String × PeerStatus)) where
  -- The first loop of readEndpoints.
  unfoldable pub seen_at :
      List (String × PeerStatus) → List (String × String) → List (String × String)
  seen_at by_key [] = []
  seen_at by_key ((id, key) ∷ m) =
      let rest = seen_at by_key m in
      elim (find key by_key) [
        | none ↦ rest
        | some p ↦ if not (p.endpoint == "") then (id, p.endpoint) ∷ rest else rest
      ]

  -- What wg says, or `none` for an error of IpcGet.
  unfoldable pub read_endpoints : Snapshot → Option (List String) → List (String × String)
  read_endpoints s none = []
  read_endpoints s (some state) = seen_at (parse state) s.pub_of

  -- endpointOf: the memory afterwards, and the address. `now.Sub(at)` of an earlier clock is below
  -- 0.
  unfoldable pub endpoint_of :
      ℕ → Option (List String) → Snapshot → Endpoints → String → Endpoints × String
  endpoint_of now state s e id =
      let fresh : Endpoints = record { at = now; by_id = read_endpoints s state } in
      let e' = if ltb (e.at + endpoint_ttl) now then fresh else e in
      (e', value_or "" (find id e'.by_id))

  -- Status: what wg says of each peer.
  unfoldable pub status_rows :
      List (String × PeerStatus) → List (String × String) → List (String × PeerStatus)
  status_rows by_key [] = []
  status_rows by_key ((id, key) ∷ m) =
      let rest = status_rows by_key m in
      elim (find key by_key) [ none ↦ rest | some p ↦ (id, p) ∷ rest ]

  unfoldable pub status : Snapshot → Option (List String) → List (String × PeerStatus)
  status s none = []
  status s (some state) = status_rows (parse state) s.pub_of

-- HasPSK.
unfoldable pub has_psk : Snapshot → String → Bool
has_psk s id = elim (find id s.psk) [ none ↦ false | some _ ↦ true ]
