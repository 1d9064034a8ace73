-- ===== src/Device/Fresh.antt =====
-- endpointOf of internal/wgdev/device.go: how old an address is that it returns.
use callsignet.Base.{ℕ, String, Option, List, [], ◌∷◌, string_key}
use callsignet.Status.{PeerStatus}
use callsignet.Device.{Snapshot, Endpoints}
use callsignet.Device.Questions.{read_endpoints, endpoint_of}

-- A call of endpointOf: its time, what wg would say, and the configuration.
pub record Question : Type 0 where
  pub now : ℕ
  pub state : Option (List String)
  pub snap : Snapshot

module _ (parse : List String → List (String × PeerStatus)) where
  abbrev pub says : Question → List (String × String)
  says q = read_endpoints parse q.snap q.state

  -- The memory after these calls, the last of which stands first.
  unfoldable pub after : List Question → Endpoints
  after [] = record { at = 0; by_id = [] }
  after (q ∷ qs) = (endpoint_of parse q.now q.state q.snap (after qs) "").0
