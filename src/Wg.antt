-- ===== src/Wg.antt =====
-- internal/wgdev/uapi.go: what csa writes to the configuration interface of wg.
--
-- A text of that interface is the list of its lines. hex.EncodeToString and sort.Strings are
-- parameters, and so are base64 and TrimSpace, of the Host.
pub mod Orders
pub mod View
pub mod Entries
pub mod Written
pub mod Refines
pub mod Kept
use callsignet.Base.{
  ℕ, String, Bool, false, not, ◌&&◌, Option, none, some, List, [], ◌∷◌, ◌++◌, ℤ, ◌==◌, nat_key,
  string_key, find, put, value_or, length, if◌then◌else◌, Result, ok, err, ◌>>=◌,
}
use callsignet.Config.{Peer, Config}
use callsignet.Config.Problems.{Host}

abbrev pub keepalive_seconds : ℕ
keepalive_seconds = 25

pub data Line : Type 0 where
  private_key : String → Line
  listen_port : ℤ → Line
  replace_peers : Line
  public_key : String → Line
  remove : Line
  replace_allowed_ips : Line
  allowed_ip : String → Line  -- with /32 behind it
  preshared_key : String → Line
  endpoint : String → Line
  keepalive : ℕ → Line

pub data WgError : Type 0 where
  private_key_bad : WgError
  public_key_bad : String → String → WgError
  psk_bad : String → WgError

abbrev first_of : List String → String
first_of [] = ""
first_of (s ∷ _) = s

-- wg takes the first address only.
unfoldable pub same_endpoint : List String → List String → Bool
same_endpoint a b = first_of a == first_of b

-- `if len(p.Endpoints) > 0 { … }`.
abbrev pub endpoint_lines : List String → List Line
endpoint_lines [] = []
endpoint_lines (ep ∷ _) = endpoint ep ∷ []

unfoldable pub peers_by_id : String → List (String × Peer) → List Peer → List (String × Peer)
peers_by_id self_id m [] = m
peers_by_id self_id m (p ∷ ps) =
    peers_by_id self_id (if p.peer_id == self_id then m else put p.peer_id p m) ps

abbrev pub peers_of : Config → List (String × Peer)
peers_of c = peers_by_id c.self.peer_id [] c.peers

-- `psk[id]`, where a missing key reads the empty text.
abbrev pub psk_at : String → List (String × String) → String
psk_at id psk = value_or "" (find id psk)

-- The test that leaves a peer out.
unfoldable pub unchanged : Option Peer → Peer → String → String → Bool
unchanged none p old_psk cur_psk = false
unchanged (some o) p old_psk cur_psk =
    o.public_key == p.public_key
    && o.tunnel_ip == p.tunnel_ip
    && same_endpoint o.endpoints p.endpoints
    && old_psk == cur_psk

abbrev pub names_of : List (String × Peer) → List String
names_of [] = []
names_of ((id, _) ∷ m) = id ∷ names_of m

module _ (h : Host) (hex : List ℕ → String) where
  -- `none` for its errors: no base64, or not 32 bytes.
  unfoldable pub key_to_hex : String → Option String
  key_to_hex b64 = elim (h.decode64 (h.trim_space b64)) [
    | none ↦ none
    | some raw ↦ if not (length raw == 32) then none else some (hex raw)
  ]

  unfoldable pub write_psk : String → String → Result WgError (List Line)
  write_psk key id =
      if key == ""
      then ok []
      else elim (key_to_hex key) [ none ↦ err (psk_bad id) | some k ↦ ok (preshared_key k ∷ []) ]

  -- The lines of one peer, which UAPIConfig and UAPIReload both write.
  unfoldable pub peer_lines : String → Peer → String → Result WgError (List Line)
  peer_lines id p psk = elim (key_to_hex p.public_key) [
    | none ↦ err (public_key_bad id p.public_key)
    | some k ↦ do
      psk_lines ← write_psk psk id
      ok (
          public_key k
          ∷ replace_allowed_ips
          ∷ allowed_ip p.tunnel_ip
          ∷ (psk_lines ++ (endpoint_lines p.endpoints ++ keepalive keepalive_seconds ∷ [])))
  ]

  -- The loop of UAPIConfig.
  unfoldable pub config_lines :
      String → List (String × String) → List Peer → Result WgError (List Line)
  config_lines self_id psk [] = ok []
  config_lines self_id psk (p ∷ ps) =
      let skipped = config_lines self_id psk ps in
      let written : Result WgError (List Line) = do
        lines ← peer_lines p.peer_id p (psk_at p.peer_id psk)
        rest ← config_lines self_id psk ps
        ok (lines ++ rest)
      in if p.peer_id == self_id then skipped else written

  unfoldable pub uapi_config : Config → String → List (String × String) → Result WgError (List Line)
  uapi_config c private_key_b64 psk = elim (key_to_hex private_key_b64) [
    | none ↦ err private_key_bad
    | some priv ↦ do
      rest ← config_lines c.self.peer_id psk c.peers
      ok (private_key priv ∷ listen_port c.self.listen_port ∷ replace_peers ∷ rest)
  ]

  -- The lines that take a peer away, where its key can be read.
  abbrev pub remove_lines : String → List Line
  remove_lines key = elim (key_to_hex key) [ none ↦ [] | some k ↦ public_key k ∷ remove ∷ [] ]

  -- The loop over the peers that were.
  unfoldable pub gone_lines : List (String × Peer) → List (String × Peer) → List Line
  gone_lines cur [] = []
  gone_lines cur ((id, p) ∷ m) =
      elim (find id cur) [ none ↦ remove_lines p.public_key | some _ ↦ [] ] ++ gone_lines cur m

  -- The old key of a peer that has a new one.
  abbrev pub rekey_lines : Option Peer → Peer → List Line
  rekey_lines none p = []
  rekey_lines (some o) p =
      if not (o.public_key == p.public_key) then remove_lines o.public_key else []

  -- The loop over the names that are, with the two builders `remove` and `add`. A name stands in
  -- the map, since the names are its keys.
  unfoldable pub reload_each :
      List (String × Peer)
      → List (String × Peer)
      → List (String × String)
      → List (String × String)
      → List String
      → Result WgError (List Line × List Line)
  reload_each old cur old_psk cur_psk [] = ok ([], [])
  reload_each old cur old_psk cur_psk (id ∷ ids) =
      let later = reload_each old cur old_psk cur_psk ids in
      elim (find id cur) [
        | none ↦ later
        | some p ↦
            let changed : Result WgError (List Line × List Line) = do
              lines ← peer_lines id p (psk_at id cur_psk)
              rest ← reload_each old cur old_psk cur_psk ids
              ok (rekey_lines (find id old) p ++ rest.0, lines ++ rest.1)
            in if unchanged (find id old) p (psk_at id old_psk) (psk_at id cur_psk)
              then later
              else changed
      ]

  unfoldable pub uapi_reload :
      (List String → List String)
      → Config
      → Config
      → List (String × String)
      → List (String × String)
      → Result WgError (List Line)
  uapi_reload sort old cur old_psk cur_psk = do
    both ←
        reload_each (peers_of old) (peers_of cur) old_psk cur_psk (sort (names_of (peers_of cur)))
    ok ((gone_lines (peers_of cur) (peers_of old) ++ both.0) ++ both.1)
