-- ===== src/Policy/Allows.antt =====
-- rule.allows of internal/policy/policy.go: whom a rule lets in.
use callsignet.Base.{ℕ, String, ◌≤◌, true, [], ◌≡◌, ◌≢◌, ◌↔◌, ◌⊎◌, arith, contains, string_key}
use callsignet.Net.{Addr}
use callsignet.Policy.{Rule, dead, in_any, allows}

-- A rule without a condition admits nobody; each condition that is set must hold.
pub record Admits (now : ℕ) (u : Rule) (id : String) (from : Addr) : Type 0 where
  pub conditioned : (u.peers ≢ []) ⊎ (u.cidrs ≢ [])
  pub in_time : (u.expires ≡ 0) ⊎ (now ≤ u.expires)
  pub named : (u.peers ≡ []) ⊎ (contains id u.peers ≡ true)
  pub within : (u.cidrs ≡ []) ⊎ (in_any u.cidrs from ≡ true)

-- A rule lets a peer in from a source exactly when it has a condition, its date is not set or not
-- past, the peer is among its peers if it names any, and the source is in one of its ranges if it
-- has any.
pub allows_iff :
    (now : ℕ) (u : Rule) (id : String) (from : Addr)
    → (allows now u id from ≡ true) ↔ Admits now u id from
unfolding allows dead
allows_iff now u id from = ground arith
