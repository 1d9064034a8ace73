-- ===== src/Policy/Refines.antt =====
-- The decisions of internal/policy/policy.go, under rules that New built, against policy.toml.
use mathlib.Core.Path.{ap₂, fun_ext}
use callsignet.Base.{
  ℕ, String, Bool, ◌&&◌, ◌||◌, List, [], ◌∷◌, ◌++◌, ◌≡◌, refl, sym, ◌∙◌, ap, arith, ◌==◌, nat_key,
  any, any_cong, any-append, or_false, find, find-put, value_or, ok, string_key,
}
use callsignet.Net.{Addr, addr_key}
use callsignet.Config.{Parsers, Inbound, Config}
use callsignet.Policy.{Rule, Rules, target_key, allows, judge, inbound, inbound_icmp}
use callsignet.Policy.Compile.{add_rule, add_inbounds, add_target, blank, new, port_at}
use callsignet.Policy.Loops.{
  add_inbounds-cons, add_outbounds_inv, add_inbounds_inv, Built, new-Built,
}
use callsignet.Policy.Tables.{tables-peers}
use callsignet.Policy.Admission.{allows-make_rule}
use callsignet.Policy.Intent.{for_some, is_port, owner_of, entry_admits, port_admits}

-- Whether a rule at the port, or any rule, lets the peer in.
abbrev lets_in : ℕ → Rules → String → ℕ → Addr → Bool
lets_in now r id port from = any (λ u. allows now u id from) (value_or [] (find port r.inbound))

lets_in-add_rule :
    (now : ℕ) (r : Rules) (p q : ℕ) (u : Rule) (id : String) (from : Addr)
    → lets_in now (add_rule r p u) id q from
      ≡ (lets_in now r id q from || (p == q && allows now u id from))
unfolding add_rule
lets_in-add_rule now r p q u id from = ground (
  arith,
  find-put p q (value_or [] (find p r.inbound) ++ u ∷ []) r.inbound,
  any-append (λ v. allows now v id from) (value_or [] (find p r.inbound)) (u ∷ []),
  or_false (lets_in now r id q from),
)

module _ (P : Parsers) (port_of : List (String × List (String × ℕ))) (self_id : String) where
  -- Whether an entry admits the peer to the port, by the table of ports.
  abbrev entry_opens : ℕ → String → ℕ → Addr → Inbound → Bool
  entry_opens now id port from e =
      is_port (port_at port_of self_id e.app) port && entry_admits P now e id from

  lets_in-add_inbounds :
      (now : ℕ) (id : String) (port : ℕ) (from : Addr) (r : Rules) (es : List Inbound) {r' : Rules}
      → add_inbounds P port_of self_id r es ≡ ok r'
      → lets_in now r' id port from
        ≡ (lets_in now r id port from || any (entry_opens now id port from) es)
  unfolding add_inbounds
  lets_in-add_inbounds now id port from r [] {r'} h = let e : r' ≡ r = cc in rw e (sym (or_false _))
  lets_in-add_inbounds now id port from r (e ∷ es) h =
      let c = add_inbounds-cons P port_of self_id r e es h in
      ground (
        arith,
        lets_in-add_inbounds now id port from (add_rule r c.port c.rule) es c.rest,
        lets_in-add_rule now r c.port port c.rule id from,
        allows-make_rule P now e id from c.made,
        c.served,
      )

-- Inbound allows exactly when it knows the peer and a rule at the port lets it in.
inbound-lets_in :
    (now : ℕ) (r : Rules) (src : Addr) (port : ℕ) (from : Addr)
    → (inbound now r src port from).allow
      ≡ for_some (find src r.peer_by_ip) (λ id. lets_in now r id port from)
unfolding inbound judge
inbound-lets_in now r src port from = ground arith

-- What the loop over outbound leaves alone.
abbrev SameInbound : Rules → Rules → Type 0
SameInbound m r =
    (r.peer_by_ip ≡ m.peer_by_ip) × (r.inbound ≡ m.inbound) × (r.all_inbound ≡ m.all_inbound)

SameInbound-add_target :
    (m r : Rules) (ip : Addr) (port : ℕ) → SameInbound m r → SameInbound m (add_target r ip port)
unfolding add_target
SameInbound-add_target m r ip port h = h

-- What the loop over [[inbound]] leaves alone.
abbrev pub SameOutbound : Rules → Rules → Type 0
SameOutbound m r =
    (r.peer_by_ip ≡ m.peer_by_ip)
    × (r.outbound ≡ m.outbound)
    × (r.outbound_peers ≡ m.outbound_peers)

SameOutbound-add_rule :
    (m r : Rules) (port : ℕ) (u : Rule) → SameOutbound m r → SameOutbound m (add_rule r port u)
unfolding add_rule
SameOutbound-add_rule m r port u h = h

module _ (P : Parsers) (c : Config) {r : Rules} (b : Built P c r) where
  same_inbound : SameInbound b.middle r
  same_inbound =
      add_outbounds_inv P b.tables.port_of (SameInbound b.middle) (SameInbound-add_target b.middle)
        c.peers b.middle c.policy.outbound (refl, refl, refl) b.outbound_made

  pub same_outbound : SameOutbound (blank b.tables c.self.peer_id) b.middle
  same_outbound =
      let start = blank b.tables c.self.peer_id in
      add_inbounds_inv P b.tables.port_of (SameOutbound start) (SameOutbound-add_rule start)
        c.self.peer_id start c.policy.inbound (refl, refl, refl) b.inbound_made

  pub peers_built : (ip : Addr) → find ip r.peer_by_ip ≡ owner_of P ip c.peers
  peers_built ip =
      ap (find ip) (same_inbound.0 ∙ same_outbound.0)
      ∙ (tables-peers P c.peers b.tables b.tables_made).0 ip

  entries_built :
      (now : ℕ) (id : String) (port : ℕ) (from : Addr)
      → lets_in now r id port from ≡ port_admits P now c id port from
  unfolding port_admits find
  entries_built now id port from =
      ap (λ (m : List (ℕ × List Rule)). any (λ u. allows now u id from) (value_or [] (find port m)))
        same_inbound.1
      ∙ lets_in-add_inbounds P b.tables.port_of c.self.peer_id now id port from _ c.policy.inbound
          b.inbound_made
      ∙ any_cong (entry_opens P b.tables.port_of c.self.peer_id now id port from) _ c.policy.inbound
          (λ e.
            ap (λ o. is_port o port && entry_admits P now e id from)
              ((tables-peers P c.peers b.tables b.tables_made).1 c.self.peer_id e.app))

-- Under rules that New built, a packet that came in is allowed exactly when its tunnel address
-- belongs to a peer of peers.toml and an [[inbound]] entry, for an app of this machine on that
-- port, admits that peer from the observed source at that time.
pub inbound-port_admits :
    (P : Parsers) (c : Config) (r : Rules) (now : ℕ) (src : Addr) (port : ℕ) (from : Addr)
    → new P c ≡ ok r
    → (inbound now r src port from).allow
      ≡ for_some (owner_of P src c.peers) (λ id. port_admits P now c id port from)
inbound-port_admits P c r now src port from h =
    let b = new-Built P c h in
    inbound-lets_in now r src port from
    ∙ ap₂ for_some (peers_built P c b src) (fun_ext (λ id. entries_built P c b now id port from))

every-add_rule :
    (now : ℕ) (r : Rules) (p : ℕ) (u : Rule) (id : String) (from : Addr)
    → any (λ v. allows now v id from) (add_rule r p u).all_inbound
      ≡ (any (λ v. allows now v id from) r.all_inbound || allows now u id from)
unfolding add_rule
every-add_rule now r p u id from = ground (
  arith,
  any-append (λ v. allows now v id from) r.all_inbound (u ∷ []),
  or_false (allows now u id from),
)

every-add_inbounds :
    (P : Parsers) (port_of : List (String × List (String × ℕ))) (self_id : String) (now : ℕ)
    (id : String) (from : Addr) (r : Rules) (es : List Inbound) {r' : Rules}
    → add_inbounds P port_of self_id r es ≡ ok r'
    → any (λ v. allows now v id from) r'.all_inbound ≡ (
        any (λ v. allows now v id from) r.all_inbound || any (λ e. entry_admits P now e id from) es)
unfolding add_inbounds
every-add_inbounds P port_of self_id now id from r [] {r'} h =
    let e : r' ≡ r = cc in rw e (sym (or_false _))
every-add_inbounds P port_of self_id now id from r (e ∷ es) h =
    let c = add_inbounds-cons P port_of self_id r e es h in
    ground (
      arith,
      every-add_inbounds P port_of self_id now id from (add_rule r c.port c.rule) es c.rest,
      every-add_rule now r c.port c.rule id from,
      allows-make_rule P now e id from c.made,
    )

inbound_icmp-every :
    (now : ℕ) (r : Rules) (src from : Addr)
    → (inbound_icmp now r src from).allow
      ≡ for_some (find src r.peer_by_ip) (λ id. any (λ v. allows now v id from) r.all_inbound)
unfolding inbound_icmp judge
inbound_icmp-every now r src from = ground arith

-- Under rules that New built, a packet without a port that came in is allowed exactly when its
-- tunnel address belongs to a peer of peers.toml and some [[inbound]] entry, of any app, admits
-- that peer from the observed source at that time.
pub inbound_icmp-entry_admits :
    (P : Parsers) (c : Config) (r : Rules) (now : ℕ) (src from : Addr)
    → new P c ≡ ok r
    → (inbound_icmp now r src from).allow
      ≡ for_some
          (owner_of P src c.peers)
          (λ id. any (λ e. entry_admits P now e id from) c.policy.inbound)
inbound_icmp-entry_admits P c r now src from h =
    let b = new-Built P c h in
    inbound_icmp-every now r src from
    ∙ ap₂ for_some (peers_built P c b src) (
        fun_ext (λ id.
          ap (any (λ v. allows now v id from)) (same_inbound P c b).2
          ∙ every-add_inbounds P b.tables.port_of c.self.peer_id now id from _ c.policy.inbound
              b.inbound_made))
