-- ===== src/Tests/Wg.antt =====
-- wg reloaded, on a model of wg that reads the lines one after another.
use callsignet.Base.{
  ℕ, String, Bool, true, Option, none, some, List, [], ◌∷◌, ◌++◌, ◌==◌, nat_key, string_key, eq_iff,
  find, put, get_or, ok, if◌then◌else◌, ◌≡◌, refl, sym, ap, ◌∙◌, arith,
}
use callsignet.Config.{Peer, Config}
use callsignet.Wg.{
  Line, public_key, remove, replace_allowed_ips, allowed_ip, preshared_key, endpoint, keepalive,
  unchanged, uapi_reload, reload_each, peers_by_id, gone_lines, peer_lines, write_psk,
  same_endpoint, key_to_hex, peers_of, psk_at,
}
use callsignet.Wg.Orders.{Give, give_lines, render_gives, render_drops}
use callsignet.Wg.Written.{has_key, OneKey, keyed}
use callsignet.Wg.Kept.{uapi_reload-untouched, uapi_reload-psk_kept}
use callsignet.Wg.Refines.{uapi_reload-known}
use callsignet.Wg.View.{View, Wg, drop_key, give_key, drop_all, give_all}
use callsignet.Tests.Samples.{peer_a, peer_b, config_a}
use callsignet.Tests.Checks.{host_a, as_found, as_found-IsSort}

-- The peer that the lines are about, and what wg holds.
abbrev Reader : Type 0
Reader = String × View

abbrev part : String → Option String → Option String → Give
part cur psk at = record { key = cur; ip = ""; psk = psk; at = at }

abbrev take_line : Reader → Line → Reader
take_line (cur, v) (public_key k) = (k, v)
take_line (cur, v) remove = (cur, drop_key cur v)
take_line (cur, v) replace_allowed_ips = (cur, give_key (part cur none none) v)
take_line (cur, v) (preshared_key x) = (cur, give_key (part cur (some x) none) v)
take_line (cur, v) (endpoint ep) = (cur, give_key (part cur none (some ep)) v)
take_line r _ = r

unfoldable take_lines : Reader → List Line → Reader
take_lines r [] = r
take_lines r (l ∷ ls) = take_lines (take_line r l) ls

same_view :
    (v w : View)
    → ((j : String) → v.known j ≡ w.known j)
    → ((j : String) → v.psk j ≡ w.psk j)
    → ((j : String) → v.at j ≡ w.at j)
    → v ≡ w
same_view v w known psk at =
    λ i. record { known = λ j. known j i; psk = λ j. psk j i; at = λ j. at j i }

-- wg reads the lines of a peer one by one, or all at once.
give_parts :
    (k ip : String) (psk at : Option String) (v : View) (cur : String) (rest : List Line)
    → take_lines (cur, v) (give_lines (record { key = k; ip = ip; psk = psk; at = at }) ++ rest)
      ≡ take_lines (k, give_key (record { key = k; ip = ip; psk = psk; at = at }) v) rest
unfolding take_lines
give_parts k ip none none v cur rest = refl
give_parts k ip (some x) none v cur rest =
    ap (λ w. take_lines (k, w) rest)
      (same_view _ _ (λ j. ground arith) (λ j. ground arith) (λ j. ground arith))
give_parts k ip none (some ep) v cur rest =
    ap (λ w. take_lines (k, w) rest)
      (same_view _ _ (λ j. ground arith) (λ j. ground arith) (λ j. ground arith))
give_parts k ip (some x) (some ep) v cur rest =
    ap (λ w. take_lines (k, w) rest)
      (same_view _ _ (λ j. ground arith) (λ j. ground arith) (λ j. ground arith))

drop_parts :
    (ks : List String) (v : View) (cur : String) (rest : List Line)
    → (c : String) × (take_lines (cur, v) (render_drops ks ++ rest)
        ≡ take_lines (c, drop_all ks v) rest)
unfolding take_lines render_drops drop_all
drop_parts [] v cur rest = (cur, refl)
drop_parts (k ∷ ks) v cur rest = drop_parts ks (drop_key k v) k rest

all_parts :
    (gs : List Give) (v : View) (cur : String)
    → (take_lines (cur, v) (render_gives gs)).1 ≡ give_all gs v
unfolding take_lines render_gives give_all
all_parts [] v cur = refl
all_parts (g ∷ gs) v cur =
    ap (λ (r : Reader). r.1) (give_parts g.key g.ip g.psk g.at v cur (render_gives gs))
    ∙ all_parts gs (give_key g v) g.key

-- A wg that takes every batch.
abbrev wg : Wg View
wg = record {
  set = λ ls v. ((take_lines ("", v) ls).1, true);
  view = λ v. v;
  obeys = λ ks gs v v' e.
      let (c, dropped) = drop_parts ks v "" (render_gives gs) in
      sym (ap (λ (x : View × Bool). x.0) e)
      ∙ ap (λ (r : Reader). r.1) dropped
      ∙ all_parts gs (drop_all ks v) c;
}

abbrev pub hex : List ℕ → String
hex bs = if get_or bs 0 0 == 1 then "aa" else if get_or bs 0 0 == 2 then "bb" else "cc"

-- srv-b has another key.
abbrev rekeyed_b : Config
rekeyed_b = record config_a { peers = peer_a ∷ record peer_b { public_key = "K" } ∷ [] }

abbrev rekeyed_lines : List Line
rekeyed_lines =
    public_key "bb"
    ∷ remove
    ∷ public_key "cc"
    ∷ replace_allowed_ips
    ∷ allowed_ip "10.0.0.2"
    ∷ endpoint "192.0.2.7:51820"
    ∷ keepalive 25
    ∷ []

rekeyed_written : uapi_reload host_a hex as_found config_a rekeyed_b [] [] ≡ ok rekeyed_lines
unfolding uapi_reload reload_each peers_by_id gone_lines peer_lines write_psk unchanged
    same_endpoint key_to_hex find put
rekeyed_written = refl

one_b : OneKey host_a hex (peers_of config_a)
unfolding peers_by_id find put
one_b k i j p q at_i at_j has_p has_q = ground (arith, eq_iff "srv-b" i, eq_iff "srv-b" j)

-- wg knows the key of srv-b.
abbrev knows_b : View
knows_b = record {
  known = λ k. keyed host_a hex k (peers_of config_a);
  psk = λ k. none;
  at = λ k. some "192.0.2.7:4";
}

abbrev rekeyed_view : View
rekeyed_view = (wg.set rekeyed_lines knows_b).0

uapi_reload-known_example : rekeyed_view.known "cc" ≡ keyed host_a hex "cc" (peers_of rekeyed_b)
uapi_reload-known_example =
    uapi_reload-known host_a hex wg as_found as_found-IsSort config_a rekeyed_b [] [] rekeyed_lines
      knows_b rekeyed_view rekeyed_written refl one_b (λ k. refl) "cc"

-- The same peer with a new service, and with a pre-shared key that is gone.
abbrev serving_b : Config
serving_b = record config_a { peers = peer_a ∷ record peer_b { services = [] } ∷ [] }

abbrev serving_p : Peer
serving_p = record peer_b { services = [] }

abbrev keyed_psk : List (String × String)
keyed_psk = ("srv-b", "K") ∷ []

one_s : OneKey host_a hex (peers_of serving_b)
unfolding peers_by_id find put
one_s k i j p q at_i at_j has_p has_q = ground (arith, eq_iff "srv-b" i, eq_iff "srv-b" j)

nothing_written : uapi_reload host_a hex as_found config_a serving_b [] [] ≡ ok []
unfolding uapi_reload reload_each peers_by_id gone_lines peer_lines write_psk unchanged
    same_endpoint key_to_hex find put
nothing_written = refl

abbrev unkeyed_lines : List Line
unkeyed_lines =
    public_key "bb"
    ∷ replace_allowed_ips
    ∷ allowed_ip "10.0.0.2"
    ∷ endpoint "192.0.2.7:51820"
    ∷ keepalive 25
    ∷ []

unkeyed_written : uapi_reload host_a hex as_found config_a serving_b keyed_psk [] ≡ ok unkeyed_lines
unfolding uapi_reload reload_each peers_by_id gone_lines peer_lines write_psk unchanged
    same_endpoint key_to_hex find put
unkeyed_written = refl

was_b : find "srv-b" (peers_of config_a) ≡ some peer_b
unfolding peers_by_id find put
was_b = refl

there_b : find "srv-b" (peers_of serving_b) ≡ some serving_p
unfolding peers_by_id find put
there_b = refl

has_b : has_key host_a hex "bb" serving_p ≡ true
unfolding key_to_hex
has_b = refl

same_b : unchanged (some peer_b) serving_p (psk_at "srv-b" []) (psk_at "srv-b" []) ≡ true
unfolding unchanged same_endpoint find
same_b = refl

uapi_reload-untouched_example :
    ((wg.set [] knows_b).0.psk "bb" ≡ knows_b.psk "bb")
    × ((wg.set [] knows_b).0.at "bb" ≡ knows_b.at "bb")
uapi_reload-untouched_example =
    uapi_reload-untouched host_a hex wg as_found config_a serving_b [] [] [] knows_b
      (wg.set [] knows_b).0 nothing_written refl one_b one_s "srv-b" "bb" peer_b serving_p was_b
      there_b refl has_b same_b

no_psk : psk_at "srv-b" [] ≡ ""
unfolding find
no_psk = refl

-- wg holds a pre-shared key for srv-b.
abbrev holds_psk : View
holds_psk = record knows_b { psk = λ k. some "cc" }

uapi_reload-psk_kept_example : (wg.set unkeyed_lines holds_psk).0.psk "bb" ≡ holds_psk.psk "bb"
uapi_reload-psk_kept_example =
    uapi_reload-psk_kept host_a hex wg as_found config_a serving_b keyed_psk [] unkeyed_lines
      holds_psk (wg.set unkeyed_lines holds_psk).0 unkeyed_written refl one_b one_s "srv-b" "bb"
      peer_b serving_p was_b there_b refl has_b no_psk
