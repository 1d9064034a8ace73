-- ===== src/Policy/Admission.antt =====
-- The rule that make_rule of internal/policy/policy.go builds from an [[inbound]] entry admits
-- whom the entry admits.
use callsignet.Base.{
  ℕ, String, false, not, ◌&&◌, ◌||◌, List, [], ◌∷◌, ◌++◌, ◌≡◌, refl, sym, inl, inr, arith, ◌==◌,
  nat_key, string_key, eq_iff, ltb, contains, is_empty, any, any-append, or_false, Option-cases, ok,
  Result-cases,
}
use callsignet.Net.{Addr, Prefix, prefix_contains, masked}
use callsignet.Net.Prefixes.{prefix_contains-masked}
use callsignet.Config.{Parsers, Inbound}
use callsignet.Policy.{Rule, dead, in_any, allows}
use callsignet.Policy.Compile.{add_all, add_cidrs, parse_expires, make_rule}
use callsignet.Policy.Intent.{covers, in_date, entry_admits}

contains-append :
    (x : String) (xs ys : List String) → contains x (xs ++ ys) ≡ (contains x xs || contains x ys)
unfolding contains
contains-append x [] ys = refl
contains-append x (y ∷ xs) ys = ground (arith, contains-append x xs ys)

contains-add_all :
    (x : String) (ids xs : List String)
    → contains x (add_all ids xs) ≡ (contains x ids || contains x xs)
unfolding add_all contains
contains-add_all x ids [] = sym (or_false _)
contains-add_all x ids (y ∷ ys) = ground (
  arith,
  contains-add_all x ids ys,
  contains-add_all x (ids ++ y ∷ []) ys,
  contains-append x ids (y ∷ []),
  eq_iff y x,
)

is_empty-append {ℓ} : {A : Type ℓ} (xs : List A) (y : A) → is_empty (xs ++ y ∷ []) ≡ false
is_empty-append [] y = refl
is_empty-append (x ∷ xs) y = refl

is_empty-add_all :
    (ids xs : List String) → is_empty (add_all ids xs) ≡ (is_empty ids && is_empty xs)
unfolding add_all contains
is_empty-add_all [] [] = refl
is_empty-add_all (i ∷ ids) [] = refl
is_empty-add_all [] (x ∷ xs) = is_empty-add_all (x ∷ []) xs
is_empty-add_all (i ∷ ids) (x ∷ xs) =
    ground (arith, is_empty-add_all (i ∷ ids) xs, is_empty-add_all (i ∷ ids ++ x ∷ []) xs)

module _ (P : Parsers) where
  cidrs_cover :
      (app : String) (from : Addr) (out : List Prefix) (ss : List String) {cidrs : List Prefix}
      → add_cidrs P app out ss ≡ ok cidrs
      → any (λ c. prefix_contains c from) cidrs
        ≡ (any (λ c. prefix_contains c from) out || any (covers P from) ss)
  unfolding add_cidrs
  cidrs_cover app from out [] h = ground (arith, or_false (any (λ c. prefix_contains c from) out))
  cidrs_cover app from out (s ∷ ss) {cidrs} h = elim (Option-cases (P.parse_prefix s)) [
    | inl bad ↦ absurd (ground arith)
    | inr (pfx, read) ↦
        let rest =
          cidrs_cover app from (out ++ masked pfx ∷ []) ss {cidrs = cidrs} (ground arith) in
        ground (
          arith,
          rest,
          any-append (λ c. prefix_contains c from) out (masked pfx ∷ []),
          prefix_contains-masked pfx from,
        )
  ]

  cidrs_empty :
      (app : String) (out : List Prefix) (ss : List String) {cidrs : List Prefix}
      → add_cidrs P app out ss ≡ ok cidrs
      → is_empty cidrs ≡ (is_empty out && is_empty ss)
  unfolding add_cidrs
  cidrs_empty app out [] h = ground arith
  cidrs_empty app out (s ∷ ss) {cidrs} h = elim (Option-cases (P.parse_prefix s)) [
    | inl bad ↦ absurd (ground arith)
    | inr (pfx, read) ↦
        let rest = cidrs_empty app (out ++ masked pfx ∷ []) ss {cidrs = cidrs} (ground arith) in
        ground (arith, rest, is_empty-append out (masked pfx))
  ]

  expires_date :
      (now : ℕ) (app s : String) {t : ℕ}
      → parse_expires P app s ≡ ok t
      → in_date P now s ≡ (t == 0 || not (ltb t now))
  unfolding parse_expires
  expires_date now app s h = elim (Option-cases (P.parse_date s)) [
    | inl bad ↦ ground (arith, eq_iff s "")
    | inr (d, read) ↦ ground (arith, eq_iff s "")
  ]

  pub allows-make_rule :
      (now : ℕ) (e : Inbound) (id : String) (from : Addr) {u : Rule}
      → make_rule P e ≡ ok u
      → allows now u id from ≡ entry_admits P now e id from
  unfolding make_rule allows dead in_any entry_admits contains
  allows-make_rule now e id from h = elim (Result-cases (add_cidrs P e.app [] e.allow_cidr)) [
    | inr (x, failed) ↦ absurd (ground arith)
    | inl (cidrs, read) ↦ elim (Result-cases (parse_expires P e.app e.expires)) [
      | inr (x, failed) ↦ absurd (ground arith)
      | inl (expires, dated) ↦ ground (
        arith,
        cidrs_cover e.app from [] e.allow_cidr read,
        cidrs_empty e.app [] e.allow_cidr read,
        expires_date now e.app e.expires dated,
        contains-add_all id [] e.allow,
        is_empty-add_all [] e.allow,
      )
    ]
  ]
