-- ===== src/Secrets/Place.antt =====
-- safePath of internal/config/secret.go: which directories are looked at, and that the climb ends.
use Prim.Native.Char.{code}
use callsignet.Base.{
  ℕ, zero, suc, ◌<◌, ◌≡◌, ◌⊎◌, ◌∙◌, refl, ap, subst, arith, String, Bool, true, false, none, some,
  List, [], ◌∷◌, ◌==◌, nat_key, string_key, Option-cases, Bool-cases, inl, inr,
}
use callsignet.Secrets.{
  Files, SecretError, no_place, text_length, safe_dir, safe_up, safe_all, starts, safe_path,
}

-- `Up fs e d`: `e` is the directory `d` or one above it.
pub data Up (fs : Files) (e : String) : String → Type 0 where
  here : Up fs e e
  below : (d : String) → Up fs e (fs.dir d) → Up fs e d

abbrev pub is_rooted : String → Bool
is_rooted String.[] = false
is_rooted (String.◌∷◌ c s) = code c == b'/'

-- What Go's path/filepath documents of Abs, Dir and EvalSymlinks on absolute paths.
pub record IsPathLib (fs : Files) : Type 0 where
  pub abs_rooted : (p q : String) → fs.abs p ≡ some q → is_rooted q ≡ true
  pub dir_rooted : (d : String) → is_rooted d ≡ true → is_rooted (fs.dir d) ≡ true
  pub dir_shorter :
      (d : String) → is_rooted d ≡ true → (fs.dir d ≡ d) ⊎ (text_length (fs.dir d) < text_length d)
  pub links_rooted :
      (d real : String) → is_rooted d ≡ true → fs.eval_links d ≡ some real → is_rooted real ≡ true

module _ (fs : Files) where
  -- At a directory that is its own parent the climb ends.
  Up-root : (e d : String) → fs.dir d ≡ d → Up fs e d → e ≡ d
  Up-root e d root here = refl
  Up-root e d root (below d' u) = Up-root e (fs.dir d) (ap fs.dir root) u ∙ root

  -- A climb that finds nothing looked at all directories above.
  safe_up_sound :
      (n : ℕ) (d : String) → safe_up fs n d ≡ none → (e : String) → Up fs e d → safe_dir fs e ≡ none
  unfolding safe_up
  safe_up_sound zero d safe e u = absurd (ground arith)
  safe_up_sound (suc n) d safe e here = elim (Option-cases (safe_dir fs d)) [
    | inl fine ↦ fine
    | inr (x, bad) ↦ absurd (ground arith)
  ]
  safe_up_sound (suc n) d safe e (below d' u) = elim (Option-cases (safe_dir fs d)) [
    | inr (x, bad) ↦ absurd (ground arith)
    | inl fine ↦ elim (Bool-cases (fs.dir d == d)) [
      | inr climbs ↦ safe_up_sound n (fs.dir d) (ground (arith, fine, climbs)) e u
      | inl root ↦
          let is_root : fs.dir d ≡ d = ground (arith, string_key.test_iff (fs.dir d) d) in
          let same = Up-root e (fs.dir d) (ap fs.dir is_root) u ∙ is_root in
          ap (safe_dir fs) same ∙ fine
    ]
  ]

  -- A climb that finds something found it at a directory above: the fuel lasts.
  safe_up-found :
      IsPathLib fs
      → (n : ℕ) (d : String) (x : SecretError) → is_rooted d ≡ true
      → text_length d < n
      → safe_up fs n d ≡ some x
      → (e : String) × Up fs e d × (safe_dir fs e ≡ some x)
  unfolding safe_up
  safe_up-found lib zero d x rooted short found = absurd (omega (arith, short))
  safe_up-found lib (suc n) d x rooted short found = elim (Option-cases (safe_dir fs d)) [
    | inr (y, bad) ↦ (d, here, ground (arith, bad))
    | inl fine ↦ elim (Bool-cases (fs.dir d == d)) [
      | inl root ↦ absurd (ground (arith, fine, root))
      | inr climbs ↦ elim (lib.dir_shorter d rooted) [
        | inl root ↦ absurd (ground (arith, root, climbs, string_key.test_iff (fs.dir d) d))
        | inr shorter ↦
            let (e, u, bad) =
              safe_up-found lib n (fs.dir d) x (lib.dir_rooted d rooted)
                (omega (arith, shorter, short)) (ground (arith, fine, climbs)) in
            (e, below d u, bad)
      ]
    ]
  ]

  -- A directory of the climbs from `d`: `d` itself or one above it, or, with the links resolved,
  -- that or one above it.
  abbrev pub Climbs : String → String → Type 0
  Climbs d e = Up fs e d ⊎ ((real : String) × (fs.eval_links d ≡ some real) × Up fs e real)

  -- The directories that the secret in a file depends on.
  abbrev pub Holds : String → String → Type 0
  Holds path e = (p : String) × (fs.abs path ≡ some p) × Climbs (fs.dir p) e

  safe_all_sound :
      (d : String) (ds : List String)
      → safe_all fs (d ∷ ds) ≡ none
      → ((e : String) → Up fs e d → safe_dir fs e ≡ none) × (safe_all fs ds ≡ none)
  unfolding safe_all
  safe_all_sound d ds safe = elim (Option-cases (safe_up fs (suc (text_length d)) d)) [
    | inl fine ↦ (safe_up_sound (suc (text_length d)) d fine, ground (arith, fine))
    | inr (x, bad) ↦ absurd (ground (arith, bad))
  ]

  starts_sound :
      (d e : String) → safe_all fs (starts fs d) ≡ none → Climbs d e → safe_dir fs e ≡ none
  unfolding starts
  starts_sound d e safe climbed = elim (Option-cases (fs.eval_links d)) [
    | inl lost ↦
        let first = (safe_all_sound d [] (ground (arith, lost))).0 e in
        elim climbed [
          | inl u ↦ first u
          | inr (real, resolved, u) ↦ absurd (ground (arith, lost, resolved))
        ]
    | inr (real, resolved) ↦ elim (Bool-cases (real == d)) [
      | inl same ↦
          let first = (safe_all_sound d [] (ground (arith, resolved, same))).0 e in
          elim climbed [
            | inl u ↦ first u
            | inr (real', resolved', u) ↦ first (
                subst (Up fs e) (ground (arith, resolved, resolved', string_key.test_iff real d)) u)
          ]
      | inr differs ↦
          let both = safe_all_sound d (real ∷ []) (ground (arith, resolved, differs)) in
          elim climbed [
            | inl u ↦ both.0 e u
            | inr (real', resolved', u) ↦
                (safe_all_sound real [] both.1).0 e
                  (subst (Up fs e) (ground (arith, resolved, resolved')) u)
          ]
    ]
  ]

  starts-found :
      IsPathLib fs
      → (d : String) (x : SecretError) → is_rooted d ≡ true
      → safe_all fs (starts fs d) ≡ some x
      → (e : String) × Climbs d e × (safe_dir fs e ≡ some x)
  unfolding starts safe_all
  starts-found lib d x rooted found = elim (Option-cases (safe_up fs (suc (text_length d)) d)) [
    | inr (y, bad) ↦
        let hit : safe_up fs (suc (text_length d)) d ≡ some x = ground (arith, bad) in
        let (e, u, refused) =
          safe_up-found lib (suc (text_length d)) d x rooted (omega arith) hit in
        (e, inl u, refused)
    | inl fine ↦ elim (Option-cases (fs.eval_links d)) [
      | inl lost ↦ absurd (ground (arith, fine, lost))
      | inr (real, resolved) ↦
          let hit : safe_up fs (suc (text_length real)) real ≡ some x =
            ground (arith, fine, resolved) in
          let (e, u, refused) =
            safe_up-found lib (suc (text_length real)) real x
              (lib.links_rooted d real rooted resolved) (omega arith) hit in
          (e, inr (real, resolved, u), refused)
    ]
  ]

  -- Where safePath finds nothing, every directory that the secret depends on is safe.
  pub safe_path_sound :
      (path e : String) → safe_path fs path ≡ none → Holds path e → safe_dir fs e ≡ none
  unfolding safe_path
  safe_path_sound path e safe (p, at, climbed) =
      starts_sound (fs.dir p) e (ground (arith, at)) climbed

  pub safe_path-placed :
      (path : String) → safe_path fs path ≡ none → (p : String) × (fs.abs path ≡ some p)
  unfolding safe_path
  safe_path-placed path safe = elim (Option-cases (fs.abs path)) [
    | inl nowhere ↦ absurd (ground (arith, nowhere))
    | inr placed ↦ placed
  ]

  -- Where filepath does what it documents on absolute paths, the error of safePath
  -- is that there is no absolute path, or it is what is wrong with a directory
  -- that the secret depends on; so the fuel of the climb lasts.
  pub safe_path-found :
      IsPathLib fs
      → (path : String) (x : SecretError) → safe_path fs path ≡ some x
      → ((fs.abs path ≡ none) × (x ≡ no_place))
        ⊎ ((e : String) × Holds path e × (safe_dir fs e ≡ some x))
  unfolding safe_path
  safe_path-found lib path x found = elim (Option-cases (fs.abs path)) [
    | inl nowhere ↦ inl (nowhere, ground (arith, nowhere))
    | inr (p, at) ↦
        let (e, climbed, refused) =
          starts-found lib (fs.dir p) x (lib.dir_rooted p (lib.abs_rooted path p at))
            (ground (arith, at)) in
        inr (e, (p, at, climbed), refused)
  ]
