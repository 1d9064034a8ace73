-- ===== src/Secrets/Guarded.antt =====
-- ReadSecret of internal/config/secret.go: exactly which files are read.
use callsignet.Base.{
  ℕ, zero, suc, ◌≤◌, ◌≡◌, ◌↔◌, ◌⊎◌, refl, ap, subst, arith, String, true, false, ltb, Option, none,
  some, List, [], ◌∷◌, length, take, length-take, ok, Option-cases, Bool-cases, inl, inr,
}
use callsignet.Secrets.{
  Stat, File, Opened, missing, a_link, refused, opened, Files, secret_limit, others_use,
  check_owner, safe_dir, safe_path, check_stat, at_most, read_content, read_secret,
}
use callsignet.Secrets.Place.{IsPathLib, Holds, safe_path_sound, safe_path-found, safe_path-placed}

-- An owner that is this user or root, where the owner is known.
abbrev pub IsTrusted : Files → Option ℕ → Type 0
IsTrusted fs owner = (n : ℕ) → owner ≡ some n → (n ≡ fs.uid) ⊎ (n ≡ 0)

-- The file at `path` is open to no one else, and holds `b`.
pub record IsGuarded (fs : Files) (path : String) (b : List ℕ) : Type 0 where
  pub file : File
  pub stat : Stat
  pub is_open : fs.open_file path ≡ opened file
  pub placed : (p : String) × (fs.abs path ≡ some p)
  pub dirs_safe : (e : String) → Holds fs path e → safe_dir fs e ≡ none
  pub has_stat : file.stat ≡ some stat
  pub is_file : stat.is_regular ≡ true
  pub private : others_use stat.perm ≡ false
  pub owned : IsTrusted fs stat.owner
  pub holds : file.content ≡ some b
  pub small : length b ≤ secret_limit

take_all : (n : ℕ) (xs : List ℕ) → length xs ≤ n → take n xs ≡ xs
take_all zero [] short = refl
take_all zero (x ∷ xs) short = absurd (omega (arith, short))
take_all (suc n) [] short = refl
take_all (suc n) (x ∷ xs) short = ap (λ ys. x ∷ ys) (take_all n xs (omega (arith, short)))

at_most_iff : (n : ℕ) (bytes b : List ℕ) → (at_most n bytes ≡ ok b) ↔ ((bytes ≡ b) × (length b ≤ n))
unfolding at_most
at_most_iff n bytes b = (
  λ h. elim (Bool-cases (ltb n (length (take (suc n) bytes)))) [
    | inl large ↦ absurd (ground arith)
    | inr small ↦
        let short : length bytes ≤ n = ground (arith, length-take (suc n) bytes) in
        ground (arith, take_all (suc n) bytes)
  ],
  λ (same, short). ground (arith, take_all (suc n) bytes, length-take (suc n) bytes),
)

read_content_iff :
    (content : Option (List ℕ)) (b : List ℕ)
    → (read_content content ≡ ok b) ↔ ((content ≡ some b) × (length b ≤ secret_limit))
unfolding read_content
read_content_iff none b = (λ h. absurd (ground arith), λ h. absurd (ground arith))
read_content_iff (some bytes) b =
    let both = at_most_iff secret_limit bytes b in
    (λ h. (ap some (both.0 h).0, (both.0 h).1), λ (same, short). both.1 (ground arith, short))

check_owner_iff :
    (fs : Files) (owner : Option ℕ) → (check_owner fs owner ≡ none) ↔ IsTrusted fs owner
check_owner_iff fs none = (λ h n e. absurd (ground arith), λ h. refl)
check_owner_iff fs (some m) = (λ h n e. ground arith, λ h. ground (arith, h m refl))

check_stat_iff :
    (fs : Files) (o : Option Stat)
    → (check_stat fs o ≡ none) ↔ (
        (st : Stat) × (o ≡ some st)
        × (st.is_regular ≡ true)
        × (others_use st.perm ≡ false)
        × IsTrusted fs st.owner)
unfolding check_stat
check_stat_iff fs none = (λ h. absurd (ground arith), λ h. absurd (ground arith))
check_stat_iff fs (some st) = (
  λ h. (st, refl, ground arith, ground arith, (check_owner_iff fs st.owner).0 (ground arith)),
  λ (st', same, file, closed, owned).
      let st_same : st' ≡ st = ground arith in
      ground
        (arith, (check_owner_iff fs st.owner).1 (subst (λ x. IsTrusted fs x.owner) st_same owned)),
)

Opened-cases :
    (o : Opened) → ((f : File) × (o ≡ opened f)) ⊎ ((o ≡ missing) ⊎ ((o ≡ a_link) ⊎ (o ≡ refused)))
Opened-cases missing = inr (inl refl)
Opened-cases a_link = inr (inr (inl refl))
Opened-cases refused = inr (inr (inr refl))
Opened-cases (opened f) = inl (f, refl)

-- Where filepath does what it documents on absolute paths, ReadSecret gives `b` exactly where the
-- file at that path can be opened, is a regular file of this user or of root that no one else can
-- use, holds the bytes `b` and no more than the limit, and stands in a place with an absolute path
-- where safeDir accepts every directory, above the path as it is written and above it with all
-- links resolved.
pub read_secret_iff :
    (fs : Files) (path : String) (b : List ℕ)
    → IsPathLib fs
    → (read_secret fs path ≡ ok b) ↔ IsGuarded fs path b
unfolding read_secret
read_secret_iff fs path b lib = (forth, back)
  where
    forth : read_secret fs path ≡ ok b → IsGuarded fs path b
    forth h = elim (Opened-cases (fs.open_file path)) [
      | inr closed ↦ absurd (ground (arith, closed))
      | inl (f, found) ↦ elim (Option-cases (safe_path fs path)) [
        | inr (x, bad) ↦ absurd (ground (arith, found))
        | inl safe ↦ elim (Option-cases (check_stat fs f.stat)) [
          | inr (x, bad) ↦ absurd (ground (arith, found, safe))
          | inl checked ↦
              let (st, has, file, closed, owned) = (check_stat_iff fs f.stat).0 checked in
              let (held, short) =
                (read_content_iff f.content b).0 (ground (arith, found, safe, checked)) in
              record {
                file = f;
                stat = st;
                is_open = found;
                placed = safe_path-placed fs path safe;
                dirs_safe = λ e. safe_path_sound fs path e safe;
                has_stat = has;
                is_file = file;
                private = closed;
                owned = owned;
                holds = held;
                small = short;
              }
        ]
      ]
    ]

    back : IsGuarded fs path b → read_secret fs path ≡ ok b
    back g = elim (Option-cases (safe_path fs path)) [
      | inl safe ↦ ground (
        arith,
        g.is_open,
        safe,
        (check_stat_iff fs g.file.stat).1 (g.stat, g.has_stat, g.is_file, g.private, g.owned),
        (read_content_iff g.file.content b).1 (g.holds, g.small),
      )
      | inr (x, bad) ↦ elim (safe_path-found fs lib path x bad) [
        | inl (nowhere, _) ↦ absurd (ground (arith, nowhere, g.placed.1))
        | inr (e, depends, unsafe) ↦ absurd (ground (arith, unsafe, g.dirs_safe e depends))
      ]
    ]
