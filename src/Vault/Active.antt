-- ===== src/Vault/Active.antt =====
-- The profile that is found active has the live files.
use mathlib.Core.Option
use mathlib.Core.Bool
use mathlib.Core.Bool.{Bool-set}
use mathlib.Core.List.{mem-cons, not-mem-nil}
use mathlib.Core.Logic.Or
use caam_account_switching.Prelude.{
  String, Bool, true, false, some, List, [], ◌∷◌, ◌≡◌, refl, sym, ap, ◌∙◌, arith, str_eq, Mem, All,
  Bool-cases, Option-cases, inl, inr, eq_iff,
}
use caam_account_switching.Prelude.Table.{Table, lookup, lookup-put, lookup-put_self}
use caam_account_switching.Vault.Copying.{AuthFileSpec, AuthFileSet, backup_name}
use caam_account_switching.Vault.Operations.{Env, World, dir_of, list_profiles}
use caam_account_switching.Vault.Detection.{
  Hashes, hash_file, hash_files, relevant_hashes, matches, first_match, match_profile, user_first,
  active_profile,
}
use caam_account_switching.Vault.Copies.{IsApart, contents-set}

-- A directory that matches has a file of the same hash for each.
pub matches-lem :
    (e : Env) (dir hs : Table String) (k y : String)
    → matches e dir hs ≡ true
    → lookup k hs ≡ some y
    → (c : String) × (lookup k dir ≡ some c) × (y ≡ e.hash c)
unfolding matches lookup
matches-lem e dir [] k y h q = absurd (Option.none-ne-some y q)
matches-lem e dir ((j, z) ∷ hs) k y h q = elim (Option-cases (lookup j dir)) [
  | inl gone ↦ absurd (Bool.true≢false (sym (rw (matches, gone) at h)))
  | inr (c, there) ↦ elim (Bool-cases (str_eq z (e.hash c))) [
    | inr differs ↦ absurd (Bool.true≢false (sym (rw (matches, there, differs) at h)))
    | inl same ↦ elim (Bool-cases (str_eq j k)) [
      | inr apart ↦ matches-lem e dir hs k y (rw (matches, there, same) at h) (rw apart at q)
      | inl is ↦ (
        c,
        rw (sym ((eq_iff j k).0 is)) there,
        sym (Option.some-injective z y (rw is at q)) ∙ (eq_iff z (e.hash c)).0 same,
      )
    ]
  ]
]

first_match-lem :
    (e : Env) (vault : Table (Table String)) (hs : Table String) (ps : List String)
    → str_eq (first_match e vault hs ps) "" ≡ false
    → matches e (dir_of (first_match e vault hs ps) vault) hs ≡ true
unfolding first_match
first_match-lem e vault hs [] h = absurd (Bool.true≢false h)
first_match-lem e vault hs (p ∷ ps) h = elim (Bool-cases (matches e (dir_of p vault) hs)) [
  | inl m ↦ rw (first_match, m) m
  | inr m ↦ rw (first_match, m) (first_match-lem e vault hs ps (rw (first_match, m) at h))
]

match_profile-lem :
    (e : Env) (w : World) (hs : Table String)
    → str_eq (match_profile e w hs) "" ≡ false
    → matches e (dir_of (match_profile e w hs) w.vault) hs ≡ true
unfolding match_profile
match_profile-lem e w [] h = absurd (Bool.true≢false h)
match_profile-lem e w (x ∷ hs) h =
    first_match-lem e w.vault (x ∷ hs) (user_first (list_profiles e w)) h

hash_file-others :
    (e : Env) (g : AuthFileSpec) (x k : String) (h : Hashes)
    → str_eq (backup_name g) k ≡ false
    → lookup k (hash_file e g x h).current ≡ lookup k h.current
unfolding hash_file
hash_file-others e g x k h apart = elim (Bool-cases g.required) [
  | inl r ↦ rw (hash_file, r, lookup-put (backup_name g) k (e.hash x) h.current, apart) refl
  | inr r ↦ rw (hash_file, r) refl
]

hash_files-others :
    (e : Env) (home : Table String) (fs : List AuthFileSpec) (h : Hashes) (k : String)
    → All (λ g. str_eq (backup_name g) k ≡ false) fs
    → lookup k (hash_files e home fs h).current ≡ lookup k h.current
unfolding hash_files
hash_files-others e home [] h k all = refl
hash_files-others e home (g ∷ fs) h k all = elim (Option-cases (lookup g.path home)) [
  | inl gone ↦ rw (hash_files, gone) (hash_files-others e home fs h k all.1)
  | inr (x, there) ↦
      rw (hash_files, there)
        (hash_files-others e home fs (hash_file e g x h) k all.1 ∙ hash_file-others e g x k h all.0)
]

hash_file-required :
    (e : Env) (g : AuthFileSpec) (x : String) (h : Hashes)
    → h.required_found ≡ true
    → (hash_file e g x h).required_found ≡ true
unfolding hash_file
hash_file-required e g x h r = ground arith

hash_files-required :
    (e : Env) (home : Table String) (fs : List AuthFileSpec) (h : Hashes)
    → h.required_found ≡ true
    → (hash_files e home fs h).required_found ≡ true
unfolding hash_files
hash_files-required e home [] h r = r
hash_files-required e home (g ∷ fs) h r = elim (Option-cases (lookup g.path home)) [
  | inl gone ↦ rw (hash_files, gone) (hash_files-required e home fs h r)
  | inr (x, there) ↦
      rw (hash_files, there)
        (hash_files-required e home fs (hash_file e g x h) (hash_file-required e g x h r))
]

hash_file-here :
    (e : Env) (f : AuthFileSpec) (x : String) (h : Hashes)
    → f.required ≡ true
    → (lookup (backup_name f) (hash_file e f x h).current ≡ some (e.hash x))
      × ((hash_file e f x h).required_found ≡ true)
unfolding hash_file
hash_file-here e f x h r =
    rw (hash_file, r) (lookup-put_self (backup_name f) (e.hash x) h.current, refl)

module _ (e : Env) (home : Table String) (f : AuthFileSpec) (x : String) where
  -- The hash of a live required file is there after the loop.
  pub hash_files-here :
      (fs : List AuthFileSpec) (h : Hashes)
      → f.required ≡ true
      → lookup f.path home ≡ some x
      → IsApart backup_name fs
      → Mem f fs
      → lookup (backup_name f) (hash_files e home fs h).current ≡ some (e.hash x)
  unfolding hash_files
  hash_files-here [] h r live apart m = absurd (not-mem-nil m)
  hash_files-here (g ∷ fs) h r live apart m =
      Or.elim (contents-set _ _) (mem-cons.0 m)
        (λ same. rw (sym same) (
          rw (hash_files, live)
            (hash_files-others e home fs (hash_file e f x h) (backup_name f)
                (rw (sym same) at apart.0)
              ∙ (hash_file-here e f x h r).0)))
        (λ later. elim (Option-cases (lookup g.path home)) [
          | inl gone ↦ rw (hash_files, gone) (hash_files-here fs h r live apart.1 later)
          | inr (y, there) ↦
              rw (hash_files, there) (hash_files-here fs (hash_file e g y h) r live apart.1 later)
        ])

  pub hash_files-found :
      (fs : List AuthFileSpec) (h : Hashes)
      → f.required ≡ true
      → lookup f.path home ≡ some x
      → Mem f fs
      → (hash_files e home fs h).required_found ≡ true
  unfolding hash_files
  hash_files-found [] h r live m = absurd (not-mem-nil m)
  hash_files-found (g ∷ fs) h r live m =
      Or.elim (Bool-set _ _) (mem-cons.0 m)
        (λ same. rw (sym same) (
          rw (hash_files, live)
            (hash_files-required e home fs (hash_file e f x h) (hash_file-here e f x h r).1)))
        (λ later. elim (Option-cases (lookup g.path home)) [
          | inl gone ↦ rw (hash_files, gone) (hash_files-found fs h r live later)
          | inr (y, there) ↦
              rw (hash_files, there) (hash_files-found fs (hash_file e g y h) r live later)
        ])

pub relevant_hashes-required :
    (allow : Bool) (h : Hashes) → h.required_found ≡ true → relevant_hashes allow h ≡ h.current
unfolding relevant_hashes
relevant_hashes-required allow h r = rw (relevant_hashes, r) refl

-- Where a profile is found active, its directory has every required auth file that is live, with
-- the live content, if different contents have different hashes and the base names of the auth
-- files differ.
pub active_profile_matches :
    (e : Env) (fs : AuthFileSet) (w : World) (f : AuthFileSpec) (x : String)
    → ((a b : String) → e.hash a ≡ e.hash b → a ≡ b)
    → IsApart backup_name fs.files
    → str_eq (active_profile e fs w) "" ≡ false
    → Mem f fs.files
    → f.required ≡ true
    → lookup f.path w.home ≡ some x
    → lookup (backup_name f) (dir_of (active_profile e fs w) w.vault) ≡ some x
unfolding active_profile
active_profile_matches e fs w f x injective apart active m r live =
    let none_yet : Hashes = record { current = []; optional = []; required_found = false } in
    let h = hash_files e w.home fs.files none_yet in
    let hs = relevant_hashes fs.allow_optional_only h in
    let hashed : lookup (backup_name f) hs ≡ some (e.hash x) =
      ap (lookup (backup_name f)) (
        relevant_hashes-required fs.allow_optional_only h
          (hash_files-found e w.home f x fs.files none_yet r live m))
      ∙ hash_files-here e w.home f x fs.files none_yet r live apart m in
    let (c, there, same) =
      matches-lem e (dir_of (active_profile e fs w) w.vault) hs (backup_name f) (e.hash x)
        (match_profile-lem e w hs active) hashed in
    there ∙ ap some (sym (injective x c same))
