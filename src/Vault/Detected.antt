-- ===== src/Vault/Detected.antt =====
-- ActiveProfile after Restore.
use mathlib.Core.Option
use mathlib.Core.Bool
use mathlib.Core.Bool.{Bool-set}
use mathlib.Core.List.{mem-cons, mem-cons_self, mem-cons_of_mem, not-mem-nil, Mem-prop, mem-append}
use mathlib.Core.List.Perm
use mathlib.Core.Logic.Or
use caam_account_switching.Prelude.{
  String, true, false, not, none, some, List, [], ◌∷◌, ◌≡◌, refl, sym, ap, ◌∙◌, str_eq, Mem,
  mem-filter, ◌↔◌, All, All-mem, All-of_mem, Bool-cases, Option-cases, inl, inr, eq_iff, eq_refl,
}
use caam_account_switching.Prelude.Table.{Table, lookup, put, has_key, not-has_key_of_lookup}
use caam_account_switching.Prelude.Sort.{sort_slice-perm}
use caam_account_switching.Vault.Names.{is_system_profile, validate_vault_segment}
use caam_account_switching.Vault.Copying.{AuthFileSpec, AuthFileSet, backup_name}
use caam_account_switching.Vault.Operations.{
  Env, World, Outcome, dir_of, keys, list_profiles, restore,
}
use caam_account_switching.Vault.Detection.{
  Hashes, hash_file, hash_files, relevant_hashes, matches, first_match, match_profile, user_first,
  active_profile,
}
use caam_account_switching.Vault.Copies.{IsApart}
use caam_account_switching.Vault.RoundTrip.{path_of, restore_exact, restore-named}
use caam_account_switching.Vault.Active.{
  hash_files-here, hash_files-found, relevant_hashes-required,
}

matches-put :
    (e : Env) (dir t : Table String) (k c : String)
    → matches e dir t ≡ true
    → lookup k dir ≡ some c
    → matches e dir (put k (e.hash c) t) ≡ true
unfolding matches put
matches-put e dir [] k c m there = rw (there, matches) (rw (eq_refl (e.hash c)) refl)
matches-put e dir ((j, z) ∷ t) k c m there = elim (Option-cases (lookup j dir)) [
  | inl gone ↦ absurd (Bool.true≢false (sym (rw (matches, gone) at m)))
  | inr (d, found) ↦ elim (Bool-cases (str_eq z (e.hash d))) [
    | inr differs ↦ absurd (Bool.true≢false (sym (rw (matches, found, differs) at m)))
    | inl same ↦
        let rest : matches e dir t ≡ true = rw (matches, found, same) at m in
        elim (Bool-cases (str_eq j k)) [
          | inl is ↦ rw is (rw (matches, (eq_iff j k).0 is, there) (rw (eq_refl (e.hash c)) rest))
          | inr apart ↦ rw apart (rw (matches, found, same) (matches-put e dir t k c rest there))
        ]
  ]
]

-- The directory has every live required file as it is live.
abbrev Has : Table String → Table String → AuthFileSpec → Type 0
Has dir home g =
    g.required ≡ true
    → (x : String) → lookup g.path home ≡ some x
    → lookup (backup_name g) dir ≡ some x

hash_file-matches :
    (e : Env) (dir home : Table String) (g : AuthFileSpec) (x : String) (h : Hashes)
    → Has dir home g
    → lookup g.path home ≡ some x
    → matches e dir h.current ≡ true
    → matches e dir (hash_file e g x h).current ≡ true
unfolding hash_file
hash_file-matches e dir home g x h has live m = elim (Bool-cases g.required) [
  | inl r ↦ rw (hash_file, r) (matches-put e dir h.current (backup_name g) x m (has r x live))
  | inr r ↦ rw (hash_file, r) m
]

hash_files-matches :
    (e : Env) (dir home : Table String) (fs : List AuthFileSpec) (h : Hashes)
    → All (Has dir home) fs
    → matches e dir h.current ≡ true
    → matches e dir (hash_files e home fs h).current ≡ true
unfolding hash_files
hash_files-matches e dir home [] h all m = m
hash_files-matches e dir home (g ∷ fs) h all m = elim (Option-cases (lookup g.path home)) [
  | inl gone ↦ rw (hash_files, gone) (hash_files-matches e dir home fs h all.1 m)
  | inr (x, live) ↦
      rw (hash_files, live)
        (hash_files-matches e dir home fs (hash_file e g x h) all.1
          (hash_file-matches e dir home g x h all.0 live m))
]

first_match-finds :
    (e : Env) (vault : Table (Table String)) (hs : Table String) (ps : List String) (p : String)
    → matches e (dir_of p vault) hs ≡ true
    → All (λ q. str_eq q "" ≡ false) ps
    → Mem p ps
    → str_eq (first_match e vault hs ps) "" ≡ false
unfolding first_match
first_match-finds e vault hs [] p m named here = absurd (not-mem-nil here)
first_match-finds e vault hs (q ∷ ps) p m named here =
    elim (Bool-cases (matches e (dir_of q vault) hs)) [
      | inl taken ↦ rw (first_match, taken) named.0
      | inr passed ↦
          rw (first_match, passed)
            (Or.elim (Bool-set _ _) (mem-cons.0 here)
              (λ same.
                absurd
                  (Bool.true≢false (sym m ∙ ap (λ r. matches e (dir_of r vault) hs) same ∙ passed)))
              (λ later. first_match-finds e vault hs ps p m named.1 later))
    ]

mem-keys : {V : Type 0} (k : String) (t : Table V) (v : V) → lookup k t ≡ some v → Mem k (keys t)
unfolding lookup
mem-keys k [] v h = absurd (Option.none-ne-some v h)
mem-keys k ((j, w) ∷ t) v h = elim (Bool-cases (str_eq j k)) [
  | inl is ↦ rw ((eq_iff j k).0 is) mem-cons_self
  | inr apart ↦ mem-cons_of_mem j (mem-keys k t v (rw apart at h))
]

mem-user_first : (q : String) (ps : List String) → Mem q ps ↔ Mem q (user_first ps)
unfolding user_first
mem-user_first q ps = (
  λ m. elim (Bool-cases (is_system_profile q)) [
    | inl s ↦ mem-append.1 (Or.inr ((mem-filter (λ p. is_system_profile p) q ps).1 (m, s)))
    | inr s ↦
        mem-append.1 (Or.inl ((mem-filter (λ p. not (is_system_profile p)) q ps).1 (m, ap not s)))
  ],
  λ m.
      Or.elim Mem-prop (mem-append.0 m)
        (λ u. ((mem-filter (λ p. not (is_system_profile p)) q ps).0 u).0)
        (λ u. ((mem-filter (λ p. is_system_profile p) q ps).0 u).0),
)

-- Every profile of the vault is in the list that ActiveProfile goes through, and nothing else is.
mem-candidates :
    (e : Env) (w : World) (q : String)
    → Mem q (keys w.vault) ↔ Mem q (user_first (list_profiles e w))
unfolding list_profiles
mem-candidates e w q =
    let perm = sort_slice-perm e.less (keys w.vault) in
    let (into, out) = mem-user_first q (list_profiles e w) in
    (λ m. into ((Perm.mem_iff perm).1 m), λ m. (Perm.mem_iff perm).0 (out m))

match_profile-finds :
    (e : Env) (w : World) (hs : Table String) (p k y : String)
    → matches e (dir_of p w.vault) hs ≡ true
    → lookup k hs ≡ some y
    → All (λ q. str_eq q "" ≡ false) (keys w.vault)
    → Mem p (keys w.vault)
    → str_eq (match_profile e w hs) "" ≡ false
unfolding match_profile lookup
match_profile-finds e w [] p k y m found named here = absurd (Option.none-ne-some y found)
match_profile-finds e w (x ∷ hs) p k y m found named here =
    let ps = user_first (list_profiles e w) in
    first_match-finds e w.vault (x ∷ hs) ps p m
      (All-of_mem (λ q. str_eq q "" ≡ false) ps
        (λ q n.
          All-mem (λ q. str_eq q "" ≡ false) (λ z. hlevel) q (keys w.vault) named
            ((mem-candidates e w q).1 n)))
      ((mem-candidates e w p).0 here)

saved-file :
    (dir : Table String) (g : AuthFileSpec)
    → has_key (backup_name g) dir ≡ true
    → (c : String) × (lookup (backup_name g) dir ≡ some c)
saved-file dir g h = elim (Option-cases (lookup (backup_name g) dir)) [
  | inl gone ↦ absurd (Bool.true≢false (sym h ∙ not-has_key_of_lookup (backup_name g) dir gone))
  | inr found ↦ found
]

-- Where the profile has every required file of the tool, the directory has them as they are live
-- after the restore.
restore-Has :
    (e : Env) (fs : AuthFileSet) (name p : String) (w : World) (dir : Table String)
    → IsApart path_of fs.files
    → ((f : AuthFileSpec) → e.restore_error f ≡ none)
    → validate_vault_segment name ≡ some p
    → lookup p w.vault ≡ some dir
    → All (λ g. g.required ≡ true → has_key (backup_name g) dir ≡ true) fs.files
    → (g : AuthFileSpec) → Mem g fs.files
    → Has dir (restore e fs name w).0.home g
restore-Has e fs name p w dir apart allowed h there full g m r x live =
    let now = (restore_exact e fs name p w dir apart allowed h there).0 g m in
    let saved =
      All-mem (λ g. g.required ≡ true → has_key (backup_name g) dir ≡ true) (λ z. hlevel) g fs.files
        full m r in
    let (c, found) = saved-file dir g saved in found ∙ sym (rw found at now) ∙ live

-- A required file is live after the restore.
restored-live :
    (e : Env) (fs : AuthFileSet) (name p : String) (w : World) (dir : Table String)
    → IsApart path_of fs.files
    → ((f : AuthFileSpec) → e.restore_error f ≡ none)
    → validate_vault_segment name ≡ some p
    → lookup p w.vault ≡ some dir
    → All (λ g. g.required ≡ true → has_key (backup_name g) dir ≡ true) fs.files
    → (g : AuthFileSpec) → Mem g fs.files
    → g.required ≡ true
    → (x : String) × (lookup g.path (restore e fs name w).0.home ≡ some x)
restored-live e fs name p w dir apart allowed h there full g m r =
    let now = (restore_exact e fs name p w dir apart allowed h there).0 g m in
    let (c, found) = saved-file dir g (
      All-mem (λ g. g.required ≡ true → has_key (backup_name g) dir ≡ true) (λ z. hlevel) g fs.files
        full m r) in
    (c, rw found at now)

-- After a restore of a profile, of a valid name, in which no copy is refused, some profile of the vault is found
-- active, if the tool has a required auth file and the profile has them all. The paths of the auth
-- files differ, and so do their base names, and no profile of the vault has an empty name.
pub restored_is_detected :
    (e : Env) (fs : AuthFileSet) (name p : String) (w : World) (dir : Table String)
    (f : AuthFileSpec)
    → IsApart path_of fs.files
    → IsApart backup_name fs.files
    → ((g : AuthFileSpec) → e.restore_error g ≡ none)
    → validate_vault_segment name ≡ some p
    → lookup p w.vault ≡ some dir
    → All (λ g. g.required ≡ true → has_key (backup_name g) dir ≡ true) fs.files
    → All (λ q. str_eq q "" ≡ false) (keys w.vault)
    → Mem f fs.files
    → f.required ≡ true
    → str_eq (active_profile e fs (restore e fs name w).0) "" ≡ false
unfolding active_profile matches
restored_is_detected e fs name p w dir f apart apart' allowed h there full named m r =
    let w' = (restore e fs name w).0 in
    let kept : w'.vault ≡ w.vault =
      ap (λ (o : Outcome). o.0.vault) (restore-named e fs name p w dir h there) in
    let here : lookup p w'.vault ≡ some dir = ap (lookup p) kept ∙ there in
    let none_yet : Hashes = record { current = []; optional = []; required_found = false } in
    let hashes = hash_files e w'.home fs.files none_yet in
    let (x, live) = restored-live e fs name p w dir apart allowed h there full f m r in
    let relevant =
      relevant_hashes-required fs.allow_optional_only hashes
        (hash_files-found e w'.home f x fs.files none_yet r live m) in
    let fits : matches e dir hashes.current ≡ true =
      hash_files-matches e dir w'.home fs.files none_yet
        (All-of_mem (Has dir w'.home) fs.files
          (restore-Has e fs name p w dir apart allowed h there full))
        refl in
    match_profile-finds e w' (relevant_hashes fs.allow_optional_only hashes) p (backup_name f)
      (e.hash x) (rw (relevant, dir_of, here) fits)
      (rw relevant (hash_files-here e w'.home f x fs.files none_yet r live apart' m))
      (rw kept named) (mem-keys p w'.vault dir here)
