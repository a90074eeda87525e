-- ===== src/Vault/RoundTrip.antt =====
-- A restore brings back what a backup has saved.
use mathlib.Core.Option
use caam_account_switching.Prelude.{
  String, false, Option, none, some, [], ◌≡◌, refl, sym, ap, ◌∙◌, str_eq, Mem, All, All-mem,
  All-of_mem, Option-cases, inl, inr,
}
use caam_account_switching.Prelude.Table.{
  Table, lookup, put, lookup-put, lookup-put_self, has_key, lookup_of_not-has_key,
}
use caam_account_switching.Vault.Names.{validate_vault_segment}
use caam_account_switching.Vault.Copying.{
  AuthFileSpec, AuthFileSet, backup_name, CopyRun, copy_files, verdict, copy_failed, lacks,
}
use caam_account_switching.Vault.Operations.{
  Env, World, Outcome, dir_of, metadata, backup_loop, refusal, backup_files, backup_as, backup,
  restore_files, restore_from, restore,
}
use caam_account_switching.Vault.Copies.{
  copied_over, IsApart, copy_files-lem, copy_files-others, copy_files-allowed, str_eq_flip,
}
use caam_account_switching.Vault.Counts.{counts-copy_files}

abbrev pub path_of : AuthFileSpec → String
path_of f = f.path

-- The loops of a backup and of a restore.
abbrev pub backup_run : Env → AuthFileSet → String → World → CopyRun
backup_run e fs p w =
    copy_files path_of backup_name e.backup_error w.home fs.files (dir_of p w.vault)

abbrev pub restore_run : Env → AuthFileSet → Table String → Table String → CopyRun
restore_run e fs dir home = copy_files backup_name path_of e.restore_error dir fs.files home

verdict-copy_error : (fs : AuthFileSet) (r : CopyRun) → verdict fs r ≡ none → r.copy_error ≡ none
unfolding verdict
verdict-copy_error fs r h = elim (Option-cases r.copy_error) [
  | inl ok ↦ ok
  | inr (x, e) ↦ absurd (Option.none-ne-some (copy_failed x) (sym (rw e at h)))
]

-- A backup that reports no error stores the directory that its loop leaves, with the metadata.
backup_loop-done :
    (e : Env) (fs : AuthFileSet) (p : String) (w : World)
    → (backup_loop e fs p w).1 ≡ none
    → (verdict fs (backup_run e fs p w) ≡ none)
      × (lookup p (backup_loop e fs p w).0.vault
          ≡ some (
              put "meta.json"
                (e.encode (metadata e fs p (backup_run e fs p w)))
                (backup_run e fs p w).dir))
unfolding backup_loop
backup_loop-done e fs p w ok = elim (Option-cases (verdict fs (backup_run e fs p w))) [
  | inr (x, v) ↦ absurd (Option.none-ne-some x (sym (rw (backup_loop, v) at ok)))
  | inl v ↦ elim (Option-cases e.meta_error) [
    | inr (x, q) ↦ absurd (Option.none-ne-some _ (sym (rw (backup_loop, v, q) at ok)))
    | inl q ↦ (v, rw (backup_loop, v, q) (lookup-put_self p _ w.vault))
  ]
]

backup_files-done :
    (e : Env) (fs : AuthFileSet) (p : String) (w : World)
    → (backup_files e fs p w).1 ≡ none
    → (verdict fs (backup_run e fs p w) ≡ none)
      × (lookup p (backup_files e fs p w).0.vault
          ≡ some (
              put "meta.json"
                (e.encode (metadata e fs p (backup_run e fs p w)))
                (backup_run e fs p w).dir))
unfolding backup_files
backup_files-done e fs p w ok = elim (Option-cases e.make_dir_error) [
  | inr (x, d) ↦ absurd (Option.none-ne-some _ (sym (rw (backup_files, d) at ok)))
  | inl d ↦ rw (backup_files, d) (backup_loop-done e fs p w (rw (backup_files, d) at ok))
]

backup-done :
    (e : Env) (fs : AuthFileSet) (name p : String) (w : World)
    → validate_vault_segment name ≡ some p
    → (backup e fs name w).1 ≡ none
    → backup e fs name w ≡ backup_files e fs p w
unfolding backup backup_as
backup-done e fs name p w h ok = elim (Option-cases (refusal e p w)) [
  | inr (x, b) ↦ absurd (Option.none-ne-some _ (sym (rw (backup, h, backup_as, b) at ok)))
  | inl b ↦ rw (backup, h, backup_as, b) refl
]

pub restore-named :
    (e : Env) (fs : AuthFileSet) (name p : String) (w : World) (dir : Table String)
    → validate_vault_segment name ≡ some p
    → lookup p w.vault ≡ some dir
    → restore e fs name w ≡ (
      record w { home = (restore_run e fs dir w.home).dir },
      verdict fs (restore_run e fs dir w.home),
    )
unfolding restore restore_from restore_files
restore-named e fs name p w dir h there = rw (restore, h, there) refl

-- A restore of a profile of the vault in which no copy is refused leaves each auth file of the tool
-- as the profile has it; one that the profile does not have stays as it was, and so does every
-- other file. The paths of the auth files differ.
pub restore_exact :
    (e : Env) (fs : AuthFileSet) (name p : String) (w : World) (dir : Table String)
    → IsApart path_of fs.files
    → ((f : AuthFileSpec) → e.restore_error f ≡ none)
    → validate_vault_segment name ≡ some p
    → lookup p w.vault ≡ some dir
    → let home = (restore e fs name w).0.home in
      ((f : AuthFileSpec)
        → Mem f fs.files
        → lookup f.path home ≡ copied_over (lookup (backup_name f) dir) (lookup f.path w.home))
      × ((k : String)
          → All (λ f. str_eq f.path k ≡ false) fs.files
          → lookup k home ≡ lookup k w.home)
unfolding restore restore_from restore_files
restore_exact e fs name p w dir apart allowed h there =
    let named = restore-named e fs name p w dir h there in
    (
      λ f m.
          ap (λ (o : Outcome). lookup f.path o.0.home) named
          ∙ copy_files-lem backup_name path_of e.restore_error dir fs.files w.home f apart
              (copy_files-allowed backup_name path_of e.restore_error dir fs.files w.home allowed)
              m,
      λ k others.
          ap (λ (o : Outcome). lookup k o.0.home) named
          ∙ copy_files-others backup_name path_of e.restore_error dir fs.files w.home k others,
    )

dir_of_stored :
    (p : String) (dir : Table String) (vault : Table (Table String))
    → lookup p vault ≡ some dir
    → dir_of p vault ≡ dir
dir_of_stored p dir vault there = rw (there, dir_of) refl

backup-stored :
    (e : Env) (fs : AuthFileSet) (name p : String) (w : World)
    → validate_vault_segment name ≡ some p
    → (backup e fs name w).1 ≡ none
    → (dir : Table String) × (lookup p (backup e fs name w).0.vault ≡ some dir)
backup-stored e fs name p w h ok =
    let named = backup-done e fs name p w h ok in
    let done = backup_files-done e fs p w (rw named at ok) in
    (_, ap (λ (o : Outcome). lookup p o.0.vault) named ∙ done.1)

-- What the directory of a profile has for a file after a backup that reports no error: the live
-- file, or else what it had.
backup-lookup :
    (e : Env) (fs : AuthFileSet) (name p : String) (w : World) (f : AuthFileSpec)
    → IsApart backup_name fs.files
    → All (λ g. str_eq (backup_name g) "meta.json" ≡ false) fs.files
    → validate_vault_segment name ≡ some p
    → (backup e fs name w).1 ≡ none
    → Mem f fs.files
    → lookup (backup_name f) (dir_of p (backup e fs name w).0.vault)
      ≡ copied_over (lookup f.path w.home) (lookup (backup_name f) (dir_of p w.vault))
backup-lookup e fs name p w f apart plain h ok m =
    let named = backup-done e fs name p w h ok in
    let done = backup_files-done e fs p w (rw named at ok) in
    let r = backup_run e fs p w in
    let not_meta =
      All-mem (λ g. str_eq (backup_name g) "meta.json" ≡ false) (λ g. hlevel) f fs.files plain m in
    ap (λ (o : Outcome). lookup (backup_name f) (dir_of p o.0.vault)) named
    ∙ ap (lookup (backup_name f)) (dir_of_stored p _ (backup_files e fs p w).0.vault done.1)
    ∙ rw
        (
          lookup-put "meta.json" (backup_name f) (e.encode (metadata e fs p r)) r.dir,
          str_eq_flip (backup_name f) "meta.json" not_meta,
        )
        refl
    ∙ copy_files-lem path_of backup_name e.backup_error w.home fs.files (dir_of p w.vault) f apart
        (verdict-copy_error fs r done.0) m

-- A backup under a valid name that reports no error, and later a restore of that profile in which no copy is
-- refused, whatever the live files are by then: each auth file of the tool is as it was live at the
-- backup; one that was not live then is as the profile had it from before, and one that the profile
-- did not have either is as it was at the restore. The paths of the auth files differ, and so do
-- their base names, which are not that of the metadata.
pub restore-backup :
    (e later : Env) (fs : AuthFileSet) (name p : String) (w : World) (home : Table String)
    (f : AuthFileSpec)
    → IsApart backup_name fs.files
    → IsApart path_of fs.files
    → All (λ g. str_eq (backup_name g) "meta.json" ≡ false) fs.files
    → ((g : AuthFileSpec) → later.restore_error g ≡ none)
    → validate_vault_segment name ≡ some p
    → (backup e fs name w).1 ≡ none
    → Mem f fs.files
    → let vault = (backup e fs name w).0.vault in
      lookup f.path (restore later fs name (record { home = home; vault = vault })).0.home
      ≡ copied_over
          (copied_over (lookup f.path w.home) (lookup (backup_name f) (dir_of p w.vault)))
          (lookup f.path home)
restore-backup e later fs name p w home f apart apart' plain allowed h ok m =
    let vault = (backup e fs name w).0.vault in
    let (dir, there) = backup-stored e fs name p w h ok in
    (restore_exact later fs name p (record { home = home; vault = vault }) dir apart' allowed h
        there).0
      f m
    ∙ ap (λ c. copied_over c (lookup f.path home))
        (ap (lookup (backup_name f)) (sym (dir_of_stored p dir vault there))
          ∙ backup-lookup e fs name p w f apart plain h ok m)

copied_over-none : (o : Option String) → copied_over o none ≡ o
copied_over-none none = refl
copied_over-none (some x) = refl

new_profile-no_error :
    (e later : Env) (fs : AuthFileSet) (name p : String) (w : World) (home : Table String)
    → IsApart backup_name fs.files
    → All (λ g. str_eq (backup_name g) "meta.json" ≡ false) fs.files
    → ((g : AuthFileSpec) → later.restore_error g ≡ none)
    → validate_vault_segment name ≡ some p
    → has_key p w.vault ≡ false
    → (backup e fs name w).1 ≡ none
    → (restore later fs name (record { home = home; vault = (backup e fs name w).0.vault })).1
      ≡ none
unfolding lookup verdict lacks
new_profile-no_error e later fs name p w home apart plain allowed h fresh ok =
    let vault = (backup e fs name w).0.vault in
    let (dir, there) = backup-stored e fs name p w h ok in
    let done = backup_files-done e fs p w (rw (backup-done e fs name p w h ok) at ok) in
    let nothing_yet : dir_of p w.vault ≡ [] =
      rw (lookup_of_not-has_key p w.vault fresh, dir_of) refl in
    let same : All (λ f. lookup f.path w.home ≡ lookup (backup_name f) dir) fs.files =
      All-of_mem (λ f. lookup f.path w.home ≡ lookup (backup_name f) dir) fs.files
        (λ f m. sym (
          ap (lookup (backup_name f)) (sym (dir_of_stored p dir vault there))
          ∙ backup-lookup e fs name p w f apart plain h ok m
          ∙ ap (λ d. copied_over (lookup f.path w.home) (lookup (backup_name f) d)) nothing_yet
          ∙ copied_over-none (lookup f.path w.home))) in
    ap (λ (o : Outcome). o.1)
      (restore-named later fs name p (record { home = home; vault = vault }) dir h there)
    ∙ ap (verdict fs) (
        counts-copy_files path_of backup_name e.backup_error backup_name path_of later.restore_error
          w.home dir fs.files (dir_of p w.vault) home allowed
          (verdict-copy_error fs (backup_run e fs p w) done.0) same)
    ∙ done.0

-- What a backup without an error has saved as a new profile, under a valid name, a restore in which
-- no copy is refused brings back, whatever the live files are by then: it ends without an error, and
-- each auth file of the tool that was live at the backup has the contents that it had then. The
-- paths of the auth files differ, and so do their base names, which are not that of the metadata.
pub new_profile_restores :
    (e later : Env) (fs : AuthFileSet) (name p : String) (w : World) (home : Table String)
    → IsApart backup_name fs.files
    → IsApart path_of fs.files
    → All (λ g. str_eq (backup_name g) "meta.json" ≡ false) fs.files
    → ((g : AuthFileSpec) → later.restore_error g ≡ none)
    → validate_vault_segment name ≡ some p
    → has_key p w.vault ≡ false
    → (backup e fs name w).1 ≡ none
    → let restored =
        restore later fs name (record { home = home; vault = (backup e fs name w).0.vault }) in
      (restored.1 ≡ none)
      × ((f : AuthFileSpec) (x : String)
          → Mem f fs.files
          → lookup f.path w.home ≡ some x
          → lookup f.path restored.0.home ≡ some x)
new_profile_restores e later fs name p w home apart apart' plain allowed h fresh ok = (
  new_profile-no_error e later fs name p w home apart plain allowed h fresh ok,
  λ f x m live.
      restore-backup e later fs name p w home f apart apart' plain allowed h ok m
      ∙ ap
          (λ c.
            copied_over (copied_over c (lookup (backup_name f) (dir_of p w.vault)))
              (lookup f.path home))
          live,
)
