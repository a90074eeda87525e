-- ===== src/Vault/Original.antt =====
-- BackupOriginal after an error of its own.
use mathlib.Core.Option
use caam_account_switching.Prelude.{
  String, true, false, none, some, List, ◌≡◌, refl, ap, ◌∙◌, str_eq, Bool-cases, Option-cases, inl,
  inr,
}
use caam_account_switching.Prelude.Table.{Table, lookup, has_key, lookup-put_self}
use caam_account_switching.Vault.Names.{has_underscore, is_system_profile, validate_vault_segment}
use caam_account_switching.Vault.Copying.{AuthFileSet, VaultError}
use caam_account_switching.Vault.Operations.{
  Env, World, Outcome, backup_loop, set_profile, refusal, backup_files, backup_as, backup,
  has_original_backup, original_profile_name, has_auth_files,
}
use caam_account_switching.Vault.Automatic.{backup_original}
use caam_account_switching.Vault.Detection.{active_profile}
use caam_account_switching.Vault.Protected.{
  Keeps, has_key_of_lookup, backup_loop-world, Call, after_calls, after_calls-Keeps,
}

refusal-absent :
    (e : Env) (w : World)
    → e.stat_error ≡ none
    → has_key original_profile_name w.vault ≡ false
    → refusal e original_profile_name w ≡ none
unfolding refusal is_system_profile
refusal-absent e w o h = rw (refusal, o, h) refl

backup_files-made :
    (e : Env) (fs : AuthFileSet) (p : String) (w : World)
    → e.make_dir_error ≡ none
    → backup_files e fs p w ≡ backup_loop e fs p w
unfolding backup_files
backup_files-made e fs p w d = rw (backup_files, d) refl

backup_as-allowed :
    (e : Env) (fs : AuthFileSet) (p : String) (w : World)
    → refusal e p w ≡ none
    → backup_as e fs p w ≡ backup_files e fs p w
unfolding backup_as
backup_as-allowed e fs p w r = rw (backup_as, r) refl

backup-original-world :
    (e : Env) (fs : AuthFileSet) (w : World)
    → e.stat_error ≡ none
    → e.make_dir_error ≡ none
    → has_original_backup w ≡ false
    → (dir : Table String) × ((backup e fs original_profile_name w).0
        ≡ set_profile original_profile_name dir w)
unfolding backup has_original_backup validate_vault_segment
backup-original-world e fs w o d h =
    let (dir, changed) = backup_loop-world e fs original_profile_name w in
    (
      dir,
      ap (λ (r : Outcome). r.0)
            (backup_as-allowed e fs original_profile_name w (refusal-absent e w o h)
              ∙ backup_files-made e fs original_profile_name w d)
          ∙ changed,
    )

backup_original-world :
    (e : Env) (fs : AuthFileSet) (w : World) (y : VaultError)
    → e.stat_error ≡ none
    → has_original_backup w ≡ false
    → has_auth_files fs w ≡ true
    → e.active_error ≡ none
    → str_eq (active_profile e fs w) "" ≡ true
    → (backup e fs original_profile_name w).1 ≡ some y
    → (backup_original e fs w).0 ≡ (backup e fs original_profile_name w).0
unfolding backup_original
backup_original-world e fs w y o b f g a bad =
    rw (backup_original, o, b, f, g, a, bad)
      (λ i.
        (backup (record e { stat_error = o i; active_error = g i }) fs original_profile_name w).0)

original_failed-world :
    (e : Env) (fs : AuthFileSet) (w : World) (x : VaultError)
    → e.stat_error ≡ none
    → e.active_error ≡ none
    → e.make_dir_error ≡ none
    → (backup_original e fs w).2 ≡ some x
    → (dir : Table String) × Keeps original_profile_name dir (backup_original e fs w).0
unfolding backup_original
original_failed-world e fs w x o g d h = elim (Bool-cases (has_original_backup w)) [
  | inl b ↦ absurd (Option.none-ne-some x (rw (backup_original, o, b) at h))
  | inr b ↦ elim (Bool-cases (has_auth_files fs w)) [
    | inr f ↦ absurd (Option.none-ne-some x (rw (backup_original, o, b, f) at h))
    | inl f ↦ elim (Bool-cases (str_eq (active_profile e fs w) "")) [
      | inr a ↦ absurd (Option.none-ne-some x (rw (backup_original, o, b, f, g, a) at h))
      | inl a ↦
          let (dir, changed) = backup-original-world e fs w o d b in
          let kept : Keeps original_profile_name dir (backup e fs original_profile_name w).0 =
            rw changed (lookup-put_self original_profile_name dir w.vault) in
          elim (Option-cases (backup e fs original_profile_name w).1) [
            | inl ok ↦ absurd (Option.none-ne-some x (rw (backup_original, o, b, f, g, a, ok) at h))
            | inr (y, bad) ↦ (
              dir,
              ap (λ (v : World). lookup original_profile_name v.vault)
                    (backup_original-world e fs w y o b f g a bad)
                  ∙ kept,
            )
          ]
    ]
  ]
]

-- A backup of the original state that ends with an error after its directory has been made (the
-- directory could be looked up and made, and the active profile be searched for) is never made
-- good: after any calls that do not force, the next one that can look up the directory does nothing
-- and reports neither a backup nor an error.
pub failed_original_stays :
    (e again : Env) (fs next : AuthFileSet) (w : World) (x : VaultError) (cs : List Call)
    → e.stat_error ≡ none
    → e.active_error ≡ none
    → e.make_dir_error ≡ none
    → again.stat_error ≡ none
    → (backup_original e fs w).2 ≡ some x
    → let w' = after_calls cs (backup_original e fs w).0 in
      backup_original again next w' ≡ (w', false, none)
unfolding backup_original has_original_backup has_underscore
failed_original_stays e again fs next w x cs o g d o' h =
    let (dir, kept) = original_failed-world e fs w x o g d h in
    let w' = after_calls cs (backup_original e fs w).0 in
    let there : has_original_backup w' ≡ true =
      has_key_of_lookup original_profile_name dir w'.vault
        (after_calls-Keeps original_profile_name dir cs (backup_original e fs w).0 refl kept) in
    rw (backup_original, o', there) refl
