-- ===== src/Vault/Automatic.antt =====
-- internal/authfile/authfile.go: the backups that caam makes by itself.
use Prim.Native.String.{◌++◌ as append}
use caam_account_switching.Prelude.{
  ℕ, zero, suc, ◌-◌, String, Bool, true, false, not, Option, none, some, List, [], ◌∷◌, leb, ◌==◌,
  str_eq, if◌then◌else◌, filter, length,
}
use caam_account_switching.Prelude.Sort.{sort_slice}
use caam_account_switching.Vault.Names.{has_prefix}
use caam_account_switching.Vault.Copying.{AuthFileSet, VaultError, stat_failed, active_failed}
use caam_account_switching.Vault.Operations.{
  Env, World, Outcome, original_profile_name, backup, delete_force, list_profiles,
  has_original_backup, has_auth_files,
}
use caam_account_switching.Vault.Detection.{active_profile}

-- `BackupOriginal`: whether it made a backup, and its error.
unfoldable pub backup_original : Env → AuthFileSet → World → World × Bool × Option VaultError
backup_original e fs w =
    let backed = backup e fs original_profile_name w in
    let saved : World × Bool × Option VaultError = elim backed.1 [
      | some error ↦ (backed.0, false, some error)
      | none ↦ (backed.0, true, none)
    ] in
    let looked_for : World × Bool × Option VaultError = elim e.active_error [
      | some error ↦ (w, false, some (active_failed error))
      | none ↦ if not (str_eq (active_profile e fs w) "") then (w, false, none) else saved
    ] in
    elim e.stat_error [
      | some error ↦ (w, false, some (stat_failed error))
      | none ↦
          if has_original_backup w
          then (w, false, none)
          else if not (has_auth_files fs w)
          then (w, false, none)
          else looked_for
    ]

-- `BackupCurrent`: the name of the backup, and its error.
unfoldable pub backup_current : Env → AuthFileSet → World → World × String × Option VaultError
backup_current e fs w =
    let name = append "_backup_" e.stamp in
    let backed = backup e fs name w in
    if not (has_auth_files fs w)
    then (w, "", none)
    else elim backed.1 [ some error ↦ (backed.0, "", some error) | none ↦ (backed.0, name, none) ]

-- The loop that deletes: the error of a deletion ends it.
unfoldable pub delete_oldest : ℕ → List String → World → Outcome
delete_oldest zero ps w = (w, none)
delete_oldest (suc n) [] w = (w, none)
delete_oldest (suc n) (p ∷ ps) w =
    let deleted = delete_force p w in
    let rest = delete_oldest n ps deleted.0 in
    elim deleted.1 [ some error ↦ (deleted.0, some error) | none ↦ rest ]

abbrev pub auto_backups : Env → World → List String
auto_backups e w = filter (λ p. has_prefix "_backup_" p) (list_profiles e w)

unfoldable pub rotate_auto_backups : Env → ℕ → World → Outcome
unfolding list_profiles delete_oldest
rotate_auto_backups e max_backups w =
    let backups = auto_backups e w in
    if max_backups == 0
    then (w, none)
    else if leb (length backups) max_backups
    then (w, none)
    else delete_oldest (length backups - max_backups) (sort_slice e.less backups) w
