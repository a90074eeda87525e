-- ===== src/Vault/Operations.antt =====
-- internal/authfile/authfile.go: the operations of the vault of one tool, with a valid name, in a
-- directory of directories. The live auth files are a table from paths to contents. The errors of
-- the file system are modelled where a directory is looked up or made, a file is copied or removed and
-- the metadata is written.
use caam_account_switching.Prelude.{
  ℕ, String, Bool, true, false, ◌&&◌, Option, none, some, List, [], ◌∷◌, str_eq, if◌then◌else◌, map,
}
use caam_account_switching.Prelude.Table.{Table, lookup, put, remove, has_key}
use caam_account_switching.Prelude.Sort.{sort_slice}
use caam_account_switching.Vault.Names.{is_system_profile, trim_space, validate_vault_segment}
use caam_account_switching.Vault.Copying.{
  AuthFileSpec, AuthFileSet, backup_name, CopyRun, copy_files, VaultError, invalid_name, protected,
  not_found, metadata_failed, stat_failed, make_dir_failed, verdict,
}

pub record Meta : Type 0 where
  pub tool : String
  pub profile : String
  pub backed_up_at : String
  pub files : ℕ
  pub kind : String
  pub created_by : String
  pub original_paths : List String

-- What the operations get from outside: the order of strings, the errors of copying and removing,
-- the encoding and the writing of the metadata, the errors of looking up and of making a profile's
-- directory, that of finding the active profile, the hash of a file and the time, as a text in the
-- two formats that the source writes it in.
pub record Env : Type 0 where
  pub less : String → String → Bool
  pub backup_error : AuthFileSpec → Option String
  pub restore_error : AuthFileSpec → Option String
  pub clear_error : AuthFileSpec → Option String
  pub encode : Meta → String
  pub meta_error : Option String
  pub stat_error : Option String
  pub make_dir_error : Option String
  pub active_error : Option String
  pub hash : String → String
  pub now : String
  pub stamp : String

pub record World : Type 0 where
  pub home : Table String
  pub vault : Table (Table String)

-- An operation returns the world and its error, `none` for nil.
abbrev pub Outcome : Type 0
Outcome = World × Option VaultError

-- The files of a profile's directory, none if there is no such directory.
abbrev pub dir_of : String → Table (Table String) → Table String
dir_of p vault = elim (lookup p vault) [ none ↦ [] | some dir ↦ dir ]

abbrev pub original_profile_name : String
original_profile_name = "_original"

unfoldable pub metadata : Env → AuthFileSet → String → CopyRun → Meta
metadata e fs p r = record {
  tool = trim_space fs.tool;
  profile = p;
  backed_up_at = e.now;
  files = r.count;
  kind = if is_system_profile p then "system" else "user";
  created_by =
      if is_system_profile p
      then if str_eq p original_profile_name then "first-activate" else "auto"
      else "user";
  original_paths = map (λ f. f.path) r.copied;
}

abbrev pub set_profile : String → Table String → World → World
set_profile p dir w = record w { vault = put p dir w.vault }

-- `Backup` from the loop on.
unfoldable pub backup_loop : Env → AuthFileSet → String → World → Outcome
unfolding copy_files verdict metadata
backup_loop e fs p w =
    let r =
      copy_files (λ f. f.path) backup_name e.backup_error w.home fs.files (dir_of p w.vault) in
    elim (verdict fs r) [
      | some error ↦ (set_profile p r.dir w, some error)
      | none ↦ elim e.meta_error [
        | some error ↦ (set_profile p r.dir w, some (metadata_failed error))
        | none ↦ (set_profile p (put "meta.json" (e.encode (metadata e fs p r)) r.dir) w, none)
      ]
    ]

-- `Backup` from the making of the directory on.
unfoldable pub backup_files : Env → AuthFileSet → String → World → Outcome
unfolding backup_loop
backup_files e fs p w = elim e.make_dir_error [
  | some error ↦ (w, some (make_dir_failed error))
  | none ↦ backup_loop e fs p w
]

-- Why a backup does not write to the profile of the system, if so.
unfoldable pub refusal : Env → String → World → Option VaultError
refusal e p w =
    if is_system_profile p
    then elim e.stat_error [
      | some error ↦ some (stat_failed error)
      | none ↦ if has_key p w.vault then some protected else none
    ]
    else none

-- `Backup` under a valid name.
unfoldable pub backup_as : Env → AuthFileSet → String → World → Outcome
backup_as e fs p w = elim (refusal e p w) [
  | some error ↦ (w, some error)
  | none ↦ backup_files e fs p w
]

unfoldable pub backup : Env → AuthFileSet → String → World → Outcome
backup e fs name w = elim (validate_vault_segment name) [
  | none ↦ (w, some invalid_name)
  | some p ↦ backup_as e fs p w
]

-- `Restore` from the loop on.
unfoldable pub restore_files : Env → AuthFileSet → Table String → World → Outcome
unfolding copy_files verdict
restore_files e fs dir w =
    let r = copy_files backup_name (λ f. f.path) e.restore_error dir fs.files w.home in
    (record w { home = r.dir }, verdict fs r)

unfoldable pub restore_from : Env → AuthFileSet → Option (Table String) → World → Outcome
restore_from e fs none w = (w, some not_found)
restore_from e fs (some dir) w = restore_files e fs dir w

unfoldable pub restore : Env → AuthFileSet → String → World → Outcome
restore e fs name w = elim (validate_vault_segment name) [
  | none ↦ (w, some invalid_name)
  | some p ↦ restore_from e fs (lookup p w.vault) w
]

unfoldable pub delete_force : String → World → Outcome
delete_force name w = elim (validate_vault_segment name) [
  | none ↦ (w, some invalid_name)
  | some p ↦ (record w { vault = remove p w.vault }, none)
]

unfoldable pub delete : String → World → Outcome
delete name w = if is_system_profile name then (w, some protected) else delete_force name w

abbrev pub keys {ℓ} : {V : Type ℓ} → Table V → List String
keys [] = []
keys ((k, v) ∷ m) = k ∷ keys m

-- `List`; `os.ReadDir` sorts what it lists.
unfoldable pub list_profiles : Env → World → List String
unfolding sort_slice
list_profiles e w = sort_slice e.less (keys w.vault)

unfoldable pub has_original_backup : World → Bool
has_original_backup w = has_key original_profile_name w.vault

-- The loop of `HasAuthFiles`, with `optionalFound`.
unfoldable pub has_files : Bool → Table String → Bool → List AuthFileSpec → Bool
has_files allow home optional_found [] = allow && optional_found
has_files allow home optional_found (f ∷ fs) =
    let rest = has_files allow home optional_found fs in
    let found = has_files allow home true fs in
    if has_key f.path home then if f.required then true else found else rest

unfoldable pub has_auth_files : AuthFileSet → World → Bool
unfolding has_files
has_auth_files fs w = has_files fs.allow_optional_only w.home false fs.files

-- The loop of `ClearAuthFiles`.
unfoldable pub clear_files : Env → List AuthFileSpec → World → World × Option String
clear_files e [] w = (w, none)
clear_files e (f ∷ fs) w =
    let rest = clear_files e fs (record w { home = remove f.path w.home }) in
    elim (e.clear_error f) [ some error ↦ (w, some error) | none ↦ rest ]
