-- ===== src/Vault/Copying.antt =====
-- internal/authfile/authfile.go: the loop over the files of a tool that Backup and Restore share,
-- and their tests of its result.
use Prim.Native.Char.{code}
use caam_account_switching.Prelude.{
  ℕ, suc, String, Bool, true, false, not, ◌&&◌, Option, none, some, List, [], ◌∷◌, ◌==◌,
  if◌then◌else◌,
}
use caam_account_switching.Prelude.Table.{Table, lookup, put}

pub record AuthFileSpec : Type 0 where
  pub path : String
  pub required : Bool

pub record AuthFileSet : Type 0 where
  pub tool : String
  pub files : List AuthFileSpec
  pub allow_optional_only : Bool

unfoldable pub after_slash : String → Option String
after_slash String.[] = none
after_slash (String.◌∷◌ c rest) = elim (after_slash rest) [
  | some name ↦ some name
  | none ↦ if code c == 47 then some rest else none
]

-- `filepath.Base`, of a path that is not empty and does not end in a slash.
unfoldable pub base : String → String
unfolding after_slash
base path = elim (after_slash path) [ none ↦ path | some name ↦ name ]

-- The name of a file in the directory of a profile.
abbrev pub backup_name : AuthFileSpec → String
backup_name f = base f.path

-- The variables of the loop, and the directory that it copies to. `missing_required` and `copied`
-- have the files in place of their paths.
pub record CopyRun : Type 0 where
  pub dir : Table String
  pub copy_error : Option String
  pub count : ℕ
  pub required_found : Bool
  pub optional_found : Bool
  pub missing_required : List AuthFileSpec
  pub copied : List AuthFileSpec

abbrev pub nothing_copied : Table String → Option String → CopyRun
nothing_copied dir error = record {
  dir = dir;
  copy_error = error;
  count = 0;
  required_found = false;
  optional_found = false;
  missing_required = [];
  copied = [];
}

-- A file that is not there.
unfoldable pub skip_file : AuthFileSpec → CopyRun → CopyRun
skip_file f r = if f.required then record r { missing_required = f ∷ r.missing_required } else r

unfoldable pub count_file : AuthFileSpec → CopyRun → CopyRun
count_file f r =
    let counted = record r { count = suc r.count; copied = f ∷ r.copied } in
    if f.required
    then record counted { required_found = true }
    else record counted { optional_found = true }

module _ (from to : AuthFileSpec → String) (refuses : AuthFileSpec → Option String) where
  -- The loop, from the names `from` of one directory to the names `to` of another. `refuses` says
  -- with which error `copyFile` fails; it then leaves the target as it was, and the loop ends.
  unfoldable pub copy_files : Table String → List AuthFileSpec → Table String → CopyRun
  unfolding skip_file count_file
  copy_files src [] dst = nothing_copied dst none
  copy_files src (f ∷ fs) dst =
      let skipped = copy_files src fs dst in
      elim (lookup (from f) src) [
        | none ↦ skip_file f skipped
        | some x ↦
            let rest = copy_files src fs (put (to f) x dst) in
            elim (refuses f) [
              | some error ↦ nothing_copied dst (some error)
              | none ↦ count_file f rest
            ]
      ]

pub data VaultError : Type 0 where
  invalid_name protected not_found nothing_found : VaultError
  copy_failed metadata_failed stat_failed make_dir_failed active_failed : String → VaultError
  required_missing : AuthFileSpec → VaultError

unfoldable pub lacks : Bool → CopyRun → List AuthFileSpec → Option VaultError
lacks allow r [] = none
lacks allow r (f ∷ fs) =
    if not (allow && (not r.required_found && r.optional_found))
    then some (required_missing f)
    else none

-- The error for which Backup or Restore ends after the loop, if any.
unfoldable pub verdict : AuthFileSet → CopyRun → Option VaultError
unfolding lacks
verdict fs r = elim r.copy_error [
  | some error ↦ some (copy_failed error)
  | none ↦
      if r.count == 0 then some nothing_found else lacks fs.allow_optional_only r r.missing_required
]
