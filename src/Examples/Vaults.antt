-- ===== src/Examples/Vaults.antt =====
-- Runs of the vault of internal/authfile at concrete inputs.
use mathlib.Core.Bool
use mathlib.Core.List.{mem-cons_self}
use caam_account_switching.Prelude.{
  String, Mem, true, false, none, some, [], ◌∷◌, ◌≡◌, refl, sym, str_eq, if◌then◌else◌,
}
use caam_account_switching.Prelude.Table.{lookup, put}
use caam_account_switching.Vault.Names.{
  is_space, trim_left, trim_right, trim_space, has_underscore, is_system_profile, is_safe, all_safe,
  validate_vault_segment,
}
use caam_account_switching.Vault.Copying.{
  AuthFileSpec, AuthFileSet, after_slash, base, copy_files, skip_file, count_file, copy_failed,
  lacks, verdict,
}
use caam_account_switching.Vault.Operations.{
  Env, World, backup_loop, refusal, backup_files, backup_as, backup, restore, list_profiles,
  has_original_backup, has_files, has_auth_files, dir_of,
}
use caam_account_switching.Vault.Automatic.{backup_original}
use caam_account_switching.Vault.Detection.{
  hash_file, hash_files, relevant_hashes, matches, user_first, first_match, match_profile,
  active_profile,
}
use caam_account_switching.Vault.RoundTrip.{restore-backup, new_profile_restores}
use caam_account_switching.Vault.Protected.{
  backs_up, deletes, rewrites, after_calls, after_calls-Keeps,
}
use caam_account_switching.Vault.Original.{failed_original_stays}
use caam_account_switching.Vault.Detected.{restored_is_detected}
use caam_account_switching.Vault.Active.{active_profile_matches}

abbrev credentials : AuthFileSpec
credentials = record { path = "/h/.claude/.credentials.json"; required = true }

abbrev settings : AuthFileSpec
settings = record { path = "/h/.claude.json"; required = false }

abbrev claude : AuthFileSet
claude = record { tool = "claude"; files = credentials ∷ settings ∷ []; allow_optional_only = true }

abbrev env : Env
env = record {
  less = λ a b. false;
  backup_error = λ f. none;
  restore_error = λ f. none;
  clear_error = λ f. none;
  encode = λ m. m.profile;
  meta_error = none;
  stat_error = none;
  make_dir_error = none;
  active_error = none;
  hash = λ x. x;
  now = "2025-12-17T14:30:22Z";
  stamp = "20251217_143022";
}

abbrev live : World
live = record {
  home = ("/h/.claude/.credentials.json", "token") ∷ ("/h/.claude.json", "theme") ∷ [];
  vault =
      ("_original", ("settings.json", "old") ∷ [])
      ∷ ("home", (".credentials.json", "token") ∷ [])
      ∷ [];
}

restore-backup_example :
    lookup credentials.path
      (restore env claude "work"
        (record { home = []; vault = (backup env claude "work" live).0.vault })).0.home
    ≡ some "token"
unfolding lookup base after_slash validate_vault_segment is_space trim_left trim_right trim_space
    is_safe all_safe backup backup_as is_system_profile has_underscore backup_files backup_loop
    refusal verdict copy_files skip_file count_file lacks
restore-backup_example =
    restore-backup env env claude "work" "work" live [] credentials ((refl, tt), (tt, tt))
      ((refl, tt), (tt, tt)) (refl, (refl, tt)) (λ g. refl) refl refl mem-cons_self

new_profile_restores_example :
    let restored =
      restore env claude "work"
        (record { home = []; vault = (backup env claude "work" live).0.vault }) in
    (restored.1 ≡ none)
    × ((f : AuthFileSpec) (x : String)
        → Mem f claude.files
        → lookup f.path live.home ≡ some x
        → lookup f.path restored.0.home ≡ some x)
unfolding lookup base after_slash validate_vault_segment is_space trim_left trim_right trim_space
    is_safe all_safe backup backup_as is_system_profile has_underscore backup_files backup_loop
    refusal verdict copy_files skip_file count_file lacks
new_profile_restores_example =
    new_profile_restores env env claude "work" "work" live [] ((refl, tt), (tt, tt))
      ((refl, tt), (tt, tt)) (refl, (refl, tt)) (λ g. refl) refl refl refl

after_calls-Keeps_example :
    lookup "_original"
      (after_calls
        (deletes " _original" ∷ backs_up env claude "_original" ∷ rewrites [] ∷ [])
        live).vault
    ≡ some (("settings.json", "old") ∷ [])
unfolding has_underscore lookup
after_calls-Keeps_example =
    after_calls-Keeps "_original" (("settings.json", "old") ∷ [])
      (deletes " _original" ∷ backs_up env claude "_original" ∷ rewrites [] ∷ []) live refl refl

active_profile_matches_example :
    lookup ".credentials.json" (dir_of (active_profile env claude live) live.vault) ≡ some "token"
unfolding lookup put base after_slash is_space trim_left trim_right trim_space is_system_profile
    has_underscore hash_file hash_files relevant_hashes matches user_first first_match match_profile
    active_profile list_profiles
active_profile_matches_example =
    active_profile_matches env claude live credentials "token" (λ a b h. h) ((refl, tt), (tt, tt))
      refl mem-cons_self refl refl

-- The settings cannot be read, and there is no profile yet.
abbrev refusing : Env
refusing = record env { backup_error = λ f. if f.required then none else some "denied" }

abbrev fresh : World
fresh = record live { vault = [] }

failed_original_stays_example :
    backup_original env claude (after_calls [] (backup_original refusing claude fresh).0)
    ≡ (after_calls [] (backup_original refusing claude fresh).0, false, none)
unfolding backup_original has_original_backup has_auth_files has_files active_profile lookup put
    base after_slash hash_file hash_files relevant_hashes match_profile first_match user_first
    list_profiles validate_vault_segment is_space trim_left trim_right trim_space is_safe all_safe
    backup backup_as is_system_profile has_underscore backup_files backup_loop refusal verdict
    copy_files skip_file count_file lacks
failed_original_stays_example =
    failed_original_stays refusing env claude claude fresh (copy_failed "denied") [] refl refl refl
      refl refl

restored_is_detected_example :
    str_eq (active_profile env claude (restore env claude "home" live).0) "" ≡ false
unfolding lookup base after_slash validate_vault_segment is_space trim_left trim_right trim_space
    is_safe all_safe
restored_is_detected_example =
    restored_is_detected env claude "home" "home" live ((".credentials.json", "token") ∷ [])
      credentials ((refl, tt), (tt, tt)) ((refl, tt), (tt, tt)) (λ g. refl) refl refl
      ((λ h. refl), ((λ h. absurd (Bool.true≢false (sym h))), tt)) (refl, (refl, tt)) mem-cons_self
      refl
