-- ===== src/Project.antt =====
-- internal/project: the profiles that are associated with a directory (matcher.go and the part of
-- store.go that resolves a directory). The directories are those that `parentDirs` lists, from the
-- directory itself to the root.
pub mod Patterns
pub mod Places
pub mod Resolution
use Prim.Native.Char.{code}
use caam_account_switching.Prelude.{
  ℕ, zero, suc, String, Bool, true, false, not, ◌&&◌, ◌||◌, List, [], ◌∷◌, Option, none, some, ltb,
  ◌==◌, str_eq, if◌then◌else◌, filter,
}
use caam_account_switching.Prelude.Table.{Table, lookup, put, has_key}
use caam_account_switching.Prelude.Sort.{sort_slice}
use caam_account_switching.Vault.Names.{trim_space}

-- What the source calls: `filepath.Match` (false for an error), `strings.ToLower`, `len` and the
-- order of strings.
pub record Rules : Type 0 where
  pub glob : String → String → Bool
  pub lower : String → String
  pub size : String → ℕ
  pub less : String → String → Bool

pub record StoreData : Type 0 where
  pub associations : Table (Table String)
  pub defaults : Table String

pub record Resolved : Type 0 where
  pub profiles : Table String
  pub sources : Table String

unfoldable pub is_wildcard : ℕ → Bool
is_wildcard c = (c == 42) || (c == 63) || (c == 91)

unfoldable pub is_glob : String → Bool
unfolding is_wildcard
is_glob String.[] = false
is_glob (String.◌∷◌ c rest) = is_wildcard (code c) || is_glob rest

unfoldable pub wildcard_count : String → ℕ
unfolding is_wildcard
wildcard_count String.[] = 0
wildcard_count (String.◌∷◌ c rest) =
    let more = wildcard_count rest in if is_wildcard (code c) then suc more else more

-- The order of `matchingGlobs`.
unfoldable pub more_specific : Rules → String → String → Bool
unfolding wildcard_count
more_specific r a b =
    if not (wildcard_count a == wildcard_count b)
    then ltb (wildcard_count a) (wildcard_count b)
    else if not (r.size a == r.size b)
    then ltb (r.size b) (r.size a)
    else r.less a b

unfoldable pub matching : Rules → String → Table (Table String) → List String
unfolding is_glob
matching r target [] = []
matching r target ((pattern, assoc) ∷ rest) =
    let more = matching r target rest in
    if is_glob pattern && r.glob pattern target then pattern ∷ more else more

unfoldable pub matching_globs : Rules → Table (Table String) → String → List String
unfolding matching sort_slice more_specific
matching_globs r associations target = sort_slice (more_specific r) (matching r target associations)

unfoldable pub normalize_provider : Rules → String → String
unfolding trim_space
normalize_provider r provider = r.lower (trim_space provider)

unfoldable pub apply_entry : Rules → String → String → String → Resolved → Resolved
unfolding normalize_provider trim_space
apply_entry r source key value out =
    let provider = normalize_provider r key in
    let profile = trim_space value in
    if str_eq provider "" || str_eq profile ""
    then out
    else if has_key provider out.profiles
    then out
    else record {
      profiles = put provider profile out.profiles;
      sources = put provider source out.sources;
    }

-- `applyIfUnset`, and the loop over the defaults.
unfoldable pub apply_if_unset : Rules → String → Table String → Resolved → Resolved
unfolding apply_entry
apply_if_unset r source [] out = out
apply_if_unset r source ((key, value) ∷ rest) out =
    apply_if_unset r source rest (apply_entry r source key value out)

-- `associations[key]`, nil for a key that is not there.
abbrev pub association : Table (Table String) → String → Table String
association associations key = elim (lookup key associations) [ none ↦ [] | some assoc ↦ assoc ]

unfoldable pub apply_globs : Rules → Table (Table String) → List String → Resolved → Resolved
apply_globs r associations [] out = out
apply_globs r associations (p ∷ ps) out =
    apply_globs r associations ps (apply_if_unset r p (association associations p) out)

-- The loop over the directories.
unfoldable pub resolve_dirs : Rules → Table (Table String) → List String → Resolved → Resolved
unfolding matching_globs apply_globs
resolve_dirs r associations [] out = out
resolve_dirs r associations (d ∷ ds) out = resolve_dirs r associations ds (
    apply_globs r associations (matching_globs r associations d)
      (apply_if_unset r d (association associations d) out))

unfoldable pub resolve : Rules → StoreData → List String → Resolved
unfolding resolve_dirs apply_if_unset
resolve r store dirs =
    apply_if_unset r "<default>" store.defaults
      (resolve_dirs r store.associations dirs (record { profiles = []; sources = [] }))
