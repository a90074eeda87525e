-- ===== src/Examples/Projects.antt =====
-- A resolution of internal/project at a concrete input.
use caam_account_switching.Prelude.{false, some, [], ◌∷◌, ◌≡◌, str_eq}
use caam_account_switching.Prelude.Table.{lookup, put}
use caam_account_switching.Vault.Names.{is_space, trim_left, trim_right, trim_space}
use caam_account_switching.Project.{
  Rules, StoreData, is_wildcard, is_glob, matching, matching_globs, normalize_provider, resolve,
}
use caam_account_switching.Project.Places.{found}
use caam_account_switching.Project.Resolution.{resolve_exact}

abbrev rules : Rules
rules = record {
  glob = λ pattern target. str_eq target "/work/app";
  lower = λ s. s;
  size = λ s. 7;
  less = λ a b. false;
}

abbrev store : StoreData
store = record {
  associations = ("/work", ("claude", "home") ∷ []) ∷ ("/work/*", (" claude ", "client") ∷ []) ∷ [];
  defaults = ("claude", "main") ∷ ("codex", "main") ∷ [];
}

resolve_exact_example :
    found "claude" (resolve rules store ("/work/app" ∷ "/work" ∷ "/" ∷ []))
    ≡ (some "client", some "/work/*")
unfolding lookup put is_space trim_left trim_right trim_space is_wildcard is_glob matching
    matching_globs normalize_provider
resolve_exact_example = resolve_exact rules store ("/work/app" ∷ "/work" ∷ "/" ∷ []) "claude"
