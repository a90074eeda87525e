-- ===== src/Vault/Detection.antt =====
-- internal/authfile/authfile.go: ActiveProfile.
use caam_account_switching.Prelude.{
  String, Bool, true, false, not, none, some, List, [], ◌∷◌, ◌++◌, str_eq, if◌then◌else◌, filter,
}
use caam_account_switching.Prelude.Table.{Table, lookup, put}
use caam_account_switching.Vault.Names.{is_system_profile}
use caam_account_switching.Vault.Copying.{AuthFileSpec, AuthFileSet, base}
use caam_account_switching.Vault.Operations.{Env, World, dir_of, list_profiles}

-- The hashes of the live files that `ActiveProfile` gathers.
pub record Hashes : Type 0 where
  pub current : Table String
  pub optional : Table String
  pub required_found : Bool

unfoldable pub hash_file : Env → AuthFileSpec → String → Hashes → Hashes
hash_file e f x h =
    if f.required
    then record h { required_found = true; current = put (base f.path) (e.hash x) h.current }
    else record h { optional = put (base f.path) (e.hash x) h.optional }

-- The loop that hashes; a live file can be read.
unfoldable pub hash_files : Env → Table String → List AuthFileSpec → Hashes → Hashes
unfolding hash_file
hash_files e home [] h = h
hash_files e home (f ∷ fs) h = elim (lookup f.path home) [
  | none ↦ hash_files e home fs h
  | some x ↦ hash_files e home fs (hash_file e f x h)
]

unfoldable pub relevant_hashes : Bool → Hashes → Table String
relevant_hashes allow h =
    if not h.required_found then if allow then h.optional else h.current else h.current

-- The loop over the hashes, for the directory of one profile.
unfoldable pub matches : Env → Table String → Table String → Bool
matches e dir [] = true
matches e dir ((name, x) ∷ rest) = elim (lookup name dir) [
  | none ↦ false
  | some content ↦
      let more = matches e dir rest in if str_eq x (e.hash content) then more else false
]

unfoldable pub user_first : List String → List String
user_first ps = filter (λ p. not (is_system_profile p)) ps ++ filter (λ p. is_system_profile p) ps

unfoldable pub first_match : Env → Table (Table String) → Table String → List String → String
unfolding matches
first_match e vault hashes [] = ""
first_match e vault hashes (p ∷ ps) =
    let rest = first_match e vault hashes ps in
    if matches e (dir_of p vault) hashes then p else rest

unfoldable pub match_profile : Env → World → Table String → String
unfolding first_match
match_profile e w [] = ""
match_profile e w (h ∷ hs) = first_match e w.vault (h ∷ hs) (user_first (list_profiles e w))

unfoldable pub active_profile : Env → AuthFileSet → World → String
unfolding hash_files match_profile relevant_hashes
active_profile e fs w =
    let none_yet : Hashes = record { current = []; optional = []; required_found = false } in
    match_profile e w
      (relevant_hashes fs.allow_optional_only (hash_files e w.home fs.files none_yet))
