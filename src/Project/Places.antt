-- ===== src/Project/Places.antt =====
-- The order of the places that a resolution looks at, as a list.
use caam_account_switching.Prelude.{
  String, List, [], ◌∷◌, ◌++◌, map, Option, none, some, ◌||◌, ◌≡◌, refl, sym, ap, ◌∙◌, str_eq,
  if◌then◌else◌,
}
use caam_account_switching.Prelude.Table.{Table, lookup}
use caam_account_switching.Vault.Names.{trim_space}
use caam_account_switching.Project.Patterns.{covering, matching_globs-covering}
use caam_account_switching.Project.{
  Rules, StoreData, Resolved, normalize_provider, apply_if_unset, association, apply_globs,
  resolve_dirs, matching_globs,
}

-- What a map of associations says for a provider: its first entry that normalizes to it and has a
-- profile.
abbrev pub says : Rules → String → Table String → Option String
says r q [] = none
says r q ((key, value) ∷ rest) =
    let later = says r q rest in
    if str_eq (normalize_provider r key) "" || str_eq (trim_space value) ""
    then later
    else if str_eq (normalize_provider r key) q
    then some (trim_space value)
    else later

-- A place where associations stand, with its name.
abbrev pub Place : Type 0
Place = String × Table String

-- The first place that says something, with its name.
abbrev pub first_say : Rules → String → List Place → Option (String × String)
first_say r q [] = none
first_say r q ((source, assoc) ∷ places) =
    let later = first_say r q places in
    elim (says r q assoc) [ none ↦ later | some profile ↦ some (profile, source) ]

abbrev pub place : Table (Table String) → String → Place
place associations key = (key, association associations key)

-- The places in their order: for each directory from the inside out the directory itself and the
-- patterns that match it, the more specific ones first; the defaults come last.
abbrev pub places : Rules → StoreData → List String → List Place
places r store [] = ("<default>", store.defaults) ∷ []
places r store (d ∷ ds) =
    place store.associations d
    ∷ (map (place store.associations) (covering r store.associations d) ++ places r store ds)

-- The profile and its source.
abbrev pub found : String → Resolved → Option String × Option String
found q out = (lookup q out.profiles, lookup q out.sources)

abbrev pub said : Option (String × String) → Option String × Option String
said none = (none, none)
said (some (profile, source)) = (some profile, some source)

-- The loop over all places.
unfoldable pub apply_places : Rules → List Place → Resolved → Resolved
apply_places r [] out = out
apply_places r ((source, assoc) ∷ ps) out = apply_places r ps (apply_if_unset r source assoc out)

apply_places-append :
    (r : Rules) (ps qs : List Place) (out : Resolved)
    → apply_places r (ps ++ qs) out ≡ apply_places r qs (apply_places r ps out)
unfolding apply_places
apply_places-append r [] qs out = refl
apply_places-append r ((s, a) ∷ ps) qs out = apply_places-append r ps qs (apply_if_unset r s a out)

apply_globs-places :
    (r : Rules) (table : Table (Table String)) (ps : List String) (out : Resolved)
    → apply_globs r table ps out ≡ apply_places r (map (place table) ps) out
unfolding apply_places apply_globs
apply_globs-places r table [] out = refl
apply_globs-places r table (p ∷ ps) out =
    apply_globs-places r table ps (apply_if_unset r p (association table p) out)

pub resolve-places :
    (r : Rules) (store : StoreData) (ds : List String) (out : Resolved)
    → apply_if_unset r "<default>" store.defaults (resolve_dirs r store.associations ds out)
      ≡ apply_places r (places r store ds) out
unfolding apply_places resolve_dirs
resolve-places r store [] out = refl
resolve-places r store (d ∷ ds) out =
    let table = store.associations in
    let globs = matching_globs r table d in
    let here = apply_if_unset r d (association table d) out in
    resolve-places r store ds (apply_globs r table globs here)
    ∙ ap (apply_places r (places r store ds)) (apply_globs-places r table globs here)
    ∙ sym (apply_places-append r (map (place table) globs) (places r store ds) here)
    ∙ ap (λ ps. apply_places r (place table d ∷ (map (place table) ps ++ places r store ds)) out)
        (matching_globs-covering r table d)
