-- ===== src/Project/Patterns.antt =====
-- The patterns that match a directory, described apart from the code of `matchingGlobs`.
use Prim.Native.Char.{code}
use caam_account_switching.Prelude.{
  ℕ, ◌+◌, String, Bool, ◌&&◌, ◌||◌, List, [], ◌∷◌, ◌≡◌, refl, ap, ◌∙◌, arith, ltb, ◌==◌,
  if◌then◌else◌, Bool-cases, inl, inr,
}
use caam_account_switching.Prelude.Table.{Table}
use caam_account_switching.Prelude.Sort.{sort_slice}
use caam_account_switching.Project.{
  Rules, is_wildcard, is_glob, wildcard_count, more_specific, matching, matching_globs,
}

-- How many of the characters of a text are an asterisk, a question mark or an opening bracket.
abbrev pub wildcards : String → ℕ
wildcards String.[] = 0
wildcards (String.◌∷◌ c rest) =
    (if (code c == 91) || ((code c == 63) || (code c == 42)) then 1 else 0) + wildcards rest

-- Fewer wildcards come first, then longer texts, then the order of texts.
abbrev pub narrower : Rules → String → String → Bool
narrower r a b =
    ltb (wildcards a) (wildcards b)
    || ((wildcards a == wildcards b)
        && (ltb (r.size b) (r.size a) || ((r.size a == r.size b) && r.less a b)))

-- The keys with a wildcard that match the directory.
abbrev pub covering_keys : Rules → String → Table (Table String) → List String
covering_keys r target [] = []
covering_keys r target ((pattern, assoc) ∷ rest) =
    if r.glob pattern target && ltb 0 (wildcards pattern)
    then pattern ∷ covering_keys r target rest
    else covering_keys r target rest

abbrev pub covering : Rules → Table (Table String) → String → List String
covering r associations target = sort_slice (narrower r) (covering_keys r target associations)

wildcard_count-wildcards : (s : String) → wildcard_count s ≡ wildcards s
unfolding wildcard_count is_wildcard
wildcard_count-wildcards String.[] = refl
wildcard_count-wildcards (String.◌∷◌ c rest) = ground (arith, wildcard_count-wildcards rest)

is_glob-wildcards : (s : String) → is_glob s ≡ ltb 0 (wildcards s)
unfolding is_glob is_wildcard
is_glob-wildcards String.[] = refl
is_glob-wildcards (String.◌∷◌ c rest) = ground (arith, is_glob-wildcards rest)

more_specific-narrower : (r : Rules) (a b : String) → more_specific r a b ≡ narrower r a b
unfolding more_specific
more_specific-narrower r a b =
    ground (arith, wildcard_count-wildcards a, wildcard_count-wildcards b)

matching-covering_keys :
    (r : Rules) (target : String) (associations : Table (Table String))
    → matching r target associations ≡ covering_keys r target associations
unfolding matching
matching-covering_keys r target [] = refl
matching-covering_keys r target ((pattern, assoc) ∷ rest) =
    elim (Bool-cases (r.glob pattern target)) [
      | inl g ↦ elim (Bool-cases (ltb 0 (wildcards pattern))) [
        | inl w ↦ rw (is_glob-wildcards pattern, w, g, matching-covering_keys r target rest) refl
        | inr w ↦ rw (is_glob-wildcards pattern, w, g) (matching-covering_keys r target rest)
      ]
      | inr g ↦ elim (Bool-cases (ltb 0 (wildcards pattern))) [
        | inl w ↦ rw (is_glob-wildcards pattern, w, g) (matching-covering_keys r target rest)
        | inr w ↦ rw (is_glob-wildcards pattern, w, g) (matching-covering_keys r target rest)
      ]
    ]

pub matching_globs-covering :
    (r : Rules) (associations : Table (Table String)) (target : String)
    → matching_globs r associations target ≡ covering r associations target
unfolding matching_globs
matching_globs-covering r associations target =
    ap (sort_slice (more_specific r)) (matching-covering_keys r target associations)
    ∙ ap (λ order. sort_slice order (covering_keys r target associations))
        (λ i a b. more_specific-narrower r a b i)
