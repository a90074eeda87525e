-- ===== src/Project/Resolution.antt =====
-- A resolution takes each provider's profile from the first place that has one.
use mathlib.Core.Option
use caam_account_switching.Prelude.{
  String, true, false, List, [], ◌∷◌, Option, none, some, ◌||◌, ◌≡◌, refl, sym, ap, ◌∙◌, str_eq,
  if◌then◌else◌, Bool-cases, Option-cases, inl, inr, eq_iff,
}
use caam_account_switching.Prelude.Table.{
  Table, lookup, lookup-put, has_key, lookup_of_not-has_key, not-has_key_of_lookup,
}
use caam_account_switching.Vault.Names.{trim_space}
use caam_account_switching.Project.{
  Rules, StoreData, Resolved, normalize_provider, apply_entry, apply_if_unset, resolve,
}
use caam_account_switching.Project.Places.{
  says, Place, first_say, places, said, found, apply_places, resolve-places,
}

apply_entry-skipped :
    (r : Rules) (source key value : String) (out : Resolved)
    → (str_eq (normalize_provider r key) "" || str_eq (trim_space value) "") ≡ true
    → apply_entry r source key value out ≡ out
unfolding apply_entry
apply_entry-skipped r source key value out b = rw (apply_entry, b) refl

apply_entry-known :
    (r : Rules) (source key value : String) (out : Resolved)
    → has_key (normalize_provider r key) out.profiles ≡ true
    → apply_entry r source key value out ≡ out
unfolding apply_entry
apply_entry-known r source key value out known =
    elim (Bool-cases (str_eq (normalize_provider r key) "" || str_eq (trim_space value) "")) [
      | inl b ↦ rw (apply_entry, b) refl
      | inr b ↦ rw (apply_entry, b, known) refl
    ]

apply_entry-new :
    (r : Rules) (source key value q : String) (out : Resolved)
    → (str_eq (normalize_provider r key) "" || str_eq (trim_space value) "") ≡ false
    → has_key (normalize_provider r key) out.profiles ≡ false
    → found q (apply_entry r source key value out) ≡ (
        if str_eq (normalize_provider r key) q
        then (some (trim_space value), some source)
        else found q out)
unfolding apply_entry
apply_entry-new r source key value q out b fresh =
    let provider = normalize_provider r key in
    rw
      (
        apply_entry,
        b,
        fresh,
        lookup-put provider q (trim_space value) out.profiles,
        lookup-put provider q source out.sources,
      )
      (elim (Bool-cases (str_eq provider q)) [ inl e ↦ rw e refl | inr e ↦ rw e refl ])

-- An entry changes nothing for a provider that has a profile.
apply_entry-kept :
    (r : Rules) (source key value q p : String) (out : Resolved)
    → lookup q out.profiles ≡ some p
    → found q (apply_entry r source key value out) ≡ found q out
apply_entry-kept r source key value q p out h =
    let provider = normalize_provider r key in
    elim (Bool-cases (str_eq provider "" || str_eq (trim_space value) "")) [
      | inl b ↦ ap (found q) (apply_entry-skipped r source key value out b)
      | inr b ↦ elim (Bool-cases (has_key provider out.profiles)) [
        | inl known ↦ ap (found q) (apply_entry-known r source key value out known)
        | inr fresh ↦
            apply_entry-new r source key value q out b fresh
            ∙ elim (Bool-cases (str_eq provider q)) [
              | inr apart ↦ rw apart refl
              | inl same ↦ absurd (
                  Option.none-ne-some p (
                    sym (lookup_of_not-has_key provider out.profiles fresh)
                    ∙ ap (λ k. lookup k out.profiles) ((eq_iff provider q).0 same)
                    ∙ h))
            ]
      ]
    ]

apply_if_unset-kept :
    (r : Rules) (source q p : String) (m : Table String) (out : Resolved)
    → lookup q out.profiles ≡ some p
    → found q (apply_if_unset r source m out) ≡ found q out
unfolding apply_if_unset
apply_if_unset-kept r source q p [] out h = refl
apply_if_unset-kept r source q p ((key, value) ∷ m) out h =
    let kept = apply_entry-kept r source key value q p out h in
    apply_if_unset-kept r source q p m (apply_entry r source key value out)
      (ap (λ (f : Option String × Option String). f.0) kept ∙ h)
    ∙ kept

-- For a provider that has none, a map adds what it says.
apply_if_unset-lem :
    (r : Rules) (source q : String) (m : Table String) (out : Resolved)
    → found q out ≡ (none, none)
    → found q (apply_if_unset r source m out) ≡ said (Option.map (λ p. (p, source)) (says r q m))
unfolding apply_if_unset
apply_if_unset-lem r source q [] out h = h
apply_if_unset-lem r source q ((key, value) ∷ m) out h =
    let provider = normalize_provider r key in
    let out' = apply_entry r source key value out in
    let absent = ap (λ (f : Option String × Option String). f.0) h in
    elim (Bool-cases (str_eq provider "" || str_eq (trim_space value) "")) [
      | inl b ↦ rw b (
          apply_if_unset-lem r source q m out'
            (ap (found q) (apply_entry-skipped r source key value out b) ∙ h))
      | inr b ↦ elim (Bool-cases (str_eq provider q)) [
        | inl same ↦
            let fresh : has_key provider out.profiles ≡ false =
              not-has_key_of_lookup provider out.profiles
                (ap (λ k. lookup k out.profiles) ((eq_iff provider q).0 same) ∙ absent) in
            let now : found q out' ≡ (some (trim_space value), some source) =
              apply_entry-new r source key value q out b fresh ∙ rw same refl in
            rw (b, same)
              (apply_if_unset-kept r source q (trim_space value) m out'
                  (ap (λ (f : Option String × Option String). f.0) now)
                ∙ now)
        | inr apart ↦
            rw (b, apart)
              (apply_if_unset-lem r source q m out'
                (elim (Bool-cases (has_key provider out.profiles)) [
                  | inl known ↦ ap (found q) (apply_entry-known r source key value out known) ∙ h
                  | inr fresh ↦ apply_entry-new r source key value q out b fresh ∙ rw apart h
                ]))
      ]
    ]

apply_places-kept :
    (r : Rules) (q p : String) (ps : List Place) (out : Resolved)
    → lookup q out.profiles ≡ some p
    → found q (apply_places r ps out) ≡ found q out
unfolding apply_places
apply_places-kept r q p [] out h = refl
apply_places-kept r q p ((source, m) ∷ ps) out h =
    let kept = apply_if_unset-kept r source q p m out h in
    apply_places-kept r q p ps (apply_if_unset r source m out)
      (ap (λ (f : Option String × Option String). f.0) kept ∙ h)
    ∙ kept

apply_places-lem :
    (r : Rules) (q : String) (ps : List Place) (out : Resolved)
    → found q out ≡ (none, none)
    → found q (apply_places r ps out) ≡ said (first_say r q ps)
unfolding apply_places
apply_places-lem r q [] out h = h
apply_places-lem r q ((source, m) ∷ ps) out h =
    let now = apply_if_unset-lem r source q m out h in
    let out' = apply_if_unset r source m out in
    elim (Option-cases (says r q m)) [
      | inl silent ↦ rw (silent, said) (apply_places-lem r q ps out' (rw silent at now))
      | inr (p, says_so) ↦
          let now' = rw says_so at now in
          rw (says_so, said)
            (apply_places-kept r q p ps out' (ap (λ (f : Option String × Option String). f.0) now')
              ∙ now')
    ]

-- The profile of a provider in a directory, and the place that it is from, are those of the first
-- place that has one: from the directory outwards, at each level the directory itself before the
-- patterns that match it, of these one with fewer wildcards first, of equally many the longer one,
-- and of equally long ones by the order of strings; the defaults come last. There is none if no
-- place has one.
pub resolve_exact :
    (r : Rules) (store : StoreData) (dirs : List String) (q : String)
    → found q (resolve r store dirs) ≡ said (first_say r q (places r store dirs))
unfolding resolve lookup
resolve_exact r store dirs q =
    let nothing : Resolved = record { profiles = []; sources = [] } in
    ap (found q) (resolve-places r store dirs nothing)
    ∙ apply_places-lem r q (places r store dirs) nothing refl
