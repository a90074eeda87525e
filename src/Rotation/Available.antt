-- ===== src/Rotation/Available.antt =====
-- What every selection guarantees of the profile that it returns.
use mathlib.Core.Option
use mathlib.Core.Bool.{Bool-set}
use mathlib.Core.Bool
use mathlib.Core.List.{Mem, mem-cons_self, mem-cons_of_mem}
use mathlib.Core.List.Perm
use caam_account_switching.Prelude.{
  ℕ, zero, suc, ◌*◌, ◌<◌, String, Bool, true, false, not, ◌&&◌, Option, none, some, List, [], ◌∷◌,
  ◌≡◌, refl, sym, ◌∙◌, arith, str_eq, length, map, mem-filter, All, All-mem, All-of_mem, Bool-cases,
  Option-cases, inl, inr,
}
use caam_account_switching.Prelude.Int.{pos_part, neg_part}
use caam_account_switching.Prelude.Sort.{sort_slice, sort_slice-perm}
use caam_account_switching.Rotation.{
  Algorithm, smart, round_robin, random, ProfileScore, Selector, eligible, nth, select_random,
  select_round_robin, smart_score, is_out, best_candidate, smart_result, select_smart, select_by,
  select_user, select, user_profiles, several, higher, is_current, negated, smart_from,
}
use caam_account_switching.Rotation.RoundRobin.{selected_of, find_first, round_robin_exact}

-- A profile of a list that is not in cooldown.
abbrev pub IsFree : Selector → List String → String → Type 0
IsFree s ps p = Mem p ps × (s.in_cooldown p ≡ false)

mem-nth : (i : ℕ) (xs : List String) (p : String) → nth i xs ≡ some p → Mem p xs
unfolding nth
mem-nth i [] p h = absurd (Option.none-ne-some p h)
mem-nth zero (x ∷ xs) p h = rw (Option.some-injective x p h) mem-cons_self
mem-nth (suc i) (x ∷ xs) p h = mem-cons_of_mem x (mem-nth i xs p h)

mem-find_first :
    (f : String → Bool) (xs : List String) (p : String)
    → find_first f xs ≡ some p
    → Mem p xs × (f p ≡ true)
mem-find_first f [] p h = absurd (Option.none-ne-some p h)
mem-find_first f (x ∷ xs) p h = elim (Bool-cases (f x)) [
  | inl e ↦
      let same : x ≡ p = Option.some-injective x p (rw e at h) in
      (rw same mem-cons_self, rw same at e)
  | inr e ↦ let (m, ok) = mem-find_first f xs p (rw e at h) in (mem-cons_of_mem x m, ok)
]

select_random-IsFree :
    (s : Selector) (current : String) (ps : List String) (p : String)
    → selected_of (select_random s current ps) ≡ some p
    → IsFree s ps p
unfolding select_random eligible
select_random-IsFree s current ps p h =
    let es = eligible s current (several ps) ps in
    elim (Option-cases (nth (s.pick (length es)) es)) [
      | inl e ↦ absurd (Option.none-ne-some p (rw (select_random, e) at h))
      | inr (q, e) ↦
          let same : q ≡ p = Option.some-injective q p (rw (select_random, e) at h) in
          let (m, ok) = (mem-filter _ q ps).0 (mem-nth _ es q e) in
          rw (← same) (m, ground (arith, ok))
    ]

select_round_robin-IsFree :
    (s : Selector) (current : String) (ps : List String) (p : String)
    → selected_of (select_round_robin s current ps) ≡ some p
    → IsFree s ps p
select_round_robin-IsFree s current ps p h =
    let (found, perm) = round_robin_exact s current ps in
    let (m, ok) = mem-find_first (λ p. not (s.in_cooldown p)) _ p (sym found ∙ h) in
    ((Perm.mem_iff perm).0 m, ground (arith, ok))

negated-parts : (n : ℕ) → (pos_part (negated n) ≡ 0) × (neg_part (negated n) ≡ n)
negated-parts zero = (refl, refl)
negated-parts (suc n) = (refl, refl)

-- A profile in cooldown is out.
is_out-cooling :
    (s : Selector) (q : String)
    → 0 < s.unit
    → s.in_cooldown q ≡ true
    → is_out s (smart_score s q) ≡ true
unfolding smart_score
is_out-cooling s q u h =
    let (p, n) = negated-parts (10000 * s.unit) in
    let (p', n') = negated-parts (9000 * s.unit) in rw h (ground (arith, p, n, p', n'))

module _ (s : Selector) (unit : 0 < s.unit) (ps : List String) where
  -- A score that is not out is that of a profile that is not in cooldown.
  abbrev Vouches : ProfileScore → Type 0
  Vouches x = is_out s x ≡ false → IsFree s ps x.name

  Vouches-prop : (x : ProfileScore) → IsProp (Vouches x)
  Vouches-prop x = hlevel

  smart_score-Vouches : (q : String) → Mem q ps → Vouches (smart_score s q)
  unfolding smart_score
  smart_score-Vouches q m h = elim (Bool-cases (s.in_cooldown q)) [
    | inl e ↦ absurd (Bool.true≢false (sym (is_out-cooling s q unit e) ∙ h))
    | inr e ↦ (m, e)
  ]

  map-Vouches :
      (qs : List String)
      → ((q : String) → Mem q qs → Mem q ps)
      → All Vouches (map (smart_score s) qs)
  map-Vouches [] sub = tt
  map-Vouches (q ∷ qs) sub = (
    smart_score-Vouches q (sub q mem-cons_self),
    map-Vouches qs (λ r m. sub r (mem-cons_of_mem q m)),
  )

  sorted-Vouches : All Vouches (sort_slice higher (map (smart_score s) ps))
  sorted-Vouches = All-of_mem Vouches _ (λ x m.
      All-mem Vouches Vouches-prop x (map (smart_score s) ps) (map-Vouches ps (λ q m. m))
        ((Perm.mem_iff (sort_slice-perm higher (map (smart_score s) ps))).0 m))

  best_candidate-IsFree :
      (current : String) (many : Bool) (xs : List ProfileScore) (p : String)
      → All Vouches xs
      → best_candidate s current many xs ≡ some p
      → IsFree s ps p
  unfolding best_candidate
  best_candidate-IsFree current many [] p all h = absurd (Option.none-ne-some p h)
  best_candidate-IsFree current many (x ∷ xs) p all h = elim (Bool-cases (is_out s x)) [
    | inl e ↦ absurd (Option.none-ne-some p (rw e at h))
    | inr e ↦ elim (Bool-cases (is_current current x.name && many)) [
      | inl b ↦ best_candidate-IsFree current many xs p all.1 (rw (e, b) at h)
      | inr b ↦ rw (← Option.some-injective x.name p (rw (e, b) at h)) (all.0 e)
    ]
  ]

  smart_result-selected :
      (scores : List ProfileScore) (o : Option String) (p : String)
      → selected_of (smart_result scores o) ≡ some p
      → o ≡ some p
  unfolding smart_result
  smart_result-selected scores none p h = absurd (Option.none-ne-some p h)
  smart_result-selected scores (some q) p h = elim (Bool-cases (str_eq q "")) [
    | inl e ↦ absurd (Option.none-ne-some p (rw e at h))
    | inr e ↦ rw e at h
  ]

  -- The selection from the sorted scores on.
  smart_sorted-IsFree :
      (current : String) (scores : List ProfileScore) (p : String)
      → All Vouches scores
      → selected_of (smart_from s current scores) ≡ some p
      → IsFree s ps p
  unfolding smart_from
  smart_sorted-IsFree current [] p all h = absurd (Option.none-ne-some p h)
  smart_sorted-IsFree current (x ∷ xs) p all h = elim (Bool-cases (is_out s x)) [
    | inl e ↦ absurd (Option.none-ne-some p (rw e at h))
    | inr e ↦
        best_candidate-IsFree current (several (x ∷ xs)) (x ∷ xs) p all
          (smart_result-selected (x ∷ xs) _ p (rw e at h))
  ]

  select_smart-IsFree :
      (current : String) (p : String)
      → selected_of (select_smart s current ps) ≡ some p
      → IsFree s ps p
  unfolding select_smart
  select_smart-IsFree current p h =
      smart_sorted-IsFree current (sort_slice higher (map (smart_score s) ps)) p sorted-Vouches h

select_by-IsFree :
    (s : Selector) (a : Algorithm) (current : String) (ps : List String) (p : String)
    → 0 < s.unit
    → selected_of (select_by s a current ps) ≡ some p
    → IsFree s ps p
unfolding select_by
select_by-IsFree s random current ps p u h = select_random-IsFree s current ps p h
select_by-IsFree s round_robin current ps p u h = select_round_robin-IsFree s current ps p h
select_by-IsFree s smart current ps p u h = select_smart-IsFree s u ps current p h

select_user-IsFree :
    (s : Selector) (current : String) (us : List String) (p : String)
    → 0 < s.unit
    → several us ≡ true
    → selected_of (select_user s current us) ≡ some p
    → IsFree s us p
unfolding select_user
select_user-IsFree s current [] p u m h = absurd (Option.none-ne-some p h)
select_user-IsFree s current (x ∷ []) p u m h = ground (arith, m)
select_user-IsFree s current (x ∷ y ∷ ys) p u m h =
    select_by-IsFree s s.algorithm current (x ∷ y ∷ ys) p u h

-- Among several user profiles, whatever the algorithm, a profile that is selected is one of them
-- and is not in cooldown, if the unit of the scores is positive.
pub select-IsFree :
    (s : Selector) (profiles : List String) (current p : String)
    → 0 < s.unit
    → several (user_profiles profiles) ≡ true
    → selected_of (select s profiles current) ≡ some p
    → IsFree s (user_profiles profiles) p
unfolding select
select-IsFree s [] current p u m h = absurd (Option.none-ne-some p h)
select-IsFree s (q ∷ qs) current p u m h =
    select_user-IsFree s current (user_profiles (q ∷ qs)) p u m h
