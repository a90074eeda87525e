-- ===== src/Rotation/Succeeds.antt =====
-- When a selection succeeds.
use mathlib.Core.Option
use mathlib.Core.Bool
use mathlib.Core.Bool.{Bool-set}
use mathlib.Core.Logic.Or
use mathlib.Core.HLevel.{⊥_prop}
use mathlib.Core.List.{Mem, mem-cons, not-mem-nil, mem-map}
use mathlib.Core.List.Perm
use caam_account_switching.Prelude.{
  ℕ, ◌<◌, String, Bool, true, false, not, ◌&&◌, Option, none, some, List, [], ◌∷◌, ◌≡◌, ◌≢◌, refl,
  sym, ap, ◌∙◌, arith, str_eq, length, map, mem-filter, All, All-mem, All-of_mem, Bool-cases, inl,
  inr,
}
use caam_account_switching.Prelude.Int.{ltb_ℤ}
use caam_account_switching.Prelude.Sort.{
  sort_slice, sort_slice-perm, sort_slice-IsOrdered, IsOrdered,
}
use caam_account_switching.Rotation.{
  Algorithm, smart, round_robin, random, ProfileScore, Selector, Selection, eligible, select_random,
  select_round_robin, smart_score, is_out, best_candidate, smart_result, smart_from, select_smart,
  select_by, select_user, select, user_profiles, several, higher, is_current, minus,
}
use caam_account_switching.Rotation.RoundRobin.{
  selected_of, find_first, round_robin_exact, nth-in_range,
}

-- A selection that has a result.
abbrev pub Succeeds : Selection → Type 0
Succeeds r = selected_of r ≢ none

Succeeds-prop : (r : Selection) → IsProp (Succeeds r)
Succeeds-prop r = hlevel

-- Whether a profile is one to hand over to: not in cooldown and not the current one.
abbrev pub is_choice : Selector → String → String → Bool
is_choice s current q = not (is_current current q) && not (s.in_cooldown q)

mem-pos : (q : String) (xs : List String) → Mem q xs → 0 < length xs
mem-pos q [] m = absurd (not-mem-nil m)
mem-pos q (x ∷ xs) m = omega arith

select_random-Succeeds :
    (s : Selector) (current : String) (ps : List String) (q : String)
    → ((n : ℕ) → 0 < n → s.pick n < n)
    → Mem q ps
    → is_choice s current q ≡ true
    → Succeeds (select_random s current ps)
unfolding select_random eligible
select_random-Succeeds s current ps q picks m ok =
    let es = eligible s current (several ps) ps in
    let there : Mem q es = (mem-filter _ q ps).1 (m, ground (arith, ok)) in
    let (p, e) = nth-in_range (s.pick (length es)) es (picks (length es) (mem-pos q es there)) in
    rw (select_random, e) (λ h. Option.none-ne-some p (sym h))

find_first-some :
    (f : String → Bool) (xs : List String) (q : String)
    → Mem q xs
    → f q ≡ true
    → find_first f xs ≢ none
find_first-some f [] q m ok = absurd (not-mem-nil m)
find_first-some f (x ∷ xs) q m ok = elim (Bool-cases (f x)) [
  | inl e ↦ λ h. Option.none-ne-some x (sym (rw e at h))
  | inr e ↦ λ h.
      Or.elim ⊥_prop (mem-cons.0 m) (λ same. Bool.true≢false (sym ok ∙ ap f same ∙ e))
        (λ later. find_first-some f xs q later ok (rw e at h))
]

select_round_robin-Succeeds :
    (s : Selector) (current : String) (ps : List String) (q : String)
    → Mem q ps
    → is_choice s current q ≡ true
    → Succeeds (select_round_robin s current ps)
select_round_robin-Succeeds s current ps q m ok h =
    let (found, perm) = round_robin_exact s current ps in
    find_first-some (λ p. not (s.in_cooldown p)) _ q ((Perm.mem_iff perm).1 m) (ground (arith, ok))
      (sym found ∙ h)

higher_asym : (a b : ProfileScore) → higher a b ≡ true → higher b a ≡ false
higher_asym a b h = ground arith

higher_trans : (a b c : ProfileScore) → higher b a ≡ false → higher c b ≡ false → higher c a ≡ false
higher_trans a b c h k = ground arith

-- What stands before a score that is not out is not out.
not_out-before :
    (s : Selector) (x y : ProfileScore)
    → higher y x ≡ false
    → is_out s y ≡ false
    → is_out s x ≡ false
not_out-before s x y h k = ground arith

abbrev HasName : ProfileScore → Type 0
HasName x = str_eq x.name "" ≡ false

best_candidate-some :
    (s : Selector) (current : String) (many : Bool) (xs : List ProfileScore) (y : ProfileScore)
    → IsOrdered higher xs
    → Mem y xs
    → is_out s y ≡ false
    → is_current current y.name ≡ false
    → best_candidate s current many xs ≢ none
unfolding best_candidate
best_candidate-some s current many [] y o m out other h = absurd (not-mem-nil m)
best_candidate-some s current many (x ∷ xs) y o m out other h =
    Or.elim ⊥_prop (mem-cons.0 m)
      (λ same.
        let out' : is_out s x ≡ false = ap (is_out s) (sym same) ∙ out in
        let other' : is_current current x.name ≡ false =
          ap (λ z. is_current current z.name) (sym same) ∙ other in
        Option.none-ne-some x.name (sym (rw (out', other') at h)))
      (λ later.
        let kept = not_out-before s x y (All-mem _ (λ z. hlevel) y xs o.0 later) out in
        elim (Bool-cases (is_current current x.name && many)) [
          | inl b ↦ best_candidate-some s current many xs y o.1 later out other (rw (kept, b) at h)
          | inr b ↦ Option.none-ne-some x.name (sym (rw (kept, b) at h))
        ])

best_candidate-HasName :
    (s : Selector) (current : String) (many : Bool) (xs : List ProfileScore) (p : String)
    → All HasName xs
    → best_candidate s current many xs ≡ some p
    → str_eq p "" ≡ false
unfolding best_candidate
best_candidate-HasName s current many [] p all h = absurd (Option.none-ne-some p h)
best_candidate-HasName s current many (x ∷ xs) p all h = elim (Bool-cases (is_out s x)) [
  | inl e ↦ absurd (Option.none-ne-some p (rw e at h))
  | inr e ↦ elim (Bool-cases (is_current current x.name && many)) [
    | inl b ↦ best_candidate-HasName s current many xs p all.1 (rw (e, b) at h)
    | inr b ↦ rw (← Option.some-injective x.name p (rw (e, b) at h)) all.0
  ]
]

smart_result-Succeeds :
    (scores : List ProfileScore) (o : Option String)
    → o ≢ none
    → ((p : String) → o ≡ some p → str_eq p "" ≡ false)
    → Succeeds (smart_result scores o)
unfolding smart_result
smart_result-Succeeds scores none h k = absurd (h refl)
smart_result-Succeeds scores (some p) h k = rw (k p refl) (λ e. Option.none-ne-some p (sym e))

smart_from-Succeeds :
    (s : Selector) (current : String) (xs : List ProfileScore) (y : ProfileScore)
    → All HasName xs
    → IsOrdered higher xs
    → Mem y xs
    → is_out s y ≡ false
    → is_current current y.name ≡ false
    → Succeeds (smart_from s current xs)
unfolding smart_from
smart_from-Succeeds s current [] y all o m out other = absurd (not-mem-nil m)
smart_from-Succeeds s current (x ∷ xs) y all o m out other =
    let best = best_candidate s current (several (x ∷ xs)) (x ∷ xs) in
    let first : is_out s x ≡ false =
      Or.elim (Bool-set _ _) (mem-cons.0 m) (λ same. ap (is_out s) (sym same) ∙ out)
        (λ later. not_out-before s x y (All-mem _ (λ z. hlevel) y xs o.0 later) out) in
    rw first (
      smart_result-Succeeds (x ∷ xs) best
        (best_candidate-some s current (several (x ∷ xs)) (x ∷ xs) y o m out other)
        (λ p e. best_candidate-HasName s current (several (x ∷ xs)) (x ∷ xs) p all e))

mem-scored :
    (s : Selector) (q : String) (ps : List String)
    → Mem q ps
    → Mem (smart_score s q) (map (smart_score s) ps)
mem-scored s q ps m = mem-map.1 ∣ (q, m, refl) ∣₁

map-HasName :
    (s : Selector) (ps : List String)
    → All (λ p. str_eq p "" ≡ false) ps
    → All HasName (map (smart_score s) ps)
unfolding smart_score
map-HasName s [] h = tt
map-HasName s (p ∷ ps) h = (h.0, map-HasName s ps h.1)

-- A score above the mark of the profiles in cooldown.
abbrev pub IsScored : Selector → String → Type 0
IsScored s p = ltb_ℤ (s.score p) (minus s 9000) ≡ false

select_smart-Succeeds :
    (s : Selector) (current : String) (ps : List String) (q : String)
    → All (λ p. str_eq p "" ≡ false) ps
    → IsScored s q
    → Mem q ps
    → is_choice s current q ≡ true
    → Succeeds (select_smart s current ps)
unfolding select_smart smart_score
select_smart-Succeeds s current ps q names high m ok =
    let scores = map (smart_score s) ps in
    let sorted = sort_slice higher scores in
    let perm = sort_slice-perm higher scores in
    let free : s.in_cooldown q ≡ false = ground (arith, ok) in
    smart_from-Succeeds s current sorted (smart_score s q)
      (All-of_mem HasName sorted (λ x n.
        All-mem HasName (λ z. hlevel) x scores (map-HasName s ps names) ((Perm.mem_iff perm).0 n)))
      (sort_slice-IsOrdered higher higher_asym higher_trans scores)
      ((Perm.mem_iff perm).1 (mem-scored s q ps m)) (rw free high) (ground (arith, ok))

select_by-Succeeds :
    (s : Selector) (a : Algorithm) (current : String) (ps : List String) (q : String)
    → ((n : ℕ) → 0 < n → s.pick n < n)
    → All (λ p. str_eq p "" ≡ false) ps
    → IsScored s q
    → Mem q ps
    → is_choice s current q ≡ true
    → Succeeds (select_by s a current ps)
unfolding select_by
select_by-Succeeds s random current ps q picks names high m ok =
    select_random-Succeeds s current ps q picks m ok
select_by-Succeeds s round_robin current ps q picks names high m ok =
    select_round_robin-Succeeds s current ps q m ok
select_by-Succeeds s smart current ps q picks names high m ok =
    select_smart-Succeeds s current ps q names high m ok

select_user-Succeeds :
    (s : Selector) (current : String) (us : List String) (q : String)
    → ((n : ℕ) → 0 < n → s.pick n < n)
    → All (λ p. str_eq p "" ≡ false) us
    → IsScored s q
    → Mem q us
    → is_choice s current q ≡ true
    → Succeeds (select_user s current us)
unfolding select_user
select_user-Succeeds s current [] q picks names high m ok = absurd (not-mem-nil m)
select_user-Succeeds s current (p ∷ []) q picks names high m ok = λ h. Option.none-ne-some p (sym h)
select_user-Succeeds s current (p ∷ r ∷ rs) q picks names high m ok =
    select_by-Succeeds s s.algorithm current (p ∷ r ∷ rs) q picks names high m ok

-- Where some user profile is neither in cooldown nor the current one, a selection by any algorithm
-- succeeds, if the random numbers are in their range, no name is empty, and the score of that
-- profile is not below the mark that stands for a cooldown.
pub select-Succeeds :
    (s : Selector) (profiles : List String) (current q : String)
    → ((n : ℕ) → 0 < n → s.pick n < n)
    → All (λ p. str_eq p "" ≡ false) (user_profiles profiles)
    → IsScored s q
    → Mem q (user_profiles profiles)
    → is_choice s current q ≡ true
    → Succeeds (select s profiles current)
unfolding select
select-Succeeds s [] current q picks names high m ok = absurd (not-mem-nil m)
select-Succeeds s (p ∷ ps) current q picks names high m ok =
    select_user-Succeeds s current (user_profiles (p ∷ ps)) q picks names high m ok
