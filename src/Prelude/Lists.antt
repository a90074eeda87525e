-- ===== src/Prelude/Lists.antt =====
-- Lists measured by native numbers, filters by Boolean tests, counts and recursive predicates.
use Prim.Native.Nat.{ℕ, zero, suc, ◌+◌, ◌-◌, ◌≤◌}
use mathlib.Core.Path.{◌≡◌, refl}
use mathlib.Core.Bool.{Bool}
use mathlib.Core.Logic.{◌⊎◌}
use mathlib.Core.List.{List, [], ◌∷◌, ◌++◌}
use mathlib.Core.List.{Mem, Mem-prop, mem-cons, mem-cons_self, mem-cons_of_mem, not-mem-nil}
use mathlib.Core.Bool.{true, Bool-set}
use mathlib.Core.HLevel.{×_prop}
use mathlib.Core.Logic.{◌↔◌, inl, inr}
use mathlib.Core.Logic.Or
use native.Mathlib.Omega.{arith}
use caam_account_switching.Prelude.Tests.{if◌then◌else◌, Bool-cases}

module _ {ℓ} {A : Type ℓ} where
  abbrev pub length : List A → ℕ
  length [] = 0
  length (x ∷ xs) = suc (length xs)

  abbrev pub drop : ℕ → List A → List A
  drop zero xs = xs
  drop (suc n) [] = []
  drop (suc n) (x ∷ xs) = drop n xs

  -- The elements that pass a test, in order: the shape of the source's filtering loops.
  abbrev pub filter : (A → Bool) → List A → List A
  filter p [] = []
  filter p (x ∷ xs) = let rest = filter p xs in if p x then x ∷ rest else rest

  abbrev pub count : (A → Bool) → List A → ℕ
  count p [] = 0
  count p (x ∷ xs) = let rest = count p xs in if p x then suc rest else rest

  pub length-append : (xs ys : List A) → length (xs ++ ys) ≡ length xs + length ys
  length-append [] ys = omega arith
  length-append (x ∷ xs) ys = omega (arith, length-append xs ys)

  pub length-drop : (n : ℕ) (xs : List A) → length (drop n xs) ≡ length xs - n
  length-drop zero xs = omega arith
  length-drop (suc n) [] = omega arith
  length-drop (suc n) (x ∷ xs) = omega (arith, length-drop n xs)

  pub length-filter : (p : A → Bool) (xs : List A) → length (filter p xs) ≡ count p xs
  length-filter p [] = refl
  length-filter p (x ∷ xs) = ground (arith, length-filter p xs)

  pub count-le-length : (p : A → Bool) (xs : List A) → count p xs ≤ length xs
  count-le-length p [] = omega arith
  count-le-length p (x ∷ xs) = ground (arith, count-le-length p xs)

module _ {ℓ} {A : Type ℓ} where
  -- Every element satisfies the predicate.
  abbrev pub All {κ} : (A → Type κ) → List A → Type κ
  All P [] = Unit
  All P (x ∷ xs) = P x × All P xs

  -- Some element satisfies the predicate.
  abbrev pub Any : (A → Type 0) → List A → Type 0
  Any P [] = ⊥
  Any P (x ∷ xs) = P x ⊎ Any P xs

  mem-filter_of : (p : A → Bool) (a : A) (xs : List A) → Mem a xs → p a ≡ true → Mem a (filter p xs)
  mem-filter_of p a [] m h = absurd (not-mem-nil m)
  mem-filter_of p a (x ∷ xs) m h = elim (Bool-cases (p x)) [
    | inl e ↦ rw e (
        Or.elim Mem-prop (mem-cons.0 m) (λ q. rw q mem-cons_self)
          (λ n. mem-cons_of_mem x (mem-filter_of p a xs n h)))
    | inr e ↦ rw e (
        Or.elim Mem-prop (mem-cons.0 m) (λ q. absurd (cc (q, e, h)))
          (λ n. mem-filter_of p a xs n h))
  ]

  of_mem-filter :
      (p : A → Bool) (a : A) (xs : List A) → Mem a (filter p xs) → Mem a xs × (p a ≡ true)
  of_mem-filter p a [] m = absurd (not-mem-nil m)
  of_mem-filter p a (x ∷ xs) m = elim (Bool-cases (p x)) [
    | inl e ↦
        Or.elim (×_prop Mem-prop (Bool-set _ _)) (mem-cons.0 (rw e at m))
          (λ q. (rw q mem-cons_self, rw q e))
          (λ n. let (there, ok) = of_mem-filter p a xs n in (mem-cons_of_mem x there, ok))
    | inr e ↦ let (there, ok) = of_mem-filter p a xs (rw e at m) in (mem-cons_of_mem x there, ok)
  ]

  -- A filter holds exactly the elements that pass the test.
  pub mem-filter :
      (p : A → Bool) (a : A) (xs : List A) → Mem a (filter p xs) ↔ (Mem a xs × (p a ≡ true))
  mem-filter p a xs = (of_mem-filter p a xs, λ (m, h). mem-filter_of p a xs m h)

  -- A predicate on all elements, at one of them.
  pub All-mem {κ} :
      (P : A → Type κ) (prop : (a : A) → IsProp (P a)) (a : A) (xs : List A)
      → All P xs
      → Mem a xs
      → P a
  All-mem P prop a [] all m = absurd (not-mem-nil m)
  All-mem P prop a (x ∷ xs) all m =
      Or.elim (prop a) (mem-cons.0 m) (λ q. rw q all.0) (All-mem P prop a xs all.1)

  pub All-of_mem {κ} : (P : A → Type κ) (xs : List A) → ((a : A) → Mem a xs → P a) → All P xs
  All-of_mem P [] h = tt
  All-of_mem P (x ∷ xs) h = (h x mem-cons_self, All-of_mem P xs (λ a m. h a (mem-cons_of_mem x m)))

  pub eq-nil_of_not-mem : (xs : List A) → ((a : A) → ¬ Mem a xs) → xs ≡ []
  eq-nil_of_not-mem [] h = refl
  eq-nil_of_not-mem (x ∷ xs) h = absurd (h x mem-cons_self)
