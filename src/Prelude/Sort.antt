-- ===== src/Prelude/Sort.antt =====
-- Go's `sort.Slice`: a stable order that puts an element before those that it is less than.
-- `sort.Slice` leaves the order of equal elements open; this one keeps it.
use mathlib.Core.Path.{◌≡◌}
use mathlib.Core.Bool.{Bool, true, false}
use mathlib.Core.List.{List, [], ◌∷◌, Perm}
use mathlib.Core.List.Perm
use mathlib.Core.Logic.{inl, inr}
use caam_account_switching.Prelude.Tests.{if◌then◌else◌, Bool-cases}
use caam_account_switching.Prelude.Lists.{All}

module _ {ℓ} {A : Type ℓ} (less : A → A → Bool) where
  insert : A → List A → List A
  insert a [] = a ∷ []
  insert a (x ∷ xs) = let rest = insert a xs in if less x a then x ∷ rest else a ∷ x ∷ xs

  unfoldable pub sort_slice : List A → List A
  unfolding insert
  sort_slice [] = []
  sort_slice (x ∷ xs) = insert x (sort_slice xs)

  insert-perm : (a : A) (xs : List A) → Perm (insert a xs) (a ∷ xs)
  unfolding insert
  insert-perm a [] = Perm.refl _
  insert-perm a (x ∷ xs) = elim (Bool-cases (less x a)) [
    | inl e ↦ rw e (Perm.trans (Perm.cons x (insert-perm a xs)) (Perm.swap a x xs))
    | inr e ↦ rw e (Perm.refl _)
  ]

  -- Sorting loses and invents nothing.
  pub sort_slice-perm : (xs : List A) → Perm (sort_slice xs) xs
  unfolding sort_slice
  sort_slice-perm [] = Perm.refl _
  sort_slice-perm (x ∷ xs) =
      Perm.trans (insert-perm x (sort_slice xs)) (Perm.cons x (sort_slice-perm xs))

  -- No element is preceded by one that it is less than.
  abbrev pub IsOrdered : List A → Type ℓ
  IsOrdered [] = Unit
  IsOrdered (x ∷ xs) = All (λ y. less y x ≡ false) xs × IsOrdered xs

  module _ (asym : (a b : A) → less a b ≡ true → less b a ≡ false)
      (trans : (a b c : A) → less b a ≡ false → less c b ≡ false → less c a ≡ false) where
    All-trans :
        (a b : A) (xs : List A)
        → less b a ≡ false
        → All (λ y. less y b ≡ false) xs
        → All (λ y. less y a ≡ false) xs
    All-trans a b [] h all = tt
    All-trans a b (x ∷ xs) h all = (trans a b x h all.0, All-trans a b xs h all.1)

    All-insert :
        (b a : A) (xs : List A)
        → less a b ≡ false
        → All (λ y. less y b ≡ false) xs
        → All (λ y. less y b ≡ false) (insert a xs)
    unfolding insert
    All-insert b a [] h all = (h, tt)
    All-insert b a (x ∷ xs) h all = elim (Bool-cases (less x a)) [
      | inl e ↦ rw e (all.0, All-insert b a xs h all.1)
      | inr e ↦ rw e (h, all)
    ]

    insert-IsOrdered : (a : A) (xs : List A) → IsOrdered xs → IsOrdered (insert a xs)
    unfolding insert
    insert-IsOrdered a [] o = (tt, tt)
    insert-IsOrdered a (x ∷ xs) o = elim (Bool-cases (less x a)) [
      | inl e ↦ rw e (All-insert x a xs (asym x a e) o.0, insert-IsOrdered a xs o.1)
      | inr e ↦ rw e ((e, All-trans a x xs e o.0), o)
    ]

    pub sort_slice-IsOrdered : (xs : List A) → IsOrdered (sort_slice xs)
    unfolding sort_slice
    sort_slice-IsOrdered [] = tt
    sort_slice-IsOrdered (x ∷ xs) = insert-IsOrdered x (sort_slice xs) (sort_slice-IsOrdered xs)
