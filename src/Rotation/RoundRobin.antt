-- ===== src/Rotation/RoundRobin.antt =====
-- What the selection by rounds returns.
use native.Mathlib.Nat.{mod-eq_of_lt, mod-eq-sub-mod}
use mathlib.Core.Option
use mathlib.Core.List.Perm
use mathlib.Core.List.{perm_append_comm, append-nil}
use caam_account_switching.Prelude.{
  ℕ, zero, suc, ◌+◌, ◌-◌, ◌%◌, ◌≤◌, ◌<◌, String, Bool, not, Option, none, some, List, [], ◌∷◌, ◌++◌,
  ◌≡◌, refl, sym, ap, ◌∙◌, arith, ltb, if◌then◌else◌, str_eq, ◌==◌, false, length, drop,
  length-drop, length-append, Perm, Bool-cases, Option-cases, inl, inr,
}
use caam_account_switching.Prelude.Sort.{sort_slice, sort_slice-perm}
use caam_account_switching.Rotation.{
  Selector, Selection, chosen, refused, nth, after_current, next_available, select_round_robin,
}

abbrev pub take : ℕ → List String → List String
take zero xs = []
take (suc n) [] = []
take (suc n) (x ∷ xs) = x ∷ take n xs

-- The list from an index on, then what stands before it.
abbrev pub rotated : ℕ → List String → List String
rotated k xs = drop k xs ++ take k xs

abbrev pub find_first : (String → Bool) → List String → Option String
find_first f [] = none
find_first f (x ∷ xs) = if f x then some x else find_first f xs

take-append-drop : (k : ℕ) (xs : List String) → take k xs ++ drop k xs ≡ xs
take-append-drop zero xs = refl
take-append-drop (suc k) [] = refl
take-append-drop (suc k) (x ∷ xs) = ap (λ ys. x ∷ ys) (take-append-drop k xs)

length-take : (k : ℕ) (xs : List String) → k ≤ length xs → length (take k xs) ≡ k
length-take zero xs h = refl
length-take (suc k) [] h = omega arith
length-take (suc k) (x ∷ xs) h = omega (arith, length-take k xs)

length-rotated : (k : ℕ) (xs : List String) → k ≤ length xs → length (rotated k xs) ≡ length xs
length-rotated k xs h =
    omega (arith, length-append (drop k xs) (take k xs), length-drop k xs, length-take k xs h)

nth-append_left : (i : ℕ) (xs ys : List String) → i < length xs → nth i (xs ++ ys) ≡ nth i xs
unfolding nth
nth-append_left i [] ys h = absurd (omega arith)
nth-append_left zero (x ∷ xs) ys h = refl
nth-append_left (suc i) (x ∷ xs) ys h = nth-append_left i xs ys (omega arith)

nth-append_right :
    (i : ℕ) (xs ys : List String) → length xs ≤ i → nth i (xs ++ ys) ≡ nth (i - length xs) ys
unfolding nth
nth-append_right i [] ys h = let e : i - 0 ≡ i = omega arith in rw e refl
nth-append_right zero (x ∷ xs) ys h = absurd (omega arith)
nth-append_right (suc i) (x ∷ xs) ys h =
    let e : suc i - suc (length xs) ≡ i - length xs = omega arith in
    nth-append_right i xs ys (omega arith) ∙ ap (λ j. nth j ys) (sym e)

nth-drop : (i k : ℕ) (xs : List String) → nth i (drop k xs) ≡ nth (k + i) xs
unfolding nth
nth-drop i zero xs = let e : 0 + i ≡ i = omega arith in rw e refl
nth-drop i (suc k) [] = refl
nth-drop i (suc k) (x ∷ xs) =
    let e : suc k + i ≡ suc (k + i) = omega arith in rw e (nth-drop i k xs)

nth-take : (i k : ℕ) (xs : List String) → i < k → nth i (take k xs) ≡ nth i xs
unfolding nth
nth-take i zero xs h = absurd (omega arith)
nth-take i (suc k) [] h = refl
nth-take zero (suc k) (x ∷ xs) h = refl
nth-take (suc i) (suc k) (x ∷ xs) h = nth-take i k xs (omega arith)

pub nth-in_range : (i : ℕ) (xs : List String) → i < length xs → (x : String) × (nth i xs ≡ some x)
unfolding nth
nth-in_range i [] h = absurd (omega arith)
nth-in_range zero (x ∷ xs) h = (x, refl)
nth-in_range (suc i) (x ∷ xs) h = nth-in_range i xs (omega arith)

drop-nth :
    (i : ℕ) (xs : List String) (x : String) → nth i xs ≡ some x → drop i xs ≡ x ∷ drop (suc i) xs
unfolding nth
drop-nth i [] x h = absurd (Option.none-ne-some x h)
drop-nth zero (y ∷ xs) x h = ap (λ z. z ∷ xs) (Option.some-injective y x h)
drop-nth (suc i) (y ∷ xs) x h = drop-nth i xs x h

-- The candidate of a round is the element of the rotated list.
nth-rotated :
    (i k : ℕ) (xs : List String)
    → k ≤ length xs
    → i < length xs
    → nth ((k + i) % length xs) xs ≡ nth i (rotated k xs)
nth-rotated i k xs h lt = elim (Bool-cases (ltb (k + i) (length xs))) [
  | inl e ↦
      let inside : k + i < length xs = ground arith in
      ap (λ j. nth j xs) (mod-eq_of_lt inside)
      ∙ sym (nth-drop i k xs)
      ∙ sym (nth-append_left i (drop k xs) (take k xs) (omega (arith, length-drop k xs)))
  | inr e ↦
      let beyond : length xs ≤ k + i = ground arith in
      let wrapped : (k + i) % length xs ≡ k + i - length xs =
        mod-eq-sub-mod beyond ∙ mod-eq_of_lt (omega arith) in
      let same : i - length (drop k xs) ≡ k + i - length xs = omega (arith, length-drop k xs) in
      ap (λ j. nth j xs) wrapped
      ∙ sym (nth-take (k + i - length xs) k xs (omega arith))
      ∙ ap (λ j. nth j (take k xs)) (sym same)
      ∙ sym (nth-append_right i (drop k xs) (take k xs) (omega (arith, length-drop k xs)))
]

drop-all : (i : ℕ) (xs : List String) → length xs ≤ i → drop i xs ≡ []
drop-all zero [] h = refl
drop-all zero (x ∷ xs) h = absurd (omega arith)
drop-all (suc i) [] h = refl
drop-all (suc i) (x ∷ xs) h = drop-all i xs (omega arith)

module _ (s : Selector) (k : ℕ) (xs : List String) (inside : k ≤ length xs) where
  abbrev is_free : String → Bool
  is_free p = not (s.in_cooldown p)

  next_available-lem :
      (left i : ℕ)
      → i + left ≡ length xs
      → next_available s k left i xs ≡ find_first is_free (drop i (rotated k xs))
  unfolding next_available
  next_available-lem zero i e =
      ap (find_first is_free)
        (sym (drop-all i (rotated k xs) (omega (arith, length-rotated k xs inside))))
  next_available-lem (suc left) i e =
      let (p, at) = nth-in_range i (rotated k xs) (omega (arith, length-rotated k xs inside)) in
      let found : nth ((k + i) % length xs) xs ≡ some p =
        nth-rotated i k xs inside (omega arith) ∙ at in
      let rest = next_available-lem left (suc i) (omega arith) in
      let cut = drop-nth i (rotated k xs) p at in
      ap
        (λ c. elim c [
          | none ↦ none
          | some q ↦ if s.in_cooldown q then next_available s k left (suc i) xs else some q
        ])
        found
      ∙ (elim (Bool-cases (s.in_cooldown p)) [
        | inl b ↦ rw b (rest ∙ sym (ap (find_first is_free) cut ∙ rw b refl))
        | inr b ↦ rw b (sym (ap (find_first is_free) cut ∙ rw b refl))
      ])

after_current-le-length :
    (current : String) (xs : List String) → after_current current xs ≤ length xs
unfolding after_current
after_current-le-length current [] = omega arith
after_current-le-length current (x ∷ xs) = ground (arith, after_current-le-length current xs)

rotated-perm : (k : ℕ) (xs : List String) → Perm (rotated k xs) xs
rotated-perm k xs =
    Perm.trans (perm_append_comm (drop k xs) (take k xs))
      (rw (take-append-drop k xs) (Perm.refl xs))

abbrev pub selected_of : Selection → Option String
selected_of (chosen r) = some r.selected
selected_of (refused e) = none

round_robin-rotated :
    (s : Selector) (current : String) (ps : List String)
    → let sorted = sort_slice s.less ps in
      let candidates = rotated (after_current current sorted) sorted in
      (selected_of (select_round_robin s current ps)
        ≡ find_first (λ p. not (s.in_cooldown p)) candidates)
      × Perm candidates ps
unfolding select_round_robin
round_robin-rotated s current ps =
    let sorted = sort_slice s.less ps in
    let start = after_current current sorted in
    let found =
      next_available-lem s start sorted (after_current-le-length current sorted) (length sorted) 0
        (omega arith) in
    (
      elim (Option-cases (next_available s start (length sorted) 0 sorted)) [
        | inl e ↦ rw (select_round_robin, e) (sym e ∙ found)
        | inr (p, e) ↦ rw (select_round_robin, e) (sym e ∙ found)
      ],
      Perm.trans (rotated-perm start sorted) (sort_slice-perm s.less ps),
    )

-- The names after the first that is the current one; none, if it is not among them.
abbrev pub later : String → List String → List String
later current [] = []
later current (x ∷ xs) = if str_eq x current then xs else later current xs

-- The names up to the current one, with it; all, if it is not among them.
abbrev pub up_to : String → List String → List String
up_to current [] = []
up_to current (x ∷ xs) = x ∷ (if str_eq x current then [] else up_to current xs)

-- The names in the order in which they take turns after the current one.
abbrev pub turns : String → List String → List String
turns current xs = later current xs ++ up_to current xs

after_current-absent :
    (current : String) (xs : List String)
    → after_current current xs ≡ 0
    → (later current xs ≡ []) × (up_to current xs ≡ xs)
unfolding after_current
after_current-absent current [] h = (refl, refl)
after_current-absent current (x ∷ xs) h = elim (Bool-cases (str_eq x current)) [
  | inl e ↦ absurd (ground (arith, h, e))
  | inr e ↦
      let (l, u) = after_current-absent current xs (ground (arith, h, e)) in
      rw e (l, ap (λ ys. x ∷ ys) u)
]

suc_of : (n : ℕ) → (n == 0) ≡ false → (j : ℕ) × (n ≡ suc j)
suc_of zero h = absurd (cc h)
suc_of (suc j) h = (j, refl)

after_current-present :
    (current : String) (xs : List String) (k : ℕ)
    → after_current current xs ≡ suc k
    → (drop (suc k) xs ≡ later current xs) × (take (suc k) xs ≡ up_to current xs)
unfolding after_current
after_current-present current [] k h = absurd (omega (arith, h))
after_current-present current (x ∷ xs) k h = elim (Bool-cases (str_eq x current)) [
  | inl e ↦ let one : k ≡ 0 = ground (arith, h, e) in rw (one, e) (refl, refl)
  | inr e ↦
      let (j, behind) = suc_of (after_current current xs) (ground (arith, h, e)) in
      let same : k ≡ suc j = ground (arith, h, e, behind) in
      let (d, t) = after_current-present current xs j behind in
      rw (same, e) (d, ap (λ ys. x ∷ ys) t)
]

rotated-turns :
    (current : String) (xs : List String) → rotated (after_current current xs) xs ≡ turns current xs
rotated-turns current xs = elim (Bool-cases (after_current current xs == 0)) [
  | inl z ↦
      let none_yet : after_current current xs ≡ 0 = ground (arith, z) in
      let (l, u) = after_current-absent current xs none_yet in rw (none_yet, l, u) (append-nil xs)
  | inr z ↦
      let (j, behind) = suc_of (after_current current xs) z in
      let (d, t) = after_current-present current xs j behind in rw (behind, d, t) refl
]

-- The selection by rounds tries all profiles, each once, in the order of their names, from the one
-- after the current profile on (from the first, if the current one is not among them) and round to
-- it, and selects the first that is not in cooldown; it fails exactly if there is none.
pub round_robin_exact :
    (s : Selector) (current : String) (ps : List String)
    → let candidates = turns current (sort_slice s.less ps) in
      (selected_of (select_round_robin s current ps)
        ≡ find_first (λ p. not (s.in_cooldown p)) candidates)
      × Perm candidates ps
round_robin_exact s current ps =
    let sorted = sort_slice s.less ps in
    rw (rotated-turns current sorted) at (round_robin-rotated s current ps)
