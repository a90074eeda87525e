-- ===== src/Authpool/Pool/Selection.antt =====
-- Which profile `SelectBest` hands out.
use mathlib.Core.List.{mem-cons, mem-cons_self, not-mem-nil}
use mathlib.Core.List.Perm
use mathlib.Core.Logic.Or
use mathlib.Core.Bool.{Bool-set}
use caam_account_switching.Prelude.{
  String, str_eq, eq_iff, eq_refl, ◌≤◌, true, false, Option, none, some, List, [], ◌∷◌, Mem, ◌≡◌,
  ◌↔◌, refl, arith, filter, All, All-mem, All-of_mem, eq-nil_of_not-mem, mem-filter, Bool-cases,
  inl, inr,
}
use caam_account_switching.Prelude.Int.{ltb_ℤ}
use caam_account_switching.Prelude.Sort.{sort_slice-perm, sort_slice-IsOrdered, IsOrdered}
use caam_account_switching.Prelude.Table.{values}
use caam_account_switching.Authpool.Status.{PooledProfile, ready, same_status}
use caam_account_switching.Authpool.Pool.{AuthPool}
use caam_account_switching.Authpool.Pool.Queries.{
  preferred, skipped, is_ready_of, get_ready_profiles, first, select_best,
}

preferred_asym : (a b : PooledProfile) → preferred a b ≡ true → preferred b a ≡ false
unfolding preferred
preferred_asym a b h = ground arith

-- "Not preferred to" is transitive.
preferred_trans :
    (a b c : PooledProfile) → preferred b a ≡ false → preferred c b ≡ false → preferred c a ≡ false
unfolding preferred
preferred_trans a b c h k = ground arith

module _ (p : AuthPool) (provider : String) where
  -- The profiles that `GetReadyProfiles` is to return: the ready ones of the provider.
  pub mem-get_ready_profiles :
      (q : PooledProfile)
      → Mem q (get_ready_profiles p provider)
        ↔ (Mem q (values p.profiles) × (is_ready_of provider q ≡ true))
  unfolding get_ready_profiles
  mem-get_ready_profiles q = (
    λ m. (mem-filter _ q _).0 ((Perm.mem_iff (sort_slice-perm preferred _)).0 m),
    λ m. (Perm.mem_iff (sort_slice-perm preferred _)).1 ((mem-filter _ q _).1 m),
  )

  pub get_ready_profiles-IsOrdered : IsOrdered preferred (get_ready_profiles p provider)
  unfolding get_ready_profiles
  get_ready_profiles-IsOrdered =
      sort_slice-IsOrdered preferred preferred_asym preferred_trans
        (filter (is_ready_of provider) (values p.profiles))

preferred_self : (a : PooledProfile) → preferred a a ≡ false
preferred_self a = elim (Bool-cases (preferred a a)) [ inl e ↦ preferred_asym a a e | inr e ↦ e ]

-- What `first` says of an ordered list.
first_best :
    (xs : List PooledProfile) (b : PooledProfile)
    → IsOrdered preferred xs
    → first xs ≡ some b
    → Mem b xs × ((q : PooledProfile) → Mem q xs → preferred q b ≡ false)
unfolding first
first_best [] b o e = absurd (cc e)
first_best (x ∷ xs) b o e =
    let same : x ≡ b = cc e in
    rw (← same) (
      mem-cons_self,
      λ q m.
          Or.elim (Bool-set _ _) (mem-cons.0 m) (λ here. rw here (preferred_self x))
            (All-mem (λ y. preferred y x ≡ false) (λ y. Bool-set _ _) q xs o.0),
    )

first-none : (xs : List PooledProfile) (q : PooledProfile) → first xs ≡ none → ¬ Mem q xs
unfolding first
first-none [] q e m = not-mem-nil m
first-none (x ∷ xs) q e m = cc e

-- A best choice among the candidates: one of them to which none is preferred, or none if there are
-- no candidates.
abbrev pub IsBest : List PooledProfile → Option PooledProfile → Type 0
IsBest candidates none = candidates ≡ []
IsBest candidates (some b) = Mem b candidates × All (λ q. preferred q b ≡ false) candidates

module _ (p : AuthPool) (provider : String) where
  abbrev pub candidates : List PooledProfile
  candidates = filter (is_ready_of provider) (values p.profiles)

  candidate : (q : PooledProfile) → Mem q (get_ready_profiles p provider) ↔ Mem q candidates
  candidate q = (
    λ m. (mem-filter _ q _).1 ((mem-get_ready_profiles p provider q).0 m),
    λ m. (mem-get_ready_profiles p provider q).1 ((mem-filter _ q _).0 m),
  )

  IsBest-first :
      (o : Option PooledProfile) → first (get_ready_profiles p provider) ≡ o → IsBest candidates o
  IsBest-first none e =
      eq-nil_of_not-mem candidates
        λ q m. first-none (get_ready_profiles p provider) q e ((candidate q).1 m)
  IsBest-first (some b) e =
      let (here, best) =
        first_best (get_ready_profiles p provider) b (get_ready_profiles-IsOrdered p provider) e in
      ((candidate b).0 here, All-of_mem _ candidates (λ q m. best q ((candidate q).1 m)))

-- A profile of the pool that is ready and of the provider asked for, if one is.
abbrev pub IsFit : AuthPool → String → PooledProfile → Type 0
IsFit p provider q =
    Mem q (values p.profiles)
    × (q.status ≡ ready)
    × (str_eq provider "" ≡ false → q.provider ≡ provider)

-- The first is at least as good as the second: of a higher priority, or of the same one and used no
-- later.
abbrev pub IsNoWorse : PooledProfile → PooledProfile → Type 0
IsNoWorse b q =
    (ltb_ℤ b.priority q.priority ≡ false)
    × (ltb_ℤ q.priority b.priority ≡ false → b.last_used ≤ q.last_used)

is_ready_of-fit :
    (provider : String) (q : PooledProfile)
    → is_ready_of provider q ≡ true
    → (q.status ≡ ready) × (str_eq provider "" ≡ false → q.provider ≡ provider)
unfolding is_ready_of skipped same_status
is_ready_of-fit provider q h = ((ground arith), λ n. (eq_iff q.provider provider).0 (ground arith))

fit-is_ready_of :
    (provider : String) (q : PooledProfile)
    → q.status ≡ ready
    → (str_eq provider "" ≡ false → q.provider ≡ provider)
    → is_ready_of provider q ≡ true
unfolding is_ready_of skipped same_status
fit-is_ready_of provider q r h = elim (Bool-cases (str_eq provider "")) [
  | inl e ↦ rw (is_ready_of, r, e) refl
  | inr e ↦ rw (is_ready_of, r, e, h e, eq_refl provider) refl
]

preferred-IsNoWorse : (b q : PooledProfile) → preferred q b ≡ false → IsNoWorse b q
unfolding preferred
preferred-IsNoWorse b q h = (ground arith, λ n. ground arith)

abbrev pub IsBestOf : AuthPool → String → Option PooledProfile → Type 0
IsBestOf p provider none = (q : PooledProfile) → ¬ IsFit p provider q
IsBestOf p provider (some b) =
    IsFit p provider b × ((q : PooledProfile) → IsFit p provider q → IsNoWorse b q)

module _ (p : AuthPool) (provider : String) where
  candidate-IsFit : (q : PooledProfile) → Mem q (candidates p provider) → IsFit p provider q
  candidate-IsFit q m =
      let (here, fit) = (mem-filter (is_ready_of provider) q (values p.profiles)).0 m in
      let (r, h) = is_ready_of-fit provider q fit in (here, r, h)

  IsFit-candidate : (q : PooledProfile) → IsFit p provider q → Mem q (candidates p provider)
  IsFit-candidate q (here, r, h) =
      (mem-filter (is_ready_of provider) q (values p.profiles)).1
        (here, fit-is_ready_of provider q r h)

  IsBest-IsBestOf :
      (o : Option PooledProfile) → IsBest (candidates p provider) o → IsBestOf p provider o
  IsBest-IsBestOf none h = λ q fit. not-mem-nil (rw h at (IsFit-candidate q fit))
  IsBest-IsBestOf (some b) (here, all) = (
    candidate-IsFit b here,
    λ q fit. preferred-IsNoWorse b q (
        All-mem (λ x. preferred x b ≡ false) (λ x. Bool-set _ _) q (candidates p provider) all
          (IsFit-candidate q fit)),
  )

-- `SelectBest` returns a profile of the pool that is ready and of the provider asked for (of any, if
-- the name is empty), and no other such profile has a higher priority, or the same one and an
-- earlier last use; it returns none exactly if there is no such profile.
pub select_best_optimal :
    (p : AuthPool) (provider : String) → IsBestOf p provider (select_best p provider)
unfolding select_best
select_best_optimal p provider = IsBest-IsBestOf p provider _ (IsBest-first p provider _ refl)
