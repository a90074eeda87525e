-- ===== src/Examples/Rotations.antt =====
-- Runs of the model of internal/rotation at concrete inputs.
use mathlib.Core.List.{mem-cons_self, mem-cons_of_mem}
use caam_account_switching.Prelude.{
  ◌-◌, String, not, ◌&&◌, List, [], ◌∷◌, ◌≡◌, refl, arith, str_eq, Perm, if◌then◌else◌,
}
use caam_account_switching.Prelude.Int.{pos}
use caam_account_switching.Prelude.Sort.{sort_slice}
use caam_account_switching.Rotation.{
  Selector, smart, select, select_round_robin, is_system, user_profiles, select_user, select_by,
  select_smart, smart_score, smart_from, best_candidate, smart_result,
}
use caam_account_switching.Rotation.RoundRobin.{selected_of, find_first, turns, round_robin_exact}
use caam_account_switching.Rotation.Available.{IsFree, select-IsFree}
use caam_account_switching.Rotation.Succeeds.{Succeeds, select-Succeeds}

-- "work" is in cooldown; names are ordered by a list.
abbrev selector : Selector
selector = record {
  algorithm = smart;
  in_cooldown = λ p. str_eq p "work";
  score = λ p. if str_eq p "home" then pos 120 else pos 80;
  unit = 1;
  pick = λ n. n - 1;
  less = λ a b. str_eq a "home" && not (str_eq b "home");
}

abbrev names : List String
names = "work" ∷ "_backup" ∷ "home" ∷ "spare" ∷ []

round_robin_exact_example :
    (selected_of (select_round_robin selector "home" names)
      ≡ find_first (λ p. not (str_eq p "work")) (turns "home" (sort_slice selector.less names)))
    × Perm (turns "home" (sort_slice selector.less names)) names
round_robin_exact_example = round_robin_exact selector "home" names

select-IsFree_example : IsFree selector (user_profiles names) "spare"
unfolding select is_system select_user select_by select_smart smart_score smart_from best_candidate
    smart_result sort_slice
select-IsFree_example = select-IsFree selector names "home" "spare" (omega arith) refl refl

select-Succeeds_example : Succeeds (select selector names "home")
unfolding is_system
select-Succeeds_example =
    select-Succeeds selector names "home" "spare" (λ n h. omega arith) (refl, (refl, (refl, tt)))
      refl (mem-cons_of_mem "work" (mem-cons_of_mem "home" mem-cons_self)) refl
