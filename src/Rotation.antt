-- ===== src/Rotation.antt =====
-- internal/rotation/rotation.go: the selection of a profile.
-- The database and the health store are asked through functions: whether a profile is in cooldown,
-- and the score of one that is not. A score is a float64, and so a multiple of some 2^-k: it is an
-- integer here, and `unit` is the score 1.0. The texts of the reasons are left out. `pick n` is what
-- `rng.Intn(n)` returns. The clock is read once in each selection.
pub mod RoundRobin
pub mod Available
pub mod Succeeds
use Prim.Native.Char.{code}
use caam_account_switching.Prelude.{
  ℕ, zero, suc, ◌+◌, ◌-◌, ◌*◌, ◌%◌, String, Bool, true, false, not, ◌&&◌, Option, none, some, List,
  [], ◌∷◌, ◌++◌, ltb, ◌==◌, str_eq, if◌then◌else◌, filter, map, length,
}
use caam_account_switching.Prelude.Int.{ℤ, pos, negsuc, ltb_ℤ}
use caam_account_switching.Prelude.Sort.{sort_slice}

pub data Algorithm : Type 0 where
  smart round_robin random : Algorithm

pub record ProfileScore : Type 0 where
  pub name : String
  pub score : ℤ

pub record Result : Type 0 where
  pub selected : String
  pub alternatives : List ProfileScore
  pub algorithm : Algorithm

pub record Selector : Type 0 where
  pub algorithm : Algorithm
  pub in_cooldown : String → Bool
  pub score : String → ℤ
  pub unit : ℕ
  pub pick : ℕ → ℕ
  pub less : String → String → Bool

-- The errors of the source, by their texts.
pub data SelectError : Type 0 where
  no_profiles only_system all_in_cooldown none_left : SelectError

pub data Selection : Type 0 where
  chosen : Result → Selection
  refused : SelectError → Selection

abbrev pub negated : ℕ → ℤ
negated zero = pos 0
negated (suc k) = negsuc k

-- The scores -n and n.
abbrev pub minus : Selector → ℕ → ℤ
minus s n = negated (n * s.unit)

abbrev pub plus : Selector → ℕ → ℤ
plus s n = pos (n * s.unit)

abbrev pub scored : String → ℤ → ProfileScore
scored p n = record { name = p; score = n }

-- `strings.HasPrefix(p, "_")`
unfoldable pub is_system : String → Bool
is_system String.[] = false
is_system (String.◌∷◌ c rest) = code c == 95

abbrev pub user_profiles : List String → List String
user_profiles ps = filter (λ p. not (is_system p)) ps

-- `currentProfile != "" && p == currentProfile`
abbrev pub is_current : String → String → Bool
is_current current p = not (str_eq current "") && str_eq p current

abbrev pub several : {A : Type 0} → List A → Bool
several xs = ltb 1 (length xs)

-- The three lists of the loop of `selectRandom`.
unfoldable pub eligible : Selector → String → Bool → List String → List String
eligible s current many ps =
    filter (λ p. not (is_current current p && many) && not (s.in_cooldown p)) ps

unfoldable pub excluded_current : String → Bool → List String → List String
excluded_current current many ps = filter (λ p. is_current current p && many) ps

unfoldable pub cooling : Selector → String → Bool → List String → List String
cooling s current many ps = filter (λ p. not (is_current current p && many) && s.in_cooldown p) ps

-- The element at an index, which is in range at every use.
unfoldable pub nth : ℕ → List String → Option String
nth i [] = none
nth zero (x ∷ xs) = some x
nth (suc i) (x ∷ xs) = nth i xs

unfoldable pub select_random : Selector → String → List String → Selection
unfolding eligible excluded_current cooling
select_random s current ps =
    let many = several ps in
    let es = eligible s current many ps in
    elim (nth (s.pick (length es)) es) [
      | none ↦ refused all_in_cooldown
      | some p ↦ chosen (record {
        selected = p;
        alternatives =
            map (λ q. scored q (plus s 100)) es
            ++ map (λ q. scored q (minus s 5000)) (excluded_current current many ps)
            ++ map (λ q. scored q (minus s 10000)) (cooling s current many ps);
        algorithm = random;
      })
    ]

-- One after the index of the first profile that is the current one, or 0 if there is none:
-- `currentIdx + 1`.
unfoldable pub after_current : String → List String → ℕ
after_current current [] = 0
after_current current (p ∷ ps) =
    let rest = after_current current ps in
    if str_eq p current then 1 else if rest == 0 then 0 else suc rest

-- The positions that the loop of `selectRoundRobin` over the profiles gives, from an index on:
-- `(j - currentIdx + n) % n`, with `start` for `currentIdx + 1`.
unfoldable pub with_positions : Selector → ℕ → ℕ → ℕ → List String → List ProfileScore
with_positions s start n j [] = []
with_positions s start n j (p ∷ ps) =
    let rest = with_positions s start n (suc j) ps in
    if s.in_cooldown p then rest else scored p (plus s (n - (j + 1 + n - start) % n)) ∷ rest

-- `alternatives[i].Score > alternatives[j].Score`
abbrev pub higher : ProfileScore → ProfileScore → Bool
higher a b = ltb_ℤ b.score a.score

-- The loop over the candidates: `left` rounds of it, from round `i` on. The index is in range.
unfoldable pub next_available : Selector → ℕ → ℕ → ℕ → List String → Option String
unfolding nth
next_available s start zero i sorted = none
next_available s start (suc left) i sorted =
    let rest = next_available s start left (suc i) sorted in
    elim (nth ((start + i) % length sorted) sorted) [
      | none ↦ none
      | some p ↦ if s.in_cooldown p then rest else some p
    ]

unfoldable pub select_round_robin : Selector → String → List String → Selection
unfolding sort_slice
select_round_robin s current ps =
    let sorted = sort_slice s.less ps in
    let start = after_current current sorted in
    elim (next_available s start (length sorted) 0 sorted) [
      | none ↦ refused all_in_cooldown
      | some p ↦ chosen (record {
        selected = p;
        alternatives = sort_slice higher (
            map (λ q. scored q (minus s 10000)) (filter s.in_cooldown sorted)
            ++ with_positions s start (length sorted) 0 sorted);
        algorithm = round_robin;
      })
    ]

-- The score of a profile in `selectSmart`.
unfoldable pub smart_score : Selector → String → ProfileScore
smart_score s p = scored p (if s.in_cooldown p then minus s 10000 else s.score p)

abbrev pub is_out : Selector → ProfileScore → Bool
is_out s p = ltb_ℤ p.score (minus s 9000)

-- The loop that selects, over the sorted scores.
unfoldable pub best_candidate : Selector → String → Bool → List ProfileScore → Option String
best_candidate s current many [] = none
best_candidate s current many (p ∷ ps) =
    let rest = best_candidate s current many ps in
    if is_out s p then none else if is_current current p.name && many then rest else some p.name

-- An empty name counts as no candidate.
unfoldable pub smart_result : List ProfileScore → Option String → Selection
smart_result scores none = refused none_left
smart_result scores (some p) =
    if str_eq p ""
    then refused none_left
    else chosen (record { selected = p; alternatives = scores; algorithm = smart })

-- `selectSmart` from the sorted scores on.
unfoldable pub smart_from : Selector → String → List ProfileScore → Selection
smart_from s current [] = refused none_left
smart_from s current (p ∷ rest) =
    if is_out s p
    then refused all_in_cooldown
    else smart_result (p ∷ rest) (best_candidate s current (several (p ∷ rest)) (p ∷ rest))

unfoldable pub select_smart : Selector → String → List String → Selection
select_smart s current ps = smart_from s current (sort_slice higher (map (smart_score s) ps))

unfoldable pub select_by : Selector → Algorithm → String → List String → Selection
select_by s random current ps = select_random s current ps
select_by s round_robin current ps = select_round_robin s current ps
select_by s smart current ps = select_smart s current ps

-- `Select` from the user profiles on.
unfoldable pub select_user : Selector → String → List String → Selection
select_user s current [] = refused only_system
select_user s current (p ∷ []) =
    chosen
      (record { selected = p; alternatives = scored p (plus s 100) ∷ []; algorithm = s.algorithm })
select_user s current (p ∷ r ∷ rs) = select_by s s.algorithm current (p ∷ r ∷ rs)

unfoldable pub select : Selector → List String → String → Selection
select s [] current = refused no_profiles
select s (p ∷ ps) current = select_user s current (user_profiles (p ∷ ps))
