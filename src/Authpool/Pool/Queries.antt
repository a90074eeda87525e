-- ===== src/Authpool/Pool/Queries.antt =====
-- internal/authpool/pool.go: the operations that read the pool.
-- A scan of the map reads the clock once, as `now`.
use caam_account_switching.Prelude.{
  ℕ, suc, String, Bool, true, false, not, ◌&&◌, ◌||◌, Option, none, some, List, [], ◌∷◌, ltb,
  str_eq, if◌then◌else◌, filter, length,
}
use caam_account_switching.Prelude.Int.{ltb_ℤ}
use caam_account_switching.Prelude.Sort.{sort_slice}
use caam_account_switching.Prelude.Table.{Table, lookup, put, values}
use caam_account_switching.Authpool.Status.{
  PoolStatus, unknown, ready, cooldown, error, same_status, to_string, needs_refresh, PooledProfile,
  is_expiring_soon, is_in_cooldown,
}
use caam_account_switching.Authpool.Pool.{AuthPool, profile_key}

unfoldable pub get_profile : AuthPool → String → String → Option PooledProfile
get_profile p provider name = lookup (profile_key provider name) p.profiles

unfoldable pub get_status : AuthPool → String → String → PoolStatus
get_status p provider name = elim (lookup (profile_key provider name) p.profiles) [
  | none ↦ unknown
  | some q ↦ q.status
]

-- The loops skip a profile if `provider != "" && profile.Provider != provider`.
unfoldable pub skipped : String → PooledProfile → Bool
skipped provider q = not (str_eq provider "") && not (str_eq q.provider provider)

unfoldable pub is_ready_of : String → PooledProfile → Bool
unfolding skipped same_status
is_ready_of provider q = not (skipped provider q) && same_status q.status ready

-- Higher priority first, then the least recently used.
unfoldable pub preferred : PooledProfile → PooledProfile → Bool
preferred a b =
    if ltb_ℤ b.priority a.priority
    then true
    else if ltb_ℤ a.priority b.priority
    then false
    else ltb a.last_used b.last_used

unfoldable pub get_ready_profiles : AuthPool → String → List PooledProfile
unfolding is_ready_of preferred sort_slice
get_ready_profiles p provider =
    sort_slice preferred (filter (is_ready_of provider) (values p.profiles))

unfoldable pub is_due_of : String → ℕ → ℕ → PooledProfile → Bool
unfolding skipped needs_refresh is_expiring_soon
is_due_of provider threshold now q =
    not (skipped provider q) && (needs_refresh q.status || is_expiring_soon q threshold now)

unfoldable pub get_profiles_needing_refresh : AuthPool → String → ℕ → List PooledProfile
unfolding is_due_of
get_profiles_needing_refresh p provider now =
    filter (is_due_of provider p.refresh_threshold now) (values p.profiles)

unfoldable pub is_cooling_of : String → ℕ → PooledProfile → Bool
unfolding skipped same_status is_in_cooldown
is_cooling_of provider now q =
    not (skipped provider q) && (same_status q.status cooldown && is_in_cooldown q now)

unfoldable pub get_profiles_in_cooldown : AuthPool → String → ℕ → List PooledProfile
unfolding is_cooling_of
get_profiles_in_cooldown p provider now = filter (is_cooling_of provider now) (values p.profiles)

unfoldable pub get_all_profiles : AuthPool → String → List PooledProfile
unfolding skipped
get_all_profiles p provider = filter (λ q. not (skipped provider q)) (values p.profiles)

-- `ready[0]`, behind the test that there is one
unfoldable pub first : List PooledProfile → Option PooledProfile
first [] = none
first (q ∷ rest) = some q

unfoldable pub select_best : AuthPool → String → Option PooledProfile
unfolding get_ready_profiles first
select_best p provider = first (get_ready_profiles p provider)

unfoldable pub count_profiles : AuthPool → ℕ
count_profiles p = length p.profiles

-- counts[status]++, on a map that is read as 0 where it has no key
unfoldable pub bump : PoolStatus → (PoolStatus → ℕ) → PoolStatus → ℕ
unfolding same_status
bump s counts t = if same_status s t then suc (counts t) else counts t

unfoldable pub tally : List PooledProfile → (PoolStatus → ℕ) → PoolStatus → ℕ
unfolding bump
tally [] counts = counts
tally (q ∷ rest) counts = tally rest (bump q.status counts)

unfoldable pub count_by_status : AuthPool → PoolStatus → ℕ
unfolding tally
count_by_status p = tally (values p.profiles) (λ s. 0)

pub record PoolSummary : Type 0 where
  pub total_profiles : ℕ
  pub by_status : Table ℕ
  pub by_provider : Table ℕ
  pub ready_count : ℕ
  pub cooldown_count : ℕ
  pub error_count : ℕ

-- m[k], which is 0 where m has no key k
abbrev pub count_at : String → Table ℕ → ℕ
count_at k m = elim (lookup k m) [ none ↦ 0 | some n ↦ n ]

-- m[k]++
unfoldable pub increment : String → Table ℕ → Table ℕ
increment k m = put k (suc (count_at k m)) m

-- The `switch` of the loop.
unfoldable pub count_status : PoolStatus → PoolSummary → PoolSummary
count_status ready s = record s { ready_count = suc s.ready_count }
count_status cooldown s = record s { cooldown_count = suc s.cooldown_count }
count_status error s = record s { error_count = suc s.error_count }
count_status _ s = s

unfoldable pub summarise : List PooledProfile → PoolSummary → PoolSummary
unfolding increment count_status
summarise [] s = s
summarise (q ∷ rest) s = summarise rest (
    count_status q.status (record s {
      by_status = increment (to_string q.status) s.by_status;
      by_provider = increment q.provider s.by_provider;
    }))

unfoldable pub summary : AuthPool → PoolSummary
unfolding summarise
summary p = summarise (values p.profiles) (record {
  total_profiles = length p.profiles;
  by_status = [];
  by_provider = [];
  ready_count = 0;
  cooldown_count = 0;
  error_count = 0;
})
