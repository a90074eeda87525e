-- ===== src/Examples/Pools.antt =====
-- Runs of the pool of internal/authpool at concrete inputs.
use caam_account_switching.Prelude.{
  ◌+◌, String, true, some, List, [], ◌∷◌, ◌≡◌, refl, arith, count, length, ltb, if◌then◌else◌,
}
use mathlib.Core.Option
use caam_account_switching.Prelude.Int.{pos}
use caam_account_switching.Prelude.Table.{lookup, values}
use caam_account_switching.Authpool.Status.{ready, expired, cooldown, PooledProfile, is_in_cooldown}
use caam_account_switching.Authpool.Pool.{
  AuthPool, with_max_retries, with_on_state_change, new_auth_pool, profile_key, set_cooldown,
  check_and_update_cooldowns, cleared_profile,
}
use caam_account_switching.Authpool.Pool.Operations.{
  Operation, on, sweep, adds, sets_status, sets_cooldown, write, run,
}
use caam_account_switching.Authpool.Pool.Queries.{select_best}
use caam_account_switching.Authpool.Pool.Frame.{Frames, write-Frames}
use caam_account_switching.Authpool.Pool.Invariant.{IsWell, run-IsWell}
use caam_account_switching.Authpool.Pool.Notices.{status, due, notices_exact}
use caam_account_switching.Authpool.Pool.Sweep.{
  sweep_exact, cooldown_lapses, swept, cleared_notices, has_lapsed,
}
use caam_account_switching.Authpool.Pool.Errors.{errors_exact, set_errors, status_after_errors}
use caam_account_switching.Authpool.Pool.Selection.{IsBestOf, select_best_optimal}
use caam_account_switching.Authpool.Pool.Vault.{listed, Listing}
use caam_account_switching.Authpool.Persist.{
  Codec, PersistedPoolState, all_through_text, save, load, contents, loaded, load-save,
}

abbrev pub work : PooledProfile
work = record {
  provider = "claude";
  profile_name = "work";
  status = ready;
  token_expiry = 900;
  last_refresh = 0;
  last_check = 10;
  last_used = 20;
  cooldown_until = 0;
  error_count = 1;
  error_message = "timeout";
  priority = pos 1;
}

abbrev home : PooledProfile
home = record work {
  profile_name = "home";
  status = cooldown;
  cooldown_until = 40;
  error_count = 0;
  priority = pos 2;
}

abbrev pub two_profiles : AuthPool
two_profiles = record {
  profiles = ("claude:work", work) ∷ ("claude:home", home) ∷ [];
  refresh_threshold = 100;
  cooldown_duration = 30;
  max_retries = 3;
  has_callback = true;
}

abbrev history : List Operation
history =
    on "claude" "work" (adds 5) ∷ on "claude" "work" (sets_cooldown 0 7 8) ∷ sweep 400000000000 ∷ []

run-IsWell_example :
    IsWell (run (new_auth_pool (with_max_retries 2 ∷ with_on_state_change true ∷ [])) history)
run-IsWell_example = run-IsWell (with_max_retries 2 ∷ with_on_state_change true ∷ []) history

write-Frames_example :
    Frames two_profiles
      (write two_profiles "claude" "work" (sets_status expired 50)).0
      (profile_key "claude" "work")
write-Frames_example = write-Frames two_profiles "claude" "work" (sets_status expired 50)

notices_exact_example :
    (write two_profiles "claude" "work" (sets_status expired 50)).1
    ≡ due two_profiles (lookup (profile_key "claude" "work") two_profiles.profiles) (
        lookup
          (profile_key "claude" "work")
          (write two_profiles "claude" "work" (sets_status expired 50)).0.profiles)
notices_exact_example =
    notices_exact two_profiles "claude" "work" (sets_status expired 50) (status expired 50)

sweep_exact_example :
    let o = check_and_update_cooldowns two_profiles 60 in
    ((k : String)
      → lookup k o.pool.profiles ≡ Option.map (swept 60) (lookup k two_profiles.profiles))
    × (o.result ≡ count (has_lapsed 60) (values two_profiles.profiles))
    × (o.notices ≡ cleared_notices 60 two_profiles.profiles)
    × (length (cleared_notices 60 two_profiles.profiles) ≡ o.result)
sweep_exact_example = sweep_exact two_profiles 60

cooldown_lapses_example :
    (c : PooledProfile) × (lookup
        (profile_key "claude" "work")
        (set_cooldown two_profiles "claude" "work" 0 50 51).pool.profiles
      ≡ some c)
    × (c.status ≡ cooldown)
    × (is_in_cooldown c 81 ≡ ltb 81 (50 + 30))
    × (lookup
          (profile_key "claude" "work")
          (check_and_update_cooldowns
            (set_cooldown two_profiles "claude" "work" 0 50 51).pool
            81).pool.profiles
        ≡ some (if ltb (50 + 30) 81 then cleared_profile c else c))
unfolding profile_key lookup
cooldown_lapses_example =
    cooldown_lapses two_profiles "claude" "work" 0 50 51 81 work (omega arith) refl

errors_exact_example :
    (r : PooledProfile) × (lookup
        (profile_key "claude" "work")
        (set_errors two_profiles "claude" "work" (("timeout", 60) ∷ ("timeout", 70) ∷ [])).profiles
      ≡ some r)
    × (r.error_count ≡ 2 + 1)
    × (r.status ≡ status_after_errors 3 work 2)
unfolding profile_key lookup
errors_exact_example =
    errors_exact two_profiles "claude" "work" work (("timeout", 60) ∷ ("timeout", 70) ∷ []) refl

select_best_optimal_example : IsBestOf two_profiles "claude" (select_best two_profiles "claude")
select_best_optimal_example = select_best_optimal two_profiles "claude"

abbrev vault : Listing
vault = listed (("claude", "work" ∷ "spare" ∷ []) ∷ [])

-- A codec that keeps the state as it is, but for the statuses, which go through their names.
abbrev plain_codec : Codec
plain_codec = record {
  Text = PersistedPoolState;
  encode = λ s. record s { profiles = all_through_text s.profiles };
  decode = some;
  decode-encode = λ s. refl;
}

abbrev empty_pool : AuthPool
empty_pool = record two_profiles { profiles = []; max_retries = 5 }

load-save_example :
    let r = load plain_codec empty_pool (contents (save plain_codec two_profiles 99)) in
    (r.1 ≡ loaded)
    × ((k : String) → lookup k r.0.profiles ≡ lookup k two_profiles.profiles)
    × (r.0.refresh_threshold ≡ empty_pool.refresh_threshold)
    × (r.0.cooldown_duration ≡ empty_pool.cooldown_duration)
    × (r.0.max_retries ≡ 5)
    × (r.0.has_callback ≡ true)
load-save_example = load-save plain_codec two_profiles empty_pool 99 (refl, (refl, tt))
