-- ===== src/Authpool/Monitor/Stuck.antt =====
-- What becomes of a profile whose refresh fails: `SetError` leaves it in the refreshing state until
-- the limit of errors is reached, and the monitor passes over a profile in that state.
use caam_account_switching.Prelude.{
  ℕ, suc, ◌<◌, String, Bool, true, false, ◌&&◌, some, List, [], ◌∷◌, ◌++◌, ◌≡◌, ◌≢◌, refl, sym, ap,
  ◌∙◌, arith, str_eq, eq_iff, if◌then◌else◌, All, Bool-cases, inl, inr,
}
use mathlib.Core.Option
use caam_account_switching.Prelude.Table.{lookup}
use caam_account_switching.Authpool.Status.{PoolStatus, refreshing, PooledProfile}
use caam_account_switching.Authpool.Pool.{
  AuthPool, profile_key, with_status, try_mark_refreshing, with_error, check_and_update_cooldowns,
}
use caam_account_switching.Authpool.Pool.Queries.{get_profiles_needing_refresh}
use caam_account_switching.Authpool.Pool.Sweep.{swept, sweep_exact}
use caam_account_switching.Authpool.Monitor.{
  Monitor, refused, do_refresh, trigger_refresh, trigger_all, check_and_refresh, wants_refresh,
}
use caam_account_switching.Authpool.Monitor.Failure.{
  IsMarked, failure, lookup-do_refresh_failed, failed_status, failed_count, try_mark-marked,
  lookup-try_mark, lookup-revert,
}

-- What a round does to a profile in the refreshing state, and which goroutines it starts.
abbrev Passes : Monitor → String → Monitor × List (String × String) → Type 0
Passes m key r =
    (lookup key r.0.pool.profiles ≡ lookup key m.pool.profiles)
    × All (λ n. str_eq (profile_key n.0 n.1) key ≡ false) r.1

module _ (m : Monitor) (key : String) (marked : IsMarked m.pool key) where
  trigger_other :
      (provider name : String) (s : PoolStatus) (now later : ℕ)
      → key ≢ profile_key provider name
      → lookup key (trigger_refresh m provider name s now later).0.pool.profiles
        ≡ lookup key m.pool.profiles
  unfolding trigger_refresh
  trigger_other provider name s now later h = ground (
    arith,
    lookup-try_mark m.pool provider name key now h,
    lookup-revert (try_mark_refreshing m.pool provider name now).pool provider name key s later h,
  )

  trigger_self :
      (provider name : String) (s : PoolStatus) (now later : ℕ)
      → key ≡ profile_key provider name
      → ((trigger_refresh m provider name s now later).0.pool ≡ m.pool)
        × ((trigger_refresh m provider name s now later).1 ≡ false)
  unfolding trigger_refresh
  trigger_self provider name s now later e =
      ground (arith, try_mark-marked m.pool provider name now (rw e at marked))

  -- Whatever profile is tried, the marked one stays, and it is not the one that is started.
  trigger-keeps :
      (provider name : String) (s : PoolStatus) (now later : ℕ)
      → (lookup key (trigger_refresh m provider name s now later).0.pool.profiles
          ≡ lookup key m.pool.profiles)
        × ((trigger_refresh m provider name s now later).1 && str_eq (profile_key provider name) key
            ≡ false)
  trigger-keeps provider name s now later =
      elim (Bool-cases (str_eq (profile_key provider name) key)) [
        | inl e ↦
            let (same, no_start) =
              trigger_self provider name s now later
                (sym ((eq_iff (profile_key provider name) key).0 e)) in
            (ap (λ (p : AuthPool). lookup key p.profiles) same, rw no_start refl)
        | inr e ↦ (
          trigger_other provider name s now later
              (λ q. absurd (cc (e, (eq_iff (profile_key provider name) key).1 (sym q)))),
          rw e (ground arith),
        )
      ]

pub IsMarked-same :
    (p p' : AuthPool) (key : String)
    → lookup key p'.profiles ≡ lookup key p.profiles
    → IsMarked p key
    → IsMarked p' key
IsMarked-same p p' key e (r, found, s) = (r, e ∙ found, s)

All-started :
    (b : Bool) (provider name key : String) (rest : List (String × String))
    → b && str_eq (profile_key provider name) key ≡ false
    → All (λ n. str_eq (profile_key n.0 n.1) key ≡ false) rest
    → All
        (λ n. str_eq (profile_key n.0 n.1) key ≡ false)
        (if b then (provider, name) ∷ rest else rest)
All-started true provider name key rest h all = (h, all)
All-started false provider name key rest h all = all

trigger_all-Passes :
    (m : Monitor) (key : String) (now : ℕ) (qs : List PooledProfile)
    → IsMarked m.pool key
    → Passes m key (trigger_all m now qs)
unfolding trigger_all
trigger_all-Passes m key now [] marked = (refl, tt)
trigger_all-Passes m key now (q ∷ qs) marked =
    elim (Bool-cases (wants_refresh m.config.refresh_threshold now q)) [
      | inl e ↦
          let t = trigger_refresh m q.provider q.profile_name q.status now now in
          let (kept, other) =
            trigger-keeps m key marked q.provider q.profile_name q.status now now in
          let (after, names) =
            trigger_all-Passes t.0 key now qs (IsMarked-same m.pool t.0.pool key kept marked) in
          rw e (after ∙ kept, All-started t.1 q.provider q.profile_name key _ other names)
      | inr e ↦ rw e (trigger_all-Passes m key now qs marked)
    ]

swept-marked : (now : ℕ) (r : PooledProfile) → r.status ≡ refreshing → swept now r ≡ r
swept-marked now r h = rw h refl

pub lookup-sweep :
    (p : AuthPool) (key : String) (now : ℕ)
    → IsMarked p key
    → lookup key (check_and_update_cooldowns p now).pool.profiles ≡ lookup key p.profiles
lookup-sweep p key now (r, e, s) =
    (sweep_exact p now).0 key
    ∙ ap (Option.map (swept now)) e
    ∙ ap some (swept-marked now r s)
    ∙ sym e

check_and_refresh-Passes :
    (m : Monitor) (key : String) (now : ℕ)
    → IsMarked m.pool key
    → Passes m key (check_and_refresh m now)
unfolding check_and_refresh
check_and_refresh-Passes m key now marked =
    let swept_pool = (check_and_update_cooldowns m.pool now).pool in
    let kept = lookup-sweep m.pool key now marked in
    let (after, names) =
      trigger_all-Passes (record m { pool = swept_pool }) key now
        (get_profiles_needing_refresh swept_pool "" now)
        (IsMarked-same m.pool swept_pool key kept marked) in
    (after ∙ kept, names)

-- Rounds of the loop at given times, with every goroutine that they start.
unfoldable pub rounds : Monitor → List ℕ → Monitor × List (String × String)
rounds m [] = (m, [])
rounds m (now ∷ times) =
    let (m', started) = check_and_refresh m now in
    let (m'', more) = rounds m' times in (m'', started ++ more)

All-append :
    (key : String) (xs ys : List (String × String))
    → All (λ n. str_eq (profile_key n.0 n.1) key ≡ false) xs
    → All (λ n. str_eq (profile_key n.0 n.1) key ≡ false) ys
    → All (λ n. str_eq (profile_key n.0 n.1) key ≡ false) (xs ++ ys)
All-append key [] ys hx hy = hy
All-append key (x ∷ xs) ys hx hy = (hx.0, All-append key xs ys hx.1 hy)

rounds-Passes :
    (m : Monitor) (key : String) (times : List ℕ)
    → IsMarked m.pool key
    → Passes m key (rounds m times)
unfolding rounds
rounds-Passes m key [] marked = (refl, tt)
rounds-Passes m key (now ∷ times) marked =
    let r = check_and_refresh m now in
    let (kept, names) = check_and_refresh-Passes m key now marked in
    let (after, more) =
      rounds-Passes r.0 key times (IsMarked-same m.pool r.0.pool key kept marked) in
    (after ∙ kept, All-append key r.1 (rounds r.0 times).1 names more)

-- A refresh that fails while the profile has fewer errors than the limit allows leaves the profile
-- in the refreshing state with the error counted; and after any number of rounds of the monitor, at
-- whatever times, it is still in that state with that count, and no round has started another
-- refresh of it.
pub failed_refresh_sticks :
    (m : Monitor) (provider name message : String) (begun now later : ℕ) (times : List ℕ)
    (q : PooledProfile)
    → lookup (profile_key provider name) m.pool.profiles ≡ some q
    → suc q.error_count < m.pool.max_retries
    → let key = profile_key provider name in
      let r = rounds (do_refresh m provider name (refused message) begun now later) times in
      ((s : PooledProfile) × (lookup key r.0.pool.profiles ≡ some s)
        × (s.status ≡ refreshing)
        × (s.error_count ≡ suc q.error_count))
      × All (λ n. str_eq (profile_key n.0 n.1) key ≡ false) r.1
failed_refresh_sticks m provider name message begun now later times q e h =
    let key = profile_key provider name in
    let s =
      with_error m.pool.max_retries (with_status q refreshing begun) (failure m message) now in
    let found = lookup-do_refresh_failed m provider name message begun now later q e in
    let status = failed_status m.pool.max_retries q (failure m message) begun now h in
    let (kept, names) =
      rounds-Passes (do_refresh m provider name (refused message) begun now later) key times
        (s, found, status) in
    (
      (s, kept ∙ found, status, failed_count m.pool.max_retries q (failure m message) begun now),
      names,
    )
