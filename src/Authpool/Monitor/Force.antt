-- ===== src/Authpool/Monitor/Force.antt =====
-- What `ForceRefresh` does and reports.
use caam_account_switching.Prelude.{
  ℕ, suc, ◌<◌, String, true, false, some, [], ◌≡◌, refl, ap, ◌∙◌, eq_refl, arith,
}
use caam_account_switching.Prelude.Table.{lookup, put, lookup-put, lookup-put_self}
use caam_account_switching.Authpool.Status.{ready, refreshing, error, same_status, PooledProfile}
use caam_account_switching.Authpool.Pool.{
  AuthPool, profile_key, store, set_status, with_status, try_mark_refreshing, mark_refreshed,
}
use caam_account_switching.Authpool.Pool.Queries.{get_profile}
use caam_account_switching.Authpool.Monitor.{
  Monitor, Answer, renewed, refused, do_refresh, finish_refresh, has_slot, done, force_refresh,
  forced_result,
}
use caam_account_switching.Authpool.Monitor.Failure.{
  lookup-do_refresh_failed, failed_status, failed_count, failure,
}

-- The profile once it is marked.
abbrev marked_profile : PooledProfile → ℕ → PooledProfile
marked_profile q now = record q { status = refreshing; last_check = now }

-- What `MarkRefreshed` makes of a profile.
abbrev pub renewed_profile : PooledProfile → ℕ → ℕ → ℕ → PooledProfile
renewed_profile q expiry now later = record q {
  status = ready;
  token_expiry = expiry;
  last_refresh = now;
  last_check = later;
  error_count = 0;
  error_message = "";
}

module _ (m : Monitor) (provider name : String) (q : PooledProfile)
    (e : lookup (profile_key provider name) m.pool.profiles ≡ some q)
    (free : same_status q.status refreshing ≡ false) where
  abbrev marked : ℕ → AuthPool
  marked now = store m.pool (profile_key provider name) (marked_profile q now)

  try_mark-free :
      (now : ℕ)
      → try_mark_refreshing m.pool provider name now
        ≡ record { pool = marked now; notices = []; result = true }
  unfolding try_mark_refreshing
  try_mark-free now = rw (e, try_mark_refreshing) (rw free refl)

  -- With a slot and a monitor that is not stopping, the call does the whole refresh.
  force_refresh-works :
      (answer : Answer) (marking begun now later : ℕ)
      → has_slot m ≡ true
      → m.stopping ≡ false
      → force_refresh m false provider name answer marking begun now later ≡ (
        do_refresh (record m { pool = marked marking }) provider name answer begun now later,
        forced_result (
            get_profile
              (do_refresh
                (record m { pool = marked marking })
                provider
                name
                answer
                begun
                now
                later).pool
              provider
              name),
      )
  unfolding force_refresh
  force_refresh-works answer marking begun now later slot on =
      simp (try_mark-free marking, slot, on)

  lookup-marked :
      (now : ℕ)
      → lookup (profile_key provider name) (marked now).profiles ≡ some (marked_profile q now)
  lookup-marked now = lookup-put_self _ _ m.pool.profiles

-- A successful refresh by `doRefresh`, from its first write on.
lookup-do_refresh-renewed :
    (m : Monitor) (provider name : String) (expiry begun now later : ℕ) (q : PooledProfile)
    → m.has_refresher ≡ true
    → lookup (profile_key provider name) m.pool.profiles ≡ some q
    → lookup
        (profile_key provider name)
        (do_refresh m provider name (renewed expiry) begun now later).pool.profiles
      ≡ some (renewed_profile q expiry now later)
unfolding do_refresh set_status finish_refresh mark_refreshed with_status
lookup-do_refresh-renewed m provider name expiry begun now later q r e = ground (
  arith,
  lookup-put (profile_key provider name) (profile_key provider name)
      (with_status q refreshing begun) m.pool.profiles,
  eq_refl (profile_key provider name),
  lookup-put_self (profile_key provider name) (renewed_profile q expiry now later)
      (put (profile_key provider name) (with_status q refreshing begun) m.pool.profiles),
)

forced_result-found :
    (p : AuthPool) (provider name : String) (q : PooledProfile)
    → lookup (profile_key provider name) p.profiles ≡ some q
    → same_status q.status error ≡ false
    → forced_result (get_profile p provider name) ≡ done
unfolding forced_result get_profile
forced_result-found p provider name q e h = rw e (rw h refl)

module _ (m : Monitor) (provider name : String) (marking begun now later : ℕ) (q : PooledProfile)
    (e : lookup (profile_key provider name) m.pool.profiles ≡ some q)
    (free : same_status q.status refreshing ≡ false) (slot : has_slot m ≡ true)
    (on : m.stopping ≡ false) where
  -- Where a slot is free and the monitor is not stopping, a forced refresh of a known profile that
  -- is not being refreshed, and that the refresher renews, returns no error and leaves the profile
  -- ready, with the new expiry, the times of the refresh and no errors.
  pub force_refresh_renews :
      (expiry : ℕ)
      → m.has_refresher ≡ true
      → let r = force_refresh m false provider name (renewed expiry) marking begun now later in
        (r.1 ≡ done)
        × (lookup (profile_key provider name) r.0.pool.profiles
            ≡ some (renewed_profile q expiry now later))
  unfolding same_status
  force_refresh_renews expiry refresher =
      let w =
        force_refresh-works m provider name q e free (renewed expiry) marking begun now later slot
          on in
      let found =
        lookup-do_refresh-renewed (record m { pool = marked m provider name q e free marking })
          provider name expiry begun now later (marked_profile q marking) refresher
          (lookup-marked m provider name q e free marking) in
      (
        ap (λ r. r.1) w
            ∙ forced_result-found _ provider name (renewed_profile q expiry now later) found refl,
        ap (λ r. lookup (profile_key provider name) r.0.pool.profiles) w ∙ found,
      )

  -- In the same situation, but where the refresher fails and the profile stays below the limit of
  -- errors, the forced refresh returns no error all the same, and leaves the profile in the
  -- refreshing state.
  pub force_refresh_hides_failure :
      (message : String)
      → suc q.error_count < m.pool.max_retries
      → let r = force_refresh m false provider name (refused message) marking begun now later in
        (r.1 ≡ done)
        × ((s : PooledProfile) × (lookup (profile_key provider name) r.0.pool.profiles ≡ some s)
            × (s.status ≡ refreshing)
            × (s.error_count ≡ suc q.error_count))
  unfolding same_status
  force_refresh_hides_failure message h =
      let w =
        force_refresh-works m provider name q e free (refused message) marking begun now later slot
          on in
      let m' : Monitor = record m { pool = marked m provider name q e free marking } in
      let found =
        lookup-do_refresh_failed m' provider name message begun now later (marked_profile q marking)
          (lookup-marked m provider name q e free marking) in
      let status =
        failed_status m.pool.max_retries (marked_profile q marking) (failure m' message) begun now
          h in
      let count =
        failed_count m.pool.max_retries (marked_profile q marking) (failure m' message) begun now in
      (
        ap (λ r. r.1) w ∙ forced_result-found _ provider name _ found (rw status refl),
        (
          _,
          ap (λ r. lookup (profile_key provider name) r.0.pool.profiles) w ∙ found,
          status,
          count,
        ),
      )
