-- ===== src/Authpool/Monitor/Failure.antt =====
-- internal/authpool/monitor.go: what a failed refresh writes, and profiles in the refreshing state.
use caam_account_switching.Prelude.{
  ℕ, suc, ◌<◌, String, false, some, [], ◌≡◌, ◌≢◌, refl, ap, ◌∙◌, arith, if◌then◌else◌, Bool-cases,
  inl, inr,
}
use caam_account_switching.Prelude.Table.{lookup, lookup-put_self}
use caam_account_switching.Authpool.Status.{PoolStatus, refreshing, same_status, PooledProfile}
use caam_account_switching.Authpool.Pool.{
  AuthPool, profile_key, store, set_status, with_status, try_mark_refreshing, set_error, with_error,
}
use caam_account_switching.Authpool.Pool.Operations.{sets_status, tries_mark, write}
use caam_account_switching.Authpool.Pool.Errors.{lookup-set_error}
use caam_account_switching.Authpool.Pool.Frame.{write-Frames}
use caam_account_switching.Authpool.Monitor.{Monitor, refused, do_refresh, finish_refresh, revert}

-- The profile under a key is there and in the refreshing state.
abbrev pub IsMarked : AuthPool → String → Type 0
IsMarked p key = (r : PooledProfile) × (lookup key p.profiles ≡ some r) × (r.status ≡ refreshing)

-- The message of a failed refresh.
abbrev pub failure : Monitor → String → String
failure m message = if m.has_refresher then message else "no refresher configured"

finish_refresh-refused :
    (m : Monitor) (provider name message : String) (now later : ℕ)
    → finish_refresh m provider name (refused message) now later
      ≡ set_error m.pool provider name (failure m message) now
unfolding finish_refresh
finish_refresh-refused m provider name message now later = ground arith

do_refresh-refused :
    (m : Monitor) (provider name message : String) (begun now later : ℕ) (q : PooledProfile)
    → lookup (profile_key provider name) m.pool.profiles ≡ some q
    → (do_refresh m provider name (refused message) begun now later).pool
      ≡ set_error
          (store m.pool (profile_key provider name) (with_status q refreshing begun))
          provider
          name
          (failure m message)
          now
unfolding do_refresh set_status
do_refresh-refused m provider name message begun now later q e =
    rw (e, do_refresh, set_status)
      (finish_refresh-refused
        (record m {
          pool = store m.pool (profile_key provider name) (with_status q refreshing begun);
        })
        provider name message now later)

-- One failed refresh below the limit.
pub lookup-do_refresh_failed :
    (m : Monitor) (provider name message : String) (begun now later : ℕ) (q : PooledProfile)
    → lookup (profile_key provider name) m.pool.profiles ≡ some q
    → lookup
        (profile_key provider name)
        (do_refresh m provider name (refused message) begun now later).pool.profiles
      ≡ some
          (with_error m.pool.max_retries (with_status q refreshing begun) (failure m message) now)
lookup-do_refresh_failed m provider name message begun now later q e =
    ap (λ (p : AuthPool). lookup (profile_key provider name) p.profiles)
      (do_refresh-refused m provider name message begun now later q e)
    ∙ lookup-set_error _ provider name (failure m message) now (with_status q refreshing begun)
        (lookup-put_self _ _ m.pool.profiles)

pub failed_status :
    (max_retries : ℕ) (q : PooledProfile) (message : String) (begun now : ℕ)
    → suc q.error_count < max_retries
    → (with_error max_retries (with_status q refreshing begun) message now).status ≡ refreshing
unfolding with_error with_status
failed_status max_retries q message begun now h = ground arith

pub failed_count :
    (max_retries : ℕ) (q : PooledProfile) (message : String) (begun now : ℕ)
    → (with_error max_retries (with_status q refreshing begun) message now).error_count
      ≡ suc q.error_count
unfolding with_error with_status
failed_count max_retries q message begun now = refl

-- A profile that is being refreshed is not marked again, nor changed by an attempt.
pub try_mark-marked :
    (p : AuthPool) (provider name : String) (now : ℕ)
    → IsMarked p (profile_key provider name)
    → try_mark_refreshing p provider name now ≡ record { pool = p; notices = []; result = false }
unfolding try_mark_refreshing
try_mark-marked p provider name now (r, e, s) = rw (e, try_mark_refreshing) (rw s refl)

pub lookup-try_mark :
    (p : AuthPool) (provider name key : String) (now : ℕ)
    → key ≢ profile_key provider name
    → lookup key (try_mark_refreshing p provider name now).pool.profiles ≡ lookup key p.profiles
lookup-try_mark p provider name key now h =
    unfold write in (write-Frames p provider name (tries_mark now)).others key h

pub lookup-revert :
    (p : AuthPool) (provider name key : String) (s : PoolStatus) (now : ℕ)
    → key ≢ profile_key provider name
    → lookup key (revert p provider name s now).profiles ≡ lookup key p.profiles
unfolding revert
lookup-revert p provider name key s now h = elim (Bool-cases (same_status s refreshing)) [
  | inl e ↦ rw (e, revert) refl
  | inr e ↦
      rw (e, revert)
        (unfold write in (write-Frames p provider name (sets_status s now)).others key h)
]
