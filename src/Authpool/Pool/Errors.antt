-- ===== src/Authpool/Pool/Errors.antt =====
-- Consecutive errors of a profile, and what ends them.
use caam_account_switching.Prelude.{
  ℕ, zero, suc, ◌+◌, String, some, List, [], ◌∷◌, ◌≡◌, refl, ap, ◌∙◌, arith, leb, length,
  if◌then◌else◌,
}
use caam_account_switching.Prelude.Table.{lookup, lookup-put_self}
use caam_account_switching.Authpool.Status.{PoolStatus, error, PooledProfile}
use caam_account_switching.Authpool.Pool.{AuthPool, profile_key, set_error, with_error}

-- A row of failures of one profile, each with its message and time.
unfoldable pub set_errors : AuthPool → String → String → List (String × ℕ) → AuthPool
set_errors p provider name [] = p
set_errors p provider name ((message, now) ∷ rest) =
    set_errors (set_error p provider name message now) provider name rest

-- What is known of a profile after a row of `n` failures.
abbrev pub status_after_errors : ℕ → PooledProfile → ℕ → PoolStatus
status_after_errors max_retries q zero = q.status
status_after_errors max_retries q (suc n) =
    if leb max_retries (suc n + q.error_count) then error else q.status

set_error-retries :
    (p : AuthPool) (provider name message : String) (now : ℕ)
    → (set_error p provider name message now).max_retries ≡ p.max_retries
unfolding set_error
set_error-retries p provider name message now = ground arith

pub lookup-set_error :
    (p : AuthPool) (provider name message : String) (now : ℕ) (q : PooledProfile)
    → lookup (profile_key provider name) p.profiles ≡ some q
    → lookup (profile_key provider name) (set_error p provider name message now).profiles
      ≡ some (with_error p.max_retries q message now)
unfolding set_error
lookup-set_error p provider name message now q e =
    rw (e, set_error) (lookup-put_self _ _ p.profiles)

-- The status after one more failure, counted from the first.
status_step :
    (m : ℕ) (q : PooledProfile) (message : String) (now n : ℕ)
    → status_after_errors m (with_error m q message now) n ≡ status_after_errors m q (suc n)
unfolding with_error
status_step m q message now zero = ground arith
status_step m q message now (suc n) = ground arith

count_step :
    (m : ℕ) (q : PooledProfile) (message : String) (now : ℕ)
    → (with_error m q message now).error_count ≡ suc q.error_count
unfolding with_error
count_step m q message now = refl

-- Failures in a row are counted on top of those before, and the profile goes into the error state
-- exactly when the count reaches the pool's limit; until then its status stays what it was.
pub errors_exact :
    (p : AuthPool) (provider name : String) (q : PooledProfile) (errors : List (String × ℕ))
    → lookup (profile_key provider name) p.profiles ≡ some q
    → (r : PooledProfile) × (lookup
          (profile_key provider name)
          (set_errors p provider name errors).profiles
        ≡ some r)
      × (r.error_count ≡ length errors + q.error_count)
      × (r.status ≡ status_after_errors p.max_retries q (length errors))
unfolding set_errors
errors_exact p provider name q [] e = (q, e, omega arith, refl)
errors_exact p provider name q ((message, now) ∷ rest) e =
    let (r, found, counted, status) =
      errors_exact (set_error p provider name message now) provider name
        (with_error p.max_retries q message now) rest
        (lookup-set_error p provider name message now q e) in
    (
      r,
      found,
      omega (arith, counted, count_step p.max_retries q message now),
      status
          ∙ ap (λ m. status_after_errors m (with_error p.max_retries q message now) (length rest))
              (set_error-retries p provider name message now)
          ∙ status_step p.max_retries q message now (length rest),
    )
