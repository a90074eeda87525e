-- ===== src/Authpool/Pool/Operations.antt =====
-- The writes of internal/authpool/pool.go as one type, so that a history of a pool is a list.
use caam_account_switching.Prelude.{ℕ, String, List, [], ◌∷◌}
use caam_account_switching.Authpool.Status.{PoolStatus}
use caam_account_switching.Authpool.Pool.{
  AuthPool, Notice, Outcome, add_profile, remove_profile, set_status, try_mark_refreshing,
  set_error, set_cooldown, clear_cooldown, update_token_expiry, mark_refreshed, mark_used,
  check_and_update_cooldowns,
}

-- What an operation on one profile does; the times are those that it reads.
pub data Write : Type 0 where
  adds : ℕ → Write
  removes : Write
  sets_status : PoolStatus → ℕ → Write
  tries_mark : ℕ → Write
  sets_error : String → ℕ → Write
  sets_cooldown : ℕ → ℕ → ℕ → Write
  clears_cooldown : Write
  updates_expiry : ℕ → ℕ → ℕ → Write
  marks_refreshed : ℕ → ℕ → ℕ → Write
  marks_used : ℕ → Write

abbrev pub Effect : Type 0
Effect = AuthPool × List Notice

abbrev pub effect {ℓ} : {A : Type ℓ} → Outcome A → Effect
effect o = (o.pool, o.notices)

unfoldable pub write : AuthPool → String → String → Write → Effect
write p provider name (adds now) = effect (add_profile p provider name now)
write p provider name removes = (remove_profile p provider name, [])
write p provider name (sets_status s now) = effect (set_status p provider name s now)
write p provider name (tries_mark now) = effect (try_mark_refreshing p provider name now)
write p provider name (sets_error message now) = (set_error p provider name message now, [])
write p provider name (sets_cooldown d now later) =
    effect (set_cooldown p provider name d now later)
write p provider name clears_cooldown = effect (clear_cooldown p provider name)
write p provider name (updates_expiry e now later) =
    effect (update_token_expiry p provider name e now later)
write p provider name (marks_refreshed e now later) =
    effect (mark_refreshed p provider name e now later)
write p provider name (marks_used now) = (mark_used p provider name now, [])

pub data Operation : Type 0 where
  on : String → String → Write → Operation
  sweep : ℕ → Operation

unfoldable pub step : AuthPool → Operation → Effect
step p (on provider name w) = write p provider name w
step p (sweep now) = effect (check_and_update_cooldowns p now)

unfoldable pub run : AuthPool → List Operation → AuthPool
run p [] = p
run p (o ∷ os) = run (step p o).0 os
