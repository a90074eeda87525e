-- ===== src/Authpool/Status.antt =====
-- internal/authpool/status.go: the states of a pooled profile and the questions asked of one.
-- A `time.Time` is a number of nanoseconds, 0 for the zero time; a duration is a number too, so a
-- negative duration is not modelled. `time.Now()` is an argument of each function that reads it.
use caam_account_switching.Prelude.{
  ℕ, ◌+◌, ◌-◌, String, Bool, true, false, ◌||◌, ltb, ◌==◌, if◌then◌else◌,
}
use caam_account_switching.Prelude.Int.{ℤ}

pub data PoolStatus : Type 0 where
  unknown ready refreshing expired cooldown error : PoolStatus

-- Go's `==` on the enumeration.
unfoldable pub same_status : PoolStatus → PoolStatus → Bool
same_status unknown unknown = true
same_status ready ready = true
same_status refreshing refreshing = true
same_status expired expired = true
same_status cooldown cooldown = true
same_status error error = true
same_status _ _ = false

unfoldable pub to_string : PoolStatus → String
to_string ready = "ready"
to_string refreshing = "refreshing"
to_string expired = "expired"
to_string cooldown = "cooldown"
to_string error = "error"
to_string unknown = "unknown"

unfoldable pub is_usable : PoolStatus → Bool
unfolding same_status
is_usable s = same_status s ready

unfoldable pub needs_refresh : PoolStatus → Bool
unfolding same_status
needs_refresh s = same_status s expired || same_status s error

pub record PooledProfile : Type 0 where
  pub provider : String
  pub profile_name : String
  pub status : PoolStatus
  pub token_expiry : ℕ
  pub last_refresh : ℕ
  pub last_check : ℕ
  pub last_used : ℕ
  pub cooldown_until : ℕ
  pub error_count : ℕ
  pub error_message : String
  pub priority : ℤ

abbrev pub is_zero : ℕ → Bool
is_zero t = t == 0

unfoldable pub is_expired : PooledProfile → ℕ → Bool
is_expired p now = if is_zero p.token_expiry then false else ltb p.token_expiry now

-- `time.Until(expiry) < threshold`, as an order of instants
unfoldable pub is_expiring_soon : PooledProfile → ℕ → ℕ → Bool
is_expiring_soon p threshold now =
    if is_zero p.token_expiry then false else ltb p.token_expiry (now + threshold)

unfoldable pub is_in_cooldown : PooledProfile → ℕ → Bool
is_in_cooldown p now = if is_zero p.cooldown_until then false else ltb now p.cooldown_until

-- A negative difference is cut off at 0 by the source, and by `-`.
unfoldable pub time_until_expiry : PooledProfile → ℕ → ℕ
time_until_expiry p now = if is_zero p.token_expiry then 0 else p.token_expiry - now

unfoldable pub time_in_cooldown : PooledProfile → ℕ → ℕ
time_in_cooldown p now = if is_zero p.cooldown_until then 0 else p.cooldown_until - now
