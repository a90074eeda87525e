-- ===== src/Authpool/Pool.antt =====
-- internal/authpool/pool.go: the pool and the operations that write it.
-- An operation returns the new pool, the calls of `onStateChange` that it makes, and its result.
-- The mutex makes each operation atomic; the callbacks run after it, in the order given here.
pub mod Queries
pub mod Operations
pub mod Frame
pub mod Sweep
pub mod Invariant
pub mod Notices
pub mod Errors
pub mod Selection
pub mod Summary
pub mod Vault
use Prim.Native.String.{◌++◌ as append}
use caam_account_switching.Prelude.{
  ℕ, suc, ◌+◌, ◌*◌, String, Bool, true, false, not, ◌&&◌, Option, none, some, List, [], ◌∷◌, ltb,
  leb, ◌==◌, if◌then◌else◌,
}
use caam_account_switching.Prelude.Int.{pos}
use caam_account_switching.Prelude.Table.{Table, lookup, put, remove}
use caam_account_switching.Authpool.Status.{
  PoolStatus, unknown, ready, refreshing, expired, cooldown, error, same_status, PooledProfile,
  is_zero, is_expired,
}

-- `has_callback` says whether `onStateChange` is set.
pub record AuthPool : Type 0 where
  pub profiles : Table PooledProfile
  pub refresh_threshold : ℕ
  pub cooldown_duration : ℕ
  pub max_retries : ℕ
  pub has_callback : Bool

-- One call `onStateChange(profile, oldStatus, newStatus)`.
pub record Notice : Type 0 where
  pub profile : PooledProfile
  pub old_status : PoolStatus
  pub new_status : PoolStatus

pub record Outcome {ℓ} (A : Type ℓ) : Type ℓ where
  pub pool : AuthPool
  pub notices : List Notice
  pub result : A

abbrev pub minute : ℕ
minute = 60 * 1000000000

-- `with_on_state_change` says whether the callback that it is given is not nil. `WithVault` sets a
-- dependency that the model passes to `load_from_vault`.
pub data PoolOption : Type 0 where
  with_refresh_threshold with_cooldown_duration with_max_retries : ℕ → PoolOption
  with_on_state_change : Bool → PoolOption
  with_vault : PoolOption

unfoldable pub apply_option : AuthPool → PoolOption → AuthPool
apply_option p (with_refresh_threshold d) = record p { refresh_threshold = d }
apply_option p (with_cooldown_duration d) = record p { cooldown_duration = d }
apply_option p (with_max_retries n) = record p { max_retries = n }
apply_option p (with_on_state_change b) = record p { has_callback = b }
apply_option p with_vault = p

unfoldable pub apply_options : AuthPool → List PoolOption → AuthPool
unfolding apply_option
apply_options p [] = p
apply_options p (o ∷ os) = apply_options (apply_option p o) os

unfoldable pub new_auth_pool : List PoolOption → AuthPool
unfolding apply_options
new_auth_pool opts =
    apply_options
      (record {
        profiles = [];
        refresh_threshold = 5 * minute;
        cooldown_duration = 5 * minute;
        max_retries = 3;
        has_callback = false;
      })
      opts

unfoldable pub profile_key : String → String → String
profile_key provider name = append provider (append ":" name)

-- The operations below write through the map's pointer: `put` of the changed record.
abbrev pub store : AuthPool → String → PooledProfile → AuthPool
store p key q = record p { profiles = put key q p.profiles }

-- `if p.onStateChange != nil && old != new` with the call that it guards
unfoldable pub notify : AuthPool → PooledProfile → PoolStatus → PoolStatus → List Notice
notify p clone old new =
    if p.has_callback && not (same_status old new)
    then record { profile = clone; old_status = old; new_status = new } ∷ []
    else []

-- An early return that changes nothing.
abbrev pub unchanged {ℓ} : {A : Type ℓ} → AuthPool → A → Outcome A
unchanged p a = record { pool = p; notices = []; result = a }

unfoldable pub fresh_profile : String → String → ℕ → PooledProfile
fresh_profile provider name now = record {
  provider = provider;
  profile_name = name;
  status = unknown;
  token_expiry = 0;
  last_refresh = 0;
  last_check = now;
  last_used = 0;
  cooldown_until = 0;
  error_count = 0;
  error_message = "";
  priority = pos 0;
}

unfoldable pub add_profile : AuthPool → String → String → ℕ → Outcome PooledProfile
unfolding fresh_profile
add_profile p provider name now =
    let key = profile_key provider name in
    elim (lookup key p.profiles) [
      | some existing ↦ unchanged p existing
      | none ↦
          unchanged (store p key (fresh_profile provider name now))
            (fresh_profile provider name now)
    ]

unfoldable pub remove_profile : AuthPool → String → String → AuthPool
remove_profile p provider name = record p {
  profiles = remove (profile_key provider name) p.profiles;
}

-- What `SetStatus` writes into the profile.
unfoldable pub with_status : PooledProfile → PoolStatus → ℕ → PooledProfile
unfolding same_status
with_status q status now =
    let q' = record q { status = status; last_check = now } in
    if same_status status ready then record q' { error_count = 0; error_message = "" } else q'

-- The result is false where the source returns the error "profile not found in pool".
unfoldable pub set_status : AuthPool → String → String → PoolStatus → ℕ → Outcome Bool
unfolding with_status notify
set_status p provider name status now =
    let key = profile_key provider name in
    elim (lookup key p.profiles) [
      | none ↦ unchanged p false
      | some q ↦
          let q' = with_status q status now in
          record { pool = store p key q'; notices = notify p q' q.status status; result = true }
    ]

unfoldable pub try_mark_refreshing : AuthPool → String → String → ℕ → Outcome Bool
unfolding same_status
try_mark_refreshing p provider name now =
    let key = profile_key provider name in
    elim (lookup key p.profiles) [
      | none ↦ unchanged p false
      | some q ↦
          if same_status q.status refreshing
          then unchanged p false
          else unchanged (store p key (record q { status = refreshing; last_check = now })) true
    ]

-- What `SetError` writes into the profile.
unfoldable pub with_error : ℕ → PooledProfile → String → ℕ → PooledProfile
with_error max_retries q message now = record q {
  error_count = suc q.error_count;
  error_message = message;
  last_check = now;
  status = if leb max_retries (suc q.error_count) then error else q.status;
}

unfoldable pub set_error : AuthPool → String → String → String → ℕ → AuthPool
unfolding with_error
set_error p provider name message now =
    let key = profile_key provider name in
    elim (lookup key p.profiles) [
      | none ↦ p
      | some q ↦ store p key (with_error p.max_retries q message now)
    ]

-- The clock is read twice: `now` sets the end of the cooldown, `later` the time of the check.
unfoldable pub set_cooldown : AuthPool → String → String → ℕ → ℕ → ℕ → Outcome (Unit {0})
unfolding notify
set_cooldown p provider name duration now later =
    let key = profile_key provider name in
    let span = if duration == 0 then p.cooldown_duration else duration in
    elim (lookup key p.profiles) [
      | none ↦ unchanged p tt
      | some q ↦
          let q' = record q {
            status = cooldown;
            cooldown_until = now + span;
            last_check = later;
          } in
          record { pool = store p key q'; notices = notify p q' q.status cooldown; result = tt }
    ]

unfoldable pub clear_cooldown : AuthPool → String → String → Outcome (Unit {0})
unfolding notify same_status
clear_cooldown p provider name =
    let key = profile_key provider name in
    elim (lookup key p.profiles) [
      | none ↦ unchanged p tt
      | some q ↦
          let q' = record q { status = ready; cooldown_until = 0 } in
          if same_status q.status cooldown
          then record { pool = store p key q'; notices = notify p q' cooldown ready; result = tt }
          else unchanged p tt
    ]

-- What `UpdateTokenExpiry` makes of the status, from the test of the new expiry.
unfoldable pub status_after_expiry : PoolStatus → Bool → PoolStatus
unfolding same_status
status_after_expiry s is_past =
    if is_past then expired else if same_status s expired then ready else s

-- `now` is the time of the check, `later` the clock that `IsExpired` reads.
unfoldable pub update_token_expiry : AuthPool → String → String → ℕ → ℕ → ℕ → Outcome (Unit {0})
unfolding notify is_expired status_after_expiry
update_token_expiry p provider name expiry now later =
    let key = profile_key provider name in
    elim (lookup key p.profiles) [
      | none ↦ unchanged p tt
      | some q ↦
          let q₁ = record q { token_expiry = expiry; last_check = now } in
          let q₂ = record q₁ { status = status_after_expiry q₁.status (is_expired q₁ later) } in
          record { pool = store p key q₂; notices = notify p q₂ q.status q₂.status; result = tt }
    ]

unfoldable pub mark_refreshed : AuthPool → String → String → ℕ → ℕ → ℕ → Outcome (Unit {0})
unfolding notify
mark_refreshed p provider name new_expiry now later =
    let key = profile_key provider name in
    elim (lookup key p.profiles) [
      | none ↦ unchanged p tt
      | some q ↦
          let q' = record q {
            status = ready;
            token_expiry = new_expiry;
            last_refresh = now;
            last_check = later;
            error_count = 0;
            error_message = "";
          } in
          record { pool = store p key q'; notices = notify p q' q.status ready; result = tt }
    ]

unfoldable pub mark_used : AuthPool → String → String → ℕ → AuthPool
mark_used p provider name now =
    let key = profile_key provider name in
    elim (lookup key p.profiles) [ none ↦ p | some q ↦ store p key (record q { last_used = now }) ]

-- The test of the loop of `CheckAndUpdateCooldowns`.
unfoldable pub cooldown_over : ℕ → PooledProfile → Bool
unfolding same_status
cooldown_over now q =
    same_status q.status cooldown && not (is_zero q.cooldown_until) && ltb q.cooldown_until now

abbrev pub cleared_profile : PooledProfile → PooledProfile
cleared_profile q = record q { status = ready; cooldown_until = 0 }

-- The loop over the map: the changed map, the profiles for the callback, the count.
unfoldable pub clear_expired :
    Bool → ℕ → Table PooledProfile → Table PooledProfile × List Notice × ℕ
unfolding cooldown_over
clear_expired callback now [] = ([], [], 0)
clear_expired callback now ((k, q) ∷ m) =
    let rest = clear_expired callback now m in
    let notice : Notice = record {
      profile = cleared_profile q;
      old_status = cooldown;
      new_status = ready;
    } in
    if cooldown_over now q
    then ((k, cleared_profile q) ∷ rest.0, if callback then notice ∷ rest.1 else rest.1, suc rest.2)
    else ((k, q) ∷ rest.0, rest.1, rest.2)

unfoldable pub check_and_update_cooldowns : AuthPool → ℕ → Outcome ℕ
unfolding clear_expired
check_and_update_cooldowns p now =
    let r = clear_expired p.has_callback now p.profiles in
    record { pool = record p { profiles = r.0 }; notices = r.1; result = r.2 }
