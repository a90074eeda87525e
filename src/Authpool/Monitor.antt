-- ===== src/Authpool/Monitor.antt =====
-- internal/authpool/monitor.go: the background monitor, which refreshes tokens.
-- The semaphore is its number of taken slots, the wait group its counter. A goroutine that was
-- started is a pair of names here; Monitor/Threads.antt interleaves the goroutines.
-- The callbacks OnRefreshStart and OnRefreshComplete do not touch the pool and are left out.
pub mod Failure
pub mod Stuck
pub mod Force
pub mod Threads
use caam_account_switching.Prelude.{
  ℕ, suc, ◌-◌, ◌*◌, String, Bool, true, false, not, ◌&&◌, ◌||◌, Option, none, some, List, [], ◌∷◌,
  ltb, ◌==◌, if◌then◌else◌,
}
use caam_account_switching.Authpool.Status.{
  PoolStatus, refreshing, expired, error, same_status, PooledProfile, is_expiring_soon,
}
use caam_account_switching.Authpool.Pool.{
  AuthPool, minute, set_status, try_mark_refreshing, set_error, mark_refreshed,
  check_and_update_cooldowns,
}
use caam_account_switching.Authpool.Pool.Queries.{get_profiles_needing_refresh, get_profile}

pub record MonitorConfig : Type 0 where
  pub check_interval : ℕ
  pub refresh_threshold : ℕ
  pub max_concurrent : ℕ

pub record Monitor : Type 0 where
  pub pool : AuthPool
  pub config : MonitorConfig
  pub has_refresher : Bool
  pub running : Bool
  pub stopping : Bool
  pub slots : ℕ
  pub waiting : ℕ

unfoldable pub default_monitor_config : MonitorConfig
default_monitor_config = record {
  check_interval = minute;
  refresh_threshold = 5 * minute;
  max_concurrent = 3;
}

-- A field that is 0 takes its default.
unfoldable pub new_monitor : AuthPool → Bool → MonitorConfig → Monitor
new_monitor pool has_refresher c = record {
  pool = pool;
  config = record {
    check_interval = if c.check_interval == 0 then minute else c.check_interval;
    refresh_threshold =
        if c.refresh_threshold == 0 then pool.refresh_threshold else c.refresh_threshold;
    max_concurrent = if c.max_concurrent == 0 then 3 else c.max_concurrent;
  };
  has_refresher = has_refresher;
  running = false;
  stopping = false;
  slots = 0;
  waiting = 0;
}

-- The result is false where the source returns the error "monitor already running".
unfoldable pub start : Monitor → Monitor × Bool
start m = if m.running then (m, false) else (record m { running = true; stopping = false }, true)

-- `Stop` up to its wait for the wait group; the result says whether it waits.
unfoldable pub stop : Monitor → Monitor × Bool
stop m = if m.running then (record m { stopping = true; running = false }, true) else (m, false)

-- `case m.semaphore <- struct{}{}` can be taken.
unfoldable pub has_slot : Monitor → Bool
has_slot m = ltb m.slots m.config.max_concurrent

unfoldable pub take_slot : Monitor → Monitor
take_slot m = record m { slots = suc m.slots }

unfoldable pub free_slot : Monitor → Monitor
free_slot m = record m { slots = m.slots - 1 }

-- The deferred `refreshWg.Done()` and the release of the slot.
unfoldable pub leave : Monitor → Monitor
leave m = record m { slots = m.slots - 1; waiting = m.waiting - 1 }

-- Undo of the optimistic mark, where the monitor is stopping.
unfoldable pub revert : AuthPool → String → String → PoolStatus → ℕ → AuthPool
revert pool provider profile previous now =
    if same_status previous refreshing
    then pool
    else (set_status pool provider profile previous now).pool

-- The result says whether the goroutine was started. `now` and `later` are the times that
-- `TryMarkRefreshing` and `SetStatus` read.
unfoldable pub trigger_refresh : Monitor → String → String → PoolStatus → ℕ → ℕ → Monitor × Bool
unfolding has_slot take_slot free_slot revert
trigger_refresh m provider profile previous now later =
    let marked = try_mark_refreshing m.pool provider profile now in
    if not (has_slot m)
    then (m, false)
    else if not marked.result
    then (free_slot (take_slot m), false)
    else if m.stopping
    then (
      free_slot
          (record (take_slot m) { pool = revert marked.pool provider profile previous later }),
      false,
    )
    else (record (take_slot m) { pool = marked.pool; waiting = suc m.waiting }, true)

-- The tests of the loop of `checkAndRefresh`.
unfoldable pub wants_refresh : ℕ → ℕ → PooledProfile → Bool
unfolding same_status is_expiring_soon
wants_refresh threshold now q =
    not (same_status q.status refreshing)
    && (is_expiring_soon q threshold now
        || same_status q.status expired
        || same_status q.status error)

unfoldable pub trigger_all : Monitor → ℕ → List PooledProfile → Monitor × List (String × String)
unfolding wants_refresh trigger_refresh
trigger_all m now [] = (m, [])
trigger_all m now (q ∷ rest) =
    let wanted = wants_refresh m.config.refresh_threshold now q in
    let tried = trigger_refresh m q.provider q.profile_name q.status now now in
    let next = if wanted then tried.0 else m in
    let started = wanted && tried.1 in
    let (m', names) = trigger_all next now rest in
    (m', if started then (q.provider, q.profile_name) ∷ names else names)

-- One round of the loop; the second part of the result are the goroutines started, in order.
unfoldable pub check_and_refresh : Monitor → ℕ → Monitor × List (String × String)
unfolding trigger_all
check_and_refresh m now =
    let m' = record m { pool = (check_and_update_cooldowns m.pool now).pool } in
    trigger_all m' now (get_profiles_needing_refresh m'.pool "" now)

-- What `refresher.Refresh` answers: the new expiry or an error.
pub data Answer : Type 0 where
  renewed : ℕ → Answer
  refused : String → Answer

-- `doRefresh` from its answer on; without a refresher it records an error of its own.
unfoldable pub finish_refresh : Monitor → String → String → Answer → ℕ → ℕ → AuthPool
finish_refresh m provider profile answer now later =
    if m.has_refresher
    then elim answer [
      | renewed expiry ↦ (mark_refreshed m.pool provider profile expiry now later).pool
      | refused message ↦ set_error m.pool provider profile message now
    ]
    else set_error m.pool provider profile "no refresher configured" now

unfoldable pub do_refresh : Monitor → String → String → Answer → ℕ → ℕ → ℕ → Monitor
unfolding finish_refresh
do_refresh m provider profile answer begun now later =
    let marked = set_status m.pool provider profile refreshing begun in
    let m' = record m { pool = marked.pool } in
    if marked.result
    then record m' { pool = finish_refresh m' provider profile answer now later }
    else m

-- What `ForceRefresh` returns; `done` is its nil error, `waits` a call that waits for a slot.
pub data Forced : Type 0 where
  done waits cancelled monitor_stopping not_found already_refreshing : Forced
  failed : String → Forced

-- The check of the result after `doRefresh`.
unfoldable pub forced_result : Option PooledProfile → Forced
unfolding same_status
forced_result none = done
forced_result (some q) = if same_status q.status error then failed q.error_message else done

-- Why `TryMarkRefreshing` said no.
unfoldable pub unmarked_result : Option PooledProfile → Forced
unmarked_result none = not_found
unmarked_result (some q) = already_refreshing

-- `is_cancelled` says that the context ends before a slot is taken.
unfoldable pub force_refresh :
    Monitor → Bool → String → String → Answer → ℕ → ℕ → ℕ → ℕ → Monitor × Forced
force_refresh m is_cancelled provider profile answer marking begun now later =
    let marked = try_mark_refreshing m.pool provider profile marking in
    let worked =
      do_refresh (record m { pool = marked.pool }) provider profile answer begun now later in
    if is_cancelled
    then (m, cancelled)
    else if not (has_slot m)
    then (m, waits)
    else if m.stopping
    then (m, monitor_stopping)
    else if not marked.result
    then (m, unmarked_result (get_profile m.pool provider profile))
    else (worked, forced_result (get_profile worked.pool provider profile))

pub record MonitorStats : Type 0 where
  pub running : Bool
  pub check_interval : ℕ
  pub refresh_threshold : ℕ
  pub max_concurrent : ℕ
  pub active_refreshes : ℕ

unfoldable pub stats : Monitor → MonitorStats
stats m = record {
  running = m.running;
  check_interval = m.config.check_interval;
  refresh_threshold = m.config.refresh_threshold;
  max_concurrent = m.config.max_concurrent;
  active_refreshes = m.slots;
}
