-- ===== src/Examples/Monitors.antt =====
-- Runs of the monitor of internal/authpool at concrete inputs.
use caam_account_switching.Prelude.{
  ℕ, ◌≤◌, true, false, some, [], ◌∷◌, ◌≡◌, refl, arith, All, str_eq,
}
use caam_account_switching.Prelude.Table.{lookup}
use caam_account_switching.Authpool.Status.{PooledProfile, ready, refreshing, same_status}
use caam_account_switching.Authpool.Pool.{profile_key, try_mark_refreshing}
use caam_account_switching.Authpool.Monitor.{
  Monitor, renewed, refused, has_slot, take_slot, stop, do_refresh, force_refresh, done,
}
use caam_account_switching.Authpool.Monitor.Stuck.{rounds, failed_refresh_sticks}
use caam_account_switching.Authpool.Monitor.Force.{
  renewed_profile, force_refresh_renews, force_refresh_hides_failure,
}
use caam_account_switching.Authpool.Monitor.Threads.{
  System, Thread, Moment, Reach, here, next, arrives, advances, stops, held, at_rest, set_thread,
  after_advance, advance, marks,
}
use caam_account_switching.Authpool.Monitor.Threads.Slots.{total, slot_of, group_of, slots_bounded}
use caam_account_switching.Authpool.Monitor.Threads.Exclusive.{
  Gentle, still, then, one_refresh_per_profile,
}
use caam_account_switching.Authpool.Monitor.Threads.Shutdown.{stopped_quiet, Winding}
use caam_account_switching.Authpool.Monitor.Threads.Shutdown
use caam_account_switching.Examples.Pools.{work, two_profiles}

abbrev monitor : Monitor
monitor = record {
  pool = two_profiles;
  config = record { check_interval = 60; refresh_threshold = 100; max_concurrent = 2 };
  has_refresher = true;
  running = true;
  stopping = false;
  slots = 0;
  waiting = 0;
}

failed_refresh_sticks_example :
    let r =
      rounds (do_refresh monitor "claude" "work" (refused "timeout") 30 31 32) (90 ∷ 950 ∷ []) in
    ((s : PooledProfile) × (lookup (profile_key "claude" "work") r.0.pool.profiles ≡ some s)
      × (s.status ≡ refreshing)
      × (s.error_count ≡ 2))
    × All (λ n. str_eq (profile_key n.0 n.1) (profile_key "claude" "work") ≡ false) r.1
unfolding profile_key lookup
failed_refresh_sticks_example =
    failed_refresh_sticks monitor "claude" "work" "timeout" 30 31 32 (90 ∷ 950 ∷ []) work refl
      (omega arith)

force_refresh_renews_example :
    let r = force_refresh monitor false "claude" "work" (renewed 2000) 29 30 31 32 in
    (r.1 ≡ done)
    × (lookup (profile_key "claude" "work") r.0.pool.profiles
        ≡ some (renewed_profile work 2000 31 32))
unfolding profile_key lookup same_status has_slot
force_refresh_renews_example =
    force_refresh_renews monitor "claude" "work" 29 30 31 32 work refl refl refl refl 2000 refl

force_refresh_hides_failure_example :
    let r = force_refresh monitor false "claude" "work" (refused "timeout") 29 30 31 32 in
    (r.1 ≡ done)
    × ((s : PooledProfile) × (lookup (profile_key "claude" "work") r.0.pool.profiles ≡ some s)
        × (s.status ≡ refreshing)
        × (s.error_count ≡ 2))
unfolding profile_key lookup same_status has_slot
force_refresh_hides_failure_example =
    force_refresh_hides_failure monitor "claude" "work" 29 30 31 32 work refl refl refl refl
      "timeout" (omega arith)

abbrev arrived : Thread
arrived = record { provider = "claude"; name = "work"; previous = ready; stage = held }

abbrev moment : Moment
moment = record { answer = renewed 2000; now = 30; later = 31 }

-- The first thread takes a slot for the profile, then a second one does.
abbrev first_arrived : System
first_arrived = record {
  monitor = take_slot monitor;
  threads = set_thread (at_rest monitor).threads 0 arrived;
}

abbrev both_arrived : System
both_arrived = record {
  monitor = take_slot (take_slot monitor);
  threads = set_thread first_arrived.threads 1 arrived;
}

abbrev raced : System
raced = after_advance (after_advance both_arrived 0 moment) 1 moment

-- The first thread marks the profile; the second one is turned away.
raced-Reach : Reach 2 (at_rest monitor) raced
unfolding take_slot has_slot
raced-Reach =
    next
      (next
        (next (next here (arrives 0 false "claude" "work" ready (omega arith) refl refl))
          (arrives 1 false "claude" "work" ready (omega arith) refl refl))
        (advances 0 moment (omega arith)))
      (advances 1 moment (omega arith))

raced-Gentle : Gentle 2 (at_rest monitor) raced
unfolding take_slot has_slot
raced-Gentle =
    then
      (then
        (then (then still (arrives 0 false "claude" "work" ready (omega arith) refl refl) refl)
          (arrives 1 false "claude" "work" ready (omega arith) refl refl) refl)
        (advances 0 moment (omega arith)) refl)
      (advances 1 moment (omega arith)) refl

one_refresh_per_profile_example : Path ℕ 0 0
unfolding advance marks try_mark_refreshing profile_key lookup same_status take_slot
one_refresh_per_profile_example = one_refresh_per_profile monitor 0 0 raced-Gentle refl refl refl

slots_bounded_example :
    (raced.monitor.slots ≡ total slot_of 2 raced.threads)
    × (raced.monitor.slots ≤ raced.monitor.config.max_concurrent)
    × (raced.monitor.waiting ≡ total group_of 2 raced.threads)
slots_bounded_example = slots_bounded monitor refl refl raced-Reach

-- The monitor is stopped when the refresh has been admitted; then the refresh goes on to its end.
abbrev admitted : System
admitted = after_advance (after_advance first_arrived 0 moment) 0 moment

abbrev stopped_system : System
stopped_system = record admitted { monitor = (stop admitted.monitor).0 }

abbrev begun_system : System
begun_system = after_advance stopped_system 0 moment

abbrev recorded_system : System
recorded_system = after_advance begun_system 0 moment

abbrev freed_system : System
freed_system = after_advance recorded_system 0 moment

abbrev ended_system : System
ended_system = after_advance freed_system 0 moment

stopped_quiet_example :
    (ended_system.monitor.waiting ≤ stopped_system.monitor.waiting)
    × (group_of (ended_system.threads 0).stage ≤ ended_system.monitor.waiting)
unfolding stop advance marks try_mark_refreshing profile_key lookup same_status take_slot has_slot
stopped_quiet_example =
    stopped_quiet {n = 2} monitor {s = stopped_system} {t = ended_system} 0 refl refl
      (next
        (next
          (next (next here (arrives 0 false "claude" "work" ready (omega arith) refl refl))
            (advances 0 moment (omega arith)))
          (advances 0 moment (omega arith)))
        stops)
      refl
      (Shutdown.more
        (Shutdown.more
          (Shutdown.more (Shutdown.more Shutdown.done (advances 0 moment (omega arith)) refl)
            (advances 0 moment (omega arith)) refl)
          (advances 0 moment (omega arith)) refl)
        (advances 0 moment (omega arith)) refl)
      (omega arith)
