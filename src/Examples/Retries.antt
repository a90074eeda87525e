-- ===== src/Examples/Retries.antt =====
-- Runs of the background sync of internal/sync at concrete inputs.
use caam_account_switching.Prelude.{
  ◌+◌, String, true, false, not, none, some, [], ◌∷◌, ◌≡◌, refl, arith, str_eq, if◌then◌else◌,
  filter,
}
use caam_account_switching.Sync.State.{QueueEntry, SyncQueue, SyncState, queue_of}
use caam_account_switching.Sync.State.Queue.{attempts_of, same_target}
use caam_account_switching.Sync.Decision.{push, decided}
use caam_account_switching.Sync.Merge.{ProfileRef}
use caam_account_switching.Sync.Run.{Env, Machine, copy_error}
use caam_account_switching.Sync.Throttle.{SyncThrottler}
use caam_account_switching.Sync.Background.{Pool, QueueClock, run_background_sync, process_queue}
use caam_account_switching.Sync.Background.Retry.{is_settled, process_queue_exact}
use caam_account_switching.Sync.Background.Twice.{failure_counted_twice}

abbrev throttler : SyncThrottler
throttler = record { last_sync = ("claude/home", 5) ∷ []; min_interval = 30 }

-- A machine to which "work" cannot be pushed.
abbrev env : Env
env = record {
  connection = none;
  local_profiles = some [];
  remote_profiles = some [];
  decision = λ p. decided push;
  message = λ p. "";
  copy = λ p d. some "refused";
  is_cancelled = λ p. false;
  now = λ p. 30;
  later = λ p. 31;
  duration = λ p. 4;
}

abbrev laptop : Machine
laptop = record { id = "m1"; name = "laptop" }

abbrev work : ProfileRef
work = record { provider = "claude"; profile = "work" }

abbrev entry : String → QueueEntry
entry machine = record {
  provider = "claude";
  profile = "work";
  machine = machine;
  added_at = 5;
  attempts = 2;
  last_attempt = 9;
  last_error = "timeout";
}

abbrev queue : SyncQueue
queue = record { entries = entry "m1" ∷ entry "m2" ∷ []; max_size = 100 }

abbrev state : SyncState
state = record { queue = some queue; history = none }

abbrev clock : QueueClock
clock = record { now = λ m. 40; later = λ m. 41 }

failure_counted_twice_example :
    attempts_of
      (record { provider = "claude"; profile = "work"; machine = "m1" })
      (queue_of
        (run_background_sync true clock "deadline" 42
          ((laptop, env) ∷ [])
          work
          state
          throttler).0).entries
    ≡ 2
      + attempts_of
          (record { provider = "claude"; profile = "work"; machine = "m1" })
          (queue_of state).entries
unfolding copy_error queue_of same_target
failure_counted_twice_example =
    failure_counted_twice env laptop work push "refused" refl refl refl refl state clock "deadline"
      42 throttler (refl, omega arith, (refl, omega arith, tt)) (omega arith)

-- Only the first machine is left in the pool.
abbrev pool : Pool
pool = λ id. if str_eq id "m1" then some (laptop, env) else none

process_queue_exact_example :
    (queue_of (process_queue pool (λ e. false) state)).entries
    ≡ filter (λ e. not (is_settled pool (λ e. false) e)) (queue_of state).entries
unfolding queue_of same_target
process_queue_exact_example =
    process_queue_exact pool (λ e. false) state (refl, omega arith, (refl, omega arith, tt))
