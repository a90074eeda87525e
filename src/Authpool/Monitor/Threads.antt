-- ===== src/Authpool/Monitor/Threads.antt =====
-- internal/authpool/monitor.go with its goroutines interleaved. A thread is one refresh on its way
-- through `triggerRefresh` or `ForceRefresh` and `doRefresh`; its program counter stands before the
-- next operation on shared state, each of which is atomic (a channel operation, or a critical
-- section of the pool's or the monitor's mutex). Monitor.antt has the same code run in one go.
pub mod Slots
pub mod Ownership
pub mod Exclusive
pub mod Shutdown
use caam_account_switching.Prelude.{
  ℕ, suc, ◌+◌, ◌-◌, ◌<◌, String, Bool, true, false, ◌≡◌, ◌==◌, if◌then◌else◌,
}
use caam_account_switching.Authpool.Status.{PoolStatus, refreshing}
use caam_account_switching.Authpool.Pool.{
  AuthPool, set_status, try_mark_refreshing, check_and_update_cooldowns, mark_used, add_profile,
}
use caam_account_switching.Authpool.Pool.Operations.{Write, write}
use caam_account_switching.Authpool.Persist.{PersistedPoolState, from_persisted_state}
use caam_account_switching.Authpool.Monitor.{
  Monitor, Answer, has_slot, take_slot, free_slot, revert, finish_refresh, start, stop,
}

-- Where a refresh stands. `triggerRefresh` goes from `held` to `begun`, and by `reverting` and
-- `releasing` out of a refresh that it gives up; `ForceRefresh` goes from `forced_held` to
-- `forced_begun`. A refresh that has begun asks the refresher and records the outcome; then its
-- deferred calls run, in the order of each function. `idle` is no refresh.
pub data Stage : Type 0 where
  idle held marked counted begun reverting releasing leaving departing : Stage
  forced_held forced_counted forced_marked forced_begun forced_leaving : Stage

pub record Thread : Type 0 where
  pub provider : String
  pub name : String
  pub previous : PoolStatus
  pub stage : Stage

-- What the environment decides in one operation: the refresher's answer and the clock.
pub record Moment : Type 0 where
  pub answer : Answer
  pub now : ℕ
  pub later : ℕ

-- `TryMarkRefreshing`, on to a stage if it succeeds, and to the other if not
unfoldable pub marks : Monitor → Thread → Moment → Stage → Stage → Monitor × Stage
marks m t e next exit =
    let r = try_mark_refreshing m.pool t.provider t.name e.now in
    if r.result then (record m { pool = r.pool }, next) else (m, exit)

-- The first operation of `doRefresh`.
unfoldable pub begins : Monitor → Thread → Moment → Stage → Stage → Monitor × Stage
begins m t e next exit =
    let r = set_status m.pool t.provider t.name refreshing e.now in
    if r.result then (record m { pool = r.pool }, next) else (m, exit)

abbrev pub join_group : Monitor → Monitor
join_group m = record m { waiting = suc m.waiting }

-- `refreshWg.Done()`
abbrev pub leave_group : Monitor → Monitor
leave_group m = record m { waiting = m.waiting - 1 }

-- The write of the outcome, `SetError` or `MarkRefreshed`.
abbrev pub record_outcome : Monitor → Thread → Moment → Monitor
record_outcome m t e = record m { pool = finish_refresh m t.provider t.name e.answer e.now e.later }

-- The next operation of a thread: the new shared state and the thread's new stage. The read of the
-- profile at the end of `ForceRefresh` changes nothing and is left out.
unfoldable pub advance : Stage → Monitor → Thread → Moment → Monitor × Stage
unfolding marks begins
advance idle m t e = (m, idle)
advance held m t e = marks m t e marked releasing
advance marked m t e = if m.stopping then (m, reverting) else (join_group m, counted)
advance reverting m t e =
    (record m { pool = revert m.pool t.provider t.name t.previous e.now }, releasing)
advance releasing m t e = (free_slot m, idle)
advance counted m t e = begins m t e begun leaving
advance begun m t e = (record_outcome m t e, leaving)
advance leaving m t e = (free_slot m, departing)
advance departing m t e = (leave_group m, idle)
advance forced_held m t e = if m.stopping then (m, releasing) else (join_group m, forced_counted)
advance forced_counted m t e = marks m t e forced_marked forced_leaving
advance forced_marked m t e = begins m t e forced_begun forced_leaving
advance forced_begun m t e = (record_outcome m t e, forced_leaving)
advance forced_leaving m t e = (leave_group m, releasing)

pub record System : Type 0 where
  pub monitor : Monitor
  pub threads : ℕ → Thread

abbrev pub set_thread : (ℕ → Thread) → ℕ → Thread → ℕ → Thread
set_thread f i t j = if i == j then t else f j

-- The stage of a refresh that has just taken its slot.
abbrev pub arrival : Bool → Stage
arrival true = forced_held
arrival false = held

-- The system after one operation of a thread.
abbrev pub after_advance : System → ℕ → Moment → System
after_advance s i e =
    let r = advance (s.threads i).stage s.monitor (s.threads i) e in
    record {
      monitor = r.0;
      threads = set_thread s.threads i (record (s.threads i) { stage = r.1 });
    }

-- One step of `n` threads, of the loop or of the caller. `arrives` is the taking of a slot by
-- `triggerRefresh` or, if forced, by `ForceRefresh`. `uses` and `adds` are calls of the pool by
-- others that leave the status of every profile alone; `writes` are all its
-- writes, and `loads` is a load of whatever profiles a state file has.
pub data Step (n : ℕ) (s : System) : System → Type 0 where
  arrives :
      (i : ℕ) (forced : Bool) (provider name : String) (previous : PoolStatus)
      → i < n
      → (s.threads i).stage ≡ idle
      → has_slot s.monitor ≡ true
      → Step n s (record {
        monitor = take_slot s.monitor;
        threads = set_thread s.threads i (record {
          provider = provider;
          name = name;
          previous = previous;
          stage = arrival forced;
        });
      })
  advances : (i : ℕ) (e : Moment) → i < n → Step n s (after_advance s i e)
  starts : Step n s (record s { monitor = (start s.monitor).0 })
  stops : Step n s (record s { monitor = (stop s.monitor).0 })
  sweeps :
      (now : ℕ)
      → Step n s (record s {
        monitor = record s.monitor { pool = (check_and_update_cooldowns s.monitor.pool now).pool };
      })
  uses :
      (provider name : String) (now : ℕ)
      → Step n s (record s {
        monitor = record s.monitor { pool = mark_used s.monitor.pool provider name now };
      })
  adds :
      (provider name : String) (now : ℕ)
      → Step n s (record s {
        monitor = record s.monitor { pool = (add_profile s.monitor.pool provider name now).pool };
      })
  writes :
      (provider name : String) (w : Write)
      → Step n s (record s {
        monitor = record s.monitor { pool = (write s.monitor.pool provider name w).0 };
      })
  loads :
      (state : PersistedPoolState)
      → Step n s (record s {
        monitor = record s.monitor { pool = from_persisted_state s.monitor.pool state };
      })

-- The states reached from a monitor with no refresh on its way.
pub data Reach (n : ℕ) (s : System) : System → Type 0 where
  here : Reach n s s
  next : {t u : System} → Reach n s t → Step n t u → Reach n s u

abbrev pub no_thread : Thread
no_thread = record { provider = ""; name = ""; previous = refreshing; stage = idle }

abbrev pub at_rest : Monitor → System
at_rest m = record { monitor = m; threads = λ i. no_thread }
