-- ===== src/Sync/Background.antt =====
-- internal/sync/autosync.go: the sync that runs in the background after a backup or a refresh, and
-- the retry of what is queued. The goroutine is a call; `SyncTimeout` ends the context.
pub mod Twice
pub mod Retry
use caam_account_switching.Prelude.{
  ℕ, String, Bool, true, false, not, ◌&&◌, ◌||◌, Option, none, some, List, [], ◌∷◌, str_eq, ◌==◌,
  if◌then◌else◌, length,
}
use caam_account_switching.Sync.State.{
  QueueEntry, SyncState, add_to_queue, remove_from_queue, queue_of, save_queue, save_history,
  clear_old_queue_entries,
}
use caam_account_switching.Sync.State.Disk.{saved}
use caam_account_switching.Sync.Merge.{ProfileRef}
use caam_account_switching.Sync.Run.{
  Env, Machine, SyncResult, error_to_string, sync_profile, sync_profile_with_machine,
}
use caam_account_switching.Sync.Throttle.{
  SyncThrottler, record_sync, should_sync, set_throttle_interval,
}

-- The machines of the pool with their answers.
abbrev pub Machines : Type 0
Machines = List (Machine × Env)

-- The clock at `AddToQueue`, for each machine.
pub record QueueClock : Type 0 where
  pub now : String → ℕ
  pub later : String → ℕ

unfoldable pub is_member : String → List String → Bool
is_member x [] = false
is_member x (y ∷ ys) = if str_eq y x then true else is_member x ys

-- The loop of `getFailedMachines`; `seen` are the machines that it has noted.
unfoldable pub collect_failed : List String → List SyncResult → List String
unfolding is_member
collect_failed seen [] = []
collect_failed seen (r ∷ rs) =
    let id = r.machine.id in
    let rest = collect_failed seen rs in
    let rest' = collect_failed (id ∷ seen) rs in
    if not r.success && not (is_member id seen) then id ∷ rest' else rest

unfoldable pub get_failed_machines : List SyncResult → List String
unfolding collect_failed
get_failed_machines rs = collect_failed [] rs

unfoldable pub get_error_for_machine : List SyncResult → String → String
get_error_for_machine [] id = "unknown error"
get_error_for_machine (r ∷ rs) id =
    let rest = get_error_for_machine rs id in
    if not r.success && str_eq r.machine.id id
    then elim r.error [ none ↦ rest | some e ↦ e ]
    else rest

-- The loop that queues the failed machines.
unfoldable pub queue_failed :
    QueueClock → ProfileRef → List SyncResult → List String → SyncState → SyncState
unfolding get_error_for_machine
queue_failed c p rs [] s = s
queue_failed c p rs (id ∷ ids) s =
    queue_failed c p rs ids
      (add_to_queue s p.provider p.profile id (get_error_for_machine rs id) (c.now id) (c.later id))

-- The loop of `queueFailedSync`, over the pool's machines.
unfoldable pub queue_failed_sync :
    QueueClock → ProfileRef → String → Machines → SyncState → SyncState
queue_failed_sync c p message [] s = s
queue_failed_sync c p message ((m, env) ∷ ms) s =
    queue_failed_sync c p message ms
      (add_to_queue s p.provider p.profile m.id message (c.now m.id) (c.later m.id))

unfoldable pub is_empty : {A : Type 0} → List A → Bool
is_empty [] = true
is_empty (x ∷ xs) = false

-- `runBackgroundSync`. `created` says whether `NewSyncer` returns no error, `ended` is the text of
-- the context's error, and `end` the time that the throttler records. `Close` and, in the failing
-- branches, `Save` write the state to the disk: `saved`.
unfoldable pub run_background_sync :
    Bool
    → QueueClock
    → String
    → ℕ
    → Machines
    → ProfileRef
    → SyncState
    → SyncThrottler
    → SyncState × SyncThrottler
unfolding queue_failed queue_failed_sync get_failed_machines saved is_empty
run_background_sync created c ended end ms p s t =
    let r = sync_profile ms s p in
    let t' = record_sync t p.provider p.profile end in
    let failed = get_failed_machines r.1 in
    let s' = queue_failed c p r.1 failed r.0 in
    if not created
    then (s, t)
    else if r.2
    then (saved (saved (queue_failed_sync c p ended ms r.0)), t')
    else if is_empty failed
    then (saved r.0, t')
    else (saved (saved s'), t')

-- What `TriggerSyncIfEnabled` reads of the pool.
pub record PoolSwitches : Type 0 where
  pub enabled : Bool
  pub auto_sync : Bool

-- `TriggerSyncIfEnabledWithConfig` once the state is loaded: the throttler that it leaves, and
-- whether it starts the background sync. A pool that is nil is `none`.
unfoldable pub trigger_sync :
    Option PoolSwitches → Machines → SyncThrottler → ℕ → ProfileRef → ℕ → SyncThrottler × Bool
unfolding is_empty
trigger_sync pool ms t interval p now =
    let t' = set_throttle_interval t interval in
    elim pool [
      | none ↦ (t', false)
      | some q ↦ (
        t',
        q.enabled && q.auto_sync && not (is_empty ms) && should_sync t' p.provider p.profile now,
      )
    ]

-- A machine of the pool by its id, as `GetMachine` finds it.
abbrev pub Pool : Type 0
Pool = String → Option (Machine × Env)

abbrev pub profile_of_entry : QueueEntry → ProfileRef
profile_of_entry e = record { provider = e.provider; profile = e.profile }

-- One round of the loop of `processQueue`: the state, and whether the entry is to be removed.
-- `ended` says that the context has ended, in which case `SyncProfileWithMachine` returns an error.
unfoldable pub retry_one : Pool → (QueueEntry → Bool) → SyncState → QueueEntry → SyncState × Bool
retry_one pool ended s e = elim (pool e.machine) [
  | none ↦ (s, true)
  | some m ↦
      let r = sync_profile_with_machine m.1 m.0 s (profile_of_entry e) in
      if ended e then (s, false) else (r.0, r.1.success)
]

unfoldable pub retry_all :
    Pool → (QueueEntry → Bool) → SyncState → List QueueEntry → SyncState × List QueueEntry
unfolding retry_one
retry_all pool ended s [] = (s, [])
retry_all pool ended s (e ∷ es) =
    let r = retry_one pool ended s e in
    let rest = retry_all pool ended r.0 es in (rest.0, if r.1 then e ∷ rest.1 else rest.1)

-- The loop that removes the finished entries.
unfoldable pub remove_all : SyncState → List QueueEntry → SyncState
remove_all s [] = s
remove_all s (e ∷ es) = remove_all (remove_from_queue s e.provider e.profile e.machine) es

-- `processQueue` once its syncer is created, up to the `Save` of its end.
unfoldable pub process_queue : Pool → (QueueEntry → Bool) → SyncState → SyncState
unfolding retry_all remove_all
process_queue pool ended s =
    let r = retry_all pool ended s (queue_of s).entries in remove_all r.0 r.1

-- `ProcessQueueIfNeeded`, with the retry that it starts. The entries of more than 24 hours go first.
unfoldable pub process_queue_if_needed :
    Option PoolSwitches → Pool → (QueueEntry → Bool) → ℕ → SyncState → SyncState
unfolding process_queue is_empty
process_queue_if_needed switches pool ended now s =
    let s' = clear_old_queue_entries s 86400000000000 now in
    elim switches [
      | none ↦ s
      | some q ↦
          if not q.enabled
          then s
          else if is_empty (queue_of s').entries
          then s'
          else process_queue pool ended s'
    ]
