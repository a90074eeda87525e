-- ===== src/Sync/State.antt =====
-- internal/sync/state.go: the retry queue and the history of the sync state.
-- The identity and the pool of machines that `SyncState` also holds are not changed by what is
-- modelled here. A nil queue or history is none. Sizes and limits are not negative.
pub mod Queue
pub mod History
pub mod Disk
pub mod Reload
use caam_account_switching.Prelude.{
  ℕ, suc, ◌+◌, ◌-◌, String, Bool, true, false, not, ◌&&◌, Option, none, some, List, [], ◌∷◌, ◌++◌,
  ltb, ◌==◌, str_eq, if◌then◌else◌, filter, length, drop,
}
use mathlib.Core.List.{reverse}

pub record QueueEntry : Type 0 where
  pub provider : String
  pub profile : String
  pub machine : String
  pub added_at : ℕ
  pub attempts : ℕ
  pub last_attempt : ℕ
  pub last_error : String

pub record SyncQueue : Type 0 where
  pub entries : List QueueEntry
  pub max_size : ℕ

pub record HistoryEntry : Type 0 where
  pub timestamp : ℕ
  pub trigger : String
  pub provider : String
  pub profile : String
  pub machine : String
  pub action : String
  pub success : Bool
  pub error : String
  pub duration : ℕ

pub record SyncHistory : Type 0 where
  pub entries : List HistoryEntry
  pub max_size : ℕ

pub record SyncState : Type 0 where
  pub queue : Option SyncQueue
  pub history : Option SyncHistory

abbrev pub default_queue_max_size : ℕ
default_queue_max_size = 100

abbrev pub default_history_max_size : ℕ
default_history_max_size = 1000

abbrev pub empty_queue : SyncQueue
empty_queue = record { entries = []; max_size = default_queue_max_size }

abbrev pub empty_history : SyncHistory
empty_history = record { entries = []; max_size = default_history_max_size }

unfoldable pub new_sync_state : SyncState
new_sync_state = record { queue = some empty_queue; history = some empty_history }

-- The queue to write to: a new one in place of nil.
unfoldable pub queue_of : SyncState → SyncQueue
queue_of s = elim s.queue [ none ↦ empty_queue | some q ↦ q ]

unfoldable pub history_of : SyncState → SyncHistory
history_of s = elim s.history [ none ↦ empty_history | some h ↦ h ]

-- `e.Provider == provider && e.Profile == profile && e.Machine == machineID`
unfoldable pub is_entry_of : String → String → String → QueueEntry → Bool
is_entry_of provider profile machine e =
    str_eq e.provider provider && (str_eq e.profile profile && str_eq e.machine machine)

-- The loop of `AddToQueue` with the `append` behind it. The clock is read when an entry is updated;
-- for a new entry it is read twice, for `added_at` and for `last_attempt`.
unfoldable pub add_entry :
    String → String → String → String → ℕ → ℕ → List QueueEntry → List QueueEntry
unfolding is_entry_of
add_entry provider profile machine message now later [] =
    record {
      provider = provider;
      profile = profile;
      machine = machine;
      added_at = now;
      attempts = 1;
      last_attempt = later;
      last_error = message;
    }
    ∷ []
add_entry provider profile machine message now later (e ∷ es) =
    let rest = add_entry provider profile machine message now later es in
    if is_entry_of provider profile machine e
    then record e { attempts = suc e.attempts; last_attempt = now; last_error = message } ∷ es
    else e ∷ rest

unfoldable pub add_to_queue : SyncState → String → String → String → String → ℕ → ℕ → SyncState
unfolding add_entry queue_of
add_to_queue s provider profile machine message now later =
    let q = queue_of s in
    record s {
      queue =
          some
            (record q { entries = add_entry provider profile machine message now later q.entries });
    }

-- The first entry that fits is cut out.
unfoldable pub remove_entry : String → String → String → List QueueEntry → List QueueEntry
unfolding is_entry_of
remove_entry provider profile machine [] = []
remove_entry provider profile machine (e ∷ es) =
    let rest = remove_entry provider profile machine es in
    if is_entry_of provider profile machine e then es else e ∷ rest

unfoldable pub remove_from_queue : SyncState → String → String → String → SyncState
unfolding remove_entry
remove_from_queue s provider profile machine = elim s.queue [
  | none ↦ s
  | some q ↦ record s {
    queue = some (record q { entries = remove_entry provider profile machine q.entries });
  }
]

-- `e.AddedAt.After(now - maxAge)`, as an order of instants
unfoldable pub clear_old_queue_entries : SyncState → ℕ → ℕ → SyncState
clear_old_queue_entries s max_age now = elim s.queue [
  | none ↦ s
  | some q ↦ record s {
    queue = some (record q { entries = filter (λ e. ltb now (e.added_at + max_age)) q.entries });
  }
]

-- `if len(entries) > n { entries = entries[len(entries)-n:] }`
unfoldable pub trim {ℓ} : {A : Type ℓ} → ℕ → List A → List A
trim n xs = if ltb n (length xs) then drop (length xs - n) xs else xs

unfoldable pub add_to_history : SyncState → HistoryEntry → SyncState
unfolding trim history_of
add_to_history s entry =
    let h = history_of s in
    record s { history = some (record h { entries = trim h.max_size (h.entries ++ entry ∷ []) }) }

-- nil is the empty list
unfoldable pub recent_history : SyncState → ℕ → List HistoryEntry
unfolding trim
recent_history s limit = elim s.history [ none ↦ [] | some h ↦ reverse (trim limit h.entries) ]

-- What is read from a file of the sync directory: nothing, or a decoded value.
unfoldable pub load_queue : Option SyncQueue → Option SyncQueue
load_queue none = none
load_queue (some q) =
    some (record q { max_size = if q.max_size == 0 then default_queue_max_size else q.max_size })

unfoldable pub load_history : Option SyncHistory → Option SyncHistory
load_history none = none
load_history (some h) =
    some (record h { max_size = if h.max_size == 0 then default_history_max_size else h.max_size })

unfoldable pub or_empty_queue : Option SyncQueue → SyncQueue
or_empty_queue none = empty_queue
or_empty_queue (some q) = q

unfoldable pub or_empty_history : Option SyncHistory → SyncHistory
or_empty_history none = empty_history
or_empty_history (some h) = h

-- `Load` from the two files on; a file that cannot be read or decoded gives an empty value.
unfoldable pub load_state : Option SyncQueue → Option SyncHistory → SyncState
unfolding load_queue load_history or_empty_queue or_empty_history
load_state q h = record {
  queue = some (or_empty_queue (load_queue q));
  history = some (or_empty_history (load_history h));
}

-- The trimming of `saveQueue` and `saveHistory`, before the value is written.
unfoldable pub save_queue : SyncState → SyncState
unfolding trim
save_queue s = elim s.queue [
  | none ↦ s
  | some q ↦ record s { queue = some (record q { entries = trim q.max_size q.entries }) }
]

unfoldable pub save_history : SyncState → SyncState
unfolding trim
save_history s = elim s.history [
  | none ↦ s
  | some h ↦ record s { history = some (record h { entries = trim h.max_size h.entries }) }
]
