-- ===== src/Sync/Run.antt =====
-- internal/sync/algorithm.go: the runs of the syncer over profiles and machines.
-- What connections, directories and the two copies answer is an `Env`. A run also returns the
-- machines that it calls `SetError` of, with the message; the time that this records is left out.
pub mod Reports
pub mod Stats
pub mod Isolation
use caam_account_switching.Prelude.{
  ℕ, suc, ◌+◌, String, Bool, true, false, not, Option, none, some, List, [], ◌∷◌, ◌++◌,
  if◌then◌else◌,
}
use caam_account_switching.Sync.State.{
  SyncState, HistoryEntry, add_to_queue, remove_from_queue, add_to_history,
}
use caam_account_switching.Sync.Decision.{
  SyncDirection, push, pull, skip, Decision, decided, both_failed, local_failed, remote_failed,
}
use caam_account_switching.Sync.Merge.{ProfileRef, merge_profile_lists}

pub record Machine : Type 0 where
  pub id : String
  pub name : String

-- One machine as it answers during a run: the error of the connection, the two lists of profiles,
-- the decision for a profile and the text of its error, the error of a copy (none is success),
-- whether the context ends before a profile, and the clock.
pub record Env : Type 0 where
  pub connection : Option String
  pub local_profiles : Option (List ProfileRef)
  pub remote_profiles : Option (List ProfileRef)
  pub decision : ProfileRef → Decision
  pub message : ProfileRef → String
  pub copy : ProfileRef → SyncDirection → Option String
  pub is_cancelled : ProfileRef → Bool
  pub now : ProfileRef → ℕ
  pub later : ProfileRef → ℕ
  pub duration : ProfileRef → ℕ

pub record SyncResult : Type 0 where
  pub provider : String
  pub profile : String
  pub direction : SyncDirection
  pub machine : Machine
  pub success : Bool
  pub bytes_sent : ℕ
  pub bytes_received : ℕ
  pub duration : ℕ
  pub error : Option String

-- `string(op.Direction)`
unfoldable pub direction_text : SyncDirection → String
direction_text push = "push"
direction_text pull = "pull"
direction_text skip = "skip"

unfoldable pub error_to_string : Option String → String
error_to_string none = ""
error_to_string (some e) = e

abbrev pub succeeded : Option String → Bool
succeeded none = true
succeeded (some e) = false

-- A skipped profile has no error.
unfoldable pub copy_error : Env → ProfileRef → SyncDirection → Option String
copy_error env p push = env.copy p push
copy_error env p pull = env.copy p pull
copy_error env p skip = none

unfoldable pub execute_operation : Env → Machine → ProfileRef → SyncDirection → SyncResult
unfolding copy_error
execute_operation env m p d =
    let failure : Option String = copy_error env p d in
    record {
      provider = p.provider;
      profile = p.profile;
      direction = d;
      machine = m;
      success = succeeded failure;
      bytes_sent = 0;
      bytes_received = 0;
      duration = env.duration p;
      error = failure;
    }

-- The result for a profile that could not be looked at.
unfoldable pub failed_result : Machine → ProfileRef → String → SyncResult
failed_result m p e = record {
  provider = p.provider;
  profile = p.profile;
  direction = skip;
  machine = m;
  success = false;
  bytes_sent = 0;
  bytes_received = 0;
  duration = 0;
  error = some e;
}

unfoldable pub history_entry : Env → Machine → ProfileRef → String → SyncResult → HistoryEntry
unfolding direction_text error_to_string
history_entry env m p trigger r = record {
  timestamp = env.now p;
  trigger = trigger;
  provider = p.provider;
  profile = p.profile;
  machine = m.name;
  action = direction_text r.direction;
  success = r.success;
  error = error_to_string r.error;
  duration = r.duration;
}

-- `RemoveFromQueue` after a success, `AddToQueue` after a failure
unfoldable pub update_queue : Env → Machine → ProfileRef → SyncResult → SyncState → SyncState
unfolding error_to_string
update_queue env m p r s =
    if r.success
    then remove_from_queue s p.provider p.profile m.id
    else add_to_queue s p.provider p.profile m.id (error_to_string r.error) (env.now p)
        (env.later p)

abbrev pub Stepped : Type 0
Stepped = SyncState × Option SyncResult

-- The copy of one profile, its entry in the history and its effect on the queue.
unfoldable pub carry_out : Env → Machine → SyncState → ProfileRef → SyncDirection → Stepped
unfolding execute_operation history_entry update_queue
carry_out env m s p d =
    let r = execute_operation env m p d in
    (update_queue env m p r (add_to_history s (history_entry env m p "manual" r)), some r)

-- One round of the loop over the profiles.
unfoldable pub sync_one : Env → Machine → SyncState → ProfileRef → Stepped
unfolding carry_out failed_result
sync_one env m s p = elim (env.decision p) [
  | both_failed ↦ (s, some (failed_result m p (env.message p)))
  | local_failed ↦ (s, some (failed_result m p (env.message p)))
  | remote_failed ↦ (s, some (failed_result m p (env.message p)))
  | decided d ↦ elim d [
    | skip ↦ (s, none)
    | push ↦ carry_out env m s p push
    | pull ↦ carry_out env m s p pull
  ]
]

abbrev pub with_result : Option SyncResult → List SyncResult → List SyncResult
with_result none rs = rs
with_result (some r) rs = r ∷ rs

-- The loop; the last part of the result says that the context ended.
unfoldable pub sync_profiles :
    Env → Machine → SyncState → List ProfileRef → SyncState × List SyncResult × Bool
unfolding sync_one
sync_profiles env m s [] = (s, [], false)
sync_profiles env m s (p ∷ ps) =
    let r = sync_one env m s p in
    let rest = sync_profiles env m r.0 ps in
    if env.is_cancelled p then (s, [], true) else (rest.0, with_result r.1 rest.1, rest.2)

-- A machine, by its id, whose status becomes "error" with a last error.
abbrev pub Mark : Type 0
Mark = String × String

abbrev pub marked : Machine → Option String → List Mark → List Mark
marked m none ms = ms
marked m (some e) ms = (m.id, e) ∷ ms

-- The error of a run with a machine.
pub data RunError : Type 0 where
  connection_failed local_list_failed remote_list_failed context_done : RunError

pub record RunResult : Type 0 where
  pub state : SyncState
  pub results : List SyncResult
  pub error : Option RunError
  pub machine_error : Option String

abbrev pub stopped : SyncState → RunError → RunResult
stopped s e = record { state = s; results = []; error = some e; machine_error = none }

unfoldable pub sync_all_profiles : Env → Machine → SyncState → List ProfileRef → RunResult
unfolding sync_profiles
sync_all_profiles env m s ps =
    let (s', rs, cut) = sync_profiles env m s ps in
    record {
      state = s';
      results = rs;
      error = if cut then some context_done else none;
      machine_error = none;
    }

unfoldable pub sync_with_machine : Env → Machine → SyncState → RunResult
unfolding sync_all_profiles
sync_with_machine env m s = elim env.connection [
  | some e ↦ record (stopped s connection_failed) { machine_error = some e }
  | none ↦ elim env.local_profiles [
    | none ↦ stopped s local_list_failed
    | some here ↦ elim env.remote_profiles [
      | none ↦ stopped s remote_list_failed
      | some there ↦ sync_all_profiles env m s (merge_profile_lists here there)
    ]
  ]
]

-- `SyncProfileWithMachine`, once the machine is not nil and the context has not ended: it records
-- the copy in the history and leaves the queue to its caller. The last part is the machine's error.
unfoldable pub sync_profile_with_machine :
    Env → Machine → SyncState → ProfileRef → SyncState × SyncResult × Option String
unfolding execute_operation history_entry failed_result
sync_profile_with_machine env m s p =
    let idle = record (failed_result m p "") { success = true; error = none } in
    let copied : SyncDirection → SyncState × SyncResult × Option String = λ d.
      let r = execute_operation env m p d in
      (add_to_history s (history_entry env m p "retry" r), r, none) in
    elim env.connection [
      | some e ↦ (s, failed_result m p e, some e)
      | none ↦ elim (env.decision p) [
        | both_failed ↦ (s, failed_result m p (env.message p), none)
        | local_failed ↦ (s, failed_result m p (env.message p), none)
        | remote_failed ↦ (s, failed_result m p (env.message p), none)
        | decided d ↦ elim d [ skip ↦ (s, idle, none) | push ↦ copied push | pull ↦ copied pull ]
      ]
    ]

-- One machine in the loop of `SyncProfile`: a failed connection goes to the queue.
unfoldable pub sync_profile_on :
    Env → Machine → SyncState → ProfileRef → SyncState × Option SyncResult × Option String
unfolding sync_one failed_result
sync_profile_on env m s p = elim env.connection [
  | some e ↦ (
    add_to_queue s p.provider p.profile m.id e (env.now p) (env.later p),
    some (failed_result m p e),
    some e,
  )
  | none ↦ let r = sync_one env m s p in (r.0, r.1, none)
]

-- `SyncProfile`: one profile with all machines of the pool.
unfoldable pub sync_profile :
    List (Machine × Env) → SyncState → ProfileRef → SyncState × List SyncResult × Bool × List Mark
unfolding sync_profile_on
sync_profile [] s p = (s, [], false, [])
sync_profile ((m, env) ∷ ms) s p =
    let r = sync_profile_on env m s p in
    let rest = sync_profile ms r.0 p in
    if env.is_cancelled p
    then (s, [], true, [])
    else (rest.0, with_result r.1 rest.1, rest.2, marked m r.2 rest.3)

-- The results that `SyncAll` takes over from one machine.
abbrev pub kept_results : RunResult → List SyncResult
kept_results r = elim r.error [ none ↦ r.results | some e ↦ [] ]

-- `SyncAll`: a machine that fails is passed over. `cut` says whether the context ends before it.
unfoldable pub sync_all :
    List (Machine × Env × Bool) → SyncState → SyncState × List SyncResult × Bool × List Mark
unfolding sync_with_machine
sync_all [] s = (s, [], false, [])
sync_all ((m, env, cut) ∷ ms) s =
    let r = sync_with_machine env m s in
    let rest = sync_all ms r.state in
    if cut
    then (s, [], true, [])
    else (rest.0, kept_results r ++ rest.1, rest.2, marked m r.machine_error rest.3)
