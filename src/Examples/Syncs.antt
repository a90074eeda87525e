-- ===== src/Examples/Syncs.antt =====
-- Runs of the models of internal/sync at concrete inputs.
use caam_account_switching.Prelude.{
  ◌≤◌, ℕ, String, true, none, some, List, [], ◌∷◌, ◌++◌, ◌≡◌, refl, arith, length, filter, str_eq,
  if◌then◌else◌, false,
}
use mathlib.Core.List.{reverse}
use caam_account_switching.Prelude.Table.{Table}
use caam_account_switching.Sync.State.{
  SyncQueue, HistoryEntry, SyncHistory, SyncState, queue_of, recent_history,
}
use caam_account_switching.Sync.State.Disk.{Codec, Files, load, save}
use caam_account_switching.Sync.State.Reload.{load-save_files}
use caam_account_switching.Sync.State.Queue.{
  Target, Report, failure, success, notes, attempts_of, IsQueue, pending, attempts_exact,
}
use caam_account_switching.Sync.State.History.{last_n, add_events, history_keeps_latest}
use caam_account_switching.Sync.Freshness.{TokenFreshness, fresher, fresher_cycle}
use caam_account_switching.Sync.Decision.{
  push, pull, skip, decided, both_failed, token, reading, IsRight, determine_sync_operation,
  determine-IsRight,
}
use caam_account_switching.Sync.Merge.{ProfileRef}
use caam_account_switching.Sync.Files.{WriteEnd, written, failed}
use caam_account_switching.Sync.Run.{Env, Machine, sync_profiles, sync_all}
use caam_account_switching.Sync.Run.Reports.{reports, copy_records, sync_profiles_recorded}
use caam_account_switching.Sync.Run.Isolation.{Stop, answers, without_marks, sync_all_isolates}

abbrev work : Target
work = record { provider = "claude"; profile = "work"; machine = "m1" }

abbrev home : Target
home = record { provider = "claude"; profile = "home"; machine = "m1" }

abbrev event : ℕ → HistoryEntry
event t = record {
  timestamp = t;
  trigger = "manual";
  provider = "claude";
  profile = "work";
  machine = "laptop";
  action = "push";
  success = true;
  error = "";
  duration = 3;
}

abbrev short_history : SyncHistory
short_history = record { entries = event 1 ∷ event 2 ∷ []; max_size = 2 }

-- A state whose queue has an entry of two attempts and whose history is full.
abbrev state : SyncState
state = record {
  queue = some (record {
    entries =
        record {
          provider = "claude";
          profile = "work";
          machine = "m1";
          added_at = 5;
          attempts = 2;
          last_attempt = 9;
          last_error = "timeout";
        }
        ∷ [];
    max_size = 100;
  });
  history = some short_history;
}

abbrev told : List Report
told =
    failure work "refused" 10 11
    ∷ failure home "refused" 12 13
    ∷ success work
    ∷ failure work "refused" 14 15
    ∷ []

attempts_exact_example :
    IsQueue (queue_of (notes state told)).entries
    × (attempts_of work (queue_of (notes state told)).entries
        ≡ pending work (attempts_of work (queue_of state).entries) told)
unfolding queue_of
attempts_exact_example = attempts_exact state told work (refl, omega arith, tt)

history_keeps_latest_example :
    let latest = last_n 2 (short_history.entries ++ event 3 ∷ event 4 ∷ []) in
    ((add_events state (event 3 ∷ event 4 ∷ [])).history
      ≡ some (record short_history { entries = latest }))
    × (recent_history (add_events state (event 3 ∷ event 4 ∷ [])) 1 ≡ reverse (last_n 1 latest))
history_keeps_latest_example =
    history_keeps_latest state short_history (event 3 ∷ event 4 ∷ []) 1 refl (omega arith)

abbrev dated : ℕ → ℕ → TokenFreshness
dated expiry modified = record {
  provider = "claude";
  profile = "work";
  expires_at = expiry;
  modified_at = modified;
  is_expired = false;
  source = "local";
}

fresher_cycle_example :
    (fresher (dated 90 5) (dated 70 9) ≡ true)
    × (fresher (dated 70 9) (dated 0 7) ≡ true)
    × (fresher (dated 0 7) (dated 90 5) ≡ true)
fresher_cycle_example =
    fresher_cycle (dated 90 5) (dated 0 7) (dated 70 9) refl (omega arith) (omega arith)
      (omega arith) (omega arith)

determine-IsRight_example :
    IsRight
      (token (dated 90 5))
      (token (dated 70 9))
      (determine_sync_operation (reading (token (dated 90 5))) (reading (token (dated 70 9))))
determine-IsRight_example = determine-IsRight (token (dated 90 5)) (token (dated 70 9))

abbrev profile : String → ProfileRef
profile name = record { provider = "claude"; profile = name }

abbrev ours : List ProfileRef
ours = profile "work" ∷ profile "home" ∷ []

abbrev theirs : List ProfileRef
theirs = profile "spare" ∷ profile "work" ∷ []

abbrev local_files : Table String
local_files = ("auth.json", "new") ∷ ("settings.json", "{}") ∷ []

abbrev remote_files : Table String
remote_files = ("auth.json", "old") ∷ ("notes.txt", "kept") ∷ []

-- The write of the settings fails and leaves a temporary file.
abbrev cut_write : String → WriteEnd
cut_write name = if str_eq name "settings.json" then failed (some (".caam_tmp_1", "{")) else written

abbrev left_name : WriteEnd → String
left_name (failed (some (other, c))) = other
left_name w = ""

-- A machine with which "work" is pushed, "home" fails to be pulled and "spare" cannot be looked at.
abbrev env : Env
env = record {
  connection = none;
  local_profiles = some ours;
  remote_profiles = some theirs;
  decision = λ p.
      if str_eq p.profile "work"
      then decided push
      else if str_eq p.profile "home"
      then decided pull
      else both_failed;
  message = λ p. "local error";
  copy = λ p d. elim d [ push ↦ none | pull ↦ some "refused" | skip ↦ none ];
  is_cancelled = λ p. false;
  now = λ p. 30;
  later = λ p. 31;
  duration = λ p. 4;
}

abbrev laptop : Machine
laptop = record { id = "m1"; name = "laptop" }

abbrev refs : List ProfileRef
refs = profile "work" ∷ profile "home" ∷ profile "spare" ∷ []

sync_profiles_recorded_example :
    let r = sync_profiles env laptop state refs in
    (r.0.queue ≡ (notes state (reports env r.1)).queue)
    × (r.0.history
        ≡ some (record short_history {
          entries = last_n 2 (short_history.entries ++ copy_records env r.1);
        }))
sync_profiles_recorded_example =
    sync_profiles_recorded env laptop state refs short_history refl (omega arith)

-- Two machines: one that does not answer, and the one above.
abbrev machines : List Stop
machines =
    (record { id = "m2"; name = "server" }, record env { connection = some "refused" }, false)
    ∷ (laptop, env, false)
    ∷ []

sync_all_isolates_example :
    (without_marks (sync_all machines state)
      ≡ without_marks (sync_all (filter (λ x. answers x.1) machines) state))
    × ((sync_all machines state).3 ≡ ("m2", "refused") ∷ [])
sync_all_isolates_example = sync_all_isolates machines state (refl, (refl, tt))

abbrev short_queue : SyncQueue
short_queue = record { entries = []; max_size = 100 }

abbrev short_state : SyncState
short_state = record {
  queue = some short_queue;
  history = some (record short_history { max_size = 1 });
}

-- A text that is what it stands for.
data Text : Type 0 where
  queue_text : SyncQueue → Text
  history_text : SyncHistory → Text

abbrev plain_codec : Codec
plain_codec = record {
  Text = Text;
  encode_queue = queue_text;
  decode_queue = λ t. elim t [ queue_text q ↦ some q | history_text h ↦ none ];
  encode_history = history_text;
  decode_history = λ t. elim t [ queue_text q ↦ none | history_text h ↦ some h ];
  decode-encode_queue = λ q. refl;
  decode-encode_history = λ h. refl;
}

abbrev no_files : Files Text
no_files = record { queue = none; history = none }

load-save_files_example :
    let done = save plain_codec none none short_state no_files in
    let broken = save plain_codec (some "disk full") none short_state no_files in
    (done.2 ≡ none)
    × (load plain_codec done.0 ≡ record {
      queue = some short_queue;
      history = some (record { entries = event 2 ∷ []; max_size = 1 });
    })
    × (length (last_n 100 short_queue.entries) ≤ 100)
    × (length (last_n 1 short_history.entries) ≤ 1)
    × (broken.0 ≡ no_files)
    × (broken.2 ≡ some "disk full")
load-save_files_example =
    load-save_files plain_codec short_state short_queue (record short_history { max_size = 1 })
      no_files "disk full" none refl refl (omega arith) (omega arith)
