-- ===== src/Sync/Run/Reports.antt =====
-- What a run over the profiles leaves in the queue and the history.
use caam_account_switching.Prelude.{
  String, Option, none, some, List, [], ◌∷◌, ◌++◌, length, ◌≤◌, ◌≡◌, refl, sym, ap, ◌∙◌,
  if◌then◌else◌, Bool-cases, inl, inr, Option-cases,
}
use caam_account_switching.Sync.State.{
  SyncState, SyncHistory, HistoryEntry, add_to_queue, remove_from_queue, add_to_history, queue_of,
  history_of,
}
use caam_account_switching.Sync.State.Queue.{Report, failure, success, note, notes, Target}
use caam_account_switching.Sync.State.History.{add_events, add_events-last_n, last_n, last_n-all}
use caam_account_switching.Sync.Decision.{
  SyncDirection, push, pull, skip, Decision, decided, both_failed, local_failed, remote_failed,
}
use caam_account_switching.Sync.Merge.{ProfileRef}
use caam_account_switching.Sync.Run.{
  Env, Machine, SyncResult, direction_text, error_to_string, history_entry, update_queue, carry_out,
  sync_one, sync_profiles, with_result, execute_operation, failed_result,
}

-- The profile of a result.
unfoldable pub profile_of : SyncResult → ProfileRef
profile_of r = record { provider = r.provider; profile = r.profile }

unfoldable pub report : Env → SyncResult → Report
report env r =
    let t : Target = record {
      provider = r.provider;
      profile = r.profile;
      machine = r.machine.id;
    } in
    if r.success
    then success t
    else failure t (error_to_string r.error) (env.now (profile_of r)) (env.later (profile_of r))

-- The results of copies, as the queue learns of them.
unfoldable pub reports : Env → List SyncResult → List Report
unfolding report
reports env [] = []
reports env (r ∷ rs) =
    let rest = reports env rs in
    elim r.direction [ push ↦ report env r ∷ rest | pull ↦ report env r ∷ rest | skip ↦ rest ]

-- The results of copies, as the history records them.
unfoldable pub events : Env → List SyncResult → List HistoryEntry
events env [] = []
events env (r ∷ rs) =
    let rest = events env rs in
    elim r.direction [
      | push ↦ history_entry env r.machine (profile_of r) "manual" r ∷ rest
      | pull ↦ history_entry env r.machine (profile_of r) "manual" r ∷ rest
      | skip ↦ rest
    ]

-- The two parts of the state that a row of results leads to.
Recorded : Env → SyncState → List SyncResult → SyncState → Type 0
Recorded env s rs t =
    (t.queue ≡ (notes s (reports env rs)).queue)
    × (t.history ≡ (add_events s (events env rs)).history)

note-queue :
    (s t : SyncState) (r : Report) → s.queue ≡ t.queue → (note s r).queue ≡ (note t r).queue
unfolding note add_to_queue remove_from_queue queue_of
note-queue s t (failure u message now later) e = rw e refl
note-queue s t (success u) e = elim (Option-cases t.queue) [
  | inl n ↦ rw (e ∙ n, n) refl
  | inr (q, n) ↦ rw (e ∙ n, n) refl
]

notes-queue :
    (s t : SyncState) (rs : List Report)
    → s.queue ≡ t.queue
    → (notes s rs).queue ≡ (notes t rs).queue
unfolding notes
notes-queue s t [] e = e
notes-queue s t (r ∷ rs) e = notes-queue (note s r) (note t r) rs (note-queue s t r e)

add_to_history-history :
    (s t : SyncState) (e : HistoryEntry)
    → s.history ≡ t.history
    → (add_to_history s e).history ≡ (add_to_history t e).history
unfolding add_to_history history_of
add_to_history-history s t e h = rw h refl

add_events-history :
    (s t : SyncState) (es : List HistoryEntry)
    → s.history ≡ t.history
    → (add_events s es).history ≡ (add_events t es).history
unfolding add_events
add_events-history s t [] h = h
add_events-history s t (e ∷ es) h =
    add_events-history (add_to_history s e) (add_to_history t e) es (add_to_history-history s t e h)

-- The queue does not look at the history, nor the history at the queue.
update_queue-queue :
    (env : Env) (m : Machine) (p : ProfileRef) (d : SyncDirection) (s : SyncState)
    (e : HistoryEntry)
    → let r = execute_operation env m p d in
      (update_queue env m p r (add_to_history s e)).queue ≡ (note s (report env r)).queue
unfolding update_queue add_to_history report note execute_operation profile_of add_to_queue
update_queue-queue env m p d s e = elim (Bool-cases (execute_operation env m p d).success) [
  | inl h ↦ rw h (
      note-queue (add_to_history s e) s
        (success (record { provider = p.provider; profile = p.profile; machine = m.id })) refl)
  | inr h ↦ rw h refl
]

update_queue-history :
    (env : Env) (m : Machine) (p : ProfileRef) (r : SyncResult) (s : SyncState)
    → (update_queue env m p r s).history ≡ s.history
unfolding update_queue add_to_queue remove_from_queue
update_queue-history env m p r s = elim (Bool-cases r.success) [
  | inl h ↦ elim (Option-cases s.queue) [ inl n ↦ rw (h, n) refl | inr (q, n) ↦ rw (h, n) refl ]
  | inr h ↦ rw h refl
]

module _ (env : Env) (m : Machine) (p : ProfileRef) (d : SyncDirection) (s : SyncState) where
  abbrev copied : SyncResult
  copied = execute_operation env m p d

  carry_out-queue :
      (rs : List Report)
      → (notes (carry_out env m s p d).0 rs).queue ≡ (notes s (report env copied ∷ rs)).queue
  unfolding carry_out notes
  carry_out-queue rs =
      notes-queue (update_queue env m p copied _) (note s (report env copied)) rs
        (update_queue-queue env m p d s (history_entry env m p "manual" copied))

  carry_out-history :
      (es : List HistoryEntry)
      → (add_events (carry_out env m s p d).0 es).history
        ≡ (add_events s (history_entry env m p "manual" copied ∷ es)).history
  unfolding carry_out add_events
  carry_out-history es =
      let e = history_entry env m p "manual" copied in
      add_events-history (update_queue env m p copied (add_to_history s e)) (add_to_history s e) es
        (update_queue-history env m p copied (add_to_history s e))

sync_one-Recorded :
    (env : Env) (m : Machine) (p : ProfileRef) (s t : SyncState) (rs : List SyncResult)
    (c : Decision)
    → env.decision p ≡ c
    → Recorded env (sync_one env m s p).0 rs t
    → Recorded env s (with_result (sync_one env m s p).1 rs) t
unfolding Recorded sync_one reports events failed_result profile_of
sync_one-Recorded env m p s t rs both_failed e h = rw (e, sync_one) (rw (e, sync_one) at h)
sync_one-Recorded env m p s t rs local_failed e h = rw (e, sync_one) (rw (e, sync_one) at h)
sync_one-Recorded env m p s t rs remote_failed e h = rw (e, sync_one) (rw (e, sync_one) at h)
sync_one-Recorded env m p s t rs (decided skip) e h = rw (e, sync_one) (rw (e, sync_one) at h)
sync_one-Recorded env m p s t rs (decided push) e h =
    let (hq, hh) = rw (e, sync_one) at h in
    rw (e, sync_one)
      (
        hq ∙ carry_out-queue env m p push s (reports env rs),
        hh ∙ carry_out-history env m p push s (events env rs),
      )
sync_one-Recorded env m p s t rs (decided pull) e h =
    let (hq, hh) = rw (e, sync_one) at h in
    rw (e, sync_one)
      (
        hq ∙ carry_out-queue env m p pull s (reports env rs),
        hh ∙ carry_out-history env m p pull s (events env rs),
      )

-- The queue and the history as the rows of reports and of events leave them.
sync_profiles_rows :
    (env : Env) (m : Machine) (s : SyncState) (ps : List ProfileRef)
    → let r = sync_profiles env m s ps in
      (r.0.queue ≡ (notes s (reports env r.1)).queue)
      × (r.0.history ≡ (add_events s (events env r.1)).history)
unfolding sync_profiles reports events notes add_events Recorded
sync_profiles_rows env m s [] = (refl, refl)
sync_profiles_rows env m s (p ∷ ps) = elim (Bool-cases (env.is_cancelled p)) [
  | inl e ↦ rw e (refl, refl)
  | inr e ↦ rw e (
      sync_one-Recorded env m p s _ _ (env.decision p) refl
        (sync_profiles_rows env m (sync_one env m s p).0 ps))
]

-- The record of a copy: what was copied, in which direction and to or from which machine, at which
-- time, whether it succeeded, and the error if not.
abbrev pub copy_record : Env → SyncResult → HistoryEntry
copy_record env r = record {
  timestamp = env.now (record { provider = r.provider; profile = r.profile });
  trigger = "manual";
  provider = r.provider;
  profile = r.profile;
  machine = r.machine.name;
  action = elim r.direction [ push ↦ "push" | pull ↦ "pull" | skip ↦ "skip" ];
  success = r.success;
  error = elim r.error [ none ↦ "" | some e ↦ e ];
  duration = r.duration;
}

-- The records of the copies among some results, in their order.
abbrev pub copy_records : Env → List SyncResult → List HistoryEntry
copy_records env [] = []
copy_records env (r ∷ rs) =
    let rest = copy_records env rs in
    elim r.direction [
      | push ↦ copy_record env r ∷ rest
      | pull ↦ copy_record env r ∷ rest
      | skip ↦ rest
    ]

history_entry-record :
    (env : Env) (r : SyncResult) (d : SyncDirection) (e : Option String)
    → r.direction ≡ d
    → r.error ≡ e
    → history_entry env r.machine (profile_of r) "manual" r ≡ copy_record env r
unfolding history_entry profile_of direction_text error_to_string
history_entry-record env r push none h k = rw (h, k, direction_text, error_to_string) refl
history_entry-record env r push (some e) h k = rw (h, k, direction_text, error_to_string) refl
history_entry-record env r pull none h k = rw (h, k, direction_text, error_to_string) refl
history_entry-record env r pull (some e) h k = rw (h, k, direction_text, error_to_string) refl
history_entry-record env r skip none h k = rw (h, k, direction_text, error_to_string) refl
history_entry-record env r skip (some e) h k = rw (h, k, direction_text, error_to_string) refl

events-on :
    (env : Env) (r : SyncResult) (rs : List SyncResult) (d : SyncDirection)
    → events env rs ≡ copy_records env rs
    → r.direction ≡ d
    → events env (r ∷ rs) ≡ copy_records env (r ∷ rs)
unfolding events
events-on env r rs push ih h =
    rw (h, events, history_entry-record env r push r.error h refl, ih) refl
events-on env r rs pull ih h =
    rw (h, events, history_entry-record env r pull r.error h refl, ih) refl
events-on env r rs skip ih h = rw (h, events) ih

events-records : (env : Env) (rs : List SyncResult) → events env rs ≡ copy_records env rs
unfolding events
events-records env [] = refl
events-records env (r ∷ rs) = events-on env r rs r.direction (events-records env rs) refl

-- A run over the profiles, wherever the context ends it and whatever fails, leaves the queue that
-- the returned copies lead to when each failure adds to it and each success removes from it; a
-- history within its size gets a record of each of these copies at its end, in their order, and
-- keeps the latest entries, as many as its size allows.
pub sync_profiles_recorded :
    (env : Env) (m : Machine) (s : SyncState) (ps : List ProfileRef) (h : SyncHistory)
    → s.history ≡ some h
    → length h.entries ≤ h.max_size
    → let r = sync_profiles env m s ps in
      (r.0.queue ≡ (notes s (reports env r.1)).queue)
      × (r.0.history
          ≡ some (record h { entries = last_n h.max_size (h.entries ++ copy_records env r.1) }))
sync_profiles_recorded env m s ps h held fits =
    let r = sync_profiles env m s ps in
    let (queue, history) = sync_profiles_rows env m s ps in
    let start : s.history ≡ some (record h { entries = last_n h.max_size h.entries }) =
      held
      ∙ ap (λ es. some (record h { entries = es })) (sym (last_n-all h.max_size h.entries fits)) in
    (
      queue,
      history
          ∙ add_events-last_n s h h.entries (events env r.1) start
          ∙ ap (λ es. some (record h { entries = last_n h.max_size (h.entries ++ es) }))
              (events-records env r.1),
    )
