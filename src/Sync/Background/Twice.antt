-- ===== src/Sync/Background/Twice.antt =====
-- What a failed sync in the background adds to the queue.
use caam_account_switching.Prelude.{
  ℕ, suc, ◌+◌, ◌≤◌, String, true, false, none, some, List, [], ◌∷◌, ◌≡◌, refl, ap, ◌∙◌, arith, ltb,
  eq_refl, length, Option-cases, inl, inr,
}
use mathlib.Core.Option
use caam_account_switching.Sync.State.{
  QueueEntry, SyncState, add_entry, queue_of, add_to_queue, add_to_history, trim, save_queue,
  save_history,
}
use caam_account_switching.Sync.State.Disk.{saved}
use caam_account_switching.Sync.State.Queue.{
  Target, attempts_of, IsQueue, attempts_exact, notes, note, failure, same_target_refl,
}
use caam_account_switching.Sync.Decision.{SyncDirection, push, pull, skip, decided}
use caam_account_switching.Sync.Merge.{ProfileRef}
use caam_account_switching.Sync.Run.{
  Env, Machine, execute_operation, copy_error, history_entry, error_to_string, update_queue,
  Stepped, carry_out, sync_one, sync_profile_on, sync_profile,
}
use caam_account_switching.Sync.Background.Retry.{queue_of-same}
use caam_account_switching.Sync.Throttle.{SyncThrottler}
use caam_account_switching.Sync.Background.{
  QueueClock, queue_failed, get_failed_machines, collect_failed, get_error_for_machine,
  run_background_sync, is_empty,
}

length-add_entry_le :
    (provider profile machine message : String) (now later : ℕ) (es : List QueueEntry)
    → length (add_entry provider profile machine message now later es) ≤ suc (length es)
unfolding add_entry
length-add_entry_le provider profile machine message now later [] = omega arith
length-add_entry_le provider profile machine message now later (e ∷ es) =
    ground (arith, length-add_entry_le provider profile machine message now later es)

save_history-queue : (s : SyncState) → (save_history s).queue ≡ s.queue
unfolding save_history
save_history-queue s = elim (Option-cases s.history) [
  | inl e ↦ rw (e, save_history) refl
  | inr (h, e) ↦ rw (e, save_history) refl
]

queue_of-save_queue :
    (s : SyncState)
    → length (queue_of s).entries ≤ (queue_of s).max_size
    → queue_of (save_queue s) ≡ queue_of s
unfolding queue_of save_queue trim
queue_of-save_queue s h = elim (Option-cases s.queue) [
  | inl e ↦ rw (e, save_queue) (rw e refl)
  | inr (q, e) ↦
      let fits : ltb q.max_size (length q.entries) ≡ false =
        let k = rw (e, queue_of) at h in ground arith in
      rw (e, save_queue, queue_of) (rw fits refl)
]

-- A save keeps a queue that is within its size.
queue_of-saved :
    (s : SyncState)
    → length (queue_of s).entries ≤ (queue_of s).max_size
    → queue_of (saved s) ≡ queue_of s
unfolding saved
queue_of-saved s h =
    queue_of-same (save_history (save_queue s)) (save_queue s) (save_history-queue (save_queue s))
    ∙ queue_of-save_queue s h

sync_one-copy :
    (env : Env) (m : Machine) (p : ProfileRef) (d : SyncDirection) (message : String)
    (s : SyncState)
    → env.decision p ≡ decided d
    → copy_error env p d ≡ some message
    → sync_one env m s p ≡ carry_out env m s p d
unfolding sync_one copy_error
sync_one-copy env m p push message s e f = rw (e, sync_one) refl
sync_one-copy env m p pull message s e f = rw (e, sync_one) refl
sync_one-copy env m p skip message s e f = absurd (Option.none-ne-some message f)

module _ (env : Env) (m : Machine) (p : ProfileRef) (d : SyncDirection) (message : String)
    (reached : env.connection ≡ none) (going : env.is_cancelled p ≡ false)
    (wanted : env.decision p ≡ decided d) (fails : copy_error env p d ≡ some message) where
  -- The queue that `SyncProfile` leaves.
  abbrev noted_once : SyncState → SyncState
  noted_once s =
      add_to_queue (add_to_history s (history_entry env m p "manual" (execute_operation env m p d)))
        p.provider p.profile m.id message (env.now p) (env.later p)

  carry_out-failed :
      (s : SyncState) → carry_out env m s p d ≡ (noted_once s, some (execute_operation env m p d))
  unfolding carry_out update_queue execute_operation error_to_string
  carry_out-failed s = rw (carry_out, fails) refl

  sync_profile-failed :
      (s : SyncState)
      → sync_profile ((m, env) ∷ []) s p
        ≡ (noted_once s, execute_operation env m p d ∷ [], false, [])
  unfolding sync_profile sync_profile_on sync_one
  sync_profile-failed s =
      let one : sync_profile_on env m s p
          ≡ (noted_once s, some (execute_operation env m p d), none) =
        rw (reached, sync_profile_on)
          (ap (λ (r : Stepped). (r.0, r.1, none))
            (sync_one-copy env m p d message s wanted fails ∙ carry_out-failed s)) in
      rw (going, one) refl

  -- The queue after the background sync, before it is saved.
  abbrev noted_twice : SyncState → QueueClock → SyncState
  noted_twice s c =
      add_to_queue (noted_once s) p.provider p.profile m.id message (c.now m.id) (c.later m.id)

  run_background_sync-failed :
      (s : SyncState) (c : QueueClock) (ended : String) (end : ℕ) (t : SyncThrottler)
      → (run_background_sync true c ended end ((m, env) ∷ []) p s t).0
        ≡ saved (saved (noted_twice s c))
  unfolding run_background_sync queue_failed get_failed_machines collect_failed
      get_error_for_machine is_empty execute_operation
  run_background_sync-failed s c ended end t =
      rw (sync_profile-failed s) (rw fails (rw (eq_refl m.id) refl))

  -- A copy that is due and fails in the background, for the only machine of the pool, which is
  -- reached, counts as two attempts in the queue, where the queue has room for the entry and has no
  -- two entries for one profile and machine.
  pub failure_counted_twice :
      (s : SyncState) (c : QueueClock) (ended : String) (end : ℕ) (t : SyncThrottler)
      → IsQueue (queue_of s).entries
      → suc (suc (length (queue_of s).entries)) ≤ (queue_of s).max_size
      → let u : Target = record { provider = p.provider; profile = p.profile; machine = m.id } in
        attempts_of u
          (queue_of (run_background_sync true c ended end ((m, env) ∷ []) p s t).0).entries
        ≡ 2 + attempts_of u (queue_of s).entries
  unfolding note notes queue_of add_to_queue add_to_history
  failure_counted_twice s c ended end t h room =
      let u : Target = record { provider = p.provider; profile = p.profile; machine = m.id } in
      let told =
        failure u message (env.now p) (env.later p)
        ∷ failure u message (c.now m.id) (c.later m.id)
        ∷ [] in
      let es = (queue_of s).entries in
      let once = add_entry p.provider p.profile m.id message (env.now p) (env.later p) es in
      let fits : length (queue_of (noted_twice s c)).entries ≤ (queue_of s).max_size = omega (
        arith,
        length-add_entry_le p.provider p.profile m.id message (env.now p) (env.later p) es,
        length-add_entry_le p.provider p.profile m.id message (c.now m.id) (c.later m.id) once,
      ) in
      let kept = queue_of-saved (noted_twice s c) fits in
      let after : queue_of (run_background_sync true c ended end ((m, env) ∷ []) p s t).0
          ≡ queue_of (noted_twice s c) =
        ap queue_of (run_background_sync-failed s c ended end t)
        ∙ queue_of-saved (saved (noted_twice s c)) (rw kept fits)
        ∙ kept in
      ap (λ q. attempts_of u q.entries) after
      ∙ (attempts_exact s told u h).1
      ∙ rw (same_target_refl u) (omega arith)
