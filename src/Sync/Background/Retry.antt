-- ===== src/Sync/Background/Retry.antt =====
-- What a retry of the queue does to it.
use caam_account_switching.Prelude.{
  Bool, true, false, not, ◌&&◌, none, some, List, [], ◌∷◌, ◌≡◌, refl, ap, ◌∙◌, arith, eq_refl,
  if◌then◌else◌, filter, Bool-cases, Option-cases, inl, inr,
}
use caam_account_switching.Sync.State.{
  QueueEntry, SyncState, is_entry_of, remove_entry, queue_of, remove_from_queue, add_to_history,
  new_sync_state,
}
use caam_account_switching.Sync.State.Queue.{
  Target, target_of, queue_of-remove, is_queued, IsQueue, same_target_iff, is_entry-same,
}
use caam_account_switching.Sync.Decision.{
  push, pull, skip, Decision, decided, both_failed, local_failed, remote_failed,
}
use caam_account_switching.Sync.Run.{Env, Machine, sync_profile_with_machine}
use caam_account_switching.Sync.Merge.{ProfileRef}
use caam_account_switching.Sync.Background.{
  Pool, profile_of_entry, retry_one, retry_all, remove_all, process_queue,
}

-- A retry leaves the queue to its caller, and its result does not depend on the state.
abbrev IsRetry : Env → Machine → SyncState → SyncState → ProfileRef → Type 0
IsRetry env m s t p =
    ((sync_profile_with_machine env m s p).0.queue ≡ s.queue)
    × ((sync_profile_with_machine env m s p).1 ≡ (sync_profile_with_machine env m t p).1)

connected-IsRetry :
    (env : Env) (m : Machine) (s t : SyncState) (p : ProfileRef) (d : Decision)
    → env.connection ≡ none
    → env.decision p ≡ d
    → IsRetry env m s t p
unfolding sync_profile_with_machine add_to_history
connected-IsRetry env m s t p both_failed c e =
    rw (c, sync_profile_with_machine) (rw e (refl, refl))
connected-IsRetry env m s t p local_failed c e =
    rw (c, sync_profile_with_machine) (rw e (refl, refl))
connected-IsRetry env m s t p remote_failed c e =
    rw (c, sync_profile_with_machine) (rw e (refl, refl))
connected-IsRetry env m s t p (decided push) c e =
    rw (c, sync_profile_with_machine) (rw e (refl, refl))
connected-IsRetry env m s t p (decided pull) c e =
    rw (c, sync_profile_with_machine) (rw e (refl, refl))
connected-IsRetry env m s t p (decided skip) c e =
    rw (c, sync_profile_with_machine) (rw e (refl, refl))

sync_profile_with_machine-IsRetry :
    (env : Env) (m : Machine) (s t : SyncState) (p : ProfileRef) → IsRetry env m s t p
unfolding sync_profile_with_machine
sync_profile_with_machine-IsRetry env m s t p = elim (Option-cases env.connection) [
  | inl c ↦ connected-IsRetry env m s t p (env.decision p) c refl
  | inr (e, c) ↦ rw (c, sync_profile_with_machine) (refl, refl)
]

-- Whether a retry settles an entry: its machine has left the pool, or the context has not ended and
-- the sync with it succeeds. The history plays no part.
unfoldable pub is_settled : Pool → (QueueEntry → Bool) → QueueEntry → Bool
is_settled pool ended e = elim (pool e.machine) [
  | none ↦ true
  | some m ↦
      not (ended e)
      && (sync_profile_with_machine m.1 m.0 new_sync_state (profile_of_entry e)).1.success
]

retry_one-lem :
    (pool : Pool) (ended : QueueEntry → Bool) (s : SyncState) (e : QueueEntry)
    → ((retry_one pool ended s e).0.queue ≡ s.queue)
      × ((retry_one pool ended s e).1 ≡ is_settled pool ended e)
unfolding retry_one is_settled
retry_one-lem pool ended s e = elim (Option-cases (pool e.machine)) [
  | inl p ↦ rw (p, retry_one, is_settled) (refl, refl)
  | inr (m, p) ↦
      let (kept, same) =
        sync_profile_with_machine-IsRetry m.1 m.0 s new_sync_state (profile_of_entry e) in
      elim (Bool-cases (ended e)) [
        | inl x ↦ rw (p, retry_one, is_settled) (rw x (refl, refl))
        | inr x ↦ rw (p, retry_one, is_settled) (rw x (kept, ap (λ r. r.success) same))
      ]
]

retry_all-lem :
    (pool : Pool) (ended : QueueEntry → Bool) (s : SyncState) (es : List QueueEntry)
    → ((retry_all pool ended s es).0.queue ≡ s.queue)
      × ((retry_all pool ended s es).1 ≡ filter (is_settled pool ended) es)
unfolding retry_all
retry_all-lem pool ended s [] = (refl, refl)
retry_all-lem pool ended s (e ∷ es) =
    let r = retry_one pool ended s e in
    let (q, b) = retry_one-lem pool ended s e in
    let (q', b') = retry_all-lem pool ended r.0 es in
    (
      q' ∙ q,
      ap (λ c. if c then e ∷ (retry_all pool ended r.0 es).1 else (retry_all pool ended r.0 es).1) b
          ∙ rw b' refl,
    )

-- The entries of a queue once those like the given ones are removed.
remove_entries : List QueueEntry → List QueueEntry → List QueueEntry
remove_entries [] es = es
remove_entries (d ∷ ds) es = remove_entries ds (remove_entry d.provider d.profile d.machine es)

queue_of-remove_all :
    (s : SyncState) (ds : List QueueEntry)
    → (queue_of (remove_all s ds)).entries ≡ remove_entries ds (queue_of s).entries
unfolding remove_all remove_entries
queue_of-remove_all s [] = refl
queue_of-remove_all s (d ∷ ds) =
    queue_of-remove_all (remove_from_queue s d.provider d.profile d.machine) ds
    ∙ ap (remove_entries ds) (queue_of-remove s (target_of d))

pub queue_of-same : (s t : SyncState) → s.queue ≡ t.queue → queue_of s ≡ queue_of t
unfolding queue_of
queue_of-same s t e = rw e refl

is_entry_of_self : (e : QueueEntry) → is_entry_of e.provider e.profile e.machine e ≡ true
unfolding is_entry_of
is_entry_of_self e = simp eq_refl

-- Removing entries of other targets keeps the first entry.
remove_entries-cons :
    (e : QueueEntry) (ds es : List QueueEntry)
    → is_queued (target_of e) ds ≡ false
    → remove_entries ds (e ∷ es) ≡ e ∷ remove_entries ds es
unfolding remove_entries remove_entry
remove_entries-cons e [] es h = refl
remove_entries-cons e (d ∷ ds) es h = ground (
  arith,
  is_entry-same (target_of d) e,
  same_target_iff (target_of e) (target_of d),
  same_target_iff (target_of d) (target_of e),
  remove_entries-cons e ds (remove_entry d.provider d.profile d.machine es),
)

is_queued-filter :
    (u : Target) (f : QueueEntry → Bool) (es : List QueueEntry)
    → is_queued u es ≡ false
    → is_queued u (filter f es) ≡ false
is_queued-filter u f [] h = refl
is_queued-filter u f (e ∷ es) h = ground (arith, is_queued-filter u f es)

remove_entries-filter :
    (f : QueueEntry → Bool) (es : List QueueEntry)
    → IsQueue es
    → remove_entries (filter f es) es ≡ filter (λ e. not (f e)) es
unfolding remove_entries remove_entry
remove_entries-filter f [] h = refl
remove_entries-filter f (e ∷ es) h = elim (Bool-cases (f e)) [
  | inl b ↦ rw (b, remove_entries) (rw (is_entry_of_self e) (remove_entries-filter f es h.2))
  | inr b ↦ rw b (
      remove_entries-cons e (filter f es) es (is_queued-filter (target_of e) f es h.0)
      ∙ ap (λ rest. e ∷ rest) (remove_entries-filter f es h.2))
]

-- A retry of a queue with no two entries for one profile on one machine, each with at least one
-- attempt, removes exactly the entries that it settles, those whose machine has left
-- the pool or with whose machine the sync succeeds, and keeps every other entry as it is; so a
-- retry that fails is not counted among the entry's attempts.
pub process_queue_exact :
    (pool : Pool) (ended : QueueEntry → Bool) (s : SyncState)
    → IsQueue (queue_of s).entries
    → (queue_of (process_queue pool ended s)).entries
      ≡ filter (λ e. not (is_settled pool ended e)) (queue_of s).entries
unfolding process_queue
process_queue_exact pool ended s h =
    let es = (queue_of s).entries in
    let r = retry_all pool ended s es in
    let (kept, settled) = retry_all-lem pool ended s es in
    queue_of-remove_all r.0 r.1
    ∙ ap (λ ds. remove_entries ds (queue_of r.0).entries) settled
    ∙ ap (λ q. remove_entries (filter (is_settled pool ended) es) q.entries)
        (queue_of-same r.0 s kept)
    ∙ remove_entries-filter (is_settled pool ended) es h
