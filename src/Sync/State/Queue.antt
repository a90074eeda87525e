-- ===== src/Sync/State/Queue.antt =====
-- What the retry queue remembers.
use caam_account_switching.Prelude.{
  ℕ, suc, ◌<◌, String, Bool, true, false, ◌&&◌, List, [], ◌∷◌, ◌≡◌, ◌↔◌, refl, ap, ◌∙◌, arith,
  str_eq, eq_iff, eq_refl, if◌then◌else◌,
}
use caam_account_switching.Sync.State.{
  QueueEntry, SyncState, is_entry_of, add_entry, remove_entry, queue_of, add_to_queue,
  remove_from_queue,
}

-- A profile on a machine.
pub record Target : Type 0 where
  pub provider : String
  pub profile : String
  pub machine : String

unfoldable pub same_target : Target → Target → Bool
same_target a b =
    str_eq a.provider b.provider && (str_eq a.profile b.profile && str_eq a.machine b.machine)

abbrev pub target_of : QueueEntry → Target
target_of e = record { provider = e.provider; profile = e.profile; machine = e.machine }

same_target-true : (a b : Target) → same_target a b ≡ true → a ≡ b
unfolding same_target
same_target-true a b h =
    ground
      (arith, eq_iff a.provider b.provider, eq_iff a.profile b.profile, eq_iff a.machine b.machine)

pub same_target_refl : (a : Target) → same_target a a ≡ true
unfolding same_target
same_target_refl a = simp eq_refl

same_target-of_eq : (a b : Target) → a ≡ b → same_target a b ≡ true
same_target-of_eq a b e = rw e (same_target_refl b)

pub same_target_iff : (a b : Target) → (same_target a b ≡ true) ↔ (a ≡ b)
same_target_iff a b = (same_target-true a b, same_target-of_eq a b)

-- The entry test of the source compares targets.
pub is_entry-same :
    (t : Target) (e : QueueEntry)
    → is_entry_of t.provider t.profile t.machine e ≡ same_target (target_of e) t
unfolding is_entry_of same_target
is_entry-same t e = refl

-- The attempts that the queue records for a target, 0 if it has no entry.
unfoldable pub attempts_of : Target → List QueueEntry → ℕ
attempts_of t [] = 0
attempts_of t (e ∷ es) = if same_target (target_of e) t then e.attempts else attempts_of t es

-- At most one entry for each target, and none with no attempt.
abbrev pub is_queued : Target → List QueueEntry → Bool
is_queued t [] = false
is_queued t (e ∷ es) = if same_target (target_of e) t then true else is_queued t es

abbrev pub IsQueue : List QueueEntry → Type 0
IsQueue [] = Unit {0}
IsQueue (e ∷ es) = (is_queued (target_of e) es ≡ false) × (0 < e.attempts) × IsQueue es

abbrev added : Target → String → ℕ → ℕ → List QueueEntry → List QueueEntry
added t message now later = add_entry t.provider t.profile t.machine message now later

abbrev removed : Target → List QueueEntry → List QueueEntry
removed t = remove_entry t.provider t.profile t.machine

module _ (t : Target) (message : String) (now later : ℕ) where
  attempts_of-added :
      (u : Target) (es : List QueueEntry)
      → attempts_of u (added t message now later es)
        ≡ (if same_target t u then suc (attempts_of u es) else attempts_of u es)
  unfolding add_entry attempts_of
  attempts_of-added u [] = ground arith
  attempts_of-added u (e ∷ es) = ground (
    arith,
    is_entry-same t e,
    same_target_iff (target_of e) t,
    same_target_iff (target_of e) u,
    same_target_iff t u,
    attempts_of-added u es,
  )

  is_queued-added :
      (u : Target) (es : List QueueEntry)
      → is_queued u (added t message now later es)
        ≡ (if same_target t u then true else is_queued u es)
  unfolding add_entry
  is_queued-added u [] = refl
  is_queued-added u (e ∷ es) = ground (
    arith,
    is_entry-same t e,
    same_target_iff (target_of e) t,
    same_target_iff (target_of e) u,
    same_target_iff t u,
    is_queued-added u es,
  )

  added-IsQueue : (es : List QueueEntry) → IsQueue es → IsQueue (added t message now later es)
  unfolding add_entry
  added-IsQueue [] h = (refl, omega arith, tt)
  added-IsQueue (e ∷ es) h = ground (
    arith,
    is_entry-same t e,
    same_target_iff t (target_of e),
    same_target_iff (target_of e) t,
    is_queued-added (target_of e) es,
    added-IsQueue es,
  )

attempts_of-absent :
    (u : Target) (es : List QueueEntry) → is_queued u es ≡ false → attempts_of u es ≡ 0
unfolding attempts_of
attempts_of-absent u [] h = refl
attempts_of-absent u (e ∷ es) h = ground (arith, attempts_of-absent u es)

module _ (t : Target) where
  attempts_of-removed :
      (u : Target) (es : List QueueEntry)
      → IsQueue es
      → attempts_of u (removed t es) ≡ (if same_target t u then 0 else attempts_of u es)
  unfolding remove_entry attempts_of
  attempts_of-removed u [] h = ground arith
  attempts_of-removed u (e ∷ es) h = ground (
    arith,
    is_entry-same t e,
    same_target_iff (target_of e) t,
    same_target_iff (target_of e) u,
    same_target_iff t u,
    attempts_of-absent u es,
    attempts_of-removed u es h.2,
  )

  is_queued-removed_le :
      (u : Target) (es : List QueueEntry)
      → is_queued u es ≡ false
      → is_queued u (removed t es) ≡ false
  unfolding remove_entry
  is_queued-removed_le u [] h = refl
  is_queued-removed_le u (e ∷ es) h = ground (arith, is_queued-removed_le u es)

  removed-IsQueue : (es : List QueueEntry) → IsQueue es → IsQueue (removed t es)
  unfolding remove_entry
  removed-IsQueue [] h = tt
  removed-IsQueue (e ∷ es) h =
      ground (arith, is_queued-removed_le (target_of e) es, removed-IsQueue es)

-- What the syncer tells the queue: a sync failed or succeeded.
pub data Report : Type 0 where
  failure : Target → String → ℕ → ℕ → Report
  success : Target → Report

unfoldable pub note : SyncState → Report → SyncState
note s (failure t message now later) =
    add_to_queue s t.provider t.profile t.machine message now later
note s (success t) = remove_from_queue s t.provider t.profile t.machine

unfoldable pub notes : SyncState → List Report → SyncState
unfolding note
notes s [] = s
notes s (r ∷ rs) = notes (note s r) rs

-- The failures of a target since its last success, on top of `n`.
abbrev pub pending : Target → ℕ → List Report → ℕ
pending t n [] = n
pending t n (failure u message now later ∷ rs) = pending t (if same_target u t then suc n else n) rs
pending t n (success u ∷ rs) = pending t (if same_target u t then 0 else n) rs

pub queue_of-remove :
    (s : SyncState) (t : Target)
    → (queue_of (remove_from_queue s t.provider t.profile t.machine)).entries
      ≡ removed t (queue_of s).entries
unfolding remove_from_queue queue_of remove_entry
queue_of-remove s t = ground arith

note-IsQueue :
    (s : SyncState) (r : Report)
    → IsQueue (queue_of s).entries
    → IsQueue (queue_of (note s r)).entries
unfolding note add_to_queue remove_from_queue queue_of
note-IsQueue s (failure t message now later) h = added-IsQueue t message now later _ h
note-IsQueue s (success t) h = rw (queue_of-remove s t) (removed-IsQueue t (queue_of s).entries h)

-- The attempts of a target after one report.
abbrev noted : Target → ℕ → Report → ℕ
noted t n (failure u message now later) = if same_target u t then suc n else n
noted t n (success u) = if same_target u t then 0 else n

attempts_of-note :
    (s : SyncState) (r : Report) (t : Target)
    → IsQueue (queue_of s).entries
    → attempts_of t (queue_of (note s r)).entries ≡ noted t (attempts_of t (queue_of s).entries) r
unfolding note add_to_queue remove_from_queue queue_of
attempts_of-note s (failure u message now later) t h = attempts_of-added u message now later t _
attempts_of-note s (success u) t h =
    rw (queue_of-remove s u) (attempts_of-removed u t (queue_of s).entries h)

pending-note :
    (t : Target) (n : ℕ) (r : Report) (rs : List Report)
    → pending t (noted t n r) rs ≡ pending t n (r ∷ rs)
pending-note t n (failure u message now later) rs = refl
pending-note t n (success u) rs = refl

-- Whatever successes and failures are reported, a queue with no two entries for one profile on one
-- machine, nor an entry with no attempt, stays so, and for every profile and machine it records as
-- attempts exactly the failures since the last success, on top of what it recorded before.
pub attempts_exact :
    (s : SyncState) (rs : List Report) (t : Target)
    → IsQueue (queue_of s).entries
    → IsQueue (queue_of (notes s rs)).entries
      × (attempts_of t (queue_of (notes s rs)).entries
          ≡ pending t (attempts_of t (queue_of s).entries) rs)
unfolding notes
attempts_exact s [] t h = (h, refl)
attempts_exact s (r ∷ rs) t h =
    let (well, counted) = attempts_exact (note s r) rs t (note-IsQueue s r h) in
    (
      well,
      counted
          ∙ ap (λ n. pending t n rs) (attempts_of-note s r t h)
          ∙ pending-note t (attempts_of t (queue_of s).entries) r rs,
    )
