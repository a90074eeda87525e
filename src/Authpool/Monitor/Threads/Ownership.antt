-- ===== src/Authpool/Monitor/Threads/Ownership.antt =====
-- What the operations of a thread do to its own profile and to the others.
use caam_account_switching.Prelude.{
  ℕ, String, Bool, true, false, ◌≡◌, ◌≢◌, inl, inr, refl, arith, Bool-cases, Option-cases,
}
use caam_account_switching.Prelude.Table.{lookup, lookup-put_self}
use caam_account_switching.Authpool.Status.{PoolStatus, refreshing, same_status}
use caam_account_switching.Authpool.Pool.{AuthPool, profile_key, set_status, try_mark_refreshing}
use caam_account_switching.Authpool.Pool.Operations.{
  sets_status, sets_error, marks_refreshed, write,
}
use caam_account_switching.Authpool.Pool.Notices.{with_status-status}
use caam_account_switching.Authpool.Pool.Frame.{write-Frames}
use caam_account_switching.Authpool.Monitor.{
  Monitor, Answer, renewed, refused, free_slot, finish_refresh,
}
use caam_account_switching.Authpool.Monitor.Failure.{
  IsMarked, try_mark-marked, lookup-try_mark, lookup-revert,
}
use caam_account_switching.Authpool.Monitor.Threads.{
  Stage, held, marked, counted, begun, reverting, releasing, leaving, forced_held, forced_counted,
  forced_marked, forced_begun, forced_leaving, Thread, Moment, marks, begins, advance,
}

-- Whether a refresh at a stage has marked its profile and has not yet written the outcome or the
-- status from before.
abbrev pub owns : Stage → Bool
owns marked = true
owns reverting = true
owns counted = true
owns begun = true
owns forced_marked = true
owns forced_begun = true
owns _ = false

abbrev pub key_of : Thread → String
key_of t = profile_key t.provider t.name

lookup-finish :
    (m : Monitor) (provider name key : String) (a : Answer) (now later : ℕ)
    → key ≢ profile_key provider name
    → lookup key (finish_refresh m provider name a now later).profiles ≡ lookup key m.pool.profiles
unfolding finish_refresh write
lookup-finish m provider name key (renewed x) now later h = ground (
  arith,
  (write-Frames m.pool provider name (marks_refreshed x now later)).others key h,
  (write-Frames m.pool provider name (sets_error "no refresher configured" now)).others key h,
)
lookup-finish m provider name key (refused s) now later h = ground (
  arith,
  (write-Frames m.pool provider name (sets_error s now)).others key h,
  (write-Frames m.pool provider name (sets_error "no refresher configured" now)).others key h,
)

lookup-set_status :
    (p : AuthPool) (provider name key : String) (s : PoolStatus) (now : ℕ)
    → key ≢ profile_key provider name
    → lookup key (set_status p provider name s now).pool.profiles ≡ lookup key p.profiles
lookup-set_status p provider name key s now h =
    unfold write in (write-Frames p provider name (sets_status s now)).others key h

-- An operation of a thread leaves the other profiles alone.
pub lookup-advance :
    (g : Stage) (m : Monitor) (t : Thread) (e : Moment) (key : String)
    → key ≢ key_of t
    → lookup key (advance g m t e).0.pool.profiles ≡ lookup key m.pool.profiles
unfolding advance free_slot
lookup-advance held m t e key h =
    ground (arith, lookup-try_mark m.pool t.provider t.name key e.now h)
lookup-advance forced_counted m t e key h =
    ground (arith, lookup-try_mark m.pool t.provider t.name key e.now h)
lookup-advance marked m t e key h = ground arith
lookup-advance forced_held m t e key h = ground arith
lookup-advance reverting m t e key h = lookup-revert m.pool t.provider t.name key t.previous e.now h
lookup-advance counted m t e key h =
    ground (arith, lookup-set_status m.pool t.provider t.name key refreshing e.now h)
lookup-advance forced_marked m t e key h =
    ground (arith, lookup-set_status m.pool t.provider t.name key refreshing e.now h)
lookup-advance begun m t e key h = lookup-finish m t.provider t.name key e.answer e.now e.later h
lookup-advance forced_begun m t e key h =
    lookup-finish m t.provider t.name key e.answer e.now e.later h
lookup-advance _ m t e key h = refl

-- While a profile is marked, a thread that does not own it cannot touch it or come to own it.
pub advance-outsider :
    (g : Stage) (m : Monitor) (t : Thread) (e : Moment)
    → owns g ≡ false
    → IsMarked m.pool (key_of t)
    → ((advance g m t e).0.pool ≡ m.pool) × (owns (advance g m t e).1 ≡ false)
unfolding advance free_slot
advance-outsider held m t e h k = ground (arith, try_mark-marked m.pool t.provider t.name e.now k)
advance-outsider forced_counted m t e h k =
    ground (arith, try_mark-marked m.pool t.provider t.name e.now k)
advance-outsider forced_held m t e h k = ground arith
advance-outsider marked m t e h k = cc
advance-outsider reverting m t e h k = cc
advance-outsider counted m t e h k = cc
advance-outsider begun m t e h k = cc
advance-outsider forced_marked m t e h k = cc
advance-outsider forced_begun m t e h k = cc
advance-outsider _ m t e h k = (refl, refl)

-- A mark that succeeds leaves the profile marked, and so does `SetStatus` to refreshing.
try_mark_marks :
    (p : AuthPool) (provider name : String) (now : ℕ)
    → (try_mark_refreshing p provider name now).result ≡ true
    → IsMarked (try_mark_refreshing p provider name now).pool (profile_key provider name)
unfolding try_mark_refreshing
try_mark_marks p provider name now h =
    elim (Option-cases (lookup (profile_key provider name) p.profiles)) [
      | inl e ↦ absurd (cc (rw (e, try_mark_refreshing) at h))
      | inr (q, e) ↦ elim (Bool-cases (same_status q.status refreshing)) [
        | inl b ↦ absurd (cc (rw b at (rw (e, try_mark_refreshing) at h)))
        | inr b ↦ rw (e, try_mark_refreshing) (rw b (_, lookup-put_self _ _ p.profiles, refl))
      ]
    ]

set_status_marks :
    (p : AuthPool) (provider name : String) (now : ℕ)
    → (set_status p provider name refreshing now).result ≡ true
    → IsMarked (set_status p provider name refreshing now).pool (profile_key provider name)
unfolding set_status
set_status_marks p provider name now h =
    elim (Option-cases (lookup (profile_key provider name) p.profiles)) [
      | inl e ↦ absurd (cc (rw (e, set_status) at h))
      | inr (q, e) ↦
          rw (e, set_status)
            (_, lookup-put_self _ _ p.profiles, with_status-status q refreshing now)
    ]

IsMarked-pool : (p p' : AuthPool) (key : String) → p' ≡ p → IsMarked p key → IsMarked p' key
IsMarked-pool p p' key e h = rw e h

marks-IsMarked :
    (m : Monitor) (t : Thread) (e : Moment) (g exit : Stage)
    → owns exit ≡ false
    → owns (marks m t e g exit).1 ≡ true
    → IsMarked (marks m t e g exit).0.pool (key_of t)
unfolding marks
marks-IsMarked m t e g exit out h =
    elim (Bool-cases (try_mark_refreshing m.pool t.provider t.name e.now).result) [
      | inl b ↦ rw b (try_mark_marks m.pool t.provider t.name e.now b)
      | inr b ↦ absurd (cc (out, rw b at h))
    ]

begins-IsMarked :
    (m : Monitor) (t : Thread) (e : Moment) (g exit : Stage)
    → owns exit ≡ false
    → owns (begins m t e g exit).1 ≡ true
    → IsMarked (begins m t e g exit).0.pool (key_of t)
unfolding begins
begins-IsMarked m t e g exit out h =
    elim (Bool-cases (set_status m.pool t.provider t.name refreshing e.now).result) [
      | inl b ↦ rw b (set_status_marks m.pool t.provider t.name e.now b)
      | inr b ↦ absurd (cc (out, rw b at h))
    ]

-- A thread that owns its profile after an operation finds it marked.
pub advance-owner :
    (g : Stage) (m : Monitor) (t : Thread) (e : Moment)
    → (owns g ≡ true → IsMarked m.pool (key_of t))
    → owns (advance g m t e).1 ≡ true
    → IsMarked (advance g m t e).0.pool (key_of t)
unfolding advance
advance-owner held m t e old h = marks-IsMarked m t e marked releasing refl h
advance-owner marked m t e old h = elim (Bool-cases m.stopping) [
  | inl b ↦ simp b (old refl)
  | inr b ↦ simp b (old refl)
]
advance-owner counted m t e old h = begins-IsMarked m t e begun leaving refl h
advance-owner forced_held m t e old h = absurd (ground arith)
advance-owner forced_counted m t e old h = marks-IsMarked m t e forced_marked forced_leaving refl h
advance-owner forced_marked m t e old h = begins-IsMarked m t e forced_begun forced_leaving refl h
advance-owner _ m t e old h = cc
