-- ===== src/Authpool/Monitor/Threads/Shutdown.antt =====
-- What `Stop` waits for, and what it may rely on once the wait is over.
use caam_account_switching.Prelude.{ℕ, ◌≤◌, ◌<◌, Bool, true, false, ◌≡◌, arith}
use caam_account_switching.Authpool.Monitor.{Monitor, stop, take_slot, free_slot}
use caam_account_switching.Authpool.Monitor.Threads.{
  Stage, idle, Thread, Moment, advance, System, Step, arrives, advances, starts, stops, sweeps,
  uses, adds, writes, loads, Reach, at_rest,
}
use caam_account_switching.Authpool.Monitor.Threads.Slots.{
  group_of, total-le, Inv, at_rest-Inv, Step-Inv, Reach-Inv,
}

-- Whether a step is a call of `Start`.
abbrev pub is_start : {n : ℕ} {s t : System} → Step n s t → Bool
is_start starts = true
is_start _ = false

-- Steps of the system in which nobody starts the monitor again.
pub data Winding (n : ℕ) (s : System) : System → Type 0 where
  done : Winding n s s
  more : {t u : System} → Winding n s t → (st : Step n t u) → is_start st ≡ false → Winding n s u

-- While the monitor is stopping, no operation of a thread joins the wait group.
advance-stopping :
    (g : Stage) (m : Monitor) (t : Thread) (e : Moment)
    → m.stopping ≡ true
    → let r = advance g m t e in (r.0.stopping ≡ true) × (r.0.waiting ≤ m.waiting)
unfolding advance free_slot
advance-stopping idle m t e h = (h, omega arith)
advance-stopping _ m t e h = ground arith

Step-stopping :
    {n : ℕ} {s t : System} (st : Step n s t)
    → is_start st ≡ false
    → s.monitor.stopping ≡ true
    → (t.monitor.stopping ≡ true) × (t.monitor.waiting ≤ s.monitor.waiting)
unfolding take_slot stop
Step-stopping (arrives i forced p q o lt rest slot) h k = (k, omega arith)
Step-stopping {n} {s} (advances i e lt) h k =
    advance-stopping (s.threads i).stage s.monitor (s.threads i) e k
Step-stopping starts h k = cc
Step-stopping stops h k = ground arith
Step-stopping (sweeps now) h k = (k, omega arith)
Step-stopping (uses p q now) h k = (k, omega arith)
Step-stopping (adds p q now) h k = (k, omega arith)
Step-stopping (writes p q w) h k = (k, omega arith)
Step-stopping (loads state) h k = (k, omega arith)

Winding-stopping :
    {n : ℕ} {s t : System}
    → Winding n s t
    → s.monitor.stopping ≡ true
    → (t.monitor.stopping ≡ true) × (t.monitor.waiting ≤ s.monitor.waiting)
Winding-stopping done k = (k, omega arith)
Winding-stopping (more w st h) k =
    let (k', le) = Winding-stopping w k in
    let (k'', le') = Step-stopping st h k' in (k'', omega (arith, le, le'))

Winding-Inv : {n : ℕ} {s t : System} → Winding n s t → Inv n s → Inv n t
Winding-Inv done v = v
Winding-Inv (more w st h) v = Step-Inv st (Winding-Inv w v)

-- Once `Stop` has set its flag, the wait group never grows until the next `Start`, and it counts at
-- least every refresh that is between its admission and its end; so when its wait is over (the group
-- is empty), there is no such refresh, neither then nor in any later state before the next `Start`.
-- The monitor begins with free slots and an empty group.
pub stopped_quiet :
    {n : ℕ} (m : Monitor) {s t : System} (i : ℕ)
    → m.slots ≡ 0
    → m.waiting ≡ 0
    → Reach n (at_rest m) s
    → s.monitor.stopping ≡ true
    → Winding n s t
    → i < n
    → (t.monitor.waiting ≤ s.monitor.waiting) × (group_of (t.threads i).stage ≤ t.monitor.waiting)
stopped_quiet {n} m {s} {t} i h k r on w lt =
    let v = Winding-Inv w (Reach-Inv (at_rest-Inv n m h k) r) in
    let (still, le) = Winding-stopping w on in
    (le, omega (arith, v.group, total-le group_of n t.threads i lt))
