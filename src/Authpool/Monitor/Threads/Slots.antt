-- ===== src/Authpool/Monitor/Threads/Slots.antt =====
-- The semaphore and the wait group, counted over the threads.
use caam_account_switching.Prelude.{
  ℕ, zero, suc, ◌+◌, ◌≤◌, ◌<◌, Bool, true, ◌≡◌, inl, inr, refl, ap, arith, ◌==◌, Bool-cases,
}
use caam_account_switching.Authpool.Monitor.{Monitor, has_slot, take_slot, free_slot, start, stop}
use caam_account_switching.Authpool.Monitor.Threads.{
  Stage, idle, counted, begun, leaving, departing, forced_counted, forced_marked, forced_begun,
  forced_leaving, Thread, Moment, advance, System, set_thread, arrival, after_advance, Step,
  arrives, advances, starts, stops, sweeps, uses, adds, writes, loads, Reach, here, next, at_rest,
}

-- Whether a stage holds a slot of the semaphore, and whether it counts in the wait group.
abbrev pub slot_of : Stage → ℕ
slot_of idle = 0
slot_of departing = 0
slot_of _ = 1

abbrev pub group_of : Stage → ℕ
group_of counted = 1
group_of forced_counted = 1
group_of forced_marked = 1
group_of begun = 1
group_of leaving = 1
group_of departing = 1
group_of forced_begun = 1
group_of forced_leaving = 1
group_of _ = 0

module _ (weight : Stage → ℕ) where
  -- The weight of the first `n` threads.
  pub total : ℕ → (ℕ → Thread) → ℕ
  total zero f = 0
  total (suc n) f = weight (f n).stage + total n f

  total-above :
      (n : ℕ) (f : ℕ → Thread) (i : ℕ) (t : Thread) → n ≤ i → total n (set_thread f i t) ≡ total n f
  unfolding total
  total-above zero f i t h = refl
  total-above (suc n) f i t h = ground (arith, total-above n f i t)

  pub total-set_thread :
      (n : ℕ) (f : ℕ → Thread) (i : ℕ) (t : Thread)
      → i < n
      → total n (set_thread f i t) + weight (f i).stage ≡ total n f + weight t.stage
  unfolding total
  total-set_thread zero f i t h = absurd (omega arith)
  total-set_thread (suc n) f i t h = elim (Bool-cases (i == n)) [
    | inl e ↦ ground (arith, total-above n f i t)
    | inr e ↦ ground (arith, total-set_thread n f i t)
  ]

  pub total-le : (n : ℕ) (f : ℕ → Thread) (i : ℕ) → i < n → weight (f i).stage ≤ total n f
  unfolding total
  total-le zero f i h = absurd (omega arith)
  total-le (suc n) f i h = ground (arith, total-le n f i)

-- Slots and counter of a monitor.
pub record Inv (n : ℕ) (s : System) : Type 0 where
  pub slots : s.monitor.slots ≡ total slot_of n s.threads
  pub bounded : s.monitor.slots ≤ s.monitor.config.max_concurrent
  pub group : s.monitor.waiting ≡ total group_of n s.threads

-- What one operation of a thread does to the counters, if they cover the thread.
advance-counts :
    (g : Stage) (m : Monitor) (t : Thread) (e : Moment)
    → slot_of g ≤ m.slots
    → group_of g ≤ m.waiting
    → let r = advance g m t e in
      (r.0.slots + slot_of g ≡ m.slots + slot_of r.1)
      × (r.0.waiting + group_of g ≡ m.waiting + group_of r.1)
      × (r.0.config ≡ m.config)
      × (slot_of r.1 ≤ slot_of g)
unfolding advance free_slot
advance-counts idle m t e h k = ground arith
advance-counts _ m t e h k = ground arith

arrives-Inv :
    (n i : ℕ) (forced : Bool) (t : Thread) (s : System)
    → t.stage ≡ arrival forced
    → i < n
    → (s.threads i).stage ≡ idle
    → has_slot s.monitor ≡ true
    → Inv n s
    → Inv n (record { monitor = take_slot s.monitor; threads = set_thread s.threads i t })
unfolding take_slot has_slot
arrives-Inv n i forced t s a lt rest slot v = record {
  slots = ground (arith, total-set_thread slot_of n s.threads i t);
  bounded = ground arith;
  group = ground (arith, total-set_thread group_of n s.threads i t);
}

advances-Inv : (n i : ℕ) (e : Moment) (s : System) → i < n → Inv n s → Inv n (after_advance s i e)
advances-Inv n i e s lt v =
    let g = (s.threads i).stage in
    let r = advance g s.monitor (s.threads i) e in
    let t : Thread = record (s.threads i) { stage = r.1 } in
    let (sl, gr, cf, le) =
      advance-counts g s.monitor (s.threads i) e
        (omega (arith, total-le slot_of n s.threads i lt, v.slots))
        (omega (arith, total-le group_of n s.threads i lt, v.group)) in
    record {
      slots = omega (arith, sl, v.slots, total-set_thread slot_of n s.threads i t lt);
      bounded = rw cf (omega (arith, sl, le, v.bounded));
      group = omega (arith, gr, v.group, total-set_thread group_of n s.threads i t lt);
    }

-- Every step keeps the counts.
pub Step-Inv : {n : ℕ} {s t : System} → Step n s t → Inv n s → Inv n t
unfolding start stop
Step-Inv {n} {s} (arrives i forced p q o lt rest slot) v =
    arrives-Inv n i forced _ s refl lt rest slot v
Step-Inv {n} {s} (advances i e lt) v = advances-Inv n i e s lt v
Step-Inv starts v = ground arith
Step-Inv stops v = ground arith
Step-Inv (sweeps now) v = record { slots = v.slots; bounded = v.bounded; group = v.group }
Step-Inv (uses p q now) v = record { slots = v.slots; bounded = v.bounded; group = v.group }
Step-Inv (adds p q now) v = record { slots = v.slots; bounded = v.bounded; group = v.group }
Step-Inv (writes p q w) v = record { slots = v.slots; bounded = v.bounded; group = v.group }
Step-Inv (loads state) v = record { slots = v.slots; bounded = v.bounded; group = v.group }

total-idle :
    (w : Stage → ℕ) (n : ℕ) (f : ℕ → Thread)
    → w idle ≡ 0
    → ((i : ℕ) → (f i).stage ≡ idle)
    → total w n f ≡ 0
unfolding total
total-idle w zero f h all = refl
total-idle w (suc n) f h all = omega (arith, ap w (all n), h, total-idle w n f h all)

pub at_rest-Inv : (n : ℕ) (m : Monitor) → m.slots ≡ 0 → m.waiting ≡ 0 → Inv n (at_rest m)
at_rest-Inv n m h k = record {
  slots = omega (arith, h, total-idle slot_of n (at_rest m).threads refl (λ i. refl));
  bounded = omega (arith, h);
  group = omega (arith, k, total-idle group_of n (at_rest m).threads refl (λ i. refl));
}

pub Reach-Inv : {n : ℕ} {s t : System} → Inv n s → Reach n s t → Inv n t
Reach-Inv v here = v
Reach-Inv v (next r st) = Step-Inv st (Reach-Inv v r)

-- However the refreshes of a monitor interleave with each other and with calls of the pool by
-- others, from a monitor whose slots are free and whose wait group is empty, the
-- taken slots are those of the refreshes on their way, there are never more of them than
-- MaxConcurrent, and the wait group counts the refreshes that were admitted and have
-- not left it.
pub slots_bounded :
    {n : ℕ} (m : Monitor) {s : System}
    → m.slots ≡ 0
    → m.waiting ≡ 0
    → Reach n (at_rest m) s
    → (s.monitor.slots ≡ total slot_of n s.threads)
      × (s.monitor.slots ≤ s.monitor.config.max_concurrent)
      × (s.monitor.waiting ≡ total group_of n s.threads)
slots_bounded {n} m h k r =
    let v = Reach-Inv (at_rest-Inv n m h k) r in (v.slots, v.bounded, v.group)
