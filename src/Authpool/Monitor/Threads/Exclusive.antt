-- ===== src/Authpool/Monitor/Threads/Exclusive.antt =====
-- No profile is refreshed by two goroutines at once.
use caam_account_switching.Prelude.{
  ℕ, String, Bool, true, false, some, ◌≡◌, ◌≢◌, inl, inr, refl, sym, ap, ◌∙◌, arith, ◌==◌, str_eq,
  eq_iff, Bool-cases,
}
use caam_account_switching.Prelude.Table.{lookup, lookup-put_self}
use caam_account_switching.Authpool.Pool.{
  AuthPool, profile_key, mark_used, add_profile, check_and_update_cooldowns,
}
use caam_account_switching.Authpool.Pool.Operations.{marks_used, write}
use caam_account_switching.Authpool.Pool.Vault.{lookup-add_profile}
use caam_account_switching.Authpool.Pool.Frame.{write-Frames}
use caam_account_switching.Authpool.Monitor.{Monitor, take_slot, start, stop}
use caam_account_switching.Authpool.Monitor.Failure.{IsMarked}
use caam_account_switching.Authpool.Monitor.Stuck.{IsMarked-same, lookup-sweep}
use caam_account_switching.Authpool.Monitor.Threads.{
  Stage, Thread, Moment, advance, System, set_thread, arrival, Step, arrives, advances, starts,
  stops, sweeps, uses, adds as adds_step, writes, loads, at_rest,
}
use caam_account_switching.Authpool.Monitor.Threads.Ownership.{
  owns, key_of, lookup-advance, advance-outsider, advance-owner,
}

-- Every owned profile is marked, and has one owner.
pub record Exclusive (p : AuthPool) (f : ℕ → Thread) : Type 0 where
  pub owned : (i : ℕ) → owns (f i).stage ≡ true → IsMarked p (key_of (f i))
  pub unique :
      (i j : ℕ)
      → owns (f i).stage ≡ true
      → owns (f j).stage ≡ true
      → key_of (f i) ≡ key_of (f j)
      → i ≡ j

-- A change of the pool that keeps every mark.
Exclusive-pool :
    (p p' : AuthPool) (f : ℕ → Thread)
    → ((key : String) → IsMarked p key → IsMarked p' key)
    → Exclusive p f
    → Exclusive p' f
Exclusive-pool p p' f keep x = record { owned = λ i h. keep _ (x.owned i h); unique = x.unique }

arrives-owns : (forced : Bool) → owns (arrival forced) ≡ false
arrives-owns true = refl
arrives-owns false = refl

-- A thread that comes in owns nothing.
arrives-Exclusive :
    (p : AuthPool) (f : ℕ → Thread) (i : ℕ) (t : Thread)
    → owns t.stage ≡ false
    → Exclusive p f
    → Exclusive p (set_thread f i t)
arrives-Exclusive p f i t h x = record {
  owned = λ j o. elim (Bool-cases (i == j)) [
    | inl e ↦ absurd (cc (h, rw e at o))
    | inr e ↦ rw e (x.owned j (rw e at o))
  ];
  unique = λ j k oj ok same. ground (arith, x.unique j k);
}

module _ (m : Monitor) (f : ℕ → Thread) (i : ℕ) (e : Moment) (x : Exclusive m.pool f) where
  abbrev after : Monitor × Stage
  after = advance (f i).stage m (f i) e

  abbrev moved : ℕ → Thread
  moved = set_thread f i (record (f i) { stage = after.1 })

  -- Nobody else owns the profile of a thread that owns it after its operation.
  sole_owner :
      (k : ℕ)
      → (i == k) ≡ false
      → owns after.1 ≡ true
      → owns (f k).stage ≡ true
      → key_of (f i) ≢ key_of (f k)
  sole_owner k ne o ok same = elim (Bool-cases (owns (f i).stage)) [
    | inl old ↦ absurd (ground (arith, x.unique i k old ok same))
    | inr new ↦ cc (o, (advance-outsider (f i).stage m (f i) e new (rw same (x.owned k ok))).1)
  ]

  -- The marks of the other owners stay.
  others_owned :
      (k : ℕ) → (i == k) ≡ false → owns (f k).stage ≡ true → IsMarked after.0.pool (key_of (f k))
  others_owned k ne ok = elim (Bool-cases (str_eq (key_of (f i)) (key_of (f k)))) [
    | inl same ↦
        let eq = (eq_iff (key_of (f i)) (key_of (f k))).0 same in
        elim (Bool-cases (owns (f i).stage)) [
          | inl old ↦ absurd (ground (arith, x.unique i k old ok eq))
          | inr new ↦
              IsMarked-same m.pool after.0.pool (key_of (f k))
                (ap (λ (p : AuthPool). lookup (key_of (f k)) p.profiles)
                  (advance-outsider (f i).stage m (f i) e new (rw eq (x.owned k ok))).0)
                (x.owned k ok)
        ]
    | inr other ↦
        IsMarked-same m.pool after.0.pool (key_of (f k))
          (lookup-advance (f i).stage m (f i) e (key_of (f k))
            (λ q. absurd (cc (other, (eq_iff (key_of (f i)) (key_of (f k))).1 (sym q)))))
          (x.owned k ok)
  ]

  moved_unique :
      (j k : ℕ)
      → owns (moved j).stage ≡ true
      → owns (moved k).stage ≡ true
      → key_of (moved j) ≡ key_of (moved k)
      → j ≡ k
  moved_unique j k oj ok same = elim (Bool-cases (i == j)) [
    | inl a ↦ elim (Bool-cases (i == k)) [
      | inl b ↦ ground arith
      | inr b ↦ absurd (sole_owner k b (rw a at oj) (rw b at ok) (rw (a, b) at same))
    ]
    | inr a ↦ elim (Bool-cases (i == k)) [
      | inl b ↦ absurd (sole_owner j a (rw b at ok) (rw a at oj) (sym (rw (a, b) at same)))
      | inr b ↦ x.unique j k (rw a at oj) (rw b at ok) (rw (a, b) at same)
    ]
  ]

  advances-Exclusive : Exclusive after.0.pool moved
  advances-Exclusive = record {
    owned = λ k ok. elim (Bool-cases (i == k)) [
      | inl a ↦ rw a (advance-owner (f i).stage m (f i) e (x.owned i) (rw a at ok))
      | inr a ↦ rw a (others_owned k a (rw a at ok))
    ];
    unique = moved_unique;
  }

IsMarked-used :
    (p : AuthPool) (provider name key : String) (now : ℕ)
    → IsMarked p key
    → IsMarked (mark_used p provider name now) key
unfolding mark_used
IsMarked-used p provider name key now (r, e, s) =
    elim (Bool-cases (str_eq (profile_key provider name) key)) [
      | inl same ↦
          let eq = (eq_iff (profile_key provider name) key).0 same in
          let found : lookup (profile_key provider name) p.profiles ≡ some r = rw eq e in
          rw (found, mark_used)
            (record r { last_used = now }, rw eq (lookup-put_self key _ p.profiles), s)
      | inr other ↦ (
        r,
        unfold write in
            (write-Frames p provider name (marks_used now)).others key
              (λ q. absurd (cc (other, (eq_iff (profile_key provider name) key).1 (sym q))))
            ∙ e,
        s,
      )
    ]

IsMarked-added :
    (p : AuthPool) (provider name key : String) (now : ℕ)
    → IsMarked p key
    → IsMarked (add_profile p provider name now).pool key
IsMarked-added p provider name key now (r, e, s) =
    (r, rw (lookup-add_profile p provider name now key, e) refl, s)

start-pool : (m : Monitor) → (start m).0.pool ≡ m.pool
unfolding start
start-pool m = ground arith

stop-pool : (m : Monitor) → (stop m).0.pool ≡ m.pool
unfolding stop
stop-pool m = ground arith

-- Whether a step changes no status of a profile but by the refreshes and the sweep.
abbrev pub is_gentle : {n : ℕ} {s t : System} → Step n s t → Bool
is_gentle (writes p q w) = false
is_gentle (loads state) = false
is_gentle _ = true

-- The states reached by such steps.
pub data Gentle (n : ℕ) (s : System) : System → Type 0 where
  still : Gentle n s s
  then : {t u : System} → Gentle n s t → (st : Step n t u) → is_gentle st ≡ true → Gentle n s u

pub Step-Exclusive :
    {n : ℕ} {s t : System} (st : Step n s t)
    → is_gentle st ≡ true
    → Exclusive s.monitor.pool s.threads
    → Exclusive t.monitor.pool t.threads
unfolding take_slot
Step-Exclusive {n} {s} (arrives i forced p q o lt rest slot) g x =
    arrives-Exclusive s.monitor.pool s.threads i _ (arrives-owns forced) x
Step-Exclusive {n} {s} (advances i e lt) g x = advances-Exclusive s.monitor s.threads i e x
Step-Exclusive {n} {s} starts g x =
    Exclusive-pool s.monitor.pool (start s.monitor).0.pool s.threads
      (λ key h. rw (start-pool s.monitor) h) x
Step-Exclusive {n} {s} stops g x =
    Exclusive-pool s.monitor.pool (stop s.monitor).0.pool s.threads
      (λ key h. rw (stop-pool s.monitor) h) x
Step-Exclusive {n} {s} (sweeps now) g x =
    Exclusive-pool s.monitor.pool (check_and_update_cooldowns s.monitor.pool now).pool s.threads
      (λ key h.
        IsMarked-same s.monitor.pool (check_and_update_cooldowns s.monitor.pool now).pool key
          (lookup-sweep s.monitor.pool key now h) h)
      x
Step-Exclusive {n} {s} (uses p q now) g x =
    Exclusive-pool s.monitor.pool (mark_used s.monitor.pool p q now) s.threads
      (λ key h. IsMarked-used s.monitor.pool p q key now h) x
Step-Exclusive {n} {s} (adds_step p q now) g x =
    Exclusive-pool s.monitor.pool (add_profile s.monitor.pool p q now).pool s.threads
      (λ key h. IsMarked-added s.monitor.pool p q key now h) x
Step-Exclusive (writes p q w) g x = cc
Step-Exclusive (loads state) g x = cc

Gentle-Exclusive :
    {n : ℕ} {s t : System}
    → Exclusive s.monitor.pool s.threads
    → Gentle n s t
    → Exclusive t.monitor.pool t.threads
Gentle-Exclusive x still = x
Gentle-Exclusive x (then r st g) = Step-Exclusive st g (Gentle-Exclusive x r)

-- However the refreshes of a monitor interleave, and whatever profiles are added or used meanwhile,
-- two different goroutines never have the same profile marked for refreshing at the same time, from
-- the mark until the outcome or the status from before is written. No profile is removed or loaded,
-- and no status written by others, meanwhile.
pub one_refresh_per_profile :
    {n : ℕ} (m : Monitor) {s : System} (i j : ℕ)
    → Gentle n (at_rest m) s
    → owns (s.threads i).stage ≡ true
    → owns (s.threads j).stage ≡ true
    → key_of (s.threads i) ≡ key_of (s.threads j)
    → i ≡ j
one_refresh_per_profile m i j r oi oj same =
    (Gentle-Exclusive (record { owned = λ k h. cc; unique = λ k l h. cc }) r).unique i j oi oj same
