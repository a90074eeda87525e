-- ===== src/Sync/Run/Isolation.antt =====
-- A machine that cannot be reached or listed does not disturb the sync with the others.
use caam_account_switching.Prelude.{
  String, ap, ◌++◌, Bool, true, false, none, some, List, [], ◌∷◌, ◌≡◌, refl, arith, filter,
  Bool-cases, Option-cases, inl, inr, All,
}
use caam_account_switching.Sync.State.{SyncState}
use caam_account_switching.Sync.Run.{
  Machine, Env, SyncResult, Mark, marked, sync_with_machine, sync_all_profiles, sync_all,
  kept_results,
}

-- A machine with its answers, and whether the context ends before it.
abbrev pub Stop : Type 0
Stop = Machine × Env × Bool

-- The connection works, and both lists of profiles can be read.
unfoldable pub answers : Env → Bool
answers env = elim env.connection [
  | some e ↦ false
  | none ↦ elim env.local_profiles [
    | none ↦ false
    | some here ↦ elim env.remote_profiles [ none ↦ false | some there ↦ true ]
  ]
]

-- A run that does not get to the profiles keeps the state and gives no results.
sync_with_machine-silent :
    (env : Env) (m : Machine) (s : SyncState)
    → answers env ≡ false
    → ((sync_with_machine env m s).state ≡ s) × (kept_results (sync_with_machine env m s) ≡ [])
unfolding answers sync_with_machine
sync_with_machine-silent env m s h = elim (Option-cases env.connection) [
  | inr (e, c) ↦ rw (c, sync_with_machine) (refl, refl)
  | inl c ↦ elim (Option-cases env.local_profiles) [
    | inl l ↦ rw (c, sync_with_machine) (rw l (refl, refl))
    | inr (here, l) ↦ elim (Option-cases env.remote_profiles) [
      | inl r ↦ rw (c, sync_with_machine) (rw (l, r) (refl, refl))
      | inr (there, r) ↦ let k = rw (c, l, r, answers) at h in ground arith
    ]
  ]
]

sync_with_machine-machine_error :
    (env : Env) (m : Machine) (s : SyncState)
    → (sync_with_machine env m s).machine_error ≡ env.connection
unfolding sync_with_machine sync_all_profiles
sync_with_machine-machine_error env m s = elim (Option-cases env.connection) [
  | inr (e, c) ↦ rw (c, sync_with_machine) refl
  | inl c ↦ elim (Option-cases env.local_profiles) [
    | inl l ↦ rw (c, sync_with_machine) (rw l refl)
    | inr (here, l) ↦ elim (Option-cases env.remote_profiles) [
      | inl r ↦ rw (c, sync_with_machine) (rw (l, r) refl)
      | inr (there, r) ↦ rw (c, sync_with_machine) (rw (l, r) refl)
    ]
  ]
]

-- The machines that cannot be reached, with the errors of their connections.
abbrev pub unreached : List Stop → List (String × String)
unreached [] = []
unreached ((m, env, cut) ∷ ms) = elim env.connection [
  | none ↦ unreached ms
  | some e ↦ (m.id, e) ∷ unreached ms
]

marked-unreached :
    (m : Machine) (env : Env) (cut : Bool) (ms : List Stop)
    → marked m env.connection (unreached ms) ≡ unreached ((m, env, cut) ∷ ms)
marked-unreached m env cut ms = elim (Option-cases env.connection) [
  | inl c ↦ rw (c, marked) refl
  | inr (e, c) ↦ rw (c, marked) refl
]

-- The state, the results, and whether the context has ended.
abbrev pub without_marks :
    SyncState × List SyncResult × Bool × List Mark → SyncState × List SyncResult × Bool
without_marks (s, rs, cut, marks) = (s, rs, cut)

-- Where the context does not end, `SyncAll` does with all machines what it does with those alone
-- that can be reached and listed: the same queue and history and the same results. The machines that
-- it marks as being in error are exactly those that cannot be reached, each with the error of its
-- connection.
pub sync_all_isolates :
    (ms : List Stop) (s : SyncState)
    → All (λ x. x.2 ≡ false) ms
    → (without_marks (sync_all ms s) ≡ without_marks (sync_all (filter (λ x. answers x.1) ms) s))
      × ((sync_all ms s).3 ≡ unreached ms)
unfolding sync_all
sync_all_isolates [] s h = (refl, refl)
sync_all_isolates ((m, env, cut) ∷ ms) s h = (
  elim (Bool-cases (answers env)) [
    | inl a ↦
        let (same, marks) = sync_all_isolates ms (sync_with_machine env m s).state h.1 in
        rw (a, h.0)
          (ap
            (λ (o : SyncState × List SyncResult × Bool).
              (o.0, kept_results (sync_with_machine env m s) ++ o.1, o.2))
            same)
    | inr a ↦
        let (kept, silent) = sync_with_machine-silent env m s a in
        rw (a, h.0, kept, silent) (sync_all_isolates ms s h.1).0
  ],
  rw
      (
        h.0,
        sync_with_machine-machine_error env m s,
        (sync_all_isolates ms (sync_with_machine env m s).state h.1).1,
      )
      (marked-unreached m env cut ms),
)
