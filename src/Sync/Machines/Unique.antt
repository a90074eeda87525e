-- ===== src/Sync/Machines/Unique.antt =====
-- The names of the machines of a pool are unique.
use mathlib.Core.Option
use mathlib.Core.Bool
use caam_account_switching.Prelude.{
  ℕ, String, Bool, false, none, List, [], ◌∷◌, ◌≡◌, sym, str_eq, All, Bool-cases, Option-cases, inl,
  inr,
}
use caam_account_switching.Prelude.Table.{Table, put, remove, has_key, values}
use caam_account_switching.Sync.Machines.{
  Machine, SyncPool, validate, find_name, add_valid, add_machine, remove_machine, set_enabled,
  set_auto_sync, record_full_sync,
}

module _ {ℓ κ} {V : Type ℓ} (P : V → Type κ) where
  All-values-put :
      (k : String) (v : V) (t : Table V) → P v → All P (values t) → All P (values (put k v t))
  unfolding put
  All-values-put k v [] p all = (p, tt)
  All-values-put k v ((j, w) ∷ t) p all = elim (Bool-cases (str_eq j k)) [
    | inl is ↦ rw is (p, all.1)
    | inr apart ↦ rw apart (all.0, All-values-put k v t p all.1)
  ]

  All-values-remove : (k : String) (t : Table V) → All P (values t) → All P (values (remove k t))
  unfolding remove
  All-values-remove k [] all = all
  All-values-remove k ((j, w) ∷ t) all = elim (Bool-cases (str_eq j k)) [
    | inl is ↦ rw is (All-values-remove k t all.1)
    | inr apart ↦ rw apart (all.0, All-values-remove k t all.1)
  ]

module _ (equal_fold : String → String → Bool) where
  -- No machine has the name of an earlier one.
  abbrev pub IsUnique : List Machine → Type 0
  IsUnique [] = Unit {0}
  IsUnique (m ∷ ms) = All (λ n. equal_fold m.name n.name ≡ false) ms × IsUnique ms

  find_name-none :
      (name : String) (ms : List Machine)
      → find_name equal_fold name ms ≡ none
      → All (λ n. equal_fold n.name name ≡ false) ms
  unfolding find_name
  find_name-none name [] h = tt
  find_name-none name (m ∷ ms) h = elim (Bool-cases (equal_fold m.name name)) [
    | inl same ↦ absurd (Option.none-ne-some m (sym (rw (find_name, same) at h)))
    | inr apart ↦ (apart, find_name-none name ms (rw (find_name, apart) at h))
  ]

  put-IsUnique :
      (m : Machine) (t : Table Machine)
      → has_key m.id t ≡ false
      → All (λ n. equal_fold n.name m.name ≡ false) (values t)
      → IsUnique (values t)
      → IsUnique (values (put m.id m t))
  unfolding put
  put-IsUnique m [] h all u = (tt, tt)
  put-IsUnique m ((j, w) ∷ t) h all u = elim (Bool-cases (str_eq j m.id)) [
    | inl is ↦ absurd (Bool.true≢false (rw is at h))
    | inr apart ↦ rw apart (
      All-values-put (λ n. equal_fold w.name n.name ≡ false) m.id m t all.0 u.0,
      put-IsUnique m t (rw apart at h) all.1 u.1,
    )
  ]

  remove-IsUnique :
      (k : String) (t : Table Machine) → IsUnique (values t) → IsUnique (values (remove k t))
  unfolding remove
  remove-IsUnique k [] u = u
  remove-IsUnique k ((j, w) ∷ t) u = elim (Bool-cases (str_eq j k)) [
    | inl is ↦ rw is (remove-IsUnique k t u.1)
    | inr apart ↦
        rw apart (
          All-values-remove (λ n. equal_fold w.name n.name ≡ false) k t u.0,
          remove-IsUnique k t u.1,
        )
  ]

  add_machine-IsUnique :
      (p : SyncPool) (m : Machine)
      → IsUnique (values p.machines)
      → IsUnique (values (add_machine equal_fold p m).0.machines)
  unfolding add_machine add_valid
  add_machine-IsUnique p m u = elim (Option-cases (validate m)) [
    | inr (e, bad) ↦ rw (add_machine, bad) u
    | inl good ↦ elim (Bool-cases (has_key m.id p.machines)) [
      | inl there ↦ rw (add_machine, good, add_valid, there) u
      | inr fresh ↦ elim (Option-cases (find_name equal_fold m.name (values p.machines))) [
        | inr (o, taken) ↦ rw (add_machine, good, add_valid, fresh, taken) u
        | inl free ↦
            rw (add_machine, good, add_valid, fresh, free)
              (put-IsUnique m p.machines fresh (find_name-none m.name (values p.machines) free) u)
      ]
    ]
  ]

  remove_machine-IsUnique :
      (p : SyncPool) (id : String)
      → IsUnique (values p.machines)
      → IsUnique (values (remove_machine p id).0.machines)
  unfolding remove_machine
  remove_machine-IsUnique p id u = elim (Bool-cases (has_key id p.machines)) [
    | inl there ↦ rw (remove_machine, there) (remove-IsUnique id p.machines u)
    | inr gone ↦ rw (remove_machine, gone) u
  ]

-- The changes of a pool other than UpdateMachine.
pub data Change : Type 0 where
  adds : Machine → Change
  removes : String → Change
  switches switches_auto : Bool → Change
  syncs : ℕ → Change

unfoldable pub change : (String → String → Bool) → SyncPool → Change → SyncPool
unfolding add_machine remove_machine set_enabled set_auto_sync record_full_sync
change equal_fold p (adds m) = (add_machine equal_fold p m).0
change equal_fold p (removes id) = (remove_machine p id).0
change equal_fold p (switches b) = set_enabled b p
change equal_fold p (switches_auto b) = set_auto_sync b p
change equal_fold p (syncs now) = record_full_sync now p

unfoldable pub after_changes : (String → String → Bool) → SyncPool → List Change → SyncPool
unfolding change
after_changes equal_fold p [] = p
after_changes equal_fold p (c ∷ cs) = after_changes equal_fold (change equal_fold p c) cs

change-IsUnique :
    (equal_fold : String → String → Bool) (p : SyncPool) (c : Change)
    → IsUnique equal_fold (values p.machines)
    → IsUnique equal_fold (values (change equal_fold p c).machines)
unfolding change set_enabled set_auto_sync record_full_sync
change-IsUnique equal_fold p (adds m) u = add_machine-IsUnique equal_fold p m u
change-IsUnique equal_fold p (removes id) u = remove_machine-IsUnique equal_fold p id u
change-IsUnique equal_fold p (switches b) u = u
change-IsUnique equal_fold p (switches_auto b) u = u
change-IsUnique equal_fold p (syncs now) u = u

-- Through every sequence of additions, removals, switches and full syncs, refused ones included, no
-- two machines of a pool have names that are equal up to case, if that held before. An update is
-- not among these changes.
pub after_changes-IsUnique :
    (equal_fold : String → String → Bool) (p : SyncPool) (cs : List Change)
    → IsUnique equal_fold (values p.machines)
    → IsUnique equal_fold (values (after_changes equal_fold p cs).machines)
unfolding after_changes
after_changes-IsUnique equal_fold p [] u = u
after_changes-IsUnique equal_fold p (c ∷ cs) u =
    after_changes-IsUnique equal_fold (change equal_fold p c) cs (change-IsUnique equal_fold p c u)
