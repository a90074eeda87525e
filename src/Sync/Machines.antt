-- ===== src/Sync/Machines.antt =====
-- internal/sync/pool.go and machine.go: the pool of machines. `strings.EqualFold` is a function; the
-- file of the pool and the order of ListMachines are left out.
pub mod Unique
use caam_account_switching.Prelude.{
  ℕ, String, Bool, true, false, ◌&&◌, ◌||◌, Option, none, some, List, [], ◌∷◌, ◌==◌, str_eq,
  if◌then◌else◌, filter, length,
}
use caam_account_switching.Prelude.Table.{Table, lookup, put, remove, has_key, values}

pub record Machine : Type 0 where
  pub id : String
  pub name : String
  pub address : String
  pub port : ℕ
  pub ssh_user : String
  pub ssh_key_path : String
  pub remote_path : String
  pub status : String
  pub last_sync : ℕ
  pub last_error : String
  pub last_error_at : ℕ
  pub added_at : ℕ
  pub source : String

pub record SyncPool : Type 0 where
  pub local_machine_id : String
  pub machines : Table Machine
  pub enabled : Bool
  pub auto_sync : Bool
  pub last_full_sync : ℕ

pub data PoolError : Type 0 where
  name_required address_required duplicate_id duplicate_name unknown_machine : PoolError

abbrev pub Changed : Type 0
Changed = SyncPool × Option PoolError

abbrev pub new_sync_pool : SyncPool
new_sync_pool = record {
  local_machine_id = "";
  machines = [];
  enabled = false;
  auto_sync = false;
  last_full_sync = 0;
}

unfoldable pub validate : Machine → Option PoolError
validate m =
    if str_eq m.name ""
    then some name_required
    else if str_eq m.address ""
    then some address_required
    else none

-- The loop over the machines that looks for a name.
unfoldable pub find_name : (String → String → Bool) → String → List Machine → Option Machine
find_name equal_fold name [] = none
find_name equal_fold name (m ∷ ms) =
    let rest = find_name equal_fold name ms in if equal_fold m.name name then some m else rest

unfoldable pub get_machine_by_name : (String → String → Bool) → SyncPool → String → Option Machine
unfolding find_name
get_machine_by_name equal_fold p name = find_name equal_fold name (values p.machines)

-- `AddMachine` of a valid machine.
unfoldable pub add_valid : (String → String → Bool) → SyncPool → Machine → Changed
unfolding find_name
add_valid equal_fold p m =
    if has_key m.id p.machines
    then (p, some duplicate_id)
    else elim (find_name equal_fold m.name (values p.machines)) [
      | some other ↦ (p, some duplicate_name)
      | none ↦ (record p { machines = put m.id m p.machines }, none)
    ]

unfoldable pub add_machine : (String → String → Bool) → SyncPool → Machine → Changed
unfolding validate add_valid
add_machine equal_fold p m = elim (validate m) [
  | some e ↦ (p, some e)
  | none ↦ add_valid equal_fold p m
]

unfoldable pub remove_machine : SyncPool → String → Changed
remove_machine p id =
    if has_key id p.machines
    then (record p { machines = remove id p.machines }, none)
    else (p, some unknown_machine)

unfoldable pub update_machine : SyncPool → Machine → Changed
unfolding validate
update_machine p m = elim (validate m) [
  | some e ↦ (p, some e)
  | none ↦
      if has_key m.id p.machines
      then (record p { machines = put m.id m p.machines }, none)
      else (p, some unknown_machine)
]

unfoldable pub get_machine : SyncPool → String → Option Machine
get_machine p id = lookup id p.machines

-- `Enable` and `Disable`
unfoldable pub set_enabled : Bool → SyncPool → SyncPool
set_enabled b p = record p { enabled = b }

-- `EnableAutoSync` and `DisableAutoSync`
unfoldable pub set_auto_sync : Bool → SyncPool → SyncPool
set_auto_sync b p = record p { auto_sync = b }

unfoldable pub record_full_sync : ℕ → SyncPool → SyncPool
record_full_sync now p = record p { last_full_sync = now }

unfoldable pub online_machines : SyncPool → List Machine
online_machines p = filter (λ m. str_eq m.status "online") (values p.machines)

unfoldable pub offline_machines : SyncPool → List Machine
offline_machines p =
    filter (λ m. str_eq m.status "offline" || str_eq m.status "error") (values p.machines)
