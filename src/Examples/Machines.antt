-- ===== src/Examples/Machines.antt =====
-- A pool of machines of internal/sync at a concrete input.
use caam_account_switching.Prelude.{true, [], ◌∷◌, String, refl, str_eq}
use caam_account_switching.Prelude.Table.{values}
use caam_account_switching.Sync.Machines.{Machine, new_sync_pool, SyncPool}
use caam_account_switching.Sync.Machines.Unique.{
  IsUnique, adds, removes, switches, after_changes, after_changes-IsUnique,
}

abbrev machine : String → String → Machine
machine id name = record {
  id = id;
  name = name;
  address = "10.0.0.2";
  port = 22;
  ssh_user = "";
  ssh_key_path = "";
  remote_path = "";
  status = "unknown";
  last_sync = 0;
  last_error = "";
  last_error_at = 0;
  added_at = 1;
  source = "manual";
}

abbrev office : SyncPool
office = record new_sync_pool {
  machines = ("m1", machine "m1" "laptop") ∷ ("m2", machine "m2" "desk") ∷ [];
}

-- The second machine has the name of the first.
after_changes-IsUnique_example : IsUnique str_eq (
    values
      (after_changes str_eq office (
        removes "m2"
        ∷ adds (machine "m3" "desk")
        ∷ adds (machine "m4" "laptop")
        ∷ switches true
        ∷ [])).machines)
after_changes-IsUnique_example =
    after_changes-IsUnique str_eq office
      (removes "m2"
        ∷ adds (machine "m3" "desk")
        ∷ adds (machine "m4" "laptop")
        ∷ switches true
        ∷ [])
      ((refl, tt), (tt, tt))
