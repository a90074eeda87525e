-- ===== src/Sync/Throttle.antt =====
-- internal/sync/autosync.go: `SyncThrottler`.
use Prim.Native.String.{◌++◌ as append}
use caam_account_switching.Prelude.{
  ℕ, ◌+◌, String, Bool, true, false, none, some, [], ◌≡◌, refl, arith, ltb, ◌==◌, str_eq,
  if◌then◌else◌, not, Bool-cases, inl, inr,
}
use caam_account_switching.Prelude.Table.{Table, lookup, put, lookup-put}

pub record SyncThrottler : Type 0 where
  pub last_sync : Table ℕ
  pub min_interval : ℕ

abbrev pub default_throttle_interval : ℕ
default_throttle_interval = 30000000000

unfoldable pub new_throttler : ℕ → SyncThrottler
new_throttler d = record {
  last_sync = [];
  min_interval = if d == 0 then default_throttle_interval else d;
}

-- `profileKey` of this package
unfoldable pub throttle_key : String → String → String
throttle_key provider profile = append provider (append "/" profile)

-- `time.Since(last) < t.minInterval`, as an order of instants
unfoldable pub should_sync : SyncThrottler → String → String → ℕ → Bool
should_sync t provider profile now = elim (lookup (throttle_key provider profile) t.last_sync) [
  | none ↦ true
  | some last ↦ if ltb now (last + t.min_interval) then false else true
]

unfoldable pub record_sync : SyncThrottler → String → String → ℕ → SyncThrottler
record_sync t provider profile now = record t {
  last_sync = put (throttle_key provider profile) now t.last_sync;
}

unfoldable pub reset : SyncThrottler → SyncThrottler
reset t = record t { last_sync = [] }

-- The zero time if there is none.
unfoldable pub last_sync_time : SyncThrottler → String → String → ℕ
last_sync_time t provider profile = elim (lookup (throttle_key provider profile) t.last_sync) [
  | none ↦ 0
  | some last ↦ last
]

unfoldable pub set_throttle_interval : SyncThrottler → ℕ → SyncThrottler
set_throttle_interval t d = if d == 0 then t else record t { min_interval = d }

set_throttle_interval-last_sync :
    (t : SyncThrottler) (d : ℕ) → (set_throttle_interval t d).last_sync ≡ t.last_sync
unfolding set_throttle_interval
set_throttle_interval-last_sync t d = ground arith

set_throttle_interval-min_interval :
    (t : SyncThrottler) (d : ℕ)
    → (set_throttle_interval t d).min_interval ≡ (if d == 0 then t.min_interval else d)
unfolding set_throttle_interval
set_throttle_interval-min_interval t d = ground arith

-- A recorded sync of a profile holds off the next one of that profile for exactly the interval that
-- is set by then (an interval of 0 leaves the one before), and does not change the answer for any
-- profile with another key.
pub throttle_holds :
    (t : SyncThrottler) (provider profile other_provider other : String) (at now d : ℕ)
    → let span = if d == 0 then t.min_interval else d in
      should_sync
        (set_throttle_interval (record_sync t provider profile at) d)
        other_provider
        other
        now
      ≡ (if str_eq (throttle_key provider profile) (throttle_key other_provider other)
          then not (ltb now (at + span))
          else should_sync (set_throttle_interval t d) other_provider other now)
unfolding should_sync record_sync
throttle_holds t provider profile other_provider other at now d =
    let k = throttle_key provider profile in
    let j = throttle_key other_provider other in
    rw
      (
        set_throttle_interval-last_sync (record_sync t provider profile at) d,
        set_throttle_interval-min_interval (record_sync t provider profile at) d,
        set_throttle_interval-last_sync t d,
        set_throttle_interval-min_interval t d,
      )
      (rw (should_sync, record_sync, lookup-put k j at t.last_sync)
        (elim (Bool-cases (str_eq k j)) [ inl e ↦ rw e (ground arith) | inr e ↦ rw e refl ]))
