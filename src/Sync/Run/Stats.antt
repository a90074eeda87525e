-- ===== src/Sync/Run/Stats.antt =====
-- internal/sync/algorithm.go: the statistics of a run.
use caam_account_switching.Prelude.{
  ℕ, suc, ◌+◌, Bool, true, false, not, ◌&&◌, List, [], ◌∷◌, ◌≡◌, refl, arith, if◌then◌else◌, length,
  count, Bool-cases, inl, inr, ◌⊎◌,
}
use caam_account_switching.Sync.Decision.{SyncDirection, push, pull, skip}
use caam_account_switching.Sync.Run.{SyncResult}

pub record SyncStats : Type 0 where
  pub total : ℕ
  pub pushed : ℕ
  pub pulled : ℕ
  pub skipped : ℕ
  pub failed : ℕ
  pub bytes_sent : ℕ
  pub bytes_received : ℕ
  pub duration : ℕ

-- The `switch` on the direction, with the sums behind it.
unfoldable pub count_success : SyncDirection → SyncResult → SyncStats → SyncStats
count_success d r t =
    let t' = record t {
      bytes_sent = t.bytes_sent + r.bytes_sent;
      bytes_received = t.bytes_received + r.bytes_received;
      duration = t.duration + r.duration;
    } in
    elim d [
      | push ↦ record t' { pushed = suc t.pushed }
      | pull ↦ record t' { pulled = suc t.pulled }
      | skip ↦ record t' { skipped = suc t.skipped }
    ]

unfoldable pub aggregate : List SyncResult → SyncStats → SyncStats
unfolding count_success
aggregate [] t = t
aggregate (r ∷ rs) t =
    let t' = record t { total = suc t.total } in
    aggregate rs
      (if r.success then count_success r.direction r t' else record t' { failed = suc t.failed })

unfoldable pub aggregate_results : List SyncResult → SyncStats
unfolding aggregate
aggregate_results rs = aggregate rs (record {
  total = 0;
  pushed = 0;
  pulled = 0;
  skipped = 0;
  failed = 0;
  bytes_sent = 0;
  bytes_received = 0;
  duration = 0;
})

unfoldable pub is_push : SyncDirection → Bool
is_push push = true
is_push pull = false
is_push skip = false

unfoldable pub is_pull : SyncDirection → Bool
is_pull push = false
is_pull pull = true
is_pull skip = false

unfoldable pub is_skip : SyncDirection → Bool
is_skip push = false
is_skip pull = false
is_skip skip = true

-- The successes among the results in a direction.
unfoldable pub succeeded_with : (SyncDirection → Bool) → List SyncResult → ℕ
succeeded_with f rs = count (λ r. r.success && f r.direction) rs

unfoldable pub failures : List SyncResult → ℕ
failures rs = count (λ r. not r.success) rs

-- The time that the successes took.
unfoldable pub time_of_successes : List SyncResult → ℕ
time_of_successes [] = 0
time_of_successes (r ∷ rs) =
    let rest = time_of_successes rs in if r.success then r.duration + rest else rest

-- The counters after some results, from the counters before.
Counts : SyncStats → List SyncResult → SyncStats → Type 0
Counts t rs u =
    (u.total ≡ t.total + length rs)
    × (u.pushed ≡ t.pushed + succeeded_with is_push rs)
    × (u.pulled ≡ t.pulled + succeeded_with is_pull rs)
    × (u.skipped ≡ t.skipped + succeeded_with is_skip rs)
    × (u.failed ≡ t.failed + failures rs)
    × (u.duration ≡ t.duration + time_of_successes rs)

direction-cases : (d : SyncDirection) → (d ≡ push) ⊎ (d ≡ pull) ⊎ (d ≡ skip)
direction-cases push = inl refl
direction-cases pull = inr (inl refl)
direction-cases skip = inr (inr refl)

count_one : SyncResult → SyncStats → SyncStats
unfolding count_success
count_one r t =
    let t' = record t { total = suc t.total } in
    if r.success then count_success r.direction r t' else record t' { failed = suc t.failed }

count_one-Counts :
    (r : SyncResult) (rs : List SyncResult) (t u : SyncStats)
    → Counts (count_one r t) rs u
    → Counts t (r ∷ rs) u
unfolding Counts count_one count_success succeeded_with failures time_of_successes is_push is_pull
    is_skip
count_one-Counts r rs t u h = elim (Bool-cases r.success) [
  | inl e ↦ elim (direction-cases r.direction) [
    | inl d ↦ let k = rw (e, d) at h in rw (e, d) (ground arith)
    | inr (inl d) ↦ let k = rw (e, d) at h in rw (e, d) (ground arith)
    | inr (inr d) ↦ let k = rw (e, d) at h in rw (e, d) (ground arith)
  ]
  | inr e ↦ let k = rw e at h in rw e (ground arith)
]

aggregate-Counts : (rs : List SyncResult) (t : SyncStats) → Counts t rs (aggregate rs t)
unfolding aggregate count_one Counts succeeded_with failures time_of_successes
aggregate-Counts [] t = ground arith
aggregate-Counts (r ∷ rs) t =
    count_one-Counts r rs t (aggregate rs (count_one r t)) (aggregate-Counts rs (count_one r t))

length-outcomes :
    (rs : List SyncResult)
    → length rs
      ≡ succeeded_with is_push rs
        + succeeded_with is_pull rs
        + succeeded_with is_skip rs
        + failures rs
unfolding succeeded_with failures is_push is_pull is_skip
length-outcomes [] = refl
length-outcomes (r ∷ rs) =
    let h = length-outcomes rs in
    elim (Bool-cases r.success) [
      | inl e ↦ elim (direction-cases r.direction) [
        | inl d ↦ rw (e, d) (omega arith)
        | inr (inl d) ↦ rw (e, d) (omega arith)
        | inr (inr d) ↦ rw (e, d) (omega arith)
      ]
      | inr e ↦ rw e (omega arith)
    ]

abbrev no_stats : SyncStats
no_stats = record {
  total = 0;
  pushed = 0;
  pulled = 0;
  skipped = 0;
  failed = 0;
  bytes_sent = 0;
  bytes_received = 0;
  duration = 0;
}

-- Every result is counted once: it is a failure, or a success that was a push, a pull or a skip; and
-- the time is that of the successes.
pub aggregate_exact :
    (rs : List SyncResult)
    → let t = aggregate_results rs in
      (t.total ≡ length rs)
      × (t.total ≡ t.pushed + t.pulled + t.skipped + t.failed)
      × (t.pushed ≡ succeeded_with is_push rs)
      × (t.pulled ≡ succeeded_with is_pull rs)
      × (t.skipped ≡ succeeded_with is_skip rs)
      × (t.failed ≡ failures rs)
      × (t.duration ≡ time_of_successes rs)
unfolding aggregate_results Counts
aggregate_exact rs = omega (arith, length-outcomes rs, aggregate-Counts rs no_stats)
