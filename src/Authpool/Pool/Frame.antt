-- ===== src/Authpool/Pool/Frame.antt =====
-- What the writes of pool.go leave alone, and the shape of the map that they keep.
use caam_account_switching.Prelude.{
  ℕ, String, some, ◌≡◌, ◌≢◌, ◌⊎◌, refl, arith, eq_iff, Option-cases, Bool-cases, inl, inr,
}
use caam_account_switching.Prelude.Table.{lookup, remove, lookup-put, lookup-remove}
use caam_account_switching.Authpool.Status.{
  PoolStatus, PooledProfile, refreshing, cooldown, same_status,
}
use caam_account_switching.Authpool.Pool.{
  AuthPool, profile_key, store, add_profile, remove_profile, set_status, with_status,
  try_mark_refreshing, set_error, set_cooldown, clear_cooldown, update_token_expiry, mark_refreshed,
  mark_used,
}
use caam_account_switching.Authpool.Pool.Operations.{
  Write, adds, removes, sets_status, tries_mark, sets_error, sets_cooldown, clears_cooldown,
  updates_expiry, marks_refreshed, marks_used, write,
}

-- A write changes at most the profile that it names, and no setting of the pool.
pub record Frames (p q : AuthPool) (key : String) : Type 0 where
  pub others : (k : String) → k ≢ key → lookup k q.profiles ≡ lookup k p.profiles
  pub threshold : q.refresh_threshold ≡ p.refresh_threshold
  pub default_cooldown : q.cooldown_duration ≡ p.cooldown_duration
  pub retries : q.max_retries ≡ p.max_retries
  pub callback : q.has_callback ≡ p.has_callback

Frames-refl : (p : AuthPool) (key : String) → Frames p p key
Frames-refl p key = record {
  others = λ k h. refl;
  threshold = refl;
  default_cooldown = refl;
  retries = refl;
  callback = refl;
}

Frames-store : (p : AuthPool) (key : String) (q : PooledProfile) → Frames p (store p key q) key
Frames-store p key q = record {
  others = λ k h. ground (arith, eq_iff key k, lookup-put key k q p.profiles);
  threshold = refl;
  default_cooldown = refl;
  retries = refl;
  callback = refl;
}

Frames-remove :
    (p : AuthPool) (key : String) → Frames p (record p { profiles = remove key p.profiles }) key
Frames-remove p key = record {
  others = λ k h. ground (arith, eq_iff key k, lookup-remove key k p.profiles);
  threshold = refl;
  default_cooldown = refl;
  retries = refl;
  callback = refl;
}

-- The names in a stored profile: those of the call, or those that stood under the key.
abbrev pub Origin : AuthPool → String → String → PooledProfile → Type 0
Origin p provider name q =
    ((q.provider ≡ provider) × (q.profile_name ≡ name))
    ⊎ ((o : PooledProfile) × (lookup (profile_key provider name) p.profiles ≡ some o)
        × (q.provider ≡ o.provider)
        × (q.profile_name ≡ o.profile_name))

-- Every write leaves the pool alone, stores a profile under its key, or deletes the key.
pub data Change (p : AuthPool) (provider name : String) (r : AuthPool) : Type 0 where
  same : r ≡ p → Change p provider name r
  stored :
      (q : PooledProfile)
      → r ≡ store p (profile_key provider name) q
      → Origin p provider name q
      → Change p provider name r
  deleted :
      r ≡ record p { profiles = remove (profile_key provider name) p.profiles }
      → Change p provider name r

module _ (p : AuthPool) (provider name : String) where
  abbrev key : String
  key = profile_key provider name

  add_profile-Change : (now : ℕ) → Change p provider name (add_profile p provider name now).pool
  unfolding add_profile
  add_profile-Change now = elim (Option-cases (lookup key p.profiles)) [
    | inl e ↦ rw (e, add_profile) (stored _ refl (inl (refl, refl)))
    | inr (q, e) ↦ rw (e, add_profile) (same refl)
  ]

  set_status-Change :
      (s : PoolStatus) (now : ℕ) → Change p provider name (set_status p provider name s now).pool
  unfolding set_status with_status
  set_status-Change s now = elim (Option-cases (lookup key p.profiles)) [
    | inl e ↦ rw (e, set_status) (same refl)
    | inr (q, e) ↦ rw (e, set_status) (stored _ refl (inr (q, e, ground arith, ground arith)))
  ]

  try_mark_refreshing-Change :
      (now : ℕ) → Change p provider name (try_mark_refreshing p provider name now).pool
  unfolding try_mark_refreshing
  try_mark_refreshing-Change now = elim (Option-cases (lookup key p.profiles)) [
    | inl e ↦ rw (e, try_mark_refreshing) (same refl)
    | inr (q, e) ↦ elim (Bool-cases (same_status q.status refreshing)) [
      | inl b ↦ rw (e, try_mark_refreshing) (rw b (same refl))
      | inr b ↦ rw (e, try_mark_refreshing) (rw b (stored _ refl (inr (q, e, refl, refl))))
    ]
  ]

  set_error-Change :
      (message : String) (now : ℕ) → Change p provider name (set_error p provider name message now)
  unfolding set_error
  set_error-Change message now = elim (Option-cases (lookup key p.profiles)) [
    | inl e ↦ rw (e, set_error) (same refl)
    | inr (q, e) ↦ rw (e, set_error) (stored _ refl (inr (q, e, refl, refl)))
  ]

  set_cooldown-Change :
      (d now later : ℕ) → Change p provider name (set_cooldown p provider name d now later).pool
  unfolding set_cooldown
  set_cooldown-Change d now later = elim (Option-cases (lookup key p.profiles)) [
    | inl e ↦ rw (e, set_cooldown) (same refl)
    | inr (q, e) ↦ rw (e, set_cooldown) (stored _ refl (inr (q, e, refl, refl)))
  ]

  clear_cooldown-Change : Change p provider name (clear_cooldown p provider name).pool
  unfolding clear_cooldown
  clear_cooldown-Change = elim (Option-cases (lookup key p.profiles)) [
    | inl e ↦ rw (e, clear_cooldown) (same refl)
    | inr (q, e) ↦ elim (Bool-cases (same_status q.status cooldown)) [
      | inl b ↦ rw (e, clear_cooldown) (rw b (stored _ refl (inr (q, e, refl, refl))))
      | inr b ↦ rw (e, clear_cooldown) (rw b (same refl))
    ]
  ]

  update_token_expiry-Change :
      (e now later : ℕ)
      → Change p provider name (update_token_expiry p provider name e now later).pool
  unfolding update_token_expiry
  update_token_expiry-Change expiry now later = elim (Option-cases (lookup key p.profiles)) [
    | inl e ↦ rw (e, update_token_expiry) (same refl)
    | inr (q, e) ↦ rw (e, update_token_expiry) (stored _ refl (inr (q, e, refl, refl)))
  ]

  mark_refreshed-Change :
      (e now later : ℕ) → Change p provider name (mark_refreshed p provider name e now later).pool
  unfolding mark_refreshed
  mark_refreshed-Change expiry now later = elim (Option-cases (lookup key p.profiles)) [
    | inl e ↦ rw (e, mark_refreshed) (same refl)
    | inr (q, e) ↦ rw (e, mark_refreshed) (stored _ refl (inr (q, e, refl, refl)))
  ]

  mark_used-Change : (now : ℕ) → Change p provider name (mark_used p provider name now)
  unfolding mark_used
  mark_used-Change now = elim (Option-cases (lookup key p.profiles)) [
    | inl e ↦ rw (e, mark_used) (same refl)
    | inr (q, e) ↦ rw (e, mark_used) (stored _ refl (inr (q, e, refl, refl)))
  ]

  pub write-Change : (w : Write) → Change p provider name (write p provider name w).0
  unfolding write remove_profile
  write-Change (adds now) = add_profile-Change now
  write-Change removes = deleted refl
  write-Change (sets_status s now) = set_status-Change s now
  write-Change (tries_mark now) = try_mark_refreshing-Change now
  write-Change (sets_error message now) = set_error-Change message now
  write-Change (sets_cooldown d now later) = set_cooldown-Change d now later
  write-Change clears_cooldown = clear_cooldown-Change
  write-Change (updates_expiry e now later) = update_token_expiry-Change e now later
  write-Change (marks_refreshed e now later) = mark_refreshed-Change e now later
  write-Change (marks_used now) = mark_used-Change now

-- A write on one profile leaves every other profile and every setting of the pool as they were.
pub write-Frames :
    (p : AuthPool) (provider name : String) (w : Write)
    → Frames p (write p provider name w).0 (profile_key provider name)
write-Frames p provider name w = elim (write-Change p provider name w) [
  | same e ↦ rw e (Frames-refl p _)
  | stored q e _ ↦ rw e (Frames-store p _ q)
  | deleted e ↦ rw e (Frames-remove p _)
]
