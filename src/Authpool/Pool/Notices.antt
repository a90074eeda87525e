-- ===== src/Authpool/Pool/Notices.antt =====
-- When `onStateChange` is called.
use caam_account_switching.Prelude.{
  ℕ, String, true, Option, none, some, List, [], ◌∷◌, ◌≡◌, refl, sym, ap, ◌∙◌, arith, Option-cases,
  Bool-cases, inl, inr, if◌then◌else◌, ◌==◌,
}
use caam_account_switching.Prelude.Table.{lookup, lookup-put_self}
use caam_account_switching.Authpool.Status.{
  PoolStatus, unknown, ready, refreshing, expired, cooldown, error, PooledProfile, same_status,
}
use caam_account_switching.Authpool.Pool.{
  AuthPool, Notice, profile_key, notify, set_status, with_status, set_cooldown, clear_cooldown,
  update_token_expiry, mark_refreshed,
}
use caam_account_switching.Authpool.Pool.Operations.{
  Effect, effect, Write, sets_status, sets_cooldown, clears_cooldown, updates_expiry,
  marks_refreshed, write,
}

-- The writes that go through `onStateChange`.
pub data Announces : Write → Type 0 where
  status : (s : PoolStatus) (now : ℕ) → Announces (sets_status s now)
  cool : (d now later : ℕ) → Announces (sets_cooldown d now later)
  clear : Announces clears_cooldown
  expiry : (e now later : ℕ) → Announces (updates_expiry e now later)
  refresh : (e now later : ℕ) → Announces (marks_refreshed e now later)

-- A number for each status.
abbrev rank : PoolStatus → ℕ
rank unknown = 0
rank ready = 1
rank refreshing = 2
rank expired = 3
rank cooldown = 4
rank error = 5

-- The call that is due between two states of a profile: one, if the callback is set and the
-- statuses differ, with the later profile and both statuses.
abbrev pub due : AuthPool → Option PooledProfile → Option PooledProfile → List Notice
due p none after = []
due p (some q) none = []
due p (some q) (some r) =
    let call : Notice = record { profile = r; old_status = q.status; new_status = r.status } in
    if p.has_callback then if rank q.status == rank r.status then [] else call ∷ [] else []

pub with_status-status :
    (q : PooledProfile) (s : PoolStatus) (now : ℕ) → (with_status q s now).status ≡ s
unfolding with_status
with_status-status q s now = ground arith

same_status_refl : (s : PoolStatus) → same_status s s ≡ true
unfolding same_status
same_status_refl unknown = refl
same_status_refl _ = refl

same_status-cooldown : (s : PoolStatus) → same_status s cooldown ≡ true → s ≡ cooldown
unfolding same_status
same_status-cooldown s h = ground arith

same_status-rank : (a b : PoolStatus) → same_status a b ≡ (rank a == rank b)
unfolding same_status
same_status-rank a b = ground arith

-- What `notify` does is what is due.
notify-due :
    (p : AuthPool) (q r : PooledProfile) (s : PoolStatus)
    → r.status ≡ s
    → notify p r q.status s ≡ due p (some q) (some r)
unfolding notify
notify-due p q r s h = rw (sym h) (rw (notify, same_status-rank q.status r.status) (ground arith))

-- No call is due where the status is the same.
notify-same : (p : AuthPool) (q : PooledProfile) → notify p q q.status q.status ≡ []
unfolding notify
notify-same p q = rw (same_status_refl q.status) (ground arith)

module _ (p : AuthPool) (provider name : String) where
  abbrev Tells : Effect → Type 0
  Tells f =
      let key = profile_key provider name in
      f.1 ≡ due p (lookup key p.profiles) (lookup key f.0.profiles)

  clear-Tells :
      (q : PooledProfile)
      → lookup (profile_key provider name) p.profiles ≡ some q
      → Tells (effect (clear_cooldown p provider name))
  unfolding clear_cooldown
  clear-Tells q e = elim (Bool-cases (same_status q.status cooldown)) [
    | inl b ↦
        let r = record q { status = ready; cooldown_until = 0 } in
        rw (e, clear_cooldown)
          (rw b (
            rw lookup-put_self (
              ap (λ s. notify p r s ready) (sym (same_status-cooldown q.status b))
              ∙ notify-due p q r ready refl)))
    | inr b ↦
        rw (e, clear_cooldown)
          (rw b (rw e (sym (notify-same p q) ∙ notify-due p q q q.status refl)))
  ]

  -- A write that announces calls the callback exactly when it is set and the profile's status
  -- changed, once, with the profile as it is afterwards and the status before and after.
  pub notices_exact :
      (w : Write)
      → Announces w
      → let key = profile_key provider name in
        (write p provider name w).1
        ≡ due p (lookup key p.profiles) (lookup key (write p provider name w).0.profiles)
  unfolding write set_status set_cooldown clear_cooldown update_token_expiry mark_refreshed
  notices_exact w (status s now) =
      elim (Option-cases (lookup (profile_key provider name) p.profiles)) [
        | inl e ↦ rw (e, set_status) refl
        | inr (q, e) ↦
            rw (e, set_status)
              (rw lookup-put_self
                (notify-due p q (with_status q s now) s (with_status-status q s now)))
      ]
  notices_exact w (cool d now later) =
      elim (Option-cases (lookup (profile_key provider name) p.profiles)) [
        | inl e ↦ rw (e, set_cooldown) refl
        | inr (q, e) ↦ rw (e, set_cooldown) (rw lookup-put_self (notify-due p q _ _ refl))
      ]
  notices_exact w clear = elim (Option-cases (lookup (profile_key provider name) p.profiles)) [
    | inl e ↦ rw (e, clear_cooldown) refl
    | inr (q, e) ↦ clear-Tells q e
  ]
  notices_exact w (expiry x now later) =
      elim (Option-cases (lookup (profile_key provider name) p.profiles)) [
        | inl e ↦ rw (e, update_token_expiry) refl
        | inr (q, e) ↦ rw (e, update_token_expiry) (rw lookup-put_self (notify-due p q _ _ refl))
      ]
  notices_exact w (refresh x now later) =
      elim (Option-cases (lookup (profile_key provider name) p.profiles)) [
        | inl e ↦ rw (e, mark_refreshed) refl
        | inr (q, e) ↦ rw (e, mark_refreshed) (rw lookup-put_self (notify-due p q _ _ refl))
      ]
