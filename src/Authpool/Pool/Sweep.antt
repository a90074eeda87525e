-- ===== src/Authpool/Pool/Sweep.antt =====
-- The loop of `CheckAndUpdateCooldowns` as a map over the profiles, a filter and a count.
use caam_account_switching.Prelude.{
  ℕ, ◌+◌, ◌<◌, String, Bool, false, some, List, [], ◌∷◌, ◌≡◌, refl, arith, ltb, ◌==◌, if◌then◌else◌,
  count, length, sym, ap, ◌∙◌,
}
use mathlib.Core.Option
use caam_account_switching.Prelude.Table.{
  Table, lookup, IsMap, values, update_all, update_all-IsMap, lookup-update_all, lookup-put_self,
}
use caam_account_switching.Authpool.Status.{
  PoolStatus, unknown, ready, refreshing, expired, cooldown, error, same_status, PooledProfile,
  is_in_cooldown,
}
use caam_account_switching.Authpool.Pool.{
  AuthPool, Notice, set_cooldown, profile_key, clear_expired, cooldown_over,
  check_and_update_cooldowns,
}

-- A profile in cooldown whose end is known and has passed.
abbrev pub has_lapsed : ℕ → PooledProfile → Bool
has_lapsed now q = elim q.status [
  | cooldown ↦ if ltb 0 q.cooldown_until then ltb q.cooldown_until now else false
  | unknown ↦ false
  | ready ↦ false
  | refreshing ↦ false
  | expired ↦ false
  | error ↦ false
]

-- The profile, ready and without a cooldown.
abbrev pub renewed : PooledProfile → PooledProfile
renewed q = record q { status = ready; cooldown_until = 0 }

-- What a sweep at a time makes of one profile.
abbrev pub swept : ℕ → PooledProfile → PooledProfile
swept now q = if has_lapsed now q then renewed q else q

-- The calls of the callback, in the order of the map.
abbrev pub cleared_notices : ℕ → Table PooledProfile → List Notice
cleared_notices now [] = []
cleared_notices now ((k, q) ∷ m) =
    let rest = cleared_notices now m in
    let call : Notice = record { profile = renewed q; old_status = cooldown; new_status = ready } in
    if has_lapsed now q then call ∷ rest else rest

cooldown_over-status :
    (now : ℕ) (q : PooledProfile) (s : PoolStatus)
    → q.status ≡ s
    → cooldown_over now q ≡ has_lapsed now q
unfolding cooldown_over same_status
cooldown_over-status now q cooldown h = rw (cooldown_over, h) (ground arith)
cooldown_over-status now q unknown h = rw (cooldown_over, h) refl
cooldown_over-status now q ready h = rw (cooldown_over, h) refl
cooldown_over-status now q refreshing h = rw (cooldown_over, h) refl
cooldown_over-status now q expired h = rw (cooldown_over, h) refl
cooldown_over-status now q error h = rw (cooldown_over, h) refl

cooldown_over-lem : (now : ℕ) (q : PooledProfile) → cooldown_over now q ≡ has_lapsed now q
cooldown_over-lem now q = cooldown_over-status now q q.status refl

module _ (b : Bool) (now : ℕ) where
  pub clear_expired-table :
      (m : Table PooledProfile) → (clear_expired b now m).0 ≡ update_all (swept now) m
  unfolding clear_expired update_all
  clear_expired-table [] = refl
  clear_expired-table ((k, q) ∷ m) =
      rw (cooldown_over-lem now q) (ground (arith, clear_expired-table m))

  pub clear_expired-count :
      (m : Table PooledProfile) → (clear_expired b now m).2 ≡ count (has_lapsed now) (values m)
  unfolding clear_expired
  clear_expired-count [] = refl
  clear_expired-count ((k, q) ∷ m) =
      rw (cooldown_over-lem now q) (ground (arith, clear_expired-count m))

  pub clear_expired-notices :
      (m : Table PooledProfile)
      → (clear_expired b now m).1 ≡ (if b then cleared_notices now m else [])
  unfolding clear_expired
  clear_expired-notices [] = ground arith
  clear_expired-notices ((k, q) ∷ m) =
      rw (cooldown_over-lem now q) (ground (arith, clear_expired-notices m))

  pub clear_expired-IsMap : (m : Table PooledProfile) → IsMap m → IsMap (clear_expired b now m).0
  clear_expired-IsMap m h = rw (clear_expired-table m) (update_all-IsMap (swept now) m h)

cleared_notices-count :
    (now : ℕ) (m : Table PooledProfile)
    → length (cleared_notices now m) ≡ count (has_lapsed now) (values m)
cleared_notices-count now [] = refl
cleared_notices-count now ((k, q) ∷ m) = ground (arith, cleared_notices-count now m)

-- A sweep clears exactly the cooldowns that have run out: the profile under a key afterwards is
-- the swept one, the result counts the cleared profiles, and the callback, if there is one, is
-- called once for each of them.
pub sweep_exact :
    (p : AuthPool) (now : ℕ)
    → let o = check_and_update_cooldowns p now in
      ((k : String) → lookup k o.pool.profiles ≡ Option.map (swept now) (lookup k p.profiles))
      × (o.result ≡ count (has_lapsed now) (values p.profiles))
      × (o.notices ≡ (if p.has_callback then cleared_notices now p.profiles else []))
      × (length (cleared_notices now p.profiles) ≡ o.result)
unfolding check_and_update_cooldowns
sweep_exact p now = (
  λ k.
      rw (clear_expired-table p.has_callback now p.profiles)
        (lookup-update_all (swept now) k p.profiles),
  clear_expired-count p.has_callback now p.profiles,
  clear_expired-notices p.has_callback now p.profiles,
  cleared_notices-count now p.profiles ∙ sym (clear_expired-count p.has_callback now p.profiles),
)

-- What `SetCooldown` stores.
abbrev pub cooled : AuthPool → PooledProfile → ℕ → ℕ → ℕ → PooledProfile
cooled p q duration now later = record q {
  status = cooldown;
  cooldown_until = now + (if duration == 0 then p.cooldown_duration else duration);
  last_check = later;
}

module _ (p : AuthPool) (provider name : String) (duration now later : ℕ) (q : PooledProfile)
    (e : lookup (profile_key provider name) p.profiles ≡ some q) where
  lookup-set_cooldown :
      lookup
        (profile_key provider name)
        (set_cooldown p provider name duration now later).pool.profiles
      ≡ some (cooled p q duration now later)
  unfolding set_cooldown
  lookup-set_cooldown = rw (e, set_cooldown) (lookup-put_self _ _ p.profiles)

  swept-cooled :
      (t : ℕ)
      → 0 < now
      → swept t (cooled p q duration now later) ≡ (
          if ltb (cooled p q duration now later).cooldown_until t
          then renewed (cooled p q duration now later)
          else cooled p q duration now later)
  swept-cooled t pos = ground arith

-- A profile put into cooldown at `now` for `duration` (the default of the pool if that is 0) is in
-- cooldown at every time before the end, is not usable, and a sweep makes it ready exactly when it
-- comes after the end.
pub cooldown_lapses :
    (p : AuthPool) (provider name : String) (duration now later t : ℕ) (q : PooledProfile)
    → 0 < now
    → lookup (profile_key provider name) p.profiles ≡ some q
    → let until = now + (if duration == 0 then p.cooldown_duration else duration) in
      let p₁ = (set_cooldown p provider name duration now later).pool in
      (c : PooledProfile) × (lookup (profile_key provider name) p₁.profiles ≡ some c)
      × (c.status ≡ cooldown)
      × (is_in_cooldown c t ≡ ltb t until)
      × (lookup (profile_key provider name) (check_and_update_cooldowns p₁ t).pool.profiles
          ≡ some (if ltb until t then record c { status = ready; cooldown_until = 0 } else c))
unfolding is_in_cooldown
cooldown_lapses p provider name duration now later t q pos e = (
  cooled p q duration now later,
  lookup-set_cooldown p provider name duration now later q e,
  refl,
  ground arith,
  (sweep_exact _ t).0 _
      ∙ ap (Option.map (swept t)) (lookup-set_cooldown p provider name duration now later q e)
      ∙ ap some (swept-cooled p provider name duration now later q e t pos),
)
