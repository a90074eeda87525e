-- ===== src/Authpool/Pool/Invariant.antt =====
-- The map of a pool stays a map, and each profile stands under the key of its own names.
use caam_account_switching.Prelude.{
  ℕ, String, Option, none, some, List, [], ◌∷◌, ◌≡◌, refl, sym, ap, ◌∙◌, arith, eq_iff, inl, inr,
}
use mathlib.Core.Path.{ap₂}
use mathlib.Core.Option
use caam_account_switching.Prelude.Table.{
  lookup, remove, IsMap, lookup-put, lookup-remove, put-IsMap, remove-IsMap,
}
use caam_account_switching.Authpool.Status.{PooledProfile}
use caam_account_switching.Authpool.Pool.{
  AuthPool, profile_key, store, new_auth_pool, apply_options, PoolOption, with_refresh_threshold,
  with_cooldown_duration, with_max_retries, with_on_state_change, with_vault,
  check_and_update_cooldowns,
}
use caam_account_switching.Authpool.Pool.Frame.{same, stored, deleted, Origin, write-Change}
use caam_account_switching.Authpool.Pool.Sweep.{swept, sweep_exact, clear_expired-IsMap}
use caam_account_switching.Authpool.Pool.Operations.{Write, write, Operation, on, sweep, step, run}

abbrev pub own_key : PooledProfile → String
own_key q = profile_key q.provider q.profile_name

pub record IsWell (p : AuthPool) : Type 0 where
  pub is_map : IsMap p.profiles
  pub keyed : (k : String) (q : PooledProfile) → lookup k p.profiles ≡ some q → own_key q ≡ k

Origin-own_key :
    (p : AuthPool) (provider name : String) (q : PooledProfile)
    → IsWell p
    → Origin p provider name q
    → own_key q ≡ profile_key provider name
Origin-own_key p provider name q w (inl (a, b)) = ap₂ profile_key a b
Origin-own_key p provider name q w (inr (o, e, a, b)) = ap₂ profile_key a b ∙ w.keyed _ o e

store-IsWell :
    (p : AuthPool) (key : String) (q : PooledProfile)
    → IsWell p
    → own_key q ≡ key
    → IsWell (store p key q)
store-IsWell p key q w named = record {
  is_map = put-IsMap key q p.profiles w.is_map;
  keyed = λ k r e. ground (arith, lookup-put key k q p.profiles, eq_iff key k, w.keyed k r);
}

remove-IsWell :
    (p : AuthPool) (key : String)
    → IsWell p
    → IsWell (record p { profiles = remove key p.profiles })
remove-IsWell p key w = record {
  is_map = remove-IsMap key p.profiles w.is_map;
  keyed = λ k r e. ground (arith, lookup-remove key k p.profiles, eq_iff key k, w.keyed k r);
}

pub write-IsWell :
    (p : AuthPool) (provider name : String) (w : Write)
    → IsWell p
    → IsWell (write p provider name w).0
write-IsWell p provider name w h = elim (write-Change p provider name w) [
  | same e ↦ rw e h
  | stored q e o ↦ rw e (store-IsWell p _ q h (Origin-own_key p provider name q h o))
  | deleted e ↦ rw e (remove-IsWell p _ h)
]

own_key-swept : (now : ℕ) (q : PooledProfile) → own_key (swept now q) ≡ own_key q
own_key-swept now q = ground arith

map-some :
    (now : ℕ) (o : Option PooledProfile) (r : PooledProfile)
    → Option.map (swept now) o ≡ some r
    → (q : PooledProfile) × (o ≡ some q) × (swept now q ≡ r)
map-some now none r e = cc
map-some now (some q) r e = (q, refl, ground arith)

sweep-IsWell : (p : AuthPool) (now : ℕ) → IsWell p → IsWell (check_and_update_cooldowns p now).pool
unfolding check_and_update_cooldowns
sweep-IsWell p now h = record {
  is_map = clear_expired-IsMap p.has_callback now p.profiles h.is_map;
  keyed = λ k r e.
      let (q, found, s) =
        map-some now (lookup k p.profiles) r (sym ((sweep_exact p now).0 k) ∙ e) in
      sym (ap own_key s) ∙ own_key-swept now q ∙ h.keyed k q found;
}

pub step-IsWell : (p : AuthPool) (o : Operation) → IsWell p → IsWell (step p o).0
unfolding step
step-IsWell p (on provider name w) h = write-IsWell p provider name w h
step-IsWell p (sweep now) h = sweep-IsWell p now h

run_from-IsWell : (p : AuthPool) (os : List Operation) → IsWell p → IsWell (run p os)
unfolding run
run_from-IsWell p [] h = h
run_from-IsWell p (o ∷ os) h = run_from-IsWell (step p o).0 os (step-IsWell p o h)

apply_options-profiles :
    (p : AuthPool) (opts : List PoolOption) → (apply_options p opts).profiles ≡ p.profiles
unfolding apply_options
apply_options-profiles p [] = refl
apply_options-profiles p (with_refresh_threshold d ∷ opts) = apply_options-profiles _ opts
apply_options-profiles p (with_cooldown_duration d ∷ opts) = apply_options-profiles _ opts
apply_options-profiles p (with_max_retries n ∷ opts) = apply_options-profiles _ opts
apply_options-profiles p (with_on_state_change b ∷ opts) = apply_options-profiles _ opts
apply_options-profiles p (with_vault ∷ opts) = apply_options-profiles p opts

IsWell-empty : (p : AuthPool) → p.profiles ≡ [] → IsWell p
unfolding lookup
IsWell-empty p e = record { is_map = rw e tt; keyed = λ k q h. absurd (cc (e, h)) }

-- After any history of writes and sweeps of a pool made with any options, into which no file has
-- been loaded, the keys of its map are distinct, and every
-- profile stands under the key made of its own provider and name.
pub run-IsWell :
    (opts : List PoolOption) (os : List Operation) → IsWell (run (new_auth_pool opts) os)
unfolding new_auth_pool
run-IsWell opts os = run_from-IsWell _ os (IsWell-empty _ (apply_options-profiles _ opts))
