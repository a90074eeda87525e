-- ===== src/Authpool/Pool/Vault.antt =====
-- internal/authpool/pool.go: `LoadFromVault`, and what it makes of a pool.
use caam_account_switching.Prelude.{
  ℕ, String, Bool, true, false, Option, none, some, List, [], ◌∷◌, ◌≡◌, refl, ap, ◌∙◌, arith,
  str_eq, eq_iff, if◌then◌else◌,
}
use caam_account_switching.Prelude.Table.{lookup, lookup-put}
use caam_account_switching.Authpool.Status.{PooledProfile}
use caam_account_switching.Authpool.Pool.{AuthPool, profile_key, fresh_profile, add_profile}

-- What `vault.ListAll` answers; the vault is not part of the pool.
pub data Listing : Type 0 where
  not_configured : Listing
  failed : Listing
  listed : List (String × List String) → Listing

-- `clock` gives the time at which each profile is added.
unfoldable pub add_names : AuthPool → String → List String → (String → String → ℕ) → AuthPool
add_names p provider [] clock = p
add_names p provider (name ∷ names) clock =
    add_names (add_profile p provider name (clock provider name)).pool provider names clock

unfoldable pub add_all : AuthPool → List (String × List String) → (String → String → ℕ) → AuthPool
unfolding add_names
add_all p [] clock = p
add_all p ((provider, names) ∷ rest) clock = add_all (add_names p provider names clock) rest clock

-- The result is false where the source returns an error.
unfoldable pub load_from_vault : AuthPool → Listing → (String → String → ℕ) → AuthPool × Bool
unfolding add_all
load_from_vault p not_configured clock = (p, false)
load_from_vault p failed clock = (p, false)
load_from_vault p (listed all) clock = (add_all p all clock, true)

-- The first value, if there is one.
abbrev pub or_else : Option PooledProfile → Option PooledProfile → Option PooledProfile
or_else none b = b
or_else (some a) b = some a

-- What the listing has for a key: a fresh profile of its first entry with that key.
abbrev pub named : String → String → List String → (String → String → ℕ) → Option PooledProfile
named k provider [] clock = none
named k provider (name ∷ names) clock =
    let rest = named k provider names clock in
    if str_eq (profile_key provider name) k
    then some (fresh_profile provider name (clock provider name))
    else rest

abbrev pub vaulted :
    String → List (String × List String) → (String → String → ℕ) → Option PooledProfile
vaulted k [] clock = none
vaulted k ((provider, names) ∷ rest) clock =
    or_else (named k provider names clock) (vaulted k rest clock)

or_else_assoc : (a b c : Option PooledProfile) → or_else (or_else a b) c ≡ or_else a (or_else b c)
or_else_assoc none b c = refl
or_else_assoc (some a) b c = refl

pub lookup-add_profile :
    (p : AuthPool) (provider name : String) (now : ℕ) (k : String)
    → lookup k (add_profile p provider name now).pool.profiles
      ≡ or_else (lookup k p.profiles) (
          if str_eq (profile_key provider name) k
          then some (fresh_profile provider name now)
          else none)
unfolding add_profile
lookup-add_profile p provider name now k = ground (
  arith,
  eq_iff (profile_key provider name) k,
  lookup-put (profile_key provider name) k (fresh_profile provider name now) p.profiles,
)

lookup-add_names :
    (p : AuthPool) (provider : String) (names : List String) (clock : String → String → ℕ)
    (k : String)
    → lookup k (add_names p provider names clock).profiles
      ≡ or_else (lookup k p.profiles) (named k provider names clock)
unfolding add_names
lookup-add_names p provider [] clock k = ground arith
lookup-add_names p provider (name ∷ names) clock k = ground (
  arith,
  lookup-add_names (add_profile p provider name (clock provider name)).pool provider names clock k,
  lookup-add_profile p provider name (clock provider name) k,
)

lookup-add_all :
    (p : AuthPool) (all : List (String × List String)) (clock : String → String → ℕ) (k : String)
    → lookup k (add_all p all clock).profiles ≡ or_else (lookup k p.profiles) (vaulted k all clock)
unfolding add_all
lookup-add_all p [] clock k = ground arith
lookup-add_all p ((provider, names) ∷ rest) clock k =
    lookup-add_all (add_names p provider names clock) rest clock k
    ∙ ap (λ o. or_else o (vaulted k rest clock)) (lookup-add_names p provider names clock k)
    ∙ or_else_assoc (lookup k p.profiles) (named k provider names clock) (vaulted k rest clock)

-- What `LoadFromVault` is to do: succeed exactly on a listing, and then have under each key the
-- profile that was there, or else a fresh one for the key's entry in the listing.
abbrev pub Loads : AuthPool → Listing → (String → String → ℕ) → AuthPool × Bool → Type 0
Loads p not_configured clock r = r ≡ (p, false)
Loads p failed clock r = r ≡ (p, false)
Loads p (listed all) clock r =
    (r.1 ≡ true)
    × ((k : String) → lookup k r.0.profiles ≡ or_else (lookup k p.profiles) (vaulted k all clock))

-- Loading from the vault keeps the state of every profile of the pool, adds a fresh profile for
-- each other entry of the vault and nothing else; where the vault is missing or cannot be listed it
-- fails and changes nothing.
pub load_from_vault_exact :
    (p : AuthPool) (l : Listing) (clock : String → String → ℕ)
    → Loads p l clock (load_from_vault p l clock)
unfolding load_from_vault
load_from_vault_exact p not_configured clock = refl
load_from_vault_exact p failed clock = refl
load_from_vault_exact p (listed all) clock = (refl, lookup-add_all p all clock)
