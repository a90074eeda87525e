-- ===== src/Sync/Decision.antt =====
-- internal/sync/algorithm.go: `determineSyncOperation`.
-- What `getLocalFreshness` and `getRemoteFreshness` return is a `Reading`.
use caam_account_switching.Prelude.{
  ◌<◌, String, Bool, true, false, ◌&&◌, Option, none, some, ◌≡◌, ◌≢◌, ◌⊎◌, inl, inr, refl, arith,
  if◌then◌else◌, Bool-cases,
}
use caam_account_switching.Sync.Freshness.{
  TokenFreshness, fresher, compare_freshness, compare_freshness_asym,
}

pub data SyncDirection : Type 0 where
  push pull skip : SyncDirection

-- Whether an error says that the profile does not exist (`os.IsNotExist`).
pub data ReadError : Type 0 where
  not_exist : ReadError
  other : String → ReadError

pub record Reading : Type 0 where
  pub freshness : Option TokenFreshness
  pub failure : Option ReadError

abbrev pub is_not_found : Reading → Bool
is_not_found r = elim r.failure [
  | none ↦ false
  | some e ↦ elim e [ not_exist ↦ true | other s ↦ false ]
]

abbrev pub is_other_error : Reading → Bool
is_other_error r = elim r.failure [
  | none ↦ false
  | some e ↦ elim e [ not_exist ↦ false | other s ↦ true ]
]

abbrev pub is_there : Reading → Bool
is_there r = elim r.freshness [ none ↦ false | some f ↦ true ]

-- The errors of the source, by the sides that they name.
pub data Decision : Type 0 where
  decided : SyncDirection → Decision
  both_failed local_failed remote_failed : Decision

-- The `switch`, a case after the other.
unfoldable pub determine_sync_operation : Reading → Reading → Decision
unfolding compare_freshness
determine_sync_operation l r =
    if is_other_error l && is_other_error r
    then both_failed
    else if is_other_error l
    then local_failed
    else if is_other_error r
    then remote_failed
    else if is_not_found l && is_not_found r
    then decided skip
    else if is_not_found l && is_there r
    then decided pull
    else if is_there l && is_not_found r
    then decided push
    else if compare_freshness l.freshness r.freshness
    then decided push
    else if compare_freshness r.freshness l.freshness
    then decided pull
    else decided skip

-- What one side of a sync has: a token, no profile, or an error.
pub data Side : Type 0 where
  token : TokenFreshness → Side
  absent : Side
  broken : String → Side

-- Go's convention: a value or an error.
abbrev pub reading : Side → Reading
reading (token f) = record { freshness = some f; failure = none }
reading absent = record { freshness = none; failure = some not_exist }
reading (broken s) = record { freshness = none; failure = some (other s) }

-- The first token outlasts the second: both expiries are known and the first is later, or they
-- cannot tell (one is unknown, or they are the same) and the first was modified later.
abbrev pub Outlasts : TokenFreshness → TokenFreshness → Type 0
Outlasts f g =
    ((0 < g.expires_at) × (g.expires_at < f.expires_at))
    ⊎ (((f.expires_at ≡ 0) ⊎ ((g.expires_at ≡ 0) ⊎ (f.expires_at ≡ g.expires_at)))
        × (g.modified_at < f.modified_at))

-- Why a decision is right: nothing is done where both sides have no profile or neither token
-- outlasts the other, what only one side has is copied, and of two tokens the one that outlasts the
-- other is.
abbrev pub IsRight : Side → Side → Decision → Type 0
IsRight l r (decided push) =
    (f : TokenFreshness) × (l ≡ token f)
    × ((r ≡ absent) ⊎ ((g : TokenFreshness) × (r ≡ token g) × Outlasts f g))
IsRight l r (decided pull) =
    (g : TokenFreshness) × (r ≡ token g)
    × ((l ≡ absent) ⊎ ((f : TokenFreshness) × (l ≡ token f) × Outlasts g f))
IsRight l r (decided skip) =
    ((l ≡ absent) × (r ≡ absent))
    ⊎ ((f : TokenFreshness) × (g : TokenFreshness) × (l ≡ token f)
        × (r ≡ token g)
        × (¬ Outlasts f g)
        × (¬ Outlasts g f))
IsRight l r both_failed = (s : String) × (t : String) × (l ≡ broken s) × (r ≡ broken t)
IsRight l r local_failed = (s : String) × (l ≡ broken s) × ((t : String) → r ≢ broken t)
IsRight l r remote_failed = (t : String) × (r ≡ broken t) × ((s : String) → l ≢ broken s)

fresher-Outlasts : (f g : TokenFreshness) → fresher f g ≡ true → Outlasts f g
unfolding fresher
fresher-Outlasts f g h = ground arith

not-Outlasts : (f g : TokenFreshness) → fresher f g ≡ false → ¬ Outlasts f g
unfolding fresher
not-Outlasts f g h o = ground arith

token-token-IsRight :
    (f g : TokenFreshness)
    → IsRight (token f) (token g) (determine_sync_operation (reading (token f)) (reading (token g)))
unfolding determine_sync_operation compare_freshness
token-token-IsRight f g = elim (Bool-cases (fresher f g)) [
  | inl a ↦
      rw (determine_sync_operation, compare_freshness, a)
        (f, refl, inr (g, refl, fresher-Outlasts f g a))
  | inr a ↦ elim (Bool-cases (fresher g f)) [
    | inl b ↦
        rw (determine_sync_operation, compare_freshness, a, b)
          (g, refl, inr (f, refl, fresher-Outlasts g f b))
    | inr b ↦
        rw (determine_sync_operation, compare_freshness, a, b)
          (inr (f, g, refl, refl, not-Outlasts f g a, not-Outlasts g f b))
  ]
]

-- Whatever the two sides have, `determineSyncOperation` decides a push only of a token that the
-- other side lacks or that outlasts the other's, a pull likewise, and nothing only where there is
-- nothing or neither outlasts the other; an error names exactly the sides that cannot be read.
pub determine-IsRight :
    (l r : Side) → IsRight l r (determine_sync_operation (reading l) (reading r))
unfolding determine_sync_operation
determine-IsRight (broken s) (broken t) = (s, t, refl, refl)
determine-IsRight (broken s) (token g) = (s, refl, λ t h. cc h)
determine-IsRight (broken s) absent = (s, refl, λ t h. cc h)
determine-IsRight (token f) (broken t) = (t, refl, λ s h. cc h)
determine-IsRight absent (broken t) = (t, refl, λ s h. cc h)
determine-IsRight absent absent = inl (refl, refl)
determine-IsRight absent (token g) = (g, refl, inl refl)
determine-IsRight (token f) absent = (f, refl, inl refl)
determine-IsRight (token f) (token g) = token-token-IsRight f g

-- The decision seen from the other machine.
abbrev pub mirrored : Decision → Decision
mirrored (decided push) = decided pull
mirrored (decided pull) = decided push
mirrored (decided skip) = decided skip
mirrored both_failed = both_failed
mirrored local_failed = remote_failed
mirrored remote_failed = local_failed

-- Two machines that sync with each other agree on what is to be done: whatever the two readings
-- are, with the sides exchanged a push is decided as a pull and a pull as a push.
pub determine_mirrored :
    (l r : Side)
    → determine_sync_operation (reading r) (reading l)
      ≡ mirrored (determine_sync_operation (reading l) (reading r))
unfolding determine_sync_operation
determine_mirrored (token f) (token g) = ground (arith, compare_freshness_asym (some f) (some g))
determine_mirrored (broken s) (broken t) = refl
determine_mirrored (broken s) (token g) = refl
determine_mirrored (broken s) absent = refl
determine_mirrored (token f) (broken t) = refl
determine_mirrored absent (broken t) = refl
determine_mirrored absent absent = refl
determine_mirrored absent (token g) = refl
determine_mirrored (token f) absent = refl
