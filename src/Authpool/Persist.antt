-- ===== src/Authpool/Persist.antt =====
-- internal/authpool/persist.go: the pool's state on disk.
-- encoding/json and the file system are not part of the program: the first is a `Codec`, the second
-- what a read of the state file gives.
use caam_account_switching.Prelude.{
  ℕ, String, Option, none, some, [], ◌∷◌, ◌≡◌, refl, ap, ◌∙◌, arith, ltb, str_eq, if◌then◌else◌,
}
use caam_account_switching.Prelude.Int.{ℤ}
use caam_account_switching.Prelude.Table.{
  Table, lookup, IsMap, copy_all, copy_all-IsMap, lookup-copy_all, or_converted,
}
use caam_account_switching.Authpool.Status.{
  PoolStatus, unknown, ready, refreshing, expired, cooldown, error, to_string, PooledProfile,
}
use caam_account_switching.Authpool.Pool.{AuthPool}

abbrev pub state_version : ℕ
state_version = 1

pub record PersistedProfile : Type 0 where
  pub provider : String
  pub profile_name : String
  pub token_expiry : ℕ
  pub last_refresh : ℕ
  pub last_check : ℕ
  pub last_used : ℕ
  pub cooldown_until : ℕ
  pub status : PoolStatus
  pub error_count : ℕ
  pub error_message : String
  pub priority : ℤ

pub record PersistedPoolState : Type 0 where
  pub version : ℕ
  pub updated_at : ℕ
  pub profiles : Table PersistedProfile

unfoldable pub to_persisted : PooledProfile → PersistedProfile
to_persisted q = record {
  provider = q.provider;
  profile_name = q.profile_name;
  token_expiry = q.token_expiry;
  last_refresh = q.last_refresh;
  last_check = q.last_check;
  last_used = q.last_used;
  cooldown_until = q.cooldown_until;
  status = q.status;
  error_count = q.error_count;
  error_message = q.error_message;
  priority = q.priority;
}

unfoldable pub from_persisted : PersistedProfile → PooledProfile
from_persisted s = record {
  provider = s.provider;
  profile_name = s.profile_name;
  status = s.status;
  token_expiry = s.token_expiry;
  last_refresh = s.last_refresh;
  last_check = s.last_check;
  last_used = s.last_used;
  cooldown_until = s.cooldown_until;
  error_count = s.error_count;
  error_message = s.error_message;
  priority = s.priority;
}

-- The loops write each entry of the one map into the other.
unfoldable pub persist_all : Table PooledProfile → Table PersistedProfile
unfolding to_persisted copy_all
persist_all m = copy_all to_persisted m []

unfoldable pub restore_all : Table PersistedProfile → Table PooledProfile
unfolding from_persisted copy_all
restore_all m = copy_all from_persisted m []

unfoldable pub to_persisted_state : AuthPool → ℕ → PersistedPoolState
unfolding persist_all
to_persisted_state p now = record {
  version = state_version;
  updated_at = now;
  profiles = persist_all p.profiles;
}

unfoldable pub from_persisted_state : AuthPool → PersistedPoolState → AuthPool
unfolding restore_all
from_persisted_state p s = record p { profiles = restore_all s.profiles }

-- `MarshalJSON` and `UnmarshalJSON` of a status, as the text between the quotes.
abbrev pub marshal_status : PoolStatus → String
marshal_status = to_string

unfoldable pub unmarshal_status : String → PoolStatus
unmarshal_status s =
    if str_eq s "ready"
    then ready
    else if str_eq s "refreshing"
    then refreshing
    else if str_eq s "expired"
    then expired
    else if str_eq s "cooldown"
    then cooldown
    else if str_eq s "error"
    then error
    else unknown

-- Every status is read back as it was written.
pub unmarshal_marshal_status : (s : PoolStatus) → unmarshal_status (marshal_status s) ≡ s
unfolding unmarshal_status to_string
unmarshal_marshal_status unknown = refl
unmarshal_marshal_status _ = refl

-- encoding/json on the state. It writes and reads a status by the two functions above, so what it
-- decodes from its own output is the state with each status written and read.
abbrev pub through_text : PersistedProfile → PersistedProfile
through_text s = record s { status = unmarshal_status (marshal_status s.status) }

abbrev pub all_through_text : Table PersistedProfile → Table PersistedProfile
all_through_text [] = []
all_through_text ((k, s) ∷ m) = (k, through_text s) ∷ all_through_text m

pub record Codec : Type 1 where
  pub Text : Type 0
  pub encode : PersistedPoolState → Text
  pub decode : Text → Option PersistedPoolState
  pub decode-encode :
      (s : PersistedPoolState)
      → decode (encode s) ≡ some (record s { profiles = all_through_text s.profiles })

-- What the read of the state file gives.
pub data StateFile (T : Type 0) : Type 0 where
  missing : StateFile T
  unreadable : StateFile T
  contents : T → StateFile T

pub data LoadResult : Type 0 where
  loaded no_file open_failed parse_failed : LoadResult
  newer_version : ℕ → LoadResult

-- `Load` and `LoadFromReader` from the decoded state on
unfoldable pub restore : AuthPool → Option PersistedPoolState → AuthPool × LoadResult
restore p none = (p, parse_failed)
restore p (some s) =
    if ltb state_version s.version
    then (p, newer_version s.version)
    else (from_persisted_state p s, loaded)

module _ (c : Codec) where
  open c use {Text, encode, decode}

  -- The text that `Save` renames into place.
  unfoldable pub save : AuthPool → ℕ → Text
  save p now = encode (to_persisted_state p now)

  unfoldable pub load : AuthPool → StateFile Text → AuthPool × LoadResult
  unfolding restore
  load p missing = (p, no_file)
  load p unreadable = (p, open_failed)
  load p (contents t) = restore p (decode t)

through_text-eq : (m : Table PersistedProfile) → all_through_text m ≡ m
through_text-eq [] = refl
through_text-eq ((k, s) ∷ m) = ground (arith, unmarshal_marshal_status s.status, through_text-eq m)

restored : (q : PooledProfile) → from_persisted (to_persisted q) ≡ q
unfolding from_persisted to_persisted
restored q = refl

restored_option :
    (o : Option PooledProfile)
    → or_converted from_persisted (or_converted to_persisted o none) none ≡ o
restored_option none = refl
restored_option (some q) = ap some (restored q)

lookup-restore_persist :
    (k : String) (m : Table PooledProfile)
    → IsMap m
    → lookup k (restore_all (persist_all m)) ≡ lookup k m
unfolding restore_all persist_all lookup
lookup-restore_persist k m h =
    lookup-copy_all from_persisted k (persist_all m) [] (copy_all-IsMap to_persisted m [] tt)
    ∙ ap (λ o. or_converted from_persisted o none) (lookup-copy_all to_persisted k m [] h)
    ∙ restored_option (lookup k m)

load-save_state :
    (c : Codec) (p q : AuthPool) (now : ℕ)
    → load c q (contents (save c p now))
      ≡ (from_persisted_state q (to_persisted_state p now), loaded)
unfolding load save to_persisted_state
load-save_state c p q now =
    rw (c.decode-encode (to_persisted_state p now), through_text-eq (persist_all p.profiles)) refl

-- Loading what was saved succeeds, replaces all profiles of the pool that loads by those of the
-- pool that was saved, each with every field as it was, and keeps every setting of
-- the former. The keys of the saved pool are distinct.
pub load-save :
    (c : Codec) (p q : AuthPool) (now : ℕ)
    → IsMap p.profiles
    → let r = load c q (contents (save c p now)) in
      (r.1 ≡ loaded)
      × ((k : String) → lookup k r.0.profiles ≡ lookup k p.profiles)
      × (r.0.refresh_threshold ≡ q.refresh_threshold)
      × (r.0.cooldown_duration ≡ q.cooldown_duration)
      × (r.0.max_retries ≡ q.max_retries)
      × (r.0.has_callback ≡ q.has_callback)
unfolding from_persisted_state to_persisted_state
load-save c p q now h =
    let e = load-save_state c p q now in
    (
      ap (λ r. r.1) e,
      λ k. ap (λ r. lookup k r.0.profiles) e ∙ lookup-restore_persist k p.profiles h,
      ap (λ r. r.0.refresh_threshold) e,
      ap (λ r. r.0.cooldown_duration) e,
      ap (λ r. r.0.max_retries) e,
      ap (λ r. r.0.has_callback) e,
    )
