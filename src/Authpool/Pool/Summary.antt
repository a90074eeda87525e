-- ===== src/Authpool/Pool/Summary.antt =====
-- What the counts of `CountByStatus` and `Summary` say of the pool.
use native.Mathlib.Nat.{add-zero}
use caam_account_switching.Prelude.{
  ℕ, suc, ◌+◌, String, List, [], ◌∷◌, ◌≡◌, refl, sym, ap, ◌∙◌, arith, str_eq, eq_iff, if◌then◌else◌,
  count, length,
}
use caam_account_switching.Prelude.Table.{Table, lookup, values, lookup-put}
use caam_account_switching.Authpool.Status.{
  PoolStatus, unknown, ready, refreshing, expired, cooldown, error, same_status, to_string,
  PooledProfile,
}
use caam_account_switching.Authpool.Pool.{AuthPool}
use caam_account_switching.Authpool.Pool.Queries.{
  bump, tally, count_by_status, PoolSummary, count_at, increment, count_status, summarise, summary,
}

-- How many profiles of a list have a status, and how many a provider.
abbrev pub number_in : PoolStatus → List PooledProfile → ℕ
number_in s = count (λ q. same_status q.status s)

abbrev pub number_of : String → List PooledProfile → ℕ
number_of name = count (λ q. str_eq q.provider name)

tally-count :
    (xs : List PooledProfile) (counts : PoolStatus → ℕ) (s : PoolStatus)
    → tally xs counts s ≡ number_in s xs + counts s
unfolding tally
tally-count [] counts s = omega arith
tally-count (q ∷ xs) counts s = ground (arith, tally-count xs (bump q.status counts) s)

-- `CountByStatus` gives for each status the number of profiles in it.
pub count_by_status_exact :
    (p : AuthPool) (s : PoolStatus) → count_by_status p s ≡ number_in s (values p.profiles)
unfolding count_by_status
count_by_status_exact p s = omega (arith, tally-count (values p.profiles) (λ t. 0) s)

-- The names of two states are the same only for the same state.
same_name : (s t : PoolStatus) → str_eq (to_string s) (to_string t) ≡ same_status s t
unfolding same_status to_string
same_name unknown unknown = refl
same_name unknown _ = refl
same_name ready unknown = refl
same_name ready _ = refl
same_name refreshing unknown = refl
same_name refreshing _ = refl
same_name expired unknown = refl
same_name expired _ = refl
same_name cooldown unknown = refl
same_name cooldown _ = refl
same_name error unknown = refl
same_name error _ = refl

count_at-increment :
    (k j : String) (m : Table ℕ)
    → count_at j (increment k m) ≡ (if str_eq k j then suc (count_at j m) else count_at j m)
unfolding increment
count_at-increment k j m = ground (arith, lookup-put k j (suc (count_at k m)) m, eq_iff k j)

-- One round of the loop of `Summary`.
round : PooledProfile → PoolSummary → PoolSummary
unfolding count_status
round q s = count_status q.status (record s {
  by_status = increment (to_string q.status) s.by_status;
  by_provider = increment q.provider s.by_provider;
})

-- What a summary that started from `s` says after the profiles of a list.
record Sums (xs : List PooledProfile) (s r : PoolSummary) : Type 0 where
  total : r.total_profiles ≡ s.total_profiles
  states :
      (t : PoolStatus)
      → count_at (to_string t) r.by_status ≡ number_in t xs + count_at (to_string t) s.by_status
  providers :
      (name : String)
      → count_at name r.by_provider ≡ number_of name xs + count_at name s.by_provider
  readies : r.ready_count ≡ number_in ready xs + s.ready_count
  cooldowns : r.cooldown_count ≡ number_in cooldown xs + s.cooldown_count
  errors : r.error_count ≡ number_in error xs + s.error_count

round-tables :
    (q : PooledProfile) (s : PoolSummary)
    → ((round q s).by_status ≡ increment (to_string q.status) s.by_status)
      × ((round q s).by_provider ≡ increment q.provider s.by_provider)
      × ((round q s).total_profiles ≡ s.total_profiles)
unfolding round
round-tables q s = ground arith

round-counts :
    (q : PooledProfile) (s : PoolSummary)
    → ((round q s).ready_count ≡ number_in ready (q ∷ []) + s.ready_count)
      × ((round q s).cooldown_count ≡ number_in cooldown (q ∷ []) + s.cooldown_count)
      × ((round q s).error_count ≡ number_in error (q ∷ []) + s.error_count)
unfolding round same_status
round-counts q s = ground arith

states_step :
    (q : PooledProfile) (xs : List PooledProfile) (t : PoolStatus) (m : Table ℕ)
    → number_in t xs + count_at (to_string t) (increment (to_string q.status) m)
      ≡ number_in t (q ∷ xs) + count_at (to_string t) m
states_step q xs t m =
    rw (count_at-increment (to_string q.status) (to_string t) m, same_name q.status t)
      (ground arith)

providers_step :
    (q : PooledProfile) (xs : List PooledProfile) (name : String) (m : Table ℕ)
    → number_of name xs + count_at name (increment q.provider m)
      ≡ number_of name (q ∷ xs) + count_at name m
providers_step q xs name m = rw (count_at-increment q.provider name m) (ground arith)

number_in-cons :
    (q : PooledProfile) (xs : List PooledProfile) (t : PoolStatus)
    → number_in t (q ∷ xs) ≡ number_in t (q ∷ []) + number_in t xs
number_in-cons q xs t = ground arith

Sums-cons :
    (q : PooledProfile) (xs : List PooledProfile) (s r : PoolSummary)
    → Sums xs (round q s) r
    → Sums (q ∷ xs) s r
Sums-cons q xs s r h =
    let (st, pr, to) = round-tables q s in
    let (re, co, er) = round-counts q s in
    record {
      total = h.total ∙ to;
      states = λ t.
          h.states t
          ∙ ap (λ m. number_in t xs + count_at (to_string t) m) st
          ∙ states_step q xs t s.by_status;
      providers = λ n.
          h.providers n
          ∙ ap (λ m. number_of n xs + count_at n m) pr
          ∙ providers_step q xs n s.by_provider;
      readies = omega (arith, h.readies, re, number_in-cons q xs ready);
      cooldowns = omega (arith, h.cooldowns, co, number_in-cons q xs cooldown);
      errors = omega (arith, h.errors, er, number_in-cons q xs error);
    }

summarise-Sums : (xs : List PooledProfile) (s : PoolSummary) → Sums xs s (summarise xs s)
unfolding summarise round
summarise-Sums [] s = record {
  total = refl;
  states = λ t. omega arith;
  providers = λ n. omega arith;
  readies = omega arith;
  cooldowns = omega arith;
  errors = omega arith;
}
summarise-Sums (q ∷ xs) s = Sums-cons q xs s _ (summarise-Sums xs (round q s))

length-values : (m : Table PooledProfile) → length m ≡ length (values m)
length-values [] = refl
length-values ((k, q) ∷ m) = ap suc (length-values m)

-- Every profile is in exactly one state.
number_in-total :
    (xs : List PooledProfile)
    → number_in unknown xs
        + number_in ready xs
        + number_in refreshing xs
        + number_in expired xs
        + number_in cooldown xs
        + number_in error xs
      ≡ length xs
unfolding same_status
number_in-total [] = refl
number_in-total (q ∷ xs) = ground (arith, number_in-total xs)

-- `Summary` gives under the name of each state the number of profiles in it, under each provider
-- the number of its profiles, and in its three counts those of the ready, cooling and failed ones;
-- its total is the number of profiles, and the counts of the six states add up to it.
pub summary_exact :
    (p : AuthPool)
    → let r = summary p in
      let xs = values p.profiles in
      ((t : PoolStatus) → count_at (to_string t) r.by_status ≡ number_in t xs)
      × ((name : String) → count_at name r.by_provider ≡ number_of name xs)
      × (r.ready_count ≡ number_in ready xs)
      × (r.cooldown_count ≡ number_in cooldown xs)
      × (r.error_count ≡ number_in error xs)
      × (r.total_profiles
          ≡ number_in unknown xs
            + number_in ready xs
            + number_in refreshing xs
            + number_in expired xs
            + number_in cooldown xs
            + number_in error xs)
unfolding summary lookup
summary_exact p =
    let h = summarise-Sums (values p.profiles) _ in
    (
      λ t. h.states t ∙ add-zero _,
      λ n. h.providers n ∙ add-zero _,
      h.readies ∙ add-zero _,
      h.cooldowns ∙ add-zero _,
      h.errors ∙ add-zero _,
      h.total ∙ length-values p.profiles ∙ sym (number_in-total (values p.profiles)),
    )
