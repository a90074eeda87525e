-- ===== src/Sync/Freshness.antt =====
-- internal/sync/freshness.go: which of two tokens is fresher.
-- A time is a number, 0 for the zero time, which stands for an unknown expiry.
use caam_account_switching.Prelude.{
  ℕ, ◌<◌, String, Bool, true, false, not, ◌||◌, Option, none, some, ◌≡◌, ◌≢◌, arith, ltb, ◌==◌,
  if◌then◌else◌,
}

pub record TokenFreshness : Type 0 where
  pub provider : String
  pub profile : String
  pub expires_at : ℕ
  pub modified_at : ℕ
  pub is_expired : Bool
  pub source : String

-- `CompareFreshness` of two tokens that are there
unfoldable pub fresher : TokenFreshness → TokenFreshness → Bool
fresher a b =
    if a.expires_at == 0 || b.expires_at == 0
    then ltb b.modified_at a.modified_at
    else if not (a.expires_at == b.expires_at)
    then ltb b.expires_at a.expires_at
    else ltb b.modified_at a.modified_at

unfoldable pub compare_freshness : Option TokenFreshness → Option TokenFreshness → Bool
unfolding fresher
compare_freshness none b = false
compare_freshness (some a) none = true
compare_freshness (some a) (some b) = fresher a b

-- Two tokens are never each fresher than the other, and none is fresher than itself.
pub compare_freshness_asym :
    (a b : Option TokenFreshness) → compare_freshness a b ≡ true → compare_freshness b a ≡ false
unfolding compare_freshness
compare_freshness_asym none b h = cc
compare_freshness_asym (some a) none h = ground arith
compare_freshness_asym (some a) (some b) h = ground arith

-- Among tokens whose expiry is known, "fresher" is transitive.
pub fresher_trans :
    (a b c : TokenFreshness)
    → a.expires_at ≢ 0
    → b.expires_at ≢ 0
    → c.expires_at ≢ 0
    → fresher a b ≡ true
    → fresher b c ≡ true
    → fresher a c ≡ true
unfolding fresher
fresher_trans a b c ha hb hc h k = ground arith

-- With an unknown expiry it is not: where `b` has no expiry and was modified between `a` and `c`,
-- and `a` expires after `c` but was modified first, each of the three is fresher than the next,
-- round in a circle.
pub fresher_cycle :
    (a b c : TokenFreshness)
    → b.expires_at ≡ 0
    → 0 < c.expires_at
    → c.expires_at < a.expires_at
    → a.modified_at < b.modified_at
    → b.modified_at < c.modified_at
    → (fresher a c ≡ true) × (fresher c b ≡ true) × (fresher b a ≡ true)
unfolding fresher
fresher_cycle a b c hb hc hac hab hbc = ground arith
