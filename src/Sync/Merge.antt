-- ===== src/Sync/Merge.antt =====
-- internal/sync/algorithm.go: `mergeProfileLists`.
use Prim.Native.String.{◌++◌ as append}
use caam_account_switching.Prelude.{
  String, Bool, true, false, none, some, List, [], ◌∷◌, ◌++◌, ◌≡◌, inl, inr, refl, sym, ◌∙◌, arith,
  str_eq, eq_iff, eq_refl, if◌then◌else◌, Bool-cases,
}
use caam_account_switching.Prelude.Table.{Table, lookup, put, lookup-put}

pub record ProfileRef : Type 0 where
  pub provider : String
  pub profile : String

unfoldable pub ref_key : ProfileRef → String
ref_key p = append p.provider (append "/" p.profile)

-- `seen[key]` of a map[string]bool
abbrev pub is_seen : String → Table Bool → Bool
is_seen k seen = elim (lookup k seen) [ none ↦ false | some b ↦ b ]

-- One of the two loops: what is seen after it, and what it appends to the result.
unfoldable pub collect : Table Bool → List ProfileRef → Table Bool × List ProfileRef
collect seen [] = (seen, [])
collect seen (p ∷ ps) =
    let known = is_seen (ref_key p) seen in
    let rest = collect (if known then seen else put (ref_key p) true seen) ps in
    (rest.0, if known then rest.1 else p ∷ rest.1)

unfoldable pub merge_profile_lists : List ProfileRef → List ProfileRef → List ProfileRef
unfolding collect
merge_profile_lists a b =
    let first = collect [] a in let second = collect first.0 b in first.1 ++ second.1

-- Whether a list has an entry with a key.
abbrev pub has_ref : String → List ProfileRef → Bool
has_ref k [] = false
has_ref k (p ∷ ps) = if str_eq (ref_key p) k then true else has_ref k ps

-- No two entries of a list have the same key.
abbrev pub IsDistinct : List ProfileRef → Type 0
IsDistinct [] = Unit {0}
IsDistinct (p ∷ ps) = (has_ref (ref_key p) ps ≡ false) × IsDistinct ps

is_seen-put :
    (k j : String) (seen : Table Bool)
    → is_seen j (put k true seen) ≡ (if str_eq k j then true else is_seen j seen)
is_seen-put k j seen = ground (arith, lookup-put k j true seen)

collect-seen :
    (k : String) (seen : Table Bool) (ps : List ProfileRef)
    → is_seen k (collect seen ps).0 ≡ (if is_seen k seen then true else has_ref k ps)
unfolding collect
collect-seen k seen [] = ground arith
collect-seen k seen (p ∷ ps) = elim (Bool-cases (is_seen (ref_key p) seen)) [
  | inl e ↦ rw e (ground (arith, e, eq_iff (ref_key p) k, collect-seen k seen ps))
  | inr e ↦ rw e (
      ground (
        arith,
        eq_iff (ref_key p) k,
        collect-seen k (put (ref_key p) true seen) ps,
        is_seen-put (ref_key p) k seen,
      ))
]

collect-has_ref :
    (k : String) (seen : Table Bool) (ps : List ProfileRef)
    → has_ref k (collect seen ps).1 ≡ (if is_seen k seen then false else has_ref k ps)
unfolding collect
collect-has_ref k seen [] = ground arith
collect-has_ref k seen (p ∷ ps) = elim (Bool-cases (is_seen (ref_key p) seen)) [
  | inl e ↦ rw e (ground (arith, e, eq_iff (ref_key p) k, collect-has_ref k seen ps))
  | inr e ↦ rw e (
      ground (
        arith,
        e,
        eq_iff (ref_key p) k,
        collect-has_ref k (put (ref_key p) true seen) ps,
        is_seen-put (ref_key p) k seen,
      ))
]

collect-IsDistinct : (seen : Table Bool) (ps : List ProfileRef) → IsDistinct (collect seen ps).1
unfolding collect
collect-IsDistinct seen [] = tt
collect-IsDistinct seen (p ∷ ps) = elim (Bool-cases (is_seen (ref_key p) seen)) [
  | inl e ↦ rw e (collect-IsDistinct seen ps)
  | inr e ↦ rw e (
    collect-has_ref (ref_key p) (put (ref_key p) true seen) ps
        ∙ rw (is_seen-put (ref_key p) (ref_key p) seen, eq_refl (ref_key p)) refl,
    collect-IsDistinct (put (ref_key p) true seen) ps,
  )
]

has_ref-append :
    (k : String) (xs ys : List ProfileRef)
    → has_ref k (xs ++ ys) ≡ (if has_ref k xs then true else has_ref k ys)
has_ref-append k [] ys = refl
has_ref-append k (x ∷ xs) ys = ground (arith, has_ref-append k xs ys)

has_ref_congr : (j k : String) (xs : List ProfileRef) → j ≡ k → has_ref j xs ≡ has_ref k xs
has_ref_congr j k xs e = rw e refl

-- Two lists with no key in common.
append-IsDistinct :
    (xs ys : List ProfileRef)
    → IsDistinct xs
    → IsDistinct ys
    → ((k : String) → has_ref k xs ≡ true → has_ref k ys ≡ false)
    → IsDistinct (xs ++ ys)
append-IsDistinct [] ys hx hy apart = hy
append-IsDistinct (x ∷ xs) ys hx hy apart = (
  has_ref-append (ref_key x) xs ys ∙ rw hx.0 (apart (ref_key x) (rw (eq_refl (ref_key x)) refl)),
  append-IsDistinct xs ys hx.1 hy (λ k h. apart k (ground (arith, h))),
)

-- The merged list has no two profiles with the same key, and has a key exactly if one of the two
-- lists has it.
pub merge_exact :
    (a b : List ProfileRef)
    → IsDistinct (merge_profile_lists a b)
      × ((k : String)
          → has_ref k (merge_profile_lists a b) ≡ (if has_ref k a then true else has_ref k b))
unfolding merge_profile_lists lookup
merge_exact a b =
    let first = collect [] a in
    let second = collect first.0 b in
    let seen : (k : String) → is_seen k first.0 ≡ has_ref k a = λ k. collect-seen k [] a in
    let had : (k : String) → has_ref k first.1 ≡ has_ref k a = λ k. collect-has_ref k [] a in
    (
      append-IsDistinct first.1 second.1 (collect-IsDistinct [] a) (collect-IsDistinct first.0 b)
          (λ k h. collect-has_ref k first.0 b ∙ rw (seen k, sym (had k) ∙ h) refl),
      λ k.
          has_ref-append k first.1 second.1
          ∙ ground (arith, seen k, had k, collect-has_ref k first.0 b),
    )
