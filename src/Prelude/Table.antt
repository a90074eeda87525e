-- ===== src/Prelude/Table.antt =====
-- A Go map with string keys: an association list, in the order in which a `range` visits it.
-- Go leaves that order open; no theorem depends on it.
use Prim.Native.String.{String}
use mathlib.Core.Path.{◌≡◌, refl, sym, ◌∙◌}
use mathlib.Core.Logic.{inl, inr}
use mathlib.Core.Bool.{Bool, true, false}
use mathlib.Core.Option
use mathlib.Core.Option.{Option, none, some}
use mathlib.Core.List.{List, [], ◌∷◌}
use native.Mathlib.Omega.{arith}
use text.Mathlib.TextEquality.{eq_iff}
use text.Mathlib.TextPositions.{eq_refl}
use caam_account_switching.Prelude.Tests.{str_eq, if◌then◌else◌, Bool-cases}

abbrev pub Table {ℓ} : Type ℓ → Type ℓ
Table V = List (String × V)

module _ {ℓ} {V : Type ℓ} where
  -- m[k], with the comma-ok result
  unfoldable pub lookup : String → Table V → Option V
  lookup k [] = none
  lookup k ((j, v) ∷ m) = if str_eq j k then some v else lookup k m

  -- m[k] = v
  unfoldable pub put : String → V → Table V → Table V
  put k v [] = (k, v) ∷ []
  put k v ((j, w) ∷ m) = let rest = put k v m in if str_eq j k then (j, v) ∷ m else (j, w) ∷ rest

  -- delete(m, k)
  unfoldable pub remove : String → Table V → Table V
  remove k [] = []
  remove k ((j, v) ∷ m) = let rest = remove k m in if str_eq j k then rest else (j, v) ∷ rest

  abbrev pub has_key : String → Table V → Bool
  has_key k [] = false
  has_key k ((j, v) ∷ m) = if str_eq j k then true else has_key k m

  -- What `range` yields as its second value.
  abbrev pub values : Table V → List V
  values [] = []
  values ((j, v) ∷ m) = v ∷ values m

  -- A `range` loop that writes through the pointers of a map[string]*V.
  unfoldable pub update_all : (V → V) → Table V → Table V
  update_all f [] = []
  update_all f ((j, v) ∷ m) = (j, f v) ∷ update_all f m

  pub lookup-put :
      (k j : String) (v : V) (m : Table V)
      → lookup j (put k v m) ≡ (if str_eq k j then some v else lookup j m)
  unfolding lookup put
  lookup-put k j v [] = refl
  lookup-put k j v ((i, w) ∷ m) =
      ground (arith, eq_iff k j, eq_iff i k, eq_iff i j, lookup-put k j v m)

  pub lookup-put_self : (k : String) (v : V) (m : Table V) → lookup k (put k v m) ≡ some v
  lookup-put_self k v m = simp (lookup-put, eq_refl)

  pub lookup-remove :
      (k j : String) (m : Table V)
      → lookup j (remove k m) ≡ (if str_eq k j then none else lookup j m)
  unfolding lookup remove
  lookup-remove k j [] = ground arith
  lookup-remove k j ((i, w) ∷ m) =
      ground (arith, eq_iff k j, eq_iff i k, eq_iff i j, lookup-remove k j m)

  pub lookup-update_all :
      (f : V → V) (j : String) (m : Table V) → lookup j (update_all f m) ≡ Option.map f (lookup j m)
  unfolding lookup update_all
  lookup-update_all f j [] = refl
  lookup-update_all f j ((i, w) ∷ m) = ground (arith, lookup-update_all f j m)

  -- The keys of a Go map are distinct.
  abbrev pub IsMap : Table V → Type 0
  IsMap [] = Unit {0}
  IsMap ((j, v) ∷ m) = (has_key j m ≡ false) × IsMap m

  pub has_key-put :
      (k j : String) (v : V) (m : Table V)
      → has_key j (put k v m) ≡ (if str_eq k j then true else has_key j m)
  unfolding put
  has_key-put k j v [] = refl
  has_key-put k j v ((i, w) ∷ m) =
      ground (arith, eq_iff k j, eq_iff i k, eq_iff i j, has_key-put k j v m)

  pub has_key-remove :
      (k j : String) (m : Table V)
      → has_key j (remove k m) ≡ (if str_eq k j then false else has_key j m)
  unfolding remove
  has_key-remove k j [] = ground arith
  has_key-remove k j ((i, w) ∷ m) =
      ground (arith, eq_iff k j, eq_iff i k, eq_iff i j, has_key-remove k j m)

  pub has_key-update_all :
      (f : V → V) (j : String) (m : Table V) → has_key j (update_all f m) ≡ has_key j m
  unfolding update_all
  has_key-update_all f j [] = refl
  has_key-update_all f j ((i, w) ∷ m) = ground (arith, has_key-update_all f j m)

  pub put-IsMap : (k : String) (v : V) (m : Table V) → IsMap m → IsMap (put k v m)
  unfolding put
  put-IsMap k v [] h = (refl, tt)
  put-IsMap k v ((i, w) ∷ m) h =
      ground (arith, eq_iff i k, eq_iff k i, has_key-put k i v m, put-IsMap k v m)

  pub remove-IsMap : (k : String) (m : Table V) → IsMap m → IsMap (remove k m)
  unfolding remove
  remove-IsMap k [] h = tt
  remove-IsMap k ((i, w) ∷ m) h = ground (arith, eq_iff i k, has_key-remove k i m, remove-IsMap k m)

  pub update_all-IsMap : (f : V → V) (m : Table V) → IsMap m → IsMap (update_all f m)
  unfolding update_all
  update_all-IsMap f [] h = tt
  update_all-IsMap f ((i, w) ∷ m) h = ground (arith, has_key-update_all f i m, update_all-IsMap f m)

  pub lookup_of_not-has_key : (k : String) (m : Table V) → has_key k m ≡ false → lookup k m ≡ none
  unfolding lookup
  lookup_of_not-has_key k [] h = refl
  lookup_of_not-has_key k ((j, v) ∷ m) h = ground (arith, lookup_of_not-has_key k m)

  pub not-has_key_of_lookup : (k : String) (m : Table V) → lookup k m ≡ none → has_key k m ≡ false
  unfolding lookup
  not-has_key_of_lookup k [] h = refl
  not-has_key_of_lookup k ((j, v) ∷ m) h = elim (Bool-cases (str_eq j k)) [
    | inl e ↦ absurd (Option.none-ne-some v (sym (rw e at h)))
    | inr e ↦ rw e (not-has_key_of_lookup k m (rw e at h))
  ]

module _ {ℓ κ} {V : Type ℓ} {W : Type κ} (f : V → W) where
  -- A `range` loop that writes each entry, converted, into another map.
  unfoldable pub copy_all : Table V → Table W → Table W
  copy_all [] out = out
  copy_all ((k, v) ∷ m) out = copy_all m (put k (f v) out)

  -- The converted value, or what there was.
  abbrev pub or_converted : Option V → Option W → Option W
  or_converted none old = old
  or_converted (some v) old = some (f v)

  pub copy_all-IsMap : (m : Table V) (out : Table W) → IsMap out → IsMap (copy_all m out)
  unfolding copy_all
  copy_all-IsMap [] out h = h
  copy_all-IsMap ((k, v) ∷ m) out h = copy_all-IsMap m (put k (f v) out) (put-IsMap k (f v) out h)

  pub lookup-copy_all :
      (k : String) (m : Table V) (out : Table W)
      → IsMap m
      → lookup k (copy_all m out) ≡ or_converted (lookup k m) (lookup k out)
  unfolding copy_all lookup
  lookup-copy_all k [] out h = refl
  lookup-copy_all k ((j, v) ∷ m) out h = elim (Bool-cases (str_eq j k)) [
    | inl e ↦
        let same : j ≡ k = (eq_iff j k).0 e in
        rw e (
          lookup-copy_all k m (put j (f v) out) h.1
          ∙ rw (lookup_of_not-has_key k m (rw same at h.0), lookup-put j k (f v) out, e) refl)
    | inr e ↦
        rw e (lookup-copy_all k m (put j (f v) out) h.1 ∙ rw (lookup-put j k (f v) out, e) refl)
  ]
