-- ===== src/Vault/Copies.antt =====
-- What the shared loop of Backup and Restore leaves in the directory that it copies to.
use mathlib.Core.Option
use text.Mathlib.TextEquality.{IsScalar-prop}
use mathlib.Core.List.{mem-cons, not-mem-nil}
use mathlib.Core.Logic.Or
use caam_account_switching.Prelude.{
  String, false, Option, none, some, List, [], ◌∷◌, ◌≡◌, refl, sym, ap, ◌∙◌, arith, str_eq, Mem,
  All, All-mem, Option-cases, inl, inr, eq_iff,
}
use caam_account_switching.Prelude.Table.{Table, lookup, put, lookup-put, lookup-put_self}
use caam_account_switching.Vault.Copying.{
  AuthFileSpec, CopyRun, copy_files, skip_file, count_file, nothing_copied,
}

-- The content of the one directory, or else that of the other.
abbrev pub copied_over : Option String → Option String → Option String
copied_over none old = old
copied_over (some x) old = some x

-- Different files of a list have different names.
abbrev pub IsApart : (AuthFileSpec → String) → List AuthFileSpec → Type 0
IsApart to [] = Unit {0}
IsApart to (f ∷ fs) = All (λ g. str_eq (to g) (to f) ≡ false) fs × IsApart to fs

pub contents-set : IsSet (Option String)
contents-set = hlevel (IsScalar-prop)

pub str_eq_flip : (a b : String) → str_eq a b ≡ false → str_eq b a ≡ false
str_eq_flip a b h = ground (arith, eq_iff a b, eq_iff b a)

skip_file-dir : (f : AuthFileSpec) (r : CopyRun) → (skip_file f r).dir ≡ r.dir
unfolding skip_file
skip_file-dir f r = ground arith

count_file-dir : (f : AuthFileSpec) (r : CopyRun) → (count_file f r).dir ≡ r.dir
unfolding count_file
count_file-dir f r = ground arith

pub skip_file-copy_error :
    (f : AuthFileSpec) (r : CopyRun) → (skip_file f r).copy_error ≡ r.copy_error
unfolding skip_file
skip_file-copy_error f r = ground arith

pub count_file-copy_error :
    (f : AuthFileSpec) (r : CopyRun) → (count_file f r).copy_error ≡ r.copy_error
unfolding count_file
count_file-copy_error f r = ground arith

module _ (from to : AuthFileSpec → String) (refuses : AuthFileSpec → Option String) where
  pub copy_files-skipped :
      (src : Table String) (f : AuthFileSpec) (fs : List AuthFileSpec) (dst : Table String)
      → lookup (from f) src ≡ none
      → copy_files from to refuses src (f ∷ fs) dst
        ≡ skip_file f (copy_files from to refuses src fs dst)
  unfolding copy_files
  copy_files-skipped src f fs dst h = rw (h, copy_files) refl

  pub copy_files-counted :
      (src : Table String) (f : AuthFileSpec) (fs : List AuthFileSpec) (dst : Table String)
      (x : String)
      → lookup (from f) src ≡ some x
      → refuses f ≡ none
      → copy_files from to refuses src (f ∷ fs) dst
        ≡ count_file f (copy_files from to refuses src fs (put (to f) x dst))
  unfolding copy_files
  copy_files-counted src f fs dst x h q = rw (h, copy_files, q) refl

  pub copy_files-refused :
      (src : Table String) (f : AuthFileSpec) (fs : List AuthFileSpec) (dst : Table String)
      (x e : String)
      → lookup (from f) src ≡ some x
      → refuses f ≡ some e
      → copy_files from to refuses src (f ∷ fs) dst ≡ nothing_copied dst (some e)
  unfolding copy_files
  copy_files-refused src f fs dst x e h q = rw (h, copy_files, q) refl

  -- A name that no file is copied to keeps what it had.
  pub copy_files-others :
      (src : Table String) (fs : List AuthFileSpec) (dst : Table String) (k : String)
      → All (λ g. str_eq (to g) k ≡ false) fs
      → lookup k (copy_files from to refuses src fs dst).dir ≡ lookup k dst
  unfolding copy_files
  copy_files-others src [] dst k h = refl
  copy_files-others src (f ∷ fs) dst k h = elim (Option-cases (lookup (from f) src)) [
    | inl none_there ↦
        rw
          (
            copy_files-skipped src f fs dst none_there,
            skip_file-dir f (copy_files from to refuses src fs dst),
          )
          (copy_files-others src fs dst k h.1)
    | inr (x, there) ↦ elim (Option-cases (refuses f)) [
      | inr (e, q) ↦ rw (copy_files-refused src f fs dst x e there q) refl
      | inl q ↦
          let dst' = put (to f) x dst in
          rw
            (
              copy_files-counted src f fs dst x there q,
              count_file-dir f (copy_files from to refuses src fs dst'),
            )
            (copy_files-others src fs dst' k h.1 ∙ rw (lookup-put (to f) k x dst, h.0) refl)
    ]
  ]

  -- After a loop that was not refused, each file has its copy, or what it had if there is nothing to
  -- copy.
  pub copy_files-lem :
      (src : Table String) (fs : List AuthFileSpec) (dst : Table String) (g : AuthFileSpec)
      → IsApart to fs
      → (copy_files from to refuses src fs dst).copy_error ≡ none
      → Mem g fs
      → lookup (to g) (copy_files from to refuses src fs dst).dir
        ≡ copied_over (lookup (from g) src) (lookup (to g) dst)
  copy_files-lem src [] dst g apart ok m = absurd (not-mem-nil m)
  copy_files-lem src (f ∷ fs) dst g apart ok m = elim (Option-cases (lookup (from f) src)) [
    | inl none_there ↦
        let r = copy_files from to refuses src fs dst in
        let ok' =
          sym (skip_file-copy_error f r)
          ∙ sym (ap (λ (s : CopyRun). s.copy_error) (copy_files-skipped src f fs dst none_there))
          ∙ ok in
        rw (copy_files-skipped src f fs dst none_there, skip_file-dir f r)
          (Or.elim (contents-set _ _) (mem-cons.0 m)
            (λ same. rw (same, none_there) (copy_files-others src fs dst (to f) apart.0))
            (λ later. copy_files-lem src fs dst g apart.1 ok' later))
    | inr (x, there) ↦ elim (Option-cases (refuses f)) [
      | inr (e, q) ↦ absurd (
          Option.none-ne-some e (
            sym ok
            ∙ ap (λ (s : CopyRun). s.copy_error) (copy_files-refused src f fs dst x e there q)))
      | inl q ↦
          let dst' = put (to f) x dst in
          let r = copy_files from to refuses src fs dst' in
          let ok' =
            sym (count_file-copy_error f r)
            ∙ sym (ap (λ (s : CopyRun). s.copy_error) (copy_files-counted src f fs dst x there q))
            ∙ ok in
          rw (copy_files-counted src f fs dst x there q, count_file-dir f r)
            (Or.elim (contents-set _ _) (mem-cons.0 m)
              (λ same.
                rw (same, there)
                  (copy_files-others src fs dst' (to f) apart.0 ∙ lookup-put_self (to f) x dst))
              (λ later.
                copy_files-lem src fs dst' g apart.1 ok' later
                ∙ rw
                    (
                      lookup-put (to f) (to g) x dst,
                      str_eq_flip (to g) (to f) (
                          All-mem (λ h. str_eq (to h) (to f) ≡ false) (λ h. hlevel) g fs apart.0
                            later),
                    )
                    refl))
    ]
  ]

  pub copy_files-allowed :
      (src : Table String) (fs : List AuthFileSpec) (dst : Table String)
      → ((f : AuthFileSpec) → refuses f ≡ none)
      → (copy_files from to refuses src fs dst).copy_error ≡ none
  unfolding copy_files
  copy_files-allowed src [] dst h = refl
  copy_files-allowed src (f ∷ fs) dst h = elim (Option-cases (lookup (from f) src)) [
    | inl none_there ↦
        ap (λ (r : CopyRun). r.copy_error) (copy_files-skipped src f fs dst none_there)
        ∙ skip_file-copy_error f (copy_files from to refuses src fs dst)
        ∙ copy_files-allowed src fs dst h
    | inr (x, there) ↦
        ap (λ (r : CopyRun). r.copy_error) (copy_files-counted src f fs dst x there (h f))
        ∙ count_file-copy_error f (copy_files from to refuses src fs (put (to f) x dst))
        ∙ copy_files-allowed src fs (put (to f) x dst) h
  ]
