-- ===== src/Vault/Counts.antt =====
-- What the loops of Backup and Restore count.
use mathlib.Core.Option
use caam_account_switching.Prelude.{
  String, Option, none, List, [], ◌∷◌, ◌≡◌, refl, sym, ap, ◌∙◌, arith, All, Option-cases, inl, inr,
}
use caam_account_switching.Prelude.Table.{Table, lookup, put}
use caam_account_switching.Vault.Copying.{AuthFileSpec, CopyRun, copy_files, skip_file, count_file}
use caam_account_switching.Vault.Copies.{
  skip_file-copy_error, count_file-copy_error, copy_files-skipped, copy_files-counted,
  copy_files-refused,
}

-- A loop without what it leaves in the directory.
abbrev pub counts : CopyRun → CopyRun
counts r = record r { dir = [] }

counts-skip_file :
    (f : AuthFileSpec) (r : CopyRun) → counts (skip_file f r) ≡ skip_file f (counts r)
unfolding skip_file
counts-skip_file f r = ground arith

counts-count_file :
    (f : AuthFileSpec) (r : CopyRun) → counts (count_file f r) ≡ count_file f (counts r)
unfolding count_file
counts-count_file f r = ground arith

-- Two loops that find the same files, and of which neither is refused, count alike.
module _ (from to : AuthFileSpec → String) (refuses : AuthFileSpec → Option String) where
  pub counts-copy_files :
      (from' to' : AuthFileSpec → String) (refuses' : AuthFileSpec → Option String)
      (src src' : Table String) (fs : List AuthFileSpec) (dst dst' : Table String)
      → ((f : AuthFileSpec) → refuses' f ≡ none)
      → (copy_files from to refuses src fs dst).copy_error ≡ none
      → All (λ f. lookup (from f) src ≡ lookup (from' f) src') fs
      → counts (copy_files from' to' refuses' src' fs dst')
        ≡ counts (copy_files from to refuses src fs dst)
  unfolding copy_files
  counts-copy_files from' to' refuses' src src' [] dst dst' h ok same = refl
  counts-copy_files from' to' refuses' src src' (f ∷ fs) dst dst' h ok same =
      elim (Option-cases (lookup (from f) src)) [
        | inl gone ↦
            let ok' =
              sym (skip_file-copy_error f (copy_files from to refuses src fs dst))
              ∙ sym (
                  ap (λ (s : CopyRun). s.copy_error)
                    (copy_files-skipped from to refuses src f fs dst gone))
              ∙ ok in
            rw
              (
                copy_files-skipped from to refuses src f fs dst gone,
                copy_files-skipped from' to' refuses' src' f fs dst' (sym same.0 ∙ gone),
              )
              (counts-skip_file f (copy_files from' to' refuses' src' fs dst')
                ∙ ap (skip_file f)
                    (counts-copy_files from' to' refuses' src src' fs dst dst' h ok' same.1)
                ∙ sym (counts-skip_file f (copy_files from to refuses src fs dst)))
        | inr (x, there) ↦ elim (Option-cases (refuses f)) [
          | inr (e, q) ↦ absurd (
              Option.none-ne-some e (
                sym ok
                ∙ ap (λ (s : CopyRun). s.copy_error)
                    (copy_files-refused from to refuses src f fs dst x e there q)))
          | inl q ↦
              let d = put (to f) x dst in
              let d' = put (to' f) x dst' in
              let ok' =
                sym (count_file-copy_error f (copy_files from to refuses src fs d))
                ∙ sym (
                    ap (λ (s : CopyRun). s.copy_error)
                      (copy_files-counted from to refuses src f fs dst x there q))
                ∙ ok in
              rw
                (
                  copy_files-counted from to refuses src f fs dst x there q,
                  copy_files-counted from' to' refuses' src' f fs dst' x (sym same.0 ∙ there) (h f),
                )
                (counts-count_file f (copy_files from' to' refuses' src' fs d')
                  ∙ ap (count_file f)
                      (counts-copy_files from' to' refuses' src src' fs d d' h ok' same.1)
                  ∙ sym (counts-count_file f (copy_files from to refuses src fs d)))
        ]
      ]
