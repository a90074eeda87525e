-- ===== src/Sync/State/History.antt =====
-- The history keeps the latest events.
use mathlib.Core.List.{reverse, append_assoc, append-nil}
use native.Mathlib.Nat.{zero-add, suc-add}
use caam_account_switching.Prelude.{
  ℕ, zero, suc, ◌+◌, ◌-◌, ◌≤◌, some, List, [], ◌∷◌, ◌++◌, ◌≡◌, refl, sym, ap, ◌∙◌, arith, ltb,
  length, length-append, length-drop, drop, Bool-cases, inl, inr,
}
use caam_account_switching.Sync.State.{
  HistoryEntry, SyncHistory, SyncState, trim, history_of, add_to_history, recent_history,
}

module _ {ℓ} {A : Type ℓ} where
  -- The last `n` elements of a list.
  abbrev pub last_n : ℕ → List A → List A
  last_n n xs = drop (length xs - n) xs

  pub trim-eq-last_n : (n : ℕ) (xs : List A) → trim n xs ≡ last_n n xs
  unfolding trim
  trim-eq-last_n n xs = elim (Bool-cases (ltb n (length xs))) [
    | inl e ↦ rw e refl
    | inr e ↦ rw e (let z : length xs - n ≡ 0 = ground arith in rw z refl)
  ]

  drop-append : (k : ℕ) (xs ys : List A) → k ≤ length xs → drop k (xs ++ ys) ≡ drop k xs ++ ys
  drop-append zero xs ys h = refl
  drop-append (suc k) [] ys h = absurd (omega arith)
  drop-append (suc k) (x ∷ xs) ys h = drop-append k xs ys (omega arith)

  drop-nil : (k : ℕ) → drop {A = A} k [] ≡ []
  drop-nil zero = refl
  drop-nil (suc k) = refl

  drop-drop : (j k : ℕ) (xs : List A) → drop j (drop k xs) ≡ drop (k + j) xs
  drop-drop j zero xs = rw zero-add refl
  drop-drop j (suc k) [] = drop-nil j ∙ sym (drop-nil (suc k + j))
  drop-drop j (suc k) (x ∷ xs) = rw suc-add (drop-drop j k xs)

  -- Trimming twice is trimming once.
  last_n-push :
      (n : ℕ) (xs : List A) (x : A) → last_n n (last_n n xs ++ x ∷ []) ≡ last_n n (xs ++ x ∷ [])
  last_n-push n xs x =
      let k = length xs - n in
      let kept = drop-append k xs (x ∷ []) (omega arith) in
      let amount : k + (length (drop k xs ++ x ∷ []) - n) ≡ length (xs ++ x ∷ []) - n =
        omega (
          arith,
          length-append (drop k xs) (x ∷ []),
          length-append xs (x ∷ []),
          length-drop k xs,
        ) in
      ap (drop (length (drop k xs ++ x ∷ []) - n)) (sym kept)
      ∙ drop-drop (length (drop k xs ++ x ∷ []) - n) k (xs ++ x ∷ [])
      ∙ ap (λ m. drop m (xs ++ x ∷ [])) amount

  pub last_n-all : (n : ℕ) (xs : List A) → length xs ≤ n → last_n n xs ≡ xs
  last_n-all n xs h = let z : length xs - n ≡ 0 = omega arith in rw z refl

-- A row of events.
unfoldable pub add_events : SyncState → List HistoryEntry → SyncState
add_events s [] = s
add_events s (e ∷ es) = add_events (add_to_history s e) es

add_to_history-last_n :
    (s : SyncState) (h : SyncHistory) (xs : List HistoryEntry) (e : HistoryEntry)
    → s.history ≡ some (record h { entries = last_n h.max_size xs })
    → (add_to_history s e).history ≡ some (record h { entries = last_n h.max_size (xs ++ e ∷ []) })
unfolding add_to_history history_of
add_to_history-last_n s h xs e held = rw held (
    ap (λ es. some (record h { entries = es }))
      (trim-eq-last_n h.max_size (last_n h.max_size xs ++ e ∷ []) ∙ last_n-push h.max_size xs e))

pub add_events-last_n :
    (s : SyncState) (h : SyncHistory) (xs es : List HistoryEntry)
    → s.history ≡ some (record h { entries = last_n h.max_size xs })
    → (add_events s es).history ≡ some (record h { entries = last_n h.max_size (xs ++ es) })
unfolding add_events
add_events-last_n s h xs [] held =
    held ∙ ap (λ ys. some (record h { entries = last_n h.max_size ys })) (sym (append-nil xs))
add_events-last_n s h xs (e ∷ es) held =
    add_events-last_n (add_to_history s e) h (xs ++ e ∷ []) es (add_to_history-last_n s h xs e held)
    ∙ ap (λ ys. some (record h { entries = last_n h.max_size ys })) (append_assoc xs (e ∷ []) es)

-- A history within its size that records further events holds the latest of all of them, oldest
-- first, as many as its size allows, and `RecentHistory` returns the latest of these, newest first,
-- as many as its limit allows.
pub history_keeps_latest :
    (s : SyncState) (h : SyncHistory) (es : List HistoryEntry) (limit : ℕ)
    → s.history ≡ some h
    → length h.entries ≤ h.max_size
    → let latest = last_n h.max_size (h.entries ++ es) in
      ((add_events s es).history ≡ some (record h { entries = latest }))
      × (recent_history (add_events s es) limit ≡ reverse (last_n limit latest))
unfolding recent_history
history_keeps_latest s h es limit held fits =
    let start : s.history ≡ some (record h { entries = last_n h.max_size h.entries }) =
      held
      ∙ ap (λ ys. some (record h { entries = ys })) (sym (last_n-all h.max_size h.entries fits)) in
    let final = add_events-last_n s h h.entries es start in
    (final, rw final (ap reverse (trim-eq-last_n limit (last_n h.max_size (h.entries ++ es)))))
