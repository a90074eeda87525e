-- ===== src/Coordinator/Respond/Trackers.antt =====
-- What holds of all trackers holds of one that is found, put or kept.
use mathlib.Core.Option
use caam_account_switching.Prelude.{
  ℕ, String, Bool, some, List, [], ◌∷◌, ◌≡◌, str_eq, eq_iff, All, filter, Bool-cases, inl, inr,
  ◌==◌,
}
use caam_account_switching.Coordinator.Pane.{PaneTracker}
use caam_account_switching.Coordinator.Poll.{find_tracker, put_tracker}
use caam_account_switching.Coordinator.Respond.{find_by_request}

module _ (P : PaneTracker → Type 0) where
  pub find_tracker-All :
      (id : ℕ) (ts : List PaneTracker) (t : PaneTracker)
      → All P ts
      → find_tracker id ts ≡ some t
      → P t
  unfolding find_tracker
  find_tracker-All id [] t all e = absurd (Option.none-ne-some t e)
  find_tracker-All id (u ∷ us) t all e = elim (Bool-cases (u.pane_id == id)) [
    | inl b ↦ rw (Option.some-injective u t (rw b at e)) at all.0
    | inr b ↦ find_tracker-All id us t all.1 (rw b at e)
  ]

  pub put_tracker-All :
      (t : PaneTracker) (ts : List PaneTracker) → P t → All P ts → All P (put_tracker t ts)
  unfolding put_tracker
  put_tracker-All t [] h all = (h, tt)
  put_tracker-All t (u ∷ us) h all = elim (Bool-cases (u.pane_id == t.pane_id)) [
    | inl b ↦ rw b (h, all.1)
    | inr b ↦ rw b (all.0, put_tracker-All t us h all.1)
  ]

  pub filter-All : (f : PaneTracker → Bool) (ts : List PaneTracker) → All P ts → All P (filter f ts)
  filter-All f [] all = tt
  filter-All f (t ∷ ts) all = elim (Bool-cases (f t)) [
    | inl b ↦ rw b (all.0, filter-All f ts all.1)
    | inr b ↦ rw b (filter-All f ts all.1)
  ]

  pub find_by_request-lem :
      (id : String) (ts : List PaneTracker) (t : PaneTracker)
      → All P ts
      → find_by_request id ts ≡ some t
      → P t × (t.request_id ≡ id)
  unfolding find_by_request
  find_by_request-lem id [] t all e = absurd (Option.none-ne-some t e)
  find_by_request-lem id (u ∷ us) t all e = elim (Bool-cases (str_eq u.request_id id)) [
    | inl b ↦
        let k : u ≡ t = Option.some-injective u t (rw b at e) in
        (rw k at all.0, rw k at ((eq_iff u.request_id id).0 b))
    | inr b ↦ find_by_request-lem id us t all.1 (rw b at e)
  ]
