-- ===== src/Coordinator/Poll/Progress.antt =====
-- Several polls of one pane.
use Prim.Native.String.{◌++◌ as append}
use caam_account_switching.Prelude.{
  ◌+◌, ◌≤◌, ◌<◌, String, true, false, none, List, [], ◌∷◌, ◌++◌, ◌≡◌, refl, ap, ◌∙◌, arith, ltb,
  str_eq, Bool-cases, inl, inr,
}
use caam_account_switching.Prelude.Table.{remove}
use caam_account_switching.Coordinator.Pane.{
  PaneState, idle, auth_pending, code_received, awaiting_confirm, resuming, failed, PaneTracker,
  set_state, is_overdue, is_empty_text, detect_state, reset,
}
use caam_account_switching.Coordinator.Poll.{
  Config, Moment, Requests, Handled, sends, completes, fails, reset_if_overdue, fail_if_overdue,
  awaiting_confirm_on, handle_auth_pending, handle_code_received, handle_awaiting_confirm,
  handle_resuming, handle_in, process_output, is_idle,
}

-- The polls of one pane, each with what it meets and what the pane shows.
unfoldable pub process_outputs : Config → List (Moment × String) → PaneTracker → Requests → Handled
process_outputs c [] t rs = (t, rs, [])
process_outputs c ((e, output) ∷ rest) t rs =
    let r = process_output c e t output rs in
    let next = process_outputs c rest r.0 r.1 in (next.0, next.1, r.2 ++ next.2)

-- A pane that is not idle is handled whatever it shows.
abbrev seen : PaneTracker → Moment → String → PaneTracker
seen t e output = record t { last_output = output; last_check = e.checked }

process_output-busy :
    (c : Config) (e : Moment) (t : PaneTracker) (output : String) (rs : Requests) (s : PaneState)
    → t.state ≡ s
    → is_idle s ≡ false
    → process_output c e t output rs ≡ handle_in s c e (seen t e output) output rs
unfolding process_output
process_output-busy c e t output rs s q b =
    let i = ap is_idle q ∙ b in
    elim (Bool-cases (str_eq output t.last_output)) [
      | inl x ↦ rw (process_output, x, i) (ap (λ z. handle_in z c e (seen t e output) output rs) q)
      | inr x ↦ rw (process_output, x) (ap (λ z. handle_in z c e (seen t e output) output rs) q)
    ]

module _ (c : Config) (rs : Requests) where
  process_output-answered :
      (e : Moment) (t : PaneTracker) (output : String)
      → t.state ≡ auth_pending
      → is_empty_text t.received_code ≡ false
      → process_output c e t output rs
        ≡ (set_state (seen t e output) code_received e.entered, rs, [])
  unfolding handle_in handle_auth_pending
  process_output-answered e t output q h =
      process_output-busy c e t output rs auth_pending q refl ∙ rw (handle_auth_pending, h) refl

  process_output-typed :
      (e : Moment) (t : PaneTracker) (output : String)
      → t.state ≡ code_received
      → is_empty_text t.received_code ≡ false
      → e.send_error ≡ none
      → process_output c e t output rs ≡ (
        set_state (seen t e output) awaiting_confirm e.entered,
        rs,
        sends t.pane_id (append t.received_code "\n") ∷ [],
      )
  unfolding handle_in handle_code_received
  process_output-typed e t output q h sent =
      process_output-busy c e t output rs code_received q refl
      ∙ rw (handle_code_received, h) (rw sent refl)

  process_output-confirmed :
      (e : Moment) (t : PaneTracker) (output : String)
      → t.state ≡ awaiting_confirm
      → detect_state c.patterns output ≡ resuming
      → e.tested ≤ e.entered + c.state_timeout
      → process_output c e t output rs ≡ (set_state (seen t e output) resuming e.entered, rs, [])
  unfolding handle_in handle_awaiting_confirm awaiting_confirm_on fail_if_overdue set_state
      is_overdue
  process_output-confirmed e t output q shown timely =
      let k : ltb (e.entered + c.state_timeout) e.tested ≡ false = ground arith in
      process_output-busy c e t output rs awaiting_confirm q refl
      ∙ rw shown (rw (fail_if_overdue, k) refl)

  process_output-resumed :
      (e : Moment) (t : PaneTracker) (output : String)
      → t.state ≡ resuming
      → process_output c e t output rs ≡ (
        reset (seen t e output) e.reset_at,
        remove t.request_id rs,
        sends t.pane_id c.resume_prompt ∷ completes t.pane_id t.used_account ∷ [],
      )
  unfolding handle_in handle_resuming
  process_output-resumed e t output q = process_output-busy c e t output rs resuming q refl

-- A pane for whose request a code has come in is logged in by four polls, whatever it shows in the
-- meantime, if the multiplexer takes the code and the pane shows the success of the login in time:
-- the code is typed, then the prompt to resume, the completion is reported, the request is deleted,
-- and the pane is idle, with no request and no code.
pub answered_pane_resumes :
    (c : Config) (t : PaneTracker) (rs : Requests) (e₁ e₂ e₃ e₄ : Moment) (o₁ o₂ o₃ o₄ : String)
    → t.state ≡ auth_pending
    → is_empty_text t.received_code ≡ false
    → e₂.send_error ≡ none
    → detect_state c.patterns o₃ ≡ resuming
    → e₃.tested ≤ e₃.entered + c.state_timeout
    → let r = process_outputs c ((e₁, o₁) ∷ (e₂, o₂) ∷ (e₃, o₃) ∷ (e₄, o₄) ∷ []) t rs in
      (r.0.state ≡ idle)
      × (r.0.request_id ≡ "")
      × (r.0.received_code ≡ "")
      × (r.1 ≡ remove t.request_id rs)
      × (r.2
          ≡ sends t.pane_id (append t.received_code "\n")
            ∷ sends t.pane_id c.resume_prompt
            ∷ completes t.pane_id t.used_account
            ∷ [])
unfolding process_outputs set_state reset
answered_pane_resumes c t rs e₁ e₂ e₃ e₄ o₁ o₂ o₃ o₄ q h sent shown timely =
    let t₁ = set_state (seen t e₁ o₁) code_received e₁.entered in
    let t₂ = set_state (seen t₁ e₂ o₂) awaiting_confirm e₂.entered in
    let t₃ = set_state (seen t₂ e₃ o₃) resuming e₃.entered in
    rw (process_output-answered c rs e₁ t o₁ q h) (
      rw (process_output-typed c rs e₂ t₁ o₂ refl h sent) (
        rw (process_output-confirmed c rs e₃ t₂ o₃ refl shown timely)
          (rw (process_output-resumed c rs e₄ t₃ o₄ refl) (refl, refl, refl, refl, refl))))

-- A pane that gets no code in time fails, and once it has been failed for too long it is idle again
-- and has forgotten its request, which stays among the requests.
pub unanswered_pane_gives_up :
    (c : Config) (t : PaneTracker) (rs : Requests) (e₁ e₂ : Moment) (o₁ o₂ : String)
    → t.state ≡ auth_pending
    → is_empty_text t.received_code ≡ true
    → t.state_entered + c.auth_timeout < e₁.tested
    → e₁.entered + c.state_timeout < e₂.tested
    → let r = process_outputs c ((e₁, o₁) ∷ (e₂, o₂) ∷ []) t rs in
      (r.0.state ≡ idle) × (r.0.request_id ≡ "") × (r.1 ≡ rs) × (r.2 ≡ fails t.pane_id ∷ [])
unfolding process_outputs set_state reset handle_in handle_auth_pending reset_if_overdue is_overdue
unanswered_pane_gives_up c t rs e₁ e₂ o₁ o₂ q h late over =
    let a : ltb (t.state_entered + c.auth_timeout) e₁.tested ≡ true = ground arith in
    let b : ltb (e₁.entered + c.state_timeout) e₂.tested ≡ true = ground arith in
    let t₁ =
      set_state (record (seen t e₁ o₁) { error_message = "auth timeout" }) failed e₁.entered in
    let first : process_output c e₁ t o₁ rs ≡ (t₁, rs, fails t.pane_id ∷ []) =
      process_output-busy c e₁ t o₁ rs auth_pending q refl
      ∙ rw (handle_auth_pending, h) (rw a refl) in
    let second : process_output c e₂ t₁ o₂ rs ≡ (reset (seen t₁ e₂ o₂) e₂.reset_at, rs, []) =
      process_output-busy c e₂ t₁ o₂ rs failed refl refl ∙ rw (reset_if_overdue, b) refl in
    rw first (rw second (refl, refl, refl, refl))
