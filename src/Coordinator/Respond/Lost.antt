-- ===== src/Coordinator/Respond/Lost.antt =====
-- A request whose pane has given up.
use caam_account_switching.Prelude.{
  String, true, false, not, ◌&&◌, ◌≡◌, arith, str_eq, Bool-cases, Option-cases, inl, inr,
}
use caam_account_switching.Prelude.Table.{has_key, has_key-put, has_key-remove}
use caam_account_switching.Coordinator.Pane.{
  PaneState, idle, rate_limited, awaiting_method_select, awaiting_url, auth_pending, code_received,
  awaiting_confirm, resuming, failed, PaneTracker, set_state, is_empty_text, reset,
}
use caam_account_switching.Coordinator.Poll.{
  Config, Moment, Requests, Handled, idle_on, rate_limited_on, awaiting_method_select_on,
  awaiting_confirm_on, handle_idle, handle_rate_limited, handle_awaiting_method_select,
  handle_awaiting_url, handle_auth_pending, handle_code_received, handle_awaiting_confirm,
  handle_resuming, handle_in, process_output, is_idle, with_url, take_url, reset_if_overdue,
  fail_if_overdue, new_request,
}

module _ (r : String) (named : str_eq "" r ≡ false) where
  -- A tracker of another request, or of none.
  abbrev pub IsOther : PaneTracker → Type 0
  IsOther t = str_eq t.request_id r ≡ false

  -- The request is there.
  abbrev pub Has : Requests → Type 0
  Has rs = has_key r rs ≡ true

  abbrev Passes : Handled → Type 0
  Passes h = IsOther h.0 × Has h.1

  module _ (c : Config) (e : Moment) (fresh : str_eq e.new_id r ≡ false) where
    reset_if_overdue-IsOther : (t : PaneTracker) → IsOther t → IsOther (reset_if_overdue c e t)
    unfolding reset_if_overdue reset
    reset_if_overdue-IsOther t h = ground (arith, named)

    fail_if_overdue-IsOther : (t : PaneTracker) → IsOther t → IsOther (fail_if_overdue c e t)
    unfolding fail_if_overdue set_state
    fail_if_overdue-IsOther t h = ground arith

    take_url-IsOther :
        (t : PaneTracker) (output : String) → IsOther t → IsOther (take_url c e t output)
    unfolding take_url set_state
    take_url-IsOther t output h = ground arith

    with_url-IsOther :
        (t : PaneTracker) (output : String) → IsOther t → IsOther (with_url c t output)
    unfolding with_url
    with_url-IsOther t output h = ground arith

    idle_on-Passes :
        (d : PaneState) (t : PaneTracker) (rs : Requests)
        → IsOther t
        → Has rs
        → Passes (idle_on d e t rs)
    unfolding idle_on set_state
    idle_on-Passes rate_limited t rs h k = (h, k)
    idle_on-Passes _ t rs h k = (h, k)

    rate_limited_on-Passes :
        (d : PaneState) (t : PaneTracker) (output : String) (rs : Requests)
        → IsOther t
        → Has rs
        → Passes (rate_limited_on d c e t output rs)
    unfolding rate_limited_on set_state
    rate_limited_on-Passes awaiting_method_select t output rs h k =
        (reset_if_overdue-IsOther (set_state t awaiting_method_select e.entered) h, k)
    rate_limited_on-Passes awaiting_url t output rs h k =
        (reset_if_overdue-IsOther (take_url c e t output) (take_url-IsOther t output h), k)
    rate_limited_on-Passes _ t output rs h k = (reset_if_overdue-IsOther t h, k)

    awaiting_method_select_on-Passes :
        (d : PaneState) (t : PaneTracker) (output : String) (rs : Requests)
        → IsOther t
        → Has rs
        → Passes (awaiting_method_select_on d c e t output rs)
    unfolding awaiting_method_select_on
    awaiting_method_select_on-Passes awaiting_url t output rs h k =
        (reset_if_overdue-IsOther (take_url c e t output) (take_url-IsOther t output h), k)
    awaiting_method_select_on-Passes _ t output rs h k = (reset_if_overdue-IsOther t h, k)

    awaiting_confirm_on-Passes :
        (d : PaneState) (t : PaneTracker) (rs : Requests)
        → IsOther t
        → Has rs
        → Passes (awaiting_confirm_on d c e t rs)
    unfolding awaiting_confirm_on set_state
    awaiting_confirm_on-Passes resuming t rs h k =
        (fail_if_overdue-IsOther (set_state t resuming e.entered) h, k)
    awaiting_confirm_on-Passes failed t rs h k =
        (fail_if_overdue-IsOther (set_state t failed e.entered) h, k)
    awaiting_confirm_on-Passes _ t rs h k = (fail_if_overdue-IsOther t h, k)

    handle_awaiting_url-Passes :
        (t : PaneTracker) (output : String) (rs : Requests)
        → IsOther t
        → Has rs
        → Passes (handle_awaiting_url c e t output rs)
    unfolding handle_awaiting_url set_state
    handle_awaiting_url-Passes t output rs h k =
        let u = with_url c t output in
        elim (Bool-cases (not (is_empty_text u.oauth_url) && is_empty_text u.request_id)) [
          | inl b ↦
              rw (handle_awaiting_url, b)
                (
                  reset_if_overdue-IsOther
                      (set_state (record u { request_id = e.new_id }) auth_pending e.entered) fresh,
                  rw (has_key-put e.new_id r (new_request e u) rs, fresh) k,
                )
          | inr b ↦
              rw (handle_awaiting_url, b)
                (reset_if_overdue-IsOther u (with_url-IsOther t output h), k)
        ]

    handle_auth_pending-Passes :
        (t : PaneTracker) (rs : Requests)
        → IsOther t
        → Has rs
        → Passes (handle_auth_pending c e t rs)
    unfolding handle_auth_pending set_state
    handle_auth_pending-Passes t rs h k = ground arith

    handle_code_received-Passes :
        (t : PaneTracker) (rs : Requests)
        → IsOther t
        → Has rs
        → Passes (handle_code_received e t rs)
    unfolding handle_code_received set_state
    handle_code_received-Passes t rs h k = elim (Option-cases e.send_error) [
      | inl o ↦ rw (handle_code_received, o) (ground arith)
      | inr (m, o) ↦ rw (handle_code_received, o) (ground arith)
    ]

    handle_in-Passes :
        (s : PaneState) (t : PaneTracker) (output : String) (rs : Requests)
        → IsOther t
        → Has rs
        → Passes (handle_in s c e t output rs)
    unfolding handle_in handle_idle handle_rate_limited handle_awaiting_method_select
        handle_awaiting_confirm handle_resuming reset
    handle_in-Passes idle t output rs h k = idle_on-Passes _ t rs h k
    handle_in-Passes rate_limited t output rs h k = rate_limited_on-Passes _ t output rs h k
    handle_in-Passes awaiting_method_select t output rs h k =
        awaiting_method_select_on-Passes _ t output rs h k
    handle_in-Passes awaiting_url t output rs h k = handle_awaiting_url-Passes t output rs h k
    handle_in-Passes auth_pending t output rs h k = handle_auth_pending-Passes t rs h k
    handle_in-Passes code_received t output rs h k = handle_code_received-Passes t rs h k
    handle_in-Passes awaiting_confirm t output rs h k = awaiting_confirm_on-Passes _ t rs h k
    handle_in-Passes resuming t output rs h k = (named, rw (has_key-remove t.request_id r rs, h) k)
    handle_in-Passes failed t output rs h k = (reset_if_overdue-IsOther t h, k)

    pub process_output-Passes :
        (t : PaneTracker) (output : String) (rs : Requests)
        → IsOther t
        → Has rs
        → Passes (process_output c e t output rs)
    unfolding process_output
    process_output-Passes t output rs h k =
        let t' = record t { last_output = output; last_check = e.checked } in
        elim (Bool-cases (str_eq output t.last_output && is_idle t.state)) [
          | inl b ↦ rw (b, process_output) (h, k)
          | inr b ↦ rw (b, process_output) (handle_in-Passes t.state t' output rs h k)
        ]
