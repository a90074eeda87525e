-- ===== src/Coordinator/Poll.antt =====
-- internal/coordinator/coordinator.go: the poll of the panes.
-- A tracker is stored under its own pane id, so the map of trackers is the list of them. A handler
-- gets the tracker and the requests and returns both with what it does to the outside, in order.
-- The log is left out.
pub mod Moves
pub mod Progress
use Prim.Native.String.{◌++◌ as append}
use caam_account_switching.Prelude.{
  ℕ, String, Bool, true, false, not, ◌&&◌, Option, none, some, List, [], ◌∷◌, ◌++◌, ◌==◌, str_eq,
  if◌then◌else◌, filter,
}
use caam_account_switching.Prelude.Table.{Table, lookup, put, remove}
use caam_account_switching.Coordinator.Pane.{
  PaneState, idle, rate_limited, awaiting_method_select, awaiting_url, auth_pending, code_received,
  awaiting_confirm, resuming, failed, PaneTracker, new_pane_tracker, set_state, is_overdue, reset,
  Patterns, is_empty_text, detect_state, extract_oauth_url,
}

-- The status of a request; the source also names "failed" and "completed", which are set just
-- before the request is deleted.
pub data RequestStatus : Type 0 where
  pending processing : RequestStatus

pub record AuthRequest : Type 0 where
  pub id : String
  pub pane_id : ℕ
  pub url : String
  pub created_at : ℕ
  pub status : RequestStatus

pub record Config : Type 0 where
  pub auth_timeout : ℕ
  pub state_timeout : ℕ
  pub resume_prompt : String
  pub patterns : Patterns

-- What happens outside: a text typed into a pane (whether or not the multiplexer takes it), and the
-- calls of OnAuthRequest, OnAuthComplete and OnAuthFailed.
pub data Event : Type 0 where
  sends : ℕ → String → Event
  requests_auth : AuthRequest → Event
  completes : ℕ → String → Event
  fails : ℕ → Event

-- What the outside gives a handler: whether and with which error `SendText` fails, a new id, and the
-- clock when a state is entered, when a timeout is tested and when a tracker is reset.
pub record Moment : Type 0 where
  pub send_error : Option String
  pub new_id : String
  pub checked : ℕ
  pub entered : ℕ
  pub tested : ℕ
  pub reset_at : ℕ

abbrev pub Requests : Type 0
Requests = Table AuthRequest

abbrev pub Handled : Type 0
Handled = PaneTracker × Requests × List Event

-- The timeout at the end of most handlers.
unfoldable pub reset_if_overdue : Config → Moment → PaneTracker → PaneTracker
unfolding is_overdue reset
reset_if_overdue c e t = if is_overdue t c.state_timeout e.tested then reset t e.reset_at else t

-- A handler that looks at the output is a function of the state that `DetectState` finds.
unfoldable pub idle_on : PaneState → Moment → PaneTracker → Requests → Handled
unfolding set_state
idle_on rate_limited e t rs =
    (set_state t rate_limited e.entered, rs, sends t.pane_id "/login\n" ∷ [])
idle_on _ e t rs = (t, rs, [])

unfoldable pub handle_idle : Config → Moment → PaneTracker → String → Requests → Handled
unfolding idle_on
handle_idle c e t output rs = idle_on (detect_state c.patterns output) e t rs

-- The URL of an output taken over, if there is one.
unfoldable pub take_url : Config → Moment → PaneTracker → String → PaneTracker
unfolding extract_oauth_url set_state
take_url c e t output =
    let url = extract_oauth_url c.patterns output in
    if is_empty_text url then t else set_state (record t { oauth_url = url }) awaiting_url e.entered

unfoldable pub rate_limited_on :
    PaneState → Config → Moment → PaneTracker → String → Requests → Handled
unfolding set_state
rate_limited_on awaiting_method_select c e t output rs = (
  reset_if_overdue c e (set_state t awaiting_method_select e.entered),
  rs,
  sends t.pane_id "1\n" ∷ [],
)
rate_limited_on awaiting_url c e t output rs =
    (reset_if_overdue c e (take_url c e t output), rs, [])
rate_limited_on _ c e t output rs = (reset_if_overdue c e t, rs, [])

unfoldable pub handle_rate_limited : Config → Moment → PaneTracker → String → Requests → Handled
unfolding rate_limited_on
handle_rate_limited c e t output rs =
    rate_limited_on (detect_state c.patterns output) c e t output rs

unfoldable pub awaiting_method_select_on :
    PaneState → Config → Moment → PaneTracker → String → Requests → Handled
awaiting_method_select_on awaiting_url c e t output rs =
    (reset_if_overdue c e (take_url c e t output), rs, [])
awaiting_method_select_on _ c e t output rs = (reset_if_overdue c e t, rs, [])

unfoldable pub handle_awaiting_method_select :
    Config → Moment → PaneTracker → String → Requests → Handled
unfolding awaiting_method_select_on
handle_awaiting_method_select c e t output rs =
    awaiting_method_select_on (detect_state c.patterns output) c e t output rs

-- The URL in the output, if the tracker has none yet.
unfoldable pub with_url : Config → PaneTracker → String → PaneTracker
unfolding extract_oauth_url
with_url c t output =
    if is_empty_text t.oauth_url
    then record t { oauth_url = extract_oauth_url c.patterns output }
    else t

unfoldable pub new_request : Moment → PaneTracker → AuthRequest
new_request e t = record {
  id = e.new_id;
  pane_id = t.pane_id;
  url = t.oauth_url;
  created_at = e.entered;
  status = pending;
}

unfoldable pub handle_awaiting_url : Config → Moment → PaneTracker → String → Requests → Handled
unfolding new_request set_state
handle_awaiting_url c e t output rs =
    let t₁ = with_url c t output in
    let t₂ = set_state (record t₁ { request_id = e.new_id }) auth_pending e.entered in
    if not (is_empty_text t₁.oauth_url) && is_empty_text t₁.request_id
    then (
      reset_if_overdue c e t₂,
      put e.new_id (new_request e t₁) rs,
      requests_auth (new_request e t₁) ∷ [],
    )
    else (reset_if_overdue c e t₁, rs, [])

unfoldable pub handle_auth_pending : Config → Moment → PaneTracker → Requests → Handled
unfolding set_state is_overdue
handle_auth_pending c e t rs =
    if not (is_empty_text t.received_code)
    then (set_state t code_received e.entered, rs, [])
    else if is_overdue t c.auth_timeout e.tested
    then (
      set_state (record t { error_message = "auth timeout" }) failed e.entered,
      rs,
      fails t.pane_id ∷ [],
    )
    else (t, rs, [])

unfoldable pub handle_code_received : Moment → PaneTracker → Requests → Handled
unfolding set_state
handle_code_received e t rs =
    let typed = sends t.pane_id (append t.received_code "\n") in
    if is_empty_text t.received_code
    then (set_state t failed e.entered, rs, [])
    else elim e.send_error [
      | some message ↦
          (set_state (record t { error_message = message }) failed e.entered, rs, typed ∷ [])
      | none ↦ (set_state t awaiting_confirm e.entered, rs, typed ∷ [])
    ]

-- The timeout of `handleAwaitingConfirmState`, which fails the pane.
unfoldable pub fail_if_overdue : Config → Moment → PaneTracker → PaneTracker
unfolding is_overdue set_state
fail_if_overdue c e t =
    if is_overdue t c.state_timeout e.tested
    then set_state (record t { error_message = "confirmation timeout" }) failed e.reset_at
    else t

unfoldable pub awaiting_confirm_on : PaneState → Config → Moment → PaneTracker → Requests → Handled
unfolding set_state
awaiting_confirm_on resuming c e t rs =
    (fail_if_overdue c e (set_state t resuming e.entered), rs, [])
awaiting_confirm_on failed c e t rs =
    (fail_if_overdue c e (set_state t failed e.entered), rs, fails t.pane_id ∷ [])
awaiting_confirm_on _ c e t rs = (fail_if_overdue c e t, rs, [])

unfoldable pub handle_awaiting_confirm : Config → Moment → PaneTracker → String → Requests → Handled
unfolding awaiting_confirm_on
handle_awaiting_confirm c e t output rs =
    awaiting_confirm_on (detect_state c.patterns output) c e t rs

-- `delete` of a key that is not there does nothing.
unfoldable pub handle_resuming : Config → Moment → PaneTracker → Requests → Handled
unfolding reset
handle_resuming c e t rs = (
  reset t e.reset_at,
  remove t.request_id rs,
  sends t.pane_id c.resume_prompt ∷ completes t.pane_id t.used_account ∷ [],
)

-- The `switch` of `processPaneState`.
unfoldable pub handle_in : PaneState → Config → Moment → PaneTracker → String → Requests → Handled
handle_in idle c e t output rs = handle_idle c e t output rs
handle_in rate_limited c e t output rs = handle_rate_limited c e t output rs
handle_in awaiting_method_select c e t output rs = handle_awaiting_method_select c e t output rs
handle_in awaiting_url c e t output rs = handle_awaiting_url c e t output rs
handle_in auth_pending c e t output rs = handle_auth_pending c e t rs
handle_in code_received c e t output rs = handle_code_received e t rs
handle_in awaiting_confirm c e t output rs = handle_awaiting_confirm c e t output rs
handle_in resuming c e t output rs = handle_resuming c e t rs
handle_in failed c e t output rs = (reset_if_overdue c e t, rs, [])

abbrev pub is_idle : PaneState → Bool
is_idle idle = true
is_idle _ = false

-- `processPaneState` from the output on: an idle pane whose output is the same is passed over.
unfoldable pub process_output : Config → Moment → PaneTracker → String → Requests → Handled
process_output c e t output rs =
    let t' = record t { last_output = output; last_check = e.checked } in
    if str_eq output t.last_output && is_idle t.state
    then (t', rs, [])
    else handle_in t.state c e t' output rs

pub record Coordinator : Type 0 where
  pub trackers : List PaneTracker
  pub requests : Requests

unfoldable pub find_tracker : ℕ → List PaneTracker → Option PaneTracker
find_tracker id [] = none
find_tracker id (t ∷ ts) = if t.pane_id == id then some t else find_tracker id ts

unfoldable pub put_tracker : PaneTracker → List PaneTracker → List PaneTracker
put_tracker t [] = t ∷ []
put_tracker t (u ∷ us) =
    let rest = put_tracker t us in if u.pane_id == t.pane_id then t ∷ us else u ∷ rest

-- The tracker of a pane, a new one if there is none.
unfoldable pub tracker_of : ℕ → ℕ → List PaneTracker → PaneTracker
unfolding find_tracker new_pane_tracker
tracker_of id now ts = elim (find_tracker id ts) [ none ↦ new_pane_tracker id now | some t ↦ t ]

-- `processPaneState`; an output that cannot be read is none. `created` is the clock for a new tracker.
unfoldable pub process_pane :
    Config → Moment → ℕ → ℕ → Option String → Coordinator → Coordinator × List Event
unfolding tracker_of put_tracker
process_pane c e created id output k =
    let t = tracker_of id created k.trackers in
    elim output [
      | none ↦ (record k { trackers = put_tracker t k.trackers }, [])
      | some text ↦
          let r = process_output c e t text k.requests in
          (record { trackers = put_tracker r.0 k.trackers; requests = r.1 }, r.2)
    ]

-- A pane of the list with what a poll of it meets, and whether the filter lets it through.
pub record Pane : Type 0 where
  pub id : ℕ
  pub is_watched : Bool
  pub output : Option String
  pub created : ℕ
  pub moment : Moment

unfoldable pub process_panes : Config → List Pane → Coordinator → Coordinator × List Event
process_panes c [] k = (k, [])
process_panes c (p ∷ ps) k =
    let r = process_pane c p.moment p.created p.id p.output k in
    let next = if p.is_watched then r.0 else k in
    let happened = if p.is_watched then r.1 else [] in
    let rest = process_panes c ps next in (rest.0, happened ++ rest.1)

abbrev pub is_listed : List Pane → PaneTracker → Bool
is_listed [] t = false
is_listed (p ∷ ps) t = if p.id == t.pane_id then true else is_listed ps t

-- `pollPanes`; none is a list of panes that cannot be read.
unfoldable pub poll_panes : Config → Option (List Pane) → Coordinator → Coordinator × List Event
poll_panes c none k = (k, [])
poll_panes c (some panes) k =
    let r = process_panes c panes k in
    (record r.0 { trackers = filter (is_listed panes) r.0.trackers }, r.1)
