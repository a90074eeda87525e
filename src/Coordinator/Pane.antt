-- ===== src/Coordinator/Pane.antt =====
-- internal/coordinator/state.go: the state of a pane and what its output shows.
-- The regular expressions are those of the package regexp and are parameters: `Patterns` says which
-- of them match an output, and what the two that extract a text find. `retry_count` is never used.
use caam_account_switching.Prelude.{ℕ, ◌+◌, String, Bool, not, ltb, str_eq, if◌then◌else◌}

pub data PaneState : Type 0 where
  idle rate_limited awaiting_method_select awaiting_url auth_pending code_received awaiting_confirm
        resuming failed :
      PaneState

pub record PaneTracker : Type 0 where
  pub pane_id : ℕ
  pub state : PaneState
  pub last_check : ℕ
  pub state_entered : ℕ
  pub oauth_url : String
  pub request_id : String
  pub received_code : String
  pub used_account : String
  pub error_message : String
  pub last_output : String

unfoldable pub new_pane_tracker : ℕ → ℕ → PaneTracker
new_pane_tracker id now = record {
  pane_id = id;
  state = idle;
  last_check = now;
  state_entered = now;
  oauth_url = "";
  request_id = "";
  received_code = "";
  used_account = "";
  error_message = "";
  last_output = "";
}

unfoldable pub set_state : PaneTracker → PaneState → ℕ → PaneTracker
set_state t s now = record t { state = s; state_entered = now }

-- `TimeSinceStateChange() > timeout`, as an order of instants
unfoldable pub is_overdue : PaneTracker → ℕ → ℕ → Bool
is_overdue t timeout now = ltb (t.state_entered + timeout) now

unfoldable pub reset : PaneTracker → ℕ → PaneTracker
reset t now = record t {
  state = idle;
  state_entered = now;
  oauth_url = "";
  request_id = "";
  received_code = "";
  used_account = "";
  error_message = "";
}

unfoldable pub set_auth_response : PaneTracker → String → String → PaneTracker
set_auth_response t code account = record t { received_code = code; used_account = account }

-- `FindString` gives the empty text where nothing matches.
pub record Patterns : Type 0 where
  pub rate_limit : String → Bool
  pub select_method : String → Bool
  pub oauth_url : String → String
  pub paste_prompt : String → Bool
  pub login_success : String → Bool
  pub login_failed : String → Bool

abbrev pub is_empty_text : String → Bool
is_empty_text s = str_eq s ""

-- The state that `DetectState` finds. Of its metadata the URL alone is used, and it is what
-- `extract_oauth_url` finds in the same output; the time of the reset is only logged.
unfoldable pub detect_state : Patterns → String → PaneState
detect_state p output =
    if p.login_success output
    then resuming
    else if p.login_failed output
    then failed
    else if not (is_empty_text (p.oauth_url output))
    then awaiting_url
    else if p.paste_prompt output
    then awaiting_url
    else if p.select_method output
    then awaiting_method_select
    else if p.rate_limit output
    then rate_limited
    else idle

unfoldable pub extract_oauth_url : Patterns → String → String
extract_oauth_url p output = p.oauth_url output
