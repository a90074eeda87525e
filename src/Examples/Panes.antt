-- ===== src/Examples/Panes.antt =====
-- Runs of the model of internal/coordinator at concrete inputs.
use Prim.Native.String.{◌++◌ as append}
use caam_account_switching.Prelude.{
  ℕ, String, true, none, some, List, [], ◌∷◌, ◌≡◌, refl, arith, str_eq, if◌then◌else◌,
}
use caam_account_switching.Prelude.Table.{remove, has_key}
use caam_account_switching.Coordinator.Pane.{
  idle, auth_pending, PaneTracker, Patterns, detect_state,
}
use caam_account_switching.Coordinator.Poll.{
  Config, Moment, Requests, AuthRequest, pending, Coordinator, Pane, sends, completes,
}
use caam_account_switching.Coordinator.Poll.Moves.{Moves}
use caam_account_switching.Coordinator.Poll.Progress.{process_outputs, answered_pane_resumes}
use caam_account_switching.Coordinator.Respond.{
  AuthResponse, Act, polls, answers, run, receive_auth_response, no_tracker,
}
use caam_account_switching.Coordinator.Respond.Abandoned.{abandoned_request_stays}

-- Patterns that look for whole outputs.
abbrev patterns : Patterns
patterns = record {
  rate_limit = λ o. str_eq o "limit";
  select_method = λ o. str_eq o "method";
  oauth_url = λ o. if str_eq o "link" then "https://claude.ai/oauth/authorize?a" else "";
  paste_prompt = λ o. str_eq o "paste";
  login_success = λ o. str_eq o "welcome back";
  login_failed = λ o. str_eq o "login failed";
}

abbrev config : Config
config = record {
  auth_timeout = 60;
  state_timeout = 30;
  resume_prompt = "proceed";
  patterns = patterns;
}

abbrev moment : ℕ → Moment
moment t = record {
  send_error = none;
  new_id = "r2";
  checked = t;
  entered = t;
  tested = t;
  reset_at = t;
}

abbrev waiting : PaneTracker
waiting = record {
  pane_id = 4;
  state = auth_pending;
  last_check = 10;
  state_entered = 10;
  oauth_url = "https://claude.ai/oauth/authorize?a";
  request_id = "r1";
  received_code = "";
  used_account = "";
  error_message = "";
  last_output = "link";
}

abbrev request : AuthRequest
request = record {
  id = "r1";
  pane_id = 4;
  url = "https://claude.ai/oauth/authorize?a";
  created_at = 10;
  status = pending;
}

abbrev requests : Requests
requests = ("r1", request) ∷ []

abbrev coordinator : Coordinator
coordinator = record { trackers = waiting ∷ []; requests = requests }

abbrev pane : ℕ → String → Pane
pane t output = record {
  id = 4;
  is_watched = true;
  output = some output;
  created = t;
  moment = moment t;
}

abbrev response : AuthResponse
response = record { request_id = "r1"; code = "c0de"; account = "me"; error = "" }

abbrev acts : List Act
acts =
    answers response 20
    ∷ polls (some (pane 21 "link" ∷ []))
    ∷ polls none
    ∷ polls (some (pane 22 "paste" ∷ []))
    ∷ []

abbrev answered : PaneTracker
answered = record waiting { received_code = "c0de"; used_account = "me" }

answered_pane_resumes_example :
    let r =
      process_outputs config
        ((moment 21, "paste")
          ∷ (moment 22, "paste")
          ∷ (moment 23, "welcome back")
          ∷ (moment 24, "")
          ∷ [])
        answered
        requests in
    (r.0.state ≡ idle)
    × (r.0.request_id ≡ "")
    × (r.0.received_code ≡ "")
    × (r.1 ≡ remove "r1" requests)
    × (r.2 ≡ sends 4 (append "c0de" "\n") ∷ sends 4 "proceed" ∷ completes 4 "me" ∷ [])
unfolding detect_state
answered_pane_resumes_example =
    answered_pane_resumes config answered requests (moment 21) (moment 22) (moment 23) (moment 24)
      "paste" "paste" "welcome back" "" refl refl refl refl (omega arith)

-- The pane has given up and asks again.
abbrev again : PaneTracker
again = record waiting { request_id = "r3" }

abbrev forgetful : Coordinator
forgetful = record {
  trackers = again ∷ [];
  requests = ("r1", request) ∷ ("r3", record request { id = "r3" }) ∷ [];
}

abbrev later_acts : List Act
later_acts = answers response 90 ∷ polls (some (pane 95 "paste" ∷ [])) ∷ []

abandoned_request_stays_example :
    (has_key "r1" (run config forgetful later_acts).requests ≡ true)
    × ((receive_auth_response response 99 (run config forgetful later_acts)).2 ≡ no_tracker)
abandoned_request_stays_example =
    abandoned_request_stays config forgetful later_acts response 99 refl ((refl, tt), refl)
      (tt, ((refl, tt), tt))
