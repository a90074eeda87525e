-- ===== src/Coordinator/Poll/Moves.antt =====
-- How a poll moves a pane from state to state.
use caam_account_switching.Prelude.{String, Option, none, true, false, ◌≡◌}
use caam_account_switching.Coordinator.Pane.{
  PaneState, idle, rate_limited, awaiting_method_select, awaiting_url, auth_pending, code_received,
  awaiting_confirm, resuming, failed, is_empty_text,
}

-- The states that a pane may be in after a poll: the login goes on by one step, a wait that is too
-- long ends, and what goes wrong after the request makes the pane fail. The output shows `shown`,
-- `url` is the URL of the login as the pane has it from then on, `code` the answer that it has, and
-- `sent` the error of typing that.
pub data Moves (shown : PaneState) (url code : String) (sent : Option String)
    : PaneState → PaneState → Type 0 where
  stays : (s : PaneState) → Moves shown url code sent s s
  limited : shown ≡ rate_limited → Moves shown url code sent idle rate_limited
  prompted :
      shown ≡ awaiting_method_select → Moves shown url code sent rate_limited awaiting_method_select
  linked : shown ≡ awaiting_url → Moves shown url code sent rate_limited awaiting_url
  selected : shown ≡ awaiting_url → Moves shown url code sent awaiting_method_select awaiting_url
  requested : is_empty_text url ≡ false → Moves shown url code sent awaiting_url auth_pending
  answered : is_empty_text code ≡ false → Moves shown url code sent auth_pending code_received
  typed :
      is_empty_text code ≡ false
      → sent ≡ none
      → Moves shown url code sent code_received awaiting_confirm
  confirmed : shown ≡ resuming → Moves shown url code sent awaiting_confirm resuming
  resumed : Moves shown url code sent resuming idle
  limit_over : Moves shown url code sent rate_limited idle
  choice_over : Moves shown url code sent awaiting_method_select idle
  url_over : Moves shown url code sent awaiting_url idle
  failure_over : Moves shown url code sent failed idle
  unanswered : is_empty_text code ≡ true → Moves shown url code sent auth_pending failed
  untyped : Moves shown url code sent code_received failed
  refused : Moves shown url code sent awaiting_confirm failed
