-- ===== src/Coordinator/Respond.antt =====
-- internal/coordinator/coordinator.go: the answers of the local agent, and the whole coordinator.
-- An answer is taken in one step: the source gives up its lock between the lookup of the tracker and
-- the write of the code, and a poll in between is left out.
pub mod Lost
pub mod Trackers
pub mod Abandoned
use caam_account_switching.Prelude.{
  ℕ, String, Bool, true, false, not, Option, none, some, List, [], ◌∷◌, ◌++◌, str_eq, if◌then◌else◌,
  filter,
}
use caam_account_switching.Prelude.Table.{Table, lookup, put, remove, values}
use caam_account_switching.Coordinator.Pane.{
  PaneState, failed, PaneTracker, set_state, set_auth_response, is_empty_text,
}
use caam_account_switching.Coordinator.Poll.{
  Config, Coordinator, Event, fails, AuthRequest, RequestStatus, pending, processing, Pane,
  put_tracker, poll_panes,
}

pub record AuthResponse : Type 0 where
  pub request_id : String
  pub code : String
  pub account : String
  pub error : String

-- What `ReceiveAuthResponse` returns; `received` is its nil error.
pub data Received : Type 0 where
  received unknown_request no_tracker : Received

-- The loop over the trackers.
unfoldable pub find_by_request : String → List PaneTracker → Option PaneTracker
find_by_request id [] = none
find_by_request id (t ∷ ts) = if str_eq t.request_id id then some t else find_by_request id ts

unfoldable pub receive_auth_response :
    AuthResponse → ℕ → Coordinator → Coordinator × List Event × Received
unfolding find_by_request set_state set_auth_response
receive_auth_response resp now k = elim (lookup resp.request_id k.requests) [
  | none ↦ (k, [], unknown_request)
  | some q ↦
      let rs = put resp.request_id (record q { status = processing }) k.requests in
      elim (find_by_request resp.request_id k.trackers) [
        | none ↦ (record k { requests = rs }, [], no_tracker)
        | some t ↦
            let broken = set_state (record t { error_message = resp.error }) failed now in
            let answered = set_auth_response t resp.code resp.account in
            if not (is_empty_text resp.error)
            then (
              record {
                trackers = put_tracker broken k.trackers;
                requests = remove resp.request_id rs;
              },
              fails t.pane_id ∷ [],
              received,
            )
            else (
              record { trackers = put_tracker answered k.trackers; requests = rs },
              [],
              received,
            )
      ]
]

abbrev pub is_pending : AuthRequest → Bool
is_pending q = elim q.status [ pending ↦ true | processing ↦ false ]

unfoldable pub get_pending_requests : Coordinator → List AuthRequest
get_pending_requests k = filter is_pending (values k.requests)

-- What happens to a coordinator: a poll, or an answer of the local agent.
pub data Act : Type 0 where
  polls : Option (List Pane) → Act
  answers : AuthResponse → ℕ → Act

unfoldable pub act : Config → Coordinator → Act → Coordinator
act c k (polls panes) = (poll_panes c panes k).0
act c k (answers resp now) = (receive_auth_response resp now k).0

unfoldable pub run : Config → Coordinator → List Act → Coordinator
unfolding act
run c k [] = k
run c k (a ∷ rest) = run c (act c k a) rest
