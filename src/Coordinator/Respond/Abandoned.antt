-- ===== src/Coordinator/Respond/Abandoned.antt =====
-- A request of which no tracker knows is never deleted.
use caam_account_switching.Prelude.{
  ℕ, String, true, false, Option, none, some, List, [], ◌∷◌, ◌≡◌, refl, arith, str_eq, All,
  Bool-cases, Option-cases, inl, inr,
}
use caam_account_switching.Prelude.Table.{
  lookup, put, has_key, has_key-put, has_key-remove, not-has_key_of_lookup,
}
use caam_account_switching.Coordinator.Pane.{
  failed, PaneTracker, new_pane_tracker, set_state, set_auth_response, is_empty_text,
}
use caam_account_switching.Coordinator.Poll.{
  Config, Moment, Coordinator, Pane, process_output, find_tracker, tracker_of, process_pane,
  process_panes, is_listed, poll_panes, processing,
}
use caam_account_switching.Coordinator.Respond.{
  AuthResponse, find_by_request, receive_auth_response, Act, polls, answers, act, run, no_tracker,
}
use caam_account_switching.Coordinator.Respond.Trackers.{
  find_tracker-All, put_tracker-All, filter-All, find_by_request-lem,
}
use caam_account_switching.Coordinator.Respond.Lost.{process_output-Passes}

-- A request that is there, while no tracker has its id.
abbrev pub IsAbandoned : String → Coordinator → Type 0
IsAbandoned r k =
    All (λ t. str_eq t.request_id r ≡ false) k.trackers × (has_key r k.requests ≡ true)

-- No new id that is drawn is that of the request.
abbrev pub Avoids : String → Act → Type 0
Avoids r (polls none) = Unit {0}
Avoids r (polls (some ps)) = All (λ p. str_eq p.moment.new_id r ≡ false) ps
Avoids r (answers resp now) = Unit {0}

module _ (r : String) (named : str_eq "" r ≡ false) where
  abbrev Other : PaneTracker → Type 0
  Other t = str_eq t.request_id r ≡ false

  tracker_of-Other :
      (id now : ℕ) (ts : List PaneTracker) → All Other ts → Other (tracker_of id now ts)
  unfolding tracker_of new_pane_tracker
  tracker_of-Other id now ts all = elim (Option-cases (find_tracker id ts)) [
    | inl e ↦ rw (tracker_of, e) named
    | inr (t, e) ↦ rw (tracker_of, e) (find_tracker-All Other id ts t all e)
  ]

  process_pane-IsAbandoned :
      (c : Config) (e : Moment) (created id : ℕ) (output : Option String) (k : Coordinator)
      → str_eq e.new_id r ≡ false
      → IsAbandoned r k
      → IsAbandoned r (process_pane c e created id output k).0
  unfolding process_pane
  process_pane-IsAbandoned c e created id none k fresh (all, has) = (
    put_tracker-All Other (tracker_of id created k.trackers) k.trackers
        (tracker_of-Other id created k.trackers all) all,
    has,
  )
  process_pane-IsAbandoned c e created id (some text) k fresh (all, has) =
      let t = tracker_of id created k.trackers in
      let (other, has') =
        process_output-Passes r named c e fresh t text k.requests
          (tracker_of-Other id created k.trackers all) has in
      (put_tracker-All Other (process_output c e t text k.requests).0 k.trackers other all, has')

  process_panes-IsAbandoned :
      (c : Config) (ps : List Pane) (k : Coordinator)
      → Avoids r (polls (some ps))
      → IsAbandoned r k
      → IsAbandoned r (process_panes c ps k).0
  unfolding process_panes
  process_panes-IsAbandoned c [] k h w = w
  process_panes-IsAbandoned c (p ∷ ps) k h w = elim (Bool-cases p.is_watched) [
    | inl b ↦
        rw (process_panes, b)
          (process_panes-IsAbandoned c ps _ h.1
            (process_pane-IsAbandoned c p.moment p.created p.id p.output k h.0 w))
    | inr b ↦ rw (process_panes, b) (process_panes-IsAbandoned c ps k h.1 w)
  ]

  find_by_request-none : (ts : List PaneTracker) → All Other ts → find_by_request r ts ≡ none
  unfolding find_by_request
  find_by_request-none [] all = refl
  find_by_request-none (t ∷ ts) all = rw all.0 (find_by_request-none ts all.1)

  receive-IsAbandoned :
      (resp : AuthResponse) (now : ℕ) (k : Coordinator)
      → IsAbandoned r k
      → IsAbandoned r (receive_auth_response resp now k).0
  unfolding receive_auth_response set_state set_auth_response
  receive-IsAbandoned resp now k (all, has) =
      elim (Option-cases (lookup resp.request_id k.requests)) [
        | inl e ↦ rw (receive_auth_response, e) (all, has)
        | inr (q, e) ↦
            let kept : has_key r (put resp.request_id (record q { status = processing }) k.requests)
                ≡ true =
              ground (
                arith,
                has_key-put resp.request_id r (record q { status = processing }) k.requests,
              ) in
            elim (Option-cases (find_by_request resp.request_id k.trackers)) [
              | inl f ↦ rw (receive_auth_response, e) (rw f (all, kept))
              | inr (t, f) ↦
                  let (other, same) =
                    find_by_request-lem Other resp.request_id k.trackers t all f in
                  elim (Bool-cases (is_empty_text resp.error)) [
                    | inl b ↦
                        rw (receive_auth_response, e)
                          (rw (f, b)
                            (
                              put_tracker-All Other (set_auth_response t resp.code resp.account)
                                  k.trackers other all,
                              kept,
                            ))
                    | inr b ↦
                        rw (receive_auth_response, e)
                          (rw (f, b)
                            (
                              put_tracker-All Other
                                  (set_state (record t { error_message = resp.error }) failed now)
                                  k.trackers other all,
                              rw
                                  (
                                    has_key-remove resp.request_id r (
                                        put resp.request_id (record q { status = processing })
                                          k.requests),
                                    rw same at other,
                                  )
                                  kept,
                            ))
                  ]
            ]
      ]

  act-IsAbandoned :
      (c : Config) (k : Coordinator) (a : Act)
      → Avoids r a
      → IsAbandoned r k
      → IsAbandoned r (act c k a)
  unfolding act poll_panes
  act-IsAbandoned c k (polls none) h w = w
  act-IsAbandoned c k (polls (some ps)) h w =
      let (all, has) = process_panes-IsAbandoned c ps k h w in
      (filter-All Other (is_listed ps) (process_panes c ps k).0.trackers all, has)
  act-IsAbandoned c k (answers resp now) h w = receive-IsAbandoned resp now k w

  run-IsAbandoned :
      (c : Config) (k : Coordinator) (acts : List Act)
      → All (Avoids r) acts
      → IsAbandoned r k
      → IsAbandoned r (run c k acts)
  unfolding run
  run-IsAbandoned c k [] h w = w
  run-IsAbandoned c k (a ∷ rest) h w =
      run-IsAbandoned c (act c k a) rest h.1 (act-IsAbandoned c k a h.0 w)

receive-no_tracker :
    (resp : AuthResponse) (named : str_eq "" resp.request_id ≡ false) (now : ℕ) (k : Coordinator)
    → All (Other resp.request_id named) k.trackers
    → has_key resp.request_id k.requests ≡ true
    → (receive_auth_response resp now k).2 ≡ no_tracker
unfolding receive_auth_response
receive-no_tracker resp named now k all has =
    elim (Option-cases (lookup resp.request_id k.requests)) [
      | inl e ↦
          let gone = not-has_key_of_lookup resp.request_id k.requests e in ground (arith, gone, has)
      | inr (q, e) ↦
          rw (receive_auth_response, e)
            (rw (find_by_request-none resp.request_id named k.trackers all) refl)
    ]

-- A request, with an id that is not empty, of which no tracker knows (any more) is never deleted: after any history of polls and
-- answers, in which no new id equals its own, it is still there, and an answer to it is refused
-- because no tracker is found for it.
pub abandoned_request_stays :
    (c : Config) (k : Coordinator) (acts : List Act) (resp : AuthResponse) (now : ℕ)
    → str_eq "" resp.request_id ≡ false
    → IsAbandoned resp.request_id k
    → All (Avoids resp.request_id) acts
    → let k' = run c k acts in
      (has_key resp.request_id k'.requests ≡ true)
      × ((receive_auth_response resp now k').2 ≡ no_tracker)
unfolding receive_auth_response
abandoned_request_stays c k acts resp now named w h =
    let (all, has) = run-IsAbandoned resp.request_id named c k acts h w in
    (has, receive-no_tracker resp named now (run c k acts) all has)
