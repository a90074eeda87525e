-- ===== src/Sync/State/Reload.antt =====
-- Saving the queue and the history and loading them again.
use caam_account_switching.Prelude.{
  ℕ, ◌-◌, ◌≤◌, ◌<◌, String, Option, none, false, some, List, ◌≡◌, refl, ap, ◌∙◌, arith, ◌==◌,
  length, length-drop,
}
use caam_account_switching.Sync.State.{
  SyncQueue, SyncHistory, SyncState, trim, save_queue, save_history, load_queue, load_history,
  load_state, or_empty_queue, or_empty_history,
}
use caam_account_switching.Sync.State.Disk.{Codec, Files, load, save, write_queue, write_history}
use caam_account_switching.Sync.State.History.{last_n, trim-eq-last_n}

length-last_n_le : {A : Type 0} (n : ℕ) (xs : List A) → length (last_n n xs) ≤ n
length-last_n_le n xs = omega (arith, length-drop (length xs - n) xs)

abbrev holding : SyncQueue → SyncHistory → SyncState
holding q h = record { queue = some q; history = some h }

-- What `Save` writes of a state that has both parts is read back.
loaded-holding :
    (c : Codec) (q : SyncQueue) (h : SyncHistory) (f : Files c.Text)
    → 0 < q.max_size
    → 0 < h.max_size
    → load c (save c none none (holding q h) f).0 ≡ record {
      queue = some (record q { entries = last_n q.max_size q.entries });
      history = some (record h { entries = last_n h.max_size h.entries });
    }
unfolding load save write_queue write_history save_queue save_history load_queue load_history
    load_state or_empty_queue or_empty_history
loaded-holding c q h f pq ph =
    let zq : (q.max_size == 0) ≡ false = ground arith in
    let zh : (h.max_size == 0) ≡ false = ground arith in
    rw
      (
        c.decode-encode_queue (record q { entries = trim q.max_size q.entries }),
        c.decode-encode_history (record h { entries = trim h.max_size h.entries }),
      )
      (rw (zq, zh, trim-eq-last_n q.max_size q.entries, trim-eq-last_n h.max_size h.entries) refl)

-- A state with a queue and a history of positive sizes that `Save` writes without an error is what
-- `Load` gives then, with the latest entries of both, as many as their sizes allow; a queue whose
-- write fails leaves both files as they were, and the error is reported.
pub load-save_files :
    (c : Codec) (s : SyncState) (q : SyncQueue) (h : SyncHistory) (f : Files c.Text) (e : String)
    (history_error : Option String)
    → s.queue ≡ some q
    → s.history ≡ some h
    → 0 < q.max_size
    → 0 < h.max_size
    → let done = save c none none s f in
      let failed = save c (some e) history_error s f in
      (done.2 ≡ none)
      × (load c done.0 ≡ record {
        queue = some (record q { entries = last_n q.max_size q.entries });
        history = some (record h { entries = last_n h.max_size h.entries });
      })
      × (length (last_n q.max_size q.entries) ≤ q.max_size)
      × (length (last_n h.max_size h.entries) ≤ h.max_size)
      × (failed.0 ≡ f)
      × (failed.2 ≡ some e)
unfolding save save_queue save_history write_queue write_history
load-save_files c s q h f e history_error sq sh pq ph =
    let whole : s ≡ holding q h = λ i. record { queue = sq i; history = sh i } in
    (
      ap (λ t. (save c none none t f).2) whole,
      ap (λ t. load c (save c none none t f).0) whole ∙ loaded-holding c q h f pq ph,
      length-last_n_le q.max_size q.entries,
      length-last_n_le h.max_size h.entries,
      ap (λ t. (save c (some e) history_error t f).0) whole,
      ap (λ t. (save c (some e) history_error t f).2) whole,
    )
