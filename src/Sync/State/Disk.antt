-- ===== src/Sync/State/Disk.antt =====
-- internal/sync/state.go: the two files of the sync state. encoding/json is a codec; the writes of
-- `saveJSON` may fail.
use caam_account_switching.Prelude.{String, Option, none, some, ◌≡◌}
use caam_account_switching.Sync.State.{
  SyncQueue, SyncHistory, SyncState, load_state, save_queue, save_history,
}

-- A decoder gives back what the encoder was given.
pub record Codec : Type 1 where
  pub Text : Type 0
  pub encode_queue : SyncQueue → Text
  pub decode_queue : Text → Option SyncQueue
  pub encode_history : SyncHistory → Text
  pub decode_history : Text → Option SyncHistory
  pub decode-encode_queue : (q : SyncQueue) → decode_queue (encode_queue q) ≡ some q
  pub decode-encode_history : (h : SyncHistory) → decode_history (encode_history h) ≡ some h

-- The contents of the files, none for one that cannot be read.
pub record Files (T : Type 0) : Type 0 where
  pub queue : Option T
  pub history : Option T

abbrev pub decoded : {T S : Type 0} → (T → Option S) → Option T → Option S
decoded decode none = none
decoded decode (some t) = decode t

-- The two files after `Save`.
unfoldable pub saved : SyncState → SyncState
saved s = save_history (save_queue s)

module _ (c : Codec) where
  open c use {Text, encode_queue, decode_queue, encode_history, decode_history}

  unfoldable pub load : Files Text → SyncState
  unfolding load_state
  load f = load_state (decoded decode_queue f.queue) (decoded decode_history f.history)

  unfoldable pub write_queue : SyncState → Files Text → Files Text
  write_queue s f = elim s.queue [ none ↦ f | some q ↦ record f { queue = some (encode_queue q) } ]

  unfoldable pub write_history : SyncState → Files Text → Files Text
  write_history s f = elim s.history [
    | none ↦ f
    | some h ↦ record f { history = some (encode_history h) }
  ]

  -- `Save` with the errors of its two writes: the files, the state and the error. A nil queue or
  -- history is not written.
  unfoldable pub save :
      Option String
      → Option String
      → SyncState
      → Files Text
      → Files Text × SyncState × Option String
  unfolding write_queue write_history save_queue save_history
  save queue_error history_error s f =
      let s₁ = save_queue s in
      let f₁ = write_queue s₁ f in
      let s₂ = save_history s₁ in
      let f₂ = write_history s₂ f₁ in
      let rest : Files Text × SyncState × Option String = elim s₂.history [
        | none ↦ (f₁, s₂, none)
        | some h ↦ elim history_error [ some e ↦ (f₁, s₂, some e) | none ↦ (f₂, s₂, none) ]
      ] in
      elim s₁.queue [
        | none ↦ rest
        | some q ↦ elim queue_error [ some e ↦ (f, s₁, some e) | none ↦ rest ]
      ]
