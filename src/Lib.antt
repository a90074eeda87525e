-- ===== src/Lib.antt =====
-- Verification of the vault of auth files (internal/authfile), the account pool (internal/authpool),
-- the syncer (internal/sync), the rotation of profiles (internal/rotation) and the coordinator of
-- panes (internal/coordinator) and the associations of projects (internal/project) of caam.
--
-- The vault keeps a copy of a tool's auth files for each profile: a backup saves the live files, a
-- restore switches to a profile, and the active profile is found by the files' hashes.
-- The pool keeps one record for each account of a coding tool, with a status, a cooldown and a count
-- of errors. The monitor refreshes the tokens of the pool's profiles in the background, a bounded
-- number at a time, and `ForceRefresh` does it on demand. The pool's state is saved to a file and
-- loaded from it. The syncer compares the tokens of this machine with those of other machines, copies
-- the fresher one over, notes what fails in a retry queue and records every copy in a history; it
-- also runs in the background, throttled, and retries the queue. The rotation selects the profile to
-- use next. The coordinator polls the panes of a terminal multiplexer: it finds a pane that hit its
-- limit, logs it in with a code that a local agent answers with, and has it resume its work.
--
-- Vault/Names.antt          internal/authfile/authfile.go: IsSystemProfile, validateVaultSegment.
-- Vault/Copying.antt        internal/authfile/authfile.go: the loop over the files in Backup and Restore.
-- Vault/Operations.antt     internal/authfile/authfile.go: the operations of the vault of one tool.
-- Vault/Detection.antt      internal/authfile/authfile.go: ActiveProfile.
-- Vault/Automatic.antt      internal/authfile/authfile.go: BackupOriginal, BackupCurrent and
--                           RotateAutoBackups. The other files of Vault/ have the lemmas.
-- Authpool/Status.antt      internal/authpool/status.go: PoolStatus and PooledProfile.
-- Authpool/Pool.antt        internal/authpool/pool.go: NewAuthPool, its options and the writes of the
--                           pool. An operation returns the pool, the calls of onStateChange and its
--                           result. Pool/Queries.antt has the reads, Pool/Vault.antt LoadFromVault,
--                           Pool/Operations.antt the writes as one type, and the other files of
--                           Pool/ the lemmas about them.
-- Authpool/Monitor.antt     internal/authpool/monitor.go: each function run in one go. Monitor/Failure,
--                           Monitor/Stuck and Monitor/Force are about failed and forced refreshes.
-- Authpool/Monitor/Threads.antt  the same functions as threads that interleave, one atomic operation
--                           (a channel operation, or a critical section of a mutex) at a time.
-- Authpool/Persist.antt     internal/authpool/persist.go: the persisted form, Save and Load.
-- Sync/State.antt           internal/sync/state.go: the retry queue and the history;
--                           Sync/State/Disk.antt: their two files.
-- Sync/Freshness.antt       internal/sync/freshness.go: CompareFreshness.
-- Sync/Decision.antt        internal/sync/algorithm.go: determineSyncOperation.
-- Sync/Merge.antt           internal/sync/algorithm.go: mergeProfileLists.
-- Sync/Files.antt           internal/sync/algorithm.go: pushProfile and pullProfile, whose
--                           writes (internal/sync/ssh.go, WriteFile) end well or fail, perhaps
--                           leaving a temporary file.
-- Sync/Run.antt             internal/sync/algorithm.go: executeOperation, the runs over profiles and
--                           machines, with the machines that they mark as being in error; Sync/Run/Stats.antt: AggregateResults.
-- Sync/Throttle.antt        internal/sync/autosync.go: SyncThrottler.
-- Sync/Background.antt      internal/sync/autosync.go: the background run and the retry of the queue,
--                           with Sync/Run.antt's SyncProfile; Background/ has the lemmas about both.
-- Sync/Machines.antt        internal/sync/pool.go and machine.go: the pool of machines;
--                           Machines/Unique.antt: their names.
-- Coordinator/Pane.antt     internal/coordinator/state.go: the states and the tracker of a pane.
-- Coordinator/Poll.antt     internal/coordinator/coordinator.go: the poll and the handler of each
--                           state; Poll/ is about a single pane.
-- Coordinator/Respond.antt  internal/coordinator/coordinator.go: ReceiveAuthResponse, and histories of
--                           polls and answers; Respond/ is about these. An answer is taken in one
--                           step; the source gives up its lock between the lookup of the tracker and
--                           the write of the code, so a poll in between is left out.
-- Rotation.antt             internal/rotation/rotation.go: Select and its three algorithms; Rotation/
--                           has the lemmas about them.
-- Project.antt              internal/project/matcher.go and store.go: Resolve. Project/Places.antt has
--                           the order of the places, Project/Patterns.antt that of the patterns,
--                           Project/Resolution.antt the proof.
-- Prelude/                  tests, lists, tables, integers and sorting that the parts share.
-- Examples/                 runs of the models at concrete inputs.
--
-- Numbers. A time is a natural number of nanoseconds and 0 is the zero time; a duration, a limit or
-- a size is a natural number, so a negative setting is not modelled, and no counter overflows. Where
-- the source reads the clock, the time is an argument; two readings in one function are two
-- arguments. Priorities are integers, and so are the scores of the rotation, in a unit that is the
-- score 1.0 (a float64 is a multiple of some power of two).
-- Maps. A Go map is an association list, and a loop over it goes in the order of the list, which is
-- arbitrary in Go; a write to a key that is there replaces its value. sort.Slice is an insertion
-- sort, which keeps the order of equal elements, where Go leaves that order open.
-- Sharing. The pool hands out clones, so its records are values. A mutex makes an operation of the
-- pool one step; callbacks run after it and do not call back into the pool.
-- Loops. All are over lists, so no fuel is needed; a run of the monitor's loop is a list of the
-- times of its rounds, and an interleaving is a sequence of steps of any length.
-- Parameters. The vault's listing, the refresher's answer, the codec of encoding/json, the answers of
-- connections, directories and file writes are arguments, as are the regular expressions, the new
-- ids, the random numbers, the cooldowns in the database and the health scores. A codec has the law
-- that a decoded state is the encoded one, but for the statuses, which go through MarshalJSON and
-- UnmarshalJSON.
--
-- Not modelled: the absolute paths of the vault and of the tools' auth files, the ticker of the
-- monitor and its two callbacks, the system calls behind files, SSH and terminals, the extraction
-- of a token's expiry from the tools' files, the identity of the syncer and the files of its pool,
-- the factors of the smart score, the choice of a terminal multiplexer, and the other packages
-- under internal/ and cmd/.
pub mod Prelude
pub mod Authpool
pub mod Sync
pub mod Coordinator
pub mod Rotation
pub mod Vault
pub mod Project
pub mod Examples
