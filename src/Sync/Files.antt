-- ===== src/Sync/Files.antt =====
-- internal/sync/algorithm.go: `pushProfile` and `pullProfile`, from the files of a profile on one
-- side to those on the other. A directory is a table from file names to contents. Whether a read or
-- a write succeeds is decided by the file system and the connection, and given by functions. A write
-- goes to a temporary file that is then renamed; a write that fails may leave the temporary file.
use caam_account_switching.Prelude.{
  String, Bool, false, Option, none, some, List, [], ◌∷◌, ◌≡◌, ◌⊎◌, str_eq, if◌then◌else◌,
}
use caam_account_switching.Prelude.Table.{Table, lookup, put}

pub data CopyError : Type 0 where
  list_failed make_dir_failed : CopyError
  read_failed write_failed : String → CopyError

-- How a write ends: written, or failed, with the temporary file that could not be removed either.
pub data WriteEnd : Type 0 where
  written : WriteEnd
  failed : Option (String × String) → WriteEnd

abbrev pub left_by : Option (String × String) → Table String → Table String
left_by none dir = dir
left_by (some (name, contents)) dir = put name contents dir

abbrev pub Copied : Type 0
Copied = Table String × Option CopyError

-- The loop of `pushProfile`: the first write that fails ends it, and what was written stays.
unfoldable pub write_all : (String → WriteEnd) → Table String → Table String → Copied
write_all write [] remote = (remote, none)
write_all write ((name, contents) ∷ files) remote =
    let rest = write_all write files (put name contents remote) in
    elim (write name) [
      | written ↦ rest
      | failed leftover ↦ (left_by leftover remote, some (write_failed name))
    ]

-- `none` are local files that cannot be read.
unfoldable pub push_profile : Option (Table String) → (String → WriteEnd) → Table String → Copied
unfolding write_all
push_profile none write remote = (remote, some list_failed)
push_profile (some files) write remote = write_all write files remote

-- An entry of the remote directory: whether it is a directory, and its contents if they can be read.
pub record RemoteEntry : Type 0 where
  pub name : String
  pub is_dir : Bool
  pub contents : Option String

-- The loop of `pullProfile`, which passes over directories.
unfoldable pub read_all : (String → WriteEnd) → List RemoteEntry → Table String → Copied
read_all write [] here = (here, none)
read_all write (e ∷ es) here =
    let skipped = read_all write es here in
    let fetched : Copied = elim e.contents [
      | none ↦ (here, some (read_failed e.name))
      | some c ↦
          let rest = read_all write es (put e.name c here) in
          elim (write e.name) [
            | written ↦ rest
            | failed leftover ↦ (left_by leftover here, some (write_failed e.name))
          ]
    ] in
    if e.is_dir then skipped else fetched

unfoldable pub pull_profile :
    Option (List RemoteEntry) → Bool → (String → WriteEnd) → Table String → Copied
unfolding read_all
pull_profile none can_make_dir write here = (here, some list_failed)
pull_profile (some es) can_make_dir write here =
    let done = read_all write es here in if can_make_dir then done else (here, some make_dir_failed)

-- The file of the one directory, or else that of the other.
abbrev pub copied_over : Option String → Option String → Option String
copied_over none old = old
copied_over (some c) old = some c

-- Under a key the result has what the old directory had, or a file of the copied one.
abbrev pub OldOrNew : String → Table String → Table String → Table String → Type 0
OldOrNew k files old result =
    (lookup k result ≡ lookup k old)
    ⊎ ((c : String) × (lookup k files ≡ some c) × (lookup k result ≡ some c))

-- The name is not that of a temporary file that a write leaves.
abbrev pub IsNoLeftover : (String → WriteEnd) → String → Type 0
IsNoLeftover write k =
    (name other c : String) → write name ≡ failed (some (other, c)) → str_eq other k ≡ false
