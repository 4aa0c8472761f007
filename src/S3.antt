-- ===== src/S3.antt =====
-- cpp/s3.cpp: an object is read from the bucket, with a copy on disk to fall back on. The transfer
-- itself is libs3's: `Download` is what it passes to the callbacks.
pub mod Laws
pub mod Examples
use vae_thrift.Prelude.{
  ℕ, if◌then◌else◌, Bool, true, false, not, Option, none, some, List, [], ◌∷◌, ◌++◌,
}
use vae_thrift.Prelude.Bytes.{Bytes, bytes}
use vae_thrift.Prelude.Eq.{bytes_eq}
use vae_thrift.Prelude.Map.{Map, find, assign, erase}

-- The buffers in their order, whether the last status is S3StatusOK, and the message of the error
-- details, if there is one.
pub record Download : Type 0 where
  pub buffers : List Bytes
  pub status_ok : Bool
  pub message : Option Bytes

-- What the file system does: whether a file can be created, removed and renamed. Writing to an open
-- file does not fail. `cache_path` is `_cache_path/objectname`.
pub record Disk : Type 0 where
  pub cache_path : Bytes → Bytes
  pub can_open : Bytes → Bool
  pub can_remove : Bytes → Bool
  pub can_rename : Bytes → Bytes → Bool

-- The files, by their names.
abbrev pub Files : Type 0
Files = Map Bytes Bytes

pub record Transfer : Type 0 where
  pub failed : Bool
  pub is_open : Bool
  pub cachename : Bytes
  pub tempname : Bytes
  pub ss : Bytes
  pub error_message : Bytes
  pub objectname : Bytes

module _ (d : Disk) where
  open d use {cache_path, can_open, can_remove, can_rename}

  -- The constructor, with the name that `unique_path` made.
  unfoldable pub new_transfer : Bytes → Bytes → Files → Transfer × Files
  new_transfer tempname objectname files =
      let opens = can_open tempname in
      (
        record {
          failed = false;
          is_open = opens;
          cachename = cache_path objectname;
          tempname = tempname;
          ss = [];
          error_message = bytes "unknown error.";
          objectname = objectname;
        },
        if opens then assign tempname [] files else files,
      )

  -- A file with more text at its end.
  unfoldable pub append_file : Bytes → Bytes → Files → Files
  append_file name text files = elim (find name files) [
    | none ↦ files
    | some old ↦ assign name (old ++ text) files
  ]

  -- `commit_buffer`, which `readObjectDataCallback` calls.
  unfoldable pub commit_buffer : Bytes → Transfer → Files → Transfer × Files
  commit_buffer bfr ts files = (
    record ts { ss = ts.ss ++ bfr },
    if ts.is_open then append_file ts.tempname bfr files else files,
  )

  unfoldable pub commit_buffers : List Bytes → Transfer → Files → Transfer × Files
  commit_buffers [] ts files = (ts, files)
  commit_buffers (bfr ∷ bfrs) ts files =
      let (ts', files') = commit_buffer bfr ts files in commit_buffers bfrs ts' files'

  unfoldable pub response_complete : Bool → Option Bytes → Transfer → Transfer
  response_complete status_ok message ts =
      let ts' = record ts { failed = if status_ok then ts.failed else true } in
      elim message [ none ↦ ts' | some m ↦ record ts' { error_message = m } ]

  -- `S3_get_object` with the callbacks of `read_s3`.
  unfoldable pub get_object : Download → Transfer → Files → Transfer × Files
  get_object download ts files =
      let (ts', files') = commit_buffers download.buffers ts files in
      (response_complete download.status_ok download.message ts', files')

  -- `boostfs::remove`: none is the exception of a file that cannot be removed.
  unfoldable pub remove_file : Bytes → Files → Option (Unit {0}) × Files
  remove_file name files = elim (find name files) [
    | none ↦ (some tt, files)
    | some _ ↦ if can_remove name then (some tt, erase name files) else (none, files)
  ]

  -- `boostfs::rename`; what it throws is caught and logged.
  unfoldable pub rename_file : Bytes → Bytes → Files → Files
  rename_file old new files = elim (find old files) [
    | none ↦ files
    | some content ↦ if can_rename old new then assign new content (erase old files) else files
  ]

  unfoldable pub finalize : Transfer → Files → Option (Unit {0}) × Files
  finalize ts files =
      if not ts.is_open
      then (some tt, files)
      else if ts.failed
      then remove_file ts.tempname files
      else (let (r, files') = remove_file ts.cachename files in
          elim r [
            | none ↦ (none, files')
            | some _ ↦ (some tt, rename_file ts.tempname ts.cachename files')
          ])

  -- `get_value` and `read_cache`.
  unfoldable pub get_value : Transfer → Files → Bytes
  get_value ts files =
      if not ts.failed
      then ts.ss
      else elim (find ts.cachename files) [ none ↦ [] | some content ↦ content ]

  -- `read_s3`, or none where an exception of the file system leaves it.
  unfoldable pub read_s3 : Bytes → Download → Bytes → Files → Option Bytes × Files
  read_s3 tempname download objectname files =
      let (ts, files₁) = new_transfer tempname objectname files in
      let (ts', files₂) = get_object download ts files₁ in
      let (r, files₃) = finalize ts' files₂ in
      (elim r [ none ↦ none | some _ ↦ some (get_value ts' files₃) ], files₃)
