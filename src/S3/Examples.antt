-- ===== src/S3/Examples.antt =====
-- An object that is read, and read again when the bucket does not answer.
use mathlib.Core.List.{flatten}
use vae_thrift.Prelude.{◌≡◌, ◌≢◌, refl, true, false, none, some, [], ◌∷◌, ◌++◌, arith, ℕ_discrete}
use vae_thrift.Prelude.Bytes.{Bytes, bytes}
use vae_thrift.Prelude.Eq.{Bytes-discrete, bytes_eq}
use vae_thrift.Prelude.Map.{find, assign, erase}
use vae_thrift.S3.{
  Download, Disk, Files, read_s3, new_transfer, get_object, commit_buffers, commit_buffer,
  append_file, response_complete, finalize, remove_file, rename_file, get_value,
}
use vae_thrift.S3.Laws.{IsUsable, read_s3_cases, read_s3_loses}

abbrev pub disk : Disk
disk = record {
  cache_path = λ name. bytes "/cache/" ++ name;
  can_open = λ name. true;
  can_remove = λ name. true;
  can_rename = λ old new. true;
}

-- The cache stands on another file system than the temporary files.
abbrev two_disks : Disk
two_disks = record disk { can_rename = λ old new. false }

abbrev feed : Download
feed = record { buffers = bytes "<web" ∷ bytes "site>" ∷ []; status_ok = true; message = none }

abbrev pub no_answer : Download
no_answer = record {
  buffers = bytes "<we" ∷ [];
  status_ok = false;
  message = some (bytes "timeout");
}

abbrev old_copy : Files
old_copy = (bytes "/cache/blog", bytes "<old>") ∷ []

distinct_names : bytes "/tmp/a" ≢ bytes "/cache/blog"
distinct_names = ground arith

disk-IsUsable : IsUsable disk (bytes "/tmp/a") (bytes "blog")
disk-IsUsable = record {
  distinct = distinct_names;
  opens = refl;
  removes_temp = refl;
  removes_cache = refl;
  renames = refl;
}

fallback :
    (read_s3 disk (bytes "/tmp/a") no_answer (bytes "blog") old_copy).0 ≡ some (bytes "<old>")
unfolding read_s3 new_transfer get_object commit_buffers commit_buffer append_file response_complete
    finalize remove_file rename_file get_value find assign erase Bytes-discrete ℕ_discrete
fallback = refl

read_s3_cases_example :
    let (r, files) = read_s3 disk (bytes "/tmp/a") feed (bytes "blog") old_copy in
    (r ≡ some (flatten (bytes "<web" ∷ bytes "site>" ∷ [])))
    × (find (bytes "/cache/blog") files ≡ some (flatten (bytes "<web" ∷ bytes "site>" ∷ [])))
    × (find (bytes "/tmp/a") files ≡ none)
    × ((k : Bytes) → bytes "/tmp/a" ≢ k → bytes "/cache/blog" ≢ k → find k files ≡ find k old_copy)
read_s3_cases_example =
    read_s3_cases disk (bytes "/tmp/a") (bytes "blog") feed old_copy disk-IsUsable

read_s3_loses_example :
    let (r, files) = read_s3 two_disks (bytes "/tmp/a") feed (bytes "blog") old_copy in
    (r ≡ some (flatten (bytes "<web" ∷ bytes "site>" ∷ [])))
    × (find (bytes "/cache/blog") files ≡ none)
read_s3_loses_example =
    read_s3_loses two_disks (bytes "/tmp/a") (bytes "blog") feed old_copy distinct_names refl refl
      refl refl
