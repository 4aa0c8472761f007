-- ===== src/S3/Laws.antt =====
-- What a read of an object gives, and what it leaves on disk.
use mathlib.Core.List.{flatten, append_assoc, append-nil}
use vae_thrift.Prelude.{
  ◌≡◌, ◌≢◌, refl, sym, ap, ◌∙◌, if◌then◌else◌, true, false, not, Option, none, some, List, [], ◌∷◌,
  ◌++◌, arith, inl, inr, ite, Bool-cases, Option-cases, Bool-cases,
}
use vae_thrift.Prelude.Bytes.{Bytes}
use vae_thrift.Prelude.Eq.{Bytes-discrete, bytes_eq}
use vae_thrift.Prelude.Map.{find, erase, find-assign, find-erase, find-assign_self, find-assign_ne}
use vae_thrift.S3.{
  Download, Disk, Files, Transfer, new_transfer, append_file, commit_buffer, commit_buffers,
  response_complete, get_object, remove_file, rename_file, finalize, get_value, read_s3,
}

module _ (d : Disk) where
  find-append_file :
      (name text : Bytes) (files : Files) (old : Bytes)
      → find name files ≡ some old
      → find name (append_file d name text files) ≡ some (old ++ text)
  unfolding append_file
  find-append_file name text files old h = ground (arith, find-assign_self name (old ++ text) files)

  find-append_file_ne :
      (name text k : Bytes) (files : Files)
      → name ≢ k
      → find k (append_file d name text files) ≡ find k files
  unfolding append_file
  find-append_file_ne name text k files ne = elim (Option-cases (find name files)) [
    | inl gone ↦ rw (append_file, gone) refl
    | inr (old, there) ↦ rw (append_file, there) (find-assign_ne name k (old ++ text) files ne)
  ]

  -- A transfer after the buffers `text`, from `ts`.
  record IsFed (text : Bytes) (ts : Transfer) (files : Files) (r : Transfer × Files) : Type 0 where
    value : r.0.ss ≡ ts.ss ++ text
    failed : r.0.failed ≡ ts.failed
    opened : r.0.is_open ≡ ts.is_open
    names : (r.0.cachename ≡ ts.cachename) × (r.0.tempname ≡ ts.tempname)
    written :
        (old : Bytes)
        → ts.is_open ≡ true
        → find ts.tempname files ≡ some old
        → find ts.tempname r.1 ≡ some (old ++ text)
    others : (k : Bytes) → ts.tempname ≢ k → find k r.1 ≡ find k files
    untouched : ts.is_open ≡ false → r.1 ≡ files

  commit_buffer-IsFed :
      (bfr : Bytes) (ts : Transfer) (files : Files)
      → IsFed bfr ts files (commit_buffer d bfr ts files)
  unfolding commit_buffer
  commit_buffer-IsFed bfr ts files = record {
    value = refl;
    failed = refl;
    opened = refl;
    names = (refl, refl);
    written = λ old o h. ground (arith, find-append_file ts.tempname bfr files old h);
    others = λ k ne. ground (arith, find-append_file_ne ts.tempname bfr k files ne);
    untouched = λ o. ground arith;
  }

  commit_buffers-IsFed :
      (bfrs : List Bytes) (ts : Transfer) (files : Files)
      → IsFed (flatten bfrs) ts files (commit_buffers d bfrs ts files)
  unfolding commit_buffers commit_buffer flatten
  commit_buffers-IsFed [] ts files = record {
    value = sym (append-nil ts.ss);
    failed = refl;
    opened = refl;
    names = (refl, refl);
    written = λ old o h. h ∙ ap some (sym (append-nil old));
    others = λ k ne. refl;
    untouched = λ o. refl;
  }
  commit_buffers-IsFed (bfr ∷ bfrs) ts files =
      let one = commit_buffer-IsFed bfr ts files in
      let rest =
        commit_buffers-IsFed bfrs (commit_buffer d bfr ts files).0
          (commit_buffer d bfr ts files).1 in
      record {
        value = rest.value ∙ append_assoc ts.ss bfr (flatten bfrs);
        failed = rest.failed;
        opened = rest.opened;
        names = rest.names;
        written = λ old o h.
            rest.written (old ++ bfr) o (one.written old o h)
            ∙ ap some (append_assoc old bfr (flatten bfrs));
        others = λ k ne. rest.others k ne ∙ one.others k ne;
        untouched = λ o. rest.untouched o ∙ one.untouched o;
      }

  -- What a transfer is when the callbacks are done with it, before `finalize`.
  record IsDone (tempname objectname : Bytes) (download : Download) (files : Files)
      (r : Transfer × Files) : Type 0 where
    value : r.0.ss ≡ flatten download.buffers
    failed : r.0.failed ≡ not download.status_ok
    opened : r.0.is_open ≡ d.can_open tempname
    names : (r.0.cachename ≡ d.cache_path objectname) × (r.0.tempname ≡ tempname)
    written : d.can_open tempname ≡ true → find tempname r.1 ≡ some (flatten download.buffers)
    others : (k : Bytes) → tempname ≢ k → find k r.1 ≡ find k files
    untouched : d.can_open tempname ≡ false → r.1 ≡ files

  get_object-IsDone :
      (tempname objectname : Bytes) (download : Download) (files : Files)
      → let (ts, files') = new_transfer d tempname objectname files in
        IsDone tempname objectname download files (get_object d download ts files')
  unfolding new_transfer get_object response_complete
  get_object-IsDone tempname objectname download files =
      let (ts, files') = new_transfer d tempname objectname files in
      let fed = commit_buffers-IsFed download.buffers ts files' in
      record {
        value = ground (arith, fed.value);
        failed = ground (arith, fed.failed);
        opened = ground (arith, fed.opened);
        names = (ground (arith, fed.names), ground (arith, fed.names));
        written = λ o. fed.written [] o (ground (arith, find-assign_self tempname [] files));
        others = λ k ne. fed.others k ne ∙ ground (arith, find-assign_ne tempname k [] files ne);
        untouched = λ o. fed.untouched o ∙ ground arith;
      }

  -- A disk on which the files of one transfer can be made, removed and put into place.
  pub record IsUsable (tempname objectname : Bytes) : Type 0 where
    pub distinct : tempname ≢ d.cache_path objectname
    pub opens : d.can_open tempname ≡ true
    pub removes_temp : d.can_remove tempname ≡ true
    pub removes_cache : d.can_remove (d.cache_path objectname) ≡ true
    pub renames : d.can_rename tempname (d.cache_path objectname) ≡ true

  remove_file-find :
      (name k : Bytes) (files : Files)
      → d.can_remove name ≡ true
      → ((remove_file d name files).0 ≡ some tt)
        × (find k (remove_file d name files).1 ≡ ite (Bytes-discrete name k) none (find k files))
  unfolding remove_file
  remove_file-find name k files can = (ground arith, ground (arith, find-erase name k files))

  rename_file-find :
      (old new k content : Bytes) (files : Files)
      → d.can_rename old new ≡ true
      → find old files ≡ some content
      → find k (rename_file d old new files)
        ≡ ite (Bytes-discrete new k) (some content) (ite (Bytes-discrete old k) none (find k files))
  unfolding rename_file
  rename_file-find old new k content files can there =
      ground (arith, find-assign new k content (erase old files), find-erase old k files)

  finalize-kept :
      (ts : Transfer) (files : Files) (temp cache content k : Bytes)
      → ts.tempname ≡ temp
      → ts.cachename ≡ cache
      → ts.is_open ≡ true
      → ts.failed ≡ false
      → temp ≢ cache
      → d.can_remove cache ≡ true
      → d.can_rename temp cache ≡ true
      → find temp files ≡ some content
      → ((finalize d ts files).0 ≡ some tt)
        × (find k (finalize d ts files).1
            ≡ ite
                (Bytes-discrete cache k)
                (some content)
                (ite (Bytes-discrete temp k) none (find k files)))
  unfolding finalize
  finalize-kept ts files temp cache content k t c o f ne can can' there =
      let gone = remove_file-find cache k files can in
      let still = remove_file-find cache temp files can in
      let moved =
        rename_file-find temp cache k content (remove_file d cache files).1 can'
          (ground (arith, still, there)) in
      rw (t, c) (ground (arith, gone), ground (arith, gone, moved))

  finalize-failed :
      (ts : Transfer) (files : Files) (temp k : Bytes)
      → ts.tempname ≡ temp
      → ts.is_open ≡ true
      → ts.failed ≡ true
      → d.can_remove temp ≡ true
      → ((finalize d ts files).0 ≡ some tt)
        × (find k (finalize d ts files).1 ≡ ite (Bytes-discrete temp k) none (find k files))
  unfolding finalize
  finalize-failed ts files temp k t o f can =
      let gone = remove_file-find temp k files can in
      rw t (ground (arith, gone), ground (arith, gone))

  abbrev pub or_empty : Option Bytes → Bytes
  or_empty none = []
  or_empty (some content) = content

  -- Where the files of the transfer can be made, removed and put into place, a read always gives a
  -- value. When the download succeeds, that is the joined buffers, and they are the copy on disk
  -- from then on; when it fails, it is the copy on disk, or empty if there is none, and the copy
  -- stays. The temporary file is gone, and no other file has changed.
  pub read_s3_cases :
      (tempname objectname : Bytes) (download : Download) (files : Files)
      → IsUsable tempname objectname
      → let (r, files') = read_s3 d tempname download objectname files in
        let kept =
          if download.status_ok
          then some (flatten download.buffers)
          else find (d.cache_path objectname) files in
        (r ≡ some (or_empty kept))
        × (find (d.cache_path objectname) files' ≡ kept)
        × (find tempname files' ≡ none)
        × ((k : Bytes) → tempname ≢ k → d.cache_path objectname ≢ k → find k files' ≡ find k files)
  unfolding read_s3 get_value
  read_s3_cases tempname objectname download files u =
      let (ts, files₁) = new_transfer d tempname objectname files in
      let (ts', files₂) = get_object d download ts files₁ in
      let done = get_object-IsDone tempname objectname download files in
      let cache = d.cache_path objectname in
      elim (Bool-cases download.status_ok) [
        | inl fine ↦
            let kept = λ (k : Bytes).
              finalize-kept ts' files₂ tempname cache (flatten download.buffers) k done.names.1
                done.names.0 (done.opened ∙ u.opens) (ground (arith, done.failed, fine)) u.distinct
                u.removes_cache u.renames (done.written u.opens) in
            let (went, _) = kept cache in
            (
              ground (arith, went, done.value, done.failed, fine),
              ground (arith, kept cache, fine),
              ground (arith, kept tempname, u.distinct),
              λ k ne ne'. ground (arith, kept k, done.others k ne),
            )
        | inr broken ↦
            let freed = λ (k : Bytes).
              finalize-failed ts' files₂ tempname k done.names.1 (done.opened ∙ u.opens)
                (ground (arith, done.failed, broken)) u.removes_temp in
            let (went, same) = freed cache in
            let still : find cache (finalize d ts' files₂).1 ≡ find cache files =
              ground (arith, same, done.others cache u.distinct, u.distinct) in
            (
              ground (arith, went, still, done.names, done.failed, broken),
              ground (arith, still, broken),
              ground (arith, freed tempname),
              λ k ne ne'. ground (arith, freed k, done.others k ne),
            )
      ]

  -- Where the temporary file cannot be renamed to the place of the copy, as between two file
  -- systems, a download that succeeds removes the copy on disk and puts none in its place.
  pub read_s3_loses :
      (tempname objectname : Bytes) (download : Download) (files : Files)
      → tempname ≢ d.cache_path objectname
      → d.can_open tempname ≡ true
      → d.can_remove (d.cache_path objectname) ≡ true
      → d.can_rename tempname (d.cache_path objectname) ≡ false
      → download.status_ok ≡ true
      → let (r, files') = read_s3 d tempname download objectname files in
        (r ≡ some (flatten download.buffers)) × (find (d.cache_path objectname) files' ≡ none)
  unfolding read_s3 get_value finalize rename_file
  read_s3_loses tempname objectname download files ne opens removes stays fine =
      let (ts, files₁) = new_transfer d tempname objectname files in
      let (ts', files₂) = get_object d download ts files₁ in
      let done = get_object-IsDone tempname objectname download files in
      let gone =
        remove_file-find (d.cache_path objectname) (d.cache_path objectname) files₂ removes in
      (
        ground (arith, gone, done.value, done.failed, done.opened, done.names, opens),
        ground (arith, gone, done.failed, done.opened, done.names, opens),
      )
