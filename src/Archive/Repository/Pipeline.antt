-- ===== src/Archive/Repository/Pipeline.antt =====
-- An upload and the import that it posts, one after the other: bacs/archive/src/lib/repository_impl.cpp.
use bacs.Base.{
  Str, ◌≡◌, ◌≢◌, refl, ◌∙◌, Bool, true, false, ◌||◌, ==_ne, contains, contains-insert, Option, none,
  some, [], ◌∷◌, ok, ◌==◌, ==_refl, list_Eq, nat_Eq, if◌then◌else◌,
}
use bacs.Base.Dict.{lookup-assign}
use bacs.Archive.Flag.{validate_id}
use bacs.Archive.Storage.{
  Revision, Problem, Repository, find_problem, put_problem, read_revision, compute_hash_revision,
  has_file, add_flag,
}
use bacs.Archive.Repository.{
  Env, exists, has_flag, pending_name, cleared, is_locked, upload, import_result, uploaded,
  store_upload, post_import, save_status, when_exists, unpack_problem,
}
use bacs.Archive.Repository.Access.{find-put}
use bacs.Archive.Repository.Import.{
  Job, import_start, start_job, start_repaired, repaired, import_finish, import_problem, outcome,
}
use bacs.Archive.Repository.Imports.{imported, import_result-import_finish, find-import_finish}

module _ {P : Type 0} (env : Env P) where
  -- An upload is granted: the id is valid, the directory has a format, and the problem is not locked,
  -- neither at the first test nor under the lock.
  pub record CanUpload (seen : Repository P) (id : Str) (location : env.Dir) (s : Repository P)
      : Type 0 where
    pub valid : validate_id id ≡ ok tt
    pub format : env.has_format location ≡ true
    pub unlocked_before : is_locked id seen ≡ false
    pub unlocked : is_locked id s ≡ false

  upload-eq-store :
      (seen s : Repository P) (id : Str) (location : env.Dir)
      → CanUpload seen id location s
      → upload env seen id location s ≡ store_upload env id location s
  unfolding upload
  upload-eq-store seen s id location c = rw (c.valid, c.format, c.unlocked_before, c.unlocked)

  find-store_upload :
      (s : Repository P) (id j : Str) (location : env.Dir)
      → find_problem j (store_upload env id location s).1
        ≡ (if j == id then some (uploaded env location (find_problem id s)) else find_problem j s)
  unfolding store_upload save_status post_import find_problem
  find-store_upload s id j location = lookup-assign j id _ s.problems

  -- A granted upload replaces the problem by the uploaded one, leaves every other problem alone, and
  -- posts an import of it.
  find-upload :
      (seen s : Repository P) (id j : Str) (location : env.Dir)
      → CanUpload seen id location s
      → (find_problem j (upload env seen id location s).1 ≡ (
          if j == id then some (uploaded env location (find_problem id s)) else find_problem j s))
        × ((upload env seen id location s).1.posted ≡ id ∷ s.posted)
  find-upload seen s id j location c =
      rw (upload-eq-store seen s id location c)
        (find-store_upload s id j location, unfold store_upload save_status post_import in refl)

  -- What a problem is after an upload, for the flags that it had.
  pub record IsUploaded (location : env.Dir) (had_flag : Str → Bool) (p : Problem P) : Type 0 where
    pub archive_file : p.archive_file ≡ some (env.pack_contents location)
    pub revision :
        p.revision ≡ some (compute_hash_revision env.crc env.crc_size (env.pack_contents location))
    pub import_result : p.import_result ≡ none
    pub flags : (g : Str) → has_file g p ≡ (g == pending_name || had_flag g)

  uploaded-IsUploaded :
      (location : env.Dir) (old : Option (Problem P))
      → IsUploaded location
          (λ g. elim old [ none ↦ false | some p ↦ has_file g p ])
          (uploaded env location old)
  unfolding uploaded cleared add_flag has_file contains
  uploaded-IsUploaded location none = record {
    archive_file = refl;
    revision = refl;
    import_result = refl;
    flags = λ g. contains-insert pending_name g [];
  }
  uploaded-IsUploaded location (some p) = record {
    archive_file = refl;
    revision = refl;
    import_result = refl;
    flags = λ g. contains-insert pending_name g p.flags;
  }

  -- A granted upload leaves the problem with the packed directory as its archive, the hash of that as
  -- its revision, and no import result; it has PENDING_IMPORT and keeps all other flags that it had.
  -- Every other problem is left alone, and an import is posted.
  pub upload-IsUploaded :
      (seen s : Repository P) (id : Str) (location : env.Dir)
      → CanUpload seen id location s
      → ((p : Problem P) × (find_problem id (upload env seen id location s).1 ≡ some p)
          × IsUploaded location (λ g. has_flag id g s) p)
        × ((j : Str) → j ≢ id → find_problem j (upload env seen id location s).1 ≡ find_problem j s)
        × ((upload env seen id location s).1.posted ≡ id ∷ s.posted)
  unfolding has_flag
  upload-IsUploaded seen s id location c = (
    (
      uploaded env location (find_problem id s),
      (find-upload seen s id id location c).0 ∙ rw ==_refl,
      uploaded-IsUploaded location (find_problem id s),
    ),
    λ j n. (find-upload seen s id j location c).0 ∙ rw (==_ne j id n),
    (find-upload seen s id id location c).1,
  )

  start_job-read :
      (s : Repository P) (id : Str) (p : Problem P) (r : Revision) (d : env.Dir)
      → repaired env p ≡ ok (p, r)
      → unpack_problem env p ≡ ok d
      → start_job env id p s
        ≡ (ok (some (record { id = id; revision = r; location = d })), put_problem id p s)
  unfolding start_job
  start_job-read s id p r d h k = rw (h, start_repaired, k)

  exists-find :
      (s : Repository P) (id : Str) (p : Problem P)
      → find_problem id s ≡ some p
      → exists id s ≡ true
  unfolding exists
  exists-find s id p h = rw (h, exists)

  import_start-job :
      (s : Repository P) (id : Str) (p : Problem P) (r : Revision) (d : env.Dir)
      → validate_id id ≡ ok tt
      → find_problem id s ≡ some p
      → repaired env p ≡ ok (p, r)
      → unpack_problem env p ≡ ok d
      → import_start env s id s
        ≡ (ok (some (record { id = id; revision = r; location = d })), put_problem id p s)
  unfolding import_start
  import_start-job s id p r d v h kr kd =
      rw (v, when_exists, exists-find s id p h, h) (start_job-read s id p r d kr kd)

  repaired-uploaded :
      (location : env.Dir) (old : Option (Problem P))
      → repaired env (uploaded env location old)
        ≡ ok (
          uploaded env location old,
          compute_hash_revision env.crc env.crc_size (env.pack_contents location),
        )
  unfolding repaired uploaded
  repaired-uploaded location old = refl

  unpack-uploaded :
      (location : env.Dir) (old : Option (Problem P))
      → unpack_problem env (uploaded env location old)
        ≡ ok (env.unpack (env.pack_contents location))
  unfolding unpack_problem uploaded
  unpack-uploaded location old = refl

  import_result-import_problem :
      (s : Repository P) (id : Str) (p : Problem P) (r : Revision) (d : env.Dir)
      → validate_id id ≡ ok tt
      → find_problem id s ≡ some p
      → repaired env p ≡ ok (p, r)
      → unpack_problem env p ≡ ok d
      → read_revision p ≡ ok r
      → (import_result (import_problem env id s).1 id (import_problem env id s).1).0
        ≡ ok (outcome (env.convert id r d))
  unfolding import_problem
  import_result-import_problem s id p r d v h kr kd rr =
      let job : Job env.Dir = record { id = id; revision = r; location = d } in
      let t : Repository P = put_problem id p s in
      let f : find_problem id t ≡ some p = find-put id id p s ∙ rw ==_refl in
      let u : Repository P = (import_finish env job t).1 in
      let g : find_problem id u ≡ some (imported (env.convert id r d) p) =
        (find-import_finish env job t p id f rr).0 ∙ rw ==_refl in
      rw (import_start-job s id p r d v h kr kd)
        (import_result-import_finish env job u t p v (exists-find u id _ g) f rr)

  -- The import that an upload posts, run with nothing in between, converts what was packed, under the
  -- hash of the packed file as its revision; import_result then returns what the conversion returned
  -- or threw.
  pub upload-import :
      (seen s : Repository P) (id : Str) (location : env.Dir)
      → CanUpload seen id location s
      → let file = env.pack_contents location in
        let t = (upload env seen id location s).1 in
        let u = (import_problem env id t).1 in
        (import_result u id u).0
        ≡ ok (
            outcome
              (env.convert id (compute_hash_revision env.crc env.crc_size file) (env.unpack file)))
  upload-import seen s id location c =
      let old = find_problem id s in
      let p = uploaded env location old in
      import_result-import_problem (upload env seen id location s).1 id p _ _ c.valid
        ((find-upload seen s id id location c).0 ∙ rw ==_refl) (repaired-uploaded location old)
        (unpack-uploaded location old) (unfold read_revision uploaded in refl)
