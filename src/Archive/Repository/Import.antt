-- ===== src/Archive/Repository/Import.antt =====
-- The imports of bacs/archive/src/lib/repository_impl.cpp (prepare_import to import_). An import runs in
-- three parts: under the shared lock it reads the revision and unpacks the problem; without a lock it
-- converts the problem; under the exclusive lock it stores the result. Each part is a function of the
-- state it finds, so that anything may happen between them.
use bacs.Base.{
  Str, Bool, true, false, Option, none, some, List, [], ◌∷◌, Result, ok, err, ◌==◌, list_Eq, nat_Eq,
  if◌then◌else◌, contains, insert,
}
use bacs.Base
use bacs.Base.Action.{return, lift, ◌>>=◌, ◌>>◌}
use bacs.Archive.Flag.{ArchiveError, validate_id, unreadable}
use bacs.Archive.Storage.{
  not_found, removed_during_import, changed_during_import, what, Revision, StatusResult, error_code,
  error_reason, status, ImportResult, import_error_reason, problem, Problem, Repository,
  find_problem, put_problem, read_flags, read_revision, add_flag, drop_flag, compute_hash_revision,
}
use bacs.Archive.Repository.{
  Env, ignore_name, pending_name, Operation, when_exists, post_import, status_of, unpack_problem,
}

module _ {P : Type 0} where
  -- prepare_import: whether the problem exists; it is marked PENDING_IMPORT.
  unfoldable pub prepare_import : Repository P → Str → Operation P Bool
  unfolding when_exists add_flag put_problem
  prepare_import seen id = do
    lift (validate_id id)
    when_exists seen id false (λ p s. (ok true, put_problem id (add_flag pending_name p) s))

  -- `if (schedule) post_import(id);`, when the scope is left.
  unfoldable pub post_if : Bool → Str → Repository P → Repository P
  unfolding post_import
  post_if schedule id s = if schedule then post_import id s else s

  -- schedule_import after prepare_import: the status, and the post when the scope is left.
  unfoldable pub after_prepare :
      Str
      → Result ArchiveError Bool × Repository P
      → Result ArchiveError StatusResult × Repository P
  unfolding post_if status_of
  after_prepare id (ok schedule, s) = ((status_of s id s).0, post_if schedule id s)
  after_prepare id (err e, s) = (err e, s)

  -- schedule_import, with no other thread between its two locked parts.
  unfoldable pub schedule_import : Str → Operation P StatusResult
  unfolding prepare_import after_prepare
  schedule_import id s = after_prepare id (prepare_import s id s)

-- What an import works on after it has read the problem.
pub record Job (Dir : Type 0) : Type 0 where
  pub id : Str
  pub revision : Revision
  pub location : Dir

module _ {P : Type 0} where
  -- The end of import_, with what the conversion returned or threw.
  unfoldable pub outcome : Result Str P → ImportResult P
  outcome (ok p) = problem p
  outcome (err e) = import_error_reason (what e)

  unfoldable pub mark : Result Str P → Problem P → Problem P
  unfolding add_flag drop_flag
  mark (ok _) p = drop_flag pending_name (drop_flag ignore_name p)
  mark (err _) p = drop_flag pending_name (add_flag ignore_name p)

  unfoldable pub report : Result Str P → Revision → Problem P → Result ArchiveError StatusResult
  unfolding read_flags
  report (ok _) r p =
      Base.◌>>=◌ (read_flags p.flags) (λ fs. ok (status (record { revision = r; flags = fs })))
  report (err e) r p = ok (error_reason (what e))

module _ {P : Type 0} (env : Env P) where
  -- The revision of the problem, computed and stored again if it cannot be read.
  unfoldable pub repaired : Problem P → Result ArchiveError (Problem P × Revision)
  unfolding read_revision compute_hash_revision
  repaired p = elim (p.revision) [
    | some r ↦ ok (p, r)
    | none ↦ elim (p.archive_file) [
      | none ↦ err unreadable
      | some f ↦
          let r = compute_hash_revision env.crc env.crc_size f in
          ok (record p { revision = some r }, r)
    ]
  ]

  -- download_ into a temporary directory.
  unfoldable pub start_repaired :
      Str → Result ArchiveError (Problem P × Revision) → Operation P (Option (Job env.Dir))
  unfolding put_problem
  start_repaired id (err e) s = (err e, s)
  start_repaired id (ok (p, r)) s = (
    Base.◌>>=◌ (unpack_problem env p)
        (λ d. ok (some (record { id = id; revision = r; location = d }))),
    put_problem id p s,
  )

  unfoldable pub start_job : Str → Problem P → Operation P (Option (Job env.Dir))
  unfolding start_repaired
  start_job id p s = start_repaired id (repaired p) s

  -- import, up to `lk.unlock()`.
  unfoldable pub import_start : Repository P → Str → Operation P (Option (Job env.Dir))
  unfolding when_exists
  import_start seen id = do lift (validate_id id); when_exists seen id none (start_job id)

  unfoldable pub store_import : Job env.Dir → Result Str P → Problem P → Operation P StatusResult
  unfolding outcome mark report put_problem
  store_import job converted p s =
      let p' = mark converted (record p { import_result = some (outcome converted) }) in
      (
        report converted job.revision p',
        put_problem job.id p' (record s { archive_revision = env.generate s.archive_revision }),
      )

  unfoldable pub finish_import :
      Job env.Dir → Result Str P → Option (Problem P) → Operation P StatusResult
  unfolding store_import
  finish_import job converted none = return (error_reason removed_during_import)
  finish_import job converted (some p) = do
    current ← lift (read_revision p)
    if current == job.revision
        then store_import job converted p
        else return (error_reason changed_during_import)

  unfoldable pub import_finish : Job env.Dir → Operation P StatusResult
  unfolding finish_import
  import_finish job s =
      finish_import job (env.convert job.id job.revision job.location) (find_problem job.id s) s

  -- The same with the repository of packages, which the conversion has written by then in any case.
  unfoldable pub run_import :
      Job env.Dir
      → env.Packages × Repository P
      → Result ArchiveError StatusResult × (env.Packages × Repository P)
  unfolding import_finish
  run_import job (w, s) =
      let r = import_finish job s in
      (r.0, (env.write_packages job.id job.revision job.location w, r.1))

  -- import, with nothing in between.
  unfoldable pub finish_job : Option (Job env.Dir) → Operation P StatusResult
  unfolding import_finish
  finish_job none = return (error_code not_found)
  finish_job (some job) = import_finish job

  unfoldable pub import_problem : Str → Operation P StatusResult
  unfolding finish_job
  import_problem id s = (import_start s id >>= finish_job) s
