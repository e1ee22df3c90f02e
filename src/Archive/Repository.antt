-- ===== src/Archive/Repository.antt =====
-- bacs/archive/src/lib/repository_impl.cpp: the operations of the archive.
--
-- Most operations test a condition without the lock, take the lock, and test it again. They are
-- functions of two states: `seen` is the repository at the first test, and the state that the action
-- is given is the one under the lock, which other threads may have changed in between.
pub mod Import
pub mod All
pub mod Flags
pub mod Access
pub mod Frame
pub mod Requests
pub mod Imports
pub mod Pipeline
pub mod WellFormed
pub mod Changes
use bacs.Base.{
  ℕ, Str, Bool, true, false, not, ◌&&◌, ◌||◌, Option, none, some, List, [], ◌∷◌, Result, ok, err,
  ◌==◌, list_Eq, nat_Eq, if◌then◌else◌,
}
use bacs.Base
use bacs.Base.Action.{Action, return, throw, lift, ◌>>=◌, ◌>>◌}
use bacs.Archive.Flag.{
  Flag, ArchiveError, unreadable, flag_cant_be_set, reserved_name, ignore, locked, read_only,
  pending_import, validate_flag, validate_flag_set, validate_id,
}
use bacs.Archive.Storage.{
  Code, not_found, locked_problem, read_only_problem, import_pending, invalid_format, Revision,
  StatusResult, error_code, error_reason, Reason, current_does_not_exist, current_is_locked,
  future_exists, not_implemented, status, ImportResult, import_error_code, Problem, Repository,
  find_problem, put_problem, problem_status, has_file, add_flag, drop_flag, compute_hash_revision,
}

-- What the archive uses of other code: archivers, the CRC, the importers of problems with the
-- package manager, and the generator of UUIDs. `Dir` is the content of a directory.
pub record Env (P : Type 0) : Type 1 where
  pub Dir : Type 0
  -- exists(location / "format")
  pub has_format : Dir → Bool
  pub pack_contents : Dir → Str
  pub unpack : Str → Dir
  -- boost::crc_32_type, and the size of its value in bytes
  pub crc : Str → ℕ
  pub crc_size : ℕ
  -- m_importer.convert and pm_create_recursively, with `e.what()` of what they throw
  pub convert : Str → Revision → Dir → Result Str P
  -- the repository of packages, and what they write there
  pub Packages : Type 0
  pub write_packages : Str → Revision → Dir → Packages → Packages
  -- the UUID after this one
  pub generate : Str → Str

abbrev pub ignore_name : Str
ignore_name = reserved_name ignore

abbrev pub pending_name : Str
pending_name = reserved_name pending_import

abbrev pub Operation : Type 0 → Type 0 → Type 0
Operation P A = Action (Repository P) ArchiveError A

-- The test of set_flag that keeps PENDING_IMPORT from being set.
unfoldable pub may_be_set : Str → Result ArchiveError Unit
may_be_set flag = if flag == pending_name then err (flag_cant_be_set flag) else ok tt

module _ {P : Type 0} where
  unfoldable pub exists : Str → Repository P → Bool
  exists id s = elim (find_problem id s) [ none ↦ false | some p ↦ true ]

  -- has_flag, after the validation of its arguments.
  unfoldable pub has_flag : Str → Str → Repository P → Bool
  unfolding has_file
  has_flag id flag s = elim (find_problem id s) [ none ↦ false | some p ↦ has_file flag p ]

  unfoldable pub is_locked : Str → Repository P → Bool
  unfolding has_flag
  is_locked id s = has_flag id (reserved_name locked) s || has_flag id (reserved_name read_only) s

  unfoldable pub is_read_only : Problem P → Bool
  unfolding has_file
  is_read_only p = has_file (reserved_name read_only) p

  -- `if (exists(id)) { lock; if (exists(id)) { body } } return status_not_found();`
  unfoldable pub when_exists :
      {A : Type 0} → Repository P → Str → A → (Problem P → Operation P A) → Operation P A
  unfolding exists
  when_exists seen id missing body s =
      if exists id seen
      then elim (find_problem id s) [ none ↦ (ok missing, s) | some p ↦ body p s ]
      else (ok missing, s)

  -- The problem is changed and `status_status(status_(id))` is returned.
  unfoldable pub save_status : Str → Problem P → Operation P StatusResult
  unfolding put_problem problem_status
  save_status id p s = (Base.◌>>=◌ (problem_status p) (λ st. ok (status st)), put_problem id p s)

  -- `if (is_read_only(id)) return status_error(READ_ONLY);`, then the change.
  unfoldable pub edit : Str → (Problem P → Problem P) → Problem P → Operation P StatusResult
  unfolding is_read_only save_status
  edit id change p =
      if is_read_only p then return (error_code read_only_problem) else save_status id (change p)

  unfoldable pub set_flag : Repository P → Str → Str → Operation P StatusResult
  unfolding when_exists edit add_flag may_be_set
  set_flag seen id flag = do
    lift (validate_id id)
    lift (validate_flag flag)
    lift (may_be_set flag)
    when_exists seen id (error_code not_found) (edit id (add_flag flag))

  unfoldable pub add_flags : List Str → Problem P → Problem P
  unfolding add_flag
  add_flags [] p = p
  add_flags (flag ∷ flags) p = add_flags flags (add_flag flag p)

  unfoldable pub set_flags : Repository P → Str → List Flag → Operation P StatusResult
  unfolding when_exists edit add_flags
  set_flags seen id flags = do
    lift (validate_id id)
    names ← lift (validate_flag_set flags)
    when_exists seen id (error_code not_found) (edit id (add_flags names))

  -- The test in unset_flag, as it is written: only IGNORE is removed.
  unfoldable pub drop_if_ignore : Str → Problem P → Problem P
  unfolding drop_flag
  drop_if_ignore flag p = if flag == ignore_name then drop_flag flag p else p

  unfoldable pub unset_flag : Repository P → Str → Str → Operation P StatusResult
  unfolding when_exists edit drop_if_ignore
  unset_flag seen id flag = do
    lift (validate_id id)
    lift (validate_flag flag)
    when_exists seen id (error_code not_found) (edit id (drop_if_ignore flag))

-- IGNORE and PENDING_IMPORT, which users cannot remove.
unfoldable pub is_system_flag : Str → Bool
is_system_flag flag = flag == ignore_name || flag == pending_name

unfoldable pub keep_system_flags : List Str → List Str
unfolding is_system_flag
keep_system_flags [] = []
keep_system_flags (flag ∷ flags) =
    let rest = keep_system_flags flags in if is_system_flag flag then flag ∷ rest else rest

module _ {P : Type 0} where
  unfoldable pub drop_flags : List Str → Problem P → Problem P
  unfolding drop_flag is_system_flag
  drop_flags [] p = p
  drop_flags (flag ∷ flags) p =
      drop_flags flags (if is_system_flag flag then p else drop_flag flag p)

  unfoldable pub unset_flags : Repository P → Str → List Flag → Operation P StatusResult
  unfolding when_exists edit drop_flags
  unset_flags seen id flags = do
    lift (validate_id id)
    names ← lift (validate_flag_set flags)
    when_exists seen id (error_code not_found) (edit id (drop_flags names))

  -- The loop of clear_flags over the flags directory.
  unfoldable pub drop_user_flags : Problem P → Problem P
  unfolding keep_system_flags
  drop_user_flags p = record p { flags = keep_system_flags p.flags }

  unfoldable pub clear_flags : Repository P → Str → Operation P StatusResult
  unfolding when_exists edit drop_user_flags
  clear_flags seen id = do
    lift (validate_id id)
    when_exists seen id (error_code not_found) (edit id drop_user_flags)

  -- status, and status_result_.
  unfoldable pub status_result : Str → Repository P → Result ArchiveError StatusResult
  unfolding problem_status
  status_result id s = elim (find_problem id s) [
    | none ↦ ok (error_code not_found)
    | some p ↦ Base.◌>>=◌ (problem_status p) (λ st. ok (status st))
  ]

  unfoldable pub status_of : Repository P → Str → Operation P StatusResult
  unfolding exists status_result
  status_of seen id = do
    lift (validate_id id)
    if exists id seen then (λ s. (status_result id s, s)) else return (error_code not_found)

  -- The problem that upload starts from: the old one without its data, or a new directory.
  unfoldable pub cleared : Option (Problem P) → Problem P
  cleared none = record { archive_file = none; flags = []; revision = none; import_result = none }
  cleared (some p) = record p { archive_file = none; revision = none; import_result = none }

  -- post_import_: the import is run later by the io_service.
  unfoldable pub post_import : Str → Repository P → Repository P
  post_import id s = record s { posted = id ∷ s.posted }

  -- import_result
  unfoldable pub stored_result : Problem P → Result ArchiveError (ImportResult P)
  unfolding has_file
  stored_result p =
      if has_file pending_name p
      then ok (import_error_code import_pending)
      else elim (p.import_result) [ none ↦ err unreadable | some r ↦ ok r ]

  unfoldable pub import_result : Repository P → Str → Operation P (ImportResult P)
  unfolding when_exists stored_result
  import_result seen id = do
    lift (validate_id id)
    when_exists seen id (import_error_code not_found) (λ p s. (stored_result p, s))

module _ {P : Type 0} (env : Env P) where
  -- The files that upload writes, and `prepare_import_`.
  unfoldable pub uploaded : env.Dir → Option (Problem P) → Problem P
  unfolding cleared compute_hash_revision add_flag
  uploaded location old =
      let file = env.pack_contents location in
      add_flag pending_name (record (cleared old) {
        archive_file = some file;
        revision = some (compute_hash_revision env.crc env.crc_size file);
      })

  unfoldable pub store_upload : Str → env.Dir → Operation P StatusResult
  unfolding post_import save_status
  store_upload id location s =
      save_status id (uploaded location (find_problem id s)) (post_import id s)

  unfoldable pub upload : Repository P → Str → env.Dir → Operation P StatusResult
  upload seen id location = do
    lift (validate_id id)
    if not (env.has_format location) then return (error_code invalid_format) else (λ s.
        if not (is_locked id seen) && not (is_locked id s)
        then store_upload id location s
        else (ok (error_code locked_problem), s))

  -- download: the content of the archive file, or none if there is no problem.
  unfoldable pub unpack_problem : Problem P → Result ArchiveError env.Dir
  unpack_problem p = elim (p.archive_file) [ none ↦ err unreadable | some f ↦ ok (env.unpack f) ]

  unfoldable pub download : Repository P → Str → Operation P (Option env.Dir)
  unfolding when_exists unpack_problem
  download seen id = do
    lift (validate_id id)
    when_exists seen id none (λ p s. (Base.◌>>=◌ (unpack_problem p) (λ d. ok (some d)), s))

module _ {P : Type 0} where
  -- rename: the lambda rename_status, and the operation, which is not implemented further.
  unfoldable pub rename_status : Str → Str → Repository P → Option Reason
  unfolding exists is_locked
  rename_status current future s =
      if not (exists current s)
      then some current_does_not_exist
      else if is_locked current s
      then some current_is_locked
      else if exists future s
      then some future_exists
      else none

  unfoldable pub rename : Repository P → Str → Str → Operation P StatusResult
  unfolding rename_status
  rename seen current future = do
    lift (validate_id current)
    lift (validate_id future)
    elim (rename_status current future seen) [
      | some reason ↦ return (error_reason reason)
      | none ↦ λ s. elim (rename_status current future s) [
        | some reason ↦ (ok (error_reason reason), s)
        | none ↦ (ok (error_reason not_implemented), s)
      ]
    ]
