-- ===== src/Archive/Repository/Access.antt =====
-- Who may change a problem: the tests for READ_ONLY and LOCKED in
-- bacs/archive/src/lib/repository_impl.cpp.
use bacs.Base.{
  Str, ◌≡◌, ◌⊎◌, true, false, some, List, Result, ok, err, arith, ◌==◌, list_Eq, nat_Eq,
  if◌then◌else◌, inl, inr, Bool-cases, Option-cases,
}
use bacs.Base.Dict.{lookup-assign}
use bacs.Archive.Flag.{Flag, ArchiveError, reserved_name, read_only, validate_id}
use bacs.Archive.Storage.{
  read_only_problem, not_found, StatusResult, error_code, Problem, Repository, find_problem,
  put_problem,
}
use bacs.Archive.Repository.{
  Env, Operation, exists, has_flag, is_locked, is_read_only, when_exists, save_status, edit,
  set_flag, set_flags, unset_flag, unset_flags, clear_flags, upload,
}

module _ {P : Type 0} where
  pub find-put :
      (j id : Str) (p : Problem P) (s : Repository P)
      → find_problem j (put_problem id p s) ≡ (if j == id then some p else find_problem j s)
  unfolding find_problem put_problem
  find-put j id p s = lookup-assign j id p s.problems

  -- The circumstances in which a request to change the flags of a problem is granted.
  pub record IsGranted (seen : Repository P) (id : Str) (s : Repository P) (p : Problem P)
      : Type 0 where
    pub valid : validate_id id ≡ ok tt
    pub was_there : exists id seen ≡ true
    pub found : find_problem id s ≡ some p
    pub writable : is_read_only p ≡ false

  -- An edit that is granted replaces the problem and no other.
  pub when_exists-edit :
      (seen s : Repository P) (id j : Str) (p : Problem P) (missing : StatusResult)
      (change : Problem P → Problem P)
      → IsGranted seen id s p
      → find_problem j (when_exists seen id missing (edit id change) s).1
        ≡ (if j == id then some (change p) else find_problem j s)
  unfolding when_exists edit save_status
  when_exists-edit seen s id j p missing change g =
      rw (g.was_there, g.found, g.writable) (find-put j id (change p) s)

  -- What holds of the state before an edit, and of it with the changed problem, holds after it.
  pub when_exists-ind {ℓ} :
      (Q : Repository P → Type ℓ) (seen s : Repository P) (id : Str) (missing : StatusResult)
      (change : Problem P → Problem P)
      → Q s
      → ((p : Problem P) → find_problem id s ≡ some p → Q (put_problem id (change p) s))
      → Q (when_exists seen id missing (edit id change) s).1
  unfolding when_exists edit
  when_exists-ind Q seen s id missing change h k = elim (Bool-cases (exists id seen)) [
    | inr n ↦ rw (when_exists, n) h
    | inl y ↦ elim (Option-cases (find_problem id s)) [
      | inl e ↦ rw (when_exists, y, e) h
      | inr (p, e) ↦ elim (Bool-cases (is_read_only p)) [
        | inl ro ↦ rw (when_exists, y, e, edit, ro) h
        | inr rw_ ↦ rw (when_exists, y, e, edit, rw_) (k p e)
      ]
    ]
  ]

-- An exception, or one of the two errors.
abbrev pub IsRefusal : Result ArchiveError StatusResult → Type 0
IsRefusal (err e) = Unit
IsRefusal (ok r) = (r ≡ error_code read_only_problem) ⊎ (r ≡ error_code not_found)

-- The requests that change the flags of a problem.
pub data Request : Type 0 where
  set_one unset_one : Str → Request
  set_many unset_many : List Flag → Request
  clear : Request

module _ {P : Type 0} where
  unfoldable pub request : Repository P → Str → Request → Operation P StatusResult
  unfolding set_flag set_flags unset_flag unset_flags clear_flags
  request seen id (set_one flag) = set_flag seen id flag
  request seen id (unset_one flag) = unset_flag seen id flag
  request seen id (set_many flags) = set_flags seen id flags
  request seen id (unset_many flags) = unset_flags seen id flags
  request seen id clear = clear_flags seen id

  -- No request that sets, unsets or clears flags changes a repository in which the problem is READ_ONLY,
  -- whatever the repository was when the request was first tested, and whatever its arguments are; the
  -- reply is an exception, READ_ONLY or NOT_FOUND.
  pub request-read_only :
      (seen s : Repository P) (id : Str) (r : Request)
      → has_flag id (reserved_name read_only) s ≡ true
      → ((request seen id r s).1 ≡ s) × IsRefusal (request seen id r s).0
  unfolding request has_flag
  request-read_only seen s id (set_one flag) h = ground arith
  request-read_only seen s id (unset_one flag) h = ground arith
  request-read_only seen s id (set_many flags) h = ground arith
  request-read_only seen s id (unset_many flags) h = ground arith
  request-read_only seen s id clear h = ground arith

  -- A problem that is LOCKED or READ_ONLY is not changed by an upload, which returns LOCKED if the
  -- uploaded directory has a format.
  pub upload-locked :
      (env : Env P) (seen s : Repository P) (id : Str) (location : env.Dir)
      → is_locked id s ≡ true
      → (upload env seen id location s).1 ≡ s
  unfolding upload
  upload-locked env seen s id location h = ground arith
