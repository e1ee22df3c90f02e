-- ===== src/Archive/Repository/Changes.antt =====
-- The invariant over all operations of bacs/archive/src/lib/repository_impl.cpp that change the archive:
-- flag requests, uploads, and the parts of an import.
use bacs.Base.{
  Str, ◌≡◌, refl, true, false, none, some, [], ◌∷◌, Result, ok, err, All, ◌==◌, list_Eq, nat_Eq,
  inl, inr, Bool-cases, Option-cases, insert, erase, subst, sym, ==_eq,
}
use bacs.Base.Dict.{Dict, lookup}
use bacs.Pm.Entry.{is_allowed_subpath}
use bacs.Archive.Flag.{is_allowed_flag, is_allowed_id, validate_id}
use bacs.Archive.Storage.{
  Problem, Repository, find_problem, put_problem, add_flag, drop_flag, read_revision,
}
use bacs.Archive.Repository.{pending_name, ignore_name, Env, exists, when_exists, upload, Operation}
use bacs.Archive.Repository.Requests.{AllowedFlags, all-insert, all-erase, continue-ind}
use bacs.Archive.Repository.Access.{Request, request}
use bacs.Archive.Repository.Import.{
  Job, prepare_import, import_start, start_job, start_repaired, repaired, import_finish,
  finish_import, store_import, mark,
}
use bacs.Archive.Repository.WellFormed.{
  IsWellFormed, find-AllowedFlags, put-IsWellFormed, validate_id-allowed, request-IsWellFormed,
  upload-IsWellFormed,
}

-- An operation with what it works on; `seen` is the archive at its first test.
pub data Change (P Dir : Type 0) : Type 1 where
  requested : Repository P → Str → Request → Change P Dir
  uploaded_ : Repository P → Str → Dir → Change P Dir
  prepared begun : Repository P → Str → Change P Dir
  ended : Job Dir → Change P Dir

module _ {P : Type 0} (env : Env P) where
  unfoldable pub run_change : Change P env.Dir → Repository P → Repository P
  unfolding request upload prepare_import import_start import_finish
  run_change (requested seen id r) s = (request seen id r s).1
  run_change (uploaded_ seen id location) s = (upload env seen id location s).1
  run_change (prepared seen id) s = (prepare_import seen id s).1
  run_change (begun seen id) s = (import_start env seen id s).1
  run_change (ended job) s = (import_finish env job s).1

  allowed_key :
      (id : Str) (d : Dict Str (Problem P)) (p : Problem P)
      → All (λ e. (is_allowed_id e.0 ≡ true) × AllowedFlags e.1) d
      → lookup id d ≡ some p
      → is_allowed_id id ≡ true
  unfolding lookup
  allowed_key id [] p h k = cc
  allowed_key id ((j, q) ∷ d) p h k = elim (Bool-cases (id == j)) [
    | inl y ↦ subst (λ x. is_allowed_id x ≡ true) (sym (==_eq id j y)) h.0.0
    | inr n ↦ allowed_key id d p h.1 (rw (lookup, n) at k)
  ]

  -- What a body makes of a problem that is found.
  when_exists-body :
      {A : Type 0} (seen s : Repository P) (id : Str) (missing : A)
      (body : Problem P → Operation P A)
      → IsWellFormed s
      → ((p : Problem P) → find_problem id s ≡ some p → IsWellFormed (body p s).1)
      → IsWellFormed (when_exists seen id missing body s).1
  unfolding when_exists
  when_exists-body seen s id missing body h k = elim (Bool-cases (exists id seen)) [
    | inr n ↦ rw (when_exists, n) h
    | inl y ↦ elim (Option-cases (find_problem id s)) [
      | inl e ↦ rw (when_exists, y, e) h
      | inr (p, e) ↦ rw (when_exists, y, e) (k p e)
    ]
  ]

  prepare_import-IsWellFormed :
      (seen s : Repository P) (id : Str)
      → IsWellFormed s
      → IsWellFormed (prepare_import seen id s).1
  unfolding prepare_import add_flag is_allowed_flag is_allowed_subpath
  prepare_import-IsWellFormed seen s id h = continue-ind IsWellFormed (validate_id id) _ s h λ u v.
      when_exists-body seen s id false
        (λ p t. (ok true, put_problem id (add_flag pending_name p) t)) h
        λ p e.
          put-IsWellFormed s id (add_flag pending_name p) h (validate_id-allowed id v)
            (all-insert is_allowed_flag pending_name p.flags refl (find-AllowedFlags s id p h e))

  start_repaired-IsWellFormed :
      (s : Repository P) (id : Str) (p : Problem P)
      → IsWellFormed s
      → is_allowed_id id ≡ true
      → AllowedFlags p
      → IsWellFormed (start_job env id p s).1
  unfolding start_job start_repaired repaired
  start_repaired-IsWellFormed s id p h i a = elim (Option-cases p.revision) [
    | inr (r, e) ↦ rw (start_job, repaired, e, start_repaired) (put-IsWellFormed s id p h i a)
    | inl n ↦ elim (Option-cases p.archive_file) [
      | inl m ↦ rw (start_job, repaired, n, m, start_repaired) h
      | inr (f, m) ↦ rw (start_job, repaired, n, m, start_repaired) (put-IsWellFormed s id _ h i a)
    ]
  ]

  import_start-IsWellFormed :
      (seen s : Repository P) (id : Str)
      → IsWellFormed s
      → IsWellFormed (import_start env seen id s).1
  unfolding import_start
  import_start-IsWellFormed seen s id h = continue-ind IsWellFormed (validate_id id) _ s h λ u v.
      when_exists-body seen s id none (start_job env id) h λ p e.
        start_repaired-IsWellFormed s id p h (validate_id-allowed id v)
          (find-AllowedFlags s id p h e)

  mark-AllowedFlags :
      (converted : Result Str P) (p : Problem P) → AllowedFlags p → AllowedFlags (mark converted p)
  unfolding mark add_flag drop_flag is_allowed_flag is_allowed_subpath
  mark-AllowedFlags (ok x) p h =
      all-erase is_allowed_flag pending_name (erase ignore_name p.flags)
        (all-erase is_allowed_flag ignore_name p.flags h)
  mark-AllowedFlags (err e) p h =
      all-erase is_allowed_flag pending_name (insert ignore_name p.flags)
        (all-insert is_allowed_flag ignore_name p.flags refl h)

  finish_found-IsWellFormed :
      (job : Job env.Dir) (converted : Result Str P) (s : Repository P) (p : Problem P)
      → IsWellFormed s
      → find_problem job.id s ≡ some p
      → IsWellFormed (finish_import env job converted (some p) s).1
  unfolding finish_import store_import find_problem
  finish_found-IsWellFormed job converted s p h e =
      continue-ind IsWellFormed (read_revision p) _ s h λ r v.
        elim (Bool-cases (r == job.revision)) [
          | inr n ↦ rw n h
          | inl y ↦ rw y (
              put-IsWellFormed (record s { archive_revision = env.generate s.archive_revision })
                job.id _ h (allowed_key job.id s.problems p h e)
                (mark-AllowedFlags converted _ (find-AllowedFlags s job.id p h e)))
        ]

  import_finish-IsWellFormed :
      (job : Job env.Dir) (s : Repository P)
      → IsWellFormed s
      → IsWellFormed (import_finish env job s).1
  unfolding import_finish finish_import
  import_finish-IsWellFormed job s h = elim (Option-cases (find_problem job.id s)) [
    | inl n ↦ rw n h
    | inr (p, e) ↦ rw e (finish_found-IsWellFormed job _ s p h e)
  ]

  -- Every flag request, every upload, every preparation of an import, and the start and the end of every
  -- import keep the archive well-formed, whatever it was when the operation was first tested and
  -- whatever happened between the start and the end of an import.
  pub run_change-IsWellFormed :
      (change : Change P env.Dir) (s : Repository P)
      → IsWellFormed s
      → IsWellFormed (run_change change s)
  unfolding run_change
  run_change-IsWellFormed (requested seen id r) s h = request-IsWellFormed seen s id r h
  run_change-IsWellFormed (uploaded_ seen id location) s h =
      upload-IsWellFormed env seen s id location h
  run_change-IsWellFormed (prepared seen id) s h = prepare_import-IsWellFormed seen s id h
  run_change-IsWellFormed (begun seen id) s h = import_start-IsWellFormed seen s id h
  run_change-IsWellFormed (ended job) s h = import_finish-IsWellFormed job s h
