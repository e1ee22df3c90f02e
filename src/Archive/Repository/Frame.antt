-- ===== src/Archive/Repository/Frame.antt =====
-- What the requests of bacs/archive/src/lib/repository_impl.cpp leave alone, and what
-- status_all_if_changed makes of it.
use bacs.Base.{
  Str, ◌≡◌, ◌≢◌, refl, true, none, [], ◌∷◌, ◌∙◌, ◌||◌, contains, ok, ==_refl, ==_ne, list_Eq,
  nat_Eq,
}
use bacs.Pm.Entry.{is_allowed_subpath}
use bacs.Archive.Flag.{reserved, pending_import, validate_flag_set}
use bacs.Archive.Storage.{has_file, Problem, Repository, find_problem, put_problem}
use bacs.Archive.Repository.{has_flag, pending_name}
use bacs.Archive.Repository.Access.{Request, set_many, request, find-put, IsGranted}
use bacs.Archive.Repository.Flags.{has_flag-set_flags}
use bacs.Archive.Repository.Requests.{request-ind}
use bacs.Archive.Repository.All.{status_all_if_changed}

pending_valid : validate_flag_set (reserved pending_import ∷ []) ≡ ok (pending_name ∷ [])
unfolding validate_flag_set is_allowed_subpath
pending_valid = refl

module _ {P : Type 0} where
  -- A request about one problem leaves every other problem alone; it changes neither the revision of
  -- the archive nor the posted imports.
  pub request-frame :
      (seen s : Repository P) (id j : Str) (r : Request)
      → j ≢ id
      → (find_problem j (request seen id r s).1 ≡ find_problem j s)
        × ((request seen id r s).1.archive_revision ≡ s.archive_revision)
        × ((request seen id r s).1.posted ≡ s.posted)
  request-frame seen s id j r n =
      request-ind
        (λ t.
          (find_problem j t ≡ find_problem j s)
          × (t.archive_revision ≡ s.archive_revision)
          × (t.posted ≡ s.posted))
        seen s id r (refl, refl, refl)
        λ p p' v e keep.
          (rw (find-put, ==_ne j id n), unfold put_problem in refl, unfold put_problem in refl)

  archive_revision-request :
      (seen s : Repository P) (id : Str) (r : Request)
      → (request seen id r s).1.archive_revision ≡ s.archive_revision
  archive_revision-request seen s id r =
      request-ind (λ t. t.archive_revision ≡ s.archive_revision) seen s id r refl
        λ p p' v e keep. unfold put_problem in refl

  posted-request :
      (seen s : Repository P) (id : Str) (r : Request) → (request seen id r s).1.posted ≡ s.posted
  posted-request seen s id r =
      request-ind (λ t. t.posted ≡ s.posted) seen s id r refl
        λ p p' v e keep. unfold put_problem in refl

  -- A client that holds the statuses of the revision before a request is told by
  -- status_all_if_changed that nothing has changed, whatever flags the request has changed.
  pub status_all_if_changed-request :
      (seen s : Repository P) (id : Str) (r : Request)
      → status_all_if_changed s.archive_revision (request seen id r s).1
        ≡ ok (s.archive_revision, none)
  unfolding status_all_if_changed
  status_all_if_changed-request seen s id r =
      rw (archive_revision-request seen s id r, ==_refl s.archive_revision)

  pending_listed :
      (p : Problem P)
      → (contains pending_name (pending_name ∷ []) || has_file pending_name p) ≡ true
  unfolding contains list_Eq nat_Eq
  pending_listed p = refl

  -- A granted set_flags that names PENDING_IMPORT marks the problem as about to be imported, and posts
  -- no import.
  pub set_flags-pending :
      (seen s : Repository P) (id : Str) (p : Problem P)
      → IsGranted seen id s p
      → let t = (request seen id (set_many (reserved pending_import ∷ [])) s).1 in
        (has_flag id pending_name t ≡ true) × (t.posted ≡ s.posted)
  set_flags-pending seen s id p g = (
    unfold request in
        (has_flag-set_flags seen s id pending_name _ (pending_name ∷ []) p g pending_valid
          ∙ pending_listed p),
    posted-request seen s id _,
  )
