-- ===== src/Archive/Repository/All.antt =====
-- The operations on sets of problems: bacs/archive/src/lib/repository.cpp and status_all,
-- status_all_if_changed and schedule_import_all of repository_impl.cpp.
use bacs.Base.{
  Str, Bool, Option, none, some, List, [], ◌∷◌, Result, ok, err, ◌==◌, list_Eq, nat_Eq,
  if◌then◌else◌, insert,
}
use bacs.Base.Dict
use bacs.Base.Dict.{Dict}
use bacs.Base.{◌>>=◌, ◌>>◌}
use bacs.Base.Action
use bacs.Archive.Flag.{Flag, ArchiveError, validate_id, validate_flag}
use bacs.Archive.Storage.{StatusResult, ImportResult, Repository}
use bacs.Archive.Repository.{
  Env, pending_name, Operation, has_flag, status_result, set_flags, unset_flags, clear_flags,
  import_result, post_import,
}
use bacs.Archive.Repository.Import.{prepare_import, import_problem}

-- existing_: the names in the directory of the repository, all of them validated.
unfoldable pub distinct : List Str → List Str
distinct [] = []
distinct (id ∷ ids) = insert id (distinct ids)

unfoldable pub validate_ids : List Str → Result ArchiveError (List Str)
unfolding validate_id
validate_ids [] = ok []
validate_ids (id ∷ ids) = do _ ← validate_id id; rest ← validate_ids ids; ok (id ∷ rest)

module _ {P : Type 0} where
  unfoldable pub existing : Repository P → Result ArchiveError (List Str)
  unfolding distinct validate_ids
  existing s = validate_ids (distinct (Dict.keys s.problems))

  -- status_all_
  unfoldable pub status_all : List Str → Repository P → Result ArchiveError (Dict Str StatusResult)
  unfolding status_result
  status_all [] s = ok []
  status_all (id ∷ ids) s = do r ← status_result id s; rest ← status_all ids s; ok ((id, r) ∷ rest)

  -- status_all_if_changed: the revision of the archive, and the statuses if it is not `known`.
  unfoldable pub status_all_if_changed :
      Str → Repository P → Result ArchiveError (Str × Option (Dict Str StatusResult))
  unfolding status_all existing
  status_all_if_changed known s =
      if s.archive_revision == known
      then ok (s.archive_revision, none)
      else do ids ← existing s; statuses ← status_all ids s; ok (s.archive_revision, some statuses)

  -- get_all_map_: one call for each id, in order; an exception ends the loop.
  unfoldable pub get_all :
      {R : Type 0} → (Str → Operation P R) → List Str → Operation P (Dict Str R)
  get_all get [] = Action.return []
  get_all get (id ∷ ids) =
      Action.◌>>=◌ (get id)
        (λ r. Action.◌>>=◌ (get_all get ids) (λ rest. Action.return ((id, r) ∷ rest)))

  unfoldable pub set_flags_all : List Str → List Flag → Operation P (Dict Str StatusResult)
  unfolding get_all set_flags
  set_flags_all ids flags = get_all (λ id s. set_flags s id flags s) ids

  unfoldable pub unset_flags_all : List Str → List Flag → Operation P (Dict Str StatusResult)
  unfolding get_all unset_flags
  unset_flags_all ids flags = get_all (λ id s. unset_flags s id flags s) ids

  unfoldable pub clear_flags_all : List Str → Operation P (Dict Str StatusResult)
  unfolding get_all clear_flags
  clear_flags_all ids = get_all (λ id s. clear_flags s id s) ids

  unfoldable pub import_result_all : List Str → Operation P (Dict Str (ImportResult P))
  unfolding get_all import_result
  import_result_all ids = get_all (λ id s. import_result s id s) ids

  unfoldable pub import_all : Env P → List Str → Operation P (Dict Str StatusResult)
  unfolding get_all import_problem
  import_all env ids = get_all (λ id. import_problem env id) ids

  -- with_flag: get_all_set over has_flag, which validates its arguments.
  unfoldable pub with_flag : Str → List Str → Repository P → Result ArchiveError (List Str)
  unfolding validate_id validate_flag has_flag
  with_flag flag [] s = ok []
  with_flag flag (id ∷ ids) s = do
    _ ← validate_id id
    _ ← validate_flag flag
    rest ← with_flag flag ids s
    ok (if has_flag id flag s then insert id rest else rest)

  -- The loop of schedule_import_all: the ids prepared so far are kept if an exception ends it.
  unfoldable pub prepared_next :
      (List Str → Repository P → Result ArchiveError Unit × (List Str × Repository P))
      → List Str
      → Str
      → Result ArchiveError Bool × Repository P
      → Result ArchiveError Unit × (List Str × Repository P)
  prepared_next rest schedule id (ok b, s) = rest (if b then insert id schedule else schedule) s
  prepared_next rest schedule id (err e, s) = (err e, (schedule, s))

  unfoldable pub prepare_all :
      List Str → List Str → Repository P → Result ArchiveError Unit × (List Str × Repository P)
  unfolding prepared_next prepare_import
  prepare_all [] schedule s = (ok tt, (schedule, s))
  prepare_all (id ∷ ids) schedule s =
      prepared_next (prepare_all ids) schedule id (prepare_import s id s)

  unfoldable pub post_all : List Str → Repository P → Repository P
  unfolding post_import
  post_all [] s = s
  post_all (id ∷ ids) s = post_all ids (post_import id s)

  -- schedule_import_all: the posts are made when the scope is left.
  unfoldable pub schedule_import_all : List Str → Operation P (Dict Str StatusResult)
  unfolding prepare_all post_all status_all
  schedule_import_all ids s =
      let (r, (schedule, t)) = prepare_all ids [] s in (r >> status_all ids t, post_all schedule t)

  unfoldable pub schedule_import_all_pending : Operation P (Dict Str StatusResult)
  unfolding existing with_flag schedule_import_all
  schedule_import_all_pending s =
      Action.continue (do ids ← existing s; with_flag pending_name ids s) schedule_import_all s
