-- ===== src/Archive/Repository/Imports.antt =====
-- The life of an import in bacs/archive/src/lib/repository_impl.cpp: upload, import_ and import_result.
use bacs.Base.{
  ap, Str, ◌≡◌, ◌≢◌, ◌⊎◌, refl, Bool, true, false, none, some, Result, ok, err, arith, ◌==◌,
  ==_refl, list_Eq, nat_Eq, if◌then◌else◌, contains-insert, contains-erase,
}
use mathlib.Core.Option
use bacs.Base.Dict.{lookup-assign}
use bacs.Archive.Flag.{ArchiveError, validate_id, unreadable}
use bacs.Archive.Storage.{
  removed_during_import, changed_during_import, StatusResult, error_reason, Problem, Repository,
  find_problem, put_problem, has_file, read_revision,
}
use bacs.Archive.Repository.{
  Env, has_flag, exists, when_exists, import_result, stored_result, ignore_name, pending_name,
}
use bacs.Archive.Repository.Import.{
  Job, import_finish, run_import, finish_import, store_import, mark, outcome,
}

-- The replies of an import that came too late.
abbrev pub IsStale : Result ArchiveError StatusResult → Type 0
IsStale (err e) = Unit
IsStale (ok r) = (r ≡ error_reason removed_during_import) ⊎ (r ≡ error_reason changed_during_import)

-- The conversion threw.
pub failed : {P : Type 0} → Result Str P → Bool
failed (ok p) = false
failed (err e) = true

module _ {P : Type 0} where
  has_file-mark :
      (converted : Result Str P) (g : Str) (p : Problem P)
      → has_file g (mark converted p) ≡ (
          if g == pending_name
          then false
          else if g == ignore_name
          then failed converted
          else has_file g p)
  unfolding has_file mark failed
  has_file-mark (ok x) g p = simp (contains-erase)
  has_file-mark (err e) g p = simp (contains-erase, contains-insert) (ground arith)

  -- The problem that an import leaves.
  unfoldable pub imported : Result Str P → Problem P → Problem P
  unfolding mark outcome
  imported converted p = mark converted (record p { import_result = some (outcome converted) })

  has_file-imported :
      (converted : Result Str P) (g : Str) (p : Problem P)
      → has_file g (imported converted p) ≡ (
          if g == pending_name
          then false
          else if g == ignore_name
          then failed converted
          else has_file g p)
  unfolding imported has_file
  has_file-imported converted g p = has_file-mark converted g _

  result-imported :
      (converted : Result Str P) (p : Problem P)
      → elim ((imported converted p).import_result) [ none ↦ err unreadable | some r ↦ ok r ]
        ≡ ok (outcome converted)
  unfolding imported
  result-imported (ok x) p = refl
  result-imported (err e) p = refl

  stored_result-imported :
      (converted : Result Str P) (p : Problem P)
      → stored_result (imported converted p) ≡ ok (outcome converted)
  unfolding stored_result
  stored_result-imported converted p =
      rw (has_file-imported converted pending_name p, ==_refl pending_name)
        (result-imported converted p)

module _ {P : Type 0} (env : Env P) where
  abbrev conversion : Job env.Dir → Result Str P
  conversion job = env.convert job.id job.revision job.location

  finish_import-store :
      (job : Job env.Dir) (converted : Result Str P) (p : Problem P) (s : Repository P)
      → read_revision p ≡ ok job.revision
      → finish_import env job converted (some p) s ≡ store_import env job converted p s
  unfolding finish_import
  finish_import-store job converted p s h = rw (h, ==_refl job.revision)

  find-store :
      (job : Job env.Dir) (converted : Result Str P) (p : Problem P) (s : Repository P) (j : Str)
      → find_problem j (store_import env job converted p s).1
        ≡ (if j == job.id then some (imported converted p) else find_problem j s)
  unfolding store_import imported find_problem put_problem
  find-store job converted p s j = lookup-assign j job.id _ s.problems

  revision-store :
      (job : Job env.Dir) (converted : Result Str P) (p : Problem P) (s : Repository P)
      → (store_import env job converted p s).1.archive_revision ≡ env.generate s.archive_revision
  unfolding store_import
  revision-store job converted p s = refl

  finish-eq-store :
      (job : Job env.Dir) (s : Repository P) (p : Problem P)
      → find_problem job.id s ≡ some p
      → read_revision p ≡ ok job.revision
      → import_finish env job s ≡ store_import env job (conversion job) p s
  unfolding import_finish
  finish-eq-store job s p h k = rw h (finish_import-store job (conversion job) p s k)

  -- An import whose problem still has the revision that it was started from puts the imported problem
  -- in its place, leaves every other problem alone, and renews the revision of the archive.
  pub find-import_finish :
      (job : Job env.Dir) (s : Repository P) (p : Problem P) (j : Str)
      → find_problem job.id s ≡ some p
      → read_revision p ≡ ok job.revision
      → (find_problem j (import_finish env job s).1
          ≡ (if j == job.id then some (imported (conversion job) p) else find_problem j s))
        × ((import_finish env job s).1.archive_revision ≡ env.generate s.archive_revision)
  find-import_finish job s p j h k =
      rw (finish-eq-store job s p h k)
        (find-store job (conversion job) p s j, revision-store job (conversion job) p s)

  -- An import whose problem still has the revision that it was started from clears PENDING_IMPORT,
  -- sets IGNORE exactly if the conversion failed, and keeps every other flag.
  pub has_flag-import_finish :
      (job : Job env.Dir) (s : Repository P) (p : Problem P) (g : Str)
      → find_problem job.id s ≡ some p
      → read_revision p ≡ ok job.revision
      → has_flag job.id g (import_finish env job s).1 ≡ (
          if g == pending_name
          then false
          else if g == ignore_name
          then failed (conversion job)
          else has_file g p)
  unfolding has_flag
  has_flag-import_finish job s p g h k =
      rw ((find-import_finish job s p job.id h k).0, has_flag, ==_refl job.id)
        (has_file-imported (conversion job) g p)

  -- After an import whose problem still had the revision that it was started from, import_result
  -- returns what the conversion returned or threw.
  pub import_result-import_finish :
      (job : Job env.Dir) (seen s : Repository P) (p : Problem P)
      → validate_id job.id ≡ ok tt
      → exists job.id seen ≡ true
      → find_problem job.id s ≡ some p
      → read_revision p ≡ ok job.revision
      → (import_result seen job.id (import_finish env job s).1).0 ≡ ok (outcome (conversion job))
  unfolding import_result when_exists
  import_result-import_finish job seen s p v e h k =
      rw (v, e, (find-import_finish job s p job.id h k).0, ==_refl job.id)
        (stored_result-imported (conversion job) p)

  import_too_late :
      (job : Job env.Dir) (s : Repository P)
      → Option.bind (find_problem job.id s) (λ p. p.revision) ≢ some job.revision
      → ((import_finish env job s).1 ≡ s) × IsStale (import_finish env job s).0
  unfolding import_finish finish_import read_revision Option.bind
  import_too_late job s h = ground arith

  -- An import whose problem was removed, or has another revision by now, changes no problem and not the
  -- revision of the archive, and reports an error or an exception; but the packages that the conversion
  -- has written stay in the repository of packages.
  pub run_import-IsStale :
      (job : Job env.Dir) (w : env.Packages) (s : Repository P)
      → Option.bind (find_problem job.id s) (λ p. p.revision) ≢ some job.revision
      → ((run_import env job (w, s)).1 ≡ (env.write_packages job.id job.revision job.location w, s))
        × IsStale (run_import env job (w, s)).0
  unfolding run_import
  run_import-IsStale job w s h =
      let (same, stale) = import_too_late job s h in
      (ap (λ t. (env.write_packages job.id job.revision job.location w, t)) same, stale)
