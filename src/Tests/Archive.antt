-- ===== src/Tests/Archive.antt =====
-- A small archive, runs of its operations, and the theorems about them at concrete inputs.
use bacs.Base.{
  ℕ, ◌^◌, ◌<◌, ◌+◌, zero, suc, Str, codes, ◌≡◌, refl, ◌≢◌, Bool, true, false, Option, none, some,
  List, [], ◌∷◌, Result, ok, err, arith, nat_Eq, list_Eq, contains, length, All, head_path,
}
use bacs.Base
use mathlib.Core.Option
use bacs.Base.Dict.{lookup}
use bacs.Pm.Entry.{is_allowed_subpath}
use bacs.Archive.Flag.{
  reserved_name, read_only, validate_flag, validate_id, is_allowed_flag, is_allowed_id,
}
use bacs.Archive.Storage.{
  Problem, Repository, compute_hash_revision, find_problem, read_revision, has_file,
}
use bacs.Archive.Storage.Hash.{from_bytes, compute_hash_revision_lem}
use bacs.Archive.Repository.{
  Env, exists, has_flag, is_locked, is_read_only, unset_flag, upload, import_result, ignore_name,
  pending_name,
}
use bacs.Archive.Repository.Access.{IsGranted, clear, request, request-read_only, IsRefusal}
use bacs.Archive.Repository.Flags.{has_flag-unset_flag}
use bacs.Archive.Repository.Frame.{status_all_if_changed-request}
use bacs.Archive.Repository.WellFormed.{IsWellFormed}
use bacs.Archive.Repository.Changes.{ended, run_change, run_change-IsWellFormed}
use bacs.Archive.Repository.Import.{Job, import_finish, run_import, import_problem, outcome}
use bacs.Archive.Repository.Imports.{failed, has_flag-import_finish, run_import-IsStale, IsStale}
use bacs.Archive.Repository.Pipeline.{CanUpload, IsUploaded, upload-IsUploaded, upload-import}
use bacs.Archive.Repository.All.{status_all_if_changed}

sum_bytes : Str → ℕ
sum_bytes [] = 0
sum_bytes (b ∷ s) = b + sum_bytes s

-- Archives are the bytes themselves; the conversion fails for a directory that begins with "!".
convert : Str → Str → Str → Result Str ℕ
unfolding nat_Eq
convert id r [] = ok 0
convert id r (c ∷ d) = Base.if◌then◌else◌ (Base.◌==◌ c b'!') (err (codes "bad")) (ok c)

abbrev env : Env ℕ
env = record {
  Dir = Str;
  has_format = λ d. true;
  pack_contents = λ d. d;
  unpack = λ f. f;
  crc = sum_bytes;
  crc_size = 4;
  convert = convert;
  Packages = List Str;
  write_packages = λ id r d w. id ∷ w;
  generate = λ s. 0 ∷ s;
}

abbrev plain : Problem ℕ
plain = record {
  archive_file = some (codes "x");
  flags = codes "hard" ∷ ignore_name ∷ [];
  revision = some (codes "r");
  import_result = none;
}

abbrev sealed : Problem ℕ
sealed = record plain { flags = reserved_name read_only ∷ [] }

abbrev archive : Repository ℕ
archive = record {
  problems = (codes "p", plain) ∷ (codes "q", sealed) ∷ [];
  archive_revision = [];
  posted = [];
}

granted : IsGranted archive (codes "p") archive plain
unfolding validate_id is_allowed_subpath exists find_problem lookup list_Eq nat_Eq is_read_only
    contains
granted = record { valid = refl; was_there = refl; found = refl; writable = refl }

request-read_only_example :
    ((request archive (codes "q") clear archive).1 ≡ archive)
    × IsRefusal (request archive (codes "q") clear archive).0
unfolding has_flag find_problem lookup list_Eq nat_Eq contains
request-read_only_example = request-read_only archive archive (codes "q") clear refl

has_flag-unset_flag_example :
    has_flag (codes "p") (codes "hard") (unset_flag archive (codes "p") (codes "hard") archive).1
    ≡ has_file (codes "hard") plain
unfolding validate_flag is_allowed_subpath
has_flag-unset_flag_example =
    has_flag-unset_flag archive archive (codes "p") (codes "hard") (codes "hard") plain granted refl
      (λ p. cc)

status_all_if_changed-request_example :
    status_all_if_changed [] (request archive (codes "p") clear archive).1 ≡ ok ([], none)
status_all_if_changed-request_example =
    status_all_if_changed-request archive archive (codes "p") clear

archive-IsWellFormed : IsWellFormed archive
unfolding is_allowed_id is_allowed_flag is_allowed_subpath
archive-IsWellFormed = ((refl, refl), ((refl, refl), tt))

compute_hash_revision_example :
    (length (compute_hash_revision sum_bytes 4 (codes "abc")) ≡ 4)
    × All (λ b. b < 256) (compute_hash_revision sum_bytes 4 (codes "abc"))
    × (from_bytes (compute_hash_revision sum_bytes 4 (codes "abc")) ≡ sum_bytes (codes "abc"))
unfolding sum_bytes
compute_hash_revision_example = compute_hash_revision_lem sum_bytes 4 (codes "abc") (omega arith)

abbrev job : Job Str
job = record { id = codes "p"; revision = codes "r"; location = codes "!" }

read_plain : read_revision plain ≡ ok (codes "r")
unfolding read_revision
read_plain = refl

has_flag-import_finish_example :
    has_flag (codes "p") (codes "hard") (import_finish env job archive).1 ≡ (
      Base.if◌then◌else◌ (Base.◌==◌ (codes "hard") pending_name) false (
        Base.if◌then◌else◌
          (Base.◌==◌ (codes "hard") ignore_name)
          (failed (convert (codes "p") (codes "r") (codes "!")))
          (has_file (codes "hard") plain)))
has_flag-import_finish_example =
    has_flag-import_finish env job archive plain (codes "hard") granted.found read_plain

run_change-IsWellFormed_example : IsWellFormed (run_change env (ended job) archive)
run_change-IsWellFormed_example =
    run_change-IsWellFormed env (ended job) archive archive-IsWellFormed

abbrev stale_job : Job Str
stale_job = record job { revision = codes "old" }

run_import-IsStale_example :
    ((run_import env stale_job ([], archive)).1 ≡ (codes "p" ∷ [], archive))
    × IsStale (run_import env stale_job ([], archive)).0
unfolding Option.bind find_problem lookup list_Eq nat_Eq
run_import-IsStale_example = run_import-IsStale env stale_job [] archive (λ p. cc)

can_upload : CanUpload env archive (codes "new") (codes "x") archive
unfolding validate_id is_allowed_subpath is_locked has_flag find_problem lookup list_Eq nat_Eq
can_upload = record { valid = refl; format = refl; unlocked_before = refl; unlocked = refl }

upload-import_example :
    let t = (upload env archive (codes "new") (codes "x") archive).1 in
    let u = (import_problem env (codes "new") t).1 in
    (import_result u (codes "new") u).0
    ≡ ok (
        outcome (convert (codes "new") (compute_hash_revision sum_bytes 4 (codes "x")) (codes "x")))
upload-import_example = upload-import env archive archive (codes "new") (codes "x") can_upload

upload-IsUploaded_example :
    let t = (upload env archive (codes "new") (codes "x") archive).1 in
    ((p : Problem ℕ) × (find_problem (codes "new") t ≡ some p)
      × IsUploaded env (codes "x") (λ g. has_flag (codes "new") g archive) p)
    × ((j : Str) → j ≢ codes "new" → find_problem j t ≡ find_problem j archive)
    × (t.posted ≡ codes "new" ∷ [])
upload-IsUploaded_example =
    upload-IsUploaded env archive archive (codes "new") (codes "x") can_upload
