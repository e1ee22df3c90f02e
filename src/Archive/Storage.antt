-- ===== src/Archive/Storage.antt =====
-- What the archive keeps on disk (bacs/archive/doc/internal_storage.md), its messages
-- (bacs/archive/include/bacs/archive/problem/*.proto) and the helpers at the top of
-- bacs/archive/src/lib/repository_impl.cpp.
pub mod Hash
use bacs.Base.{
  ℕ, zero, suc, ◌+◌, ◌*◌, ◌/◌, ◌%◌, Str, Bool, true, false, Option, none, some, List, [], ◌∷◌,
  Result, ok, err, ◌>>=◌, contains, insert, erase, list_Eq, nat_Eq,
}
use bacs.Base.Dict
use bacs.Base.Dict.{Dict}
use bacs.Archive.Flag.{Flag, ArchiveError, unreadable, validate_flag, flag_cast}

-- `Error::Code`
pub data Code : Type 0 where
  unknown not_found locked_problem read_only_problem import_pending invalid_format : Code

-- What `set_reason` is given: a text of the code, or `e.what()` of an exception.
pub data Reason : Type 0 where
  not_implemented removed_during_import changed_during_import : Reason
  current_does_not_exist current_is_locked future_exists : Reason
  what : Str → Reason

-- The value of a message Revision: bytes.
abbrev pub Revision : Type 0
Revision = Str

pub record Status : Type 0 where
  pub revision : Revision
  pub flags : List Flag

pub data StatusResult : Type 0 where
  error_code : Code → StatusResult
  error_reason : Reason → StatusResult
  status : Status → StatusResult

-- `P` stands for the message bacs::problem::Problem.
pub data ImportResult (P : Type 0) : Type 0 where
  import_error_code : Code → ImportResult P
  import_error_reason : Reason → ImportResult P
  problem : P → ImportResult P

-- The directory of one problem; a file that is missing or cannot be parsed is `none`.
pub record Problem (P : Type 0) : Type 0 where
  pub archive_file : Option Str
  pub flags : List Str
  pub revision : Option Revision
  pub import_result : Option (ImportResult P)

-- The directory of the repository, the revision of the archive (the text of a UUID), and the ids of
-- the imports that are posted to the io_service, the latest first.
pub record Repository (P : Type 0) : Type 0 where
  pub problems : Dict Str (Problem P)
  pub archive_revision : Str
  pub posted : List Str

-- flags_: the names of the files, converted.
unfoldable pub read_flags : List Str → Result ArchiveError (List Flag)
read_flags [] = ok []
read_flags (flag ∷ rest) = do
  _ ← validate_flag flag
  flags ← read_flags rest
  ok (flag_cast flag ∷ flags)

module _ {P : Type 0} where
  unfoldable pub find_problem : Str → Repository P → Option (Problem P)
  find_problem id s = Dict.lookup id s.problems

  unfoldable pub put_problem : Str → Problem P → Repository P → Repository P
  put_problem id p s = record s { problems = Dict.assign id p s.problems }

  unfoldable pub read_revision : Problem P → Result ArchiveError Revision
  read_revision p = elim (p.revision) [ none ↦ err unreadable | some r ↦ ok r ]

  -- status_
  unfoldable pub problem_status : Problem P → Result ArchiveError Status
  unfolding read_revision read_flags
  problem_status p = do
    r ← read_revision p
    fs ← read_flags p.flags
    ok (record { revision = r; flags = fs })

  unfoldable pub has_file : Str → Problem P → Bool
  has_file flag p = contains flag p.flags

  -- set_flag_ and unset_flag_: `touch` and `remove` in the flags directory.
  unfoldable pub add_flag : Str → Problem P → Problem P
  add_flag flag p = record p { flags = insert flag p.flags }

  unfoldable pub drop_flag : Str → Problem P → Problem P
  drop_flag flag p = record p { flags = erase flag p.flags }

-- compute_hash_revision: the `size` low bytes of the CRC, the lowest first.
unfoldable pub low_bytes : ℕ → ℕ → Str
low_bytes zero value = []
low_bytes (suc size) value = (value % 256) ∷ low_bytes size (value / 256)

unfoldable pub compute_hash_revision : (Str → ℕ) → ℕ → Str → Revision
unfolding low_bytes
compute_hash_revision crc size file = low_bytes size (crc file)
