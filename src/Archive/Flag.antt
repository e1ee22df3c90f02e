-- ===== src/Archive/Flag.antt =====
-- bacs/archive/src/lib/problem.cpp with bacs/archive/include/bacs/archive/problem/flag.proto, and
-- bacs/problem/src/id.cpp: flags, ids and their validation.
use bacs.Base.{
  Str, ◌≡◌, refl, Bool, true, Option, none, some, List, [], ◌∷◌, arith, codes, Result, ok, err,
  ◌>>=◌, ◌==◌, list_Eq, nat_Eq, if◌then◌else◌,
}
use bacs.Pm.Entry.{is_allowed_subpath}

-- `Flag::Reserved`; `no_flag` is NONE.
pub data Reserved : Type 0 where
  no_flag ignore locked read_only pending_import : Reserved

-- The oneof of message Flag.
pub data Flag : Type 0 where
  reserved : Reserved → Flag
  custom : Str → Flag
  flag_not_set : Flag

-- The exceptions of the archive.
pub data ArchiveError : Type 0 where
  invalid_id : Str → ArchiveError
  invalid_flag : Str → ArchiveError
  flag_cant_be_set : Str → ArchiveError
  -- A file cannot be read.
  unreadable : ArchiveError
  -- BOOST_ASSERT(false)
  assertion : ArchiveError

-- `Flag::Reserved_Name`: the name of the enumerator.
abbrev pub reserved_name : Reserved → Str
reserved_name no_flag = codes "NONE"
reserved_name ignore = codes "IGNORE"
reserved_name locked = codes "LOCKED"
reserved_name read_only = codes "READ_ONLY"
reserved_name pending_import = codes "PENDING_IMPORT"

-- `Flag::Reserved_Parse`: the enumerator of that name, if there is one.
unfoldable pub reserved_parse : Str → Option Reserved
reserved_parse s =
    if s == reserved_name no_flag
    then some no_flag
    else if s == reserved_name ignore
    then some ignore
    else if s == reserved_name locked
    then some locked
    else if s == reserved_name read_only
    then some read_only
    else if s == reserved_name pending_import
    then some pending_import
    else none

-- flag_cast(const Flag &), that flag_to_string calls.
unfoldable pub flag_to_string : Flag → Result ArchiveError Str
flag_to_string (reserved r) = ok (reserved_name r)
flag_to_string (custom s) = ok s
flag_to_string flag_not_set = err assertion

-- flag_cast(const std::string &)
unfoldable pub flag_cast : Str → Flag
unfolding reserved_parse
flag_cast flag = elim (reserved_parse flag) [ none ↦ custom flag | some r ↦ reserved r ]

unfoldable pub is_allowed_flag : Str → Bool
is_allowed_flag flag = is_allowed_subpath flag

unfoldable pub validate_flag : Str → Result ArchiveError Unit
unfolding is_allowed_flag
validate_flag flag = if is_allowed_flag flag then ok tt else err (invalid_flag flag)

-- validate_flag_set: the names of the flags, if all are allowed.
unfoldable pub validate_flag_set : List Flag → Result ArchiveError (List Str)
unfolding validate_flag flag_to_string
validate_flag_set [] = ok []
validate_flag_set (flag ∷ flags) = do
  s ← flag_to_string flag
  _ ← validate_flag s
  rest ← validate_flag_set flags
  ok (s ∷ rest)

unfoldable pub is_allowed_id : Str → Bool
is_allowed_id id = is_allowed_subpath id

unfoldable pub validate_id : Str → Result ArchiveError Unit
unfolding is_allowed_id
validate_id id = if is_allowed_id id then ok tt else err (invalid_id id)

reserved_name-allowed : (r : Reserved) → is_allowed_subpath (reserved_name r) ≡ true
unfolding is_allowed_subpath
reserved_name-allowed no_flag = refl
reserved_name-allowed ignore = refl
reserved_name-allowed locked = refl
reserved_name-allowed read_only = refl
reserved_name-allowed pending_import = refl

-- A reserved flag has an allowed name, so the validation inside has_flag passes for it.
pub validate_flag-reserved : (r : Reserved) → validate_flag (reserved_name r) ≡ ok tt
unfolding validate_flag
validate_flag-reserved r = rw (reserved_name-allowed r)

-- The name of a file in the flags directory survives the conversion to a Flag and back.
pub flag_to_string-flag_cast : (s : Str) → flag_to_string (flag_cast s) ≡ ok s
unfolding flag_to_string flag_cast
flag_to_string-flag_cast s = ground arith

-- A reserved flag survives the conversion to its name and back.
pub flag_cast-reserved : (r : Reserved) → flag_cast (reserved_name r) ≡ reserved r
unfolding flag_cast list_Eq nat_Eq
flag_cast-reserved no_flag = refl
flag_cast-reserved ignore = refl
flag_cast-reserved locked = refl
flag_cast-reserved read_only = refl
flag_cast-reserved pending_import = refl
