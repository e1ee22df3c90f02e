-- ===== src/Problem/Simple0/Storage.antt =====
-- bacs/problem/src/single/drivers/simple0/tests.cpp: the directory of the tests becomes a list_storage.
use bacs.Base.{
  ℕ, Str, Bool, Option, none, some, List, [], ◌∷◌, ◌++◌, map, Result, ok, err, ◌>>=◌, ◌==◌,
  contains, insert, list_Eq, nat_Eq, codes, if◌then◌else◌,
}
use bacs.Base.Dict.{Dict}
use bacs.Problem.ListStorage.{
  ListStorage, TestData, TestDataType, StorageError, text, empty_storage, add_test, set_data_type,
}
use bacs.Problem.Simple0.{after_prefix}

-- A name in the directory, and whether it is that of a regular file.
pub record DirectoryEntry : Type 0 where
  pub filename : Str
  pub is_regular_file : Bool

pub data TestsError : Type 0 where
  format_error bad_lexical_cast : TestsError
  storage_error : StorageError → TestsError

-- `fname.find('.')`, with what is before and behind the dot.
unfoldable pub put_before : ℕ → Option (Str × Str) → Option (Str × Str)
put_before c none = none
put_before c (some p) = some (c ∷ p.0, p.1)

unfoldable pub cut : Str → Option (Str × Str)
unfolding put_before
cut [] = none
cut (c ∷ s) = let rest = put_before c (cut s) in if c == b'.' then some ([], s) else rest

-- The name of a file, as the ids of a test and of its data.
unfoldable pub split_name : DirectoryEntry → Result TestsError (Str × Str)
unfolding cut contains
split_name entry =
    if entry.is_regular_file
    then elim (cut entry.filename) [
      | none ↦ err format_error
      | some p ↦ if contains b'.' p.1 then err format_error else ok p
    ]
    else err format_error

-- `test_files[test_id].insert(data_id)`
unfoldable pub add_file : Str → Str → Dict Str (List Str) → Dict Str (List Str)
unfolding insert
add_file test_id data_id [] = (test_id, data_id ∷ []) ∷ []
add_file test_id data_id ((t, ids) ∷ files) =
    let rest = add_file test_id data_id files in
    if test_id == t then (t, insert data_id ids) ∷ files else (t, ids) ∷ rest

-- The loop over the directory.
unfoldable pub collect_files :
    List DirectoryEntry → Dict Str (List Str) → Result TestsError (Dict Str (List Str))
unfolding split_name add_file
collect_files [] files = ok files
collect_files (entry ∷ entries) files =
    split_name entry >>= (λ p. collect_files entries (add_file p.0 p.1 files))

-- `data[data_id] = test_id + "." + data_id`, for ids that differ.
unfoldable pub make_data : Str → List Str → TestData
make_data test_id = map (λ data_id. (data_id, test_id ++ (b'.' ∷ data_id)))

unfoldable pub of_storage : Result StorageError ListStorage → Result TestsError ListStorage
of_storage (ok s) = ok s
of_storage (err e) = err (storage_error e)

unfoldable pub add_tests : Dict Str (List Str) → ListStorage → Result TestsError ListStorage
unfolding of_storage add_test make_data
add_tests [] s = ok s
add_tests ((t, ids) ∷ files) s = of_storage (add_test t (make_data t ids) s) >>= add_tests files

abbrev pub data_prefix : Str
data_prefix = codes "data_"

-- The types that the configuration sets; `parse` is the lexical_cast.
module _ (parse : Str → Option TestDataType) where
  unfoldable pub override_type : Str → Str → ListStorage → Result TestsError ListStorage
  unfolding after_prefix of_storage set_data_type
  override_type key value s = elim (after_prefix data_prefix key) [
    | none ↦ ok s
    | some data_id ↦ elim (parse value) [
      | none ↦ err bad_lexical_cast
      | some type_ ↦ of_storage (set_data_type data_id type_ s)
    ]
  ]

  unfoldable pub override_types : List (Str × Str) → ListStorage → Result TestsError ListStorage
  unfolding override_type
  override_types [] s = ok s
  override_types ((key, value) ∷ config) s = override_type key value s >>= override_types config

  -- The constructor, for the entries of the directory and the configuration.
  unfoldable pub make_tests : List DirectoryEntry → List (Str × Str) → Result TestsError ListStorage
  unfolding collect_files add_tests override_types
  make_tests entries config =
      collect_files entries []
      >>= (λ files. add_tests files (empty_storage text))
      >>= override_types config
