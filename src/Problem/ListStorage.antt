-- ===== src/Problem/ListStorage.antt =====
-- bacs/problem/src/single/test/list_storage.cpp: the files of the tests of a problem.
pub mod Steps
pub mod Uniform
pub mod Added
use bacs.Base.{
  Str, ℕ, Bool, true, false, not, ◌&&◌, Option, none, some, List, [], ◌∷◌, all, map, Result, ok,
  err, ◌>>=◌, ◌==◌, contains, insert, erase, list_Eq, nat_Eq, if◌then◌else◌,
}
use bacs.Base.Dict.{Dict, lookup, assign, keys}

pub data StorageError : Type 0 where
  inconsistent_test_data_set inconsistent_test_data empty_set unknown_data : StorageError

pub data TestDataType : Type 0 where
  text binary : TestDataType

-- The files of a test by their data ids.
abbrev pub TestData : Type 0
TestData = Dict Str Str

pub record ListStorage : Type 0 where
  pub default_data_type : TestDataType
  pub tests : Dict Str TestData
  pub text_data_set : List Str

abbrev pub empty_storage : TestDataType → ListStorage
empty_storage type_ = record { default_data_type = type_; tests = []; text_data_set = [] }

-- Equality of two sets of keys, and of two maps.
unfoldable pub is_subset : List Str → List Str → Bool
is_subset xs ys = all (λ x. contains x ys) xs

unfoldable pub same_keys : TestData → TestData → Bool
unfolding is_subset
same_keys d e = is_subset (keys d) (keys e) && is_subset (keys e) (keys d)

unfoldable pub same_file : Option Str → Option Str → Bool
same_file none none = true
same_file none (some q) = false
same_file (some p) none = false
same_file (some p) (some q) = p == q

unfoldable pub same_data : TestData → TestData → Bool
unfolding same_keys same_file lookup
same_data d e = same_keys d e && all (λ id. same_file (lookup id d) (lookup id e)) (keys d)

-- The branches of set_data_type for the two types.
unfoldable pub change_type : Str → TestDataType → List Str → List Str
unfolding insert erase
change_type data_id binary set = erase data_id set
change_type data_id text set = insert data_id set

-- set_data_type: `m_tests.begin()` is some test of the map.
unfoldable pub set_data_type : Str → TestDataType → ListStorage → Result StorageError ListStorage
unfolding change_type contains
set_data_type data_id type_ s = elim s.tests [
  | [] ↦ err empty_set
  | first ∷ rest ↦
      if contains data_id (keys first.1)
      then ok (record s { text_data_set = change_type data_id type_ s.text_data_set })
      else err unknown_data
]

-- The loop over the data of the first test.
unfoldable pub set_each : List Str → TestDataType → ListStorage → Result StorageError ListStorage
unfolding set_data_type
set_each [] type_ s = ok s
set_each (id ∷ ids) type_ s = set_data_type id type_ s >>= set_each ids type_

unfoldable pub add_test : Str → TestData → ListStorage → Result StorageError ListStorage
unfolding set_each same_keys same_data lookup assign
add_test test_id data_ s = elim s.tests [
  | [] ↦ set_each (keys data_) s.default_data_type (record s { tests = assign test_id data_ [] })
  | first ∷ rest ↦
      if not (same_keys data_ first.1)
      then err inconsistent_test_data_set
      else elim (lookup test_id (first ∷ rest)) [
        | none ↦ ok (record s { tests = assign test_id data_ (first ∷ rest) })
        | some known ↦ if same_data known data_ then ok s else err inconsistent_test_data
      ]
]

unfoldable pub data_type : Str → ListStorage → TestDataType
data_type data_id s = if contains data_id s.text_data_set then text else binary

unfoldable pub data_set : ListStorage → Result StorageError (List Str)
data_set s = elim s.tests [ [] ↦ err empty_set | first ∷ rest ↦ ok (keys first.1) ]

unfoldable pub test_set : ListStorage → List Str
test_set s = keys s.tests
