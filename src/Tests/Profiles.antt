-- ===== src/Tests/Profiles.antt =====
-- bacs/problem/src/single/drivers/simple0/driver.cpp: small runs.
use bacs.Base.{
  ℕ, Str, ◌≡◌, refl, true, none, some, List, [], ◌∷◌, length, ok, ◌==◌, contains, list_Eq, nat_Eq,
  codes, arith, if◌then◌else◌, insert, ◌++◌, All, erase, Option,
}
use bacs.Base.Dict.{Dict, lookup, assign, keys}
use bacs.Pm.Entry.{str_lt}
use bacs.Problem.Simple0.{
  TestGroup, Values, no_settings, numeric, while_ok, test_order, test_continue_condition,
  after_prefix, is_blank, drop_blank, check_data_set, change_group, declare_group, init_group,
  init_groups, parse_score, set_value, set_values, read_tests,
}
use bacs.Problem.Simple0.Sections.{get_or, all_groups, read_profiles}
use bacs.Problem.Simple0.Groups.{is_key, declares, is_value_key, mentions, AreGroups}
use bacs.Problem.Simple0.Read.{read_tests-AreGroups}
use bacs.Problem.Simple0.Storage.{
  DirectoryEntry, put_before, cut, split_name, add_file, collect_files, make_data, of_storage,
  add_tests, override_type, override_types, make_tests,
}
use bacs.Problem.Simple0.Stored.{IsStored, make_tests-AreStored}
use bacs.Problem.ListStorage.{
  ListStorage, TestDataType, text, binary, add_test, set_each, set_data_type, change_type,
}
use bacs.Problem.ListStorage.Uniform.{Reached}
use bacs.Problem.Simple0.Profile.{IsProfile, read_profiles-IsProfile}

-- Words between single spaces; a score is the length of its text.
abbrev add_letter : ℕ → List Str → List Str
add_letter c [] = (c ∷ []) ∷ []
add_letter c (word ∷ words) = (c ∷ word) ∷ words

abbrev words : Str → List Str
words [] = [] ∷ []
words (c ∷ s) = let rest = words s in if c == b' ' then [] ∷ rest else add_letter c rest

abbrev values : Values ℕ
values = record {
  no_score = 0;
  score = λ s. some (length s);
  time_millis = λ s. none;
  memory_bytes = λ s. none;
  split = words;
}

abbrev section_ : List (Str × Str)
section_ =
    (codes "score_b", codes "*****")
    ∷ (codes "group_b", codes "3 4")
    ∷ (codes "group_a", codes "1 2")
    ∷ []

abbrev two_data : List Str
two_data = codes "in" ∷ codes "out" ∷ []

abbrev five_tests : List Str
five_tests = codes "1" ∷ codes "2" ∷ codes "3" ∷ codes "4" ∷ codes "5" ∷ []

abbrev group : Str → Str → Str → ℕ → TestGroup ℕ
group id first second score = record {
  id = id;
  process = no_settings;
  tests = record { query = first ∷ second ∷ []; order = numeric; continue_condition = while_ok };
  dependency = [];
  score = score;
}

abbrev groups : Dict Str (TestGroup ℕ)
groups =
    (codes "a", group (codes "a") (codes "1") (codes "2") 0)
    ∷ (codes "b", group (codes "b") (codes "3") (codes "4") 5)
    ∷ []

groups_read : read_tests values two_data section_ ≡ ok groups
unfolding read_tests check_data_set init_groups init_group set_values set_value after_prefix
    is_blank drop_blank change_group declare_group parse_score test_order contains list_Eq nat_Eq
    str_lt
groups_read = refl

read_tests-AreGroups_example :
    (check_data_set two_data ≡ ok tt)
    × AreGroups values (λ id. declares id section_) (λ id. mentions id section_) groups
read_tests-AreGroups_example = read_tests-AreGroups values two_data section_ groups groups_read

section_declares : (id : Str) → mentions id section_ ≡ true → declares id section_ ≡ true
unfolding mentions declares is_value_key is_key after_prefix
section_declares id h = ground arith

abbrev profile : List (TestGroup ℕ)
profile = all_groups values five_tests section_ no_settings groups while_ok

profile_read : read_profiles values five_tests section_ no_settings groups ≡ ok profile
unfolding read_profiles test_continue_condition get_or lookup list_Eq nat_Eq
profile_read = refl

read_profiles-IsProfile_example : IsProfile values five_tests groups profile
read_profiles-IsProfile_example =
    read_profiles-IsProfile values two_data five_tests section_ no_settings groups profile
      groups_read section_declares profile_read

-- `1.in` and `1.out`, of which the output is binary.
abbrev two_files : List DirectoryEntry
two_files =
    record { filename = codes "1.in"; is_regular_file = true }
    ∷ record { filename = codes "1.out"; is_regular_file = true }
    ∷ []

abbrev parse_type : Str → Option TestDataType
parse_type s = if s == codes "binary" then some binary else none

abbrev binary_output : List (Str × Str)
binary_output = (codes "data_out", codes "binary") ∷ []

abbrev one_stored : ListStorage
one_stored = record {
  default_data_type = text;
  tests = (codes "1", (codes "out", codes "1.out") ∷ (codes "in", codes "1.in") ∷ []) ∷ [];
  text_data_set = codes "in" ∷ [];
}

files_stored : make_tests parse_type two_files binary_output ≡ ok one_stored
unfolding make_tests collect_files split_name cut put_before add_file add_tests of_storage make_data
    override_types override_type after_prefix add_test set_each set_data_type change_type keys
    insert erase assign lookup contains list_Eq nat_Eq
files_stored = refl

make_tests-AreStored_example :
    Reached one_stored
    × All
        (λ entry.
          (p : Str × Str) × (entry.filename ≡ p.0 ++ (b'.' ∷ p.1)) × IsStored one_stored p.0 p.1)
        two_files
make_tests-AreStored_example =
    make_tests-AreStored parse_type two_files binary_output one_stored files_stored
