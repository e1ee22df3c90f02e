-- ===== src/Problem/Simple0.antt =====
-- bacs/problem/src/single/drivers/simple0/driver.cpp: how the configuration of a problem becomes groups
-- of tests. The sections of the configuration are lists of keys and values. The settings and the profile
-- that it makes of the groups are in Sections.
pub mod Sections
pub mod Sorted
pub mod Groups
pub mod Read
pub mod Profile
pub mod Storage
pub mod Collected
pub mod Stored
use bacs.Base.{
  ℕ, Str, Bool, true, false, not, ◌&&◌, Option, none, some, List, [], ◌∷◌, all, length, Result, ok,
  err, ◌>>=◌, ◌==◌, contains, list_Eq, nat_Eq, codes, leb, nat_eq, if◌then◌else◌,
}
use bacs.Base.Dict.{Dict}
use bacs.Pm.Entry.{str_lt}

pub data Order : Type 0 where
  identity numeric lexicographical : Order

pub data ContinueCondition : Type 0 where
  always while_ok : ContinueCondition

pub data DriverError : Type 0 where
  test_no_in_data test_unknown_data empty_group_id invalid_continue_condition bad_value :
      DriverError

pub record TestSequence : Type 0 where
  pub query : List Str
  pub order : Order
  pub continue_condition : ContinueCondition

pub data Permission : Type 0 where
  read write execute : Permission

pub data Stream : Type 0 where
  stdin stdout stderr : Stream

-- `path` is the text that path_convert cuts into its elements.
pub record File : Type 0 where
  pub id : Str
  pub permission : List Permission
  pub init : Str
  pub path : Option Str

pub record Settings : Type 0 where
  pub time_limit : Option ℕ
  pub memory_limit : Option ℕ
  pub output_limit : Option ℕ
  pub real_time_limit : Option ℕ
  pub file : List File
  pub redirection : List (Stream × Str)

-- A new message of this type.
abbrev pub no_settings : Settings
no_settings = record {
  time_limit = none;
  memory_limit = none;
  output_limit = none;
  real_time_limit = none;
  file = [];
  redirection = [];
}

-- What the driver leaves to others: the parsers of values (lexical_cast, and resource::parse with its
-- numbers of floating point), and `split` at white space with token_compress_on.
pub record Values (Score : Type 0) : Type 0 where
  pub no_score : Score
  pub score : Str → Option Score
  pub time_millis : Str → Option ℕ
  pub memory_bytes : Str → Option ℕ
  pub split : Str → List Str

pub record TestGroup (Score : Type 0) : Type 0 where
  pub id : Str
  pub process : Settings
  pub tests : TestSequence
  pub dependency : List Str
  pub score : Score

abbrev pub is_digit : ℕ → Bool
is_digit c = leb 48 c && leb c 57

abbrev pub only_digits : Str → Bool
only_digits id = all is_digit id

-- The loop ends at the first name that is not of digits only.
unfoldable pub test_order : List Str → Order
test_order tests = if all only_digits tests then numeric else lexicographical

-- TestSequence_ContinueCondition_Parse
unfoldable pub test_continue_condition : Str → Result DriverError ContinueCondition
test_continue_condition s =
    if s == codes "ALWAYS"
    then ok always
    else if s == codes "WHILE_OK"
    then ok while_ok
    else err invalid_continue_condition

-- `starts_with(key, prefix)`, and `key.substr(prefix.size())`.
unfoldable pub after_prefix : Str → Str → Option Str
after_prefix [] key = some key
after_prefix (c ∷ prefix) [] = none
after_prefix (c ∷ prefix) (d ∷ key) =
    let rest = after_prefix prefix key in if nat_eq c d then rest else none

abbrev pub group_prefix : Str
group_prefix = codes "group_"

abbrev pub score_prefix : Str
score_prefix = codes "score_"

abbrev pub continue_condition_prefix : Str
continue_condition_prefix = codes "continue_condition_"

unfoldable pub is_blank : Str → Bool
is_blank [] = true
is_blank (c ∷ s) = false

-- `if (test_ids.size() == 1 && test_ids[0].empty()) test_ids.clear()`
unfoldable pub drop_blank : List Str → List Str
drop_blank [] = []
drop_blank ([] ∷ []) = []
drop_blank ([] ∷ t ∷ ts) = [] ∷ t ∷ ts
drop_blank ((c ∷ s) ∷ ts) = (c ∷ s) ∷ ts

-- The check of the data set. A set has no element twice.
unfoldable pub check_data_set : List Str → Result DriverError Unit
check_data_set data_set =
    if not (contains (codes "in") data_set)
    then err test_no_in_data
    else if not (nat_eq (length data_set) (if contains (codes "out") data_set then 2 else 1))
    then err test_unknown_data
    else ok tt

module _ {Score : Type 0} (values : Values Score) where
  abbrev pub new_group : TestGroup Score
  new_group = record {
    id = [];
    process = no_settings;
    tests = record { query = []; order = identity; continue_condition = always };
    dependency = [];
    score = values.no_score;
  }

  -- `m_test_groups[group_id]` is changed by `f`: the map is sorted by its keys.
  unfoldable pub change_group :
      Str
      → (TestGroup Score → TestGroup Score)
      → Dict Str (TestGroup Score)
      → Dict Str (TestGroup Score)
  change_group k f [] = (k, f new_group) ∷ []
  change_group k f ((j, g) ∷ groups) =
      let rest = change_group k f groups in
      if k == j
      then (j, f g) ∷ groups
      else if str_lt k j
      then (k, f new_group) ∷ (j, g) ∷ groups
      else (j, g) ∷ rest

  -- What a key `group_...` makes of its group.
  unfoldable pub declare_group : Str → Str → TestGroup Score → TestGroup Score
  unfolding drop_blank test_order
  declare_group group_id tests g =
      let test_ids = drop_blank (values.split tests) in
      record g {
        id = group_id;
        tests = record {
          query = test_ids;
          order = test_order test_ids;
          continue_condition = while_ok;
        };
      }

  -- The first loop over the section, for one key and for all.
  unfoldable pub init_group :
      Str → Str → Dict Str (TestGroup Score) → Result DriverError (Dict Str (TestGroup Score))
  unfolding after_prefix is_blank change_group declare_group
  init_group key value groups = elim (after_prefix group_prefix key) [
    | none ↦ ok groups
    | some group_id ↦
        if is_blank group_id
        then err empty_group_id
        else ok (change_group group_id (declare_group group_id value) groups)
  ]

  unfoldable pub init_groups :
      List (Str × Str)
      → Dict Str (TestGroup Score)
      → Result DriverError (Dict Str (TestGroup Score))
  unfolding init_group
  init_groups [] groups = ok groups
  init_groups ((key, value) ∷ section_) groups =
      init_group key value groups >>= init_groups section_

  -- The second loop.
  unfoldable pub parse_score : Str → Result DriverError Score
  parse_score s = elim (values.score s) [ none ↦ err bad_value | some n ↦ ok n ]

  abbrev pub set_score : Score → TestGroup Score → TestGroup Score
  set_score n g = record g { score = n }

  abbrev pub set_continue_condition : ContinueCondition → TestGroup Score → TestGroup Score
  set_continue_condition c g = record g { tests = record g.tests { continue_condition = c } }

  unfoldable pub set_value :
      Str → Str → Dict Str (TestGroup Score) → Result DriverError (Dict Str (TestGroup Score))
  unfolding after_prefix is_blank change_group parse_score test_continue_condition
  set_value key value groups = elim (after_prefix score_prefix key) [
    | some group_id ↦
        if is_blank group_id
        then err empty_group_id
        else parse_score value >>= (λ n. ok (change_group group_id (set_score n) groups))
    | none ↦ elim (after_prefix continue_condition_prefix key) [
      | none ↦ ok groups
      | some group_id ↦
          if is_blank group_id
          then err empty_group_id
          else test_continue_condition value
            >>= (λ c. ok (change_group group_id (set_continue_condition c) groups))
    ]
  ]

  unfoldable pub set_values :
      List (Str × Str)
      → Dict Str (TestGroup Score)
      → Result DriverError (Dict Str (TestGroup Score))
  unfolding set_value
  set_values [] groups = ok groups
  set_values ((key, value) ∷ section_) groups = set_value key value groups >>= set_values section_

  -- read_tests for the data set of the tests and the section `[tests]`.
  unfoldable pub read_tests :
      List Str → List (Str × Str) → Result DriverError (Dict Str (TestGroup Score))
  unfolding check_data_set init_groups set_values
  read_tests data_set section_ =
      check_data_set data_set >>= (λ u. init_groups section_ []) >>= set_values section_
