-- ===== src/Problem/Simple0/Sections.antt =====
-- read_settings and read_profiles of bacs/problem/src/single/drivers/simple0/driver.cpp: the settings of
-- a test from the sections `[resource_limits]` and `[files]`, and the groups of the profile.
use bacs.Base.{
  ℕ, Str, Option, none, some, List, [], ◌∷◌, ◌++◌, Result, ok, err, ◌>>=◌, erase, list_Eq, nat_Eq,
  codes,
}
use bacs.Base.Dict.{Dict, lookup}
use bacs.Problem.Simple0.{
  ContinueCondition, DriverError, bad_value, read, write, Stream, stdin, stdout, File, Settings,
  Values, TestGroup, test_order, test_continue_condition,
}

unfoldable pub erase_all : List Str → List Str → List Str
unfolding erase
erase_all [] set = set
erase_all (id ∷ ids) set = erase_all ids (erase id set)

-- A value of the section `[tests]`, or what stands for it.
unfoldable pub get_or : Str → Dict Str Str → Str → Str
unfolding lookup
get_or key section_ otherwise = elim (lookup key section_) [ none ↦ otherwise | some s ↦ s ]

module _ {Score : Type 0} (values : Values Score) where
  -- An option that may be missing.
  unfoldable pub parse_optional : (Str → Option ℕ) → Option Str → Result DriverError (Option ℕ)
  parse_optional parse none = ok none
  parse_optional parse (some s) = elim (parse s) [ none ↦ err bad_value | some n ↦ ok (some n) ]

  -- A file with a name, or one that a stream is redirected to.
  unfoldable pub redirections : Stream → Str → Option Str → List (Stream × Str)
  redirections stream id none = (stream, id) ∷ []
  redirections stream id (some path) = []

  abbrev pub stdin_of : Option Str → File
  stdin_of path = record {
    id = codes "stdin";
    permission = read ∷ [];
    init = codes "in";
    path = path;
  }

  abbrev pub stdout_of : Option Str → File
  stdout_of path = record {
    id = codes "stdout";
    permission = read ∷ write ∷ [];
    init = [];
    path = path;
  }

  -- read_settings for the sections `[resource_limits]` and `[files]`.
  unfoldable pub read_settings : Dict Str Str → Dict Str Str → Result DriverError Settings
  unfolding lookup parse_optional redirections
  read_settings limits files =
      parse_optional values.time_millis (lookup (codes "time") limits) >>= (λ t.
        parse_optional values.memory_bytes (lookup (codes "memory") limits) >>= (λ m.
          parse_optional values.memory_bytes (lookup (codes "output") limits) >>= (λ o.
            parse_optional values.time_millis (lookup (codes "real_time") limits) >>= (λ r.
              ok (record {
                time_limit = t;
                memory_limit = m;
                output_limit = o;
                real_time_limit = r;
                file =
                    stdin_of (lookup (codes "stdin") files)
                    ∷ stdout_of (lookup (codes "stdout") files)
                    ∷ [];
                redirection =
                    redirections stdin (codes "stdin") (lookup (codes "stdin") files)
                    ++ redirections stdout (codes "stdout") (lookup (codes "stdout") files);
              })))))

  -- add_test_group_dependency
  unfoldable pub add_dependency : Option Str → TestGroup Score → TestGroup Score
  add_dependency none g = g
  add_dependency (some id) g = record g { dependency = g.dependency ++ id ∷ [] }

  -- The groups of the profile, each with the settings and the one before it.
  unfoldable pub link_groups :
      Settings → Option Str → Dict Str (TestGroup Score) → List (TestGroup Score) × Option Str
  unfolding add_dependency
  link_groups settings previous [] = ([], previous)
  link_groups settings previous ((k, g) ∷ groups) =
      let rest = link_groups settings (some k) groups in
      (add_dependency previous (record g { process = settings }) ∷ rest.0, rest.1)

  -- The tests that no group has.
  unfoldable pub unused_tests : Dict Str (TestGroup Score) → List Str → List Str
  unfolding erase_all
  unused_tests [] set = set
  unused_tests ((k, g) ∷ groups) set = unused_tests groups (erase_all g.tests.query set)

  -- `get<std::int64_t>("tests.score", 0)`: also 0 where the value is none.
  unfoldable pub default_score : Option Str → Score
  default_score none = values.no_score
  default_score (some s) = elim (values.score s) [ none ↦ values.no_score | some n ↦ n ]

  -- The group of the tests that no other group has.
  unfoldable pub default_group :
      List Str → Dict Str Str → Settings → ContinueCondition → TestGroup Score
  unfolding test_order default_score lookup
  default_group unused section_ settings c = record {
    id = [];
    process = settings;
    tests = record { query = unused; order = test_order unused; continue_condition = c };
    dependency = [];
    score = default_score (lookup (codes "score") section_);
  }

  unfoldable pub all_groups :
      List Str
      → Dict Str Str
      → Settings
      → Dict Str (TestGroup Score)
      → ContinueCondition
      → List (TestGroup Score)
  unfolding link_groups unused_tests default_group add_dependency
  all_groups test_set section_ settings groups c =
      let linked = link_groups settings none groups in
      linked.0
      ++ add_dependency linked.1 (default_group (unused_tests groups test_set) section_ settings c)
        ∷ []

  -- read_profiles for the names of all tests; `test_set` is a set.
  unfoldable pub read_profiles :
      List Str
      → Dict Str Str
      → Settings
      → Dict Str (TestGroup Score)
      → Result DriverError (List (TestGroup Score))
  unfolding all_groups test_continue_condition get_or
  read_profiles test_set section_ settings groups =
      test_continue_condition (get_or (codes "continue_condition") section_ (codes "WHILE_OK"))
      >>= (λ c. ok (all_groups test_set section_ settings groups c))
