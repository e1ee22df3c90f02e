-- ===== src/Problem/Matcher.antt =====
-- bacs/problem/src/single/test/matcher.cpp: which tests a query is about; with the fnmatcher of
-- bunsan/common/src/fnmatch.cpp.
use bacs.Base.{
  ℕ, Str, Bool, true, false, Option, none, some, List, [], ◌∷◌, Result, ok, err, ◌>>=◌, ◌==◌,
  list_Eq, nat_Eq,
}
use bacs.Fnmatch.{translate_to_regex}

pub data MatcherError : Type 0 where
  matcher_not_set bad_regex : MatcherError

-- The flags of a wildcard and of a regular expression, and the query.
pub data Flag : Type 0 where
  ignore_case : Flag
  unknown_flag : ℕ → Flag

pub data TestQuery : Type 0 where
  id : Str → TestQuery
  wildcard regex : Str → List Flag → TestQuery
  not_set : TestQuery

-- `boost::regex`, with the two grammars that the program names, `icase` as a Boolean, and `regex_match`;
-- an expression that is none has no value. `std::isalnum`, too.
pub data Grammar : Type 0 where
  ecma_script normal : Grammar

pub record RegexEngine : Type 1 where
  pub Regex : Type 0
  pub compile : Grammar → Bool → Str → Option Regex
  pub regex_match : Regex → Str → Bool
  pub is_alnum : ℕ → Bool

-- `flags_ |= icase` for every such flag.
unfoldable pub icase_of : Bool → List Flag → Bool
icase_of icase [] = icase
icase_of icase (ignore_case ∷ flags) = icase_of true flags
icase_of icase (unknown_flag n ∷ flags) = icase_of icase flags

module _ (engine : RegexEngine) where
  pub data Matcher : Type 0 where
    match_id : Str → Matcher
    match_wildcard match_regex : engine.Regex → Matcher

  unfoldable pub or_bad_regex : Option engine.Regex → Result MatcherError engine.Regex
  or_bad_regex none = err bad_regex
  or_bad_regex (some r) = ok r

  unfoldable pub make_fnmatcher : Str → Bool → Result MatcherError engine.Regex
  unfolding or_bad_regex translate_to_regex
  make_fnmatcher pattern_ icase =
      or_bad_regex (engine.compile ecma_script icase (translate_to_regex engine.is_alnum pattern_))

  unfoldable pub make_query : TestQuery → Result MatcherError Matcher
  unfolding make_fnmatcher or_bad_regex icase_of
  make_query (id test_id) = ok (match_id test_id)
  make_query (wildcard value flags) =
      make_fnmatcher value (icase_of false flags) >>= (λ r. ok (match_wildcard r))
  make_query (regex value flags) =
      or_bad_regex (engine.compile normal (icase_of false flags) value)
      >>= (λ r. ok (match_regex r))
  make_query not_set = err matcher_not_set

  unfoldable pub match : Matcher → Str → Bool
  match (match_id id_) test_id = test_id == id_
  match (match_wildcard r) test_id = engine.regex_match r test_id
  match (match_regex r) test_id = engine.regex_match r test_id
