-- ===== src/Tests/Problems.antt =====
-- bacs/problem/src/single/test/list_storage.cpp and bunsan/common/src/fnmatch.cpp: small runs.
use bacs.Base.{ℕ, ◌≡◌, refl, Bool, ltb, List, [], ◌∷◌, ◌++◌, ok, contains, insert, list_Eq, nat_Eq}
use bacs.Base.Dict.{lookup, assign, keys}
use bacs.Problem.ListStorage.{
  ListStorage, TestData, text, empty_storage, add_test, set_data_type, set_each, same_keys,
  is_subset, change_type,
}
use bacs.Problem.ListStorage.Steps.{IsUniform}
use bacs.Problem.ListStorage.Uniform.{Reached, start, added, Reached-IsUniform}
use bacs.Fnmatch.{bracket, backslash, dot, translate_to_regex}
use bacs.Fnmatch.Tokens.{translate_to_regex-print_all}
use bacs.Fnmatch.Grammar.{
  Token, any_text, character, one_of, none_of, AreTokens, IsToken, has, print_all, regex_all,
}
use bacs.Fnmatch.Unclosed.{IsUnclosed, text_before, translate_to_regex-unclosed}

-- A test with an input and an output.
abbrev files : ℕ → TestData
files n = (105 ∷ [], n ∷ 105 ∷ []) ∷ (111 ∷ [], n ∷ 111 ∷ []) ∷ []

abbrev one_test : ListStorage
one_test = record {
  default_data_type = text;
  tests = (1 ∷ [], files 1) ∷ [];
  text_data_set = (111 ∷ []) ∷ (105 ∷ []) ∷ [];
}

abbrev two_tests : ListStorage
two_tests = record one_test { tests = (2 ∷ [], files 2) ∷ (1 ∷ [], files 1) ∷ [] }

add_first : add_test (1 ∷ []) (files 1) (empty_storage text) ≡ ok one_test
unfolding add_test set_each set_data_type change_type contains keys insert assign list_Eq nat_Eq
add_first = refl

add_second : add_test (2 ∷ []) (files 2) one_test ≡ ok two_tests
unfolding add_test same_keys is_subset contains keys lookup assign list_Eq nat_Eq
add_second = refl

one_test-Reached : Reached one_test
one_test-Reached = added (start text) (1 ∷ []) (files 1) one_test add_first

Reached-IsUniform_example : IsUniform two_tests
Reached-IsUniform_example =
    Reached-IsUniform (added one_test-Reached (2 ∷ []) (files 2) two_tests add_second)

-- Of all characters only those above 96 are letters.
abbrev is_letter : ℕ → Bool
is_letter = ltb 96

-- `*.[ab][!c]`
abbrev some_tokens : List Token
some_tokens = any_text ∷ character dot ∷ one_of 97 (98 ∷ []) ∷ none_of 99 [] ∷ []

some_tokens-AreTokens : AreTokens some_tokens
unfolding AreTokens IsToken has
some_tokens-AreTokens = (tt, ((refl, refl, refl), ((refl, refl), (refl, tt))))

translate_to_regex-print_all_example :
    translate_to_regex is_letter (print_all some_tokens) ≡ regex_all is_letter some_tokens
translate_to_regex-print_all_example =
    translate_to_regex-print_all is_letter some_tokens some_tokens-AreTokens

-- `*.[ab][!c]`, and then `[a[b`
translate_to_regex-unclosed_example :
    translate_to_regex is_letter (print_all some_tokens ++ bracket ∷ 97 ∷ bracket ∷ 98 ∷ [])
    ≡ regex_all is_letter some_tokens
      ++ backslash ∷ bracket ∷ text_before is_letter (97 ∷ bracket ∷ 98 ∷ [])
unfolding IsUnclosed has
translate_to_regex-unclosed_example =
    translate_to_regex-unclosed is_letter some_tokens (97 ∷ bracket ∷ 98 ∷ []) some_tokens-AreTokens
      (refl, λ h. refl)

-- The second `[` of `[[` is lost.
two_brackets : translate_to_regex is_letter (bracket ∷ bracket ∷ []) ≡ backslash ∷ bracket ∷ []
unfolding translate_to_regex
two_brackets = refl
