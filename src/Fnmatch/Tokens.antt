-- ===== src/Fnmatch/Tokens.antt =====
-- The parser of bunsan/common/src/fnmatch.cpp: each part of a pattern is translated for itself.
use bacs.Base.{
  ℕ, ◌≡◌, refl, sym, ◌∙◌, ap, Str, Bool, false, List, [], ◌∷◌, ◌++◌, arith, append_assoc,
  append-nil, nat_eq, if◌then◌else◌,
}
use bacs.Fnmatch.{
  Parser, text, in_choice_first, in_choice_any, bracket, closing, exclamation, backslash, literal,
  in_text, at_first, at_second, commit_rest, commit_first, commit_choice, in_any, feed_in, feed,
  feed_all, finish, finish_in, translate_to_regex,
}
use bacs.Fnmatch.Grammar.{
  Token, any_text, any_character, character, one_of, none_of, has, IsToken, AreTokens, print,
  print_all, escaped, escaped_all, regex, regex_all,
}

module _ (is_alnum : ℕ → Bool) where
  pub feed_all-append :
      (xs ys : Str) (p : Parser)
      → feed_all is_alnum (xs ++ ys) p ≡ feed_all is_alnum ys (feed_all is_alnum xs p)
  unfolding feed_all
  feed_all-append [] ys p = refl
  feed_all-append (x ∷ xs) ys p = feed_all-append xs ys (feed is_alnum x p)

  commit_rest-escaped : (s : Str) → commit_rest s ≡ escaped_all s
  unfolding commit_rest escaped_all escaped
  commit_rest-escaped [] = refl
  commit_rest-escaped (c ∷ s) =
      ap (λ t. (if nat_eq c backslash then backslash ∷ c ∷ [] else c ∷ []) ++ t)
        (commit_rest-escaped s)

  -- A choice collects the characters other than `]`.
  pub feed_all-choice :
      (s choice result : Str)
      → has closing s ≡ false
      → feed_all is_alnum s (record { result = result; choice = choice; state = in_choice_any })
        ≡ record { result = result; choice = choice ++ s; state = in_choice_any }
  unfolding feed_all feed feed_in in_any has
  feed_all-choice [] choice result h =
      ap (λ c. record { result = result; choice = c; state = in_choice_any })
        (sym (append-nil choice))
  feed_all-choice (c ∷ s) choice result h =
      ground (arith, feed_all-choice s (choice ++ c ∷ []) result, append_assoc choice (c ∷ []) s)

  close_choice :
      (c : ℕ) (rest choice result : Str)
      → has closing rest ≡ false
      → feed_all is_alnum
          (rest ++ closing ∷ [])
          (record { result = result; choice = c ∷ choice; state = in_choice_any })
        ≡ record {
          result = result ++ (bracket ∷ commit_choice (c ∷ choice ++ rest) ++ closing ∷ []);
          choice = c ∷ choice ++ rest;
          state = text;
        }
  unfolding feed_all feed feed_in in_any
  close_choice c rest choice result h =
      feed_all-append rest (closing ∷ [])
        (record { result = result; choice = c ∷ choice; state = in_choice_any })
      ∙ ap (feed_all is_alnum (closing ∷ [])) (feed_all-choice rest (c ∷ choice) result h)

  first-any :
      (c : ℕ) (result : Str)
      → nat_eq c exclamation ≡ false
      → at_first c (record { result = result; choice = []; state = in_choice_first })
        ≡ record { result = result; choice = c ∷ []; state = in_choice_any }
  unfolding at_first
  first-any c result h = ground arith

  commit-one_of :
      (c : ℕ) (rest : Str)
      → nat_eq c exclamation ≡ false
      → bracket ∷ commit_choice (c ∷ rest) ++ closing ∷ [] ≡ regex is_alnum (one_of c rest)
  unfolding commit_choice commit_first regex escaped
  commit-one_of c rest h = ground (arith, commit_rest-escaped rest)

  commit-none_of :
      (c : ℕ) (rest : Str)
      → bracket ∷ commit_choice (exclamation ∷ c ∷ rest) ++ closing ∷ []
        ≡ regex is_alnum (none_of c rest)
  unfolding commit_choice commit_first regex
  commit-none_of c rest = ground (arith, commit_rest-escaped (c ∷ rest))

  close_one_of :
      (c : ℕ) (rest result : Str)
      → nat_eq c exclamation ≡ false
      → has closing rest ≡ false
      → feed_all is_alnum
          (rest ++ closing ∷ [])
          (record { result = result; choice = c ∷ []; state = in_choice_any })
        ≡ record {
          result = result ++ regex is_alnum (one_of c rest);
          choice = c ∷ rest;
          state = text;
        }
  close_one_of c rest result e h =
      close_choice c rest [] result h
      ∙ ap (λ r. record { result = result ++ r; choice = c ∷ rest; state = text })
          (commit-one_of c rest e)

  close_none_of :
      (c : ℕ) (rest result : Str)
      → has closing rest ≡ false
      → feed_all is_alnum
          (rest ++ closing ∷ [])
          (record { result = result; choice = exclamation ∷ c ∷ []; state = in_choice_any })
        ≡ record {
          result = result ++ regex is_alnum (none_of c rest);
          choice = exclamation ∷ c ∷ rest;
          state = text;
        }
  close_none_of c rest result h =
      close_choice exclamation rest (c ∷ []) result h
      ∙ ap (λ r. record { result = result ++ r; choice = exclamation ∷ c ∷ rest; state = text })
          (commit-none_of c rest)

  in_text-character :
      (c : ℕ) (p : Parser)
      → IsToken (character c)
      → in_text is_alnum c p ≡ record p { result = p.result ++ literal is_alnum c }
  unfolding in_text IsToken
  in_text-character c p h = ground arith

  feed_all-print :
      (t : Token) (choice result : Str)
      → IsToken t
      → (choice' : Str) × (feed_all is_alnum
            (print t)
            (record { result = result; choice = choice; state = text })
          ≡ record { result = result ++ regex is_alnum t; choice = choice'; state = text })
  unfolding feed_all feed feed_in in_text at_first at_second IsToken print regex
  feed_all-print any_text choice result h = (choice, refl)
  feed_all-print any_character choice result h = (choice, refl)
  feed_all-print (character c) choice result h =
      (choice, in_text-character c (record { result = result; choice = choice; state = text }) h)
  feed_all-print (one_of c rest) choice result h = (
    c ∷ rest,
    ap (feed_all is_alnum (rest ++ closing ∷ [])) (first-any c result h.0)
        ∙ close_one_of c rest result h.0 h.1,
  )
  feed_all-print (none_of c rest) choice result h =
      (exclamation ∷ c ∷ rest, close_none_of c rest result h)

  -- After the parts of a pattern the parser stands in the text, whatever follows.
  pub feed_all-print_all :
      (ts : List Token) (choice result : Str)
      → AreTokens ts
      → (choice' : Str) × (feed_all is_alnum
            (print_all ts)
            (record { result = result; choice = choice; state = text })
          ≡ record { result = result ++ regex_all is_alnum ts; choice = choice'; state = text })
  unfolding print_all regex_all AreTokens feed_all
  feed_all-print_all [] choice result h = (
    choice,
    ap (λ r. record { result = r; choice = choice; state = text }) (sym (append-nil result)),
  )
  feed_all-print_all (t ∷ ts) choice result (h, hs) =
      let (choice1, p) = feed_all-print t choice result h in
      let (choice2, q) = feed_all-print_all ts choice1 (result ++ regex is_alnum t) hs in
      (
        choice2,
        feed_all-append (print t) (print_all ts)
              (record { result = result; choice = choice; state = text })
            ∙ ap (feed_all is_alnum (print_all ts)) p
            ∙ q
            ∙ ap (λ r. record { result = r; choice = choice2; state = text })
                (append_assoc result (regex is_alnum t) (regex_all is_alnum ts)),
      )

  -- A pattern in which every choice is closed is translated part by part: `*` and `?` to what matches
  -- any text and any character, a choice to a choice of the same characters, negated if it begins with
  -- `!`, and every other character to itself, with a backslash before it if it is no letter or digit.
  pub translate_to_regex-print_all :
      (ts : List Token)
      → AreTokens ts
      → translate_to_regex is_alnum (print_all ts) ≡ regex_all is_alnum ts
  unfolding translate_to_regex finish finish_in
  translate_to_regex-print_all ts h =
      let (choice, p) = feed_all-print_all ts [] [] h in ap (finish is_alnum) p
