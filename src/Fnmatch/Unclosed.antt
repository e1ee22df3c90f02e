-- ===== src/Fnmatch/Unclosed.antt =====
-- A `[` that nothing closes, in the patterns of bunsan/common/src/fnmatch.cpp.
use bacs.Base.{
  ℕ, ◌≡◌, refl, sym, ◌∙◌, ap, Str, Bool, true, false, List, [], ◌∷◌, ◌++◌, arith, append_assoc,
  append-nil, nat_eq, if◌then◌else◌,
}
use bacs.Fnmatch.{
  text, in_choice_first, in_choice_second, in_choice_any, star, question, bracket, closing,
  exclamation, backslash, dot, literal, in_text, at_first, at_second, in_any, feed_in, feed,
  feed_all, finish, finish_in, reparse, translate_to_regex,
}
use bacs.Fnmatch.Grammar.{Token, has, AreTokens, print_all, regex_all}
use bacs.Fnmatch.Tokens.{feed_all-append, feed_all-choice, feed_all-print_all}

-- What follows a `[` that nothing closes: no `]`, but for the first character of the choice.
unfoldable pub IsUnclosed : Str → Type 0
unfolding has
IsUnclosed [] = Unit
IsUnclosed (c ∷ []) = Unit
IsUnclosed (c ∷ d ∷ rest) =
    (has closing rest ≡ false) × (nat_eq c exclamation ≡ false → nat_eq d closing ≡ false)

-- The translation of a text up to its first `[`.
unfoldable pub text_before : (ℕ → Bool) → Str → Str
unfolding literal
text_before is_alnum [] = []
text_before is_alnum (c ∷ s) =
    let rest = text_before is_alnum s in
    if nat_eq c star
    then dot ∷ star ∷ rest
    else if nat_eq c question
    then dot ∷ rest
    else if nat_eq c bracket
    then []
    else literal is_alnum c ++ rest

-- Nothing closes the first `[`.
unfoldable IsOpen : Str → Type 0
IsOpen [] = Unit
IsOpen (c ∷ s) = (nat_eq c bracket ≡ true → has closing s ≡ false) × IsOpen s

has-IsOpen : (s : Str) → has closing s ≡ false → IsOpen s
unfolding has IsOpen
has-IsOpen [] h = tt
has-IsOpen (c ∷ s) h = (λ _. ground arith, has-IsOpen s (ground arith))

IsUnclosed-IsOpen : (s : Str) → IsUnclosed s → IsOpen s
unfolding IsUnclosed IsOpen has
IsUnclosed-IsOpen [] h = tt
IsUnclosed-IsOpen (c ∷ []) h = (λ _. refl, tt)
IsUnclosed-IsOpen (c ∷ d ∷ rest) (h, e) = (λ b. ground arith, ((λ _. h), has-IsOpen rest h))

module _ (is_alnum : ℕ → Bool) where
  -- Without a `]` a choice adds nothing to the result.
  result-in_choice_any :
      (s choice result : Str)
      → has closing s ≡ false
      → (feed_all is_alnum s
          (record { result = result; choice = choice; state = in_choice_any })).result
        ≡ result
  result-in_choice_any s choice result h =
      ap (λ p. p.result) (feed_all-choice is_alnum s choice result h)

  result-in_choice_second :
      (s choice result : Str)
      → has closing s ≡ false
      → (feed_all is_alnum s
          (record { result = result; choice = choice; state = in_choice_second })).result
        ≡ result
  unfolding feed_all feed feed_in at_second has
  result-in_choice_second [] choice result h = refl
  result-in_choice_second (c ∷ s) choice result h =
      result-in_choice_any s (choice ++ c ∷ []) result (ground arith)

  result-in_choice_first :
      (s choice result : Str)
      → has closing s ≡ false
      → (feed_all is_alnum s
          (record { result = result; choice = choice; state = in_choice_first })).result
        ≡ result
  unfolding feed_all feed feed_in at_first has
  result-in_choice_first [] choice result h = refl
  result-in_choice_first (c ∷ s) choice result h = ground (
    arith,
    result-in_choice_any s (choice ++ c ∷ []) result,
    result-in_choice_second s (choice ++ c ∷ []) result,
  )

  result-text :
      (s choice result : Str)
      → IsOpen s
      → (feed_all is_alnum s (record { result = result; choice = choice; state = text })).result
        ≡ result ++ text_before is_alnum s
  unfolding feed_all feed feed_in in_text text_before IsOpen
  result-text [] choice result h = sym (append-nil result)
  result-text (c ∷ s) choice result (h, hs) = ground (
    arith,
    result-in_choice_first s [] result,
    append-nil result,
    result-text s choice (result ++ dot ∷ star ∷ []) hs,
    append_assoc result (dot ∷ star ∷ []) (text_before is_alnum s),
    result-text s choice (result ++ dot ∷ []) hs,
    append_assoc result (dot ∷ []) (text_before is_alnum s),
    result-text s choice (result ++ literal is_alnum c) hs,
    append_assoc result (literal is_alnum c) (text_before is_alnum s),
  )

  at_first-choice :
      (c : ℕ) (choice result : Str)
      → at_first c (record { result = result; choice = choice; state = in_choice_first }) ≡ record {
        result = result;
        choice = choice ++ c ∷ [];
        state = if nat_eq c exclamation then in_choice_second else in_choice_any;
      }
  unfolding at_first
  at_first-choice c choice result = refl

  two_characters :
      (c d : ℕ) (b : Bool) (result : Str)
      → (b ≡ false → nat_eq d closing ≡ false)
      → feed is_alnum d (record {
        result = result;
        choice = c ∷ [];
        state = if b then in_choice_second else in_choice_any;
      })
        ≡ record { result = result; choice = c ∷ d ∷ []; state = in_choice_any }
  unfolding feed feed_in at_second in_any
  two_characters c d true result e = refl
  two_characters c d false result e = let n = e refl in ground arith

  one_character :
      (c : ℕ) (b : Bool) (result : Str)
      → finish is_alnum (record {
        result = result;
        choice = c ∷ [];
        state = if b then in_choice_second else in_choice_any;
      })
        ≡ (feed is_alnum c (record {
          result = result ++ backslash ∷ bracket ∷ [];
          choice = c ∷ [];
          state = text;
        })).result
  unfolding finish finish_in reparse feed_all
  one_character c true result = refl
  one_character c false result = refl

  finish-unclosed :
      (s result : Str)
      → IsUnclosed s
      → finish is_alnum
          (feed_all is_alnum s (record { result = result; choice = []; state = in_choice_first }))
        ≡ (feed_all is_alnum s (record {
          result = result ++ backslash ∷ bracket ∷ [];
          choice = s;
          state = text;
        })).result
  unfolding feed_all feed feed_in at_first finish finish_in reparse IsUnclosed
  finish-unclosed [] result h = refl
  finish-unclosed (c ∷ []) result h = one_character c (nat_eq c exclamation) result
  finish-unclosed (c ∷ d ∷ rest) result (h, e) =
      ap (λ p. finish is_alnum (feed_all is_alnum rest p))
        (two_characters c d (nat_eq c exclamation) result e)
      ∙ ap (finish is_alnum) (feed_all-choice is_alnum rest (c ∷ d ∷ []) result h)

  -- Where nothing closes a `[`, it stands for itself, and what follows it is translated as a text, but
  -- only up to the next `[`: that one and all that follows it do not appear in the regular expression.
  pub translate_to_regex-unclosed :
      (ts : List Token) (s : Str)
      → AreTokens ts
      → IsUnclosed s
      → translate_to_regex is_alnum (print_all ts ++ bracket ∷ s)
        ≡ regex_all is_alnum ts ++ backslash ∷ bracket ∷ text_before is_alnum s
  unfolding translate_to_regex feed_all feed feed_in in_text
  translate_to_regex-unclosed ts s h u =
      let result = regex_all is_alnum ts in
      let (choice, p) = feed_all-print_all is_alnum ts [] [] h in
      ap (finish is_alnum) (
        feed_all-append is_alnum (print_all ts) (bracket ∷ s)
          (record { result = []; choice = []; state = text })
        ∙ ap (feed_all is_alnum (bracket ∷ s)) p)
      ∙ finish-unclosed s result u
      ∙ result-text s s (result ++ backslash ∷ bracket ∷ []) (IsUnclosed-IsOpen s u)
      ∙ append_assoc result (backslash ∷ bracket ∷ []) (text_before is_alnum s)
