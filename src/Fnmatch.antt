-- ===== src/Fnmatch.antt =====
-- bunsan/common/src/fnmatch.cpp: file name patterns, translated to regular expressions.
pub mod Grammar
pub mod Tokens
pub mod Unclosed
use bacs.Base.{ℕ, Str, Bool, true, false, ◌||◌, List, [], ◌∷◌, ◌++◌, nat_eq, if◌then◌else◌}

-- `state_type`; nothing sets the state `end`.
pub data State : Type 0 where
  text in_choice_first in_choice_second in_choice_any end_ : State

pub record Parser : Type 0 where
  pub result : Str
  pub choice : Str
  pub state : State

abbrev pub star : ℕ
star = 42

abbrev pub question : ℕ
question = 63

abbrev pub bracket : ℕ
bracket = 91

abbrev pub closing : ℕ
closing = 93

abbrev pub exclamation : ℕ
exclamation = 33

abbrev pub caret : ℕ
caret = 94

abbrev pub backslash : ℕ
backslash = 92

abbrev pub dot : ℕ
dot = 46

-- `std::isalnum` is a parameter.
unfoldable pub literal : (ℕ → Bool) → ℕ → Str
literal is_alnum c = if is_alnum c then c ∷ [] else backslash ∷ c ∷ []

unfoldable pub in_text : (ℕ → Bool) → ℕ → Parser → Parser
unfolding literal
in_text is_alnum c p =
    if nat_eq c star
    then record p { result = p.result ++ dot ∷ star ∷ [] }
    else if nat_eq c question
    then record p { result = p.result ++ dot ∷ [] }
    else if nat_eq c bracket
    then record p { choice = []; state = in_choice_first }
    else record p { result = p.result ++ literal is_alnum c }

unfoldable pub at_first : ℕ → Parser → Parser
at_first c p = record p {
  choice = p.choice ++ c ∷ [];
  state = if nat_eq c exclamation then in_choice_second else in_choice_any;
}

unfoldable pub at_second : ℕ → Parser → Parser
at_second c p = record p { choice = p.choice ++ c ∷ []; state = in_choice_any }

-- The characters of a choice after the first.
unfoldable pub commit_rest : Str → Str
commit_rest [] = []
commit_rest (u ∷ us) = (if nat_eq u backslash then backslash ∷ u ∷ [] else u ∷ []) ++ commit_rest us

unfoldable pub commit_first : ℕ → Str
commit_first u =
    if nat_eq u exclamation
    then caret ∷ []
    else if nat_eq u caret || nat_eq u backslash
    then backslash ∷ u ∷ []
    else u ∷ []

unfoldable pub commit_choice : Str → Str
unfolding commit_first commit_rest
commit_choice [] = []
commit_choice (u ∷ us) = commit_first u ++ commit_rest us

unfoldable pub in_any : ℕ → Parser → Parser
unfolding commit_choice
in_any c p =
    if nat_eq c closing
    then record p {
      result = p.result ++ (bracket ∷ commit_choice p.choice ++ closing ∷ []);
      state = text;
    }
    else record p { choice = p.choice ++ c ∷ [] }

unfoldable pub feed_in : (ℕ → Bool) → State → ℕ → Parser → Parser
unfolding in_text at_first at_second in_any
feed_in is_alnum text c p = in_text is_alnum c p
feed_in is_alnum in_choice_first c p = at_first c p
feed_in is_alnum in_choice_second c p = at_second c p
feed_in is_alnum in_choice_any c p = in_any c p
feed_in is_alnum end_ c p = p

-- The call operator of the parser.
unfoldable pub feed : (ℕ → Bool) → ℕ → Parser → Parser
unfolding feed_in
feed is_alnum c p = feed_in is_alnum p.state c p

unfoldable pub feed_all : (ℕ → Bool) → Str → Parser → Parser
unfolding feed
feed_all is_alnum [] p = p
feed_all is_alnum (c ∷ cs) p = feed_all is_alnum cs (feed is_alnum c p)

-- An unclosed choice: its characters are parsed again, as they were when the loop over them began.
unfoldable pub reparse : (ℕ → Bool) → Parser → Parser
unfolding feed_all
reparse is_alnum p =
    feed_all is_alnum p.choice
      (record p { result = p.result ++ backslash ∷ bracket ∷ []; state = text })

unfoldable pub finish_in : (ℕ → Bool) → State → Parser → Str
unfolding reparse
finish_in is_alnum text p = p.result
finish_in is_alnum in_choice_first p = (reparse is_alnum p).result
finish_in is_alnum in_choice_second p = (reparse is_alnum p).result
finish_in is_alnum in_choice_any p = (reparse is_alnum p).result
finish_in is_alnum end_ p = p.result

unfoldable pub finish : (ℕ → Bool) → Parser → Str
unfolding finish_in
finish is_alnum p = finish_in is_alnum p.state p

unfoldable pub translate_to_regex : (ℕ → Bool) → Str → Str
unfolding feed_all finish
translate_to_regex is_alnum pattern_ =
    finish is_alnum (feed_all is_alnum pattern_ (record { result = []; choice = []; state = text }))
