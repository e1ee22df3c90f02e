-- ===== src/Fnmatch/Grammar.antt =====
-- The patterns of bunsan/common/src/fnmatch.cpp by their parts, and the regular expressions of these.
use bacs.Base.{ℕ, ◌≡◌, Str, Bool, false, ◌||◌, List, [], ◌∷◌, ◌++◌, nat_eq, if◌then◌else◌}
use bacs.Fnmatch.{star, question, bracket, closing, exclamation, caret, backslash, dot, literal}

-- The parts of a pattern: `*`, `?`, a character, and a choice by its first character and the others,
-- which may begin with `!`.
pub data Token : Type 0 where
  any_text any_character : Token
  character : ℕ → Token
  one_of none_of : ℕ → Str → Token

unfoldable pub has : ℕ → Str → Bool
has c [] = false
has c (d ∷ s) = nat_eq d c || has c s

-- No character stands for something else: in a choice only the first may be `]`.
unfoldable pub IsToken : Token → Type 0
unfolding has
IsToken any_text = Unit
IsToken any_character = Unit
IsToken (character c) =
    (nat_eq c star ≡ false) × (nat_eq c question ≡ false) × (nat_eq c bracket ≡ false)
IsToken (one_of c rest) = (nat_eq c exclamation ≡ false) × (has closing rest ≡ false)
IsToken (none_of c rest) = has closing rest ≡ false

unfoldable pub AreTokens : List Token → Type 0
AreTokens [] = Unit
AreTokens (t ∷ ts) = IsToken t × AreTokens ts

-- The pattern.
unfoldable pub print : Token → Str
print any_text = star ∷ []
print any_character = question ∷ []
print (character c) = c ∷ []
print (one_of c rest) = bracket ∷ c ∷ rest ++ closing ∷ []
print (none_of c rest) = bracket ∷ exclamation ∷ c ∷ rest ++ closing ∷ []

unfoldable pub print_all : List Token → Str
unfolding print
print_all [] = []
print_all (t ∷ ts) = print t ++ print_all ts

-- A character of a choice, with a backslash before one that the regular expression would read otherwise.
unfoldable pub escaped : Bool → ℕ → Str
escaped special c = if special then backslash ∷ c ∷ [] else c ∷ []

unfoldable pub escaped_all : Str → Str
unfolding escaped
escaped_all [] = []
escaped_all (c ∷ cs) = escaped (nat_eq c backslash) c ++ escaped_all cs

-- The regular expression.
unfoldable pub regex : (ℕ → Bool) → Token → Str
unfolding literal escaped escaped_all
regex is_alnum any_text = dot ∷ star ∷ []
regex is_alnum any_character = dot ∷ []
regex is_alnum (character c) = literal is_alnum c
regex is_alnum (one_of c rest) =
    bracket ∷ (escaped (nat_eq c caret || nat_eq c backslash) c ++ escaped_all rest) ++ closing ∷ []
regex is_alnum (none_of c rest) = bracket ∷ (caret ∷ escaped_all (c ∷ rest)) ++ closing ∷ []

unfoldable pub regex_all : (ℕ → Bool) → List Token → Str
unfolding regex
regex_all is_alnum [] = []
regex_all is_alnum (t ∷ ts) = regex is_alnum t ++ regex_all is_alnum ts
