-- ===== src/Boost.antt =====
-- What the code uses of Boost's string algorithms (boost/algorithm/string/split.hpp and join.hpp),
-- as an interface: the operations and their documented behaviour. `split` is
-- `split(out, input, is_delim, token_compress_on)`, `join` is `join(tokens, delim)`.
use bacs.Base.{ℕ, Str, ◌≡◌, ◌≢◌, false, List, [], ◌∷◌, ◌++◌, contains, nat_Eq}

pub record StringAlgorithms : Type 0 where
  pub split : ℕ → Str → List Str
  pub join : List Str → Str → Str

-- The text does not begin with the delimiter.
abbrev pub NoLead : ℕ → Str → Type 0
NoLead d [] = Unit
NoLead d (c ∷ s) = d ≢ c

pub record IsLawful (b : StringAlgorithms) : Type 0 where
  -- A text with no delimiter is one token, an empty text too.
  pub split_token : (d : ℕ) (t : Str) → contains d t ≡ false → b.split d t ≡ t ∷ []
  -- A delimiter ends a token.
  pub split_delim :
      (d : ℕ) (t rest : Str)
      → contains d t ≡ false
      → NoLead d rest
      → b.split d (t ++ d ∷ rest) ≡ t ∷ b.split d rest
  -- Adjacent delimiters are merged.
  pub split_compress :
      (d : ℕ) (t rest : Str)
      → contains d t ≡ false
      → b.split d (t ++ d ∷ d ∷ rest) ≡ b.split d (t ++ d ∷ rest)
  pub join_nil : (d : Str) → b.join [] d ≡ []
  pub join_one : (t d : Str) → b.join (t ∷ []) d ≡ t
  pub join_cons :
      (t u d : Str) (ts : List Str) → b.join (t ∷ u ∷ ts) d ≡ t ++ (d ++ b.join (u ∷ ts) d)
