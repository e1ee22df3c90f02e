-- ===== src/Curl/HeaderSet.antt =====
-- bunsan/curl/src/http/header_set.cpp and bunsan/curl/include/bunsan/curl/http/header_set.hpp: the
-- headers of a response by their names, and the iterator over all their lines.
pub mod Merge
pub mod Plain
use bacs.Base.{
  ℕ, zero, suc, Str, Bool, true, false, Option, none, some, List, [], ◌∷◌, ◌++◌, Result, ok, err,
  ◌>>=◌, ◌==◌, list_Eq, nat_Eq, if◌then◌else◌,
}
use bacs.Curl.Header.{Header, HeaderText, HttpError, merge, make_name, plain_headers}

-- The hashed index, as the headers in the order in which they were inserted: the order of a hashed
-- index is not specified.
abbrev pub HeaderSet : Type 0
HeaderSet = List Header

-- `index().find`
unfoldable pub find_key : Str → HeaderSet → Option Header
find_key key [] = none
find_key key (h ∷ set) = elim (h.name == key) [ true ↦ some h | false ↦ find_key key set ]

-- `index().modify` of the header with the key.
unfoldable pub modify :
    Str → (Header → Result HttpError Header) → HeaderSet → Result HttpError HeaderSet
modify key change [] = ok []
modify key change (h ∷ set) = elim (h.name == key) [
  | true ↦ change h >>= (λ h'. ok (h' ∷ set))
  | false ↦ modify key change set >>= (λ set'. ok (h ∷ set'))
]

unfoldable pub merge_insert : Header → HeaderSet → Result HttpError HeaderSet
unfolding find_key modify merge
merge_insert h set = elim (find_key h.name set) [
  | some found ↦ modify h.name (λ hdr. merge hdr h) set
  | none ↦ ok (set ++ h ∷ [])
]

-- `index().erase`
unfoldable pub erase_key : Str → HeaderSet → HeaderSet
erase_key key [] = []
erase_key key (h ∷ set) = elim (h.name == key) [ true ↦ set | false ↦ h ∷ erase_key key set ]

module _ (text : HeaderText) where
  unfoldable pub erase : Str → HeaderSet → HeaderSet
  unfolding erase_key
  erase name = erase_key (make_name text name)

  unfoldable pub find : Str → HeaderSet → Option Header
  unfolding find_key
  find name = find_key (make_name text name)

-- plain_const_iterator: the headers from m_iterator1_begin on, and the lines of the first of them from
-- m_iterator2_begin on.
pub record PlainIterator : Type 0 where
  pub outer : List Header
  pub inner : List Str

abbrev pub is_end : PlainIterator → Bool
is_end i = elim i.outer [ [] ↦ true | h ∷ rest ↦ false ]

abbrev pub is_inner_end : PlainIterator → Bool
is_inner_end i = elim i.inner [ [] ↦ true | s ∷ rest ↦ false ]

-- propagate at the headers; the inner iterators stay as they are at the end.
unfoldable pub propagate : List Header → List Str → PlainIterator
unfolding plain_headers
propagate [] inner = record { outer = []; inner = inner }
propagate (h ∷ rest) inner = record { outer = h ∷ rest; inner = plain_headers h }

-- The loop of normalize.
unfoldable pub normalize : List Header → List Str → PlainIterator
unfolding plain_headers
normalize [] inner = record { outer = []; inner = inner }
normalize (h ∷ rest) (s ∷ inner) = record { outer = h ∷ rest; inner = s ∷ inner }
normalize (h ∷ []) [] = record { outer = []; inner = [] }
normalize (h ∷ g ∷ rest) [] = normalize (g ∷ rest) (plain_headers g)

-- The iterator from the beginning of the set to its end.
unfoldable pub begin_plain : HeaderSet → PlainIterator
unfolding propagate normalize
begin_plain set = let i = propagate set [] in normalize i.outer i.inner

-- `none` where an iterator past the end would be moved on.
unfoldable pub increment : PlainIterator → Option PlainIterator
unfolding normalize
increment i = elim i.outer [
  | [] ↦ some i
  | h ∷ rest ↦ elim i.inner [ [] ↦ none | s ∷ inner ↦ some (normalize (h ∷ rest) inner) ]
]

-- `none` where an iterator past the end would be read.
unfoldable pub dereference : PlainIterator → Option Str
dereference i = elim i.inner [ [] ↦ none | s ∷ inner ↦ some s ]

-- A loop from an iterator to the end; `none` also where the fuel does not suffice.
unfoldable pub collect : ℕ → PlainIterator → Option (List Str)
unfolding increment dereference
collect zero i = elim (is_end i) [ true ↦ some [] | false ↦ none ]
collect (suc n) i = elim (is_end i) [
  | true ↦ some []
  | false ↦ elim (dereference i) [
    | none ↦ none
    | some s ↦ elim (increment i) [
      | none ↦ none
      | some j ↦ elim (collect n j) [ none ↦ none | some rest ↦ some (s ∷ rest) ]
    ]
  ]
]
