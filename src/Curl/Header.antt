-- ===== src/Curl/Header.antt =====
-- bunsan/curl/src/http/header.cpp and bunsan/curl/include/bunsan/curl/http/header.hpp: a header with one
-- or more values.
use bacs.Base.{
  ℕ, Str, Bool, true, false, Option, none, some, List, [], ◌∷◌, ◌++◌, map, Result, ok, err, ◌==◌,
  list_Eq, nat_Eq, if◌then◌else◌,
}

pub data HttpError : Type 0 where
  header_non_unique_value header_merge_incompatible_name : HttpError
  header_parse_failed status_parse_failed status_header_expected header_without_crlf : HttpError

pub record Header : Type 0 where
  pub name : Str
  pub values : List Str

-- What the headers use of Boost: `to_lower_copy`, the match of the regular expression of header::parse
-- with its groups `name` and `value`, and `quoted`.
pub record HeaderText : Type 0 where
  pub to_lower_copy : Str → Str
  pub general_header : Str → Option (Str × Str)
  pub quoted : Str → Str

abbrev pub colon : ℕ
colon = 58

abbrev pub space : ℕ
space = 32

-- The call operator of header::merger.
unfoldable pub merger : Str → Str → Str
merger name [] = name ++ colon ∷ []
merger name (c ∷ value) = name ++ colon ∷ space ∷ c ∷ value

unfoldable pub plain_headers : Header → List Str
unfolding merger
plain_headers h = map (merger h.name) h.values

unfoldable pub value : Header → Result HttpError Str
value h = elim h.values [
  | [] ↦ err header_non_unique_value
  | v ∷ vs ↦ elim vs [ [] ↦ ok v | w ∷ ws ↦ err header_non_unique_value ]
]

-- merge for a header that is only read.
unfoldable pub merge : Header → Header → Result HttpError Header
merge h g =
    if h.name == g.name
    then ok (record h { values = h.values ++ g.values })
    else err header_merge_incompatible_name

-- merge for a header that is moved from: both of them afterwards.
unfoldable pub merge_moved : Header → Header → Result HttpError (Header × Header)
merge_moved h g =
    if h.name == g.name
    then ok (record h { values = h.values ++ g.values }, record { name = []; values = [] })
    else err header_merge_incompatible_name

module _ (text : HeaderText) where
  abbrev pub make_name : Str → Str
  make_name raw_name = text.to_lower_copy raw_name

  unfoldable pub make_header : Str → List Str → Header
  make_header name values = record { name = make_name name; values = values }

  -- header::parse, for a line without CRLF.
  unfoldable pub header_parse : Str → Result HttpError Header
  unfolding make_header
  header_parse data_ = elim (text.general_header data_) [
    | none ↦ err header_parse_failed
    | some (name, v) ↦ ok (make_header name (v ∷ []))
  ]

  -- The values between the brackets of `operator<<`.
  unfoldable pub print_values : Bool → List Str → Str
  print_values first [] = []
  print_values true (v ∷ vs) = text.quoted v ++ print_values false vs
  print_values false (v ∷ vs) = (44 ∷ space ∷ []) ++ text.quoted v ++ print_values false vs

  -- `operator<<`
  unfoldable pub print_header : Header → Str
  unfolding value print_values
  print_header h =
      h.name
      ++ colon ∷ elim (value h) [
        | err e ↦ space ∷ 91 ∷ print_values true h.values ++ 93 ∷ []
        | ok v ↦ elim v [ [] ↦ [] | c ∷ cs ↦ space ∷ c ∷ cs ]
      ]
