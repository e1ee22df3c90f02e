-- ===== src/Curl/HeaderParser.antt =====
-- bunsan/curl/src/http/header_parser.cpp: the heads of the responses, from the lines that libcurl hands to
-- its callback; with bunsan/curl/src/http/status.cpp and response_head.hpp.
pub mod Blocks
use bacs.Base.{
  ℕ, zero, suc, ◌-◌, Str, Bool, true, false, not, Option, none, some, List, [], ◌∷◌, ◌++◌, length,
  Result, ok, err, ◌>>=◌, ◌==◌, list_Eq, nat_Eq, if◌then◌else◌,
}
use bacs.Curl.Header.{
  Header, HeaderText, HttpError, status_parse_failed, status_header_expected, header_without_crlf,
  header_parse,
}
use bacs.Curl.HttpVersion.{HttpVersion, to_http_version}
use bacs.Curl.HeaderSet.{HeaderSet, merge_insert}

-- `code` is 0 and `reason` empty where the line has none.
pub record Status : Type 0 where
  pub version : HttpVersion
  pub code : ℕ
  pub reason : Str

pub record ResponseHead : Type 0 where
  pub status : Status
  pub headers : HeaderSet

-- The groups of the regular expression of status::parse.
pub record StatusGroups : Type 0 where
  pub major : Str
  pub minor : Str
  pub code : Option Str
  pub reason : Option Str

-- The match of that expression, and `lexical_cast` to a number.
pub record StatusText : Type 0 where
  pub status_header : Str → Option StatusGroups
  pub to_unsigned : Str → Option ℕ

unfoldable pub lexical_cast : StatusText → Str → Result HttpError ℕ
lexical_cast text s = elim (text.to_unsigned s) [ none ↦ err status_parse_failed | some n ↦ ok n ]

-- The exception for the version becomes one of status::parse.
unfoldable pub supported : Option HttpVersion → Result HttpError HttpVersion
supported none = err status_parse_failed
supported (some version) = ok version

-- The code and the reason: a reason alone is an assertion.
unfoldable pub parse_code : StatusText → Option Str → Option Str → Result HttpError (ℕ × Str)
unfolding lexical_cast
parse_code text none reason = ok (0, [])
parse_code text (some code) none = lexical_cast text code >>= (λ c. ok (c, []))
parse_code text (some code) (some reason) = lexical_cast text code >>= (λ c. ok (c, reason))

-- status::parse
unfoldable pub status_parse : StatusText → Str → Result HttpError Status
unfolding lexical_cast parse_code supported to_http_version
status_parse text header = elim (text.status_header header) [
  | none ↦ err status_parse_failed
  | some g ↦ do
    major ← lexical_cast text g.major
    minor ← lexical_cast text g.minor
    version ← supported (to_http_version major minor)
    (code, reason) ← parse_code text g.code g.reason
    ok (record { version = version; code = code; reason = reason })
]

-- Boost's `starts_with` and `ends_with`.
unfoldable pub starts_with : Str → Str → Bool
starts_with s [] = true
starts_with [] (c ∷ prefix) = false
starts_with (d ∷ s) (c ∷ prefix) = elim (c == d) [ true ↦ starts_with s prefix | false ↦ false ]

unfoldable pub ends_with : Str → Str → Bool
ends_with [] suffix = suffix == []
ends_with (c ∷ s) suffix = elim (suffix == (c ∷ s)) [ true ↦ true | false ↦ ends_with s suffix ]

unfoldable pub resize : ℕ → Str → Str
resize zero s = []
resize (suc n) [] = []
resize (suc n) (c ∷ s) = c ∷ resize n s

-- "HTTP/" and CRLF
abbrev pub http_prefix : Str
http_prefix = 72 ∷ 84 ∷ 84 ∷ 80 ∷ 47 ∷ []

abbrev pub crlf : Str
crlf = 13 ∷ 10 ∷ []

-- `m_responses.back().append(h)`: append is the merge_insert of the header set.
unfoldable pub append_back : Header → List ResponseHead → Result HttpError (List ResponseHead)
unfolding merge_insert
append_back h [] = err status_header_expected
append_back h (r ∷ []) = merge_insert h r.headers >>= (λ set. ok (record r { headers = set } ∷ []))
append_back h (r ∷ q ∷ rest) = append_back h (q ∷ rest) >>= (λ rest'. ok (r ∷ rest'))

module _ (text : HeaderText) (status_text : StatusText) where
  -- header_parser::parse, for a line without CRLF.
  unfoldable pub parse : Str → List ResponseHead → Result HttpError (List ResponseHead)
  unfolding status_parse starts_with append_back header_parse
  parse header_data responses = elim (starts_with header_data http_prefix) [
    | true ↦
        status_parse status_text header_data
        >>= (λ s. ok (responses ++ record { status = s; headers = [] } ∷ []))
    | false ↦ elim header_data [
      | [] ↦ ok responses
      | c ∷ cs ↦ elim responses [
        | [] ↦ err status_header_expected
        | r ∷ rs ↦ header_parse text (c ∷ cs) >>= (λ h. append_back h (r ∷ rs))
      ]
    ]
  ]

  unfoldable pub parse_header_callback :
      Str → List ResponseHead → Result HttpError (List ResponseHead)
  unfolding ends_with resize parse
  parse_header_callback data_ responses =
      if ends_with data_ crlf
      then parse (resize (length data_ - 2) data_) responses
      else err header_without_crlf
