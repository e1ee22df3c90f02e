-- ===== src/Tests/Headers.antt =====
-- bunsan/curl: headers of a response, with texts of the test in place of Boost's.
use bacs.Base.{
  ℕ, ◌≤◌, ◌≡◌, refl, Str, Option, none, some, List, [], ◌∷◌, ◌++◌, ok, arith, length, list_Eq,
  nat_Eq,
}
use bacs.Curl.Header.{Header, HeaderText, header_parse, make_header, plain_headers}
use bacs.Curl.HttpVersion.{http_1_1, to_http_version}
use bacs.Curl.HeaderSet.{HeaderSet, begin_plain, collect, find_key, merge_insert, modify}
use bacs.Curl.HeaderSet.Merge.{insert_all, insert_all-united, having, united, values_of}
use bacs.Curl.HeaderSet.Plain.{lines, collect-lines}
use bacs.Curl.HeaderParser.{
  Status, StatusGroups, StatusText, ResponseHead, status_parse, lexical_cast, parse_code, supported,
  starts_with,
}
use bacs.Curl.HeaderParser.Blocks.{
  Block, AreBlocks, AreHeaderLines, AreHeads, all_lines, run, run-all_lines,
}

-- Two letters with any separator.
abbrev two_letters : Str → Option (Str × Str)
two_letters (c ∷ separator ∷ d ∷ []) = some (c ∷ [], d ∷ [])
two_letters s = none

abbrev some_text : HeaderText
some_text = record {
  to_lower_copy = λ s. s;
  general_header = two_letters;
  quoted = λ s. 34 ∷ s ++ 34 ∷ [];
}

-- Version 1.1 and the code 200 for every line that is not empty.
abbrev one_status : Str → Option StatusGroups
one_status [] = none
one_status (c ∷ s) =
    some (record { major = 1 ∷ []; minor = 1 ∷ []; code = some (200 ∷ []); reason = none })

abbrev digit : Str → Option ℕ
digit [] = none
digit (c ∷ s) = some c

abbrev some_status_text : StatusText
some_status_text = record { status_header = one_status; to_unsigned = digit }

abbrev one_header : ℕ → ℕ → Header
one_header c d = record { name = c ∷ []; values = (d ∷ []) ∷ [] }

-- A header of one name, one of another, one of the first, and one that has no values.
abbrev some_headers : List Header
some_headers =
    one_header 97 1
    ∷ one_header 98 2
    ∷ one_header 97 3
    ∷ record { name = 99 ∷ []; values = [] }
    ∷ []

abbrev some_set : HeaderSet
some_set =
    record { name = 97 ∷ []; values = (1 ∷ []) ∷ (3 ∷ []) ∷ [] }
    ∷ one_header 98 2
    ∷ record { name = 99 ∷ []; values = [] }
    ∷ []

insert_all-some : insert_all some_headers [] ≡ ok some_set
unfolding insert_all merge_insert find_key modify list_Eq nat_Eq
insert_all-some = refl

insert_all-united_example :
    (set : HeaderSet) × (insert_all some_headers [] ≡ ok set)
    × ((key : Str) → values_of key set ≡ united (having key some_headers))
insert_all-united_example = insert_all-united some_headers

few_lines : length (lines some_set) ≤ 5
unfolding lines plain_headers
few_lines = omega arith

collect-lines_example : collect 5 (begin_plain some_set) ≡ some (lines some_set)
collect-lines_example = collect-lines some_set 5 few_lines

abbrev ok_line : Str
ok_line = 72 ∷ 84 ∷ 84 ∷ 80 ∷ 47 ∷ 49 ∷ []

abbrev ok_status : Status
ok_status = record { version = http_1_1; code = 200; reason = [] }

-- Two responses, the first with two headers of one name.
abbrev two_blocks : List Block
two_blocks =
    record {
      status_line = ok_line;
      status = ok_status;
      header_lines = (97 ∷ 58 ∷ 1 ∷ [], one_header 97 1) ∷ (97 ∷ 58 ∷ 2 ∷ [], one_header 97 2) ∷ [];
    }
    ∷ record { status_line = ok_line; status = ok_status; header_lines = [] }
    ∷ []

two_blocks-AreBlocks : AreBlocks some_text some_status_text two_blocks
unfolding AreBlocks AreHeaderLines starts_with status_parse lexical_cast parse_code supported
    to_http_version header_parse make_header list_Eq nat_Eq
two_blocks-AreBlocks =
    ((refl, refl, ((refl, λ p. cc, refl), ((refl, λ p. cc, refl), tt))), ((refl, refl, tt), tt))

run-all_lines_example :
    (heads : List ResponseHead) × AreHeads two_blocks heads
    × ((responses : List ResponseHead)
        → run some_text some_status_text (all_lines two_blocks) responses ≡ ok (responses ++ heads))
run-all_lines_example = run-all_lines some_text some_status_text two_blocks two_blocks-AreBlocks
