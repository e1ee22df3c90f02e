-- ===== src/Curl/HeaderParser/Blocks.antt =====
-- header_parser (bunsan/curl/src/http/header_parser.cpp): the lines of several responses become their heads.
use bacs.Base.{
  ◌-◌, ◌≡◌, ◌≢◌, refl, sym, ◌∙◌, ap, Str, true, false, List, [], ◌∷◌, ◌++◌, map, length,
  length-append, Result, ok, err, ◌>>=◌, >>=-eq-ok, list_Eq, nat_Eq, arith, append_assoc,
  append-nil,
}
use bacs.Curl.Header.{Header, HeaderText, HttpError, header_parse}
use bacs.Curl.HeaderSet.{HeaderSet, merge_insert}
use bacs.Curl.HeaderSet.Merge.{insert_all, insert_all-united}
use bacs.Curl.HeaderParser.{
  Status, ResponseHead, StatusText, status_parse, starts_with, ends_with, resize, http_prefix, crlf,
  append_back, parse, parse_header_callback,
}

-- The lines of one response, and what they are parsed to.
pub record Block : Type 0 where
  pub status_line : Str
  pub status : Status
  pub header_lines : List (Str × Header)

unfoldable pub headers_of : List (Str × Header) → List Header
headers_of = map (λ (line, h). h)

-- The lines of the responses; an empty line ends the head of each of them.
unfoldable pub all_lines : List Block → List Str
all_lines [] = []
all_lines (b ∷ bs) = b.status_line ∷ (map (λ (line, h). line) b.header_lines ++ [] ∷ all_lines bs)

-- One head for each block, with its status, and its headers put into an empty set.
unfoldable pub AreHeads : List Block → List ResponseHead → Type 0
AreHeads [] [] = Unit
AreHeads [] (r ∷ rs) = ⊥
AreHeads (b ∷ bs) [] = ⊥
AreHeads (b ∷ bs) (r ∷ rs) =
    (r.status ≡ b.status)
    × (insert_all (headers_of b.header_lines) [] ≡ ok r.headers)
    × AreHeads bs rs

module _ (text : HeaderText) (status_text : StatusText) where
  -- The callback for one line after another, each of them with its CRLF.
  unfoldable pub run : List Str → List ResponseHead → Result HttpError (List ResponseHead)
  unfolding parse_header_callback
  run [] responses = ok responses
  run (line ∷ lines) responses =
      parse_header_callback text status_text (line ++ crlf) responses >>= run lines

  abbrev pub IsHeaderLine : Str → Header → Type 0
  IsHeaderLine line h =
      (starts_with line http_prefix ≡ false) × (line ≢ []) × (header_parse text line ≡ ok h)

  unfoldable pub AreHeaderLines : List (Str × Header) → Type 0
  AreHeaderLines [] = Unit
  AreHeaderLines ((line, h) ∷ rest) = IsHeaderLine line h × AreHeaderLines rest

  abbrev pub IsBlock : Block → Type 0
  IsBlock b =
      (starts_with b.status_line http_prefix ≡ true)
      × (status_parse status_text b.status_line ≡ ok b.status)
      × AreHeaderLines b.header_lines

  unfoldable pub AreBlocks : List Block → Type 0
  AreBlocks [] = Unit
  AreBlocks (b ∷ bs) = IsBlock b × AreBlocks bs

  ends_with-crlf : (line : Str) → ends_with (line ++ crlf) crlf ≡ true
  unfolding ends_with list_Eq nat_Eq
  ends_with-crlf [] = refl
  ends_with-crlf (c ∷ line) = ground (arith, ends_with-crlf line)

  resize-append : (s rest : Str) → resize (length s) (s ++ rest) ≡ s
  unfolding resize
  resize-append [] rest = refl
  resize-append (c ∷ s) rest = ap (λ t. c ∷ t) (resize-append s rest)

  two_less : (line : Str) → length (line ++ crlf) - 2 ≡ length line
  two_less line = omega (arith, length-append line crlf)

  resize-crlf : (line : Str) → resize (length (line ++ crlf) - 2) (line ++ crlf) ≡ line
  resize-crlf line = ap (λ n. resize n (line ++ crlf)) (two_less line) ∙ resize-append line crlf

  pub parse_header_callback-crlf :
      (line : Str) (responses : List ResponseHead)
      → parse_header_callback text status_text (line ++ crlf) responses
        ≡ parse text status_text line responses
  unfolding parse_header_callback
  parse_header_callback-crlf line responses = ground (arith, ends_with-crlf line, resize-crlf line)

  -- What a header line does to the response that was begun last.
  unfoldable with_headers :
      List ResponseHead → ResponseHead → HeaderSet → Result HttpError (List ResponseHead)
  with_headers before r set = ok (before ++ record r { headers = set } ∷ [])

  with_headers-cons :
      (q : ResponseHead) (before : List ResponseHead) (r : ResponseHead)
      (m : Result HttpError HeaderSet)
      → (m >>= with_headers before r) >>= (λ rest. ok (q ∷ rest))
        ≡ m >>= with_headers (q ∷ before) r
  unfolding with_headers
  with_headers-cons q before r (ok set) = refl
  with_headers-cons q before r (err e) = refl

  append_back-snoc :
      (h : Header) (before : List ResponseHead) (r : ResponseHead)
      → append_back h (before ++ r ∷ []) ≡ merge_insert h r.headers >>= with_headers before r
  unfolding append_back with_headers
  append_back-snoc h [] r = refl
  append_back-snoc h (q ∷ []) r = with_headers-cons q [] r (merge_insert h r.headers)
  append_back-snoc h (q ∷ p ∷ before) r =
      ap (λ m. m >>= (λ rest. ok (q ∷ rest))) (append_back-snoc h (p ∷ before) r)
      ∙ with_headers-cons q (p ∷ before) r (merge_insert h r.headers)

  parse_header :
      (line : Str) (h : Header) (before : List ResponseHead) (r : ResponseHead)
      → IsHeaderLine line h
      → parse text status_text line (before ++ r ∷ [])
        ≡ merge_insert h r.headers >>= with_headers before r
  unfolding parse
  parse_header [] h before r (s, n, p) = absurd (n refl)
  parse_header (c ∷ line) h [] r (s, n, p) = ground (arith, append_back-snoc h [] r)
  parse_header (c ∷ line) h (q ∷ before) r (s, n, p) =
      ground (arith, append_back-snoc h (q ∷ before) r)

  -- The header lines of a response add their headers to it, one after another.
  run-header_lines :
      (hs : List (Str × Header)) (rest : List Str) (before : List ResponseHead) (r : ResponseHead)
      (set : HeaderSet)
      → AreHeaderLines hs
      → insert_all (headers_of hs) r.headers ≡ ok set
      → run (map (λ (line, h). line) hs ++ rest) (before ++ r ∷ [])
        ≡ run rest (before ++ record r { headers = set } ∷ [])
  unfolding run AreHeaderLines insert_all headers_of with_headers
  run-header_lines [] rest before r set a p =
      ap (λ (m : Result HttpError HeaderSet). m >>= with_headers before r >>= run rest) p
  run-header_lines ((line, h) ∷ hs) rest before r set (a, as_) p =
      let (set1, m, n) = >>=-eq-ok (merge_insert h r.headers) (insert_all (headers_of hs)) p in
      ap (λ q. q >>= run (map (λ (l, g). l) hs ++ rest))
        (parse_header_callback-crlf line (before ++ r ∷ [])
          ∙ parse_header line h before r a
          ∙ ap (λ q. q >>= with_headers before r) m)
      ∙ run-header_lines hs rest before (record r { headers = set1 }) set as_ n

  run-blank :
      (rest : List Str) (responses : List ResponseHead)
      → run ([] ∷ rest) responses ≡ run rest responses
  unfolding run parse starts_with
  run-blank rest responses = ap (λ m. m >>= run rest) (parse_header_callback-crlf [] responses)

  run-status_line :
      (b : Block) (rest : List Str) (responses : List ResponseHead)
      → IsBlock b
      → run (b.status_line ∷ rest) responses
        ≡ run rest (responses ++ record { status = b.status; headers = [] } ∷ [])
  unfolding run parse
  run-status_line b rest responses (s, p, a) =
      ap (λ m. m >>= run rest) (parse_header_callback-crlf b.status_line responses) ∙ ground arith

  -- From the lines of several responses, each a status line, header lines and an empty line, the parser
  -- makes one head for each response behind those that it has, with the status of its own status line
  -- and the merged headers of its own header lines; no line raises an exception.
  pub run-all_lines :
      (bs : List Block)
      → AreBlocks bs
      → (heads : List ResponseHead) × AreHeads bs heads
        × ((responses : List ResponseHead) → run (all_lines bs) responses ≡ ok (responses ++ heads))
  unfolding run all_lines AreHeads AreBlocks
  run-all_lines [] a = ([], tt, λ responses. ap ok (sym (append-nil responses)))
  run-all_lines (b ∷ bs) (a, as_) =
      let (heads, e, p) = run-all_lines bs as_ in
      let (set, m, v) = insert_all-united (headers_of b.header_lines) in
      let (s, q, l) = a in
      let head : ResponseHead = record { status = b.status; headers = set } in
      (
        head ∷ heads,
        (refl, m, e),
        λ responses.
            run-status_line b (map (λ (line, h). line) b.header_lines ++ [] ∷ all_lines bs)
              responses a
            ∙ run-header_lines b.header_lines ([] ∷ all_lines bs) responses
                (record { status = b.status; headers = [] }) set l m
            ∙ run-blank (all_lines bs) (responses ++ head ∷ [])
            ∙ p (responses ++ head ∷ [])
            ∙ ap ok (append_assoc responses (head ∷ []) heads),
      )
