-- ===== src/Asio/LineConnection/Lines.antt =====
-- line_connection (bunsan/common/include/bunsan/asio/line_connection.hpp): what was written is read again,
-- whatever parts the stream arrives in.
use bacs.Base.{
  take, drop, ℕ, zero, suc, ◌-◌, ◌≡◌, ◌≢◌, inl, inr, refl, sym, ◌∙◌, ap, subst, Str, Bool, true,
  false, Option, none, some, some_path, List, [], ◌∷◌, ◌++◌, length, contains, head_path, tail_path,
  nat_eq, nat_Eq, arith, append_assoc, append-nil, Option-cases, Bool-cases, if◌then◌else◌,
}
use bacs.Asio.LineConnection.{delimiter, async_write, find_delimiter, Read, handle_read, async_read}

-- The bytes of the parts of a stream.
unfoldable pub bytes : List Str → Str
bytes [] = []
bytes (part ∷ parts) = part ++ bytes parts

-- Messages that can be written, and what they are on the stream.
unfoldable pub no_delimiter : Str → Bool
no_delimiter [] = true
no_delimiter (c ∷ s) = if nat_eq c delimiter then false else no_delimiter s

drop-zero : (s : Str) → drop 0 s ≡ s
drop-zero [] = refl
drop-zero (c ∷ s) = refl

take-zero : (s : Str) → take 0 s ≡ []
take-zero [] = refl
take-zero (c ∷ s) = refl

-- Where the first delimiter is.
find_delimiter-first :
    (c : ℕ) (s : Str) (n : ℕ) → nat_eq c delimiter ≡ true → find_delimiter (c ∷ s) ≡ some n → n ≡ 1
unfolding find_delimiter
find_delimiter-first c s n d h = ground arith

find_delimiter-later :
    (c : ℕ) (s : Str) (n : ℕ)
    → nat_eq c delimiter ≡ false
    → find_delimiter (c ∷ s) ≡ some n
    → (m : ℕ) × (n ≡ suc m) × (find_delimiter s ≡ some m)
unfolding find_delimiter
find_delimiter-later c s n d h = elim (Option-cases (find_delimiter s)) [
  | inl p ↦ absurd (ground arith)
  | inr (m, p) ↦ (m, ground arith, p)
]

find_delimiter-positive : (s : Str) (n : ℕ) → find_delimiter s ≡ some n → (m : ℕ) × (n ≡ suc m)
unfolding find_delimiter
find_delimiter-positive [] n h = cc
find_delimiter-positive (c ∷ s) n h = elim (Bool-cases (nat_eq c delimiter)) [
  | inl d ↦ (0, find_delimiter-first c s n d h)
  | inr d ↦ let (m, p, q) = find_delimiter-later c s n d h in (m, p)
]

less_one : (n : ℕ) → suc n - 1 ≡ n
less_one n = omega arith

-- A buffer with a delimiter is a line and the rest.
find_delimiter-some :
    (s line rest : Str)
    → no_delimiter line ≡ true
    → (n : ℕ) → find_delimiter s ≡ some n
    → (more : Str) → s ++ more ≡ line ++ delimiter ∷ rest
    → (take (n - 1) s ≡ line) × (drop n s ++ more ≡ rest)
unfolding no_delimiter find_delimiter
find_delimiter-some [] line rest d n h more e = cc
find_delimiter-some (c ∷ s) [] rest d n h more e =
    let one =
      find_delimiter-first c s n (subst (λ z. nat_eq z delimiter ≡ true) (sym (head_path e)) refl)
        h in
    subst (λ z. (take (z - 1) (c ∷ s) ≡ []) × (drop z (c ∷ s) ++ more ≡ rest)) (sym one)
      (refl, ap (λ z. z ++ more) (drop-zero s) ∙ tail_path e)
find_delimiter-some (c ∷ s) (b ∷ line) rest d n h more e =
    let other : nat_eq c delimiter ≡ false =
      subst (λ z. nat_eq z delimiter ≡ false) (sym (head_path e)) (ground arith) in
    let (m, p, q) = find_delimiter-later c s n other h in
    let (k, r) = find_delimiter-positive s m q in
    let (x, y) = find_delimiter-some s line rest (ground arith) m q more (tail_path e) in
    let two : n ≡ suc (suc k) = p ∙ ap suc r in
    (
      ap (λ z. take z (c ∷ s)) (ap (λ z. z - 1) two ∙ less_one (suc k))
          ∙ ap (λ z. z ∷ take k s) (head_path e)
          ∙ ap (λ z. b ∷ z) (ap (λ z. take z s) (sym (ap (λ z. z - 1) r ∙ less_one k)) ∙ x),
      ap (λ z. drop z (c ∷ s) ++ more) p ∙ y,
    )

find_delimiter-none : (s line rest : Str) → s ≡ line ++ delimiter ∷ rest → find_delimiter s ≢ none
unfolding find_delimiter
find_delimiter-none [] [] rest e h = cc
find_delimiter-none [] (b ∷ line) rest e h = cc
find_delimiter-none (c ∷ s) [] rest e h =
    let d = subst (λ z. nat_eq z delimiter ≡ true) (sym (head_path e)) refl in ground arith
find_delimiter-none (c ∷ s) (b ∷ line) rest e h =
    ground (arith, find_delimiter-none s line rest (tail_path e))

-- One read takes one line off the stream.
async_read-line :
    (inbound : Str) (arriving : List Str) (line rest : Str)
    → no_delimiter line ≡ true
    → inbound ++ bytes arriving ≡ line ++ delimiter ∷ rest
    → (r : Read) × (async_read inbound arriving ≡ some r)
      × (r.data_ ≡ line)
      × (r.inbound ++ bytes r.arriving ≡ rest)
unfolding async_read handle_read bytes
async_read-line inbound [] line rest d e = elim (Option-cases (find_delimiter inbound)) [
  | inl p ↦ absurd (find_delimiter-none inbound line rest (sym (append-nil inbound) ∙ e) p)
  | inr (n, p) ↦
      let (x, y) = find_delimiter-some inbound line rest d n p [] e in
      (handle_read n inbound [], ground arith, x, y)
]
async_read-line inbound (part ∷ arriving) line rest d e =
    elim (Option-cases (find_delimiter inbound)) [
      | inl p ↦
          let (r, q, x, y) =
            async_read-line (inbound ++ part) arriving line rest d
              (append_assoc inbound part (bytes arriving) ∙ e) in
          (r, ground arith, x, y)
      | inr (n, p) ↦
          let (x, y) = find_delimiter-some inbound line rest d n p (part ++ bytes arriving) e in
          (handle_read n inbound (part ∷ arriving), ground arith, x, y)
    ]

-- Several writes one after another, and several reads.
unfoldable pub write_all : List Str → Option Str
unfolding async_write
write_all [] = some []
write_all (m ∷ ms) = elim (async_write m) [
  | none ↦ none
  | some s ↦ elim (write_all ms) [ none ↦ none | some rest ↦ some (s ++ rest) ]
]

unfoldable pub read_all : ℕ → Str → List Str → Option (List Str)
unfolding async_read
read_all zero inbound arriving = some []
read_all (suc n) inbound arriving = elim (async_read inbound arriving) [
  | none ↦ none
  | some r ↦ elim (read_all n r.inbound r.arriving) [ none ↦ none | some ms ↦ some (r.data_ ∷ ms) ]
]

contains-no_delimiter : (s : Str) → contains delimiter s ≡ false → no_delimiter s ≡ true
unfolding contains no_delimiter
contains-no_delimiter [] h = refl
contains-no_delimiter (c ∷ s) h = ground (arith, contains-no_delimiter s)

read_written :
    (ms : List Str) (stream inbound : Str) (arriving : List Str)
    → write_all ms ≡ some stream
    → inbound ++ bytes arriving ≡ stream
    → read_all (length ms) inbound arriving ≡ some ms
unfolding write_all read_all async_write
read_written [] stream inbound arriving w e = refl
read_written (m ∷ ms) stream inbound arriving w e = elim (Bool-cases (contains delimiter m)) [
  | inl c ↦ absurd (ground arith)
  | inr c ↦ elim (Option-cases (write_all ms)) [
    | inl n ↦ absurd (ground arith)
    | inr (rest, q) ↦
        let written : (m ++ delimiter ∷ []) ++ rest ≡ stream = some_path (ground arith) in
        let (r, p, x, y) =
          async_read-line inbound arriving m rest (contains-no_delimiter m c)
            (e ∙ sym written ∙ append_assoc m (delimiter ∷ []) rest) in
        let others = read_written ms rest r.inbound r.arriving q y in ground arith
  ]
]

-- Messages that async_write accepts one after another are read again in their order, however the bytes
-- that it sent are cut into the parts in which they arrive.
pub read_all-write_all :
    (ms : List Str) (stream : Str) (parts : List Str)
    → write_all ms ≡ some stream
    → bytes parts ≡ stream
    → read_all (length ms) [] parts ≡ some ms
read_all-write_all ms stream parts w e = read_written ms stream [] parts w e
