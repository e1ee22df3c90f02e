-- ===== src/Asio/BlockConnection/Blocks.antt =====
-- block_connection (bunsan/common/include/bunsan/asio/block_connection.hpp): what was written is read again.
use bacs.Base.{
  ℕ, zero, suc, ◌<◌, ◌^◌, ◌≡◌, refl, ◌∙◌, ap, Str, false, Option, none, some, List, [], ◌∷◌, ◌++◌,
  length, length-append, take, drop, Result, ok, err, ◌>>=◌, arith, append_assoc, All, All-map,
}
use bacs.Asio.BlockConnection.{
  HexStream, ReadError, invalid_argument, header_size, read_exactly, async_write, read_size,
  handle_read_header, async_read,
}

-- What `hex` and `setw` do for a number of 64 bits: the width is enough for its digits, and it is read
-- back with the spaces before it.
pub record IsHexStream (hex : HexStream) : Type 0 where
  pub fits : (n : ℕ) → n < 2 ^ 64 → length (hex.print_hex header_size n) ≡ header_size
  pub reads : (n : ℕ) → n < 2 ^ 64 → hex.read_hex (hex.print_hex header_size n) ≡ some n

take-append : (xs ys : Str) → take (length xs) (xs ++ ys) ≡ xs
take-append [] [] = refl
take-append [] (y ∷ ys) = refl
take-append (x ∷ xs) ys = ap (λ t. x ∷ t) (take-append xs ys)

drop-append : (xs ys : Str) → drop (length xs) (xs ++ ys) ≡ ys
drop-append [] [] = refl
drop-append [] (y ∷ ys) = refl
drop-append (x ∷ xs) ys = drop-append xs ys

read_exactly-append :
    (n : ℕ) (xs ys : Str) → length xs ≡ n → read_exactly n (xs ++ ys) ≡ ok (xs, ys)
unfolding read_exactly
read_exactly-append n xs ys e =
    ground (arith, length-append xs ys, take-append xs ys, drop-append xs ys)

module _ (hex : HexStream) where
  abbrev pub IsShort : Str → Type 0
  IsShort data_ = length data_ < 2 ^ 64

  -- Writes one after another, and reads.
  unfoldable pub sent_all : List Str → Str
  unfolding async_write
  sent_all [] = []
  sent_all (m ∷ ms) = (async_write hex m).sent ++ sent_all ms

  unfoldable pub read_all : ℕ → Str → Result ReadError (List Str × Str)
  unfolding async_read
  read_all zero stream = ok ([], stream)
  read_all (suc n) stream = do
    (m, rest) ← async_read hex stream
    (ms, rest') ← read_all n rest
    ok (m ∷ ms, rest')

  async_write-valid : IsHexStream hex → (m : Str) → IsShort m → (async_write hex m).invalid ≡ false
  unfolding async_write
  async_write-valid h m s = let e = h.fits (length m) s in ground arith

  read_header-written :
      IsHexStream hex
      → (m rest : Str) → IsShort m
      → handle_read_header hex (hex.print_hex header_size (length m), m ++ rest) ≡ ok (m, rest)
  unfolding handle_read_header read_size
  read_header-written h m rest s =
      ap
        (λ (o : Option ℕ).
          (elim o [ none ↦ err invalid_argument | some n ↦ ok n ])
          >>= (λ n. read_exactly n (m ++ rest)))
        (h.reads (length m) s)
      ∙ read_exactly-append (length m) m rest refl

  async_read-written :
      IsHexStream hex
      → (m rest : Str) → IsShort m
      → async_read hex ((async_write hex m).sent ++ rest) ≡ ok (m, rest)
  unfolding async_read async_write
  async_read-written h m rest s =
      let header = hex.print_hex header_size (length m) in
      ap (λ t. read_exactly header_size t >>= handle_read_header hex) (append_assoc header m rest)
      ∙ ap (λ q. q >>= handle_read_header hex)
          (read_exactly-append header_size header (m ++ rest) (h.fits (length m) s))
      ∙ read_header-written h m rest s

  read_sent :
      IsHexStream hex
      → (ms : List Str) (rest : Str) → All IsShort ms
      → read_all (length ms) (sent_all ms ++ rest) ≡ ok (ms, rest)
  unfolding read_all sent_all
  read_sent h [] rest a = refl
  read_sent h (m ∷ ms) rest (s, a) =
      let stream = sent_all ms ++ rest in
      ap
        (λ t.
          async_read hex t >>= (λ (x, r). read_all (length ms) r >>= (λ (xs, r'). ok (x ∷ xs, r'))))
        (append_assoc (async_write hex m).sent (sent_all ms) rest)
      ∙ ap (λ q. q >>= (λ (x, r). read_all (length ms) r >>= (λ (xs, r'). ok (x ∷ xs, r'))))
          (async_read-written h m stream s)
      ∙ ap (λ q. q >>= (λ (xs, r'). ok (m ∷ xs, r'))) (read_sent h ms rest a)

  -- Messages shorter than 2 ^ 64 bytes are written without an error, and are read again in their
  -- order, whatever follows them on the stream, if a size is printed in sixteen characters and read back
  -- from them.
  pub read_all-sent_all :
      IsHexStream hex
      → (ms : List Str) (rest : Str) → All IsShort ms
      → (read_all (length ms) (sent_all ms ++ rest) ≡ ok (ms, rest))
        × All (λ m. (async_write hex m).invalid ≡ false) ms
  read_all-sent_all h ms rest a = (
    read_sent h ms rest a,
    All-map IsShort (λ m. (async_write hex m).invalid ≡ false) ms (async_write-valid h) a,
  )
