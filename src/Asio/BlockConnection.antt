-- ===== src/Asio/BlockConnection.antt =====
-- bunsan/common/include/bunsan/asio/block_connection.hpp: messages behind headers of their sizes.
pub mod Blocks
use bacs.Base.{
  ℕ, zero, suc, Str, Bool, true, false, not, Option, none, some, List, [], ◌∷◌, ◌++◌, length, take,
  drop, leb, nat_eq, Result, ok, err, ◌>>=◌, if◌then◌else◌,
}

-- `HEADER_SIZE`: two hexadecimal digits for each of the eight bytes of a size.
abbrev pub header_size : ℕ
header_size = 16

-- Streams of the standard library: a number printed by `setw` and `hex`, and read by `hex`.
pub record HexStream : Type 0 where
  pub print_hex : ℕ → ℕ → Str
  pub read_hex : Str → Option ℕ

pub data ReadError : Type 0 where
  end_of_stream invalid_argument : ReadError

-- async_write: whether the handler is called with an error first, and the bytes that are sent in any
-- case.
pub record Write : Type 0 where
  pub invalid : Bool
  pub sent : Str

-- A read: the data, and the bytes of the stream that have not been read.
abbrev pub Read : Type 0
Read = Str × Str

-- `async_read` of Boost for a buffer: so many bytes, or the end of the stream.
unfoldable pub read_exactly : ℕ → Str → Result ReadError Read
read_exactly n stream =
    if leb n (length stream) then ok (take n stream, drop n stream) else err end_of_stream

module _ (hex : HexStream) where
  unfoldable pub async_write : Str → Write
  async_write data_ =
      let header = hex.print_hex header_size (length data_) in
      record { invalid = not (nat_eq (length header) header_size); sent = header ++ data_ }

  unfoldable pub read_size : Str → Result ReadError ℕ
  read_size header = elim (hex.read_hex header) [ none ↦ err invalid_argument | some n ↦ ok n ]

  unfoldable pub handle_read_header : Read → Result ReadError Read
  unfolding read_size read_exactly
  handle_read_header (header, stream) = read_size header >>= (λ n. read_exactly n stream)

  unfoldable pub async_read : Str → Result ReadError Read
  unfolding read_exactly handle_read_header
  async_read stream = read_exactly header_size stream >>= handle_read_header
