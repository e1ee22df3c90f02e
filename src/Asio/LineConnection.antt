-- ===== src/Asio/LineConnection.antt =====
-- bunsan/common/include/bunsan/asio/line_connection.hpp: messages as the lines of a stream of bytes.
pub mod Lines
use bacs.Base.{
  take, drop, ℕ, suc, ◌-◌, Str, Bool, true, false, Option, none, some, List, [], ◌∷◌, ◌++◌, length,
  contains, nat_eq, nat_Eq, if◌then◌else◌,
}

abbrev pub delimiter : ℕ
delimiter = 10

-- async_write: what goes to the connection; `none` is the exception for data with a delimiter.
unfoldable pub async_write : Str → Option Str
unfolding contains
async_write data_ = if contains delimiter data_ then none else some (data_ ++ delimiter ∷ [])

-- `async_read_until` on what the buffer holds: the bytes up to the delimiter and with it.
unfoldable pub find_delimiter : Str → Option ℕ
find_delimiter [] = none
find_delimiter (c ∷ s) = elim (nat_eq c delimiter) [
  | true ↦ some 1
  | false ↦ elim (find_delimiter s) [ none ↦ none | some n ↦ some (suc n) ]
]

-- What a read has returned: the data, the buffer, and the parts of the stream that have not arrived.
pub record Read : Type 0 where
  pub data_ : Str
  pub inbound : Str
  pub arriving : List Str

-- handle_read for `n` bytes up to the delimiter.
unfoldable pub handle_read : ℕ → Str → List Str → Read
handle_read n inbound arriving = record {
  data_ = take (n - 1) inbound;
  inbound = drop n inbound;
  arriving = arriving;
}

-- async_read: parts of the stream are put into the buffer until it holds a delimiter; `none` is the end
-- of the stream.
unfoldable pub async_read : Str → List Str → Option Read
unfolding find_delimiter handle_read
async_read inbound [] = elim (find_delimiter inbound) [
  | none ↦ none
  | some n ↦ some (handle_read n inbound [])
]
async_read inbound (part ∷ arriving) = elim (find_delimiter inbound) [
  | none ↦ async_read (inbound ++ part) arriving
  | some n ↦ some (handle_read n inbound (part ∷ arriving))
]
