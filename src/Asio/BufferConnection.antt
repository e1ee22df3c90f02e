-- ===== src/Asio/BufferConnection.antt =====
-- bunsan/common/include/bunsan/asio/buffer_connection.hpp: what is read from a source is written to a
-- sink, through a queue of buffers.
pub mod Busy
pub mod Relay
pub mod Ends
use bacs.Base.{
  take, drop, ℕ, zero, suc, ◌-◌, Str, Bool, true, false, not, ◌&&◌, ◌||◌, List, [], ◌∷◌, ◌++◌,
  length, nat_eq, ltb, if◌then◌else◌,
}

-- The members, and what was asked of the source and the sink: the reads and the writes that have not
-- ended, how often each was closed, and what the reads have put into the buffer. `read_data` and `write_data` are the calls of the two data
-- handlers, an empty buffer for `(nullptr, 0)`.
pub record BufferConnection : Type 0 where
  pub queue : List Str
  pub closed : Bool
  pub terminated : Bool
  pub source_ok : Bool
  pub sink_ok : Bool
  pub close_sink_on_eof : Bool
  pub discard_on_sink_error : Bool
  pub reading : ℕ
  pub writing : ℕ
  pub source_closes : ℕ
  pub sink_closes : ℕ
  pub received : List Str
  pub read_data : List Str
  pub write_data : List Str

abbrev pub fresh : Bool → Bool → BufferConnection
fresh on_eof discard = record {
  queue = [];
  closed = false;
  terminated = false;
  source_ok = true;
  sink_ok = true;
  close_sink_on_eof = on_eof;
  discard_on_sink_error = discard;
  reading = 0;
  writing = 0;
  source_closes = 0;
  sink_closes = 0;
  received = [];
  read_data = [];
  write_data = [];
}

abbrev pub is_nil : {A : Type 0} → List A → Bool
is_nil [] = true
is_nil (x ∷ xs) = false

unfoldable pub close_sink : BufferConnection → BufferConnection
close_sink c = record c { sink_closes = suc c.sink_closes }

-- close_ and terminate_
unfoldable pub close : BufferConnection → BufferConnection
unfolding close_sink
close c =
    if c.closed
    then c
    else if is_nil c.queue
    then close_sink (record c { closed = true })
    else record c { closed = true }

unfoldable pub terminate : BufferConnection → BufferConnection
unfolding close_sink
terminate c =
    close_sink (record c { closed = true; terminated = true; source_closes = suc c.source_closes })

unfoldable pub spawn_reader : BufferConnection → BufferConnection
spawn_reader c = if c.terminated then c else record c { reading = suc c.reading }

unfoldable pub discard : BufferConnection → BufferConnection
discard c = if c.discard_on_sink_error then record c { queue = [] } else c

unfoldable pub spawn_writer : BufferConnection → BufferConnection
unfolding discard
spawn_writer c =
    if c.terminated
    then c
    else if c.sink_ok
    then record c { writing = suc c.writing }
    else discard c

unfoldable pub try_close_sink : BufferConnection → BufferConnection
unfolding close_sink
try_close_sink c =
    if c.closed || (not c.source_ok && c.close_sink_on_eof)
    then close_sink (record c { write_data = c.write_data ++ [] ∷ [] })
    else c

-- handle_read: the buffer, the end of the source, and the sink.
unfoldable pub enqueue : Str → BufferConnection → BufferConnection
unfolding spawn_writer
enqueue buffer c =
    let c' = record c { queue = c.queue ++ buffer ∷ []; read_data = c.read_data ++ buffer ∷ [] } in
    if nat_eq (length c'.queue) 1 then spawn_writer c' else c'

unfoldable pub accept : Str → BufferConnection → BufferConnection
unfolding enqueue
accept buffer c =
    if not (is_nil buffer) && (c.sink_ok || not c.discard_on_sink_error)
    then enqueue buffer c
    else c

unfoldable pub read_on : Bool → BufferConnection → BufferConnection
unfolding spawn_reader
read_on failed c =
    if failed
    then record c { read_data = c.read_data ++ [] ∷ []; source_ok = false }
    else if c.closed
    then c
    else spawn_reader c

unfoldable pub close_if_empty : BufferConnection → BufferConnection
unfolding try_close_sink
close_if_empty c = if is_nil c.queue then try_close_sink c else c

unfoldable pub handle_read : Bool → Str → BufferConnection → BufferConnection
unfolding accept read_on close_if_empty
handle_read failed buffer c = close_if_empty (read_on failed (accept buffer c))

-- The front buffer of which `size` bytes were written.
unfoldable pub consume : ℕ → List Str → List Str
consume size [] = []
consume size (front ∷ queue) = if ltb size (length front) then drop size front ∷ queue else queue

unfoldable pub front : List Str → Str
front [] = []
front (buffer ∷ queue) = buffer

unfoldable pub sent : ℕ → BufferConnection → BufferConnection
unfolding consume front
sent size c = if nat_eq size 0 then c else record c {
  write_data = c.write_data ++ take size (front c.queue) ∷ [];
  queue = consume size c.queue;
}

unfoldable pub write_on : Bool → BufferConnection → BufferConnection
unfolding try_close_sink spawn_writer
write_on failed c =
    if failed
    then record c { sink_ok = false }
    else if is_nil c.queue
    then try_close_sink c
    else spawn_writer c

unfoldable pub handle_write : Bool → ℕ → BufferConnection → BufferConnection
unfolding sent write_on
handle_write failed size c = write_on failed (sent size c)

-- What the strand runs.
pub data Event : Type 0 where
  started closing terminating : Event
  -- A read has ended, with an error or not, and has put bytes into the buffer.
  has_read : Bool → Str → Event
  -- A write has ended, after so many bytes.
  has_written : Bool → ℕ → Event

unfoldable pub run_event : Event → BufferConnection → BufferConnection
unfolding spawn_reader close terminate handle_read handle_write
run_event started c = spawn_reader c
run_event closing c = close c
run_event terminating c = terminate c
run_event (has_read failed buffer) c =
    handle_read failed buffer
      (record c { reading = c.reading - 1; received = c.received ++ buffer ∷ [] })
run_event (has_written failed size) c =
    handle_write failed size (record c { writing = c.writing - 1 })
