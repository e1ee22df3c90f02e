-- ===== src/Asio/BufferConnection/Busy.antt =====
-- buffer_connection (bunsan/common/include/bunsan/asio/buffer_connection.hpp): one write at a time.
use bacs.Base.{
  ℕ, ◌≤◌, ◌<◌, ◌≡◌, refl, Str, Bool, true, false, List, [], ◌∷◌, ◌++◌, length, arith, nat_eq,
}
use bacs.Asio.BufferConnection.{
  BufferConnection, fresh, is_nil, close, close_sink, terminate, spawn_reader, spawn_writer,
  discard, try_close_sink, accept, enqueue, read_on, close_if_empty, handle_read, front, sent,
  write_on, handle_write, Event, started, closing, terminating, has_read, has_written, run_event,
}

-- Events that can happen: reads and writes that were started end, without an error a write has written
-- its buffer.
unfoldable pub IsPossible : Event → BufferConnection → Type 0
unfolding front
IsPossible started c = Unit
IsPossible closing c = Unit
IsPossible terminating c = Unit
IsPossible (has_read failed buffer) c = 0 < c.reading
IsPossible (has_written failed size) c =
    (0 < c.writing)
    × (size ≤ length (front c.queue))
    × (failed ≡ false → size ≡ length (front c.queue))

-- One write is under way exactly if something waits, unless the sink has failed or the connection was
-- terminated; and no buffer is empty.
pub record IsBusy (c : BufferConnection) : Type 0 where
  pub one_write : c.writing ≤ 1
  pub write_ok : 0 < c.writing → (c.sink_ok ≡ true) × (is_nil c.queue ≡ false)
  pub waits : c.sink_ok ≡ true → c.terminated ≡ false → is_nil c.queue ≡ false → 0 < c.writing

pub is_nil-snoc : {A : Type 0} (xs : List A) (x : A) → is_nil (xs ++ x ∷ []) ≡ false
is_nil-snoc [] x = refl
is_nil-snoc (y ∷ xs) x = refl

pub length-snoc : {A : Type 0} (xs : List A) (x : A) → nat_eq (length (xs ++ x ∷ [])) 1 ≡ is_nil xs
length-snoc [] x = refl
length-snoc (y ∷ []) x = refl
length-snoc (y ∷ z ∷ xs) x = ground arith

pub accept-IsBusy : (buffer : Str) (c : BufferConnection) → IsBusy c → IsBusy (accept buffer c)
unfolding accept enqueue spawn_writer discard
accept-IsBusy buffer c h = ground (arith, is_nil-snoc c.queue buffer, length-snoc c.queue buffer)

read_on-IsBusy : (failed : Bool) (c : BufferConnection) → IsBusy c → IsBusy (read_on failed c)
unfolding read_on spawn_reader
read_on-IsBusy failed c h = ground arith

close_if_empty-IsBusy : (c : BufferConnection) → IsBusy c → IsBusy (close_if_empty c)
unfolding close_if_empty try_close_sink close_sink
close_if_empty-IsBusy c h = ground arith

handle_write-IsBusy :
    (failed : Bool) (size : ℕ) (c : BufferConnection)
    → IsPossible (has_written failed size) c
    → IsBusy c
    → IsBusy (run_event (has_written failed size) c)
unfolding run_event IsPossible handle_write write_on sent try_close_sink close_sink spawn_writer
    discard
handle_write-IsBusy failed size c p h = ground arith

close-IsBusy : (c : BufferConnection) → IsBusy c → IsBusy (close c)
unfolding close close_sink
close-IsBusy c h = ground arith

-- Every event that can happen keeps the connection busy.
pub run_event-IsBusy :
    (e : Event) (c : BufferConnection) → IsPossible e c → IsBusy c → IsBusy (run_event e c)
unfolding run_event handle_read spawn_reader terminate close_sink
run_event-IsBusy started c p h = ground arith
run_event-IsBusy closing c p h = close-IsBusy c h
run_event-IsBusy terminating c p h = ground arith
run_event-IsBusy (has_read failed buffer) c p h = close_if_empty-IsBusy _ (
    read_on-IsBusy failed _ (
      accept-IsBusy buffer _
        (record { one_write = h.one_write; write_ok = h.write_ok; waits = h.waits })))
run_event-IsBusy (has_written failed size) c p h = handle_write-IsBusy failed size c p h

-- The connection after some events.
pub data Reached (on_eof discards : Bool) : BufferConnection → Type 0 where
  start : Reached on_eof discards (fresh on_eof discards)
  event :
      {c : BufferConnection}
      → Reached on_eof discards c
      → (e : Event) → IsPossible e c
      → Reached on_eof discards (run_event e c)

pub Reached-IsBusy :
    (on_eof discards : Bool) {c : BufferConnection} → Reached on_eof discards c → IsBusy c
Reached-IsBusy on_eof discards start = record {
  one_write = omega arith;
  write_ok = λ h. absurd (omega arith);
  waits = λ _ _ h. cc;
}
Reached-IsBusy on_eof discards (event {c = c} r e p) =
    run_event-IsBusy e c p (Reached-IsBusy on_eof discards r)
