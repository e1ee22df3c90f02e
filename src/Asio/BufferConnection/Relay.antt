-- ===== src/Asio/BufferConnection/Relay.antt =====
-- buffer_connection (bunsan/common/include/bunsan/asio/buffer_connection.hpp): all that was read is
-- written, or still waits.
use bacs.Base.{
  take, drop, ℕ, zero, suc, ◌≤◌, ◌-◌, ◌≡◌, refl, sym, ◌∙◌, ap, Str, Bool, true, not, ◌||◌, List, [],
  ◌∷◌, ◌++◌, length, arith, append_assoc, append-nil,
}
use bacs.Asio.BufferConnection.{
  BufferConnection, close, close_sink, terminate, spawn_reader, spawn_writer, discard,
  try_close_sink, accept, enqueue, read_on, close_if_empty, handle_read, consume, front, sent,
  write_on, handle_write, Event, started, closing, terminating, has_read, has_written, run_event,
}
use bacs.Asio.BufferConnection.Busy.{IsPossible, IsBusy, Reached, start, event, Reached-IsBusy}

-- The bytes of the buffers.
unfoldable pub bytes : List Str → Str
bytes [] = []
bytes (buffer ∷ buffers) = buffer ++ bytes buffers

-- The bytes that the data handler has seen are those that were written, and after them those that
-- wait in the queue.
abbrev pub IsHandled : BufferConnection → Type 0
IsHandled c = bytes c.read_data ≡ bytes c.write_data ++ bytes c.queue

bytes-append : (xs ys : List Str) → bytes (xs ++ ys) ≡ bytes xs ++ bytes ys
unfolding bytes
bytes-append [] ys = refl
bytes-append (x ∷ xs) ys =
    ap (λ t. x ++ t) (bytes-append xs ys) ∙ sym (append_assoc x (bytes xs) (bytes ys))

bytes-snoc : (xs : List Str) (x : Str) → bytes (xs ++ x ∷ []) ≡ bytes xs ++ x
unfolding bytes
bytes-snoc xs x = bytes-append xs (x ∷ []) ∙ ap (λ t. bytes xs ++ t) (append-nil x)

take-drop : (n : ℕ) (xs : Str) → take n xs ++ drop n xs ≡ xs
take-drop n [] = refl
take-drop zero (x ∷ xs) = refl
take-drop (suc n) (x ∷ xs) = ap (λ t. x ∷ t) (take-drop n xs)

take_all : (n : ℕ) (xs : Str) → length xs ≤ n → take n xs ≡ xs
take_all n [] h = refl
take_all zero (x ∷ xs) h = absurd (omega arith)
take_all (suc n) (x ∷ xs) h = ap (λ t. x ∷ t) (take_all n xs (omega arith))

-- What `consume` takes off the queue is what was written.
take-consume :
    (size : ℕ) (queue : List Str)
    → size ≤ length (front queue)
    → take size (front queue) ++ bytes (consume size queue) ≡ bytes queue
unfolding consume front bytes
take-consume size [] h = refl
take-consume size (buffer ∷ queue) h = ground (
  arith,
  take-drop size buffer,
  append_assoc (take size buffer) (drop size buffer) (bytes queue),
  take_all size buffer,
)

accept-IsHandled : (buffer : Str) (c : BufferConnection) → IsHandled c → IsHandled (accept buffer c)
unfolding accept enqueue spawn_writer discard
accept-IsHandled buffer c h = ground (
  arith,
  bytes-snoc c.read_data buffer,
  bytes-snoc c.queue buffer,
  append_assoc (bytes c.write_data) (bytes c.queue) buffer,
)

read_on-IsHandled :
    (failed : Bool) (c : BufferConnection) → IsHandled c → IsHandled (read_on failed c)
unfolding read_on spawn_reader
read_on-IsHandled failed c h =
    ground (arith, bytes-snoc c.read_data [], append-nil (bytes c.read_data))

close_if_empty-IsHandled : (c : BufferConnection) → IsHandled c → IsHandled (close_if_empty c)
unfolding close_if_empty try_close_sink close_sink
close_if_empty-IsHandled c h =
    ground (arith, bytes-snoc c.write_data [], append-nil (bytes c.write_data))

sent-IsHandled :
    (size : ℕ) (c : BufferConnection)
    → size ≤ length (front c.queue)
    → IsHandled c
    → IsHandled (sent size c)
unfolding sent
sent-IsHandled size c p h = ground (
  arith,
  bytes-snoc c.write_data (take size (front c.queue)),
  append_assoc (bytes c.write_data) (take size (front c.queue)) (bytes (consume size c.queue)),
  take-consume size c.queue p,
)

write_on-IsHandled :
    (failed : Bool) (c : BufferConnection)
    → c.sink_ok ≡ true
    → IsHandled c
    → IsHandled (write_on failed c)
unfolding write_on try_close_sink close_sink spawn_writer discard
write_on-IsHandled failed c p h =
    ground (arith, bytes-snoc c.write_data [], append-nil (bytes c.write_data))

sent-sink_ok : (size : ℕ) (c : BufferConnection) → (sent size c).sink_ok ≡ c.sink_ok
unfolding sent
sent-sink_ok size c = ground arith

handle_write-IsHandled :
    (failed : Bool) (size : ℕ) (c : BufferConnection)
    → c.sink_ok ≡ true
    → size ≤ length (front c.queue)
    → IsHandled c
    → IsHandled (handle_write failed size c)
unfolding handle_write
handle_write-IsHandled failed size c o p h =
    write_on-IsHandled failed (sent size c) (sent-sink_ok size c ∙ o) (sent-IsHandled size c p h)

handle_read-IsHandled :
    (failed : Bool) (buffer : Str) (c : BufferConnection)
    → IsHandled c
    → IsHandled (handle_read failed buffer c)
unfolding handle_read
handle_read-IsHandled failed buffer c h =
    close_if_empty-IsHandled (read_on failed (accept buffer c))
      (read_on-IsHandled failed (accept buffer c) (accept-IsHandled buffer c h))

run_event-IsHandled :
    (e : Event) (c : BufferConnection)
    → IsPossible e c
    → IsBusy c
    → IsHandled c
    → IsHandled (run_event e c)
unfolding run_event handle_read spawn_reader terminate close_sink close IsPossible
run_event-IsHandled started c p b h = ground arith
run_event-IsHandled closing c p b h = ground arith
run_event-IsHandled terminating c p b h = h
run_event-IsHandled (has_read failed buffer) c p b h =
    handle_read-IsHandled failed buffer
      (record c { reading = c.reading - 1; received = c.received ++ buffer ∷ [] }) h
run_event-IsHandled (has_written failed size) c p b h =
    handle_write-IsHandled failed size (record c { writing = c.writing - 1 }) (b.write_ok p.0).0 p.1
      h

-- Buffers are not thrown away.
abbrev pub keeps_all : BufferConnection → Bool
keeps_all c = c.sink_ok || not c.discard_on_sink_error

-- The data handler has seen all bytes that the reads have put into the buffer, or all but these.
abbrev Lacks : Str → BufferConnection → Type 0
Lacks buffer c = keeps_all c ≡ true → bytes c.received ≡ bytes c.read_data ++ buffer

abbrev pub IsComplete : BufferConnection → Type 0
IsComplete c = keeps_all c ≡ true → bytes c.received ≡ bytes c.read_data

accept-IsComplete :
    (buffer : Str) (c : BufferConnection) → Lacks buffer c → IsComplete (accept buffer c)
unfolding accept enqueue spawn_writer discard
accept-IsComplete [] c h = λ k. h k ∙ append-nil (bytes c.read_data)
accept-IsComplete (x ∷ buffer) c h = ground (arith, bytes-snoc c.read_data (x ∷ buffer))

handle_read-IsComplete :
    (failed : Bool) (buffer : Str) (c : BufferConnection)
    → IsComplete (accept buffer c)
    → IsComplete (handle_read failed buffer c)
unfolding handle_read read_on spawn_reader close_if_empty try_close_sink close_sink
handle_read-IsComplete failed buffer c h = ground (
  arith,
  bytes-snoc (accept buffer c).read_data [],
  append-nil (bytes (accept buffer c).read_data),
)

run_event-IsComplete :
    (e : Event) (c : BufferConnection) → IsComplete c → IsComplete (run_event e c)
unfolding run_event spawn_reader terminate close_sink close handle_write sent write_on
    try_close_sink spawn_writer discard
run_event-IsComplete started c h = ground arith
run_event-IsComplete closing c h = ground arith
run_event-IsComplete terminating c h = h
run_event-IsComplete (has_read failed buffer) c h =
    let c' = record c { reading = c.reading - 1; received = c.received ++ buffer ∷ [] } in
    handle_read-IsComplete failed buffer c' (
      accept-IsComplete buffer c' (λ k. bytes-snoc c.received buffer ∙ ap (λ t. t ++ buffer) (h k)))
run_event-IsComplete (has_written failed size) c h = ground arith

pub Reached-IsComplete :
    (on_eof discards : Bool) {c : BufferConnection} → Reached on_eof discards c → IsComplete c
Reached-IsComplete on_eof discards start = λ k. refl
Reached-IsComplete on_eof discards (event {c = c} r e p) =
    run_event-IsComplete e c (Reached-IsComplete on_eof discards r)

Reached-IsHandled :
    (on_eof discards : Bool) {c : BufferConnection} → Reached on_eof discards c → IsHandled c
unfolding bytes
Reached-IsHandled on_eof discards start = refl
Reached-IsHandled on_eof discards (event {c = c} r e p) =
    run_event-IsHandled e c p (Reached-IsBusy on_eof discards r)
      (Reached-IsHandled on_eof discards r)

-- At any time the bytes that the data handler has seen are those that were written, and after them
-- those that wait in the queue, in the same order; and unless the sink has failed with buffers to be
-- discarded then, they are all bytes that the reads have put into the buffer.
pub Reached-IsRelayed :
    (on_eof discards : Bool) {c : BufferConnection}
    → Reached on_eof discards c
    → (bytes c.read_data ≡ bytes c.write_data ++ bytes c.queue)
      × ((c.sink_ok || not c.discard_on_sink_error) ≡ true → bytes c.received ≡ bytes c.read_data)
Reached-IsRelayed on_eof discards r =
    (Reached-IsHandled on_eof discards r, Reached-IsComplete on_eof discards r)
