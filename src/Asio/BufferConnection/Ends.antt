-- ===== src/Asio/BufferConnection/Ends.antt =====
-- buffer_connection (bunsan/common/include/bunsan/asio/buffer_connection.hpp): when the sink is closed,
-- and what a failed sink leaves.
use bacs.Base.{
  ◌⊎◌, inl, inr, ◌≢◌, ℕ, ◌<◌, ◌-◌, ◌≡◌, refl, sym, ◌∙◌, ap, Str, Bool, true, false, not, ◌||◌, List,
  [], ◌∷◌, ◌++◌, arith, append-nil,
}
use bacs.Asio.BufferConnection.{
  BufferConnection, is_nil, close, close_sink, terminate, spawn_reader, spawn_writer, discard,
  try_close_sink, accept, enqueue, read_on, close_if_empty, handle_read, sent, write_on,
  handle_write, Event, started, closing, terminating, has_read, has_written, run_event,
}
use bacs.Asio.BufferConnection.Busy.{
  IsPossible, IsBusy, is_nil-snoc, length-snoc, Reached, start, event, Reached-IsBusy,
}
use bacs.Asio.BufferConnection.Relay.{bytes, Reached-IsRelayed}

-- The sink is closed once nothing waits and nothing more will be written: after close, or at the end of
-- the source if that is to close the sink.
pub record IsClosing (c : BufferConnection) : Type 0 where
  pub after_close : c.sink_ok ≡ true → c.closed ≡ true → is_nil c.queue ≡ true → 0 < c.sink_closes
  pub at_eof :
      c.sink_ok ≡ true
      → c.source_ok ≡ false
      → c.close_sink_on_eof ≡ true
      → is_nil c.queue ≡ true
      → 0 < c.sink_closes

handle_read-IsClosing :
    (failed : Bool) (buffer : Str) (c : BufferConnection)
    → IsClosing c
    → IsClosing (handle_read failed buffer c)
unfolding handle_read accept enqueue spawn_writer discard read_on spawn_reader close_if_empty
    try_close_sink close_sink
handle_read-IsClosing failed buffer c h =
    ground (arith, is_nil-snoc c.queue buffer, length-snoc c.queue buffer)

write_on-IsClosing :
    (failed : Bool) (c : BufferConnection) → c.sink_ok ≡ true → IsClosing (write_on failed c)
unfolding write_on try_close_sink close_sink spawn_writer discard
write_on-IsClosing failed c o = ground arith

sent-sink_ok : (size : ℕ) (c : BufferConnection) → (sent size c).sink_ok ≡ c.sink_ok
unfolding sent
sent-sink_ok size c = ground arith

run_event-IsClosing :
    (e : Event) (c : BufferConnection)
    → IsPossible e c
    → IsBusy c
    → IsClosing c
    → IsClosing (run_event e c)
unfolding run_event spawn_reader close terminate close_sink handle_write IsPossible
run_event-IsClosing started c p b h = ground arith
run_event-IsClosing closing c p b h = ground arith
run_event-IsClosing terminating c p b h = ground arith
run_event-IsClosing (has_read failed buffer) c p b h =
    handle_read-IsClosing failed buffer
      (record c { reading = c.reading - 1; received = c.received ++ buffer ∷ [] })
      (record { after_close = h.after_close; at_eof = h.at_eof })
run_event-IsClosing (has_written failed size) c p b h =
    write_on-IsClosing failed _
      (sent-sink_ok size (record c { writing = c.writing - 1 }) ∙ (b.write_ok p.0).0)

Reached-IsClosing :
    (on_eof discards : Bool) {c : BufferConnection} → Reached on_eof discards c → IsClosing c
Reached-IsClosing on_eof discards start = record { after_close = λ _ h. cc; at_eof = λ _ h. cc }
Reached-IsClosing on_eof discards (event {c = c} r e p) =
    run_event-IsClosing e c p (Reached-IsBusy on_eof discards r)
      (Reached-IsClosing on_eof discards r)

bytes-nil : (xs : List Str) → is_nil xs ≡ true → bytes xs ≡ []
unfolding bytes
bytes-nil [] h = refl
bytes-nil (x ∷ xs) h = cc

idle-is_nil :
    (c : BufferConnection)
    → IsBusy c
    → c.sink_ok ≡ true
    → c.terminated ≡ false
    → c.writing ≡ 0
    → is_nil c.queue ≡ true
idle-is_nil c b o t w = ground arith

-- Nothing more is to be written: close was called, or the source has ended and that is to close the
-- sink.
abbrev pub IsEnding : BufferConnection → Type 0
IsEnding c = (c.closed ≡ true) ⊎ ((c.source_ok ≡ false) × (c.close_sink_on_eof ≡ true))

-- If the sink has not failed, the connection was not terminated, no write is under way, and close was
-- called or the source has ended and that is to close the sink, then all bytes that the reads have put
-- into the buffer have been written and the sink was closed.
pub Reached_relayed :
    (on_eof discards : Bool) {c : BufferConnection}
    → Reached on_eof discards c
    → c.sink_ok ≡ true
    → c.terminated ≡ false
    → c.writing ≡ 0
    → IsEnding c
    → (bytes c.write_data ≡ bytes c.received) × (0 < c.sink_closes)
Reached_relayed on_eof discards {c} r o t w ending =
    let n = idle-is_nil c (Reached-IsBusy on_eof discards r) o t w in
    let h = Reached-IsClosing on_eof discards r in
    let relayed = Reached-IsRelayed on_eof discards r in
    (
      sym (
          relayed.1 (ap (λ b. b || not c.discard_on_sink_error) o)
          ∙ relayed.0
          ∙ ap (λ q. bytes c.write_data ++ q) (bytes-nil c.queue n)
          ∙ append-nil (bytes c.write_data)),
      elim ending [ inl d ↦ h.after_close o d n | inr (e, f) ↦ h.at_eof o e f n ],
    )

failed-handle_read :
    (failed : Bool) (buffer : Str) (c : BufferConnection)
    → c.sink_ok ≡ false
    → c.discard_on_sink_error ≡ true
    → ((handle_read failed buffer c).queue ≡ c.queue)
      × ((handle_read failed buffer c).sink_ok ≡ false)
      × (is_nil c.queue ≡ false → (handle_read failed buffer c).sink_closes ≡ c.sink_closes)
unfolding handle_read accept read_on spawn_reader close_if_empty try_close_sink close_sink
failed-handle_read failed buffer c o d = ground arith

-- After the sink has failed, with buffers to be discarded then and something in the queue, no event
-- but terminate changes the queue, which is neither written nor discarded, and none closes the sink,
-- the end of the source included.
pub failed-run_event :
    (on_eof discards : Bool) {c : BufferConnection} (e : Event)
    → Reached on_eof discards c
    → IsPossible e c
    → e ≢ terminating
    → c.sink_ok ≡ false
    → c.discard_on_sink_error ≡ true
    → is_nil c.queue ≡ false
    → ((run_event e c).queue ≡ c.queue)
      × ((run_event e c).sink_ok ≡ false)
      × ((run_event e c).sink_closes ≡ c.sink_closes)
unfolding run_event spawn_reader close terminate close_sink IsPossible
failed-run_event on_eof discards started r p t o d n = ground arith
failed-run_event on_eof discards closing r p t o d n = ground arith
failed-run_event on_eof discards terminating r p t o d n = absurd (t refl)
failed-run_event on_eof discards {c} (has_read failed buffer) r p t o d n =
    let (same, still, closes) =
      failed-handle_read failed buffer
        (record c { reading = c.reading - 1; received = c.received ++ buffer ∷ [] }) o d in
    (same, still, closes n)
failed-run_event on_eof discards {c} (has_written failed size) r p t o d n =
    let h = ((Reached-IsBusy on_eof discards r).write_ok p.0).0 in cc
