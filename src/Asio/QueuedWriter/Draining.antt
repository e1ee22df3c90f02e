-- ===== src/Asio/QueuedWriter/Draining.antt =====
-- queued_writer (bunsan/common/include/bunsan/asio/queued_writer.hpp): the queue is written out in the end.
use bacs.Base.{
  ℕ, zero, suc, ◌≡◌, ◌<◌, refl, sym, ◌∙◌, Bool, true, false, List, [], ◌∷◌, length, arith,
}
use bacs.Asio.QueuedWriter.{
  QueuedWriter, Connection, Event, pushed, closed, terminated, written, push, close, terminate,
  run_event, handle_write, pop_front, write_next, is_drained, spawn_writer, spawn_front,
  async_write, close_connection,
}
use bacs.Asio.QueuedWriter.Fifo.{
  IsPossible, Reached, start, event, pushes, no_failure, front, IsFifo, Reached-IsFifo,
}
use bacs.Asio.QueuedWriter.Closing.{was_closed, Reached_closed}

module _ {T : Type 0} where
  -- So many writes end without an error after the events.
  unfoldable pub writes_end : ℕ → List (Event T) → List (Event T)
  writes_end zero es = es
  writes_end (suc n) es = writes_end n (written false ∷ es)

  waiting_fields :
      (objects : List T) (c : Connection T) (queue : List T) (l : Bool) (n : ℕ)
      → IsFifo objects (record { connection = c; queue = queue; last = l })
      → length queue ≡ suc n
      → (0 < c.outstanding)
        × (length
              (run_event (written false) (record { connection = c; queue = queue; last = l })).queue
            ≡ n)
        × (0 < n
            → (run_event
                (written false)
                (record { connection = c; queue = queue; last = l })).connection.closes
              ≡ c.closes)
  unfolding run_event handle_write pop_front write_next is_drained spawn_writer spawn_front
      async_write close_connection front
  waiting_fields objects c [] l n h q = absurd (omega arith)
  waiting_fields objects c (x ∷ []) true n (done, p, w, o) q =
      (omega arith, omega arith, λ k. absurd (omega arith))
  waiting_fields objects c (x ∷ []) false n (done, p, w, o) q =
      (omega arith, omega arith, λ k. refl)
  waiting_fields objects c (x ∷ y ∷ queue) l n (done, p, w, o) q =
      (omega arith, omega arith, λ k. refl)

  empty_fields :
      (objects : List T) (c : Connection T) (queue : List T) (l : Bool)
      → IsFifo objects (record { connection = c; queue = queue; last = l })
      → length queue ≡ 0
      → c.outstanding ≡ 0
  unfolding front
  empty_fields objects c [] l (done, p, w, o) q = o
  empty_fields objects c (x ∷ queue) l h q = absurd (omega arith)

  -- No write was started on a closed connection while it is open.
  abbrev IsOpen : QueuedWriter T → Type 0
  IsOpen w = w.connection.closes ≡ 0 → w.connection.doomed ≡ false

  run_event-IsOpen : (e : Event T) (w : QueuedWriter T) → IsOpen w → IsOpen (run_event e w)
  unfolding run_event push close terminate handle_write write_next spawn_writer spawn_front
      async_write close_connection
  run_event-IsOpen (pushed object) w h = ground arith
  run_event-IsOpen closed w h = ground arith
  run_event-IsOpen terminated w h = ground arith
  run_event-IsOpen (written true) w h = h
  run_event-IsOpen (written false) w h = ground arith

  Reached-IsOpen : {es : List (Event T)} {w : QueuedWriter T} → Reached es w → IsOpen w
  Reached-IsOpen start = λ h. refl
  Reached-IsOpen (event {w = w} r e p) = run_event-IsOpen e w (Reached-IsOpen r)

  drains :
      (n : ℕ) {es : List (Event T)} {w : QueuedWriter T}
      → Reached es w
      → no_failure es ≡ true
      → was_closed es ≡ true
      → length w.queue ≡ n
      → (0 < n → w.connection.closes ≡ 0)
      → (w' : QueuedWriter T) × Reached (writes_end n es) w'
        × (w'.connection.outstanding ≡ 0)
        × (w'.connection.writes ≡ pushes es)
        × (0 < w'.connection.closes)
  unfolding writes_end no_failure pushes was_closed IsPossible
  drains zero {es = es} {w = w} r f a q not_yet =
      let idle = empty_fields (pushes es) w.connection w.queue w.last (Reached-IsFifo r f) q in
      let (all_written, closes) = Reached_closed r a f idle in (w, r, idle, all_written, closes)
  drains (suc n) {es = es} {w = w} r f a q not_yet =
      let (outstanding, shorter, still) =
        waiting_fields (pushes es) w.connection w.queue w.last n (Reached-IsFifo r f) q in
      let unclosed = not_yet (omega arith) in
      let possible : IsPossible (written false) w =
        (outstanding, λ d. sym (Reached-IsOpen r unclosed) ∙ d) in
      drains n (event r (written false) possible) f a shorter (λ k. still k ∙ unclosed)

  -- From every state that the writer reaches without a failed write after close was called, and in which
  -- the connection has not been closed yet, as many writes as there are objects in the queue can end one after another without an
  -- error; after them no write is outstanding, everything that was pushed has been written in the order
  -- in which it was pushed, and the connection has been closed.
  pub Reached-drains :
      {es : List (Event T)} {w : QueuedWriter T}
      → Reached es w
      → no_failure es ≡ true
      → was_closed es ≡ true
      → w.connection.closes ≡ 0
      → (w' : QueuedWriter T) × Reached (writes_end (length w.queue) es) w'
        × (w'.connection.outstanding ≡ 0)
        × (w'.connection.writes ≡ pushes es)
        × (0 < w'.connection.closes)
  Reached-drains {w = w} r f a not_yet = drains (length w.queue) r f a refl (λ k. not_yet)
