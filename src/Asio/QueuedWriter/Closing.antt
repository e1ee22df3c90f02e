-- ===== src/Asio/QueuedWriter/Closing.antt =====
-- queued_writer (bunsan/common/include/bunsan/asio/queued_writer.hpp): when the connection is closed,
-- and what is left of a writer after an error.
use bacs.Base.{subst, ◌≡◌, refl, sym, ap, ◌<◌, Bool, true, false, List, [], ◌∷◌, arith}
use bacs.Asio.QueuedWriter.{
  handle_write, QueuedWriter, Connection, Event, pushed, closed, terminated, written, run_event,
  push, close, terminate, handle_write, spawn_writer, spawn_front, async_write, close_connection,
  is_drained, pop_front, write_next,
}
use bacs.Asio.QueuedWriter.Fifo.{
  front, IsFifo, push_busy, drained_fields, IsPossible, Reached, start, event, no_failure, pushes,
  Reached-IsFifo,
}

module _ {T : Type 0} where
  -- Somebody has called close or terminate.
  unfoldable pub was_closed : List (Event T) → Bool
  was_closed [] = false
  was_closed (closed ∷ es) = true
  was_closed (terminated ∷ es) = true
  was_closed (pushed object ∷ es) = was_closed es
  was_closed (written failed ∷ es) = was_closed es

  -- The connection is open as long as nobody asked for its end, and closed when somebody did and the
  -- queue is empty.
  abbrev pub IsClosing : Bool → QueuedWriter T → Type 0
  IsClosing asked w =
      (w.last ≡ asked)
      × (asked ≡ false → w.connection.closes ≡ 0)
      × (asked ≡ true → is_drained w.queue ≡ true → 0 < w.connection.closes)

  push-IsClosing :
      (asked : Bool) (object : T) (c : Connection T) (queue : List T) (l : Bool)
      → IsClosing asked (record { connection = c; queue = queue; last = l })
      → IsClosing asked (push object (record { connection = c; queue = queue; last = l }))
  unfolding push spawn_writer spawn_front async_write is_drained
  push-IsClosing asked object c [] l (e, n, d) = (e, n, λ _ q. cc)
  push-IsClosing asked object c (x ∷ []) l (e, n, d) = (e, n, λ _ q. cc)
  push-IsClosing asked object c (x ∷ y ∷ queue) l (e, n, d) =
      subst (IsClosing asked) (sym (push_busy object c x y queue l)) (e, n, λ _ q. cc)

  close-IsClosing :
      (asked : Bool) (c : Connection T) (queue : List T) (l : Bool)
      → IsClosing asked (record { connection = c; queue = queue; last = l })
      → IsClosing true (close (record { connection = c; queue = queue; last = l }))
  unfolding close is_drained close_connection
  close-IsClosing asked c queue true (e, n, d) = (refl, λ x. cc, λ _ q. d (sym e) q)
  close-IsClosing asked c [] false (e, n, d) = (refl, λ x. cc, λ _ q. omega arith)
  close-IsClosing asked c (x ∷ queue) false (e, n, d) = (refl, λ x. cc, λ _ q. cc)

  written-IsClosing :
      (asked failed : Bool) (c : Connection T) (queue : List T) (l : Bool)
      → IsClosing asked (record { connection = c; queue = queue; last = l })
      → IsClosing asked
          (run_event (written failed) (record { connection = c; queue = queue; last = l }))
  unfolding run_event handle_write pop_front write_next is_drained spawn_writer spawn_front
      async_write close_connection
  written-IsClosing asked true c queue l h = h
  written-IsClosing asked false c [] true (e, n, d) = (e, λ x. cc, λ _ _. omega arith)
  written-IsClosing asked false c [] false (e, n, d) = (e, n, λ a _. cc)
  written-IsClosing asked false c (x ∷ []) true (e, n, d) = (e, λ x. cc, λ _ _. omega arith)
  written-IsClosing asked false c (x ∷ []) false (e, n, d) = (e, n, λ a _. cc)
  written-IsClosing asked false c (x ∷ y ∷ queue) l (e, n, d) = (e, n, λ _ q. cc)

  event-IsClosing :
      (es : List (Event T)) (e : Event T) (w : QueuedWriter T)
      → IsClosing (was_closed es) w
      → IsClosing (was_closed (e ∷ es)) (run_event e w)
  unfolding was_closed run_event terminate close_connection
  event-IsClosing es (pushed object) w h =
      push-IsClosing (was_closed es) object w.connection w.queue w.last h
  event-IsClosing es closed w h = close-IsClosing (was_closed es) w.connection w.queue w.last h
  event-IsClosing es terminated w h = (refl, λ x. cc, λ _ _. omega arith)
  event-IsClosing es (written failed) w h =
      written-IsClosing (was_closed es) failed w.connection w.queue w.last h

  Reached-IsClosing :
      {es : List (Event T)} {w : QueuedWriter T} → Reached es w → IsClosing (was_closed es) w
  unfolding was_closed
  Reached-IsClosing start = (refl, λ _. refl, λ a _. cc)
  Reached-IsClosing (event {es = es} {w = w} r e p) = event-IsClosing es e w (Reached-IsClosing r)

  -- The writer never closes the connection before close or terminate was called.
  pub Reached_open :
      {es : List (Event T)} {w : QueuedWriter T}
      → Reached es w
      → was_closed es ≡ false
      → w.connection.closes ≡ 0
  Reached_open r h = let (e, n, d) = Reached-IsClosing r in n h

  -- Once close or terminate was called, no write has failed and no write is outstanding, everything
  -- that was pushed has been written and the connection has been closed.
  pub Reached_closed :
      {es : List (Event T)} {w : QueuedWriter T}
      → Reached es w
      → was_closed es ≡ true
      → no_failure es ≡ true
      → w.connection.outstanding ≡ 0
      → (w.connection.writes ≡ pushes es) × (0 < w.connection.closes)
  unfolding is_drained
  Reached_closed {es = es} {w = w} r h f o =
      let (e, n, d) = Reached-IsClosing r in
      let (all_written, empty) =
        drained_fields (pushes es) w.connection w.queue w.last (Reached-IsFifo r f) o in
      (all_written, d h (ap is_drained empty))

  abbrev pub IsStalled : QueuedWriter T → Type 0
  IsStalled w = (w.connection.outstanding ≡ 0) × (is_drained w.queue ≡ false)

  failed_fields :
      (objects : List T) (c : Connection T) (queue : List T) (l : Bool)
      → IsFifo objects (record { connection = c; queue = queue; last = l })
      → 0 < c.outstanding
      → IsStalled (run_event (written true) (record { connection = c; queue = queue; last = l }))
  unfolding run_event handle_write is_drained front
  failed_fields objects c [] l (done, p, q, r) h = absurd (omega arith)
  failed_fields objects c (x ∷ queue) l (done, p, q, r) h = (omega arith, refl)

  -- The first write that fails leaves objects in the queue and no write outstanding.
  pub Reached-IsStalled :
      {es : List (Event T)} {w : QueuedWriter T}
      → Reached es w
      → no_failure es ≡ true
      → 0 < w.connection.outstanding
      → IsStalled (run_event (written true) w)
  Reached-IsStalled {es = es} {w = w} r f h =
      failed_fields (pushes es) w.connection w.queue w.last (Reached-IsFifo r f) h

  IsStalled-push :
      (object : T) (c : Connection T) (queue : List T) (l : Bool)
      → IsStalled (record { connection = c; queue = queue; last = l })
      → IsStalled (push object (record { connection = c; queue = queue; last = l }))
        × ((push object (record { connection = c; queue = queue; last = l })).connection ≡ c)
  unfolding push is_drained
  IsStalled-push object c [] l h = cc
  IsStalled-push object c (x ∷ []) l h = (h, refl)
  IsStalled-push object c (x ∷ y ∷ queue) l h =
      subst (λ v. IsStalled v × (v.connection ≡ c)) (sym (push_busy object c x y queue l))
        ((h.0, refl), refl)

  IsStalled-close :
      (c : Connection T) (queue : List T) (l : Bool)
      → IsStalled (record { connection = c; queue = queue; last = l })
      → IsStalled (close (record { connection = c; queue = queue; last = l }))
        × ((close (record { connection = c; queue = queue; last = l })).connection.writes
            ≡ c.writes)
  unfolding close is_drained close_connection
  IsStalled-close c queue true h = (h, refl)
  IsStalled-close c [] false h = (h, refl)
  IsStalled-close c (x ∷ queue) false h = (h, refl)

  -- If no write is outstanding although the queue is not empty, then no event that can happen starts a
  -- write, and the writer stays like this.
  pub IsStalled-run_event :
      (e : Event T) (w : QueuedWriter T)
      → IsPossible e w
      → IsStalled w
      → IsStalled (run_event e w) × ((run_event e w).connection.writes ≡ w.connection.writes)
  unfolding run_event IsPossible terminate close_connection
  IsStalled-run_event (pushed object) w p h =
      let (stalled, same) = IsStalled-push object w.connection w.queue w.last h in
      (stalled, ap (λ c. c.writes) same)
  IsStalled-run_event closed w p h = IsStalled-close w.connection w.queue w.last h
  IsStalled-run_event terminated w p h = (h, refl)
  IsStalled-run_event (written failed) w p h = absurd (omega arith)
