-- ===== src/Tests/Writers.antt =====
-- bunsan/common/include/bunsan/asio/queued_writer.hpp with a few objects.
use bacs.Base.{ℕ, ◌<◌, ◌≡◌, refl, false, List, [], ◌∷◌, arith}
use bacs.Asio.QueuedWriter.{QueuedWriter, fresh, Event, pushed, closed, written, run_event}
use bacs.Asio.QueuedWriter.Fifo.{
  IsPossible, Reached, start, event, pushes, no_failure, Reached_drained,
}
use bacs.Asio.QueuedWriter.Draining.{writes_end, Reached-drains}
use bacs.Asio.QueuedWriter.Closing.{was_closed}

-- Two objects are pushed, and the first is written.
abbrev half : List (Event ℕ)
half = written false ∷ pushed 8 ∷ pushed 7 ∷ []

-- Then the writer is closed, and the second is written.
abbrev whole : List (Event ℕ)
whole = written false ∷ closed ∷ half

unfoldable after : List (Event ℕ) → QueuedWriter ℕ
unfolding run_event
after [] = fresh
after (e ∷ es) = run_event e (after es)

one_outstanding : 0 < 1
one_outstanding = omega arith

half-Reached : Reached half (after half)
unfolding after IsPossible run_event
half-Reached =
    event (event (event start (pushed 7) tt) (pushed 8) tt) (written false)
      (one_outstanding, λ d. d)

whole-Reached : Reached whole (after whole)
unfolding after IsPossible run_event
whole-Reached = event (event half-Reached closed tt) (written false) (one_outstanding, λ d. d)

after-whole :
    (after whole).connection
    ≡ record { writes = 7 ∷ 8 ∷ []; outstanding = 0; closes = 1; doomed = false }
unfolding after run_event
after-whole = refl

Reached_drained_example : (after whole).connection.writes ≡ pushes whole
unfolding no_failure after run_event
Reached_drained_example = Reached_drained whole-Reached refl refl

-- Two objects are pushed and the writer is closed before any write has ended.
abbrev waiting : List (Event ℕ)
waiting = closed ∷ pushed 8 ∷ pushed 7 ∷ []

waiting-Reached : Reached waiting (after waiting)
unfolding after IsPossible run_event
waiting-Reached = event (event (event start (pushed 7) tt) (pushed 8) tt) closed tt

Reached-drains_example :
    (w' : QueuedWriter ℕ) × Reached (writes_end 2 waiting) w'
    × (w'.connection.outstanding ≡ 0)
    × (w'.connection.writes ≡ pushes waiting)
    × (0 < w'.connection.closes)
unfolding no_failure was_closed after run_event
Reached-drains_example = Reached-drains waiting-Reached refl refl refl
