-- ===== src/Tests/Connections.antt =====
-- bunsan/common/include/bunsan/asio/buffer_connection.hpp: runs from the start to the end of the source.
use bacs.Base.{
  some, contains, nat_Eq, inr, ◌<◌, ◌≡◌, refl, true, false, [], ◌∷◌, ◌++◌, not, ◌||◌, arith,
}
use bacs.Asio.LineConnection.{async_write}
use bacs.Asio.LineConnection.Lines
use bacs.Asio.LineConnection.Lines.{write_all, read_all, read_all-write_all}
use bacs.Asio.BufferConnection.{
  BufferConnection, fresh, front, started, has_read, has_written, run_event,
}
use bacs.Asio.BufferConnection.Busy.{IsPossible, Reached, start, event}
use bacs.Asio.BufferConnection.Relay.{bytes, Reached-IsRelayed}
use bacs.Asio.BufferConnection.Ends.{Reached_relayed, failed-run_event}

-- Two bytes are read and written, and then the source ends.
unfoldable ended : BufferConnection
unfolding run_event
ended = run_event (has_read true []) (
    run_event (has_written false 2)
      (run_event (has_read false (1 ∷ 2 ∷ [])) (run_event started (fresh true true))))

-- The first of two bytes is written, and then the sink fails.
unfoldable broken : BufferConnection
unfolding run_event
broken =
    run_event (has_written true 1)
      (run_event (has_read false (1 ∷ 2 ∷ [])) (run_event started (fresh true true)))

positive : 0 < 1
positive = omega arith

read_once :
    Reached true true
      (run_event (has_read false (1 ∷ 2 ∷ [])) (run_event started (fresh true true)))
unfolding IsPossible run_event
read_once = event (event start started tt) (has_read false (1 ∷ 2 ∷ [])) positive

ended-Reached : Reached true true ended
unfolding ended run_event IsPossible front
ended-Reached =
    event (event read_once (has_written false 2) (omega arith, omega arith, λ _. refl))
      (has_read true []) positive

broken-Reached : Reached true true broken
unfolding broken run_event IsPossible front
broken-Reached = event read_once (has_written true 1) (omega arith, omega arith, λ h. cc)

Reached-IsRelayed_example :
    (bytes ended.read_data ≡ bytes ended.write_data ++ bytes ended.queue)
    × ((ended.sink_ok || not ended.discard_on_sink_error) ≡ true
        → bytes ended.received ≡ bytes ended.read_data)
Reached-IsRelayed_example = Reached-IsRelayed true true ended-Reached

Reached_relayed_example : (bytes ended.write_data ≡ bytes ended.received) × (0 < ended.sink_closes)
unfolding ended run_event
Reached_relayed_example = Reached_relayed true true ended-Reached refl refl refl (inr (refl, refl))

-- The source ends after the sink has failed.
failed-run_event_example :
    ((run_event (has_read true []) broken).queue ≡ broken.queue)
    × ((run_event (has_read true []) broken).sink_ok ≡ false)
    × ((run_event (has_read true []) broken).sink_closes ≡ broken.sink_closes)
unfolding broken run_event IsPossible
failed-run_event_example =
    failed-run_event true true (has_read true []) broken-Reached positive (λ h. cc) refl refl refl

-- Two lines, the first of them empty, that arrive in three parts.
read_all-write_all_example :
    read_all 2 [] ((10 ∷ 7 ∷ []) ∷ [] ∷ (8 ∷ 10 ∷ []) ∷ []) ≡ some ([] ∷ (7 ∷ 8 ∷ []) ∷ [])
unfolding write_all async_write contains Lines.bytes nat_Eq
read_all-write_all_example =
    read_all-write_all ([] ∷ (7 ∷ 8 ∷ []) ∷ []) (10 ∷ 7 ∷ 8 ∷ 10 ∷ [])
      ((10 ∷ 7 ∷ []) ∷ [] ∷ (8 ∷ 10 ∷ []) ∷ []) refl refl
