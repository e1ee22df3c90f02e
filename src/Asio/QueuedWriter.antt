-- ===== src/Asio/QueuedWriter.antt =====
-- bunsan/common/include/bunsan/asio/queued_writer.hpp: a queue of objects in front of a connection that
-- takes one write at a time. The functions posted to the strand run one after another.
pub mod Fifo
pub mod Closing
pub mod Draining
use bacs.Base.{
  ℕ, suc, ◌-◌, Bool, true, false, List, [], ◌∷◌, ◌++◌, length, ltb, nat_eq, if◌then◌else◌,
}

-- What the writer asks of the connection: the objects given to async_write, in order, how many of
-- these writes have not been handled yet, and how often it was closed; `doomed` says of the last write
-- that the connection was closed when it was started.
pub record Connection (T : Type 0) : Type 0 where
  pub writes : List T
  pub outstanding : ℕ
  pub closes : ℕ
  pub doomed : Bool

pub record QueuedWriter (T : Type 0) : Type 0 where
  pub connection : Connection T
  pub queue : List T
  pub last : Bool

module _ {T : Type 0} where
  abbrev pub fresh : QueuedWriter T
  fresh = record {
    connection = record { writes = []; outstanding = 0; closes = 0; doomed = false };
    queue = [];
    last = false;
  }

  unfoldable pub async_write : T → QueuedWriter T → QueuedWriter T
  async_write object w = record w {
    connection = record w.connection {
      writes = w.connection.writes ++ object ∷ [];
      outstanding = suc w.connection.outstanding;
      doomed = ltb 0 w.connection.closes;
    };
  }

  unfoldable pub close_connection : QueuedWriter T → QueuedWriter T
  close_connection w = record w {
    connection = record w.connection { closes = suc w.connection.closes };
  }

  -- `m_queue.front()`: the queue is not empty where this is called.
  unfoldable pub spawn_front : List T → QueuedWriter T → QueuedWriter T
  unfolding async_write
  spawn_front [] w = w
  spawn_front (object ∷ rest) w = async_write object w

  unfoldable pub spawn_writer : QueuedWriter T → QueuedWriter T
  unfolding spawn_front
  spawn_writer w = spawn_front w.queue w

  unfoldable pub push : T → QueuedWriter T → QueuedWriter T
  unfolding spawn_writer
  push object w =
      let w' = record w { queue = w.queue ++ object ∷ [] } in
      if nat_eq (length w'.queue) 1 then spawn_writer w' else w'

  unfoldable pub is_drained : List T → Bool
  is_drained [] = true
  is_drained (object ∷ queue) = false

  unfoldable pub close : QueuedWriter T → QueuedWriter T
  unfolding is_drained close_connection
  close w =
      let w' = record w { last = true } in
      if w.last then w else if is_drained w.queue then close_connection w' else w'

  unfoldable pub terminate : QueuedWriter T → QueuedWriter T
  unfolding close_connection
  terminate w = close_connection (record w { last = true })

  -- After `pop_front`.
  unfoldable pub write_next : QueuedWriter T → QueuedWriter T
  unfolding is_drained close_connection spawn_writer
  write_next w =
      if is_drained w.queue then if w.last then close_connection w else w else spawn_writer w

  unfoldable pub pop_front : List T → List T
  pop_front [] = []
  pop_front (object ∷ queue) = queue

  -- handle_write, `failed` if there is an error code; the custom handler is not part of the writer.
  unfoldable pub handle_write : Bool → QueuedWriter T → QueuedWriter T
  unfolding write_next pop_front
  handle_write failed w = if failed then w else write_next (record w { queue = pop_front w.queue })

-- What the strand runs.
pub data Event (T : Type 0) : Type 0 where
  pushed : T → Event T
  closed terminated : Event T
  -- A write has ended, with an error or without.
  written : Bool → Event T

module _ {T : Type 0} where
  -- The connection takes the write off its list before it calls the handler.
  unfoldable pub run_event : Event T → QueuedWriter T → QueuedWriter T
  unfolding push close terminate handle_write
  run_event (pushed object) w = push object w
  run_event closed w = close w
  run_event terminated w = terminate w
  run_event (written failed) w =
      handle_write failed (record w {
        connection = record w.connection { outstanding = w.connection.outstanding - 1 };
      })
