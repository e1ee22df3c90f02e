-- ===== src/Asio/QueuedWriter/Fifo.antt =====
-- queued_writer (bunsan/common/include/bunsan/asio/queued_writer.hpp): what is written, and when.
use bacs.Base.{
  nat_eq, suc, subst, ◌≡◌, refl, sym, ◌∙◌, ap, ℕ, ◌<◌, Bool, true, false, List, [], ◌∷◌, ◌++◌,
  arith, append_assoc, append-nil, length, if◌then◌else◌,
}
use bacs.Asio.QueuedWriter.{
  QueuedWriter, Connection, fresh, Event, pushed, closed, terminated, written, run_event, push,
  close, terminate, handle_write, spawn_writer, spawn_front, async_write, close_connection,
  is_drained, pop_front, write_next,
}

-- An event can happen: a write ends only after it was started, and with an error if the connection was
-- closed by then.
unfoldable pub IsPossible : {T : Type 0} → Event T → QueuedWriter T → Type 0
IsPossible (pushed object) w = Unit
IsPossible closed w = Unit
IsPossible terminated w = Unit
IsPossible (written failed) w =
    (0 < w.connection.outstanding) × (w.connection.doomed ≡ true → failed ≡ true)

-- The writer after the events, the latest of them first.
pub data Reached {T : Type 0} : List (Event T) → QueuedWriter T → Type 0 where
  start : Reached [] fresh
  event :
      {es : List (Event T)} {w : QueuedWriter T}
      → Reached es w
      → (e : Event T) → IsPossible e w
      → Reached (e ∷ es) (run_event e w)

two_or_more : (n : ℕ) → nat_eq (suc (suc n)) 1 ≡ false
two_or_more n = ground arith

module _ {T : Type 0} where
  -- The objects that were pushed, the first of them first.
  unfoldable pub pushes : List (Event T) → List T
  pushes [] = []
  pushes (pushed object ∷ es) = pushes es ++ object ∷ []
  pushes (closed ∷ es) = pushes es
  pushes (terminated ∷ es) = pushes es
  pushes (written failed ∷ es) = pushes es

  unfoldable pub no_failure : List (Event T) → Bool
  no_failure [] = true
  no_failure (written true ∷ es) = false
  no_failure (written false ∷ es) = no_failure es
  no_failure (pushed object ∷ es) = no_failure es
  no_failure (closed ∷ es) = no_failure es
  no_failure (terminated ∷ es) = no_failure es

  -- What stands first in the queue is being written, alone.
  unfoldable pub front : List T → List T
  front [] = []
  front (object ∷ queue) = object ∷ []

  abbrev pub IsFifo : List T → QueuedWriter T → Type 0
  IsFifo objects w =
      (done : List T) × (objects ≡ done ++ w.queue)
      × (w.connection.writes ≡ done ++ front w.queue)
      × (w.connection.outstanding ≡ length (front w.queue))

  -- Behind two objects a new one only waits.
  pub push_busy :
      (object : T) (c : Connection T) (x y : T) (queue : List T) (l : Bool)
      → push object (record { connection = c; queue = x ∷ y ∷ queue; last = l })
        ≡ record { connection = c; queue = x ∷ y ∷ (queue ++ object ∷ []); last = l }
  unfolding push
  push_busy object c x y queue l =
      let w : QueuedWriter T = record {
        connection = c;
        queue = x ∷ y ∷ (queue ++ object ∷ []);
        last = l;
      } in
      ap (λ b. if b then spawn_writer w else w) (two_or_more (length (queue ++ object ∷ [])))

  push_fields :
      (objects : List T) (object : T) (c : Connection T) (queue : List T) (l : Bool)
      → IsFifo objects (record { connection = c; queue = queue; last = l })
      → IsFifo
          (objects ++ object ∷ [])
          (push object (record { connection = c; queue = queue; last = l }))
  unfolding push spawn_writer spawn_front async_write front
  push_fields objects object c [] l (done, p, q, r) = (
    done,
    ap (λ t. t ++ object ∷ []) (p ∙ append-nil done),
    ap (λ t. t ++ object ∷ []) (q ∙ append-nil done),
    omega arith,
  )
  push_fields objects object c (x ∷ []) l (done, p, q, r) =
      (done, ap (λ t. t ++ object ∷ []) p ∙ append_assoc done (x ∷ []) (object ∷ []), q, r)
  push_fields objects object c (x ∷ y ∷ queue) l (done, p, q, r) =
      subst (IsFifo (objects ++ object ∷ [])) (sym (push_busy object c x y queue l))
        (done, ap (λ t. t ++ object ∷ []) p ∙ append_assoc done (x ∷ y ∷ queue) (object ∷ []), q, r)

  written_fields :
      (objects : List T) (c : Connection T) (queue : List T) (l : Bool)
      → 0 < c.outstanding
      → IsFifo objects (record { connection = c; queue = queue; last = l })
      → IsFifo objects
          (run_event (written false) (record { connection = c; queue = queue; last = l }))
  unfolding run_event handle_write pop_front write_next is_drained spawn_writer spawn_front
      async_write front close_connection
  written_fields objects c [] l h (done, p, q, r) = absurd (omega arith)
  written_fields objects c (x ∷ []) true h (done, p, q, r) = (
    done ++ x ∷ [],
    p ∙ sym (append-nil (done ++ x ∷ [])),
    q ∙ sym (append-nil (done ++ x ∷ [])),
    omega arith,
  )
  written_fields objects c (x ∷ []) false h (done, p, q, r) = (
    done ++ x ∷ [],
    p ∙ sym (append-nil (done ++ x ∷ [])),
    q ∙ sym (append-nil (done ++ x ∷ [])),
    omega arith,
  )
  written_fields objects c (x ∷ y ∷ queue) l h (done, p, q, r) = (
    done ++ x ∷ [],
    p ∙ sym (append_assoc done (x ∷ []) (y ∷ queue)),
    ap (λ t. t ++ y ∷ []) q,
    omega arith,
  )

  close_fields :
      (objects : List T) (c : Connection T) (queue : List T) (l : Bool)
      → IsFifo objects (record { connection = c; queue = queue; last = l })
      → IsFifo objects (close (record { connection = c; queue = queue; last = l }))
  unfolding close close_connection is_drained
  close_fields objects c queue true h = h
  close_fields objects c [] false h = h
  close_fields objects c (x ∷ queue) false h = h

  event-IsFifo :
      (es : List (Event T)) (e : Event T) (w : QueuedWriter T)
      → no_failure (e ∷ es) ≡ true
      → IsPossible e w
      → IsFifo (pushes es) w
      → IsFifo (pushes (e ∷ es)) (run_event e w)
  unfolding no_failure pushes run_event IsPossible terminate close_connection
  event-IsFifo es (pushed object) w n p h =
      push_fields (pushes es) object w.connection w.queue w.last h
  event-IsFifo es closed w n p h = close_fields (pushes es) w.connection w.queue w.last h
  event-IsFifo es terminated w n p h = h
  event-IsFifo es (written true) w n p h = cc
  event-IsFifo es (written false) w n p h =
      written_fields (pushes es) w.connection w.queue w.last p.0 h

  no_failure-rest :
      (e : Event T) (es : List (Event T)) → no_failure (e ∷ es) ≡ true → no_failure es ≡ true
  unfolding no_failure
  no_failure-rest (pushed object) es h = h
  no_failure-rest closed es h = h
  no_failure-rest terminated es h = h
  no_failure-rest (written true) es h = cc
  no_failure-rest (written false) es h = h

  -- As long as no write fails, the objects are written in the order in which they were pushed: those
  -- given to the connection and those behind them in the queue are all that were pushed, and one
  -- write is outstanding exactly while the queue holds something.
  pub Reached-IsFifo :
      {es : List (Event T)} {w : QueuedWriter T}
      → Reached es w
      → no_failure es ≡ true
      → IsFifo (pushes es) w
  unfolding no_failure pushes front
  Reached-IsFifo start h = ([], refl, refl, refl)
  Reached-IsFifo (event {es = es} {w = w} r e p) h =
      event-IsFifo es e w h p (Reached-IsFifo r (no_failure-rest e es h))

  pub drained_fields :
      (objects : List T) (c : Connection T) (queue : List T) (l : Bool)
      → IsFifo objects (record { connection = c; queue = queue; last = l })
      → c.outstanding ≡ 0
      → (c.writes ≡ objects) × (queue ≡ [])
  unfolding front
  drained_fields objects c [] l (done, p, q, r) h = (q ∙ sym p, refl)
  drained_fields objects c (x ∷ queue) l (done, p, q, r) h = absurd (omega arith)

  -- As long as no write fails, everything that was pushed has been written, in the order in which it
  -- was pushed, whenever no write is outstanding.
  pub Reached_drained :
      {es : List (Event T)} {w : QueuedWriter T}
      → Reached es w
      → no_failure es ≡ true
      → w.connection.outstanding ≡ 0
      → w.connection.writes ≡ pushes es
  Reached_drained {es = es} {w = w} r h o =
      (drained_fields (pushes es) w.connection w.queue w.last (Reached-IsFifo r h) o).0
