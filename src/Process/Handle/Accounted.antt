-- ===== src/Process/Handle/Accounted.antt =====
-- handle (bunsan/process/src/process/file/handle.cpp): no descriptor is leaked, closed twice, or closed
-- for another owner.
use bacs.Base.{ℕ, refl, Bool, true, false, ◌==◌, nat_Eq, arith, if◌then◌else◌}
use bacs.Process.Posix.{Posix, IsLawful}
use bacs.Process.Handle.{
  empty_handle, of_descriptor, make_handle, destroy, reset, move_assign, set_inheritable,
}
use bacs.Process.Handle.Owners.{
  Handles, place, IsAccounted, start-IsAccounted, unchanged-IsAccounted, swap-IsAccounted, flagged_,
  free_unowned, is_open, Reached, start, opened, duplicated, duplicated_to, adopted, borrowed,
  failed, reset_, closed_, moved, swapped,
}
use bacs.Process.Handle.Steps.{
  own_of, empty-owns, none-owns, borrowed-owns, own_of-place, open_still, given-IsAccounted,
  emptied-IsAccounted, destroy-is_open, step_open, step_dup, step_dup2, step_close, step_move,
}
use bacs.Process.Handle.Unchanged.{Failed-is_open, set_inheritable-is_open}

module _ {K F : Type 0} (posix : Posix K F) (law : IsLawful posix) where
  -- A program opens, duplicates, adopts, borrows, resets, moves and swaps handles, closes only handles
  -- that own what they hold, and duplicates onto or adopts only descriptors that no handle owns. In every
  -- state that it reaches, of each descriptor that is open either the handles have never been in charge,
  -- or exactly one handle closes it; and no handle is in charge of a descriptor that is closed, or that
  -- is not the handles' own.
  pub Reached-IsAccounted :
      {free : ℕ → Bool} {hs : Handles} {k : K}
      → Reached posix free hs k
      → IsAccounted free (own_of hs) (is_open posix k)
  unfolding reset move_assign
  Reached-IsAccounted (start {free} {k} same) =
      start-IsAccounted free (own_of (λ i. empty_handle)) (is_open posix k) same
        (λ j m. none-owns true m)
  Reached-IsAccounted (opened {free} {hs} {k} {k'} r i flags path h e p) =
      step_open posix law free hs k k' i flags path h (Reached-IsAccounted r) e p
  Reached-IsAccounted (duplicated {free} {hs} {k} {k'} r i j h e p) =
      step_dup posix law free hs k k' i (hs j).fd (hs j).close_ h (Reached-IsAccounted r) e p
  Reached-IsAccounted (duplicated_to {free} {hs} {k} {k'} r i j n h e u p) =
      step_dup2 posix law free hs k k' i n (hs j).fd (hs j).close_ h (Reached-IsAccounted r) e u p
  Reached-IsAccounted (adopted {free} {hs} {k} r i n e f) =
      let a = Reached-IsAccounted r in
      given-IsAccounted posix law free (λ m. if m == n then false else free m) hs k k i n
        (of_descriptor n) a e refl (λ l. free_unowned free (own_of hs) (is_open posix k) l n a f)
        (λ m. open_still (is_open posix k) n m (a.free_open n f)) (λ m. refl)
  Reached-IsAccounted (borrowed {free} {hs} {k} r i n e) =
      unchanged-IsAccounted free (own_of hs) (own_of (place i (make_handle n false) hs))
        (is_open posix k) (is_open posix k) (Reached-IsAccounted r) (λ m. refl)
        (λ j m. ground (
          arith,
          own_of-place hs i (make_handle n false) j m,
          borrowed-owns n m,
          empty-owns (hs i) m e,
        ))
  Reached-IsAccounted (failed {free} {hs} {k} {k'} r f) =
      unchanged-IsAccounted free (own_of hs) (own_of hs) (is_open posix k) (is_open posix k')
        (Reached-IsAccounted r) (λ m. Failed-is_open posix law hs k k' m f) (λ j m. refl)
  Reached-IsAccounted (flagged_ {free} {hs} {k} r n inherit) =
      unchanged-IsAccounted free (own_of hs) (own_of hs) (is_open posix k)
        (is_open posix (set_inheritable posix inherit n k).1) (Reached-IsAccounted r)
        (λ m. set_inheritable-is_open posix law inherit n m k) (λ j m. refl)
  Reached-IsAccounted (reset_ {free} {hs} {k} r i) =
      emptied-IsAccounted posix law free hs k (destroy posix (hs i) k) i empty_handle
        (Reached-IsAccounted r) (none-owns true) (λ m. destroy-is_open posix law (hs i) m k)
  Reached-IsAccounted (closed_ {free} {hs} {k} r i c) =
      step_close posix law free hs k i (Reached-IsAccounted r) c
  Reached-IsAccounted (moved {free} {hs} {k} r i j n) =
      step_move posix law free hs k i j (Reached-IsAccounted r) n
  Reached-IsAccounted (swapped {free} {hs} {k} r i j) =
      swap-IsAccounted free (own_of hs) (own_of (place i (hs j) (place j (hs i) hs)))
        (is_open posix k) i j (Reached-IsAccounted r) (λ l m. ground arith)
