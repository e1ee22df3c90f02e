-- ===== src/Process/Handle.antt =====
-- bunsan/process/src/process/file/handle.cpp and include/bunsan/process/file/handle.hpp: handles on
-- descriptors, on a POSIX system. A method returns what it leaves of the handle and of the kernel.
pub mod Owners
pub mod Steps
pub mod Unchanged
pub mod Accounted
pub mod Inherit
use bacs.Base.{
  ℕ, ◌+◌, ◌-◌, ◌%◌, Str, Bool, true, false, Option, none, some, Result, ok, err, ◌==◌, nat_Eq,
  codes, if◌then◌else◌,
}
use bacs.Process.Posix.{Posix, OpenFlags, read_only, write_only, read_write}

pub record Handle : Type 0 where
  pub fd : Option ℕ
  pub close_ : Bool

pub data HandleError : Type 0 where
  handle_is_closed close_failed fcntl_failed dup3_failed open_failed : HandleError

-- The constructors.
abbrev pub empty_handle : Handle
empty_handle = record { fd = none; close_ = true }

abbrev pub of_descriptor : ℕ → Handle
of_descriptor n = record { fd = some n; close_ = true }

abbrev pub make_handle : ℕ → Bool → Handle
make_handle n close = record { fd = some n; close_ = close }

abbrev pub std_input : Handle
std_input = make_handle 0 false

abbrev pub std_output : Handle
std_output = make_handle 1 false

abbrev pub std_error : Handle
std_error = make_handle 2 false

-- The flags of the four ways to open a file.
abbrev pub open_read_flags : OpenFlags
open_read_flags = record {
  access = read_only;
  create = false;
  truncate = false;
  append = false;
  close_on_exec = true;
  mode = none;
}

abbrev pub open_write_flags : OpenFlags
open_write_flags = record {
  access = write_only;
  create = true;
  truncate = true;
  append = false;
  close_on_exec = true;
  mode = some 438;
}

abbrev pub open_read_write_flags : OpenFlags
open_read_write_flags = record {
  access = read_write;
  create = true;
  truncate = false;
  append = false;
  close_on_exec = true;
  mode = some 438;
}

abbrev pub open_append_flags : OpenFlags
open_append_flags = record {
  access = write_only;
  create = true;
  truncate = false;
  append = true;
  close_on_exec = true;
  mode = none;
}

-- `flags &= ~FD_CLOEXEC` and `flags |= FD_CLOEXEC`
unfoldable pub inherit_flags : Bool → ℕ → ℕ
inherit_flags inheritable flags = if inheritable then flags - flags % 2 else flags - flags % 2 + 1

module _ {K F : Type 0} (posix : Posix K F) where
  -- What a method that may throw leaves: its result, the handle, and the kernel.
  unfoldable pub close_result : Bool × K → Result HandleError Unit × K
  close_result (true, k) = (ok tt, k)
  close_result (false, k) = (err close_failed, k)

  -- `close`: the scope guard makes the handle empty in every case.
  unfoldable pub close : Handle → K → Result HandleError Unit × Handle × K
  unfolding close_result
  close h k = elim h.fd [
    | none ↦ (ok tt, h, k)
    | some n ↦
        let done = close_result (posix.sys_close n k) in
        (done.0, record { fd = none; close_ = h.close_ }, done.1)
  ]

  unfoldable pub close_no_except : Handle → K → Handle × K
  unfolding close
  close_no_except h k = let done = close h k in (done.1, done.2)

  -- The destructor.
  unfoldable pub destroy : Handle → K → K
  unfolding close_no_except
  destroy h k = if h.close_ then (close_no_except h k).1 else k

  -- `reset` swaps with a temporary handle, whose destructor runs.
  unfoldable pub reset : Handle → K → Handle × K
  unfolding destroy
  reset h k = (empty_handle, destroy h k)

  unfoldable pub reset_to : ℕ → Handle → K → Handle × K
  unfolding destroy
  reset_to n h k = (of_descriptor n, destroy h k)

  -- The move constructor of a new handle, and move assignment: this handle, the other one, the kernel.
  unfoldable pub move_construct : Handle → K → Handle × Handle × K
  unfolding reset
  move_construct o k = let left = reset empty_handle k in (o, left.0, left.1)

  unfoldable pub move_assign : Handle → Handle → K → Handle × Handle × K
  unfolding reset
  move_assign h o k = let left = reset h k in (o, left.0, left.1)

  -- A call that returned a descriptor, or failed.
  unfoldable pub as_handle : HandleError → Option ℕ × K → Result HandleError Handle × K
  as_handle error (none, k) = (err error, k)
  as_handle error (some n, k) = (ok (of_descriptor n), k)

  unfoldable pub dup : Handle → K → Result HandleError Handle × K
  unfolding as_handle
  dup h k = elim h.fd [
    | none ↦ (err handle_is_closed, k)
    | some n ↦ as_handle fcntl_failed (posix.dup_cloexec n k)
  ]

  unfoldable pub dup2 : ℕ → Handle → K → Result HandleError Handle × K
  unfolding as_handle
  dup2 new_fd h k = elim h.fd [
    | none ↦ (err handle_is_closed, k)
    | some n ↦ as_handle dup3_failed (posix.dup3 n new_fd k)
  ]

  unfoldable pub open_with : OpenFlags → Str → K → Result HandleError Handle × K
  unfolding as_handle
  open_with flags path k = as_handle open_failed (posix.sys_open path flags k)

  unfoldable pub open_read : Str → K → Result HandleError Handle × K
  unfolding open_with
  open_read = open_with open_read_flags

  unfoldable pub open_write : Str → K → Result HandleError Handle × K
  unfolding open_with
  open_write = open_with open_write_flags

  unfoldable pub open_read_write : Str → K → Result HandleError Handle × K
  unfolding open_with
  open_read_write = open_with open_read_write_flags

  unfoldable pub open_append : Str → K → Result HandleError Handle × K
  unfolding open_with
  open_append = open_with open_append_flags

  unfoldable pub open_null : K → Result HandleError Handle × K
  unfolding open_read_write
  open_null = open_read_write (codes "/dev/null")

  -- `fcntl(F_GETFL) & FD_CLOEXEC`, of a handle that is not empty.
  unfoldable pub inheritable : ℕ → K → Bool
  inheritable n k = (posix.get_fl n k % 2) == 1

  unfoldable pub flagged : Bool × K → Result HandleError Unit × K
  flagged (true, k) = (ok tt, k)
  flagged (false, k) = (err fcntl_failed, k)

  unfoldable pub set_inheritable : Bool → ℕ → K → Result HandleError Unit × K
  unfolding flagged inherit_flags
  set_inheritable inherit n k =
      flagged (posix.set_fd n (inherit_flags inherit (posix.get_fl n k)) k)
