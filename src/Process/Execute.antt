-- ===== src/Process/Execute.antt =====
-- bunsan/process/src/process/native_executor.cpp and src/process/detail/unix/execute.cpp: the files of a
-- program that is executed, and how its process gets them.
pub mod Tables
pub mod Composed
pub mod Returned
pub mod Standard
pub mod Redirected
use bacs.Base.{
  ℕ, Str, Bool, true, false, Option, none, some, Result, ok, err, ◌==◌, nat_Eq, if◌then◌else◌,
}
use bacs.Process.Posix.{Posix}
use bacs.Process.Handle.{
  Handle, HandleError, dup3_failed, handle_is_closed, std_input, std_output, std_error, open_null,
  open_read, open_write, dup2, destroy, move_assign, set_inheritable,
}

-- The variants stdin_data_type, stdout_data_type and stderr_data_type.
pub data StdinData : Type 0 where
  stdin_default stdin_inherit stdin_suppress : StdinData
  stdin_text stdin_file : Str → StdinData

pub data StdoutData : Type 0 where
  stdout_default stdout_inherit stdout_suppress : StdoutData
  stdout_file : Str → StdoutData

pub data StderrData : Type 0 where
  stderr_default stderr_inherit stderr_suppress stderr_redirect_to_stdout : StderrData
  stderr_file : Str → StderrData

pub data ExecuteError : Type 0 where
  handle_error : HandleError → ExecuteError
  tempfile_error : ExecuteError

module _ {K F : Type 0} (posix : Posix K F) where
  unfoldable pub of_handle : Result HandleError Handle × K → Result ExecuteError Handle × K
  of_handle (ok h, k) = (ok h, k)
  of_handle (err e, k) = (err (handle_error e), k)

  unfoldable pub open_text : Option Str × K → Result ExecuteError Handle × K
  unfolding of_handle open_read
  open_text (none, k) = (err tempfile_error, k)
  open_text (some path, k) = of_handle (open_read posix path k)

  -- file_action_visitor on the three variants. `write_temp` makes a temporary file with a text, and
  -- returns its path.
  module _ (write_temp : Str → K → Option Str × K) where
    unfoldable pub visit_stdin : StdinData → K → Result ExecuteError Handle × K
    unfolding of_handle open_text open_null open_read
    visit_stdin stdin_default k = of_handle (open_null posix k)
    visit_stdin stdin_inherit k = (ok std_input, k)
    visit_stdin stdin_suppress k = of_handle (open_null posix k)
    visit_stdin (stdin_text text) k = open_text (write_temp text k)
    visit_stdin (stdin_file path) k = of_handle (open_read posix path k)

  unfoldable pub visit_stdout : StdoutData → K → Result ExecuteError Handle × K
  unfolding of_handle open_null open_write
  visit_stdout stdout_default k = (ok std_output, k)
  visit_stdout stdout_inherit k = (ok std_output, k)
  visit_stdout stdout_suppress k = of_handle (open_null posix k)
  visit_stdout (stdout_file path) k = of_handle (open_write posix path k)

  unfoldable pub visit_stderr : StderrData → K → Result ExecuteError Handle × K
  unfolding of_handle open_null open_write
  visit_stderr stderr_default k = (ok std_error, k)
  visit_stderr stderr_inherit k = (ok std_error, k)
  visit_stderr stderr_suppress k = of_handle (open_null posix k)
  visit_stderr stderr_redirect_to_stdout k = (ok std_output, k)
  visit_stderr (stderr_file path) k = of_handle (open_write posix path k)

  -- An exception destroys the handles that were made before it.
  unfoldable pub with_stderr :
      Handle
      → Handle
      → Result ExecuteError Handle × K
      → Result ExecuteError (Handle × Handle × Handle) × K
  unfolding destroy
  with_stderr i o (err e, k) = (err e, destroy posix i (destroy posix o k))
  with_stderr i o (ok e, k) = (ok (i, o, e), k)

  unfoldable pub with_stdout :
      StderrData
      → Handle
      → Result ExecuteError Handle × K
      → Result ExecuteError (Handle × Handle × Handle) × K
  unfolding with_stderr visit_stderr destroy
  with_stdout stderr_data i (err e, k) = (err e, destroy posix i k)
  with_stdout stderr_data i (ok o, k) = with_stderr i o (visit_stderr stderr_data k)

  unfoldable pub with_stdin :
      StdoutData
      → StderrData
      → Result ExecuteError Handle × K
      → Result ExecuteError (Handle × Handle × Handle) × K
  unfolding with_stdout visit_stdout
  with_stdin stdout_data stderr_data (err e, k) = (err e, k)
  with_stdin stdout_data stderr_data (ok i, k) =
      with_stdout stderr_data i (visit_stdout stdout_data k)

  -- The handles of detail::context.
  unfoldable pub open_files :
      (Str → K → Option Str × K)
      → StdinData
      → StdoutData
      → StderrData
      → K
      → Result ExecuteError (Handle × Handle × Handle) × K
  unfolding with_stdin visit_stdin
  open_files write_temp stdin_data stdout_data stderr_data k =
      with_stdin stdout_data stderr_data (visit_stdin write_temp stdin_data k)

  -- The process that was forked: `if (*h != std) h = h.dup2(std)`, `h.set_inheritable()`.
  unfoldable pub moved_to : Handle → Result HandleError Handle × K → Result HandleError Handle × K
  unfolding move_assign
  moved_to h (err e, k) = (err e, k)
  moved_to h (ok t, k) = let left = move_assign posix h t k in (ok left.0, left.2)

  unfoldable pub inherited : Handle → Result HandleError Unit × K → Result HandleError Handle × K
  inherited h (err e, k) = (err e, k)
  inherited h (ok u, k) = (ok h, k)

  -- An empty handle cannot be read; the code does not come here with one.
  unfoldable pub make_inheritable : Result HandleError Handle × K → Result HandleError Handle × K
  unfolding inherited set_inheritable
  make_inheritable (err e, k) = (err e, k)
  make_inheritable (ok h, k) = elim h.fd [
    | none ↦ (err handle_is_closed, k)
    | some n ↦ inherited h (set_inheritable posix true n k)
  ]

  unfoldable pub make_standard : ℕ → Handle → K → Result HandleError Handle × K
  unfolding moved_to make_inheritable dup2
  make_standard std h k = elim h.fd [
    | none ↦ (err handle_is_closed, k)
    | some n ↦
        let stays = make_inheritable (ok h, k) in
        let moves = make_inheritable (moved_to h (dup2 posix std h k)) in
        if n == std then stays else moves
  ]

  unfoldable pub then_last : Result HandleError Handle × K → Result HandleError Unit × K
  then_last (err x, k) = (err x, k)
  then_last (ok h, k) = (ok tt, k)

  unfoldable pub then_stderr : Handle → Result HandleError Handle × K → Result HandleError Unit × K
  unfolding make_standard then_last
  then_stderr e (err x, k) = (err x, k)
  then_stderr e (ok h, k) = then_last (make_standard 2 e k)

  unfoldable pub then_stdout :
      Handle → Handle → Result HandleError Handle × K → Result HandleError Unit × K
  unfolding then_stderr make_standard
  then_stdout o e (err x, k) = (err x, k)
  then_stdout o e (ok h, k) = then_stderr e (make_standard 1 o k)

  -- The standard files of the new process, up to `exec`.
  unfoldable pub set_up : Handle → Handle → Handle → K → Result HandleError Unit × K
  unfolding then_stdout make_standard
  set_up i o e k = then_stdout o e (make_standard 0 i k)
