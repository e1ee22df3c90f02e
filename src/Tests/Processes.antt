-- ===== src/Tests/Processes.antt =====
-- bunsan/process: programs with redirected files, and contexts.
use bacs.Base.{
  ℕ, ◌≤◌, Str, ◌≡◌, refl, Bool, true, false, not, Option, none, some, [], ◌∷◌, ok, ◌==◌, nat_Eq,
  list_Eq, arith, is_some, codes, leb, contains, if◌then◌else◌,
}
use bacs.Base.Dict.{lookup, assign, remove}
use bacs.Process.Posix.{Descriptor}
use bacs.Process.Handle.{
  empty_handle, of_descriptor, std_output, open_read_flags, as_handle, close_result, close,
  close_no_except, destroy, reset, move_assign, dup, dup2, open_with, open_read, open_write,
  inheritable, flagged, set_inheritable, inherit_flags,
}
use bacs.Process.Handle.Owners.{Handles, place, IsAccounted, is_open, start, opened, duplicated}
use bacs.Process.Handle.Steps.{own_of}
use bacs.Process.Handle.Accounted.{Reached-IsAccounted}
use bacs.Process.Handle.Inherit.{set_inheritable-inheritable}
use bacs.Process.Execute.{
  stdin_file, stdout_file, stderr_redirect_to_stdout, of_handle, visit_stdin, visit_stdout,
  visit_stderr, with_stdin, with_stdout, with_stderr, open_files, moved_to, inherited,
  make_inheritable, make_standard, then_last, then_stderr, then_stdout, set_up,
}
use bacs.Process.Execute.Composed.{IsRedirected}
use bacs.Process.Execute.Redirected.{set_up-IsRedirected, is_redirected}
use bacs.Process.Context.{
  Filesystem, Context, text, append_one, arguments_append, set_arguments, environment_set, fresh,
  fill_command, load, copy_all, or_else, fill_environment, fill_current_path, decide_use_path,
  is_empty, check_executable, fill_executable, build_, swap_built, build,
}
use bacs.Process.Context.Built.{Outcome, build-Outcome}
use bacs.Tests.Descriptors.{Kernel, kernel, kernel-IsLawful, next, duplicate, change_flag}

abbrev input : Str
input = codes "in"

abbrev output : Str
output = codes "out"

-- A process with its standard descriptors.
abbrev standard : Kernel
standard =
    (0, record { file = codes "tty"; close_on_exec = false })
    ∷ (1, record { file = codes "tty"; close_on_exec = false })
    ∷ (2, record { file = codes "tty"; close_on_exec = false })
    ∷ []

standard_used : (std : ℕ) → std ≤ 2 → is_some (kernel.descriptor std standard) ≡ true
unfolding lookup nat_Eq
standard_used std h = ground arith

abbrev no_temp : Str → Kernel → Option Str × Kernel
no_temp content k = (none, k)

abbrev with_files : Kernel
with_files =
    (4, record { file = output; close_on_exec = true })
    ∷ (3, record { file = input; close_on_exec = true })
    ∷ standard

open_two :
    open_files kernel no_temp
      (stdin_file input)
      (stdout_file output)
      stderr_redirect_to_stdout
      standard
    ≡ (ok (of_descriptor 3, of_descriptor 4, std_output), with_files)
unfolding open_files with_stdin with_stdout with_stderr visit_stdin visit_stdout visit_stderr
    of_handle open_read open_write open_with as_handle next assign
open_two = refl

abbrev after : Kernel
after = (set_up kernel (of_descriptor 3) (of_descriptor 4) std_output with_files).1

set_two : set_up kernel (of_descriptor 3) (of_descriptor 4) std_output with_files ≡ (ok tt, after)
unfolding set_up then_stdout then_stderr then_last make_standard moved_to make_inheritable inherited
    dup2 move_assign reset destroy close_no_except close close_result as_handle set_inheritable
    flagged inherit_flags duplicate change_flag lookup assign remove nat_Eq
set_two = refl

set_up-IsRedirected_example :
    (ni no ne : ℕ) × ((of_descriptor 3).fd ≡ some ni)
    × ((of_descriptor 4).fd ≡ some no)
    × (std_output.fd ≡ some ne)
    × IsRedirected ni no ne
        (is_redirected stderr_redirect_to_stdout)
        (λ m. kernel.descriptor m standard)
        (λ m. kernel.descriptor m with_files)
        (λ m. kernel.descriptor m after)
set_up-IsRedirected_example =
    set_up-IsRedirected kernel kernel-IsLawful no_temp (λ content k m. refl) (stdin_file input)
      (stdout_file output) stderr_redirect_to_stdout (of_descriptor 3) (of_descriptor 4) std_output
      standard with_files after standard_used open_two set_two

-- Descriptor 3 is open for reading.
abbrev flagged_kernel : Kernel
flagged_kernel = (set_inheritable kernel true 3 with_files).1

set_three : set_inheritable kernel true 3 with_files ≡ (ok tt, flagged_kernel)
unfolding set_inheritable flagged inherit_flags change_flag lookup assign nat_Eq
set_three = refl

set_inheritable-inheritable_example :
    ((d : Descriptor Str) × (kernel.descriptor 3 with_files ≡ some d)
      × (kernel.descriptor 3 flagged_kernel
          ≡ some (record { file = d.file; close_on_exec = false })))
    × (inheritable kernel 3 flagged_kernel ≡ inheritable kernel 3 with_files)
set_inheritable-inheritable_example =
    set_inheritable-inheritable kernel kernel-IsLawful true 3 with_files flagged_kernel set_three

-- Only the standard descriptors are there at first; then place 5 opens a file, and place 6 has a duplicate.
abbrev is_standard : ℕ → Bool
is_standard n = leb n 2

abbrev one_open : Handles
one_open = place 5 (of_descriptor 3) (λ i. empty_handle)

abbrev first_file : Kernel
first_file = (3, record { file = input; close_on_exec = true }) ∷ standard

abbrev second_file : Kernel
second_file = (4, record { file = input; close_on_exec = true }) ∷ first_file

standard_start : (n : ℕ) → is_open kernel standard n ≡ is_standard n
unfolding lookup nat_Eq
standard_start n = ground arith

open_one : open_with kernel open_read_flags input standard ≡ (ok (of_descriptor 3), first_file)
unfolding open_with as_handle next assign
open_one = refl

dup_one : dup kernel (one_open 5) first_file ≡ (ok (of_descriptor 4), second_file)
unfolding dup as_handle duplicate lookup assign next nat_Eq
dup_one = refl

Reached-IsAccounted_example :
    IsAccounted is_standard
      (own_of (place 6 (of_descriptor 4) one_open))
      (is_open kernel second_file)
unfolding nat_Eq
Reached-IsAccounted_example = Reached-IsAccounted kernel kernel-IsLawful (
    duplicated
      (opened (start standard_start) 5 open_read_flags input (of_descriptor 3) refl open_one) 6 5
      (of_descriptor 4) refl dup_one)

abbrev starts_with_slash : Str → Bool
starts_with_slash [] = false
starts_with_slash (c ∷ s) = c == b'/'

-- `ls`, with one variable of its own and one of the process.
abbrev file_names : Filesystem
file_names = record {
  is_filename = λ p. not (contains b'/' p);
  is_absolute = λ p. starts_with_slash p;
  absolute = λ p. some (if starts_with_slash p then p else b'/' ∷ p);
  current_path = some (codes "/");
  environment = (codes "HOME", codes "/root") ∷ [];
}

abbrev listing : Context
listing = environment_set (codes "LANG") (codes "C") (set_arguments (text (codes "ls") ∷ []) fresh)

build-Outcome_example : Outcome file_names listing (build file_names listing)
build-Outcome_example = build-Outcome file_names listing

-- The executable is the first argument.
listing_built : (build file_names listing).1.executable ≡ some (codes "ls")
unfolding build build_ swap_built fill_command fill_executable fill_environment fill_current_path
    check_executable decide_use_path or_else is_empty environment_set set_arguments arguments_append
    append_one contains nat_Eq copy_all load assign
listing_built = refl
