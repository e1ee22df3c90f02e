-- ===== src/Process/Execute/Redirected.antt =====
-- bunsan/process/src/process/native_executor.cpp and src/process/detail/unix/execute.cpp: which files the
-- process that is executed gets.
use bacs.Base.{
  is_some, ℕ, ◌≤◌, ◌≡◌, ◌⊎◌, inl, inr, refl, sym, ◌∙◌, ap, subst, Str, Bool, true, false, Option,
  none, some, some_path, Result, ok, err, ok_path, ==_ne, nat_Eq, arith,
}
use bacs.Process.Posix.{Posix, IsLawful, OpenFlags}
use bacs.Process.Handle.{
  Handle, HandleError, make_handle, std_output, open_failed, open_with, open_null, open_read,
  open_write, open_read_write,
}
use bacs.Process.Handle.Steps.{as_handle-is_new}
use bacs.Process.Execute.{
  StdinData, stdin_default, stdin_inherit, stdin_suppress, stdin_text, stdin_file, StdoutData,
  stdout_default, stdout_inherit, stdout_suppress, stdout_file, StderrData, stderr_default,
  stderr_inherit, stderr_suppress, stderr_redirect_to_stdout, stderr_file, of_handle, open_text,
  visit_stdin, visit_stdout, visit_stderr, open_files, make_standard, set_up, ExecuteError,
}
use bacs.Process.Execute.Tables.{Table, IsOpened}
use bacs.Process.Execute.Returned.{with_stdin-is_ok, then_stdout-is_ok}
use bacs.Process.Execute.Composed.{IsRedirected, tables-IsRedirected}
use bacs.Process.Execute.Standard.{make_standard-descriptor}

-- Standard error goes where standard output goes.
unfoldable pub is_redirected : StderrData → Bool
is_redirected stderr_redirect_to_stdout = true
is_redirected stderr_default = false
is_redirected stderr_inherit = false
is_redirected stderr_suppress = false
is_redirected (stderr_file path) = false

-- The descriptor that a handle for standard error has if it opens none.
abbrev error_std : StderrData → ℕ
error_std stderr_redirect_to_stdout = 1
error_std stderr_default = 2
error_std stderr_inherit = 2
error_std stderr_suppress = 2
error_std (stderr_file path) = 2

error_std-bound : (c : StderrData) → (error_std c ≡ 1) ⊎ (error_std c ≡ 2)
error_std-bound stderr_redirect_to_stdout = inl refl
error_std-bound stderr_default = inr refl
error_std-bound stderr_inherit = inr refl
error_std-bound stderr_suppress = inr refl
error_std-bound (stderr_file path) = inr refl

not_redirected : (c : StderrData) → is_redirected c ≡ false → error_std c ≡ 2
unfolding is_redirected
not_redirected stderr_redirect_to_stdout h = cc
not_redirected stderr_default h = refl
not_redirected stderr_inherit h = refl
not_redirected stderr_suppress h = refl
not_redirected (stderr_file path) h = refl

module _ {K F : Type 0} (posix : Posix K F) (law : IsLawful posix) where
  abbrev pub table : K → Table F
  table k m = posix.descriptor m k

  -- A handle that a visitor made.
  record IsVisited (std : ℕ) (k k' : K) (h : Handle) : Type 0 where
    n : ℕ
    c : Bool
    is : h ≡ record { fd = some n; close_ = c }
    is_opened : IsOpened std n c (table k) (table k')

  inherited-IsVisited : (std : ℕ) (k : K) → IsVisited std k k (make_handle std false)
  inherited-IsVisited std k = record {
    n = std;
    c = false;
    is = refl;
    is_opened = record { kind = inl (refl, refl); same = λ m q. refl };
  }

  kept-IsVisited :
      (std : ℕ) (k k' : K) (h : Handle)
      → ◌≡◌ {A = Result ExecuteError Handle × K} (ok (make_handle std false), k) (ok h, k')
      → IsVisited std k k' h
  kept-IsVisited std k k' h e =
      subst (λ z. IsVisited std k z h) (ap (λ r. r.1) e)
        (subst (λ z. IsVisited std k k z) (ok_path {E = ExecuteError} (ap (λ r. r.0) e))
          (inherited-IsVisited std k))

  of_handle-is_ok :
      (r : Result HandleError Handle × K) (h : Handle) (k' : K)
      → of_handle posix r ≡ (ok h, k')
      → r ≡ (ok h, k')
  unfolding of_handle
  of_handle-is_ok (ok h, k) h' k' e =
      λ i. (ok (ok_path {E = ExecuteError} (ap (λ r. r.0) e) i), (e i).1)
  of_handle-is_ok (err x, k) h' k' e = cc

  opened-IsVisited :
      (std : ℕ) (flags : OpenFlags) (path : Str) (k0 k k' : K) (h : Handle)
      → ((m : ℕ) → posix.descriptor m k ≡ posix.descriptor m k0)
      → of_handle posix (open_with posix flags path k) ≡ (ok h, k')
      → IsVisited std k0 k' h
  unfolding open_with
  opened-IsVisited std flags path k0 k k' h same e =
      let (n, q, r) =
        as_handle-is_new posix open_failed (posix.sys_open path flags k) h k'
          (of_handle-is_ok _ h k' e) in
      let (f, made) = law.open_new r in
      record {
        n = n;
        c = true;
        is = sym q;
        is_opened = record {
          kind = inr (refl, sym (same n) ∙ law.open_free r, rw made refl);
          same = λ m d. law.open_others r m (==_ne m n (d refl)) ∙ same m;
        };
      }

  visit_stdout-IsVisited :
      (data_ : StdoutData) (k k' : K) (h : Handle)
      → visit_stdout posix data_ k ≡ (ok h, k')
      → IsVisited 1 k k' h
  unfolding visit_stdout open_null open_write open_read_write
  visit_stdout-IsVisited stdout_default k k' h e = kept-IsVisited 1 k k' h e
  visit_stdout-IsVisited stdout_inherit k k' h e = kept-IsVisited 1 k k' h e
  visit_stdout-IsVisited stdout_suppress k k' h e = opened-IsVisited 1 _ _ k k k' h (λ m. refl) e
  visit_stdout-IsVisited (stdout_file path) k k' h e = opened-IsVisited 1 _ _ k k k' h (λ m. refl) e

  visit_stderr-IsVisited :
      (data_ : StderrData) (k k' : K) (h : Handle)
      → visit_stderr posix data_ k ≡ (ok h, k')
      → IsVisited (error_std data_) k k' h
  unfolding visit_stderr open_null open_write open_read_write
  visit_stderr-IsVisited stderr_default k k' h e = kept-IsVisited 2 k k' h e
  visit_stderr-IsVisited stderr_inherit k k' h e = kept-IsVisited 2 k k' h e
  visit_stderr-IsVisited stderr_suppress k k' h e = opened-IsVisited 2 _ _ k k k' h (λ m. refl) e
  visit_stderr-IsVisited stderr_redirect_to_stdout k k' h e = kept-IsVisited 1 k k' h e
  visit_stderr-IsVisited (stderr_file path) k k' h e = opened-IsVisited 2 _ _ k k k' h (λ m. refl) e

  text-IsVisited :
      (r : Option Str × K) (k k' : K) (h : Handle)
      → ((m : ℕ) → posix.descriptor m r.1 ≡ posix.descriptor m k)
      → open_text posix r ≡ (ok h, k')
      → IsVisited 0 k k' h
  unfolding open_text open_read
  text-IsVisited (none, l) k k' h same e = cc
  text-IsVisited (some path, l) k k' h same e = opened-IsVisited 0 _ _ k l k' h same e

  visit_stdin-IsVisited :
      (write_temp : Str → K → Option Str × K)
      → ((text : Str) (k : K) (m : ℕ)
          → posix.descriptor m (write_temp text k).1 ≡ posix.descriptor m k)
      → (data_ : StdinData) (k k' : K) (h : Handle)
      → visit_stdin posix write_temp data_ k ≡ (ok h, k')
      → IsVisited 0 k k' h
  unfolding visit_stdin open_null open_read open_read_write
  visit_stdin-IsVisited write_temp quiet stdin_default k k' h e =
      opened-IsVisited 0 _ _ k k k' h (λ m. refl) e
  visit_stdin-IsVisited write_temp quiet stdin_inherit k k' h e = kept-IsVisited 0 k k' h e
  visit_stdin-IsVisited write_temp quiet stdin_suppress k k' h e =
      opened-IsVisited 0 _ _ k k k' h (λ m. refl) e
  visit_stdin-IsVisited write_temp quiet (stdin_text text) k k' h e =
      text-IsVisited (write_temp text k) k k' h (quiet text k) e
  visit_stdin-IsVisited write_temp quiet (stdin_file path) k k' h e =
      opened-IsVisited 0 _ _ k k k' h (λ m. refl) e

  redirected-output :
      (c : StderrData) (k k' : K) (h : Handle)
      → is_redirected c ≡ true
      → visit_stderr posix c k ≡ (ok h, k')
      → h ≡ std_output
  unfolding is_redirected visit_stderr
  redirected-output stderr_redirect_to_stdout k k' h x e =
      sym (ok_path {E = ExecuteError} (ap (λ (r : Result ExecuteError Handle × K). r.0) e))
  redirected-output stderr_default k k' h x e = cc
  redirected-output stderr_inherit k k' h x e = cc
  redirected-output stderr_suppress k k' h x e = cc
  redirected-output (stderr_file path) k k' h x e = cc

  -- If the files of a program were opened and its process was set up without an exception, in a process
  -- that has its standard descriptors: standard input, output and error of the new process are the files
  -- that the three handles were made for, and inherited; standard error is the file of standard output
  -- where it is redirected there; and every other descriptor is as it was before the files were opened.
  pub set_up-IsRedirected :
      (write_temp : Str → K → Option Str × K)
      → ((text : Str) (k : K) (m : ℕ)
          → posix.descriptor m (write_temp text k).1 ≡ posix.descriptor m k)
      → (a : StdinData) (b : StdoutData) (c : StderrData) (i o e : Handle) (k k' l : K)
      → ((std : ℕ) → std ≤ 2 → is_some (posix.descriptor std k) ≡ true)
      → open_files posix write_temp a b c k ≡ (ok (i, o, e), k')
      → set_up posix i o e k' ≡ (ok tt, l)
      → (ni no ne : ℕ) × (i.fd ≡ some ni)
        × (o.fd ≡ some no)
        × (e.fd ≡ some ne)
        × IsRedirected ni no ne (is_redirected c) (table k) (table k') (table l)
  unfolding open_files set_up
  set_up-IsRedirected write_temp quiet a b c i o e k k' l used opened set =
      let (k1, k2, p, q, r) =
        with_stdin-is_ok posix b c (visit_stdin posix write_temp a k) i o e k' opened in
      let vi = visit_stdin-IsVisited write_temp quiet a k k1 i p in
      let vo = visit_stdout-IsVisited b k1 k2 o q in
      let ve = visit_stderr-IsVisited c k2 k' e r in
      let (i', o', e', l1, l2, x, y, z) =
        then_stdout-is_ok posix o e (make_standard posix 0 i k') l set in
      let (di, pi, ti) =
        make_standard-descriptor posix law 0 vi.n vi.c i' k' l1
          (subst (λ h. make_standard posix 0 h k' ≡ (ok i', l1)) vi.is x) in
      let (d1, po, to) =
        make_standard-descriptor posix law 1 vo.n vo.c o' l1 l2
          (subst (λ h. make_standard posix 1 h l1 ≡ (ok o', l2)) vo.is y) in
      let (de, pe, te) =
        make_standard-descriptor posix law 2 ve.n ve.c e' l2 l
          (subst (λ h. make_standard posix 2 h l2 ≡ (ok e', l)) ve.is z) in
      (
        vi.n,
        vo.n,
        ve.n,
        ap (λ (h : Handle). h.fd) vi.is,
        ap (λ (h : Handle). h.fd) vo.is,
        ap (λ (h : Handle). h.fd) ve.is,
        tables-IsRedirected (table k) (table k1) (table k2) (table k') vi.n vo.n ve.n (error_std c)
            vi.c vo.c ve.c vi.is_opened vo.is_opened ve.is_opened (error_std-bound c)
            (used 0 (omega arith)) (used 1 (omega arith)) (used 2 (omega arith)) di d1 de (table l1)
            (table l2) (table l) ti to te pi po pe (is_redirected c)
            (λ x.
              some_path (ap (λ (h : Handle). h.fd) (sym ve.is ∙ redirected-output c k2 k' e x r)))
            (not_redirected c),
      )
