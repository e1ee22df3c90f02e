-- ===== src/Process/Execute/Returned.antt =====
-- bunsan/process/src/process/native_executor.cpp and src/process/detail/unix/execute.cpp: what has happened
-- where nothing was thrown.
use bacs.Base.{◌≡◌, refl, ap, Result, ok, err, ok_path}
use bacs.Process.Posix.{Posix}
use bacs.Process.Handle.{Handle, HandleError}
use bacs.Process.Execute.{
  StdoutData, StderrData, ExecuteError, visit_stdout, visit_stderr, with_stdin, with_stdout,
  with_stderr, make_standard, then_stdout, then_stderr, then_last,
}

module _ {K F : Type 0} (posix : Posix K F) where
  -- The three handles, and the handle that a method returned.
  abbrev Three : Type 0
  Three = Result ExecuteError (Handle × Handle × Handle) × K

  abbrev One : Type 0
  One = Result ExecuteError Handle × K

  with_stderr-is_ok :
      (j l : Handle) (r : One) (i o e : Handle) (k : K)
      → with_stderr posix j l r ≡ (ok (i, o, e), k)
      → (j ≡ i) × (l ≡ o) × (r ≡ (ok e, k))
  unfolding with_stderr
  with_stderr-is_ok j l (err x, k1) i o e k p = cc
  with_stderr-is_ok j l (ok h, k1) i o e k p =
      let q = ok_path {E = ExecuteError} (ap (λ (r : Three). r.0) p) in
      (ap (λ h. h.0) q, ap (λ h. h.1) q, λ n. (ok (q n).2, (p n).1))

  with_stdout-is_ok :
      (c : StderrData) (j : Handle) (r : One) (i o e : Handle) (k : K)
      → with_stdout posix c j r ≡ (ok (i, o, e), k)
      → (j ≡ i) × ((k1 : K) × (r ≡ (ok o, k1)) × (visit_stderr posix c k1 ≡ (ok e, k)))
  unfolding with_stdout
  with_stdout-is_ok c j (err x, k1) i o e k p = cc
  with_stdout-is_ok c j (ok l, k1) i o e k p =
      let (a, b, d) = with_stderr-is_ok j l (visit_stderr posix c k1) i o e k p in
      (a, (k1, (λ n. (ok (b n), k1)), d))

  pub with_stdin-is_ok :
      (b : StdoutData) (c : StderrData) (r : One) (i o e : Handle) (k : K)
      → with_stdin posix b c r ≡ (ok (i, o, e), k)
      → (k1 k2 : K) × (r ≡ (ok i, k1))
        × (visit_stdout posix b k1 ≡ (ok o, k2))
        × (visit_stderr posix c k2 ≡ (ok e, k))
  unfolding with_stdin
  with_stdin-is_ok b c (err x, k1) i o e k p = cc
  with_stdin-is_ok b c (ok j, k1) i o e k p =
      let (a, (k2, d, f)) = with_stdout-is_ok c j (visit_stdout posix b k1) i o e k p in
      (k1, k2, (λ n. (ok (a n), k1)), d, f)

  then_stderr-is_ok :
      (e : Handle) (r : Result HandleError Handle × K) (k : K)
      → then_stderr posix e r ≡ (ok tt, k)
      → (o' e' : Handle) × (k1 : K) × (r ≡ (ok o', k1)) × (make_standard posix 2 e k1 ≡ (ok e', k))
  unfolding then_stderr then_last
  then_stderr-is_ok e (err x, k1) k p = cc
  then_stderr-is_ok e (ok h, k1) k p =
      let (e', q) = last (make_standard posix 2 e k1) p in (h, e', k1, refl, q)
    where
      last :
          (r : Result HandleError Handle × K)
          → then_last posix r ≡ (ok tt, k)
          → (e' : Handle) × (r ≡ (ok e', k))
      last (err x, l) p = cc
      last (ok h, l) p = (h, λ n. (ok h, (p n).1))

  pub then_stdout-is_ok :
      (o e : Handle) (r : Result HandleError Handle × K) (k : K)
      → then_stdout posix o e r ≡ (ok tt, k)
      → (i' o' e' : Handle) × (k1 k2 : K) × (r ≡ (ok i', k1))
        × (make_standard posix 1 o k1 ≡ (ok o', k2))
        × (make_standard posix 2 e k2 ≡ (ok e', k))
  unfolding then_stdout
  then_stdout-is_ok o e (err x, k1) k p = cc
  then_stdout-is_ok o e (ok h, k1) k p =
      let (o', e', k2, q, r) = then_stderr-is_ok e (make_standard posix 1 o k1) k p in
      (h, o', e', k1, k2, refl, q, r)
