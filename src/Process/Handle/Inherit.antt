-- ===== src/Process/Handle/Inherit.antt =====
-- handle (bunsan/process/src/process/file/handle.cpp): set_inheritable, and what inheritable says of it.
use bacs.Base.{ℕ, ◌%◌, ◌≡◌, sym, ◌∙◌, ap, Bool, true, false, not, some, ok, ◌==◌, nat_Eq, arith}
use bacs.Process.Posix.{Posix, IsLawful, SameBut, Descriptor}
use bacs.Process.Handle.{flagged, inherit_flags, inheritable, set_inheritable}

inherit_flags-bit :
    (inherit : Bool) (flags : ℕ) → ((inherit_flags inherit flags % 2) == 1) ≡ not inherit
unfolding inherit_flags
inherit_flags-bit true flags = ground arith
inherit_flags-bit false flags = ground arith

module _ {K F : Type 0} (posix : Posix K F) (law : IsLawful posix) where
  pub flagged-is_set : (r : Bool × K) (k' : K) → flagged posix r ≡ (ok tt, k') → r ≡ (true, k')
  unfolding flagged
  flagged-is_set (true, k) k' e = λ i. (true, (e i).1)
  flagged-is_set (false, k) k' e = cc

  -- What set_inheritable leaves of the descriptor.
  pub set_inheritable-descriptor :
      (inherit : Bool) (n : ℕ) (k k' : K)
      → set_inheritable posix inherit n k ≡ (ok tt, k')
      → (d : Descriptor F) × (posix.descriptor n k ≡ some d)
        × (posix.descriptor n k' ≡ some (record { file = d.file; close_on_exec = not inherit }))
  unfolding set_inheritable
  set_inheritable-descriptor inherit n k k' e =
      let (d, old, new_) = law.set_fd_new (flagged-is_set _ k' e) in
      (d, old, rw (sym (inherit_flags-bit inherit (posix.get_fl n k))) new_)

  pub set_inheritable-others :
      (inherit : Bool) (n : ℕ) (k k' : K)
      → set_inheritable posix inherit n k ≡ (ok tt, k')
      → SameBut posix n k k'
  unfolding set_inheritable
  set_inheritable-others inherit n k k' e m ne =
      ap (λ (r : Bool × K). posix.descriptor m r.1) (sym (flagged-is_set _ k' e))
      ∙ law.set_fd_others k m ne

  -- After set_inheritable has returned, the descriptor is inherited by other programs exactly if that was
  -- asked for, and stands for the same file; but inheritable returns what it returned before the call,
  -- whatever was asked for.
  pub set_inheritable-inheritable :
      (inherit : Bool) (n : ℕ) (k k' : K)
      → set_inheritable posix inherit n k ≡ (ok tt, k')
      → ((d : Descriptor F) × (posix.descriptor n k ≡ some d)
          × (posix.descriptor n k' ≡ some (record { file = d.file; close_on_exec = not inherit })))
        × (inheritable posix n k' ≡ inheritable posix n k)
  unfolding set_inheritable inheritable
  set_inheritable-inheritable inherit n k k' e = (
    set_inheritable-descriptor inherit n k k' e,
    ap (λ (f : ℕ). (f % 2) == 1)
        (ap (λ (r : Bool × K). posix.get_fl n r.1) (sym (flagged-is_set _ k' e))
          ∙ law.set_fd_status n n (inherit_flags inherit (posix.get_fl n k)) k),
  )
