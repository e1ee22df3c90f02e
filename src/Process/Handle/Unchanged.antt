-- ===== src/Process/Handle/Unchanged.antt =====
-- handle (bunsan/process/src/process/file/handle.cpp): the calls that leave the set of open descriptors as
-- it is, which are those that fail and set_inheritable.
use bacs.Base.{
  is_some, ℕ, ◌≡◌, refl, sym, ◌∙◌, ap, Bool, true, false, Option, none, some, err, ==_ne, nat_Eq,
}
use bacs.Process.Posix.{Posix, IsLawful, Descriptor}
use bacs.Process.Handle.{
  HandleError, as_handle, dup, dup2, open_with, fcntl_failed, dup3_failed, open_failed, flagged,
  set_inheritable, inherit_flags,
}
use bacs.Process.Handle.Owners.{
  Handles, is_open, Failed, not_opened, not_duplicated, not_duplicated_to,
}

module _ {K F : Type 0} (posix : Posix K F) where
  module _ (law : IsLawful posix) where
    as_handle-is_open :
        (error e : HandleError) (r : Option ℕ × K) (k k' : K) (m : ℕ)
        → ((k' : K) → r ≡ (none, k') → posix.descriptor m k' ≡ posix.descriptor m k)
        → as_handle posix error r ≡ (err e, k')
        → posix.descriptor m k' ≡ posix.descriptor m k
    unfolding as_handle
    as_handle-is_open error e (none, l) k k' m same p = same k' (λ i. (none, (p i).1))
    as_handle-is_open error e (some n, l) k k' m same p = cc

    dup_failed-is_open :
        (fd : Option ℕ) (c : Bool) (e : HandleError) (k k' : K) (m : ℕ)
        → dup posix (record { fd = fd; close_ = c }) k ≡ (err e, k')
        → posix.descriptor m k' ≡ posix.descriptor m k
    unfolding dup
    dup_failed-is_open none c e k k' m p = ap (λ r. posix.descriptor m r.1) (sym p)
    dup_failed-is_open (some old) c e k k' m p =
        as_handle-is_open fcntl_failed e (posix.dup_cloexec old k) k k' m
          (λ l q. law.dup_failed q m) p

    dup2_failed-is_open :
        (fd : Option ℕ) (c : Bool) (e : HandleError) (n : ℕ) (k k' : K) (m : ℕ)
        → dup2 posix n (record { fd = fd; close_ = c }) k ≡ (err e, k')
        → posix.descriptor m k' ≡ posix.descriptor m k
    unfolding dup2
    dup2_failed-is_open none c e n k k' m p = ap (λ r. posix.descriptor m r.1) (sym p)
    dup2_failed-is_open (some old) c e n k k' m p =
        as_handle-is_open dup3_failed e (posix.dup3 old n k) k k' m (λ l q. law.dup3_failed q m) p

    pub Failed-is_open :
        (hs : Handles) (k k' : K) (m : ℕ)
        → Failed posix hs k k'
        → is_open posix k' m ≡ is_open posix k m
    unfolding open_with
    Failed-is_open hs k k' m (not_opened flags path e p) =
        ap (λ (o : Option (Descriptor F)). is_some o)
          (as_handle-is_open open_failed e (posix.sys_open path flags k) k k' m
            (λ l q. law.open_failed q m) p)
    Failed-is_open hs k k' m (not_duplicated j e p) =
        ap (λ (o : Option (Descriptor F)). is_some o)
          (dup_failed-is_open (hs j).fd (hs j).close_ e k k' m p)
    Failed-is_open hs k k' m (not_duplicated_to j n e p) =
        ap (λ (o : Option (Descriptor F)). is_some o)
          (dup2_failed-is_open (hs j).fd (hs j).close_ e n k k' m p)

    flagged-kernel : (r : Bool × K) → (flagged posix r).1 ≡ r.1
    unfolding flagged
    flagged-kernel (true, k) = refl
    flagged-kernel (false, k) = refl

    set_fd-is_open :
        (n flags m : ℕ) (k : K) (r : Bool × K)
        → posix.set_fd n flags k ≡ r
        → is_open posix r.1 m ≡ is_open posix k m
    set_fd-is_open n flags m k (false, k') e =
        ap (λ (o : Option (Descriptor F)). is_some o) (law.set_fd_failed e m)
    set_fd-is_open n flags m k (true, k') e =
        let (d, old, new_) = law.set_fd_new e in
        elim (nat_Eq.dec m n) [
          | yes p ↦ rw (p, old, new_) refl
          | no q ↦
              ap (λ (o : Option (Descriptor F)). is_some o)
                (ap (λ r. posix.descriptor m r.1) (sym e) ∙ law.set_fd_others k m (==_ne m n q))
        ]

    pub set_inheritable-is_open :
        (inherit : Bool) (n m : ℕ) (k : K)
        → is_open posix (set_inheritable posix inherit n k).1 m ≡ is_open posix k m
    unfolding set_inheritable
    set_inheritable-is_open inherit n m k =
        rw (flagged-kernel (posix.set_fd n (inherit_flags inherit (posix.get_fl n k)) k))
          (set_fd-is_open n (inherit_flags inherit (posix.get_fl n k)) m k _ refl)
