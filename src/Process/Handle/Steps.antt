-- ===== src/Process/Handle/Steps.antt =====
-- handle (bunsan/process/src/process/file/handle.cpp): what each method does to the descriptors that are open,
-- and to who is to close them.
use bacs.Base.{
  is_some, ℕ, ◌≡◌, ◌≢◌, refl, sym, ◌∙◌, ap, subst, Bool, true, false, Option, none, some, Str, ok,
  ok_path, ◌==◌, ==_ne, nat_Eq, arith, if◌then◌else◌,
}
use bacs.Process.Posix.{Posix, IsLawful, SameBut, OpenFlags, Descriptor}
use bacs.Process.Handle.{
  Handle, HandleError, empty_handle, of_descriptor, make_handle, close_result, close,
  close_no_except, destroy, as_handle, dup, dup2, open_with, fcntl_failed, dup3_failed, open_failed,
}
use bacs.Process.Handle.Owners.{
  owns_fd, owns, Handles, place, IsAccounted, gain-IsAccounted, lose-IsAccounted, swap-IsAccounted,
  closed_unowned, closed_taken, is_open,
}

abbrev pub own_of : Handles → ℕ → ℕ → Bool
own_of hs i n = owns (hs i) n

pub empty-owns : (h : Handle) (m : ℕ) → h.fd ≡ none → owns h m ≡ false
unfolding owns owns_fd
empty-owns h m e = ground arith

pub none-owns : (close : Bool) (m : ℕ) → owns (record { fd = none; close_ = close }) m ≡ false
unfolding owns owns_fd
none-owns close m = ground arith

pub borrowed-owns : (n m : ℕ) → owns (make_handle n false) m ≡ false
unfolding owns owns_fd
borrowed-owns n m = refl

pub own_of-place :
    (hs : Handles) (i : ℕ) (h : Handle) (j m : ℕ)
    → own_of (place i h hs) j m ≡ (if j == i then owns h m else own_of hs j m)
own_of-place hs i h j m = ground arith

own_descriptor :
    (hs : Handles) (i n j m : ℕ)
    → (if j == i then owns (of_descriptor n) m else own_of hs j m)
      ≡ (if j == i then n == m else own_of hs j m)
unfolding owns owns_fd
own_descriptor hs i n j m = refl

taken_still :
    (free : ℕ → Bool) (n m : ℕ) → free n ≡ false → free m ≡ (if m == n then false else free m)
taken_still free n m t = ground arith

pub open_still : (op : ℕ → Bool) (n m : ℕ) → op n ≡ true → op m ≡ (if m == n then true else op m)
open_still op n m o = ground arith

pub own_moved :
    (hs : Handles) (i j l m : ℕ)
    → i ≢ j
    → own_of (place i (hs j) (place j empty_handle hs)) l m ≡ (
        if l == i
        then (if j == i then false else own_of hs j m)
        else if l == j
        then (if i == i then false else own_of hs i m)
        else if l == i
        then false
        else own_of hs l m)
own_moved hs i j l m n = ground (arith, none-owns true m)

module _ {K F : Type 0} (posix : Posix K F) where
  pub as_handle-is_new :
      (error : HandleError) (r : Option ℕ × K) (h : Handle) (k' : K)
      → as_handle posix error r ≡ (ok h, k')
      → (n : ℕ) × (of_descriptor n ≡ h) × (r ≡ (some n, k'))
  unfolding as_handle
  as_handle-is_new error (none, k) h k' e = cc
  as_handle-is_new error (some n, k) h k' e = (n, ok_path (ap (λ r. r.0) e), λ i. (some n, (e i).1))

  same-is_open :
      (n : ℕ) (d : Descriptor F) (k k' : K)
      → posix.descriptor n k' ≡ some d
      → SameBut posix n k k'
      → (m : ℕ) → is_open posix k' m ≡ (if m == n then true else is_open posix k m)
  same-is_open n d k k' e same m = elim (nat_Eq.dec m n) [
    | yes p ↦ rw (p, e) (ground (arith))
    | no q ↦ rw (same m (==_ne m n q)) (ground (arith))
  ]

  module _ (law : IsLawful posix) where
    sys_close-is_open :
        (n m : ℕ) (k : K)
        → is_open posix (posix.sys_close n k).1 m ≡ (if n == m then false else is_open posix k m)
    sys_close-is_open n m k = elim (nat_Eq.dec n m) [
      | yes p ↦ rw (p, law.close_free m k) (ground arith)
      | no q ↦ rw (law.close_others n k m (==_ne m n (λ r. q (sym r)))) (ground arith)
    ]

    pub close_result-kernel : (r : Bool × K) → (close_result posix r).1 ≡ r.1
    unfolding close_result
    close_result-kernel (true, k) = refl
    close_result-kernel (false, k) = refl

    close-is_open :
        (fd : Option ℕ) (m : ℕ) (k : K)
        → is_open posix (close posix (record { fd = fd; close_ = true }) k).2 m
          ≡ (if owns (record { fd = fd; close_ = true }) m then false else is_open posix k m)
    unfolding close owns owns_fd
    close-is_open none m k = refl
    close-is_open (some n) m k =
        rw (close_result-kernel (posix.sys_close n k)) (sys_close-is_open n m k)

    destroy_fields-is_open :
        (fd : Option ℕ) (c : Bool) (m : ℕ) (k : K)
        → is_open posix (destroy posix (record { fd = fd; close_ = c }) k) m
          ≡ (if owns (record { fd = fd; close_ = c }) m then false else is_open posix k m)
    unfolding destroy close_no_except owns
    destroy_fields-is_open fd true m k = close-is_open fd m k
    destroy_fields-is_open fd false m k = refl

    pub destroy-is_open :
        (h : Handle) (m : ℕ) (k : K)
        → is_open posix (destroy posix h k) m ≡ (if owns h m then false else is_open posix k m)
    destroy-is_open h m k = destroy_fields-is_open h.fd h.close_ m k

    -- A descriptor that no handle owned is given to a place with an empty handle.
    pub given-IsAccounted :
        (free free' : ℕ → Bool) (hs : Handles) (k k' : K) (i n : ℕ) (h : Handle)
        → IsAccounted free (own_of hs) (is_open posix k)
        → (hs i).fd ≡ none
        → of_descriptor n ≡ h
        → ((l : ℕ) → own_of hs l n ≡ false)
        → ((m : ℕ) → is_open posix k' m ≡ (if m == n then true else is_open posix k m))
        → ((m : ℕ) → free' m ≡ (if m == n then false else free m))
        → IsAccounted free' (own_of (place i h hs)) (is_open posix k')
    given-IsAccounted free free' hs k k' i n h a e p unowned opens frees =
        subst (λ z. IsAccounted free' (own_of (place i z hs)) (is_open posix k')) p
          (gain-IsAccounted free free' (own_of hs) (own_of (place i (of_descriptor n) hs))
            (is_open posix k) (is_open posix k') i n a (λ m. empty-owns (hs i) m e) unowned opens
            frees (λ j m. own_of-place hs i (of_descriptor n) j m ∙ own_descriptor hs i n j m))

    -- So is a new one.
    new-IsAccounted :
        (free : ℕ → Bool) (hs : Handles) (k k' : K) (i n : ℕ) (h : Handle) (d : Descriptor F)
        → IsAccounted free (own_of hs) (is_open posix k)
        → (hs i).fd ≡ none
        → of_descriptor n ≡ h
        → posix.descriptor n k ≡ none
        → posix.descriptor n k' ≡ some d
        → SameBut posix n k k'
        → IsAccounted free (own_of (place i h hs)) (is_open posix k')
    new-IsAccounted free hs k k' i n h d a e p unused new_ same =
        let c : is_open posix k n ≡ false = ap (λ (o : Option (Descriptor F)). is_some o) unused in
        let t = closed_taken free (own_of hs) (is_open posix k) n a c in
        given-IsAccounted free free hs k k' i n h a e p
          (λ l. closed_unowned free (own_of hs) (is_open posix k) l n a c)
          (same-is_open n d k k' new_ same) (λ m. taken_still free n m t)

    pub step_open :
        (free : ℕ → Bool) (hs : Handles) (k k' : K) (i : ℕ) (flags : OpenFlags) (path : Str)
        (h : Handle)
        → IsAccounted free (own_of hs) (is_open posix k)
        → (hs i).fd ≡ none
        → open_with posix flags path k ≡ (ok h, k')
        → IsAccounted free (own_of (place i h hs)) (is_open posix k')
    unfolding open_with
    step_open free hs k k' i flags path h a e p =
        let (n, q, r) = as_handle-is_new open_failed (posix.sys_open path flags k) h k' p in
        let (f, new_) = law.open_new r in
        new-IsAccounted free hs k k' i n h _ a e q (law.open_free r) new_ (law.open_others r)

    pub step_dup :
        (free : ℕ → Bool) (hs : Handles) (k k' : K) (i : ℕ) (fd : Option ℕ) (c : Bool) (h : Handle)
        → IsAccounted free (own_of hs) (is_open posix k)
        → (hs i).fd ≡ none
        → dup posix (record { fd = fd; close_ = c }) k ≡ (ok h, k')
        → IsAccounted free (own_of (place i h hs)) (is_open posix k')
    unfolding dup
    step_dup free hs k k' i none c h a e p = cc
    step_dup free hs k k' i (some old) c h a e p =
        let (n, q, r) = as_handle-is_new fcntl_failed (posix.dup_cloexec old k) h k' p in
        let (d, _, new_) = law.dup_new r in
        new-IsAccounted free hs k k' i n h _ a e q (law.dup_free r) new_ (law.dup_others r)

    pub step_dup2 :
        (free : ℕ → Bool) (hs : Handles) (k k' : K) (i n : ℕ) (fd : Option ℕ) (c : Bool)
        (h : Handle)
        → IsAccounted free (own_of hs) (is_open posix k)
        → (hs i).fd ≡ none
        → ((l : ℕ) → own_of hs l n ≡ false)
        → dup2 posix n (record { fd = fd; close_ = c }) k ≡ (ok h, k')
        → IsAccounted
            (λ m. if m == n then false else free m)
            (own_of (place i h hs))
            (is_open posix k')
    unfolding dup2
    step_dup2 free hs k k' i n none c h a e u p = cc
    step_dup2 free hs k k' i n (some old) c h a e u p =
        let (m, q, r) = as_handle-is_new dup3_failed (posix.dup3 old n k) h k' p in
        let (d, _, new_) = law.dup3_new r in
        given-IsAccounted free (λ m. if m == n then false else free m) hs k k' i n h a e
          (ap of_descriptor (sym (law.dup3_result r)) ∙ q) u
          (same-is_open n _ k k' new_ (law.dup3_others r)) (λ m. refl)

    -- A place whose handle was destroyed, or closed what it owned.
    pub emptied-IsAccounted :
        (free : ℕ → Bool) (hs : Handles) (k k' : K) (i : ℕ) (h : Handle)
        → IsAccounted free (own_of hs) (is_open posix k)
        → ((m : ℕ) → owns h m ≡ false)
        → ((m : ℕ) → is_open posix k' m ≡ (if own_of hs i m then false else is_open posix k m))
        → IsAccounted free (own_of (place i h hs)) (is_open posix k')
    emptied-IsAccounted free hs k k' i h a nothing opens =
        lose-IsAccounted free (own_of hs) (own_of (place i h hs)) (is_open posix k)
          (is_open posix k') i a opens (λ j m. own_of-place hs i h j m ∙ rw (nothing m) refl)

    close-owns :
        (fd : Option ℕ) (c : Bool) (m : ℕ) (k : K)
        → owns (close posix (record { fd = fd; close_ = c }) k).1 m ≡ false
    unfolding close
    close-owns none c m k = none-owns c m
    close-owns (some n) c m k = none-owns c m

    close_fields-is_open :
        (fd : Option ℕ) (c : Bool) (m : ℕ) (k : K)
        → c ≡ true
        → is_open posix (close posix (record { fd = fd; close_ = c }) k).2 m
          ≡ (if owns (record { fd = fd; close_ = c }) m then false else is_open posix k m)
    close_fields-is_open fd true m k e = close-is_open fd m k
    close_fields-is_open fd false m k e = cc

    pub step_close :
        (free : ℕ → Bool) (hs : Handles) (k : K) (i : ℕ)
        → IsAccounted free (own_of hs) (is_open posix k)
        → (hs i).close_ ≡ true
        → IsAccounted free
            (own_of (place i (close posix (hs i) k).1 hs))
            (is_open posix (close posix (hs i) k).2)
    step_close free hs k i a c =
        emptied-IsAccounted free hs k (close posix (hs i) k).2 i (close posix (hs i) k).1 a
          (λ m. close-owns (hs i).fd (hs i).close_ m k)
          (λ m. close_fields-is_open (hs i).fd (hs i).close_ m k c)

    pub step_move :
        (free : ℕ → Bool) (hs : Handles) (k : K) (i j : ℕ)
        → IsAccounted free (own_of hs) (is_open posix k)
        → i ≢ j
        → IsAccounted free
            (own_of (place i (hs j) (place j empty_handle hs)))
            (is_open posix (destroy posix (hs i) k))
    step_move free hs k i j a n =
        let lost =
          lose-IsAccounted free (own_of hs) (λ l m. if l == i then false else own_of hs l m)
            (is_open posix k) (is_open posix (destroy posix (hs i) k)) i a
            (λ m. destroy-is_open (hs i) m k) (λ l m. refl) in
        swap-IsAccounted free _ _ _ i j lost (λ l m. own_moved hs i j l m n)
