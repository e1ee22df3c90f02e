-- ===== src/Tests/Descriptors.antt =====
-- bunsan/process: a kernel whose descriptors are an association list, and small runs on it.
use bacs.Base.{
  ℕ, suc, ◌%◌, ◌≤◌, Str, ◌≡◌, refl, sym, ap, subst, Bool, true, false, Option, none, some, [], ◌∷◌,
  ◌==◌, nat_Eq, list_Eq, arith, ltb, some_path, none-some, if◌then◌else◌,
}
use bacs.Base.Dict.{Dict, lookup, assign, remove, lookup-assign, lookup-remove}
use bacs.Process.Posix.{Posix, IsLawful, OpenFlags, Descriptor}

abbrev pub Kernel : Type 0
Kernel = Dict ℕ (Descriptor Str)

-- A number above all descriptors.
unfoldable pub next : Kernel → ℕ
next [] = 0
next ((n, d) ∷ k) = let rest = next k in if ltb n rest then rest else suc n

lookup_above : (n : ℕ) (k : Kernel) → next k ≤ n → lookup n k ≡ none
unfolding next lookup
lookup_above n [] h = refl
lookup_above n ((m, d) ∷ k) h = ground (arith, lookup_above n k)

unfoldable pub duplicate : ℕ → Bool → Option (Descriptor Str) → Kernel → Option ℕ × Kernel
duplicate n c none k = (none, k)
duplicate n c (some d) k = (some n, assign n (record { file = d.file; close_on_exec = c }) k)

unfoldable pub change_flag : ℕ → Bool → Option (Descriptor Str) → Kernel → Bool × Kernel
change_flag n c none k = (false, k)
change_flag n c (some d) k = (true, assign n (record { file = d.file; close_on_exec = c }) k)

abbrev pub kernel : Posix Kernel Str
kernel = record {
  descriptor = λ n k. lookup n k;
  sys_open = λ path flags k. (
    some (next k),
    assign (next k) (record { file = path; close_on_exec = flags.close_on_exec }) k,
  );
  sys_close = λ n k. (true, remove n k);
  dup_cloexec = λ old k. duplicate (next k) true (lookup old k) k;
  dup3 = λ old new_ k. duplicate new_ true (lookup old k) k;
  get_fl = λ n k. 2;
  set_fd = λ n flags k. change_flag n ((flags % 2) == 1) (lookup n k) k;
}

assigned : (n : ℕ) (d : Descriptor Str) (k : Kernel) → lookup n (assign n d k) ≡ some d
assigned n d k = ground (arith, lookup-assign n n d k)

assigned_others :
    (m n : ℕ) (d : Descriptor Str) (k : Kernel)
    → (m == n) ≡ false
    → lookup m (assign n d k) ≡ lookup m k
assigned_others m n d k h = ground (arith, lookup-assign m n d k)

duplicate-result :
    (n : ℕ) (c : Bool) (o : Option (Descriptor Str)) (k k' : Kernel) (m : ℕ)
    → duplicate n c o k ≡ (some m, k')
    → (m ≡ n)
      × ((d : Descriptor Str) × (o ≡ some d)
          × (assign n (record { file = d.file; close_on_exec = c }) k ≡ k'))
unfolding duplicate
duplicate-result n c none k k' m e = cc
duplicate-result n c (some d) k k' m e = (
  sym (some_path (ap (λ (r : Option ℕ × Kernel). r.0) e)),
  (d, refl, ap (λ (r : Option ℕ × Kernel). r.1) e),
)

duplicate-failed :
    (n : ℕ) (c : Bool) (o : Option (Descriptor Str)) (k k' : Kernel)
    → duplicate n c o k ≡ (none, k')
    → k ≡ k'
unfolding duplicate
duplicate-failed n c none k k' e = ap (λ r. r.1) e
duplicate-failed n c (some d) k k' e = cc

set_flag-result :
    (n : ℕ) (c : Bool) (o : Option (Descriptor Str)) (k k' : Kernel)
    → change_flag n c o k ≡ (true, k')
    → (d : Descriptor Str) × (o ≡ some d)
      × (assign n (record { file = d.file; close_on_exec = c }) k ≡ k')
unfolding change_flag
set_flag-result n c none k k' e = cc
set_flag-result n c (some d) k k' e = (d, refl, ap (λ r. r.1) e)

set_flag-failed :
    (n : ℕ) (c : Bool) (o : Option (Descriptor Str)) (k k' : Kernel)
    → change_flag n c o k ≡ (false, k')
    → k ≡ k'
unfolding change_flag
set_flag-failed n c none k k' e = ap (λ r. r.1) e
set_flag-failed n c (some d) k k' e = cc

set_flag-others :
    (m n : ℕ) (c : Bool) (o : Option (Descriptor Str)) (k : Kernel)
    → (m == n) ≡ false
    → lookup m (change_flag n c o k).1 ≡ lookup m k
unfolding change_flag
set_flag-others m n c none k h = refl
set_flag-others m n c (some d) k h = assigned_others m n _ k h

opened-result :
    (path : Str) (flags : OpenFlags) (k k' : Kernel) (n : ℕ)
    → kernel.sys_open path flags k ≡ (some n, k')
    → (n ≡ next k)
      × (assign (next k) (record { file = path; close_on_exec = flags.close_on_exec }) k ≡ k')
opened-result path flags k k' n e =
    (sym (some_path (ap (λ (r : Option ℕ × Kernel). r.0) e)), ap (λ (r : Option ℕ × Kernel). r.1) e)

-- A descriptor that was assigned, and all others.
moved :
    (m n l : ℕ) (d : Descriptor Str) (k k' : Kernel)
    → n ≡ l
    → assign l d k ≡ k'
    → lookup n k' ≡ some d
moved m n l d k k' p q =
    subst (λ z. lookup n z ≡ some d) q
      (subst (λ z. lookup z (assign l d k) ≡ some d) (sym p) (assigned l d k))

unmoved :
    (m n l : ℕ) (d : Descriptor Str) (k k' : Kernel)
    → n ≡ l
    → assign l d k ≡ k'
    → (m == n) ≡ false
    → lookup m k' ≡ lookup m k
unmoved m n l d k k' p q h =
    subst (λ z. lookup m z ≡ lookup m k) q
      (assigned_others m l d k (subst (λ z. (m == z) ≡ false) p h))

free : (n : ℕ) (k : Kernel) → n ≡ next k → lookup n k ≡ none
free n k p = lookup_above n k (omega arith)

pub kernel-IsLawful : IsLawful kernel
kernel-IsLawful = record {
  open_free = λ {path} {flags} {k} {k'} {n} e. free n k (opened-result path flags k k' n e).0;
  open_new = λ {path} {flags} {k} {k'} {n} e.
      let (p, q) = opened-result path flags k k' n e in (path, moved n n (next k) _ k k' p q);
  open_others = λ {path} {flags} {k} {k'} {n} e m h.
      let (p, q) = opened-result path flags k k' n e in unmoved m n (next k) _ k k' p q h;
  open_failed = λ {path} {flags} {k} {k'} e m. absurd (none-some (sym (ap (λ r. r.0) e)));
  close_free = λ n k. ground (arith, lookup-remove n n k);
  close_others = λ n k m h. ground (arith, lookup-remove m n k);
  dup_free =
      λ {old} {n} {k} {k'} e. free n k (duplicate-result (next k) true (lookup old k) k k' n e).0;
  dup_new = λ {old} {n} {k} {k'} e.
      let (p, (d, o, q)) = duplicate-result (next k) true (lookup old k) k k' n e in
      (d, o, moved n n (next k) _ k k' p q);
  dup_others = λ {old} {n} {k} {k'} e m h.
      let (p, (d, o, q)) = duplicate-result (next k) true (lookup old k) k k' n e in
      unmoved m n (next k) _ k k' p q h;
  dup_failed = λ {old} {k} {k'} e m.
      ap (lookup m) (sym (duplicate-failed (next k) true (lookup old k) k k' e));
  dup3_result =
      λ {old} {new_} {n} {k} {k'} e. (duplicate-result new_ true (lookup old k) k k' n e).0;
  dup3_new = λ {old} {new_} {n} {k} {k'} e.
      let (p, (d, o, q)) = duplicate-result new_ true (lookup old k) k k' n e in
      (d, o, moved new_ new_ new_ _ k k' refl q);
  dup3_others = λ {old} {new_} {n} {k} {k'} e m h.
      let (p, (d, o, q)) = duplicate-result new_ true (lookup old k) k k' n e in
      unmoved m new_ new_ _ k k' refl q h;
  dup3_failed = λ {old} {new_} {k} {k'} e m.
      ap (lookup m) (sym (duplicate-failed new_ true (lookup old k) k k' e));
  set_fd_new = λ {n} {flags} {k} {k'} e.
      let (d, o, q) = set_flag-result n ((flags % 2) == 1) (lookup n k) k k' e in
      (d, o, moved n n n _ k k' refl q);
  set_fd_others = λ {n} {flags} k m h. set_flag-others m n ((flags % 2) == 1) (lookup n k) k h;
  set_fd_failed = λ {n} {flags} {k} {k'} e m.
      ap (lookup m) (sym (set_flag-failed n ((flags % 2) == 1) (lookup n k) k k' e));
  set_fd_status = λ m n flags k. refl;
}
