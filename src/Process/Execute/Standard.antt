-- ===== src/Process/Execute/Standard.antt =====
-- bunsan/process/src/process/detail/unix/execute.cpp: how one handle becomes a standard descriptor.
use bacs.Base.{
  ℕ, ◌≡◌, refl, sym, ◌∙◌, ap, subst, Bool, true, false, inl, inr, Option, none, some, some_path,
  Result, ok, err, ◌==◌, ==_eq, ==_ne, nat_Eq, arith, Bool-cases, if◌then◌else◌,
}
use bacs.Process.Posix.{Posix, IsLawful, SameBut, Descriptor}
use bacs.Process.Handle.{
  Handle, HandleError, of_descriptor, close, close_no_except, destroy, reset, move_assign, dup2,
  dup3_failed, set_inheritable,
}
use bacs.Process.Handle.Steps.{as_handle-is_new, close_result-kernel}
use bacs.Process.Handle.Inherit.{set_inheritable-descriptor, set_inheritable-others}
use bacs.Process.Execute.Tables.{for_exec, standard_table}
use bacs.Process.Execute.{moved_to, inherited, make_inheritable, make_standard}

module _ {K F : Type 0} (posix : Posix K F) (law : IsLawful posix) where
  unmoved :
      (m std n : ℕ) (c : Bool) (d : Descriptor F) (o : Option (Descriptor F))
      → n ≡ std
      → ¬ (m ≡ n)
      → o ≡ standard_table std c n d (λ j. o) m
  unmoved m std n c d o p q = ground arith

  moved_away :
      (m std n : ℕ) (c : Bool) (d : Descriptor F) (o : Option (Descriptor F))
      → (n == std) ≡ false
      → ¬ (m ≡ std)
      → (if c then (if m == n then none else o) else o) ≡ standard_table std c n d (λ j. o) m
  moved_away m std n c d o p q = ground arith

  not_closed :
      (n : ℕ) (c : Bool) (std : ℕ) (o : Option (Descriptor F))
      → (n == std) ≡ false
      → (if c then (if std == n then none else o) else o) ≡ o
  not_closed n c std o p = ground arith

  sys_close-descriptor :
      (n m : ℕ) (k : K)
      → posix.descriptor m (posix.sys_close n k).1 ≡ (if m == n then none else posix.descriptor m k)
  sys_close-descriptor n m k = elim (nat_Eq.dec m n) [
    | yes p ↦ rw (p, law.close_free n k) (ground arith)
    | no q ↦ rw (law.close_others n k m (==_ne m n q)) (ground arith)
  ]

  destroy-descriptor :
      (n : ℕ) (c : Bool) (m : ℕ) (k : K)
      → posix.descriptor m (destroy posix (record { fd = some n; close_ = c }) k)
        ≡ (if c then (if m == n then none else posix.descriptor m k) else posix.descriptor m k)
  unfolding destroy close_no_except close
  destroy-descriptor n true m k =
      rw (close_result-kernel posix law (posix.sys_close n k)) (sys_close-descriptor n m k)
  destroy-descriptor n false m k = refl

  make_inheritable-descriptor :
      (n : ℕ) (c : Bool) (h' : Handle) (k k' : K)
      → make_inheritable posix (ok (record { fd = some n; close_ = c }), k) ≡ (ok h', k')
      → (d : Descriptor F) × (posix.descriptor n k ≡ some d)
        × (posix.descriptor n k' ≡ for_exec d)
        × SameBut posix n k k'
  unfolding make_inheritable
  make_inheritable-descriptor n c h' k k' e =
      let r =
        inherited-is_ok (record { fd = some n; close_ = c }) (set_inheritable posix true n k) h' k'
          e in
      let (d, old, new_) = set_inheritable-descriptor posix law true n k k' r in
      (d, old, new_, set_inheritable-others posix law true n k k' r)
    where
      inherited-is_ok :
          (h : Handle) (r : Result HandleError Unit × K) (h' : Handle) (k' : K)
          → inherited posix h r ≡ (ok h', k')
          → r ≡ (ok tt, k')
      inherited-is_ok h (err x, k) h' k' e = cc
      inherited-is_ok h (ok tt, k) h' k' e = λ i. (ok tt, (e i).1)

  move_handle :
      (n : ℕ) (c : Bool) (r : Result HandleError Handle × K) (k' : K) (h' : Handle)
      → make_inheritable posix (moved_to posix (record { fd = some n; close_ = c }) r) ≡ (ok h', k')
      → (t : Handle) × (k1 : K) × (r ≡ (ok t, k1))
        × (make_inheritable posix (ok t, destroy posix (record { fd = some n; close_ = c }) k1)
            ≡ (ok h', k'))
  unfolding moved_to move_assign reset make_inheritable
  move_handle n c (err x, k1) k' h' e = cc
  move_handle n c (ok t, k1) k' h' e = (t, k1, refl, e)

  stays-descriptor :
      (std n : ℕ) (c : Bool) (h' : Handle) (k k' : K)
      → n ≡ std
      → make_inheritable posix (ok (record { fd = some n; close_ = c }), k) ≡ (ok h', k')
      → (d : Descriptor F) × (posix.descriptor n k ≡ some d)
        × ((m : ℕ) → posix.descriptor m k' ≡ standard_table std c n d (λ j. posix.descriptor j k) m)
  stays-descriptor std n c h' k k' p e =
      let (d, old, new_, same) = make_inheritable-descriptor n c h' k k' e in
      (
        d,
        old,
        λ m. elim (nat_Eq.dec m n) [
          | yes q ↦
              subst
                (λ j.
                  posix.descriptor j k' ≡ standard_table std c n d (λ l. posix.descriptor l k) j)
                (sym q) (new_ ∙ ground arith)
          | no q ↦ same m (==_ne m n q) ∙ unmoved m std n c d (posix.descriptor m k) p q
        ],
      )

  moves-descriptor :
      (std n : ℕ) (c : Bool) (h' : Handle) (k k' : K)
      → (n == std) ≡ false
      → make_inheritable posix (
          moved_to posix
            (record { fd = some n; close_ = c })
            (dup2 posix std (record { fd = some n; close_ = c }) k))
        ≡ (ok h', k')
      → (d : Descriptor F) × (posix.descriptor n k ≡ some d)
        × ((m : ℕ) → posix.descriptor m k' ≡ standard_table std c n d (λ j. posix.descriptor j k) m)
  unfolding dup2
  moves-descriptor std n c h' k k' p e =
      let (t, k1, r, f) = move_handle n c _ k' h' e in
      let (s, q, u) = as_handle-is_new posix dup3_failed (posix.dup3 n std k) t k1 r in
      let (d, old, made) = law.dup3_new u in
      let others = law.dup3_others u in
      let t_path : of_descriptor std ≡ t = ap of_descriptor (sym (law.dup3_result u)) ∙ q in
      let k2 : K = destroy posix (record { fd = some n; close_ = c }) k1 in
      let f2 : make_inheritable posix (ok (of_descriptor std), k2) ≡ (ok h', k') =
        subst (λ z. make_inheritable posix (ok z, k2) ≡ (ok h', k')) (sym t_path) f in
      let (d2, old2, made2, same) = make_inheritable-descriptor std true h' k2 k' f2 in
      let kept : posix.descriptor std k2 ≡ some (record { file = d.file; close_on_exec = true }) =
        destroy-descriptor n c std k1 ∙ not_closed n c std (posix.descriptor std k1) p ∙ made in
      let file : for_exec d2 ≡ for_exec d =
        ap (λ (x : Descriptor F). for_exec x) (some_path (sym old2 ∙ kept)) in
      (
        d,
        old,
        λ m. elim (nat_Eq.dec m std) [
          | yes z ↦
              subst
                (λ j.
                  posix.descriptor j k' ≡ standard_table std c n d (λ l. posix.descriptor l k) j)
                (sym z) (made2 ∙ file ∙ ground arith)
          | no z ↦
              same m (==_ne m std z)
              ∙ destroy-descriptor n c m k1
              ∙ ap (λ o. if c then (if m == n then none else o) else o) (others m (==_ne m std z))
              ∙ moved_away m std n c d (posix.descriptor m k) p z
        ],
      )

  -- What make_standard leaves when it returns.
  pub make_standard-descriptor :
      (std n : ℕ) (c : Bool) (h' : Handle) (k k' : K)
      → make_standard posix std (record { fd = some n; close_ = c }) k ≡ (ok h', k')
      → (d : Descriptor F) × (posix.descriptor n k ≡ some d)
        × ((m : ℕ) → posix.descriptor m k' ≡ standard_table std c n d (λ j. posix.descriptor j k) m)
  unfolding make_standard
  make_standard-descriptor std n c h' k k' e = elim (Bool-cases (n == std)) [
    | inl p ↦ stays-descriptor std n c h' k k' (==_eq n std p) (ground arith)
    | inr p ↦ moves-descriptor std n c h' k k' p (ground arith)
  ]
