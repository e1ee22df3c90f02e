-- ===== src/Process/Execute/Composed.antt =====
-- bunsan/process/src/process/native_executor.cpp and src/process/detail/unix/execute.cpp: three files are
-- opened, and then made the standard ones one after another.
use bacs.Base.{
  is_some, ℕ, ◌≤◌, ◌≡◌, ◌≢◌, ◌⊎◌, inl, inr, sym, ◌∙◌, ap, subst, Bool, true, false, some, some_path,
  nat_Eq, arith,
}
use bacs.Process.Posix.{Descriptor}
use bacs.Process.Execute.Tables.{
  Table, for_exec, standard_table, IsOpened, IsNumber, number_differs, standard_other,
  standard_self, opened_used, opened-IsNumber, opened_differs, opened_self, closes-cases,
  closed_again, unused_before,
}

-- `before` and `opened` are the descriptors before and after the files were opened, `after` those of the
-- new process; the handles are on the descriptors `i`, `o` and `e`, and `stdout_too` says that the
-- standard error goes where the standard output goes.
pub record IsRedirected {F : Type 0} (i o e : ℕ) (stdout_too : Bool) (before opened after : Table F)
    : Type 0 where
  pub input : (d : Descriptor F) × (opened i ≡ some d) × (after 0 ≡ for_exec d)
  pub output : (d : Descriptor F) × (opened o ≡ some d) × (after 1 ≡ for_exec d)
  pub error_too : stdout_too ≡ true → after 2 ≡ after 1
  pub error : stdout_too ≡ false → (d : Descriptor F) × (opened e ≡ some d) × (after 2 ≡ for_exec d)
  pub others : (m : ℕ) → 3 ≤ m → after m ≡ before m
  pub kept : (m : ℕ) → is_some (before m) ≡ true → opened m ≡ before m

module _ {F : Type 0} (t0 t1 t2 t3 : Table F) (ni no ne se : ℕ) (ci co ce : Bool)
    (oi : IsOpened 0 ni ci t0 t1) (oo : IsOpened 1 no co t1 t2) (oe : IsOpened se ne ce t2 t3)
    (se_bound : (se ≡ 1) ⊎ (se ≡ 2)) (u0 : is_some (t0 0) ≡ true) (u1 : is_some (t0 1) ≡ true)
    (u2 : is_some (t0 2) ≡ true) (di d1 de : Descriptor F) where
  abbrev s1 : Table F
  s1 = standard_table 0 ci ni di t3

  abbrev s2 : Table F
  s2 = standard_table 1 co no d1 s1

  abbrev s3 : Table F
  s3 = standard_table 2 ce ne de s2

  used1 : (m : ℕ) → is_some (t0 m) ≡ true → is_some (t1 m) ≡ true
  used1 m u = opened_used 0 ni ci t0 t1 m oi u

  used2 : (m : ℕ) → is_some (t0 m) ≡ true → is_some (t2 m) ≡ true
  used2 m u = opened_used 1 no co t1 t2 m oo (used1 m u)

  i-IsNumber : IsNumber 0 ni ci
  i-IsNumber = opened-IsNumber 0 ni ci t0 t1 oi u0 u1 u2

  o-IsNumber : IsNumber 1 no co
  o-IsNumber = opened-IsNumber 1 no co t1 t2 oo (used1 0 u0) (used1 1 u1) (used1 2 u2)

  e-IsNumber : IsNumber se ne ce
  e-IsNumber = opened-IsNumber se ne ce t2 t3 oe (used2 0 u0) (used2 1 u1) (used2 2 u2)

  i-o : co ≡ true → ni ≢ no
  i-o = opened_differs 1 no co t1 t2 ni oo (opened_self 0 ni ci t0 t1 oi u0)

  i-e : ce ≡ true → ni ≢ ne
  i-e =
      opened_differs se ne ce t2 t3 ni oe
        (opened_used 1 no co t1 t2 ni oo (opened_self 0 ni ci t0 t1 oi u0))

  o-e : ce ≡ true → no ≢ ne
  o-e = opened_differs se ne ce t2 t3 no oe (opened_self 1 no co t1 t2 oo (used1 1 u1))

  se_le : se ≤ 2
  se_le = elim se_bound [ inl p ↦ omega arith | inr p ↦ omega arith ]

  o-i : ci ≡ true → no ≢ ni
  o-i c = elim o-IsNumber [
    | inl (p, q) ↦ λ r. number_differs 0 ni ci 1 i-IsNumber (omega arith) c (sym q ∙ r)
    | inr (p, q) ↦ λ r. i-o p (sym r)
  ]

  e-i : ci ≡ true → ne ≢ ni
  e-i c = elim e-IsNumber [
    | inl (p, q) ↦ λ r. number_differs 0 ni ci se i-IsNumber (omega (arith, se_le)) c (sym q ∙ r)
    | inr (p, q) ↦ λ r. i-e p (sym r)
  ]

  e-o : co ≡ true → ne ≢ no
  e-o c = elim e-IsNumber [
    | inl (p, q) ↦ λ r. number_differs 1 no co se o-IsNumber (omega (arith, se_le)) c (sym q ∙ r)
    | inr (p, q) ↦ λ r. o-e p (sym r)
  ]

  s3_input : s3 0 ≡ for_exec di
  s3_input =
      standard_other 2 ne ce de s2 0 (omega arith)
        (number_differs se ne ce 0 e-IsNumber (omega arith))
      ∙ standard_other 1 no co d1 s1 0 (omega arith)
          (number_differs 1 no co 0 o-IsNumber (omega arith))
      ∙ standard_self 0 ni ci di t3

  s2_output : s2 1 ≡ for_exec d1
  s2_output = standard_self 1 no co d1 s1

  s3_output : s3 1 ≡ for_exec d1
  s3_output =
      standard_other 2 ne ce de s2 1 (omega arith)
        (number_differs se ne ce 1 e-IsNumber (omega arith))
      ∙ s2_output

  s1_output : s1 no ≡ t3 no
  s1_output = standard_other 0 ni ci di t3 no o_nonzero o-i
    where
      o_nonzero : no ≢ 0
      o_nonzero = elim o-IsNumber [ inl p ↦ λ q. omega arith | inr p ↦ λ q. omega arith ]

  s2_error : ne ≢ 1 → s2 ne ≡ t3 ne
  s2_error n = standard_other 1 no co d1 s1 ne n e-o ∙ standard_other 0 ni ci di t3 ne e_nonzero e-i
    where
      e_nonzero : ne ≢ 0
      e_nonzero = elim e-IsNumber [
        | inl p ↦ λ q. elim se_bound [ inl r ↦ omega arith | inr r ↦ omega arith ]
        | inr p ↦ λ q. omega arith
      ]

  s3_others : (m : ℕ) → 3 ≤ m → s3 m ≡ t0 m
  s3_others m l = elim (closes-cases ce m ne) [
    | inl (c, p) ↦
        let (x, y) = closed_again 2 ne se ce de t2 t3 s2 m oe c p l (omega arith) in
        x ∙ sym (unused_before t0 t2 m (used2 m) y)
    | inr ne_other ↦
        standard_other 2 ne ce de s2 m (λ w. omega arith) ne_other ∙ elim (closes-cases co m no) [
          | inl (c, p) ↦
              let (x, y) = closed_again 1 no 1 co d1 t1 t2 s1 m oo c p l (omega arith) in
              x ∙ sym (unused_before t0 t1 m (used1 m) y)
          | inr no_other ↦
              standard_other 1 no co d1 s1 m (λ w. omega arith) no_other
              ∙ elim (closes-cases ci m ni) [
                | inl (c, p) ↦
                    let (x, y) = closed_again 0 ni 0 ci di t0 t1 t3 m oi c p l (omega arith) in
                    x ∙ sym y
                | inr ni_other ↦
                    standard_other 0 ni ci di t3 m (λ w. omega arith) ni_other
                    ∙ oe.same m ne_other
                    ∙ oo.same m no_other
                    ∙ oi.same m ni_other
              ]
        ]
  ]

  not_output : se ≡ 2 → ne ≢ 1
  not_output p = elim e-IsNumber [ inl q ↦ λ r. omega arith | inr q ↦ λ r. omega arith ]

  composed-IsRedirected :
      t3 ni ≡ some di
      → s1 no ≡ some d1
      → s2 ne ≡ some de
      → (stdout_too : Bool) → (stdout_too ≡ true → ne ≡ 1)
      → (stdout_too ≡ false → se ≡ 2)
      → IsRedirected ni no ne stdout_too t0 t3 s3
  composed-IsRedirected pi po pe stdout_too too other = record {
    input = (di, pi, s3_input);
    output = (d1, sym s1_output ∙ po, s3_output);
    error_too = λ c.
        let same = sym (subst (λ z. s2 z ≡ some de) (too c) pe) ∙ s2_output in
        standard_self 2 ne ce de s2
        ∙ ap (λ (x : Descriptor F). for_exec x) (some_path same)
        ∙ sym s3_output;
    error = λ c. (de, sym (s2_error (not_output (other c))) ∙ pe, standard_self 2 ne ce de s2);
    others = s3_others;
    kept = λ m u.
        oe.same m (opened_differs se ne ce t2 t3 m oe (used2 m u))
        ∙ oo.same m (opened_differs 1 no co t1 t2 m oo (used1 m u))
        ∙ oi.same m (opened_differs 0 ni ci t0 t1 m oi u);
  }

  -- The same for tables that are known at each number.
  pub tables-IsRedirected :
      (a1 a2 a3 : Table F)
      → ((m : ℕ) → a1 m ≡ standard_table 0 ci ni di t3 m)
      → ((m : ℕ) → a2 m ≡ standard_table 1 co no d1 a1 m)
      → ((m : ℕ) → a3 m ≡ standard_table 2 ce ne de a2 m)
      → t3 ni ≡ some di
      → a1 no ≡ some d1
      → a2 ne ≡ some de
      → (stdout_too : Bool) → (stdout_too ≡ true → ne ≡ 1)
      → (stdout_too ≡ false → se ≡ 2)
      → IsRedirected ni no ne stdout_too t0 t3 a3
  tables-IsRedirected a1 a2 a3 h1 h2 h3 pi po pe stdout_too too other =
      let p1 : a1 ≡ s1 = λ i m. h1 m i in
      let p2 : a2 ≡ s2 = λ i m. (h2 m ∙ ap (λ (t : Table F). standard_table 1 co no d1 t m) p1) i in
      let p3 : a3 ≡ s3 = λ i m. (h3 m ∙ ap (λ (t : Table F). standard_table 2 ce ne de t m) p2) i in
      subst (λ t. IsRedirected ni no ne stdout_too t0 t3 t) (sym p3)
        (composed-IsRedirected pi (subst (λ t. t no ≡ some d1) p1 po)
          (subst (λ t. t ne ≡ some de) p2 pe) stdout_too too other)
