-- ===== src/Process/Execute/Tables.antt =====
-- bunsan/process/src/process/native_executor.cpp and src/process/detail/unix/execute.cpp: the descriptors
-- while files are opened and made the standard ones, as functions on the numbers.
use bacs.Base.{
  is_some, ℕ, ◌≤◌, ◌≡◌, ◌≢◌, ◌⊎◌, inl, inr, refl, sym, subst, Bool, true, false, Option, none, some,
  Option-cases, ◌==◌, nat_Eq, arith, if◌then◌else◌,
}
use bacs.Process.Posix.{Descriptor}

abbrev pub Table : Type 0 → Type 0
Table F = ℕ → Option (Descriptor F)

-- The numbers of a handle that is used for one of the standard descriptors.
abbrev pub IsNumber : ℕ → ℕ → Bool → Type 0
IsNumber std n c = ((c ≡ false) × (n ≡ std)) ⊎ ((c ≡ true) × (3 ≤ n))

-- It is not a standard descriptor that is closed.
pub number_differs : (std n : ℕ) (c : Bool) (m : ℕ) → IsNumber std n c → m ≤ 2 → c ≡ true → m ≢ n
number_differs std n c m h l e = elim h [ inl p ↦ absurd (cc) | inr p ↦ λ q. ground arith ]

-- A handle closes a descriptor, or does not.
pub closes-cases : (c : Bool) (m n : ℕ) → ((c ≡ true) × (m ≡ n)) ⊎ (c ≡ true → m ≢ n)
closes-cases false m n = inr (λ e. absurd (cc))
closes-cases true m n = elim (nat_Eq.dec m n) [ yes p ↦ inl (refl, p) | no q ↦ inr (λ e. q) ]

module _ {F : Type 0} where
  -- The descriptor that stands for the file of another one and is inherited.
  abbrev pub for_exec : Descriptor F → Option (Descriptor F)
  for_exec d = some (record { file = d.file; close_on_exec = false })

  -- The descriptors after make_standard: `d` is the descriptor `n` of the handle.
  abbrev pub standard_table : ℕ → Bool → ℕ → Descriptor F → Table F → Table F
  standard_table std close n d table m =
      if m == std
      then for_exec d
      else if n == std
      then table m
      else if close
      then (if m == n then none else table m)
      else table m

  -- The handle `n` is the inherited descriptor, or a new one that it is to close.
  pub record IsOpened (std n : ℕ) (c : Bool) (t t' : Table F) : Type 0 where
    pub kind : ((c ≡ false) × (n ≡ std)) ⊎ ((c ≡ true) × (t n ≡ none) × (is_some (t' n) ≡ true))
    pub same : (m : ℕ) → (c ≡ true → m ≢ n) → t' m ≡ t m

  pub standard_other :
      (std n : ℕ) (c : Bool) (d : Descriptor F) (t : Table F) (m : ℕ)
      → m ≢ std
      → (c ≡ true → m ≢ n)
      → standard_table std c n d t m ≡ t m
  standard_other std n false d t m p q = ground arith
  standard_other std n true d t m p q = ground (arith, q refl)

  pub standard_self :
      (std n : ℕ) (c : Bool) (d : Descriptor F) (t : Table F)
      → standard_table std c n d t std ≡ for_exec d
  standard_self std n c d t = ground arith

  pub standard_closed :
      (std n : ℕ) (d : Descriptor F) (t : Table F)
      → n ≢ std
      → standard_table std true n d t n ≡ none
  standard_closed std n d t p = ground arith

  pub opened_used :
      (std n : ℕ) (c : Bool) (t t' : Table F) (m : ℕ)
      → IsOpened std n c t t'
      → is_some (t m) ≡ true
      → is_some (t' m) ≡ true
  opened_used std n c t t' m o u = elim o.kind [
    | inl (p, q) ↦ rw (o.same m (λ r. absurd (cc))) u
    | inr (p, q, v) ↦ elim (nat_Eq.dec m n) [
      | yes e ↦ subst (λ j. is_some (t' j) ≡ true) (sym e) v
      | no e ↦ rw (o.same m (λ r. e)) u
    ]
  ]

  unused_differs : (t : Table F) (m n : ℕ) → is_some (t m) ≡ true → t n ≡ none → n ≢ m
  unused_differs t m n u e p =
      let h = subst (λ j. is_some (t j) ≡ true) (sym p) u in absurd (ground (arith, e))

  -- Where the standard descriptors are in use, a new one is another.
  pub opened-IsNumber :
      (std n : ℕ) (c : Bool) (t t' : Table F)
      → IsOpened std n c t t'
      → is_some (t 0) ≡ true
      → is_some (t 1) ≡ true
      → is_some (t 2) ≡ true
      → IsNumber std n c
  opened-IsNumber std n c t t' o a b d = elim o.kind [
    | inl p ↦ inl p
    | inr (p, e, u) ↦
        let x = unused_differs t 0 n a e in
        let y = unused_differs t 1 n b e in
        let z = unused_differs t 2 n d e in inr (p, ground (arith))
  ]

  -- What was in use before is not what was opened.
  pub opened_differs :
      (std n : ℕ) (c : Bool) (t t' : Table F) (m : ℕ)
      → IsOpened std n c t t'
      → is_some (t m) ≡ true
      → c ≡ true
      → m ≢ n
  opened_differs std n c t t' m o u e = elim o.kind [
    | inl p ↦ absurd (cc)
    | inr (p, q, v) ↦ λ r. unused_differs t m n u q (sym r)
  ]

  -- The descriptor of the handle is in use.
  pub opened_self :
      (std n : ℕ) (c : Bool) (t t' : Table F)
      → IsOpened std n c t t'
      → is_some (t std) ≡ true
      → is_some (t' n) ≡ true
  opened_self std n c t t' o u = elim o.kind [
    | inl (p, q) ↦ subst (λ j. is_some (t' j) ≡ true) (sym q) (opened_used std n c t t' std o u)
    | inr (p, q, v) ↦ v
  ]

  -- What make_standard closes was not in use before the file was opened.
  pub closed_again :
      (std n s : ℕ) (c : Bool) (d : Descriptor F) (t t' s1 : Table F) (m : ℕ)
      → IsOpened s n c t t'
      → c ≡ true
      → m ≡ n
      → 3 ≤ m
      → std ≤ 2
      → (standard_table std c n d s1 m ≡ none) × (t m ≡ none)
  closed_again std n s c d t t' s1 m o e p l b = elim o.kind [
    | inl (q, r) ↦ absurd (cc)
    | inr (q, r, v) ↦ (
      subst (λ z. standard_table std z n d s1 m ≡ none) (sym q)
          (subst (λ z. standard_table std true n d s1 z ≡ none) (sym p)
            (standard_closed std n d s1 (λ w. omega arith))),
      subst (λ z. t z ≡ none) (sym p) r,
    )
  ]

  pub unused_before :
      (t t' : Table F) (m : ℕ)
      → (is_some (t m) ≡ true → is_some (t' m) ≡ true)
      → t' m ≡ none
      → t m ≡ none
  unused_before t t' m f e = elim (Option-cases (t m)) [
    | inl p ↦ p
    | inr (d, p) ↦ absurd (ground (arith, f (rw p refl)))
  ]
