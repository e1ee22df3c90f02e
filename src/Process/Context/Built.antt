-- ===== src/Process/Context/Built.antt =====
-- context (bunsan/process/src/process/context.cpp): what build makes of a context.
use bacs.Base.{
  Str, ◌≡◌, ◌⊎◌, inl, inr, refl, sym, ◌∙◌, ap, subst, Bool, true, false, Option, none, some, List,
  [], ◌∷◌, Result, ok, err, ◌>>=◌, list_Eq, nat_Eq, arith, Bool-cases, Option-cases, if◌then◌else◌,
}
use bacs.Base.Dict.{Dict, lookup, assign}
use bacs.Process.Context.{
  Filesystem, Context, BuildError, nothing_to_execute, empty_executable, non_basename_executable,
  fill_command, load, copy_all, or_else, fill_environment, fill_current_path, decide_use_path,
  is_empty, check_executable, fill_executable, asked, filesystem_failed, build_, swap_built, build,
}

-- The program that a context names: its executable, or its first argument.
unfoldable pub command : Context → Option Str
command c = elim c.executable [
  | none ↦ elim c.arguments [ [] ↦ none | first ∷ rest ↦ some first ]
  | some x ↦ some x
]

unfoldable pub arguments_for : Str → List Str → List Str
arguments_for x [] = x ∷ []
arguments_for x (first ∷ rest) = first ∷ rest

lookup-copy_all :
    (k : Str) (d env : Dict Str Str)
    → lookup k (copy_all d env) ≡ (elim (lookup k d) [ none ↦ lookup k env | some v ↦ some v ])
unfolding copy_all lookup assign
lookup-copy_all k [] env = refl
lookup-copy_all k ((j, v) ∷ d) env = ground (arith, lookup-copy_all k d env)

pub copy_all-nil : (d : Dict Str Str) → copy_all d [] ≡ d
unfolding copy_all assign
copy_all-nil [] = refl
copy_all-nil ((k, v) ∷ d) = ap (λ e. (k, v) ∷ e) (copy_all-nil d)

fields-cases :
    (c : Context) (ex : Option Str) (args : List Str)
    → ((command (record c { executable = ex; arguments = args }) ≡ none)
        × (fill_command (record c { executable = ex; arguments = args }) ≡ err nothing_to_execute))
      ⊎ ((x : Str) × (command (record c { executable = ex; arguments = args }) ≡ some x)
          × (fill_command (record c { executable = ex; arguments = args })
              ≡ ok (record c { executable = some x; arguments = arguments_for x args })))
unfolding command fill_command arguments_for
fields-cases c none [] = inl (refl, refl)
fields-cases c none (first ∷ rest) = inr (first, refl, refl)
fields-cases c (some x) [] = inr (x, refl, refl)
fields-cases c (some x) (first ∷ rest) = inr (x, refl, refl)

fill_command-cases :
    (c : Context)
    → ((command c ≡ none) × (fill_command c ≡ err nothing_to_execute))
      ⊎ ((x : Str) × (command c ≡ some x)
          × (fill_command c
              ≡ ok (record c { executable = some x; arguments = arguments_for x c.arguments })))
fill_command-cases c = fields-cases c c.executable c.arguments

module _ (fs : Filesystem) where
  -- A variable has the value of the context, or that of the process if this is inherited.
  abbrev pub variable : Context → Str → Option Str
  variable c k = elim (lookup k c.environment) [
    | none ↦ lookup k (if c.environment_inherit then load fs.environment [] else [])
    | some v ↦ some v
  ]

  -- The directory of the context, or that of the process.
  unfoldable pub directory : Context → Option Str
  directory c = elim c.current_path [ none ↦ fs.current_path | some path ↦ some path ]

  -- What `build` makes of a context with the program `x`.
  pub record IsBuilt (c : Context) (x : Str) (d : Context) : Type 0 where
    pub arguments : d.arguments ≡ arguments_for x c.arguments
    pub current_path : (path : Str) × (directory c ≡ some path) × (d.current_path ≡ some path)
    pub environment_inherit : d.environment_inherit ≡ false
    pub environment : (k : Str) → lookup k d.environment ≡ variable c k
    pub searched :
        decide_use_path fs c.use_path x ≡ true
        → (d.use_path ≡ some true)
          × (d.executable ≡ some x)
          × (is_empty fs x ≡ false)
          × (fs.is_filename x ≡ true)
    pub not_searched :
        decide_use_path fs c.use_path x ≡ false
        → (d.use_path ≡ some false)
          × ((y : Str) × (fs.absolute x ≡ some y) × (d.executable ≡ some y))
    pub files :
        (d.stdin_data ≡ c.stdin_data)
        × (d.stdout_data ≡ c.stdout_data)
        × (d.stderr_data ≡ c.stderr_data)

  -- How `build` ends.
  pub data Outcome (c : Context) : Result BuildError Unit × Context → Type 0 where
    built : (x : Str) (d : Context) → command c ≡ some x → IsBuilt c x d → Outcome c (ok tt, d)
    nothing : command c ≡ none → Outcome c (err nothing_to_execute, c)
    empty :
        command c ≡ some []
        → decide_use_path fs c.use_path [] ≡ true
        → Outcome c (err empty_executable, c)
    not_basename :
        (x : Str)
        → command c ≡ some x
        → is_empty fs x ≡ false
        → c.use_path ≡ some true
        → fs.is_absolute x ≡ false
        → fs.is_filename x ≡ false
        → Outcome c (err non_basename_executable, c)
    no_directory :
        (x : Str) → command c ≡ some x → directory c ≡ none → Outcome c (err filesystem_failed, c)
    not_absolute :
        (x : Str)
        → command c ≡ some x
        → decide_use_path fs c.use_path x ≡ false
        → fs.absolute x ≡ none
        → Outcome c (err filesystem_failed, c)

  -- The context before its executable is checked.
  abbrev with_environment : Context → Str → Context
  with_environment c x =
      fill_environment fs
        (record c { executable = some x; arguments = arguments_for x c.arguments })

  abbrev filled : Context → Str → Str → Context
  filled c x path = record (with_environment c x) { current_path = some path }

  -- What fill_current_path makes of it.
  abbrev PathCases : Context → Str → Type 0
  PathCases c x =
      ((directory c ≡ none) × (fill_current_path fs (with_environment c x) ≡ err filesystem_failed))
      ⊎ ((path : Str) × (directory c ≡ some path)
          × (fill_current_path fs (with_environment c x) ≡ ok (filled c x path)))

  path_fields :
      (c : Context) (x : Str) (given : Option Str) → PathCases (record c { current_path = given }) x
  unfolding directory fill_current_path fill_environment asked
  path_fields c x (some path) = inr (path, refl, refl)
  path_fields c x none = elim (Option-cases fs.current_path) [
    | inl n ↦ inl (n, rw n refl)
    | inr (path, e) ↦ inr (path, e, rw e refl)
  ]

  build-filled :
      (c : Context) (x : Str)
      → fill_command c
        ≡ ok (record c { executable = some x; arguments = arguments_for x c.arguments })
      → build fs c
        ≡ swap_built fs c (fill_current_path fs (with_environment c x) >>= fill_executable fs x)
  unfolding build build_
  build-filled c x e = rw e refl

  build-nothing :
      (c : Context)
      → fill_command c ≡ err nothing_to_execute
      → build fs c ≡ (err nothing_to_execute, c)
  unfolding build build_ swap_built
  build-nothing c e = rw e refl

  filled-environment :
      (c : Context) (x k : Str) → lookup k (with_environment c x).environment ≡ variable c k
  unfolding fill_environment
  filled-environment c x k = lookup-copy_all k c.environment _

  -- The context that is built if the executable becomes `y`.
  finished-IsBuilt :
      (c : Context) (x y path : Str) (u : Bool)
      → directory c ≡ some path
      → decide_use_path fs c.use_path x ≡ u
      → (u ≡ true → (y ≡ x) × (is_empty fs x ≡ false) × (fs.is_filename x ≡ true))
      → (u ≡ false → fs.absolute x ≡ some y)
      → IsBuilt c x (record (filled c x path) { executable = some y; use_path = some u })
  unfolding fill_environment
  finished-IsBuilt c x y path u h p f g = record {
    arguments = refl;
    current_path = (path, h, refl);
    environment_inherit = refl;
    environment = λ k. filled-environment c x k;
    searched = λ q. let (a, b, d) = f (sym p ∙ q) in (ap some (sym p ∙ q), ap some a, b, d);
    not_searched = λ q. (ap some (sym p ∙ q), (y, g (sym p ∙ q), refl));
    files = (refl, refl, refl);
  }

  decided-by_name :
      (u : Option Bool) (x : Str)
      → decide_use_path fs u x ≡ true
      → fs.is_filename x ≡ false
      → (u ≡ some true) × (fs.is_absolute x ≡ false)
  unfolding decide_use_path or_else
  decided-by_name none x p q = cc
  decided-by_name (some true) x p q = (refl, ground arith)
  decided-by_name (some false) x p q = cc

  checked : Context → Str → Str → Bool → Result BuildError Str → Result BuildError Unit × Context
  checked c x path u r =
      swap_built fs c
        (r >>= (λ y. ok (record (filled c x path) { executable = some y; use_path = some u })))

  -- What check_executable says of a name that is looked for in the path.
  searched-cases :
      (x : Str)
      → ((is_empty fs x ≡ true) × (check_executable fs true x ≡ err empty_executable))
        ⊎ (((is_empty fs x ≡ false)
              × (fs.is_filename x ≡ true)
              × (check_executable fs true x ≡ ok x))
            ⊎ ((is_empty fs x ≡ false)
                × (fs.is_filename x ≡ false)
                × (check_executable fs true x ≡ err non_basename_executable)))
  unfolding check_executable
  searched-cases x = elim (Bool-cases (is_empty fs x)) [
    | inl p ↦ inl (p, ground arith)
    | inr p ↦ elim (Bool-cases (fs.is_filename x)) [
      | inl q ↦ inr (inl (p, q, ground arith))
      | inr q ↦ inr (inr (p, q, ground arith))
    ]
  ]

  is_empty-path : (x : Str) → is_empty fs x ≡ true → x ≡ []
  unfolding is_empty
  is_empty-path [] h = refl
  is_empty-path (c ∷ x) h = cc

  checked-Outcome :
      (c : Context) (x path : Str) (u : Bool)
      → directory c ≡ some path
      → command c ≡ some x
      → decide_use_path fs c.use_path x ≡ u
      → Outcome c (checked c x path u (check_executable fs u x))
  unfolding checked check_executable swap_built asked
  checked-Outcome c x path false l n p = elim (Option-cases (fs.absolute x)) [
    | inl e ↦
        subst (λ o. Outcome c (checked c x path false (asked fs o))) (sym e) (not_absolute x n p e)
    | inr (y, e) ↦
        subst (λ o. Outcome c (checked c x path false (asked fs o))) (sym e)
          (built x _ n (finished-IsBuilt c x y path false l p (λ h. absurd (cc)) (λ h. e)))
  ]
  checked-Outcome c x path true l n p = elim (searched-cases x) [
    | inl (q, e) ↦
        subst (λ r. Outcome c (checked c x path true r)) (sym e)
          (empty (n ∙ ap some (is_empty-path x q))
            (ap (decide_use_path fs c.use_path) (sym (is_empty-path x q)) ∙ p))
    | inr (inl (q, r, e)) ↦
        subst (λ r. Outcome c (checked c x path true r)) (sym e)
          (built x _ n
            (finished-IsBuilt c x x path true l p (λ h. (refl, q, r)) (λ h. absurd (cc))))
    | inr (inr (q, r, e)) ↦
        subst (λ r. Outcome c (checked c x path true r)) (sym e)
          (not_basename x n q (decided-by_name c.use_path x p r).0
            (decided-by_name c.use_path x p r).1 r)
  ]

  -- `build` always ends in one of five ways. It makes a context in which everything is set: the program
  -- and its arguments, each from the other where one was missing; the directory of the context, or that
  -- of the process; the variables of the context, and those of the process below them if they are
  -- inherited; and a name without a directory that is looked for in the path, or else what the file
  -- system returns as the absolute path. Or it throws since there is no program, since its name is empty,
  -- since a relative path is to be looked for in the path, or since the file system has no current
  -- directory or no absolute path; the context is then as it was.
  pub build-Outcome : (c : Context) → Outcome c (build fs c)
  unfolding checked fill_executable swap_built fill_environment
  build-Outcome c = elim (fill_command-cases c) [
    | inl (n, e) ↦ subst (Outcome c) (sym (build-nothing c e)) (nothing n)
    | inr (x, n, e) ↦
        subst (Outcome c) (sym (build-filled c x e)) (elim (path_fields c x c.current_path) [
          | inl (q, r) ↦
              subst (λ m. Outcome c (swap_built fs c (m >>= fill_executable fs x))) (sym r)
                (no_directory x n q)
          | inr (path, q, r) ↦
              subst (λ m. Outcome c (swap_built fs c (m >>= fill_executable fs x))) (sym r)
                (checked-Outcome c x path (decide_use_path fs c.use_path x) q n refl)
        ])
  ]
