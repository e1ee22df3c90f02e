-- ===== src/Problem/Simple0/Collected.antt =====
-- bacs/problem/src/single/drivers/simple0/tests.cpp: the files that are found in the directory.
use bacs.Base.{
  ℕ, Str, ◌≡◌, ◌≢◌, inl, inr, refl, sym, ◌∙◌, ap, subst, Bool, true, false, ◌||◌, Option, none,
  some, some_path, none-some, List, [], ◌∷◌, ◌++◌, All, Result, ok, err, ok_path, >>=-eq-ok, ◌==◌,
  ==_refl, contains, contains-insert, insert, list_Eq, nat_Eq, arith, Option-cases, if◌then◌else◌,
}
use bacs.Base.Dict.{Dict, keys}
use bacs.Problem.Simple0.Storage.{
  DirectoryEntry, TestsError, format_error, put_before, cut, split_name, add_file, collect_files,
}

put_before-join :
    (c : ℕ) (s : Str) (o : Option (Str × Str)) (p : Str × Str)
    → ((q : Str × Str) → o ≡ some q → s ≡ q.0 ++ (b'.' ∷ q.1))
    → put_before c o ≡ some p
    → (c ∷ s) ≡ p.0 ++ (b'.' ∷ p.1)
unfolding put_before
put_before-join c s none p h e = absurd (none-some e)
put_before-join c s (some q) p h e =
    subst (λ (z : Str × Str). (c ∷ s) ≡ z.0 ++ (b'.' ∷ z.1)) (some_path e)
      (ap (λ l. c ∷ l) (h q refl))

cut-join : (s : Str) (p : Str × Str) → cut s ≡ some p → s ≡ p.0 ++ (b'.' ∷ p.1)
unfolding cut
cut-join [] p e = absurd (none-some e)
cut-join (c ∷ s) p e = elim (nat_Eq.dec c b'.') [
  | yes q ↦
      let r : some ([], s) ≡ some p = ground arith in
      subst (λ (z : Str × Str). (c ∷ s) ≡ z.0 ++ (b'.' ∷ z.1)) (some_path r) (ap (λ d. d ∷ s) q)
  | no n ↦ put_before-join c s (cut s) p (λ q r. cut-join s q r) (ground arith)
]

unless_dotted :
    (b : Bool) (q p : Str × Str)
    → ◌≡◌ {A = Result TestsError (Str × Str)} (if b then err format_error else ok q) (ok p)
    → q ≡ p
unless_dotted true q p e = cc
unless_dotted false q p e = ok_path {E = TestsError} e

split_name-join :
    (entry : DirectoryEntry) (p : Str × Str)
    → split_name entry ≡ ok p
    → entry.filename ≡ p.0 ++ (b'.' ∷ p.1)
unfolding split_name
split_name-join entry p e = elim (Option-cases (cut entry.filename)) [
  | inl n ↦ absurd (ground arith)
  | inr (q, r) ↦
      cut-join entry.filename p (r ∙ ap some (unless_dotted (contains b'.' q.1) q p (ground arith)))
]

-- The files of a test that were found.
unfoldable pub is_listed : Str → Str → Dict Str (List Str) → Bool
is_listed t d [] = false
is_listed t d ((u, ids) ∷ files) =
    let rest = is_listed t d files in if t == u then contains d ids else rest

is_listed-add_file :
    (t d : Str) (files : Dict Str (List Str)) → is_listed t d (add_file t d files) ≡ true
unfolding is_listed add_file contains
is_listed-add_file t d [] = ground (arith, ==_refl t, ==_refl d)
is_listed-add_file t d ((u, ids) ∷ files) = elim (list_Eq.dec t u) [
  | yes p ↦ ground (arith, contains-insert d d ids, ==_refl d)
  | no n ↦ ground (arith, is_listed-add_file t d files)
]

is_listed_mono :
    (t d u c : Str) (files : Dict Str (List Str))
    → is_listed t d files ≡ true
    → is_listed t d (add_file u c files) ≡ true
unfolding is_listed add_file
is_listed_mono t d u c [] h = cc
is_listed_mono t d u c ((v, ids) ∷ files) h =
    ground (arith, is_listed_mono t d u c files, contains-insert c d ids)

-- No test stands twice in the list.
abbrev pub IsDistinct : Dict Str (List Str) → Type 0
IsDistinct [] = Unit
IsDistinct ((t, ids) ∷ files) = (contains t (keys files) ≡ false) × IsDistinct files

contains-keys-add_file :
    (k t d : Str) (files : Dict Str (List Str))
    → contains k (keys (add_file t d files)) ≡ (k == t || contains k (keys files))
unfolding add_file keys contains
contains-keys-add_file k t d [] = ground arith
contains-keys-add_file k t d ((u, ids) ∷ files) = elim (list_Eq.dec t u) [
  | yes p ↦ rw p (ground (arith))
  | no n ↦ ground (arith, contains-keys-add_file k t d files)
]

not_in : (t : Str) → contains t (keys {V = List Str} []) ≡ false
unfolding contains keys
not_in t = refl

add_same :
    (t d u : Str) (ids : List Str) (files : Dict Str (List Str))
    → t ≡ u
    → add_file t d ((u, ids) ∷ files) ≡ (u, insert d ids) ∷ files
unfolding add_file
add_same t d u ids files p = ground arith

add_other :
    (t d u : Str) (ids : List Str) (files : Dict Str (List Str))
    → t ≢ u
    → add_file t d ((u, ids) ∷ files) ≡ (u, ids) ∷ add_file t d files
unfolding add_file
add_other t d u ids files n = ground arith

add_file-IsDistinct :
    (t d : Str) (files : Dict Str (List Str)) → IsDistinct files → IsDistinct (add_file t d files)
unfolding add_file
add_file-IsDistinct t d [] h = (not_in t, tt)
add_file-IsDistinct t d ((u, ids) ∷ files) h = elim (list_Eq.dec t u) [
  | yes p ↦ subst (λ (z : Dict Str (List Str)). IsDistinct z) (sym (add_same t d u ids files p)) h
  | no n ↦
      subst (λ (z : Dict Str (List Str)). IsDistinct z) (sym (add_other t d u ids files n))
        (
          ground (arith, contains-keys-add_file u t d files, h.0, n),
          add_file-IsDistinct t d files h.1,
        )
]

-- A file of the directory was found as a file of its test.
abbrev pub IsFound : Dict Str (List Str) → DirectoryEntry → Type 0
IsFound files entry =
    (p : Str × Str) × (entry.filename ≡ p.0 ++ (b'.' ∷ p.1)) × (is_listed p.0 p.1 files ≡ true)

collect_files_mono :
    (entries : List DirectoryEntry) (files files' : Dict Str (List Str)) (t d : Str)
    → collect_files entries files ≡ ok files'
    → is_listed t d files ≡ true
    → is_listed t d files' ≡ true
unfolding collect_files
collect_files_mono [] files files' t d e h = subst (λ z. is_listed t d z ≡ true) (ok_path e) h
collect_files_mono (entry ∷ entries) files files' t d e h =
    let (p, q, r) =
      >>=-eq-ok (split_name entry) (λ p. collect_files entries (add_file p.0 p.1 files)) e in
    collect_files_mono entries (add_file p.0 p.1 files) files' t d r
      (is_listed_mono t d p.0 p.1 files h)

pub collect_files-IsFound :
    (entries : List DirectoryEntry) (files files' : Dict Str (List Str))
    → IsDistinct files
    → collect_files entries files ≡ ok files'
    → IsDistinct files' × All (IsFound files') entries
unfolding collect_files
collect_files-IsFound [] files files' h e =
    (subst (λ (z : Dict Str (List Str)). IsDistinct z) (ok_path e) h, tt)
collect_files-IsFound (entry ∷ entries) files files' h e =
    let (p, q, r) =
      >>=-eq-ok (split_name entry) (λ p. collect_files entries (add_file p.0 p.1 files)) e in
    let (distinct, found) =
      collect_files-IsFound entries (add_file p.0 p.1 files) files'
        (add_file-IsDistinct p.0 p.1 files h) r in
    (
      distinct,
      (
        (
          p,
          split_name-join entry p q,
          collect_files_mono entries (add_file p.0 p.1 files) files' p.0 p.1 r
              (is_listed-add_file p.0 p.1 files),
        ),
        found,
      ),
    )
