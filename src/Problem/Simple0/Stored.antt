-- ===== src/Problem/Simple0/Stored.antt =====
-- bacs/problem/src/single/drivers/simple0/tests.cpp: every file of the directory is a file of its test.
use bacs.Base.{
  Str, ◌≡◌, ◌≢◌, inl, inr, refl, sym, ◌∙◌, ap, subst, true, false, Option, none, some, List, [],
  ◌∷◌, ◌++◌, All, All-map, all-contains, Result, ok, err, ◌>>=◌, ok_path, >>=-eq-ok, ==_refl, ==_eq,
  contains, and-eq-true, list_Eq, nat_Eq, arith, Option-cases,
}
use bacs.Base.Dict.{Dict, lookup, keys}
use bacs.Problem.ListStorage.{
  ListStorage, TestData, TestDataType, StorageError, text, empty_storage, same_keys, same_file,
  same_data, add_test, set_data_type,
}
use bacs.Problem.ListStorage.Steps.{same_keys-contains, set_data_type-IsUniform}
use bacs.Problem.ListStorage.Uniform.{Reached, start, added, typed, Reached-IsUniform}
use bacs.Problem.ListStorage.Added.{IsAdded, add_test-IsAdded}
use bacs.Problem.Simple0.{after_prefix}
use bacs.Problem.Simple0.Collected.{is_listed, IsDistinct, IsFound, collect_files-IsFound}
use bacs.Problem.Simple0.Storage.{
  DirectoryEntry, TestsError, collect_files, make_data, of_storage, add_tests, override_type,
  override_types, make_tests, data_prefix,
}

lookup-make_data :
    (t d : Str) (ids : List Str)
    → contains d ids ≡ true
    → lookup d (make_data t ids) ≡ some (t ++ (b'.' ∷ d))
unfolding make_data lookup contains
lookup-make_data t d [] h = cc
lookup-make_data t d (j ∷ ids) h = elim (list_Eq.dec d j) [
  | yes p ↦ rw p (ground (arith, ==_refl j))
  | no n ↦ ground (arith, lookup-make_data t d ids)
]

keys-make_data : (t : Str) (ids : List Str) → keys (make_data t ids) ≡ ids
unfolding make_data keys
keys-make_data t [] = refl
keys-make_data t (j ∷ ids) = ap (λ l. j ∷ l) (keys-make_data t ids)

same_file-path : (o q : Option Str) → same_file o q ≡ true → o ≡ q
unfolding same_file
same_file-path none none h = refl
same_file-path none (some p) h = cc
same_file-path (some p) none h = cc
same_file-path (some p) (some q) h = ap some (==_eq p q h)

-- Data that are the same have the same files.
same_data-lookup :
    (d : Str) (e f : TestData)
    → same_data e f ≡ true
    → contains d (keys f) ≡ true
    → lookup d e ≡ lookup d f
unfolding same_data
same_data-lookup d e f h c =
    let (k, l) = and-eq-true (same_keys e f) _ h in
    same_file-path (lookup d e) (lookup d f) (
      all-contains (λ id. same_file (lookup id e) (lookup id f)) d (keys e) l
        (same_keys-contains e f k d ∙ c))

-- The storage has the file of the test.
pub IsStored : ListStorage → Str → Str → Type 0
IsStored s t d =
    (e : TestData) × (lookup t s.tests ≡ some e) × (lookup d e ≡ some (t ++ (b'.' ∷ d)))

of_storage-is_ok :
    (r : Result StorageError ListStorage) (s : ListStorage) → of_storage r ≡ ok s → r ≡ ok s
unfolding of_storage
of_storage-is_ok (ok l) s e = ap ok (ok_path {E = TestsError} e)
of_storage-is_ok (err x) s e = cc

here-IsStored :
    (t d : Str) (ids : List Str) (s s1 s' : ListStorage)
    → IsAdded t (make_data t ids) s s1
    → lookup t s'.tests ≡ lookup t s1.tests
    → contains d ids ≡ true
    → IsStored s' t d
unfolding IsStored
here-IsStored t d ids s s1 s' is same c =
    let (x, k, sm) = is.stored in
    (
      x,
      same ∙ k,
      same_data-lookup d x (make_data t ids) sm (ap (contains d) (keys-make_data t ids) ∙ c)
          ∙ lookup-make_data t d ids c,
    )

first_differs : (u t : Str) (ts : List Str) → contains u (t ∷ ts) ≡ false → u ≢ t
unfolding contains
first_differs u t ts n p = absurd (ground (arith, ==_refl t))

record AreAdded (files : Dict Str (List Str)) (s s' : ListStorage) : Type 0 where
  reached : Reached s'
  stored : (t d : Str) → is_listed t d files ≡ true → IsStored s' t d
  others : (t : Str) → contains t (keys files) ≡ false → lookup t s'.tests ≡ lookup t s.tests

add_tests-AreAdded :
    (files : Dict Str (List Str)) (s s' : ListStorage)
    → IsDistinct files
    → Reached s
    → add_tests files s ≡ ok s'
    → AreAdded files s s'
unfolding add_tests is_listed IsStored keys contains
add_tests-AreAdded [] s s' h r e = record {
  reached = subst Reached (ok_path e) r;
  stored = λ t d f. cc;
  others = λ t n. ap (λ (z : ListStorage). lookup t z.tests) (sym (ok_path e));
}
add_tests-AreAdded ((t, ids) ∷ files) s s' h r e =
    let (s1, p, q) = >>=-eq-ok (of_storage (add_test t (make_data t ids) s)) (add_tests files) e in
    let a = of_storage-is_ok _ s1 p in
    let is = add_test-IsAdded t (make_data t ids) r a in
    let rest = add_tests-AreAdded files s1 s' h.1 (added r t (make_data t ids) s1 a) q in
    record {
      reached = rest.reached;
      stored = λ u d f. elim (list_Eq.dec u t) [
        | yes p ↦
            subst (λ z. IsStored s' z d) (sym p)
              (here-IsStored t d ids s s1 s' is (rest.others t h.0) (ground arith))
        | no n ↦ rest.stored u d (ground arith)
      ];
      others = λ u n. rest.others u (ground arith) ∙ is.others u (first_differs u t (keys files) n);
    }

module _ (parse : Str → Option TestDataType) where
  unchanged-tests :
      (s s' : ListStorage)
      → Reached s
      → ◌≡◌ {A = Result TestsError ListStorage} (ok s) (ok s')
      → Reached s' × (s'.tests ≡ s.tests)
  unchanged-tests s s' r e = (
    subst Reached (ok_path {E = TestsError} e) r,
    ap (λ (z : ListStorage). z.tests) (sym (ok_path {E = TestsError} e)),
  )

  one-tests :
      (key value : Str) (s s' : ListStorage)
      → Reached s
      → override_type parse key value s ≡ ok s'
      → Reached s' × (s'.tests ≡ s.tests)
  unfolding override_type
  one-tests key value s s' r e = elim (Option-cases (after_prefix data_prefix key)) [
    | inl n ↦ unchanged-tests s s' r (ground arith)
    | inr (data_id, p) ↦ elim (Option-cases (parse value)) [
      | inl n ↦ absurd (ground arith)
      | inr (type_, q) ↦
          let h = of_storage-is_ok (set_data_type data_id type_ s) s' (ground arith) in
          (
            typed r data_id type_ s' h,
            (set_data_type-IsUniform data_id type_ s s' (Reached-IsUniform r) h).0,
          )
    ]
  ]

  override_types-tests :
      (config : List (Str × Str)) (s s' : ListStorage)
      → Reached s
      → override_types parse config s ≡ ok s'
      → Reached s' × (s'.tests ≡ s.tests)
  unfolding override_types
  override_types-tests [] s s' r e =
      (subst Reached (ok_path e) r, ap (λ (z : ListStorage). z.tests) (sym (ok_path e)))
  override_types-tests ((key, value) ∷ config) s s' r e =
      let (s1, p, q) =
        >>=-eq-ok (override_type parse key value s) (override_types parse config) e in
      let (r1, t1) = one-tests key value s s1 r p in
      let (r2, t2) = override_types-tests config s1 s' r1 q in (r2, t2 ∙ t1)

  -- If the directory could be read and the configuration too, the storage is one that add_test and
  -- set_data_type make, so that all tests have the same data ids; and every file of the directory is
  -- called by the id of a test, a dot and the id of its data, and is the file of this test for them.
  pub make_tests-AreStored :
      (entries : List DirectoryEntry) (config : List (Str × Str)) (s : ListStorage)
      → make_tests parse entries config ≡ ok s
      → Reached s
        × All
            (λ entry. (p : Str × Str) × (entry.filename ≡ p.0 ++ (b'.' ∷ p.1)) × IsStored s p.0 p.1)
            entries
  unfolding make_tests IsStored
  make_tests-AreStored entries config s e =
      let (s1, p, q) =
        >>=-eq-ok (collect_files entries [] >>= (λ files. add_tests files (empty_storage text)))
          (override_types parse config) e in
      let (files, f, a) =
        >>=-eq-ok (collect_files entries []) (λ files. add_tests files (empty_storage text)) p in
      let (distinct, found) = collect_files-IsFound entries [] files tt f in
      let are = add_tests-AreAdded files (empty_storage text) s1 distinct (start text) a in
      let (reached, same) = override_types-tests config s1 s are.reached q in
      (
        reached,
        All-map (IsFound files) _ entries
            (λ entry (n, path, h).
              let (x, k, l) = are.stored n.0 n.1 h in (n, path, (x, ap (lookup n.0) same ∙ k, l)))
            found,
      )
