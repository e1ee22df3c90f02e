-- ===== src/Problem/ListStorage/Uniform.antt =====
-- list_storage (bacs/problem/src/single/test/list_storage.cpp): all tests have the same data ids.
use bacs.Base.{
  none-some, ok_path, Str, ◌≡◌, ◌⊎◌, subst, true, none, some, List, [], ◌∷◌, ok, contains-nil,
  list_Eq, nat_Eq, arith, inl, inr, Bool-cases, Option-cases,
}
use bacs.Base.Dict.{Dict, lookup, assign, keys}
use bacs.Problem.ListStorage.Steps.{
  IsUniform, set_data_type-IsUniform, set_each-IsUniform, lookup-begin, same_keys-contains,
  assign-IsUniform, first-IsUniform,
}
use bacs.Problem.ListStorage.{
  ListStorage, TestData, TestDataType, empty_storage, same_keys, same_data, set_data_type,
  StorageError, add_test,
}

-- What add_test accepts where there are tests: a test with the data ids of the others that is new, or
-- has the same files.
pub add_test-later :
    (id : Str) (d : TestData) (f : TestDataType) (first : Str × TestData) (rest : Dict Str TestData)
    (x : List Str) (s' : ListStorage)
    → add_test id d (record { default_data_type = f; tests = first ∷ rest; text_data_set = x })
      ≡ ok s'
    → (same_keys d first.1 ≡ true)
      × (((lookup id (first ∷ rest) ≡ none)
            × (record {
              default_data_type = f;
              tests = assign id d (first ∷ rest);
              text_data_set = x;
            }
                ≡ s'))
          ⊎ ((known : TestData) × (lookup id (first ∷ rest) ≡ some known)
              × (same_data known d ≡ true)
              × (record { default_data_type = f; tests = first ∷ rest; text_data_set = x } ≡ s')))
unfolding add_test
add_test-later id d f first rest x s' h = elim (Bool-cases (same_keys d first.1)) [
  | inr n ↦ absurd (ground arith)
  | inl c ↦ elim (Option-cases (lookup id (first ∷ rest))) [
    | inl n ↦ (c, inl (n, ok_path {E = StorageError} (ground arith)))
    | inr (known, k) ↦ elim (Bool-cases (same_data known d)) [
      | inl e ↦ (c, inr (known, k, e, ok_path {E = StorageError} (ground arith)))
      | inr e ↦ absurd (ground arith)
    ]
  ]
]

add_fields-IsUniform :
    (id : Str) (d : TestData) (f : TestDataType) (tests : Dict Str TestData) (x : List Str)
    (s' : ListStorage)
    → IsUniform (record { default_data_type = f; tests = tests; text_data_set = x })
    → add_test id d (record { default_data_type = f; tests = tests; text_data_set = x }) ≡ ok s'
    → IsUniform s'
unfolding add_test
add_fields-IsUniform id d f [] x s' u h =
    (set_each-IsUniform (keys d) f _ s' (first-IsUniform id d f x u) h).1
add_fields-IsUniform id d f (first ∷ rest) x s' u h =
    let (same, cases) = add_test-later id d f first rest x s' h in
    elim cases [
      | inl (n, e) ↦ subst IsUniform e (
          assign-IsUniform id first.0 d first.1 f (first ∷ rest) x (lookup-begin first rest)
            (same_keys-contains d first.1 same) u)
      | inr (known, k, e, q) ↦ subst IsUniform q u
    ]

-- A storage after some tests were added and some types were set; what throws changes nothing.
pub data Reached : ListStorage → Type 0 where
  start : (type_ : TestDataType) → Reached (empty_storage type_)
  added :
      {s : ListStorage}
      → Reached s
      → (id : Str) (d : TestData) (s' : ListStorage) → add_test id d s ≡ ok s'
      → Reached s'
  typed :
      {s : ListStorage}
      → Reached s
      → (k : Str) (type_ : TestDataType) (s' : ListStorage) → set_data_type k type_ s ≡ ok s'
      → Reached s'

-- Whatever tests were added and whatever types were set, all tests have the same data ids, and text is
-- set only for ids that the tests have.
pub Reached-IsUniform : {s : ListStorage} → Reached s → IsUniform s
unfolding lookup
Reached-IsUniform (start type_) = record {
  same_ids = λ t u h. absurd (none-some h);
  known_ids = λ k i. absurd (contains-nil k i);
}
Reached-IsUniform (added {s = s} r id d s' h) =
    add_fields-IsUniform id d s.default_data_type s.tests s.text_data_set s' (Reached-IsUniform r) h
Reached-IsUniform (typed {s = s} r k type_ s' h) =
    (set_data_type-IsUniform k type_ s s' (Reached-IsUniform r) h).1
