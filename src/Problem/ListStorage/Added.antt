-- ===== src/Problem/ListStorage/Added.antt =====
-- list_storage (bacs/problem/src/single/test/list_storage.cpp): what add_test stores, and adding a test again.
use bacs.Base.{
  Str, ◌≡◌, ◌≢◌, refl, sym, subst, Bool, true, Option, none, some, List, [], ◌∷◌, all, ok, ==_refl,
  contains, contains-first, contains-later, list_Eq, nat_Eq, arith, inl, inr,
}
use bacs.Base.Dict.{Dict, lookup, assign, keys, lookup-assign}
use bacs.Problem.ListStorage.{
  ListStorage, TestData, TestDataType, is_subset, same_keys, same_file, same_data, add_test,
}
use bacs.Problem.ListStorage.Steps.{IsUniform, lookup-begin, set_each-IsUniform, first-IsUniform}
use bacs.Problem.ListStorage.Uniform.{add_test-later, Reached, Reached-IsUniform}

all-true : {A : Type 0} (p : A → Bool) (xs : List A) → ((a : A) → p a ≡ true) → all p xs ≡ true
all-true p [] h = refl
all-true p (x ∷ xs) h = ground (arith, h x, all-true p xs h)

all-contained :
    (xs ys : List Str)
    → ((a : Str) → contains a xs ≡ true → contains a ys ≡ true)
    → all (λ x. contains x ys) xs ≡ true
all-contained [] ys h = refl
all-contained (x ∷ xs) ys h =
    ground
      (arith, h x (contains-first x xs), all-contained xs ys (λ a i. h a (contains-later a x xs i)))

same_keys_refl : (d : TestData) → same_keys d d ≡ true
unfolding same_keys is_subset
same_keys_refl d = ground (arith, all-contained (keys d) (keys d) (λ a i. i))

same_file_refl : (o : Option Str) → same_file o o ≡ true
unfolding same_file
same_file_refl none = refl
same_file_refl (some p) = ==_refl p

pub same_data_refl : (d : TestData) → same_data d d ≡ true
unfolding same_data
same_data_refl d = ground (
  arith,
  same_keys_refl d,
  all-true (λ id. same_file (lookup id d) (lookup id d)) (keys d)
      (λ id. same_file_refl (lookup id d)),
)

-- What a successful add_test has done to the tests.
pub record IsAdded (id : Str) (d : TestData) (s s' : ListStorage) : Type 0 where
  pub stored : (e : TestData) × (lookup id s'.tests ≡ some e) × (same_data e d ≡ true)
  pub others : (j : Str) → j ≢ id → lookup j s'.tests ≡ lookup j s.tests
  pub again : add_test id d s' ≡ ok s'

add_again :
    (id : Str) (d e : TestData) (f : TestDataType) (first : Str × TestData)
    (rest : Dict Str TestData) (x : List Str)
    → same_keys d first.1 ≡ true
    → lookup id (first ∷ rest) ≡ some e
    → same_data e d ≡ true
    → add_test id d (record { default_data_type = f; tests = first ∷ rest; text_data_set = x })
      ≡ ok (record { default_data_type = f; tests = first ∷ rest; text_data_set = x })
unfolding add_test
add_again id d e f first rest x k l h = ground arith

assigned-IsAdded :
    (id : Str) (d : TestData) (f : TestDataType) (tests : Dict Str TestData) (x y : List Str)
    → IsAdded id d
        (record { default_data_type = f; tests = tests; text_data_set = x })
        (record { default_data_type = f; tests = assign id d tests; text_data_set = y })
unfolding assign
assigned-IsAdded id d f tests x y =
    let new = lookup-begin (id, d) tests in
    record {
      stored = (d, new, same_data_refl d);
      others = λ j n. ground (arith, lookup-assign j id d tests);
      again = add_again id d d f (id, d) tests y (same_keys_refl d) new (same_data_refl d);
    }

-- The same where the tests of the second storage are known by an equation only.
first-IsAdded :
    (id : Str) (d : TestData) (f : TestDataType) (x : List Str) (s' : ListStorage)
    → s'.tests ≡ assign id d []
    → IsAdded id d (record { default_data_type = f; tests = []; text_data_set = x }) s'
first-IsAdded id d f x s' p =
    let with_tests : Dict Str TestData → ListStorage = λ tests. record s' { tests = tests } in
    let h : IsAdded id d (record { default_data_type = f; tests = []; text_data_set = x })
        (with_tests (assign id d [])) =
      let a = assigned-IsAdded id d s'.default_data_type [] x s'.text_data_set in
      record { stored = a.stored; others = a.others; again = a.again } in
    subst
      (λ tests.
        IsAdded id d (record { default_data_type = f; tests = []; text_data_set = x })
          (with_tests tests))
      (sym p) h

add_fields-IsAdded :
    (id : Str) (d : TestData) (f : TestDataType) (tests : Dict Str TestData) (x : List Str)
    (s' : ListStorage)
    → IsUniform (record { default_data_type = f; tests = tests; text_data_set = x })
    → add_test id d (record { default_data_type = f; tests = tests; text_data_set = x }) ≡ ok s'
    → IsAdded id d (record { default_data_type = f; tests = tests; text_data_set = x }) s'
unfolding add_test
add_fields-IsAdded id d f [] x s' u h =
    first-IsAdded id d f x s' (set_each-IsUniform (keys d) f _ s' (first-IsUniform id d f x u) h).0
add_fields-IsAdded id d f (first ∷ rest) x s' u h =
    let s : ListStorage = record {
      default_data_type = f;
      tests = first ∷ rest;
      text_data_set = x;
    } in
    let (same, cases) = add_test-later id d f first rest x s' h in
    elim cases [
      | inl (n, e) ↦ subst (IsAdded id d s) e (assigned-IsAdded id d f (first ∷ rest) x x)
      | inr (known, k, e, q) ↦ subst (IsAdded id d s) q (record {
        stored = (known, k, e);
        others = λ j n. refl;
        again = add_again id d known f first rest x same k e;
      })
    ]

-- A test that was added without an exception is there with its files, the other tests are as they were,
-- and to add it again changes nothing.
pub add_test-IsAdded :
    (id : Str) (d : TestData) {s s' : ListStorage}
    → Reached s
    → add_test id d s ≡ ok s'
    → IsAdded id d s s'
add_test-IsAdded id d {s} {s'} r h =
    add_fields-IsAdded id d s.default_data_type s.tests s.text_data_set s' (Reached-IsUniform r) h
