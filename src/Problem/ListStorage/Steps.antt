-- ===== src/Problem/ListStorage/Steps.antt =====
-- list_storage (bacs/problem/src/single/test/list_storage.cpp): what keeps the data ids of all tests the same.
use bacs.Base.{
  none-some, ok_path, Str, ◌≡◌, ◌⊎◌, refl, sym, ◌∙◌, ap, subst, Bool, true, false, some, some_path,
  List, [], ◌∷◌, all-contains, ok, err, >>=-eq-ok, ==_refl, contains, contains-erase, insert-cases,
  and-eq-true, list_Eq, nat_Eq, arith, inl, inr, Bool-cases,
}
use bacs.Base.Dict.{Dict, lookup, assign, keys, lookup-assign}
use bacs.Problem.ListStorage.{
  ListStorage, TestData, TestDataType, text, binary, unknown_data, is_subset, same_keys,
  set_data_type, change_type, set_each,
}

-- All tests have the same data ids, and text is only set for those.
pub record IsUniform (s : ListStorage) : Type 0 where
  pub same_ids :
      (t u : Str) {d e : TestData}
      → lookup t s.tests ≡ some d
      → lookup u s.tests ≡ some e
      → (k : Str) → contains k (keys d) ≡ contains k (keys e)
  pub known_ids :
      (k : Str)
      → contains k s.text_data_set ≡ true
      → (t : Str) × (d : TestData) × (lookup t s.tests ≡ some d) × (contains k (keys d) ≡ true)

is_subset-contains :
    (k : Str) (xs ys : List Str)
    → is_subset xs ys ≡ true
    → contains k xs ≡ true
    → contains k ys ≡ true
unfolding is_subset
is_subset-contains k xs ys h i = all-contains (λ x. contains x ys) k xs h i

Bool-path : (a b : Bool) → (a ≡ true → b ≡ true) → (b ≡ true → a ≡ true) → a ≡ b
Bool-path true b f g = sym (f refl)
Bool-path false true f g = g refl
Bool-path false false f g = refl

pub same_keys-contains :
    (d e : TestData) → same_keys d e ≡ true → (k : Str) → contains k (keys d) ≡ contains k (keys e)
unfolding same_keys
same_keys-contains d e h k =
    let both = and-eq-true (is_subset (keys d) (keys e)) (is_subset (keys e) (keys d)) h in
    Bool-path (contains k (keys d)) (contains k (keys e))
      (is_subset-contains k (keys d) (keys e) both.0)
      (is_subset-contains k (keys e) (keys d) both.1)

pub lookup-begin :
    (first : Str × TestData) (rest : Dict Str TestData)
    → lookup first.0 (first ∷ rest) ≡ some first.1
unfolding lookup
lookup-begin (t, d) rest = ground (arith, ==_refl t)

change_type-cases :
    (j k : Str) (type_ : TestDataType) (set : List Str)
    → contains j (change_type k type_ set) ≡ true
    → (j ≡ k) ⊎ (contains j set ≡ true)
unfolding change_type
change_type-cases j k text set h = insert-cases j k set h
change_type-cases j k binary set h = inr (ground (arith, contains-erase k j set))

set_data_type-known :
    (k : Str) (type_ : TestDataType) (f : TestDataType) (first : Str × TestData)
    (rest : Dict Str TestData) (set : List Str)
    → contains k (keys first.1) ≡ true
    → set_data_type k type_
        (record { default_data_type = f; tests = first ∷ rest; text_data_set = set })
      ≡ ok (record {
        default_data_type = f;
        tests = first ∷ rest;
        text_data_set = change_type k type_ set;
      })
unfolding set_data_type
set_data_type-known k type_ f first rest set h = ground arith

set_data_type-unknown :
    (k : Str) (type_ : TestDataType) (f : TestDataType) (first : Str × TestData)
    (rest : Dict Str TestData) (set : List Str)
    → contains k (keys first.1) ≡ false
    → set_data_type k type_
        (record { default_data_type = f; tests = first ∷ rest; text_data_set = set })
      ≡ err unknown_data
unfolding set_data_type
set_data_type-unknown k type_ f first rest set h = ground arith

set_fields-IsUniform :
    (k : Str) (type_ f : TestDataType) (tests : Dict Str TestData) (x : List Str) (s' : ListStorage)
    → IsUniform (record { default_data_type = f; tests = tests; text_data_set = x })
    → set_data_type k type_ (record { default_data_type = f; tests = tests; text_data_set = x })
      ≡ ok s'
    → (s'.tests ≡ tests) × IsUniform s'
unfolding set_data_type
set_fields-IsUniform k type_ f [] x s' u h = cc
set_fields-IsUniform k type_ f (first ∷ rest) x s' u h =
    elim (Bool-cases (contains k (keys first.1))) [
      | inr n ↦ let e = sym (set_data_type-unknown k type_ f first rest x n) ∙ h in cc
      | inl c ↦
          let p = ok_path (sym (set_data_type-known k type_ f first rest x c) ∙ h) in
          subst (λ z. (z.tests ≡ first ∷ rest) × IsUniform z) p
            (
              refl,
              record {
                same_ids = u.same_ids;
                known_ids = λ j i. elim (change_type-cases j k type_ x i) [
                  | inl q ↦ (
                    first.0,
                    first.1,
                    lookup-begin first rest,
                    subst (λ z. contains z (keys first.1) ≡ true) (sym q) c,
                  )
                  | inr r ↦ u.known_ids j r
                ];
              },
            )
    ]

pub set_data_type-IsUniform :
    (k : Str) (type_ : TestDataType) (s s' : ListStorage)
    → IsUniform s
    → set_data_type k type_ s ≡ ok s'
    → (s'.tests ≡ s.tests) × IsUniform s'
set_data_type-IsUniform k type_ s s' u h =
    set_fields-IsUniform k type_ s.default_data_type s.tests s.text_data_set s' u h

pub set_each-IsUniform :
    (ks : List Str) (type_ : TestDataType) (s s' : ListStorage)
    → IsUniform s
    → set_each ks type_ s ≡ ok s'
    → (s'.tests ≡ s.tests) × IsUniform s'
unfolding set_each
set_each-IsUniform [] type_ s s' u h =
    subst (λ z. (z.tests ≡ s.tests) × IsUniform z) (ok_path h) (refl, u)
set_each-IsUniform (k ∷ ks) type_ s s' u h =
    let (s1, p, q) = >>=-eq-ok (set_data_type k type_ s) (set_each ks type_) h in
    let (t, v) = set_data_type-IsUniform k type_ s s1 u p in
    let (t', w) = set_each-IsUniform ks type_ s1 s' v q in (t' ∙ t, w)

assigned-cases :
    (a id : Str) (b d : TestData) (tests : Dict Str TestData)
    → lookup a (assign id d tests) ≡ some b
    → (d ≡ b) ⊎ (lookup a tests ≡ some b)
assigned-cases a id b d tests h = elim (list_Eq.dec a id) [
  | yes p ↦ inl (some_path (ground (arith, lookup-assign a id d tests)))
  | no n ↦ inr (ground (arith, lookup-assign a id d tests))
]

-- A new test whose data ids are those of the others.
pub assign-IsUniform :
    (id t : Str) (d e : TestData) (f : TestDataType) (tests : Dict Str TestData) (x : List Str)
    → lookup t tests ≡ some e
    → ((k : Str) → contains k (keys d) ≡ contains k (keys e))
    → IsUniform (record { default_data_type = f; tests = tests; text_data_set = x })
    → IsUniform (record { default_data_type = f; tests = assign id d tests; text_data_set = x })
assign-IsUniform id t d e f tests x p same u =
    let ids : (a : Str) (b : TestData)
        → lookup a (assign id d tests) ≡ some b
        → (k : Str) → contains k (keys b) ≡ contains k (keys e) =
      λ a b h k. elim (assigned-cases a id b d tests h) [
        | inl q ↦ subst (λ c. contains k (keys c) ≡ contains k (keys e)) q (same k)
        | inr q ↦ u.same_ids a t q p k
      ] in
    record {
      same_ids = λ a b ha hb k. ids a _ ha k ∙ sym (ids b _ hb k);
      known_ids = λ k i.
          let (a, g, q, c) = u.known_ids k i in
          (
            id,
            d,
            ground (arith, lookup-assign id id d tests),
            same k ∙ sym (u.same_ids a t q p k) ∙ c,
          );
    }

pub first-IsUniform :
    (id : Str) (d : TestData) (f : TestDataType) (x : List Str)
    → IsUniform (record { default_data_type = f; tests = []; text_data_set = x })
    → IsUniform (record { default_data_type = f; tests = assign id d []; text_data_set = x })
unfolding lookup
first-IsUniform id d f x u = record {
  same_ids = λ a b {d = c} {e = e} ha hb k. elim (assigned-cases a id c d [] ha) [
    | inl p ↦ elim (assigned-cases b id e d [] hb) [
      | inl q ↦
          subst (λ z. contains k (keys z) ≡ contains k (keys e)) p (ap (λ z. contains k (keys z)) q)
      | inr q ↦ absurd (none-some q)
    ]
    | inr p ↦ absurd (none-some p)
  ];
  known_ids = λ k i. let (t, e, q, c) = u.known_ids k i in absurd (none-some q);
}
