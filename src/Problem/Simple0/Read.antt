-- ===== src/Problem/Simple0/Read.antt =====
-- bacs/problem/src/single/drivers/simple0/driver.cpp: the groups after read_tests.
use bacs.Base.{
  Str, ◌≡◌, ◌⊎◌, inl, inr, refl, sym, ◌∙◌, subst, Bool, true, false, ◌||◌, none, some, List, [],
  ◌∷◌, Result, ok, err, ◌>>=◌, ok_path, >>=-eq-ok, ◌==◌, ==_refl, list_Eq, nat_Eq, arith,
  Option-cases, if◌then◌else◌,
}
use bacs.Base.Dict.{Dict, lookup}
use bacs.Problem.Simple0.{
  DriverError, TestGroup, Values, after_prefix, group_prefix, score_prefix,
  continue_condition_prefix, is_blank, check_data_set, new_group, change_group, declare_group,
  init_group, init_groups, empty_group_id, parse_score, set_score, set_continue_condition,
  set_value, set_values, read_tests, test_continue_condition, ContinueCondition,
}
use bacs.Problem.Simple0.Sorted.{changed}
use bacs.Problem.Simple0.Groups.{
  is_key, declares, is_value_key, mentions, IsGroup, IsMild, AreGroups, changed-IsGroup,
  declared-IsGroup, none-IsGroup, change-AreGroups, same-AreGroups,
}

is_key-none : (prefix key j : Str) → after_prefix prefix key ≡ none → is_key prefix j key ≡ false
unfolding is_key
is_key-none prefix key j e = ground (arith)

is_key-some :
    (prefix key id j : Str) → after_prefix prefix key ≡ some id → is_key prefix j key ≡ j == id
unfolding is_key
is_key-some prefix key id j e = ground (arith)

module _ {Score : Type 0} (values : Values Score) where
  unless_blank :
      (b : Bool) (groups groups' : Dict Str (TestGroup Score))
      → ◌≡◌ {A = Result DriverError (Dict Str (TestGroup Score))}
          (if b then err empty_group_id else ok groups)
          (ok groups')
      → groups ≡ groups'
  unless_blank true groups groups' e = cc
  unless_blank false groups groups' e = ok_path {E = DriverError} e

  init_group-cases :
      (key value : Str) (groups groups' : Dict Str (TestGroup Score))
      → init_group values key value groups ≡ ok groups'
      → ((after_prefix group_prefix key ≡ none) × (groups ≡ groups'))
        ⊎ ((id : Str) × (after_prefix group_prefix key ≡ some id)
            × (change_group values id (declare_group values id value) groups ≡ groups'))
  unfolding init_group
  init_group-cases key value groups groups' e =
      elim (Option-cases (after_prefix group_prefix key)) [
        | inl n ↦ inl (n, ok_path {E = DriverError} (ground (arith)))
        | inr (id, p) ↦ inr (id, p, unless_blank (is_blank id) _ groups' (ground (arith)))
      ]

  step_init :
      (key value : Str) (d m : Str → Bool) (groups groups' : Dict Str (TestGroup Score))
      → AreGroups values d m groups
      → init_group values key value groups ≡ ok groups'
      → AreGroups values (λ j. is_key group_prefix j key || d j) m groups'
  step_init key value d m groups groups' a e = elim (init_group-cases key value groups groups' e) [
    | inl (n, p) ↦ subst (AreGroups values (λ j. is_key group_prefix j key || d j) m) p (
        same-AreGroups values d m _ m groups (λ j. ground (arith, is_key-none group_prefix key j n))
          (λ j. refl) a)
    | inr (id, n, p) ↦ subst (AreGroups values (λ j. is_key group_prefix j key || d j) m) p (
        change-AreGroups values d m (λ j. is_key group_prefix j key || d j) m id
          (declare_group values id value) groups a
          (λ j ne. (ground (arith, is_key-some group_prefix key id j n), refl))
          (λ g.
            subst
              (λ z. IsGroup values z (m id) id (
                some
                  (changed (declare_group values id value) (new_group values) (lookup id groups))))
              (sym (ground (arith, is_key-some group_prefix key id id n, ==_refl id)))
              (declared-IsGroup values value id (d id) (m id) (lookup id groups) g)))
  ]

  step_inits :
      (section_ : List (Str × Str)) (d m : Str → Bool) (groups groups' : Dict Str (TestGroup Score))
      → AreGroups values d m groups
      → init_groups values section_ groups ≡ ok groups'
      → AreGroups values (λ j. declares j section_ || d j) m groups'
  unfolding init_groups declares
  step_inits [] d m groups groups' a e =
      subst (AreGroups values (λ j. false || d j) m) (ok_path e) a
  step_inits ((key, value) ∷ section_) d m groups groups' a e =
      let (g1, p, q) =
        >>=-eq-ok (init_group values key value groups) (init_groups values section_) e in
      same-AreGroups values _ m _ m groups' (λ j. ground arith) (λ j. refl)
        (step_inits section_ (λ j. is_key group_prefix j key || d j) m g1 groups'
          (step_init key value d m groups g1 a p) q)

  value_done :
      {A : Type 0} (b : Bool) (r : Result DriverError A) (change : A → Dict Str (TestGroup Score))
      (groups' : Dict Str (TestGroup Score))
      → ◌≡◌ {A = Result DriverError (Dict Str (TestGroup Score))}
          (if b then err empty_group_id else r >>= (λ n. ok (change n)))
          (ok groups')
      → (n : A) × (change n ≡ groups')
  value_done true r change groups' e = cc
  value_done false (err x) change groups' e = cc
  value_done false (ok n) change groups' e = (n, ok_path {E = DriverError} e)

  set_score-IsMild : (n : Score) → IsMild values (set_score values n)
  set_score-IsMild n = record {
    same_id = λ g. refl;
    same_order = λ g. refl;
    same_query = λ g. refl;
    same_dependency = λ g. refl;
  }

  set_continue_condition-IsMild :
      (c : ContinueCondition) → IsMild values (set_continue_condition values c)
  set_continue_condition-IsMild c = record {
    same_id = λ g. refl;
    same_order = λ g. refl;
    same_query = λ g. refl;
    same_dependency = λ g. refl;
  }

  score_key :
      (key id j : Str) → after_prefix score_prefix key ≡ some id → is_value_key j key ≡ j == id
  unfolding is_value_key
  score_key key id j p = ground arith

  other_key :
      (key j : Str)
      → after_prefix score_prefix key ≡ none
      → is_value_key j key ≡ is_key continue_condition_prefix j key
  unfolding is_value_key
  other_key key j p = ground arith

  set_value-cases :
      (key value : Str) (groups groups' : Dict Str (TestGroup Score))
      → set_value values key value groups ≡ ok groups'
      → (((j : Str) → is_value_key j key ≡ false) × (groups ≡ groups'))
        ⊎ ((id : Str) × (f : TestGroup Score → TestGroup Score) × IsMild values f
            × ((j : Str) → is_value_key j key ≡ j == id)
            × (change_group values id f groups ≡ groups'))
  unfolding set_value
  set_value-cases key value groups groups' e = elim (Option-cases (after_prefix score_prefix key)) [
    | inr (id, p) ↦
        let (n, q) =
          value_done (is_blank id) (parse_score values value)
            (λ n. change_group values id (set_score values n) groups) groups' (ground arith) in
        inr (id, set_score values n, set_score-IsMild n, (λ j. score_key key id j p), q)
    | inl n ↦ elim (Option-cases (after_prefix continue_condition_prefix key)) [
      | inl n' ↦ inl (
        (λ j. other_key key j n ∙ is_key-none continue_condition_prefix key j n'),
        ok_path {E = DriverError} (ground arith),
      )
      | inr (id, p) ↦
          let (c, q) =
            value_done (is_blank id) (test_continue_condition value)
              (λ c. change_group values id (set_continue_condition values c) groups) groups'
              (ground arith) in
          inr (
            id,
            set_continue_condition values c,
            set_continue_condition-IsMild c,
            (λ j. other_key key j n ∙ is_key-some continue_condition_prefix key id j p),
            q,
          )
    ]
  ]

  step_value :
      (key value : Str) (d m : Str → Bool) (groups groups' : Dict Str (TestGroup Score))
      → AreGroups values d m groups
      → set_value values key value groups ≡ ok groups'
      → AreGroups values d (λ j. is_value_key j key || m j) groups'
  step_value key value d m groups groups' a e = elim (set_value-cases key value groups groups' e) [
    | inl (n, p) ↦
        subst (AreGroups values d (λ j. is_value_key j key || m j)) p
          (same-AreGroups values d m d _ groups (λ j. refl) (λ j. ground (arith, n j)) a)
    | inr (id, f, mild, n, p) ↦ subst (AreGroups values d (λ j. is_value_key j key || m j)) p (
        change-AreGroups values d m d (λ j. is_value_key j key || m j) id f groups a
          (λ j ne. (refl, ground (arith, n j)))
          (λ g.
            subst
              (λ z.
                IsGroup values (d id) z id (some (changed f (new_group values) (lookup id groups))))
              (sym (ground (arith, n id, ==_refl id)))
              (changed-IsGroup values f (d id) (m id) id (lookup id groups) mild g)))
  ]

  step_values :
      (section_ : List (Str × Str)) (d m : Str → Bool) (groups groups' : Dict Str (TestGroup Score))
      → AreGroups values d m groups
      → set_values values section_ groups ≡ ok groups'
      → AreGroups values d (λ j. mentions j section_ || m j) groups'
  unfolding set_values mentions
  step_values [] d m groups groups' a e =
      subst (AreGroups values d (λ j. false || m j)) (ok_path e) a
  step_values ((key, value) ∷ section_) d m groups groups' a e =
      let (g1, p, q) =
        >>=-eq-ok (set_value values key value groups) (set_values values section_) e in
      same-AreGroups values d _ d _ groups' (λ j. refl) (λ j. ground arith)
        (step_values section_ d (λ j. is_value_key j key || m j) g1 groups'
          (step_value key value d m groups g1 a p) q)

  -- When read_tests has returned, the data set has passed its check; there is a group for each id that a
  -- key of the section names, and no other, and the map is sorted. A group that a key `group_...`
  -- declares has its id and the order that test_order says for its tests; a group that only a key
  -- `score_...` or `continue_condition_...` names has an empty id and no tests. No group has a dependency.
  pub read_tests-AreGroups :
      (data_set : List Str) (section_ : List (Str × Str)) (groups : Dict Str (TestGroup Score))
      → read_tests values data_set section_ ≡ ok groups
      → (check_data_set data_set ≡ ok tt)
        × AreGroups values (λ id. declares id section_) (λ id. mentions id section_) groups
  unfolding read_tests lookup
  read_tests-AreGroups data_set section_ groups e =
      let (g, p, q) = >>=-eq-ok _ (set_values values section_) e in
      let (u, r, s) = >>=-eq-ok (check_data_set data_set) (λ u. init_groups values section_ []) p in
      let nothing : AreGroups values (λ id. false) (λ id. false) [] = record {
        sorted = tt;
        each = λ id. none-IsGroup values id;
      } in
      (
        r,
        same-AreGroups values _ _ _ _ groups (λ j. ground arith) (λ j. ground arith)
            (step_values section_ _ (λ id. false) g groups
              (step_inits section_ (λ id. false) (λ id. false) [] g nothing s) q),
      )
