-- ===== src/Problem/Simple0/Groups.antt =====
-- bacs/problem/src/single/drivers/simple0/driver.cpp: which groups read_tests makes, and what they are.
use bacs.Base.{
  Str, ◌≡◌, ◌≢◌, refl, sym, ◌∙◌, ap, subst, Bool, true, false, ◌||◌, Option, none, some, some_path,
  none-some, List, [], ◌∷◌, ◌==◌, ==_refl, list_Eq, nat_Eq, arith, is_some, if◌then◌else◌,
}
use bacs.Base.Dict.{Dict, lookup}
use bacs.Problem.Simple0.{
  TestGroup, Values, test_order, after_prefix, group_prefix, score_prefix,
  continue_condition_prefix, new_group, change_group, declare_group,
}
use bacs.Problem.Simple0.Sorted.{IsSorted, changed, change_group-IsSorted, lookup-change_group}

-- The key is the prefix and then this id.
unfoldable pub is_key : Str → Str → Str → Bool
unfolding after_prefix
is_key prefix id key = elim (after_prefix prefix key) [ none ↦ false | some rest ↦ id == rest ]

-- The section has a key `group_...` for the group, or a key that sets a value of it.
unfoldable pub declares : Str → List (Str × Str) → Bool
unfolding is_key
declares id [] = false
declares id ((key, value) ∷ section_) = is_key group_prefix id key || declares id section_

unfoldable pub is_value_key : Str → Str → Bool
unfolding is_key after_prefix
is_value_key id key = elim (after_prefix score_prefix key) [
  | none ↦ is_key continue_condition_prefix id key
  | some rest ↦ id == rest
]

unfoldable pub mentions : Str → List (Str × Str) → Bool
unfolding is_value_key
mentions id [] = false
mentions id ((key, value) ∷ section_) = is_value_key id key || mentions id section_

module _ {Score : Type 0} (values : Values Score) where
  -- The group of an id: `declared` says whether a key `group_...` names it, `mentioned` whether another
  -- key does.
  pub record IsGroup (declared mentioned : Bool) (id : Str) (o : Option (TestGroup Score))
      : Type 0 where
    pub present : is_some o ≡ (declared || mentioned)
    pub named : (g : TestGroup Score) → o ≡ some g → g.id ≡ (if declared then id else [])
    pub ordered :
        (g : TestGroup Score)
        → o ≡ some g
        → declared ≡ true
        → g.tests.order ≡ test_order g.tests.query
    pub testless : (g : TestGroup Score) → o ≡ some g → declared ≡ false → g.tests.query ≡ []
    pub free : (g : TestGroup Score) → o ≡ some g → g.dependency ≡ []

  -- A change that keeps what a group is.
  pub record IsMild (f : TestGroup Score → TestGroup Score) : Type 0 where
    pub same_id : (g : TestGroup Score) → (f g).id ≡ g.id
    pub same_order : (g : TestGroup Score) → (f g).tests.order ≡ g.tests.order
    pub same_query : (g : TestGroup Score) → (f g).tests.query ≡ g.tests.query
    pub same_dependency : (g : TestGroup Score) → (f g).dependency ≡ g.dependency

  pub changed-IsGroup :
      (f : TestGroup Score → TestGroup Score) (d m : Bool) (id : Str) (o : Option (TestGroup Score))
      → IsMild f
      → IsGroup d m id o
      → IsGroup d true id (some (changed f (new_group values) o))
  changed-IsGroup f d m id none mild g = record {
    present = ground (arith, g.present);
    named = λ h e.
        subst (λ z. z.id ≡ (if d then id else [])) (some_path e)
          (ground (arith, mild.same_id (new_group values), g.present));
    ordered = λ h e p. absurd (ground (arith, g.present));
    testless =
        λ h e p. subst (λ z. z.tests.query ≡ []) (some_path e) (mild.same_query (new_group values));
    free = λ h e.
        subst (λ z. z.dependency ≡ []) (some_path e) (mild.same_dependency (new_group values));
  }
  changed-IsGroup f d m id (some h) mild g = record {
    present = ground arith;
    named = λ l e.
        subst (λ z. z.id ≡ (if d then id else [])) (some_path e) (mild.same_id h ∙ g.named h refl);
    ordered = λ l e p.
        subst (λ z. z.tests.order ≡ test_order z.tests.query) (some_path e)
          (mild.same_order h ∙ g.ordered h refl p ∙ ap test_order (sym (mild.same_query h)));
    testless = λ l e p.
        subst (λ z. z.tests.query ≡ []) (some_path e) (mild.same_query h ∙ g.testless h refl p);
    free = λ l e.
        subst (λ z. z.dependency ≡ []) (some_path e) (mild.same_dependency h ∙ g.free h refl);
  }

  pub declared-IsGroup :
      (value id : Str) (d m : Bool) (o : Option (TestGroup Score))
      → IsGroup d m id o
      → IsGroup true m id (some (changed (declare_group values id value) (new_group values) o))
  unfolding declare_group
  declared-IsGroup value id d m o g = record {
    present = refl;
    named = λ h e. subst (λ z. z.id ≡ id) (some_path e) (declared_id o);
    ordered = λ h e p.
        subst (λ z. z.tests.order ≡ test_order z.tests.query) (some_path e) (declared_order o);
    testless = λ h e p. absurd (cc);
    free = λ h e. subst (λ z. z.dependency ≡ []) (some_path e) (declared_free o g);
  }
    where
      declared_id :
          (o : Option (TestGroup Score))
          → (changed (declare_group values id value) (new_group values) o).id ≡ id
      declared_id none = refl
      declared_id (some h) = refl

      declared_order :
          (o : Option (TestGroup Score))
          → (changed (declare_group values id value) (new_group values) o).tests.order
            ≡ test_order (changed (declare_group values id value) (new_group values) o).tests.query
      declared_order none = refl
      declared_order (some h) = refl

      declared_free :
          (o : Option (TestGroup Score))
          → IsGroup d m id o
          → (changed (declare_group values id value) (new_group values) o).dependency ≡ []
      declared_free none g = refl
      declared_free (some h) g = g.free h refl

  -- The groups of a map that is sorted.
  pub record AreGroups (declared mentioned : Str → Bool) (groups : Dict Str (TestGroup Score))
      : Type 0 where
    pub sorted : IsSorted groups
    pub each : (id : Str) → IsGroup (declared id) (mentioned id) id (lookup id groups)

  pub none-IsGroup : (id : Str) → IsGroup false false id none
  none-IsGroup id = record {
    present = refl;
    named = λ h e. absurd (none-some e);
    ordered = λ h e p. absurd (none-some e);
    testless = λ h e p. absurd (none-some e);
    free = λ h e. absurd (none-some e);
  }

  -- One group is changed.
  pub change-AreGroups :
      (d m d' m' : Str → Bool) (id : Str) (f : TestGroup Score → TestGroup Score)
      (groups : Dict Str (TestGroup Score))
      → AreGroups d m groups
      → ((j : Str) → j ≢ id → (d' j ≡ d j) × (m' j ≡ m j))
      → (IsGroup (d id) (m id) id (lookup id groups)
          → IsGroup (d' id) (m' id) id (some (changed f (new_group values) (lookup id groups))))
      → AreGroups d' m' (change_group values id f groups)
  change-AreGroups d m d' m' id f groups a same step = record {
    sorted = change_group-IsSorted values id f groups a.sorted;
    each = λ j. elim (list_Eq.dec j id) [
      | yes p ↦
          subst (λ z. IsGroup (d' z) (m' z) z (lookup z (change_group values id f groups))) (sym p)
            (subst (λ o. IsGroup (d' id) (m' id) id o)
              (sym
                (lookup-change_group values id id f groups a.sorted ∙ ground (arith, ==_refl id)))
              (step (a.each id)))
      | no n ↦
          subst (λ o. IsGroup (d' j) (m' j) j o)
            (sym (lookup-change_group values j id f groups a.sorted ∙ ground arith))
            (subst (λ z. IsGroup z (m' j) j (lookup j groups)) (sym (same j n).0)
              (subst (λ z. IsGroup (d j) z j (lookup j groups)) (sym (same j n).1) (a.each j)))
    ];
  }

  pub same-AreGroups :
      (d m d' m' : Str → Bool) (groups : Dict Str (TestGroup Score))
      → ((j : Str) → d j ≡ d' j)
      → ((j : Str) → m j ≡ m' j)
      → AreGroups d m groups
      → AreGroups d' m' groups
  same-AreGroups d m d' m' groups p q a =
      subst (λ z. AreGroups z m' groups) (λ i j. p j i)
        (subst (λ z. AreGroups d z groups) (λ i j. q j i) a)
