-- ===== src/Problem/Simple0/Profile.antt =====
-- bacs/problem/src/single/drivers/simple0/driver.cpp: the groups of the profile that read_profiles makes.
use bacs.Base.{
  Str, ◌≡◌, refl, sym, ◌∙◌, ap, subst, Bool, true, false, not, ◌&&◌, ◌||◌, Option, none, some, List,
  [], ◌∷◌, ◌++◌, map, All, All-map, ok, ok_path, >>=-eq-ok, ==_refl, contains, contains-erase,
  erase, list_Eq, nat_Eq, arith, is_some, codes,
}
use bacs.Base.Dict.{Dict, lookup, keys}
use bacs.Problem.Simple0.{
  TestGroup, Settings, Values, test_continue_condition, read_tests, ContinueCondition,
}
use bacs.Problem.Simple0.Sections.{
  add_dependency, link_groups, erase_all, unused_tests, get_or, default_group, all_groups,
  read_profiles,
}
use bacs.Problem.Simple0.Sorted.{IsSorted, Above, irrefl_absurd}
use bacs.Problem.Simple0.Groups.{declares, mentions, AreGroups}
use bacs.Problem.Simple0.Read.{read_tests-AreGroups}

contains-erase_all :
    (id : Str) (ids set : List Str)
    → contains id (erase_all ids set) ≡ (contains id set && not (contains id ids))
unfolding erase_all contains
contains-erase_all id [] set = ground arith
contains-erase_all id (j ∷ ids) set =
    contains-erase_all id ids (erase j set) ∙ ground (arith, contains-erase j id set)

module _ {Score : Type 0} (values : Values Score) where
  abbrev Groups : Type 0
  Groups = Dict Str (TestGroup Score)

  -- Some group of the map has the test.
  unfoldable pub has_test : Str → Groups → Bool
  has_test id [] = false
  has_test id ((k, g) ∷ groups) = contains id g.tests.query || has_test id groups

  contains-unused_tests :
      (id : Str) (groups : Groups) (set : List Str)
      → contains id (unused_tests values groups set) ≡ (contains id set && not (has_test id groups))
  unfolding unused_tests has_test
  contains-unused_tests id [] set = ground arith
  contains-unused_tests id ((k, g) ∷ groups) set =
      contains-unused_tests id groups (erase_all g.tests.query set)
      ∙ ground (arith, contains-erase_all id g.tests.query set)

  -- The dependencies of a group that comes after a key, or is the first.
  unfoldable depends : Option Str → List Str
  depends none = []
  depends (some id) = id ∷ []

  -- A group that was added has the dependency, and all else as it was.
  add_dependency-dependency :
      (previous : Option Str) (g : TestGroup Score)
      → g.dependency ≡ []
      → (add_dependency values previous g).dependency ≡ depends previous
  unfolding add_dependency depends
  add_dependency-dependency none g e = e
  add_dependency-dependency (some id) g e = rw e refl

  add_dependency-id :
      (previous : Option Str) (g : TestGroup Score)
      → ((add_dependency values previous g).id ≡ g.id)
        × ((add_dependency values previous g).tests ≡ g.tests)
        × ((add_dependency values previous g).process ≡ g.process)
  unfolding add_dependency
  add_dependency-id none g = (refl, refl, refl)
  add_dependency-id (some id) g = (refl, refl, refl)

  -- What every group of the profile depends on, after the group before it.
  abbrev chain : Option Str → List Str → List (List Str)
  chain previous [] = []
  chain previous (k ∷ ks) = depends previous ∷ chain (some k) ks

  abbrev last_key : Option Str → List Str → Option Str
  last_key previous [] = previous
  last_key previous (k ∷ ks) = last_key (some k) ks

  link_groups-chain :
      (settings : Settings) (previous : Option Str) (groups : Groups)
      → All (λ (k, g). g.dependency ≡ []) groups
      → (map (λ g. g.dependency) (link_groups values settings previous groups).0
          ≡ chain previous (keys groups))
        × ((link_groups values settings previous groups).1 ≡ last_key previous (keys groups))
  unfolding link_groups keys
  link_groups-chain settings previous [] a = (refl, refl)
  link_groups-chain settings previous ((k, g) ∷ groups) a =
      let (p, q) = link_groups-chain settings (some k) groups a.1 in
      (
        ground (arith, p, add_dependency-dependency previous (record g { process = settings }) a.0),
        q,
      )

  link_groups-ids :
      (settings : Settings) (previous : Option Str) (groups : Groups)
      → All (λ (k, g). g.id ≡ k) groups
      → map (λ g. g.id) (link_groups values settings previous groups).0 ≡ keys groups
  unfolding link_groups keys
  link_groups-ids settings previous [] a = refl
  link_groups-ids settings previous ((k, g) ∷ groups) a = ground (
    arith,
    link_groups-ids settings (some k) groups a.1,
    (add_dependency-id previous (record g { process = settings })).0,
    a.0,
  )

  chain_end :
      (previous : Option Str) (ks : List Str)
      → chain previous ks ++ depends (last_key previous ks) ∷ []
        ≡ depends previous ∷ map (λ k. k ∷ []) ks
  unfolding depends
  chain_end previous [] = refl
  chain_end previous (k ∷ ks) = ap (λ l. depends previous ∷ l) (chain_end (some k) ks)

  -- A sorted map has its groups under their keys.
  sorted-lookup :
      (groups : Groups) → IsSorted groups → All (λ (k, g). lookup k groups ≡ some g) groups
  unfolding lookup
  sorted-lookup [] s = tt
  sorted-lookup ((j, h) ∷ groups) s =
      (ground (arith, ==_refl j), later groups s.0 (sorted-lookup groups s.1))
    where
      later :
          (rest : Groups)
          → Above j rest
          → All (λ (k, g). lookup k groups ≡ some g) rest
          → All (λ (k, g). lookup k ((j, h) ∷ groups) ≡ some g) rest
      later [] a l = tt
      later ((k, g) ∷ rest) a l = (
        elim (list_Eq.dec k j) [
          | yes p ↦ absurd (irrefl_absurd j k (sym p) a.0)
          | no n ↦ ground (arith, l.0)
        ],
        later rest a.1 l.1,
      )

  -- Of a map in which every group that a key mentions is declared.
  declared-All :
      (d m : Str → Bool) (groups : Groups)
      → AreGroups values d m groups
      → ((id : Str) → m id ≡ true → d id ≡ true)
      → All (λ (k, g). (g.id ≡ k) × (g.dependency ≡ [])) groups
  declared-All d m groups a h =
      All-map (λ (k, g). lookup k groups ≡ some g) (λ (k, g). (g.id ≡ k) × (g.dependency ≡ []))
        groups
        (λ (k, g) e.
          let each = a.each k in
          let used : (d k || m k) ≡ true = sym each.present ∙ ap is_some e in
          (each.named g e ∙ ground (arith, h k), each.free g e))
        (sorted-lookup groups a.sorted)

  pub record IsProfile (test_set : List Str) (groups : Groups) (profile : List (TestGroup Score))
      : Type 0 where
    pub ids : map (λ g. g.id) profile ≡ keys groups ++ [] ∷ []
    pub dependencies : map (λ g. g.dependency) profile ≡ [] ∷ map (λ k. k ∷ []) (keys groups)
    pub unused :
        (named : List (TestGroup Score)) × (last : TestGroup Score) × (profile ≡ named ++ last ∷ [])
        × ((id : Str)
            → contains id last.tests.query ≡ (contains id test_set && not (has_test id groups)))

  map-append :
      {A : Type 0} (f : TestGroup Score → A) (xs ys : List (TestGroup Score))
      → map f (xs ++ ys) ≡ map f xs ++ map f ys
  map-append f [] ys = refl
  map-append f (x ∷ xs) ys = ap (λ l. f x ∷ l) (map-append f xs ys)

  all_groups-IsProfile :
      (test_set : List Str) (section_ : Dict Str Str) (settings : Settings) (groups : Groups)
      (c : ContinueCondition)
      → All (λ (k, g). (g.id ≡ k) × (g.dependency ≡ [])) groups
      → IsProfile test_set groups (all_groups values test_set section_ settings groups c)
  unfolding all_groups depends default_group
  all_groups-IsProfile test_set section_ settings groups c a =
      let linked = link_groups values settings none groups in
      let last = default_group values (unused_tests values groups test_set) section_ settings c in
      let (p, q) =
        link_groups-chain settings none groups
          (All-map _ (λ (k, g). g.dependency ≡ []) groups (λ e h. h.1) a) in
      let ids =
        link_groups-ids settings none groups
          (All-map _ (λ (k, g). g.id ≡ k) groups (λ e h. h.0) a) in
      let (i, t, _) = add_dependency-id linked.1 last in
      record {
        ids =
            map-append (λ g. g.id) linked.0 (add_dependency values linked.1 last ∷ [])
            ∙ (λ n. ids n ++ i n ∷ []);
        dependencies =
            map-append (λ g. g.dependency) linked.0 (add_dependency values linked.1 last ∷ [])
            ∙ (λ n.
                p n
                ++ (add_dependency-dependency linked.1 last refl ∙ ap (λ o. depends o) q) n ∷ [])
            ∙ chain_end none (keys groups);
        unused = (
          linked.0,
          add_dependency values linked.1 last,
          refl,
          λ id. ap (λ s. contains id s.query) t ∙ contains-unused_tests id groups test_set,
        );
      }

  pub read_profiles-IsProfile :
      (data_set test_set : List Str) (section_ : List (Str × Str)) (settings : Settings)
      (groups : Groups) (profile : List (TestGroup Score))
      → read_tests values data_set section_ ≡ ok groups
      → ((id : Str) → mentions id section_ ≡ true → declares id section_ ≡ true)
      → read_profiles values test_set section_ settings groups ≡ ok profile
      → IsProfile test_set groups profile
  unfolding read_profiles
  read_profiles-IsProfile data_set test_set section_ settings groups profile e h r =
      let are = (read_tests-AreGroups values data_set section_ groups e).1 in
      let (c, p, q) =
        >>=-eq-ok
          (test_continue_condition
            (get_or (codes "continue_condition") section_ (codes "WHILE_OK")))
          (λ c. ok (all_groups values test_set section_ settings groups c)) r in
      subst (IsProfile test_set groups) (ok_path q) (
        all_groups-IsProfile test_set section_ settings groups c
          (declared-All (λ id. declares id section_) (λ id. mentions id section_) groups are h))
