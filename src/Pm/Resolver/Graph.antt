-- ===== src/Pm/Resolver/Graph.antt =====
-- What a stage of update_package_depends (bunsan/pm/src/lib/repository.cpp) depends on, read off its
-- index, and the body of the function as a walk over that list.
use bacs.Base.{
  ◌≡◌, refl, sym, ◌∙◌, ap, true, Option, some, List, [], ◌∷◌, ◌++◌, Result, ok, err, ◌>>=◌,
  contains, if◌then◌else◌,
}
use bacs.Pm.Entry.{Entry}
use bacs.Pm.Index.{Index, empty}
use bacs.Pm.Snapshot.{UpdateError}
use bacs.Pm.Resolver.{
  StageType, installation, build, build_empty, source, Stage, stage_Eq, Backend, stages, Visit,
  Visitor, visit_one, visit_all, visit_body, refresh, fetch_sources,
}

-- The stages that the cases of the switch call the function for, in their order.
unfoldable pub dependencies : Entry → StageType → Index → List Stage
unfolding stages
dependencies p installation deps =
    stages installation deps.package_.import_package
    ++ (stages source deps.package_.import_source
        ++ record { package_ = p; type = if empty deps.source then build_empty else build } ∷ [])
dependencies p build deps = record { package_ = p; type = source } ∷ []
dependencies p build_empty deps = record { package_ = p; type = source } ∷ []
dependencies p source deps =
    stages installation deps.source.import_package ++ stages source deps.source.import_source

abbrev pub DependsOn : (Entry → Option Index) → Stage → Stage → Type 0
DependsOn index s d =
    (deps : Index) × (index s.package_ ≡ some deps)
    × (contains d (dependencies s.package_ s.type deps) ≡ true)

-- One or more dependencies lead from the first stage to the second.
pub data Reaches (index : Entry → Option Index) (a : Stage) : Stage → Type 0 where
  direct : {d : Stage} → DependsOn index a d → Reaches index a d
  through : {s d : Stage} → Reaches index a s → DependsOn index s d → Reaches index a d

bind_assoc :
    {A B C : Type 0} (m : Result UpdateError A) (f : A → Result UpdateError B)
    (g : B → Result UpdateError C)
    → ((m >>= f) >>= g) ≡ (m >>= λ a. f a >>= g)
bind_assoc (ok a) f g = refl
bind_assoc (err e) f g = refl

bind_ok : {A : Type 0} (m : Result UpdateError A) → (m >>= ok) ≡ m
bind_ok (ok a) = refl
bind_ok (err e) = refl

bind_ext :
    {A B : Type 0} (m : Result UpdateError A) {f g : A → Result UpdateError B}
    → ((a : A) → f a ≡ g a)
    → (m >>= f) ≡ (m >>= g)
bind_ext (ok a) h = h a
bind_ext (err e) h = refl

module _ (b : Backend) where
  -- The part of a case after the calls for the dependencies.
  unfoldable pub complete : Entry → StageType → Visit b → Result UpdateError (Visit b)
  unfolding refresh fetch_sources
  complete p installation acc = refresh b b.installation_outdated b.build_installation p acc
  complete p build acc = refresh b b.build_outdated b.build p acc
  complete p build_empty acc = refresh b b.build_outdated b.build_empty p acc
  complete p source acc = fetch_sources b p acc

module _ (b : Backend) (visit : Visitor b) where
  visit_all-append :
      (xs ys : List Stage) (acc : Visit b)
      → visit_all b visit (xs ++ ys) acc ≡ (visit_all b visit xs acc >>= visit_all b visit ys)
  unfolding visit_all
  visit_all-append [] ys acc = refl
  visit_all-append (x ∷ xs) ys acc =
      bind_ext (visit_one b visit x acc) (visit_all-append xs ys)
      ∙ sym (bind_assoc (visit_one b visit x acc) (visit_all b visit xs) (visit_all b visit ys))

  visit_all-single :
      (s : Stage) (acc : Visit b) → visit_all b visit (s ∷ []) acc ≡ visit_one b visit s acc
  unfolding visit_all
  visit_all-single s acc = bind_ok (visit_one b visit s acc)

  -- Two walks after one another are one walk.
  join_walks :
      (xs ys : List Stage) (acc : Visit b) (k : Visit b → Result UpdateError (Visit b))
      → (visit_all b visit xs acc >>= λ x. visit_all b visit ys x >>= k)
        ≡ (visit_all b visit (xs ++ ys) acc >>= k)
  join_walks xs ys acc k =
      sym (bind_assoc (visit_all b visit xs acc) (visit_all b visit ys) k)
      ∙ ap (λ m. m >>= k) (sym (visit_all-append xs ys acc))

  as_walk :
      (s : Stage) (acc : Visit b) (k : Visit b → Result UpdateError (Visit b))
      → (visit_one b visit s acc >>= k) ≡ (visit_all b visit (s ∷ []) acc >>= k)
  as_walk s acc k = ap (λ m. m >>= k) (sym (visit_all-single s acc))

  pub visit_body_lem :
      (p : Entry) (t : StageType) (deps : Index) (acc : Visit b)
      → visit_body b visit p t deps acc
        ≡ (visit_all b visit (dependencies p t deps) acc >>= complete b p t)
  unfolding visit_body dependencies complete
  visit_body_lem p installation deps acc =
      let built : Stage = record {
        package_ = p;
        type = if empty deps.source then build_empty else build;
      } in
      let sources : List Stage = stages source deps.package_.import_source in
      let packages : List Stage = stages installation deps.package_.import_package in
      let k = refresh b b.installation_outdated b.build_installation p in
      bind_ext (visit_all b visit packages acc) (λ x.
        bind_ext (visit_all b visit sources x) (λ y. as_walk built y k)
        ∙ join_walks sources (built ∷ []) x k)
      ∙ join_walks packages (sources ++ built ∷ []) acc k
  visit_body_lem p build deps acc =
      as_walk (record { package_ = p; type = source }) acc (refresh b b.build_outdated b.build p)
  visit_body_lem p build_empty deps acc =
      as_walk (record { package_ = p; type = source }) acc
        (refresh b b.build_outdated b.build_empty p)
  visit_body_lem p source deps acc =
      join_walks (stages installation deps.source.import_package)
        (stages source deps.source.import_source) acc (fetch_sources b p)
