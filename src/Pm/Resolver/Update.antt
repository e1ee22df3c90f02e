-- ===== src/Pm/Resolver/Update.antt =====
-- repository::update of bunsan/pm/src/lib/repository.cpp as its callers see it: the order that it
-- finds, the cycles that it reports, and that it ends.
use bacs.Base.{
  some_path, contains-nil, ◌≡◌, ◌≢◌, refl, ℕ, ◌<◌, Bool, true, Option, none, some, List, [], ok,
  err, length, all, contains, arith, subst, all-contains, count_outside-length,
}
use bacs.Base.Dict.{lookup, contains-keys}
use bacs.Pm.Entry.{Entry}
use bacs.Pm.Index.{Index}
use bacs.Pm.Snapshot.{circular_dependencies, out_of_fuel, out_of_range}
use bacs.Pm.Resolver.{Stage, installation, stage_Eq, Backend, Progress, Visit, update}
use bacs.Pm.Resolver.Graph.{dependencies, DependsOn, Reaches}
use bacs.Pm.Resolver.History.{History, at_start, IsWorked, History-Ordered, History-IsWorked}
use bacs.Pm.Resolver.Outcome.{IsStable, Explained, Outcome}
use bacs.Pm.Resolver.Acyclic.{Ordered-acyclic, Ordered-Reaches}
use bacs.Pm.Resolver.Walk.{Returned}
use bacs.Pm.Resolver.Safety.{update_safe}

-- A list of stages that holds whatever its stages depend on.
unfoldable pub has_dependencies : (Entry → Option Index) → List Stage → Stage → Bool
unfolding contains dependencies
has_dependencies index universe s = elim (index s.package_) [
  | none ↦ true
  | some deps ↦ all (λ d. contains d universe) (dependencies s.package_ s.type deps)
]

unfoldable pub is_closed : (Entry → Option Index) → List Stage → Bool
unfolding has_dependencies
is_closed index universe = all (has_dependencies index universe) universe

abbrev pub root : Entry → Stage
root p = record { package_ = p; type = installation }

-- What holds of the value that an option has.
of_some :
    {A : Type 0} (f : A → Bool) (o : Option A) (a : A)
    → o ≡ some a
    → elim o [ none ↦ true | some x ↦ f x ] ≡ true
    → f a ≡ true
of_some f none a e h = cc
of_some f (some x) a e h = subst (λ y. f y ≡ true) (some_path e) h

is_closed-DependsOn :
    (index : Entry → Option Index) (universe : List Stage)
    → is_closed index universe ≡ true
    → (s d : Stage) → contains s universe ≡ true
    → DependsOn index s d
    → contains d universe ≡ true
unfolding is_closed has_dependencies
is_closed-DependsOn index universe h s d i (deps, e, m) =
    let inside : Index → Bool =
      λ x. all (λ c. contains c universe) (dependencies s.package_ s.type x) in
    all-contains (λ c. contains c universe) d (dependencies s.package_ s.type deps)
      (of_some inside (index s.package_) deps e
        (all-contains (has_dependencies index universe) s universe h i))
      m

module _ (b : Backend) (stable : IsStable b) (fuel : ℕ) (p : Entry) (w : b.World)
    (universe : List Stage) (in_universe : contains (root p) universe ≡ true)
    (closed : is_closed (b.read_index w) universe ≡ true) (enough : length universe < fuel) where
  start : Progress b
  start = record { updated = []; inside = []; snapshot_cache = []; world = w }

  start_safe :
      Outcome (b.read_index w) (Returned b (b.read_index w) w (root p) start) (update b fuel p w)
  unfolding update start lookup
  start_safe =
      update_safe b (b.read_index w) stable w universe
        (is_closed-DependsOn (b.read_index w) universe closed) fuel (root p) start
        (omega (arith, count_outside-length universe [])) in_universe
        (λ t m. absurd (contains-nil t m))
        (record { index_same = refl; history = at_start; cached = λ s (u, e). cc })

  -- Whenever a successful update ends, the disk is that of its start after the work on each stage in
  -- turn, once for each and after the work on all that it depends on: a stage that returned true was
  -- made by its operation of the backend and was not outdated after that, one that returned false was not
  -- outdated, was left alone, and no stage that it depends on returned true; sources were fetched in any
  -- case. The requested installation is among the stages with the value that the update returns, and
  -- `in` is empty again. The operations on the disk must change no index, and the fuel must exceed the
  -- number of stages of a set that holds the requested stage and whatever its stages depend on.
  pub update-History :
      (v : Visit b)
      → update b fuel p w ≡ ok v
      → History b (b.read_index w) w v.progress.updated v.progress.snapshot_cache v.progress.world
        × (lookup (root p) v.progress.updated ≡ some v.upd)
        × (v.progress.inside ≡ [])
  unfolding Outcome start
  update-History v h =
      let (keeps, sound, seen) = subst (Outcome (b.read_index w) _) h start_safe in
      (sound.history, seen, keeps.inside_same)

  -- In a successful update every stage that the requested installation depends on, directly or not, was
  -- worked on, on the disk that the work on the stages before it had left and after all that it depends
  -- on: it was made and not outdated after that, or not outdated and left alone, or its sources were
  -- fetched. None of these stages depends on itself. The operations on the disk must change no index, and
  -- the fuel must exceed the number of stages of a set that holds the requested stage and whatever its
  -- stages depend on.
  pub update_complete :
      (v : Visit b)
      → update b fuel p w ≡ ok v
      → (s : Stage) → Reaches (b.read_index w) (root p) s
      → IsWorked b (b.read_index w) w v.progress.updated v.progress.snapshot_cache s
        × ¬ Reaches (b.read_index w) s s
  update_complete v h s r =
      let (history, l, _) = update-History v h in
      let ordered = History-Ordered b history in
      let found =
        Ordered-Reaches (b.read_index w) v.progress.updated (root p) s ordered
          (contains-keys (root p) v.upd v.progress.updated l) r in
      (
        History-IsWorked b history s found,
        Ordered-acyclic (b.read_index w) v.progress.updated s ordered found,
      )

  -- When an update reports circular dependencies for a package, a stage of that package does depend
  -- on itself, if the operations on the disk change no index and the fuel exceeds the number of
  -- stages of a set that holds the requested stage and whatever its stages depend on.
  pub update-circular :
      (q : Entry)
      → update b fuel p w ≡ err (circular_dependencies q)
      → (s : Stage) × (s.package_ ≡ q) × Reaches (b.read_index w) s s
  unfolding Outcome Explained
  update-circular q h = subst (Outcome (b.read_index w) _) h start_safe

  -- The recursion ends, cycles or not: an update does not run out of fuel, and `snapshot_cache.at`
  -- always finds the snapshot of a stage that was updated before, if the operations on the disk
  -- change no index and the fuel exceeds the number of stages of a set that holds the requested
  -- stage and whatever its stages depend on.
  pub update_returns :
      (update b fuel p w ≢ err out_of_fuel) × (update b fuel p w ≢ err out_of_range)
  unfolding Outcome Explained
  update_returns = (
    λ h. subst (Outcome (b.read_index w) _) h start_safe,
    λ h. subst (Outcome (b.read_index w) _) h start_safe,
  )
