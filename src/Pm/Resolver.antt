-- ===== src/Pm/Resolver.antt =====
-- repository::update_package_depends of bunsan/pm/src/lib/repository.cpp: packages are brought up to
-- date in the order of their dependencies.
pub mod Graph
pub mod History
pub mod Outcome
pub mod Walk
pub mod Safety
pub mod Acyclic
pub mod Update
use bacs.Base.{
  ℕ, zero, suc, Str, Bool, true, false, ◌||◌, Option, none, some, List, [], ◌∷◌, ◌++◌, map, Result,
  ok, err, ◌>>=◌, Eq, ◌==◌, contains, insert, erase, list_Eq, nat_Eq, pair_Eq, if◌then◌else◌,
}
use bacs.Base.Dict.{Dict, lookup, assign}
use bacs.Pm.Entry.{Entry, entry_Eq, entry_dec, entry_lt}
use bacs.Pm.Index.{Index, TreeImport, empty}
use bacs.Pm.Snapshot.{
  Snapshot, SnapshotEntry, UpdateError, circular_dependencies, assertion, out_of_range, failed,
  out_of_fuel, map_insert, merge_snapshots,
}

-- repository::stage_type
pub data StageType : Type 0 where
  installation build build_empty source : StageType

StageType-discrete : Discrete StageType
StageType-discrete = hlevel

-- repository::stage, a pair
pub record Stage : Type 0 where
  pub package_ : Entry
  pub type : StageType

stage_dec : Discrete Stage
stage_dec a b = elim (entry_dec a.package_ b.package_) [
  | yes p ↦ elim (StageType-discrete a.type b.type) [
    | yes q ↦ yes (λ i. record { package_ = p i; type = q i })
    | no n ↦ no (λ r. n (λ i. (r i).type))
  ]
  | no n ↦ no (λ r. n (λ i. (r i).package_))
]

instance unfoldable pub stage_Eq : Eq Stage
unfolding stage_dec entry_dec StageType-discrete
stage_Eq = record { dec = stage_dec }

-- What the resolver uses of the cache, the distributor and the builder, over the state of the disk;
-- `none` is an exception.
pub record Backend : Type 1 where
  pub World : Type 0
  pub read_index : World → Entry → Option Index
  pub read_checksum : World → Entry → Option SnapshotEntry
  pub installation_outdated : World → Entry → Snapshot → Option Bool
  pub build_outdated : World → Entry → Snapshot → Option Bool
  pub build_installation : Entry → World → Option World
  pub build : Entry → World → Option World
  pub build_empty : Entry → World → Option World
  pub update_sources : Entry → World → Option World

unfoldable pub or_failed : {A : Type 0} → Option A → Result UpdateError A
or_failed none = err failed
or_failed (some a) = ok a

unfoldable pub stages : StageType → List TreeImport → List Stage
stages t [] = []
stages t (i ∷ imports) = record { package_ = i.package_; type = t } ∷ stages t imports

module _ (b : Backend) where
  -- The variables `updated`, `in` and `snapshot_cache` of update, and the disk.
  pub record Progress : Type 0 where
    pub updated : Dict Stage Bool
    pub inside : List Stage
    pub snapshot_cache : Dict Stage Snapshot
    pub world : b.World

  -- What a call returns: its value, `current_snapshot`, and the variables.
  pub record Visit : Type 0 where
    pub upd : Bool
    pub current_snapshot : Snapshot
    pub progress : Progress

  abbrev pub Visitor : Type 0
  Visitor = Stage → Progress → Result UpdateError Visit

  -- One call for a dependency: `upd = upd || ret; merge_maps(current_snapshot, snapshot_)`.
  unfoldable pub visit_one : Visitor → Stage → Visit → Result UpdateError Visit
  visit_one visit s acc = do
    v ← visit s acc.progress
    merged ← merge_snapshots acc.current_snapshot v.current_snapshot
    ok (record { upd = acc.upd || v.upd; current_snapshot = merged; progress = v.progress })

  unfoldable pub visit_all : Visitor → List Stage → Visit → Result UpdateError Visit
  unfolding visit_one
  visit_all visit [] acc = ok acc
  visit_all visit (s ∷ ss) acc = do acc' ← visit_one visit s acc; visit_all visit ss acc'

  -- `upd = upd || outdated; if (upd) { build; BOOST_ASSERT(!outdated); }`
  unfoldable pub check_built :
      (b.World → Entry → Snapshot → Option Bool)
      → Entry
      → Visit
      → b.World
      → Result UpdateError Visit
  unfolding or_failed
  check_built outdated package_ acc w = do
    still ← or_failed (outdated w package_ acc.current_snapshot)
    if still
        then err assertion
        else ok (record acc { upd = true; progress = record acc.progress { world = w } })

  unfoldable pub build_if :
      (b.World → Entry → Snapshot → Option Bool)
      → (Entry → b.World → Option b.World)
      → Entry
      → Visit
      → Bool
      → Result UpdateError Visit
  unfolding or_failed check_built
  build_if outdated make package_ acc false = ok (record acc { upd = false })
  build_if outdated make package_ acc true = do
    w ← or_failed (make package_ acc.progress.world)
    check_built outdated package_ acc w

  unfoldable pub refresh :
      (b.World → Entry → Snapshot → Option Bool)
      → (Entry → b.World → Option b.World)
      → Entry
      → Visit
      → Result UpdateError Visit
  unfolding or_failed build_if
  refresh outdated make package_ acc = do
    upd ←
        if acc.upd
        then ok true
        else or_failed (outdated acc.progress.world package_ acc.current_snapshot)
    build_if outdated make package_ acc upd

  -- case stage_type::source, after the imports.
  unfoldable pub add_checksum : Entry → SnapshotEntry → Visit → Result UpdateError Visit
  unfolding map_insert
  add_checksum package_ checksum acc = elim (lookup package_ acc.current_snapshot) [
    | some c ↦ if c == checksum then ok acc else err assertion
    | none ↦ ok (record acc {
      current_snapshot = map_insert entry_lt package_ checksum acc.current_snapshot;
    })
  ]

  unfoldable pub fetch_sources : Entry → Visit → Result UpdateError Visit
  unfolding or_failed add_checksum
  fetch_sources package_ acc = do
    w ← or_failed (b.update_sources package_ acc.progress.world)
    checksum ← or_failed (b.read_checksum w package_)
    add_checksum package_ checksum (record acc { progress = record acc.progress { world = w } })

  -- The switch over the type of the stage.
  unfoldable pub visit_body : Visitor → Entry → StageType → Index → Visit → Result UpdateError Visit
  unfolding stages visit_all visit_one refresh fetch_sources
  visit_body visit package_ installation deps acc = do
    x ← visit_all visit (stages installation deps.package_.import_package) acc
    y ← visit_all visit (stages source deps.package_.import_source) x
    z ←
        visit_one visit
          (record { package_ = package_; type = if empty deps.source then build_empty else build })
          y
    refresh b.installation_outdated b.build_installation package_ z
  visit_body visit package_ build deps acc = do
    x ← visit_one visit (record { package_ = package_; type = source }) acc
    refresh b.build_outdated b.build package_ x
  visit_body visit package_ build_empty deps acc = do
    x ← visit_one visit (record { package_ = package_; type = source }) acc
    refresh b.build_outdated b.build_empty package_ x
  visit_body visit package_ source deps acc = do
    x ← visit_all visit (stages installation deps.source.import_package) acc
    y ← visit_all visit (stages source deps.source.import_source) x
    fetch_sources package_ y

  -- `in.erase(package); snapshot_cache[package] = current_snapshot; return updated[package] = upd;`
  unfoldable pub leave : Stage → Visit → Visit
  leave s v = record v {
    progress = record v.progress {
      inside = erase s v.progress.inside;
      snapshot_cache = assign s v.current_snapshot v.progress.snapshot_cache;
      updated = assign s v.upd v.progress.updated;
    };
  }

  unfoldable pub enter : Stage → Progress → Visit
  enter s st = record {
    upd = false;
    current_snapshot = [];
    progress = record st { inside = insert s st.inside };
  }

  -- A stage that is not in `updated` yet.
  unfoldable pub visit_new : Visitor → Visitor
  unfolding or_failed enter visit_body leave
  visit_new visit s st = do
    deps ← or_failed (b.read_index st.world s.package_)
    v ← visit_body visit s.package_ s.type deps (enter s st)
    ok (leave s v)

  -- A stage that is in `updated`: `current_snapshot = snapshot_cache.at(package)`.
  unfoldable pub recall : Stage → Progress → Bool → Result UpdateError Visit
  recall s st upd = elim (lookup s st.snapshot_cache) [
    | none ↦ err out_of_range
    | some snapshot ↦ ok (record { upd = upd; current_snapshot = snapshot; progress = st })
  ]

  unfoldable pub update_package_depends : ℕ → Visitor
  unfolding visit_new recall
  update_package_depends zero s st = err out_of_fuel
  update_package_depends (suc fuel) s st = elim (contains s st.inside) [
    | true ↦ err (circular_dependencies s.package_)
    | false ↦ elim (lookup s st.updated) [
      | some upd ↦ recall s st upd
      | none ↦ visit_new (update_package_depends fuel) s st
    ]
  ]

  -- The end of repository::update(package).
  unfoldable pub update : ℕ → Entry → b.World → Result UpdateError Visit
  unfolding update_package_depends
  update fuel package_ w =
      update_package_depends fuel (record { package_ = package_; type = installation })
        (record { updated = []; inside = []; snapshot_cache = []; world = w })
