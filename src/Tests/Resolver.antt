-- ===== src/Tests/Resolver.antt =====
-- bunsan/pm/src/lib/repository.cpp on small repositories of packages.
use bacs.Base.{
  Option, none, some, false, List, [], ◌∷◌, ok, codes, contains, insert, erase, not, nat_Eq,
  list_Eq, ◌≡◌, refl, ◌==◌, arith, if◌then◌else◌, ◌≢◌, err, ◌<◌,
}
use bacs.Pm.Entry.{Entry, entry_Eq, entry_lt}
use bacs.Pm.Index.{Index, PackageStage, empty}
use bacs.Pm.Snapshot.{out_of_fuel, out_of_range, merge_snapshots}
use bacs.Pm.Resolver.{
  Backend, Stage, stage_Eq, installation, build, build_empty, source, update, Visit,
}
use bacs.Pm.Resolver.History.{History, IsWorked}
use bacs.Pm.Resolver.Outcome.{IsStable}
use bacs.Pm.Resolver.Graph.{dependencies, Reaches, direct}
use bacs.Base.Dict.{lookup, assign}
use bacs.Pm.Resolver.Update.{
  root, is_closed, update-History, update_complete, update-circular, update_returns,
}

abbrev app : Entry
app = record { location = codes "app" ∷ [] }

abbrev lib : Entry
lib = record { location = codes "lib" ∷ [] }

abbrev no_stage : PackageStage
no_stage = record { import_source = []; import_package = []; self = [] }

abbrev imports : Entry → PackageStage
imports p = record no_stage { import_package = record { path = []; package_ = p } ∷ [] }

-- `app` is built from sources that need `lib`, and `lib` is imported as it is.
abbrev tree : Entry → Option Index
tree p =
    if p == app
    then some (record { source = imports lib; package_ = imports lib })
    else if p == lib
    then some (record { source = no_stage; package_ = no_stage })
    else none

-- Two packages that need each other.
abbrev knot : Entry → Option Index
knot p =
    if p == app
    then some (record { source = no_stage; package_ = imports lib })
    else if p == lib
    then some (record { source = no_stage; package_ = imports app })
    else none

-- A disk that lists what was built: all else is outdated.
abbrev building : (Entry → Option Index) → Backend
building index = record {
  World = List Entry;
  read_index = λ w. index;
  read_checksum = λ w p. some [];
  installation_outdated = λ w p s. some (not (contains p w));
  build_outdated = λ w p s. some (not (contains p w));
  build_installation = λ p w. some (p ∷ w);
  build = λ p w. some (p ∷ w);
  build_empty = λ p w. some (p ∷ w);
  update_sources = λ p w. some w;
}

building-IsStable : (index : Entry → Option Index) → IsStable (building index)
building-IsStable index = record {
  keeps_installation = λ p w w' h. refl;
  keeps_build = λ p w w' h. refl;
  keeps_build_empty = λ p w w' h. refl;
  keeps_sources = λ p w w' h. refl;
}

abbrev universe : List Stage
universe =
    record { package_ = app; type = installation }
    ∷ record { package_ = app; type = build }
    ∷ record { package_ = app; type = build_empty }
    ∷ record { package_ = app; type = source }
    ∷ record { package_ = lib; type = installation }
    ∷ record { package_ = lib; type = build }
    ∷ record { package_ = lib; type = build_empty }
    ∷ record { package_ = lib; type = source }
    ∷ []

abbrev nothing : Visit (building tree)
nothing = record {
  upd = false;
  current_snapshot = [];
  progress = record { updated = []; inside = []; snapshot_cache = []; world = [] };
}

unfoldable final : Visit (building tree)
unfolding update
final = elim (update (building tree) 9 app []) [ ok v ↦ v | err e ↦ nothing ]

-- `lib` is built before `app`, and installed from its build.
final_world : final.progress.world ≡ app ∷ app ∷ lib ∷ lib ∷ []
unfolding final contains lookup entry_Eq insert stage_Eq empty merge_snapshots erase assign entry_lt
final_world = refl

enough : 8 < 9
enough = omega arith

update-History_example :
    History
      (building tree)
      tree
      []
      final.progress.updated
      final.progress.snapshot_cache
      final.progress.world
    × (lookup (root app) final.progress.updated ≡ some final.upd)
    × (final.progress.inside ≡ [])
unfolding final update is_closed contains lookup entry_Eq insert stage_Eq empty merge_snapshots
    erase assign entry_lt
update-History_example =
    update-History (building tree) (building-IsStable tree) 9 app [] universe refl refl enough final
      refl

app_needs_lib : Reaches tree (root app) (root lib)
unfolding dependencies contains lookup entry_Eq insert stage_Eq empty merge_snapshots erase assign
    entry_lt
app_needs_lib =
    direct {d = root lib} (record { source = imports lib; package_ = imports lib }, refl, refl)

update_complete_example :
    IsWorked (building tree) tree [] final.progress.updated final.progress.snapshot_cache (root lib)
    × ¬ Reaches tree (root lib) (root lib)
unfolding final update is_closed contains lookup entry_Eq insert stage_Eq empty merge_snapshots
    erase assign entry_lt
update_complete_example =
    update_complete (building tree) (building-IsStable tree) 9 app [] universe refl refl enough
      final refl (root lib) app_needs_lib

update-circular_example : (s : Stage) × (s.package_ ≡ app) × Reaches knot s s
unfolding update is_closed contains lookup entry_Eq insert stage_Eq empty merge_snapshots erase
    assign entry_lt
update-circular_example =
    update-circular (building knot) (building-IsStable knot) 9 app [] universe refl refl enough app
      refl

update_returns_example :
    (update (building knot) 9 app [] ≢ err out_of_fuel)
    × (update (building knot) 9 app [] ≢ err out_of_range)
unfolding is_closed contains lookup entry_Eq insert stage_Eq empty merge_snapshots erase assign
    entry_lt
update_returns_example =
    update_returns (building knot) (building-IsStable knot) 9 app [] universe refl refl enough
