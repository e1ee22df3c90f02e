-- ===== src/Tests/Installations.antt =====
-- bunsan/pm/src/lib/repository.cpp and extractor.cpp: packages that need each other, and an installation.
use bacs.Base.{
  ℕ, zero, suc, ◌≡◌, ◌≢◌, refl, subst, some_path, Option, none, some, true, false, List, [], ◌∷◌,
  ok, err, codes, contains, insert, list_Eq, nat_Eq,
}
use bacs.Base.Dict.{lookup}
use bacs.Pm.Entry.{Entry, entry_Eq, entry_lt}
use bacs.Pm.Index.{Index, PackageStage, all, stage_all, insert_packages, insert_entries, set_insert}
use bacs.Pm.Snapshot.{out_of_fuel}
use bacs.Pm.Cache.{
  Cache, directory, no_sources, no_packages, and_then, packages, open_place, installation_archive,
}
use bacs.Pm.Resolver.{or_failed}
use bacs.Pm.MetaTree.{MetaBackend, Walk, visit_each, visit_new, visit_meta, update_meta_tree}
use bacs.Pm.MetaTree.Closed.{KeepsOthers, IsClosed}
use bacs.Pm.Distributor.{Remote, update_meta, index_file}
use bacs.Pm.Entry.{make_absolute}
use bacs.Pm.Index.{absolute}
use bacs.Pm.Cache.{read_index}
use bacs.Base.Dict.{assign}
use bacs.Base.Int64.{pos}
use bacs.Pm.MetaTree.OnCache.{meta_backend, update_meta_tree-IsClosed}
use bacs.Pm.MetaTree.Ends.{NamesOnly, update_meta_tree-ends}
use bacs.Pm.Extractor.{
  Unpacker, MetaFile, reset, update, need_update, install, extract, mark_extracted, mark,
  copy_snapshot, installed_snapshot,
}
use bacs.Pm.Extractor.Installed.{
  IsInstalled, IsFresh, IsFailed, update-IsInstalled, update-IsFailed,
}

abbrev app : Entry
app = record { location = codes "app" ∷ [] }

abbrev lib : Entry
lib = record { location = codes "lib" ∷ [] }

abbrev both : List Entry
both = app ∷ lib ∷ []

abbrev no_stage : PackageStage
no_stage = record { import_source = []; import_package = []; self = [] }

-- The index of every package names both.
abbrev knot : Index
knot = record {
  source = no_stage;
  package_ = record no_stage {
    import_package =
        record { path = []; package_ = app } ∷ record { path = []; package_ = lib } ∷ [];
  };
}

abbrev fetching : MetaBackend
fetching = record {
  World = List Entry;
  update_meta = λ p w. some (p ∷ w);
  read_index = λ w p. some knot;
}

fetching-KeepsOthers : KeepsOthers fetching
fetching-KeepsOthers p q w w' h n = refl

app-both : contains app both ≡ true
unfolding contains entry_Eq list_Eq nat_Eq
app-both = refl

-- Both are visited once, although each names itself and the other.
abbrev walked : Walk fetching
walked = record { visited = lib ∷ app ∷ []; world = lib ∷ app ∷ [] }

walk : update_meta_tree fetching 2 app [] ≡ ok walked
unfolding update_meta_tree visit_meta visit_new visit_each or_failed contains insert entry_Eq
    list_Eq nat_Eq all stage_all insert_packages insert_entries set_insert entry_lt
walk = refl

-- An archive is a number, and so is what is unpacked from it; 9 has a meta file of its own.
abbrev own_file : ℕ → Option MetaFile
own_file zero = none
own_file (suc n) = some (record { is_regular = true; snapshot = none; last_write_time = n })

abbrev unpacker : Unpacker ℕ
unpacker = record { Dir = ℕ; unpack = λ a. some a; meta_of = own_file }

-- The cache with one package and its snapshot.
abbrev cached : ℕ → Cache ℕ
cached archive = record {
  meta = none;
  source_root = directory no_sources;
  package_root = directory (record no_packages {
    installation_archives = (app, archive) ∷ [];
    installation_snapshots = (app, some ((app, []) ∷ [])) ∷ [];
  });
}

update-IsInstalled_example :
    IsInstalled unpacker
      (cached 0)
      app
      7
      (update unpacker (cached 0) app 7 (reset unpacker)).destination
    × IsFresh unpacker 7 (update unpacker (cached 0) app 7 (reset unpacker)).destination
unfolding update install extract mark_extracted mark copy_snapshot installed_snapshot and_then
    packages open_place installation_archive lookup entry_Eq list_Eq nat_Eq
update-IsInstalled_example = update-IsInstalled unpacker (cached 0) app 7 (reset unpacker) refl

update-IsFailed_example :
    IsFailed unpacker
      (reset unpacker)
      (update unpacker (cached 9) app 7 (reset unpacker)).destination
unfolding update install extract mark_extracted mark copy_snapshot installed_snapshot and_then
    packages open_place installation_archive lookup entry_Eq list_Eq nat_Eq
update-IsFailed_example = update-IsFailed unpacker (cached 9) app 7 (reset unpacker) refl

-- After that need_update is false: the file of the package counts.
need_update-failed :
    need_update unpacker 8 (pos 3) (update unpacker (cached 9) app 8 (reset unpacker)).destination
    ≡ false
unfolding update install extract mark_extracted mark copy_snapshot installed_snapshot and_then
    packages open_place installation_archive lookup entry_Eq list_Eq nat_Eq need_update
need_update-failed = refl

-- A remote repository in which every package has the same index.
abbrev same_remote : Remote ℕ
same_remote = record {
  fetch_checksum = λ p. some ((codes "index", []) ∷ []);
  fetch_index = λ p. some knot;
  fetch_source = λ p id. none;
  checksum = λ a. [];
  index_checksum = λ i. [];
  index_name = codes "index";
}

abbrev empty_cache : Cache ℕ
empty_cache = record {
  meta = none;
  source_root = directory no_sources;
  package_root = directory no_packages;
}

abbrev fetched : Entry → Cache ℕ → Cache ℕ
fetched p c = record c {
  source_root = directory (record {
    indexes = (lib, knot) ∷ (app, knot) ∷ [];
    checksums = (lib, (codes "index", []) ∷ []) ∷ (app, (codes "index", []) ∷ []) ∷ [];
    archives = [];
  });
}

fetch :
    update_meta_tree (meta_backend same_remote) 2 app empty_cache
    ≡ ok (record { visited = lib ∷ app ∷ []; world = fetched app empty_cache })
unfolding update_meta_tree update_meta lookup assign entry_Eq read_index absolute entry_lt
    make_absolute
fetch = refl

update_meta_tree-IsClosed_example :
    (contains app (lib ∷ app ∷ []) ≡ true)
    × ((q : Entry)
        → contains q (lib ∷ app ∷ []) ≡ true
        → IsClosed
            (meta_backend same_remote)
            (record { visited = lib ∷ app ∷ []; world = fetched app empty_cache })
            q)
update_meta_tree-IsClosed_example =
    update_meta_tree-IsClosed same_remote 2 app empty_cache
      (record { visited = lib ∷ app ∷ []; world = fetched app empty_cache }) fetch

-- Whatever the index of the package is, both are all that it names.
knot-NamesOnly : (p : Entry) (m : contains p both ≡ true) → NamesOnly same_remote both p (some knot)
unfolding all stage_all insert_packages insert_entries set_insert entry_lt absolute make_absolute
    list_Eq nat_Eq
knot-NamesOnly p m i e d h =
    subst (λ j. contains d (all (absolute j p)) ≡ true → contains d both ≡ true) (some_path e)
      (λ k. k) h

update_meta_tree-ends_example :
    update_meta_tree (meta_backend same_remote) 2 app empty_cache ≢ err out_of_fuel
unfolding index_file lookup
update_meta_tree-ends_example =
    update_meta_tree-ends same_remote both knot-NamesOnly app empty_cache app-both (λ p m i e. cc)
