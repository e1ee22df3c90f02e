-- ===== src/Tests/Updates.antt =====
-- bunsan/pm/src/lib/repository.cpp: an update of an installation, from an empty cache on.
use bacs.Base.{ℕ, ◌+◌, ◌≡◌, ◌⊎◌, refl, codes, false, none, some, [], ◌∷◌, list_Eq, nat_Eq, pair_Eq}
use bacs.Pm.Entry.{Entry, entry_Eq}
use bacs.Pm.Index.{Index, absolute, empty}
use bacs.Pm.Cache.{Cache, missing, read_index, build_outdated, installation_outdated}
use bacs.Pm.Distributor.{update_meta, update_sources}
use bacs.Pm.Builder.{build_empty, build_installation}
use bacs.Base.Dict.{lookup, assign}
use bacs.Base.Int64.{pos}
use bacs.Pm.Extractor.Installed.{IsFresh}
use bacs.Pm.Extractor as Extractor
use bacs.Pm.Snapshot.{merge_snapshots}
use bacs.Pm.Resolver.{stage_Eq}
use bacs.Pm.Extractor.{Unpacker, Destination, reset, need_update}
use bacs.Pm.Repository.{Setting, update_within}
use bacs.Pm.Repository.Lifetime.{IsUpdated, update_within-IsUpdated}

abbrev app : Entry
app = record { location = codes "app" ∷ [] }

abbrev alone : Index
alone = record {
  source = record { import_source = []; import_package = []; self = [] };
  package_ = record { import_source = []; import_package = []; self = [] };
}

-- One package with nothing in it; archives and directories are numbers.
abbrev setting : Setting ℕ
setting = record {
  remote = record {
    fetch_checksum = λ p. some ((codes "index", codes "0") ∷ []);
    fetch_index = λ p. some alone;
    fetch_source = λ p s. none;
    checksum = λ a. codes "1";
    index_checksum = λ i. codes "0";
    index_name = codes "index";
  };
  tools = record {
    Dir = ℕ;
    empty_dir = 0;
    pack_contents = λ d. some d;
    unpack = λ a. some a;
    place = λ path a b. some (a + b);
    install = λ d. some d;
  };
  unpacker = record { Dir = ℕ; unpack = λ a. some a; meta_of = λ d. none };
  version = codes "2";
  meta_fuel = 2;
  build_fuel = 2;
  stage_fuel = 5;
}

abbrev old_cache : Cache ℕ
old_cache = record { meta = none; source_root = missing; package_root = missing }

update_within-IsUpdated_example :
    ((need_update setting.unpacker 8 (pos 3) (reset setting.unpacker) ≡ false)
      × ((update_within setting app (pos 3) 8 9 old_cache (reset setting.unpacker)).destination
          ≡ reset setting.unpacker))
    ⊎ (IsUpdated setting app 9 old_cache
          (update_within setting app (pos 3) 8 9 old_cache (reset setting.unpacker)).destination
        × IsFresh setting.unpacker 9
            (update_within setting app (pos 3) 8 9 old_cache (reset setting.unpacker)).destination)
unfolding update_within need_update update_meta lookup assign entry_Eq read_index absolute stage_Eq
    empty update_sources merge_snapshots build_outdated build_empty pair_Eq build_installation
    installation_outdated Extractor.update
update_within-IsUpdated_example =
    update_within-IsUpdated setting app (pos 3) 8 9 old_cache (reset setting.unpacker) refl
