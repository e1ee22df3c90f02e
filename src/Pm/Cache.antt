-- ===== src/Pm/Cache.antt =====
-- bunsan/pm/src/lib/repository/cache.cpp: the directory that holds the sources and the built packages.
pub mod Fresh
use bacs.Base.{
  ℕ, Str, Bool, true, false, not, Option, none, some, List, [], ◌∷◌, Eq, ◌==◌, contains, list_Eq,
  nat_Eq, pair_Eq, if◌then◌else◌,
}
use bacs.Base.Dict.{Dict, lookup, assign}
use bacs.Pm.Entry.{Entry, entry_Eq, def_delim}
use bacs.Pm.Index.{Index, absolute}
use bacs.Pm.Snapshot.{Snapshot, SnapshotEntry}

-- A directory of the cache: it may be missing, or be something else than a directory.
pub data Place (F : Type 0) : Type 0 where
  missing not_directory : Place F
  directory : F → Place F

-- The files of the distributor's format; what cannot be read has no value here.
pub record SourceFiles (A : Type 0) : Type 0 where
  pub indexes : Dict Entry Index
  pub checksums : Dict Entry SnapshotEntry
  pub archives : Dict (Entry × Str) A

-- The built packages; `none` is a snapshot file that cannot be read.
pub record PackageFiles (A : Type 0) : Type 0 where
  pub build_archives : Dict Entry A
  pub build_snapshots : Dict Entry (Option Snapshot)
  pub installation_archives : Dict Entry A
  pub installation_snapshots : Dict Entry (Option Snapshot)

-- The cache; `meta` is the version in its meta file, if that can be read.
pub record Cache (A : Type 0) : Type 0 where
  pub meta : Option Str
  pub source_root : Place (SourceFiles A)
  pub package_root : Place (PackageFiles A)

-- An exception skips what follows.
unfoldable pub and_then : {A B : Type 0} → Option A → (A → Option B) → Option B
and_then none f = none
and_then (some a) f = f a

-- `create_directories` of file_path.
unfoldable pub open_place : {F : Type 0} → F → Place F → Option F
open_place nothing missing = some nothing
open_place nothing not_directory = none
open_place nothing (directory files) = some files

-- verify_and_repair_directory
unfoldable pub verify_and_repair_directory : {F : Type 0} → F → Place F → Place F
verify_and_repair_directory nothing missing = directory nothing
verify_and_repair_directory nothing not_directory = directory nothing
verify_and_repair_directory nothing (directory files) = directory files

unfoldable pub is_outdated : Str → Option Str → Bool
is_outdated version none = true
is_outdated version (some m) = not (m == version)

module _ {A : Type 0} where
  abbrev pub no_sources : SourceFiles A
  no_sources = record { indexes = []; checksums = []; archives = [] }

  abbrev pub no_packages : PackageFiles A
  no_packages = record {
    build_archives = [];
    build_snapshots = [];
    installation_archives = [];
    installation_snapshots = [];
  }

  -- clean_: `reset_dir` of both directories.
  unfoldable pub clean_ : Cache A → Cache A
  clean_ c = record c { source_root = directory no_sources; package_root = directory no_packages }

  unfoldable pub save_meta : Str → Cache A → Cache A
  save_meta version c = record c { meta = some version }

  unfoldable pub verify_and_repair : Str → Cache A → Cache A
  unfolding verify_and_repair_directory clean_ save_meta is_outdated
  verify_and_repair version c =
      let c' = if is_outdated version c.meta then save_meta version (clean_ c) else c in
      record c' {
        source_root = verify_and_repair_directory no_sources c'.source_root;
        package_root = verify_and_repair_directory no_packages c'.package_root;
      }

  unfoldable pub clean : Str → Cache A → Cache A
  unfolding verify_and_repair clean_
  clean version c = clean_ (verify_and_repair version c)

  unfoldable pub read_index : Cache A → Entry → Option Index
  unfolding and_then open_place
  read_index c p =
      and_then (open_place no_sources c.source_root)
        (λ files. and_then (lookup p files.indexes) (λ i. some (absolute i p)))

  unfoldable pub read_checksum : Cache A → Entry → Option SnapshotEntry
  unfolding and_then open_place
  read_checksum c p =
      and_then (open_place no_sources c.source_root) (λ files. lookup p files.checksums)

  unfoldable pub packages : Cache A → Option (PackageFiles A)
  unfolding open_place
  packages c = open_place no_packages c.package_root

  unfoldable pub read_build_snapshot : Cache A → Entry → Option Snapshot
  unfolding and_then packages
  read_build_snapshot c p =
      and_then (packages c) (λ files. and_then (lookup p files.build_snapshots) (λ s. s))

  unfoldable pub read_installation_snapshot : Cache A → Entry → Option Snapshot
  unfolding and_then packages
  read_installation_snapshot c p =
      and_then (packages c) (λ files. and_then (lookup p files.installation_snapshots) (λ s. s))

  -- `!exists(snp) || !exists(archive)`, then `snapshot_ != read_snapshot(snp)`.
  unfoldable pub outdated : Option (Option Snapshot) → Option A → Snapshot → Option Bool
  outdated none archive snapshot = some true
  outdated (some s) none snapshot = some true
  outdated (some none) (some archive) snapshot = none
  outdated (some (some s)) (some archive) snapshot = some (not (snapshot == s))

  unfoldable pub build_outdated : Cache A → Entry → Snapshot → Option Bool
  unfolding and_then packages outdated
  build_outdated c p snapshot =
      and_then (packages c) (λ files.
        outdated (lookup p files.build_snapshots) (lookup p files.build_archives) snapshot)

  unfoldable pub installation_outdated : Cache A → Entry → Snapshot → Option Bool
  unfolding and_then packages outdated
  installation_outdated c p snapshot = and_then (packages c) (λ files.
      outdated (lookup p files.installation_snapshots) (lookup p files.installation_archives)
        snapshot)

  -- A file is written below the directory of the packages.
  unfoldable pub write_package : (PackageFiles A → PackageFiles A) → Cache A → Option (Cache A)
  unfolding and_then packages
  write_package change c =
      and_then (packages c) (λ files. some (record c { package_root = directory (change files) }))

  unfoldable pub pack_build : Entry → A → Cache A → Option (Cache A)
  unfolding write_package
  pack_build p archive =
      write_package (λ f. record f { build_archives = assign p archive f.build_archives })

  unfoldable pub pack_installation : Entry → A → Cache A → Option (Cache A)
  unfolding write_package
  pack_installation p archive =
      write_package
        (λ f. record f { installation_archives = assign p archive f.installation_archives })

  unfoldable pub write_build_snapshot : Entry → Snapshot → Cache A → Option (Cache A)
  unfolding write_package
  write_build_snapshot p s =
      write_package (λ f. record f { build_snapshots = assign p (some s) f.build_snapshots })

  unfoldable pub write_installation_snapshot : Entry → Snapshot → Cache A → Option (Cache A)
  unfolding write_package
  write_installation_snapshot p s =
      write_package
        (λ f. record f { installation_snapshots = assign p (some s) f.installation_snapshots })

  -- What unpack_source, unpack_build and unpack_installation hand to the archiver; source_path
  -- refuses the name of a source that is no file name.
  unfoldable pub source_archive : Cache A → Entry → Str → Option A
  unfolding and_then open_place
  source_archive c p source_id =
      if contains def_delim source_id
      then none
      else and_then (open_place no_sources c.source_root)
          (λ files. lookup (p, source_id) files.archives)

  unfoldable pub build_archive : Cache A → Entry → Option A
  unfolding and_then packages
  build_archive c p = and_then (packages c) (λ files. lookup p files.build_archives)

  unfoldable pub installation_archive : Cache A → Entry → Option A
  unfolding and_then packages
  installation_archive c p = and_then (packages c) (λ files. lookup p files.installation_archives)
