-- ===== src/Pm/Builder.antt =====
-- bunsan/pm/src/lib/repository/builder.cpp over the cache: archives of a build and of an installation.
pub mod Stable
use bacs.Base.{
  Str, ℕ, zero, suc, Bool, true, false, Option, none, some, List, [], ◌∷◌, ◌++◌, Result, ok, err,
  ◌==◌, list_Eq, nat_Eq, pair_Eq, if◌then◌else◌,
}
use bacs.Base.Dict.{lookup}
use bacs.Pm.Entry.{Entry, entry_Eq, entry_lt}
use bacs.Pm.Index.{Index, TreeImport, LocalImport}
use bacs.Pm.Snapshot.{Snapshot, SnapshotEntry, map_insert, merge_snapshots}
use bacs.Pm.Cache.{
  Cache, and_then, read_index, read_checksum, read_build_snapshot, read_installation_snapshot,
  build_outdated, installation_outdated, pack_build, pack_installation, write_build_snapshot,
  write_installation_snapshot, source_archive, build_archive, installation_archive,
}
use bacs.Pm.Distributor.{Remote, update_sources}
use bacs.Pm.Resolver.{Backend}

-- The archiver, the builder program, and directories: `place` merges the first directory into the
-- second one below a path. `none` is an exception.
pub record Tools (A : Type 0) : Type 1 where
  pub Dir : Type 0
  pub empty_dir : Dir
  pub pack_contents : Dir → Option A
  pub unpack : A → Option Dir
  pub place : List Str → Dir → Dir → Option Dir
  pub install : Dir → Option Dir

module _ {A : Type 0} (tools : Tools A) where
  -- extract_source, extract_build, extract_installation: unpack and merge_directories.
  unfoldable pub extract_to : List Str → Option A → tools.Dir → Option tools.Dir
  unfolding and_then
  extract_to path archive dir =
      and_then archive (λ a. and_then (tools.unpack a) (λ tmp. tools.place path tmp dir))

  unfoldable pub extract_sources :
      Cache A → Entry → List Str → List LocalImport → tools.Dir → Option tools.Dir
  unfolding and_then extract_to source_archive
  extract_sources c p path [] dir = some dir
  extract_sources c p path (i ∷ imports) dir =
      and_then (extract_to (path ++ i.path ∷ []) (source_archive c p i.source) dir)
        (λ dir'. extract_sources c p path imports dir')

  unfoldable pub or_throw : {E B : Type 0} → Result E B → Option B
  or_throw (ok x) = some x
  or_throw (err e) = none

  abbrev pub Unpacked : Type 0
  Unpacked = tools.Dir × Snapshot

  unfoldable pub extract_packages :
      Cache A → List Str → List TreeImport → Unpacked → Option Unpacked
  unfolding and_then extract_to installation_archive read_installation_snapshot merge_snapshots
      or_throw
  extract_packages c path [] acc = some acc
  extract_packages c path (i ∷ imports) (dir, snapshot) =
      and_then (extract_to (path ++ i.path ∷ []) (installation_archive c i.package_) dir) (λ dir'.
        and_then (read_installation_snapshot c i.package_) (λ s.
          and_then (or_throw (merge_snapshots snapshot s))
            (λ snapshot'. extract_packages c path imports (dir', snapshot'))))

  -- The checksum of the package is put into the snapshot; a different one there is an assertion.
  unfoldable pub dump_checksum : Entry → SnapshotEntry → Snapshot → Option Snapshot
  unfolding map_insert
  dump_checksum p checksum snapshot = elim (lookup p snapshot) [
    | some s ↦ if s == checksum then some snapshot else none
    | none ↦ some (map_insert entry_lt p checksum snapshot)
  ]

  abbrev pub Unpack : Type 0
  Unpack = Entry → List Str → Unpacked → Option Unpacked

  unfoldable pub unpack_imports : Unpack → List Str → List TreeImport → Unpacked → Option Unpacked
  unfolding and_then
  unpack_imports unpack path [] acc = some acc
  unpack_imports unpack path (i ∷ imports) acc =
      and_then (unpack i.package_ (path ++ i.path ∷ []) acc)
        (λ acc'. unpack_imports unpack path imports acc')

  -- unpack_source; the fuel bounds the depth of the imports of sources.
  unfoldable pub unpack_source : Cache A → ℕ → Unpack
  unfolding and_then read_index extract_sources read_checksum dump_checksum unpack_imports
      extract_packages
  unpack_source c zero p path acc = none
  unpack_source c (suc fuel) p path (dir, snapshot) = and_then (read_index c p) (λ deps.
      and_then (extract_sources c p path deps.source.self dir) (λ dir'.
        and_then (read_checksum c p) (λ checksum.
          and_then (dump_checksum p checksum snapshot) (λ snapshot'.
            and_then
              (unpack_imports (unpack_source c fuel) path deps.source.import_source
                (dir', snapshot'))
              (λ acc'. extract_packages c path deps.source.import_package acc')))))

  unfoldable pub build_empty : Entry → Cache A → Option (Cache A)
  unfolding and_then pack_build read_checksum write_build_snapshot
  build_empty p c = and_then (tools.pack_contents tools.empty_dir) (λ archive.
      and_then (pack_build p archive c) (λ c'.
        and_then (read_checksum c' p) (λ checksum. write_build_snapshot p ((p, checksum) ∷ []) c')))

  -- What build packs, and the snapshot of it.
  unfoldable pub build_contents : Cache A → ℕ → Entry → Option (A × Snapshot)
  unfolding and_then unpack_source
  build_contents c fuel p =
      and_then (unpack_source c fuel p [] (tools.empty_dir, [])) (λ (src, snapshot).
        and_then (tools.install src) (λ installation.
          and_then (tools.pack_contents installation) (λ archive. some (archive, snapshot))))

  unfoldable pub build : ℕ → Entry → Cache A → Option (Cache A)
  unfolding and_then build_contents pack_build write_build_snapshot
  build fuel p c =
      and_then (build_contents c fuel p)
        (λ built. and_then (pack_build p built.0 c) (write_build_snapshot p built.1))

  -- What build_installation packs, and the snapshot of it.
  unfoldable pub installation_contents : Cache A → ℕ → Entry → Option (A × Snapshot)
  unfolding and_then extract_to build_archive read_build_snapshot read_index extract_sources
      unpack_imports unpack_source extract_packages
  installation_contents c fuel p =
      and_then (extract_to [] (build_archive c p) tools.empty_dir) (λ dir.
        and_then (read_build_snapshot c p) (λ snapshot. and_then (read_index c p) (λ deps.
          and_then (extract_sources c p [] deps.package_.self dir) (λ dir'.
            and_then
              (unpack_imports (unpack_source c fuel) [] deps.package_.import_source
                (dir', snapshot))
              (λ acc.
                and_then (extract_packages c [] deps.package_.import_package acc)
                  (λ (install_dir, snapshot').
                    and_then (tools.pack_contents install_dir)
                      (λ archive. some (archive, snapshot'))))))))

  unfoldable pub build_installation : ℕ → Entry → Cache A → Option (Cache A)
  unfolding and_then installation_contents pack_installation write_installation_snapshot
  build_installation fuel p c =
      and_then (installation_contents c fuel p)
        (λ built. and_then (pack_installation p built.0 c) (write_installation_snapshot p built.1))

  -- What update_package_depends works on.
  abbrev pub cache_backend : Remote A → ℕ → Backend
  cache_backend remote fuel = record {
    World = Cache A;
    read_index = read_index;
    read_checksum = read_checksum;
    installation_outdated = installation_outdated;
    build_outdated = build_outdated;
    build_installation = build_installation fuel;
    build = build fuel;
    build_empty = build_empty;
    update_sources = update_sources remote;
  }
