-- ===== src/Pm/Distributor.antt =====
-- update_meta and update_sources of bunsan/pm/src/lib/repository/distributor.cpp: files of a package
-- are fetched when the cache has not got them with the checksum that the package names.
use bacs.Base.{
  contains, Str, Bool, true, false, Option, none, some, List, [], ◌∷◌, ◌==◌, list_Eq, nat_Eq,
  pair_Eq, if◌then◌else◌,
}
use bacs.Base.Dict.{lookup, assign}
use bacs.Pm.Entry.{def_delim, Entry, entry_Eq}
use bacs.Pm.Index.{Index, sources}
use bacs.Pm.Snapshot.{SnapshotEntry}
use bacs.Pm.Cache.{
  Cache, SourceFiles, directory, and_then, open_place, no_sources, read_index, read_checksum,
  source_archive,
}

-- The fetcher, which is given the addresses of the files of a package, the checksum of a file, and
-- the reader of index files.
pub record Remote (A : Type 0) : Type 0 where
  pub fetch_checksum : Entry → Option SnapshotEntry
  pub fetch_index : Entry → Option Index
  pub fetch_source : Entry → Str → Option A
  pub checksum : A → Str
  pub index_checksum : Index → Str
  pub index_name : Str

-- `!exists(file) || checksum(file) != checksum`
unfoldable pub file_outdated : {F : Type 0} → (F → Str) → Option F → Str → Bool
file_outdated sum none checksum = true
file_outdated sum (some file) checksum = if sum file == checksum then false else true

-- update_file, which returns the file that stands there in the end.
unfoldable pub update_file : {F : Type 0} → (F → Str) → Option F → Option F → Str → Option F
unfolding file_outdated and_then
update_file sum fetched old checksum =
    if file_outdated sum old checksum
    then and_then fetched
        (λ file. if file_outdated sum (some file) checksum then none else some file)
    else old

module _ {A : Type 0} where
  unfoldable pub write_sources : (SourceFiles A → SourceFiles A) → Cache A → Option (Cache A)
  unfolding and_then open_place
  write_sources change c =
      and_then (open_place no_sources c.source_root)
        (λ files. some (record c { source_root = directory (change files) }))

  -- The file that read_index reads, as it stands on the disk.
  unfoldable pub index_file : Cache A → Entry → Option Index
  unfolding and_then open_place
  index_file c p = and_then (open_place no_sources c.source_root) (λ files. lookup p files.indexes)

module _ {A : Type 0} (remote : Remote A) where
  -- The file that update_file leaves for a source.
  unfoldable pub current_source : Entry → Str → Cache A → Option A
  unfolding and_then read_checksum update_file source_archive
  current_source p source_id c = and_then (read_checksum c p) (λ checksums.
      and_then (lookup source_id checksums) (λ checksum.
        update_file remote.checksum (remote.fetch_source p source_id) (source_archive c p source_id)
          checksum))

  unfoldable pub store_source : Entry → Str → A → Cache A → Option (Cache A)
  unfolding write_sources
  store_source p source_id file =
      write_sources (λ f. record f { archives = assign (p, source_id) file f.archives })

  -- The body of the loop of update_sources; source_path refuses what is no file name.
  unfoldable pub update_source : Entry → Str → Cache A → Option (Cache A)
  unfolding and_then current_source store_source
  update_source p source_id c =
      if contains def_delim source_id
      then none
      else and_then (current_source p source_id c) (λ file. store_source p source_id file c)

  unfoldable pub update_each : Entry → List Str → Cache A → Option (Cache A)
  unfolding and_then update_source
  update_each p [] c = some c
  update_each p (source_id ∷ ids) c =
      and_then (update_source p source_id c) (λ c'. update_each p ids c')

  unfoldable pub update_sources : Entry → Cache A → Option (Cache A)
  unfolding and_then read_index update_each sources
  update_sources p c = and_then (read_index c p) (λ deps. update_each p (sources deps) c)

  unfoldable pub update_meta : Entry → Cache A → Option (Cache A)
  unfolding and_then write_sources read_checksum update_file index_file
  update_meta p c = and_then (remote.fetch_checksum p) (λ fetched.
      and_then (write_sources (λ f. record f { checksums = assign p fetched f.checksums }) c) (λ c'.
        and_then (read_checksum c' p) (λ checksums.
          and_then (lookup remote.index_name checksums) (λ checksum.
            and_then
              (update_file remote.index_checksum (remote.fetch_index p) (index_file c' p) checksum)
              (λ file. write_sources (λ f. record f { indexes = assign p file f.indexes }) c')))))
