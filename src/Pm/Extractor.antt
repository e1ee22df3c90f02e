-- ===== src/Pm/Extractor.antt =====
-- bunsan/pm/src/lib/repository/extractor.cpp: installations of a package in a directory.
pub mod Installed
use bacs.Base.{
  ℕ, Str, Bool, true, false, not, ◌||◌, Option, none, some, List, [], ◌∷◌, ◌==◌, list_Eq, nat_Eq,
  pair_Eq, if◌then◌else◌,
}
use bacs.Base.Dict.{lookup}
use bacs.Base.Int64.{ℤ, add_time, is_before}
use bacs.Pm.Entry.{Entry, entry_Eq}
use bacs.Pm.Snapshot.{Snapshot}
use bacs.Pm.Cache.{Cache, and_then, packages, installation_archive, read_installation_snapshot}

-- What stands at the place of the meta file: whether it is a regular file, the snapshot that can be read
-- from it, and its time.
pub record MetaFile : Type 0 where
  pub is_regular : Bool
  pub snapshot : Option Snapshot
  pub last_write_time : ℕ

-- The archiver, and what an unpacked directory has where the meta file belongs, for the paths of the
-- configuration. Setting the time of a file is taken to succeed, and a file to be copied whole or not.
pub record Unpacker (A : Type 0) : Type 1 where
  pub Dir : Type 0
  pub unpack : A → Option Dir
  pub meta_of : Dir → Option MetaFile

-- What an operation leaves: whether it returned, or raised an exception, and the directory.
pub record Outcome (D : Type 0) : Type 0 where
  pub returned : Bool
  pub destination : D

-- `now > lifetime + last_write_time || last_write_time > lifetime + now`
unfoldable pub out_of_range : ℕ → ℤ → ℕ → Bool
unfolding is_before add_time
out_of_range now lifetime last_write_time =
    is_before (add_time lifetime last_write_time) now
    || is_before (add_time lifetime now) last_write_time

module _ {A : Type 0} (tools : Unpacker A) where
  -- The directory of an installation: what was unpacked, and what stands at the place of the meta file.
  pub record Destination : Type 0 where
    pub data_ : Option tools.Dir
    pub meta : Option MetaFile

  -- `reset_dir(destination)`
  abbrev pub reset : Destination
  reset = record { data_ = none; meta = none }

  -- `copy_file(snp, meta)`, and the time of the new file.
  unfoldable pub copy_snapshot : Cache A → Entry → ℕ → tools.Dir → Outcome Destination
  unfolding packages and_then
  copy_snapshot c package_ now dir =
      elim (and_then (packages c) (λ files. lookup package_ files.installation_snapshots)) [
        | none ↦ record { returned = false; destination = record { data_ = some dir; meta = none } }
        | some snapshot ↦ record {
          returned = true;
          destination = record {
            data_ = some dir;
            meta = some (record { is_regular = true; snapshot = snapshot; last_write_time = now });
          };
        }
      ]

  -- The check of the meta file that was unpacked, and the copy.
  unfoldable pub mark : Cache A → Entry → ℕ → tools.Dir → Option MetaFile → Outcome Destination
  unfolding copy_snapshot
  mark c package_ now dir none = copy_snapshot c package_ now dir
  mark c package_ now dir (some m) = record {
    returned = false;
    destination = record { data_ = some dir; meta = some m };
  }

  unfoldable pub mark_extracted : Cache A → Entry → ℕ → Option tools.Dir → Outcome Destination
  unfolding mark
  mark_extracted c package_ now none = record { returned = false; destination = reset }
  mark_extracted c package_ now (some dir) = mark c package_ now dir (tools.meta_of dir)

  -- extractor::extract into the directory that was reset.
  unfoldable pub extract : Cache A → Entry → Option tools.Dir
  unfolding and_then installation_archive
  extract c package_ = and_then (installation_archive c package_) tools.unpack

  -- `installation_snapshot_path` comes before `reset_dir`.
  unfoldable pub install : Cache A → Entry → ℕ → Destination → Outcome Destination
  unfolding packages extract mark_extracted
  install c package_ now d = elim (packages c) [
    | none ↦ record { returned = false; destination = d }
    | some files ↦ mark_extracted c package_ now (extract c package_)
  ]

  -- The snapshot in the meta file.
  unfoldable pub installed_snapshot : Option MetaFile → Option Snapshot
  installed_snapshot none = none
  installed_snapshot (some m) = if m.is_regular then m.snapshot else none

  unfoldable pub touch : ℕ → Option MetaFile → Option MetaFile
  touch now none = none
  touch now (some m) = some (record m { last_write_time = now })

  unfoldable pub update : Cache A → Entry → ℕ → Destination → Outcome Destination
  unfolding install installed_snapshot touch read_installation_snapshot
  update c package_ now d = elim (installed_snapshot d.meta) [
    | none ↦ install c package_ now d
    | some snapshot ↦ elim (read_installation_snapshot c package_) [
      | none ↦ record { returned = false; destination = d }
      | some current ↦
          if snapshot == current
          then record { returned = true; destination = record d { meta = touch now d.meta } }
          else install c package_ now d
    ]
  ]

  unfoldable pub need_update : ℕ → ℤ → Destination → Bool
  unfolding out_of_range
  need_update now lifetime d = elim d.meta [
    | none ↦ true
    | some m ↦ not m.is_regular || out_of_range now lifetime m.last_write_time
  ]
