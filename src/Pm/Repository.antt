-- ===== src/Pm/Repository.antt =====
-- bunsan/pm/src/lib/repository.cpp: update, extract and install, over the parts of the package manager.
pub mod Lifetime
use bacs.Base.{ℕ, Str, Bool, true, false, Option, none, some, Result, ok, err, ◌>>=◌, if◌then◌else◌}
use bacs.Base.Int64.{ℤ}
use bacs.Pm.Entry.{Entry}
use bacs.Pm.Snapshot.{UpdateError}
use bacs.Pm.Cache.{Cache, verify_and_repair}
use bacs.Pm.Distributor.{Remote}
use bacs.Pm.Builder.{Tools, cache_backend}
use bacs.Pm.MetaTree.{Walk, update_meta_tree}
use bacs.Pm.MetaTree.OnCache.{meta_backend}
use bacs.Pm.Resolver as Resolver
use bacs.Pm.Extractor as Extractor
use bacs.Pm.Extractor.{Unpacker, Outcome, Destination, reset}

-- What the repository is made of: the remote side, the programs, the version in the meta file of the
-- cache, and the bounds of the model on the recursions.
pub record Setting (A : Type 0) : Type 1 where
  pub remote : Remote A
  pub tools : Tools A
  pub unpacker : Unpacker A
  pub version : Str
  pub meta_fuel : ℕ
  pub build_fuel : ℕ
  pub stage_fuel : ℕ

module _ {A : Type 0} (r : Setting A) where
  -- update(package): what the cache is after it.
  unfoldable pub update_package : Entry → Cache A → Result UpdateError (Cache A)
  unfolding verify_and_repair update_meta_tree Resolver.update
  update_package package_ c = do
    w ←
        update_meta_tree (meta_backend r.remote) r.meta_fuel package_
          (verify_and_repair r.version c)
    v ← Resolver.update (cache_backend r.tools r.remote r.build_fuel) r.stage_fuel package_ w.world
    ok v.progress.world

  -- An exception of update leaves the directory alone.
  unfoldable pub when_updated :
      Result UpdateError (Cache A)
      → (Cache A → Outcome (Destination r.unpacker))
      → Destination r.unpacker
      → Outcome (Destination r.unpacker)
  when_updated (err e) next d = record { returned = false; destination = d }
  when_updated (ok c) next d = next c

  -- extractor::extract: what was in the directory is gone in any case.
  unfoldable pub extracted : Option r.unpacker.Dir → Outcome (Destination r.unpacker)
  extracted none = record { returned = false; destination = reset r.unpacker }
  extracted (some dir) = record {
    returned = true;
    destination = record { data_ = some dir; meta = r.unpacker.meta_of dir };
  }

  unfoldable pub extract_package :
      Entry → Cache A → Destination r.unpacker → Outcome (Destination r.unpacker)
  unfolding update_package when_updated extracted
  extract_package package_ c d =
      when_updated (update_package package_ c)
        (λ c'. extracted (Extractor.extract r.unpacker c' package_)) d

  unfoldable pub install_package :
      Entry → ℕ → Cache A → Destination r.unpacker → Outcome (Destination r.unpacker)
  unfolding update_package when_updated
  install_package package_ now c d =
      when_updated (update_package package_ c)
        (λ c'. Extractor.install r.unpacker c' package_ now d) d

  unfoldable pub update_installation :
      Entry → ℕ → Cache A → Destination r.unpacker → Outcome (Destination r.unpacker)
  unfolding update_package when_updated
  update_installation package_ now c d =
      when_updated (update_package package_ c) (λ c'. Extractor.update r.unpacker c' package_ now d)
        d

  -- update with a lifetime: the clock is read for the test, and again for the meta file.
  unfoldable pub update_within :
      Entry → ℤ → ℕ → ℕ → Cache A → Destination r.unpacker → Outcome (Destination r.unpacker)
  unfolding update_installation
  update_within package_ lifetime tested now c d =
      if Extractor.need_update r.unpacker tested lifetime d
      then update_installation package_ now c d
      else record { returned = true; destination = d }
