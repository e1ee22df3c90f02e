-- ===== src/Pm/Cache/Fresh.antt =====
-- The freshness tests of bunsan/pm/src/lib/repository/cache.cpp.
use bacs.Base.{
  ap, sym, ◌∙◌, some_path, ◌≡◌, refl, Str, Bool, true, false, not, Option, some, ◌==◌, list_Eq,
  nat_Eq, pair_Eq, if◌then◌else◌,
}
use bacs.Base.Dict.{lookup, assign, lookup-assign}
use bacs.Pm.Entry.{Entry, entry_Eq}
use bacs.Pm.Snapshot.{Snapshot}
use bacs.Pm.Cache.{
  Cache, Place, SourceFiles, no_packages, PackageFiles, missing, not_directory, directory, and_then,
  open_place, packages, outdated, build_outdated, pack_build, write_build_snapshot, write_package,
}

module _ {A : Type 0} where
  outdated-if :
      (b : Bool) (s t : Snapshot) (archive : A) (x : Option (Option Snapshot)) (y : Option A)
      → outdated (if b then some (some s) else x) (if b then some archive else y) t
        ≡ (if b then some (not (t == s)) else outdated x y t)
  unfolding outdated
  outdated-if true s t archive x y = refl
  outdated-if false s t archive x y = refl

  build_files :
      (p q : Entry) (archive : A) (s t : Snapshot) (f : PackageFiles A)
      → outdated
          (lookup q (assign p (some s) f.build_snapshots))
          (lookup q (assign p archive f.build_archives))
          t
        ≡ (if q == p
            then some (not (t == s))
            else outdated (lookup q f.build_snapshots) (lookup q f.build_archives) t)
  build_files p q archive s t f =
      rw (lookup-assign q p (some s) f.build_snapshots, lookup-assign q p archive f.build_archives)
        (outdated-if (q == p) s t archive (lookup q f.build_snapshots) (lookup q f.build_archives))

  stored_fields :
      (p q : Entry) (archive : A) (s t : Snapshot) (m : Option Str) (src : Place (SourceFiles A))
      (root : Place (PackageFiles A)) {stored : Cache A}
      → and_then
          (pack_build p archive (record { meta = m; source_root = src; package_root = root }))
          (write_build_snapshot p s)
        ≡ some stored
      → build_outdated stored q t ≡ (
          if q == p
          then some (not (t == s))
          else build_outdated (record { meta = m; source_root = src; package_root = root }) q t)
  unfolding and_then pack_build write_build_snapshot write_package packages open_place
      build_outdated
  stored_fields p q archive s t m src missing h =
      ap (λ x. build_outdated x q t) (sym (some_path h)) ∙ build_files p q archive s t no_packages
  stored_fields p q archive s t m src not_directory h = cc
  stored_fields p q archive s t m src (directory f) h =
      ap (λ x. build_outdated x q t) (sym (some_path h)) ∙ build_files p q archive s t f

  -- After a build and its snapshot were stored, the build of the package is outdated for exactly the
  -- other snapshots; the builds of the other packages are as fresh as they were.
  pub build_outdated_stored :
      (p q : Entry) (archive : A) (s t : Snapshot) (c : Cache A) {stored : Cache A}
      → and_then (pack_build p archive c) (write_build_snapshot p s) ≡ some stored
      → build_outdated stored q t ≡ (if q == p then some (not (t == s)) else build_outdated c q t)
  build_outdated_stored p q archive s t c h =
      stored_fields p q archive s t c.meta c.source_root c.package_root h
