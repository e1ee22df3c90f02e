-- ===== src/Tests/Caches.antt =====
-- bunsan/pm/src/lib/repository/cache.cpp and its neighbours with directories that are numbers.
use bacs.Base.{ℕ, ◌+◌, ◌≡◌, refl, codes, none, some, [], ◌∷◌, list_Eq, nat_Eq, pair_Eq}
use bacs.Pm.Entry.{Entry, entry_Eq}
use bacs.Pm.Cache.{Cache, missing, directory, no_sources, no_packages, verify_and_repair}
use bacs.Pm.Distributor.{Remote}
use bacs.Pm.Builder.{Tools, cache_backend}
use bacs.Pm.Builder.Stable.{cache_backend-IsStable}
use bacs.Pm.Resolver.Outcome.{IsStable}

abbrev app : Entry
app = record { location = codes "app" ∷ [] }

abbrev numbers : Tools ℕ
numbers = record {
  Dir = ℕ;
  empty_dir = 0;
  pack_contents = λ d. some d;
  unpack = λ a. some a;
  place = λ path a b. some (a + b);
  install = λ d. some d;
}

abbrev mirror : Remote ℕ
mirror = record {
  fetch_checksum = λ p. some [];
  fetch_index = λ p. none;
  fetch_source = λ p s. some 1;
  checksum = λ a. codes "1";
  index_checksum = λ i. codes "0";
  index_name = codes "index";
}

abbrev old_cache : Cache ℕ
old_cache = record { meta = none; source_root = missing; package_root = missing }

abbrev built_cache : Cache ℕ
built_cache = record old_cache {
  package_root = directory (record {
    build_archives = (app, 5) ∷ [];
    build_snapshots = (app, some []) ∷ [];
    installation_archives = [];
    installation_snapshots = [];
  });
}

repaired-old_cache : verify_and_repair (codes "2") old_cache ≡ record {
  meta = some (codes "2");
  source_root = directory no_sources;
  package_root = directory no_packages;
}
unfolding verify_and_repair
repaired-old_cache = refl

cache_backend-IsStable_example : IsStable (cache_backend numbers mirror 4)
cache_backend-IsStable_example = cache_backend-IsStable numbers mirror 4
