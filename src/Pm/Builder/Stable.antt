-- ===== src/Pm/Builder/Stable.antt =====
-- The cache, the distributor and the builder (bunsan/pm/src/lib/repository) keep the indexes as they
-- are while update_package_depends runs.
use bacs.Base.{
  list_Eq, pair_Eq, nat_Eq, subst, some_path, ◌≡◌, refl, ◌∙◌, ap, ℕ, Str, Bool, true, false, Option,
  none, some, List, [], ◌∷◌, contains, if◌then◌else◌,
}
use bacs.Base.Dict.{Dict, lookup, assign}
use bacs.Pm.Entry.{Entry, entry_Eq, def_delim}
use bacs.Pm.Index.{Index, sources, absolute}
use bacs.Pm.Cache.{
  Cache, Place, SourceFiles, PackageFiles, missing, not_directory, directory, and_then, open_place,
  packages, no_sources, read_index, write_package, pack_build, pack_installation,
  write_build_snapshot, write_installation_snapshot,
}
use bacs.Pm.Distributor.{
  current_source, store_source, Remote, write_sources, update_source, update_each, update_sources,
}
use bacs.Pm.Builder.{
  build_contents, installation_contents, Tools, build_empty, build, build_installation,
  cache_backend,
}
use bacs.Pm.Resolver.Outcome.{IsStable}

-- What a result satisfies, if there is one.
unfoldable Holds : {A : Type 0} → (A → Type 0) → Option A → Type 0
Holds P none = Unit
Holds P (some a) = P a

Holds-then :
    {A B : Type 0} (Q : B → Type 0) (o : Option A) (f : A → Option B)
    → ((a : A) → Holds Q (f a))
    → Holds Q (and_then o f)
unfolding Holds and_then
Holds-then Q none f h = tt
Holds-then Q (some a) f h = h a

Holds-and_then :
    {A B : Type 0} (P : A → Type 0) (Q : B → Type 0) (o : Option A) (f : A → Option B)
    → Holds P o
    → ((a : A) → P a → Holds Q (f a))
    → Holds Q (and_then o f)
unfolding Holds and_then
Holds-and_then P Q none f h k = tt
Holds-and_then P Q (some a) f h k = k a h

Holds-weaken :
    {A : Type 0} (P Q : A → Type 0) (o : Option A) → Holds P o → ((a : A) → P a → Q a) → Holds Q o
unfolding Holds
Holds-weaken P Q none h k = tt
Holds-weaken P Q (some a) h k = k a h

Holds-some : {A : Type 0} (P : A → Type 0) (o : Option A) (a : A) → Holds P o → o ≡ some a → P a
unfolding Holds
Holds-some P none a h e = cc
Holds-some P (some b) a h e = subst P (some_path e) h

-- What read_index makes of the indexes.
from_indexes : Dict Entry Index → Entry → Option Index
from_indexes d p = and_then (lookup p d) (λ x. some (absolute x p))

Holds-if :
    {B : Type 0} (P : B → Type 0) (b : Bool) (o : Option B)
    → Holds P o
    → Holds P (if b then none else o)
unfolding Holds
Holds-if P true o h = tt
Holds-if P false o h = h

module _ {A : Type 0} where
  abbrev SameIndexes : Cache A → Cache A → Type 0
  SameIndexes c c' = read_index c' ≡ read_index c

  read_index_source : (c c' : Cache A) → c'.source_root ≡ c.source_root → SameIndexes c c'
  unfolding read_index
  read_index_source c c' h i p =
      and_then (open_place no_sources (h i))
        (λ files. and_then (lookup p files.indexes) (λ x. some (absolute x p)))

  write_package-SameIndexes :
      (change : PackageFiles A → PackageFiles A) (c : Cache A)
      → Holds (SameIndexes c) (write_package change c)
  unfolding write_package Holds
  write_package-SameIndexes change c =
      Holds-then (SameIndexes c) (packages c) _ (λ files. read_index_source c _ refl)

  SameIndexes-refl : (c : Cache A) → SameIndexes c c
  SameIndexes-refl c = refl

  -- Two writes below the directory of the packages, one after the other.
  twice-SameIndexes :
      (f g : PackageFiles A → PackageFiles A) (c : Cache A)
      → Holds (SameIndexes c) (and_then (write_package f c) (write_package g))
  twice-SameIndexes f g c =
      Holds-and_then (SameIndexes c) (SameIndexes c) (write_package f c) (write_package g)
        (write_package-SameIndexes f c)
        (λ c' h.
          Holds-weaken (SameIndexes c') (SameIndexes c) (write_package g c')
            (write_package-SameIndexes g c') (λ c'' k. k ∙ h))

  archives_fields :
      (f : SourceFiles A → SourceFiles A)
      → ((s : SourceFiles A) → (f s).indexes ≡ s.indexes)
      → (m : Option Str) (src : Place (SourceFiles A)) (root : Place (PackageFiles A))
      → Holds
          (SameIndexes (record { meta = m; source_root = src; package_root = root }))
          (write_sources f (record { meta = m; source_root = src; package_root = root }))
  unfolding from_indexes write_sources read_index and_then open_place Holds
  archives_fields f h m missing root = ap from_indexes (h no_sources)
  archives_fields f h m not_directory root = tt
  archives_fields f h m (directory s) root = ap from_indexes (h s)

  write_sources-SameIndexes :
      (f : SourceFiles A → SourceFiles A)
      → ((s : SourceFiles A) → (f s).indexes ≡ s.indexes)
      → (c : Cache A) → Holds (SameIndexes c) (write_sources f c)
  write_sources-SameIndexes f h c = archives_fields f h c.meta c.source_root c.package_root

  module _ (remote : Remote A) where
    update_source-SameIndexes :
        (p : Entry) (source_id : Str) (c : Cache A)
        → Holds (SameIndexes c) (update_source remote p source_id c)
    unfolding update_source store_source
    update_source-SameIndexes p source_id c =
        Holds-if (SameIndexes c) (contains def_delim source_id)
          (and_then (current_source remote p source_id c)
            (λ file. store_source remote p source_id file c))
          (Holds-then (SameIndexes c) (current_source remote p source_id c) _ (λ file.
            write_sources-SameIndexes
              (λ f. record f { archives = assign (p, source_id) file f.archives }) (λ s. refl) c))

    update_each-SameIndexes :
        (p : Entry) (ids : List Str) (c : Cache A)
        → Holds (SameIndexes c) (update_each remote p ids c)
    unfolding update_each Holds
    update_each-SameIndexes p [] c = refl
    update_each-SameIndexes p (source_id ∷ ids) c =
        Holds-and_then (SameIndexes c) (SameIndexes c) (update_source remote p source_id c) _
          (update_source-SameIndexes p source_id c)
          (λ c' h.
            Holds-weaken (SameIndexes c') (SameIndexes c) (update_each remote p ids c')
              (update_each-SameIndexes p ids c') (λ c'' k. k ∙ h))

    update_sources-SameIndexes :
        (p : Entry) (c : Cache A) → Holds (SameIndexes c) (update_sources remote p c)
    unfolding update_sources
    update_sources-SameIndexes p c =
        Holds-then (SameIndexes c) (read_index c p) _
          (λ deps. update_each-SameIndexes p (sources deps) c)

  module _ (tools : Tools A) where
    build_empty-SameIndexes :
        (p : Entry) (c : Cache A) → Holds (SameIndexes c) (build_empty tools p c)
    unfolding build_empty pack_build write_build_snapshot
    build_empty-SameIndexes p c = Holds-then (SameIndexes c) _ _ (λ archive.
        Holds-and_then (SameIndexes c) (SameIndexes c) _ _ (write_package-SameIndexes _ c) (λ c' h.
          Holds-then (SameIndexes c) _ _ (λ checksum.
            Holds-weaken (SameIndexes c') (SameIndexes c) _ (write_package-SameIndexes _ c')
              (λ c'' k. k ∙ h))))

    build-SameIndexes :
        (fuel : ℕ) (p : Entry) (c : Cache A) → Holds (SameIndexes c) (build tools fuel p c)
    unfolding build pack_build write_build_snapshot
    build-SameIndexes fuel p c =
        Holds-then (SameIndexes c) (build_contents tools c fuel p) _
          (λ built. twice-SameIndexes _ _ c)

    build_installation-SameIndexes :
        (fuel : ℕ) (p : Entry) (c : Cache A)
        → Holds (SameIndexes c) (build_installation tools fuel p c)
    unfolding build_installation pack_installation write_installation_snapshot
    build_installation-SameIndexes fuel p c =
        Holds-then (SameIndexes c) (installation_contents tools c fuel p) _
          (λ built. twice-SameIndexes _ _ c)

    -- None of the operations that update_package_depends calls on the cache, the distributor and the
    -- builder changes an index of the cache.
    pub cache_backend-IsStable :
        (remote : Remote A) (fuel : ℕ) → IsStable (cache_backend tools remote fuel)
    cache_backend-IsStable remote fuel = record {
      keeps_installation =
          λ p c c' e. Holds-some (SameIndexes c) _ c' (build_installation-SameIndexes fuel p c) e;
      keeps_build = λ p c c' e. Holds-some (SameIndexes c) _ c' (build-SameIndexes fuel p c) e;
      keeps_build_empty =
          λ p c c' e. Holds-some (SameIndexes c) _ c' (build_empty-SameIndexes p c) e;
      keeps_sources =
          λ p c c' e. Holds-some (SameIndexes c) _ c' (update_sources-SameIndexes remote p c) e;
    }
