-- ===== src/Pm/MetaTree/OnCache.antt =====
-- update_meta_tree of bunsan/pm/src/lib/repository.cpp over the cache and the distributor.
use bacs.Base.{
  ℕ, true, contains, ok, ◌≡◌, refl, sym, ◌∙◌, ap, Option, none, some, some_path, list_Eq, nat_Eq,
  pair_Eq, arith,
}
use bacs.Base.Dict.{lookup, assign, lookup-assign}
use bacs.Pm.Entry.{Entry, entry_Eq}
use bacs.Pm.Index.{absolute}
use bacs.Pm.Cache.{
  Cache, SourceFiles, directory, and_then, open_place, no_sources, read_index, read_checksum,
}
use bacs.Pm.Distributor.{Remote, write_sources, index_file, update_file, update_meta}
use bacs.Pm.MetaTree.{MetaBackend, Walk, update_meta_tree}
use bacs.Pm.MetaTree.Closed.{KeepsOthers, IsClosed, walk-IsClosed}

pub and_then-eq-some :
    {A B : Type 0} (o : Option A) (f : A → Option B) {result : B}
    → and_then o f ≡ some result
    → (a : A) × (o ≡ some a) × (f a ≡ some result)
unfolding and_then
and_then-eq-some none f h = cc
and_then-eq-some (some a) f h = (a, refl, h)

module _ {A : Type 0} where
  -- A change of the files that leaves the index file of a package alone.
  write_sources-read_index :
      (change : SourceFiles A → SourceFiles A) (q : Entry) (c c' : Cache A)
      → ((files : SourceFiles A) → lookup q (change files).indexes ≡ lookup q files.indexes)
      → write_sources change c ≡ some c'
      → read_index c' q ≡ read_index c q
  unfolding write_sources read_index and_then open_place
  write_sources-read_index change q c c' same h =
      let (files, o, e) =
        and_then-eq-some (open_place no_sources c.source_root)
          (λ files. some (record c { source_root = directory (change files) })) h in
      let index_of = λ (place : Option (SourceFiles A)).
        and_then place (λ f. and_then (lookup q f.indexes) (λ i. some (absolute i q))) in
      ap (λ z. index_of (open_place no_sources z.source_root)) (sym (some_path e))
      ∙ ap (λ l. and_then l (λ i. some (absolute i q))) (same files)
      ∙ ap index_of (sym o)

module _ {A : Type 0} (remote : Remote A) where
  abbrev pub meta_backend : MetaBackend
  meta_backend = record {
    World = Cache A;
    update_meta = update_meta remote;
    read_index = read_index;
  }

  -- The distributor's update_meta of one package changes what read_index returns for no other package.
  pub update_meta-KeepsOthers : KeepsOthers meta_backend
  unfolding update_meta
  update_meta-KeepsOthers p q c c' h n =
      let (fetched, a, h1) = and_then-eq-some (remote.fetch_checksum p) _ h in
      let (c1, w, h2) =
        and_then-eq-some
          (write_sources (λ f. record f { checksums = assign p fetched f.checksums }) c) _ h1 in
      let (sums, b, h3) = and_then-eq-some (read_checksum c1 p) _ h2 in
      let (sum, d, h4) = and_then-eq-some (lookup remote.index_name sums) _ h3 in
      let (file, e, h5) =
        and_then-eq-some
          (update_file remote.index_checksum (remote.fetch_index p) (index_file c1 p) sum) _ h4 in
      write_sources-read_index (λ f. record f { indexes = assign p file f.indexes }) q c1 c'
        (λ f. ground (arith, lookup-assign q p file f.indexes)) h5
      ∙ write_sources-read_index (λ f. record f { checksums = assign p fetched f.checksums }) q c c1
          (λ f. refl) w

  -- When update_meta_tree returns over the cache and the distributor, it has visited the package; and
  -- of every package that it has visited the index can be read from the cache, and all packages that
  -- this index names were visited, too. Packages that depend on each other in a circle are no exception.
  pub update_meta_tree-IsClosed :
      (fuel : ℕ) (p : Entry) (c : Cache A) (w : Walk meta_backend)
      → update_meta_tree meta_backend fuel p c ≡ ok w
      → (contains p w.visited ≡ true)
        × ((q : Entry) → contains q w.visited ≡ true → IsClosed meta_backend w q)
  update_meta_tree-IsClosed = walk-IsClosed meta_backend update_meta-KeepsOthers
