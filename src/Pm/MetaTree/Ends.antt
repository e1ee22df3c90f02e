-- ===== src/Pm/MetaTree/Ends.antt =====
-- update_meta_tree of bunsan/pm/src/lib/repository.cpp over the cache and the distributor: it ends.
use bacs.Base.{
  ◌≡◌, ◌≢◌, ◌⊎◌, inl, inr, sym, ◌∙◌, ap, Str, true, contains, err, length, Option, none, some,
  some_path, List, Bool-cases, list_Eq, nat_Eq, pair_Eq, arith, subst,
}
use bacs.Base.Dict.{lookup, assign, lookup-assign}
use bacs.Pm.Entry.{Entry, entry_Eq}
use bacs.Pm.Index.{Index, all, absolute}
use bacs.Pm.Snapshot.{out_of_fuel}
use bacs.Pm.Cache.{
  Cache, SourceFiles, directory, and_then, open_place, no_sources, read_index, read_checksum,
}
use bacs.Pm.Distributor.{Remote, write_sources, index_file, file_outdated, update_file, update_meta}
use bacs.Pm.MetaTree.{update_meta_tree}
use bacs.Pm.MetaTree.OnCache.{meta_backend, and_then-eq-some, update_meta-KeepsOthers}
use bacs.Pm.MetaTree.Fuel.{IsUniverse, update_meta_tree_ends}

-- The file that update_file leaves is the fetched one or the old one.
update_file-cases :
    {F : Type 0} (sum : F → Str) (fetched old : Option F) (checksum : Str) (file : F)
    → update_file sum fetched old checksum ≡ some file
    → (fetched ≡ some file) ⊎ (old ≡ some file)
unfolding update_file and_then
update_file-cases sum none old checksum file h = inr (ground arith)
update_file-cases sum (some new) old checksum file h =
    elim (Bool-cases (file_outdated sum old checksum)) [
      | inl o ↦ inl (ground arith)
      | inr o ↦ inr (ground arith)
    ]

module _ {A : Type 0} where
  -- What a change of the files makes of an index file.
  write_sources-index_file :
      (change : SourceFiles A → SourceFiles A) (q : Entry) (c c' : Cache A)
      → write_sources change c ≡ some c'
      → (files : SourceFiles A) × (index_file c q ≡ lookup q files.indexes)
        × (index_file c' q ≡ lookup q (change files).indexes)
  unfolding write_sources index_file and_then open_place
  write_sources-index_file change q c c' h =
      let (files, o, e) =
        and_then-eq-some (open_place no_sources c.source_root)
          (λ files. some (record c { source_root = directory (change files) })) h in
      let file_of = λ (place : Option (SourceFiles A)). and_then place (λ f. lookup q f.indexes) in
      (
        files,
        ap file_of o,
        ap (λ z. file_of (open_place no_sources z.source_root)) (sym (some_path e)),
      )

  index_file-read_index :
      (c : Cache A) (p : Entry) (i : Index)
      → read_index c p ≡ some i
      → (file : Index) × (index_file c p ≡ some file) × (absolute file p ≡ i)
  unfolding read_index index_file and_then
  index_file-read_index c p i h =
      let (files, o, e) = and_then-eq-some (open_place no_sources c.source_root) _ h in
      let (file, l, k) = and_then-eq-some (lookup p files.indexes) _ e in
      (file, ap (λ place. and_then place (λ f. lookup p f.indexes)) o ∙ l, some_path k)

module _ {A : Type 0} (remote : Remote A) (universe : List Entry) where
  -- An index file that names only packages of the list.
  abbrev pub NamesOnly : Entry → Option Index → Type 0
  NamesOnly p file =
      (i : Index)
      → file ≡ some i
      → (d : Entry) → contains d (all (absolute i p)) ≡ true
      → contains d universe ≡ true

  -- So do all index files of the packages of the list in the cache.
  abbrev pub NamesKnown : Cache A → Type 0
  NamesKnown c = (p : Entry) → contains p universe ≡ true → NamesOnly p (index_file c p)

  module _
      (known : (p : Entry) → contains p universe ≡ true → NamesOnly p (remote.fetch_index p)) where
    -- The index of the package is the fetched one or the one that was there; the others are kept.
    updated-NamesKnown :
        (p : Entry) (c c' : Cache A)
        → contains p universe ≡ true
        → NamesKnown c
        → update_meta remote p c ≡ some c'
        → NamesKnown c'
    unfolding update_meta
    updated-NamesKnown p c c' m v h q n =
        let (fetched, a, h1) = and_then-eq-some (remote.fetch_checksum p) _ h in
        let (c1, w, h2) =
          and_then-eq-some
            (write_sources (λ f. record f { checksums = assign p fetched f.checksums }) c) _ h1 in
        let (sums, b, h3) = and_then-eq-some (read_checksum c1 p) _ h2 in
        let (sum, d, h4) = and_then-eq-some (lookup remote.index_name sums) _ h3 in
        let (file, e, h5) =
          and_then-eq-some
            (update_file remote.index_checksum (remote.fetch_index p) (index_file c1 p) sum) _ h4 in
        let (files, s, t) =
          write_sources-index_file (λ f. record f { checksums = assign p fetched f.checksums }) q c
            c1 w in
        let (files', s', t') =
          write_sources-index_file (λ f. record f { indexes = assign p file f.indexes }) q c1 c'
            h5 in
        elim (entry_Eq.dec q p) [
          | no k ↦
              subst (NamesOnly q)
                (s ∙ sym t ∙ s' ∙ sym (t' ∙ ground (arith, lookup-assign q p file files'.indexes)))
                (v q n)
          | yes k ↦
              subst (NamesOnly q) (sym (t' ∙ ground (arith, lookup-assign q p file files'.indexes)))
                (elim (update_file-cases remote.index_checksum (remote.fetch_index p)
                  (index_file c1 p) sum file e) [
                    | inl r ↦
                        subst (λ z. NamesOnly z (some file)) (sym k)
                          (subst (NamesOnly p) r (known p m))
                    | inr r ↦
                        subst (NamesOnly q)
                          (s ∙ sym t ∙ subst (λ z. index_file c1 z ≡ some file) (sym k) r) (v q n)
                  ])
        ]

    known-IsUniverse : IsUniverse (meta_backend remote) universe NamesKnown
    known-IsUniverse = record {
      stays = λ p c c' m v h. updated-NamesKnown p c c' m v h;
      names = λ p d c i m v r h.
          let (file, l, k) = index_file-read_index c p i r in
          v p m file l d (subst (λ j. contains d (all j) ≡ true) (sym k) h);
    }

    -- If the indexes of the packages of a list, those that the fetcher returns and those in the cache,
    -- name only packages of the list, then update_meta_tree over the cache and the distributor ends by
    -- itself from every package of the list, circles or not: fuel for so many packages is enough.
    pub update_meta_tree-ends :
        (p : Entry) (c : Cache A)
        → contains p universe ≡ true
        → NamesKnown c
        → update_meta_tree (meta_backend remote) (length universe) p c ≢ err out_of_fuel
    update_meta_tree-ends =
        update_meta_tree_ends (meta_backend remote) universe NamesKnown
          (update_meta-KeepsOthers remote) known-IsUniverse
