-- ===== src/Pm/Extractor/Installed.antt =====
-- extractor (bunsan/pm/src/lib/repository/extractor.cpp): what update leaves, whether it returns or not.
use bacs.Base.{
  ℕ, ◌+◌, ◌<◌, ◌≡◌, ◌⊎◌, inl, inr, refl, sym, ◌∙◌, ap, subst, true, false, Option, none, some, ◌==◌,
  ==_eq, list_Eq, nat_Eq, pair_Eq, arith, Option-cases, Bool-cases,
}
use bacs.Base.Dict.{lookup}
use bacs.Base.Int64.{pos, negsuc, bound, is_before-add_time, is_before-add_time_negsuc}
use bacs.Pm.Entry.{Entry, entry_Eq}
use bacs.Pm.Snapshot.{Snapshot}
use bacs.Pm.Cache.{Cache, and_then, packages, read_installation_snapshot}
use bacs.Pm.Extractor.{
  Unpacker, MetaFile, Outcome, Destination, reset, copy_snapshot, mark, mark_extracted, extract,
  install, installed_snapshot, touch, update, need_update, out_of_range,
}

module _ {A : Type 0} (tools : Unpacker A) where
  -- The installation of a package, made at a time.
  pub record IsInstalled (c : Cache A) (p : Entry) (now : ℕ) (d : Destination tools) : Type 0 where
    pub meta : MetaFile
    pub has_meta : d.meta ≡ some meta
    pub regular : meta.is_regular ≡ true
    pub is_new : meta.last_write_time ≡ now
    pub is_current : meta.snapshot ≡ read_installation_snapshot c p

  -- What a failed operation leaves.
  pub data IsFailed (d : Destination tools) : Destination tools → Type 0 where
    unchanged : IsFailed d d
    no_meta : {d' : Destination tools} → d'.meta ≡ none → IsFailed d d'
    own_meta :
        {d' : Destination tools}
        → (dir : tools.Dir) → d'.data_ ≡ some dir
        → d'.meta ≡ tools.meta_of dir
        → IsFailed d d'

  unfoldable Explains :
      Cache A → Entry → ℕ → Destination tools → Outcome (Destination tools) → Type 0
  Explains c p now d o =
      (o.returned ≡ true → IsInstalled c p now o.destination)
      × (o.returned ≡ false → IsFailed d o.destination)

  unfoldable marked : Option Snapshot → ℕ → tools.Dir → Outcome (Destination tools)
  marked snapshot now dir = record {
    returned = true;
    destination = record {
      data_ = some dir;
      meta = some (record { is_regular = true; snapshot = snapshot; last_write_time = now });
    };
  }

  copy_snapshot-cases :
      (c : Cache A) (p : Entry) (now : ℕ) (dir : tools.Dir)
      → (copy_snapshot tools c p now dir
          ≡ record { returned = false; destination = record { data_ = some dir; meta = none } })
        ⊎ (copy_snapshot tools c p now dir ≡ marked (read_installation_snapshot c p) now dir)
  unfolding copy_snapshot read_installation_snapshot and_then marked
  copy_snapshot-cases c p now dir = elim (Option-cases (packages c)) [
    | inl n ↦ inl (ground arith)
    | inr (files, e) ↦ elim (Option-cases (lookup p files.installation_snapshots)) [
      | inl n ↦ inl (ground arith)
      | inr (snapshot, k) ↦ inr (ground arith)
    ]
  ]

  marked-Explains :
      (c : Cache A) (p : Entry) (now : ℕ) (d : Destination tools) (dir : tools.Dir)
      → Explains c p now d (marked (read_installation_snapshot c p) now dir)
  unfolding Explains marked
  marked-Explains c p now d dir = (
    λ r. record {
      meta = record {
        is_regular = true;
        snapshot = read_installation_snapshot c p;
        last_write_time = now;
      };
      has_meta = refl;
      regular = refl;
      is_new = refl;
      is_current = refl;
    },
    λ f. cc,
  )

  failed-Explains :
      (c : Cache A) (p : Entry) (now : ℕ) (d d' : Destination tools)
      → IsFailed d d'
      → Explains c p now d (record { returned = false; destination = d' })
  unfolding Explains
  failed-Explains c p now d d' h = (λ r. cc, λ f. h)

  copy_snapshot-Explains :
      (c : Cache A) (p : Entry) (now : ℕ) (d : Destination tools) (dir : tools.Dir)
      → Explains c p now d (copy_snapshot tools c p now dir)
  copy_snapshot-Explains c p now d dir = elim (copy_snapshot-cases c p now dir) [
    | inl e ↦
        subst (Explains c p now d) (sym e)
          (failed-Explains c p now d (record { data_ = some dir; meta = none }) (no_meta refl))
    | inr e ↦ subst (Explains c p now d) (sym e) (marked-Explains c p now d dir)
  ]

  mark_extracted-Explains :
      (c : Cache A) (p : Entry) (now : ℕ) (d : Destination tools) (dir : Option tools.Dir)
      → Explains c p now d (mark_extracted tools c p now dir)
  unfolding mark_extracted mark
  mark_extracted-Explains c p now d none = failed-Explains c p now d (reset tools) (no_meta refl)
  mark_extracted-Explains c p now d (some dir) = elim (Option-cases (tools.meta_of dir)) [
    | inl n ↦
        subst (λ m. Explains c p now d (mark tools c p now dir m)) (sym n)
          (copy_snapshot-Explains c p now d dir)
    | inr (m, e) ↦
        subst (λ o. Explains c p now d (mark tools c p now dir o)) (sym e)
          (failed-Explains c p now d (record { data_ = some dir; meta = some m })
            (own_meta dir refl (sym e)))
  ]

  install-Explains :
      (c : Cache A) (p : Entry) (now : ℕ) (d : Destination tools)
      → Explains c p now d (install tools c p now d)
  unfolding install
  install-Explains c p now d = elim (Option-cases (packages c)) [
    | inl n ↦ subst (Explains c p now d) (ground arith) (failed-Explains c p now d d unchanged)
    | inr (files, e) ↦
        subst (Explains c p now d) (ground arith)
          (mark_extracted-Explains c p now d (extract tools c p))
  ]

  touched-Explains :
      (c : Cache A) (p : Entry) (now : ℕ) (d : Destination tools) (snapshot : Snapshot)
      → installed_snapshot tools d.meta ≡ some snapshot
      → read_installation_snapshot c p ≡ some snapshot
      → Explains c p now d
          (record { returned = true; destination = record d { meta = touch tools now d.meta } })
  unfolding Explains installed_snapshot touch
  touched-Explains c p now d snapshot i r = elim (Option-cases d.meta) [
    | inl n ↦ ground arith
    | inr (m, e) ↦ (
      λ q. record {
        meta = record m { last_write_time = now };
        has_meta = ground arith;
        regular = ground arith;
        is_new = refl;
        is_current = ground arith;
      },
      λ f. cc,
    )
  ]

  update-Explains :
      (c : Cache A) (p : Entry) (now : ℕ) (d : Destination tools)
      → Explains c p now d (update tools c p now d)
  unfolding update
  update-Explains c p now d = elim (Option-cases (installed_snapshot tools d.meta)) [
    | inl n ↦ subst (Explains c p now d) (ground arith) (install-Explains c p now d)
    | inr (snapshot, i) ↦ elim (Option-cases (read_installation_snapshot c p)) [
      | inl n ↦ subst (Explains c p now d) (ground arith) (failed-Explains c p now d d unchanged)
      | inr (current, r) ↦ elim (Bool-cases (snapshot == current)) [
        | inl e ↦
            subst (Explains c p now d) (ground arith)
              (touched-Explains c p now d snapshot i (r ∙ ap some (sym (==_eq snapshot current e))))
        | inr e ↦ subst (Explains c p now d) (ground arith) (install-Explains c p now d)
      ]
    ]
  ]

  -- What need_update says of an installation in the second in which it was made: false for every lifetime
  -- that is not negative and ends before the last time that there is, and true for a negative one.
  abbrev pub IsFresh : ℕ → Destination tools → Type 0
  IsFresh now d =
      ((lifetime : ℕ) → lifetime + now < bound → need_update tools now (pos lifetime) d ≡ false)
      × ((n : ℕ) → need_update tools now (negsuc n) d ≡ true)

  IsInstalled-IsFresh :
      (c : Cache A) (p : Entry) (now : ℕ) (d : Destination tools)
      → IsInstalled c p now d
      → IsFresh now d
  unfolding need_update out_of_range
  IsInstalled-IsFresh c p now d h = (
    λ lifetime l. rw (h.has_meta, h.regular, h.is_new, is_before-add_time lifetime now l) refl,
    λ n. rw (h.has_meta, h.regular, h.is_new, is_before-add_time_negsuc n now) refl,
  )

  -- When extractor::update returns, the directory has a meta file of that time with the snapshot that
  -- the cache has for the installation of the package. need_update is false then for every lifetime that
  -- is not negative and, added to the time, is less than 2 ^ 63; for a negative lifetime it is true.
  pub update-IsInstalled :
      (c : Cache A) (p : Entry) (now : ℕ) (d : Destination tools)
      → (update tools c p now d).returned ≡ true
      → IsInstalled c p now (update tools c p now d).destination
        × IsFresh now (update tools c p now d).destination
  unfolding Explains
  update-IsInstalled c p now d r =
      let installed = (update-Explains c p now d).0 r in
      (installed, IsInstalled-IsFresh c p now (update tools c p now d).destination installed)

  pub update-IsFailed :
      (c : Cache A) (p : Entry) (now : ℕ) (d : Destination tools)
      → (update tools c p now d).returned ≡ false
      → IsFailed d (update tools c p now d).destination
  unfolding Explains
  update-IsFailed c p now d f = (update-Explains c p now d).1 f
