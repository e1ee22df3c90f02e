-- ===== src/Pm/Repository/Lifetime.antt =====
-- repository::update with a lifetime (bunsan/pm/src/lib/repository.cpp): what it leaves.
use bacs.Base.{
  ℕ, ◌≡◌, ◌⊎◌, inl, inr, refl, sym, ap, subst, true, false, Result, ok, err, Bool-cases,
  if◌then◌else◌,
}
use bacs.Base.Int64.{ℤ}
use bacs.Pm.Entry.{Entry}
use bacs.Pm.Snapshot.{UpdateError}
use bacs.Pm.Cache.{Cache}
use bacs.Pm.Extractor as Extractor
use bacs.Pm.Extractor.{Outcome, Destination, need_update}
use bacs.Pm.Extractor.Installed.{IsInstalled, IsFresh, update-IsInstalled}
use bacs.Pm.Repository.{Setting, update_package, when_updated, update_installation, update_within}

module _ {A : Type 0} (r : Setting A) where
  -- The package was brought up to date, and the installation is the one of the cache after that.
  pub record IsUpdated (p : Entry) (now : ℕ) (c : Cache A) (d : Destination r.unpacker)
      : Type 0 where
    pub cache : Cache A
    pub updated : update_package r p c ≡ ok cache
    pub installed : IsInstalled r.unpacker cache p now d

  when_updated-IsUpdated :
      (p : Entry) (now : ℕ) (c : Cache A) (d : Destination r.unpacker)
      (u : Result UpdateError (Cache A))
      → update_package r p c ≡ u
      → (when_updated r u (λ c'. Extractor.update r.unpacker c' p now d) d).returned ≡ true
      → IsUpdated p now c
          (when_updated r u (λ c'. Extractor.update r.unpacker c' p now d) d).destination
        × IsFresh r.unpacker now
            (when_updated r u (λ c'. Extractor.update r.unpacker c' p now d) d).destination
  unfolding when_updated
  when_updated-IsUpdated p now c d (err e) q h = cc
  when_updated-IsUpdated p now c d (ok c') q h =
      let (installed, fresh) = update-IsInstalled r.unpacker c' p now d h in
      (record { cache = c'; updated = q; installed = installed }, fresh)

  skipped :
      (p : Entry) (lifetime : ℤ) (tested now : ℕ) (c : Cache A) (d : Destination r.unpacker)
      → need_update r.unpacker tested lifetime d ≡ false
      → update_within r p lifetime tested now c d ≡ record { returned = true; destination = d }
  unfolding update_within
  skipped p lifetime tested now c d n =
      ap
        (λ b.
          if b
          then update_installation r p now c d
          else record { returned = true; destination = d })
        n

  needed :
      (p : Entry) (lifetime : ℤ) (tested now : ℕ) (c : Cache A) (d : Destination r.unpacker)
      → need_update r.unpacker tested lifetime d ≡ true
      → update_within r p lifetime tested now c d
        ≡ when_updated r (update_package r p c) (λ c'. Extractor.update r.unpacker c' p now d) d
  unfolding update_within update_installation
  needed p lifetime tested now c d y =
      ap
        (λ b.
          if b
          then update_installation r p now c d
          else record { returned = true; destination = d })
        y

  pub update_within-IsUpdated :
      (p : Entry) (lifetime : ℤ) (tested now : ℕ) (c : Cache A) (d : Destination r.unpacker)
      → (update_within r p lifetime tested now c d).returned ≡ true
      → ((need_update r.unpacker tested lifetime d ≡ false)
          × ((update_within r p lifetime tested now c d).destination ≡ d))
        ⊎ (IsUpdated p now c (update_within r p lifetime tested now c d).destination
            × IsFresh r.unpacker now (update_within r p lifetime tested now c d).destination)
  update_within-IsUpdated p lifetime tested now c d h =
      elim (Bool-cases (need_update r.unpacker tested lifetime d)) [
        | inr n ↦ inl (n, ap (λ o. o.destination) (skipped p lifetime tested now c d n))
        | inl y ↦ inr (
            subst
              (λ o.
                o.returned ≡ true
                → IsUpdated p now c o.destination × IsFresh r.unpacker now o.destination)
              (sym (needed p lifetime tested now c d y))
              (when_updated-IsUpdated p now c d (update_package r p c) refl) h)
      ]
