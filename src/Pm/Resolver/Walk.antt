-- ===== src/Pm/Resolver/Walk.antt =====
-- The two halves of update_package_depends (bunsan/pm/src/lib/repository.cpp): the calls for the
-- dependencies, and the work on the stage itself, with what each leaves behind.
use bacs.Base.{
  ◌≡◌, ◌≢◌, refl, sym, ◌∙◌, ap, arith, Bool, true, false, Option, none, some, List, [], ◌∷◌, ok,
  contains, if◌then◌else◌, inl, inr, subst, nat_Eq, list_Eq, pair_Eq, contains-first,
  contains-later, contains-cases, ◌==◌,
}
use bacs.Base.Dict.{lookup}
use bacs.Pm.Entry.{Entry, entry_Eq}
use bacs.Pm.Index.{Index}
use bacs.Pm.Snapshot.{SnapshotEntry, merge_snapshots}
use bacs.Pm.Resolver.{
  Stage, StageType, installation, build, build_empty, source, stage_Eq, Backend, Progress, Visit,
  Visitor, or_failed, visit_one, visit_all, refresh, build_if, check_built, fetch_sources,
  add_checksum,
}
use bacs.Pm.Resolver.Graph.{complete}
use bacs.Pm.Resolver.History.{make, stage_outdated, Work, made, kept, fetched}
use bacs.Pm.Resolver.Outcome.{
  IsStable, Explained, Outcome, Outcome-bind, Outcome-if, Outcome-choice, Outcome-option,
  Outcome-weaken, Outcome-or_failed, merge_snapshots_safe, Keeps, Sound, Keeps-refl, Keeps-trans,
}

module _ (b : Backend) (index : Entry → Option Index) where
  -- The work on the stage changes the disk, and no index on it.
  pub record SameTables (st st' : Progress b) : Type 0 where
    pub same_updated : st'.updated ≡ st.updated
    pub same_inside : st'.inside ≡ st.inside
    pub same_cache : st'.snapshot_cache ≡ st.snapshot_cache
    pub same_index : b.read_index st'.world ≡ b.read_index st.world

  SameTables-refl : (st : Progress b) → SameTables st st
  SameTables-refl st = record {
    same_updated = refl;
    same_inside = refl;
    same_cache = refl;
    same_index = refl;
  }

  SameTables-world :
      (st : Progress b) (w : b.World)
      → b.read_index w ≡ b.read_index st.world
      → SameTables st (record st { world = w })
  SameTables-world st w h = record {
    same_updated = refl;
    same_inside = refl;
    same_cache = refl;
    same_index = h;
  }

  -- The work on the stage: it returns false only if all calls did.
  abbrev pub Worked : Stage → Visit b → Visit b → Type 0
  Worked s acc v =
      SameTables acc.progress v.progress
      × Work b s v.current_snapshot v.upd acc.progress.world v.progress.world
      × (v.upd ≡ false → acc.upd ≡ false)

  -- `upd = upd || outdated`
  unless_safe :
      (upd : Bool) (o : Option Bool)
      → Outcome index
          (λ u. u ≡ false → (upd ≡ false) × (o ≡ some false))
          (if upd then ok true else or_failed o)
  unfolding Outcome Explained or_failed
  unless_safe true o = λ h. cc
  unless_safe false none = tt
  unless_safe false (some x) = λ h. (refl, ap some h)

  module _ (s : Stage) (made_stage : s.type ≢ source) (acc : Visit b) where
    check_built_safe :
        (w : b.World)
        → make b s.type s.package_ acc.progress.world ≡ some w
        → b.read_index w ≡ b.read_index acc.progress.world
        → Outcome index (Worked s acc) (check_built b (stage_outdated b s.type) s.package_ acc w)
    unfolding check_built Outcome Explained
    check_built_safe w m h =
        Outcome-bind index _ (Worked s acc)
          (or_failed (stage_outdated b s.type w s.package_ acc.current_snapshot)) _
          (Outcome-or_failed index (stage_outdated b s.type w s.package_ acc.current_snapshot))
          (λ still e.
            Outcome-choice index (Worked s acc) still _ _ (λ t. tt)
              (λ f.
                (SameTables-world acc.progress w h, made made_stage m (e ∙ ap some f), λ q. cc)))

    build_if_safe :
        ((w w' : b.World) → make b s.type s.package_ w ≡ some w' → b.read_index w' ≡ b.read_index w)
        → (upd : Bool)
        → (upd ≡ false
            → (acc.upd ≡ false)
              × (stage_outdated b s.type acc.progress.world s.package_ acc.current_snapshot
                  ≡ some false))
        → Outcome index
            (Worked s acc)
            (build_if b (stage_outdated b s.type) (make b s.type) s.package_ acc upd)
    unfolding build_if Outcome
    build_if_safe keeps false h =
        (SameTables-refl acc.progress, kept made_stage (h refl).1, λ q. (h refl).0)
    build_if_safe keeps true h =
        Outcome-bind index _ (Worked s acc)
          (or_failed (make b s.type s.package_ acc.progress.world)) _
          (Outcome-or_failed index (make b s.type s.package_ acc.progress.world))
          (λ w e. check_built_safe w e (keeps acc.progress.world w e))

    refresh_safe :
        ((w w' : b.World) → make b s.type s.package_ w ≡ some w' → b.read_index w' ≡ b.read_index w)
        → Outcome index
            (Worked s acc)
            (refresh b (stage_outdated b s.type) (make b s.type) s.package_ acc)
    unfolding refresh
    refresh_safe keeps =
        Outcome-bind index _ (Worked s acc)
          (if acc.upd
            then ok true
            else or_failed
                (stage_outdated b s.type acc.progress.world s.package_ acc.current_snapshot))
          _
          (unless_safe acc.upd
            (stage_outdated b s.type acc.progress.world s.package_ acc.current_snapshot))
          (λ upd h. build_if_safe keeps upd h)

  -- What add_checksum changes is the snapshot.
  abbrev Fetched : Visit b → Visit b → Type 0
  Fetched acc v = (v.progress ≡ acc.progress) × (v.upd ≡ acc.upd)

  add_checksum_safe :
      (p : Entry) (checksum : SnapshotEntry) (acc : Visit b)
      → Outcome index (Fetched acc) (add_checksum b p checksum acc)
  unfolding add_checksum Outcome Explained
  add_checksum_safe p checksum acc =
      Outcome-option index (Fetched acc) (lookup p acc.current_snapshot) _ _ (λ _. (refl, refl))
        (λ c _. Outcome-if index (Fetched acc) (c == checksum) _ _ (refl, refl) tt)

  of_sources :
      (p : Entry) (acc v : Visit b) (w : b.World)
      → b.update_sources p acc.progress.world ≡ some w
      → b.read_index w ≡ b.read_index acc.progress.world
      → Fetched (record acc { progress = record acc.progress { world = w } }) v
      → Worked (record { package_ = p; type = source }) acc v
  unfolding make
  of_sources p acc v w e k (same, u) = (
    subst (SameTables acc.progress) (sym same) (SameTables-world acc.progress w k),
    fetched refl (e ∙ ap (λ t. some t.world) (sym same)),
    λ q. sym u ∙ q,
  )

  fetch_sources_safe :
      IsStable b
      → (p : Entry) (acc : Visit b)
      → Outcome index (Worked (record { package_ = p; type = source }) acc) (fetch_sources b p acc)
  unfolding fetch_sources
  fetch_sources_safe stable p acc =
      let s : Stage = record { package_ = p; type = source } in
      Outcome-bind index _ (Worked s acc) (or_failed (b.update_sources p acc.progress.world)) _
        (Outcome-or_failed index (b.update_sources p acc.progress.world))
        (λ w e.
          Outcome-bind index _ (Worked s acc) (or_failed (b.read_checksum w p)) _
            (Outcome-or_failed index (b.read_checksum w p))
            (λ checksum _.
              let acc' = record acc { progress = record acc.progress { world = w } } in
              Outcome-weaken index (Fetched acc') (Worked s acc) (add_checksum b p checksum acc')
                (add_checksum_safe p checksum acc')
                (λ v f. of_sources p acc v w e (stable.keeps_sources p acc.progress.world w e) f)))

  pub complete_safe :
      IsStable b
      → (p : Entry) (t : StageType) (acc : Visit b)
      → Outcome index (Worked (record { package_ = p; type = t }) acc) (complete b p t acc)
  unfolding complete make stage_outdated
  complete_safe stable p installation acc =
      refresh_safe (record { package_ = p; type = installation }) (λ e. cc) acc
        (stable.keeps_installation p)
  complete_safe stable p build acc =
      refresh_safe (record { package_ = p; type = build }) (λ e. cc) acc (stable.keeps_build p)
  complete_safe stable p build_empty acc =
      refresh_safe (record { package_ = p; type = build_empty }) (λ e. cc) acc
        (stable.keeps_build_empty p)
  complete_safe stable p source acc = fetch_sources_safe stable p acc

  module _ (first : b.World) where
    abbrev pub Returned : Stage → Progress b → Visit b → Type 0
    Returned s st v =
        Keeps b st v.progress
        × Sound b index first v.progress
        × (lookup s v.progress.updated ≡ some v.upd)

    -- The value of a call is kept, and is true only if the value of the walk is.
    abbrev pub Counted : Visit b → Stage → Type 0
    Counted v d = (u : Bool) × (lookup d v.progress.updated ≡ some u) × (v.upd ≡ false → u ≡ false)

    abbrev pub AllReturned : List Stage → Visit b → Visit b → Type 0
    AllReturned xs acc v =
        Keeps b acc.progress v.progress
        × Sound b index first v.progress
        × (v.upd ≡ false → acc.upd ≡ false)
        × ((d : Stage) → contains d xs ≡ true → Counted v d)

    abbrev OneReturned : Stage → Visit b → Visit b → Type 0
    OneReturned s acc v =
        Keeps b acc.progress v.progress
        × Sound b index first v.progress
        × (v.upd ≡ false → acc.upd ≡ false)
        × Counted v s

    visit_one_safe :
        (visit : Visitor b) (s : Stage) (acc : Visit b)
        → Outcome index (Returned s acc.progress) (visit s acc.progress)
        → Outcome index (OneReturned s acc) (visit_one b visit s acc)
    unfolding visit_one Outcome
    visit_one_safe visit s acc h =
        Outcome-bind index (Returned s acc.progress) (OneReturned s acc) (visit s acc.progress) _ h
          (λ v (keeps, sound, l).
            Outcome-bind index (λ _. Unit) (OneReturned s acc)
              (merge_snapshots acc.current_snapshot v.current_snapshot) _
              (merge_snapshots_safe index acc.current_snapshot v.current_snapshot)
              (λ merged _. (keeps, sound, λ f. ground arith, (v.upd, l, λ f. ground arith))))

    Counted-later :
        (acc v : Visit b) (x : Stage)
        → Keeps b acc.progress v.progress
        → (v.upd ≡ false → acc.upd ≡ false)
        → Counted acc x
        → Counted v x
    Counted-later acc v x keeps back (u, l, h) = (u, keeps.updated_kept x u l, λ f. h (back f))

    -- A walk whose calls are safe while `in` is what it was is safe, and visits the whole list.
    pub visit_all_safe :
        (visit : Visitor b) (xs : List Stage) (acc : Visit b)
        → ((d : Stage)
            → contains d xs ≡ true
            → (st : Progress b) → st.inside ≡ acc.progress.inside
            → Sound b index first st
            → Outcome index (Returned d st) (visit d st))
        → Sound b index first acc.progress
        → Outcome index (AllReturned xs acc) (visit_all b visit xs acc)
    unfolding visit_all Outcome contains
    visit_all_safe visit [] acc h sound = (Keeps-refl b acc.progress, sound, λ f. f, λ d e. cc)
    visit_all_safe visit (x ∷ xs) acc h sound =
        Outcome-bind index (OneReturned x acc) (AllReturned (x ∷ xs) acc) (visit_one b visit x acc)
          _ (visit_one_safe visit x acc (h x (contains-first x xs) acc.progress refl sound))
          (λ acc' (keeps, sound', back, seen).
            Outcome-weaken index (AllReturned xs acc') (AllReturned (x ∷ xs) acc)
              (visit_all b visit xs acc')
              (visit_all_safe visit xs acc'
                (λ d e st i. h d (contains-later d x xs e) st (i ∙ keeps.inside_same)) sound')
              (λ v (keeps', sound'', back', seen'). (
                Keeps-trans b keeps keeps',
                sound'',
                λ f. back (back' f),
                λ d e. elim (contains-cases d x xs e) [
                  | inl p ↦ subst (Counted v) (sym p) (Counted-later acc' v x keeps' back' seen)
                  | inr i ↦ seen' d i
                ],
              )))
