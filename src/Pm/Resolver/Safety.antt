-- ===== src/Pm/Resolver/Safety.antt =====
-- The whole of update_package_depends (bunsan/pm/src/lib/repository.cpp), by induction on the depth of
-- its calls: what it keeps, what it may end with, and that it ends.
use bacs.Base.{
  ◌≡◌, ◌≢◌, refl, sym, ◌∙◌, ap, ℕ, ◌<◌, zero, suc, Bool, true, false, Option, none, some, none-some,
  List, ◌∷◌, Result, contains, insert, erase, arith, inl, inr, subst, erase-insert, contains-insert,
  ==_refl, insert-cases, count_outside, count_outside-insert,
}
use bacs.Base.Dict.{
  Dict, lookup, assign, assign-new, assign-old, assign-cases, lookup-first, lookup-later,
}
use bacs.Pm.Entry.{Entry}
use bacs.Pm.Index.{Index}
use bacs.Pm.Snapshot.{Snapshot, UpdateError}
use bacs.Pm.Resolver.{
  Stage, stage_Eq, Backend, Progress, Visit, or_failed, visit_all, enter, leave, visit_new, recall,
  visit_body, update_package_depends,
}
use bacs.Pm.Resolver.Graph.{
  complete, dependencies, DependsOn, Reaches, direct, through, visit_body_lem,
}
use bacs.Pm.Resolver.History.{History, worked}
use bacs.Pm.Resolver.Outcome.{
  IsStable, Explained, Outcome, Outcome-bind, Outcome-weaken, Keeps-refl, Outcome-test,
  Outcome-option, Outcome-or_failed, Visited, Keeps, Sound,
}
use bacs.Pm.Resolver.Walk.{Worked, Counted, Returned, AllReturned, complete_safe, visit_all_safe}

true-false : true ≡ false → ⊥
true-false p = cc

in_insert : (s : Stage) (xs : List Stage) → contains s (insert s xs) ≡ true
in_insert s xs = ground (arith, contains-insert s s xs, ==_refl s)

insert_later :
    (k s : Stage) (xs : List Stage) → contains k xs ≡ true → contains k (insert s xs) ≡ true
insert_later k s xs i = ground (arith, contains-insert s k xs)

module _ (b : Backend) (index : Entry → Option Index) where
  -- What the function writes before it returns, for a stage that is new.
  module _ (first : b.World) (s : Stage) (st : Progress b) (x v : Visit b)
      (work : Worked b index s x v) (keeps : Keeps b (enter b s st).progress x.progress)
      (new_ : lookup s st.updated ≡ none) (out : contains s st.inside ≡ false) where
    other : (k : Stage) → contains k st.inside ≡ true → k ≢ s
    other k i p = true-false (sym (subst (λ t. contains t st.inside ≡ true) p i) ∙ out)

    visited_other : (k : Stage) (u : Bool) → lookup k st.updated ≡ some u → k ≢ s
    visited_other k u l p = none-some (sym new_ ∙ subst (λ t. lookup t st.updated ≡ some u) p l)

    updated-leave :
        (k : Stage) → k ≢ s → lookup k (leave b s v).progress.updated ≡ lookup k x.progress.updated
    unfolding leave assign
    updated-leave k n =
        lookup-later k s v.upd v.progress.updated n ∙ ap (lookup k) work.0.same_updated

    still_new : lookup s x.progress.updated ≡ none
    unfolding enter
    still_new = keeps.inside_kept s (in_insert s st.inside) ∙ new_

    leave-Keeps : Keeps b st (leave b s v).progress
    unfolding enter leave
    leave-Keeps = record {
      inside_same =
          ap (erase s) (work.0.same_inside ∙ keeps.inside_same) ∙ erase-insert s st.inside out;
      updated_kept = λ k u e. updated-leave k (visited_other k u e) ∙ keeps.updated_kept k u e;
      inside_kept =
          λ k i. updated-leave k (other k i) ∙ keeps.inside_kept k (insert_later k s st.inside i);
    }

    module _ (sound : Sound b index first x.progress) where
      leave_cached :
          (k : Stage)
          → Visited b k (leave b s v).progress
          → (c : Snapshot) × (lookup k (leave b s v).progress.snapshot_cache ≡ some c)
      unfolding leave
      leave_cached k h =
          let updated : Dict Stage Bool = v.progress.updated in
          let cache : Dict Stage Snapshot = v.progress.snapshot_cache in
          elim (assign-cases k s v.upd updated h) [
            | inl p ↦
                subst
                  (λ j. (c : Snapshot) × (lookup j (assign s v.current_snapshot cache) ≡ some c))
                  (sym p) (assign-new s v.current_snapshot cache)
            | inr e ↦ assign-old k s v.current_snapshot cache (
                subst (λ d. (c : Snapshot) × (lookup k d ≡ some c)) (sym work.0.same_cache)
                  (sound.cached k
                    (subst (λ d. (u : Bool) × (lookup k d ≡ some u)) work.0.same_updated e)))
          ]

      leave-History :
          (deps : Index)
          → index s.package_ ≡ some deps
          → ((d : Stage)
              → contains d (dependencies s.package_ s.type deps) ≡ true
              → Counted b index first x d)
          → History b index first
              (leave b s v).progress.updated
              (leave b s v).progress.snapshot_cache
              (leave b s v).progress.world
      unfolding leave assign
      leave-History deps e seen =
          subst
            (λ d.
              History b index first ((s, v.upd) ∷ d)
                ((s, v.current_snapshot) ∷ v.progress.snapshot_cache) v.progress.world)
            (sym work.0.same_updated)
            (subst
              (λ d.
                History b index first ((s, v.upd) ∷ x.progress.updated)
                  ((s, v.current_snapshot) ∷ d) v.progress.world)
              (sym work.0.same_cache)
              (worked s v.current_snapshot v.upd sound.history still_new
                (deps, e, λ d i. let (u, l, h) = seen d i in (u, l, λ f. h (work.2 f))) work.1))

      leave-Sound :
          (deps : Index)
          → index s.package_ ≡ some deps
          → ((d : Stage)
              → contains d (dependencies s.package_ s.type deps) ≡ true
              → Counted b index first x d)
          → Sound b index first (leave b s v).progress
      unfolding leave
      leave-Sound deps e seen = record {
        index_same = work.0.same_index ∙ sound.index_same;
        history = leave-History deps e seen;
        cached = leave_cached;
      }

  module _ (first : b.World) where
    enter-Sound :
        (s : Stage) (st : Progress b)
        → Sound b index first st
        → Sound b index first (enter b s st).progress
    unfolding enter
    enter-Sound s st h = record {
      index_same = h.index_same;
      history = h.history;
      cached = h.cached;
    }

    recall_safe :
        (s : Stage) (st : Progress b) (upd : Bool)
        → Sound b index first st
        → lookup s st.updated ≡ some upd
        → Outcome index (Returned b index first s st) (recall b s st upd)
    unfolding recall Outcome
    recall_safe s st upd sound e =
        let (c, l) = sound.cached s (upd, e) in
        Outcome-option index (Returned b index first s st) (lookup s st.snapshot_cache) _ _
          (λ n. cc) (λ snapshot _. (Keeps-refl b st, sound, e))

  module _ (stable : IsStable b) (first : b.World) where
    -- The calls for the dependencies left `x`, and the work on the stage left `v`.
    abbrev Body : Stage → Progress b → Index → Visit b → Type 0
    Body s st deps v =
        (x : Visit b) × AllReturned b index first (dependencies s.package_ s.type deps)
          (enter b s st) x
        × Worked b index s x v

    -- The calls from a stage in progress.
    abbrev SafeCalls :
        (Stage → Progress b → Result UpdateError (Visit b)) → Stage → Progress b → Type 0
    SafeCalls visit s st =
        (d : Stage)
        → DependsOn index s d
        → (st' : Progress b) → st'.inside ≡ insert s st.inside
        → Sound b index first st'
        → Outcome index (Returned b index first d st') (visit d st')

    Body-safe :
        (visit : Stage → Progress b → Result UpdateError (Visit b)) (s : Stage) (st : Progress b)
        (deps : Index)
        → Sound b index first st
        → index s.package_ ≡ some deps
        → SafeCalls visit s st
        → Outcome index (Body s st deps) (visit_body b visit s.package_ s.type deps (enter b s st))
    unfolding enter
    Body-safe visit s st deps sound e calls =
        subst (Outcome index (Body s st deps))
          (sym (visit_body_lem b visit s.package_ s.type deps (enter b s st)))
          (Outcome-bind index
            (AllReturned b index first (dependencies s.package_ s.type deps) (enter b s st))
            (Body s st deps)
            (visit_all b visit (dependencies s.package_ s.type deps) (enter b s st)) _
            (visit_all_safe b index first visit (dependencies s.package_ s.type deps) (enter b s st)
              (λ d i. calls d (deps, e, i)) (enter-Sound first s st sound))
            (λ x r.
              Outcome-weaken index _ (Body s st deps) (complete b s.package_ s.type x)
                (complete_safe b index stable s.package_ s.type x) (λ v work. (x, r, work))))

    visit_new_safe :
        (visit : Stage → Progress b → Result UpdateError (Visit b)) (s : Stage) (st : Progress b)
        → contains s st.inside ≡ false
        → lookup s st.updated ≡ none
        → Sound b index first st
        → SafeCalls visit s st
        → Outcome index (Returned b index first s st) (visit_new b visit s st)
    unfolding visit_new Outcome leave assign
    visit_new_safe visit s st out new_ sound calls =
        Outcome-bind index (λ deps. b.read_index st.world s.package_ ≡ some deps)
          (Returned b index first s st) (or_failed (b.read_index st.world s.package_)) _
          (Outcome-or_failed index (b.read_index st.world s.package_))
          (λ deps e.
            let found = ap (λ f. f s.package_) (sym sound.index_same) ∙ e in
            Outcome-bind index (Body s st deps) (Returned b index first s st)
              (visit_body b visit s.package_ s.type deps (enter b s st)) _
              (Body-safe visit s st deps sound found calls)
              (λ v (x, (keeps, sound', back, seen), work). (
                leave-Keeps first s st x v work keeps new_ out,
                leave-Sound first s st x v work keeps new_ out sound' deps found seen,
                lookup-first s v.upd v.progress.updated,
              )))

    -- The stages of a finite set that is closed under dependencies, deep enough for its size.
    module _ (universe : List Stage)
        (closed : (s d : Stage)
          → contains s universe ≡ true
          → DependsOn index s d
          → contains d universe ≡ true) where
      pub update_safe :
          (fuel : ℕ) (s : Stage) (st : Progress b)
          → count_outside universe st.inside < fuel
          → contains s universe ≡ true
          → ((t : Stage) → contains t st.inside ≡ true → Reaches index t s)
          → Sound b index first st
          → Outcome index (Returned b index first s st) (update_package_depends b fuel s st)
      unfolding update_package_depends Outcome Explained
      update_safe zero s st h i r sound = omega arith
      update_safe (suc fuel) s st h i r sound =
          Outcome-test index (Returned b index first s st) (contains s st.inside) _ _
            (λ e. (s, refl, r s e))
            (λ e.
              Outcome-option index (Returned b index first s st) (lookup s st.updated) _ _
                (λ n.
                  visit_new_safe (update_package_depends b fuel) s st e n sound (λ d m st' p sound'.
                    update_safe fuel d st'
                      (subst (λ l. count_outside universe l < fuel) (sym p)
                        (omega (arith, count_outside-insert s universe st.inside i e)))
                      (closed s d i m)
                      (λ t k.
                        elim (insert-cases t s st.inside (subst (λ l. contains t l ≡ true) p k)) [
                          | inl q ↦ subst (λ u. Reaches index u d) (sym q) (direct m)
                          | inr l ↦ through (r t l) m
                        ])
                      sound'))
                (λ upd l. recall_safe first s st upd sound l))
