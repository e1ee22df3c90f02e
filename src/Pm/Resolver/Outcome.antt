-- ===== src/Pm/Resolver/Outcome.antt =====
-- What a call of update_package_depends (bunsan/pm/src/lib/repository.cpp) leaves behind: the state
-- that it keeps and the exceptions that it may end with.
use bacs.Base.{
  ◌≡◌, refl, sym, subst, ◌∙◌, Bool, true, false, Option, none, some, [], ◌∷◌, Result, ok, err,
  ◌>>=◌, contains, if◌then◌else◌, arith, Eq,
}
use bacs.Base.Dict.{Dict, lookup}
use bacs.Pm.Entry.{Entry, entry_lt, entry_Eq}
use bacs.Pm.Index.{Index}
use bacs.Pm.Snapshot.{
  Snapshot, UpdateError, circular_dependencies, assertion, out_of_range, failed, out_of_fuel,
  merge_snapshots, merge_maps, merge_one,
}
use bacs.Pm.Resolver.{Stage, stage_Eq, Backend, Progress, or_failed}
use bacs.Pm.Resolver.Graph.{Reaches}
use bacs.Pm.Resolver.History.{History}

-- The operations on the disk that the walk uses leave every index as it is.
pub record IsStable (b : Backend) : Type 0 where
  pub keeps_installation :
      (p : Entry) (w w' : b.World)
      → b.build_installation p w ≡ some w'
      → b.read_index w' ≡ b.read_index w
  pub keeps_build :
      (p : Entry) (w w' : b.World) → b.build p w ≡ some w' → b.read_index w' ≡ b.read_index w
  pub keeps_build_empty :
      (p : Entry) (w w' : b.World) → b.build_empty p w ≡ some w' → b.read_index w' ≡ b.read_index w
  pub keeps_sources :
      (p : Entry) (w w' : b.World)
      → b.update_sources p w ≡ some w'
      → b.read_index w' ≡ b.read_index w

module _ (index : Entry → Option Index) where
  -- A cycle is reported only where there is one; the other exceptions are those of the backend and
  -- of the assertions.
  unfoldable pub Explained : UpdateError → Type 0
  Explained (circular_dependencies p) = (s : Stage) × (s.package_ ≡ p) × Reaches index s s
  Explained assertion = Unit
  Explained out_of_range = ⊥
  Explained failed = Unit
  Explained out_of_fuel = ⊥

  unfoldable pub Outcome : {A : Type 0} → (A → Type 0) → Result UpdateError A → Type 0
  unfolding Explained
  Outcome P (ok a) = P a
  Outcome P (err e) = Explained e

  pub Outcome-bind :
      {A B : Type 0} (P : A → Type 0) (Q : B → Type 0) (m : Result UpdateError A)
      (f : A → Result UpdateError B)
      → Outcome P m
      → ((a : A) → P a → Outcome Q (f a))
      → Outcome Q (m >>= f)
  unfolding Outcome
  Outcome-bind P Q (ok a) f h k = k a h
  Outcome-bind P Q (err e) f h k = h

  pub Outcome-test :
      {A : Type 0} (P : A → Type 0) (c : Bool) (x y : Result UpdateError A)
      → (c ≡ true → Outcome P x)
      → (c ≡ false → Outcome P y)
      → Outcome P (elim c [ true ↦ x | false ↦ y ])
  Outcome-test P true x y h k = h refl
  Outcome-test P false x y h k = k refl

  pub Outcome-weaken :
      {A : Type 0} (P Q : A → Type 0) (m : Result UpdateError A)
      → Outcome P m
      → ((a : A) → P a → Q a)
      → Outcome Q m
  unfolding Outcome
  Outcome-weaken P Q (ok a) h k = k a h
  Outcome-weaken P Q (err e) h k = h

  pub Outcome-or_failed : {A : Type 0} (o : Option A) → Outcome (λ a. o ≡ some a) (or_failed o)
  unfolding Outcome or_failed
  Outcome-or_failed none = tt
  Outcome-or_failed (some a) = refl

  pub Outcome-if :
      {A : Type 0} (P : A → Type 0) (c : Bool) (x y : Result UpdateError A)
      → Outcome P x
      → Outcome P y
      → Outcome P (if c then x else y)
  Outcome-if P true x y h k = h
  Outcome-if P false x y h k = k

  pub Outcome-choice :
      {A : Type 0} (P : A → Type 0) (c : Bool) (x y : Result UpdateError A)
      → (c ≡ true → Outcome P x)
      → (c ≡ false → Outcome P y)
      → Outcome P (if c then x else y)
  Outcome-choice P true x y h k = h refl
  Outcome-choice P false x y h k = k refl

  pub Outcome-option :
      {A B : Type 0} (P : B → Type 0) (o : Option A) (x : Result UpdateError B)
      (f : A → Result UpdateError B)
      → (o ≡ none → Outcome P x)
      → ((a : A) → o ≡ some a → Outcome P (f a))
      → Outcome P (elim o [ none ↦ x | some a ↦ f a ])
  Outcome-option P none x f h k = h refl
  Outcome-option P (some a) x f h k = k a refl

  merge_one_safe :
      {K V : Type 0} ⦃e : Eq K⦄ ⦃f : Eq V⦄ (lt : K → K → Bool) (k : K) (v : V) (a : Dict K V)
      → Outcome (λ _. Unit) (merge_one lt k v a)
  unfolding Outcome merge_one
  merge_one_safe lt k v a = ground arith

  merge_maps_safe :
      {K V : Type 0} ⦃e : Eq K⦄ ⦃f : Eq V⦄ (lt : K → K → Bool) (b a : Dict K V)
      → Outcome (λ _. Unit) (merge_maps lt a b)
  unfolding Outcome merge_maps
  merge_maps_safe lt [] a = tt
  merge_maps_safe lt ((k, v) ∷ b) a =
      Outcome-bind (λ _. Unit) (λ _. Unit) (merge_one lt k v a) _ (merge_one_safe lt k v a)
        (λ a' _. merge_maps_safe lt b a')

  pub merge_snapshots_safe : (a b : Snapshot) → Outcome (λ _. Unit) (merge_snapshots a b)
  unfolding merge_snapshots
  merge_snapshots_safe a b = merge_maps_safe ⦃f = _⦄ entry_lt b a

module _ (b : Backend) where
  abbrev pub Visited : Stage → Progress b → Type 0
  Visited s st = (upd : Bool) × (lookup s st.updated ≡ some upd)

  -- A call that returns restores `in`, forgets no stage that was updated before, and does not touch
  -- the stages in progress.
  pub record Keeps (st st' : Progress b) : Type 0 where
    pub inside_same : st'.inside ≡ st.inside
    pub updated_kept :
        (s : Stage) (u : Bool) → lookup s st.updated ≡ some u → lookup s st'.updated ≡ some u
    pub inside_kept :
        (s : Stage) → contains s st.inside ≡ true → lookup s st'.updated ≡ lookup s st.updated

  pub record Sound (index : Entry → Option Index) (first : b.World) (st : Progress b) : Type 0 where
    pub index_same : b.read_index st.world ≡ index
    pub history : History b index first st.updated st.snapshot_cache st.world
    pub cached : (s : Stage) → Visited s st → (c : Snapshot) × (lookup s st.snapshot_cache ≡ some c)

  pub Keeps-refl : (st : Progress b) → Keeps st st
  Keeps-refl st = record {
    inside_same = refl;
    updated_kept = λ s u h. h;
    inside_kept = λ s h. refl;
  }

  pub Keeps-trans : {r s t : Progress b} → Keeps r s → Keeps s t → Keeps r t
  Keeps-trans h k = record {
    inside_same = k.inside_same ∙ h.inside_same;
    updated_kept = λ s u v. k.updated_kept s u (h.updated_kept s u v);
    inside_kept = λ s i.
        k.inside_kept s (subst (λ l. contains s l ≡ true) (sym h.inside_same) i)
        ∙ h.inside_kept s i;
  }
