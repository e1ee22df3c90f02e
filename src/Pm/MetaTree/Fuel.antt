-- ===== src/Pm/MetaTree/Fuel.antt =====
-- update_meta_tree (bunsan/pm/src/lib/repository.cpp): the walk ends by itself.
use bacs.Base.{
  ℕ, zero, suc, ◌≤◌, ◌≡◌, ◌≢◌, subst, true, false, Option, none, some, List, [], ◌∷◌, Result, ok,
  err, >>=-eq-ok, ok_path, >>=-eq-err, contains, contains-first, contains-later, insert, inl, inr,
  arith, Bool-cases, count_outside, count_outside-insert, count_outside-length, length,
}
use bacs.Pm.Entry.{Entry, entry_Eq}
use bacs.Pm.Index.{Index, all}
use bacs.Pm.Snapshot.{UpdateError, out_of_fuel, failed}
use bacs.Pm.Resolver.{or_failed}
use bacs.Pm.MetaTree.{MetaBackend, Walk, visit_each, visit_new, visit_meta, update_meta_tree}
use bacs.Pm.MetaTree.Closed.{KeepsOthers, visit_meta-Extends, or_failed-some}

count_outside-grows :
    (xs visited more : List Entry)
    → ((q : Entry) → contains q visited ≡ true → contains q more ≡ true)
    → count_outside xs more ≤ count_outside xs visited
unfolding count_outside
count_outside-grows [] visited more h = omega arith
count_outside-grows (x ∷ xs) visited more h =
    let i = h x in ground (arith, count_outside-grows xs visited more h)

failed_fuel : {A : Type 0} → ◌≡◌ {A = Result UpdateError A} (err failed) (err out_of_fuel) → ⊥
failed_fuel h = cc

≤-trans : {a b c : ℕ} → a ≤ b → b ≤ c → a ≤ c
≤-trans p q = omega arith

module _ (b : MetaBackend) (universe : List Entry) (Valid : b.World → Type 0) where
  -- On every valid disk the indexes of the packages of a list name only packages of the same list, and
  -- to update one of them leaves the disk valid.
  pub record IsUniverse : Type 0 where
    pub stays :
        (p : Entry) (w w' : b.World)
        → contains p universe ≡ true
        → Valid w
        → b.update_meta p w ≡ some w'
        → Valid w'
    pub names :
        (p d : Entry) (w : b.World) (i : Index)
        → contains p universe ≡ true
        → Valid w
        → b.read_index w p ≡ some i
        → contains d (all i) ≡ true
        → contains d universe ≡ true

  abbrev AllIn : List Entry → Type 0
  AllIn ps = (p : Entry) → contains p ps ≡ true → contains p universe ≡ true

  abbrev KeepsValid : (Entry → Walk b → Result UpdateError (Walk b)) → Type 0
  KeepsValid visit =
      (p : Entry) (w w' : Walk b)
      → contains p universe ≡ true
      → Valid w.world
      → visit p w ≡ ok w'
      → Valid w'.world

  visit_each-KeepsValid :
      (visit : Entry → Walk b → Result UpdateError (Walk b))
      → KeepsValid visit
      → (ps : List Entry) (w w' : Walk b) → AllIn ps
      → Valid w.world
      → visit_each b visit ps w ≡ ok w'
      → Valid w'.world
  unfolding visit_each
  visit_each-KeepsValid visit k [] w w' m v h = subst (λ z. Valid z.world) (ok_path h) v
  visit_each-KeepsValid visit k (p ∷ ps) w w' m v h =
      let (u, e, f) = >>=-eq-ok (visit p w) (visit_each b visit ps) h in
      visit_each-KeepsValid visit k ps u w' (λ d i. m d (contains-later d p ps i))
        (k p w u (m p (contains-first p ps)) v e) f

  visit_new-KeepsValid :
      IsUniverse
      → (visit : Entry → Walk b → Result UpdateError (Walk b)) → KeepsValid visit
      → KeepsValid (visit_new b visit)
  unfolding visit_new
  visit_new-KeepsValid closed visit k p w w' i v h =
      let (world, e, f) = >>=-eq-ok (or_failed (b.update_meta p w.world)) _ h in
      let (deps, g, j) = >>=-eq-ok (or_failed (b.read_index world p)) _ f in
      let valid =
        closed.stays p w.world world i v (or_failed-some b (b.update_meta p w.world) world e) in
      visit_each-KeepsValid visit k (all deps)
        (record { visited = insert p w.visited; world = world }) w'
        (λ d. closed.names p d world deps i valid (or_failed-some b (b.read_index world p) deps g))
        valid j

  visit_meta-KeepsValid : IsUniverse → (fuel : ℕ) → KeepsValid (visit_meta b fuel)
  unfolding visit_meta
  visit_meta-KeepsValid closed zero p w w' i v h = elim (Bool-cases (contains p w.visited)) [
    | inr n ↦ absurd (ground arith)
    | inl c ↦
        subst (λ z. Valid z.world) (ok_path {E = UpdateError} {x = w} {y = w'} (ground arith)) v
  ]
  visit_meta-KeepsValid closed (suc fuel) p w w' i v h = elim (Bool-cases (contains p w.visited)) [
    | inr n ↦
        visit_new-KeepsValid closed (visit_meta b fuel) (visit_meta-KeepsValid closed fuel) p w w' i
          v (ground arith)
    | inl c ↦
        subst (λ z. Valid z.world) (ok_path {E = UpdateError} {x = w} {y = w'} (ground arith)) v
  ]

  abbrev IsEnough : ℕ → Type 0
  IsEnough fuel =
      (p : Entry) (w : Walk b)
      → contains p universe ≡ true
      → Valid w.world
      → count_outside universe w.visited ≤ fuel
      → visit_meta b fuel p w ≢ err out_of_fuel

  visit_each-IsEnough :
      KeepsOthers b
      → IsUniverse
      → (fuel : ℕ) → IsEnough fuel
      → (ps : List Entry) (w : Walk b) → AllIn ps
      → Valid w.world
      → count_outside universe w.visited ≤ fuel
      → visit_each b (visit_meta b fuel) ps w ≢ err out_of_fuel
  unfolding visit_each
  visit_each-IsEnough law closed fuel e [] w m v c h = cc
  visit_each-IsEnough law closed fuel e (p ∷ ps) w m v c h =
      let i = m p (contains-first p ps) in
      elim (>>=-eq-err (visit_meta b fuel p w) (visit_each b (visit_meta b fuel) ps) h) [
        | inl q ↦ e p w i v c q
        | inr (u, q, r) ↦
            let grown = (visit_meta-Extends b law fuel p w u q).0 in
            visit_each-IsEnough law closed fuel e ps u (λ d j. m d (contains-later d p ps j))
              (visit_meta-KeepsValid closed fuel p w u i v q)
              (≤-trans (count_outside-grows universe w.visited u.visited grown.grows) c) r
      ]

  or_failed-failed : {A : Type 0} (o : Option A) → or_failed o ≢ err out_of_fuel
  unfolding or_failed
  or_failed-failed none h = failed_fuel h
  or_failed-failed (some x) h = cc

  visit_new-IsEnough :
      KeepsOthers b
      → IsUniverse
      → (fuel : ℕ) → IsEnough fuel
      → (p : Entry) (w : Walk b) → contains p universe ≡ true
      → Valid w.world
      → contains p w.visited ≡ false
      → count_outside universe w.visited ≤ suc fuel
      → visit_new b (visit_meta b fuel) p w ≢ err out_of_fuel
  unfolding visit_new
  visit_new-IsEnough law closed fuel e p w i v n c h =
      elim (>>=-eq-err (or_failed (b.update_meta p w.world)) _ h) [
        | inl q ↦ or_failed-failed (b.update_meta p w.world) q
        | inr (world, q, r) ↦ elim (>>=-eq-err (or_failed (b.read_index world p)) _ r) [
          | inl s ↦ or_failed-failed (b.read_index world p) s
          | inr (deps, s, t) ↦
              let valid =
                closed.stays p w.world world i v
                  (or_failed-some b (b.update_meta p w.world) world q) in
              let fewer = count_outside-insert p universe w.visited i n in
              visit_each-IsEnough law closed fuel e (all deps)
                (record { visited = insert p w.visited; world = world })
                (λ d.
                  closed.names p d world deps i valid
                    (or_failed-some b (b.read_index world p) deps s))
                valid (omega arith) t
        ]
      ]

  visit_meta-IsEnough : KeepsOthers b → IsUniverse → (fuel : ℕ) → IsEnough fuel
  unfolding visit_meta
  visit_meta-IsEnough law closed zero p w i v c h = elim (Bool-cases (contains p w.visited)) [
    | inl k ↦ ground arith
    | inr n ↦ let fewer = count_outside-insert p universe w.visited i n in omega arith
  ]
  visit_meta-IsEnough law closed (suc fuel) p w i v c h = elim (Bool-cases (contains p w.visited)) [
    | inl k ↦ ground arith
    | inr n ↦
        visit_new-IsEnough law closed fuel (visit_meta-IsEnough law closed fuel) p w i v n c
          (ground arith)
  ]

  -- If the packages of a list have indexes that name only packages of the list, and stay like this
  -- whichever of them is updated, then update_meta_tree ends by itself: fuel for so many packages is
  -- enough.
  pub update_meta_tree_ends :
      KeepsOthers b
      → IsUniverse
      → (p : Entry) (world : b.World) → contains p universe ≡ true
      → Valid world
      → update_meta_tree b (length universe) p world ≢ err out_of_fuel
  unfolding update_meta_tree
  update_meta_tree_ends law closed p world i v =
      visit_meta-IsEnough law closed (length universe) p (record { visited = []; world = world }) i
        v (count_outside-length universe [])
