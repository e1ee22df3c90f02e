-- ===== src/Pm/MetaTree/Closed.antt =====
-- update_meta_tree (bunsan/pm/src/lib/repository.cpp): all dependencies are visited.
use bacs.Base.{
  ok_path, ℕ, zero, suc, ◌≡◌, ◌≢◌, ◌⊎◌, refl, sym, ◌∙◌, ap, subst, true, false, Option, none, some,
  List, [], ◌∷◌, Result, ok, >>=-eq-ok, ==_refl, contains, contains-cases, contains-nil,
  contains-insert, insert, insert-cases, inl, inr, arith, Bool-cases,
}
use bacs.Pm.Entry.{Entry, entry_Eq}
use bacs.Pm.Index.{Index, all}
use bacs.Pm.Snapshot.{UpdateError}
use bacs.Pm.Resolver.{or_failed}
use bacs.Pm.MetaTree.{MetaBackend, Walk, visit_each, visit_new, visit_meta, update_meta_tree}

module _ (b : MetaBackend) where
  -- The index of a package can be read, and all that it names was visited.
  abbrev pub IsClosed : Walk b → Entry → Type 0
  IsClosed w p =
      (i : Index) × (b.read_index w.world p ≡ some i)
      × ((d : Entry) → contains d (all i) ≡ true → contains d w.visited ≡ true)

  -- update_meta of one package leaves the indexes of the others as they are.
  abbrev pub KeepsOthers : Type 0
  KeepsOthers =
      (p q : Entry) (w w' : b.World)
      → b.update_meta p w ≡ some w'
      → q ≢ p
      → b.read_index w' q ≡ b.read_index w q

  -- What a part of the walk does to what was visited before it.
  pub record Extends (w w' : Walk b) : Type 0 where
    pub grows : (q : Entry) → contains q w.visited ≡ true → contains q w'.visited ≡ true
    pub keeps :
        (q : Entry) → contains q w.visited ≡ true → b.read_index w'.world q ≡ b.read_index w.world q
    pub closed :
        (q : Entry) → contains q w'.visited ≡ true → (contains q w.visited ≡ true) ⊎ IsClosed w' q

  Extends-refl : (w : Walk b) → Extends w w
  Extends-refl w = record { grows = λ q h. h; keeps = λ q h. refl; closed = λ q h. inl h }

  Extends-trans : (u v w : Walk b) → Extends u v → Extends v w → Extends u w
  Extends-trans u v w h k = record {
    grows = λ q i. k.grows q (h.grows q i);
    keeps = λ q i. k.keeps q (h.grows q i) ∙ h.keeps q i;
    closed = λ q i. elim (k.closed q i) [
      | inr c ↦ inr c
      | inl j ↦ elim (h.closed q j) [
        | inl l ↦ inl l
        | inr (x, p, c) ↦ inr (x, k.keeps q j ∙ p, λ d m. k.grows d (c d m))
      ]
    ];
  }

  abbrev Visits : (Entry → Walk b → Result UpdateError (Walk b)) → Type 0
  Visits visit =
      (p : Entry) (w w' : Walk b)
      → visit p w ≡ ok w'
      → Extends w w' × (contains p w'.visited ≡ true)

  pub or_failed-some : {A : Type 0} (o : Option A) (a : A) → or_failed o ≡ ok a → o ≡ some a
  unfolding or_failed
  or_failed-some none a h = cc
  or_failed-some (some x) a h = ap some (ok_path h)

  visit_each-Extends :
      (visit : Entry → Walk b → Result UpdateError (Walk b))
      → Visits visit
      → (ps : List Entry) (w w' : Walk b) → visit_each b visit ps w ≡ ok w'
      → Extends w w' × ((p : Entry) → contains p ps ≡ true → contains p w'.visited ≡ true)
  unfolding visit_each
  visit_each-Extends visit v [] w w' h =
      (subst (Extends w) (ok_path h) (Extends-refl w), λ p i. absurd (contains-nil p i))
  visit_each-Extends visit v (p ∷ ps) w w' h =
      let (u, e, f) = >>=-eq-ok (visit p w) (visit_each b visit ps) h in
      let (x, i) = v p w u e in
      let (y, c) = visit_each-Extends visit v ps u w' f in
      (
        Extends-trans w u w' x y,
        λ q j. elim (contains-cases q p ps j) [
          | inl r ↦ y.grows q (subst (λ z. contains z u.visited ≡ true) (sym r) i)
          | inr r ↦ c q r
        ],
      )

  pub contains-old :
      (p q : Entry) (visited : List Entry)
      → contains q visited ≡ true
      → contains q (insert p visited) ≡ true
  contains-old p q visited h = ground (arith, contains-insert p q visited)

  contains-new : (p : Entry) (visited : List Entry) → contains p (insert p visited) ≡ true
  contains-new p visited = ground (arith, contains-insert p p visited, ==_refl p)

  unvisited-neq :
      (p q : Entry) (visited : List Entry)
      → contains p visited ≡ false
      → contains q visited ≡ true
      → q ≢ p
  unvisited-neq p q visited n h e = let i = subst (λ z. contains z visited ≡ true) e h in cc

  -- A package is visited, and after it all that its index names.
  new-Extends :
      (p : Entry) (deps : Index) (world : b.World) (w w' : Walk b)
      → contains p w.visited ≡ false
      → b.read_index world p ≡ some deps
      → ((q : Entry) → q ≢ p → b.read_index world q ≡ b.read_index w.world q)
      → Extends (record { visited = insert p w.visited; world = world }) w'
      → ((q : Entry) → contains q (all deps) ≡ true → contains q w'.visited ≡ true)
      → Extends w w'
  new-Extends p deps world w w' n g same x c = record {
    grows = λ q h. x.grows q (contains-old p q w.visited h);
    keeps =
        λ q h. x.keeps q (contains-old p q w.visited h) ∙ same q (unvisited-neq p q w.visited n h);
    closed = λ q h. elim (x.closed q h) [
      | inr k ↦ inr k
      | inl k ↦ elim (insert-cases q p w.visited k) [
        | inr l ↦ inl l
        | inl e ↦
            inr (subst (IsClosed w') (sym e) (deps, x.keeps p (contains-new p w.visited) ∙ g, c))
      ]
    ];
  }

  visit_new-Extends :
      (visit : Entry → Walk b → Result UpdateError (Walk b))
      → KeepsOthers
      → Visits visit
      → (p : Entry) (w w' : Walk b) → contains p w.visited ≡ false
      → visit_new b visit p w ≡ ok w'
      → Extends w w' × (contains p w'.visited ≡ true)
  unfolding visit_new
  visit_new-Extends visit law v p w w' n h =
      let (world, e, f) = >>=-eq-ok (or_failed (b.update_meta p w.world)) _ h in
      let (deps, g, k) = >>=-eq-ok (or_failed (b.read_index world p)) _ f in
      let (x, c) =
        visit_each-Extends visit v (all deps)
          (record { visited = insert p w.visited; world = world }) w' k in
      (
        new-Extends p deps world w w' n (or_failed-some (b.read_index world p) deps g)
            (λ q m. law p q w.world world (or_failed-some (b.update_meta p w.world) world e) m) x c,
        x.grows p (contains-new p w.visited),
      )

  pub visit_meta-Extends : KeepsOthers → (fuel : ℕ) → Visits (visit_meta b fuel)
  unfolding visit_meta
  visit_meta-Extends law zero p w w' h = elim (Bool-cases (contains p w.visited)) [
    | inr n ↦ absurd (ground arith)
    | inl i ↦
        let q : w ≡ w' = ok_path {E = UpdateError} (ground arith) in
        subst (λ z. Extends w z × (contains p z.visited ≡ true)) q (Extends-refl w, i)
  ]
  visit_meta-Extends law (suc fuel) p w w' h = elim (Bool-cases (contains p w.visited)) [
    | inr n ↦
        visit_new-Extends (visit_meta b fuel) law (visit_meta-Extends law fuel) p w w' n
          (ground arith)
    | inl i ↦
        let q : w ≡ w' = ok_path {E = UpdateError} (ground arith) in
        subst (λ z. Extends w z × (contains p z.visited ≡ true)) q (Extends-refl w, i)
  ]

  -- When update_meta_tree returns, it has visited the package; and of every package that it has
  -- visited the index can be read, and all packages that this index names were visited, too. Packages
  -- that depend on each other in a circle are no exception.
  pub walk-IsClosed :
      KeepsOthers
      → (fuel : ℕ) (p : Entry) (world : b.World) (w : Walk b)
      → update_meta_tree b fuel p world ≡ ok w
      → (contains p w.visited ≡ true) × ((q : Entry) → contains q w.visited ≡ true → IsClosed w q)
  unfolding update_meta_tree
  walk-IsClosed law fuel p world w h =
      let (x, i) = visit_meta-Extends law fuel p (record { visited = []; world = world }) w h in
      (i, λ q j. elim (x.closed q j) [ inl k ↦ absurd (contains-nil q k) | inr c ↦ c ])
