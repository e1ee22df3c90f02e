-- ===== src/Base/Dict.antt =====
-- `std::map` and `std::unordered_map` where the program only looks keys up and writes them: an
-- association list in which the latest binding of a key stands first.
use bacs.Base.{
  ◌≡◌, ◌≢◌, ◌⊎◌, inl, inr, true, false, Option, none, some, List, [], ◌∷◌, map, arith, Eq, ◌==◌,
  contains, if◌then◌else◌,
}

abbrev pub Dict {ℓ} : Type ℓ → Type ℓ → Type ℓ
Dict K V = List (K × V)

unfoldable pub keys {ℓ} : {K V : Type ℓ} → Dict K V → List K
keys = map (λ (k, _). k)

module _ {ℓ} {K V : Type ℓ} ⦃e : Eq K⦄ where
  unfoldable pub lookup : K → Dict K V → Option V
  lookup k [] = none
  lookup k ((j, v) ∷ d) = elim (k == j) [ true ↦ some v | false ↦ lookup k d ]

  -- `d[k] = v`
  unfoldable pub assign : K → V → Dict K V → Dict K V
  assign k v d = (k, v) ∷ d

  -- `d.erase(k)`
  unfoldable pub remove : K → Dict K V → Dict K V
  remove k [] = []
  remove k ((j, v) ∷ d) =
      let rest = remove k d in elim (k == j) [ true ↦ rest | false ↦ (j, v) ∷ rest ]

  pub lookup-assign :
      (j k : K) (v : V) (d : Dict K V)
      → lookup j (assign k v d) ≡ (if j == k then some v else lookup j d)
  unfolding lookup assign
  lookup-assign j k v d = ground arith

  pub lookup-remove :
      (j k : K) (d : Dict K V) → lookup j (remove k d) ≡ (if j == k then none else lookup j d)
  unfolding lookup remove
  lookup-remove j k [] = ground arith
  lookup-remove j k ((i, v) ∷ d) = ground (arith, lookup-remove j k d)

  -- A key that has a value is among the keys.
  pub contains-keys :
      (k : K) (v : V) (d : Dict K V) → lookup k d ≡ some v → contains k (keys d) ≡ true
  unfolding lookup contains keys
  contains-keys k v [] h = cc
  contains-keys k v ((j, w) ∷ d) h = ground (arith, contains-keys k v d)

  -- A key has a value.
  abbrev pub Has : K → Dict K V → Type ℓ
  Has k d = (v : V) × (lookup k d ≡ some v)

  pub assign-new : (k : K) (v : V) (d : Dict K V) → Has k (assign k v d)
  assign-new k v d = (v, ground (arith, lookup-assign k k v d))

  pub assign-old : (j k : K) (v : V) (d : Dict K V) → Has j d → Has j (assign k v d)
  assign-old j k v d (u, h) = elim (e.dec j k) [
    | yes p ↦ (v, ground (arith, lookup-assign j k v d))
    | no n ↦ (u, ground (arith, lookup-assign j k v d))
  ]

  pub assign-cases : (j k : K) (v : V) (d : Dict K V) → Has j (assign k v d) → (j ≡ k) ⊎ Has j d
  assign-cases j k v d (u, h) = elim (e.dec j k) [
    | yes p ↦ inl p
    | no n ↦ inr (u, ground (arith, lookup-assign j k v d))
  ]

  pub lookup-first : (k : K) (v : V) (d : Dict K V) → lookup k ((k, v) ∷ d) ≡ some v
  unfolding lookup assign
  lookup-first k v d = ground (arith, lookup-assign k k v d)

  pub lookup-later : (j k : K) (v : V) (d : Dict K V) → j ≢ k → lookup j ((k, v) ∷ d) ≡ lookup j d
  unfolding assign
  lookup-later j k v d n = ground (arith, lookup-assign j k v d)
