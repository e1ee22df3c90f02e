-- ===== src/Problem/Simple0/Sorted.antt =====
-- bacs/problem/src/single/drivers/simple0/driver.cpp: the sorted map of the groups.
use bacs.Base.{
  ◌⊎◌, Str, ◌≡◌, ◌≢◌, refl, sym, true, false, Option, none, some, [], ◌∷◌, ◌==◌, ==_refl, list_Eq,
  nat_Eq, arith, Bool-cases, inl, inr, subst, if◌then◌else◌,
}
use bacs.Base.Dict.{Dict, lookup}
use bacs.Pm.Entry.{str_lt}
use bacs.Pm.Entry.Order.{str_lt_irrefl, str_lt_total, str_lt_trans}
use bacs.Problem.Simple0.{TestGroup, Values, change_group, new_group}

-- A key that is neither below another nor equal to it is above it.
above-str_lt : (s t : Str) → str_lt s t ≡ false → s ≢ t → str_lt t s ≡ true
above-str_lt s t h n = elim (Bool-cases (str_lt t s)) [
  | inl p ↦ p
  | inr p ↦ absurd (n (str_lt_total s t h p))
]

pub irrefl_absurd : (k j : Str) → k ≡ j → str_lt k j ≡ true → ⊥
irrefl_absurd k j p h =
    let q = subst (λ z. str_lt k z ≡ true) (sym p) h in ground (arith, str_lt_irrefl k)

module _ {G : Type 0} where
  -- All keys are above this one.
  abbrev pub Above : Str → Dict Str G → Type 0
  Above k [] = Unit
  Above k ((j, g) ∷ groups) = (str_lt k j ≡ true) × Above k groups

  abbrev pub IsSorted : Dict Str G → Type 0
  IsSorted [] = Unit
  IsSorted ((j, g) ∷ groups) = Above j groups × IsSorted groups

  Above-trans :
      (j k : Str) (groups : Dict Str G) → str_lt j k ≡ true → Above k groups → Above j groups
  Above-trans j k [] h a = tt
  Above-trans j k ((i, g) ∷ groups) h a = (str_lt_trans j k i h a.0, Above-trans j k groups h a.1)

  Above-lookup : (k : Str) (groups : Dict Str G) → Above k groups → lookup k groups ≡ none
  unfolding lookup
  Above-lookup k [] a = refl
  Above-lookup k ((j, g) ∷ groups) a = elim (list_Eq.dec k j) [
    | yes p ↦ absurd (irrefl_absurd k j p a.0)
    | no n ↦ ground (arith, Above-lookup k groups a.1)
  ]

-- What `f` makes of a group, or of a new one.
abbrev pub changed :
    {Score : Type 0}
    → (TestGroup Score → TestGroup Score)
    → TestGroup Score
    → Option (TestGroup Score)
    → TestGroup Score
changed f new_ none = f new_
changed f new_ (some g) = f g

module _ {Score : Type 0} (values : Values Score) where
  abbrev G : Type 0
  G = TestGroup Score

  Above-change_group :
      (j k : Str) (f : G → G) (groups : Dict Str G)
      → str_lt j k ≡ true
      → Above j groups
      → Above j (change_group values k f groups)
  unfolding change_group
  Above-change_group j k f [] h a = (h, tt)
  Above-change_group j k f ((i, g) ∷ groups) h a =
      ground (arith, h, a.0, a.1, Above-change_group j k f groups h a.1)

  -- The three ways in which a key meets the first one of the map.
  change_group-cases :
      (k j : Str) (f : G → G) (g : G) (groups : Dict Str G)
      → ((k ≡ j) × (change_group values k f ((j, g) ∷ groups) ≡ (j, f g) ∷ groups))
        ⊎ (((k ≢ j)
              × (str_lt k j ≡ true)
              × (change_group values k f ((j, g) ∷ groups)
                  ≡ (k, f (new_group values)) ∷ (j, g) ∷ groups))
            ⊎ ((k ≢ j)
                × (str_lt j k ≡ true)
                × (change_group values k f ((j, g) ∷ groups)
                    ≡ (j, g) ∷ change_group values k f groups)))
  unfolding change_group
  change_group-cases k j f g groups = elim (list_Eq.dec k j) [
    | yes p ↦ inl (p, ground arith)
    | no n ↦ elim (Bool-cases (str_lt k j)) [
      | inl q ↦ inr (inl (n, q, ground arith))
      | inr q ↦ inr (inr (n, above-str_lt k j q n, ground arith))
    ]
  ]

  pub change_group-IsSorted :
      (k : Str) (f : G → G) (groups : Dict Str G)
      → IsSorted groups
      → IsSorted (change_group values k f groups)
  unfolding change_group
  change_group-IsSorted k f [] s = (tt, tt)
  change_group-IsSorted k f ((j, g) ∷ groups) s = elim (change_group-cases k j f g groups) [
    | inl (p, e) ↦ subst (λ (d : Dict Str G). IsSorted d) (sym e) s
    | inr (inl (n, l, e)) ↦
        subst (λ (d : Dict Str G). IsSorted d) (sym e) ((l, Above-trans k j groups l s.0), s)
    | inr (inr (n, l, e)) ↦
        subst (λ (d : Dict Str G). IsSorted d) (sym e)
          (Above-change_group j k f groups l s.0, change_group-IsSorted k f groups s.1)
  ]

  pub lookup-change_group :
      (i k : Str) (f : G → G) (groups : Dict Str G)
      → IsSorted groups
      → lookup i (change_group values k f groups) ≡ (
          if i == k then some (changed f (new_group values) (lookup k groups)) else lookup i groups)
  unfolding change_group lookup
  lookup-change_group i k f [] s = ground arith
  lookup-change_group i k f ((j, g) ∷ groups) s = elim (change_group-cases k j f g groups) [
    | inl (p, e) ↦ rw (e, p) (ground (arith, ==_refl j))
    | inr (inl (n, l, e)) ↦
        rw (e, Above-lookup k ((j, g) ∷ groups) (l, Above-trans k j groups l s.0)) (ground arith)
    | inr (inr (n, l, e)) ↦ rw e (ground (arith, n, lookup-change_group i k f groups s.1))
  ]
