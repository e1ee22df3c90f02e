-- ===== src/Base/Lists.antt =====
-- Lists measured by the native numbers, predicates on lists, and the laws of the sets that
-- `contains`, `insert` and `erase` handle.
use Prim.Native.Nat.{ℕ, zero, suc, ◌+◌, ◌≤◌, ◌<◌}
use mathlib.Core.Path.{◌≡◌, refl}
use mathlib.Core.Logic.{◌⊎◌, inl, inr}
use mathlib.Core.Bool.{Bool, true, false, ◌&&◌, ◌||◌}
use mathlib.Core.List.{List, [], ◌∷◌, ◌++◌}
use native.Mathlib.Omega.{arith}
use bacs.Base.Equality.{Eq, ◌==◌, contains, insert, erase}
use bacs.Base.Tests.{if◌then◌else◌}

module _ {ℓ} {A : Type ℓ} where
  abbrev pub length : List A → ℕ
  length [] = 0
  length (x ∷ xs) = suc (length xs)

  abbrev pub all : (A → Bool) → List A → Bool
  all p [] = true
  all p (x ∷ xs) = p x && all p xs

  abbrev pub take : ℕ → List A → List A
  take n [] = []
  take zero (x ∷ xs) = []
  take (suc n) (x ∷ xs) = x ∷ take n xs

  abbrev pub drop : ℕ → List A → List A
  drop n [] = []
  drop zero (x ∷ xs) = x ∷ xs
  drop (suc n) (x ∷ xs) = drop n xs

  abbrev pub All {κ} : (A → Type κ) → List A → Type κ
  All P [] = Unit
  All P (x ∷ xs) = P x × All P xs

  pub length-append : (xs ys : List A) → length (xs ++ ys) ≡ length xs + length ys
  length-append [] ys = omega arith
  length-append (x ∷ xs) ys = omega (arith, length-append xs ys)

  pub All-append {κ} : (P : A → Type κ) (xs ys : List A) → All P xs → All P ys → All P (xs ++ ys)
  All-append P [] ys first second = second
  All-append P (x ∷ xs) ys first second = (first.0, All-append P xs ys first.1 second)

  pub all-append : (p : A → Bool) (xs ys : List A) → all p (xs ++ ys) ≡ (all p xs && all p ys)
  all-append p [] ys = refl
  all-append p (x ∷ xs) ys = ground (arith, all-append p xs ys)

  pub All-map {κ ν} :
      (P : A → Type κ) (Q : A → Type ν) (xs : List A) → ((a : A) → P a → Q a) → All P xs → All Q xs
  All-map P Q [] f h = tt
  All-map P Q (x ∷ xs) f h = (f x h.0, All-map P Q xs f h.1)

module _ {ℓ} {A : Type ℓ} ⦃e : Eq A⦄ where
  pub contains-insert :
      (a b : A) (xs : List A) → contains b (insert a xs) ≡ (b == a || contains b xs)
  unfolding contains insert
  contains-insert a b xs = ground arith

  pub contains-first : (a : A) (xs : List A) → contains a (a ∷ xs) ≡ true
  unfolding contains
  contains-first a xs = ground arith

  pub contains-later : (a b : A) (xs : List A) → contains a xs ≡ true → contains a (b ∷ xs) ≡ true
  unfolding contains
  contains-later a b xs h = ground arith

  pub contains-cases :
      (a b : A) (xs : List A) → contains a (b ∷ xs) ≡ true → (a ≡ b) ⊎ (contains a xs ≡ true)
  unfolding contains
  contains-cases a b xs h = elim (e.dec a b) [ yes p ↦ inl p | no n ↦ inr (ground arith) ]

  pub insert-cases :
      (a b : A) (xs : List A) → contains a (insert b xs) ≡ true → (a ≡ b) ⊎ (contains a xs ≡ true)
  insert-cases a b xs h = elim (e.dec a b) [
    | yes p ↦ inl p
    | no n ↦ inr (ground (arith, contains-insert b a xs))
  ]

  -- What all elements satisfy, a member satisfies.
  pub all-contains :
      (p : A → Bool) (a : A) (xs : List A) → all p xs ≡ true → contains a xs ≡ true → p a ≡ true
  unfolding contains
  all-contains p a [] h i = cc
  all-contains p a (x ∷ xs) h i = elim (e.dec a x) [
    | yes q ↦ ground (arith)
    | no n ↦ ground (arith, all-contains p a xs)
  ]

  -- How many elements of `xs` are not in `set`.
  unfoldable pub count_outside : List A → List A → ℕ
  count_outside [] set = 0
  count_outside (x ∷ xs) set =
      let rest = count_outside xs set in if contains x set then rest else suc rest

  pub count_outside-length : (xs set : List A) → count_outside xs set ≤ length xs
  unfolding count_outside
  count_outside-length [] set = omega arith
  count_outside-length (x ∷ xs) set = ground (arith, count_outside-length xs set)

  pub contains-erase :
      (a b : A) (xs : List A) → contains b (erase a xs) ≡ (if b == a then false else contains b xs)
  unfolding contains erase
  contains-erase a b [] = ground arith
  contains-erase a b (x ∷ xs) = ground (arith, contains-erase a b xs)

  pub erase_absent : (a : A) (xs : List A) → contains a xs ≡ false → erase a xs ≡ xs
  unfolding contains erase
  erase_absent a [] h = refl
  erase_absent a (x ∷ xs) h = ground (arith, erase_absent a xs)

  -- Inserting a new element and erasing it again restores the set.
  pub erase-insert : (a : A) (xs : List A) → contains a xs ≡ false → erase a (insert a xs) ≡ xs
  unfolding erase insert
  erase-insert a xs h = ground (arith, erase_absent a xs)

  pub contains-append :
      (a : A) (xs ys : List A) → contains a (xs ++ ys) ≡ (contains a xs || contains a ys)
  unfolding contains
  contains-append a [] ys = refl
  contains-append a (x ∷ xs) ys = ground (arith, contains-append a xs ys)

  pub contains-nil : (a : A) → contains a [] ≡ true → ⊥
  unfolding contains
  contains-nil a h = cc

  count_outside_mono :
      (a : A) (xs set : List A) → count_outside xs (insert a set) ≤ count_outside xs set
  unfolding count_outside
  count_outside_mono a [] set = omega arith
  count_outside_mono a (x ∷ xs) set =
      ground (arith, count_outside_mono a xs set, contains-insert a x set)

  pub count_outside-insert :
      (a : A) (xs set : List A)
      → contains a xs ≡ true
      → contains a set ≡ false
      → count_outside xs (insert a set) < count_outside xs set
  unfolding count_outside
  count_outside-insert a [] set h k = absurd (contains-nil a h)
  count_outside-insert a (x ∷ xs) set h k = elim (contains-cases a x xs h) [
    | inl p ↦ ground (arith, count_outside_mono a xs set, contains-insert a x set)
    | inr i ↦ ground (arith, count_outside-insert a xs set i k, contains-insert a x set)
  ]
