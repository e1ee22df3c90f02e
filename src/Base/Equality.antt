-- ===== src/Base/Equality.antt =====
-- Decided equality as an instance, `==` on every type that has one, and the texts of the program:
-- lists of byte values.
use Prim.Native.Nat.{ℕ}
use Prim.Native.Char.{code}
use Prim.Native.String.{String}
use mathlib.Core.Path.{◌≡◌, refl}
use mathlib.Core.Logic.{◌≢◌, ite}
use mathlib.Core.Bool.{Bool, true, false}
use mathlib.Core.List.{List, [], ◌∷◌}
use native.Mathlib.Decide.{ℕ_discrete}
use native.Mathlib.Omega.{arith}

pub record Eq {ℓ} (A : Type ℓ) : Type ℓ where
  pub dec : Discrete A

module _ {ℓ} {A : Type ℓ} ⦃e : Eq A⦄ where
  infix 50 ◌==◌
  abbrev pub ◌==◌ : A → A → Bool
  a == b = ite (e.dec a b) true false

  pub ==_refl : (a : A) → (a == a) ≡ true
  ==_refl a = ground arith

  pub ==_eq : (a b : A) → (a == b) ≡ true → a ≡ b
  ==_eq a b h = ground arith

  pub ==_ne : (a b : A) → a ≢ b → (a == b) ≡ false
  ==_ne a b h = ground arith

  -- Membership, and the two ways in which the program changes a set.
  unfoldable pub contains : A → List A → Bool
  contains a [] = false
  contains a (x ∷ xs) = elim (a == x) [ true ↦ true | false ↦ contains a xs ]

  unfoldable pub insert : A → List A → List A
  insert a xs = elim (contains a xs) [ true ↦ xs | false ↦ a ∷ xs ]

  unfoldable pub erase : A → List A → List A
  erase a [] = []
  erase a (x ∷ xs) = let rest = erase a xs in elim (a == x) [ true ↦ rest | false ↦ x ∷ rest ]

-- The parts of an equation between nonempty lists.
pub head_path {ℓ} : {A : Type ℓ} {x y : A} {xs ys : List A} → (x ∷ xs) ≡ (y ∷ ys) → x ≡ y
head_path p = cc

pub tail_path {ℓ} : {A : Type ℓ} {x y : A} {xs ys : List A} → (x ∷ xs) ≡ (y ∷ ys) → xs ≡ ys
tail_path p = cc

instance unfoldable pub nat_Eq : Eq ℕ
unfolding ℕ_discrete
nat_Eq = record { dec = ℕ_discrete }

-- A `std::string` by its bytes.
abbrev pub Str : Type 0
Str = List ℕ

module _ {ℓ} {A : Type ℓ} ⦃e : Eq A⦄ where
  unfoldable pub list_dec : Discrete (List A)
  list_dec [] [] = yes refl
  list_dec [] (y ∷ ys) = no (λ p. cc)
  list_dec (x ∷ xs) [] = no (λ p. cc)
  list_dec (x ∷ xs) (y ∷ ys) = elim (e.dec x y) [
    | yes p ↦ elim (list_dec xs ys) [ yes q ↦ yes (cc) | no n ↦ no (λ q. n (tail_path q)) ]
    | no n ↦ no (λ q. n (head_path q))
  ]

instance unfoldable pub list_Eq {ℓ} : {A : Type ℓ} ⦃e : Eq A⦄ → Eq (List A)
unfolding list_dec
list_Eq = record { dec = list_dec }

module _ {ℓ} {A B : Type ℓ} ⦃e : Eq A⦄ ⦃f : Eq B⦄ where
  unfoldable pub pair_dec : Discrete (A × B)
  pair_dec (a, b) (c, d) = elim (e.dec a c) [
    | yes p ↦ elim (f.dec b d) [ yes q ↦ yes (λ i. (p i, q i)) | no n ↦ no (λ r. n (λ i. (r i).1)) ]
    | no n ↦ no (λ r. n (λ i. (r i).0))
  ]

instance unfoldable pub pair_Eq {ℓ} : {A B : Type ℓ} ⦃e : Eq A⦄ ⦃f : Eq B⦄ → Eq (A × B)
unfolding pair_dec
pair_Eq = record { dec = pair_dec }

-- The bytes of a literal.
abbrev pub codes : String → Str
codes String.[] = []
codes (String.◌∷◌ c s) = code c ∷ codes s
