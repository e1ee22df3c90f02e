-- ===== src/Base/Results.antt =====
-- What a C++ call returns or throws: `err` carries the exception.
use mathlib.Core.Path.{◌≡◌, refl, ap}
use mathlib.Core.Logic.{◌⊎◌, inl, inr}

pub data Result {ℓ} (E : Type ℓ) (A : Type ℓ) : Type ℓ where
  ok : A → Result E A
  err : E → Result E A

-- An exception skips what follows.
infixl 5 ◌>>=◌
abbrev pub ◌>>=◌ {ℓ} : {E A B : Type ℓ} → Result E A → (A → Result E B) → Result E B
err x >>= next = err x
ok value >>= next = next value

module _ {ℓ} {E A : Type ℓ} where
  pub ok_path : {x y : A} → ◌≡◌ {A = Result E A} (ok x) (ok y) → x ≡ y
  ok_path p = cc

  pub err_path : {x y : E} → ◌≡◌ {A = Result E A} (err x) (err y) → x ≡ y
  err_path p = cc

-- A successful sequence has a successful first part.
module _ {ℓ} {E A B : Type ℓ} where
  pub >>=-eq-ok :
      (first : Result E A) (next : A → Result E B) {result : B}
      → (first >>= next) ≡ ok result
      → (value : A) × (first ≡ ok value) × (next value ≡ ok result)
  >>=-eq-ok (err x) next equation = cc
  >>=-eq-ok (ok value) next equation = (value, refl, equation)

  -- A failed sequence has a first part that failed, or a second part.
  pub >>=-eq-err :
      (first : Result E A) (next : A → Result E B) {error : E}
      → (first >>= next) ≡ err error
      → (first ≡ err error) ⊎ ((value : A) × (first ≡ ok value) × (next value ≡ err error))
  >>=-eq-err (err x) next equation = inl (ap err (err_path {A = B} equation))
  >>=-eq-err (ok value) next equation = inr (value, refl, equation)

infixl 5 ◌>>◌
abbrev pub ◌>>◌ {ℓ} : {E B : Type ℓ} → Result E Unit → Result E B → Result E B
first >> second = first >>= λ _. second
