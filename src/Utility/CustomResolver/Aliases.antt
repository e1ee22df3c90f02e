-- ===== src/Utility/CustomResolver/Aliases.antt =====
-- The aliases of bunsan/utility/src/custom_resolver.cpp: the loop over them ends, at the end of the
-- chain of aliases if it has one.
use bacs.Base.{
  none-some, ok_path, err_path, ◌⊎◌, ◌≡◌, ◌≢◌, ◌↔◌, refl, sym, ◌∙◌, ap, subst, ℕ, ◌<◌, zero, suc,
  Str, Option, none, some, some_path, List, [], ◌∷◌, map, Result, ok, err, length, contains, insert,
  list_Eq, nat_Eq, arith, Bool, true, false, count_outside, count_outside-insert, insert-cases,
  contains-nil, count_outside-length, contains-cases, inl, inr,
}
use bacs.Base.Dict.{Dict, lookup}
use bacs.Utility.CustomResolver.{
  ResolverError, circular_alias_dependencies, out_of_fuel, alias_loop, apply_alias,
}

circular_fuel : circular_alias_dependencies ≢ out_of_fuel
circular_fuel p = cc

-- A chain of aliases leads from one name to another.
pub data Chain (alias : Dict Str Str) (name : Str) : Str → Type 0 where
  here : Chain alias name name
  next : {b c : Str} → Chain alias name b → lookup b alias ≡ some c → Chain alias name c

-- One or more aliases lead from a name back to it.
abbrev pub IsCircular : Dict Str Str → Str → Type 0
IsCircular alias name = (b : Str) × (lookup name alias ≡ some b) × Chain alias b name

-- The name that the chain of aliases ends at.
abbrev pub ResolvesTo : Dict Str Str → Str → Str → Type 0
ResolvesTo alias name r = Chain alias name r × (lookup r alias ≡ none)

Chain-trans :
    (alias : Dict Str Str) (a b : Str) {c : Str}
    → Chain alias a b
    → Chain alias b c
    → Chain alias a c
Chain-trans alias a b h here = h
Chain-trans alias a b h (next k e) = next (Chain-trans alias a b h k) e

-- What a run of the loop means.
unfoldable Explained : Dict Str Str → Str → Result ResolverError Str → Type 0
Explained alias name (ok r) = ResolvesTo alias name r
Explained alias name (err e) =
    (e ≡ circular_alias_dependencies) × ((x : Str) × Chain alias name x × IsCircular alias x)

targets : Dict Str Str → List Str
targets = map (λ (k, v). v)

contains-targets :
    (alias : Dict Str Str) (name t : Str)
    → lookup name alias ≡ some t
    → contains t (targets alias) ≡ true
unfolding lookup contains targets
contains-targets [] name t h = cc
contains-targets ((k, v) ∷ alias) name t h = ground (arith, contains-targets alias name t)

length-targets : (alias : Dict Str Str) → length (targets alias) ≡ length alias
unfolding targets
length-targets [] = refl
length-targets ((k, v) ∷ alias) = ap suc (length-targets alias)

Explained-option :
    {A : Type 0} (alias : Dict Str Str) (name : Str) (o : Option A) (x : Result ResolverError Str)
    (f : A → Result ResolverError Str)
    → (o ≡ none → Explained alias name x)
    → ((a : A) → o ≡ some a → Explained alias name (f a))
    → Explained alias name (elim o [ none ↦ x | some a ↦ f a ])
Explained-option alias name none x f h k = h refl
Explained-option alias name (some a) x f h k = k a refl

Explained-test :
    (alias : Dict Str Str) (name : Str) (c : Bool) (x y : Result ResolverError Str)
    → (c ≡ true → Explained alias name x)
    → (c ≡ false → Explained alias name y)
    → Explained alias name (elim c [ true ↦ x | false ↦ y ])
Explained-test alias name true x y h k = h refl
Explained-test alias name false x y h k = k refl

alias_loop_lem :
    (alias : Dict Str Str) (start : Str) (fuel : ℕ) (used : List Str) (name : Str)
    → count_outside (targets alias) used < fuel
    → Chain alias start name
    → ((u : Str) → contains u used ≡ true → Chain alias start u × Chain alias u name)
    → Explained alias start (alias_loop fuel alias used name)
unfolding alias_loop Explained
alias_loop_lem alias start zero used name h c k = absurd (omega arith)
alias_loop_lem alias start (suc fuel) used name h c k =
    Explained-option alias start (lookup name alias) (ok name) _ (λ e. (c, e))
      (λ t e.
        Explained-test alias start (contains t used) _ _ (λ i. (refl, (name, c, (t, e, (k t i).1))))
          (λ o.
            alias_loop_lem alias start fuel (insert t used) t
              (omega (
                arith,
                count_outside-insert t (targets alias) used (contains-targets alias name t e) o,
              ))
              (next c e)
              (λ u m. elim (insert-cases u t used m) [
                | inl p ↦
                    subst (λ v. Chain alias start v × Chain alias v t) (sym p) (next c e, here)
                | inr l ↦ ((k u l).0, next (k u l).1 e)
              ])))

used_first :
    (alias : Dict Str Str) (name u : Str)
    → contains u (name ∷ []) ≡ true
    → Chain alias name u × Chain alias u name
used_first alias name u m = elim (contains-cases u name [] m) [
  | inl p ↦ subst (λ v. Chain alias name v × Chain alias v name) (sym p) (here, here)
  | inr l ↦ absurd (contains-nil u l)
]

apply_alias-Explained :
    (alias : Dict Str Str) (name : Str) → Explained alias name (apply_alias alias name)
unfolding apply_alias
apply_alias-Explained alias name =
    alias_loop_lem alias name (suc (length alias)) (name ∷ []) name
      (omega (arith, count_outside-length (targets alias) (name ∷ []), length-targets alias)) here
      (used_first alias name)

-- The first step of a chain.
Chain-first :
    (alias : Dict Str Str) (a : Str) {c : Str}
    → Chain alias a c
    → (a ≡ c) ⊎ ((b : Str) × (lookup a alias ≡ some b) × Chain alias b c)
Chain-first alias a here = inl refl
Chain-first alias a (next {b = b} {c = c} k e) = elim (Chain-first alias a k) [
  | inl p ↦ inr (c, subst (λ x. lookup x alias ≡ some c) (sym p) e, here)
  | inr (d, f, l) ↦ inr (d, f, next l e)
]

-- Names that a circular one leads to are circular.
Chain-IsCircular :
    (alias : Dict Str Str) (x : Str) {r : Str}
    → IsCircular alias x
    → Chain alias x r
    → IsCircular alias r
Chain-IsCircular alias x h here = h
Chain-IsCircular alias x h (next {b = b} {c = r} k e) =
    let (t, f, l) = Chain-IsCircular alias x h k in
    let from_r : Chain alias r b = subst (λ y. Chain alias y b) (some_path (sym f ∙ e)) l in
    elim (Chain-first alias r from_r) [
      | inl p ↦ (r, subst (λ y. lookup y alias ≡ some r) (sym p) e, here)
      | inr (d, g, m) ↦ (d, g, next m e)
    ]

-- A chain that ends goes on from every name on it.
Chain-ends :
    (alias : Dict Str Str) (name r : Str) {x : Str}
    → ResolvesTo alias name r
    → Chain alias name x
    → ResolvesTo alias x r
Chain-ends alias name r h here = h
Chain-ends alias name r h (next {b = b} {c = x} k e) =
    let (l, n) = Chain-ends alias name r h k in
    elim (Chain-first alias b l) [
      | inl p ↦ absurd (none-some (sym n ∙ subst (λ y. lookup y alias ≡ some x) p e))
      | inr (d, g, m) ↦ (subst (λ y. Chain alias y r) (some_path (sym g ∙ e)) m, n)
    ]

-- A chain has one end at most.
ResolvesTo-unique :
    (alias : Dict Str Str) (name x r : Str)
    → ResolvesTo alias name x
    → ResolvesTo alias name r
    → x ≡ r
ResolvesTo-unique alias name x r (k, n) h =
    elim (Chain-first alias x (Chain-ends alias name r h k).0) [
      | inl p ↦ p
      | inr (d, g, m) ↦ absurd (none-some (sym n ∙ g))
    ]

-- A chain that ends runs into no circle.
ResolvesTo-IsCircular :
    (alias : Dict Str Str) (name x y : Str)
    → ResolvesTo alias name x
    → Chain alias name y
    → ¬ IsCircular alias y
ResolvesTo-IsCircular alias name x y h k c =
    let (l, n) = Chain-ends alias name x h k in
    let (t, e, m) = Chain-IsCircular alias y c l in none-some (sym n ∙ e)

abbrev pub EndsInCircle : Dict Str Str → Str → Type 0
EndsInCircle alias name = (x : Str) × Chain alias name x × IsCircular alias x

result_lem :
    (alias : Dict Str Str) (name : Str) (result : Result ResolverError Str)
    → Explained alias name result
    → ((r : Str) → result ≡ ok r ↔ ResolvesTo alias name r)
      × (result ≡ err circular_alias_dependencies ↔ EndsInCircle alias name)
      × (result ≢ err out_of_fuel)
unfolding Explained
result_lem alias name (ok x) h = (
  λ r. (
    λ p. subst (ResolvesTo alias name) (ok_path p) h,
    λ k. ap ok (ResolvesTo-unique alias name x r h k),
  ),
  (λ p. cc, λ (y, k, c). absurd (ResolvesTo-IsCircular alias name x y h k c)),
  λ p. cc,
)
result_lem alias name (err e) (p, (y, k, c)) = (
  λ r. (λ q. cc, λ h. absurd (ResolvesTo-IsCircular alias name r y h k c)),
  (λ q. (y, k, c), λ q. ap err p),
  λ q. circular_fuel (sym p ∙ err_path q),
)

-- apply_alias returns a name exactly if the chain of aliases ends, and then the name that it ends at;
-- it throws the error of circular aliases exactly if the chain runs into a circle, and ends by itself
-- in both cases.
pub apply_alias-ResolvesTo :
    (alias : Dict Str Str) (name : Str)
    → ((r : Str) → apply_alias alias name ≡ ok r ↔ ResolvesTo alias name r)
      × (apply_alias alias name ≡ err circular_alias_dependencies ↔ EndsInCircle alias name)
      × (apply_alias alias name ≢ err out_of_fuel)
apply_alias-ResolvesTo alias name =
    result_lem alias name (apply_alias alias name) (apply_alias-Explained alias name)
