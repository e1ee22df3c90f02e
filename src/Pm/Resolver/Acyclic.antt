-- ===== src/Pm/Resolver/Acyclic.antt =====
-- The order in which update_package_depends (bunsan/pm/src/lib/repository.cpp) brings stages up to
-- date leaves no room for a cycle.
use bacs.Base.{
  some_path, contains-nil, contains-later, ◌≡◌, sym, ◌∙◌, Bool, true, Option, [], ◌∷◌, contains,
  inl, inr, subst, contains-cases,
}
use bacs.Base.Dict.{Dict, keys}
use bacs.Pm.Entry.{Entry}
use bacs.Pm.Index.{Index}
use bacs.Pm.Resolver.{Stage, stage_Eq}
use bacs.Pm.Resolver.Graph.{dependencies, DependsOn, Reaches, direct, through}
use bacs.Pm.Resolver.History.{Ordered}

module _ (index : Entry → Option Index) where
  first_step :
      (updated : Dict Stage Bool) (k d : Stage) (upd : Bool)
      → Ordered index ((k, upd) ∷ updated)
      → DependsOn index k d
      → contains d (keys updated) ≡ true
  unfolding Ordered
  first_step updated k d upd ((deps', e', f), rest) (deps, e, m) =
      f d (
        subst (λ x. contains d (dependencies k.package_ k.type x) ≡ true) (some_path (sym e ∙ e'))
          m)

  -- The order holds the dependencies of what it holds.
  Ordered-DependsOn :
      (updated : Dict Stage Bool) (s d : Stage)
      → Ordered index updated
      → contains s (keys updated) ≡ true
      → DependsOn index s d
      → contains d (keys updated) ≡ true
  unfolding Ordered keys
  Ordered-DependsOn [] s d h i n = absurd (contains-nil s i)
  Ordered-DependsOn ((k, upd) ∷ updated) s d h i n =
      contains-later d k (keys updated) (elim (contains-cases s k (keys updated) i) [
        | inl p ↦ first_step updated k d upd h (subst (λ x. DependsOn index x d) p n)
        | inr j ↦ Ordered-DependsOn updated s d h.1 j n
      ])

  first_path :
      (updated : Dict Stage Bool) (k d : Stage) (upd : Bool)
      → Ordered index ((k, upd) ∷ updated)
      → Reaches index k d
      → contains d (keys updated) ≡ true
  unfolding Ordered
  first_path updated k d upd h (direct n) = first_step updated k d upd h n
  first_path updated k d upd h (through {s = s} r n) =
      Ordered-DependsOn updated s d h.1 (first_path updated k s upd h r) n

  pub Ordered-acyclic :
      (updated : Dict Stage Bool) (s : Stage)
      → Ordered index updated
      → contains s (keys updated) ≡ true
      → ¬ Reaches index s s
  unfolding Ordered keys
  Ordered-acyclic [] s h i r = contains-nil s i
  Ordered-acyclic ((k, upd) ∷ updated) s h i r =
      Ordered-acyclic updated s h.1
        (elim (contains-cases s k (keys updated) i) [
          | inl p ↦ first_path updated k s upd h (subst (λ x. Reaches index x s) p r)
          | inr j ↦ j
        ])
        r

  pub Ordered-Reaches :
      (updated : Dict Stage Bool) (s d : Stage)
      → Ordered index updated
      → contains s (keys updated) ≡ true
      → Reaches index s d
      → contains d (keys updated) ≡ true
  Ordered-Reaches updated s d h i (direct n) = Ordered-DependsOn updated s d h i n
  Ordered-Reaches updated s d h i (through {s = t} r n) =
      Ordered-DependsOn updated t d h (Ordered-Reaches updated s t h i r) n
