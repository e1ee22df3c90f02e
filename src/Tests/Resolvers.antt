-- ===== src/Tests/Resolvers.antt =====
-- bunsan/utility/src/custom_resolver.cpp: chains of aliases.
use bacs.Base.{ℕ, ◌≡◌, ◌≢◌, ◌↔◌, refl, Str, [], ◌∷◌, ok, err, list_Eq, nat_Eq, contains, insert}
use bacs.Base.Dict.{Dict, lookup}
use bacs.Utility.CustomResolver.{apply_alias, circular_alias_dependencies, out_of_fuel}
use bacs.Utility.CustomResolver.Aliases.{ResolvesTo, EndsInCircle, apply_alias-ResolvesTo}

-- A name of one letter.
abbrev letter : ℕ → Str
letter c = c ∷ []

-- 1 stands for 2, 2 for 3; 4 and 5 stand for each other.
abbrev some_aliases : Dict Str Str
some_aliases =
    (letter 1, letter 2) ∷ (letter 2, letter 3) ∷ (letter 4, letter 5) ∷ (letter 5, letter 4) ∷ []

apply_alias-chain : apply_alias some_aliases (letter 1) ≡ ok (letter 3)
unfolding apply_alias lookup list_Eq nat_Eq contains insert
apply_alias-chain = refl

apply_alias-circle : apply_alias some_aliases (letter 4) ≡ err circular_alias_dependencies
unfolding apply_alias lookup list_Eq nat_Eq contains insert
apply_alias-circle = refl

apply_alias-ResolvesTo_example :
    ((r : Str) → apply_alias some_aliases (letter 1) ≡ ok r ↔ ResolvesTo some_aliases (letter 1) r)
    × (apply_alias some_aliases (letter 1) ≡ err circular_alias_dependencies
        ↔ EndsInCircle some_aliases (letter 1))
    × (apply_alias some_aliases (letter 1) ≢ err out_of_fuel)
apply_alias-ResolvesTo_example = apply_alias-ResolvesTo some_aliases (letter 1)
