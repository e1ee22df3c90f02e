-- ===== src/Utility/CustomResolver.antt =====
-- bunsan/utility/src/custom_resolver.cpp: the names of programs, by the aliases and the paths of the
-- configuration.
pub mod Aliases
use bacs.Base.{
  true, false, ℕ, zero, suc, Str, Option, none, some, List, [], ◌∷◌, Result, ok, err, ◌>>=◌, ◌==◌,
  length, contains, insert, list_Eq, nat_Eq, if◌then◌else◌,
}
use bacs.Base.Dict.{Dict, lookup}

pub data ResolverError : Type 0 where
  circular_alias_dependencies : ResolverError
  -- an exception of the back resolver
  not_found : ResolverError
  -- the model's bound on the loop
  out_of_fuel : ResolverError

pub record Config : Type 0 where
  pub alias : Dict Str Str
  pub absolute : Dict Str Str
  pub path : List Str

-- The resolver that custom_resolver falls back on, and `filename` of Boost paths.
pub record BackResolver : Type 0 where
  pub find_program : Str → Option Str
  pub find_shared : Str → Option Str
  pub filename : Str → Str

-- The loop of apply_alias, with the set `used`.
unfoldable pub alias_loop : ℕ → Dict Str Str → List Str → Str → Result ResolverError Str
alias_loop zero alias used name = err out_of_fuel
alias_loop (suc fuel) alias used name = elim (lookup name alias) [
  | none ↦ ok name
  | some next ↦ elim (contains next used) [
    | true ↦ err circular_alias_dependencies
    | false ↦ alias_loop fuel alias (insert next used) next
  ]
]

unfoldable pub apply_alias : Dict Str Str → Str → Result ResolverError Str
unfolding alias_loop
apply_alias alias name = alias_loop (suc (length alias)) alias (name ∷ []) name

unfoldable pub apply_absolute : Dict Str Str → Str → Str
apply_absolute absolute name = elim (lookup name absolute) [ none ↦ name | some path ↦ path ]

unfoldable pub or_not_found : Option Str → Result ResolverError Str
or_not_found none = err not_found
or_not_found (some path) = ok path

unfoldable pub apply_back : BackResolver → Str → Result ResolverError Str
unfolding or_not_found
apply_back back name = or_not_found (back.find_program name)

unfoldable pub apply_path : BackResolver → List Str → Str → Result ResolverError Str
unfolding apply_back
apply_path back path name =
    if name == back.filename name
    then if contains name path then apply_back back name else ok name
    else ok name

unfoldable pub find_executable : BackResolver → Option Config → Str → Result ResolverError Str
unfolding apply_alias apply_absolute apply_path
find_executable back none exe = ok exe
find_executable back (some config) exe = do
  name ← apply_alias config.alias exe
  apply_path back config.path (apply_absolute config.absolute name)

unfoldable pub find_library : BackResolver → Str → Result ResolverError Str
unfolding or_not_found
find_library back lib = or_not_found (back.find_shared lib)
