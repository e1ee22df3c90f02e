-- ===== src/Pm/Snapshot.antt =====
-- bunsan/pm/include/bunsan/pm/snapshot.hpp and bunsan/pm/src/lib/repository/merge_maps.hpp: the files
-- that a package was built from, with their checksums.
use bacs.Base.{
  Str, Bool, none, some, [], ◌∷◌, Result, ok, err, ◌>>=◌, Eq, ◌==◌, list_Eq, nat_Eq, pair_Eq,
  if◌then◌else◌,
}
use bacs.Base.Dict.{Dict, lookup}
use bacs.Pm.Entry.{Entry, entry_Eq, entry_lt}

abbrev pub SnapshotEntry : Type 0
SnapshotEntry = Dict Str Str

abbrev pub Snapshot : Type 0
Snapshot = Dict Entry SnapshotEntry

-- The exceptions of repository::update.
pub data UpdateError : Type 0 where
  circular_dependencies : Entry → UpdateError
  -- BOOST_ASSERT
  assertion : UpdateError
  -- std::map::at
  out_of_range : UpdateError
  -- an exception of the cache, the distributor or the builder
  failed : UpdateError
  -- the model's bound on the depth of the recursion
  out_of_fuel : UpdateError

module _ {K V : Type 0} ⦃e : Eq K⦄ ⦃f : Eq V⦄ (lt : K → K → Bool) where
  -- `a[k] = v` for a new key of a std::map, which is ordered by `lt`.
  unfoldable pub map_insert : K → V → Dict K V → Dict K V
  map_insert k v [] = (k, v) ∷ []
  map_insert k v ((j, w) ∷ d) =
      let rest = map_insert k v d in if lt k j then (k, v) ∷ (j, w) ∷ d else (j, w) ∷ rest

  -- The body of the loop of merge_maps.
  unfoldable pub merge_one : K → V → Dict K V → Result UpdateError (Dict K V)
  unfolding map_insert
  merge_one k v a = elim (lookup k a) [
    | some w ↦ if w == v then ok a else err assertion
    | none ↦ ok (map_insert k v a)
  ]

  unfoldable pub merge_maps : Dict K V → Dict K V → Result UpdateError (Dict K V)
  unfolding merge_one
  merge_maps a [] = ok a
  merge_maps a ((k, v) ∷ b) = do a' ← merge_one k v a; merge_maps a' b

unfoldable pub merge_snapshots : Snapshot → Snapshot → Result UpdateError Snapshot
unfolding merge_maps
merge_snapshots = merge_maps entry_lt
