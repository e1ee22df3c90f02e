-- ===== src/Pm/MetaTree.antt =====
-- repository::update_meta_tree of bunsan/pm/src/lib/repository.cpp: the indexes of a package and of all
-- that it depends on are fetched.
pub mod Closed
pub mod Fuel
pub mod Ends
pub mod OnCache
use bacs.Base.{
  ℕ, zero, suc, Bool, true, false, Option, none, some, List, [], ◌∷◌, Result, ok, err, ◌>>=◌,
  contains, insert,
}
use bacs.Pm.Entry.{Entry, entry_Eq}
use bacs.Pm.Index.{Index, all}
use bacs.Pm.Snapshot.{UpdateError, out_of_fuel}
use bacs.Pm.Resolver.{or_failed}

-- What update_meta_tree uses of the distributor and the cache, over the state of the disk.
pub record MetaBackend : Type 1 where
  pub World : Type 0
  pub update_meta : Entry → World → Option World
  pub read_index : World → Entry → Option Index

module _ (b : MetaBackend) where
  pub record Walk : Type 0 where
    pub visited : List Entry
    pub world : b.World

  -- `for (const entry &i : deps.all()) update_meta(i)`
  unfoldable pub visit_each :
      (Entry → Walk → Result UpdateError Walk) → List Entry → Walk → Result UpdateError Walk
  visit_each visit [] w = ok w
  visit_each visit (p ∷ ps) w = visit p w >>= visit_each visit ps

  -- The lambda for a package that was not visited, around its recursive call.
  unfoldable pub visit_new :
      (Entry → Walk → Result UpdateError Walk) → Entry → Walk → Result UpdateError Walk
  unfolding or_failed visit_each insert all
  visit_new visit package_ w = do
    world ← or_failed (b.update_meta package_ w.world)
    deps ← or_failed (b.read_index world package_)
    visit_each visit (all deps) (record { visited = insert package_ w.visited; world = world })

  -- The lambda; the fuel bounds the depth of its calls for packages that were not visited.
  unfoldable pub visit_meta : ℕ → Entry → Walk → Result UpdateError Walk
  unfolding visit_new contains
  visit_meta zero package_ w = elim (contains package_ w.visited) [
    | true ↦ ok w
    | false ↦ err out_of_fuel
  ]
  visit_meta (suc fuel) package_ w = elim (contains package_ w.visited) [
    | true ↦ ok w
    | false ↦ visit_new (visit_meta fuel) package_ w
  ]

  unfoldable pub update_meta_tree : ℕ → Entry → b.World → Result UpdateError Walk
  unfolding visit_meta
  update_meta_tree fuel package_ world =
      visit_meta fuel package_ (record { visited = []; world = world })
