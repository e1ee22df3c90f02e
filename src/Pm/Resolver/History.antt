-- ===== src/Pm/Resolver/History.antt =====
-- What update_package_depends (bunsan/pm/src/lib/repository.cpp) has done to the disk, stage by stage.
use bacs.Base.{
  ◌≡◌, ◌≢◌, sym, subst, Bool, true, false, Option, none, some, List, [], ◌∷◌, contains, inl, inr,
  ◌∙◌, contains-nil, contains-cases, list_Eq, nat_Eq,
}
use bacs.Base.Dict.{Dict, lookup, keys, contains-keys, lookup-first, lookup-later}
use bacs.Pm.Entry.{Entry}
use bacs.Pm.Index.{Index}
use bacs.Pm.Snapshot.{Snapshot}
use bacs.Pm.Resolver.{Stage, stage_Eq, StageType, installation, build, build_empty, source, Backend}
use bacs.Pm.Resolver.Graph.{dependencies}

-- Every stage stands in front of the stages that it depends on.
unfoldable pub Ordered : (Entry → Option Index) → Dict Stage Bool → Type 0
unfolding contains keys
Ordered index [] = Unit
Ordered index ((s, upd) ∷ updated) =
    ((deps : Index) × (index s.package_ ≡ some deps)
      × ((d : Stage)
          → contains d (dependencies s.package_ s.type deps) ≡ true
          → contains d (keys updated) ≡ true))
    × Ordered index updated

-- A member of a list that is not its head is in the tail.
contains-tail :
    (s k : Stage) (ks : List Stage) → s ≢ k → contains s (k ∷ ks) ≡ true → contains s ks ≡ true
contains-tail s k ks n i = elim (contains-cases s k ks i) [ inl p ↦ absurd (n p) | inr j ↦ j ]

module _ (b : Backend) where
  -- What makes the result of a stage, and the test of whether it has to be made.
  unfoldable pub make : StageType → Entry → b.World → Option b.World
  make installation = b.build_installation
  make build = b.build
  make build_empty = b.build_empty
  make source = b.update_sources

  unfoldable pub stage_outdated : StageType → b.World → Entry → Snapshot → Option Bool
  stage_outdated installation = b.installation_outdated
  stage_outdated build = b.build_outdated
  stage_outdated build_empty = b.build_outdated
  stage_outdated source = λ w p snapshot. some false

  -- The work on one stage, with its snapshot: the value that it returns, and the disk before and after.
  pub data Work (s : Stage) (snapshot : Snapshot) : Bool → b.World → b.World → Type 0 where
    -- It is made, and not outdated after that.
    made :
        {w w' : b.World}
        → s.type ≢ source
        → make s.type s.package_ w ≡ some w'
        → stage_outdated s.type w' s.package_ snapshot ≡ some false
        → Work s snapshot true w w'
    -- It is not outdated, and left as it is.
    kept :
        {w : b.World}
        → s.type ≢ source
        → stage_outdated s.type w s.package_ snapshot ≡ some false
        → Work s snapshot false w w
    -- The sources are fetched in any case.
    fetched :
        {w w' : b.World} {upd : Bool}
        → s.type ≡ source
        → make s.type s.package_ w ≡ some w'
        → Work s snapshot upd w w'

  -- The stages before this one that it depends on; if it returns false, so did they.
  abbrev pub AreReady : (Entry → Option Index) → Stage → Bool → Dict Stage Bool → Type 0
  AreReady index s upd updated =
      (deps : Index) × (index s.package_ ≡ some deps)
      × ((d : Stage)
          → contains d (dependencies s.package_ s.type deps) ≡ true
          → (u : Bool) × (lookup d updated ≡ some u) × (upd ≡ false → u ≡ false))

  -- The disk is that of the start after the work on each stage of the map, the last one first. The
  -- work on a stage comes once, and after the work on all that it depends on.
  pub data History (index : Entry → Option Index) (first : b.World)
      : Dict Stage Bool → Dict Stage Snapshot → b.World → Type 0 where
    at_start : History index first [] [] first
    worked :
        {updated : Dict Stage Bool} {cache : Dict Stage Snapshot} {w w' : b.World} (s : Stage)
        (snapshot : Snapshot) (upd : Bool)
        → History index first updated cache w
        → lookup s updated ≡ none
        → AreReady index s upd updated
        → Work s snapshot upd w w'
        → History index first ((s, upd) ∷ updated) ((s, snapshot) ∷ cache) w'

  module _ {index : Entry → Option Index} {first : b.World} where
    pub History-Ordered :
        {updated : Dict Stage Bool} {cache : Dict Stage Snapshot} {w : b.World}
        → History index first updated cache w
        → Ordered index updated
    unfolding Ordered
    History-Ordered at_start = tt
    History-Ordered (worked {updated = updated} s snapshot upd h new_ (deps, e, ready) work) = (
      (deps, e, λ d i. let (u, l, _) = ready d i in contains-keys d u updated l),
      History-Ordered h,
    )

  -- How a stage was worked on: with the value and the snapshot that the maps have for it, on the disk
  -- that the work on the stages before it had left.
  pub record IsWorked (index : Entry → Option Index) (first : b.World) (updated : Dict Stage Bool)
      (cache : Dict Stage Snapshot) (s : Stage) : Type 0 where
    pub upd : Bool
    pub snapshot : Snapshot
    pub has_upd : lookup s updated ≡ some upd
    pub has_snapshot : lookup s cache ≡ some snapshot
    pub earlier : Dict Stage Bool
    pub earlier_cache : Dict Stage Snapshot
    pub disk : b.World
    pub disk_after : b.World
    pub history : History index first earlier earlier_cache disk
    pub is_ready : AreReady index s upd earlier
    pub work : Work s snapshot upd disk disk_after

  module _ {index : Entry → Option Index} {first : b.World} where
    earlier-IsWorked :
        (updated : Dict Stage Bool) (cache : Dict Stage Snapshot) (k s : Stage) (u : Bool)
        (t : Snapshot)
        → s ≢ k
        → IsWorked index first updated cache s
        → IsWorked index first ((k, u) ∷ updated) ((k, t) ∷ cache) s
    earlier-IsWorked updated cache k s u t n h = record {
      upd = h.upd;
      snapshot = h.snapshot;
      has_upd = lookup-later s k u updated n ∙ h.has_upd;
      has_snapshot = lookup-later s k t cache n ∙ h.has_snapshot;
      earlier = h.earlier;
      earlier_cache = h.earlier_cache;
      disk = h.disk;
      disk_after = h.disk_after;
      history = h.history;
      is_ready = h.is_ready;
      work = h.work;
    }

    first-IsWorked :
        {updated : Dict Stage Bool} {cache : Dict Stage Snapshot} {w w' : b.World} (s : Stage)
        (snapshot : Snapshot) (upd : Bool)
        → History index first updated cache w
        → AreReady index s upd updated
        → Work s snapshot upd w w'
        → IsWorked index first ((s, upd) ∷ updated) ((s, snapshot) ∷ cache) s
    first-IsWorked {updated} {cache} s snapshot upd h ready work = record {
      upd = upd;
      snapshot = snapshot;
      has_upd = lookup-first s upd updated;
      has_snapshot = lookup-first s snapshot cache;
      earlier = _;
      earlier_cache = _;
      disk = _;
      disk_after = _;
      history = h;
      is_ready = ready;
      work = work;
    }

    -- Each stage of the map was worked on.
    pub History-IsWorked :
        {updated : Dict Stage Bool} {cache : Dict Stage Snapshot} {w : b.World}
        → History index first updated cache w
        → (s : Stage) → contains s (keys updated) ≡ true
        → IsWorked index first updated cache s
    unfolding keys
    History-IsWorked at_start s i = absurd (contains-nil s i)
    History-IsWorked (worked {updated = updated} {cache = cache} k snapshot upd h new_ ready work) s
          i =
        elim (stage_Eq.dec s k) [
          | yes p ↦
              subst (IsWorked index first ((k, upd) ∷ updated) ((k, snapshot) ∷ cache)) (sym p)
                (first-IsWorked k snapshot upd h ready work)
          | no n ↦
              earlier-IsWorked updated cache k s upd snapshot n
                (History-IsWorked h s (contains-tail s k (keys updated) n i))
        ]
