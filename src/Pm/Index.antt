-- ===== src/Pm/Index.antt =====
-- bunsan/pm/src/lib/index.cpp and bunsan/pm/include/bunsan/pm/index.hpp: what a package is made of.
use bacs.Base.{Str, Bool, true, false, ◌&&◌, List, [], ◌∷◌, insert, list_Eq, nat_Eq, if◌then◌else◌}
use bacs.Pm.Entry.{Entry, entry_lt, make_absolute}

pub record TreeImport : Type 0 where
  pub path : Str
  pub package_ : Entry

pub record LocalImport : Type 0 where
  pub path : Str
  pub source : Str

pub record PackageStage : Type 0 where
  pub import_source : List TreeImport
  pub import_package : List TreeImport
  pub self : List LocalImport

pub record Index : Type 0 where
  pub source : PackageStage
  pub package_ : PackageStage

unfoldable pub is_nil {ℓ} : {A : Type ℓ} → List A → Bool
is_nil [] = true
is_nil (x ∷ xs) = false

-- package_stage::empty
unfoldable pub empty : PackageStage → Bool
unfolding is_nil
empty s = is_nil s.self && is_nil s.import_package && is_nil s.import_source

-- std::set<entry>::insert: the elements stand in the order of `operator<`.
unfoldable pub set_insert : Entry → List Entry → List Entry
set_insert e [] = e ∷ []
set_insert e (x ∷ xs) =
    let rest = set_insert e xs in
    if entry_lt e x then e ∷ x ∷ xs else if entry_lt x e then x ∷ rest else x ∷ xs

unfoldable pub insert_packages : List TreeImport → List Entry → List Entry
unfolding set_insert
insert_packages [] set = set
insert_packages (i ∷ imports) set = insert_packages imports (set_insert i.package_ set)

unfoldable pub insert_entries : List Entry → List Entry → List Entry
unfolding set_insert
insert_entries [] set = set
insert_entries (e ∷ entries) set = insert_entries entries (set_insert e set)

-- package_stage::all and index::all
unfoldable pub stage_all : PackageStage → List Entry
unfolding insert_packages
stage_all s = insert_packages s.import_source (insert_packages s.import_package [])

unfoldable pub all : Index → List Entry
unfolding stage_all insert_entries
all i = insert_entries (stage_all i.package_) (stage_all i.source)

-- index::sources, an unordered set
unfoldable pub insert_sources : List LocalImport → List Str → List Str
insert_sources [] set = set
insert_sources (i ∷ imports) set = insert_sources imports (insert i.source set)

unfoldable pub sources : Index → List Str
unfolding insert_sources
sources i = insert_sources i.package_.self (insert_sources i.source.self [])

-- index::make_absolute, index::absolute
unfoldable pub absolute_imports : Entry → List TreeImport → List TreeImport
absolute_imports root [] = []
absolute_imports root (i ∷ imports) =
    record i { package_ = make_absolute i.package_ root } ∷ absolute_imports root imports

unfoldable pub absolute_stage : Entry → PackageStage → PackageStage
unfolding absolute_imports
absolute_stage root s = record s {
  import_source = absolute_imports root s.import_source;
  import_package = absolute_imports root s.import_package;
}

unfoldable pub absolute : Index → Entry → Index
unfolding absolute_stage
absolute i root = record {
  source = absolute_stage root i.source;
  package_ = absolute_stage root i.package_;
}
