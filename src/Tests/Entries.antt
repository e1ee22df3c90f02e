-- ===== src/Tests/Entries.antt =====
-- bunsan/pm/tests/entry.cpp as runs of the model, and the theorems about entries at concrete names.
use bacs.Base.{Str, codes, ◌≡◌, refl, List, [], ◌∷◌, ok, err, nat_Eq, list_Eq}
use bacs.Pm.Entry.{
  Entry, invalid_entry_name, empty_entry, def_delim, build, name_char, make_absolute,
  remote_resource,
}
use bacs.Pm.Entry.Absolute.{IsResolved, make_absolute-IsResolved}
use bacs.Tests.Algorithms.{algorithms}

abbrev entry : List Str → Entry
entry l = record { location = l }

abbrev root : Entry
root = entry (codes "my" ∷ codes "package" ∷ codes "root" ∷ [])

build_empty : build algorithms (codes "") def_delim ≡ err (invalid_entry_name [])
unfolding build algorithms
build_empty = refl

build_compressed :
    build algorithms (codes "some//long/name") def_delim
    ≡ ok (entry (codes "some" ∷ codes "long" ∷ codes "name" ∷ []))
unfolding build algorithms
build_compressed = refl

name_empty : name_char algorithms (entry []) def_delim ≡ err empty_entry
unfolding name_char
name_empty = refl

absolute_runs :
    (make_absolute (entry (codes "." ∷ codes ".." ∷ codes "entry" ∷ [])) root
      ≡ entry (codes "my" ∷ codes "package" ∷ codes "entry" ∷ []))
    × (make_absolute (entry (codes "hello" ∷ codes ".." ∷ codes "world" ∷ [])) root
        ≡ entry (codes "world" ∷ []))
    × (make_absolute (entry []) root ≡ entry [])
unfolding make_absolute list_Eq nat_Eq
absolute_runs = (refl, refl, refl)

resource_runs :
    remote_resource algorithms
      (entry (codes "some" ∷ codes "name" ∷ []))
      (codes "/repo")
      (codes "res" ∷ [])
    ≡ ok (codes "/repo/some/name/res")
unfolding remote_resource algorithms
resource_runs = refl

abbrev some_name : Entry
some_name = entry (codes "some" ∷ codes "name" ∷ [])

make_absolute-IsResolved_example :
    IsResolved (make_absolute (entry (codes ".." ∷ codes "." ∷ [])) root).location
make_absolute-IsResolved_example =
    make_absolute-IsResolved (entry (codes ".." ∷ codes "." ∷ [])) root
