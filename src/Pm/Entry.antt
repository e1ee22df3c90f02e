-- ===== src/Pm/Entry.antt =====
-- bunsan/pm/src/lib/entry.cpp and bunsan/pm/include/bunsan/pm/entry.hpp: a reference to a package,
-- the list of the components of its name.
pub mod Names
pub mod Absolute
pub mod Order
use bacs.Base.{
  ℕ, Str, String, codes, Bool, true, false, not, ◌&&◌, ◌||◌, List, [], ◌∷◌, ◌++◌, Result, ok, err,
  ◌>>=◌, all, leb, ltb, nat_eq, ◌==◌, nat_Eq, list_Eq, Eq, if◌then◌else◌,
}
use bacs.Boost.{StringAlgorithms}

-- The exceptions of entry.cpp.
pub data EntryError : Type 0 where
  invalid_entry_name : Str → EntryError
  empty_entry : EntryError

pub record Entry : Type 0 where
  pub location : List Str

abbrev pub def_delim : ℕ
def_delim = b'/'

unfoldable pub is_allowed_symbol : ℕ → Bool
is_allowed_symbol c =
    (leb b'0' c && leb c b'9')
    || (leb b'a' c && leb c b'z')
    || (leb b'A' c && leb c b'Z')
    || nat_eq c b'_'
    || nat_eq c b'-'
    || nat_eq c b'.'

pub is_empty : Str → Bool
is_empty [] = true
is_empty (c ∷ s) = false

unfoldable pub is_allowed_subpath : Str → Bool
unfolding is_empty is_allowed_symbol
is_allowed_subpath subpath = not (is_empty subpath) && all is_allowed_symbol subpath

-- `empty()`, `operator/`, `operator==` and `operator<` (that of the vectors of strings).
unfoldable pub empty : Entry → Bool
empty e = elim e.location [ [] ↦ true | _ ∷ _ ↦ false ]

infixl 70 ◌/◌
unfoldable pub ◌/◌ : Entry → Entry → Entry
a / b = record { location = a.location ++ b.location }

unfoldable pub str_lt : Str → Str → Bool
str_lt s [] = false
str_lt [] (d ∷ t) = true
str_lt (c ∷ s) (d ∷ t) =
    let rest = str_lt s t in if ltb c d then true else if ltb d c then false else rest

unfoldable pub location_lt : List Str → List Str → Bool
unfolding str_lt
location_lt xs [] = false
location_lt [] (y ∷ ys) = true
location_lt (x ∷ xs) (y ∷ ys) =
    let rest = location_lt xs ys in if str_lt x y then true else if str_lt y x then false else rest

unfoldable pub entry_lt : Entry → Entry → Bool
unfolding location_lt
entry_lt a b = location_lt a.location b.location

location_Eq : Eq (List Str)
unfolding list_Eq nat_Eq
location_Eq = list_Eq

-- `operator==`, decided on the components.
unfoldable pub entry_dec : Discrete Entry
unfolding location_Eq
entry_dec a b = elim ((location_Eq).dec a.location b.location) [
  | yes p ↦ yes (λ i. record { location = p i })
  | no n ↦ no (λ q. n (λ i. (q i).location))
]

instance unfoldable pub entry_Eq : Eq Entry
unfolding entry_dec
entry_Eq = record { dec = entry_dec }

module _ (b : StringAlgorithms) where
  -- `build`, the body of the constructors: every component must be allowed.
  unfoldable pub build : Str → ℕ → Result EntryError Entry
  unfolding is_allowed_subpath
  build name delim =
      let location = b.split delim name in
      if all is_allowed_subpath location
      then ok (record { location = location })
      else err (invalid_entry_name name)

  unfoldable pub join_location : List Str → Str → Result EntryError Str
  join_location [] delim = err empty_entry
  join_location (x ∷ xs) delim = ok (b.join (x ∷ xs) delim)

  unfoldable pub name : Entry → Str → Result EntryError Str
  unfolding join_location
  name e delim = join_location e.location delim

  -- `name(char delim)`
  unfoldable pub name_char : Entry → ℕ → Result EntryError Str
  unfolding name
  name_char e delim = name e (delim ∷ [])

-- `make_absolute`: the loop over the components, and the test of the first one.
abbrev pub dot : Str
dot = codes "."

abbrev pub dot_dot : Str
dot_dot = codes ".."

-- `pop_back`, guarded by `!location.empty()`.
unfoldable pub pop_back : List Str → List Str
pop_back [] = []
pop_back (x ∷ []) = []
pop_back (x ∷ y ∷ r) = x ∷ pop_back (y ∷ r)

-- The body of the loop, and the loop.
unfoldable pub resolve_step : List Str → Str → List Str
unfolding pop_back
resolve_step location e =
    if e == dot then location else if e == dot_dot then pop_back location else location ++ e ∷ []

unfoldable pub resolve : List Str → List Str → List Str
unfolding resolve_step
resolve location [] = location
resolve location (e ∷ rest) = resolve (resolve_step location e) rest

unfoldable pub is_relative : List Str → Bool
is_relative [] = false
is_relative (front ∷ rest) = front == dot || front == dot_dot

unfoldable pub absolute_location : List Str → List Str → List Str
unfolding is_relative resolve
absolute_location [] root = []
absolute_location (front ∷ rest) root =
    resolve [] (if is_relative (front ∷ rest) then root ++ front ∷ rest else front ∷ rest)

unfoldable pub make_absolute : Entry → Entry → Entry
unfolding absolute_location
make_absolute e root = record { location = absolute_location e.location root.location }

-- `remote_resource`; the elements of the path `name_` are given as a list.
unfoldable pub ends_with_slash : Str → Bool
ends_with_slash [] = false
ends_with_slash (c ∷ []) = nat_eq c def_delim
ends_with_slash (c ∷ d ∷ s) = ends_with_slash (d ∷ s)

unfoldable pub append_path : Str → List Str → Str
append_path full [] = full
append_path full (i ∷ path) = append_path (full ++ (def_delim ∷ i)) path

unfoldable pub remote_resource : StringAlgorithms → Entry → Str → List Str → Result EntryError Str
unfolding is_empty ends_with_slash append_path name_char
remote_resource b e repository path =
    let base =
      if not (is_empty repository) && not (ends_with_slash repository)
      then repository ++ def_delim ∷ []
      else repository in
    do own ← name_char b e def_delim; ok (append_path (base ++ own) path)
