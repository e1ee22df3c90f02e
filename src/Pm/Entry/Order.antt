-- ===== src/Pm/Entry/Order.antt =====
-- operator< of bunsan/pm/src/lib/entry.cpp, by which `std::set<entry>` and `std::map` order packages.
use bacs.Base.{Str, ◌≡◌, refl, true, false, List, [], ◌∷◌, arith}
use bacs.Pm.Entry.{Entry, str_lt, location_lt, entry_lt}

pub str_lt_irrefl : (s : Str) → str_lt s s ≡ false
unfolding str_lt
str_lt_irrefl [] = refl
str_lt_irrefl (c ∷ s) = ground (arith, str_lt_irrefl s)

pub str_lt_total : (s t : Str) → str_lt s t ≡ false → str_lt t s ≡ false → s ≡ t
unfolding str_lt
str_lt_total [] [] h k = refl
str_lt_total [] (d ∷ t) h k = ground arith
str_lt_total (c ∷ s) [] h k = ground arith
str_lt_total (c ∷ s) (d ∷ t) h k = ground (arith, str_lt_total s t)

pub str_lt_trans : (s t u : Str) → str_lt s t ≡ true → str_lt t u ≡ true → str_lt s u ≡ true
unfolding str_lt
str_lt_trans s [] u h k = ground arith
str_lt_trans s (d ∷ t) [] h k = ground arith
str_lt_trans [] (d ∷ t) (e ∷ u) h k = ground arith
str_lt_trans (c ∷ s) (d ∷ t) (e ∷ u) h k = ground (arith, str_lt_trans s t u)

str_lt_asymm : (s t : Str) → str_lt s t ≡ true → str_lt t s ≡ false
str_lt_asymm s t h = ground (arith, str_lt_trans s t s, str_lt_irrefl s)

location_lt_irrefl : (s : List Str) → location_lt s s ≡ false
unfolding location_lt
location_lt_irrefl [] = refl
location_lt_irrefl (c ∷ s) = ground (arith, location_lt_irrefl s, str_lt_irrefl c)

location_lt_total : (s t : List Str) → location_lt s t ≡ false → location_lt t s ≡ false → s ≡ t
unfolding location_lt
location_lt_total [] [] h k = refl
location_lt_total [] (d ∷ t) h k = ground arith
location_lt_total (c ∷ s) [] h k = ground arith
location_lt_total (c ∷ s) (d ∷ t) h k = ground (arith, location_lt_total s t, str_lt_total c d)

location_lt_trans :
    (s t u : List Str) → location_lt s t ≡ true → location_lt t u ≡ true → location_lt s u ≡ true
unfolding location_lt
location_lt_trans s [] u h k = ground arith
location_lt_trans s (d ∷ t) [] h k = ground arith
location_lt_trans [] (d ∷ t) (e ∷ u) h k = ground arith
location_lt_trans (c ∷ s) (d ∷ t) (e ∷ u) h k = ground (
  arith,
  location_lt_trans s t u,
  str_lt_trans c d e,
  str_lt_asymm c d,
  str_lt_asymm d e,
  str_lt_asymm c e,
  str_lt_total c d,
  str_lt_total d e,
  str_lt_total c e,
)

pub entry_lt_irrefl : (a : Entry) → entry_lt a a ≡ false
unfolding entry_lt
entry_lt_irrefl a = location_lt_irrefl a.location

-- `operator<` on entries is transitive.
pub entry_lt_trans :
    (a b c : Entry) → entry_lt a b ≡ true → entry_lt b c ≡ true → entry_lt a c ≡ true
unfolding entry_lt
entry_lt_trans a b c = location_lt_trans a.location b.location c.location

-- Two entries of which neither is less than the other are equal.
pub entry_lt_total : (a b : Entry) → entry_lt a b ≡ false → entry_lt b a ≡ false → a ≡ b
unfolding entry_lt
entry_lt_total a b h k i = record { location = location_lt_total a.location b.location h k i }
