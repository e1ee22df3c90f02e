-- ===== src/Pm/Entry/Absolute.antt =====
-- make_absolute of bunsan/pm/src/lib/entry.cpp: names without "." and "..".
use bacs.Base.{
  Str, ◌≡◌, ◌≢◌, refl, sym, ap, ◌∙◌, false, inl, inr, Bool-cases, List, [], ◌∷◌, ◌++◌, arith, All,
  All-append, All-map, ==_refl, ==_ne, list_Eq, nat_Eq, append_assoc, append-nil,
}
use bacs.Pm.Entry.{
  Entry, dot, dot_dot, pop_back, resolve_step, resolve, is_relative, absolute_location,
  make_absolute,
}

-- No component is "." or "..".
abbrev pub IsResolved : List Str → Type 0
IsResolved = All (λ c. (c ≢ dot) × (c ≢ dot_dot))

pub pop_back-append : (xs : List Str) (x : Str) → pop_back (xs ++ x ∷ []) ≡ xs
unfolding pop_back
pop_back-append [] x = refl
pop_back-append (y ∷ []) x = refl
pop_back-append (y ∷ z ∷ r) x = ap (λ t. y ∷ t) (pop_back-append (z ∷ r) x)

All-pop_back {ℓ} : (P : Str → Type ℓ) (xs : List Str) → All P xs → All P (pop_back xs)
unfolding pop_back
All-pop_back P [] h = tt
All-pop_back P (x ∷ []) h = tt
All-pop_back P (x ∷ y ∷ r) h = (h.0, All-pop_back P (y ∷ r) h.1)

pub resolve_step-name :
    (location : List Str) (e : Str)
    → (e ≢ dot) × (e ≢ dot_dot)
    → resolve_step location e ≡ location ++ e ∷ []
unfolding resolve_step
resolve_step-name location e h = ground arith

pub resolve_step-dot_dot : (location : List Str) → resolve_step location dot_dot ≡ pop_back location
unfolding resolve_step
resolve_step-dot_dot location = rw (==_ne dot_dot dot (λ p. cc), ==_refl dot_dot) refl

resolve_step-All {ℓ} :
    (P : Str → Type ℓ) (location : List Str) (e : Str)
    → All P location
    → (e ≢ dot → e ≢ dot_dot → P e)
    → All P (resolve_step location e)
unfolding resolve_step
resolve_step-All P location e h p = elim (list_Eq.dec e dot) [
  | yes q ↦ rw (q, ==_refl dot) h
  | no n ↦ elim (list_Eq.dec e dot_dot) [
    | yes q ↦
        rw (q, ==_ne dot_dot dot (λ r. n (q ∙ r)), ==_refl dot_dot) (All-pop_back P location h)
    | no m ↦ rw (==_ne e dot n, ==_ne e dot_dot m) (All-append P location (e ∷ []) h (p n m, tt))
  ]
]

-- A property of the components that "." and ".." need not have: it holds after the loop.
pub resolve-All {ℓ} :
    (P : Str → Type ℓ) (location rest : List Str)
    → All P location
    → All (λ c. c ≢ dot → c ≢ dot_dot → P c) rest
    → All P (resolve location rest)
unfolding resolve
resolve-All P location [] h k = h
resolve-All P location (e ∷ rest) h k =
    resolve-All P (resolve_step location e) rest (resolve_step-All P location e h k.0) k.1

pub resolve-append :
    (location xs ys : List Str) → resolve location (xs ++ ys) ≡ resolve (resolve location xs) ys
unfolding resolve
resolve-append location [] ys = refl
resolve-append location (e ∷ xs) ys = resolve-append (resolve_step location e) xs ys

pub resolve_resolved :
    (location rest : List Str) → IsResolved rest → resolve location rest ≡ location ++ rest
unfolding resolve
resolve_resolved location [] h = sym (append-nil location)
resolve_resolved location (e ∷ rest) h =
    rw (resolve_step-name location e h.0, resolve_resolved (location ++ e ∷ []) rest h.1)
      (append_assoc location (e ∷ []) rest)

names_only : (xs : List Str) → All (λ c. c ≢ dot → c ≢ dot_dot → (c ≢ dot) × (c ≢ dot_dot)) xs
names_only [] = tt
names_only (x ∷ xs) = ((λ n m. (n, m)), names_only xs)

-- The first component of a resolved name is no "." or "..".
is_relative-IsResolved : (xs : List Str) → IsResolved xs → is_relative xs ≡ false
unfolding is_relative
is_relative-IsResolved [] h = refl
is_relative-IsResolved (x ∷ xs) h = rw (==_ne x dot h.0.0, ==_ne x dot_dot h.0.1)

absolute_location-All {ℓ} :
    (P : Str → Type ℓ) (xs root : List Str)
    → All (λ c. c ≢ dot → c ≢ dot_dot → P c) xs
    → All (λ c. c ≢ dot → c ≢ dot_dot → P c) root
    → All P (absolute_location xs root)
unfolding absolute_location
absolute_location-All P [] root h k = tt
absolute_location-All P (x ∷ xs) root h k = elim (Bool-cases (is_relative (x ∷ xs))) [
  | inl r ↦ rw r (resolve-All P [] (root ++ x ∷ xs) tt (All-append _ root (x ∷ xs) k h))
  | inr r ↦ rw r (resolve-All P [] (x ∷ xs) tt h)
]

-- make_absolute leaves no component "." or "..", whatever the entry and the root hold.
pub make_absolute-IsResolved : (e root : Entry) → IsResolved (make_absolute e root).location
unfolding make_absolute
make_absolute-IsResolved e root =
    absolute_location-All _ e.location root.location (names_only _) (names_only _)

-- Every component of the absolute name other than "." and ".." comes from the entry or the root:
-- a property of those is a property of the result.
pub make_absolute-All {ℓ} :
    (P : Str → Type ℓ) (e root : Entry)
    → All P e.location
    → All P root.location
    → All P (make_absolute e root).location
unfolding make_absolute
make_absolute-All P e root h k =
    absolute_location-All P e.location root.location (All-map _ _ e.location (λ c p _ _. p) h)
      (All-map _ _ root.location (λ c p _ _. p) k)

absolute_location_resolved : (xs root : List Str) → IsResolved xs → absolute_location xs root ≡ xs
unfolding absolute_location
absolute_location_resolved [] root h = refl
absolute_location_resolved (x ∷ xs) root h =
    rw (is_relative-IsResolved (x ∷ xs) h) (resolve_resolved [] (x ∷ xs) h)

-- An entry without "." and ".." is left as it is.
pub make_absolute_resolved : (e root : Entry) → IsResolved e.location → make_absolute e root ≡ e
unfolding make_absolute
make_absolute_resolved e root h i = record {
  location = absolute_location_resolved e.location root.location h i;
}

-- Making a name absolute a second time, against any root, changes nothing.
pub make_absolute_idem :
    (e root other : Entry) → make_absolute (make_absolute e root) other ≡ make_absolute e root
make_absolute_idem e root other =
    make_absolute_resolved (make_absolute e root) other (make_absolute-IsResolved e root)

absolute_location-dot_dot :
    (parent : List Str) (c : Str) (rest : List Str)
    → IsResolved (parent ++ c ∷ [])
    → absolute_location (dot_dot ∷ rest) (parent ++ c ∷ []) ≡ resolve parent rest
unfolding absolute_location is_relative
absolute_location-dot_dot parent c rest h =
    rw
      (
        ==_ne dot_dot dot (λ p. cc),
        ==_refl dot_dot,
        resolve-append [] (parent ++ c ∷ []) (dot_dot ∷ rest),
        resolve_resolved [] (parent ++ c ∷ []) h,
      )
      (unfold resolve in rw (resolve_step-dot_dot, pop_back-append parent c))

-- Against a resolved root, "../rest" is the name `rest` read from the root's parent.
pub make_absolute-dot_dot :
    (parent : List Str) (c : Str) (rest : List Str)
    → IsResolved (parent ++ c ∷ [])
    → IsResolved rest
    → make_absolute (record { location = dot_dot ∷ rest }) (record { location = parent ++ c ∷ [] })
      ≡ record { location = parent ++ rest }
unfolding make_absolute
make_absolute-dot_dot parent c rest h k i = record {
  location = (absolute_location-dot_dot parent c rest h ∙ resolve_resolved parent rest k) i;
}
