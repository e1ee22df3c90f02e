-- ===== src/Pm/Entry/Names.antt =====
-- build, name, operator/ and remote_resource of bunsan/pm/src/lib/entry.cpp: names as texts.
use bacs.Base.{
  ℕ, Str, ◌≡◌, ◌≢◌, refl, ap, ◌∙◌, true, false, List, [], ◌∷◌, ◌++◌, append_assoc, Result, ok, err,
  all, nat_Eq, contains, and-eq-true, inl, inr, Bool-cases, subst, append-nil, ==_ne,
}
use bacs.Boost.{StringAlgorithms, IsLawful, NoLead}
use bacs.Pm.Entry.{
  Entry, EntryError, def_delim, is_allowed_symbol, is_allowed_subpath, ◌/◌, build, join_location,
  name, name_char, ends_with_slash, append_path, remote_resource,
}

-- The names that `build` can make: at least one component, and every component allowed.
pub record IsValid (e : Entry) : Type 0 where
  pub nonempty : e.location ≢ []
  pub allowed : all is_allowed_subpath e.location ≡ true

allowed_ne : (d c : ℕ) → is_allowed_symbol d ≡ false → is_allowed_symbol c ≡ true → d ≢ c
allowed_ne d c nd h p = cc (ap is_allowed_symbol p)

allowed-contains :
    (d : ℕ) (s : Str)
    → is_allowed_symbol d ≡ false
    → all is_allowed_symbol s ≡ true
    → contains d s ≡ false
unfolding contains
allowed-contains d [] nd h = refl
allowed-contains d (c ∷ s) nd h =
    rw (==_ne d c (allowed_ne d c nd (and-eq-true _ _ h).0), contains)
      (allowed-contains d s nd (and-eq-true _ _ h).1)

-- Where a text begins, there begins what is appended to it.
NoLead-append :
    (d : ℕ) (x s : Str)
    → is_allowed_symbol d ≡ false
    → is_allowed_subpath x ≡ true
    → NoLead d (x ++ s)
unfolding is_allowed_subpath
NoLead-append d [] s nd h = cc
NoLead-append d (c ∷ x) s nd h = allowed_ne d c nd (and-eq-true _ _ h).0

module _ (b : StringAlgorithms) (L : IsLawful b) (d : ℕ) (nd : is_allowed_symbol d ≡ false) where
  subpath-contains : (s : Str) → is_allowed_subpath s ≡ true → contains d s ≡ false
  unfolding is_allowed_subpath
  subpath-contains s h = allowed-contains d s nd (and-eq-true _ _ h).1

  NoLead-join :
      (x : Str) (xs : List Str) → is_allowed_subpath x ≡ true → NoLead d (b.join (x ∷ xs) (d ∷ []))
  NoLead-join x [] h = rw L.join_one (rw append-nil at (NoLead-append d x [] nd h))
  NoLead-join x (y ∷ ys) h = rw L.join_cons (NoLead-append d x _ nd h)

  split-join :
      (x : Str) (xs : List Str)
      → all is_allowed_subpath (x ∷ xs) ≡ true
      → b.split d (b.join (x ∷ xs) (d ∷ [])) ≡ x ∷ xs
  split-join x [] h = rw L.join_one (L.split_token d x (subpath-contains x (and-eq-true _ _ h).0))
  split-join x (y ∷ ys) h =
      let hx = (and-eq-true _ _ h).0 in
      let hy = (and-eq-true _ _ h).1 in
      rw L.join_cons (
        L.split_delim d x (b.join (y ∷ ys) (d ∷ [])) (subpath-contains x hx)
          (NoLead-join y ys (and-eq-true _ _ hy).0)
        ∙ ap (λ t. x ∷ t) (split-join y ys hy))

  join_location-build :
      (l : List Str) (s : Str)
      → all is_allowed_subpath l ≡ true
      → join_location b l (d ∷ []) ≡ ok s
      → build b s d ≡ ok (record { location = l })
  unfolding join_location build
  join_location-build [] s v h = cc
  join_location-build (x ∷ xs) s v h =
      let e : b.join (x ∷ xs) (d ∷ []) ≡ s = cc in rw (← e, split-join x xs v, v)

  -- Reading a printed name gives the entry back: `entry(e.name(d), d) == e`, if every component of
  -- `e` is allowed and the delimiter is not an allowed symbol.
  pub build-name :
      (e : Entry) (s : Str)
      → all is_allowed_subpath e.location ≡ true
      → name_char b e d ≡ ok s
      → build b s d ≡ ok e
  unfolding name_char
  build-name e s v h = join_location-build e.location s v h

abbrev OnEntry : Result EntryError Entry → Type 0
OnEntry (ok e) = all is_allowed_subpath e.location ≡ true
OnEntry (err x) = Unit

-- An entry that `build` accepts has allowed components only.
pub build-allowed :
    (b : StringAlgorithms) (n : Str) (d : ℕ) (e : Entry)
    → build b n d ≡ ok e
    → all is_allowed_subpath e.location ≡ true
unfolding build
build-allowed b n d e h = elim (Bool-cases (all is_allowed_subpath (b.split d n))) [
  | inl v ↦ subst (λ r. OnEntry r) h (rw v v)
  | inr v ↦ subst (λ r. OnEntry r) h (rw v tt)
]

module _ (b : StringAlgorithms) (L : IsLawful b) where
  join-append :
      (x y : Str) (xs ys : List Str) (delim : Str)
      → b.join (x ∷ xs ++ y ∷ ys) delim ≡ b.join (x ∷ xs) delim ++ (delim ++ b.join (y ∷ ys) delim)
  join-append x y [] ys delim = rw (L.join_cons, L.join_one)
  join-append x y (z ∷ zs) ys delim = simp (L.join_cons, join-append z y zs ys delim, append_assoc)

  join_location-append :
      (xs ys : List Str) (s t delim : Str)
      → join_location b xs delim ≡ ok s
      → join_location b ys delim ≡ ok t
      → join_location b (xs ++ ys) delim ≡ ok (s ++ (delim ++ t))
  unfolding join_location
  join_location-append [] ys s t delim h k = cc
  join_location-append (x ∷ xs) [] s t delim h k = cc
  join_location-append (x ∷ xs) (y ∷ ys) s t delim h k = cc (join-append x y xs ys delim)

  -- `operator/` concatenates the names, with the delimiter between them.
  pub name-div :
      (x y : Entry) (s t delim : Str)
      → name b x delim ≡ ok s
      → name b y delim ≡ ok t
      → name b (x / y) delim ≡ ok (s ++ (delim ++ t))
  unfolding name ◌/◌
  name-div x y s t delim h k = join_location-append x.location y.location s t delim h k

append_path-append :
    (xs ys : Str) (path : List Str) → append_path (xs ++ ys) path ≡ xs ++ append_path ys path
unfolding append_path
append_path-append xs ys [] = refl
append_path-append xs ys (i ∷ path) =
    rw append_assoc (append_path-append xs (ys ++ (def_delim ∷ i)) path)

ends_with_slash-append : (s : Str) → ends_with_slash (s ++ def_delim ∷ []) ≡ true
unfolding ends_with_slash
ends_with_slash-append [] = refl
ends_with_slash-append (c ∷ []) = refl
ends_with_slash-append (c ∷ d ∷ s) = ends_with_slash-append (d ∷ s)

-- One "/" at the end of the address of the repository makes no difference to the address of a
-- resource.
pub remote_resource-slash :
    (b : StringAlgorithms) (e : Entry) (c : ℕ) (repository : Str) (path : List Str)
    → ends_with_slash (c ∷ repository) ≡ false
    → remote_resource b e (c ∷ repository ++ def_delim ∷ []) path
      ≡ remote_resource b e (c ∷ repository) path
unfolding remote_resource
remote_resource-slash b e c repository path h = rw (ends_with_slash-append (c ∷ repository), h)
