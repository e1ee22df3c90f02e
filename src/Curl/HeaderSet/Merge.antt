-- ===== src/Curl/HeaderSet/Merge.antt =====
-- header_set (bunsan/curl/src/http/header_set.cpp): headers of one name become one header with the values
-- of all of them.
use bacs.Base.{
  ◌≡◌, refl, sym, ◌∙◌, ap, Str, true, false, Option, none, some, List, [], ◌∷◌, ◌++◌, Result, ok,
  ◌>>=◌, ◌==◌, list_Eq, nat_Eq, arith, Option-cases, inl, inr, append_assoc, append-nil,
  if◌then◌else◌,
}
use bacs.Curl.Header.{Header, HttpError, merge}
use bacs.Curl.HeaderSet.{HeaderSet, find_key, modify, merge_insert}

-- The values of a name in a set.
unfoldable pub values_of : Str → HeaderSet → Option (List Str)
unfolding find_key
values_of key set = elim (find_key key set) [ none ↦ none | some h ↦ some h.values ]

unfoldable pub or_empty : Option (List Str) → List Str
or_empty none = []
or_empty (some vs) = vs

-- The headers one after another.
unfoldable pub insert_all : List Header → HeaderSet → Result HttpError HeaderSet
unfolding merge_insert
insert_all [] set = ok set
insert_all (h ∷ hs) set = merge_insert h set >>= insert_all hs

-- What a map from names to values holds after a header was added.
unfoldable pub added : Header → (Str → Option (List Str)) → Str → Option (List Str)
unfolding or_empty
added h m key = if h.name == key then some (or_empty (m key) ++ h.values) else m key

modify-merge :
    (h : Header) (set : HeaderSet) (found : Header)
    → find_key h.name set ≡ some found
    → (set' : HeaderSet) × (modify h.name (λ hdr. merge hdr h) set ≡ ok set')
      × ((key : Str) → values_of key set' ≡ added h (λ k. values_of k set) key)
unfolding find_key modify merge values_of added or_empty
modify-merge h [] found e = cc
modify-merge h (g ∷ set) found e = elim (list_Eq.dec g.name h.name) [
  | yes p ↦ (record g { values = g.values ++ h.values } ∷ set, ground arith, λ key. ground arith)
  | no n ↦
      let (set', m, v) = modify-merge h set found (ground arith) in
      (g ∷ set', ground arith, λ key. ground (arith, v key))
]

values_of-snoc :
    (h : Header) (set : HeaderSet)
    → find_key h.name set ≡ none
    → (key : Str) → values_of key (set ++ h ∷ []) ≡ added h (λ k. values_of k set) key
unfolding find_key values_of added or_empty
values_of-snoc h [] e key = ground arith
values_of-snoc h (g ∷ set) e key = ground (arith, values_of-snoc h set (ground arith) key)

merge_insert_lem :
    (h : Header) (set : HeaderSet)
    → (set' : HeaderSet) × (merge_insert h set ≡ ok set')
      × ((key : Str) → values_of key set' ≡ added h (λ k. values_of k set) key)
unfolding merge_insert
merge_insert_lem h set = elim (Option-cases (find_key h.name set)) [
  | inl p ↦ (set ++ h ∷ [], ground arith, values_of-snoc h set p)
  | inr (found, p) ↦ let (set', m, v) = modify-merge h set found p in (set', ground (arith, m), v)
]

-- The values of all the headers.
unfoldable pub all_values : List Header → List Str
all_values [] = []
all_values (h ∷ hs) = h.values ++ all_values hs

-- The headers that have the name.
unfoldable pub having : Str → List Header → List Header
having key [] = []
having key (h ∷ hs) =
    let rest = having key hs in elim (h.name == key) [ true ↦ h ∷ rest | false ↦ rest ]

unfoldable joined : Option (List Str) → List Header → Option (List Str)
unfolding or_empty
joined o [] = o
joined o (h ∷ hs) = joined (some (or_empty o ++ h.values)) hs

joined_step :
    (h : Header) (hs : List Header) (key : Str) (set set1 : HeaderSet)
    → values_of key set1 ≡ added h (λ k. values_of k set) key
    → joined (values_of key set1) (having key hs) ≡ joined (values_of key set) (having key (h ∷ hs))
unfolding joined having added
joined_step h hs key set set1 v = ground arith

insert_all_lem :
    (hs : List Header) (set : HeaderSet)
    → (set' : HeaderSet) × (insert_all hs set ≡ ok set')
      × ((key : Str) → values_of key set' ≡ joined (values_of key set) (having key hs))
unfolding insert_all joined having
insert_all_lem [] set = (set, refl, λ key. refl)
insert_all_lem (h ∷ hs) set =
    let (set1, m, v) = merge_insert_lem h set in
    let (set2, n, w) = insert_all_lem hs set1 in
    (
      set2,
      ap (λ r. r >>= insert_all hs) m ∙ n,
      λ key. w key ∙ joined_step h hs key set set1 (v key),
    )

joined-some : (vs : List Str) (hs : List Header) → joined (some vs) hs ≡ some (vs ++ all_values hs)
unfolding joined or_empty all_values
joined-some vs [] = ap some (sym (append-nil vs))
joined-some vs (h ∷ hs) =
    joined-some (vs ++ h.values) hs ∙ ap some (append_assoc vs h.values (all_values hs))

-- What the headers of one name amount to.
unfoldable pub united : List Header → Option (List Str)
united [] = none
united (h ∷ hs) = some (all_values (h ∷ hs))

joined-none : (hs : List Header) → joined none hs ≡ united hs
unfolding joined or_empty united all_values
joined-none [] = refl
joined-none (h ∷ hs) = joined-some h.values hs

-- Headers that are put into an empty set one after another never raise an exception, and the set then
-- has a name exactly if one of the headers has it, with the values of all the headers of this name, in
-- their order.
pub insert_all-united :
    (hs : List Header)
    → (set : HeaderSet) × (insert_all hs [] ≡ ok set)
      × ((key : Str) → values_of key set ≡ united (having key hs))
unfolding values_of find_key
insert_all-united hs =
    let (set, m, v) = insert_all_lem hs [] in (set, m, λ key. v key ∙ joined-none (having key hs))
