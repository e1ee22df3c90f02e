-- ===== src/Curl/HeaderSet/Plain.antt =====
-- plain_const_iterator (bunsan/curl/include/bunsan/curl/http/header_set.hpp): it goes over all the lines.
use bacs.Base.{
  ℕ, zero, suc, ◌≤◌, ◌≡◌, refl, sym, ◌∙◌, ap, subst, Str, false, Option, none, some, List, [], ◌∷◌,
  ◌++◌, length, arith,
}
use bacs.Curl.Header.{Header, plain_headers}
use bacs.Curl.HeaderSet.{
  HeaderSet, PlainIterator, is_end, is_inner_end, propagate, normalize, begin_plain, increment,
  dereference, collect,
}

-- The lines of the headers, one header after another.
unfoldable pub lines : List Header → List Str
unfolding plain_headers
lines [] = []
lines (h ∷ hs) = plain_headers h ++ lines hs

-- The lines that the iterator has still to go over.
unfoldable remaining : List Header → List Str → List Str
remaining [] inner = []
remaining (h ∷ rest) inner = inner ++ lines rest

remaining-normalize :
    (outer : List Header) (inner : List Str)
    → remaining (normalize outer inner).outer (normalize outer inner).inner ≡ remaining outer inner
unfolding remaining normalize lines
remaining-normalize [] inner = refl
remaining-normalize (h ∷ rest) (s ∷ inner) = refl
remaining-normalize (h ∷ []) [] = refl
remaining-normalize (h ∷ g ∷ rest) [] = remaining-normalize (g ∷ rest) (plain_headers g)

-- The iterator is at the end, or stands at a line.
abbrev pub IsNormal : PlainIterator → Type 0
IsNormal i = is_end i ≡ false → is_inner_end i ≡ false

pub normalize-IsNormal : (outer : List Header) (inner : List Str) → IsNormal (normalize outer inner)
unfolding normalize
normalize-IsNormal [] inner h = cc
normalize-IsNormal (h ∷ rest) (s ∷ inner) _ = refl
normalize-IsNormal (h ∷ []) [] p = cc
normalize-IsNormal (h ∷ g ∷ rest) [] p = normalize-IsNormal (g ∷ rest) (plain_headers g) p

unfoldable cons_found : Str → Option (List Str) → Option (List Str)
cons_found s o = elim o [ none ↦ none | some rest ↦ some (s ∷ rest) ]

collect-remaining :
    (n : ℕ) (outer : List Header) (inner : List Str)
    → IsNormal (record { outer = outer; inner = inner })
    → length (remaining outer inner) ≤ n
    → collect n (record { outer = outer; inner = inner }) ≡ some (remaining outer inner)
unfolding collect remaining increment dereference cons_found
collect-remaining zero [] inner w b = refl
collect-remaining (suc n) [] inner w b = refl
collect-remaining n (h ∷ rest) [] w b = let q = w refl in cc
collect-remaining zero (h ∷ rest) (s ∷ inner) w b = absurd (omega arith)
collect-remaining (suc n) (h ∷ rest) (s ∷ inner) w b =
    let e = remaining-normalize (h ∷ rest) inner in
    let next = normalize (h ∷ rest) inner in
    let r =
      collect-remaining n next.outer next.inner (normalize-IsNormal (h ∷ rest) inner)
        (subst (λ t. length t ≤ n) (sym e) (omega arith)) in
    ap (cons_found s) (r ∙ ap some e)

remaining-propagate :
    (set : List Header) → remaining (propagate set []).outer (propagate set []).inner ≡ lines set
unfolding remaining propagate lines
remaining-propagate [] = refl
remaining-propagate (h ∷ rest) = refl

-- A loop over plain_headers goes over all the lines of all headers, one header after another, also
-- where headers have no values; it never reads or leaves the end, and it ends after at most as many
-- steps as there are lines.
pub collect-lines :
    (set : HeaderSet) (n : ℕ)
    → length (lines set) ≤ n
    → collect n (begin_plain set) ≡ some (lines set)
unfolding begin_plain
collect-lines set n h =
    let i = propagate set [] in
    let e = remaining-normalize i.outer i.inner ∙ remaining-propagate set in
    let next = normalize i.outer i.inner in
    collect-remaining n next.outer next.inner (normalize-IsNormal i.outer i.inner)
      (subst (λ t. length t ≤ n) (sym e) h)
    ∙ ap some e
