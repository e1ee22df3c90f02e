-- ===== src/Tests/Algorithms.antt =====
-- A concrete splitter and joiner that has the documented behaviour of Boost's.
use bacs.Base.{
  ℕ, Str, ◌≡◌, refl, Bool, true, false, List, [], ◌∷◌, ◌++◌, arith, ◌==◌, nat_Eq, contains,
}
use bacs.Boost.{StringAlgorithms, IsLawful, NoLead}

first_with : ℕ → List Str → List Str
first_with c [] = (c ∷ []) ∷ []
first_with c (t ∷ ts) = (c ∷ t) ∷ ts

-- `merging` says that the character before was a delimiter.
split_go : ℕ → Bool → Str → List Str
unfolding first_with
split_go d merging [] = [] ∷ []
split_go d merging (c ∷ s) = elim (d == c) [
  | true ↦ elim merging [ true ↦ split_go d true s | false ↦ [] ∷ split_go d true s ]
  | false ↦ first_with c (split_go d false s)
]

join_all : List Str → Str → Str
join_all [] d = []
join_all (t ∷ []) d = t
join_all (t ∷ u ∷ ts) d = t ++ (d ++ join_all (u ∷ ts) d)

unfoldable pub algorithms : StringAlgorithms
unfolding split_go join_all nat_Eq
algorithms = record { split = λ d s. split_go d false s; join = join_all }

go_token : (d : ℕ) (b : Bool) (t : Str) → contains d t ≡ false → split_go d b t ≡ t ∷ []
unfolding split_go contains
go_token d b [] h = refl
go_token d b (c ∷ t) h = ground (arith, go_token d false t)

go_NoLead : (d : ℕ) (s : Str) → NoLead d s → split_go d true s ≡ split_go d false s
unfolding split_go
go_NoLead d [] h = refl
go_NoLead d (c ∷ s) h = ground arith

go_delim :
    (d : ℕ) (t rest : Str)
    → contains d t ≡ false
    → NoLead d rest
    → split_go d false (t ++ d ∷ rest) ≡ t ∷ split_go d false rest
unfolding split_go contains
go_delim d [] rest h k = ground (arith, go_NoLead d rest k)
go_delim d (c ∷ t) rest h k = ground (arith, go_delim d t rest)

go_compress :
    (d : ℕ) (t rest : Str)
    → contains d t ≡ false
    → split_go d false (t ++ d ∷ d ∷ rest) ≡ split_go d false (t ++ d ∷ rest)
unfolding split_go contains
go_compress d [] rest h = ground arith
go_compress d (c ∷ t) rest h = ground (arith, go_compress d t rest)

pub algorithms-IsLawful : IsLawful algorithms
unfolding algorithms
algorithms-IsLawful = record {
  split_token = λ d t. go_token d false t;
  split_delim = go_delim;
  split_compress = go_compress;
  join_nil = λ d. refl;
  join_one = λ t d. refl;
  join_cons = λ t u d ts. refl;
}
