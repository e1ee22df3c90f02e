-- ===== src/Archive/Repository/WellFormed.antt =====
-- The invariant of the repository of bacs/archive/src/lib/repository_impl.cpp: every name in it passes
-- the validation, which flags_ and existing_ repeat whenever they read a directory.
use bacs.Base.{
  Str, ◌≡◌, refl, true, not, ◌&&◌, Option, none, some, List, [], ◌∷◌, map, ok, arith, all, All,
  ◌==◌, list_Eq, nat_Eq, contains, insert, and-eq-true, inl, inr, Bool-cases,
}
use bacs.Base.Dict.{Dict, assign, lookup}
use bacs.Pm.Entry.{is_allowed_subpath}
use bacs.Archive.Flag.{is_allowed_flag, is_allowed_id, validate_flag, validate_id, flag_cast}
use bacs.Archive.Storage.{Problem, Repository, find_problem, put_problem, add_flag, read_flags}
use bacs.Archive.Repository.{
  pending_name, Env, upload, uploaded, store_upload, post_import, is_locked,
}
use bacs.Archive.Repository.Requests.{AllowedFlags, all-insert, continue-ind, request-ind}
use bacs.Archive.Repository.Access.{Request, request}

allowed-validate_flag : (flag : Str) → is_allowed_flag flag ≡ true → validate_flag flag ≡ ok tt
unfolding validate_flag
allowed-validate_flag flag h = ground arith

read_flags-allowed :
    (flags : List Str)
    → all is_allowed_flag flags ≡ true
    → read_flags flags ≡ ok (map flag_cast flags)
unfolding read_flags
read_flags-allowed [] h = refl
read_flags-allowed (f ∷ flags) h =
    let (hf, hs) = and-eq-true (is_allowed_flag f) (all is_allowed_flag flags) h in
    rw (allowed-validate_flag f hf, read_flags-allowed flags hs)

-- Every id and every flag in the repository is allowed.
abbrev pub IsWellFormed : {P : Type 0} → Repository P → Type 0
IsWellFormed s = All (λ e. (is_allowed_id e.0 ≡ true) × AllowedFlags e.1) s.problems

allowed_lookup :
    {P : Type 0} (id : Str) (d : Dict Str (Problem P)) (p : Problem P)
    → All (λ e. (is_allowed_id e.0 ≡ true) × AllowedFlags e.1) d
    → lookup id d ≡ some p
    → AllowedFlags p
unfolding lookup
allowed_lookup id [] p h k = cc
allowed_lookup id ((j, q) ∷ d) p h k = elim (Bool-cases (id == j)) [
  | inl y ↦ let e : some q ≡ some p = rw (lookup, y) at k in let e' : q ≡ p = cc in rw (← e') h.0.1
  | inr n ↦ allowed_lookup id d p h.1 (rw (lookup, n) at k)
]

pub validate_id-allowed : (id : Str) → validate_id id ≡ ok tt → is_allowed_id id ≡ true
unfolding validate_id
validate_id-allowed id h = ground arith

module _ {P : Type 0} where
  pub find-AllowedFlags :
      (s : Repository P) (id : Str) (p : Problem P)
      → IsWellFormed s
      → find_problem id s ≡ some p
      → AllowedFlags p
  unfolding find_problem
  find-AllowedFlags s id p h k = allowed_lookup id s.problems p h k

  pub put-IsWellFormed :
      (s : Repository P) (id : Str) (p : Problem P)
      → IsWellFormed s
      → is_allowed_id id ≡ true
      → AllowedFlags p
      → IsWellFormed (put_problem id p s)
  unfolding put_problem assign
  put-IsWellFormed s id p h k a = ((k, a), h)

  -- Every flag request keeps the repository well-formed.
  pub request-IsWellFormed :
      (seen s : Repository P) (id : Str) (r : Request)
      → IsWellFormed s
      → IsWellFormed (request seen id r s).1
  request-IsWellFormed seen s id r h = request-ind IsWellFormed seen s id r h λ p p' v e keep.
      put-IsWellFormed s id p' h (validate_id-allowed id v) (keep (find-AllowedFlags s id p h e))

  -- In a well-formed repository the flags of a problem can always be read.
  pub read_flags-ok :
      (s : Repository P) (id : Str) (p : Problem P)
      → IsWellFormed s
      → find_problem id s ≡ some p
      → read_flags p.flags ≡ ok (map flag_cast p.flags)
  read_flags-ok s id p h e = read_flags-allowed p.flags (find-AllowedFlags s id p h e)

  uploaded-AllowedFlags :
      (env : Env P) (location : env.Dir) (old : Option (Problem P))
      → ((p : Problem P) → old ≡ some p → AllowedFlags p)
      → AllowedFlags (uploaded env location old)
  unfolding uploaded add_flag is_allowed_flag is_allowed_subpath insert contains
  uploaded-AllowedFlags env location none h = refl
  uploaded-AllowedFlags env location (some p) h =
      all-insert is_allowed_flag pending_name p.flags refl (h p refl)

  store_upload-IsWellFormed :
      (env : Env P) (s : Repository P) (id : Str) (location : env.Dir)
      → IsWellFormed s
      → is_allowed_id id ≡ true
      → IsWellFormed (store_upload env id location s).1
  unfolding store_upload
  store_upload-IsWellFormed env s id location h a =
      put-IsWellFormed (post_import id s) id (uploaded env location (find_problem id s))
        (unfold post_import in h) a
        (uploaded-AllowedFlags env location (find_problem id s)
          (λ p e. find-AllowedFlags s id p h e))

  -- Every upload keeps the repository well-formed.
  pub upload-IsWellFormed :
      (env : Env P) (seen s : Repository P) (id : Str) (location : env.Dir)
      → IsWellFormed s
      → IsWellFormed (upload env seen id location s).1
  unfolding upload
  upload-IsWellFormed env seen s id location h =
      continue-ind IsWellFormed (validate_id id) _ s h λ u v.
        elim (Bool-cases (env.has_format location)) [
          | inr n ↦ rw n h
          | inl y ↦ elim (Bool-cases (not (is_locked id seen) && not (is_locked id s))) [
            | inr l ↦ rw (y, l) h
            | inl f ↦
                rw (y, f) (store_upload-IsWellFormed env s id location h (validate_id-allowed id v))
          ]
        ]
