-- ===== src/Archive/Repository/Requests.antt =====
-- A rule for what the requests of bacs/archive/src/lib/repository_impl.cpp do to a repository: they
-- leave it, or put a problem with validated flags in the place of the one asked about.
use bacs.Base.{
  Str, ◌≡◌, refl, Bool, true, some, List, [], ◌∷◌, Result, ok, err, arith, all, list_Eq, nat_Eq, Eq,
  insert, erase, and-eq-true, >>=-eq-ok, if◌then◌else◌,
}
use bacs.Base.Action
use bacs.Archive.Flag.{
  Flag, ArchiveError, is_allowed_flag, validate_flag, validate_flag_set, validate_id,
  flag_to_string,
}
use bacs.Archive.Storage.{Problem, Repository, find_problem, put_problem, add_flag, drop_flag}
use bacs.Archive.Repository.{
  may_be_set, add_flags, drop_flags, drop_if_ignore, drop_user_flags, keep_system_flags,
  is_system_flag, Operation,
}
use bacs.Archive.Repository.Access.{
  Request, set_one, unset_one, set_many, unset_many, clear, request, when_exists-ind,
}

abbrev pub AllowedFlags : {P : Type 0} → Problem P → Type 0
AllowedFlags p = all is_allowed_flag p.flags ≡ true

module _ {A : Type 0} ⦃e : Eq A⦄ (f : A → Bool) where
  pub all-insert : (a : A) (xs : List A) → f a ≡ true → all f xs ≡ true → all f (insert a xs) ≡ true
  unfolding insert
  all-insert a xs h k = ground arith

  pub all-erase : (a : A) (xs : List A) → all f xs ≡ true → all f (erase a xs) ≡ true
  unfolding erase
  all-erase a [] h = refl
  all-erase a (x ∷ xs) h = ground (arith, all-erase a xs)

all-keep_system_flags :
    (f : Str → Bool) (xs : List Str) → all f xs ≡ true → all f (keep_system_flags xs) ≡ true
unfolding keep_system_flags
all-keep_system_flags f [] h = refl
all-keep_system_flags f (x ∷ xs) h = ground (arith, all-keep_system_flags f xs)

validate_flag-allowed : (flag : Str) → validate_flag flag ≡ ok tt → is_allowed_flag flag ≡ true
unfolding validate_flag
validate_flag-allowed flag h = ground arith

ok-allowed :
    (xs names : List Str)
    → ◌≡◌ {A = Result ArchiveError (List Str)} (ok xs) (ok names)
    → all is_allowed_flag xs ≡ true
    → all is_allowed_flag names ≡ true
ok-allowed xs names h k = let e : xs ≡ names = cc in rw (← e) k

validate_flag_set-allowed :
    (flags : List Flag) (names : List Str)
    → validate_flag_set flags ≡ ok names
    → all is_allowed_flag names ≡ true
unfolding validate_flag_set
validate_flag_set-allowed [] names h = ok-allowed [] names h refl
validate_flag_set-allowed (flag ∷ flags) names h =
    let (n, en, h1) = >>=-eq-ok (flag_to_string flag) _ h in
    let (u, eu, h2) = >>=-eq-ok (validate_flag n) _ h1 in
    let (rest, er, h3) = >>=-eq-ok (validate_flag_set flags) _ h2 in
    ok-allowed (n ∷ rest) names h3
      (rw (validate_flag-allowed n eu, validate_flag_set-allowed flags rest er))

module _ {P : Type 0} where
  add_flags-AllowedFlags :
      (names : List Str) (p : Problem P)
      → all is_allowed_flag names ≡ true
      → AllowedFlags p
      → AllowedFlags (add_flags names p)
  unfolding add_flags
  add_flags-AllowedFlags [] p h k = k
  add_flags-AllowedFlags (n ∷ names) p h k =
      add_flags-AllowedFlags names (add_flag n p) (and-eq-true _ _ h).1
        (unfold add_flag in all-insert is_allowed_flag n p.flags (and-eq-true _ _ h).0 k)

  drop_flags-AllowedFlags :
      (names : List Str) (p : Problem P) → AllowedFlags p → AllowedFlags (drop_flags names p)
  unfolding drop_flags
  drop_flags-AllowedFlags [] p k = k
  drop_flags-AllowedFlags (n ∷ names) p k =
      drop_flags-AllowedFlags names (if is_system_flag n then p else drop_flag n p)
        (unfold drop_flag in ground (arith, all-erase is_allowed_flag n p.flags k))

  drop_if_ignore-AllowedFlags :
      (flag : Str) (p : Problem P) → AllowedFlags p → AllowedFlags (drop_if_ignore flag p)
  unfolding drop_if_ignore
  drop_if_ignore-AllowedFlags flag p k = ground (arith, all-erase is_allowed_flag flag p.flags k)

  -- A guard that throws leaves the state; one that passes hands on its value.
  pub continue-ind {ℓ} :
      {A B : Type 0} (Q : Repository P → Type ℓ) (r : Result ArchiveError A) (f : A → Operation P B)
      (s : Repository P)
      → Q s
      → ((a : A) → r ≡ ok a → Q (f a s).1)
      → Q (Action.continue r f s).1
  continue-ind Q (ok a) f s h k = k a refl
  continue-ind Q (err e) f s h k = h

  -- The rule for requests: what holds of the state, and of it with any problem in the place of the one
  -- asked about that has allowed flags if that one has, holds after the request.
  pub request-ind {ℓ} :
      (Q : Repository P → Type ℓ) (seen s : Repository P) (id : Str) (r : Request)
      → Q s
      → ((p p' : Problem P)
          → validate_id id ≡ ok tt
          → find_problem id s ≡ some p
          → (AllowedFlags p → AllowedFlags p')
          → Q (put_problem id p' s))
      → Q (request seen id r s).1
  unfolding request
  request-ind Q seen s id (set_one flag) h k = continue-ind Q (validate_id id) _ s h λ u vi.
      continue-ind Q (validate_flag flag) _ s h λ v vf.
        continue-ind Q (may_be_set flag) _ s h λ w vw.
          when_exists-ind Q seen s id _ (add_flag flag) h λ p e.
            k p _ vi e (add_flags-AllowedFlags (flag ∷ []) p (rw (validate_flag-allowed flag vf)))
  request-ind Q seen s id (unset_one flag) h k = continue-ind Q (validate_id id) _ s h λ u vi.
      continue-ind Q (validate_flag flag) _ s h λ v vf.
        when_exists-ind Q seen s id _ (drop_if_ignore flag) h
          λ p e. k p _ vi e (drop_if_ignore-AllowedFlags flag p)
  request-ind Q seen s id (set_many flags) h k = continue-ind Q (validate_id id) _ s h λ u vi.
      continue-ind Q (validate_flag_set flags) _ s h λ names v.
        when_exists-ind Q seen s id _ (add_flags names) h λ p e.
          k p _ vi e (add_flags-AllowedFlags names p (validate_flag_set-allowed flags names v))
  request-ind Q seen s id (unset_many flags) h k = continue-ind Q (validate_id id) _ s h λ u vi.
      continue-ind Q (validate_flag_set flags) _ s h λ names v.
        when_exists-ind Q seen s id _ (drop_flags names) h
          λ p e. k p _ vi e (drop_flags-AllowedFlags names p)
  request-ind Q seen s id clear h k = continue-ind Q (validate_id id) _ s h λ u vi.
      when_exists-ind Q seen s id _ drop_user_flags h
        λ p e. k p _ vi e (all-keep_system_flags is_allowed_flag p.flags)
