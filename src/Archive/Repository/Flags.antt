-- ===== src/Archive/Repository/Flags.antt =====
-- What the operations on flags of bacs/archive/src/lib/repository_impl.cpp do to the flags.
use bacs.Base.{
  Str, ◌≡◌, ◌≢◌, refl, false, not, ◌&&◌, ◌||◌, List, [], ◌∷◌, ok, arith, ◌==◌, ==_refl, ==_ne,
  list_Eq, nat_Eq, inl, inr, Bool-cases, contains, contains-insert, contains-erase,
}
use bacs.Archive.Flag.{Flag, validate_flag, validate_flag_set, validate_flag-reserved, ignore}
use bacs.Archive.Storage.{StatusResult, Problem, Repository, has_file, add_flag, drop_flag}
use bacs.Archive.Repository.{
  has_flag, when_exists, edit, set_flag, set_flags, unset_flag, unset_flags, clear_flags, add_flags,
  drop_flags, drop_if_ignore, drop_user_flags, keep_system_flags, is_system_flag, ignore_name,
  pending_name,
}
use bacs.Archive.Repository.Access.{IsGranted, when_exists-edit}

contains-keep_system_flags :
    (g : Str) (flags : List Str)
    → contains g (keep_system_flags flags) ≡ (contains g flags && is_system_flag g)
unfolding contains keep_system_flags
contains-keep_system_flags g [] = refl
contains-keep_system_flags g (flag ∷ flags) = ground (arith, contains-keep_system_flags g flags)

module _ {P : Type 0} where
  has_file-add_flags :
      (g : Str) (names : List Str) (p : Problem P)
      → has_file g (add_flags names p) ≡ (contains g names || has_file g p)
  unfolding has_file add_flags contains
  has_file-add_flags g [] p = refl
  has_file-add_flags g (flag ∷ names) p =
      ground (arith, has_file-add_flags g names (add_flag flag p), contains-insert flag g p.flags)

  has_file-drop_flags :
      (g : Str) (names : List Str) (p : Problem P)
      → has_file g (drop_flags names p)
        ≡ (has_file g p && (is_system_flag g || not (contains g names)))
  unfolding has_file drop_flags contains
  has_file-drop_flags g [] p = ground arith
  has_file-drop_flags g (flag ∷ names) p = elim (Bool-cases (is_system_flag flag)) [
    | inl y ↦ ground (arith, has_file-drop_flags g names p)
    | inr n ↦
        ground
          (arith, has_file-drop_flags g names (drop_flag flag p), contains-erase flag g p.flags)
  ]

  -- The flags after a granted edit are those of the changed problem.
  has_flag-edit :
      (seen s : Repository P) (id g : Str) (p : Problem P) (missing : StatusResult)
      (change : Problem P → Problem P)
      → IsGranted seen id s p
      → has_flag id g (when_exists seen id missing (edit id change) s).1 ≡ has_file g (change p)
  unfolding has_flag
  has_flag-edit seen s id g p missing change h =
      rw (when_exists-edit seen s id id p missing change h, has_flag, ==_refl id)

  -- A granted set_flag adds the flag and keeps all others.
  pub has_flag-set_flag :
      (seen s : Repository P) (id flag g : Str) (p : Problem P)
      → IsGranted seen id s p
      → validate_flag flag ≡ ok tt
      → flag ≢ pending_name
      → has_flag id g (set_flag seen id flag s).1 ≡ (g == flag || has_file g p)
  unfolding set_flag
  has_flag-set_flag seen s id flag g p h v n =
      rw (h.valid, v, ==_ne flag pending_name n, has_flag-edit seen s id g p _ (add_flag flag) h)
        (unfold has_file in contains-insert flag g p.flags)

  -- A granted set_flags adds the named flags and keeps all others. PENDING_IMPORT is among those that
  -- can be added, unlike with set_flag.
  pub has_flag-set_flags :
      (seen s : Repository P) (id g : Str) (flags : List Flag) (names : List Str) (p : Problem P)
      → IsGranted seen id s p
      → validate_flag_set flags ≡ ok names
      → has_flag id g (set_flags seen id flags s).1 ≡ (contains g names || has_file g p)
  unfolding set_flags
  has_flag-set_flags seen s id g flags names p h v =
      rw (h.valid, v, has_flag-edit seen s id g p _ (add_flags names) h)
        (has_file-add_flags g names p)

  -- A granted unset_flags removes the named flags, but never IGNORE or PENDING_IMPORT.
  pub has_flag-unset_flags :
      (seen s : Repository P) (id g : Str) (flags : List Flag) (names : List Str) (p : Problem P)
      → IsGranted seen id s p
      → validate_flag_set flags ≡ ok names
      → has_flag id g (unset_flags seen id flags s).1
        ≡ (has_file g p && (is_system_flag g || not (contains g names)))
  unfolding unset_flags
  has_flag-unset_flags seen s id g flags names p h v =
      rw (h.valid, v, has_flag-edit seen s id g p _ (drop_flags names) h)
        (has_file-drop_flags g names p)

  -- A granted clear_flags leaves exactly IGNORE and PENDING_IMPORT, where they were set.
  pub has_flag-clear_flags :
      (seen s : Repository P) (id g : Str) (p : Problem P)
      → IsGranted seen id s p
      → has_flag id g (clear_flags seen id s).1 ≡ (has_file g p && is_system_flag g)
  unfolding clear_flags
  has_flag-clear_flags seen s id g p h =
      rw (h.valid, has_flag-edit seen s id g p _ drop_user_flags h)
        (unfold has_file drop_user_flags in contains-keep_system_flags g p.flags)

  -- A granted unset_flag of a flag other than IGNORE removes nothing.
  pub has_flag-unset_flag :
      (seen s : Repository P) (id flag g : Str) (p : Problem P)
      → IsGranted seen id s p
      → validate_flag flag ≡ ok tt
      → flag ≢ ignore_name
      → has_flag id g (unset_flag seen id flag s).1 ≡ has_file g p
  unfolding unset_flag drop_if_ignore
  has_flag-unset_flag seen s id flag g p h v n =
      rw (
        h.valid,
        v,
        has_flag-edit seen s id g p _ (drop_if_ignore flag) h,
        ==_ne flag ignore_name n,
      )

  -- A granted unset_flag of IGNORE removes it, although "it is not possible to remove ignore flag".
  pub has_flag-unset_ignore :
      (seen s : Repository P) (id : Str) (p : Problem P)
      → IsGranted seen id s p
      → has_flag id ignore_name (unset_flag seen id ignore_name s).1 ≡ false
  unfolding unset_flag
  has_flag-unset_ignore seen s id p h =
      rw
        (
          h.valid,
          validate_flag-reserved ignore,
          has_flag-edit seen s id ignore_name p _ (drop_if_ignore ignore_name) h,
        )
        (unfold has_file drop_if_ignore in
          rw (==_refl ignore_name, contains-erase, ==_refl ignore_name))
