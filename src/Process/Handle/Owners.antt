-- ===== src/Process/Handle/Owners.antt =====
-- handle (bunsan/process/src/process/file/handle.cpp): who is to close which descriptor, when handles are
-- made, moved, swapped, reset, closed and destroyed.
use bacs.Base.{
  is_some, ℕ, ◌≡◌, ◌≢◌, ◌⊎◌, inl, inr, sym, ◌∙◌, Bool, true, false, Option, none, some, Str, ok,
  err, ◌==◌, nat_Eq, arith, if◌then◌else◌,
}
use bacs.Process.Posix.{Posix, OpenFlags}
use bacs.Process.Handle.{
  Handle, HandleError, empty_handle, of_descriptor, make_handle, close, reset, move_assign, dup,
  dup2, open_with, set_inheritable,
}

unfoldable pub owns_fd : Option ℕ → ℕ → Bool
owns_fd none n = false
owns_fd (some m) n = m == n

-- The handle closes the descriptor when it is destroyed.
unfoldable pub owns : Handle → ℕ → Bool
unfolding owns_fd
owns h n = if h.close_ then owns_fd h.fd n else false

-- The handles of a program, by the places where they are.
abbrev pub Handles : Type 0
Handles = ℕ → Handle

abbrev pub place : ℕ → Handle → Handles → Handles
place i h hs = λ j. if j == i then h else hs j

-- Every descriptor that is open is free, which means that it is not the handles' business, or exactly one
-- handle is to close it; and the handles own only such. `own` says which place owns which descriptor.
pub record IsAccounted (free : ℕ → Bool) (own : ℕ → ℕ → Bool) (is_open : ℕ → Bool) : Type 0 where
  pub free_open : (n : ℕ) → free n ≡ true → is_open n ≡ true
  pub owned_open : (i n : ℕ) → own i n ≡ true → is_open n ≡ true
  pub owned_taken : (i n : ℕ) → own i n ≡ true → free n ≡ false
  pub one_owner : (i j n : ℕ) → own i n ≡ true → own j n ≡ true → i ≡ j
  pub known : (n : ℕ) → is_open n ≡ true → (free n ≡ true) ⊎ ((i : ℕ) × (own i n ≡ true))

-- What is not open is owned by none, and not free.
pub closed_unowned :
    (free : ℕ → Bool) (own : ℕ → ℕ → Bool) (op : ℕ → Bool) (i n : ℕ)
    → IsAccounted free own op
    → op n ≡ false
    → own i n ≡ false
closed_unowned free own op i n a c = ground (arith, a.owned_open i n)

pub closed_taken :
    (free : ℕ → Bool) (own : ℕ → ℕ → Bool) (op : ℕ → Bool) (n : ℕ)
    → IsAccounted free own op
    → op n ≡ false
    → free n ≡ false
closed_taken free own op n a c = ground (arith, a.free_open n)

-- Nor is what is free.
pub free_unowned :
    (free : ℕ → Bool) (own : ℕ → ℕ → Bool) (op : ℕ → Bool) (i n : ℕ)
    → IsAccounted free own op
    → free n ≡ true
    → own i n ≡ false
free_unowned free own op i n a f = ground (arith, a.owned_taken i n)

-- A place that owned nothing becomes the owner of a descriptor that no place owned.
pub gain-IsAccounted :
    (free free' : ℕ → Bool) (own own' : ℕ → ℕ → Bool) (op op' : ℕ → Bool) (i n : ℕ)
    → IsAccounted free own op
    → ((m : ℕ) → own i m ≡ false)
    → ((l : ℕ) → own l n ≡ false)
    → ((m : ℕ) → op' m ≡ (if m == n then true else op m))
    → ((m : ℕ) → free' m ≡ (if m == n then false else free m))
    → ((j m : ℕ) → own' j m ≡ (if j == i then n == m else own j m))
    → IsAccounted free' own' op'
gain-IsAccounted free free' own own' op op' i n a nothing unowned opens frees owns' = record {
  free_open = λ m f. ground (arith, opens m, frees m, a.free_open m);
  owned_open = λ j m o. ground (arith, opens m, frees m, owns' j m, a.owned_open j m);
  owned_taken = λ j m o. ground (arith, opens m, frees m, owns' j m, a.owned_taken j m, unowned j);
  one_owner =
      λ j l m o p. ground (arith, owns' j m, owns' l m, a.one_owner j l m, unowned j, unowned l);
  known = λ m o. elim (nat_Eq.dec m n) [
    | yes p ↦ inr (i, ground (arith, owns' i m))
    | no q ↦ elim (a.known m (ground (arith, opens m))) [
      | inl f ↦ inl (ground (arith, frees m))
      | inr (j, o') ↦ inr (j, ground (arith, owns' j m, nothing m))
    ]
  ];
}

-- A place gives up what it owns, and that is closed.
pub lose-IsAccounted :
    (free : ℕ → Bool) (own own' : ℕ → ℕ → Bool) (op op' : ℕ → Bool) (i : ℕ)
    → IsAccounted free own op
    → ((m : ℕ) → op' m ≡ (if own i m then false else op m))
    → ((j m : ℕ) → own' j m ≡ (if j == i then false else own j m))
    → IsAccounted free own' op'
lose-IsAccounted free own own' op op' i a opens owns' = record {
  free_open = λ m f. ground (arith, opens m, a.free_open m, a.owned_taken i m);
  owned_open = λ j m o. ground (arith, opens m, owns' j m, a.owned_open j m, a.one_owner i j m);
  owned_taken = λ j m o. ground (arith, owns' j m, a.owned_taken j m);
  one_owner = λ j l m o p. ground (arith, owns' j m, owns' l m, a.one_owner j l m);
  known = λ m o. elim (a.known m (ground (arith, opens m))) [
    | inl f ↦ inl f
    | inr (j, o') ↦ inr (j, ground (arith, opens m, owns' j m))
  ];
}

-- Two places change what they own.
pub swap-IsAccounted :
    (free : ℕ → Bool) (own own' : ℕ → ℕ → Bool) (op : ℕ → Bool) (i j : ℕ)
    → IsAccounted free own op
    → ((l m : ℕ) → own' l m ≡ (if l == i then own j m else if l == j then own i m else own l m))
    → IsAccounted free own' op
swap-IsAccounted free own own' op i j a owns' = record {
  free_open = a.free_open;
  owned_open =
      λ l m o. ground (arith, owns' l m, a.owned_open l m, a.owned_open i m, a.owned_open j m);
  owned_taken =
      λ l m o. ground (arith, owns' l m, a.owned_taken l m, a.owned_taken i m, a.owned_taken j m);
  one_owner = λ l k m o p. ground (
    arith,
    owns' l m,
    owns' k m,
    a.one_owner l k m,
    a.one_owner l i m,
    a.one_owner l j m,
    a.one_owner i k m,
    a.one_owner j k m,
    a.one_owner i j m,
    a.one_owner j i m,
  );
  known = λ m o. elim (a.known m o) [
    | inl f ↦ inl f
    | inr (l, o') ↦ elim (nat_Eq.dec l i) [
      | yes p ↦ inr (j, ground (arith, owns' j m))
      | no n ↦ elim (nat_Eq.dec l j) [
        | yes p ↦ inr (i, ground (arith, owns' i m))
        | no q ↦ inr (l, ground (arith, owns' l m))
      ]
    ]
  ];
}

module _ {K F : Type 0} (posix : Posix K F) where
  abbrev pub is_open : K → ℕ → Bool
  is_open k n = is_some (posix.descriptor n k)

  -- A call that raises an exception.
  pub data Failed (hs : Handles) (k k' : K) : Type 0 where
    not_opened :
        (flags : OpenFlags) (path : Str) (e : HandleError)
        → open_with posix flags path k ≡ (err e, k')
        → Failed hs k k'
    not_duplicated : (j : ℕ) (e : HandleError) → dup posix (hs j) k ≡ (err e, k') → Failed hs k k'
    not_duplicated_to :
        (j n : ℕ) (e : HandleError) → dup2 posix n (hs j) k ≡ (err e, k') → Failed hs k k'

  -- What the program does to its handles. A new handle takes a place with an empty one.
  pub data Reached : (ℕ → Bool) → Handles → K → Type 0 where
    start :
        {free : ℕ → Bool} {k : K}
        → ((n : ℕ) → is_open k n ≡ free n)
        → Reached free (λ i. empty_handle) k
    opened :
        {free : ℕ → Bool} {hs : Handles} {k k' : K}
        → Reached free hs k
        → (i : ℕ) (flags : OpenFlags) (path : Str) (h : Handle) → (hs i).fd ≡ none
        → open_with posix flags path k ≡ (ok h, k')
        → Reached free (place i h hs) k'
    duplicated :
        {free : ℕ → Bool} {hs : Handles} {k k' : K}
        → Reached free hs k
        → (i j : ℕ) (h : Handle) → (hs i).fd ≡ none
        → dup posix (hs j) k ≡ (ok h, k')
        → Reached free (place i h hs) k'
    -- A descriptor that no handle owned is taken over.
    duplicated_to :
        {free : ℕ → Bool} {hs : Handles} {k k' : K}
        → Reached free hs k
        → (i j n : ℕ) (h : Handle) → (hs i).fd ≡ none
        → ((l : ℕ) → owns (hs l) n ≡ false)
        → dup2 posix n (hs j) k ≡ (ok h, k')
        → Reached (λ m. if m == n then false else free m) (place i h hs) k'
    adopted :
        {free : ℕ → Bool} {hs : Handles} {k : K}
        → Reached free hs k
        → (i n : ℕ) → (hs i).fd ≡ none
        → free n ≡ true
        → Reached (λ m. if m == n then false else free m) (place i (of_descriptor n) hs) k
    borrowed :
        {free : ℕ → Bool} {hs : Handles} {k : K}
        → Reached free hs k
        → (i n : ℕ) → (hs i).fd ≡ none
        → Reached free (place i (make_handle n false) hs) k
    failed :
        {free : ℕ → Bool} {hs : Handles} {k k' : K}
        → Reached free hs k
        → Failed hs k k'
        → Reached free hs k'
    flagged_ :
        {free : ℕ → Bool} {hs : Handles} {k : K}
        → Reached free hs k
        → (n : ℕ) (inherit : Bool) → Reached free hs (set_inheritable posix inherit n k).1
    reset_ :
        {free : ℕ → Bool} {hs : Handles} {k : K}
        → Reached free hs k
        → (i : ℕ) → Reached free (place i (reset posix (hs i) k).0 hs) (reset posix (hs i) k).1
    closed_ :
        {free : ℕ → Bool} {hs : Handles} {k : K}
        → Reached free hs k
        → (i : ℕ) → (hs i).close_ ≡ true
        → Reached free (place i (close posix (hs i) k).1 hs) (close posix (hs i) k).2
    moved :
        {free : ℕ → Bool} {hs : Handles} {k : K}
        → Reached free hs k
        → (i j : ℕ) → i ≢ j
        → Reached free
            (place i
              (move_assign posix (hs i) (hs j) k).0
              (place j (move_assign posix (hs i) (hs j) k).1 hs))
            (move_assign posix (hs i) (hs j) k).2
    swapped :
        {free : ℕ → Bool} {hs : Handles} {k : K}
        → Reached free hs k
        → (i j : ℕ) → Reached free (place i (hs j) (place j (hs i) hs)) k

pub start-IsAccounted :
    (free : ℕ → Bool) (own : ℕ → ℕ → Bool) (op : ℕ → Bool)
    → ((m : ℕ) → op m ≡ free m)
    → ((j m : ℕ) → own j m ≡ false)
    → IsAccounted free own op
start-IsAccounted free own op same nothing = record {
  free_open = λ m f. same m ∙ f;
  owned_open = λ j m o. ground (arith, nothing j m);
  owned_taken = λ j m o. ground (arith, nothing j m);
  one_owner = λ j l m o p. ground (arith, nothing j m);
  known = λ m o. inl (sym (same m) ∙ o);
}

pub unchanged-IsAccounted :
    (free : ℕ → Bool) (own own' : ℕ → ℕ → Bool) (op op' : ℕ → Bool)
    → IsAccounted free own op
    → ((m : ℕ) → op' m ≡ op m)
    → ((j m : ℕ) → own' j m ≡ own j m)
    → IsAccounted free own' op'
unchanged-IsAccounted free own own' op op' a opens owns' = record {
  free_open = λ m f. ground (arith, opens m, a.free_open m);
  owned_open = λ j m o. ground (arith, opens m, owns' j m, a.owned_open j m);
  owned_taken = λ j m o. ground (arith, owns' j m, a.owned_taken j m);
  one_owner = λ j l m o p. ground (arith, owns' j m, owns' l m, a.one_owner j l m);
  known = λ m o. elim (a.known m (sym (opens m) ∙ o)) [
    | inl f ↦ inl f
    | inr (j, o') ↦ inr (j, owns' j m ∙ o')
  ];
}
