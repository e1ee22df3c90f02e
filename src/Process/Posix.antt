-- ===== src/Process/Posix.antt =====
-- The system calls of bunsan/process/src/process/file/handle.cpp (open, close, fcntl, dup3), as an
-- interface: what they return and how they change the descriptors of the process, as their manual
-- pages have it. `K` is the state of the kernel, `F` an open file description.
use bacs.Base.{ℕ, ◌%◌, Str, ◌≡◌, Bool, true, false, Option, none, some, ◌==◌, nat_Eq}

pub data Access : Type 0 where
  read_only write_only read_write : Access

-- The flags and the mode that are given to open.
pub record OpenFlags : Type 0 where
  pub access : Access
  pub create : Bool
  pub truncate : Bool
  pub append : Bool
  pub close_on_exec : Bool
  pub mode : Option ℕ

-- A descriptor: the file it stands for, and its flag FD_CLOEXEC.
pub record Descriptor (F : Type 0) : Type 0 where
  pub file : F
  pub close_on_exec : Bool

-- A call that returns a descriptor has none if it fails; the others return whether they succeed.
-- get_fl and set_fd are the commands F_GETFL and F_SETFD of fcntl on 32-bit numbers, get_fl of a bad
-- descriptor is -1.
pub record Posix (K F : Type 0) : Type 0 where
  pub descriptor : ℕ → K → Option (Descriptor F)
  pub sys_open : Str → OpenFlags → K → Option ℕ × K
  pub sys_close : ℕ → K → Bool × K
  pub dup_cloexec : ℕ → K → Option ℕ × K
  pub dup3 : ℕ → ℕ → K → Option ℕ × K
  pub get_fl : ℕ → K → ℕ
  pub set_fd : ℕ → ℕ → K → Bool × K

-- A flag as a bit.
abbrev pub bit : Bool → ℕ
bit true = 1
bit false = 0

module _ {K F : Type 0} (posix : Posix K F) where
  -- Two kernels in which all descriptors but one are the same.
  abbrev pub SameBut : ℕ → K → K → Type 0
  SameBut n k k' =
      (m : ℕ)
      → (m == n) ≡ false
      → ◌≡◌ {A = Option (Descriptor F)} (posix.descriptor m k') (posix.descriptor m k)

  -- What the calls do.
  pub record IsLawful : Type 0 where
    -- open takes a descriptor that is free.
    pub open_free :
        {path : Str} {flags : OpenFlags} {k k' : K} {n : ℕ}
        → posix.sys_open path flags k ≡ (some n, k')
        → posix.descriptor n k ≡ none
    pub open_new :
        {path : Str} {flags : OpenFlags} {k k' : K} {n : ℕ}
        → posix.sys_open path flags k ≡ (some n, k')
        → (f : F) × (posix.descriptor n k'
            ≡ some (record { file = f; close_on_exec = flags.close_on_exec }))
    pub open_others :
        {path : Str} {flags : OpenFlags} {k k' : K} {n : ℕ}
        → posix.sys_open path flags k ≡ (some n, k')
        → SameBut n k k'
    pub open_failed :
        {path : Str} {flags : OpenFlags} {k k' : K}
        → posix.sys_open path flags k ≡ (none, k')
        → (m : ℕ) → posix.descriptor m k' ≡ posix.descriptor m k
    -- close frees the descriptor, also where it reports an error.
    pub close_free : (n : ℕ) (k : K) → posix.descriptor n (posix.sys_close n k).1 ≡ none
    pub close_others : (n : ℕ) (k : K) → SameBut n k (posix.sys_close n k).1
    -- A duplicate stands for the same file.
    pub dup_free :
        {old n : ℕ} {k k' : K}
        → posix.dup_cloexec old k ≡ (some n, k')
        → posix.descriptor n k ≡ none
    pub dup_new :
        {old n : ℕ} {k k' : K}
        → posix.dup_cloexec old k ≡ (some n, k')
        → (d : Descriptor F) × (posix.descriptor old k ≡ some d)
          × (posix.descriptor n k' ≡ some (record { file = d.file; close_on_exec = true }))
    pub dup_others :
        {old n : ℕ} {k k' : K} → posix.dup_cloexec old k ≡ (some n, k') → SameBut n k k'
    pub dup_failed :
        {old : ℕ} {k k' : K}
        → posix.dup_cloexec old k ≡ (none, k')
        → (m : ℕ) → posix.descriptor m k' ≡ posix.descriptor m k
    -- dup3 closes the descriptor that it is to return, if that is in use.
    pub dup3_result : {old new_ n : ℕ} {k k' : K} → posix.dup3 old new_ k ≡ (some n, k') → n ≡ new_
    pub dup3_new :
        {old new_ n : ℕ} {k k' : K}
        → posix.dup3 old new_ k ≡ (some n, k')
        → (d : Descriptor F) × (posix.descriptor old k ≡ some d)
          × (posix.descriptor new_ k' ≡ some (record { file = d.file; close_on_exec = true }))
    pub dup3_others :
        {old new_ n : ℕ} {k k' : K} → posix.dup3 old new_ k ≡ (some n, k') → SameBut new_ k k'
    pub dup3_failed :
        {old new_ : ℕ} {k k' : K}
        → posix.dup3 old new_ k ≡ (none, k')
        → (m : ℕ) → posix.descriptor m k' ≡ posix.descriptor m k
    -- F_SETFD reads the lowest bit, which is FD_CLOEXEC; the status flags stay.
    pub set_fd_new :
        {n flags : ℕ} {k k' : K}
        → posix.set_fd n flags k ≡ (true, k')
        → (d : Descriptor F) × (posix.descriptor n k ≡ some d)
          × (posix.descriptor n k'
              ≡ some (record { file = d.file; close_on_exec = (flags % 2) == 1 }))
    pub set_fd_others : {n flags : ℕ} (k : K) → SameBut n k (posix.set_fd n flags k).1
    pub set_fd_failed :
        {n flags : ℕ} {k k' : K}
        → posix.set_fd n flags k ≡ (false, k')
        → (m : ℕ) → posix.descriptor m k' ≡ posix.descriptor m k
    pub set_fd_status :
        (m n flags : ℕ) (k : K) → posix.get_fl m (posix.set_fd n flags k).1 ≡ posix.get_fl m k
