-- ===== src/Archive/Storage/Hash.antt =====
-- compute_hash_revision of bacs/archive/src/lib/repository_impl.cpp: the bytes of a revision.
use bacs.Base.{
  ℕ, zero, suc, ◌+◌, ◌*◌, ◌^◌, ◌<◌, ◌/◌, Str, ◌≡◌, refl, ap, [], ◌∷◌, arith, length, All,
}
use native.Mathlib.Nat.{pow-zero, pow-suc}
use bacs.Archive.Storage.{low_bytes, compute_hash_revision}

-- The number that a little-endian text of bytes stands for.
pub from_bytes : Str → ℕ
from_bytes [] = 0
from_bytes (b ∷ s) = b + 256 * from_bytes s

length-low_bytes : (size value : ℕ) → length (low_bytes size value) ≡ size
unfolding low_bytes
length-low_bytes zero value = refl
length-low_bytes (suc size) value = ap suc (length-low_bytes size (value / 256))

low_bytes-bound : (size value : ℕ) → All (λ b. b < 256) (low_bytes size value)
unfolding low_bytes
low_bytes-bound zero value = tt
low_bytes-bound (suc size) value = (omega arith, low_bytes-bound size (value / 256))

from_bytes-low_bytes :
    (size value : ℕ) → value < 256 ^ size → from_bytes (low_bytes size value) ≡ value
unfolding low_bytes from_bytes
from_bytes-low_bytes zero value h = let bound : value < 1 = rw pow-zero at h in omega arith
from_bytes-low_bytes (suc size) value h =
    let bound : value < 256 ^ size * 256 = rw pow-suc at h in
    let rest = from_bytes-low_bytes size (value / 256) (omega arith) in omega arith

-- The revision of a file has `size` bytes, each below 256, and stands for the CRC of the file, if
-- that fits `size` bytes.
pub compute_hash_revision_lem :
    (crc : Str → ℕ) (size : ℕ) (file : Str)
    → crc file < 256 ^ size
    → (length (compute_hash_revision crc size file) ≡ size)
      × All (λ b. b < 256) (compute_hash_revision crc size file)
      × (from_bytes (compute_hash_revision crc size file) ≡ crc file)
unfolding compute_hash_revision
compute_hash_revision_lem crc size file h = (
  length-low_bytes size (crc file),
  low_bytes-bound size (crc file),
  from_bytes-low_bytes size (crc file) h,
)
