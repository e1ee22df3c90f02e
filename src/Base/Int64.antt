-- ===== src/Base/Int64.antt =====
-- `std::time_t` where it is a signed number of 64 bits, whose sums wrap around. Times are after 1970.
use bacs.Base.{ℕ, ◌+◌, ◌-◌, ◌<◌, ◌≡◌, Bool, true, false, ltb, arith, if◌then◌else◌}

-- `negsuc n` is -1 - n.
pub data ℤ : Type 0 where
  pos negsuc : ℕ → ℤ

-- 2 ^ 63
abbrev pub bound : ℕ
bound = 9223372036854775808

-- `duration + time` for a time that is not negative.
unfoldable pub add_time : ℤ → ℕ → ℤ
add_time (pos n) time =
    if ltb (n + time) bound then pos (n + time) else negsuc (bound + bound - (n + time) - 1)
add_time (negsuc n) time = if ltb n time then pos (time - n - 1) else negsuc (n - time)

-- `time > x`
unfoldable pub is_before : ℤ → ℕ → Bool
is_before (pos n) time = ltb n time
is_before (negsuc n) time = true

pub is_before-add_time :
    (n time : ℕ) → n + time < bound → is_before (add_time (pos n) time) time ≡ false
unfolding is_before add_time
is_before-add_time n time h = ground arith

pub is_before-add_time_negsuc : (n time : ℕ) → is_before (add_time (negsuc n) time) time ≡ true
unfolding is_before add_time
is_before-add_time_negsuc n time = ground arith
