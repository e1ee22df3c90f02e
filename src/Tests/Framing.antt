-- ===== src/Tests/Framing.antt =====
-- bunsan/common/include/bunsan/asio/block_connection.hpp: two messages, with a stream that prints and reads
-- the digits of a size by their values, padded with zeros.
use bacs.Base.{
  ℕ, zero, suc, ◌+◌, ◌*◌, ◌/◌, ◌%◌, ◌^◌, ◌<◌, ◌≡◌, refl, ◌∙◌, ap, Str, false, some, [], ◌∷◌, ◌++◌,
  length, length-append, ok, arith, All,
}
use bacs.Asio.BlockConnection.{HexStream, header_size, async_write}
use bacs.Asio.BlockConnection.Blocks.{IsHexStream, sent_all, read_all, read_all-sent_all}

unfoldable digits : ℕ → ℕ → Str
digits zero n = []
digits (suc k) n = digits k (n / 16) ++ n % 16 ∷ []

unfoldable number : ℕ → Str → ℕ
number n [] = n
number n (d ∷ ds) = number (n * 16 + d) ds

length-digits : (k n : ℕ) → length (digits k n) ≡ k
unfolding digits
length-digits zero n = refl
length-digits (suc k) n =
    omega (arith, length-append (digits k (n / 16)) (n % 16 ∷ []), length-digits k (n / 16))

number-snoc : (n d : ℕ) (ds : Str) → number n (ds ++ d ∷ []) ≡ number n ds * 16 + d
unfolding number
number-snoc n d [] = refl
number-snoc n d (e ∷ ds) = number-snoc (n * 16 + e) d ds

power_suc : (k : ℕ) → 16 ^ suc k ≡ 16 * 16 ^ k
power_suc k = omega arith

quotient : (k n : ℕ) → n < 16 ^ suc k → n / 16 < 16 ^ k
quotient k n h = omega (arith, power_suc k)

number-digits : (k n : ℕ) → n < 16 ^ k → number 0 (digits k n) ≡ n
unfolding digits number
number-digits zero n h = omega arith
number-digits (suc k) n h =
    number-snoc 0 (n % 16) (digits k (n / 16))
    ∙ ap (λ x. x * 16 + n % 16) (number-digits k (n / 16) (quotient k n h))
    ∙ omega arith

abbrev plain_hex : HexStream
plain_hex = record { print_hex = digits; read_hex = λ s. some (number 0 s) }

plain_hex-IsHexStream : IsHexStream plain_hex
plain_hex-IsHexStream = record {
  fits = λ n h. length-digits header_size n;
  reads = λ n h. ap some (number-digits header_size n h);
}

short : (n : ℕ) → n < 5 → n < 2 ^ 64
short n h = omega arith

read_all-sent_all_example :
    (read_all plain_hex 2 (sent_all plain_hex ((1 ∷ 2 ∷ []) ∷ [] ∷ []) ++ 9 ∷ [])
      ≡ ok ((1 ∷ 2 ∷ []) ∷ [] ∷ [], 9 ∷ []))
    × All (λ m. (async_write plain_hex m).invalid ≡ false) ((1 ∷ 2 ∷ []) ∷ [] ∷ [])
read_all-sent_all_example =
    read_all-sent_all plain_hex plain_hex-IsHexStream ((1 ∷ 2 ∷ []) ∷ [] ∷ []) (9 ∷ [])
      (short 2 (omega arith), (short 0 (omega arith), tt))
