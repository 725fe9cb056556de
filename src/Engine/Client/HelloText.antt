-- ===== src/Engine/Client/HelloText.antt =====
-- src/netengine.cpp: the text of a greeting fits its buffer of 64 bytes.
use ebc_node.Base.{
  ℕ, zero, suc, ◌+◌, ◌*◌, ◌/◌, ◌%◌, ◌^◌, ◌≤◌, ◌<◌, ◌≡◌, [], ◌∷◌, arith, length, length-append,
}
use native.Mathlib.Nat.{pow-succ'}
use ebc_node.Engine.Client.Thread.{digits, hello_text}

tenth : (n m : ℕ) → n < 10 * m → n / 10 < m
tenth n m h = omega arith

-- A number below 10 ^ (k + 1) has at most k + 1 digits.
length-digits : (k fuel n : ℕ) → n < 10 ^ suc k → length (digits fuel n) ≤ suc k
unfolding digits
length-digits k zero n h = omega arith
length-digits zero (suc fuel) n h = ground arith
length-digits (suc k) (suc fuel) n h =
    let wide : 10 ^ suc (suc k) ≡ 10 * 10 ^ suc k = pow-succ' 10 (suc k) in
    let shorter = length-digits k fuel (n / 10) (tenth n (10 ^ suc k) (omega (arith, wide))) in
    ground (arith, length-append (digits fuel (n / 10)) ((b'0' + n % 10) ∷ []), shorter)

-- The text of a count that an `int` holds fits `hello_buf[64]`, with its closing NUL.
pub length-hello_text : (count : ℕ) → count < 2 ^ 31 → length (hello_text count) < 64
unfolding hello_text
length-hello_text count h = omega (arith, length-digits 9 (suc count) count (omega arith))
