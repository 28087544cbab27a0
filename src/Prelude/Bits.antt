-- ===== src/Prelude/Bits.antt =====
-- Laws of the native bit operations at variables, from the digit recursion that they stand for.
use Prim.Native.Nat.{
  ℕ, zero, suc, ◌+◌, ◌-◌, ◌*◌, ◌/◌, ◌%◌, ◌^◌, ◌≤◌, ◌<◌, max, differ, bit_and, bit_or, bit_xor,
  digits, bitwise, bit_and-bitwise, bit_or-bitwise, bit_xor-bitwise, min,
}
use mathlib.Core.Path.{◌≡◌, refl, ap, sym, ◌∙◌}
use mathlib.Core.Logic.{◌≢◌}
use native.Mathlib.Omega.{arith}
use native.Mathlib.Nat.{
  pow-suc, div-div-eq-div-mul, div-add-mod, add-mul-mod_self_left, mod-lt, mod-eq_of_lt,
}

-- Enough rounds give the same digits, however many they are.
module _ (z : ℕ → ℕ) (f : ℕ → ℕ → ℕ) where
  rounds : (m n a b : ℕ) → a ≤ m → a ≤ n → digits z f m a b ≡ digits z f n a b
  rounds zero zero a b hm hn = refl
  rounds zero (suc n) zero b hm hn = refl
  rounds zero (suc n) (suc a) b hm hn = absurd (omega arith)
  rounds (suc m) zero zero b hm hn = refl
  rounds (suc m) zero (suc a) b hm hn = absurd (omega arith)
  rounds (suc m) (suc n) zero b hm hn = refl
  rounds (suc m) (suc n) (suc a) b hm hn =
      omega (arith, rounds m n (suc a / 2) (b / 2) (omega arith) (omega arith))

  lowest_digit :
      (a b : ℕ)
      → bitwise z f (suc a) b ≡ bitwise z f (suc a / 2) (b / 2) * 2 + f (suc a % 2) (b % 2)
  lowest_digit a b =
      omega (arith, rounds a (suc a / 2) (suc a / 2) (b / 2) (omega arith) (omega arith))

pub bit_or_digit : (a b : ℕ) → bit_or a b ≡ bit_or (a / 2) (b / 2) * 2 + max (a % 2) (b % 2)
bit_or_digit zero b = simp bit_or-bitwise (omega arith)
bit_or_digit (suc a) b = simp bit_or-bitwise (lowest_digit (λ y. y) max a b)

pub bit_and_digit : (a b : ℕ) → bit_and a b ≡ bit_and (a / 2) (b / 2) * 2 + min (a % 2) (b % 2)
bit_and_digit zero b = simp bit_and-bitwise (omega arith)
bit_and_digit (suc a) b = simp bit_and-bitwise (lowest_digit (λ y. 0) min a b)

pub bit_xor_digit : (a b : ℕ) → bit_xor a b ≡ bit_xor (a / 2) (b / 2) * 2 + differ (a % 2) (b % 2)
bit_xor_digit zero b = simp bit_xor-bitwise (ground arith)
bit_xor_digit (suc a) b = simp bit_xor-bitwise (lowest_digit (λ y. y) differ a b)

differ_digit : (x y : ℕ) → x < 2 → y < 2 → (differ x y < 2) × (differ (differ x y) y ≡ x)
differ_digit zero zero hx hy = omega arith
differ_digit zero (suc zero) hx hy = omega arith
differ_digit (suc zero) zero hx hy = omega arith
differ_digit (suc zero) (suc zero) hx hy = omega arith
differ_digit zero (suc (suc y)) hx hy = absurd (omega arith)
differ_digit (suc zero) (suc (suc y)) hx hy = absurd (omega arith)
differ_digit (suc (suc x)) y hx hy = absurd (omega arith)

-- The exclusive or of two words of `k` bits has `k` bits.
pub bit_xor-lt : (k a b : ℕ) → a < 2 ^ k → b < 2 ^ k → bit_xor a b < 2 ^ k
bit_xor-lt zero a b ha hb =
    let ea : a ≡ 0 = omega arith in let eb : b ≡ 0 = omega arith in rw (ea, eb) (omega arith)
bit_xor-lt (suc k) a b ha hb =
    let words = pow-suc 2 k in
    let digit = differ_digit (a % 2) (b % 2) (omega arith) (omega arith) in
    let rest = bit_xor-lt k (a / 2) (b / 2) (omega arith) (omega arith) in
    omega (arith, bit_xor_digit a b)

digits_eq : (a b : ℕ) → a / 2 ≡ b / 2 → a % 2 ≡ b % 2 → a ≡ b
digits_eq a b q r = omega arith

-- Exclusive or by the same word undoes itself.
pub bit_xor_cancel : (k a b : ℕ) → a < 2 ^ k → b < 2 ^ k → bit_xor (bit_xor a b) b ≡ a
bit_xor_cancel zero a b ha hb =
    let ea : a ≡ 0 = omega arith in let eb : b ≡ 0 = omega arith in rw (ea, eb) refl
bit_xor_cancel (suc k) a b ha hb =
    let words = pow-suc 2 k in
    let digit = differ_digit (a % 2) (b % 2) (omega arith) (omega arith) in
    let rest = bit_xor_cancel k (a / 2) (b / 2) (omega arith) (omega arith) in
    let inner = bit_xor_digit a b in
    let half : bit_xor a b / 2 ≡ bit_xor (a / 2) (b / 2) = omega arith in
    let low : bit_xor a b % 2 ≡ differ (a % 2) (b % 2) = omega arith in
    bit_xor_digit (bit_xor a b) b ∙ rw (half, low, rest, digit.1) (omega arith)

-- So it is injective in the first word.
pub bit_xor_injective :
    (k a b c : ℕ) → a < 2 ^ k → b < 2 ^ k → c < 2 ^ k → bit_xor a c ≡ bit_xor b c → a ≡ b
bit_xor_injective k a b c ha hb hc e =
    sym (bit_xor_cancel k a c ha hc) ∙ ap (λ (t : ℕ). bit_xor t c) e ∙ bit_xor_cancel k b c hb hc

bit_or_zero : (k a : ℕ) → a < 2 ^ k → bit_or a 0 ≡ a
bit_or_zero zero a h = let e : a ≡ 0 = omega arith in rw e refl
bit_or_zero (suc k) a h =
    let words = pow-suc 2 k in omega (arith, bit_or_digit a 0, bit_or_zero k (a / 2) (omega arith))

lt_two_pow : (a : ℕ) → a < 2 ^ a
lt_two_pow zero = omega arith
lt_two_pow (suc a) = omega (arith, pow-suc 2 a, lt_two_pow a)

-- `(hi << k) | lo` is a sum where `lo` has `k` bits.
pub bit_or_shifted : (k hi lo : ℕ) → lo < 2 ^ k → bit_or (hi * 2 ^ k) lo ≡ hi * 2 ^ k + lo
bit_or_shifted zero hi lo h =
    let e : lo ≡ 0 = omega arith in
    let w : hi * 2 ^ 0 ≡ hi = omega arith in
    rw (e, w) (bit_or_zero hi hi (lt_two_pow hi) ∙ omega arith)
bit_or_shifted (suc k) hi lo h =
    let words = pow-suc 2 k in
    let twice : hi * 2 ^ suc k ≡ 2 * (hi * 2 ^ k) = omega (arith, ap (λ (t : ℕ). hi * t) words) in
    let half : hi * 2 ^ suc k / 2 ≡ hi * 2 ^ k = omega arith in
    let low : hi * 2 ^ suc k % 2 ≡ 0 = omega arith in
    let rest = bit_or_shifted k hi (lo / 2) (omega arith) in
    bit_or_digit (hi * 2 ^ suc k) lo ∙ rw (half, low, rest) (omega arith)

bit_and_zero : (k a : ℕ) → a < 2 ^ k → bit_and a 0 ≡ 0
bit_and_zero zero a h = let e : a ≡ 0 = omega arith in rw e refl
bit_and_zero (suc k) a h =
    let words = pow-suc 2 k in
    omega (arith, bit_and_digit a 0, bit_and_zero k (a / 2) (omega arith))

-- A mask of ones keeps the low bits.
pub bit_and_one : (a : ℕ) → bit_and a 1 ≡ a % 2
bit_and_one a = omega (arith, bit_and_digit a 1, bit_and_zero (a / 2) (a / 2) (lt_two_pow (a / 2)))

mask_step :
    (a m n : ℕ) → ((b : ℕ) → bit_and b m ≡ b % n) → bit_and a (2 * m + 1) ≡ a % 2 + 2 * (a / 2 % n)
mask_step a m n h =
    let half : (2 * m + 1) / 2 ≡ m = omega arith in
    let low : (2 * m + 1) % 2 ≡ 1 = omega arith in
    bit_and_digit a (2 * m + 1) ∙ rw (half, low, h (a / 2)) (omega arith)

bit_and_fifteen : (a : ℕ) → bit_and a 15 ≡ a % 16
bit_and_fifteen a = omega (
  arith,
  mask_step a 7 8
      λ b. omega (arith, mask_step b 3 4 λ c. omega (arith, mask_step c 1 2 bit_and_one)),
)

pub bit_and_seven_bits : (a : ℕ) → bit_and a 127 ≡ a % 128
bit_and_seven_bits a = omega (
  arith,
  mask_step a 63 64
      λ c. omega (arith, mask_step c 31 32 λ d. omega (arith, mask_step d 15 16 bit_and_fifteen)),
)

pub bit_and_byte : (a : ℕ) → bit_and a 255 ≡ a % 256
bit_and_byte a = omega (arith, mask_step a 127 128 bit_and_seven_bits)

split_mod : (a p : ℕ) → 0 < p → a % (2 * p) ≡ a % 2 + 2 * (a / 2 % p)
split_mod a p h =
    let low = a % 2 + 2 * (a / 2 % p) in
    let halves : p * (a / 2 / p) + a / 2 % p ≡ a / 2 = div-add-mod (a / 2) p in
    let whole : a ≡ low + 2 * p * (a / 2 / p) = grind (arith, halves) in
    let small : low < 2 * p = omega (arith, mod-lt (a / 2) h) in
    ap (λ x. x % (2 * p)) whole ∙ add-mul-mod_self_left low (2 * p) (a / 2 / p) ∙ mod-eq_of_lt small

-- A mask of `k` ones, with its power of two.
pub bit_and_ones : (k a : ℕ) → (0 < 2 ^ k) × (bit_and a (2 ^ k - 1) ≡ a % 2 ^ k)
bit_and_ones zero a = (omega arith, omega (arith, bit_and_zero a a (lt_two_pow a)))
bit_and_ones (suc k) a =
    let words : 2 ^ suc k ≡ 2 * 2 ^ k = omega (arith, pow-suc 2 k) in
    let positive = (bit_and_ones k a).0 in
    let ones : 2 ^ suc k - 1 ≡ 2 * (2 ^ k - 1) + 1 = omega arith in
    (
      omega arith,
      rw (ones, words, mask_step a (2 ^ k - 1) (2 ^ k) (λ b. (bit_and_ones k b).1))
          (sym (split_mod a (2 ^ k) positive)),
    )

-- Bit `m` of `a` is `a / 2 ^ m % 2`.
pub div_two_pow-suc : (a m : ℕ) → a / 2 ^ suc m ≡ a / 2 / 2 ^ m
div_two_pow-suc a m =
    let words : 2 ^ suc m ≡ 2 * 2 ^ m = omega (arith, pow-suc 2 m) in
    rw words (sym (div-div-eq-div-mul a 2 (2 ^ m)))

-- `a & (1 << m)` keeps bit `m` alone.
pub bit_and_two_pow : (m a : ℕ) → bit_and a (2 ^ m) ≡ a / 2 ^ m % 2 * 2 ^ m
bit_and_two_pow zero a = omega (arith, bit_and_one a)
bit_and_two_pow (suc m) a =
    let words : 2 ^ suc m ≡ 2 * 2 ^ m = omega (arith, pow-suc 2 m) in
    let half : 2 ^ suc m / 2 ≡ 2 ^ m = omega arith in
    let low : 2 ^ suc m % 2 ≡ 0 = omega arith in
    let scaled : a / 2 / 2 ^ m % 2 * 2 ^ suc m ≡ 2 * (a / 2 / 2 ^ m % 2 * 2 ^ m) =
      omega (arith, ap (λ (t : ℕ). a / 2 / 2 ^ m % 2 * t) words) in
    rw div_two_pow-suc
      (bit_and_digit a (2 ^ suc m) ∙ rw (half, low, bit_and_two_pow m (a / 2)) (omega arith))

-- A bit of `a | b` is the larger of the two bits.
pub bit_or_bit : (m a b : ℕ) → bit_or a b / 2 ^ m % 2 ≡ max (a / 2 ^ m % 2) (b / 2 ^ m % 2)
bit_or_bit zero a b = omega (arith, bit_or_digit a b)
bit_or_bit (suc m) a b =
    let half : bit_or a b / 2 ≡ bit_or (a / 2) (b / 2) = omega (arith, bit_or_digit a b) in
    rw (div_two_pow-suc (bit_or a b) m, div_two_pow-suc a m, div_two_pow-suc b m, half)
      (bit_or_bit m (a / 2) (b / 2))

zero-div_two_pow : (m : ℕ) → 0 / 2 ^ m % 2 ≡ 0
zero-div_two_pow zero = omega arith
zero-div_two_pow (suc m) = rw div_two_pow-suc (zero-div_two_pow m)

-- The bits of `1 << k`.
pub two_pow_bit_self : (k : ℕ) → 2 ^ k / 2 ^ k % 2 ≡ 1
two_pow_bit_self zero = omega arith
two_pow_bit_self (suc k) =
    let half : 2 ^ suc k / 2 ≡ 2 ^ k = omega (arith, pow-suc 2 k) in
    rw (div_two_pow-suc, half) (two_pow_bit_self k)

pub two_pow_bit_ne : (k m : ℕ) → k ≢ m → 2 ^ k / 2 ^ m % 2 ≡ 0
two_pow_bit_ne zero zero h = absurd (h refl)
two_pow_bit_ne zero (suc m) h = rw div_two_pow-suc (zero-div_two_pow m)
two_pow_bit_ne (suc k) zero h = omega (arith, pow-suc 2 k)
two_pow_bit_ne (suc k) (suc m) h =
    let half : 2 ^ suc k / 2 ≡ 2 ^ k = omega (arith, pow-suc 2 k) in
    rw (div_two_pow-suc, half) (two_pow_bit_ne k m (λ e. h (ap suc e)))

-- Two words of `k` bits make a word of `k` bits.
pub bit_or-lt : (k a b : ℕ) → a < 2 ^ k → b < 2 ^ k → bit_or a b < 2 ^ k
bit_or-lt zero a b ha hb =
    let ea : a ≡ 0 = omega arith in let eb : b ≡ 0 = omega arith in rw (ea, eb) (omega arith)
bit_or-lt (suc k) a b ha hb =
    let words = pow-suc 2 k in
    let rest = bit_or-lt k (a / 2) (b / 2) (omega arith) (omega arith) in
    omega (arith, bit_or_digit a b)

pub zero-bit_and : (b : ℕ) → bit_and 0 b ≡ 0
zero-bit_and b = bit_and-bitwise 0 b

-- A bit of `a ^ b` says whether the two bits differ.
pub bit_xor_bit : (m a b : ℕ) → bit_xor a b / 2 ^ m % 2 ≡ differ (a / 2 ^ m % 2) (b / 2 ^ m % 2)
bit_xor_bit zero a b =
    let digit = differ_digit (a % 2) (b % 2) (omega arith) (omega arith) in
    let one : (t : ℕ) → t / 2 ^ 0 % 2 ≡ t % 2 = λ t. omega arith in
    rw (one (bit_xor a b), one a, one b) (omega (arith, bit_xor_digit a b))
bit_xor_bit (suc m) a b =
    let digit = differ_digit (a % 2) (b % 2) (omega arith) (omega arith) in
    let half : bit_xor a b / 2 ≡ bit_xor (a / 2) (b / 2) = omega (arith, bit_xor_digit a b) in
    rw (div_two_pow-suc (bit_xor a b) m, div_two_pow-suc a m, div_two_pow-suc b m, half)
      (bit_xor_bit m (a / 2) (b / 2))

differ_comm : (x y : ℕ) → differ x y ≡ differ y x
differ_comm zero zero = refl
differ_comm zero (suc y) = refl
differ_comm (suc x) zero = refl
differ_comm (suc x) (suc y) = differ_comm x y

pub bit_xor_comm : (k a b : ℕ) → a < 2 ^ k → b < 2 ^ k → bit_xor a b ≡ bit_xor b a
bit_xor_comm zero a b ha hb =
    let ea : a ≡ 0 = omega arith in let eb : b ≡ 0 = omega arith in rw (ea, eb) refl
bit_xor_comm (suc k) a b ha hb =
    let words = pow-suc 2 k in
    omega (
      arith,
      bit_xor_digit a b,
      bit_xor_digit b a,
      differ_comm (a % 2) (b % 2),
      bit_xor_comm k (a / 2) (b / 2) (omega arith) (omega arith),
    )

max_comm : (x y : ℕ) → max x y ≡ max y x
max_comm x y = omega arith

pub bit_or_comm : (k a b : ℕ) → a < 2 ^ k → b < 2 ^ k → bit_or a b ≡ bit_or b a
bit_or_comm zero a b ha hb =
    let ea : a ≡ 0 = omega arith in let eb : b ≡ 0 = omega arith in rw (ea, eb) refl
bit_or_comm (suc k) a b ha hb =
    let words = pow-suc 2 k in
    omega (
      arith,
      bit_or_digit a b,
      bit_or_digit b a,
      max_comm (a % 2) (b % 2),
      bit_or_comm k (a / 2) (b / 2) (omega arith) (omega arith),
    )
