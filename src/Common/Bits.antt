-- ===== src/Common/Bits.antt =====
-- The bit operations of the program as arithmetic, at every width.
use Prim.Native.Nat.{
  ℕ, zero, suc, ◌+◌, ◌-◌, ◌*◌, ◌/◌, ◌%◌, ◌^◌, ◌≤◌, ◌<◌, min, max, digits, bitwise, differ,
  bit_and-bitwise, bit_or-bitwise, bit_xor-bitwise,
}
use mathlib.Core.Path.{◌≡◌, refl, ap}
use native.Mathlib.Nat.{pow-suc, one-le-pow}
use native.Mathlib.Omega.{arith}
pub use Prim.Native.Nat.{bit_and, bit_or, bit_xor}

-- More fuel than digits changes nothing.
module _ (end : ℕ → ℕ) (op : ℕ → ℕ → ℕ) where
  digits_enough : (n m a b : ℕ) → a ≤ n → a ≤ m → digits end op n a b ≡ digits end op m a b
  digits_enough n m zero b p q = both n m
    where
      both : (n m : ℕ) → digits end op n zero b ≡ digits end op m zero b
      both zero zero = refl
      both zero (suc m) = refl
      both (suc n) zero = refl
      both (suc n) (suc m) = refl
  digits_enough zero m (suc a) b p q = absurd (omega arith)
  digits_enough (suc n) zero (suc a) b p q = absurd (omega arith)
  digits_enough (suc n) (suc m) (suc a) b p q =
      let half : suc a / 2 ≤ a = omega arith in
      rw (digits_enough n m (suc a / 2) (b / 2) (omega arith) (omega arith))

  lowest_digit :
      (a b : ℕ)
      → bitwise end op (suc a) b ≡ bitwise end op (suc a / 2) (b / 2) * 2 + op (suc a % 2) (b % 2)
  lowest_digit a b =
      let half : suc a / 2 ≤ a = omega arith in
      let same : suc a / 2 ≤ suc a / 2 = omega arith in
      rw (digits_enough a (suc a / 2) (suc a / 2) (b / 2) half same)

bit_and_digit : (a b : ℕ) → bit_and a b ≡ bit_and (a / 2) (b / 2) * 2 + min (a % 2) (b % 2)
bit_and_digit zero b = simp bit_and-bitwise (omega arith)
bit_and_digit (suc a) b = simp bit_and-bitwise (lowest_digit (λ _. 0) min a b)

bit_or_digit : (a b : ℕ) → bit_or a b ≡ bit_or (a / 2) (b / 2) * 2 + max (a % 2) (b % 2)
bit_or_digit zero b = simp bit_or-bitwise (omega arith)
bit_or_digit (suc a) b = simp bit_or-bitwise (lowest_digit (λ t. t) max a b)

bit_xor_digit : (a b : ℕ) → bit_xor a b ≡ bit_xor (a / 2) (b / 2) * 2 + differ (a % 2) (b % 2)
bit_xor_digit zero b = simp bit_xor-bitwise (omega arith)
bit_xor_digit (suc a) b = simp bit_xor-bitwise (lowest_digit (λ t. t) differ a b)

bit_and-zero_below : (n a : ℕ) → a ≤ n → bit_and a 0 ≡ 0
bit_and-zero_below n zero h = refl
bit_and-zero_below zero (suc a) h = absurd (omega arith)
bit_and-zero_below (suc n) (suc a) h =
    omega (arith, bit_and_digit (suc a) 0, bit_and-zero_below n (suc a / 2) (omega arith))

double_pow : (q k : ℕ) → q * 2 ^ suc k ≡ 2 * (q * 2 ^ k)
double_pow q k = omega (arith, ap (λ (t : ℕ). q * t) (pow-suc 2 k))

pow_pos : (k : ℕ) → 1 ≤ 2 ^ k
pow_pos k = one-le-pow k 2 (omega arith)

-- The high part of a sum of fields is masked away.
low_field : (k q r : ℕ) → r < 2 ^ k → bit_and (r + q * 2 ^ k) (2 ^ k - 1) ≡ r
low_field zero q r h = omega (arith, bit_and-zero_below (r + q * 1) (r + q * 1) (omega arith))
low_field (suc k) q r h = ground (
  arith,
  bit_and_digit (r + q * 2 ^ suc k) (2 ^ suc k - 1),
  double_pow q k,
  double_pow 1 k,
  pow_pos k,
  low_field k q (r / 2) (omega (arith, double_pow 1 k)),
)

-- `a & (2 ^ k - 1)`
pub bit_and-ones : (k a : ℕ) → bit_and a (2 ^ k - 1) ≡ a % 2 ^ k
bit_and-ones k a =
    ground (arith, pow_pos k, low_field k (a / 2 ^ k) (a % 2 ^ k) (omega (arith, pow_pos k)))

-- The mask `!(2 ^ k - 1)` on a word is `2 ^ k * m`, with ones in `m`.
pub bit_and-high :
    (k m q r : ℕ) → r < 2 ^ k → bit_and (r + q * 2 ^ k) (m * 2 ^ k) ≡ bit_and q m * 2 ^ k
bit_and-high zero m q r h = ground arith
bit_and-high (suc k) m q r h = ground (
  arith,
  bit_and_digit (r + q * 2 ^ suc k) (m * 2 ^ suc k),
  double_pow q k,
  double_pow m k,
  double_pow 1 k,
  double_pow (bit_and q m) k,
  bit_and-high k m q (r / 2) (omega (arith, double_pow 1 k)),
)

bit_or-zero : (b : ℕ) → bit_or 0 b ≡ b
bit_or-zero b = bit_or-bitwise 0 b

-- The bits of `a << k` lie above those of `v`.
pub bit_or-above : (k a v : ℕ) → v < 2 ^ k → bit_or v (a * 2 ^ k) ≡ v + a * 2 ^ k
bit_or-above zero a v h = ground (arith, bit_or-zero (a * 1))
bit_or-above (suc k) a v h = ground (
  arith,
  bit_or_digit v (a * 2 ^ suc k),
  double_pow a k,
  double_pow 1 k,
  bit_or-above k a (v / 2) (omega (arith, double_pow 1 k)),
)

differ-one : (b : ℕ) → b < 2 → differ b 1 ≡ 1 - b
differ-one zero h = refl
differ-one (suc zero) h = refl
differ-one (suc (suc b)) h = absurd (omega arith)

odd_mask : (k : ℕ) → (2 ^ suc k - 1) % 2 ≡ 1
odd_mask k = omega (arith, double_pow 1 k, pow_pos k)

-- Flipping the low `k` bits.
pub bit_xor-ones : (k a : ℕ) → a < 2 ^ k → bit_xor a (2 ^ k - 1) ≡ 2 ^ k - 1 - a
bit_xor-ones zero a h = ground (arith, bit_xor-bitwise 0 0)
bit_xor-ones (suc k) a h = ground (
  arith,
  bit_xor_digit a (2 ^ suc k - 1),
  odd_mask k,
  differ-one (a % 2) (omega arith),
  double_pow 1 k,
  pow_pos k,
  bit_xor-ones k (a / 2) (omega (arith, double_pow 1 k)),
)

differ-zero : (b : ℕ) → b < 2 → differ b 0 ≡ b
differ-zero zero h = refl
differ-zero (suc zero) h = refl
differ-zero (suc (suc b)) h = absurd (omega arith)

bit_xor-zero_below : (n a : ℕ) → a ≤ n → bit_xor a 0 ≡ a
bit_xor-zero_below n zero h = bit_xor-bitwise 0 0
bit_xor-zero_below zero (suc a) h = absurd (omega arith)
bit_xor-zero_below (suc n) (suc a) h = omega (
  arith,
  bit_xor_digit (suc a) 0,
  differ-zero (suc a % 2) (omega arith),
  bit_xor-zero_below n (suc a / 2) (omega arith),
)

pub bit_xor-zero : (a : ℕ) → bit_xor a 0 ≡ a
bit_xor-zero a = bit_xor-zero_below a a (omega arith)
