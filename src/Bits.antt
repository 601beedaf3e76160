-- ===== src/Bits.antt =====
-- `|` of disjoint fields and `&` with a mask, as arithmetic, at every width: the facts behind the
-- masks and shifts of src/indexer/cache.rs.
use Prim.Native.Nat.{max, bit_and, bit_or, digits, bit_and-bitwise, bit_or-bitwise}
use native.Mathlib.Nat.{pow-suc}
use manta_indexer.Prelude.{
  ℕ, zero, suc, ◌+◌, ◌*◌, ◌/◌, ◌%◌, ◌^◌, ◌≤◌, ◌<◌, min, ◌≡◌, refl, ap, arith,
}

-- More fuel than the number has digits changes nothing.
digits_enough :
    (z : ℕ → ℕ) (f : ℕ → ℕ → ℕ) (n m a b : ℕ) → a ≤ n → a ≤ m → digits z f n a b ≡ digits z f m a b
digits_enough z f zero zero a b p q = refl
digits_enough z f zero (suc m) zero b p q = refl
digits_enough z f zero (suc m) (suc a) b p q = absurd (omega arith)
digits_enough z f (suc n) zero zero b p q = refl
digits_enough z f (suc n) zero (suc a) b p q = absurd (omega arith)
digits_enough z f (suc n) (suc m) zero b p q = refl
digits_enough z f (suc n) (suc m) (suc a) b p q =
    rw (digits_enough z f n m (suc a / 2) (b / 2) (omega arith) (omega arith))

bit_and_halves : (a b : ℕ) → bit_and a b ≡ bit_and (a / 2) (b / 2) * 2 + min (a % 2) (b % 2)
bit_and_halves zero b = simp bit_and-bitwise (omega arith)
bit_and_halves (suc a) b = simp bit_and-bitwise (
    omega (
      arith,
      digits_enough (λ y. 0) min a (suc a / 2) (suc a / 2) (b / 2) (omega arith) (omega arith),
    ))

bit_or_halves : (a b : ℕ) → bit_or a b ≡ bit_or (a / 2) (b / 2) * 2 + max (a % 2) (b % 2)
bit_or_halves zero b = simp bit_or-bitwise (omega arith)
bit_or_halves (suc a) b = simp bit_or-bitwise (
    omega (
      arith,
      digits_enough (λ y. y) max a (suc a / 2) (suc a / 2) (b / 2) (omega arith) (omega arith),
    ))

bit_and-zero_below : (n a : ℕ) → a ≤ n → bit_and a 0 ≡ 0
bit_and-zero_below n zero h = refl
bit_and-zero_below zero (suc a) h = absurd (omega arith)
bit_and-zero_below (suc n) (suc a) h =
    omega (arith, bit_and_halves (suc a) 0, bit_and-zero_below n (suc a / 2) (omega arith))

bit_or-zero_below : (n a : ℕ) → a ≤ n → bit_or a 0 ≡ a
bit_or-zero_below n zero h = refl
bit_or-zero_below zero (suc a) h = absurd (omega arith)
bit_or-zero_below (suc n) (suc a) h =
    omega (arith, bit_or_halves (suc a) 0, bit_or-zero_below n (suc a / 2) (omega arith))

double_shift : (a k : ℕ) → a * 2 ^ suc k ≡ 2 * (a * 2 ^ k)
double_shift a k = omega (arith, ap (λ (t : ℕ). a * t) (pow-suc 2 k))

-- A field above `k` bits and one within them: `|` is the sum.
pub bit_or_disjoint : (k a b : ℕ) → b < 2 ^ k → bit_or (a * 2 ^ k) b ≡ a * 2 ^ k + b
bit_or_disjoint zero a zero h = omega (arith, bit_or-zero_below (a * 1) (a * 1) (omega arith))
bit_or_disjoint zero a (suc b) h = absurd (omega arith)
bit_or_disjoint (suc k) a b h = ground (
  arith,
  bit_or_halves (a * 2 ^ suc k) b,
  double_shift a k,
  bit_or_disjoint k a (b / 2) (omega (arith, pow-suc 2 k)),
)

-- Fields in the same high bits are combined there.
pub bit_or_shifted : (k a b : ℕ) → bit_or (a * 2 ^ k) (b * 2 ^ k) ≡ bit_or a b * 2 ^ k
bit_or_shifted zero a b = ground arith
bit_or_shifted (suc k) a b = ground (
  arith,
  bit_or_halves (a * 2 ^ suc k) (b * 2 ^ suc k),
  double_shift a k,
  double_shift b k,
  double_shift (bit_or a b) k,
  bit_or_shifted k a b,
)

pub bit_and_shifted : (k a b : ℕ) → bit_and (a * 2 ^ k) (b * 2 ^ k) ≡ bit_and a b * 2 ^ k
bit_and_shifted zero a b = ground arith
bit_and_shifted (suc k) a b = ground (
  arith,
  bit_and_halves (a * 2 ^ suc k) (b * 2 ^ suc k),
  double_shift a k,
  double_shift b k,
  double_shift (bit_and a b) k,
  bit_and_shifted k a b,
)

bit_and_within : (k q r m : ℕ) → r < 2 ^ k → m + 1 ≡ 2 ^ k → bit_and (q * 2 ^ k + r) m ≡ r
bit_and_within zero q r zero h e =
    omega (arith, bit_and-zero_below (q * 1 + r) (q * 1 + r) (omega arith))
bit_and_within zero q r (suc m) h e = absurd (omega arith)
bit_and_within (suc k) q r m h e = ground (
  arith,
  bit_and_halves (q * 2 ^ suc k + r) m,
  double_shift q k,
  pow-suc 2 k,
  bit_and_within k q (r / 2) (m / 2),
)

-- `& (2^k - 1)` is the remainder by `2^k`.
pub bit_and_low : (k a m : ℕ) → m + 1 ≡ 2 ^ k → bit_and a m ≡ a % 2 ^ k
bit_and_low k a m e = ground (arith, bit_and_within k (a / 2 ^ k) (a % 2 ^ k) m)
