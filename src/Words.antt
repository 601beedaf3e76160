-- ===== src/Words.antt =====
-- Machine integers of the source as native numbers: a `u64` or `usize` is a number below 2^64, an
-- `i64` is its bit pattern, so the casts between `u64`, `usize` and `i64` leave the number alone.
-- `+` wraps, as it does in the release profiles of Cargo.toml.
use manta_indexer.Prelude.{ℕ, ◌+◌, ◌-◌, ◌*◌, ◌/◌, ◌%◌, ◌^◌, ◌<◌, ◌≡◌, arith}

abbrev pub word : ℕ
word = 2 ^ 64

abbrev pub max_u64 : ℕ
max_u64 = word - 1

-- `a + b`
abbrev pub add64 : ℕ → ℕ → ℕ
add64 a b = (a + b) % word

-- `a - b`
abbrev pub sub64 : ℕ → ℕ → ℕ
sub64 a b = (a + word - b) % word

-- `a.wrapping_shl(k)`, and `a << k` for `k` below 64
abbrev pub shl64 : ℕ → ℕ → ℕ
shl64 a k = a * 2 ^ (k % 64) % word

-- `a >> k` for `k` below 64
abbrev pub shr64 : ℕ → ℕ → ℕ
shr64 a k = a / 2 ^ k

-- `!a`
abbrev pub not64 : ℕ → ℕ
not64 a = max_u64 - a

-- The number that orders `i64` patterns as the signed integers are ordered.
abbrev pub signed_rank : ℕ → ℕ
signed_rank a = add64 a (2 ^ 63)

pub add64-eq_of_lt : (a b : ℕ) → a + b < word → add64 a b ≡ a + b
add64-eq_of_lt a b h = omega arith
