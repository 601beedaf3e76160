-- ===== src/Cache/Keys/Layout.antt =====
-- What the masks and shifts of the cache keys compute, and when two keys are the same.
use Prim.Native.Nat.{bit_and, bit_or}
use manta_indexer.Prelude.{ℕ, ◌+◌, ◌-◌, ◌*◌, ◌%◌, ◌^◌, ◌<◌, ◌≡◌, ◌≢◌, ◌↔◌, refl, arith}
use manta_indexer.Words.{shl64}
use manta_indexer.Bits.{bit_or_disjoint, bit_or_shifted, bit_and_shifted, bit_and_low}
use manta_indexer.Cache.Keys.{receiver_key, sender_key, sub_field_mask, value_mask}

shl64-value : (s : ℕ) → shl64 s 48 ≡ s % 2 ^ 16 * 2 ^ 48
shl64-value s = omega arith

sub_field : (s : ℕ) → bit_and (shl64 s 48) sub_field_mask ≡ s % 2 ^ 12 * 2 ^ 48
sub_field s = rw (shl64-value s) (
    omega (
      arith,
      bit_and_shifted 48 (s % 2 ^ 16) (2 ^ 12 - 1),
      bit_and_low 12 (s % 2 ^ 16) (2 ^ 12 - 1) refl,
    ))

value_field : (u : ℕ) → bit_and u value_mask ≡ u % 2 ^ 48
value_field u = bit_and_low 48 u (2 ^ 48 - 1) refl

prefix_sub : (s : ℕ) → bit_or (2 ^ 60) (s % 2 ^ 12 * 2 ^ 48) ≡ (2 ^ 12 + s % 2 ^ 12) * 2 ^ 48
prefix_sub s = omega (
  arith,
  bit_or_shifted 48 (2 ^ 12) (s % 2 ^ 12),
  bit_or_disjoint 12 1 (s % 2 ^ 12) (omega arith),
)

-- The fields of a receiver's key: prefix 1, the shard, the index within the shard.
pub receiver_key-eq : (s u : ℕ) → receiver_key s u ≡ 2 ^ 60 + s % 2 ^ 12 * 2 ^ 48 + u % 2 ^ 48
unfolding receiver_key
receiver_key-eq s u =
    rw (sub_field s, value_field u, prefix_sub s)
      (omega (arith, bit_or_disjoint 48 (2 ^ 12 + s % 2 ^ 12) (u % 2 ^ 48) (omega arith)))

-- The fields of a sender's key: prefix 2, an empty sub field, the index.
pub sender_key-eq : (u : ℕ) → sender_key u ≡ 2 ^ 61 + u % 2 ^ 48
unfolding sender_key
sender_key-eq u =
    rw (value_field u) (omega (arith, bit_or_disjoint 48 (2 ^ 13) (u % 2 ^ 48) (omega arith)))

-- Two receiver keys are equal exactly when the shards agree in 12 bits and the indices in 48:
-- beyond 48 bits two indices of one shard share a key.
pub receiver_key_iff :
    (s t u v : ℕ)
    → (receiver_key s u ≡ receiver_key t v)
      ↔ ((s % 2 ^ 12 ≡ t % 2 ^ 12) × (u % 2 ^ 48 ≡ v % 2 ^ 48))
receiver_key_iff s t u v = (
  λ e. omega (arith, receiver_key-eq s u, receiver_key-eq t v),
  λ h. omega (arith, receiver_key-eq s u, receiver_key-eq t v),
)

-- Two sender keys are equal exactly when the indices agree in 48 bits.
pub sender_key_iff : (u v : ℕ) → (sender_key u ≡ sender_key v) ↔ (u % 2 ^ 48 ≡ v % 2 ^ 48)
sender_key_iff u v = (
  λ e. omega (arith, sender_key-eq u, sender_key-eq v),
  λ h. omega (arith, sender_key-eq u, sender_key-eq v),
)

-- No receiver shares a key with a sender, and every key is a 64-bit word.
pub keys_disjoint :
    (s u v : ℕ)
    → (receiver_key s u ≢ sender_key v) × (receiver_key s u < 2 ^ 61) × (sender_key v < 2 ^ 62)
keys_disjoint s u v = (
  λ e. omega (arith, receiver_key-eq s u, sender_key-eq v),
  omega (arith, receiver_key-eq s u),
  omega (arith, sender_key-eq v),
)
