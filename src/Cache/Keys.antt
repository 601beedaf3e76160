-- ===== src/Cache/Keys.antt =====
-- The 64-bit keys of the ledger cache (src/indexer/cache.rs, `receiver_key` and `sender_key`):
-- a 4-bit type prefix, a 12-bit sub field and a 48-bit value.
pub mod Layout
mod Tests
use Prim.Native.Nat.{bit_and, bit_or}
use manta_indexer.Prelude.{ℕ, ◌+◌}
use manta_indexer.Words.{max_u64, shl64, shr64, not64}

abbrev pub type_prefix_bits : ℕ
type_prefix_bits = 4

abbrev pub sub_field_bits : ℕ
sub_field_bits = 12

abbrev pub value_field_bits : ℕ
value_field_bits = 48

abbrev pub receiver_key_prefix : ℕ
receiver_key_prefix = 1

abbrev pub sender_key_prefix : ℕ
sender_key_prefix = 2

abbrev pub type_prefix_mask : ℕ
type_prefix_mask = not64 (shr64 max_u64 type_prefix_bits)

abbrev pub sub_field_mask : ℕ
sub_field_mask = bit_and (shr64 max_u64 type_prefix_bits) (shl64 max_u64 value_field_bits)

abbrev pub value_mask : ℕ
value_mask = not64 (shl64 max_u64 value_field_bits)

unfoldable pub receiver_key : ℕ → ℕ → ℕ
receiver_key shard_idx utxo_idx =
    bit_or
      (bit_or
        (bit_and (shl64 receiver_key_prefix (sub_field_bits + value_field_bits)) type_prefix_mask)
        (bit_and (shl64 shard_idx value_field_bits) sub_field_mask))
      (bit_and utxo_idx value_mask)

unfoldable pub sender_key : ℕ → ℕ
sender_key idx =
    bit_or (bit_and (shl64 sender_key_prefix (sub_field_bits + value_field_bits)) type_prefix_mask)
      (bit_and idx value_mask)
