-- ===== src/Examples/Sample.antt =====
-- One concrete `External`: every type is ℕ, the cache is a list of entries, SQLite keeps the order of
-- insertion; a ledger of two receivers in shard 0 and one sender; and a world that serves it.
use mathlib.Core.List.Permᴰ
use mathlib.Core.Logic.{◌≢◌}
use manta_indexer.Prelude.{
  ℕ, false, suc, ◌+◌, ◌<◌, ◌≡◌, refl, ap, Option, none, some, List, [], ◌∷◌, map, arith, length,
  ◌==◌, member, ltb, if◌then◌else◌, inl, replicate,
}
use manta_indexer.External.{Bytes, Nullifier, Codec, LruCache, Sqlite, External}
use manta_indexer.Store.{World}
use manta_indexer.Ledger.{Ledger, Fits, Serves, shard_row, nullifier_row}

abbrev number_of : Bytes → Option ℕ
number_of [] = none
number_of (n ∷ []) = some n
number_of (n ∷ m ∷ bytes) = none

abbrev number : Codec ℕ
number = record { encode = λ n. n ∷ []; decode = number_of; decode-encode = λ n. refl }

abbrev pair_of : Bytes → Option (ℕ × ℕ)
pair_of [] = none
pair_of (n ∷ []) = none
pair_of (n ∷ m ∷ []) = some (n, m)
pair_of (n ∷ m ∷ k ∷ bytes) = none

abbrev pair : Codec (ℕ × ℕ)
pair = record { encode = λ q. q.0 ∷ q.1 ∷ []; decode = pair_of; decode-encode = λ q. refl }

abbrev write_pairs : List (ℕ × ℕ) → Bytes
write_pairs [] = []
write_pairs (q ∷ qs) = q.0 ∷ q.1 ∷ write_pairs qs

abbrev cons_pair : ℕ × ℕ → Option (List (ℕ × ℕ)) → Option (List (ℕ × ℕ))
cons_pair q none = none
cons_pair q (some qs) = some (q ∷ qs)

abbrev pairs_of : Bytes → Option (List (ℕ × ℕ))
pairs_of [] = some []
pairs_of (n ∷ []) = none
pairs_of (n ∷ m ∷ bytes) = cons_pair (n, m) (pairs_of bytes)

pub pairs_of-write_pairs : (qs : List (ℕ × ℕ)) → pairs_of (write_pairs qs) ≡ some qs
pairs_of-write_pairs [] = refl
pairs_of-write_pairs (q ∷ qs) = ap (cons_pair q) (pairs_of-write_pairs qs)

abbrev pairs : Codec (List (ℕ × ℕ))
pairs = record { encode = write_pairs; decode = pairs_of; decode-encode = pairs_of-write_pairs }

abbrev text : Codec Bytes
text = record { encode = λ b. b; decode = some; decode-encode = λ b. refl }

abbrev find : List (ℕ × Bytes) → ℕ → Option Bytes
find [] j = none
find ((k, v) ∷ entries) j = if k == j then some v else find entries j

abbrev sum : List Nullifier → ℕ
sum [] = 0
sum (r ∷ rs) = r.idx + sum rs

abbrev tree : ℕ → Option ℕ
tree u = if ltb u 256 then some u else none

pub not_member : (n : ℕ) (rs : List Nullifier) → sum rs < n → member n (map (λ r. r.idx) rs) ≡ false
not_member n [] h = refl
not_member n (r ∷ rs) h = ground (arith, h, not_member n rs (omega (arith, h)))

pub peek-put_self : (k : ℕ) (v : Bytes) (c : List (ℕ × Bytes)) → find ((k, v) ∷ c) k ≡ some v
peek-put_self k v c = ground arith

pub peek-put_ne :
    (k j : ℕ) (v : Bytes) (c : List (ℕ × Bytes)) → j ≢ k → find ((k, v) ∷ c) j ≡ find c j
peek-put_ne k j v c ne = ground (arith, ne)

pub tree-lt : (u i : ℕ) → tree u ≡ some i → i < 256
tree-lt u i h = ground (arith, h)

abbrev lru : LruCache
lru = record {
  Cache = List (ℕ × Bytes);
  peek = find;
  get = λ c k. (find c k, c);
  put = λ c k v. (k, v) ∷ c;
  len = length;
  get-eq-peek = λ c k. refl;
  peek-get = λ c k j. refl;
  peek-put_self = λ c k v. peek-put_self k v c;
  peek-put_ne = λ c k j v ne. inl (peek-put_ne k j v c ne);
}

abbrev sqlite : Sqlite
sqlite = record {
  arrange_shards = λ rows. rows;
  arrange_nullifiers = λ rows. rows;
  next_rowid = λ rows. suc (sum rows);
  arrange_shards-perm = λ rows. Permᴰ.refl rows;
  arrange_nullifiers-perm = λ rows. Permᴰ.refl rows;
  next_rowid-fresh = λ rows. not_member (suc (sum rows)) rows (omega arith);
}

abbrev pub sample : External
sample = record {
  Utxo = ℕ;
  FullIncomingNote = ℕ;
  NullifierCommitment = ℕ;
  OutgoingNote = ℕ;
  utxo = number;
  note = number;
  commitment = number;
  outgoing = number;
  receiver = pair;
  sender = pair;
  receivers = pairs;
  senders = pairs;
  base64 = text;
  commitment_of_bytes = number_of;
  tree_index = tree;
  tree_index-lt = tree-lt;
  iterate = λ m. m;
  iterate-perm = λ m. Permᴰ.refl m;
  lru = lru;
  sqlite = sqlite;
}

abbrev pub two_receivers : ℕ → List (ℕ × ℕ)
two_receivers s = if s == 0 then (1, 2) ∷ (3, 4) ∷ [] else []

abbrev pub ledger : Ledger sample
ledger = record { shard = two_receivers; senders = (5, 6) ∷ [] }

abbrev pub world : World sample
world = record {
  tables = record {
    shards = shard_row sample 0 (0, (1, 2)) ∷ shard_row sample 0 (1, (3, 4)) ∷ [];
    nullifier = nullifier_row sample (0, (5, 6)) ∷ [];
    senders_receivers_total = some (replicate 16 0);
  };
  cache = [];
  faults = [];
}

pub ledger-Fits : Fits sample ledger
ledger-Fits = record { shards_fit = λ s. ground arith; senders_fit = omega arith }

pub world-Serves : Serves sample world ledger
world-Serves = record {
  calm = refl;
  stores = record { shards = λ s. ground arith; nullifiers = refl };
  holds = λ k v h. absurd (cc h);
}
