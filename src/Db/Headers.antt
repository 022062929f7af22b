-- ===== src/Db/Headers.antt =====
-- The header partitions: indexer-db/src/headers/block_compact_headers.rs, daa_index.rs and
-- block_gaps.rs, and the two partitions of indexer-db/src/processing that hang on them,
-- accepting_block_to_txs.rs and pending_senders.rs.
pub mod HashLists
use kasia_indexer.Prelude.{
  ℕ, zero, suc, Bool, ◌&&◌, Option, none, some, List, [], ◌∷◌, ◌++◌, length, take, drop, ◌==◌,
  if◌then◌else◌, is_some,
}
use kasia_indexer.Prelude.Bytes.{Bytes, to_le, to_be, of_le, of_be}
use kasia_indexer.Prelude.Outcome.{Outcome, ok, err, bail, panic, bind, of_option}
use kasia_indexer.Fjall.{Fjall, Partition}
use kasia_indexer.Db.Layout.{pack, unpack}

-- blue work in 24 bytes and the DAA score in 8, both little-endian
pub record CompactHeader : Type 0 where
  pub blue_work : Bytes
  pub daa_score : Bytes

unfoldable pub compact_header_bytes : CompactHeader → Bytes
compact_header_bytes h = pack (h.blue_work ∷ h.daa_score ∷ [])

abbrev compact_header_of : Option (List Bytes) → Option CompactHeader
compact_header_of (some (b ∷ d ∷ [])) = some (record { blue_work = b; daa_score = d })
compact_header_of _ = none

unfoldable pub read_compact_header : Bytes → Option CompactHeader
read_compact_header bs = compact_header_of (unpack (24 ∷ 8 ∷ []) bs)

-- DAA score in 8 bytes and blue work in 24, both big-endian, then the hash
pub record DaaIndexKey : Type 0 where
  pub daa_score : Bytes
  pub blue_work : Bytes
  pub block_hash : Bytes

unfoldable pub make_key : ℕ → Bytes → Bytes → DaaIndexKey
make_key daa_score block_hash blue_work_be = record {
  daa_score = to_be 8 daa_score;
  blue_work = blue_work_be;
  block_hash = block_hash;
}

unfoldable pub daa_index_key_bytes : DaaIndexKey → Bytes
daa_index_key_bytes k = pack (k.daa_score ∷ k.blue_work ∷ k.block_hash ∷ [])

abbrev daa_index_key_of : Option (List Bytes) → Option DaaIndexKey
daa_index_key_of (some (d ∷ b ∷ h ∷ [])) =
    some (record { daa_score = d; blue_work = b; block_hash = h })
daa_index_key_of _ = none

abbrev pub daa_index_sizes : List ℕ
daa_index_sizes = 8 ∷ 24 ∷ 32 ∷ []

-- One entry that `iter_lt` yields; the error is met when it is reached.
unfoldable pub daa_index_entry : Bytes × Bytes → Outcome DaaIndexKey
daa_index_entry (key, []) =
    of_option (bail "db corrupted, failed to read daa index key")
      (daa_index_key_of (unpack daa_index_sizes key))
daa_index_entry (key, b ∷ bs) = err (bail "Unexpected non-empty value")

-- a range of blocks that are still to be fetched
pub record BlockGap : Type 0 where
  pub to : Bytes
  pub from : Bytes

pub record PendingResolutionKey : Type 0 where
  pub accepting_daa_score : Bytes
  pub tx_id : Bytes

abbrev pub pending_sizes : List ℕ
pending_sizes = 8 ∷ 32 ∷ []

unfoldable pub pending_key_bytes : PendingResolutionKey → Bytes
pending_key_bytes k = pack (k.accepting_daa_score ∷ k.tx_id ∷ [])

abbrev pending_key_of : Option (List Bytes) → Option PendingResolutionKey
pending_key_of (some (d ∷ x ∷ [])) = some (record { accepting_daa_score = d; tx_id = x })
pending_key_of _ = none

unfoldable pub read_pending_key : Bytes → Option PendingResolutionKey
read_pending_key bs = pending_key_of (unpack pending_sizes bs)

-- `PendingResolutionKey { accepting_daa_score: daa.into(), tx_id }`
abbrev pub pending_key : ℕ → Bytes → PendingResolutionKey
pending_key daa tx_id = record { accepting_daa_score = to_be 8 daa; tx_id = tx_id }

-- `tx_ids.as_flattened()`
unfoldable pub flatten_hashes : List Bytes → Bytes
flatten_hashes [] = []
flatten_hashes (h ∷ hs) = h ++ flatten_hashes hs

-- `SharedImmutable<[[u8; 32]]>`: the bytes as hashes, with fuel for their number. A read panics
-- where the length is no multiple of 32.
unfoldable pub read_hashes : ℕ → Bytes → Outcome (List Bytes)
read_hashes fuel [] = ok []
read_hashes zero (b ∷ bs) = err (panic "SharedImmutable: wrong size")
read_hashes (suc fuel) (b ∷ bs) =
    if length (take 32 (b ∷ bs)) == 32
    then (bind (read_hashes fuel (drop 32 (b ∷ bs))) λ hs. ok (take 32 (b ∷ bs) ∷ hs))
    else err (panic "SharedImmutable: wrong size")

-- One stored gap; both halves have 32 bytes.
abbrev pub gap_of : Bytes × Bytes → Outcome BlockGap
gap_of (key, value) =
    if (length key == 32) && (length value == 32)
    then ok (record { from = value; to = key })
    else err (bail "Invalid key and value lengths in block_gaps partition")

unfoldable pub gaps_of : List (Bytes × Bytes) → Outcome (List BlockGap)
gaps_of [] = ok []
gaps_of (kv ∷ more) = bind (gap_of kv) λ gap. bind (gaps_of more) λ gaps. ok (gap ∷ gaps)

unfoldable pub pending_of : List (Bytes × Bytes) → Outcome (List PendingResolutionKey)
pending_of [] = ok []
pending_of ((k, v) ∷ more) =
    bind (of_option (panic "SharedImmutable: wrong size") (read_pending_key k))
      λ key. bind (pending_of more) λ keys. ok (key ∷ keys)

module _ (fj : Fjall) where
  open fj use {Keyspace, WriteTransaction}

  -- Committed at once. Whether the block was there before is returned.
  unfoldable pub insert_compact_header : Keyspace → Bytes → Bytes → ℕ → Keyspace × Bool
  insert_compact_header s block_hash blue_work daa_score =
      let header =
        compact_header_bytes (record { blue_work = blue_work; daa_score = to_le 8 daa_score }) in
      let (s', old) =
        fj.fetch_update s Partition.block_compact_header block_hash (λ previous. some header) in
      (s', is_some old)

  -- also the `_rtx` and `_wtx` versions, which read another view
  unfoldable pub get_compact_header : Keyspace → Bytes → Outcome (Option CompactHeader)
  get_compact_header s block_hash = elim (fj.get s Partition.block_compact_header block_hash) [
    | none ↦ ok none
    | some bytes ↦
        bind (of_option (bail "Invalid CompactHeader length") (read_compact_header bytes))
          λ h. ok (some h)
  ]

  unfoldable pub remove_compact_header : Keyspace → Bytes → Keyspace
  remove_compact_header s block_hash = fj.remove s Partition.block_compact_header block_hash

  unfoldable pub insert_daa_index : Keyspace → ℕ → Bytes → Bytes → Keyspace
  insert_daa_index s daa_score block_hash blue_work_be =
      fj.insert s Partition.daa_index_compact_header
        (daa_index_key_bytes (make_key daa_score block_hash blue_work_be)) []

  unfoldable pub delete_daa_index : Keyspace → ℕ → Bytes → Bytes → Keyspace
  delete_daa_index s daa_score block_hash blue_work_be =
      fj.remove s Partition.daa_index_compact_header
        (daa_index_key_bytes (make_key daa_score block_hash blue_work_be))

  -- the entries, which `daa_index_entry` reads
  unfoldable pub iter_lt : Keyspace → ℕ → List (Bytes × Bytes)
  iter_lt s max_daa = fj.range_to s Partition.daa_index_compact_header (to_be 8 max_daa)

  -- also `update_gap_wtx`, which makes the same call
  unfoldable pub add_gap_wtx : WriteTransaction → BlockGap → WriteTransaction
  add_gap_wtx w gap = fj.insert_wtx w Partition.block_gaps gap.to gap.from

  unfoldable pub add_gap : Keyspace → BlockGap → Keyspace
  add_gap s gap = fj.insert s Partition.block_gaps gap.to gap.from

  unfoldable pub remove_gap_wtx : WriteTransaction → Bytes → WriteTransaction
  remove_gap_wtx w to = fj.remove_wtx w Partition.block_gaps to

  unfoldable pub get_all_gaps : Keyspace → Outcome (List BlockGap)
  get_all_gaps s = gaps_of (fj.iter s Partition.block_gaps)

  unfoldable pub insert_accepting_block : WriteTransaction → Bytes → List Bytes → WriteTransaction
  insert_accepting_block w accepted_by_block_hash tx_ids =
      fj.insert_wtx w Partition.accepting_block_to_tx_id accepted_by_block_hash
        (flatten_hashes tx_ids)

  -- removes the key and returns what it held
  unfoldable pub remove_accepting_block : WriteTransaction → Bytes → WriteTransaction × Option Bytes
  remove_accepting_block w accepted_by_block_hash =
      fj.fetch_update_wtx w Partition.accepting_block_to_tx_id accepted_by_block_hash (λ old. none)

  -- `remove`, outside of a transaction
  unfoldable pub remove_accepting_block_now : Keyspace → Bytes → Keyspace
  remove_accepting_block_now s accepting_block_hash =
      fj.remove s Partition.accepting_block_to_tx_id accepting_block_hash

  unfoldable pub insert_pending : WriteTransaction → PendingResolutionKey → WriteTransaction
  insert_pending w key =
      fj.insert_wtx w Partition.pending_sender_resolution (pending_key_bytes key) []

  unfoldable pub remove_pending : WriteTransaction → PendingResolutionKey → WriteTransaction
  remove_pending w key = fj.remove_wtx w Partition.pending_sender_resolution (pending_key_bytes key)

  unfoldable pub get_all_pending : Keyspace → Outcome (List PendingResolutionKey)
  get_all_pending s = pending_of (fj.iter s Partition.pending_sender_resolution)
