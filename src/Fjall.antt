-- ===== src/Fjall.antt =====
-- The interface of the fjall store, which is not part of the repository. `Fjall` is a parameter
-- of every definition that reads or writes the database. Its laws state what fjall documents: a
-- partition maps keys to values, iteration is in key order, a write transaction reads its own
-- writes over a snapshot, and a commit applies the writes and nothing else. Input and output
-- errors of the store are left out: they end the actor that meets them.
pub mod Entries
pub mod InMemory
pub mod Closure
pub mod Ranges
use kasia_indexer.Prelude.{
  ℕ, ◌≡◌, Bool, false, Option, none, some, List, ◌&&◌, ◌||◌, ◌==◌, if◌then◌else◌,
}
use kasia_indexer.Prelude.Bytes.{Bytes, bytes_eq}
use Entries.{lookup, keep_prefix, keep_below, keep_range, IsSorted}

-- The partitions that the indexer opens, by the names that its `new` functions give them.
pub data Partition : Type 0 where
  metadata block_compact_header daa_index_compact_header block_gaps : Partition
  handshake_by_receiver handshake_by_sender tx_id_to_handshake : Partition
  contextual_message_by_sender tx_id_to_contextual_message : Partition
  payment_by_receiver payment_by_sender tx_id_to_payment : Partition
  self_stash_by_owner self_stash_by_scope tx_id_to_self_stash : Partition
  accepting_block_to_tx_id tx_id_to_acceptance pending_sender_resolution : Partition

abbrev pub partition_number : Partition → ℕ
partition_number metadata = 0
partition_number block_compact_header = 1
partition_number daa_index_compact_header = 2
partition_number block_gaps = 3
partition_number handshake_by_receiver = 4
partition_number handshake_by_sender = 5
partition_number tx_id_to_handshake = 6
partition_number contextual_message_by_sender = 7
partition_number tx_id_to_contextual_message = 8
partition_number payment_by_receiver = 9
partition_number payment_by_sender = 10
partition_number tx_id_to_payment = 11
partition_number self_stash_by_owner = 12
partition_number self_stash_by_scope = 13
partition_number tx_id_to_self_stash = 14
partition_number accepting_block_to_tx_id = 15
partition_number tx_id_to_acceptance = 16
partition_number pending_sender_resolution = 17

-- Both name one key of one partition.
abbrev pub same_cell : Partition → Bytes → Partition → Bytes → Bool
same_cell p k q j = (partition_number p == partition_number q) && bytes_eq k j

pub record Fjall : Type 1 where
  -- the committed contents of all partitions
  pub Keyspace : Type 0
  pub get : Keyspace → Partition → Bytes → Option Bytes
  pub insert : Keyspace → Partition → Bytes → Bytes → Keyspace
  pub remove : Keyspace → Partition → Bytes → Keyspace
  -- returns the previous value
  pub fetch_update :
      Keyspace → Partition → Bytes → (Option Bytes → Option Bytes) → Keyspace × Option Bytes
  pub iter : Keyspace → Partition → List (Bytes × Bytes)
  pub prefix : Keyspace → Partition → Bytes → List (Bytes × Bytes)
  -- `range(..end)`
  pub range_to : Keyspace → Partition → Bytes → List (Bytes × Bytes)
  -- `range(start..=end)`
  pub range : Keyspace → Partition → Bytes → Bytes → List (Bytes × Bytes)
  -- an open write transaction: a snapshot with writes over it
  pub WriteTransaction : Type 0
  pub write_tx : Keyspace → WriteTransaction
  pub snapshot : WriteTransaction → Keyspace
  pub has_written : WriteTransaction → Partition → Bytes → Bool
  pub get_wtx : WriteTransaction → Partition → Bytes → Option Bytes
  pub insert_wtx : WriteTransaction → Partition → Bytes → Bytes → WriteTransaction
  pub remove_wtx : WriteTransaction → Partition → Bytes → WriteTransaction
  pub fetch_update_wtx :
      WriteTransaction
      → Partition
      → Bytes
      → (Option Bytes → Option Bytes)
      → WriteTransaction × Option Bytes
  pub commit : WriteTransaction → Keyspace → Keyspace
  pub get-insert :
      (s : Keyspace) (p : Partition) (k v : Bytes) (q : Partition) (j : Bytes)
      → get (insert s p k v) q j ≡ (if same_cell p k q j then some v else get s q j)
  pub get-remove :
      (s : Keyspace) (p : Partition) (k : Bytes) (q : Partition) (j : Bytes)
      → get (remove s p k) q j ≡ (if same_cell p k q j then none else get s q j)
  pub get-fetch_update :
      (s : Keyspace) (p : Partition) (k : Bytes) (f : Option Bytes → Option Bytes) (q : Partition)
      (j : Bytes)
      → get (fetch_update s p k f).0 q j ≡ (if same_cell p k q j then f (get s p k) else get s q j)
  pub fetched :
      (s : Keyspace) (p : Partition) (k : Bytes) (f : Option Bytes → Option Bytes)
      → (fetch_update s p k f).1 ≡ get s p k
  pub lookup-iter : (s : Keyspace) (p : Partition) (k : Bytes) → lookup k (iter s p) ≡ get s p k
  pub iter-IsSorted : (s : Keyspace) (p : Partition) → IsSorted (iter s p)
  pub prefix-iter :
      (s : Keyspace) (p : Partition) (t : Bytes) → prefix s p t ≡ keep_prefix t (iter s p)
  pub range_to-iter :
      (s : Keyspace) (p : Partition) (t : Bytes) → range_to s p t ≡ keep_below t (iter s p)
  pub range-iter :
      (s : Keyspace) (p : Partition) (a b : Bytes) → range s p a b ≡ keep_range a b (iter s p)
  pub snapshot-write_tx : (s : Keyspace) → snapshot (write_tx s) ≡ s
  pub snapshot-insert_wtx :
      (w : WriteTransaction) (p : Partition) (k v : Bytes)
      → snapshot (insert_wtx w p k v) ≡ snapshot w
  pub snapshot-remove_wtx :
      (w : WriteTransaction) (p : Partition) (k : Bytes) → snapshot (remove_wtx w p k) ≡ snapshot w
  pub snapshot-fetch_update_wtx :
      (w : WriteTransaction) (p : Partition) (k : Bytes) (f : Option Bytes → Option Bytes)
      → snapshot (fetch_update_wtx w p k f).0 ≡ snapshot w
  pub get_wtx-write_tx :
      (s : Keyspace) (q : Partition) (j : Bytes) → get_wtx (write_tx s) q j ≡ get s q j
  pub get_wtx-insert_wtx :
      (w : WriteTransaction) (p : Partition) (k v : Bytes) (q : Partition) (j : Bytes)
      → get_wtx (insert_wtx w p k v) q j ≡ (if same_cell p k q j then some v else get_wtx w q j)
  pub get_wtx-remove_wtx :
      (w : WriteTransaction) (p : Partition) (k : Bytes) (q : Partition) (j : Bytes)
      → get_wtx (remove_wtx w p k) q j ≡ (if same_cell p k q j then none else get_wtx w q j)
  pub get_wtx-fetch_update_wtx :
      (w : WriteTransaction) (p : Partition) (k : Bytes) (f : Option Bytes → Option Bytes)
      (q : Partition) (j : Bytes)
      → get_wtx (fetch_update_wtx w p k f).0 q j
        ≡ (if same_cell p k q j then f (get_wtx w p k) else get_wtx w q j)
  pub fetched_wtx :
      (w : WriteTransaction) (p : Partition) (k : Bytes) (f : Option Bytes → Option Bytes)
      → (fetch_update_wtx w p k f).1 ≡ get_wtx w p k
  pub has_written-write_tx :
      (s : Keyspace) (q : Partition) (j : Bytes) → has_written (write_tx s) q j ≡ false
  pub has_written-insert_wtx :
      (w : WriteTransaction) (p : Partition) (k v : Bytes) (q : Partition) (j : Bytes)
      → has_written (insert_wtx w p k v) q j ≡ (same_cell p k q j || has_written w q j)
  pub has_written-remove_wtx :
      (w : WriteTransaction) (p : Partition) (k : Bytes) (q : Partition) (j : Bytes)
      → has_written (remove_wtx w p k) q j ≡ (same_cell p k q j || has_written w q j)
  pub has_written-fetch_update_wtx :
      (w : WriteTransaction) (p : Partition) (k : Bytes) (f : Option Bytes → Option Bytes)
      (q : Partition) (j : Bytes)
      → has_written (fetch_update_wtx w p k f).0 q j ≡ (same_cell p k q j || has_written w q j)
  pub get-commit :
      (w : WriteTransaction) (s : Keyspace) (q : Partition) (j : Bytes)
      → get (commit w s) q j ≡ (if has_written w q j then get_wtx w q j else get s q j)
  pub get-commit_snapshot :
      (w : WriteTransaction) (q : Partition) (j : Bytes)
      → get (commit w (snapshot w)) q j ≡ get_wtx w q j
