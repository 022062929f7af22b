-- ===== src/Db/Acceptance.antt =====
-- indexer-db/src/processing/tx_id_to_acceptance.rs: for each transaction with a message, the
-- block that accepted it, and behind it the entries that wait for the address of the sender.
pub mod Entries
pub mod Lookup
pub mod Resolve
use kasia_indexer.Prelude.{
  ℕ, zero, suc, ◌+◌, Bool, true, false, Option, none, some, List, [], ◌∷◌, ◌++◌, length, take, drop,
  replicate, leb, ltb, ◌==◌, if◌then◌else◌,
}
use kasia_indexer.Prelude.Bytes.{Bytes, bytes_eq, to_le}
use kasia_indexer.Prelude.Outcome.{Outcome, ok, err, bail, panic, bind, of_option, out_of_fuel}
use kasia_indexer.Fjall
use kasia_indexer.Fjall.{Fjall, Partition}
use kasia_indexer.Fjall.Closure.{fetch_update_closure}
use kasia_indexer.Db.{
  AddressPayload, PartitionId, address_bytes, partition_id_byte, read_partition_id, slice,
}
use kasia_indexer.Db.Layout.{pack, unpack}
use kasia_indexer.Db.Keys.{address_of_bytes}

pub record AcceptanceKey : Type 0 where
  pub tx_id : Bytes
  pub receiver : AddressPayload

abbrev pub acceptance_key_sizes : List ℕ
acceptance_key_sizes = 32 ∷ 34 ∷ []

unfoldable pub acceptance_key_bytes : AcceptanceKey → Bytes
acceptance_key_bytes k = pack (k.tx_id ∷ address_bytes k.receiver ∷ [])

abbrev acceptance_key_of : Option (List Bytes) → Option AcceptanceKey
acceptance_key_of (some (x ∷ r ∷ [])) = some (record { tx_id = x; receiver = address_of_bytes r })
acceptance_key_of _ = none

unfoldable pub read_acceptance_key : Bytes → Option AcceptanceKey
read_acceptance_key bs = acceptance_key_of (unpack acceptance_key_sizes bs)

-- the hash of the accepting block, and its DAA score in little-endian order
pub record AcceptanceValueHeader : Type 0 where
  pub accepting_block_hash : Bytes
  pub accepting_daa : Bytes

abbrev pub header_size : ℕ
header_size = 40

unfoldable pub header_bytes : AcceptanceValueHeader → Bytes
header_bytes h = pack (h.accepting_block_hash ∷ h.accepting_daa ∷ [])

-- `AcceptanceValueHeader::new_zeroed().as_bytes()`
abbrev pub zeroed_header : Bytes
zeroed_header = replicate header_size 0

pub data Action : Type 0 where
  update_value_sender insert_by_key_sender : Action

abbrev pub action_byte : Action → ℕ
action_byte update_value_sender = 0
action_byte insert_by_key_sender = 1

unfoldable pub read_action : ℕ → Option Action
read_action b =
    if b == 0 then some update_value_sender else if b == 1 then some insert_by_key_sender else none

pub record Entry : Type 0 where
  pub partition_id : PartitionId
  pub action : Action
  pub key : Bytes

pub record InsertionEntry : Type 0 where
  pub partition_id : PartitionId
  pub action : Action
  pub partition_key : Bytes

-- The bytes that an entry appends to the value.
abbrev pub entry_bytes : InsertionEntry → Bytes
entry_bytes e = partition_id_byte e.partition_id ∷ action_byte e.action ∷ e.partition_key

unfoldable pub entries_bytes : List InsertionEntry → Bytes
entries_bytes [] = []
entries_bytes (e ∷ es) = entry_bytes e ++ entries_bytes es

pub data LookupOutput : Type 0 where
  key_does_not_exist key_exists_no_entries keys_exists_with_entries : LookupOutput

-- What the lookup says of the previous value.
unfoldable pub lookup_output : Option Bytes → LookupOutput
lookup_output none = key_does_not_exist
lookup_output (some value) =
    if ltb header_size (length value) then keys_exists_with_entries else key_exists_no_entries

-- `iter.next()`, then the assertion that no second entry follows
unfoldable pub only_entry : List (Bytes × Bytes) → Outcome (Option (Bytes × Bytes))
only_entry [] = ok none
only_entry (kv ∷ []) = ok (some kv)
only_entry (kv ∷ kv' ∷ more) = err (panic "assertion failed: iter.next().is_none()")

-- The key of the only entry, read as an `AcceptanceKey`.
unfoldable pub key_of_only : Option (Bytes × Bytes) → Outcome (Option AcceptanceKey)
key_of_only none = ok none
key_of_only (some (k, v)) =
    bind (of_option (panic "SharedImmutable: wrong size") (read_acceptance_key k)) λ a. ok (some a)

-- The value of the only entry, unless its header is still zero.
unfoldable pub accepted_value : Option (Bytes × Bytes) → Outcome (Option Bytes)
accepted_value none = ok none
accepted_value (some (k, v)) =
    if leb header_size (length v)
    then ok (if bytes_eq (take header_size v) zeroed_header then none else some v)
    else err (panic "SharedImmutable: wrong size")

-- The closure of `insert_wtx`.
unfoldable pub append_entries : Bytes → Option Bytes → Option Bytes
append_entries es none = some (zeroed_header ++ es)
append_entries es (some old) = some (old ++ es)

-- The closure of `update_acceptance_wtx`: a new header before the old entries.
unfoldable pub replace_header : Bytes → Option Bytes → Outcome (Option Bytes)
replace_header h none = ok none
replace_header h (some old) =
    if leb header_size (length old)
    then ok (some (h ++ drop header_size old))
    else err (panic "slice index out of range")

-- The closure of `resolve_entries_wtx`: the header without the entries.
unfoldable pub truncate_entries : Option Bytes → Outcome (Option Bytes)
truncate_entries none = ok none
truncate_entries (some old) =
    if leb header_size (length old)
    then ok (some (take header_size old))
    else err (panic "slice index out of range")

-- The loop over the stored entries, with fuel. `key_len` and `callback` are its two closures.
unfoldable pub resolve_loop :
    {S : Type 0} → (PartitionId → Outcome ℕ) → (S → Entry → Outcome S) → ℕ → Bytes → S → Outcome S
resolve_loop key_len callback zero entries w = err out_of_fuel
resolve_loop key_len callback (suc fuel) [] w = ok w
resolve_loop key_len callback (suc fuel) (p ∷ []) w =
    bind (of_option (bail "Invalid partition id") (read_partition_id p))
      λ partition_id. bind (key_len partition_id) λ n. err (panic "slice index out of range")
resolve_loop key_len callback (suc fuel) (p ∷ a ∷ rest) w =
    bind (of_option (bail "Invalid partition id") (read_partition_id p)) λ partition_id.
      bind (key_len partition_id) λ n.
        bind (of_option (bail "Invalid action") (read_action a)) λ action.
          bind (slice 0 n rest) λ key.
            bind (callback w (record { partition_id = partition_id; action = action; key = key }))
              λ w'. resolve_loop key_len callback fuel (drop n rest) w'

module _ (fj : Fjall) where
  open fj use {Keyspace, WriteTransaction}

  unfoldable pub insert_wtx :
      WriteTransaction → AcceptanceKey → List InsertionEntry → WriteTransaction
  insert_wtx w k entries =
      (fj.fetch_update_wtx w Partition.tx_id_to_acceptance (acceptance_key_bytes k)
        (append_entries (entries_bytes entries))).0

  unfoldable pub remove_wtx : WriteTransaction → AcceptanceKey → WriteTransaction
  remove_wtx w k = fj.remove_wtx w Partition.tx_id_to_acceptance (acceptance_key_bytes k)

  -- also `key_by_tx_id_rtx`, which reads a snapshot of its own
  unfoldable pub key_by_tx_id : Keyspace → Bytes → Outcome (Option AcceptanceKey)
  key_by_tx_id s tx_id =
      bind (only_entry (fj.prefix s Partition.tx_id_to_acceptance tx_id)) key_of_only

  unfoldable pub update_acceptance_wtx :
      WriteTransaction → AcceptanceKey → Bytes → ℕ → Outcome (WriteTransaction × LookupOutput)
  update_acceptance_wtx w k accepting_block_hash acceptance_daa =
      bind
        (fetch_update_closure fj w Partition.tx_id_to_acceptance (acceptance_key_bytes k) (
          replace_header (
            header_bytes (record {
              accepting_block_hash = accepting_block_hash;
              accepting_daa = to_le 8 acceptance_daa;
            }))))
        λ (w', old_value). ok (w', lookup_output old_value)

  -- The entries behind the header of the previous value, one by one.
  unfoldable pub resolve_old :
      (PartitionId → Outcome ℕ)
      → (WriteTransaction → Entry → Outcome WriteTransaction)
      → WriteTransaction
      → Option Bytes
      → Outcome (WriteTransaction × Bool)
  resolve_old key_len callback w none = ok (w, false)
  resolve_old key_len callback w (some old_value) =
      let entries = drop header_size old_value in
      bind (resolve_loop key_len callback (suc (length entries)) entries w) λ w'. ok (w', true)

  unfoldable pub resolve_entries_wtx :
      WriteTransaction
      → AcceptanceKey
      → (PartitionId → Outcome ℕ)
      → (WriteTransaction → Entry → Outcome WriteTransaction)
      → Outcome (WriteTransaction × Bool)
  unfolding resolve_old
  resolve_entries_wtx w k key_len callback =
      bind
        (fetch_update_closure fj w Partition.tx_id_to_acceptance (acceptance_key_bytes k)
          truncate_entries)
        λ (w', old_value). resolve_old key_len callback w' old_value

  unfoldable pub acceptance_by_tx_id : Keyspace → Bytes → Outcome (Option Bytes)
  acceptance_by_tx_id s tx_id =
      bind (only_entry (fj.prefix s Partition.tx_id_to_acceptance tx_id)) accepted_value
