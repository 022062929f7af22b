-- ===== src/Db/Messages/Reads.antt =====
-- indexer-db/src/messages/*.rs: what the API reads. A read transaction is the committed contents
-- at its start. An iterator yields entries of stored bytes, which are read when a field is used.
pub mod Range
pub mod Found
pub mod Formats
use kasia_indexer.Prelude.{
  ℕ, not, Option, none, some, List, ◌++◌, length, replicate, take, drop, leb, ◌==◌, if◌then◌else◌,
}
use kasia_indexer.Prelude.Bytes.{Bytes, to_be, of_le}
use kasia_indexer.Prelude.Outcome.{Outcome, ok, err, bail, panic}
use kasia_indexer.Fjall.{Fjall, Partition}
use kasia_indexer.Db.{AddressPayload, address_bytes}
use kasia_indexer.Db.Keys.{scope_of}

-- The range of the keys that begin with `prefix` and have a block time from `block_time` on:
-- `range_start` and `range_end` end with the eight bytes of a time.
abbrev pub range_start : Bytes → ℕ → Bytes
range_start prefix block_time = prefix ++ to_be 8 block_time

abbrev pub range_end : Bytes → Bytes
range_end prefix = prefix ++ replicate 8 255

module _ (fj : Fjall) where
  open fj use {Keyspace}

  abbrev pub from_block_time : Keyspace → Partition → Bytes → ℕ → List (Bytes × Bytes)
  from_block_time s p prefix block_time =
      fj.range s p (range_start prefix block_time) (range_end prefix)

  unfoldable pub handshakes_by_sender : Keyspace → AddressPayload → ℕ → List (Bytes × Bytes)
  handshakes_by_sender s sender block_time =
      from_block_time s Partition.handshake_by_sender (address_bytes sender) block_time

  unfoldable pub handshakes_by_receiver : Keyspace → AddressPayload → ℕ → List (Bytes × Bytes)
  handshakes_by_receiver s receiver block_time =
      from_block_time s Partition.handshake_by_receiver (address_bytes receiver) block_time

  unfoldable pub payments_by_sender : Keyspace → AddressPayload → ℕ → List (Bytes × Bytes)
  payments_by_sender s sender from_time =
      from_block_time s Partition.payment_by_sender (address_bytes sender) from_time

  unfoldable pub payments_by_receiver : Keyspace → AddressPayload → ℕ → List (Bytes × Bytes)
  payments_by_receiver s receiver from_time =
      from_block_time s Partition.payment_by_receiver (address_bytes receiver) from_time

  unfoldable pub contextual_by_sender_alias :
      Keyspace → AddressPayload → Bytes → ℕ → List (Bytes × Bytes)
  contextual_by_sender_alias s sender alias from_time =
      from_block_time s Partition.contextual_message_by_sender (address_bytes sender ++ alias)
        from_time

  unfoldable pub self_stash_by_owner_and_scope :
      Keyspace → Bytes → AddressPayload → ℕ → List (Bytes × Bytes)
  unfolding scope_of
  self_stash_by_owner_and_scope s scope owner block_time =
      from_block_time s Partition.self_stash_by_owner (address_bytes owner ++ scope_of scope)
        block_time

  unfoldable pub self_stash_by_scope : Keyspace → Bytes → ℕ → List (Bytes × Bytes)
  unfolding scope_of
  self_stash_by_scope s scope block_time =
      from_block_time s Partition.self_stash_by_scope (scope_of scope) block_time

  -- `get_rtx` of the partitions that hold the contents of a transaction
  unfoldable pub get_handshake_rtx : Keyspace → Bytes → Option Bytes
  get_handshake_rtx s tx_id = fj.get s Partition.tx_id_to_handshake tx_id

  unfoldable pub get_contextual_rtx : Keyspace → Bytes → Option Bytes
  get_contextual_rtx s tx_id = fj.get s Partition.tx_id_to_contextual_message tx_id

  unfoldable pub get_self_stash_rtx : Keyspace → Bytes → Option Bytes
  get_self_stash_rtx s tx_id = fj.get s Partition.tx_id_to_self_stash tx_id

  unfoldable pub get_payment_rtx : Keyspace → Bytes → Outcome (Option Bytes)
  get_payment_rtx s tx_id =
      if not (length tx_id == 32)
      then err (bail "Transaction ID must be 32 bytes")
      else ok (fj.get s Partition.tx_id_to_payment tx_id)

-- `split_at(8)` of a payment's value
unfoldable pub payment_data : Bytes → Outcome (ℕ × Bytes)
payment_data value =
    if leb 8 (length value)
    then ok (of_le (take 8 value), drop 8 value)
    else err (panic "split_at: out of range")
