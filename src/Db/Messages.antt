-- ===== src/Db/Messages.antt =====
-- The message partitions: what indexer-db/src/messages/handshake.rs, payment.rs,
-- contextual_message.rs and self_stash.rs write in a transaction.
pub mod Reads
pub mod Merge
pub mod Payments
pub mod Senders
use kasia_indexer.Prelude.{
  ℕ, zero, suc, ◌+◌, Option, none, some, List, [], ◌∷◌, ◌++◌, length, take, drop, leb, unwrap_or,
  if◌then◌else◌,
}
use kasia_indexer.Prelude.Bytes.{Bytes, to_le, of_le}
use kasia_indexer.Prelude.Outcome.{Outcome, ok, err, bail, panic, bind}
use kasia_indexer.Fjall.{Fjall, Partition}
use kasia_indexer.Fjall.Closure.{fetch_update_closure}
use kasia_indexer.Db.{AddressPayload, address_bytes, address_eq, default_address, read_address}
use kasia_indexer.Db.Keys.{
  HandshakeKeyBySender, HandshakeKeyByReceiver, PaymentKeyBySender, PaymentKeyByReceiver,
  ContextualMessageBySenderKey, SelfStashKeyByOwner, SelfStashKeyByScope, by_sender_bytes,
  by_receiver_bytes, contextual_bytes, by_owner_bytes, by_scope_bytes,
}

-- What is kept of an old sender and a new one: a sender that is known stays.
abbrev pub keep_known : AddressPayload → AddressPayload → Bytes → Bytes
keep_known sender old_sender old =
    if address_eq old_sender default_address then address_bytes sender else old

-- The closure with which the by-receiver partitions store a sender.
unfoldable pub merge_sender : AddressPayload → Option Bytes → Outcome (Option Bytes)
merge_sender sender none = ok (some (address_bytes sender))
merge_sender sender (some old) = elim (read_address old) [
  | none ↦ err (panic "called `Result::unwrap()` on an `Err` value")
  | some old_sender ↦ ok (some (keep_known sender old_sender old))
]

module _ (fj : Fjall) where
  open fj use {Keyspace, WriteTransaction}

  unfoldable pub insert_handshake_by_sender :
      WriteTransaction → HandshakeKeyBySender → WriteTransaction
  insert_handshake_by_sender w key =
      fj.insert_wtx w Partition.handshake_by_sender (by_sender_bytes key) []

  unfoldable pub insert_handshake_by_receiver :
      WriteTransaction → HandshakeKeyByReceiver → Option AddressPayload → Outcome WriteTransaction
  insert_handshake_by_receiver w key sender =
      bind
        (fetch_update_closure fj w Partition.handshake_by_receiver (by_receiver_bytes key)
          (merge_sender (unwrap_or sender default_address)))
        λ (w', old). ok w'

  unfoldable pub insert_tx_id_to_handshake : WriteTransaction → Bytes → Bytes → WriteTransaction
  insert_tx_id_to_handshake w tx_id sealed_hex =
      fj.insert_wtx w Partition.tx_id_to_handshake tx_id sealed_hex

  unfoldable pub insert_payment_by_sender : WriteTransaction → PaymentKeyBySender → WriteTransaction
  insert_payment_by_sender w key =
      fj.insert_wtx w Partition.payment_by_sender (by_sender_bytes key) []

  unfoldable pub insert_payment_by_receiver :
      WriteTransaction → PaymentKeyByReceiver → Option AddressPayload → Outcome WriteTransaction
  insert_payment_by_receiver w key sender =
      bind
        (fetch_update_closure fj w Partition.payment_by_receiver (by_receiver_bytes key)
          (merge_sender (unwrap_or sender default_address)))
        λ (w', old). ok w'

  -- the amount in little-endian order, then the message
  unfoldable pub insert_tx_id_to_payment : WriteTransaction → Bytes → ℕ → Bytes → WriteTransaction
  insert_tx_id_to_payment w tx_id amount sealed_hex =
      fj.insert_wtx w Partition.tx_id_to_payment tx_id (to_le 8 amount ++ sealed_hex)

  -- `TxIdToPaymentPartition::get`
  unfoldable pub get_payment : Keyspace → Bytes → Outcome (Option (ℕ × Bytes))
  get_payment s tx_id = elim (fj.get s Partition.tx_id_to_payment tx_id) [
    | none ↦ ok none
    | some value_bytes ↦
        if leb 8 (length value_bytes)
        then ok (some (of_le (take 8 value_bytes), drop 8 value_bytes))
        else err (bail "Invalid value length in tx_id_to_payment partition")
  ]

  unfoldable pub insert_contextual_message :
      WriteTransaction → ContextualMessageBySenderKey → WriteTransaction
  insert_contextual_message w key =
      fj.insert_wtx w Partition.contextual_message_by_sender (contextual_bytes key) []

  unfoldable pub insert_tx_id_to_contextual_message :
      WriteTransaction → Bytes → Bytes → WriteTransaction
  insert_tx_id_to_contextual_message w tx_id sealed_hex =
      fj.insert_wtx w Partition.tx_id_to_contextual_message tx_id sealed_hex

  unfoldable pub insert_self_stash_by_owner :
      WriteTransaction → SelfStashKeyByOwner → WriteTransaction
  insert_self_stash_by_owner w key =
      fj.insert_wtx w Partition.self_stash_by_owner (by_owner_bytes key) []

  unfoldable pub insert_self_stash_by_scope :
      WriteTransaction → SelfStashKeyByScope → WriteTransaction
  insert_self_stash_by_scope w key =
      fj.insert_wtx w Partition.self_stash_by_scope (by_scope_bytes key) []

  unfoldable pub insert_tx_id_to_self_stash : WriteTransaction → Bytes → Bytes → WriteTransaction
  insert_tx_id_to_self_stash w tx_id sealed_hex =
      fj.insert_wtx w Partition.tx_id_to_self_stash tx_id sealed_hex
