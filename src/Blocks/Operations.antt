-- ===== src/Blocks/Operations.antt =====
-- The five handlers of an operation. Each writes the message and its keys, and returns the entries
-- that wait for the sender where it is not known.
pub mod Late
use kasia_indexer.Prelude.{
  ℕ, ◌-◌, ◌+◌, Option, none, some, List, [], ◌∷◌, ◌++◌, length, take, unwrap_or, is_some,
}
use kasia_indexer.Prelude.Bytes.{Bytes, to_be}
use kasia_indexer.Prelude.Outcome.{Outcome, ok, bind}
use kasia_indexer.Fjall.{Fjall}
use kasia_indexer.Protocol.{
  SealedMessageOrSealedHandshakeVNone, SealedHandshakeV2, SealedContextualMessageV1,
  SealedPaymentV1, SealedSelfStashV1,
}
use kasia_indexer.Db.{AddressPayload, default_address, PartitionId}
use kasia_indexer.Db.Keys.{
  HandshakeKeyBySender, HandshakeKeyByReceiver, ContextualMessageBySenderKey, SelfStashKeyByOwner,
  SelfStashKeyByScope, zero_padded, scope_of, by_sender_bytes, by_receiver_bytes, contextual_bytes,
  by_owner_bytes, by_scope_bytes,
}
use kasia_indexer.Db.Acceptance.{InsertionEntry, update_value_sender, insert_by_key_sender}
use kasia_indexer.Db.Messages.{
  insert_handshake_by_sender, insert_handshake_by_receiver, insert_tx_id_to_handshake,
  insert_payment_by_sender, insert_payment_by_receiver, insert_tx_id_to_payment,
  insert_contextual_message, insert_tx_id_to_contextual_message, insert_self_stash_by_owner,
  insert_self_stash_by_scope, insert_tx_id_to_self_stash,
}
use kasia_indexer.Blocks.{RpcHeader}

-- The key by receiver that a handshake and a payment are stored under.
unfoldable pub receiver_key : RpcHeader → ℕ → Bytes → AddressPayload → HandshakeKeyByReceiver
receiver_key header version tx_id receiver = record {
  receiver = receiver;
  block_time = to_be 8 header.timestamp;
  block_hash = header.hash;
  version = version;
  tx_id = tx_id;
}

-- The key by sender with the same fields.
unfoldable pub sender_key : AddressPayload → HandshakeKeyByReceiver → HandshakeKeyBySender
sender_key sender k = record {
  sender = sender;
  block_time = k.block_time;
  block_hash = k.block_hash;
  receiver = k.receiver;
  version = k.version;
  tx_id = k.tx_id;
}

unfoldable pub contextual_key :
    RpcHeader → Bytes → Bytes → AddressPayload → AddressPayload → ContextualMessageBySenderKey
contextual_key header tx_id alias receiver sender = record {
  sender = sender;
  alias = zero_padded 16 alias;
  block_time = to_be 8 header.timestamp;
  block_hash = header.hash;
  receiver = receiver;
  version = 1;
  tx_id = tx_id;
}

unfoldable pub owner_key : RpcHeader → Bytes → Bytes → AddressPayload → SelfStashKeyByOwner
owner_key header tx_id scope owner = record {
  owner = owner;
  scope = scope;
  block_time = to_be 8 header.timestamp;
  block_hash = header.hash;
  version = 1;
  tx_id = tx_id;
}

unfoldable pub scope_key : RpcHeader → Bytes → Bytes → AddressPayload → SelfStashKeyByScope
scope_key header tx_id scope owner = record {
  scope = scope;
  block_time = to_be 8 header.timestamp;
  owner = owner;
  block_hash = header.hash;
  version = 1;
  tx_id = tx_id;
}

-- an entry that updates the sender of a by-receiver value, and one that inserts a by-sender key
abbrev pub update_entry : PartitionId → Bytes → InsertionEntry
update_entry p key = record { partition_id = p; action = update_value_sender; partition_key = key }

abbrev pub insert_entry : PartitionId → Bytes → InsertionEntry
insert_entry p key = record { partition_id = p; action = insert_by_key_sender; partition_key = key }

module _ (fj : Fjall) where
  abbrev pub Handled : Type 0
  Handled = fj.WriteTransaction × List InsertionEntry

  -- The end of the handshake handlers. `entries` are those for an unknown sender.
  abbrev pub finish_handshake :
      fj.WriteTransaction
      → HandshakeKeyBySender
      → List InsertionEntry
      → Option AddressPayload
      → Handled
  finish_handshake w by_sender_key entries none = (w, entries)
  finish_handshake w by_sender_key entries (some sender) =
      (insert_handshake_by_sender fj w by_sender_key, [])

  unfoldable pub handle_handshake :
      fj.WriteTransaction
      → RpcHeader
      → Bytes
      → SealedMessageOrSealedHandshakeVNone
      → AddressPayload
      → Option AddressPayload
      → Outcome Handled
  unfolding receiver_key sender_key
  handle_handshake w block tx_id op receiver sender =
      let hs_key = receiver_key block 0 tx_id receiver in
      let by_sender_key = sender_key (unwrap_or sender default_address) hs_key in
      bind
        (insert_handshake_by_receiver fj (insert_tx_id_to_handshake fj w tx_id op.sealed_hex) hs_key
          sender)
        λ w'. ok (
          finish_handshake w' by_sender_key
            (update_entry PartitionId.handshake_by_receiver (by_receiver_bytes hs_key)
              ∷ insert_entry PartitionId.handshake_by_sender (by_sender_bytes by_sender_key)
              ∷ [])
            sender)

  -- Version 2; the entries come in the other order.
  unfoldable pub handle_handshake_v2 :
      fj.WriteTransaction
      → RpcHeader
      → Bytes
      → SealedHandshakeV2
      → AddressPayload
      → Option AddressPayload
      → Outcome Handled
  unfolding receiver_key sender_key
  handle_handshake_v2 w block tx_id op receiver sender =
      let hs_key = receiver_key block 2 tx_id receiver in
      let by_sender_key = sender_key (unwrap_or sender default_address) hs_key in
      bind
        (insert_handshake_by_receiver fj (insert_tx_id_to_handshake fj w tx_id op.sealed_hex) hs_key
          sender)
        λ w'. ok (
          finish_handshake w' by_sender_key
            (insert_entry PartitionId.handshake_by_sender (by_sender_bytes by_sender_key)
              ∷ update_entry PartitionId.handshake_by_receiver (by_receiver_bytes hs_key)
              ∷ [])
            sender)

  abbrev pub finish_contextual :
      fj.WriteTransaction → ContextualMessageBySenderKey → Option AddressPayload → Handled
  finish_contextual w cmk none =
      (w, insert_entry PartitionId.contextual_message_by_sender (contextual_bytes cmk) ∷ [])
  finish_contextual w cmk (some sender) = (insert_contextual_message fj w cmk, [])

  -- The alias is cut to 16 bytes, or filled with zeros.
  unfoldable pub handle_contextual_message :
      fj.WriteTransaction
      → Option AddressPayload
      → RpcHeader
      → Bytes
      → SealedContextualMessageV1
      → AddressPayload
      → Handled
  unfolding contextual_key
  handle_contextual_message w sender header tx_id cm receiver =
      finish_contextual (insert_tx_id_to_contextual_message fj w tx_id cm.sealed_hex)
        (contextual_key header tx_id cm.alias receiver (unwrap_or sender default_address)) sender

  abbrev pub finish_payment :
      fj.WriteTransaction
      → HandshakeKeyByReceiver
      → HandshakeKeyBySender
      → Option AddressPayload
      → Handled
  finish_payment w pm_key by_sender_key none = (
    w,
    update_entry PartitionId.payment_by_receiver (by_receiver_bytes pm_key)
        ∷ insert_entry PartitionId.payment_by_sender (by_sender_bytes by_sender_key)
        ∷ [],
  )
  finish_payment w pm_key by_sender_key (some sender) =
      (insert_payment_by_sender fj w by_sender_key, [])

  unfoldable pub handle_payment :
      fj.WriteTransaction
      → RpcHeader
      → Bytes
      → AddressPayload
      → ℕ
      → SealedPaymentV1
      → Option AddressPayload
      → Outcome Handled
  unfolding receiver_key sender_key
  handle_payment w header tx_id receiver amount pm sender =
      let pm_key = receiver_key header 0 tx_id receiver in
      let by_sender_key = sender_key (unwrap_or sender default_address) pm_key in
      bind
        (insert_payment_by_receiver fj (insert_tx_id_to_payment fj w tx_id amount pm.sealed_hex)
          pm_key sender)
        λ w'. ok (finish_payment w' pm_key by_sender_key sender)

  abbrev pub finish_self_stash :
      fj.WriteTransaction
      → SelfStashKeyByOwner
      → SelfStashKeyByScope
      → Option AddressPayload
      → Handled
  finish_self_stash w key key_by_scope none = (
    w,
    insert_entry PartitionId.self_stash_by_owner (by_owner_bytes key)
        ∷ insert_entry PartitionId.self_stash_by_scope (by_scope_bytes key_by_scope)
        ∷ [],
  )
  finish_self_stash w key key_by_scope (some sender) =
      (insert_self_stash_by_scope fj (insert_self_stash_by_owner fj w key) key_by_scope, [])

  unfoldable pub handle_self_stash :
      fj.WriteTransaction → Option AddressPayload → RpcHeader → Bytes → SealedSelfStashV1 → Handled
  unfolding owner_key scope_key
  handle_self_stash w sender block_header tx_id sss =
      let scope = scope_of (unwrap_or sss.key []) in
      let owner = unwrap_or sender default_address in
      finish_self_stash (insert_tx_id_to_self_stash fj w tx_id sss.sealed_hex)
        (owner_key block_header tx_id scope owner) (scope_key block_header tx_id scope owner) sender
