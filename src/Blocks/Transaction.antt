-- ===== src/Blocks/Transaction.antt =====
-- `handle_transaction` and `handle_block`. `s` is the committed store, which `key_by_tx_id` reads
-- and the header partitions are written to at once; `w` is the open transaction.
pub mod Effects
use kasia_indexer.Prelude.{
  ℕ, zero, suc, Bool, true, false, ◌&&◌, Option, none, some, List, [], ◌∷◌, ◌++◌, ◌==◌,
  if◌then◌else◌,
}
use kasia_indexer.Prelude.Bytes.{Bytes, to_le, to_be}
use kasia_indexer.Prelude.Outcome.{Outcome, ok, err, bail, panic, bind, of_option, for_each}
use kasia_indexer.Fjall.{Fjall}
use kasia_indexer.Protocol.{
  SealedOperation, sealed_message_or_sealed_handshake_v_none, contextual_message_v1, payment_v1,
  self_stash_v1, sealed_handshake_v2, parse_sealed_operation,
}
use kasia_indexer.Db.{AddressPayload, default_address, Kaspa, address_of_script}
use kasia_indexer.Db.Acceptance.{AcceptanceKey, InsertionEntry, key_by_tx_id, insert_wtx}
use kasia_indexer.Db.Headers.{insert_compact_header, insert_daa_index}
use kasia_indexer.Blocks.{
  RpcHeader, TransactionOutpoint, TransactionOutput, RpcTransaction, RpcBlock, PushMessageType,
  handshake, payment, contextual, pulse_reply, PushDispatchEvent,
}
use kasia_indexer.Blocks.Operations.{
  Handled, handle_handshake, handle_handshake_v2, handle_contextual_message, handle_payment,
  handle_self_stash,
}

-- the amount of a push event, for a payment only
abbrev pub event_amount : PushMessageType → ℕ → Option ℕ
event_amount payment amount = some amount
event_amount _ amount = none

module _ (fj : Fjall) (k : Kaspa) where
  -- the amount and the address of the first output
  unfoldable pub first_output : List (TransactionOutput k) → Outcome (ℕ × AddressPayload)
  first_output [] = ok (0, default_address)
  first_output (o ∷ more) =
      bind (address_of_script k o.script_public_key) λ addr. ok (o.value, addr)

  abbrev receiver_of : Option AcceptanceKey → Option AddressPayload
  receiver_of none = none
  receiver_of (some key) = some key.receiver

  -- The sender is known where the first input spends the first output of a message.
  unfoldable pub known_sender :
      fj.Keyspace → List TransactionOutpoint → Outcome (Option AddressPayload)
  known_sender s [] = err (panic "called `Option::unwrap()` on a `None` value")
  known_sender s (input ∷ more) =
      if input.index == 0
      then (bind (key_by_tx_id fj s input.transaction_id) λ key. ok (receiver_of key))
      else ok none

  -- The arms on the operation, with the type of the push event.
  unfoldable pub handle_operation :
      fj.WriteTransaction
      → RpcHeader
      → Bytes
      → ℕ
      → AddressPayload
      → Option AddressPayload
      → SealedOperation
      → Outcome (Handled fj × Option PushMessageType)
  handle_operation w header tx_id amount receiver sender
        (sealed_message_or_sealed_handshake_v_none hk) =
      bind (handle_handshake fj w header tx_id hk receiver sender) λ h. ok (h, some handshake)
  handle_operation w header tx_id amount receiver sender (sealed_handshake_v2 hk) =
      bind (handle_handshake_v2 fj w header tx_id hk receiver sender) λ h. ok (h, some handshake)
  handle_operation w header tx_id amount receiver sender (contextual_message_v1 cm) =
      ok (handle_contextual_message fj w sender header tx_id cm receiver, some contextual)
  handle_operation w header tx_id amount receiver sender (payment_v1 pm) =
      bind (handle_payment fj w header tx_id receiver amount pm sender) λ h. ok (h, some payment)
  handle_operation w header tx_id amount receiver sender (self_stash_v1 sss) =
      ok (handle_self_stash fj w sender header tx_id sss, none)

  -- the open transaction with the push events so far
  pub record Collected : Type 0 where
    pub wtx : fj.WriteTransaction
    pub push_events : List PushDispatchEvent

  abbrev pub push_if :
      Bool
      → Option PushMessageType
      → (PushMessageType → PushDispatchEvent)
      → List PushDispatchEvent
      → List PushDispatchEvent
  push_if true (some t) event events = events ++ event t ∷ []
  push_if _ _ event events = events

  -- What `handle_transaction` does behind the parser.
  unfoldable pub handle_parsed :
      fj.Keyspace
      → RpcHeader
      → Bool
      → RpcTransaction k
      → Bytes
      → Collected
      → SealedOperation
      → Outcome Collected
  unfolding first_output known_sender handle_operation
  handle_parsed s header collect_push_events tx tx_id c op =
      bind (first_output tx.outputs) λ (amount, receiver). bind (known_sender s tx.inputs) λ sender.
        bind (handle_operation c.wtx header tx_id amount receiver sender op)
          λ ((w, entries), message_type). ok (record {
            wtx = insert_wtx fj w (record { tx_id = tx_id; receiver = receiver }) entries;
            push_events =
                push_if collect_push_events message_type
                  (λ t. record {
                    message_type = t;
                    tx_id = tx_id;
                    sender = sender;
                    receiver = receiver;
                    amount = event_amount t amount;
                    payload = some tx.payload;
                    timestamp = header.timestamp;
                  })
                  c.push_events;
          })

  -- The id from the verbose data, or computed.
  unfoldable pub transaction_id : RpcTransaction k → Outcome Bytes
  transaction_id tx = elim tx.verbose_id [
    | some id ↦ ok id
    | none ↦ of_option (bail "transaction conversion") tx.computed_id
  ]

  unfoldable pub handle_if_parsed :
      fj.Keyspace
      → RpcHeader
      → Bool
      → RpcTransaction k
      → Bytes
      → Collected
      → Option SealedOperation
      → Outcome Collected
  unfolding handle_parsed
  handle_if_parsed s header collect_push_events tx tx_id c none = ok c
  handle_if_parsed s header collect_push_events tx tx_id c (some op) =
      handle_parsed s header collect_push_events tx tx_id c op

  unfoldable pub handle_transaction :
      fj.Keyspace → RpcHeader → Bool → Collected → RpcTransaction k → Outcome Collected
  unfolding handle_if_parsed transaction_id
  handle_transaction s block_header collect_push_events c tx = bind (transaction_id tx) λ tx_id.
      handle_if_parsed s block_header collect_push_events tx tx_id c
        (parse_sealed_operation tx.payload)

  -- the committed store, the open transaction and the metric of processed blocks
  pub record Handling : Type 0 where
    pub keyspace : fj.Keyspace
    pub collected : Collected
    pub blocks_processed : ℕ

  unfoldable pub handle_new_block : RpcBlock k → Bool → Handling → Outcome Handling
  unfolding handle_transaction
  handle_new_block block collect_push_events h =
      let s =
        insert_daa_index fj h.keyspace block.header.daa_score block.header.hash
          (to_be 24 block.header.blue_work) in
      bind
        (for_each (handle_transaction s block.header collect_push_events) block.transactions
          h.collected)
        λ c. ok (record { keyspace = s; collected = c; blocks_processed = suc h.blocks_processed })

  -- The header is committed at once, whatever becomes of the transaction.
  unfoldable pub handle_block : RpcBlock k → Bool → Handling → Outcome Handling
  unfolding handle_new_block
  handle_block block collect_push_events h =
      let (s, already_processed) =
        insert_compact_header fj h.keyspace block.header.hash (to_le 24 block.header.blue_work)
          block.header.daa_score in
      if already_processed
      then ok (record h { keyspace = s })
      else handle_new_block block collect_push_events (record h { keyspace = s })
