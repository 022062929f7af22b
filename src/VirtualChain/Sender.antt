-- ===== src/VirtualChain/Sender.antt =====
-- `handle_sender_address`: the address of a sender has arrived, and the entries that waited for it
-- become keys of the message partitions.
pub mod Late
use kasia_indexer.Prelude.{ℕ, Option, none, some, List, [], ◌∷◌}
use kasia_indexer.Prelude.Bytes.{Bytes}
use kasia_indexer.Prelude.Outcome.{Outcome, ok, err, bail, panic, bind, of_option}
use kasia_indexer.Fjall.{Fjall}
use kasia_indexer.Db.{
  AddressPayload, Kaspa, PartitionId, handshake_by_receiver, handshake_by_sender,
  contextual_message_by_sender, payment_by_receiver, payment_by_sender, self_stash_by_owner,
  self_stash_by_scope, address_of_address,
}
use kasia_indexer.Db.Layout.{total}
use kasia_indexer.Db.Keys.{
  HandshakeKeyBySender, ContextualMessageBySenderKey, SelfStashKeyByOwner, SelfStashKeyByScope,
  by_sender_sizes, by_receiver_sizes, contextual_sizes, by_owner_sizes, by_scope_sizes,
  read_by_sender, read_by_receiver, read_contextual, read_by_owner, read_by_scope,
}
use kasia_indexer.Db.Acceptance.{
  AcceptanceKey, Action, update_value_sender, insert_by_key_sender, Entry, key_by_tx_id,
  resolve_entries_wtx,
}
use kasia_indexer.Db.Messages.{
  insert_handshake_by_sender, insert_handshake_by_receiver, insert_payment_by_sender,
  insert_payment_by_receiver, insert_contextual_message, insert_self_stash_by_owner,
  insert_self_stash_by_scope,
}
use kasia_indexer.Db.Headers.{pending_key, remove_pending}

-- The first closure: the size of the keys of a partition, `size_of::<Key>()`.
unfoldable pub key_len : PartitionId → Outcome ℕ
key_len handshake_by_receiver = ok (total by_receiver_sizes)
key_len handshake_by_sender = ok (total by_sender_sizes)
key_len contextual_message_by_sender = ok (total contextual_sizes)
key_len payment_by_receiver = ok (total by_receiver_sizes)
key_len payment_by_sender = ok (total by_sender_sizes)
key_len self_stash_by_owner = ok (total by_owner_sizes)
key_len self_stash_by_scope = ok (total by_scope_sizes)
key_len _ = err (panic "Unexpected partition id")

-- `if !matches!(entry.action, ..) { panic!(..) }`
abbrev pub require_update {ℓ} : {A : Type ℓ} → Action → Outcome A → Outcome A
require_update update_value_sender rest = rest
require_update insert_by_key_sender rest = err (panic "Unexpected action")

abbrev pub require_insert {ℓ} : {A : Type ℓ} → Action → Outcome A → Outcome A
require_insert insert_by_key_sender rest = rest
require_insert update_value_sender rest = err (panic "Unexpected action")

-- `map_err(|_| anyhow!("Key conversion error"))?`
abbrev pub converted {ℓ} : {A : Type ℓ} → Option A → Outcome A
converted = of_option (bail "Key conversion error")

module _ (fj : Fjall) where
  -- The second closure, on one entry.
  unfoldable pub resolve_entry :
      AddressPayload
      → fj.WriteTransaction
      → PartitionId
      → Action
      → Bytes
      → Outcome fj.WriteTransaction
  resolve_entry sender w handshake_by_receiver action key = require_update action (
      bind (converted (read_by_receiver key))
        λ k. insert_handshake_by_receiver fj w k (some sender))
  resolve_entry sender w handshake_by_sender action key = require_insert action (
      bind (converted (read_by_sender key))
        λ k. ok (insert_handshake_by_sender fj w (record k { sender = sender })))
  resolve_entry sender w contextual_message_by_sender action key = require_insert action (
      bind (converted (read_contextual key))
        λ k. ok (insert_contextual_message fj w (record k { sender = sender })))
  resolve_entry sender w payment_by_receiver action key =
      require_update action (
        bind (converted (read_by_receiver key))
          λ k. insert_payment_by_receiver fj w k (some sender))
  resolve_entry sender w payment_by_sender action key = require_insert action (
      bind (converted (read_by_sender key))
        λ k. ok (insert_payment_by_sender fj w (record k { sender = sender })))
  resolve_entry sender w self_stash_by_owner action key = require_insert action (
      bind (converted (read_by_owner key))
        λ k. ok (insert_self_stash_by_owner fj w (record k { owner = sender })))
  resolve_entry sender w self_stash_by_scope action key = require_insert action (
      bind (converted (read_by_scope key))
        λ k. ok (insert_self_stash_by_scope fj w (record k { owner = sender })))
  resolve_entry sender w _ action key = err (panic "Unexpected partition id")

  abbrev pub resolve_callback :
      AddressPayload → fj.WriteTransaction → Entry → Outcome fj.WriteTransaction
  resolve_callback sender w e = resolve_entry sender w e.partition_id e.action e.key

  -- The body of the retry loop up to the commit.
  unfoldable pub attempt_sender :
      fj.Keyspace → AddressPayload → AcceptanceKey → Bytes → ℕ → Outcome fj.WriteTransaction
  attempt_sender s sender key tx_id daa =
      bind
        (resolve_entries_wtx fj (remove_pending fj (fj.write_tx s) (pending_key daa tx_id)) key
          key_len (resolve_callback sender))
        λ (w, exists). ok w

  -- The retry loop. Each item of the list is what others commit while one commit conflicts.
  unfoldable pub resolve_sender :
      List (fj.Keyspace → fj.Keyspace)
      → fj.Keyspace
      → AddressPayload
      → AcceptanceKey
      → Bytes
      → ℕ
      → Outcome fj.Keyspace
  unfolding attempt_sender
  resolve_sender [] s sender key tx_id daa =
      bind (attempt_sender s sender key tx_id daa) λ w. ok (fj.commit w s)
  resolve_sender (others ∷ conflicts) s sender key tx_id daa =
      bind (attempt_sender s sender key tx_id daa)
        λ w. resolve_sender conflicts (others s) sender key tx_id daa

  unfoldable pub handle_sender_address :
      (k : Kaspa)
      → List (fj.Keyspace → fj.Keyspace)
      → fj.Keyspace
      → k.Address
      → Bytes
      → ℕ
      → Outcome fj.Keyspace
  unfolding resolve_sender
  handle_sender_address k conflicts s sender tx_id daa =
      bind (address_of_address k sender) λ sender'. bind (key_by_tx_id fj s tx_id) λ found.
        bind (of_option (panic "Key must exists") found)
          λ key. resolve_sender conflicts s sender' key tx_id daa
