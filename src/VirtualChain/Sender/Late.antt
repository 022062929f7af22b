-- ===== src/VirtualChain/Sender/Late.antt =====
-- What `handle_sender_address` does with one entry, for each partition that an entry may name.
use kasia_indexer.Prelude.{◌≡◌, some}
use kasia_indexer.Prelude.Outcome.{ok}
use kasia_indexer.Fjall.{Fjall}
use kasia_indexer.Db.{
  AddressPayload, handshake_by_receiver, handshake_by_sender, contextual_message_by_sender,
  payment_by_receiver, payment_by_sender, self_stash_by_owner, self_stash_by_scope,
}
use kasia_indexer.Db.Layout.{HasSizes}
use kasia_indexer.Db.Keys.{
  HandshakeKeyBySender, HandshakeKeyByReceiver, ContextualMessageBySenderKey, SelfStashKeyByOwner,
  SelfStashKeyByScope, by_sender_sizes, by_receiver_sizes, contextual_sizes, by_owner_sizes,
  by_scope_sizes, by_sender_fields, by_receiver_fields, contextual_fields, by_owner_fields,
  by_scope_fields, by_sender_bytes, by_receiver_bytes, contextual_bytes, by_owner_bytes,
  by_scope_bytes,
}
use kasia_indexer.Db.Keys.RoundTrip.{
  read_by_sender-bytes, read_by_receiver-bytes, read_contextual-bytes, read_by_owner-bytes,
  read_by_scope-bytes,
}
use kasia_indexer.Db.Acceptance.{update_value_sender, insert_by_key_sender}
use kasia_indexer.Db.Messages.{
  insert_handshake_by_sender, insert_handshake_by_receiver, insert_payment_by_sender,
  insert_payment_by_receiver, insert_contextual_message, insert_self_stash_by_owner,
  insert_self_stash_by_scope,
}
use kasia_indexer.VirtualChain.Sender.{resolve_entry}

module _ (fj : Fjall) (sender : AddressPayload) (w : fj.WriteTransaction) where
  pub resolve-handshake_by_receiver :
      (k : HandshakeKeyByReceiver)
      → HasSizes by_receiver_sizes (by_receiver_fields k)
      → resolve_entry fj sender w handshake_by_receiver update_value_sender (by_receiver_bytes k)
        ≡ insert_handshake_by_receiver fj w k (some sender)
  unfolding resolve_entry
  resolve-handshake_by_receiver k h = rw (read_by_receiver-bytes k h)

  pub resolve-payment_by_receiver :
      (k : HandshakeKeyByReceiver)
      → HasSizes by_receiver_sizes (by_receiver_fields k)
      → resolve_entry fj sender w payment_by_receiver update_value_sender (by_receiver_bytes k)
        ≡ insert_payment_by_receiver fj w k (some sender)
  unfolding resolve_entry
  resolve-payment_by_receiver k h = rw (read_by_receiver-bytes k h)

  pub resolve-handshake_by_sender :
      (k : HandshakeKeyBySender)
      → HasSizes by_sender_sizes (by_sender_fields k)
      → resolve_entry fj sender w handshake_by_sender insert_by_key_sender (by_sender_bytes k)
        ≡ ok (insert_handshake_by_sender fj w (record k { sender = sender }))
  unfolding resolve_entry
  resolve-handshake_by_sender k h = rw (read_by_sender-bytes k h)

  pub resolve-payment_by_sender :
      (k : HandshakeKeyBySender)
      → HasSizes by_sender_sizes (by_sender_fields k)
      → resolve_entry fj sender w payment_by_sender insert_by_key_sender (by_sender_bytes k)
        ≡ ok (insert_payment_by_sender fj w (record k { sender = sender }))
  unfolding resolve_entry
  resolve-payment_by_sender k h = rw (read_by_sender-bytes k h)

  pub resolve-contextual :
      (k : ContextualMessageBySenderKey)
      → HasSizes contextual_sizes (contextual_fields k)
      → resolve_entry fj sender w contextual_message_by_sender insert_by_key_sender
          (contextual_bytes k)
        ≡ ok (insert_contextual_message fj w (record k { sender = sender }))
  unfolding resolve_entry
  resolve-contextual k h = rw (read_contextual-bytes k h)

  pub resolve-by_owner :
      (k : SelfStashKeyByOwner)
      → HasSizes by_owner_sizes (by_owner_fields k)
      → resolve_entry fj sender w self_stash_by_owner insert_by_key_sender (by_owner_bytes k)
        ≡ ok (insert_self_stash_by_owner fj w (record k { owner = sender }))
  unfolding resolve_entry
  resolve-by_owner k h = rw (read_by_owner-bytes k h)

  pub resolve-by_scope :
      (k : SelfStashKeyByScope)
      → HasSizes by_scope_sizes (by_scope_fields k)
      → resolve_entry fj sender w self_stash_by_scope insert_by_key_sender (by_scope_bytes k)
        ≡ ok (insert_self_stash_by_scope fj w (record k { owner = sender }))
  unfolding resolve_entry
  resolve-by_scope k h = rw (read_by_scope-bytes k h)
