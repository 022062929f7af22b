-- ===== src/Blocks/Operations/Late/Rest.antt =====
-- The same for payments, contextual messages and self stashes, and for every operation.
use kasia_indexer.Prelude.{
  ℕ, ◌≡◌, refl, Option, none, some, [], ◌∷◌, length, unwrap_or, ◌-◌, take, replicate, arith, ◌∙◌,
  length-append, length-take, length-replicate,
}
use kasia_indexer.Prelude.Bytes.{Bytes, length-to_be}
use kasia_indexer.Prelude.Outcome.{ok}
use kasia_indexer.Fjall.{Fjall, Partition}
use kasia_indexer.Protocol.{SealedContextualMessageV1, SealedPaymentV1, SealedSelfStashV1}
use kasia_indexer.Db.{AddressPayload, default_address, PartitionId}
use kasia_indexer.Db.Layout.{HasSizes}
use kasia_indexer.Db.Keys.{
  HandshakeKeyByReceiver, by_sender_bytes, by_receiver_bytes, zero_padded, scope_of, scope_len,
  contextual_sizes, contextual_fields, contextual_bytes, by_owner_sizes, by_owner_fields,
  by_owner_bytes, by_scope_sizes, by_scope_fields, by_scope_bytes,
}
use kasia_indexer.Db.Acceptance.Entries.{each_entry}
use kasia_indexer.Db.Messages.{
  insert_payment_by_sender, insert_payment_by_receiver, insert_tx_id_to_payment,
  insert_contextual_message, insert_tx_id_to_contextual_message, insert_self_stash_by_owner,
  insert_self_stash_by_scope, insert_tx_id_to_self_stash,
}
use kasia_indexer.Db.Messages.Merge.{
  merged, cell_bytes, FitsCell, merged-late, FitsCell-merged, put_sender, closure-merge_sender,
  AreAlike-put_twice, AreAlike-insert,
}
use kasia_indexer.VirtualChain.Sender.Late.{
  resolve-payment_by_receiver, resolve-payment_by_sender, resolve-contextual, resolve-by_owner,
  resolve-by_scope,
}
use kasia_indexer.Blocks.{RpcHeader}
use kasia_indexer.Blocks.Operations.{
  receiver_key, sender_key, contextual_key, owner_key, scope_key, update_entry, insert_entry,
  handle_payment, handle_contextual_message, handle_self_stash,
}
use kasia_indexer.Blocks.Operations.Late.{
  IsSized, SameLate, receiver_key-HasSizes, sender_key-HasSizes, get_wtx-put_same,
}

length-zero_padded : (n : ℕ) (s : Bytes) → length (zero_padded n s) ≡ n
unfolding zero_padded
length-zero_padded n s = omega (
  arith,
  length-append {0} (take n s) (replicate (n - length s) 0),
  length-take n s,
  length-replicate {0} {A = ℕ} (n - length s) 0,
)

module _ (fj : Fjall) where
  abbrev payments :
      HandshakeKeyByReceiver → fj.WriteTransaction → AddressPayload → fj.WriteTransaction
  payments k w a = put_sender fj w Partition.payment_by_receiver (by_receiver_bytes k) a

  insert_by_receiver-ok :
      (w : fj.WriteTransaction) (k : HandshakeKeyByReceiver) (sender : Option AddressPayload)
      (o : Option AddressPayload)
      → FitsCell o
      → fj.get_wtx w Partition.payment_by_receiver (by_receiver_bytes k) ≡ cell_bytes o
      → insert_payment_by_receiver fj w k sender
        ≡ ok (payments k w (merged (unwrap_or sender default_address) o))
  unfolding insert_payment_by_receiver
  insert_by_receiver-ok w k sender o h c =
      closure-merge_sender fj w Partition.payment_by_receiver (by_receiver_bytes k)
        (unwrap_or sender default_address) o h c

  behind_message :
      (w : fj.WriteTransaction) (tx_id : Bytes) (amount : ℕ) (hex k : Bytes)
      → fj.get_wtx (insert_tx_id_to_payment fj w tx_id amount hex) Partition.payment_by_receiver k
        ≡ fj.get_wtx w Partition.payment_by_receiver k
  unfolding insert_tx_id_to_payment
  behind_message w tx_id amount hex k =
      fj.get_wtx-insert_wtx w Partition.tx_id_to_payment tx_id _ Partition.payment_by_receiver k

  merge_again :
      (w : fj.WriteTransaction) (k : HandshakeKeyByReceiver) (sender : AddressPayload)
      (o : Option AddressPayload)
      → FitsCell o
      → insert_payment_by_receiver fj (payments k w (merged default_address o)) k (some sender)
        ≡ ok (payments k (payments k w (merged default_address o)) (merged sender o))
  merge_again w k sender o h =
      insert_by_receiver-ok (payments k w (merged default_address o)) k (some sender)
        (some (merged default_address o)) (FitsCell-merged default_address o refl h)
        (get_wtx-put_same fj w Partition.payment_by_receiver (by_receiver_bytes k)
          (merged default_address o))
      ∙ rw (merged-late sender o)

  pub handle_payment-SameLate :
      (w : fj.WriteTransaction) (header : RpcHeader) (tx_id : Bytes) (amount : ℕ)
      (pm : SealedPaymentV1) (receiver sender : AddressPayload) (o : Option AddressPayload)
      → IsSized header tx_id receiver
      → FitsCell o
      → fj.get_wtx w Partition.payment_by_receiver
          (by_receiver_bytes (receiver_key header 0 tx_id receiver))
        ≡ cell_bytes o
      → SameLate fj sender
          (handle_payment fj w header tx_id receiver amount pm none)
          (handle_payment fj w header tx_id receiver amount pm (some sender))
  unfolding handle_payment receiver_key sender_key each_entry insert_payment_by_sender
  handle_payment-SameLate w header tx_id amount pm receiver sender o h f c =
      let k = receiver_key header 0 tx_id receiver in
      let w0 = insert_tx_id_to_payment fj w tx_id amount pm.sealed_hex in
      let c0 : fj.get_wtx w0 Partition.payment_by_receiver (by_receiver_bytes k) ≡ cell_bytes o =
        behind_message w tx_id amount pm.sealed_hex (by_receiver_bytes k) ∙ c in
      let by_key = sender_key sender k in
      let wl = payments k w0 (merged default_address o) in
      let wm = payments k wl (merged sender o) in
      (
        wl,
        update_entry PartitionId.payment_by_receiver (by_receiver_bytes k)
            ∷ insert_entry PartitionId.payment_by_sender
                (by_sender_bytes (sender_key default_address k))
            ∷ [],
        insert_payment_by_sender fj wm by_key,
        insert_payment_by_sender fj (payments k w0 (merged sender o)) by_key,
        rw (insert_by_receiver-ok w0 k none o f c0),
        rw (
          resolve-payment_by_receiver fj sender wl k
              (receiver_key-HasSizes header 0 tx_id receiver h),
          merge_again w0 k sender o f,
          resolve-payment_by_sender fj sender wm (sender_key default_address k)
              (sender_key-HasSizes header 0 tx_id receiver h),
        ),
        rw (insert_by_receiver-ok w0 k (some sender) o f c0),
        AreAlike-insert fj wm (payments k w0 (merged sender o)) Partition.payment_by_sender
            (by_sender_bytes by_key) []
            (AreAlike-put_twice fj w0 Partition.payment_by_receiver (by_receiver_bytes k)
              (merged default_address o) (merged sender o)),
      )

  contextual_key-HasSizes :
      (header : RpcHeader) (tx_id alias : Bytes) (receiver : AddressPayload)
      → IsSized header tx_id receiver
      → HasSizes contextual_sizes
          (contextual_fields (contextual_key header tx_id alias receiver default_address))
  unfolding contextual_key
  contextual_key-HasSizes header tx_id alias receiver h = (
    refl,
    (
      length-zero_padded 16 alias,
      (
        length-to_be 8 header.timestamp,
        (h.hash_length, (omega (arith, h.receiver_length), (refl, (h.tx_id_length, tt)))),
      ),
    ),
  )

  pub handle_contextual_message-SameLate :
      (w : fj.WriteTransaction) (header : RpcHeader) (tx_id : Bytes)
      (cm : SealedContextualMessageV1) (receiver sender : AddressPayload)
      → IsSized header tx_id receiver
      → SameLate fj sender
          (ok (handle_contextual_message fj w none header tx_id cm receiver))
          (ok (handle_contextual_message fj w (some sender) header tx_id cm receiver))
  unfolding handle_contextual_message contextual_key each_entry
  handle_contextual_message-SameLate w header tx_id cm receiver sender h =
      let w0 = insert_tx_id_to_contextual_message fj w tx_id cm.sealed_hex in
      let key = contextual_key header tx_id cm.alias receiver default_address in
      let late =
        insert_contextual_message fj w0 (contextual_key header tx_id cm.alias receiver sender) in
      (
        w0,
        insert_entry PartitionId.contextual_message_by_sender (contextual_bytes key) ∷ [],
        late,
        late,
        refl,
        rw (
            resolve-contextual fj sender w0 key
              (contextual_key-HasSizes header tx_id cm.alias receiver h)),
        refl,
        λ q j. refl,
      )

  owner_key-HasSizes :
      (header : RpcHeader) (tx_id key : Bytes) (receiver : AddressPayload)
      → IsSized header tx_id receiver
      → HasSizes by_owner_sizes
          (by_owner_fields (owner_key header tx_id (scope_of key) default_address))
  unfolding owner_key scope_of
  owner_key-HasSizes header tx_id key receiver h = (
    refl,
    (
      length-zero_padded scope_len key,
      (length-to_be 8 header.timestamp, (h.hash_length, (refl, (h.tx_id_length, tt)))),
    ),
  )

  scope_key-HasSizes :
      (header : RpcHeader) (tx_id key : Bytes) (receiver : AddressPayload)
      → IsSized header tx_id receiver
      → HasSizes by_scope_sizes
          (by_scope_fields (scope_key header tx_id (scope_of key) default_address))
  unfolding scope_key scope_of
  scope_key-HasSizes header tx_id key receiver h = (
    length-zero_padded scope_len key,
    (length-to_be 8 header.timestamp, (refl, (h.hash_length, (refl, (h.tx_id_length, tt))))),
  )

  pub handle_self_stash-SameLate :
      (w : fj.WriteTransaction) (header : RpcHeader) (tx_id : Bytes) (sss : SealedSelfStashV1)
      (receiver sender : AddressPayload)
      → IsSized header tx_id receiver
      → SameLate fj sender
          (ok (handle_self_stash fj w none header tx_id sss))
          (ok (handle_self_stash fj w (some sender) header tx_id sss))
  unfolding handle_self_stash owner_key scope_key each_entry
  handle_self_stash-SameLate w header tx_id sss receiver sender h =
      let scope = unwrap_or sss.key [] in
      let w0 = insert_tx_id_to_self_stash fj w tx_id sss.sealed_hex in
      let by_owner = owner_key header tx_id (scope_of scope) default_address in
      let by_scope = scope_key header tx_id (scope_of scope) default_address in
      let w1 = insert_self_stash_by_owner fj w0 (owner_key header tx_id (scope_of scope) sender) in
      let late =
        insert_self_stash_by_scope fj w1 (scope_key header tx_id (scope_of scope) sender) in
      (
        w0,
        insert_entry PartitionId.self_stash_by_owner (by_owner_bytes by_owner)
            ∷ insert_entry PartitionId.self_stash_by_scope (by_scope_bytes by_scope)
            ∷ [],
        late,
        late,
        refl,
        rw (
          resolve-by_owner fj sender w0 by_owner (owner_key-HasSizes header tx_id scope receiver h),
          resolve-by_scope fj sender w1 by_scope (scope_key-HasSizes header tx_id scope receiver h),
        ),
        refl,
        λ q j. refl,
      )
