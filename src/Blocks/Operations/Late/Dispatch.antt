-- ===== src/Blocks/Operations/Late/Dispatch.antt =====
-- The arms of `handle_transaction` on the operation, with the sender known late and early.
use kasia_indexer.Prelude.{ℕ, ◌≡◌, refl, Option, none, some}
use kasia_indexer.Prelude.Bytes.{Bytes}
use kasia_indexer.Prelude.Outcome.{Outcome, ok, err, bind}
use kasia_indexer.Fjall.{Fjall, Partition}
use kasia_indexer.Protocol.{
  SealedOperation, sealed_message_or_sealed_handshake_v_none, contextual_message_v1, payment_v1,
  self_stash_v1, sealed_handshake_v2,
}
use kasia_indexer.Db.{AddressPayload, Kaspa}
use kasia_indexer.Db.Keys.{by_receiver_bytes}
use kasia_indexer.Db.Messages.Merge.{cell_bytes, FitsCell}
use kasia_indexer.Blocks.{RpcHeader, PushMessageType}
use kasia_indexer.Blocks.Operations.{receiver_key, Handled}
use kasia_indexer.Blocks.Operations.Late.{
  IsSized, SameLate, handle_handshake-SameLate, handle_handshake_v2-SameLate,
}
use kasia_indexer.Blocks.Operations.Late.Rest.{
  handle_payment-SameLate, handle_contextual_message-SameLate, handle_self_stash-SameLate,
}
use kasia_indexer.Blocks.Transaction.{handle_operation}

module _ (fj : Fjall) (k : Kaspa) where
  -- what the by-receiver partition of the operation holds under its key, nothing or a sender
  abbrev pub HoldsSender :
      SealedOperation
      → fj.WriteTransaction
      → RpcHeader
      → Bytes
      → AddressPayload
      → Option AddressPayload
      → Type 0
  HoldsSender (sealed_message_or_sealed_handshake_v_none hk) w header tx_id receiver o =
      fj.get_wtx w Partition.handshake_by_receiver
        (by_receiver_bytes (receiver_key header 0 tx_id receiver))
      ≡ cell_bytes o
  HoldsSender (sealed_handshake_v2 hk) w header tx_id receiver o =
      fj.get_wtx w Partition.handshake_by_receiver
        (by_receiver_bytes (receiver_key header 2 tx_id receiver))
      ≡ cell_bytes o
  HoldsSender (payment_v1 pm) w header tx_id receiver o =
      fj.get_wtx w Partition.payment_by_receiver
        (by_receiver_bytes (receiver_key header 0 tx_id receiver))
      ≡ cell_bytes o
  HoldsSender (contextual_message_v1 cm) w header tx_id receiver o = Unit
  HoldsSender (self_stash_v1 sss) w header tx_id receiver o = Unit

  -- the result without the type of the push event
  abbrev pub stored : Outcome (Handled fj × Option PushMessageType) → Outcome (Handled fj)
  stored m = bind m λ (h, t). ok h

  with_type :
      (m : Outcome (Handled fj)) (t : Option PushMessageType) → stored (bind m (λ h. ok (h, t))) ≡ m
  with_type (ok h) t = refl
  with_type (err e) t = refl

  -- Take an operation of any of the five kinds, with hashes of 32 bytes and an address of 34,
  -- whose by-receiver key holds nothing or a sender. If it is handled without a sender and the
  -- entries that it returns are then worked off for a sender, both succeed, and every key of every
  -- partition reads as if the operation had been handled with that sender, where no entry remains.
  pub handle_operation-SameLate :
      (w : fj.WriteTransaction) (header : RpcHeader) (tx_id : Bytes) (amount : ℕ)
      (receiver sender : AddressPayload) (op : SealedOperation) (o : Option AddressPayload)
      → IsSized header tx_id receiver
      → FitsCell o
      → HoldsSender op w header tx_id receiver o
      → SameLate fj sender
          (stored (handle_operation fj k w header tx_id amount receiver none op))
          (stored (handle_operation fj k w header tx_id amount receiver (some sender) op))
  unfolding handle_operation
  handle_operation-SameLate w header tx_id amount receiver sender
        (sealed_message_or_sealed_handshake_v_none hk) o h f c =
      rw
        (with_type _ (some PushMessageType.handshake), with_type _ (some PushMessageType.handshake))
        (handle_handshake-SameLate fj w header tx_id hk receiver sender o h f c)
  handle_operation-SameLate w header tx_id amount receiver sender (sealed_handshake_v2 hk) o h f c =
      rw
        (with_type _ (some PushMessageType.handshake), with_type _ (some PushMessageType.handshake))
        (handle_handshake_v2-SameLate fj w header tx_id hk receiver sender o h f c)
  handle_operation-SameLate w header tx_id amount receiver sender (payment_v1 pm) o h f c =
      rw (with_type _ (some PushMessageType.payment), with_type _ (some PushMessageType.payment))
        (handle_payment-SameLate fj w header tx_id amount pm receiver sender o h f c)
  handle_operation-SameLate w header tx_id amount receiver sender (contextual_message_v1 cm) o h f
        c =
      handle_contextual_message-SameLate fj w header tx_id cm receiver sender h
  handle_operation-SameLate w header tx_id amount receiver sender (self_stash_v1 sss) o h f c =
      handle_self_stash-SameLate fj w header tx_id sss receiver sender h
