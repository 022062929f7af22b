-- ===== src/Api/Payments.antt =====
-- indexer/src/api/v1/payments.rs
use kasia_indexer.Prelude.{ℕ, Option, some, []}
use kasia_indexer.Prelude.Bytes.{Bytes, of_be}
use kasia_indexer.Prelude.Outcome.{Outcome, ok, bail, panic, bind, of_option}
use kasia_indexer.Fjall.{Fjall}
use kasia_indexer.Db.{Kaspa, read_address}
use kasia_indexer.Db.Keys.{
  PaymentKeyBySender, PaymentKeyByReceiver, read_by_sender, read_by_receiver,
}
use kasia_indexer.Db.Messages.Reads.{
  payments_by_sender, payments_by_receiver, get_payment_rtx, payment_data,
}
use kasia_indexer.Push.{Libraries}
use kasia_indexer.Push.Dispatch.Events.{to_rpc_address}
use kasia_indexer.Api.{
  Parsers, ApiResponse, answer, limit_of, cursor_of, page, with_address, required_address,
  acceptance,
}

pub record PaymentPaginationParams : Type 0 where
  pub limit : Option ℕ
  pub block_time : Option ℕ
  pub address : Bytes

pub record PaymentResponse : Type 0 where
  pub tx_id : Bytes
  pub sender : Option Bytes
  pub receiver : Bytes
  pub block_time : ℕ
  pub amount : ℕ
  pub message : Bytes
  pub accepting_block : Option Bytes
  pub accepting_daa_score : Option ℕ

module _ (lib : Libraries) (fj : Fjall) (k : Kaspa) (parsers : Parsers k) where
  -- the stored value of a payment
  abbrev stored_payment : fj.Keyspace → Bytes → Outcome Bytes
  stored_payment s tx_id =
      bind (get_payment_rtx fj s tx_id) (of_option (bail "Payment data inconsistency"))

  -- The sender of a payment by sender is the text of the request.
  unfoldable pub payment_by_sender_response :
      Bytes → fj.Keyspace → PaymentKeyBySender → Bytes → Outcome PaymentResponse
  payment_by_sender_response address s key value = bind (stored_payment s key.tx_id) λ stored.
      bind (acceptance lib fj k parsers s key.tx_id) λ (accepting_block, accepting_daa_score).
        bind (required_address lib fj k parsers key.receiver) λ receiver.
          bind (payment_data stored) λ (amount, sealed_hex). ok (record {
            tx_id = lib.hex_string key.tx_id;
            sender = some address;
            receiver = receiver;
            block_time = of_be key.block_time;
            amount = amount;
            message = lib.hex_string sealed_hex;
            accepting_block = accepting_block;
            accepting_daa_score = accepting_daa_score;
          })

  unfoldable pub get_payments_by_sender :
      PaymentPaginationParams → fj.Keyspace → ApiResponse PaymentResponse
  get_payments_by_sender params s = with_address lib fj k parsers params.address λ sender. answer (
      page read_by_sender (λ key. key.tx_id) (payment_by_sender_response params.address s)
        (limit_of 10 params.limit) []
        (payments_by_sender fj s sender (cursor_of params.block_time)))

  unfoldable pub payment_by_receiver_response :
      fj.Keyspace → PaymentKeyByReceiver → Bytes → Outcome PaymentResponse
  payment_by_receiver_response s key value = bind (stored_payment s key.tx_id) λ stored.
      bind (acceptance lib fj k parsers s key.tx_id) λ (accepting_block, accepting_daa_score).
        bind (of_option (panic "SharedImmutable: wrong size") (read_address value))
          λ sender_payload. bind (to_rpc_address lib k sender_payload) λ sender.
            bind (required_address lib fj k parsers key.receiver) λ receiver.
              bind (payment_data stored) λ (amount, sealed_hex). ok (record {
                tx_id = lib.hex_string key.tx_id;
                sender = sender;
                receiver = receiver;
                block_time = of_be key.block_time;
                amount = amount;
                message = lib.hex_string sealed_hex;
                accepting_block = accepting_block;
                accepting_daa_score = accepting_daa_score;
              })

  unfoldable pub get_payments_by_receiver :
      PaymentPaginationParams → fj.Keyspace → ApiResponse PaymentResponse
  get_payments_by_receiver params s = with_address lib fj k parsers params.address λ receiver.
      answer (
        page read_by_receiver (λ key. key.tx_id) (payment_by_receiver_response s)
          (limit_of 10 params.limit) []
          (payments_by_receiver fj s receiver (cursor_of params.block_time)))
