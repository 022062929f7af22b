-- ===== src/Api/Handshakes.antt =====
-- indexer/src/api/v1/handshakes.rs
pub mod Answers
use kasia_indexer.Prelude.{ℕ, Option, [], unwrap_or}
use kasia_indexer.Prelude.Bytes.{Bytes, of_be}
use kasia_indexer.Prelude.Outcome.{Outcome, ok, bail, panic, bind, of_option}
use kasia_indexer.Fjall.{Fjall}
use kasia_indexer.Db.{Kaspa, read_address}
use kasia_indexer.Db.Keys.{
  HandshakeKeyBySender, HandshakeKeyByReceiver, read_by_sender, read_by_receiver,
}
use kasia_indexer.Db.Messages.Reads.{
  handshakes_by_sender, handshakes_by_receiver, get_handshake_rtx,
}
use kasia_indexer.Push.{Libraries}
use kasia_indexer.Push.Dispatch.Events.{to_rpc_address}
use kasia_indexer.Api.{
  Parsers, ApiResponse, answer, limit_of, cursor_of, page, with_address, required_address,
  acceptance,
}

pub record HandshakePaginationParams : Type 0 where
  pub limit : Option ℕ
  pub block_time : Option ℕ
  pub address : Bytes

pub record HandshakeResponse : Type 0 where
  pub tx_id : Bytes
  pub sender : Bytes
  pub receiver : Bytes
  pub block_time : ℕ
  pub accepting_block : Option Bytes
  pub accepting_daa_score : Option ℕ
  pub message_payload : Bytes

module _ (lib : Libraries) (fj : Fjall) (k : Kaspa) (parsers : Parsers k) where
  unfoldable pub handshake_by_sender_response :
      fj.Keyspace → HandshakeKeyBySender → Bytes → Outcome HandshakeResponse
  handshake_by_sender_response s key value = bind (to_rpc_address lib k key.sender) λ sender.
      bind (required_address lib fj k parsers key.receiver) λ receiver.
        bind (acceptance lib fj k parsers s key.tx_id) λ (accepting_block, accepting_daa_score).
          bind (of_option (bail "Missing handshake payload") (get_handshake_rtx fj s key.tx_id))
            λ payload. ok (record {
              tx_id = lib.hex_string key.tx_id;
              sender = unwrap_or sender [];
              receiver = receiver;
              block_time = of_be key.block_time;
              accepting_block = accepting_block;
              accepting_daa_score = accepting_daa_score;
              message_payload = lib.hex_string payload;
            })

  unfoldable pub get_handshakes_by_sender :
      HandshakePaginationParams → fj.Keyspace → ApiResponse HandshakeResponse
  get_handshakes_by_sender params s = with_address lib fj k parsers params.address λ sender.
      answer (
        page read_by_sender (λ key. key.tx_id) (handshake_by_sender_response s)
          (limit_of 10 params.limit) []
          (handshakes_by_sender fj s sender (cursor_of params.block_time)))

  -- The value of an entry is the sender, where it is known.
  unfoldable pub handshake_by_receiver_response :
      fj.Keyspace → HandshakeKeyByReceiver → Bytes → Outcome HandshakeResponse
  handshake_by_receiver_response s key value =
      bind (of_option (panic "SharedImmutable: wrong size") (read_address value)) λ sender_payload.
        bind (to_rpc_address lib k sender_payload) λ sender.
          bind (required_address lib fj k parsers key.receiver) λ receiver.
            bind (acceptance lib fj k parsers s key.tx_id) λ (accepting_block, accepting_daa_score).
              bind (of_option (bail "Missing handshake payload") (get_handshake_rtx fj s key.tx_id))
                λ payload. ok (record {
                  tx_id = lib.hex_string key.tx_id;
                  sender = unwrap_or sender [];
                  receiver = receiver;
                  block_time = of_be key.block_time;
                  accepting_block = accepting_block;
                  accepting_daa_score = accepting_daa_score;
                  message_payload = lib.hex_string payload;
                })

  unfoldable pub get_handshakes_by_receiver :
      HandshakePaginationParams → fj.Keyspace → ApiResponse HandshakeResponse
  get_handshakes_by_receiver params s = with_address lib fj k parsers params.address λ receiver.
      answer (
        page read_by_receiver (λ key. key.tx_id) (handshake_by_receiver_response s)
          (limit_of 10 params.limit) []
          (handshakes_by_receiver fj s receiver (cursor_of params.block_time)))
