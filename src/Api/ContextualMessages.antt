-- ===== src/Api/ContextualMessages.antt =====
-- indexer/src/api/v1/contextual_messages.rs
pub mod Answers
use kasia_indexer.Prelude.{ℕ, Option, none, some, [], length, ltb, if◌then◌else◌, unwrap_or}
use kasia_indexer.Prelude.Bytes.{Bytes, of_be}
use kasia_indexer.Prelude.Outcome.{Outcome, ok, panic, bind, of_option}
use kasia_indexer.Fjall.{Fjall}
use kasia_indexer.Db.{Kaspa}
use kasia_indexer.Db.Keys.{ContextualMessageBySenderKey, read_contextual, zero_padded}
use kasia_indexer.Db.Messages.Reads.{contextual_by_sender_alias, get_contextual_rtx}
use kasia_indexer.Push.{Libraries}
use kasia_indexer.Push.Dispatch.Events.{to_rpc_address}
use kasia_indexer.Api.{
  Parsers, ApiResponse, bad_request, answer, limit_of, cursor_of, page, with_address, acceptance,
}

pub record ContextualMessagePaginationParams : Type 0 where
  pub limit : Option ℕ
  pub block_time : Option ℕ
  pub address : Bytes
  pub alias : Bytes

pub record ContextualMessageResponse : Type 0 where
  pub tx_id : Bytes
  pub sender : Bytes
  pub alias : Bytes
  pub block_time : ℕ
  pub accepting_block : Option Bytes
  pub accepting_daa_score : Option ℕ
  pub message_payload : Bytes

module _ (lib : Libraries) (fj : Fjall) (k : Kaspa) (parsers : Parsers k) where
  -- one entry of the page
  unfoldable pub contextual_response :
      fj.Keyspace → Bytes → ContextualMessageBySenderKey → Bytes → Outcome ContextualMessageResponse
  contextual_response s alias key value = bind (to_rpc_address lib k key.sender) λ sender.
      bind (acceptance lib fj k parsers s key.tx_id) λ (accepting_block, accepting_daa_score).
        bind (of_option (panic "Message not found") (get_contextual_rtx fj s key.tx_id))
          λ sealed_hex. ok (record {
            tx_id = lib.hex_string key.tx_id;
            sender = unwrap_or sender [];
            alias = alias;
            block_time = of_be key.block_time;
            accepting_block = accepting_block;
            accepting_daa_score = accepting_daa_score;
            message_payload = lib.hex_string sealed_hex;
          })

  -- The alias of a request in sixteen bytes.
  unfoldable pub with_alias :
      Bytes
      → (Bytes → ApiResponse ContextualMessageResponse)
      → ApiResponse ContextualMessageResponse
  with_alias alias next =
      if ltb 32 (length alias)
      then bad_request "Alias hex length cannot exceed 32 characters"
      else elim (parsers.hex_decode alias) [
        | none ↦ bad_request "Invalid alias hex"
        | some bytes ↦ next (zero_padded 16 bytes)
      ]

  unfoldable pub get_contextual_messages_by_sender :
      ContextualMessagePaginationParams → fj.Keyspace → ApiResponse ContextualMessageResponse
  get_contextual_messages_by_sender params s =
      with_address lib fj k parsers params.address λ sender. with_alias params.alias λ alias_bytes.
        answer (
          page read_contextual (λ key. key.tx_id) (contextual_response s params.alias)
            (limit_of 10 params.limit) []
            (contextual_by_sender_alias fj s sender alias_bytes (cursor_of params.block_time)))
