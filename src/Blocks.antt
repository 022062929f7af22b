-- ===== src/Blocks.antt =====
-- indexer-actors/src/block_processor.rs: the data of the block processor. The children hold the
-- handlers of the operations (`Operations`), of a transaction and a block (`Transaction`), and the
-- loop with its gap fillers (`Process`).
pub mod Operations
pub mod Transaction
pub mod Process
pub mod GapFiller
use kasia_indexer.Prelude.{ℕ, Option, List}
use kasia_indexer.Prelude.Bytes.{Bytes}
use kasia_indexer.Db.{AddressPayload, Kaspa}

-- the fields of the RPC types that the processor reads
pub record RpcHeader : Type 0 where
  pub hash : Bytes
  pub timestamp : ℕ
  pub blue_work : ℕ
  pub daa_score : ℕ

pub record TransactionOutpoint : Type 0 where
  pub transaction_id : Bytes
  pub index : ℕ

pub record TransactionOutput (k : Kaspa) : Type 0 where
  pub value : ℕ
  pub script_public_key : k.ScriptPublicKey

-- `verbose_id` is the id in the verbose data; `computed_id` is what `Transaction::try_from` and
-- `id()` of the Kaspa library give, `none` where the conversion fails
pub record RpcTransaction (k : Kaspa) : Type 0 where
  pub verbose_id : Option Bytes
  pub computed_id : Option Bytes
  pub payload : Bytes
  pub outputs : List (TransactionOutput k)
  pub inputs : List TransactionOutpoint

pub record RpcBlock (k : Kaspa) : Type 0 where
  pub header : RpcHeader
  pub transactions : List (RpcTransaction k)

pub data PushMessageType : Type 0 where
  handshake payment contextual pulse_reply : PushMessageType

pub record PushDispatchEvent : Type 0 where
  pub message_type : PushMessageType
  pub tx_id : Bytes
  pub sender : Option AddressPayload
  pub receiver : AddressPayload
  pub amount : Option ℕ
  pub payload : Option Bytes
  pub timestamp : ℕ
