-- ===== src/VirtualChain.antt =====
-- indexer-actors/src/virtual_chain_processor.rs: the data of the virtual chain processor. The
-- children hold its operations (`Chain`, `Sender`, `Sync`, `Changes`, `Process`) and the proofs.
--
-- The actor owns no thread state beside `State`: what it does to others is in `Actor`, the
-- committed store, the commands and acknowledgements that it has sent, and the syncers that it has
-- spawned. `schedule` holds what the other actors commit while its own commits conflict.
pub mod Chain
pub mod Sender
pub mod Sync
pub mod Changes
pub mod Process
pub mod Cursors
pub mod Syncer
use kasia_indexer.Prelude.{
  ℕ, Bool, false, Option, none, some, List, [], ◌∷◌, reverse, ltb, if◌then◌else◌,
}
use kasia_indexer.Prelude.Bytes.{Bytes, to_be, of_be, to_le, of_le}
use kasia_indexer.Fjall.{Fjall}
use kasia_indexer.RingMap.{RingMap}
use kasia_indexer.Db.Metadata
use kasia_indexer.Db.{Kaspa}

-- a processed block, as the block processor sends it
pub record CompactHeader : Type 0 where
  pub block_hash : Bytes
  pub blue_work : ℕ
  pub daa_score : ℕ

-- the RPC types: the transactions that a chain block accepts, and a change of the chain, which is
-- a `VirtualChainChangedNotification` and a `GetVirtualChainFromBlockResponse`
pub record AcceptedTransactionIds : Type 0 where
  pub accepting_block_hash : Bytes
  pub accepted_transaction_ids : List Bytes

pub record VirtualChainChange : Type 0 where
  pub removed_chain_block_hashes : List Bytes
  pub added_chain_block_hashes : List Bytes
  pub accepted_transaction_ids : List AcceptedTransactionIds

-- what the processor asks of the data source
pub data Command : Type 0 where
  request_sender : ℕ → Bytes → Command
  request_virtual_chain : Bytes → Command
  request_blocks : Bytes → Command
  mark_block_sender_closed mark_vcc_sender_closed : Command

pub data NotificationAck : Type 0 where
  continue stop : NotificationAck

pub data RealTimeVccNotification (k : Kaspa) : Type 0 where
  connected : Bytes → ℕ → Bytes → RealTimeVccNotification k
  disconnected shutdown : RealTimeVccNotification k
  notification : VirtualChainChange → RealTimeVccNotification k
  sender_resolution : k.Address → Bytes → ℕ → RealTimeVccNotification k

pub data SyncVccNotification : Type 0 where
  virtual_chain : ℕ → VirtualChainChange → SyncVccNotification
  stopped : ℕ → SyncVccNotification

pub data ProcessedBlockOrVccOrSyncer (k : Kaspa) : Type 0 where
  block : CompactHeader → ProcessedBlockOrVccOrSyncer k
  vcc : RealTimeVccNotification k → ProcessedBlockOrVccOrSyncer k
  syncer : SyncVccNotification → ProcessedBlockOrVccOrSyncer k

-- a block hash with its blue work
pub record ChainBlock : Type 0 where
  pub hash : Bytes
  pub blue_work : ℕ

pub record Synced : Type 0 where
  pub last_syncer_id : ℕ
  pub last_accepting_block : ChainBlock

-- the channel to a syncer is named by the syncer's id
pub record Syncing : Type 0 where
  pub last_accepting_block : ChainBlock
  pub syncer_id : ℕ
  pub target_block : ChainBlock
  pub sync_queue : Option VirtualChainChange

pub data SyncState : Type 0 where
  initial : SyncState
  synced : Synced → SyncState
  syncing : Syncing → SyncState

-- a cursor before it is stored
pub record Cursor : Type 0 where
  pub blue_work : ℕ
  pub block_hash : Bytes
  pub daa_score : ℕ

abbrev pub cursor_from_db : Metadata.Cursor → Cursor
cursor_from_db c = record {
  blue_work = of_be c.blue_work;
  block_hash = c.block_hash;
  daa_score = of_le c.daa_score;
}

abbrev pub cursor_to_db : Cursor → Metadata.Cursor
cursor_to_db c = record {
  blue_work = to_be 24 c.blue_work;
  block_hash = c.block_hash;
  daa_score = to_le 8 c.daa_score;
}

module _ (fj : Fjall) (rm : RingMap) where
  pub record StateShared : Type 0 where
    pub shutting_down : Bool
    pub processed_blocks : rm.Map
    pub realtime_queue_vcc : List VirtualChainChange
    pub processed_time_or_warn : ℕ

  pub record State : Type 0 where
    pub shared_state : StateShared
    pub sync_state : SyncState

  pub record Actor : Type 0 where
    pub state : State
    pub keyspace : fj.Keyspace
    pub sent : List Command
    pub acks : List (ℕ × NotificationAck)
    pub spawned : List (ℕ × Bytes)
    pub resolved_senders : ℕ
    pub schedule : List (List (fj.Keyspace → fj.Keyspace))

  abbrev insert_all : List CompactHeader → rm.Map → rm.Map
  insert_all [] m = m
  insert_all (h ∷ hs) m = insert_all hs (rm.insert m h.block_hash (h.daa_score, h.blue_work))

  -- `StateShared::new`: the blocks in ascending order
  unfoldable pub new_state_shared : List CompactHeader → Bool → ℕ → StateShared
  new_state_shared processed_blocks asc_order now = record {
    shutting_down = false;
    processed_blocks =
        insert_all (if asc_order then processed_blocks else reverse processed_blocks) rm.new;
    realtime_queue_vcc = [];
    processed_time_or_warn = now;
  }

  unfoldable pub new_state : List CompactHeader → Bool → ℕ → State
  unfolding new_state_shared
  new_state processed_blocks asc_order now = record {
    shared_state = new_state_shared processed_blocks asc_order now;
    sync_state = initial;
  }
