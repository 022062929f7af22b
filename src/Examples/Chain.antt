-- ===== src/Examples/Chain.antt =====
-- Examples of the virtual chain processor: a change with one block, and a queue.
use kasia_indexer.Prelude.{ℕ, ◌≡◌, refl, true, false, some, List, [], ◌∷◌, arith}
use kasia_indexer.Prelude.Bytes.{Bytes}
use kasia_indexer.Prelude.Outcome.{ok, for_each}
use kasia_indexer.Fjall.{Partition, same_cell}
use kasia_indexer.Db.Metadata.{
  get_latest_accepting_block_cursor, cursor_of_value, metadata_key, latest_accepting_block_cursor,
  cursor_bytes, read_cursor, advance, set_latest_accepting_block_cursor,
}
use kasia_indexer.Db.Layout.{unpack}
use kasia_indexer.Db.Acceptance.{key_by_tx_id, key_of_only, only_entry}
use kasia_indexer.Db.Headers.{
  get_all_pending, pending_of, insert_accepting_block, remove_accepting_block, flatten_hashes,
}
use kasia_indexer.VirtualChain.{
  CompactHeader, VirtualChainChange, Command, ChainBlock, Cursor, cursor_to_db, Synced, synced,
  Actor, new_state, ProcessedBlockOrVccOrSyncer, vcc, block, connected, continue, stop,
}
use kasia_indexer.VirtualChain.Cursors.{IsStorable, heavier, HoldsCursor, set_cursor-HoldsCursor}
use kasia_indexer.VirtualChain.Chain.{
  handle_vcc, attempt_vcc, handle_vcc_removal, handle_vcc_addition, handle_tracked, accept_tx,
  accept_known,
}
use kasia_indexer.VirtualChain.Chain.Frame.{IsOutside}
use kasia_indexer.VirtualChain.Chain.Advance.{
  EndsAt, StoresCursor, KeepsCell, block_of, handle_vcc-cursor,
}
use kasia_indexer.VirtualChain.Chain.Untouched.{handle_vcc-untouched}
use kasia_indexer.VirtualChain.Syncer.{Arrival, response, ack, unreachable}
use kasia_indexer.VirtualChain.Syncer.Answers.{Relays, process-Relays, process_reachable}
use kasia_indexer.VirtualChain.Syncer
use kasia_indexer.VirtualChain.Sync.{handle_connect, any_unprocessed}
use kasia_indexer.VirtualChain.Changes.{
  insert_block, evict, drain, commit_vcc, processed_block_in, handle_processed_block,
}
use kasia_indexer.VirtualChain.Changes.Drain.{Drained, handle_processed_block-Drained}
use kasia_indexer.VirtualChain.Process.{step, process}
use kasia_indexer.VirtualChain.Process.Invariant.{HasIds}
use kasia_indexer.VirtualChain.Process.Invariant.Loop.{process-HasIds}
use kasia_indexer.Examples.{kaspa, store, ring, hash, value}

abbrev old : Cursor
old = record { blue_work = 3; block_hash = hash 1; daa_score = 2 }

abbrev new : Cursor
new = record { blue_work = 9; block_hash = hash 7; daa_score = 5 }

old-IsStorable : IsStorable old
old-IsStorable = record { hash_length = refl; work_bound = omega arith }

new-IsStorable : IsStorable new
new-IsStorable = record { hash_length = refl; work_bound = omega arith }

abbrev cursor_log : store.Keyspace
cursor_log =
    (
      Partition.metadata,
      metadata_key latest_accepting_block_cursor,
      some (cursor_bytes (cursor_to_db old)),
    )
    ∷ []

-- the chain block 7 replaces the chain block 6
abbrev change : VirtualChainChange
change = record {
  removed_chain_block_hashes = hash 6 ∷ [];
  added_chain_block_hashes = hash 7 ∷ [];
  accepted_transaction_ids =
      record { accepting_block_hash = hash 7; accepted_transaction_ids = hash 21 ∷ [] } ∷ [];
}

abbrev processed_blocks : ring.Map
processed_blocks = (hash 6, 4, 8) ∷ (hash 7, 5, 9) ∷ []

change-EndsAt : EndsAt store ring processed_blocks change new
change-EndsAt = record { last = refl; block = refl; storable = new-IsStorable }

abbrev nothing : ChainBlock × store.Keyspace × List Command
nothing = (record { hash = []; blue_work = 0 }, [], [])

-- Another actor commits the block cursor meanwhile.
abbrev others : store.Keyspace → store.Keyspace
others s = store.insert s Partition.metadata (0 ∷ []) (hash 8)

abbrev applied : ChainBlock × store.Keyspace × List Command
applied = value nothing (handle_vcc store ring (others ∷ []) cursor_log processed_blocks change [])

change_is_applied :
    handle_vcc store ring (others ∷ []) cursor_log processed_blocks change [] ≡ ok applied
unfolding handle_vcc attempt_vcc handle_vcc_removal handle_vcc_addition handle_tracked accept_tx
    accept_known for_each key_by_tx_id key_of_only only_entry remove_accepting_block
    insert_accepting_block flatten_hashes set_latest_accepting_block_cursor advance read_cursor
    cursor_bytes unpack
change_is_applied = refl

keeps : KeepsCell store ring Partition.metadata (metadata_key latest_accepting_block_cursor) others
keeps s = refl

handle_vcc-cursor_example :
    (applied.0 ≡ block_of store ring new) × StoresCursor store ring applied.1 (heavier old new)
handle_vcc-cursor_example =
    handle_vcc-cursor store ring (others ∷ []) cursor_log processed_blocks change [] old new
      applied.0 applied.1 applied.2 change-EndsAt old-IsStorable refl (keeps, tt) change_is_applied

outside : IsOutside Partition.handshake_by_receiver
outside = record { not_accepting = refl; not_acceptance = refl; not_pending = refl }

keeps_messages : KeepsCell store ring Partition.handshake_by_receiver (hash 3) others
keeps_messages s = refl

handle_vcc-untouched_example :
    store.get applied.1 Partition.handshake_by_receiver (hash 3)
    ≡ store.get cursor_log Partition.handshake_by_receiver (hash 3)
handle_vcc-untouched_example =
    handle_vcc-untouched store ring Partition.handshake_by_receiver (hash 3) outside refl
      (others ∷ []) cursor_log processed_blocks change [] applied.0 applied.1 applied.2
      (keeps_messages, tt) change_is_applied

set_cursor-HoldsCursor_example :
    (w : store.WriteTransaction) × (set_latest_accepting_block_cursor store
        ([], cursor_log)
        (cursor_to_db new)
      ≡ ok w)
    × HoldsCursor store w (heavier old new)
    × (store.has_written w Partition.metadata (metadata_key latest_accepting_block_cursor) ≡ true)
    × ((q : Partition) (j : Bytes)
        → same_cell Partition.metadata (metadata_key latest_accepting_block_cursor) q j ≡ false
        → store.get_wtx w q j ≡ store.get_wtx ([], cursor_log) q j)
set_cursor-HoldsCursor_example =
    set_cursor-HoldsCursor store ([], cursor_log) old new old-IsStorable new-IsStorable refl

-- two changes wait; the block 7 arrives, and the block 10 does not
abbrev later_change : VirtualChainChange
later_change = record {
  removed_chain_block_hashes = [];
  added_chain_block_hashes = hash 10 ∷ [];
  accepted_transaction_ids = [];
}

abbrev syncs : Synced
syncs = record {
  last_syncer_id = 0;
  last_accepting_block = record { hash = hash 6; blue_work = 8 };
}

abbrev actor : Actor store ring
actor = record {
  state = record {
    shared_state = record {
      shutting_down = false;
      processed_blocks = (hash 6, 4, 8) ∷ [];
      realtime_queue_vcc = change ∷ later_change ∷ [];
      processed_time_or_warn = 0;
    };
    sync_state = synced syncs;
  };
  keyspace = cursor_log;
  sent = [];
  acks = [];
  spawned = [];
  resolved_senders = 0;
  schedule = [];
}

abbrev arrived : CompactHeader
arrived = record { block_hash = hash 7; blue_work = 9; daa_score = 5 }

abbrev drained : Actor store ring
drained = value actor (handle_processed_block store ring 10 arrived actor)

block_is_processed : handle_processed_block store ring 10 arrived actor ≡ ok drained
unfolding handle_processed_block processed_block_in drain commit_vcc any_unprocessed evict
    handle_vcc attempt_vcc handle_vcc_removal handle_vcc_addition handle_tracked accept_tx
    accept_known for_each key_by_tx_id key_of_only only_entry remove_accepting_block
    insert_accepting_block flatten_hashes set_latest_accepting_block_cursor advance read_cursor
    cursor_bytes unpack
block_is_processed = refl

handle_processed_block-Drained_example :
    Drained store ring
      (change ∷ later_change ∷ [])
      (insert_block store ring arrived (evict store ring 10 ((hash 6, 4, 8) ∷ [])))
      syncs
      actor
      drained
handle_processed_block-Drained_example =
    handle_processed_block-Drained store ring 10 arrived syncs actor drained refl block_is_processed

-- The node connects, and later connects again with a heavier sink.
abbrev fresh_actor : Actor store ring
fresh_actor = record {
  state = new_state store ring (arrived ∷ []) true 0;
  keyspace = cursor_log;
  sent = [];
  acks = [];
  spawned = [];
  resolved_senders = 0;
  schedule = [];
}

abbrev connections : List (ℕ × ProcessedBlockOrVccOrSyncer kaspa)
connections = (1, vcc (connected (hash 7) 9 (hash 0))) ∷ (2, block arrived) ∷ []

abbrev connected_actor : Actor store ring
connected_actor =
    (value (fresh_actor, true) (process store ring kaspa 10 connections fresh_actor)).0

actor_is_connected :
    process store ring kaspa 10 connections fresh_actor ≡ ok (connected_actor, true)
unfolding process step handle_connect new_state get_all_pending pending_of
    get_latest_accepting_block_cursor cursor_of_value read_cursor unpack cursor_bytes
    handle_processed_block
actor_is_connected = refl

fresh-HasIds : HasIds store ring fresh_actor
unfolding new_state
fresh-HasIds = refl

process-HasIds_example : HasIds store ring connected_actor
process-HasIds_example =
    process-HasIds store ring kaspa 10 connections fresh_actor connected_actor true fresh-HasIds
      actor_is_connected

-- A syncer gets an answer, asks again, and is told to stop.
abbrev arrivals : List Arrival
arrivals =
    response (record {
      removed_chain_block_hashes = [];
      added_chain_block_hashes = hash 8 ∷ hash 9 ∷ [];
      accepted_transaction_ids = [];
    })
    ∷ ack continue
    ∷ ack stop
    ∷ []

process-Relays_example : Relays 4 (hash 3) 1 arrivals (Syncer.process 4 (hash 3) arrivals)
process-Relays_example = process-Relays 4 (hash 3) arrivals (refl, (refl, tt))

process_reachable_example : ¬ ((Syncer.process 4 (hash 3) arrivals).end ≡ unreachable)
process_reachable_example = process_reachable 4 (hash 3) arrivals (refl, tt)
