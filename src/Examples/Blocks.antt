-- ===== src/Examples/Blocks.antt =====
-- Examples of the block processor: blocks in memory, a commit that conflicts, and gaps.
use kasia_indexer.Prelude.{
  ◌≡◌, refl, true, false, none, some, is_some, if◌then◌else◌, arith, List, [], ◌∷◌,
}
use kasia_indexer.Prelude.Outcome.{ok, for_each}
use kasia_indexer.Fjall.{Partition}
use kasia_indexer.Protocol.{
  parse_sealed_operation, parse_versioned, parse_v1, parse_comm, delimiter_position,
}
use kasia_indexer.Db.{address_of_script, address_of_class}
use kasia_indexer.Db.Metadata.{get_latest_block_cursor}
use kasia_indexer.Db.Headers.{insert_compact_header, insert_daa_index, add_gap_wtx}
use kasia_indexer.Db.Acceptance.{insert_wtx}
use kasia_indexer.Db.Messages.{insert_tx_id_to_contextual_message}
use kasia_indexer.Blocks.{RpcBlock}
use kasia_indexer.Blocks.Operations.{handle_contextual_message}
use kasia_indexer.Blocks.Transaction.{
  Handling, handle_block, handle_new_block, handle_transaction, handle_if_parsed, handle_parsed,
  handle_operation, first_output, known_sender, transaction_id,
}
use kasia_indexer.Blocks.Transaction.Effects.{with_header, handle_block-twice}
use kasia_indexer.Blocks.Process.{
  Worker, commit_block, take_block, step, from_filler, from_node, shutdown, update, finished,
  interrupted, NotificationOrGapResult, process, handle_notification, gap_block, finish_gap,
  last_gap_block, filler_ended, one_less, remove_filler, interrupt_fillers,
}
use kasia_indexer.Blocks.Process.Conflicts.{fresh, skipped, KeepsHeader, commit_block-conflict}
use kasia_indexer.Blocks.Process.Progress.{GapFrom, handle_notification-cursor, step-GapFrom}
use kasia_indexer.Blocks.Process.Shutdown.{Halts, process-Halts}
use kasia_indexer.Periodic.Prune.{IsIndex}
use kasia_indexer.Periodic.Prune.Indexed.{index, key_of, handle_block-IsIndex}
use kasia_indexer.Blocks.GapFiller.{
  Interrupt, empty, Answer, blocks, shutting_down, Reported, sync, has_target,
}
use kasia_indexer.Blocks.GapFiller.Served.{Fills, sync-Fills}
use kasia_indexer.Examples.{store, kaspa, hash, header, block, value}

abbrev start : Handling store kaspa
start = fresh store kaspa true [] 0

abbrev handled : Handling store kaspa
handled = value start (handle_block store kaspa block true start)

block_is_handled : handle_block store kaspa block true start ≡ ok handled
unfolding handle_block handle_new_block insert_compact_header insert_daa_index for_each
    handle_transaction handle_if_parsed handle_parsed handle_operation first_output known_sender
    transaction_id parse_sealed_operation parse_versioned parse_v1 parse_comm delimiter_position
    address_of_script address_of_class
block_is_handled = refl

handle_block-twice_example :
    handle_block store kaspa block false handled
    ≡ ok (record handled { keyspace = with_header store kaspa handled.keyspace header })
handle_block-twice_example =
    handle_block-twice store kaspa block true false start handled block_is_handled

-- Another actor commits a database version meanwhile.
abbrev others : store.Keyspace → store.Keyspace
others s = store.insert s Partition.metadata (2 ∷ []) (1 ∷ 0 ∷ 0 ∷ 0 ∷ [])

others-KeepsHeader : KeepsHeader store kaspa true header others
others-KeepsHeader s (v, e) = (v, e)

abbrev finish : store.WriteTransaction → store.WriteTransaction
finish w = store.insert_wtx w Partition.metadata (0 ∷ []) (hash 7)

commit_block-conflict_example :
    (s : store.Keyspace) × (commit_block store kaspa true (others ∷ []) block true finish [] 0
      ≡ ok (skipped store kaspa true header finish s handled.blocks_processed))
commit_block-conflict_example =
    commit_block-conflict store kaspa true others [] block true finish [] 0 handled block_is_handled
      (others-KeepsHeader, tt)

-- a second block, without transactions
abbrev next_block : RpcBlock kaspa
next_block = record {
  header = record { hash = hash 8; timestamp = 6; blue_work = 10; daa_score = 4 };
  transactions = [];
}

-- A worker that fills a gap up to the block 9.
abbrev worker : Worker store
worker = record {
  keyspace = (Partition.block_gaps, hash 9, some (hash 6)) ∷ [];
  has_first_connect = true;
  gaps_fillers = hash 9 ∷ [];
  is_shutdown = false;
  last_processed_block = none;
  gaps_filling_in_progress = 1;
  blocks_processed = 0;
  spawned = record { from = hash 6; to = hash 9 } ∷ [];
  interruptions = [];
  processed_blocks = [];
  offered_events = [];
  schedule = [];
}

abbrev notified : Worker store
notified = value worker (handle_notification store kaspa true block worker)

notification_is_handled : handle_notification store kaspa true block worker ≡ ok notified
unfolding handle_notification take_block commit_block handle_block handle_new_block
    insert_compact_header insert_daa_index for_each handle_transaction handle_if_parsed
    handle_parsed handle_operation first_output known_sender transaction_id parse_sealed_operation
    parse_versioned parse_v1 parse_comm delimiter_position address_of_script address_of_class
notification_is_handled = refl

handle_notification-cursor_example :
    get_latest_block_cursor store notified.keyspace ≡ ok (some (hash 7))
handle_notification-cursor_example =
    handle_notification-cursor store kaspa true block worker notified refl notification_is_handled

abbrev filled : Worker store
filled =
    value worker
      (step store kaspa true (from_filler (finished (hash 9) (block ∷ next_block ∷ []))) worker)

finish_is_handled :
    step store kaspa true (from_filler (finished (hash 9) (block ∷ next_block ∷ []))) worker
    ≡ ok filled
unfolding step finish_gap gap_block last_gap_block filler_ended take_block commit_block handle_block
    handle_new_block insert_compact_header insert_daa_index for_each handle_transaction
    handle_if_parsed handle_parsed handle_operation first_output known_sender transaction_id
    parse_sealed_operation parse_versioned parse_v1 parse_comm delimiter_position address_of_script
    address_of_class add_gap_wtx insert_wtx handle_contextual_message
    insert_tx_id_to_contextual_message
finish_is_handled = refl

step-GapFrom_example : GapFrom store kaspa true (hash 9) none filled.keyspace
step-GapFrom_example =
    step-GapFrom store kaspa true (finished (hash 9) (block ∷ next_block ∷ [])) (some (hash 6))
      worker filled refl finish_is_handled

abbrev last_inputs : List (NotificationOrGapResult kaspa)
last_inputs = from_node shutdown ∷ from_filler (interrupted (hash 9)) ∷ []

abbrev stopped : Worker store
stopped = record worker {
  is_shutdown = true;
  gaps_fillers = [];
  gaps_filling_in_progress = 0;
  interruptions = hash 9 ∷ [];
}

worker_stops : process store kaspa true last_inputs worker ≡ ok (stopped, true)
unfolding process step interrupt_fillers filler_ended one_less remove_filler
worker_stops = refl

process-Halts_example : Halts store kaspa true false last_inputs worker stopped true
process-Halts_example =
    process-Halts store kaspa true last_inputs worker stopped true refl worker_stops

empty-IsIndex : IsIndex store start.keyspace
empty-IsIndex key value e = cc

handle_block-IsIndex_example :
    IsIndex store handled.keyspace
    × (store.get handled.keyspace (index store kaspa true) (key_of store kaspa true block) ≡ (
        if is_some (store.get start.keyspace Partition.block_compact_header (hash 7))
        then store.get start.keyspace (index store kaspa true) (key_of store kaspa true block)
        else some []))
handle_block-IsIndex_example =
    handle_block-IsIndex store kaspa true block true start handled empty-IsIndex (omega arith) refl
      block_is_handled

-- A page without the target, an answer on shutdown, and the page that has the target.
abbrev target_block : RpcBlock kaspa
target_block = record block { header = record header { hash = hash 77 } }

abbrev rounds : List (Interrupt × Answer kaspa)
rounds =
    (empty, blocks (block ∷ [])) ∷ (empty, shutting_down) ∷ (empty, blocks (target_block ∷ [])) ∷ []

abbrev sent : Reported kaspa
sent = record {
  requests = hash 5 ∷ hash 7 ∷ hash 7 ∷ [];
  progress = update (hash 77) (block ∷ []) ∷ finished (hash 77) (target_block ∷ []) ∷ [];
  returned = true;
}

rounds_are_sent : sync kaspa (hash 77) rounds (hash 5) ≡ ok sent
unfolding sync has_target
rounds_are_sent = refl

sync-Fills_example : Fills kaspa (hash 77) (hash 5) rounds sent
sync-Fills_example = sync-Fills kaspa (hash 77) rounds (hash 5) sent rounds_are_sent
