-- ===== src/Lib.antt =====
-- The indexer of Kasia, an encrypted messenger on the Kaspa network.
--
-- The indexer follows a Kaspa node. Two actors fill its database. The block processor
-- (indexer-actors/src/block_processor.rs) reads the payloads of the transactions of each block,
-- and stores those that are sealed operations: handshakes, payments, contextual messages and self
-- stashes. A transaction does not name its sender, so keys that need the sender wait as entries
-- under the id of the transaction. The virtual chain processor
-- (indexer-actors/src/virtual_chain_processor.rs) follows which block accepts which transaction,
-- asks the node for the senders of the accepted ones, and works off the entries when an address
-- arrives. Gap fillers and syncers fetch what was missed while the indexer was away, and a
-- periodic job removes the headers of old blocks.
--
-- The files and the code that they model:
--
-- - Protocol: protocol/src/operation.rs and operation/deserializer.rs. `parse_sealed_operation`
--   and one function for each nested match. Protocol/Grammar says what the writings of an
--   operation are.
-- - Fjall: the interface of the fjall store, a parameter of all that follows. Fjall/InMemory
--   meets it with a log of writes. RingMap is the same for the `ringmap` crate.
-- - Db: indexer-db/src/lib.rs (addresses, partition tags). Db/Keys: the keys of
--   indexer-db/src/messages; Db/Messages: the writes of those partitions; Db/Acceptance:
--   processing/tx_id_to_acceptance.rs; Db/Headers: headers/*.rs, processing/pending_senders.rs
--   and processing/accepting_block_to_txs.rs; Db/Metadata: metadata.rs. Db/Layout is the layout
--   of packed structs.
-- - Blocks: block_processor.rs. Operations has the five `handle_*` functions, Transaction has
--   `handle_transaction` and `handle_block`, Process the loop, its state and its retries.
--   GapFiller has the task of indexer-actors/src/block_gap_filler.rs that fills one gap, over a
--   list of rounds, what it is asked and answered in each; Served describes what it does in terms
--   of the answers. Process/Shutdown says when the loop returns.
-- - VirtualChain: virtual_chain_processor.rs. Chain has `handle_vcc` and what it calls, Sender
--   `handle_sender_address`, Sync the connection and the shutdown, Changes the handlers of
--   answers, notifications and processed blocks, Process the loop. Syncer has the task of
--   indexer-actors/src/virtual_chain_syncer.rs, over a list of what arrives at it; each request
--   has a channel of its own for its answer.
-- - Periodic: periodic_processor.rs, the job that removes old blocks. Periodic/Prune says what it
--   leaves, and Periodic/Prune/Indexed what the block processor writes into the index it reads.
-- - Push: indexer/src/push.rs with the requests of indexer/src/api/v1/push.rs. The push service
--   notifies the devices that wallets have registered: the block processor hands it an event for
--   each message. Normalize and Aliases have the `normalize_*` functions and the aliases of
--   contextual messages, Auth the challenges, Registry the requests that change the devices and
--   their file, Matching the choice of the devices, Dispatch one notification, Dispatch/Events
--   `dispatch_event`, `dispatch_pulse_reply` and `dispatch_presence`, and Requests the handlers
--   of the HTTP API.
-- - Api: indexer/src/api/v1, the requests that read handshakes, payments, contextual messages and
--   self stashes. Each is a page over a range of a partition: the ranges are in Db/Messages/Reads,
--   where Range and Found say what a range holds, for the formats of keys in Formats; Api/Page
--   says what a page shows, and Api/Addresses what the address of a request is read as.
-- - Prelude: tests, lists, byte strings, hash maps and the failure monad. Examples: concrete inputs.
--
-- The correspondence. A struct is a record, an enum a data type, a `[u8; N]` a list of bytes
-- whose length is a hypothesis where a theorem needs it, and a `U64` its eight bytes. Integers
-- are natural numbers; words that are stored are cut to their width, and the counter of the gap
-- fillers wraps around as a `usize` of a release build does. `Kaspa` holds what is used of the
-- Kaspa libraries: the class and the bytes of a script. An error that `?` passes up, and a panic,
-- are the failures of `Outcome`. A handler takes the state and returns it. What an actor sends,
-- spawns or acknowledges goes to logs in its state, in order. The committed store and the open
-- transaction are two arguments where the code reads the one while it writes to the other:
-- `key_by_tx_id` reads the committed store, and the header partitions are committed at once.
--
-- A commit may conflict. Each loop that retries takes a list: an item for each conflict, a
-- function that says what the other actors commit meanwhile. So the loops end by recursion on the
-- list; that there are finitely many conflicts is assumed. The loop over stored entries has the
-- number of their bytes as fuel, and the read of a list of hashes likewise; both suffice, as the
-- results say. The loops of the actors run over a list of inputs, in the order in which the
-- channels yield them, each with the time at which it is handled.
--
-- The push service is one state behind locks. Here its requests and its dispatches come one after
-- the other: none starts before the one before has written the file. The calls of APNs and FCM
-- are a list with an item for each notification, the answer and the times that pass before and
-- after it; the clock does not go back. A hash map is an association list, whose order is that of
-- a walk over it. Texts are their UTF-8 bytes. `Libraries` holds what is used of the hash, of the
-- address format and of Unicode, with no law assumed. The file is what it decodes to, and a write
-- of it that fails leaves anything. The settings that are read at each event are constant.
--
-- Not modelled: the data source and its connection to the node, most of the metrics, the
-- migration of old databases, iterators over whole partitions, the board,
-- the HTTP clients of APNs and FCM, the text of a notification but for its transaction, sender and type, gifts, the routes of the HTTP API
-- and the command line tools. Input and output errors of the store, and sends
-- and receives of the processors on closed channels, which end an actor, are left out, and so are
-- log messages.
pub mod Prelude
pub mod Protocol
pub mod Fjall
pub mod Db
pub mod RingMap
pub mod VirtualChain
pub mod Blocks
pub mod Periodic
pub mod Push
pub mod Api
pub mod Examples
