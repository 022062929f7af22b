-- ===== src/VirtualChain/Sync.antt =====
-- The virtual chain processor on a connection and on shutdown, and what its handlers share.
use kasia_indexer.Prelude.{
  ℕ, ◌+◌, ◌-◌, Bool, true, false, not, ◌&&◌, ◌||◌, Option, none, some, List, [], ◌∷◌, ◌++◌, map,
  ltb, if◌then◌else◌, is_some,
}
use kasia_indexer.Prelude.Bytes.{Bytes, bytes_eq, of_be}
use kasia_indexer.Prelude.Outcome.{Outcome, ok, bind}
use kasia_indexer.Fjall.{Fjall}
use kasia_indexer.RingMap.{RingMap}
use kasia_indexer.Db.Metadata.{get_latest_accepting_block_cursor}
use kasia_indexer.Db.Headers.{PendingResolutionKey, get_all_pending}
use kasia_indexer.VirtualChain.{
  VirtualChainChange, Command, request_sender, NotificationAck, stop, ChainBlock, SyncState,
  initial, synced, syncing, Cursor, cursor_from_db, StateShared, Actor,
}

abbrev pub is_empty {ℓ} : {A : Type ℓ} → List A → Bool
is_empty [] = true
is_empty (x ∷ xs) = false

-- both lists of a change are empty
abbrev pub changes_nothing : VirtualChainChange → Bool
changes_nothing vcc =
    is_empty vcc.removed_chain_block_hashes && is_empty vcc.added_chain_block_hashes

-- `Command::Request(Request::RequestSender { .. })` for a stored key
abbrev pub request_pending : PendingResolutionKey → Command
request_pending key = request_sender (of_be key.accepting_daa_score) key.tx_id

-- the `pop_front` of `realtime_queue_vcc`, one list of the schedule at a time
abbrev pub next_conflicts {ℓ} : {A : Type ℓ} → List (List A) → List A
next_conflicts [] = []
next_conflicts (c ∷ cs) = c

abbrev pub later_conflicts {ℓ} : {A : Type ℓ} → List (List A) → List (List A)
later_conflicts [] = []
later_conflicts (c ∷ cs) = cs

module _ (fj : Fjall) (rm : RingMap) where
  abbrev pub blocks : Actor fj rm → rm.Map
  blocks v = v.state.shared_state.processed_blocks

  abbrev pub queue : Actor fj rm → List VirtualChainChange
  queue v = v.state.shared_state.realtime_queue_vcc

  abbrev pub set_sync_state : SyncState → Actor fj rm → Actor fj rm
  set_sync_state s v = record v {
    state = record { shared_state = v.state.shared_state; sync_state = s };
  }

  abbrev pub set_shared : StateShared fj rm → Actor fj rm → Actor fj rm
  set_shared s v = record v { state = record { shared_state = s; sync_state = v.state.sync_state } }

  abbrev pub set_queue : List VirtualChainChange → Actor fj rm → Actor fj rm
  set_queue q v = set_shared (record (v.state.shared_state) { realtime_queue_vcc = q }) v

  abbrev pub set_blocks : rm.Map → Actor fj rm → Actor fj rm
  set_blocks m v = set_shared (record (v.state.shared_state) { processed_blocks = m }) v

  abbrev pub set_time : ℕ → Actor fj rm → Actor fj rm
  set_time now v = set_shared (record (v.state.shared_state) { processed_time_or_warn = now }) v

  abbrev pub acknowledge : ℕ → NotificationAck → Actor fj rm → Actor fj rm
  acknowledge syncer_id a v = record v { acks = v.acks ++ (syncer_id, a) ∷ [] }

  unfoldable pub spawn_syncer : ℕ → Bytes → Actor fj rm → Actor fj rm
  spawn_syncer syncer_id from v = record v { spawned = v.spawned ++ (syncer_id, from) ∷ [] }

  -- After 120 seconds without progress the processor warns, and waits anew.
  unfoldable pub warn_if_late : ℕ → Actor fj rm → Actor fj rm
  warn_if_late now v =
      if ltb 120 (now - v.state.shared_state.processed_time_or_warn) then set_time now v else v

  -- `added_chain_block_hashes.iter().any(|hash| !processed_blocks.contains_key(hash))`
  unfoldable pub any_unprocessed : rm.Map → List Bytes → Bool
  any_unprocessed m [] = false
  any_unprocessed m (h ∷ hs) = not (is_some (rm.get m h)) || any_unprocessed m hs

  unfoldable pub last_accepting_block_db : Actor fj rm → Outcome (Option Cursor)
  last_accepting_block_db v =
      bind (get_latest_accepting_block_cursor fj v.keyspace)
        λ c. elim c [ none ↦ ok none | some cursor ↦ ok (some (cursor_from_db cursor)) ]

  -- A syncer from the stored cursor, or from the pruning point where there is none.
  unfoldable pub start_syncing : ChainBlock → Bytes → Actor fj rm → Option Cursor → Actor fj rm
  unfolding spawn_syncer
  start_syncing sink pp v none =
      set_sync_state
        (syncing (record {
          last_accepting_block = record { hash = pp; blue_work = 0 };
          syncer_id = 0;
          target_block = sink;
          sync_queue = none;
        }))
        (spawn_syncer 0 pp v)
  start_syncing sink pp v (some c) =
      set_sync_state
        (syncing (record {
          last_accepting_block = record { hash = c.block_hash; blue_work = c.blue_work };
          syncer_id = 0;
          target_block = sink;
          sync_queue = none;
        }))
        (spawn_syncer 0 c.block_hash v)

  unfoldable pub connect_in : SyncState → ChainBlock → Bytes → Actor fj rm → Outcome (Actor fj rm)
  unfolding start_syncing last_accepting_block_db
  connect_in initial sink pp v = bind (get_all_pending fj v.keyspace) λ pending.
      let requested = record v { sent = v.sent ++ map request_pending pending } in
      bind (last_accepting_block_db requested) λ last. ok (start_syncing sink pp requested last)
  connect_in (syncing s) sink pp v =
      ok (set_sync_state (syncing (record s { target_block = sink })) v)
  connect_in (synced s) sink pp v =
      if bytes_eq s.last_accepting_block.hash sink.hash
        || ltb sink.blue_work s.last_accepting_block.blue_work
      then ok v
      else ok (
          set_sync_state
            (syncing (record {
              last_accepting_block = s.last_accepting_block;
              syncer_id = s.last_syncer_id + 1;
              target_block = sink;
              sync_queue = none;
            }))
            (spawn_syncer (s.last_syncer_id + 1) s.last_accepting_block.hash v))

  unfoldable pub handle_connect : ChainBlock → Bytes → Actor fj rm → Outcome (Actor fj rm)
  unfolding connect_in
  handle_connect sink pp v = connect_in v.state.sync_state sink pp v

  unfoldable pub shutdown_in : SyncState → Actor fj rm → Actor fj rm × Bool
  shutdown_in initial v = (v, false)
  shutdown_in (synced s) v = (v, false)
  shutdown_in (syncing s) v = (acknowledge s.syncer_id stop v, true)

  -- Whether to continue is returned.
  unfoldable pub handle_shutdown : Actor fj rm → Actor fj rm × Bool
  unfolding shutdown_in
  handle_shutdown v =
      shutdown_in v.state.sync_state
        (set_shared (record (v.state.shared_state) { shutting_down = true }) v)
