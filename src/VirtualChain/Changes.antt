-- ===== src/VirtualChain/Changes.antt =====
-- The virtual chain processor on an answer of a syncer, on a notification of the node, and on a
-- block that has been processed. A change is applied once all its added blocks are processed, and
-- waits in a queue before that. `now` is the time of the call in seconds.
pub mod Drain
use kasia_indexer.Prelude.{
  ℕ, zero, suc, ◌+◌, ◌-◌, Bool, true, false, not, ◌&&◌, ◌||◌, Option, none, some, List, [], ◌∷◌,
  ◌++◌, last?, ltb, ◌==◌, if◌then◌else◌, is_some,
}
use kasia_indexer.Prelude.Bytes.{Bytes, bytes_eq}
use kasia_indexer.Prelude.Outcome.{Outcome, ok, err, bail, panic, bind, of_option, assert}
use kasia_indexer.Fjall.{Fjall}
use kasia_indexer.RingMap.{RingMap}
use kasia_indexer.VirtualChain.{
  CompactHeader, VirtualChainChange, continue, stop, ChainBlock, Synced, Syncing, SyncState,
  initial, synced, syncing, Actor,
}
use kasia_indexer.VirtualChain.Chain.{processed, handle_vcc}
use kasia_indexer.VirtualChain.Sync.{
  is_empty, changes_nothing, next_conflicts, later_conflicts, blocks, queue, set_sync_state,
  set_queue, set_blocks, set_time, acknowledge, warn_if_late, any_unprocessed,
}

module _ (fj : Fjall) (rm : RingMap) where
  -- `handle_vcc` and `handle_vc_resp` on the actor's own state
  unfoldable pub commit_vcc : VirtualChainChange → Actor fj rm → Outcome (ChainBlock × Actor fj rm)
  commit_vcc vcc v =
      bind (handle_vcc fj rm (next_conflicts v.schedule) v.keyspace (blocks fj rm v) vcc v.sent)
        λ (last, s, sent).
          ok (last, record v { keyspace = s; sent = sent; schedule = later_conflicts v.schedule })

  -- the last added block is the target of the syncer, or has more blue work
  unfoldable pub reaches_target : rm.Map → Syncing → Bytes → Outcome Bool
  reaches_target m s last =
      if bytes_eq last s.target_block.hash
      then ok true
      else bind (processed fj rm m last)
          λ (daa, blue_work). ok (ltb s.target_block.blue_work blue_work)

  -- Stops the syncer and is synced, or asks it for more.
  unfoldable pub apply_reached :
      (Actor fj rm → Actor fj rm)
      → Syncing
      → VirtualChainChange
      → Actor fj rm
      → Bool
      → Outcome (Actor fj rm)
  unfolding commit_vcc
  apply_reached progress s vcc v true =
      bind (commit_vcc vcc (acknowledge fj rm s.syncer_id stop v)) λ (last, v'). ok (
        set_sync_state fj rm
          (synced (record { last_syncer_id = s.syncer_id; last_accepting_block = last })) v')
  apply_reached progress s vcc v false = bind (commit_vcc vcc v) λ (last, v'). ok (
      acknowledge fj rm s.syncer_id continue
        (set_sync_state fj rm (syncing (record s { last_accepting_block = last })) (progress v')))

  -- The end of `handle_syncer_vc`, and of `handle_processed_block` while syncing. Only the first
  -- notes the time of the progress.
  unfoldable pub apply_sync_vc :
      (Actor fj rm → Actor fj rm)
      → Syncing
      → VirtualChainChange
      → Actor fj rm
      → Outcome (Actor fj rm)
  unfolding reaches_target apply_reached
  apply_sync_vc progress s vcc v =
      bind
        (of_option (panic "called `Option::unwrap()` on a `None` value")
          (last? vcc.added_chain_block_hashes))
        λ last.
          bind (reaches_target (blocks fj rm v) s last)
            λ reached. apply_reached progress s vcc v reached

  unfoldable pub syncer_vc_in :
      SyncState → ℕ → ℕ → VirtualChainChange → Actor fj rm → Outcome (Actor fj rm)
  unfolding apply_sync_vc
  syncer_vc_in (syncing s) now id vcc v = assert (id == s.syncer_id) (
      if changes_nothing vcc
      then ok (acknowledge fj rm s.syncer_id continue v)
      else if any_unprocessed fj rm (blocks fj rm v) vcc.added_chain_block_hashes
      then assert (not (is_some s.sync_queue)) (
          ok (
            set_sync_state fj rm (syncing (record s { sync_queue = some vcc }))
              (warn_if_late fj rm now v)))
      else apply_sync_vc (set_time fj rm now) s vcc v)
  syncer_vc_in _ now id vcc v = err (panic "internal error: entered unreachable code")

  unfoldable pub handle_syncer_vc : ℕ → ℕ → VirtualChainChange → Actor fj rm → Outcome (Actor fj rm)
  unfolding syncer_vc_in
  handle_syncer_vc now notification_syncer_id vcc v =
      syncer_vc_in v.state.sync_state now notification_syncer_id vcc v

  unfoldable pub realtime_vcc_in :
      SyncState → ℕ → VirtualChainChange → Actor fj rm → Outcome (Actor fj rm)
  unfolding commit_vcc
  realtime_vcc_in initial now vcc v = err (panic "internal error: entered unreachable code")
  realtime_vcc_in (syncing s) now vcc v = ok (set_queue fj rm (queue fj rm v ++ vcc ∷ []) v)
  realtime_vcc_in (synced s) now vcc v =
      if changes_nothing vcc
      then ok v
      else if not (is_empty (queue fj rm v))
          || any_unprocessed fj rm (blocks fj rm v) vcc.added_chain_block_hashes
      then ok (set_queue fj rm (queue fj rm v ++ vcc ∷ []) (warn_if_late fj rm now v))
      else bind (commit_vcc vcc v) λ (last, v'). ok (
          set_sync_state fj rm (synced (record s { last_accepting_block = last }))
            (set_time fj rm now v'))

  unfoldable pub handle_realtime_vcc : ℕ → VirtualChainChange → Actor fj rm → Outcome (Actor fj rm)
  unfolding realtime_vcc_in
  handle_realtime_vcc now vcc v = realtime_vcc_in v.state.sync_state now vcc v

  -- Whether to continue is returned. Syncers of the past are ignored.
  unfoldable pub syncer_stopped_in : SyncState → Bool → ℕ → Outcome Bool
  syncer_stopped_in initial shutting_down syncer_id =
      err (panic "internal error: entered unreachable code")
  syncer_stopped_in (synced s) shutting_down syncer_id =
      ok (not ((syncer_id == s.last_syncer_id) && shutting_down))
  syncer_stopped_in (syncing s) shutting_down syncer_id =
      if syncer_id == s.syncer_id
      then (if shutting_down
          then ok false
          else err (bail "Syncer stopped but we are still syncing"))
      else ok true

  unfoldable pub handle_syncer_stopped : ℕ → Actor fj rm → Outcome Bool
  unfolding syncer_stopped_in
  handle_syncer_stopped syncer_id v =
      syncer_stopped_in v.state.sync_state v.state.shared_state.shutting_down syncer_id

  abbrev pub pop_fronts : ℕ → rm.Map → rm.Map
  pop_fronts zero m = m
  pop_fronts (suc n) m = pop_fronts n (rm.pop_front m)

  -- Makes room for one more block; the subtraction saturates.
  unfoldable pub evict : ℕ → rm.Map → rm.Map
  evict synced_capacity m = pop_fronts (rm.len m + 1 - synced_capacity) m

  abbrev pub insert_block : CompactHeader → rm.Map → rm.Map
  insert_block h m = rm.insert m h.block_hash (h.daa_score, h.blue_work)

  -- The `while let` loop over the queue, with what is left of the queue in its first argument.
  unfoldable pub drain : List VirtualChainChange → Synced → Actor fj rm → Outcome (Actor fj rm)
  unfolding commit_vcc
  drain [] s v = ok (set_sync_state fj rm (synced s) (set_queue fj rm [] v))
  drain (vcc ∷ more) s v = elim (changes_nothing vcc) [
    | true ↦ drain more s v
    | false ↦ elim (any_unprocessed fj rm (blocks fj rm v) vcc.added_chain_block_hashes) [
      | true ↦ ok (set_sync_state fj rm (synced s) (set_queue fj rm (vcc ∷ more) v))
      | false ↦
          bind (commit_vcc vcc v)
            λ (last, v'). drain more (record s { last_accepting_block = last }) v'
    ]
  ]

  -- A change that waited for blocks is applied, or goes on waiting.
  unfoldable pub retry_queued :
      Syncing → Actor fj rm → Option VirtualChainChange → Outcome (Actor fj rm)
  unfolding apply_sync_vc
  retry_queued s v none = ok (set_sync_state fj rm (syncing (record s { sync_queue = none })) v)
  retry_queued s v (some vcc) =
      if any_unprocessed fj rm (blocks fj rm v) vcc.added_chain_block_hashes
      then ok (set_sync_state fj rm (syncing (record s { sync_queue = some vcc })) v)
      else apply_sync_vc (λ v'. v') (record s { sync_queue = none }) vcc v

  unfoldable pub processed_block_in :
      ℕ → SyncState → CompactHeader → Actor fj rm → Outcome (Actor fj rm)
  unfolding evict drain retry_queued
  processed_block_in synced_capacity initial h v =
      ok (set_blocks fj rm (insert_block h (blocks fj rm v)) v)
  processed_block_in synced_capacity (synced s) h v =
      drain (queue fj rm v) s
        (set_blocks fj rm (insert_block h (evict synced_capacity (blocks fj rm v))) v)
  processed_block_in synced_capacity (syncing s) h v =
      retry_queued s (set_blocks fj rm (insert_block h (evict synced_capacity (blocks fj rm v))) v)
        s.sync_queue

  unfoldable pub handle_processed_block : ℕ → CompactHeader → Actor fj rm → Outcome (Actor fj rm)
  unfolding processed_block_in
  handle_processed_block synced_capacity compact_header v =
      processed_block_in synced_capacity v.state.sync_state compact_header v
