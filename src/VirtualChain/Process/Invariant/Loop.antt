-- ===== src/VirtualChain/Process/Invariant/Loop.antt =====
-- The ids of the syncers through the handlers of connections and processed blocks, and the loop.
use kasia_indexer.Prelude.{
  ℕ, suc, ◌+◌, ◌≡◌, refl, Bool, true, false, ◌||◌, Option, none, some, List, [], ◌∷◌, ◌++◌, map,
  Bool-cases, inl, inr, ap, ◌∙◌, ltb, arith,
}
use kasia_indexer.Prelude.Bytes.{Bytes, bytes_eq}
use kasia_indexer.Prelude.Outcome.{
  ok, Ensures, ok-Ensures, if-Ensures, Ensures-apply, bind-Ensures, bind-Ensures_any,
}
use kasia_indexer.Fjall.{Fjall}
use kasia_indexer.RingMap.{RingMap}
use kasia_indexer.Db.{Kaspa}
use kasia_indexer.Db.Headers.{get_all_pending}
use kasia_indexer.VirtualChain.{
  CompactHeader, VirtualChainChange, ChainBlock, Synced, Syncing, SyncState, initial, synced,
  syncing, Cursor, Actor, ProcessedBlockOrVccOrSyncer, block, vcc, syncer, connected, disconnected,
  shutdown, notification, sender_resolution, virtual_chain, stopped,
}
use kasia_indexer.VirtualChain.Sender.{handle_sender_address}
use kasia_indexer.VirtualChain.Sync.{
  changes_nothing, request_pending, next_conflicts, blocks, queue, set_shared, any_unprocessed,
  spawn_syncer, start_syncing, last_accepting_block_db, connect_in, handle_connect, shutdown_in,
  handle_shutdown,
}
use kasia_indexer.VirtualChain.Changes.{
  handle_syncer_vc, handle_realtime_vcc, handle_syncer_stopped, drain, retry_queued,
  processed_block_in, handle_processed_block,
}
use kasia_indexer.VirtualChain.Process.{realtime_step, syncer_step, step, process}
use kasia_indexer.VirtualChain.Process.Invariant.{
  next_id, ids_below, spawned_ids, HasIds, KeptAs, Kept, commit_vcc-SameState, apply_sync_vc-Kept,
  syncer_vc_in-Kept, realtime_vcc_in-Kept,
}

map-append :
    (xs : List (ℕ × Bytes)) (x : ℕ × Bytes)
    → map (λ y. y.0) (xs ++ x ∷ []) ≡ map (λ y. y.0) xs ++ x.0 ∷ []
map-append [] x = refl
map-append (y ∷ xs) x = ap (λ t. y.0 ∷ t) (map-append xs x)

module _ (fj : Fjall) (rm : RingMap) where
  drain-KeptAs :
      (c : List (ℕ × Bytes)) (q : List VirtualChainChange) (s : Synced) (v : Actor fj rm)
      → v.spawned ≡ c
      → Ensures (KeptAs fj rm c (suc s.last_syncer_id)) (drain fj rm q s v)
  unfolding drain
  drain-KeptAs c [] s v e = ok-Ensures _ _ (e, refl)
  drain-KeptAs c (change ∷ more) s v e = elim (Bool-cases (changes_nothing change)) [
    | inl t ↦ rw (t, drain) (drain-KeptAs c more s v e)
    | inr f ↦
        elim (Bool-cases (any_unprocessed fj rm (blocks fj rm v) change.added_chain_block_hashes)) [
          | inl u ↦ rw (f, u, drain) (ok-Ensures _ _ (e, refl))
          | inr r ↦
              rw (f, r, drain)
                (bind-Ensures _ _ _ _ (commit_vcc-SameState fj rm change v) λ x k.
                  drain-KeptAs c more (record s { last_accepting_block = x.0 }) x.1 (k.0 ∙ e))
        ]
  ]

  retry_queued-Kept :
      (s : Syncing) (v : Actor fj rm) (queued : Option VirtualChainChange)
      → Ensures (Kept fj rm v (suc s.syncer_id)) (retry_queued fj rm s v queued)
  unfolding retry_queued
  retry_queued-Kept s v none = ok-Ensures _ _ (refl, refl)
  retry_queued-Kept s v (some change) =
      if-Ensures _ (any_unprocessed fj rm (blocks fj rm v) change.added_chain_block_hashes) _ _
        (ok-Ensures _ _ (refl, refl))
        (apply_sync_vc-Kept fj rm (λ u. u) (λ u. refl) (record s { sync_queue = none }) change v)

  processed_block_in-Kept :
      (capacity : ℕ) (st : SyncState) (h : CompactHeader) (v : Actor fj rm)
      → next_id v.state.sync_state ≡ next_id st
      → Ensures (Kept fj rm v (next_id st)) (processed_block_in fj rm capacity st h v)
  unfolding processed_block_in
  processed_block_in-Kept capacity initial h v e = ok-Ensures _ _ (refl, e)
  processed_block_in-Kept capacity (synced s) h v e =
      drain-KeptAs v.spawned (queue fj rm v) s _ refl
  processed_block_in-Kept capacity (syncing s) h v e = retry_queued-Kept s _ s.sync_queue

  spawn_syncer-ids :
      (n id : ℕ) (from : Bytes) (v : Actor fj rm)
      → id ≡ n
      → spawned_ids fj rm v ≡ ids_below n
      → spawned_ids fj rm (spawn_syncer fj rm id from v) ≡ ids_below (suc id)
  unfolding spawn_syncer
  spawn_syncer-ids n id from v e h = map-append v.spawned (id, from) ∙ rw (h, e)

  start_syncing-HasIds :
      (sink : ChainBlock) (pp : Bytes) (v : Actor fj rm) (last : Option Cursor)
      → spawned_ids fj rm v ≡ []
      → HasIds fj rm (start_syncing fj rm sink pp v last)
  unfolding start_syncing
  start_syncing-HasIds sink pp v none h = spawn_syncer-ids 0 0 pp v refl h
  start_syncing-HasIds sink pp v (some c) h = spawn_syncer-ids 0 0 c.block_hash v refl h

  connect_in-HasIds :
      (st : SyncState) (sink : ChainBlock) (pp : Bytes) (v : Actor fj rm)
      → next_id v.state.sync_state ≡ next_id st
      → spawned_ids fj rm v ≡ ids_below (next_id st)
      → Ensures (HasIds fj rm) (connect_in fj rm st sink pp v)
  unfolding connect_in
  connect_in-HasIds initial sink pp v e h =
      bind-Ensures_any _ (get_all_pending fj v.keyspace) _ λ pending.
        let requested : Actor fj rm = record v { sent = v.sent ++ map request_pending pending } in
        bind-Ensures_any _ (last_accepting_block_db fj rm requested) _
          λ last. ok-Ensures _ _ (start_syncing-HasIds sink pp requested last h)
  connect_in-HasIds (syncing s) sink pp v e h = ok-Ensures _ _ h
  connect_in-HasIds (synced s) sink pp v e h =
      if-Ensures _
        (bytes_eq s.last_accepting_block.hash sink.hash
          || ltb sink.blue_work s.last_accepting_block.blue_work)
        _ _ (ok-Ensures _ _ (rw e h))
        (ok-Ensures _ _ (
          spawn_syncer-ids (suc s.last_syncer_id) (s.last_syncer_id + 1) s.last_accepting_block.hash
            v (omega arith) h))

  -- From what is kept to the invariant.
  HasIds-Kept :
      (v v' : Actor fj rm)
      → HasIds fj rm v
      → Kept fj rm v (next_id v.state.sync_state) v'
      → HasIds fj rm v'
  HasIds-Kept v v' h (s, n) = rw (s, n) h

  shutdown_in-Kept :
      (st : SyncState) (v : Actor fj rm)
      → Kept fj rm v (next_id v.state.sync_state) (shutdown_in fj rm st v).0
  unfolding shutdown_in
  shutdown_in-Kept initial v = (refl, refl)
  shutdown_in-Kept (synced s) v = (refl, refl)
  shutdown_in-Kept (syncing s) v = (refl, refl)

  module _ (k : Kaspa) (capacity : ℕ) where
    -- the invariant after a step
    abbrev After : Actor fj rm × Bool → Type 0
    After x = HasIds fj rm x.0

    step-HasIds :
        (now : ℕ) (input : ProcessedBlockOrVccOrSyncer k) (v : Actor fj rm)
        → HasIds fj rm v
        → Ensures After (step fj rm k capacity now input v)
    unfolding step realtime_step syncer_step handle_processed_block handle_realtime_vcc
        handle_syncer_vc handle_connect handle_shutdown
    step-HasIds now (block b) v h =
        bind-Ensures _ _ _ _ (processed_block_in-Kept capacity v.state.sync_state b v refl)
          λ v' e. ok-Ensures _ _ (HasIds-Kept v v' h e)
    step-HasIds now (vcc (connected sink work pp)) v h =
        bind-Ensures _ _ _ _
          (connect_in-HasIds v.state.sync_state (record { hash = sink; blue_work = work }) pp v refl
            h)
          λ v' e. ok-Ensures _ _ e
    step-HasIds now (vcc disconnected) v h = ok-Ensures _ _ h
    step-HasIds now (vcc shutdown) v h =
        let u : Actor fj rm =
          set_shared fj rm (record (v.state.shared_state) { shutting_down = true }) v in
        ok-Ensures _ _ (
          HasIds-Kept u (shutdown_in fj rm v.state.sync_state u).0 h
            (shutdown_in-Kept v.state.sync_state u))
    step-HasIds now (vcc (notification change)) v h =
        bind-Ensures _ _ _ _ (realtime_vcc_in-Kept fj rm v.state.sync_state now change v refl)
          λ v' e. ok-Ensures _ _ (HasIds-Kept v v' h e)
    step-HasIds now (vcc (sender_resolution sender tx_id daa)) v h =
        bind-Ensures_any _
          (handle_sender_address fj k (next_conflicts v.schedule) v.keyspace sender tx_id daa) _
          λ s. ok-Ensures _ _ h
    step-HasIds now (syncer (virtual_chain id change)) v h =
        bind-Ensures _ _ _ _ (syncer_vc_in-Kept fj rm v.state.sync_state now id change v refl)
          λ v' e. ok-Ensures _ _ (HasIds-Kept v v' h e)
    step-HasIds now (syncer (stopped id)) v h =
        bind-Ensures_any _ (handle_syncer_stopped fj rm id v) _ λ cont. ok-Ensures _ _ h

    process-Ensures :
        (inputs : List (ℕ × ProcessedBlockOrVccOrSyncer k)) (v : Actor fj rm)
        → HasIds fj rm v
        → Ensures After (process fj rm k capacity inputs v)
    unfolding process
    process-Ensures [] v h = ok-Ensures _ _ h
    process-Ensures ((now, input) ∷ inputs) v h =
        bind-Ensures _ _ _ _ (step-HasIds now input v h) λ x e. elim (Bool-cases x.1) [
          | inl t ↦ rw t (process-Ensures inputs x.0 e)
          | inr f ↦ rw f (ok-Ensures After (x.0, false) e)
        ]

    -- If the syncers that were spawned have the ids from zero to that of the latest in the state,
    -- in order and each once, or there are none in the initial state, the same holds after any run
    -- of the loop that does not fail.
    pub process-HasIds :
        (inputs : List (ℕ × ProcessedBlockOrVccOrSyncer k)) (v v' : Actor fj rm) (going_on : Bool)
        → HasIds fj rm v
        → process fj rm k capacity inputs v ≡ ok (v', going_on)
        → HasIds fj rm v'
    process-HasIds inputs v v' going_on h r =
        Ensures-apply After (process fj rm k capacity inputs v) (v', going_on)
          (process-Ensures inputs v h) r
