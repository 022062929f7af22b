-- ===== src/VirtualChain/Process/Invariant.antt =====
-- The ids of the syncers: an invariant of the loop of the virtual chain processor.
pub mod Loop
use kasia_indexer.Prelude.{
  ℕ, zero, suc, ◌+◌, ◌-◌, ◌≡◌, refl, Bool, true, false, not, ◌||◌, ◌==◌, Option, none, some, List,
  [], ◌∷◌, ◌++◌, map, Bool-cases, inl, inr, sym, ap, ◌∙◌, ltb, last?, is_some, arith, if◌then◌else◌,
}
use kasia_indexer.Prelude.Bytes.{Bytes, bytes_eq}
use kasia_indexer.Prelude.Outcome.{
  Outcome, ok, err, bind, of_option, panic, Ensures, ok-Ensures, err-Ensures, assert-Ensures,
  if-Ensures, Ensures-apply, bind-Ensures, bind-Ensures_any,
}
use kasia_indexer.Fjall.{Fjall}
use kasia_indexer.RingMap.{RingMap}
use kasia_indexer.Db.{Kaspa}
use kasia_indexer.Db.Headers.{get_all_pending}
use kasia_indexer.VirtualChain.{
  CompactHeader, VirtualChainChange, stop, continue, ChainBlock, Synced, Syncing, SyncState,
  initial, synced, syncing, Cursor, Actor, ProcessedBlockOrVccOrSyncer, block, vcc, syncer,
  RealTimeVccNotification, connected, disconnected, shutdown, notification, sender_resolution,
  SyncVccNotification, virtual_chain, stopped,
}
use kasia_indexer.VirtualChain.Chain.{handle_vcc}
use kasia_indexer.VirtualChain.Sender.{handle_sender_address}
use kasia_indexer.VirtualChain.Sync.{
  is_empty, changes_nothing, request_pending, next_conflicts, blocks, queue, set_sync_state,
  set_queue, set_blocks, set_time, acknowledge, warn_if_late, any_unprocessed, spawn_syncer,
  start_syncing, last_accepting_block_db, connect_in, handle_connect, shutdown_in, handle_shutdown,
}
use kasia_indexer.VirtualChain.Changes.{
  commit_vcc, reaches_target, apply_reached, apply_sync_vc, syncer_vc_in, handle_syncer_vc,
  realtime_vcc_in, handle_realtime_vcc, handle_syncer_stopped, evict, insert_block, drain,
  retry_queued, processed_block_in, handle_processed_block,
}
use kasia_indexer.VirtualChain.Process.{realtime_step, syncer_step, step, process}

-- the id of the next syncer
abbrev pub next_id : SyncState → ℕ
next_id initial = 0
next_id (synced s) = suc s.last_syncer_id
next_id (syncing s) = suc s.syncer_id

-- the numbers below `n`, in order
abbrev pub ids_below : ℕ → List ℕ
ids_below zero = []
ids_below (suc n) = ids_below n ++ n ∷ []

module _ (fj : Fjall) (rm : RingMap) where
  abbrev pub spawned_ids : Actor fj rm → List ℕ
  spawned_ids v = map (λ x. x.0) v.spawned

  -- The syncers were spawned with the ids from zero up to that of the latest, each once.
  abbrev pub HasIds : Actor fj rm → Type 0
  HasIds v = spawned_ids v ≡ ids_below (next_id v.state.sync_state)

  -- These are the spawned syncers, and `n` is the next id.
  abbrev pub KeptAs : List (ℕ × Bytes) → ℕ → Actor fj rm → Type 0
  KeptAs c n v' = (v'.spawned ≡ c) × (next_id v'.state.sync_state ≡ n)

  -- Nothing was spawned.
  abbrev pub Kept : Actor fj rm → ℕ → Actor fj rm → Type 0
  Kept v n v' = KeptAs v.spawned n v'

  -- the state is the same, but for what the commit of a change writes
  abbrev pub SameState : Actor fj rm → ChainBlock × Actor fj rm → Type 0
  SameState v x = (x.1.spawned ≡ v.spawned) × (x.1.state ≡ v.state)

  pub commit_vcc-SameState :
      (change : VirtualChainChange) (v : Actor fj rm)
      → Ensures (SameState v) (commit_vcc fj rm change v)
  unfolding commit_vcc
  commit_vcc-SameState change v =
      bind-Ensures_any _
        (handle_vcc fj rm (next_conflicts v.schedule) v.keyspace (blocks fj rm v) change v.sent) _
        λ x. ok-Ensures _ _ (refl, refl)

  warn_if_late-Kept :
      (now : ℕ) (v : Actor fj rm) (n : ℕ)
      → next_id v.state.sync_state ≡ n
      → Kept v n (warn_if_late fj rm now v)
  unfolding warn_if_late
  warn_if_late-Kept now v n e =
      elim (Bool-cases (ltb 120 (now - v.state.shared_state.processed_time_or_warn))) [
        | inl t ↦ rw t (refl, e)
        | inr f ↦ rw f (refl, e)
      ]

  module _ (progress : Actor fj rm → Actor fj rm)
      (keeps : (v : Actor fj rm) → (progress v).spawned ≡ v.spawned) where
    apply_reached-Kept :
        (s : Syncing) (change : VirtualChainChange) (v : Actor fj rm) (reached : Bool)
        → Ensures (Kept v (suc s.syncer_id)) (apply_reached fj rm progress s change v reached)
    unfolding apply_reached
    apply_reached-Kept s change v true =
        bind-Ensures _ _ _ _ (commit_vcc-SameState change (acknowledge fj rm s.syncer_id stop v))
          λ x e. ok-Ensures _ _ (e.0, refl)
    apply_reached-Kept s change v false =
        bind-Ensures _ _ _ _ (commit_vcc-SameState change v)
          λ x e. ok-Ensures _ _ (keeps x.1 ∙ e.0, refl)

    pub apply_sync_vc-Kept :
        (s : Syncing) (change : VirtualChainChange) (v : Actor fj rm)
        → Ensures (Kept v (suc s.syncer_id)) (apply_sync_vc fj rm progress s change v)
    unfolding apply_sync_vc
    apply_sync_vc-Kept s change v =
        bind-Ensures_any _
          (of_option (panic "called `Option::unwrap()` on a `None` value")
            (last? change.added_chain_block_hashes))
          _
          λ last.
            bind-Ensures_any _ (reaches_target fj rm (blocks fj rm v) s last) _
              λ reached. apply_reached-Kept s change v reached

  pub syncer_vc_in-Kept :
      (st : SyncState) (now id : ℕ) (change : VirtualChainChange) (v : Actor fj rm)
      → next_id v.state.sync_state ≡ next_id st
      → Ensures (Kept v (next_id st)) (syncer_vc_in fj rm st now id change v)
  unfolding syncer_vc_in
  syncer_vc_in-Kept initial now id change v e = err-Ensures _ _
  syncer_vc_in-Kept (synced s) now id change v e = err-Ensures _ _
  syncer_vc_in-Kept (syncing s) now id change v e = assert-Ensures _ (id == s.syncer_id) _ (
      if-Ensures _ (changes_nothing change) _ _ (ok-Ensures _ _ (refl, e)) (
        if-Ensures _ (any_unprocessed fj rm (blocks fj rm v) change.added_chain_block_hashes) _ _
          (assert-Ensures _ (not (is_some s.sync_queue)) _
            (ok-Ensures _ _ ((warn_if_late-Kept now v (next_id v.state.sync_state) refl).0, refl)))
          (apply_sync_vc-Kept (set_time fj rm now) (λ u. refl) s change v)))

  pub realtime_vcc_in-Kept :
      (st : SyncState) (now : ℕ) (change : VirtualChainChange) (v : Actor fj rm)
      → next_id v.state.sync_state ≡ next_id st
      → Ensures (Kept v (next_id st)) (realtime_vcc_in fj rm st now change v)
  unfolding realtime_vcc_in
  realtime_vcc_in-Kept initial now change v e = err-Ensures _ _
  realtime_vcc_in-Kept (syncing s) now change v e = ok-Ensures _ _ (refl, e)
  realtime_vcc_in-Kept (synced s) now change v e =
      if-Ensures _ (changes_nothing change) _ _ (ok-Ensures _ _ (refl, e)) (
        if-Ensures _
          (not (is_empty (queue fj rm v))
            || any_unprocessed fj rm (blocks fj rm v) change.added_chain_block_hashes)
          _ _ (ok-Ensures _ _ (warn_if_late-Kept now v (suc s.last_syncer_id) e))
          (bind-Ensures _ _ _ _ (commit_vcc-SameState change v) λ x k. ok-Ensures _ _ (k.0, refl)))
