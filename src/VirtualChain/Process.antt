-- ===== src/VirtualChain/Process.antt =====
-- The loop of `VirtualProcessor::process`, over the inputs in the order in which `select_input`
-- yields them, each with the time at which it is handled.
pub mod Invariant
use kasia_indexer.Prelude.{ℕ, ◌+◌, Bool, true, false, List, [], ◌∷◌}
use kasia_indexer.Prelude.Outcome.{Outcome, ok, bind}
use kasia_indexer.Fjall.{Fjall}
use kasia_indexer.RingMap.{RingMap}
use kasia_indexer.Db.{Kaspa}
use kasia_indexer.VirtualChain.{
  ProcessedBlockOrVccOrSyncer, block, vcc, syncer, RealTimeVccNotification, connected, disconnected,
  shutdown, notification, sender_resolution, SyncVccNotification, virtual_chain, stopped, Actor,
}
use kasia_indexer.VirtualChain.Sender.{handle_sender_address}
use kasia_indexer.VirtualChain.Sync.{
  next_conflicts, later_conflicts, set_queue, handle_connect, handle_shutdown,
}
use kasia_indexer.VirtualChain.Changes.{
  handle_syncer_vc, handle_realtime_vcc, handle_syncer_stopped, handle_processed_block,
}

module _ (fj : Fjall) (rm : RingMap) (k : Kaspa) (synced_capacity : ℕ) where
  -- the actor after a step, and whether the loop goes on
  abbrev pub Stepped : Type 0
  Stepped = Outcome (Actor fj rm × Bool)

  abbrev going_on : Outcome (Actor fj rm) → Stepped
  going_on m = bind m λ v. ok (v, true)

  unfoldable pub realtime_step : ℕ → RealTimeVccNotification k → Actor fj rm → Stepped
  realtime_step now (connected sink sink_blue_work pp) v =
      going_on (handle_connect fj rm (record { hash = sink; blue_work = sink_blue_work }) pp v)
  realtime_step now disconnected v = ok (set_queue fj rm [] v, true)
  realtime_step now shutdown v = ok (handle_shutdown fj rm v)
  realtime_step now (notification change) v = going_on (handle_realtime_vcc fj rm now change v)
  realtime_step now (sender_resolution sender tx_id daa) v =
      bind (handle_sender_address fj k (next_conflicts v.schedule) v.keyspace sender tx_id daa) λ s.
        ok (
          record v {
            keyspace = s;
            resolved_senders = v.resolved_senders + 1;
            schedule = later_conflicts v.schedule;
          },
          true,
        )

  unfoldable pub syncer_step : ℕ → SyncVccNotification → Actor fj rm → Stepped
  syncer_step now (virtual_chain syncer_id change) v =
      going_on (handle_syncer_vc fj rm now syncer_id change v)
  syncer_step now (stopped syncer_id) v =
      bind (handle_syncer_stopped fj rm syncer_id v) λ cont. ok (v, cont)

  unfoldable pub step : ℕ → ProcessedBlockOrVccOrSyncer k → Actor fj rm → Stepped
  unfolding realtime_step syncer_step
  step now (block h) v = going_on (handle_processed_block fj rm synced_capacity h v)
  step now (vcc n) v = realtime_step now n v
  step now (syncer n) v = syncer_step now n v

  -- The loop ends early where a step says so; then the rest of the inputs is not read.
  unfoldable pub process : List (ℕ × ProcessedBlockOrVccOrSyncer k) → Actor fj rm → Stepped
  unfolding step
  process [] v = ok (v, true)
  process ((now, input) ∷ inputs) v =
      bind (step now input v)
        λ (v', cont). elim cont [ true ↦ process inputs v' | false ↦ ok (v', false) ]
