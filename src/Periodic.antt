-- ===== src/Periodic.antt =====
-- indexer-actors/src/periodic_processor.rs: the job that removes old blocks, and the loop that runs
-- it. `compact_metadata` does not change what the store holds, and the metrics are those that are
-- read from the store by key or in full. A job runs with no other write in between.
pub mod Prune
use kasia_indexer.Prelude.{
  ℕ, ◌+◌, ◌-◌, Option, none, some, List, [], ◌∷◌, length, replicate, unwrap_or,
}
use kasia_indexer.Prelude.Bytes.{Bytes, of_be}
use kasia_indexer.Prelude.Outcome.{Outcome, ok, bind}
use kasia_indexer.Fjall.{Fjall, Partition}
use kasia_indexer.Db.Metadata.{Cursor, get_latest_block_cursor, get_latest_accepting_block_cursor}
use kasia_indexer.Db.Headers.{
  DaaIndexKey, daa_index_entry, iter_lt, remove_compact_header, delete_daa_index,
  remove_accepting_block_now,
}

pub data Intake : Type 0 where
  do_job shutdown : Intake

pub data Response : Type 0 where
  job_done stopped : Response

pub record Metrics : Type 0 where
  pub pruned_blocks : ℕ
  pub unknown_sender_entries : ℕ
  pub latest_block : Bytes
  pub latest_accepting_block : Bytes

-- `unwrap_or_default().block_hash`
abbrev pub block_hash_or_default : Option Cursor → Bytes
block_hash_or_default none = replicate 32 0
block_hash_or_default (some c) = c.block_hash

module _ (fj : Fjall) where
  open fj use {Keyspace}

  pub record PeriodicProcessor : Type 0 where
    pub keyspace : Keyspace
    pub metrics : Metrics
    pub responses : List Response

  -- what is removed for one key of the index
  abbrev pub prune_key : DaaIndexKey → Keyspace → Keyspace
  prune_key k s =
      let s' = remove_compact_header fj s k.block_hash in
      let s'' = delete_daa_index fj s' (of_be k.daa_score) k.block_hash k.blue_work in
      remove_accepting_block_now fj s'' k.block_hash

  -- the `for` loop, with the count so far
  unfoldable pub prune_loop : List (Bytes × Bytes) → Keyspace → ℕ → Outcome (Keyspace × ℕ)
  prune_loop [] s pruned = ok (s, pruned)
  prune_loop (entry ∷ more) s pruned =
      bind (daa_index_entry entry) λ k. prune_loop more (prune_key k s) (pruned + 1)

  -- `saturating_sub` of the depth
  unfoldable pub prune : Keyspace → ℕ → ℕ → Outcome (Keyspace × ℕ)
  prune s current_daa pruning_depth = prune_loop (iter_lt fj s (current_daa - pruning_depth)) s 0

  unfoldable pub update_metrics : Keyspace → ℕ → Metrics → Outcome Metrics
  update_metrics s pruned m = bind (get_latest_block_cursor fj s) λ block.
      bind (get_latest_accepting_block_cursor fj s) λ cursor. ok (record {
        pruned_blocks = m.pruned_blocks + pruned;
        unknown_sender_entries = length (fj.iter s Partition.pending_sender_resolution);
        latest_block = unwrap_or block (replicate 32 0);
        latest_accepting_block = block_hash_or_default cursor;
      })

  unfoldable pub run_job : ℕ → ℕ → PeriodicProcessor → Outcome PeriodicProcessor
  run_job virtual_daa pruning_depth l = bind (prune l.keyspace virtual_daa pruning_depth) λ p.
      bind (update_metrics p.0 p.1 l.metrics) λ m. ok (record l { keyspace = p.0; metrics = m })

  abbrev respond : Response → PeriodicProcessor → PeriodicProcessor
  respond r l = record l { responses = r ∷ l.responses }

  -- The loop over what is taken in, each with the virtual DAA score of that time and what the
  -- other actors have committed before. The response at the end is that of `drop`.
  unfoldable pub process :
      ℕ → List (Intake × ℕ × (Keyspace → Keyspace)) → PeriodicProcessor → Outcome PeriodicProcessor
  process pruning_depth [] l = ok l
  process pruning_depth ((shutdown, daa, others) ∷ more) l =
      ok (respond stopped (record l { keyspace = others l.keyspace }))
  process pruning_depth ((do_job, daa, others) ∷ more) l =
      bind (run_job daa pruning_depth (record l { keyspace = others l.keyspace }))
        λ l'. process pruning_depth more (respond job_done l')
