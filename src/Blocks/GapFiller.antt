-- ===== src/Blocks/GapFiller.antt =====
-- indexer-actors/src/block_gap_filler.rs: a task that asks for the blocks of one gap, page by page,
-- and reports to the block processor. A run is a list of rounds, what the interrupt channel holds
-- at the head of the loop and what the request is answered with; the answer is read only where
-- there is no interruption.
pub mod Served
use kasia_indexer.Prelude.{
  ◌≡◌, ◌∙◌, refl, sym, ap, All, ◌++◌, Bool, true, false, ◌||◌, none, some, List, [], ◌∷◌, last?,
  Bool-cases, Option-cases, inl, inr,
}
use kasia_indexer.Prelude.Bytes.{Bytes, bytes_eq}
use kasia_indexer.Prelude.Outcome.{
  Outcome, ok, err, bail, panic, bind, Ensures, ok-Ensures, err-Ensures, Ensures-apply,
  bind-Ensures,
}
use kasia_indexer.Db.{Kaspa}
use kasia_indexer.Blocks.{RpcBlock}
use kasia_indexer.Blocks.Process.{GapFillingProgress, update, finished, interrupted, failed}

pub data Interrupt : Type 0 where
  signalled closed empty : Interrupt

pub data Answer (k : Kaspa) : Type 0 where
  blocks : List (RpcBlock k) → Answer k
  rpc_error shutting_down dropped : Answer k

module _ (k : Kaspa) where
  -- what the task has sent, in order
  pub record Reported : Type 0 where
    pub requests : List Bytes
    pub progress : List (GapFillingProgress k)
    pub returned : Bool

  -- `blocks.iter().any(|b| b.header.hash.as_bytes() == self.target_block)`
  unfoldable pub has_target : Bytes → List (RpcBlock k) → Bool
  has_target target [] = false
  has_target target (b ∷ bs) = bytes_eq b.header.hash target || has_target target bs

  abbrev request_before : Bytes → Reported → Reported
  request_before from r = record r { requests = from ∷ r.requests }

  abbrev report_before : GapFillingProgress k → Reported → Reported
  report_before p r = record r { progress = p ∷ r.progress }

  -- the last report, behind which the task returns
  abbrev report_last : GapFillingProgress k → Reported
  report_last p = record { requests = []; progress = p ∷ []; returned = true }

  -- The loop of `sync` from a block on. Behind the last round the task waits.
  unfoldable pub sync : Bytes → List (Interrupt × Answer k) → Bytes → Outcome Reported
  unfolding has_target
  sync target [] from = ok (record { requests = []; progress = []; returned = false })
  sync target ((signalled, answer) ∷ rounds) from = ok (report_last (interrupted target))
  sync target ((closed, answer) ∷ rounds) from = ok (report_last (interrupted target))
  sync target ((empty, rpc_error) ∷ rounds) from =
      ok (request_before from (report_last (failed target)))
  sync target ((empty, dropped) ∷ rounds) from = err (bail "channel closed")
  sync target ((empty, shutting_down) ∷ rounds) from =
      bind (sync target rounds from) λ r. ok (request_before from r)
  sync target ((empty, blocks bs) ∷ rounds) from = elim (has_target target bs) [
    | true ↦ ok (request_before from (report_last (finished target bs)))
    | false ↦ elim (last? bs) [
      | none ↦ err (panic "called `Option::unwrap()` on a `None` value")
      | some b ↦
          bind (sync target rounds b.header.hash)
            λ r. ok (request_before from (report_before (update target bs) r))
    ]
  ]
