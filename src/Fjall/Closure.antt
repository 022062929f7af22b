-- ===== src/Fjall/Closure.antt =====
-- An update whose closure may panic. The closure runs on the current value of the key, so the
-- update writes what it returns there.
use kasia_indexer.Prelude.{Option}
use kasia_indexer.Prelude.Bytes.{Bytes}
use kasia_indexer.Prelude.Outcome.{Outcome, ok, bind}
use kasia_indexer.Fjall.{Fjall, Partition}

module _ (fj : Fjall) where
  -- `wtx.fetch_update(partition, key, closure)`, with the previous value
  abbrev pub fetch_update_closure :
      fj.WriteTransaction
      → Partition
      → Bytes
      → (Option Bytes → Outcome (Option Bytes))
      → Outcome (fj.WriteTransaction × Option Bytes)
  fetch_update_closure w p k f =
      bind (f (fj.get_wtx w p k)) λ v. ok (fj.fetch_update_wtx w p k (λ old. v))
