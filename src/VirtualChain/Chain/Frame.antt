-- ===== src/VirtualChain/Chain/Frame.antt =====
-- What a change of the virtual chain writes, and what it leaves alone.
use kasia_indexer.Prelude.{ℕ, ◌≡◌, refl, false, Option, none, some, [], length, ◌==◌, ◌∙◌}
use kasia_indexer.Prelude.Bytes.{Bytes, to_le}
use kasia_indexer.Prelude.Outcome.{
  Outcome, ok, for_each, Ensures, ok-Ensures, bind-Ensures, bind-Ensures_any, for_each-Ensures,
  of_option, panic,
}
use kasia_indexer.Fjall.{Fjall, Partition, partition_number, same_cell}
use kasia_indexer.Fjall.Closure.{fetch_update_closure}
use kasia_indexer.RingMap.{RingMap}
use kasia_indexer.Db.Acceptance.{
  AcceptanceKey, LookupOutput, key_does_not_exist, key_exists_no_entries, keys_exists_with_entries,
  key_by_tx_id, update_acceptance_wtx, acceptance_key_bytes, header_bytes, replace_header,
  lookup_output,
}
use kasia_indexer.Db.Headers.{
  pending_key, pending_key_bytes, insert_pending, remove_pending, insert_accepting_block,
  remove_accepting_block, read_hashes,
}
use kasia_indexer.VirtualChain.{AcceptedTransactionIds}
use kasia_indexer.VirtualChain.Chain.{
  Attempt, Tracking, processed, untrack, remove_tx, handle_tracked, handle_vcc_removal, track,
  accept_known, accept_tx, handle_vcc_addition,
}

-- The partition is none of the three that hold acceptances.
pub record IsOutside (q : Partition) : Type 0 where
  pub not_accepting : (15 == partition_number q) ≡ false
  pub not_acceptance : (16 == partition_number q) ≡ false
  pub not_pending : (17 == partition_number q) ≡ false

module _ (fj : Fjall) (rm : RingMap) (q : Partition) (j : Bytes) (out : IsOutside q) where
  -- The cell holds the same in both transactions.
  abbrev Same : fj.WriteTransaction → fj.WriteTransaction → Type 0
  Same w w' = fj.get_wtx w' q j ≡ fj.get_wtx w q j

  pub closure-Same :
      (w : fj.WriteTransaction) (p : Partition) (k : Bytes)
      (f : Option Bytes → Outcome (Option Bytes))
      → same_cell p k q j ≡ false
      → Ensures
          (λ (x : fj.WriteTransaction × Option Bytes). Same w x.0)
          (fetch_update_closure fj w p k f)
  closure-Same w p k f d =
      bind-Ensures_any _ (f (fj.get_wtx w p k)) _
        (λ v. ok-Ensures _ _ (rw (fj.get_wtx-fetch_update_wtx w p k (λ x. v) q j, d)))

  update_acceptance-Same :
      (w : fj.WriteTransaction) (key : AcceptanceKey) (block : Bytes) (daa : ℕ)
      → Ensures
          (λ (x : fj.WriteTransaction × LookupOutput). Same w x.0)
          (update_acceptance_wtx fj w key block daa)
  unfolding update_acceptance_wtx
  update_acceptance-Same w key block daa =
      let header =
        header_bytes (record { accepting_block_hash = block; accepting_daa = to_le 8 daa }) in
      let put =
        fetch_update_closure fj w Partition.tx_id_to_acceptance (acceptance_key_bytes key)
          (replace_header header) in
      bind-Ensures _ (λ (x : fj.WriteTransaction × Option Bytes). Same w x.0) put
        (λ x. ok (x.0, lookup_output x.1))
        (closure-Same w Partition.tx_id_to_acceptance (acceptance_key_bytes key)
          (replace_header header) (rw out.not_acceptance))
        (λ x s. ok-Ensures _ _ s)

  untrack-Same :
      (daa : ℕ) (tx_id : Bytes) (w : fj.WriteTransaction) (l : LookupOutput)
      → Same w (untrack fj rm daa tx_id w l)
  unfolding remove_pending
  untrack-Same daa tx_id w keys_exists_with_entries =
      fj.get_wtx-remove_wtx w Partition.pending_sender_resolution
        (pending_key_bytes (pending_key daa tx_id)) q j
      ∙ rw out.not_pending
  untrack-Same daa tx_id w key_exists_no_entries = refl
  untrack-Same daa tx_id w key_does_not_exist = refl

  abbrev SameAs : Option Bytes → Attempt fj rm → Type 0
  SameAs c a = fj.get_wtx a.wtx q j ≡ c

  remove_tx-Same :
      (c : Option Bytes) (s : fj.Keyspace) (block : Bytes) (daa : ℕ) (a : Attempt fj rm)
      (tx_id : Bytes)
      → SameAs c a
      → Ensures (SameAs c) (remove_tx fj rm s block daa a tx_id)
  unfolding remove_tx
  remove_tx-Same c s block daa a tx_id e = bind-Ensures_any _ (key_by_tx_id fj s tx_id) _ λ found.
      bind-Ensures_any _ (of_option (panic "Key must exists") found) _ λ key.
        bind-Ensures _ _ (update_acceptance_wtx fj a.wtx key block daa) _
          (update_acceptance-Same a.wtx key block daa)
          λ x same. ok-Ensures _ _ (untrack-Same daa tx_id x.0 x.1 ∙ same ∙ e)

  handle_tracked-Same :
      (c : Option Bytes) (s : fj.Keyspace) (m : rm.Map) (a : Attempt fj rm) (block : Bytes)
      (o : Option Bytes)
      → SameAs c a
      → Ensures (SameAs c) (handle_tracked fj rm s m block a o)
  unfolding handle_tracked
  handle_tracked-Same c s m a block none e = ok-Ensures _ _ e
  handle_tracked-Same c s m a block (some bytes) e =
      bind-Ensures_any _ (processed fj rm m block) _ λ x.
        bind-Ensures_any _ (read_hashes (length bytes) bytes) _ λ ids.
          for_each-Ensures _ (remove_tx fj rm s block x.0) ids a e
            (λ t id. remove_tx-Same c s block x.0 t id)

  pub handle_vcc_removal-Same :
      (c : Option Bytes) (s : fj.Keyspace) (m : rm.Map) (a : Attempt fj rm) (block : Bytes)
      → SameAs c a
      → Ensures (SameAs c) (handle_vcc_removal fj rm s m a block)
  unfolding handle_vcc_removal remove_accepting_block
  handle_vcc_removal-Same c s m a block e =
      handle_tracked-Same c s m (record a { wtx = (remove_accepting_block fj a.wtx block).0 }) block
        (remove_accepting_block fj a.wtx block).1
        (fj.get_wtx-fetch_update_wtx a.wtx Partition.accepting_block_to_tx_id block (λ old. none) q
            j
          ∙ rw out.not_accepting e)

  track-Same :
      (c : Option Bytes) (daa : ℕ) (tx : Bytes) (key : AcceptanceKey) (t : Tracking fj rm)
      (w : fj.WriteTransaction) (l : LookupOutput)
      → fj.get_wtx w q j ≡ c
      → SameAs c (track fj rm daa tx key t w l).attempt
  unfolding track insert_pending
  track-Same c daa tx key t w key_does_not_exist e = e
  track-Same c daa tx key t w key_exists_no_entries e = e
  track-Same c daa tx key t w keys_exists_with_entries e =
      fj.get_wtx-insert_wtx w Partition.pending_sender_resolution
        (pending_key_bytes (pending_key daa tx)) [] q j
      ∙ rw out.not_pending e

  accept_known-Same :
      (c : Option Bytes) (block : Bytes) (daa : ℕ) (tx : Bytes) (t : Tracking fj rm)
      (found : Option AcceptanceKey)
      → SameAs c t.attempt
      → Ensures
          (λ (t' : Tracking fj rm). SameAs c t'.attempt)
          (accept_known fj rm block daa tx t found)
  unfolding accept_known
  accept_known-Same c block daa tx t none e = ok-Ensures _ _ e
  accept_known-Same c block daa tx t (some key) e =
      bind-Ensures _ _ (update_acceptance_wtx fj t.attempt.wtx key block daa) _
        (update_acceptance-Same t.attempt.wtx key block daa)
        λ x same. ok-Ensures _ _ (track-Same c daa tx key t x.0 x.1 (same ∙ e))

  accept_tx-Same :
      (c : Option Bytes) (s : fj.Keyspace) (block : Bytes) (daa : ℕ) (t : Tracking fj rm)
      (tx : Bytes)
      → SameAs c t.attempt
      → Ensures (λ (t' : Tracking fj rm). SameAs c t'.attempt) (accept_tx fj rm s block daa t tx)
  unfolding accept_tx
  accept_tx-Same c s block daa t tx e =
      bind-Ensures_any _ (key_by_tx_id fj s tx) _
        λ found. accept_known-Same c block daa tx t found e

  pub handle_vcc_addition-Same :
      (c : Option Bytes) (s : fj.Keyspace) (m : rm.Map) (a : Attempt fj rm)
      (block : AcceptedTransactionIds)
      → SameAs c a
      → Ensures (SameAs c) (handle_vcc_addition fj rm s m a block)
  unfolding handle_vcc_addition insert_accepting_block
  handle_vcc_addition-Same c s m a block e =
      bind-Ensures_any _ (processed fj rm m block.accepting_block_hash) _ λ x.
        bind-Ensures _ (λ (t : Tracking fj rm). SameAs c t.attempt)
          (for_each (accept_tx fj rm s block.accepting_block_hash x.0)
            block.accepted_transaction_ids (record { tracked_tx_ids = []; attempt = a }))
          _
          (for_each-Ensures _ (accept_tx fj rm s block.accepting_block_hash x.0)
            block.accepted_transaction_ids (record { tracked_tx_ids = []; attempt = a }) e
            (λ t tx. accept_tx-Same c s block.accepting_block_hash x.0 t tx))
          λ t f. ok-Ensures _ _ (
            fj.get_wtx-insert_wtx t.attempt.wtx Partition.accepting_block_to_tx_id
              block.accepting_block_hash _ q j
            ∙ rw out.not_accepting f)
