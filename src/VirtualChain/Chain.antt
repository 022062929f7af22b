-- ===== src/VirtualChain/Chain.antt =====
-- `handle_vcc_removal`, `handle_vcc_addition`, `handle_vcc` and `handle_vc_resp`: a change of the
-- virtual chain, applied to the store in one transaction that is retried on a conflict.
pub mod Frame
pub mod Advance
pub mod Untouched
use kasia_indexer.Prelude.{ℕ, Option, none, some, List, [], ◌∷◌, ◌++◌, length, last?}
use kasia_indexer.Prelude.Bytes.{Bytes}
use kasia_indexer.Prelude.Outcome.{Outcome, ok, panic, bind, of_option, for_each}
use kasia_indexer.Fjall.{Fjall}
use kasia_indexer.RingMap.{RingMap}
use kasia_indexer.Db.Acceptance.{
  AcceptanceKey, LookupOutput, key_does_not_exist, key_exists_no_entries, keys_exists_with_entries,
  key_by_tx_id, update_acceptance_wtx,
}
use kasia_indexer.Db.Metadata.{set_latest_accepting_block_cursor}
use kasia_indexer.Db.Headers.{
  pending_key, insert_pending, remove_pending, insert_accepting_block, remove_accepting_block,
  read_hashes,
}
use kasia_indexer.VirtualChain.{
  VirtualChainChange, AcceptedTransactionIds, Command, request_sender, ChainBlock, cursor_to_db,
}

module _ (fj : Fjall) (rm : RingMap) where
  -- the open transaction and the commands that were sent so far
  pub record Attempt : Type 0 where
    pub wtx : fj.WriteTransaction
    pub sent : List Command

  -- the attempt, with the transactions that the addition of a block tracks
  pub record Tracking : Type 0 where
    pub tracked_tx_ids : List Bytes
    pub attempt : Attempt

  -- `state.processed_blocks.get(&block).unwrap()`
  abbrev pub processed : rm.Map → Bytes → Outcome (ℕ × ℕ)
  processed m block =
      of_option (panic "called `Option::unwrap()` on a `None` value") (rm.get m block)

  -- the pending key is removed where entries wait for a sender
  abbrev pub untrack : ℕ → Bytes → fj.WriteTransaction → LookupOutput → fj.WriteTransaction
  untrack daa tx_id w keys_exists_with_entries = remove_pending fj w (pending_key daa tx_id)
  untrack daa tx_id w _ = w

  -- The body of the loop of `handle_vcc_removal`. `s` is the committed store, which `key_by_tx_id`
  -- reads.
  unfoldable pub remove_tx : fj.Keyspace → Bytes → ℕ → Attempt → Bytes → Outcome Attempt
  remove_tx s block daa a tx_id = bind (key_by_tx_id fj s tx_id) λ found.
      bind (of_option (panic "Key must exists") found) λ key.
        bind (update_acceptance_wtx fj a.wtx key block daa)
          λ (w, lookup_results). ok (record a { wtx = untrack daa tx_id w lookup_results })

  unfoldable pub handle_tracked :
      fj.Keyspace → rm.Map → Bytes → Attempt → Option Bytes → Outcome Attempt
  handle_tracked s m block a none = ok a
  handle_tracked s m block a (some bytes) = bind (processed m block) λ (daa, blue_work).
      bind (read_hashes (length bytes) bytes)
        λ tracked_tx_ids. for_each (remove_tx s block daa) tracked_tx_ids a

  unfoldable pub handle_vcc_removal : fj.Keyspace → rm.Map → Attempt → Bytes → Outcome Attempt
  unfolding handle_tracked
  handle_vcc_removal s m a block =
      let (w, tracked_tx_ids) = remove_accepting_block fj a.wtx block in
      handle_tracked s m block (record a { wtx = w }) tracked_tx_ids

  -- The three arms on the lookup.
  unfoldable pub track :
      ℕ → Bytes → AcceptanceKey → Tracking → fj.WriteTransaction → LookupOutput → Tracking
  track daa tx key t w key_does_not_exist = record t {
    attempt = record { wtx = w; sent = t.attempt.sent };
  }
  track daa tx key t w key_exists_no_entries = record {
    tracked_tx_ids = t.tracked_tx_ids ++ key.tx_id ∷ [];
    attempt = record { wtx = w; sent = t.attempt.sent };
  }
  track daa tx key t w keys_exists_with_entries = record {
    tracked_tx_ids = t.tracked_tx_ids ++ key.tx_id ∷ [];
    attempt = record {
      wtx = insert_pending fj w (pending_key daa tx);
      sent = t.attempt.sent ++ request_sender daa tx ∷ [];
    };
  }

  unfoldable pub accept_known :
      Bytes → ℕ → Bytes → Tracking → Option AcceptanceKey → Outcome Tracking
  unfolding track
  accept_known block_hash daa tx t none = ok t
  accept_known block_hash daa tx t (some key) =
      bind (update_acceptance_wtx fj t.attempt.wtx key block_hash daa)
        λ (w, lookup_results). ok (track daa tx key t w lookup_results)

  -- The body of the loop of `handle_vcc_addition`.
  unfoldable pub accept_tx : fj.Keyspace → Bytes → ℕ → Tracking → Bytes → Outcome Tracking
  unfolding accept_known
  accept_tx s block_hash daa t tx =
      bind (key_by_tx_id fj s tx) λ found. accept_known block_hash daa tx t found

  unfoldable pub handle_vcc_addition :
      fj.Keyspace → rm.Map → Attempt → AcceptedTransactionIds → Outcome Attempt
  unfolding accept_tx
  handle_vcc_addition s m a block =
      bind (processed m block.accepting_block_hash) λ (daa, blue_work).
        bind
          (for_each (accept_tx s block.accepting_block_hash daa) block.accepted_transaction_ids
            (record { tracked_tx_ids = []; attempt = a }))
          λ t. ok (record {
            wtx =
                insert_accepting_block fj t.attempt.wtx block.accepting_block_hash t.tracked_tx_ids;
            sent = t.attempt.sent;
          })

  -- The body of the retry loop up to the commit.
  unfoldable pub attempt_vcc :
      fj.Keyspace → rm.Map → VirtualChainChange → List Command → Outcome (ChainBlock × Attempt)
  unfolding handle_vcc_removal handle_vcc_addition
  attempt_vcc s m vcc sent =
      bind
        (for_each (handle_vcc_removal s m) vcc.removed_chain_block_hashes
          (record { wtx = fj.write_tx s; sent = sent }))
        λ removed.
          bind (for_each (handle_vcc_addition s m) vcc.accepted_transaction_ids removed) λ added.
            bind
              (of_option (panic "called `Option::unwrap()` on a `None` value")
                (last? vcc.added_chain_block_hashes))
              λ last_block. bind (processed m last_block) λ (last_daa, last_blue_work).
                bind
                  (set_latest_accepting_block_cursor fj added.wtx (
                    cursor_to_db (record {
                      blue_work = last_blue_work;
                      block_hash = last_block;
                      daa_score = last_daa;
                    })))
                  λ w. ok (
                    record { hash = last_block; blue_work = last_blue_work },
                    record { wtx = w; sent = added.sent },
                  )

  -- The retry loop. Each item of the list is what others commit while one commit conflicts.
  unfoldable pub handle_vcc :
      List (fj.Keyspace → fj.Keyspace)
      → fj.Keyspace
      → rm.Map
      → VirtualChainChange
      → List Command
      → Outcome (ChainBlock × fj.Keyspace × List Command)
  unfolding attempt_vcc
  handle_vcc [] s m vcc sent =
      bind (attempt_vcc s m vcc sent) λ (last, a). ok (last, fj.commit a.wtx s, a.sent)
  handle_vcc (others ∷ conflicts) s m vcc sent =
      bind (attempt_vcc s m vcc sent) λ (last, a). handle_vcc conflicts (others s) m vcc a.sent

  -- `handle_vc_resp` has the same body, for the answer to a syncer.
  abbrev pub handle_vc_resp :
      List (fj.Keyspace → fj.Keyspace)
      → fj.Keyspace
      → rm.Map
      → VirtualChainChange
      → List Command
      → Outcome (ChainBlock × fj.Keyspace × List Command)
  handle_vc_resp = handle_vcc
