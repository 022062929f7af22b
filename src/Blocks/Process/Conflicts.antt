-- ===== src/Blocks/Process/Conflicts.antt =====
-- The retry loop around `handle_block`, where a commit conflicts.
use kasia_indexer.Prelude.{ℕ, ◌≡◌, Bool, List, [], ◌∷◌, All}
use kasia_indexer.Prelude.Outcome.{ok}
use kasia_indexer.Fjall.{Fjall}
use kasia_indexer.Db.{Kaspa}
use kasia_indexer.Blocks.{RpcHeader, RpcBlock}
use kasia_indexer.Blocks.Transaction.{Handling, handle_block}
use kasia_indexer.Blocks.Transaction.Effects.{
  with_header, IsKnown, with_header-IsKnown, handle_block-known, handle_block-IsKnown,
}
use kasia_indexer.Blocks.Process.{commit_block}

module _ (fj : Fjall) (k : Kaspa) (push_channel : Bool) where
  -- what others commit does not remove the header of the block
  abbrev pub KeepsHeader : RpcHeader → (fj.Keyspace → fj.Keyspace) → Type 0
  KeepsHeader h others = (s : fj.Keyspace) → IsKnown fj k s h → IsKnown fj k (others s) h

  -- the start of an attempt
  abbrev pub fresh : fj.Keyspace → ℕ → Handling fj k
  fresh s n = record {
    keyspace = s;
    collected = record { wtx = fj.write_tx s; push_events = [] };
    blocks_processed = n;
  }

  -- The result of a commit that holds nothing of the block but `finish`.
  abbrev pub skipped :
      RpcHeader → (fj.WriteTransaction → fj.WriteTransaction) → fj.Keyspace → ℕ → Handling fj k
  skipped h finish s n = record (fresh s n) {
    keyspace = fj.commit (finish (fj.write_tx s)) (with_header fj k s h);
  }

  known_is_skipped :
      (conflicts : List (fj.Keyspace → fj.Keyspace)) (block : RpcBlock k) (collect : Bool)
      (finish : fj.WriteTransaction → fj.WriteTransaction) (s : fj.Keyspace) (n : ℕ)
      → IsKnown fj k s block.header
      → All (KeepsHeader block.header) conflicts
      → (s' : fj.Keyspace) × (commit_block fj k push_channel conflicts block collect finish s n
          ≡ ok (skipped block.header finish s' n))
  unfolding commit_block
  known_is_skipped [] block collect finish s n e keeps =
      (s, rw (handle_block-known fj k block collect (fresh s n) e))
  known_is_skipped (others ∷ conflicts) block collect finish s n e keeps =
      let (s', r) =
        known_is_skipped conflicts block collect finish (others (with_header fj k s block.header)) n
          (keeps.0 (with_header fj k s block.header) (with_header-IsKnown fj k s block.header))
          keeps.1 in
      (s', rw (handle_block-known fj k block collect (fresh s n) e) r)

  -- Let the first attempt at a block get as far as its commit, let that commit conflict, and let
  -- no other actor remove the header of the block. However many conflicts follow, the loop ends,
  -- there are no push events, and the last commit holds only what is written behind the block:
  -- none of its messages.
  pub commit_block-conflict :
      (others : fj.Keyspace → fj.Keyspace) (conflicts : List (fj.Keyspace → fj.Keyspace))
      (block : RpcBlock k) (collect : Bool) (finish : fj.WriteTransaction → fj.WriteTransaction)
      (s : fj.Keyspace) (n : ℕ) (h : Handling fj k)
      → handle_block fj k block collect (fresh s n) ≡ ok h
      → All (KeepsHeader block.header) (others ∷ conflicts)
      → (s' : fj.Keyspace) × (commit_block fj k push_channel
            (others ∷ conflicts)
            block
            collect
            finish
            s
            n
          ≡ ok (skipped block.header finish s' h.blocks_processed))
  unfolding commit_block
  commit_block-conflict others conflicts block collect finish s n h e keeps =
      let (s', r) =
        known_is_skipped conflicts block collect finish (others h.keyspace) h.blocks_processed
          (keeps.0 h.keyspace (handle_block-IsKnown fj k block collect (fresh s n) h e)) keeps.1 in
      (s', rw e r)
