-- ===== src/Blocks/Transaction/Effects.antt =====
-- Blocks that are handled a second time, and transactions without a message.
use kasia_indexer.Prelude.{
  suc, ◌≡◌, Bool, some, [], Option-cases, inl, inr, is_some, sym, ◌∙◌, subst,
}
use kasia_indexer.Prelude.Bytes.{Bytes, bytes_eq_refl, to_le, to_be}
use kasia_indexer.Prelude.Outcome.{ok, bind-eq_ok, for_each, ok-injective}
use kasia_indexer.Fjall.{Fjall, Partition}
use kasia_indexer.Db.{Kaspa}
use kasia_indexer.Db.Headers.{compact_header_bytes, insert_compact_header, insert_daa_index}
use kasia_indexer.Blocks.{RpcHeader, RpcBlock}
use kasia_indexer.Blocks.Transaction.{Handling, handle_transaction, handle_new_block, handle_block}

module _ (fj : Fjall) (k : Kaspa) where
  -- the store with the header of the block
  abbrev pub with_header : fj.Keyspace → RpcHeader → fj.Keyspace
  with_header s h = (insert_compact_header fj s h.hash (to_le 24 h.blue_work) h.daa_score).0

  -- the header of the block is stored
  abbrev pub IsKnown : fj.Keyspace → RpcHeader → Type 0
  IsKnown s h = (v : Bytes) × (fj.get s Partition.block_compact_header h.hash ≡ some v)

  pub with_header-IsKnown : (s : fj.Keyspace) (h : RpcHeader) → IsKnown (with_header s h) h
  unfolding insert_compact_header
  with_header-IsKnown s h = (
    compact_header_bytes
        (record { blue_work = to_le 24 h.blue_work; daa_score = to_le 8 h.daa_score }),
    fj.get-fetch_update s Partition.block_compact_header h.hash _ Partition.block_compact_header
          h.hash
        ∙ rw (bytes_eq_refl h.hash),
  )

  insert_daa_index-IsKnown :
      (s : fj.Keyspace) (h : RpcHeader)
      → IsKnown s h
      → IsKnown (insert_daa_index fj s h.daa_score h.hash (to_be 24 h.blue_work)) h
  unfolding insert_daa_index
  insert_daa_index-IsKnown s h (v, e) = (
    v,
    fj.get-insert s Partition.daa_index_compact_header _ [] Partition.block_compact_header h.hash
        ∙ e,
  )

  was_known :
      (s : fj.Keyspace) (h : RpcHeader)
      → (insert_compact_header fj s h.hash (to_le 24 h.blue_work) h.daa_score).1
        ≡ is_some (fj.get s Partition.block_compact_header h.hash)
  unfolding insert_compact_header
  was_known s h = rw (fj.fetched s Partition.block_compact_header h.hash _)

  pub handle_block-known :
      (block : RpcBlock k) (collect_push_events : Bool) (h : Handling fj k)
      → IsKnown h.keyspace block.header
      → handle_block fj k block collect_push_events h
        ≡ ok (record h { keyspace = with_header h.keyspace block.header })
  unfolding handle_block
  handle_block-known block collect_push_events h (v, e) = rw (was_known h.keyspace block.header, e)

  handle_new_block-keyspace :
      (block : RpcBlock k) (collect : Bool) (h h' : Handling fj k)
      → handle_new_block fj k block collect h ≡ ok h'
      → h'.keyspace
        ≡ insert_daa_index fj h.keyspace block.header.daa_score block.header.hash
            (to_be 24 block.header.blue_work)
  unfolding handle_new_block
  handle_new_block-keyspace block collect h h' r =
      let s =
        insert_daa_index fj h.keyspace block.header.daa_score block.header.hash
          (to_be 24 block.header.blue_work) in
      let (c, first, rest) =
        bind-eq_ok
          (for_each (handle_transaction fj k s block.header collect) block.transactions h.collected)
          (λ c.
            ok (record { keyspace = s; collected = c; blocks_processed = suc h.blocks_processed }))
          r in
      cc

  -- A block that was handled is known.
  pub handle_block-IsKnown :
      (block : RpcBlock k) (collect_push_events : Bool) (h h' : Handling fj k)
      → handle_block fj k block collect_push_events h ≡ ok h'
      → IsKnown h'.keyspace block.header
  unfolding handle_block handle_new_block
  handle_block-IsKnown block collect_push_events h h' r =
      let known = with_header-IsKnown h.keyspace block.header in
      elim (Option-cases (fj.get h.keyspace Partition.block_compact_header block.header.hash)) [
        | inl n ↦
            subst (λ x. IsKnown x block.header)
              (sym (
                handle_new_block-keyspace block collect_push_events
                  (record h { keyspace = with_header h.keyspace block.header }) h'
                  (rw (was_known h.keyspace block.header, n, handle_block) at r)))
              (insert_daa_index-IsKnown (with_header h.keyspace block.header) block.header known)
        | inr (v, e) ↦
            subst (λ x. IsKnown x.keyspace block.header)
              (ok-injective (record h { keyspace = with_header h.keyspace block.header }) h'
                (sym (handle_block-known block collect_push_events h (v, e)) ∙ r))
              known
      ]

  -- If a block has been handled with success, then to handle it again succeeds and changes nothing
  -- but the stored header of the block, which is written once more: no message, no push event and
  -- no count of the block is added.
  pub handle_block-twice :
      (block : RpcBlock k) (collect collect' : Bool) (h h' : Handling fj k)
      → handle_block fj k block collect h ≡ ok h'
      → handle_block fj k block collect' h'
        ≡ ok (record h' { keyspace = with_header h'.keyspace block.header })
  handle_block-twice block collect collect' h h' r =
      handle_block-known block collect' h' (handle_block-IsKnown block collect h h' r)
