-- ===== src/Blocks/Process/Progress.antt =====
-- What the block processor stores of its own progress: the latest block, and the gaps.
use kasia_indexer.Prelude.{
  ℕ, ◌≡◌, refl, Bool, true, false, Option, none, some, List, [], ◌∷◌, length, ap, ◌∙◌, sym, ==-refl,
  Bool-cases, inl, inr, subst,
}
use kasia_indexer.Prelude.Bytes.{Bytes, bytes_eq_refl}
use kasia_indexer.Prelude.Outcome.{ok, bind-eq_ok, for_each, ok-injective}
use kasia_indexer.Fjall.{Fjall, Partition, same_cell, partition_number}
use kasia_indexer.Db.{Kaspa}
use kasia_indexer.Db.Metadata.{
  metadata_key, latest_block_cursor, set_latest_block_cursor, get_latest_block_cursor,
}
use kasia_indexer.Db.Headers.{add_gap_wtx, remove_gap_wtx}
use kasia_indexer.VirtualChain.{CompactHeader}
use kasia_indexer.Blocks.{RpcBlock, PushDispatchEvent}
use kasia_indexer.Blocks.Transaction.{Handling, handle_block}
use kasia_indexer.Blocks.Process.Conflicts.{fresh}
use kasia_indexer.Blocks.Process.{
  Worker, compact, next_commit, later_commits, announce, dispatch_push_events, commit_block,
  take_block, handle_notification, gap_block, last_gap_block, finish_gap, filler_ended, step,
  GapFillingProgress, interrupted, failed, from_filler, update, finished,
}

module _ (fj : Fjall) where
  pub same_cell_refl : (p : Partition) (k : Bytes) → same_cell p k p k ≡ true
  same_cell_refl p k = rw (==-refl (partition_number p), bytes_eq_refl k)

  -- A commit of an insertion or a removal behind other writes.
  commit-insert :
      (w : fj.WriteTransaction) (s : fj.Keyspace) (p : Partition) (k v : Bytes)
      → fj.get (fj.commit (fj.insert_wtx w p k v) s) p k ≡ some v
  commit-insert w s p k v = rw (
    fj.get-commit (fj.insert_wtx w p k v) s p k,
    fj.has_written-insert_wtx w p k v p k,
    fj.get_wtx-insert_wtx w p k v p k,
    same_cell_refl p k,
  )

  commit-remove :
      (w : fj.WriteTransaction) (s : fj.Keyspace) (p : Partition) (k : Bytes)
      → fj.get (fj.commit (fj.remove_wtx w p k) s) p k ≡ none
  commit-remove w s p k = rw (
    fj.get-commit (fj.remove_wtx w p k) s p k,
    fj.has_written-remove_wtx w p k p k,
    fj.get_wtx-remove_wtx w p k p k,
    same_cell_refl p k,
  )

  module _ (k : Kaspa) (push_channel : Bool) where
    -- The store of a result is a commit that ends with `finish`.
    abbrev EndsWith : (fj.WriteTransaction → fj.WriteTransaction) → fj.Keyspace → Type 0
    EndsWith finish s' =
        (w : fj.WriteTransaction) × (s : fj.Keyspace) × (s' ≡ fj.commit (finish w) s)

    commit_block-EndsWith :
        (conflicts : List (fj.Keyspace → fj.Keyspace)) (block : RpcBlock k) (collect : Bool)
        (finish : fj.WriteTransaction → fj.WriteTransaction) (s : fj.Keyspace) (n : ℕ)
        (r : Handling fj k)
        → commit_block fj k push_channel conflicts block collect finish s n ≡ ok r
        → EndsWith finish r.keyspace
    unfolding commit_block
    commit_block-EndsWith [] block collect finish s n r e =
        let (h, first, rest) =
          bind-eq_ok (handle_block fj k block collect (fresh fj k push_channel s n))
            (λ h. ok (record h { keyspace = fj.commit (finish h.collected.wtx) h.keyspace })) e in
        (h.collected.wtx, h.keyspace, cc)
    commit_block-EndsWith (others ∷ conflicts) block collect finish s n r e =
        let (h, first, rest) =
          bind-eq_ok (handle_block fj k block collect (fresh fj k push_channel s n))
            (λ h.
              commit_block fj k push_channel conflicts block collect finish (others h.keyspace)
                h.blocks_processed)
            e in
        commit_block-EndsWith conflicts block collect finish (others h.keyspace) h.blocks_processed
          r rest

    announce-keyspace :
        (h : CompactHeader) (l : Worker fj) → (announce fj h l).keyspace ≡ l.keyspace
    announce-keyspace h l = elim (Bool-cases l.is_shutdown) [ inl e ↦ rw e | inr n ↦ rw n ]

    take_block-EndsWith :
        (collect : Bool) (finish : fj.WriteTransaction → fj.WriteTransaction) (l : Worker fj)
        (block : RpcBlock k) (events : List PushDispatchEvent) (l' : Worker fj)
        → take_block fj k push_channel collect finish l block ≡ ok (events, l')
        → EndsWith finish l'.keyspace
    unfolding take_block
    take_block-EndsWith collect finish l block events l' e =
        let (h, first, rest) =
          bind-eq_ok
            (commit_block fj k push_channel (next_commit fj l.schedule) block collect finish
              l.keyspace l.blocks_processed)
            _ e in
        let (w, s, c) =
          commit_block-EndsWith (next_commit fj l.schedule) block collect finish l.keyspace
            l.blocks_processed h first in
        let l'' : Worker fj = record l {
          keyspace = h.keyspace;
          blocks_processed = h.blocks_processed;
          schedule = later_commits fj l.schedule;
        } in
        (
          w,
          s,
          sym (
                ap (λ (p : List PushDispatchEvent × Worker fj). p.1.keyspace)
                  (ok-injective (h.collected.push_events, announce fj (compact block.header) l'')
                    (events, l') rest))
              ∙ announce-keyspace (compact block.header) l''
              ∙ c,
        )

    dispatch-keyspace :
        (channel : Bool) (events : List PushDispatchEvent) (l : Worker fj)
        → (dispatch_push_events fj channel events l).keyspace ≡ l.keyspace
    dispatch-keyspace true events l = refl
    dispatch-keyspace false events l = refl

    -- If a block of the node with a hash of 32 bytes is handled with success, the latest block
    -- cursor reads as its hash, whatever conflicts there were on the way.
    pub handle_notification-cursor :
        (block : RpcBlock k) (l l' : Worker fj)
        → length block.header.hash ≡ 32
        → handle_notification fj k push_channel block l ≡ ok l'
        → get_latest_block_cursor fj l'.keyspace ≡ ok (some block.header.hash)
    unfolding handle_notification get_latest_block_cursor set_latest_block_cursor
    handle_notification-cursor block l l' size e =
        let hash = block.header.hash in
        let ((events, u), first, rest) =
          bind-eq_ok
            (take_block fj k push_channel true (λ w. set_latest_block_cursor fj w hash) l block) _
            e in
        let (w, s, c) =
          take_block-EndsWith true (λ w. set_latest_block_cursor fj w hash) l block events u
            first in
        let same : l'.keyspace ≡ u.keyspace =
          ap (λ (x : Worker fj). x.keyspace) (sym (ok-injective _ l' rest))
          ∙ dispatch-keyspace push_channel events (record u { last_processed_block = some hash }) in
        rw (
          same,
          c,
          commit-insert w s Partition.metadata (metadata_key latest_block_cursor) hash,
          size,
        )

    -- The gap of the target starts at `from`.
    abbrev pub GapFrom : Bytes → Option Bytes → fj.Keyspace → Type 0
    GapFrom to from s = fj.get s Partition.block_gaps to ≡ from

    gap_block-GapFrom :
        (to : Bytes) (block : RpcBlock k) (l l' : Worker fj)
        → gap_block fj k push_channel to l block ≡ ok l'
        → GapFrom to (some block.header.hash) l'.keyspace
    unfolding gap_block add_gap_wtx
    gap_block-GapFrom to block l l' e =
        let finish : fj.WriteTransaction → fj.WriteTransaction =
          λ w. add_gap_wtx fj w (record { from = block.header.hash; to = to }) in
        let ((events, u), first, rest) =
          bind-eq_ok (take_block fj k push_channel false finish l block) _ e in
        let (w, s, c) = take_block-EndsWith false finish l block events u first in
        ap (λ (x : Worker fj). fj.get x.keyspace Partition.block_gaps to)
          (sym (ok-injective u l' rest))
        ∙ rw c (commit-insert w s Partition.block_gaps to block.header.hash)

    last_gap_block-GapFrom :
        (to : Bytes) (block : RpcBlock k) (l l' : Worker fj)
        → last_gap_block fj k push_channel to l block ≡ ok l'
        → GapFrom to none l'.keyspace
    unfolding last_gap_block remove_gap_wtx
    last_gap_block-GapFrom to block l l' e =
        let finish : fj.WriteTransaction → fj.WriteTransaction = λ w. remove_gap_wtx fj w to in
        let ((events, u), first, rest) =
          bind-eq_ok (take_block fj k push_channel false finish l block) _ e in
        let (w, s, c) = take_block-EndsWith false finish l block events u first in
        ap (λ (x : Worker fj). fj.get x.keyspace Partition.block_gaps to)
          (sym (ok-injective u l' rest))
        ∙ rw c (commit-remove w s Partition.block_gaps to)

    -- The start of a gap after these blocks.
    abbrev pub start_after : Option Bytes → List (RpcBlock k) → Option Bytes
    start_after from [] = from
    start_after from (block ∷ blocks) = start_after (some block.header.hash) blocks

    update-GapFrom :
        (to : Bytes) (from : Option Bytes) (blocks : List (RpcBlock k)) (l l' : Worker fj)
        → GapFrom to from l.keyspace
        → for_each (gap_block fj k push_channel to) blocks l ≡ ok l'
        → GapFrom to (start_after from blocks) l'.keyspace
    unfolding for_each
    update-GapFrom to from [] l l' g e =
        subst (λ (x : Worker fj). GapFrom to from x.keyspace) (ok-injective l l' e) g
    update-GapFrom to from (block ∷ blocks) l l' g e =
        let (u, first, rest) =
          bind-eq_ok (gap_block fj k push_channel to l block)
            (for_each (gap_block fj k push_channel to) blocks) e in
        update-GapFrom to (some block.header.hash) blocks u l'
          (gap_block-GapFrom to block l u first) rest

    finish_gap-GapFrom :
        (to : Bytes) (block : RpcBlock k) (blocks : List (RpcBlock k)) (l l' : Worker fj)
        → finish_gap fj k push_channel to (block ∷ blocks) l ≡ ok l'
        → GapFrom to none l'.keyspace
    unfolding finish_gap
    finish_gap-GapFrom to block [] l l' e = last_gap_block-GapFrom to block l l' e
    finish_gap-GapFrom to block (next ∷ more) l l' e =
        let (u, first, rest) =
          bind-eq_ok (gap_block fj k push_channel to l block)
            (finish_gap fj k push_channel to (next ∷ more)) e in
        finish_gap-GapFrom to next more u l' rest

    -- The target of a gap filler's result, and where the gap to it starts once that is handled.
    abbrev pub target : GapFillingProgress k → Bytes
    target (interrupted to) = to
    target (failed to) = to
    target (update to blocks) = to
    target (finished to blocks) = to

    abbrev pub gap_after : GapFillingProgress k → Option Bytes → Option Bytes
    gap_after (interrupted to) from = from
    gap_after (failed to) from = from
    gap_after (update to blocks) from = start_after from blocks
    gap_after (finished to []) from = from
    gap_after (finished to (block ∷ blocks)) from = none

    -- If a result of a gap filler is handled with success, the gap to its target is in the store
    -- as it was when the filler failed or was interrupted or sent no blocks, starts at the last
    -- block of an update, and is gone at the end of the fill, whatever conflicts there were on the
    -- way.
    pub step-GapFrom :
        (progress : GapFillingProgress k) (from : Option Bytes) (l l' : Worker fj)
        → GapFrom (target progress) from l.keyspace
        → step fj k push_channel (from_filler progress) l ≡ ok l'
        → GapFrom (target progress) (gap_after progress from) l'.keyspace
    unfolding step filler_ended finish_gap
    step-GapFrom (interrupted to) from l l' g e =
        subst (λ (x : Worker fj). GapFrom to from x.keyspace)
          (ok-injective (filler_ended fj to l) l' e) g
    step-GapFrom (failed to) from l l' g e =
        subst (λ (x : Worker fj). GapFrom to from x.keyspace)
          (ok-injective (filler_ended fj to l) l' e) g
    step-GapFrom (update to blocks) from l l' g e = update-GapFrom to from blocks l l' g e
    step-GapFrom (finished to []) from l l' g e =
        subst (λ (x : Worker fj). GapFrom to from x.keyspace)
          (ok-injective (filler_ended fj to l) l' e) g
    step-GapFrom (finished to (block ∷ blocks)) from l l' g e =
        let (u, first, rest) =
          bind-eq_ok (finish_gap fj k push_channel to (block ∷ blocks) l)
            (λ v. ok (filler_ended fj to v)) e in
        ap (λ (x : Worker fj). fj.get x.keyspace Partition.block_gaps to)
          (sym (ok-injective (filler_ended fj to u) l' rest))
        ∙ finish_gap-GapFrom to block blocks l u first
