-- ===== src/VirtualChain/Chain/Advance.antt =====
-- The cursor that a change of the virtual chain stores, and the cells that it does not touch.
use kasia_indexer.Prelude.{◌≡◌, refl, true, Option, some, List, [], ◌∷◌, last?, All, ◌∙◌}
use kasia_indexer.Prelude.Bytes.{Bytes}
use kasia_indexer.Prelude.Outcome.{
  ok, for_each, Ensures, ok-Ensures, Ensures-apply, bind-Ensures, bind-Ensures_any,
  for_each-Ensures,
}
use kasia_indexer.Fjall.{Fjall, Partition}
use kasia_indexer.RingMap.{RingMap}
use kasia_indexer.Db.Metadata.{metadata_key, latest_accepting_block_cursor, cursor_bytes}
use kasia_indexer.VirtualChain.{VirtualChainChange, Command, ChainBlock, Cursor, cursor_to_db}
use kasia_indexer.VirtualChain.Cursors.{IsStorable, heavier, HoldsCursor, set_cursor-HoldsCursor}
use kasia_indexer.VirtualChain.Chain.{
  Attempt, handle_vcc_removal, handle_vcc_addition, attempt_vcc, handle_vcc,
}
use kasia_indexer.VirtualChain.Chain.Frame.{
  IsOutside, handle_vcc_removal-Same, handle_vcc_addition-Same,
}

module _ (fj : Fjall) (rm : RingMap) where
  -- The last added block of the change, which has been processed, is that of the cursor.
  pub record EndsAt (m : rm.Map) (vcc : VirtualChainChange) (c : Cursor) : Type 0 where
    pub last : last? vcc.added_chain_block_hashes ≡ some c.block_hash
    pub block : rm.get m c.block_hash ≡ some (c.daa_score, c.blue_work)
    pub storable : IsStorable c

  abbrev pub block_of : Cursor → ChainBlock
  block_of c = record { hash = c.block_hash; blue_work = c.blue_work }

  abbrev pub cursor_key : Bytes
  cursor_key = metadata_key latest_accepting_block_cursor

  -- the committed store holds the stored form of the cursor
  abbrev pub StoresCursor : fj.Keyspace → Cursor → Type 0
  StoresCursor s c =
      fj.get s Partition.metadata (metadata_key latest_accepting_block_cursor)
      ≡ some (cursor_bytes (cursor_to_db c))

  -- Everything up to the cursor leaves an outside cell alone.
  module _ (q : Partition) (j : Bytes) (out : IsOutside q) where
    abbrev pub Keeps : Option Bytes → Attempt fj rm → Type 0
    Keeps c a = fj.get_wtx a.wtx q j ≡ c

    pub removals-Same :
        (s : fj.Keyspace) (m : rm.Map) (vcc : VirtualChainChange) (sent : List Command)
        → Ensures (Keeps (fj.get s q j)) (
            for_each
              (handle_vcc_removal fj rm s m)
              vcc.removed_chain_block_hashes
              (record { wtx = fj.write_tx s; sent = sent }))
    removals-Same s m vcc sent =
        for_each-Ensures _ (handle_vcc_removal fj rm s m) vcc.removed_chain_block_hashes _
          (fj.get_wtx-write_tx s q j)
          (λ a block. handle_vcc_removal-Same fj rm q j out (fj.get s q j) s m a block)

    pub additions-Same :
        (s : fj.Keyspace) (m : rm.Map) (vcc : VirtualChainChange) (a : Attempt fj rm)
        → Keeps (fj.get s q j) a
        → Ensures
            (Keeps (fj.get s q j))
            (for_each (handle_vcc_addition fj rm s m) vcc.accepted_transaction_ids a)
    additions-Same s m vcc a e =
        for_each-Ensures _ (handle_vcc_addition fj rm s m) vcc.accepted_transaction_ids a e
          (λ b block. handle_vcc_addition-Same fj rm q j out (fj.get s q j) s m b block)

  -- After an attempt the transaction has written the heavier cursor.
  abbrev Advanced : Cursor → Cursor → ChainBlock × Attempt fj rm → Type 0
  Advanced old new x =
      (x.0 ≡ block_of new)
      × HoldsCursor fj x.1.wtx (heavier old new)
      × (fj.has_written x.1.wtx Partition.metadata cursor_key ≡ true)

  attempt_vcc-Advanced :
      (s : fj.Keyspace) (m : rm.Map) (vcc : VirtualChainChange) (sent : List Command)
      (old new : Cursor)
      → EndsAt m vcc new
      → IsStorable old
      → StoresCursor s old
      → Ensures (Advanced old new) (attempt_vcc fj rm s m vcc sent)
  unfolding attempt_vcc
  attempt_vcc-Advanced s m vcc sent old new e st c =
      let out : IsOutside Partition.metadata = record {
        not_accepting = refl;
        not_acceptance = refl;
        not_pending = refl;
      } in
      bind-Ensures _ _ _ _ (removals-Same Partition.metadata cursor_key out s m vcc sent)
        λ removed r.
          bind-Ensures _ _ _ _ (additions-Same Partition.metadata cursor_key out s m vcc removed r)
            λ added a.
              let (w', set, holds, written, others) =
                set_cursor-HoldsCursor fj added.wtx old new st e.storable (a ∙ c) in
              rw (e.last, e.block, set) (ok-Ensures _ _ (refl, holds, written))

  -- The commit of an advanced transaction, and what others commit before it.
  abbrev Committed : Cursor → Cursor → ChainBlock × fj.Keyspace × List Command → Type 0
  Committed old new x = (x.0 ≡ block_of new) × StoresCursor x.1 (heavier old new)

  abbrev pub KeepsCell : Partition → Bytes → (fj.Keyspace → fj.Keyspace) → Type 0
  KeepsCell q j others = (s : fj.Keyspace) → fj.get (others s) q j ≡ fj.get s q j

  handle_vcc-Committed :
      (conflicts : List (fj.Keyspace → fj.Keyspace)) (s : fj.Keyspace) (m : rm.Map)
      (vcc : VirtualChainChange) (sent : List Command) (old new : Cursor)
      → EndsAt m vcc new
      → IsStorable old
      → StoresCursor s old
      → All (KeepsCell Partition.metadata cursor_key) conflicts
      → Ensures (Committed old new) (handle_vcc fj rm conflicts s m vcc sent)
  unfolding handle_vcc
  handle_vcc-Committed [] s m vcc sent old new e st c keeps =
      bind-Ensures _ _ _ _ (attempt_vcc-Advanced s m vcc sent old new e st c)
        λ x (b, holds, written).
          ok-Ensures _ _
            (b, fj.get-commit x.1.wtx s Partition.metadata cursor_key ∙ rw written holds)
  handle_vcc-Committed (others ∷ conflicts) s m vcc sent old new e st c keeps =
      bind-Ensures_any _ (attempt_vcc fj rm s m vcc sent) _ λ x.
        handle_vcc-Committed conflicts (others s) m vcc x.1.sent old new e st (keeps.0 s ∙ c)
          keeps.1

  -- Let the last added block of a change be a processed block that a cursor can hold, let the
  -- store hold a cursor, and let no other actor write the cursor while commits conflict. If the
  -- change is applied, after any number of conflicts, its last added block is returned, and the
  -- stored cursor is the one of the two that has more blue work, the old one on a tie.
  pub handle_vcc-cursor :
      (conflicts : List (fj.Keyspace → fj.Keyspace)) (s : fj.Keyspace) (m : rm.Map)
      (vcc : VirtualChainChange) (sent : List Command) (old new : Cursor) (last : ChainBlock)
      (s' : fj.Keyspace) (sent' : List Command)
      → EndsAt m vcc new
      → IsStorable old
      → StoresCursor s old
      → All (KeepsCell Partition.metadata cursor_key) conflicts
      → handle_vcc fj rm conflicts s m vcc sent ≡ ok (last, s', sent')
      → (last ≡ block_of new) × StoresCursor s' (heavier old new)
  handle_vcc-cursor conflicts s m vcc sent old new last s' sent' e st c keeps r =
      Ensures-apply (Committed old new) (handle_vcc fj rm conflicts s m vcc sent) (last, s', sent')
        (handle_vcc-Committed conflicts s m vcc sent old new e st c keeps) r
