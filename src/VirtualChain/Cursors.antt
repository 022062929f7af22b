-- ===== src/VirtualChain/Cursors.antt =====
-- The stored cursor of the virtual chain: `Cursor` of the processor, its stored form in
-- indexer-db/src/metadata.rs, and `set_latest_accepting_block_cursor`.
use kasia_indexer.Prelude.{
  ◌^◌, ◌<◌, ◌≡◌, true, false, Option, some, length, ltb, if◌then◌else◌, Bool-cases, inl, inr, ap,
}
use kasia_indexer.Prelude.Bytes.{Bytes, length-to_be, length-to_le}
use kasia_indexer.Prelude.Bytes.Order.{bytes_lt-to_be}
use kasia_indexer.Prelude.Outcome.{ok}
use kasia_indexer.Fjall.{Fjall, Partition, same_cell}
use kasia_indexer.Db.Layout.{unpack-pack}
use kasia_indexer.Db.Metadata.{
  metadata_key, latest_accepting_block_cursor, cursor_sizes, cursor_fields, cursor_bytes, cursor_of,
  read_cursor, advance, set_latest_accepting_block_cursor,
}
use kasia_indexer.VirtualChain.{Cursor, cursor_to_db}

-- a cursor that its stored form can hold
pub record IsStorable (c : Cursor) : Type 0 where
  pub hash_length : length c.block_hash ≡ 32
  pub work_bound : c.blue_work < 256 ^ 24

pub read_cursor-stored :
    (c : Cursor)
    → IsStorable c
    → read_cursor (cursor_bytes (cursor_to_db c)) ≡ some (cursor_to_db c)
unfolding read_cursor cursor_bytes
read_cursor-stored c h = ap cursor_of (
    unpack-pack cursor_sizes (cursor_fields (cursor_to_db c))
      (length-to_be 24 c.blue_work, (h.hash_length, (length-to_le 8 c.daa_score, tt))))

-- the cursor with more blue work; the old one on a tie
unfoldable pub heavier : Cursor → Cursor → Cursor
heavier old new = if ltb old.blue_work new.blue_work then new else old

advance-stored :
    (old new : Cursor)
    → IsStorable old
    → IsStorable new
    → advance (cursor_to_db new) (some (cursor_bytes (cursor_to_db old)))
      ≡ ok (some (cursor_bytes (cursor_to_db (heavier old new))))
unfolding advance heavier
advance-stored old new h k = elim (Bool-cases (ltb old.blue_work new.blue_work)) [
  | inl e ↦ rw (
    read_cursor-stored old h,
    bytes_lt-to_be 24 old.blue_work new.blue_work h.work_bound k.work_bound,
    e,
    advance,
    heavier,
  )
  | inr n ↦ rw (
    read_cursor-stored old h,
    bytes_lt-to_be 24 old.blue_work new.blue_work h.work_bound k.work_bound,
    n,
    advance,
    heavier,
  )
]

module _ (fj : Fjall) where
  abbrev pub cursor_cell : fj.WriteTransaction → Option Bytes
  cursor_cell w = fj.get_wtx w Partition.metadata (metadata_key latest_accepting_block_cursor)

  -- what the transaction sees under the key is the stored form of the cursor
  abbrev pub HoldsCursor : fj.WriteTransaction → Cursor → Type 0
  HoldsCursor w c = cursor_cell w ≡ some (cursor_bytes (cursor_to_db c))

  -- Let the transaction see a cursor, and let both cursors be such that their stored forms can
  -- hold them. The update of the cursor succeeds and has written the one with more blue work, the
  -- old one on a tie, and every other key reads as before.
  pub set_cursor-HoldsCursor :
      (w : fj.WriteTransaction) (old new : Cursor)
      → IsStorable old
      → IsStorable new
      → HoldsCursor w old
      → (w' : fj.WriteTransaction) × (set_latest_accepting_block_cursor fj w (cursor_to_db new)
          ≡ ok w')
        × HoldsCursor w' (heavier old new)
        × (fj.has_written w' Partition.metadata (metadata_key latest_accepting_block_cursor) ≡ true)
        × ((q : Partition) (j : Bytes)
            → same_cell Partition.metadata (metadata_key latest_accepting_block_cursor) q j ≡ false
            → fj.get_wtx w' q j ≡ fj.get_wtx w q j)
  unfolding set_latest_accepting_block_cursor
  set_cursor-HoldsCursor w old new h k c =
      let v = some (cursor_bytes (cursor_to_db (heavier old new))) in
      let key = metadata_key latest_accepting_block_cursor in
      (
        (fj.fetch_update_wtx w Partition.metadata key (λ x. v)).0,
        rw (c, advance-stored old new h k),
        fj.get_wtx-fetch_update_wtx w Partition.metadata key (λ x. v) Partition.metadata key,
        fj.has_written-fetch_update_wtx w Partition.metadata key (λ x. v) Partition.metadata key,
        λ q j d. rw (fj.get_wtx-fetch_update_wtx w Partition.metadata key (λ x. v) q j, d),
      )
