-- ===== src/Periodic/Prune/Indexed.antt =====
-- What the block processor writes into the index by DAA score.
use kasia_indexer.Prelude.{
  suc, ◌^◌, ◌<◌, ◌≡◌, ◌∙◌, refl, sym, ap, subst, Bool, true, false, some, [], length, is_some,
  if◌then◌else◌,
}
use kasia_indexer.Prelude.Bytes.{Bytes, to_be, to_le, bytes_eq_refl, length-to_be}
use kasia_indexer.Prelude.Outcome.{ok, bind-eq_ok, ok-injective, for_each}
use kasia_indexer.Fjall.{Fjall, Partition}
use kasia_indexer.Db.{Kaspa}
use kasia_indexer.Db.Headers.{insert_compact_header, insert_daa_index}
use kasia_indexer.Blocks.{RpcBlock}
use kasia_indexer.Blocks.Transaction.{Handling, handle_block, handle_new_block, handle_transaction}
use kasia_indexer.Periodic.Prune.{
  IsIndex, index_key, get-insert_daa_index, insert_daa_index-IsIndex,
}

module _ (fj : Fjall) (k : Kaspa) (push_channel : Bool) where
  abbrev pub index : Partition
  index = Partition.daa_index_compact_header

  abbrev with_header : RpcBlock k → fj.Keyspace → fj.Keyspace × Bool
  with_header block s =
      insert_compact_header fj s block.header.hash (to_le 24 block.header.blue_work)
        block.header.daa_score

  -- The insertion of a header leaves the index alone and says whether the header was there.
  header-index :
      (block : RpcBlock k) (s : fj.Keyspace) (j : Bytes)
      → fj.get (with_header block s).0 index j ≡ fj.get s index j
  unfolding insert_compact_header
  header-index block s j = fj.get-fetch_update s Partition.block_compact_header _ _ index j

  header-known :
      (block : RpcBlock k) (s : fj.Keyspace)
      → (with_header block s).1
        ≡ is_some (fj.get s Partition.block_compact_header block.header.hash)
  unfolding insert_compact_header
  header-known block s =
      ap is_some (fj.fetched s Partition.block_compact_header block.header.hash _)

  abbrev pub key_of : RpcBlock k → Bytes
  key_of block =
      index_key block.header.daa_score block.header.hash (to_be 24 block.header.blue_work)

  -- the store behind the header and, for a new block, the entry of the index
  abbrev with_entry : RpcBlock k → fj.Keyspace × Bool → fj.Keyspace
  with_entry block (s, already_processed) =
      if already_processed
      then s
      else insert_daa_index fj s block.header.daa_score block.header.hash
          (to_be 24 block.header.blue_work)

  behind_header :
      (block : RpcBlock k) (collect : Bool) (h h' : Handling fj k) (x : fj.Keyspace × Bool)
      → (if x.1
          then ok (record h { keyspace = x.0 })
          else handle_new_block fj k block collect (record h { keyspace = x.0 }))
        ≡ ok h'
      → h'.keyspace ≡ with_entry block x
  unfolding handle_new_block
  behind_header block collect h h' (s, true) e =
      ap (λ (y : Handling fj k). y.keyspace) (sym (ok-injective (record h { keyspace = s }) h' e))
  behind_header block collect h h' (s, false) e =
      let s' = with_entry block (s, false) in
      let (c, first, rest) =
        bind-eq_ok
          (for_each (handle_transaction fj k s' block.header collect) block.transactions
            h.collected)
          (λ c.
            ok (record { keyspace = s'; collected = c; blocks_processed = suc h.blocks_processed }))
          e in
      ap (λ (y : Handling fj k). y.keyspace) (sym (ok-injective _ h' rest))

  handle_block-keyspace :
      (block : RpcBlock k) (collect : Bool) (h h' : Handling fj k)
      → handle_block fj k block collect h ≡ ok h'
      → h'.keyspace ≡ with_entry block (with_header block h.keyspace)
  unfolding handle_block
  handle_block-keyspace block collect h h' e =
      behind_header block collect h h' (with_header block h.keyspace) e

  IsIndex-same :
      (s s' : fj.Keyspace)
      → ((j : Bytes) → fj.get s' index j ≡ fj.get s index j)
      → IsIndex fj s
      → IsIndex fj s'
  IsIndex-same s s' same w key value e = w key value (sym (same key) ∙ e)

  with_entry-IsIndex :
      (block : RpcBlock k) (x : fj.Keyspace × Bool)
      → block.header.daa_score < 256 ^ 8
      → length block.header.hash ≡ 32
      → IsIndex fj x.0
      → IsIndex fj (with_entry block x)
  with_entry-IsIndex block (s, true) d l w = w
  with_entry-IsIndex block (s, false) d l w =
      insert_daa_index-IsIndex fj s block.header.daa_score block.header.hash
        (to_be 24 block.header.blue_work) w (d, l, length-to_be 24 block.header.blue_work)

  with_entry-get :
      (block : RpcBlock k) (x : fj.Keyspace × Bool)
      → fj.get (with_entry block x) index (key_of block)
        ≡ (if x.1 then fj.get x.0 index (key_of block) else some [])
  with_entry-get block (s, true) = refl
  with_entry-get block (s, false) =
      get-insert_daa_index fj s block.header.daa_score block.header.hash
        (to_be 24 block.header.blue_work) index (key_of block)
      ∙ rw (bytes_eq_refl (key_of block)) refl

  -- Let each entry of the index by DAA score have an empty value and a key that is made of a DAA
  -- score as a big-endian number of 8 bytes, 24 bytes of blue work and the 32 bytes of a hash. If
  -- a block with a hash of 32 bytes and a DAA score of 64 bits is handled with success, this is
  -- still so. Where the store has no header for the hash of the block, the index then has the
  -- entry of its DAA score, its blue work as a big-endian number, and its hash; where it has one,
  -- the entry reads as before.
  pub handle_block-IsIndex :
      (block : RpcBlock k) (collect : Bool) (h h' : Handling fj k)
      → IsIndex fj h.keyspace
      → block.header.daa_score < 256 ^ 8
      → length block.header.hash ≡ 32
      → handle_block fj k block collect h ≡ ok h'
      → IsIndex fj h'.keyspace
        × (fj.get h'.keyspace index (key_of block) ≡ (
            if is_some (fj.get h.keyspace Partition.block_compact_header block.header.hash)
            then fj.get h.keyspace index (key_of block)
            else some []))
  handle_block-IsIndex block collect h h' w d l e =
      let x = with_header block h.keyspace in
      let same = handle_block-keyspace block collect h h' e in
      (
        subst (IsIndex fj) (sym same) (
            with_entry-IsIndex block x d l
              (IsIndex-same h.keyspace x.0 (header-index block h.keyspace) w)),
        ap (λ s. fj.get s index (key_of block)) same
            ∙ with_entry-get block x
            ∙ rw (header-known block h.keyspace, header-index block h.keyspace (key_of block)) refl,
      )
