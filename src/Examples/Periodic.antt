-- ===== src/Examples/Periodic.antt =====
-- Examples of the periodic processor: an index of two blocks, one of which is old.
use kasia_indexer.Prelude.{ℕ, ◌≡◌, refl, none, some, [], length, replicate, arith}
use kasia_indexer.Prelude.Bytes.{Bytes}
use kasia_indexer.Prelude.Outcome.{ok}
use kasia_indexer.Fjall.{Partition}
use kasia_indexer.Db.Headers.{insert_daa_index, daa_index_key_bytes, make_key}
use kasia_indexer.Periodic.{prune}
use kasia_indexer.Periodic.Prune.{
  IsIndex, index_key, Clears, old_entries, prune-Clears, insert_daa_index-IsIndex,
}
use kasia_indexer.Periodic.Prune.ByDaa.{prune_old, prune_young}
use kasia_indexer.Examples.{store, hash}

abbrev work : Bytes
work = replicate 24 9

abbrev one_block : store.Keyspace
one_block = insert_daa_index store [] 3 (hash 7) work

abbrev two_blocks : store.Keyspace
two_blocks = insert_daa_index store one_block 50 (hash 8) work

empty-IsIndex : IsIndex store []
empty-IsIndex key value e = cc

one_block-IsIndex : IsIndex store one_block
one_block-IsIndex =
    insert_daa_index-IsIndex store [] 3 (hash 7) work empty-IsIndex (omega arith, refl, refl)

two_blocks-IsIndex : IsIndex store two_blocks
two_blocks-IsIndex =
    insert_daa_index-IsIndex store one_block 50 (hash 8) work one_block-IsIndex
      (omega arith, refl, refl)

prune-Clears_example :
    (s' : store.Keyspace) × (prune store two_blocks 20 10
      ≡ ok (s', length (old_entries store two_blocks 10)))
    × Clears store (old_entries store two_blocks 10) two_blocks s'
prune-Clears_example = prune-Clears store two_blocks 20 10 two_blocks-IsIndex

old_is_stored :
    store.get two_blocks Partition.daa_index_compact_header (index_key 3 (hash 7) work) ≡ some []
unfolding insert_daa_index daa_index_key_bytes make_key
old_is_stored = refl

prune_old_example :
    (s' : store.Keyspace) × (n : ℕ) × (prune store two_blocks 20 10 ≡ ok (s', n))
    × (store.get s' Partition.daa_index_compact_header (index_key 3 (hash 7) work) ≡ none)
    × (store.get s' Partition.block_compact_header (hash 7) ≡ none)
    × (store.get s' Partition.accepting_block_to_tx_id (hash 7) ≡ none)
prune_old_example =
    prune_old store two_blocks 20 10 3 (hash 7) work two_blocks-IsIndex (omega arith)
      (omega arith, refl, refl) old_is_stored (omega arith)

prune_young_example :
    (s' : store.Keyspace) × (n : ℕ) × (prune store two_blocks 20 10 ≡ ok (s', n))
    × (store.get s' Partition.daa_index_compact_header (index_key 50 (hash 8) work)
        ≡ store.get two_blocks Partition.daa_index_compact_header (index_key 50 (hash 8) work))
prune_young_example =
    prune_young store two_blocks 20 10 50 (hash 8) work two_blocks-IsIndex (omega arith)
      (omega arith, refl, refl) (omega arith)
