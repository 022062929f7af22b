-- ===== src/Periodic/Prune/ByDaa.antt =====
-- The removal of old blocks by the DAA score of a block.
use kasia_indexer.Prelude.{
  ℕ, ◌-◌, ◌^◌, ◌<◌, ◌≤◌, ◌≡◌, refl, sym, ◌∙◌, true, false, none, some, [], ◌∷◌, ◌++◌, length, drop,
  ltb, lt→ltb, if◌then◌else◌, arith, Bool-cases, inl, inr,
}
use kasia_indexer.Prelude.Bytes.{Bytes, to_be, bytes_lt, bytes_eq, bytes_eq_refl, bytes_eq_sound}
use kasia_indexer.Prelude.Bytes.Order.{bytes_lt-to_be, bytes_lt-append}
use kasia_indexer.Prelude.Outcome.{ok}
use kasia_indexer.Fjall.{Fjall, Partition}
use kasia_indexer.Fjall.Entries.{Entries, lookup}
use kasia_indexer.Fjall.Ranges.{lookup-keep_below}
use kasia_indexer.Periodic.{prune}
use kasia_indexer.Periodic.Prune.{
  IsKeyOf, index_key, drop-index_key, any_clears, IsIndex, old_entries, prune-Clears,
}

any_clears-lookup :
    (m : Entries) (key v : Bytes)
    → lookup key m ≡ some v
    → (any_clears m Partition.daa_index_compact_header key ≡ true)
      × (any_clears m Partition.block_compact_header (drop 32 key) ≡ true)
      × (any_clears m Partition.accepting_block_to_tx_id (drop 32 key) ≡ true)
any_clears-lookup [] key v e = cc
any_clears-lookup ((k, w) ∷ m) key v e = elim (Bool-cases (bytes_eq k key)) [
  | inl t ↦
      let r = bytes_eq_sound k key t in
      (
        ground (arith, r, bytes_eq_refl key),
        ground (arith, r, bytes_eq_refl (drop 32 key)),
        ground (arith, r, bytes_eq_refl (drop 32 key)),
      )
  | inr n ↦
      let (a, b, c) = any_clears-lookup m key v (ground (arith, e)) in
      (ground (arith, a), ground (arith, b), ground (arith, c))
]

any_clears-index_none :
    (m : Entries) (key : Bytes)
    → lookup key m ≡ none
    → any_clears m Partition.daa_index_compact_header key ≡ false
any_clears-index_none [] key e = refl
any_clears-index_none ((k, w) ∷ m) key e = ground (arith, any_clears-index_none m key)

index_key-below :
    (daa n : ℕ) (h bw : Bytes)
    → daa < 256 ^ 8
    → n < 256 ^ 8
    → bytes_lt (index_key daa h bw) (to_be 8 n) ≡ ltb daa n
index_key-below daa n h bw d l =
    bytes_lt-append (to_be 8 daa) (bw ++ h) (to_be 8 n) refl ∙ bytes_lt-to_be 8 daa n d l

module _ (fj : Fjall) where
  lookup-old_entries :
      (s : fj.Keyspace) (daa n : ℕ) (h bw : Bytes)
      → daa < 256 ^ 8
      → n < 256 ^ 8
      → lookup (index_key daa h bw) (old_entries fj s n) ≡ (
          if ltb daa n
          then fj.get s Partition.daa_index_compact_header (index_key daa h bw)
          else none)
  lookup-old_entries s daa n h bw d l =
      let p = Partition.daa_index_compact_header in
      lookup-keep_below (to_be 8 n) (index_key daa h bw) (fj.iter s p)
      ∙ rw (index_key-below daa n h bw d l, fj.lookup-iter s p (index_key daa h bw)) refl

  -- On such a store, with a virtual DAA score of 64 bits, let the index hold a block with a DAA
  -- score below the threshold. After pruning, its entry in the index, its header and its accepted
  -- transactions are gone.
  pub prune_old :
      (s : fj.Keyspace) (current_daa pruning_depth daa : ℕ) (h bw : Bytes)
      → IsIndex fj s
      → current_daa < 256 ^ 8
      → IsKeyOf daa h bw
      → fj.get s Partition.daa_index_compact_header (index_key daa h bw) ≡ some []
      → daa < current_daa - pruning_depth
      → (s' : fj.Keyspace) × (n : ℕ) × (prune fj s current_daa pruning_depth ≡ ok (s', n))
        × (fj.get s' Partition.daa_index_compact_header (index_key daa h bw) ≡ none)
        × (fj.get s' Partition.block_compact_header h ≡ none)
        × (fj.get s' Partition.accepting_block_to_tx_id h ≡ none)
  prune_old s current_daa pruning_depth daa h bw w l sizes e lt =
      let t = current_daa - pruning_depth in
      let key = index_key daa h bw in
      let m = old_entries fj s t in
      let (s', r, c) = prune-Clears fj s current_daa pruning_depth w in
      let (a, b, g) =
        any_clears-lookup m key []
          (lookup-old_entries s daa t h bw sizes.0 (omega arith) ∙ rw (lt→ltb daa t lt) e) in
      let d = drop-index_key daa h bw sizes in
      (
        s',
        length m,
        r,
        c Partition.daa_index_compact_header key ∙ rw a refl,
        c Partition.block_compact_header h ∙ rw (sym d, b) refl,
        c Partition.accepting_block_to_tx_id h ∙ rw (sym d, g) refl,
      )

  -- On such a store, with a virtual DAA score of 64 bits, the entry in the index of a block with a
  -- DAA score that is not below the threshold reads after pruning as before.
  pub prune_young :
      (s : fj.Keyspace) (current_daa pruning_depth daa : ℕ) (h bw : Bytes)
      → IsIndex fj s
      → current_daa < 256 ^ 8
      → IsKeyOf daa h bw
      → current_daa - pruning_depth ≤ daa
      → (s' : fj.Keyspace) × (n : ℕ) × (prune fj s current_daa pruning_depth ≡ ok (s', n))
        × (fj.get s' Partition.daa_index_compact_header (index_key daa h bw)
            ≡ fj.get s Partition.daa_index_compact_header (index_key daa h bw))
  prune_young s current_daa pruning_depth daa h bw w l sizes ge =
      let t = current_daa - pruning_depth in
      let key = index_key daa h bw in
      let m = old_entries fj s t in
      let (s', r, c) = prune-Clears fj s current_daa pruning_depth w in
      let f =
        any_clears-index_none m key
          (lookup-old_entries s daa t h bw sizes.0 (omega arith) ∙ ground (arith, ge)) in
      (s', length m, r, c Partition.daa_index_compact_header key ∙ rw f refl)
