-- ===== src/Periodic/Prune.antt =====
-- What the removal of old blocks leaves in the store.
pub mod ByDaa
pub mod Indexed
use kasia_indexer.Prelude.{
  ℕ, suc, ◌+◌, ◌-◌, ◌^◌, ◌<◌, ◌≡◌, refl, sym, ap, ◌∙◌, subst, Bool, true, false, ◌||◌, Option, none,
  some, List, [], ◌∷◌, ◌++◌, length, drop, All, if◌then◌else◌, arith, append-nil, append_assoc,
  drop-append-length, length-append, Bool-cases, inl, inr,
}
use kasia_indexer.Prelude.Bytes.{Bytes, bytes_eq, bytes_eq_sound, of_be, to_be, length-to_be}
use kasia_indexer.Prelude.Bytes.Order.{of_be-to_be}
use kasia_indexer.Prelude.Outcome.{Outcome, ok, bind}
use kasia_indexer.Fjall.{Fjall, Partition, same_cell}
use kasia_indexer.Fjall.Entries.{Entries, keep_below, lookup}
use kasia_indexer.Fjall.Ranges.{All-keep_below, All-of_lookup}
use kasia_indexer.Db.Layout.{unpack-pack}
use kasia_indexer.Db.Headers.{
  DaaIndexKey, make_key, daa_index_key_bytes, daa_index_entry, iter_lt, insert_daa_index,
  remove_compact_header, delete_daa_index, remove_accepting_block_now,
}
use kasia_indexer.Periodic.{prune_key, prune_loop, prune}

-- the sizes of what a key of the index is made of
abbrev pub IsKeyOf : ℕ → Bytes → Bytes → Type 0
IsKeyOf daa h bw = (daa < 256 ^ 8) × (length h ≡ 32) × (length bw ≡ 24)

-- The layout of a key: the DAA score and the blue work as big-endian numbers of 8 and 24 bytes, and
-- the hash of the block.
abbrev pub index_key : ℕ → Bytes → Bytes → Bytes
index_key daa h bw = to_be 8 daa ++ (bw ++ h)

pub make_key-bytes :
    (daa : ℕ) (h bw : Bytes) → daa_index_key_bytes (make_key daa h bw) ≡ index_key daa h bw
unfolding daa_index_key_bytes make_key
make_key-bytes daa h bw = ap (λ t. to_be 8 daa ++ (bw ++ t)) (append-nil h)

-- an entry with such a key and an empty value
abbrev pub IsIndexEntry : Bytes × Bytes → Type 0
IsIndexEntry (key, value) =
    (value ≡ [])
    × ((daa : ℕ) × (h : Bytes) × (bw : Bytes) × IsKeyOf daa h bw × (key ≡ index_key daa h bw))

pub drop-index_key : (daa : ℕ) (h bw : Bytes) → IsKeyOf daa h bw → drop 32 (index_key daa h bw) ≡ h
drop-index_key daa h bw (d, lh, lb) =
    ap (λ xs. drop 32 xs) (sym (append_assoc (to_be 8 daa) bw h))
    ∙ drop-append-length 32 (to_be 8 daa ++ bw) h
        (omega (arith, length-append {0} (to_be 8 daa) bw, length-to_be 8 daa, lb))

abbrev Reads : Bytes → Bytes → Type 0
Reads key value =
    (k : DaaIndexKey) × (daa_index_entry (key, value) ≡ ok k)
    × (daa_index_key_bytes (make_key (of_be k.daa_score) k.block_hash k.blue_work) ≡ key)
    × (k.block_hash ≡ drop 32 key)

index_key-Reads : (daa : ℕ) (h bw : Bytes) → IsKeyOf daa h bw → Reads (index_key daa h bw) []
unfolding daa_index_entry daa_index_key_bytes make_key
index_key-Reads daa h bw (d, lh, lb) =
    subst (λ x. Reads x []) (make_key-bytes daa h bw)
      (
        make_key daa h bw,
        rw
            (unpack-pack (8 ∷ 24 ∷ 32 ∷ []) (to_be 8 daa ∷ bw ∷ h ∷ [])
              (length-to_be 8 daa, (lb, (lh, tt))))
            refl,
        ap (λ n. daa_index_key_bytes (make_key n h bw)) (of_be-to_be 8 daa d),
        sym (drop-index_key daa h bw (d, lh, lb))
            ∙ ap (λ x. drop 32 x) (sym (make_key-bytes daa h bw)),
      )

entry-Reads : (key value : Bytes) → IsIndexEntry (key, value) → Reads key value
entry-Reads key value (v, (daa, h, bw, sizes, e)) =
    subst (λ x. Reads key x) (sym v)
      (subst (λ x. Reads x []) (sym e) (index_key-Reads daa h bw sizes))

-- Whether the removal of an entry of the index clears a cell. A key ends in its hash.
abbrev pub clears : Bytes → Partition → Bytes → Bool
clears key q j =
    same_cell Partition.accepting_block_to_tx_id (drop 32 key) q j
    || same_cell Partition.daa_index_compact_header key q j
    || same_cell Partition.block_compact_header (drop 32 key) q j

abbrev pub any_clears : Entries → Partition → Bytes → Bool
any_clears [] q j = false
any_clears ((key, value) ∷ m) q j = let rest = any_clears m q j in clears key q j || rest

module _ (fj : Fjall) where
  abbrev pub Clears : Entries → fj.Keyspace → fj.Keyspace → Type 0
  Clears m s s' =
      (q : Partition) (j : Bytes)
      → fj.get s' q j ≡ (if any_clears m q j then none else fj.get s q j)

  get-prune_key :
      (s : fj.Keyspace) (k : DaaIndexKey) (q : Partition) (j : Bytes) (key : Bytes)
      → daa_index_key_bytes (make_key (of_be k.daa_score) k.block_hash k.blue_work) ≡ key
      → k.block_hash ≡ drop 32 key
      → fj.get (prune_key fj k s) q j ≡ (if clears key q j then none else fj.get s q j)
  unfolding remove_compact_header delete_daa_index remove_accepting_block_now
  get-prune_key s k q j key e h =
      let s' = remove_compact_header fj s k.block_hash in
      let s'' = delete_daa_index fj s' (of_be k.daa_score) k.block_hash k.blue_work in
      ground (
        arith,
        fj.get-remove s Partition.block_compact_header k.block_hash q j,
        fj.get-remove s' Partition.daa_index_compact_header
            (daa_index_key_bytes (make_key (of_be k.daa_score) k.block_hash k.blue_work)) q j,
        fj.get-remove s'' Partition.accepting_block_to_tx_id k.block_hash q j,
      )

  prune_loop-Clears :
      (m : Entries) (s : fj.Keyspace) (n c : ℕ)
      → All IsIndexEntry m
      → n + length m ≡ c
      → (s' : fj.Keyspace) × (prune_loop fj m s n ≡ ok (s', c)) × Clears m s s'
  unfolding prune_loop
  prune_loop-Clears [] s n c a l = (s, ap (λ i. ok (s, i)) (omega (arith, l)), λ q j. refl)
  prune_loop-Clears ((key, value) ∷ m) s n c (e, a) l =
      let (k, r, b, h) = entry-Reads key value e in
      let (s', p, g) = prune_loop-Clears m (prune_key fj k s) (n + 1) c a (omega (arith, l)) in
      (s', rw (r, prune_loop) p, λ q j. ground (arith, g q j, get-prune_key s k q j key b h))

  -- Each entry of the index is such an entry.
  abbrev pub IsIndex : fj.Keyspace → Type 0
  IsIndex s =
      (key value : Bytes)
      → fj.get s Partition.daa_index_compact_header key ≡ some value
      → IsIndexEntry (key, value)

  -- the part of the index below a DAA score
  abbrev pub old_entries : fj.Keyspace → ℕ → Entries
  old_entries s n = keep_below (to_be 8 n) (fj.iter s Partition.daa_index_compact_header)

  -- On a store whose index by DAA score holds only keys as the block processor writes them,
  -- pruning succeeds. It reports the number of entries below the threshold, the virtual DAA score
  -- less the depth, cut off at zero. Afterwards the entry in the index, the header and the
  -- accepted transactions of each of these are gone, and every other key of every partition reads
  -- as before.
  pub prune-Clears :
      (s : fj.Keyspace) (current_daa pruning_depth : ℕ)
      → IsIndex s
      → (s' : fj.Keyspace) × (prune fj s current_daa pruning_depth
          ≡ ok (s', length (old_entries s (current_daa - pruning_depth))))
        × Clears (old_entries s (current_daa - pruning_depth)) s s'
  unfolding prune iter_lt
  prune-Clears s current_daa pruning_depth w =
      let p = Partition.daa_index_compact_header in
      let t = to_be 8 (current_daa - pruning_depth) in
      rw (fj.range_to-iter s p t) (
        prune_loop-Clears (keep_below t (fj.iter s p)) s 0 (length (keep_below t (fj.iter s p)))
          (All-keep_below IsIndexEntry t (fj.iter s p) (
            All-of_lookup IsIndexEntry (fj.iter s p) (fj.iter-IsSorted s p)
              λ j v e. w j v (sym (fj.lookup-iter s p j) ∙ e)))
          (omega arith))

  pub get-insert_daa_index :
      (s : fj.Keyspace) (daa : ℕ) (h bw : Bytes) (q : Partition) (j : Bytes)
      → fj.get (insert_daa_index fj s daa h bw) q j ≡ (
          if same_cell Partition.daa_index_compact_header (index_key daa h bw) q j
          then some []
          else fj.get s q j)
  unfolding insert_daa_index
  get-insert_daa_index s daa h bw q j =
      let p = Partition.daa_index_compact_header in
      subst
        (λ x.
          fj.get (insert_daa_index fj s daa h bw) q j
          ≡ (if same_cell p x q j then some [] else fj.get s q j))
        (make_key-bytes daa h bw)
        (fj.get-insert s p (daa_index_key_bytes (make_key daa h bw)) [] q j)

  pub insert_daa_index-IsIndex :
      (s : fj.Keyspace) (daa : ℕ) (h bw : Bytes)
      → IsIndex s
      → IsKeyOf daa h bw
      → IsIndex (insert_daa_index fj s daa h bw)
  insert_daa_index-IsIndex s daa h bw w sizes key value e =
      let p = Partition.daa_index_compact_header in
      let g = get-insert_daa_index s daa h bw p key in
      elim (Bool-cases (bytes_eq (index_key daa h bw) key)) [
        | inl t ↦
            let v : value ≡ [] = ground (arith, g, t, e) in
            (v, (daa, h, bw, sizes, sym (bytes_eq_sound (index_key daa h bw) key t)))
        | inr n ↦ w key value (ground (arith, g, n, e))
      ]
