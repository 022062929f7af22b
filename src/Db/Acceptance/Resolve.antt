-- ===== src/Db/Acceptance/Resolve.antt =====
-- The operations on a key whose value is a header and a list of entries: an insertion, an
-- acceptance, and the resolution of the sender.
use kasia_indexer.Prelude.{
  ℕ, suc, ◌≡◌, refl, true, some, Option, List, [], ◌∷◌, ◌++◌, length, All, arith,
  drop-append-length, length-append, append-nil, sym, ◌∙◌,
}
use kasia_indexer.Prelude.Bytes.{Bytes, bytes_eq_refl, to_le, length-to_le}
use kasia_indexer.Prelude.Outcome.{Outcome, ok, bind}
use kasia_indexer.Fjall.{Fjall, Partition}
use kasia_indexer.Db.{PartitionId}
use kasia_indexer.Db.Acceptance.{
  AcceptanceKey, acceptance_key_bytes, Entry, InsertionEntry, entries_bytes, header_size,
  header_bytes, LookupOutput, key_exists_no_entries, keys_exists_with_entries, lookup_output,
  append_entries, insert_wtx, update_acceptance_wtx, resolve_old, resolve_entries_wtx,
}
use kasia_indexer.Db.Acceptance.Entries.{
  each_entry, HasKeySize, Stores, resolve_loop-entries, append_entries-Stores,
  replace_header-Stores, truncate_entries-Stores, lookup_output-Stores,
}

-- what a lookup says of a list of entries
abbrev pub output_of : List InsertionEntry → LookupOutput
output_of [] = key_exists_no_entries
output_of (e ∷ es) = keys_exists_with_entries

lookup-output_of :
    (value header : Bytes) (es : List InsertionEntry)
    → Stores value header es
    → lookup_output (some value) ≡ output_of es
lookup-output_of value header [] s = lookup_output-Stores value header [] s
lookup-output_of value header (e ∷ es) s = lookup_output-Stores value header (e ∷ es) s

module _ (fj : Fjall) where
  -- The key holds a value of this header and these entries.
  abbrev pub HoldsEntries :
      fj.WriteTransaction → AcceptanceKey → Bytes → List InsertionEntry → Type 0
  HoldsEntries w k header es =
      (value : Bytes) × (fj.get_wtx w Partition.tx_id_to_acceptance (acceptance_key_bytes k)
        ≡ some value)
      × Stores value header es

  -- the value that an update wrote is read back
  updated :
      (w : fj.WriteTransaction) (k : AcceptanceKey) (f : Option Bytes → Option Bytes)
      → fj.get_wtx
          (fj.fetch_update_wtx w Partition.tx_id_to_acceptance (acceptance_key_bytes k) f).0
          Partition.tx_id_to_acceptance
          (acceptance_key_bytes k)
        ≡ f (fj.get_wtx w Partition.tx_id_to_acceptance (acceptance_key_bytes k))
  updated w k f =
      let p = Partition.tx_id_to_acceptance in
      let kb = acceptance_key_bytes k in
      fj.get_wtx-fetch_update_wtx w p kb f p kb ∙ rw (bytes_eq_refl kb)

  -- If the transaction sees under a key a value of a header and a list of entries, then after an
  -- insertion it sees a value of the same header, with the old entries followed by the new ones.
  pub insert_wtx-HoldsEntries :
      (w : fj.WriteTransaction) (k : AcceptanceKey) (header : Bytes) (es fs : List InsertionEntry)
      → HoldsEntries w k header es
      → HoldsEntries (insert_wtx fj w k fs) k header (es ++ fs)
  unfolding insert_wtx
  insert_wtx-HoldsEntries w k header es fs (value, held, s) =
      let (v, e, s') = append_entries-Stores value header es fs s in
      (v, updated w k (append_entries (entries_bytes fs)) ∙ rw (held, e), s')

  -- If the transaction sees under a key a value of a header and a list of entries, an acceptance
  -- by a block with a hash of 32 bytes succeeds; it reports that there are entries exactly if the
  -- list is not empty, and afterwards the key holds the header of that block with the same
  -- entries.
  pub update_acceptance_wtx-HoldsEntries :
      (w : fj.WriteTransaction) (k : AcceptanceKey) (header block : Bytes) (daa : ℕ)
      (es : List InsertionEntry)
      → length block ≡ 32
      → HoldsEntries w k header es
      → (w' : fj.WriteTransaction) × (update_acceptance_wtx fj w k block daa
          ≡ ok (w', output_of es))
        × HoldsEntries w' k
            (header_bytes (record { accepting_block_hash = block; accepting_daa = to_le 8 daa }))
            es
  unfolding update_acceptance_wtx header_bytes
  update_acceptance_wtx-HoldsEntries w k header block daa es size (value, held, s) =
      let p = Partition.tx_id_to_acceptance in
      let kb = acceptance_key_bytes k in
      let h = header_bytes (record { accepting_block_hash = block; accepting_daa = to_le 8 daa }) in
      let v = some (h ++ entries_bytes es) in
      (
        (fj.fetch_update_wtx w p kb (λ old. v)).0,
        rw (
          held,
          replace_header-Stores value header h es s,
          fj.fetched_wtx w p kb (λ old. v),
          held,
          lookup-output_of value header es s,
        ),
        (
          h ++ entries_bytes es,
          updated w k (λ old. v),
          record {
            full = omega (
              arith,
              size,
              length-append {0} block (to_le 8 daa ++ []),
              length-append {0} (to_le 8 daa) [],
              length-to_le 8 daa,
            );
            split = refl;
          },
        ),
      )

  -- the transaction after the entries were cut off
  abbrev pub truncated : fj.WriteTransaction → AcceptanceKey → Bytes → fj.WriteTransaction
  truncated w k header =
      (fj.fetch_update_wtx w Partition.tx_id_to_acceptance (acceptance_key_bytes k)
        (λ old. some header)).0

  module _ (key_len : PartitionId → Outcome ℕ)
      (callback : fj.WriteTransaction → Entry → Outcome fj.WriteTransaction) where
    resolve_old-entries :
        (w : fj.WriteTransaction) (value header : Bytes) (es : List InsertionEntry)
        → Stores value header es
        → All (HasKeySize key_len) es
        → resolve_old fj key_len callback w (some value)
          ≡ bind (each_entry callback es w) (λ w'. ok (w', true))
    unfolding resolve_old
    resolve_old-entries w value header es s sizes =
        rw (s.split, drop-append-length header_size header (entries_bytes es) s.full, resolve_old)
          (rw (
            resolve_loop-entries key_len callback es (suc (length (entries_bytes es))) w sizes
              (omega arith)))

    -- If the transaction sees under a key a value of a header and a list of entries, whose keys
    -- have the sizes that their partitions want, the resolution is the run of the callback over
    -- that list in order, up to its first failure, on a transaction in which the key holds the
    -- header and no entries; where no callback fails it reports that the key exists.
    pub resolve_entries_wtx-entries :
        (w : fj.WriteTransaction) (k : AcceptanceKey) (header : Bytes) (es : List InsertionEntry)
        → All (HasKeySize key_len) es
        → HoldsEntries w k header es
        → (resolve_entries_wtx fj w k key_len callback
            ≡ bind (each_entry callback es (truncated w k header)) (λ w'. ok (w', true)))
          × HoldsEntries (truncated w k header) k header []
    unfolding resolve_entries_wtx entries_bytes
    resolve_entries_wtx-entries w k header es sizes (value, held, s) =
        let p = Partition.tx_id_to_acceptance in
        let kb = acceptance_key_bytes k in
        (
          rw (
            held,
            truncate_entries-Stores value header es s,
            fj.fetched_wtx w p kb (λ old. some header),
            held,
            resolve_old-entries (truncated w k header) value header es s sizes,
          ),
          (
            header,
            updated w k (λ old. some header),
            record { full = s.full; split = sym (append-nil header) },
          ),
        )
