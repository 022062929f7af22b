-- ===== src/Db/Acceptance/Lookup.antt =====
-- The acceptance key of a transaction, found again by the id of the transaction.
use kasia_indexer.Prelude.{◌≡◌, refl, true, false, Option, none, some, List, [], ◌∷◌, ◌++◌, ap, ◌∙◌}
use kasia_indexer.Prelude.Bytes.{Bytes, bytes_eq, bytes_eq_refl, starts_with, starts_with-append}
use kasia_indexer.Prelude.Outcome.{ok}
use kasia_indexer.Fjall.{Fjall, Partition}
use kasia_indexer.Fjall.Entries.{keep_prefix, keep_prefix-single}
use kasia_indexer.Db.{address_bytes}
use kasia_indexer.Db.Layout.{HasSizes, unpack-pack}
use kasia_indexer.Db.Acceptance.{
  AcceptanceKey, acceptance_key_sizes, acceptance_key_bytes, acceptance_key_of, read_acceptance_key,
  InsertionEntry, entries_bytes, append_entries, only_entry, key_of_only, key_by_tx_id, insert_wtx,
}

abbrev pub acceptance_fields : AcceptanceKey → List Bytes
acceptance_fields k = k.tx_id ∷ address_bytes k.receiver ∷ []

pub read_acceptance_key-bytes :
    (k : AcceptanceKey)
    → HasSizes acceptance_key_sizes (acceptance_fields k)
    → read_acceptance_key (acceptance_key_bytes k) ≡ some k
unfolding read_acceptance_key acceptance_key_bytes
read_acceptance_key-bytes k h =
    ap acceptance_key_of (unpack-pack acceptance_key_sizes (acceptance_fields k) h)

key_starts_with_id : (k : AcceptanceKey) → starts_with k.tx_id (acceptance_key_bytes k) ≡ true
unfolding acceptance_key_bytes
key_starts_with_id k = starts_with-append k.tx_id (address_bytes k.receiver ++ [])

appended : (es : Bytes) (o : Option Bytes) → (v : Bytes) × (append_entries es o ≡ some v)
unfolding append_entries
appended es none = (_, refl)
appended es (some old) = (old ++ es, refl)

module _ (fj : Fjall) (w : fj.WriteTransaction) (s : fj.Keyspace) where
  -- Neither the transaction nor the store has another key that starts with the id.
  abbrev pub IsOnlyKey : AcceptanceKey → Type 0
  IsOnlyKey k =
      (j : Bytes)
      → starts_with k.tx_id j ≡ true
      → bytes_eq (acceptance_key_bytes k) j ≡ false
      → (fj.has_written w Partition.tx_id_to_acceptance j ≡ false)
        × (fj.get s Partition.tx_id_to_acceptance j ≡ none)

  module _ (k : AcceptanceKey) (entries : List InsertionEntry) where
    abbrev inserted : fj.Keyspace
    inserted = fj.commit (insert_wtx fj w k entries) s

    inserted_value :
        (v : Bytes) × (fj.get inserted Partition.tx_id_to_acceptance (acceptance_key_bytes k)
          ≡ some v)
    unfolding insert_wtx
    inserted_value =
        let p = Partition.tx_id_to_acceptance in
        let kb = acceptance_key_bytes k in
        let f = append_entries (entries_bytes entries) in
        let (v, e) = appended (entries_bytes entries) (fj.get_wtx w p kb) in
        (
          v,
          rw (
            fj.get-commit (fj.fetch_update_wtx w p kb f).0 s p kb,
            fj.has_written-fetch_update_wtx w p kb f p kb,
            fj.get_wtx-fetch_update_wtx w p kb f p kb,
            bytes_eq_refl kb,
            e,
          ),
        )

    others_absent :
        (j : Bytes)
        → bytes_eq (acceptance_key_bytes k) j ≡ false
        → fj.has_written w Partition.tx_id_to_acceptance j ≡ false
        → fj.get s Partition.tx_id_to_acceptance j ≡ none
        → fj.get inserted Partition.tx_id_to_acceptance j ≡ none
    unfolding insert_wtx
    others_absent j n u g =
        let p = Partition.tx_id_to_acceptance in
        let kb = acceptance_key_bytes k in
        let f = append_entries (entries_bytes entries) in
        rw (
          fj.get-commit (fj.fetch_update_wtx w p kb f).0 s p j,
          fj.has_written-fetch_update_wtx w p kb f p j,
          n,
          u,
          g,
        )

    -- Let a key with fields of their sizes be the only one with the id of its transaction, in the
    -- open transaction and in the store. After its insertion is committed, the look-up by the id
    -- succeeds and finds this key.
    pub key_by_tx_id-insert_wtx :
        HasSizes acceptance_key_sizes (acceptance_fields k)
        → IsOnlyKey k
        → key_by_tx_id fj (fj.commit (insert_wtx fj w k entries) s) k.tx_id ≡ ok (some k)
    unfolding key_by_tx_id only_entry key_of_only
    key_by_tx_id-insert_wtx h only =
        let p = Partition.tx_id_to_acceptance in
        let kb = acceptance_key_bytes k in
        let (v, e) = inserted_value in
        let single : keep_prefix k.tx_id (fj.iter inserted p) ≡ (kb, v) ∷ [] =
          keep_prefix-single k.tx_id kb v (fj.iter inserted p) (fj.iter-IsSorted inserted p)
            (fj.lookup-iter inserted p kb ∙ e) (key_starts_with_id k)
            (λ j t n.
              fj.lookup-iter inserted p j ∙ others_absent j n (only j t n).0 (only j t n).1) in
        rw (
          fj.prefix-iter inserted p k.tx_id,
          single,
          read_acceptance_key-bytes k h,
          key_by_tx_id,
          key_of_only,
        )
