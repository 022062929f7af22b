-- ===== src/Db/Acceptance/Entries.antt =====
-- The stored value of a transaction as a header and a list of entries: the loop that reads the
-- entries back, and each operation on the value as an operation on header and list.
use kasia_indexer.Prelude.{
  ℕ, zero, suc, ◌-◌, ◌<◌, ◌≡◌, refl, sym, ◌∙◌, ap, true, some, List, [], ◌∷◌, ◌++◌, length, leb,
  All, arith, append_assoc, take-append-length, drop-append-length, length-append,
}
use kasia_indexer.Prelude.Bytes.{Bytes}
use kasia_indexer.Prelude.Outcome.{Outcome, ok, err, bind}
use kasia_indexer.Db.{PartitionId, partition_id_byte, read_partition_id-byte, slice}
use kasia_indexer.Db.Acceptance.{
  Action, update_value_sender, insert_by_key_sender, action_byte, read_action, Entry,
  InsertionEntry, entries_bytes, header_size, append_entries, replace_header, truncate_entries,
  key_exists_no_entries, keys_exists_with_entries, lookup_output, resolve_loop,
}

pub read_action-byte : (a : Action) → read_action (action_byte a) ≡ some a
unfolding read_action
read_action-byte update_value_sender = refl
read_action-byte insert_by_key_sender = refl

-- An inserted entry as the callback sees it.
abbrev pub entry_of : InsertionEntry → Entry
entry_of e = record { partition_id = e.partition_id; action = e.action; key = e.partition_key }

-- The callback on each entry in turn, up to the first failure.
unfoldable pub each_entry :
    {S : Type 0} → (S → Entry → Outcome S) → List InsertionEntry → S → Outcome S
each_entry callback [] w = ok w
each_entry callback (e ∷ es) w = bind (callback w (entry_of e)) λ w'. each_entry callback es w'

-- The key of an entry has the size that its partition has keys of.
abbrev pub HasKeySize : (PartitionId → Outcome ℕ) → InsertionEntry → Type 0
HasKeySize key_len e = key_len e.partition_id ≡ ok (length e.partition_key)

slice-append : (xs ys : Bytes) → slice 0 (length xs) (xs ++ ys) ≡ ok xs
slice-append xs ys =
    ground (arith, length-append xs ys, take-append-length (length xs - 0) xs ys (omega arith))

pub entries_bytes-append :
    (es fs : List InsertionEntry) → entries_bytes (es ++ fs) ≡ entries_bytes es ++ entries_bytes fs
unfolding entries_bytes
entries_bytes-append [] fs = refl
entries_bytes-append (e ∷ es) fs =
    ap (λ t. partition_id_byte e.partition_id ∷ action_byte e.action ∷ t)
      (ap (λ t. e.partition_key ++ t) (entries_bytes-append es fs)
        ∙ sym (append_assoc e.partition_key (entries_bytes es) (entries_bytes fs)))

entries_below :
    (e : InsertionEntry) (es : List InsertionEntry) (fuel : ℕ)
    → length (entries_bytes (e ∷ es)) < suc fuel
    → length (entries_bytes es) < fuel
unfolding entries_bytes
entries_below e es fuel h = omega (arith, length-append {0} e.partition_key (entries_bytes es))

module _ {S : Type 0} (key_len : PartitionId → Outcome ℕ) (callback : S → Entry → Outcome S) where
  after_callback :
      (m : Outcome S) (f g : S → Outcome S) → ((w : S) → f w ≡ g w) → bind m f ≡ bind m g
  after_callback (ok w) f g h = h w
  after_callback (err e) f g h = refl

  -- For entries whose keys have the sizes that their partitions want, with more fuel than the
  -- bytes of the entries, the loop gives each entry to the callback as it was inserted, in order,
  -- up to the first failure of the callback.
  pub resolve_loop-entries :
      (es : List InsertionEntry) (fuel : ℕ) (w : S)
      → All (HasKeySize key_len) es
      → length (entries_bytes es) < fuel
      → resolve_loop key_len callback fuel (entries_bytes es) w ≡ each_entry callback es w
  unfolding resolve_loop each_entry entries_bytes
  resolve_loop-entries es zero w k h = absurd (omega arith)
  resolve_loop-entries [] (suc fuel) w k h = refl
  resolve_loop-entries (e ∷ es) (suc fuel) w k h =
      rw
        (
          read_partition_id-byte e.partition_id,
          k.0,
          read_action-byte e.action,
          slice-append e.partition_key (entries_bytes es),
          drop-append-length (length e.partition_key) e.partition_key (entries_bytes es) refl,
        )
        (after_callback (callback w (entry_of e))
          (resolve_loop key_len callback fuel (entries_bytes es)) (each_entry callback es)
          (λ w'. resolve_loop-entries es fuel w' k.1 (entries_below e es fuel h)))

-- The value under a key: a header of full size, and the entries in the order of their insertion.
pub record Stores (value header : Bytes) (es : List InsertionEntry) : Type 0 where
  pub full : length header ≡ header_size
  pub split : value ≡ header ++ entries_bytes es

-- If a value stores a header and a list of entries, an insertion on it gives a value that stores
-- the same header, and the old entries followed by the new ones.
pub append_entries-Stores :
    (value header : Bytes) (es fs : List InsertionEntry)
    → Stores value header es
    → (v : Bytes) × (append_entries (entries_bytes fs) (some value) ≡ some v)
      × Stores v header (es ++ fs)
unfolding append_entries
append_entries-Stores value header es fs s = (
  value ++ entries_bytes fs,
  refl,
  record {
    full = s.full;
    split =
        ap (λ t. t ++ entries_bytes fs) s.split
        ∙ append_assoc header (entries_bytes es) (entries_bytes fs)
        ∙ ap (λ t. header ++ t) (sym (entries_bytes-append es fs));
  },
)

long_enough :
    (header rest : Bytes)
    → length header ≡ header_size
    → leb header_size (length (header ++ rest)) ≡ true
long_enough header rest h = ground (arith, length-append header rest)

-- If a value stores a header and a list of entries, an acceptance of the transaction succeeds on
-- it and gives the new header followed by the same entries.
pub replace_header-Stores :
    (value header h : Bytes) (es : List InsertionEntry)
    → Stores value header es
    → replace_header h (some value) ≡ ok (some (h ++ entries_bytes es))
unfolding replace_header
replace_header-Stores value header h es s =
    rw (s.split, long_enough header (entries_bytes es) s.full)
      (rw (drop-append-length header_size header (entries_bytes es) s.full))

-- If a value stores a header and a list of entries, the resolution of the sender succeeds on it
-- and leaves the header alone.
pub truncate_entries-Stores :
    (value header : Bytes) (es : List InsertionEntry)
    → Stores value header es
    → truncate_entries (some value) ≡ ok (some header)
unfolding truncate_entries
truncate_entries-Stores value header es s =
    rw (s.split, long_enough header (entries_bytes es) s.full)
      (rw (take-append-length header_size header (entries_bytes es) s.full))

-- The lookup reports entries exactly where there are some.
pub lookup_output-Stores :
    (value header : Bytes) (es : List InsertionEntry)
    → Stores value header es
    → lookup_output (some value)
      ≡ elim es [ [] ↦ key_exists_no_entries | e ∷ more ↦ keys_exists_with_entries ]
unfolding lookup_output entries_bytes
lookup_output-Stores value header [] s =
    ground (arith, s.full, length-append header [], ap length s.split)
lookup_output-Stores value header (e ∷ es) s =
    ground (arith, s.full, length-append header (entries_bytes (e ∷ es)), ap length s.split)
