-- ===== src/Fjall/InMemory.antt =====
-- A store in memory that meets the interface: a log of writes, the newest first. The theorems are
-- applied to it at concrete inputs.
use kasia_indexer.Prelude.{
  ◌≡◌, refl, Bool, true, false, Option, none, some, List, [], ◌∷◌, ◌++◌, ◌∙◌, Bool-cases, inl, inr,
  ◌||◌, ◌==◌, if◌then◌else◌, arith,
}
use kasia_indexer.Prelude.Bytes.{
  Bytes, bytes_eq, bytes_eq_refl, bytes_eq_comm, bytes_eq_sound, bytes_lt, bytes_lt_trans,
  bytes_lt_total,
}
use kasia_indexer.Fjall.{Fjall, Partition, partition_number, same_cell}
use kasia_indexer.Fjall.Entries.{
  keep_prefix, keep_below, keep_range, Entries, lookup, IsAbove, IsSorted,
}

-- a write of a value, or of nothing where a key is removed
abbrev Log : Type 0
Log = List (Partition × Bytes × Option Bytes)

abbrev peek : Log → Partition → Bytes → Option Bytes
peek [] q j = none
peek ((p, k, v) ∷ s) q j = let rest = peek s q j in if same_cell p k q j then v else rest

abbrev touched : Log → Partition → Bytes → Bool
touched [] q j = false
touched ((p, k, v) ∷ s) q j = let rest = touched s q j in same_cell p k q j || rest

pub peek-append :
    (w s t : Log) (q : Partition) (j : Bytes)
    → peek (w ++ s) q j ≡ (if touched w q j then peek (w ++ t) q j else peek s q j)
peek-append [] s t q j = refl
peek-append ((p, k, v) ∷ w) s t q j = ground (arith, peek-append w s t q j)

-- the entries of one partition, in key order
abbrev place : Bytes → Bytes → Entries → Entries
place k v [] = (k, v) ∷ []
place k v ((i, w) ∷ m) =
    let later = place k v m in
    if bytes_eq i k
    then (k, v) ∷ m
    else if bytes_lt k i
    then (k, v) ∷ (i, w) ∷ m
    else (i, w) ∷ later

abbrev without : Bytes → Entries → Entries
without k [] = []
without k ((i, w) ∷ m) = let later = without k m in if bytes_eq i k then later else (i, w) ∷ later

abbrev write : Bytes → Option Bytes → Entries → Entries
write k none m = without k m
write k (some v) m = place k v m

abbrev entries : Log → Partition → Entries
entries [] q = []
entries ((p, k, v) ∷ s) q =
    let rest = entries s q in
    if partition_number p == partition_number q then write k v rest else rest

lookup-place :
    (k v j : Bytes) (m : Entries)
    → lookup j (place k v m) ≡ (if bytes_eq k j then some v else lookup j m)
lookup-place k v j [] = refl
lookup-place k v j ((i, w) ∷ m) = ground (
  arith,
  lookup-place k v j m,
  bytes_eq_sound i k,
  bytes_eq_sound i j,
  bytes_eq_sound k j,
  bytes_eq_refl k,
)

place-IsAbove :
    (b k v : Bytes) (m : Entries) → bytes_lt b k ≡ true → IsAbove b m → IsAbove b (place k v m)
place-IsAbove b k v [] h a = ground arith
place-IsAbove b k v ((i, w) ∷ m) h a = ground (arith, place-IsAbove b k v m h a.1)

IsAbove-trans : (b k : Bytes) (m : Entries) → bytes_lt b k ≡ true → IsAbove k m → IsAbove b m
IsAbove-trans b k [] h a = tt
IsAbove-trans b k ((i, w) ∷ m) h a = (bytes_lt_trans b k i h a.0, IsAbove-trans b k m h a.1)

place-IsSorted : (k v : Bytes) (m : Entries) → IsSorted m → IsSorted (place k v m)
place-IsSorted k v [] h = (tt, tt)
place-IsSorted k v ((i, w) ∷ m) h = ground (
  arith,
  place-IsSorted k v m h.1,
  place-IsAbove i k v m,
  bytes_lt_total i k,
  bytes_lt_total k i,
  bytes_eq_comm i k,
  bytes_eq_sound i k,
  IsAbove-trans k i m,
)

without-IsAbove : (b k : Bytes) (m : Entries) → IsAbove b m → IsAbove b (without k m)
without-IsAbove b k [] a = tt
without-IsAbove b k ((i, w) ∷ m) a = ground (arith, without-IsAbove b k m a.1)

without-IsSorted : (k : Bytes) (m : Entries) → IsSorted m → IsSorted (without k m)
without-IsSorted k [] h = tt
without-IsSorted k ((i, w) ∷ m) h =
    ground (arith, without-IsSorted k m h.1, without-IsAbove i k m h.0)

lookup-without :
    (k j : Bytes) (m : Entries)
    → lookup j (without k m) ≡ (if bytes_eq k j then none else lookup j m)
lookup-without k j [] = ground arith
lookup-without k j ((i, w) ∷ m) = ground (
  arith,
  lookup-without k j m,
  bytes_eq_sound i k,
  bytes_eq_sound i j,
  bytes_eq_sound k j,
  bytes_eq_refl k,
)

lookup-write :
    (k j : Bytes) (v : Option Bytes) (m : Entries)
    → lookup j (write k v m) ≡ (if bytes_eq k j then v else lookup j m)
lookup-write k j none m = lookup-without k j m
lookup-write k j (some v) m = lookup-place k v j m

pub lookup-entries : (s : Log) (q : Partition) (j : Bytes) → lookup j (entries s q) ≡ peek s q j
lookup-entries [] q j = refl
lookup-entries ((p, k, v) ∷ s) q j = elim (Bool-cases (partition_number p == partition_number q)) [
  | inl e ↦ rw e (lookup-write k j v (entries s q) ∙ rw (lookup-entries s q j))
  | inr n ↦ rw n (lookup-entries s q j)
]

write-IsSorted : (k : Bytes) (v : Option Bytes) (m : Entries) → IsSorted m → IsSorted (write k v m)
write-IsSorted k none m h = without-IsSorted k m h
write-IsSorted k (some v) m h = place-IsSorted k v m h

pub entries-IsSorted : (s : Log) (q : Partition) → IsSorted (entries s q)
entries-IsSorted [] q = tt
entries-IsSorted ((p, k, v) ∷ s) q = elim (Bool-cases (partition_number p == partition_number q)) [
  | inl e ↦ rw e (write-IsSorted k v (entries s q) (entries-IsSorted s q))
  | inr n ↦ rw n (entries-IsSorted s q)
]

abbrev pub in_memory : Fjall
in_memory = record {
  Keyspace = Log;
  get = peek;
  insert = λ s p k v. (p, k, some v) ∷ s;
  remove = λ s p k. (p, k, none) ∷ s;
  fetch_update = λ s p k f. ((p, k, f (peek s p k)) ∷ s, peek s p k);
  iter = entries;
  prefix = λ s p t. keep_prefix t (entries s p);
  range_to = λ s p t. keep_below t (entries s p);
  range = λ s p a b. keep_range a b (entries s p);
  WriteTransaction = Log × Log;
  write_tx = λ s. ([], s);
  snapshot = λ w. w.1;
  has_written = λ w. touched w.0;
  get_wtx = λ w. peek (w.0 ++ w.1);
  insert_wtx = λ w p k v. ((p, k, some v) ∷ w.0, w.1);
  remove_wtx = λ w p k. ((p, k, none) ∷ w.0, w.1);
  fetch_update_wtx =
      λ w p k f. (((p, k, f (peek (w.0 ++ w.1) p k)) ∷ w.0, w.1), peek (w.0 ++ w.1) p k);
  commit = λ w s. w.0 ++ s;
  get-insert = λ s p k v q j. refl;
  get-remove = λ s p k q j. refl;
  get-fetch_update = λ s p k f q j. refl;
  fetched = λ s p k f. refl;
  lookup-iter = lookup-entries;
  iter-IsSorted = entries-IsSorted;
  prefix-iter = λ s p t. refl;
  range_to-iter = λ s p t. refl;
  range-iter = λ s p a b. refl;
  snapshot-write_tx = λ s. refl;
  snapshot-insert_wtx = λ w p k v. refl;
  snapshot-remove_wtx = λ w p k. refl;
  snapshot-fetch_update_wtx = λ w p k f. refl;
  get_wtx-write_tx = λ s q j. refl;
  get_wtx-insert_wtx = λ w p k v q j. refl;
  get_wtx-remove_wtx = λ w p k q j. refl;
  get_wtx-fetch_update_wtx = λ w p k f q j. refl;
  fetched_wtx = λ w p k f. refl;
  has_written-write_tx = λ s q j. refl;
  has_written-insert_wtx = λ w p k v q j. refl;
  has_written-remove_wtx = λ w p k q j. refl;
  has_written-fetch_update_wtx = λ w p k f q j. refl;
  get-commit = λ w s q j. peek-append w.0 s w.1 q j;
  get-commit_snapshot = λ w q j. refl;
}
