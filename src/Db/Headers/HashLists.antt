-- ===== src/Db/Headers/HashLists.antt =====
-- The transactions that a block tracks, stored as one run of hashes, are read back as a list.
use kasia_indexer.Prelude.{
  ℕ, zero, suc, ◌≤◌, ◌≡◌, refl, ap, List, [], ◌∷◌, ◌++◌, length, All, arith, take-append-length,
  drop-append-length, length-append, Option, none, some, true, false, if◌then◌else◌, ◌∙◌,
}
use kasia_indexer.Prelude.Bytes.{Bytes, bytes_eq_refl}
use kasia_indexer.Prelude.Outcome.{ok, bind}
use kasia_indexer.Fjall.{Fjall, Partition, same_cell}
use kasia_indexer.Db.Headers.{
  flatten_hashes, read_hashes, insert_accepting_block, remove_accepting_block,
}

abbrev pub AreHashes : List Bytes → Type 0
AreHashes hs = All (λ h. length h ≡ 32) hs

pub length-flatten_hashes :
    (hs : List Bytes) → AreHashes hs → length hs ≤ length (flatten_hashes hs)
unfolding flatten_hashes
length-flatten_hashes [] a = omega arith
length-flatten_hashes (h ∷ hs) a =
    omega (arith, length-append {0} h (flatten_hashes hs), length-flatten_hashes hs a.1, a.0)

read_nonempty :
    (fuel b : ℕ) (bs rest : Bytes)
    → length (b ∷ bs) ≡ 32
    → read_hashes (suc fuel) ((b ∷ bs) ++ rest)
      ≡ bind (read_hashes fuel rest) (λ hs. ok ((b ∷ bs) ∷ hs))
unfolding read_hashes
read_nonempty fuel b bs rest h = ground (
  arith,
  h,
  ap (length {0}) (take-append-length 32 (b ∷ bs) rest h),
  take-append-length 32 (b ∷ bs) rest h,
  drop-append-length 32 (b ∷ bs) rest h,
)

pub read_hashes-flatten :
    (fuel : ℕ) (hs : List Bytes)
    → AreHashes hs
    → length hs ≤ fuel
    → read_hashes fuel (flatten_hashes hs) ≡ ok hs
unfolding read_hashes flatten_hashes
read_hashes-flatten fuel [] a h = refl
read_hashes-flatten zero (x ∷ hs) a h = absurd (omega arith)
read_hashes-flatten (suc fuel) ([] ∷ hs) a h = absurd (omega (arith, a.0))
read_hashes-flatten (suc fuel) ((b ∷ bs) ∷ hs) a h =
    rw (
      read_nonempty fuel b bs (flatten_hashes hs) a.0,
      read_hashes-flatten fuel hs a.1 (omega arith),
    )

read_hashes_stored :
    (hs : List Bytes)
    → AreHashes hs
    → read_hashes (length (flatten_hashes hs)) (flatten_hashes hs) ≡ ok hs
read_hashes_stored hs a = read_hashes-flatten _ hs a (length-flatten_hashes hs a)

module _ (fj : Fjall) where
  abbrev pub accepting : Partition
  accepting = Partition.accepting_block_to_tx_id

  -- the cells that are not of a block
  abbrev pub SameElsewhere : Bytes → fj.Keyspace → fj.Keyspace → Type 0
  SameElsewhere block s s' =
      (q : Partition) (j : Bytes)
      → same_cell accepting block q j ≡ false
      → fj.get s' q j ≡ fj.get s q j

  -- the store after a transaction of its own inserts, or removes, the list of a block
  abbrev pub accepted : fj.Keyspace → Bytes → List Bytes → fj.Keyspace
  accepted s block hs = fj.commit (insert_accepting_block fj (fj.write_tx s) block hs) s

  abbrev pub unaccepted : fj.Keyspace → Bytes → fj.Keyspace × Option Bytes
  unaccepted s block =
      let (w, old) = remove_accepting_block fj (fj.write_tx s) block in (fj.commit w s, old)

  get-accepted :
      (s : fj.Keyspace) (block : Bytes) (hs : List Bytes) (q : Partition) (j : Bytes)
      → fj.get (accepted s block hs) q j
        ≡ (if same_cell accepting block q j then some (flatten_hashes hs) else fj.get s q j)
  unfolding insert_accepting_block
  get-accepted s block hs q j =
      let w = fj.write_tx s in
      let v = flatten_hashes hs in
      ground (
        arith,
        fj.get-commit (fj.insert_wtx w accepting block v) s q j,
        fj.has_written-insert_wtx w accepting block v q j,
        fj.has_written-write_tx s q j,
        fj.get_wtx-insert_wtx w accepting block v q j,
      )

  get-unaccepted :
      (s : fj.Keyspace) (block : Bytes) (q : Partition) (j : Bytes)
      → fj.get (unaccepted s block).0 q j
        ≡ (if same_cell accepting block q j then none else fj.get s q j)
  unfolding remove_accepting_block
  get-unaccepted s block q j =
      let w = fj.write_tx s in
      ground (
        arith,
        fj.get-commit (fj.fetch_update_wtx w accepting block (λ old. none)).0 s q j,
        fj.has_written-fetch_update_wtx w accepting block (λ old. none) q j,
        fj.has_written-write_tx s q j,
        fj.get_wtx-fetch_update_wtx w accepting block (λ old. none) q j,
      )

  fetched-unaccepted :
      (s : fj.Keyspace) (block : Bytes) → (unaccepted s block).1 ≡ fj.get s accepting block
  unfolding remove_accepting_block
  fetched-unaccepted s block =
      fj.fetched_wtx (fj.write_tx s) accepting block (λ old. none)
      ∙ fj.get_wtx-write_tx s accepting block

  -- A transaction stores the transactions that a block accepts, as hashes of 32 bytes, and a later
  -- one removes them. The second is given back the bytes of exactly these hashes, in order.
  -- Between the two every key but that of the block reads as before the first, and behind the
  -- second the key of the block is gone and every other one still reads so.
  pub remove_accepting_block-insert :
      (s : fj.Keyspace) (block : Bytes) (hs : List Bytes)
      → AreHashes hs
      → (v : Bytes) × ((unaccepted (accepted s block hs) block).1 ≡ some v)
        × (read_hashes (length v) v ≡ ok hs)
        × SameElsewhere block s (accepted s block hs)
        × SameElsewhere block s (unaccepted (accepted s block hs) block).0
        × (fj.get (unaccepted (accepted s block hs) block).0 accepting block ≡ none)
  remove_accepting_block-insert s block hs a =
      let same : same_cell accepting block accepting block ≡ true = rw (bytes_eq_refl block) refl in
      let s' = accepted s block hs in
      (
        flatten_hashes hs,
        fetched-unaccepted s' block ∙ get-accepted s block hs accepting block ∙ rw same refl,
        read_hashes_stored hs a,
        λ q j n. get-accepted s block hs q j ∙ rw n refl,
        λ q j n. get-unaccepted s' block q j ∙ rw n (get-accepted s block hs q j ∙ rw n refl),
        get-unaccepted s' block accepting block ∙ rw same refl,
      )
