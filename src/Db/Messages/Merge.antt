-- ===== src/Db/Messages/Merge.antt =====
-- The sender that the by-receiver partitions hold, and transactions that read alike.
use kasia_indexer.Prelude.{
  ◌≡◌, refl, true, false, Option, none, some, length, if◌then◌else◌, Bool-cases, inl, inr,
}
use kasia_indexer.Prelude.Bytes.{Bytes}
use kasia_indexer.Prelude.Outcome.{ok, bind}
use kasia_indexer.Fjall.{Fjall, Partition, same_cell}
use kasia_indexer.Fjall.Closure.{fetch_update_closure}
use kasia_indexer.Db.{AddressPayload, address_bytes, address_eq, default_address}
use kasia_indexer.Db.Messages.{merge_sender}

-- the sender after the merge of a new one into what a key holds, nothing or an old sender
unfoldable pub merged : AddressPayload → Option AddressPayload → AddressPayload
merged sender none = sender
merged sender (some old) = if address_eq old default_address then sender else old

abbrev pub cell_bytes : Option AddressPayload → Option Bytes
cell_bytes none = none
cell_bytes (some a) = some (address_bytes a)

-- a stored sender has 34 bytes
abbrev pub FitsCell : Option AddressPayload → Type 0
FitsCell none = Unit
FitsCell (some a) = length a.payload ≡ 33

pub merge_sender-cell :
    (sender : AddressPayload) (o : Option AddressPayload)
    → FitsCell o
    → merge_sender sender (cell_bytes o) ≡ ok (some (address_bytes (merged sender o)))
unfolding merge_sender merged
merge_sender-cell sender none h = refl
merge_sender-cell sender (some a) h = elim (Bool-cases (address_eq a default_address)) [
  | inl e ↦ rw (h, e, merge_sender, merged)
  | inr n ↦ rw (h, n, merge_sender, merged)
]

-- A merge with no sender, and then with one, is the merge with one.
pub merged-late :
    (sender : AddressPayload) (o : Option AddressPayload)
    → merged sender (some (merged default_address o)) ≡ merged sender o
unfolding merged
merged-late sender none = refl
merged-late sender (some a) = elim (Bool-cases (address_eq a default_address)) [
  | inl e ↦ rw e
  | inr n ↦ rw (n, n)
]

pub FitsCell-merged :
    (sender : AddressPayload) (o : Option AddressPayload)
    → length sender.payload ≡ 33
    → FitsCell o
    → length (merged sender o).payload ≡ 33
unfolding merged
FitsCell-merged sender none h k = h
FitsCell-merged sender (some a) h k = elim (Bool-cases (address_eq a default_address)) [
  | inl e ↦ rw e h
  | inr n ↦ rw n k
]

module _ (fj : Fjall) where
  open fj use {WriteTransaction, get_wtx}

  -- The two transactions read alike everywhere.
  abbrev pub AreAlike : WriteTransaction → WriteTransaction → Type 0
  AreAlike w w' = (q : Partition) (j : Bytes) → get_wtx w q j ≡ get_wtx w' q j

  -- the write of a sender
  abbrev pub put_sender : WriteTransaction → Partition → Bytes → AddressPayload → WriteTransaction
  put_sender w p k a = (fj.fetch_update_wtx w p k (λ old. some (address_bytes a))).0

  pub get_wtx-put_sender :
      (w : WriteTransaction) (p : Partition) (k : Bytes) (a : AddressPayload) (q : Partition)
      (j : Bytes)
      → get_wtx (put_sender w p k a) q j
        ≡ (if same_cell p k q j then some (address_bytes a) else get_wtx w q j)
  get_wtx-put_sender w p k a q j =
      fj.get_wtx-fetch_update_wtx w p k (λ old. some (address_bytes a)) q j

  -- The merging update, where the key holds nothing or a sender.
  pub closure-merge_sender :
      (w : WriteTransaction) (p : Partition) (k : Bytes) (sender : AddressPayload)
      (o : Option AddressPayload)
      → FitsCell o
      → get_wtx w p k ≡ cell_bytes o
      → bind (fetch_update_closure fj w p k (merge_sender sender)) (λ (w', old). ok w')
        ≡ ok (put_sender w p k (merged sender o))
  closure-merge_sender w p k sender o h c = rw (c, merge_sender-cell sender o h)

  pub AreAlike-put_twice :
      (w : WriteTransaction) (p : Partition) (k : Bytes) (a b : AddressPayload)
      → AreAlike (put_sender (put_sender w p k a) p k b) (put_sender w p k b)
  AreAlike-put_twice w p k a b q j = elim (Bool-cases (same_cell p k q j)) [
    | inl e ↦
        rw (get_wtx-put_sender (put_sender w p k a) p k b q j, get_wtx-put_sender w p k b q j, e)
    | inr n ↦ rw (
      get_wtx-put_sender (put_sender w p k a) p k b q j,
      get_wtx-put_sender w p k b q j,
      get_wtx-put_sender w p k a q j,
      n,
    )
  ]

  pub AreAlike-insert :
      (w w' : WriteTransaction) (p : Partition) (k v : Bytes)
      → AreAlike w w'
      → AreAlike (fj.insert_wtx w p k v) (fj.insert_wtx w' p k v)
  AreAlike-insert w w' p k v h q j =
      rw (fj.get_wtx-insert_wtx w p k v q j, fj.get_wtx-insert_wtx w' p k v q j, h q j)

  -- Writes of different partitions commute.
  pub AreAlike-swap :
      (w : WriteTransaction) (p : Partition) (k v : Bytes) (r : Partition) (i : Bytes)
      (a b : AddressPayload)
      → ((q : Partition) (j : Bytes) → same_cell p k q j ≡ true → same_cell r i q j ≡ false)
      → AreAlike
          (put_sender (fj.insert_wtx (put_sender w r i a) p k v) r i b)
          (fj.insert_wtx (put_sender w r i b) p k v)
  AreAlike-swap w p k v r i a b d q j = elim (Bool-cases (same_cell p k q j)) [
    | inl e ↦ rw (
      get_wtx-put_sender (fj.insert_wtx (put_sender w r i a) p k v) r i b q j,
      d q j e,
      fj.get_wtx-insert_wtx (put_sender w r i a) p k v q j,
      fj.get_wtx-insert_wtx (put_sender w r i b) p k v q j,
      e,
    )
    | inr n ↦ elim (Bool-cases (same_cell r i q j)) [
      | inl e' ↦ rw (
        get_wtx-put_sender (fj.insert_wtx (put_sender w r i a) p k v) r i b q j,
        fj.get_wtx-insert_wtx (put_sender w r i b) p k v q j,
        get_wtx-put_sender w r i b q j,
        e',
        n,
      )
      | inr n' ↦ rw (
        get_wtx-put_sender (fj.insert_wtx (put_sender w r i a) p k v) r i b q j,
        fj.get_wtx-insert_wtx (put_sender w r i a) p k v q j,
        fj.get_wtx-insert_wtx (put_sender w r i b) p k v q j,
        get_wtx-put_sender w r i a q j,
        get_wtx-put_sender w r i b q j,
        n,
        n',
      )
    ]
  ]
