-- ===== src/Fjall/Ranges.antt =====
-- Ranges of key-ordered entry lists, and what holds of each entry of a partition.
use kasia_indexer.Prelude.{
  ◌≡◌, not, ◌&&◌, none, some, [], ◌∷◌, if◌then◌else◌, arith, All, Bool-cases, inl, inr,
}
use kasia_indexer.Prelude.Bytes.{Bytes, bytes_eq_refl, bytes_eq_sound, bytes_lt}
use kasia_indexer.Fjall.Entries.{
  Entries, lookup, keep_below, keep_range, IsAbove, IsSorted, lookup-IsAbove,
}

pub lookup-keep_below :
    (t j : Bytes) (m : Entries)
    → lookup j (keep_below t m) ≡ (if bytes_lt j t then lookup j m else none)
lookup-keep_below t j [] = ground arith
lookup-keep_below t j ((k, v) ∷ m) = ground (arith, lookup-keep_below t j m, bytes_eq_sound k j)

pub lookup-keep_range :
    (a b j : Bytes) (m : Entries)
    → lookup j (keep_range a b m)
      ≡ (if not (bytes_lt j a) && not (bytes_lt b j) then lookup j m else none)
lookup-keep_range a b j [] = ground arith
lookup-keep_range a b j ((k, v) ∷ m) = ground (arith, lookup-keep_range a b j m, bytes_eq_sound k j)

keep_range-IsAbove : (a b k : Bytes) (m : Entries) → IsAbove k m → IsAbove k (keep_range a b m)
keep_range-IsAbove a b k [] h = tt
keep_range-IsAbove a b k ((j, v) ∷ m) h = ground (arith, keep_range-IsAbove a b k m h.1)

pub keep_range-IsSorted : (a b : Bytes) (m : Entries) → IsSorted m → IsSorted (keep_range a b m)
keep_range-IsSorted a b [] h = tt
keep_range-IsSorted a b ((k, v) ∷ m) h =
    ground (arith, keep_range-IsSorted a b m h.1, keep_range-IsAbove a b k m h.0)

module _ {ℓ} (P : Bytes × Bytes → Type ℓ) where
  pub All-keep_below : (t : Bytes) (m : Entries) → All P m → All P (keep_below t m)
  All-keep_below t [] a = tt
  All-keep_below t ((k, v) ∷ m) a = elim (Bool-cases (bytes_lt k t)) [
    | inl e ↦ rw e (a.0, All-keep_below t m a.1)
    | inr n ↦ rw n (All-keep_below t m a.1)
  ]

  -- What holds of each key with its value holds of each entry.
  pub All-of_lookup :
      (m : Entries) → IsSorted m → ((j v : Bytes) → lookup j m ≡ some v → P (j, v)) → All P m
  All-of_lookup [] s h = tt
  All-of_lookup ((k, v) ∷ m) s h = (
    h k v (ground (arith, bytes_eq_refl k)),
    All-of_lookup m s.1
        (λ j w e. h j w (ground (arith, e, lookup-IsAbove k m s.0, bytes_eq_sound k j))),
  )
