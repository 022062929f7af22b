-- ===== src/Db/Messages/Reads/Found.antt =====
-- The keys that a range yields: each one that is asked for, in the order of their times.
use kasia_indexer.Prelude.{
  ℕ, ◌^◌, ◌<◌, ◌≤◌, ◌≡◌, ◌∙◌, refl, sym, ap, ap₂, subst, true, false, ◌&&◌, some, List, [], ◌∷◌,
  length, All, arith, Bool-cases, inl, inr, Bool,
}
use kasia_indexer.Prelude.Bytes.{Bytes, bytes_eq, bytes_eq_sound}
use kasia_indexer.Fjall.{Fjall, Partition}
use kasia_indexer.Fjall.Entries.{Entries, lookup, IsAbove, IsSorted}
use kasia_indexer.Db.Messages.Reads.{from_block_time}
use kasia_indexer.Db.Messages.Reads.Range.{
  TimedKeys, IsKeyed, is_from, IsFound, time-of_lt, range-IsFound, range-IsSorted, get-range,
}

same_key {ℓ} : {A : Type ℓ} (a b : A) → some a ≡ some b → a ≡ b
same_key a b e = cc

module _ (fj : Fjall) (keys : TimedKeys) (p : Partition) where
  open keys use {Key, IsSized, bytes, read, width, prefix, time}

  abbrev pub entries_of : List (Key × Bytes) → Entries
  entries_of [] = []
  entries_of ((k, v) ∷ ks) = (bytes k, v) ∷ entries_of ks

  -- a stored key that is asked for, with its value
  abbrev pub IsHeld : fj.Keyspace → Bytes → ℕ → Key × Bytes → Type 0
  IsHeld s q from (k, v) =
      IsSized k × (is_from fj keys p q from k ≡ true) × (fj.get s p (bytes k) ≡ some v)

  -- the earliest first
  abbrev pub IsAscending : List (Key × Bytes) → Type 0
  IsAscending [] = Unit
  IsAscending ((k, v) ∷ ks) = All (λ x. time k ≤ time x.0) ks × IsAscending ks

  pub prefix-of_is_from :
      (q : Bytes) (from : ℕ) (k : Key) → is_from fj keys p q from k ≡ true → prefix k ≡ q
  prefix-of_is_from q from k e = bytes_eq_sound (prefix k) q (first (bytes_eq (prefix k) q) _ e)
    where
      first : (b c : Bool) → (b && c) ≡ true → b ≡ true
      first true c e = refl
      first false c e = e

  above-times :
      (s : fj.Keyspace) (q : Bytes) (from : ℕ) (k : Key) (ks : List (Key × Bytes))
      → IsSized k
      → is_from fj keys p q from k ≡ true
      → IsAbove (bytes k) (entries_of ks)
      → All (IsHeld s q from) ks
      → All (λ x. time k ≤ time x.0) ks
  above-times s q from k [] z i a h = tt
  above-times s q from k ((l, v) ∷ ks) z i a ((y, j, g), h) = (
    time-of_lt fj keys p k l z y (prefix-of_is_from q from k i ∙ sym (prefix-of_is_from q from l j))
        a.0,
    above-times s q from k ks z i a.1 h,
  )

  -- What entries hold, as keys.
  abbrev IsDecoded : fj.Keyspace → Bytes → ℕ → Entries → Type 0
  IsDecoded s q from es =
      (ks : List (Key × Bytes)) × (es ≡ entries_of ks) × All (IsHeld s q from) ks × IsAscending ks

  decode :
      (s : fj.Keyspace) (q : Bytes) (from : ℕ) (es : Entries)
      → IsSorted es
      → All (IsFound fj keys p s q from) es
      → IsDecoded s q from es
  decode s q from [] o a = ([], refl, tt, tt)
  decode s q from ((j, v) ∷ es) o ((k, z, b, i, g), a) =
      let (ks, e, h, r) = decode s q from es o.1 a in
      let above : IsAbove (bytes k) (entries_of ks) =
        subst (λ x. IsAbove x (entries_of ks)) b (subst (IsAbove j) e o.0) in
      (
        (k, v) ∷ ks,
        ap₂ (λ x m. (x, v) ∷ m) b e,
        ((z, i, g), h),
        (above-times s q from k ks z i above h, r),
      )

  pub range-IsDecoded :
      (s : fj.Keyspace) (q : Bytes) (from : ℕ)
      → IsKeyed fj keys p s
      → length q ≡ width
      → from < 256 ^ 8
      → IsDecoded s q from (from_block_time fj s p q from)
  range-IsDecoded s q from keyed l h =
      decode s q from (from_block_time fj s p q from) (range-IsSorted fj keys p s q from)
        (range-IsFound fj keys p s q from keyed l h)

  -- What holds of each key holds of one that is looked up.
  All-lookup_entries {ℓ} :
      (P : Key → Type ℓ) (k : Key) (v : Bytes) (ks : List (Key × Bytes))
      → IsSized k
      → All (λ x. IsSized x.0 × P x.0) ks
      → lookup (bytes k) (entries_of ks) ≡ some v
      → P k
  All-lookup_entries P k v [] z a e = cc
  All-lookup_entries P k v ((l, w) ∷ ks) z ((y, q), a) e =
      elim (Bool-cases (bytes_eq (bytes l) (bytes k))) [
        | inl t ↦
            subst P
              (same_key l k (
                sym (keys.read-bytes l y)
                ∙ ap read (bytes_eq_sound (bytes l) (bytes k) t)
                ∙ keys.read-bytes k z))
              q
        | inr n ↦ All-lookup_entries P k v ks z a (ground (arith, n, e))
      ]

  -- Each key that is asked for is among those of the range.
  pub range_complete {ℓ} :
      (P : Key → Type ℓ) (s : fj.Keyspace) (q : Bytes) (from : ℕ) (ks : List (Key × Bytes))
      (k : Key) (v : Bytes)
      → length q ≡ width
      → from < 256 ^ 8
      → from_block_time fj s p q from ≡ entries_of ks
      → All (λ x. IsSized x.0 × P x.0) ks
      → IsHeld s q from (k, v)
      → P k
  range_complete P s q from ks k v l h e a (z, i, g) =
      All-lookup_entries P k v ks z a
        (subst (λ m. lookup (bytes k) m ≡ some v) e (get-range fj keys p s q from k z l h ∙ rw i g))
