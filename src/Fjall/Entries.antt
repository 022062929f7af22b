-- ===== src/Fjall/Entries.antt =====
-- Key-ordered entry lists: what iteration over a partition yields.
use kasia_indexer.Prelude.{
  ◌≡◌, refl, true, false, not, ◌&&◌, Option, none, some, List, [], ◌∷◌, if◌then◌else◌, arith,
  Bool-cases, inl, inr, sym, subst,
}
use kasia_indexer.Prelude.Bytes.{
  Bytes, bytes_eq, bytes_eq_comm, bytes_eq_refl, bytes_eq_sound, bytes_lt, bytes_lt_irrefl,
  starts_with,
}

abbrev pub Entries : Type 0
Entries = List (Bytes × Bytes)

abbrev pub lookup : Bytes → Entries → Option Bytes
lookup j [] = none
lookup j ((k, v) ∷ m) = let rest = lookup j m in if bytes_eq k j then some v else rest

-- the entries whose key starts with `t`
abbrev pub keep_prefix : Bytes → Entries → Entries
keep_prefix t [] = []
keep_prefix t ((k, v) ∷ m) =
    let rest = keep_prefix t m in if starts_with t k then (k, v) ∷ rest else rest

-- the entries whose key is smaller than `t`
abbrev pub keep_below : Bytes → Entries → Entries
keep_below t [] = []
keep_below t ((k, v) ∷ m) =
    let rest = keep_below t m in if bytes_lt k t then (k, v) ∷ rest else rest

-- the entries whose key is between `a` and `b`, the two included
abbrev pub keep_range : Bytes → Bytes → Entries → Entries
keep_range a b [] = []
keep_range a b ((k, v) ∷ m) =
    let rest = keep_range a b m in
    if not (bytes_lt k a) && not (bytes_lt b k) then (k, v) ∷ rest else rest

abbrev pub IsAbove : Bytes → Entries → Type 0
IsAbove k [] = Unit
IsAbove k ((j, v) ∷ m) = (bytes_lt k j ≡ true) × IsAbove k m

abbrev pub IsSorted : Entries → Type 0
IsSorted [] = Unit
IsSorted ((k, v) ∷ m) = IsAbove k m × IsSorted m

bytes_eq-of_lt : (k j : Bytes) → bytes_lt k j ≡ true → bytes_eq j k ≡ false
bytes_eq-of_lt k j h = elim (Bool-cases (bytes_eq j k)) [
  | inl e ↦ ground (arith, bytes_lt_irrefl k, bytes_eq_sound j k e)
  | inr n ↦ n
]

pub lookup-IsAbove : (k : Bytes) (m : Entries) → IsAbove k m → lookup k m ≡ none
lookup-IsAbove k [] h = refl
lookup-IsAbove k ((j, v) ∷ m) h = ground (arith, lookup-IsAbove k m h.1, bytes_eq-of_lt k j h.0)

-- No key with the prefix yields none.
pub keep_prefix-none :
    (t : Bytes) (m : Entries)
    → ((j : Bytes) → starts_with t j ≡ true → lookup j m ≡ none)
    → keep_prefix t m ≡ []
keep_prefix-none t [] u = refl
keep_prefix-none t ((k, v) ∷ m) u =
    ground (arith, u k, bytes_eq_refl k, keep_prefix-none t m (λ j p. ground (arith, u j p)))

-- The tail behind the one key with the prefix has none.
tail-none :
    (t k w : Bytes) (m : Entries)
    → IsAbove k m
    → ((j : Bytes) → starts_with t j ≡ true → bytes_eq k j ≡ false → lookup j ((k, w) ∷ m) ≡ none)
    → (j : Bytes) → starts_with t j ≡ true
    → lookup j m ≡ none
tail-none t k w m s u j q = elim (Bool-cases (bytes_eq k j)) [
  | inl e ↦ subst (λ x. lookup x m ≡ none) (bytes_eq_sound k j e) (lookup-IsAbove k m s)
  | inr n ↦ ground (arith, u j q n)
]

single_at_head :
    (t k v w : Bytes) (m : Entries)
    → IsAbove k m
    → lookup k ((k, w) ∷ m) ≡ some v
    → starts_with t k ≡ true
    → ((j : Bytes) → starts_with t j ≡ true → bytes_eq k j ≡ false → lookup j ((k, w) ∷ m) ≡ none)
    → keep_prefix t ((k, w) ∷ m) ≡ (k, v) ∷ []
single_at_head t k v w m s l p u =
    ground (arith, bytes_eq_refl k, keep_prefix-none t m (tail-none t k w m s u))

-- One key with the prefix yields one entry.
pub keep_prefix-single :
    (t k v : Bytes) (m : Entries)
    → IsSorted m
    → lookup k m ≡ some v
    → starts_with t k ≡ true
    → ((j : Bytes) → starts_with t j ≡ true → bytes_eq k j ≡ false → lookup j m ≡ none)
    → keep_prefix t m ≡ (k, v) ∷ []
keep_prefix-single t k v [] s l p u = cc
keep_prefix-single t k v ((i, w) ∷ m) s l p u = elim (Bool-cases (bytes_eq i k)) [
  | inl e ↦
      subst
        (λ x.
          IsAbove x m
          → lookup k ((x, w) ∷ m) ≡ some v
          → ((j : Bytes)
              → starts_with t j ≡ true
              → bytes_eq k j ≡ false
              → lookup j ((x, w) ∷ m) ≡ none)
          → keep_prefix t ((x, w) ∷ m) ≡ (k, v) ∷ [])
        (sym (bytes_eq_sound i k e)) (λ a b c. single_at_head t k v w m a b p c) s.0 l u
  | inr n ↦ ground (
    arith,
    bytes_eq_refl i,
    bytes_eq_comm i k,
    u i,
    keep_prefix-single t k v m s.1 (ground arith) p (λ j q d. ground (arith, u j q d)),
  )
]
