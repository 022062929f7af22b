-- ===== src/Db/Messages/Reads/Range.antt =====
-- A range over the block times holds the keys with its prefix and a time from its start on.
use kasia_indexer.Prelude.{
  ◌==◌, ℕ, ◌^◌, ◌<◌, ◌≤◌, ◌≡◌, ◌∙◌, refl, sym, ap, subst, Bool, true, false, not, ◌&&◌, Option,
  none, some, ◌++◌, length, replicate, leb, ltb, if◌then◌else◌, arith, All, Bool-cases, inl, inr,
}
use kasia_indexer.Prelude.Bytes.{
  Bytes, bytes_eq, bytes_lt, bytes_eq_comm, bytes_eq_refl, bytes_eq_sound, bytes_lt_total, to_be,
  of_be, length-to_be,
}
use kasia_indexer.Prelude.Bytes.Order.{
  bytes_lt-prefixes, bytes_lt-append, bytes_lt-append_right, bytes_lt-to_be, of_be-to_be,
}
use kasia_indexer.Fjall.{Fjall, Partition, partition_number, same_cell}
use kasia_indexer.Fjall.Entries.{lookup, IsSorted}
use kasia_indexer.Fjall.Ranges.{lookup-keep_range, keep_range-IsSorted, All-of_lookup}
use kasia_indexer.Db.Messages.Reads.{range_start, range_end, from_block_time}

-- the last block time that has no entry in a range
abbrev pub max_time : ℕ
max_time = 18446744073709551615

abbrev pub within : ℕ → ℕ → Bool
within from t = leb from t && ltb t max_time

pub key_in_range :
    (q p rest : Bytes) (t from : ℕ)
    → length q ≡ length p
    → 0 < length rest
    → t < 256 ^ 8
    → from < 256 ^ 8
    → (not (bytes_lt (q ++ (to_be 8 t ++ rest)) (range_start p from))
        && not (bytes_lt (range_end p) (q ++ (to_be 8 t ++ rest))))
      ≡ (bytes_eq q p && within from t)
key_in_range q p rest t from l r h k =
    rw
      (
        bytes_lt-prefixes q (to_be 8 t ++ rest) p (to_be 8 from) l,
        bytes_lt-prefixes p (replicate 8 255) q (to_be 8 t ++ rest) (sym l),
        bytes_lt-append (to_be 8 t) rest (to_be 8 from)
            (length-to_be 8 t ∙ sym (length-to_be 8 from)),
        bytes_lt-append_right (to_be 8 t) rest (to_be 8 max_time) (length-to_be 8 t) r,
        bytes_lt-to_be 8 t from h k,
        bytes_lt-to_be 8 t max_time h (omega arith),
      )
      (ground (arith, bytes_eq_comm p q, bytes_lt_total q p))

-- The keys of a partition that are ordered by some fields and then by their block time.
pub record TimedKeys : Type 1 where
  pub Key : Type 0
  pub IsSized : Key → Type 0
  pub bytes : Key → Bytes
  pub read : Bytes → Option Key
  pub width : ℕ
  pub prefix : Key → Bytes
  pub time : Key → ℕ
  pub rest : Key → Bytes
  pub tx_id : Key → Bytes
  pub read-bytes : (k : Key) → IsSized k → read (bytes k) ≡ some k
  pub time_small : (k : Key) → IsSized k → time k < 256 ^ 8
  pub prefix_width : (k : Key) → IsSized k → length (prefix k) ≡ width
  pub rest_long : (k : Key) → IsSized k → 0 < length (rest k)
  pub bytes_parts : (k : Key) → IsSized k → bytes k ≡ prefix k ++ (to_be 8 (time k) ++ rest k)

same_prefix : (q a b : Bytes) → bytes_lt (q ++ a) (q ++ b) ≡ bytes_lt a b
same_prefix q a b = bytes_lt-prefixes q a q b refl ∙ rw (bytes_eq_refl q) refl

time_of_tails :
    (t u : ℕ) (a b : Bytes)
    → t < 256 ^ 8
    → u < 256 ^ 8
    → bytes_lt (to_be 8 t ++ a) (to_be 8 u ++ b) ≡ true
    → t ≤ u
time_of_tails t u a b h k e = elim (Bool-cases (bytes_eq (to_be 8 t) (to_be 8 u))) [
  | inl q ↦
      let r : t ≡ u =
        sym (of_be-to_be 8 t h)
        ∙ ap of_be (bytes_eq_sound (to_be 8 t) (to_be 8 u) q)
        ∙ of_be-to_be 8 u k in
      omega (arith, r)
  | inr n ↦
      let l : bytes_lt (to_be 8 t) (to_be 8 u) ≡ true = ground (
        arith,
        e,
        n,
        bytes_lt-prefixes (to_be 8 t) a (to_be 8 u) b (length-to_be 8 t ∙ sym (length-to_be 8 u)),
      ) in
      let m : ltb t u ≡ true = sym (bytes_lt-to_be 8 t u h k) ∙ l in ground (arith, m)
]

kept :
    (b : Bool) (o : Option Bytes) (v : Bytes)
    → (if b then o else none) ≡ some v
    → (b ≡ true) × (o ≡ some v)
kept true o v e = (refl, e)
kept false o v e = cc

module _ (fj : Fjall) (keys : TimedKeys) (p : Partition) where
  open keys use {Key, IsSized, bytes, read, width, prefix, time}

  -- whether a key has a prefix, and a block time from `from` on
  abbrev pub is_from : Bytes → ℕ → Key → Bool
  is_from q from k = bytes_eq (prefix k) q && within from (time k)

  -- Each key of the partition is one of the format.
  abbrev pub IsKeyed : fj.Keyspace → Type 0
  IsKeyed s = (j v : Bytes) → fj.get s p j ≡ some v → (k : Key) × IsSized k × (j ≡ bytes k)

  -- A write of a key of the format, and one to another partition, keep this.
  pub insert-IsKeyed :
      (s : fj.Keyspace) (k : Key) (v : Bytes)
      → IsSized k
      → IsKeyed s
      → IsKeyed (fj.insert s p (bytes k) v)
  insert-IsKeyed s k v z keyed j w e = elim (Bool-cases (same_cell p (bytes k) p j)) [
    | inl c ↦ (k, z, sym (bytes_eq_sound (bytes k) j (second _ (bytes_eq (bytes k) j) c)))
    | inr c ↦ keyed j w (ground (arith, c, e, fj.get-insert s p (bytes k) v p j))
  ]
    where
      second : (b c : Bool) → (b && c) ≡ true → c ≡ true
      second true c h = h
      second false c h = cc

  pub insert_other-IsKeyed :
      (s : fj.Keyspace) (q : Partition) (i v : Bytes)
      → (partition_number q == partition_number p) ≡ false
      → IsKeyed s
      → IsKeyed (fj.insert s q i v)
  insert_other-IsKeyed s q i v n keyed j w e =
      keyed j w (sym (fj.get-insert s q i v p j ∙ rw n refl) ∙ e)

  -- Let the keys of a partition be some fields of a fixed width, a time of 64 bits and more. A
  -- range of a prefix of that width from a time on holds under a key of this format what the
  -- partition holds, if the fields are the prefix and the time is not before that one and below
  -- the largest of all; otherwise it holds nothing under the key.
  pub get-range :
      (s : fj.Keyspace) (q : Bytes) (from : ℕ) (k : Key)
      → IsSized k
      → length q ≡ width
      → from < 256 ^ 8
      → lookup (bytes k) (from_block_time fj s p q from)
        ≡ (if is_from q from k then fj.get s p (bytes k) else none)
  get-range s q from k z l h =
      ap (lookup (bytes k)) (fj.range-iter s p (range_start q from) (range_end q))
      ∙ lookup-keep_range (range_start q from) (range_end q) (bytes k) (fj.iter s p)
      ∙ rw (fj.lookup-iter s p (bytes k)) (
          ap (λ b. if b then fj.get s p (bytes k) else none)
            (rw (keys.bytes_parts k z) (
              key_in_range (prefix k) q (keys.rest k) (time k) from (keys.prefix_width k z ∙ sym l)
                (keys.rest_long k z) (keys.time_small k z) h)))

  -- The keys of one prefix are in the order of their times.
  pub time-of_lt :
      (k l : Key)
      → IsSized k
      → IsSized l
      → prefix k ≡ prefix l
      → bytes_lt (bytes k) (bytes l) ≡ true
      → time k ≤ time l
  time-of_lt k l z y e h =
      let a = to_be 8 (time k) in
      let b = to_be 8 (time l) in
      let tails : bytes_lt (a ++ keys.rest k) (b ++ keys.rest l) ≡ true =
        sym (same_prefix (prefix l) (a ++ keys.rest k) (b ++ keys.rest l))
        ∙ subst (λ q. bytes_lt (q ++ (a ++ keys.rest k)) (prefix l ++ (b ++ keys.rest l)) ≡ true) e
            (subst (λ x. bytes_lt x (prefix l ++ (b ++ keys.rest l)) ≡ true) (keys.bytes_parts k z)
              (subst (λ x. bytes_lt (bytes k) x ≡ true) (keys.bytes_parts l y) h)) in
      time_of_tails (time k) (time l) (keys.rest k) (keys.rest l) (keys.time_small k z)
        (keys.time_small l y) tails

  -- an entry of a range
  abbrev pub IsFound : fj.Keyspace → Bytes → ℕ → Bytes × Bytes → Type 0
  IsFound s q from e =
      (k : Key) × IsSized k
      × (e.0 ≡ bytes k)
      × (is_from q from k ≡ true)
      × (fj.get s p (bytes k) ≡ some e.1)

  pub range-IsSorted :
      (s : fj.Keyspace) (q : Bytes) (from : ℕ) → IsSorted (from_block_time fj s p q from)
  range-IsSorted s q from =
      rw (fj.range-iter s p (range_start q from) (range_end q)) (
        keep_range-IsSorted (range_start q from) (range_end q) (fj.iter s p) (fj.iter-IsSorted s p))

  stored_in :
      (s : fj.Keyspace) (q : Bytes) (from : ℕ) (j v : Bytes)
      → lookup j (from_block_time fj s p q from) ≡ some v
      → fj.get s p j ≡ some v
  stored_in s q from j v e =
      let i =
        sym (lookup-keep_range (range_start q from) (range_end q) j (fj.iter s p))
        ∙ ap (lookup j) (sym (fj.range-iter s p (range_start q from) (range_end q)))
        ∙ e in
      sym (fj.lookup-iter s p j) ∙ (kept _ (lookup j (fj.iter s p)) v i).1

  pub range-IsFound :
      (s : fj.Keyspace) (q : Bytes) (from : ℕ)
      → IsKeyed s
      → length q ≡ width
      → from < 256 ^ 8
      → All (IsFound s q from) (from_block_time fj s p q from)
  range-IsFound s q from keyed l h =
      All-of_lookup (IsFound s q from) (from_block_time fj s p q from) (range-IsSorted s q from)
        (λ j v e.
          let (k, z, b) = keyed j v (stored_in s q from j v e) in
          let i : (if is_from q from k then fj.get s p (bytes k) else none) ≡ some v =
            sym (get-range s q from k z l h)
            ∙ subst (λ x. lookup x (from_block_time fj s p q from) ≡ some v) b e in
          let (f, g) = kept (is_from q from k) (fj.get s p (bytes k)) v i in (k, z, b, f, g))
