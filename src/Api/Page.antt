-- ===== src/Api/Page.antt =====
-- What a page shows of a range over the block times.
use kasia_indexer.Prelude.{
  ℕ, zero, suc, ◌^◌, ◌<◌, ◌≤◌, ◌≡◌, ◌∙◌, ◌⊎◌, inl, inr, refl, sym, ap, subst, true, false, some,
  List, [], ◌∷◌, length, All, arith, Bool-cases,
}
use kasia_indexer.Prelude.Bytes.{Bytes, bytes_eq_refl, contains}
use kasia_indexer.Prelude.Outcome.{Outcome, ok, bind, bind-eq_ok, ok-injective}
use kasia_indexer.Fjall.{Fjall, Partition}
use kasia_indexer.Db.Messages.Reads.{from_block_time}
use kasia_indexer.Db.Messages.Reads.Range.{TimedKeys, IsKeyed}
use kasia_indexer.Db.Messages.Reads.Found.{
  entries_of, IsHeld, IsAscending, range-IsDecoded, range_complete,
}
use kasia_indexer.Push.Dispatch.Once.{All-map}
use kasia_indexer.Api.{page, page_entry}

-- some items of a list, in its order
pub data Picks {A : Type 0} : List A → List A → Type 0 where
  stop : (ys : List A) → Picks [] ys
  pick : (x : A) (xs ys : List A) → Picks xs ys → Picks (x ∷ xs) (x ∷ ys)
  skip : (y : A) (xs ys : List A) → Picks xs ys → Picks xs (y ∷ ys)

pub All-Picks {ℓ} :
    {A : Type 0} (P : A → Type ℓ) {xs ys : List A} → Picks xs ys → All P ys → All P xs
All-Picks P (stop ys) a = tt
All-Picks P (pick x xs ys p) a = (a.0, All-Picks P p a.1)
All-Picks P (skip y xs ys p) a = All-Picks P p a.1

All-both {ℓ κ} :
    {A : Type 0} (P : A → Type ℓ) (Q : A → Type κ) (xs : List A)
    → All P xs
    → All Q xs
    → All (λ x. P x × Q x) xs
All-both P Q [] a b = tt
All-both P Q (x ∷ xs) a b = ((a.0, b.0), All-both P Q xs a.1 b.1)

module _ {R : Type 0} (fj : Fjall) (keys : TimedKeys) (p : Partition)
    (respond : keys.Key → Bytes → Outcome R) where
  open keys use {Key, IsSized, bytes, read, width, tx_id}

  -- no transaction twice, and none that is seen
  abbrev pub IsFresh : List Bytes → List (Key × Bytes) → Type 0
  IsFresh seen [] = Unit
  IsFresh seen ((k, v) ∷ ks) = (contains (tx_id k) seen ≡ false) × IsFresh (tx_id k ∷ seen) ks

  abbrev pub seen_after : List Bytes → List (Key × Bytes) → List Bytes
  seen_after seen [] = seen
  seen_after seen ((k, v) ∷ ks) = seen_after (tx_id k ∷ seen) ks

  -- one response for each key
  abbrev pub Answers : List (Key × Bytes) → List R → Type 0
  Answers [] [] = Unit
  Answers ((k, v) ∷ ks) (r ∷ rs) = (respond k v ≡ ok r) × Answers ks rs
  Answers [] (r ∷ rs) = ⊥
  Answers (x ∷ ks) [] = ⊥

  IsAscending-Picks :
      {xs ys : List (Key × Bytes)}
      → Picks xs ys
      → IsAscending fj keys p ys
      → IsAscending fj keys p xs
  IsAscending-Picks (stop ys) a = tt
  IsAscending-Picks (pick x xs ys q) a =
      (All-Picks (λ y. keys.time x.0 ≤ keys.time y.0) q a.0, IsAscending-Picks q a.1)
  IsAscending-Picks (skip y xs ys q) a = IsAscending-Picks q a.1

  contains-seen_after :
      (t : Bytes) (seen : List Bytes) (ks : List (Key × Bytes))
      → contains t seen ≡ true
      → contains t (seen_after seen ks) ≡ true
  contains-seen_after t seen [] c = c
  contains-seen_after t seen ((k, v) ∷ ks) c =
      contains-seen_after t (tx_id k ∷ seen) ks (ground (arith, c))

  -- A key is reached by a page of `n` entries: its transaction is shown, or the page is full and
  -- no entry of it has a later time.
  abbrev IsReached : ℕ → List Bytes → List (Key × Bytes) → Key → Type 0
  IsReached n seen shown k =
      (contains (tx_id k) (seen_after seen shown) ≡ true)
      ⊎ ((length shown ≡ n) × All (λ x. keys.time x.0 ≤ keys.time k) shown)

  -- The page of some keys: at most `n`, and each of the keys is reached.
  abbrev pub IsShown : ℕ → List Bytes → List (Key × Bytes) → List R → Type 0
  IsShown n seen ks rs =
      (shown : List (Key × Bytes)) × Picks shown ks
      × IsFresh seen shown
      × Answers shown rs
      × (length shown ≤ n)
      × All (λ x. IsReached n seen shown x.0) ks

  skip-IsShown :
      (n : ℕ) (seen : List Bytes) (k : Key) (v : Bytes) (ks : List (Key × Bytes)) (rs : List R)
      → contains (tx_id k) seen ≡ true
      → IsShown n seen ks rs
      → IsShown n seen ((k, v) ∷ ks) rs
  skip-IsShown n seen k v ks rs c (shown, q, f, a, l, r) = (
    shown,
    skip (k, v) shown ks q,
    f,
    a,
    l,
    (inl (contains-seen_after (tx_id k) seen shown c), r),
  )

  -- A key behind the first, whose time is not later, is still reached.
  pick-IsReached :
      (n : ℕ) (seen : List Bytes) (k : Key) (v : Bytes) (shown : List (Key × Bytes)) (x : Key)
      → keys.time k ≤ keys.time x
      → IsReached n (tx_id k ∷ seen) shown x
      → IsReached (suc n) seen ((k, v) ∷ shown) x
  pick-IsReached n seen k v shown x t (inl c) = inl c
  pick-IsReached n seen k v shown x t (inr (full, earlier)) = inr (omega arith, (t, earlier))

  pick-IsShown :
      (n : ℕ) (seen : List Bytes) (k : Key) (v : Bytes) (ks : List (Key × Bytes)) (r : R)
      (rs : List R)
      → contains (tx_id k) seen ≡ false
      → respond k v ≡ ok r
      → All (λ x. keys.time k ≤ keys.time x.0) ks
      → IsShown n (tx_id k ∷ seen) ks rs
      → IsShown (suc n) seen ((k, v) ∷ ks) (r ∷ rs)
  pick-IsShown n seen k v ks r rs c e t (shown, q, f, a, l, every) = (
    (k, v) ∷ shown,
    pick (k, v) shown ks q,
    (c, f),
    (e, a),
    omega arith,
    (
      inl (
          contains-seen_after (tx_id k) (tx_id k ∷ seen) shown (rw (bytes_eq_refl (tx_id k)) refl)),
      All-map ks (λ x d. pick-IsReached n seen k v shown x.0 d.0 d.1)
          (All-both (λ x. keys.time k ≤ keys.time x.0) (λ x. IsReached n (tx_id k ∷ seen) shown x.0)
            ks t every),
    ),
  )

  none-IsReached :
      (seen : List Bytes) (ks : List (Key × Bytes)) → All (λ x. IsReached 0 seen [] x.0) ks
  none-IsReached seen [] = tt
  none-IsReached seen (x ∷ ks) = (inr (refl, tt), none-IsReached seen ks)

  abbrev page_from : ℕ → List Bytes → List (Key × Bytes) → Outcome (List R)
  page_from n seen ks = page read tx_id respond n seen (entries_of fj keys p ks)

  page_entry_seen :
      (k : Key) (v : Bytes) (seen : List Bytes) (others : Outcome (List R))
      (rest : List Bytes → Outcome (List R))
      → contains (tx_id k) seen ≡ true
      → page_entry read tx_id respond (some k) v seen others rest ≡ others
  page_entry_seen k v seen others rest c = rw c refl

  page_entry_new :
      (k : Key) (v : Bytes) (seen : List Bytes) (others : Outcome (List R))
      (rest : List Bytes → Outcome (List R))
      → contains (tx_id k) seen ≡ false
      → page_entry read tx_id respond (some k) v seen others rest
        ≡ bind (respond k v) (λ r. bind (rest (tx_id k ∷ seen)) λ rs. ok (r ∷ rs))
  page_entry_new k v seen others rest c = rw c refl

  page_from-read :
      (n : ℕ) (seen : List Bytes) (k : Key) (v : Bytes) (ks : List (Key × Bytes))
      → IsSized k
      → page_entry read tx_id respond
          (some k)
          v
          seen
          (page_from (suc n) seen ks)
          (λ seen'. page_from n seen' ks)
        ≡ page_from (suc n) seen ((k, v) ∷ ks)
  unfolding page
  page_from-read n seen k v ks z =
      ap
        (λ o.
          page_entry read tx_id respond o v seen (page_from (suc n) seen ks)
            (λ seen'. page_from n seen' ks))
        (sym (keys.read-bytes k z))

  page-IsShown :
      (n : ℕ) (seen : List Bytes) (ks : List (Key × Bytes)) (rs : List R)
      → All (λ x. IsSized x.0) ks
      → IsAscending fj keys p ks
      → page_from n seen ks ≡ ok rs
      → IsShown n seen ks rs
  unfolding page
  page-IsShown zero seen ks rs z t e =
      subst (IsShown zero seen ks) (ok-injective [] rs e)
        ([], stop ks, tt, tt, omega arith, none-IsReached seen ks)
  page-IsShown (suc n) seen [] rs z t e =
      subst (IsShown (suc n) seen []) (ok-injective [] rs e) ([], stop [], tt, tt, omega arith, tt)
  page-IsShown (suc n) seen ((k, v) ∷ ks) rs (z, a) (t, u) e =
      elim (Bool-cases (contains (tx_id k) seen)) [
        | inl c ↦ skip-IsShown (suc n) seen k v ks rs c (
            page-IsShown (suc n) seen ks rs a u (
              sym (page_entry_seen k v seen (page_from (suc n) seen ks) (λ t. page_from n t ks) c)
              ∙ page_from-read n seen k v ks z
              ∙ e))
        | inr c ↦
            let (r, first, e') =
              bind-eq_ok (respond k v)
                (λ r. bind (page_from n (tx_id k ∷ seen) ks) λ rs. ok (r ∷ rs))
                (sym (page_entry_new k v seen (page_from (suc n) seen ks) (λ t. page_from n t ks) c)
                  ∙ page_from-read n seen k v ks z
                  ∙ e) in
            let (rest, others, e'') =
              bind-eq_ok (page_from n (tx_id k ∷ seen) ks) (λ rs. ok (r ∷ rs)) e' in
            subst (IsShown (suc n) seen ((k, v) ∷ ks)) (ok-injective (r ∷ rest) rs e'') (
              pick-IsShown n seen k v ks r rest c first t
                (page-IsShown n (tx_id k ∷ seen) ks rest a u others))
      ]

  -- the keys that a page of a range shows
  abbrev pub Shows : fj.Keyspace → Bytes → ℕ → ℕ → List R → Type 0
  Shows s q from limit rs =
      (shown : List (Key × Bytes)) × All (IsHeld fj keys p s q from) shown
      × IsAscending fj keys p shown
      × IsFresh [] shown
      × Answers shown rs
      × (length shown ≤ limit)
      × ((k : Key) (v : Bytes)
          → IsHeld fj keys p s q from (k, v)
          → (contains (tx_id k) (seen_after [] shown) ≡ true)
            ⊎ ((length shown ≡ limit) × All (λ x. keys.time x.0 ≤ keys.time k) shown))

  bind_both :
      (m : Outcome R) (n : Outcome (List R)) (r : R) (rs : List R)
      → m ≡ ok r
      → n ≡ ok rs
      → bind m (λ r. bind n λ rs. ok (r ∷ rs)) ≡ ok (r ∷ rs)
  bind_both m n r rs e d = rw (e, d) refl

  -- A page of keys that are all answered is one.
  page-answers :
      (n : ℕ) (seen : List Bytes) (ks : List (Key × Bytes))
      → All (λ x. IsSized x.0) ks
      → All (λ x. (r : R) × (respond x.0 x.1 ≡ ok r)) ks
      → (rs : List R) × (page_from n seen ks ≡ ok rs)
  unfolding page
  page-answers zero seen ks z a = ([], refl)
  page-answers (suc n) seen [] z a = ([], refl)
  page-answers (suc n) seen ((k, v) ∷ ks) (z, y) ((r, e), a) =
      elim (Bool-cases (contains (tx_id k) seen)) [
        | inl c ↦
            let (rs, d) = page-answers (suc n) seen ks y a in
            (
              rs,
              sym (page_from-read n seen k v ks z)
                  ∙ page_entry_seen k v seen (page_from (suc n) seen ks) (λ t. page_from n t ks) c
                  ∙ d,
            )
        | inr c ↦
            let (rs, d) = page-answers n (tx_id k ∷ seen) ks y a in
            (
              r ∷ rs,
              sym (page_from-read n seen k v ks z)
                  ∙ page_entry_new k v seen (page_from (suc n) seen ks) (λ t. page_from n t ks) c
                  ∙ bind_both (respond k v) (page_from n (tx_id k ∷ seen) ks) r rs e d,
            )
      ]

  pub page-Shows :
      (s : fj.Keyspace) (q : Bytes) (from limit : ℕ) (rs : List R)
      → IsKeyed fj keys p s
      → length q ≡ width
      → from < 256 ^ 8
      → page read tx_id respond limit [] (from_block_time fj s p q from) ≡ ok rs
      → Shows s q from limit rs
  page-Shows s q from limit rs keyed l h e =
      let (ks, e', held, ascending) = range-IsDecoded fj keys p s q from keyed l h in
      let sized : All (λ (x : Key × Bytes). IsSized x.0) ks = All-map ks (λ x d. d.0) held in
      let (shown, picked, fresh, answers, short, every) =
        page-IsShown limit [] ks rs sized ascending
          (subst (λ es. page read tx_id respond limit [] es ≡ ok rs) e' e) in
      (
        shown,
        All-Picks (IsHeld fj keys p s q from) picked held,
        IsAscending-Picks picked ascending,
        fresh,
        answers,
        short,
        λ k v d.
            range_complete fj keys p (IsReached limit [] shown) s q from ks k v l h e'
              (All-both (λ x. IsSized x.0) (λ x. IsReached limit [] shown x.0) ks sized every) d,
      )

  -- The same for a range whose keys are all answered.
  pub page_answers-Shows :
      (s : fj.Keyspace) (q : Bytes) (from limit : ℕ)
      → IsKeyed fj keys p s
      → length q ≡ width
      → from < 256 ^ 8
      → ((k : Key) (v : Bytes) → IsHeld fj keys p s q from (k, v) → (r : R) × (respond k v ≡ ok r))
      → (rs : List R) × (page read tx_id respond limit [] (from_block_time fj s p q from) ≡ ok rs)
        × Shows s q from limit rs
  page_answers-Shows s q from limit keyed l h answered =
      let (ks, e', held, ascending) = range-IsDecoded fj keys p s q from keyed l h in
      let (rs, e) =
        page-answers limit [] ks (All-map ks (λ x d. d.0) held)
          (All-map ks (λ x d. answered x.0 x.1 d) held) in
      let e'' = subst (λ es. page read tx_id respond limit [] es ≡ ok rs) (sym e') e in
      (rs, e'', page-Shows s q from limit rs keyed l h e'')
