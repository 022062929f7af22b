-- ===== src/Db/Addresses.antt =====
-- The stored address of a script.
use kasia_indexer.Prelude.{
  ℕ, Bool-cases, ◌⊎◌, inl, inr, ap, sym, subst, ◌∙◌, leb, ◌&&◌, suc, ◌+◌, ◌-◌, ◌<◌, ◌≡◌, refl,
  false, [], ◌∷◌, ◌++◌, length, take, drop, ltb, ◌==◌, arith, length-append, length-take,
  length-drop,
}
use kasia_indexer.Prelude.Bytes.{Bytes}
use kasia_indexer.Prelude.Outcome.{ok, bind-eq_ok, ok-injective}
use kasia_indexer.Db.{
  AddressPayload, slice, ScriptClass, non_standard, pub_key, pub_key_ecdsa, script_hash, Kaspa,
  inverse, address_of_class, address_of_script, address_of_address,
}

-- A cut inside of the bytes succeeds.
slice_inside :
    (lo n : ℕ) (s : Bytes)
    → (lo + n < suc (length s))
    → (p : Bytes) × (slice lo (lo + n) s ≡ ok p) × (length p ≡ n)
slice_inside lo n s h = (
  take (lo + n - lo) (drop lo s),
  ground arith,
  omega (arith, length-take {0} (lo + n - lo) (drop lo s), length-drop {0} lo s),
)

-- The stored form of an address: 34 bytes, and not the mark of an unknown address.
pub record IsKnownAddress (a : AddressPayload) : Type 0 where
  pub payload_length : length a.payload ≡ 33
  pub not_empty : (a.inverse_version == 0) ≡ false

module _ (k : Kaspa) where
  abbrev pub IsStandard : ScriptClass → Type 0
  IsStandard non_standard = ⊥
  IsStandard _ = Unit

  address_of_class-IsKnownAddress :
      (c : ScriptClass) (s : k.ScriptPublicKey)
      → k.class_of s ≡ c
      → IsStandard c
      → (a : AddressPayload) × (address_of_class k c (k.script s) ≡ ok a) × IsKnownAddress a
  unfolding address_of_class
  address_of_class-IsKnownAddress non_standard s e st = absurd st
  address_of_class-IsKnownAddress pub_key s e st =
      let (p, cut, size) = slice_inside 1 32 (k.script s) (omega (arith, k.pub_key_length s e)) in
      (
        record { inverse_version = inverse k k.version_pub_key; payload = p ++ 0 ∷ [] },
        rw cut,
        record {
          payload_length = omega (arith, length-append {0} p (0 ∷ []), size);
          not_empty = ground (arith, k.pub_key_small);
        },
      )
  address_of_class-IsKnownAddress pub_key_ecdsa s e st =
      let (p, cut, size) =
        slice_inside 1 33 (k.script s) (omega (arith, k.pub_key_ecdsa_length s e)) in
      (
        record { inverse_version = inverse k k.version_pub_key_ecdsa; payload = p },
        rw cut,
        record { payload_length = size; not_empty = ground (arith, k.pub_key_ecdsa_small) },
      )
  address_of_class-IsKnownAddress script_hash s e st =
      let (p, cut, size) =
        slice_inside 2 32 (k.script s) (omega (arith, k.script_hash_length s e)) in
      (
        record { inverse_version = inverse k k.version_script_hash; payload = p ++ 0 ∷ [] },
        rw cut,
        record {
          payload_length = omega (arith, length-append {0} p (0 ∷ []), size);
          not_empty = ground (arith, k.script_hash_small);
        },
      )

  -- A script of a standard class, whose version is not above that of its class, has an address: no
  -- slice is out of range, the payload has 33 bytes, and the version is not the mark of an unknown
  -- address.
  pub address_of_script-IsKnownAddress :
      (s : k.ScriptPublicKey)
      → IsStandard (k.class_of s)
      → ltb (k.class_version (k.class_of s)) (k.script_version s) ≡ false
      → (a : AddressPayload) × (address_of_script k s ≡ ok a) × IsKnownAddress a
  unfolding address_of_script
  address_of_script-IsKnownAddress s st v =
      rw v (address_of_class-IsKnownAddress (k.class_of s) s refl st)

slice-length : (lo hi : ℕ) (s p : Bytes) → slice lo hi s ≡ ok p → length p ≡ hi - lo
slice-length lo hi s p e = elim (Bool-cases (leb lo hi && leb hi (length s))) [
  | inl c ↦
      let q : take (hi - lo) (drop lo s) ≡ p = ground (arith, c, e) in
      ap length (sym q)
      ∙ ground (arith, c, length-take {0} (hi - lo) (drop lo s), length-drop {0} lo s)
  | inr c ↦ ground (arith, c, e)
]

module _ (k : Kaspa) where
  abbrev HasVersion : AddressPayload → Type 0
  HasVersion a =
      (a.inverse_version ≡ inverse k k.version_pub_key)
      ⊎ ((a.inverse_version ≡ inverse k k.version_pub_key_ecdsa)
          ⊎ (a.inverse_version ≡ inverse k k.version_script_hash))

  -- 33 bytes behind the version of one of the classes
  abbrev pub IsStored : AddressPayload → Type 0
  IsStored a = (length a.payload ≡ 33) × HasVersion a

  pub address_of_class-IsStored :
      (c : ScriptClass) (s : Bytes) (a : AddressPayload)
      → address_of_class k c s ≡ ok a
      → IsStored a
  unfolding address_of_class
  address_of_class-IsStored non_standard s a e = cc
  address_of_class-IsStored pub_key s a e =
      let (p, cut, h) =
        bind-eq_ok (slice 1 33 s)
          (λ p.
            ok (record { inverse_version = inverse k k.version_pub_key; payload = p ++ 0 ∷ [] }))
          e in
      subst IsStored (ok-injective _ a h)
        (omega (arith, length-append {0} p (0 ∷ []), slice-length 1 33 s p cut), inl refl)
  address_of_class-IsStored pub_key_ecdsa s a e =
      let (p, cut, h) =
        bind-eq_ok (slice 1 34 s)
          (λ p. ok (record { inverse_version = inverse k k.version_pub_key_ecdsa; payload = p }))
          e in
      subst IsStored (ok-injective _ a h) (slice-length 1 34 s p cut, inr (inl refl))
  address_of_class-IsStored script_hash s a e =
      let (p, cut, h) =
        bind-eq_ok (slice 2 34 s)
          (λ p.
            ok
              (record { inverse_version = inverse k k.version_script_hash; payload = p ++ 0 ∷ [] }))
          e in
      subst IsStored (ok-injective _ a h)
        (omega (arith, length-append {0} p (0 ∷ []), slice-length 2 34 s p cut), inr (inr refl))

  pub address_of_address-IsStored :
      (x : k.Address) (a : AddressPayload) → address_of_address k x ≡ ok a → IsStored a
  unfolding address_of_address address_of_script
  address_of_address-IsStored x a e =
      let t = k.pay_to_address_script x in
      elim (Bool-cases (ltb (k.class_version (k.class_of t)) (k.script_version t))) [
        | inl c ↦ absurd (ground (arith, c, e))
        | inr c ↦ address_of_class-IsStored (k.class_of t) (k.script t) a (ground (arith, c, e))
      ]
