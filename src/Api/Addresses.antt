-- ===== src/Api/Addresses.antt =====
-- What the address of a request is read as, and the texts of stored addresses.
use kasia_indexer.Prelude.{
  Bool, true, not, ◌&&◌, ◌||◌, ◌==◌, inl, inr, ◌-◌, ℕ, ◌≡◌, refl, some, none, ◌∷◌, arith,
  if◌then◌else◌, false,
}
use kasia_indexer.Prelude.Bytes.{Bytes}
use kasia_indexer.Prelude.Outcome.{Fault, ok, err}
use kasia_indexer.Fjall.{Fjall}
use kasia_indexer.Db.{Kaspa, AddressPayload, address_of_address}
use kasia_indexer.Db.Addresses.{address_of_address-IsStored}
use kasia_indexer.Push.{Libraries}
use kasia_indexer.Api.{Parsers, ApiResponse, with_address, required_address}
use kasia_indexer.Push.Dispatch.Events.{to_rpc_address}

pub known_text :
    (b c d : Bool) (t u : Bytes) (f : Fault)
    → (not b && (c || d)) ≡ true
    → (x : Bytes) × ((if b
          then ok none
          else if c
          then ok (some t)
          else if d
          then ok (some u)
          else err f)
        ≡ ok (some x))
known_text true c d t u f h = cc
known_text false true d t u f h = (t, refl)
known_text false false true t u f h = (u, refl)
known_text false false false t u f h = cc

module _ (lib : Libraries) (fj : Fjall) (k : Kaspa) (parsers : Parsers k) where
  pub with_address-next :
      {R : Type 0} (address : Bytes) (next : AddressPayload → ApiResponse R) (a : k.Address)
      (sender : AddressPayload)
      → parsers.parse_address address ≡ some a
      → address_of_address k a ≡ ok sender
      → with_address lib fj k parsers address next ≡ next sender
  unfolding with_address
  with_address-next address next a sender pa pb = rw (pa, pb) refl

  -- the version of an address that has a text
  abbrev pub has_version : ℕ → Bool
  has_version inverse_version =
      let version = 255 - inverse_version in
      not (inverse_version == 0)
      && ((version == k.version_pub_key || version == k.version_script_hash)
          || version == k.version_pub_key_ecdsa)

  pub to_rpc_address-known :
      (a : AddressPayload)
      → has_version a.inverse_version ≡ true
      → (t : Bytes) × (to_rpc_address lib k a ≡ ok (some t))
  unfolding to_rpc_address
  to_rpc_address-known a h =
      known_text (a.inverse_version == 0)
        (255 - a.inverse_version == k.version_pub_key
          || 255 - a.inverse_version == k.version_script_hash)
        (255 - a.inverse_version == k.version_pub_key_ecdsa) _ _ _ h

  pub has_version-of_address :
      (x : k.Address) (a : AddressPayload)
      → address_of_address k x ≡ ok a
      → has_version a.inverse_version ≡ true
  has_version-of_address x a e = elim (address_of_address-IsStored k x a e).1 [
    | inl q ↦ ground (arith, q, k.pub_key_small)
    | inr (inl q) ↦ ground (arith, q, k.pub_key_ecdsa_small)
    | inr (inr q) ↦ ground (arith, q, k.script_hash_small)
  ]

  pub same_version :
      (x y : ℕ) (a b : Bytes) → x ∷ a ≡ y ∷ b → has_version y ≡ true → has_version x ≡ true
  same_version x y a b e h = cc

  pub required_address-known :
      (a : AddressPayload)
      → has_version a.inverse_version ≡ true
      → (t : Bytes) × (required_address lib fj k parsers a ≡ ok t)
  unfolding required_address
  required_address-known a h = let (t, e) = to_rpc_address-known a h in (t, rw e refl)
