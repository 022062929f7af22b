-- ===== src/Db/Keys.antt =====
-- The keys of the message partitions: indexer-db/src/messages/handshake.rs, payment.rs,
-- contextual_message.rs and self_stash.rs. A `U64` of zerocopy is its eight stored bytes.
pub mod RoundTrip
use kasia_indexer.Prelude.{
  ℕ, zero, suc, ◌-◌, ◌≡◌, ◌≤◌, Option, none, some, List, [], ◌∷◌, ◌++◌, length, take, replicate,
  leb, if◌then◌else◌,
}
use kasia_indexer.Prelude.Bytes.{Bytes}
use kasia_indexer.Db.{AddressPayload, address_bytes, default_address}
use kasia_indexer.Db.Layout.{pack, unpack}

pub record HandshakeKeyBySender : Type 0 where
  pub sender : AddressPayload
  pub block_time : Bytes
  pub block_hash : Bytes
  pub receiver : AddressPayload
  pub version : ℕ
  pub tx_id : Bytes

pub record HandshakeKeyByReceiver : Type 0 where
  pub receiver : AddressPayload
  pub block_time : Bytes
  pub block_hash : Bytes
  pub version : ℕ
  pub tx_id : Bytes

-- The payment keys have the fields of the handshake keys, in the same order.
abbrev pub PaymentKeyBySender : Type 0
PaymentKeyBySender = HandshakeKeyBySender

abbrev pub PaymentKeyByReceiver : Type 0
PaymentKeyByReceiver = HandshakeKeyByReceiver

pub record ContextualMessageBySenderKey : Type 0 where
  pub sender : AddressPayload
  pub alias : Bytes
  pub block_time : Bytes
  pub block_hash : Bytes
  pub receiver : AddressPayload
  pub version : ℕ
  pub tx_id : Bytes

abbrev pub scope_len : ℕ
scope_len = 255

pub record SelfStashKeyByOwner : Type 0 where
  pub owner : AddressPayload
  pub scope : Bytes
  pub block_time : Bytes
  pub block_hash : Bytes
  pub version : ℕ
  pub tx_id : Bytes

pub record SelfStashKeyByScope : Type 0 where
  pub scope : Bytes
  pub block_time : Bytes
  pub owner : AddressPayload
  pub block_hash : Bytes
  pub version : ℕ
  pub tx_id : Bytes

-- A field of `n` bytes, zero-filled: the first `n` bytes of `s`, then zeros.
unfoldable pub zero_padded : ℕ → Bytes → Bytes
zero_padded n s = take n s ++ replicate (n - length s) 0

-- `SelfStashScope::from(&[u8])`
unfoldable pub scope_of : Bytes → Bytes
unfolding zero_padded
scope_of s = zero_padded scope_len s

-- An address field that was read, of 34 bytes.
abbrev pub address_of_bytes : Bytes → AddressPayload
address_of_bytes [] = default_address
address_of_bytes (v ∷ p) = record { inverse_version = v; payload = p }

-- A field of one byte that was read.
abbrev pub byte_of : Bytes → ℕ
byte_of [] = 0
byte_of (b ∷ bs) = b

abbrev pub by_sender_sizes : List ℕ
by_sender_sizes = 34 ∷ 8 ∷ 32 ∷ 34 ∷ 1 ∷ 32 ∷ []

abbrev pub by_receiver_sizes : List ℕ
by_receiver_sizes = 34 ∷ 8 ∷ 32 ∷ 1 ∷ 32 ∷ []

abbrev pub contextual_sizes : List ℕ
contextual_sizes = 34 ∷ 16 ∷ 8 ∷ 32 ∷ 34 ∷ 1 ∷ 32 ∷ []

abbrev pub by_owner_sizes : List ℕ
by_owner_sizes = 34 ∷ 255 ∷ 8 ∷ 32 ∷ 1 ∷ 32 ∷ []

abbrev pub by_scope_sizes : List ℕ
by_scope_sizes = 255 ∷ 8 ∷ 34 ∷ 32 ∷ 1 ∷ 32 ∷ []

abbrev pub by_sender_fields : HandshakeKeyBySender → List Bytes
by_sender_fields k =
    address_bytes k.sender
    ∷ k.block_time
    ∷ k.block_hash
    ∷ address_bytes k.receiver
    ∷ (k.version ∷ [])
    ∷ k.tx_id
    ∷ []

abbrev pub by_receiver_fields : HandshakeKeyByReceiver → List Bytes
by_receiver_fields k =
    address_bytes k.receiver ∷ k.block_time ∷ k.block_hash ∷ (k.version ∷ []) ∷ k.tx_id ∷ []

abbrev pub contextual_fields : ContextualMessageBySenderKey → List Bytes
contextual_fields k =
    address_bytes k.sender
    ∷ k.alias
    ∷ k.block_time
    ∷ k.block_hash
    ∷ address_bytes k.receiver
    ∷ (k.version ∷ [])
    ∷ k.tx_id
    ∷ []

abbrev pub by_owner_fields : SelfStashKeyByOwner → List Bytes
by_owner_fields k =
    address_bytes k.owner ∷ k.scope ∷ k.block_time ∷ k.block_hash ∷ (k.version ∷ []) ∷ k.tx_id ∷ []

abbrev pub by_scope_fields : SelfStashKeyByScope → List Bytes
by_scope_fields k =
    k.scope ∷ k.block_time ∷ address_bytes k.owner ∷ k.block_hash ∷ (k.version ∷ []) ∷ k.tx_id ∷ []

-- `as_bytes()` of each key.
unfoldable pub by_sender_bytes : HandshakeKeyBySender → Bytes
by_sender_bytes k = pack (by_sender_fields k)

unfoldable pub by_receiver_bytes : HandshakeKeyByReceiver → Bytes
by_receiver_bytes k = pack (by_receiver_fields k)

unfoldable pub contextual_bytes : ContextualMessageBySenderKey → Bytes
contextual_bytes k = pack (contextual_fields k)

unfoldable pub by_owner_bytes : SelfStashKeyByOwner → Bytes
by_owner_bytes k = pack (by_owner_fields k)

unfoldable pub by_scope_bytes : SelfStashKeyByScope → Bytes
by_scope_bytes k = pack (by_scope_fields k)

abbrev pub by_sender_of : Option (List Bytes) → Option HandshakeKeyBySender
by_sender_of (some (a ∷ t ∷ h ∷ r ∷ v ∷ x ∷ [])) = some (record {
  sender = address_of_bytes a;
  block_time = t;
  block_hash = h;
  receiver = address_of_bytes r;
  version = byte_of v;
  tx_id = x;
})
by_sender_of _ = none

abbrev pub by_receiver_of : Option (List Bytes) → Option HandshakeKeyByReceiver
by_receiver_of (some (r ∷ t ∷ h ∷ v ∷ x ∷ [])) = some (record {
  receiver = address_of_bytes r;
  block_time = t;
  block_hash = h;
  version = byte_of v;
  tx_id = x;
})
by_receiver_of _ = none

abbrev pub contextual_of : Option (List Bytes) → Option ContextualMessageBySenderKey
contextual_of (some (s ∷ a ∷ t ∷ h ∷ r ∷ v ∷ x ∷ [])) = some (record {
  sender = address_of_bytes s;
  alias = a;
  block_time = t;
  block_hash = h;
  receiver = address_of_bytes r;
  version = byte_of v;
  tx_id = x;
})
contextual_of _ = none

abbrev pub by_owner_of : Option (List Bytes) → Option SelfStashKeyByOwner
by_owner_of (some (o ∷ s ∷ t ∷ h ∷ v ∷ x ∷ [])) = some (record {
  owner = address_of_bytes o;
  scope = s;
  block_time = t;
  block_hash = h;
  version = byte_of v;
  tx_id = x;
})
by_owner_of _ = none

abbrev pub by_scope_of : Option (List Bytes) → Option SelfStashKeyByScope
by_scope_of (some (s ∷ t ∷ o ∷ h ∷ v ∷ x ∷ [])) = some (record {
  scope = s;
  block_time = t;
  owner = address_of_bytes o;
  block_hash = h;
  version = byte_of v;
  tx_id = x;
})
by_scope_of _ = none

-- `try_read_from_bytes` of each key.
unfoldable pub read_by_sender : Bytes → Option HandshakeKeyBySender
read_by_sender bs = by_sender_of (unpack by_sender_sizes bs)

unfoldable pub read_by_receiver : Bytes → Option HandshakeKeyByReceiver
read_by_receiver bs = by_receiver_of (unpack by_receiver_sizes bs)

unfoldable pub read_contextual : Bytes → Option ContextualMessageBySenderKey
read_contextual bs = contextual_of (unpack contextual_sizes bs)

unfoldable pub read_by_owner : Bytes → Option SelfStashKeyByOwner
read_by_owner bs = by_owner_of (unpack by_owner_sizes bs)

unfoldable pub read_by_scope : Bytes → Option SelfStashKeyByScope
read_by_scope bs = by_scope_of (unpack by_scope_sizes bs)
