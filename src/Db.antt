-- ===== src/Db.antt =====
-- indexer-db/src/lib.rs: addresses as they are stored, and the tags of the partitions.
pub mod Layout
pub mod Addresses
pub mod Keys
pub mod Acceptance
pub mod Messages
pub mod Metadata
pub mod Headers
use kasia_indexer.Prelude.{
  ℕ, ◌-◌, ◌≤◌, ◌<◌, ◌≡◌, refl, Bool, ◌&&◌, Option, none, some, [], ◌∷◌, ◌++◌, length, take, drop,
  replicate, ◌==◌, leb, ltb, if◌then◌else◌,
}
use kasia_indexer.Prelude.Bytes.{Bytes, bytes_eq}
use kasia_indexer.Prelude.Outcome.{Outcome, ok, err, bail, panic, bind}

-- `payload` has 33 bytes; the last is unused for a script hash and an x-only public key.
pub record AddressPayload : Type 0 where
  pub inverse_version : ℕ
  pub payload : Bytes

-- no address is known
abbrev pub empty_version : ℕ
empty_version = 0

abbrev pub default_address : AddressPayload
default_address = record { inverse_version = empty_version; payload = replicate 33 0 }

-- `as_bytes()` of a packed struct is the bytes of its fields in order.
abbrev pub address_bytes : AddressPayload → Bytes
address_bytes a = a.inverse_version ∷ a.payload

-- `try_ref_from_bytes` succeeds on exactly 34 bytes.
abbrev pub read_address : Bytes → Option AddressPayload
read_address [] = none
read_address (v ∷ p) =
    if length p == 33 then some (record { inverse_version = v; payload = p }) else none

abbrev pub address_eq : AddressPayload → AddressPayload → Bool
address_eq a b = (a.inverse_version == b.inverse_version) && bytes_eq a.payload b.payload

-- `&s[lo..hi]`
abbrev pub slice : ℕ → ℕ → Bytes → Outcome Bytes
slice lo hi s =
    if leb lo hi && leb hi (length s)
    then ok (take (hi - lo) (drop lo s))
    else err (panic "slice index out of range")

-- The classes of a script in the Kaspa library.
pub data ScriptClass : Type 0 where
  non_standard pub_key pub_key_ecdsa script_hash : ScriptClass

-- What the indexer takes from the Kaspa libraries about a script and its address.
pub record Kaspa : Type 1 where
  pub ScriptPublicKey : Type 0
  pub class_of : ScriptPublicKey → ScriptClass
  pub script : ScriptPublicKey → Bytes
  pub script_version : ScriptPublicKey → ℕ
  pub class_version : ScriptClass → ℕ
  -- `Version::PubKey as u8` and the two others
  pub version_pub_key : ℕ
  pub version_pub_key_ecdsa : ℕ
  pub version_script_hash : ℕ
  -- the version tags are small: a tag of 255 would be stored as `empty_version`
  pub pub_key_small : version_pub_key < 255
  pub pub_key_ecdsa_small : version_pub_key_ecdsa < 255
  pub script_hash_small : version_script_hash < 255
  -- the standard scripts are pushes of 32 or 33 bytes and opcodes
  pub pub_key_length : (s : ScriptPublicKey) → class_of s ≡ pub_key → length (script s) ≡ 34
  pub pub_key_ecdsa_length :
      (s : ScriptPublicKey) → class_of s ≡ pub_key_ecdsa → length (script s) ≡ 35
  pub script_hash_length : (s : ScriptPublicKey) → class_of s ≡ script_hash → length (script s) ≡ 35
  -- an address of the library, its script, and the prefix that it is parsed with
  pub Address : Type 0
  pub pay_to_address_script : Address → ScriptPublicKey

module _ (k : Kaspa) where
  open k use {
    ScriptPublicKey, class_of, script, script_version, class_version, version_pub_key,
    version_pub_key_ecdsa, version_script_hash,
  }

  -- `u8::MAX - Version::X as u8`
  abbrev pub inverse : ℕ → ℕ
  inverse v = 255 - v

  -- The arms on the class of the script.
  unfoldable pub address_of_class : ScriptClass → Bytes → Outcome AddressPayload
  address_of_class non_standard s = err (bail "Invalid script class")
  address_of_class pub_key s =
      bind (slice 1 33 s)
        λ p. ok (record { inverse_version = inverse version_pub_key; payload = p ++ 0 ∷ [] })
  address_of_class pub_key_ecdsa s =
      bind (slice 1 34 s)
        λ p. ok (record { inverse_version = inverse version_pub_key_ecdsa; payload = p })
  address_of_class script_hash s =
      bind (slice 2 34 s)
        λ p. ok (record { inverse_version = inverse version_script_hash; payload = p ++ 0 ∷ [] })

  -- `AddressPayload::try_from(&ScriptPublicKey)`
  unfoldable pub address_of_script : ScriptPublicKey → Outcome AddressPayload
  unfolding address_of_class
  address_of_script s =
      if ltb (class_version (class_of s)) (script_version s)
      then err (bail "Invalid version for script class")
      else address_of_class (class_of s) (script s)

  -- `AddressPayload::try_from(&Address)`
  unfoldable pub address_of_address : k.Address → Outcome AddressPayload
  unfolding address_of_script
  address_of_address a = address_of_script (k.pay_to_address_script a)

-- The tags of the partitions, as they stand in stored entries.
pub data PartitionId : Type 0 where
  metadata block_compact_headers block_daa_index block_gaps : PartitionId
  handshake_by_receiver handshake_by_sender tx_id_to_handshake : PartitionId
  contextual_message_by_sender payment_by_receiver payment_by_sender : PartitionId
  tx_id_to_payment accepting_block_to_tx_ids tx_id_to_acceptance pending_senders : PartitionId
  self_stash_by_owner tx_id_to_self_stash self_stash_by_scope : PartitionId
  board_post_by_id board_post_by_created_at board_client_generated_id_to_post_id : PartitionId
  board_reply_by_parent_created_at board_reaction_by_post_actor_emoji : PartitionId
  board_follow_by_follower_target board_follow_by_target_follower : PartitionId

abbrev pub partition_id_byte : PartitionId → ℕ
partition_id_byte metadata = 1
partition_id_byte block_compact_headers = 2
partition_id_byte block_daa_index = 3
partition_id_byte block_gaps = 4
partition_id_byte handshake_by_receiver = 5
partition_id_byte handshake_by_sender = 6
partition_id_byte tx_id_to_handshake = 7
partition_id_byte contextual_message_by_sender = 8
partition_id_byte payment_by_receiver = 9
partition_id_byte payment_by_sender = 10
partition_id_byte tx_id_to_payment = 11
partition_id_byte accepting_block_to_tx_ids = 12
partition_id_byte tx_id_to_acceptance = 13
partition_id_byte pending_senders = 14
partition_id_byte self_stash_by_owner = 15
partition_id_byte tx_id_to_self_stash = 16
partition_id_byte self_stash_by_scope = 17
partition_id_byte board_post_by_id = 18
partition_id_byte board_post_by_created_at = 19
partition_id_byte board_client_generated_id_to_post_id = 20
partition_id_byte board_reply_by_parent_created_at = 21
partition_id_byte board_reaction_by_post_actor_emoji = 22
partition_id_byte board_follow_by_follower_target = 23
partition_id_byte board_follow_by_target_follower = 24

-- `PartitionId::try_read_from_bytes` on one byte
unfoldable pub read_partition_id : ℕ → Option PartitionId
read_partition_id b =
    if b == 1
    then some metadata
    else if b == 2
    then some block_compact_headers
    else if b == 3
    then some block_daa_index
    else if b == 4
    then some block_gaps
    else if b == 5
    then some handshake_by_receiver
    else if b == 6
    then some handshake_by_sender
    else if b == 7
    then some tx_id_to_handshake
    else if b == 8
    then some contextual_message_by_sender
    else if b == 9
    then some payment_by_receiver
    else if b == 10
    then some payment_by_sender
    else if b == 11
    then some tx_id_to_payment
    else if b == 12
    then some accepting_block_to_tx_ids
    else if b == 13
    then some tx_id_to_acceptance
    else if b == 14
    then some pending_senders
    else if b == 15
    then some self_stash_by_owner
    else if b == 16
    then some tx_id_to_self_stash
    else if b == 17
    then some self_stash_by_scope
    else if b == 18
    then some board_post_by_id
    else if b == 19
    then some board_post_by_created_at
    else if b == 20
    then some board_client_generated_id_to_post_id
    else if b == 21
    then some board_reply_by_parent_created_at
    else if b == 22
    then some board_reaction_by_post_actor_emoji
    else if b == 23
    then some board_follow_by_follower_target
    else if b == 24
    then some board_follow_by_target_follower
    else none

-- The tag of every partition is read back from the byte that it is stored as.
pub read_partition_id-byte : (p : PartitionId) → read_partition_id (partition_id_byte p) ≡ some p
unfolding read_partition_id
read_partition_id-byte metadata = refl
read_partition_id-byte _ = refl
