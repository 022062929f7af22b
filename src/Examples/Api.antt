-- ===== src/Examples/Api.antt =====
-- Examples of the requests that read messages: a store with one contextual message.
use kasia_indexer.Prelude.{
  ◌≡◌, ◌∙◌, refl, sym, ap, subst, Bool-cases, inl, inr, some, none, List, [], ◌∷◌, ◌++◌, replicate,
  if◌then◌else◌, arith, Bool, true, false, Option,
}
use kasia_indexer.Prelude.Bytes.{Bytes, ascii, to_be, bytes_eq, bytes_eq_sound}
use kasia_indexer.Prelude.Outcome.{ok}
use kasia_indexer.Fjall.{Partition}
use kasia_indexer.Fjall.Entries.{lookup}
use kasia_indexer.Db.{
  AddressPayload, address_bytes, address_of_address, address_of_script, address_of_class, pub_key,
  read_address,
}
use kasia_indexer.Db.Keys.{
  ContextualMessageBySenderKey, HandshakeKeyByReceiver, zero_padded, contextual_bytes,
  read_contextual, by_receiver_bytes, read_by_receiver,
}
use kasia_indexer.Db.Acceptance.{acceptance_by_tx_id, only_entry, accepted_value}
use kasia_indexer.Db.Messages.Reads.{from_block_time}
use kasia_indexer.Db.Messages.Reads.Range.{IsKeyed, get-range, insert-IsKeyed, insert_other-IsKeyed}
use kasia_indexer.Db.Messages.Reads.Found.{IsHeld}
use kasia_indexer.Db.Messages.Reads.Formats.{contextual_keys, by_receiver_keys}
use kasia_indexer.Push.Dispatch.Events.{to_rpc_address}
use kasia_indexer.Api.{Parsers, json}
use kasia_indexer.Api.Handshakes.{
  HandshakePaginationParams, HandshakeResponse, handshake_by_receiver_response,
  get_handshakes_by_receiver,
}
use kasia_indexer.Api.Handshakes.Answers.{HasHandshake, get_handshakes_by_receiver-Shows}
use kasia_indexer.Api.Page.{Shows}
use kasia_indexer.Api.ContextualMessages.{
  ContextualMessagePaginationParams, ContextualMessageResponse, contextual_response,
  get_contextual_messages_by_sender,
}
use kasia_indexer.Api.ContextualMessages.Answers.{
  HasMessage, get_contextual_messages_by_sender-Shows,
}
use kasia_indexer.Examples.{store, hash, kaspa, bob}
use kasia_indexer.Examples.Push.{lib}

abbrev parsers : Parsers kaspa
parsers = record { parse_address = λ s. some pub_key; hex_decode = λ s. some s }

abbrev sender : AddressPayload
sender = record { inverse_version = 255; payload = replicate 32 1 ++ 0 ∷ [] }

abbrev key : ContextualMessageBySenderKey
key = record {
  sender = sender;
  alias = ascii "al" ++ replicate 14 0;
  block_time = to_be 8 5;
  block_hash = hash 7;
  receiver = bob;
  version = 1;
  tx_id = hash 21;
}

abbrev contextual : Partition
contextual = Partition.contextual_message_by_sender

abbrev with_key : store.Keyspace
with_key = store.insert [] contextual (contextual_bytes key) []

abbrev stored_message : store.Keyspace
stored_message =
    store.insert with_key Partition.tx_id_to_contextual_message (hash 21) (ascii "00ff")

abbrev params : ContextualMessagePaginationParams
params = record { limit = none; block_time = some 3; address = ascii "a"; alias = ascii "al" }

key-IsSized : contextual_keys.IsSized key
key-IsSized = ((refl, (refl, (refl, (refl, (refl, (refl, (refl, tt))))))), (omega arith, refl))

empty-IsKeyed : IsKeyed store contextual_keys contextual []
empty-IsKeyed j v e = cc

stored_message-IsKeyed : IsKeyed store contextual_keys contextual stored_message
stored_message-IsKeyed =
    insert_other-IsKeyed store contextual_keys contextual with_key
      Partition.tx_id_to_contextual_message (hash 21) (ascii "00ff") refl
      (insert-IsKeyed store contextual_keys contextual [] key [] key-IsSized empty-IsKeyed)

sender_of_request : address_of_address kaspa pub_key ≡ ok sender
unfolding address_of_address address_of_script address_of_class
sender_of_request = refl

no_acceptance : (t : Bytes) → acceptance_by_tx_id store stored_message t ≡ ok none
unfolding acceptance_by_tx_id only_entry accepted_value
no_acceptance t = refl

some_key : (i k : ContextualMessageBySenderKey) → some i ≡ some k → i ≡ k
some_key i k e = cc

no_value : (v : Bytes) → none ≡ some v → ⊥
no_value v e = cc

same_key :
    (k : ContextualMessageBySenderKey) (v : Bytes)
    → contextual_keys.IsSized k
    → store.get stored_message contextual (contextual_bytes k) ≡ some v
    → key ≡ k
same_key k v z e = elim (Bool-cases (bytes_eq (contextual_bytes key) (contextual_bytes k))) [
  | inl c ↦ some_key key k (
      sym (contextual_keys.read-bytes key key-IsSized)
      ∙ ap read_contextual (bytes_eq_sound (contextual_bytes key) (contextual_bytes k) c)
      ∙ contextual_keys.read-bytes k z)
  | inr c ↦ absurd (no_value v (subst (λ b. (if b then some [] else none) ≡ some v) c e))
]

message_of_key :
    (k : ContextualMessageBySenderKey) (v : Bytes)
    → IsHeld store contextual_keys contextual stored_message
        (address_bytes sender ++ zero_padded 16 (ascii "al"))
        3
        (k, v)
    → HasMessage lib store kaspa parsers stored_message k.tx_id
message_of_key k v (z, i, g) = (
  (none, no_acceptance k.tx_id),
  (
    ascii "00ff",
    ap (λ x. store.get stored_message Partition.tx_id_to_contextual_message x.tx_id)
        (sym (same_key k v z g)),
  ),
)

get_contextual_messages_by_sender-Shows_example :
    (rs : List ContextualMessageResponse) × (get_contextual_messages_by_sender lib store kaspa
        parsers params stored_message
      ≡ json rs)
    × Shows store contextual_keys contextual
        (contextual_response lib store kaspa parsers stored_message (ascii "al"))
        stored_message
        (address_bytes sender ++ zero_padded 16 (ascii "al"))
        3
        10
        rs
get_contextual_messages_by_sender-Shows_example =
    get_contextual_messages_by_sender-Shows lib store kaspa parsers params stored_message pub_key
      sender (ascii "al") stored_message-IsKeyed refl sender_of_request refl (omega arith)
      (omega arith) message_of_key

get-range_example :
    lookup
      (contextual_bytes key)
      (from_block_time store stored_message contextual (address_bytes sender ++ key.alias) 3)
    ≡ some []
unfolding contextual_bytes
get-range_example =
    get-range store contextual_keys contextual stored_message (address_bytes sender ++ key.alias) 3
      key key-IsSized refl (omega arith)

-- a store with one handshake for the address of the request, whose sender is bob
abbrev handshakes : Partition
handshakes = Partition.handshake_by_receiver

abbrev received : HandshakeKeyByReceiver
received = record {
  receiver = sender;
  block_time = to_be 8 5;
  block_hash = hash 7;
  version = 1;
  tx_id = hash 22;
}

abbrev with_received : store.Keyspace
with_received = store.insert [] handshakes (by_receiver_bytes received) (address_bytes bob)

abbrev stored_handshake : store.Keyspace
stored_handshake = store.insert with_received Partition.tx_id_to_handshake (hash 22) (ascii "aa")

abbrev handshake_params : HandshakePaginationParams
handshake_params = record { limit = some 2; block_time = none; address = ascii "a" }

received-IsSized : by_receiver_keys.IsSized received
received-IsSized = ((refl, (refl, (refl, (refl, (refl, tt))))), (omega arith, refl))

empty_handshakes-IsKeyed : IsKeyed store by_receiver_keys handshakes []
empty_handshakes-IsKeyed j v e = cc

stored_handshake-IsKeyed : IsKeyed store by_receiver_keys handshakes stored_handshake
stored_handshake-IsKeyed =
    insert_other-IsKeyed store by_receiver_keys handshakes with_received
      Partition.tx_id_to_handshake (hash 22) (ascii "aa") refl
      (insert-IsKeyed store by_receiver_keys handshakes [] received (address_bytes bob)
        received-IsSized empty_handshakes-IsKeyed)

no_handshake_acceptance : (t : Bytes) → acceptance_by_tx_id store stored_handshake t ≡ ok none
unfolding acceptance_by_tx_id only_entry accepted_value
no_handshake_acceptance t = refl

some_received : (i k : HandshakeKeyByReceiver) → some i ≡ some k → i ≡ k
some_received i k e = cc

same_value : (b : Bool) (u v : Bytes) → (if b then some u else none) ≡ some v → (b ≡ true) × (u ≡ v)
same_value true u v e = (refl, of_some e)
  where
    of_some : some u ≡ some v → u ≡ v
    of_some e = cc
same_value false u v e = absurd (no_value v e)

same_received :
    (k : HandshakeKeyByReceiver) (v : Bytes)
    → by_receiver_keys.IsSized k
    → store.get stored_handshake handshakes (by_receiver_bytes k) ≡ some v
    → (received ≡ k) × (address_bytes bob ≡ v)
same_received k v z e =
    let (c, d) =
      same_value (bytes_eq (by_receiver_bytes received) (by_receiver_bytes k)) (address_bytes bob) v
        e in
    (
      some_received received k (
          sym (by_receiver_keys.read-bytes received received-IsSized)
          ∙ ap read_by_receiver
              (bytes_eq_sound (by_receiver_bytes received) (by_receiver_bytes k) c)
          ∙ by_receiver_keys.read-bytes k z),
      d,
    )

bob_has_text : (t : Option Bytes) × (to_rpc_address lib kaspa bob ≡ ok t)
unfolding to_rpc_address
bob_has_text = (some (lib.address_string 1 bob.payload), refl)

handshake_of_key :
    (k : HandshakeKeyByReceiver) (v : Bytes)
    → IsHeld store by_receiver_keys handshakes stored_handshake (address_bytes sender) 0 (k, v)
    → HasHandshake lib store kaspa parsers stored_handshake k.tx_id v
handshake_of_key k v (z, i, g) =
    let (c, d) = same_received k v z g in
    (
      (bob, ap read_address (sym d), bob_has_text),
      (none, no_handshake_acceptance k.tx_id),
      (
        ascii "aa",
        ap (λ x. store.get stored_handshake Partition.tx_id_to_handshake x.tx_id) (sym c),
      ),
    )

get_handshakes_by_receiver-Shows_example :
    (rs : List HandshakeResponse) × (get_handshakes_by_receiver lib store kaspa parsers
        handshake_params stored_handshake
      ≡ json rs)
    × Shows store by_receiver_keys handshakes
        (handshake_by_receiver_response lib store kaspa parsers stored_handshake)
        stored_handshake
        (address_bytes sender)
        0
        2
        rs
get_handshakes_by_receiver-Shows_example =
    get_handshakes_by_receiver-Shows lib store kaspa parsers handshake_params stored_handshake
      pub_key sender stored_handshake-IsKeyed refl sender_of_request (omega arith) handshake_of_key
