-- ===== src/Examples/Messages.antt =====
-- Examples and tests of the parser, of the stored values and of the message handlers.
use kasia_indexer.Prelude.{
  true, false, ℕ, ◌≡◌, ◌↔◌, refl, none, some, [], ◌∷◌, ◌++◌, length, replicate, All, ◌+◌, ◌<◌,
  arith,
}
use kasia_indexer.Prelude.Bytes.{Bytes, ascii, to_le}
use kasia_indexer.Prelude.Outcome.{Outcome, ok, bind}
use kasia_indexer.Protocol.{
  SealedOperation, contextual_message_v1, sealed_handshake_v2, parse_sealed_operation,
}
use kasia_indexer.Protocol.Grammar.{Renders, parse_sealed_operation_iff}
use kasia_indexer.Fjall.{Partition, same_cell}
use kasia_indexer.Db.{AddressPayload, ScriptClass, address_bytes, address_of_script, PartitionId}
use kasia_indexer.Db.Acceptance.{
  AcceptanceKey, acceptance_key_bytes, header_bytes, insert_wtx, update_acceptance_wtx,
  resolve_entries_wtx, key_by_tx_id, Entry, InsertionEntry, update_value_sender,
  insert_by_key_sender, entries_bytes, resolve_loop, zeroed_header,
}
use kasia_indexer.Db.Acceptance.Resolve.{
  HoldsEntries, output_of, truncated, insert_wtx-HoldsEntries, update_acceptance_wtx-HoldsEntries,
  resolve_entries_wtx-entries,
}
use kasia_indexer.Db.Acceptance.Lookup.{IsOnlyKey, key_by_tx_id-insert_wtx}
use kasia_indexer.Db.Messages.{get_payment, insert_tx_id_to_payment, insert_handshake_by_receiver}
use kasia_indexer.Db.Messages.Payments.{get_payment-insert_tx_id_to_payment}
use kasia_indexer.Db.Messages.Senders.{insert_handshake_by_receiver-known}
use kasia_indexer.Db.Addresses.{IsKnownAddress, address_of_script-IsKnownAddress}
use kasia_indexer.Db.Acceptance.Entries.{each_entry, HasKeySize, Stores, resolve_loop-entries}
use kasia_indexer.Db.Headers.{read_hashes}
use kasia_indexer.Db.Headers.HashLists.{
  accepting, SameElsewhere, accepted, unaccepted, remove_accepting_block-insert,
}
use kasia_indexer.Db.Keys.{HandshakeKeyByReceiver, by_receiver_bytes}
use kasia_indexer.VirtualChain.Sender.{key_len, resolve_callback}
use kasia_indexer.Blocks.Operations.Late.{IsSized, SameLate}
use kasia_indexer.Blocks.Operations.Late.Dispatch.{stored, handle_operation-SameLate}
use kasia_indexer.Blocks.Transaction.{handle_operation}
use kasia_indexer.Examples.{store, hash, alice, bob, header, kaspa}

abbrev comm_payload : Bytes
comm_payload = ascii "ciph_msg:1:comm:al:00ff"

abbrev comm : SealedOperation
comm = contextual_message_v1 (record { alias = ascii "al"; sealed_hex = ascii "00ff" })

parse_sealed_operation_iff_example :
    (parse_sealed_operation comm_payload ≡ some comm) ↔ Renders comm comm_payload
parse_sealed_operation_iff_example = parse_sealed_operation_iff comm_payload comm

abbrev handshake_op : SealedOperation
handshake_op = sealed_handshake_v2 (record { sealed_hex = ascii "ff" })

sized : IsSized header (hash 21) bob
sized = record { hash_length = refl; tx_id_length = refl; receiver_length = refl }

handle_operation-SameLate_example :
    SameLate store alice
      (stored store kaspa
        (handle_operation store kaspa ([], []) header (hash 21) 20 bob none handshake_op))
      (stored store kaspa
        (handle_operation store kaspa ([], []) header (hash 21) 20 bob (some alice) handshake_op))
handle_operation-SameLate_example =
    handle_operation-SameLate store kaspa ([], []) header (hash 21) 20 bob alice handshake_op none
      sized tt refl

-- an entry of a handshake whose sender is not known
abbrev entry : InsertionEntry
entry = record {
  partition_id = PartitionId.handshake_by_receiver;
  action = update_value_sender;
  partition_key = replicate 107 4;
}

abbrev later_entry : InsertionEntry
later_entry = record {
  partition_id = PartitionId.handshake_by_sender;
  action = insert_by_key_sender;
  partition_key = replicate 141 5;
}

-- counts the entries
abbrev count : ℕ → Entry → Outcome ℕ
count n e = ok (n + 1)

two_sizes : All (HasKeySize key_len) (entry ∷ later_entry ∷ [])
unfolding key_len
two_sizes = (refl, (refl, tt))

fuel_suffices : length (entries_bytes (entry ∷ later_entry ∷ [])) < 300
unfolding entries_bytes
fuel_suffices = omega arith

resolve_loop-entries_example :
    resolve_loop key_len count 300 (entries_bytes (entry ∷ later_entry ∷ [])) 0
    ≡ each_entry count (entry ∷ later_entry ∷ []) 0
resolve_loop-entries_example =
    resolve_loop-entries key_len count (entry ∷ later_entry ∷ []) 300 0 two_sizes fuel_suffices

abbrev old_value : Bytes
old_value = zeroed_header ++ 5 ∷ 0 ∷ replicate 107 4

Stores-entry : Stores old_value zeroed_header (entry ∷ [])
unfolding entries_bytes
Stores-entry = record { full = refl; split = refl }

abbrev acceptance : AcceptanceKey
acceptance = record { tx_id = hash 21; receiver = bob }

-- a transaction that sees the value of the handshake
abbrev open_wtx : store.WriteTransaction
open_wtx =
    ([], (Partition.tx_id_to_acceptance, acceptance_key_bytes acceptance, some old_value) ∷ [])

holds_entry : HoldsEntries store open_wtx acceptance zeroed_header (entry ∷ [])
unfolding acceptance_key_bytes
holds_entry = (old_value, refl, Stores-entry)

insert_wtx-HoldsEntries_example :
    HoldsEntries store
      (insert_wtx store open_wtx acceptance (later_entry ∷ []))
      acceptance
      zeroed_header
      (entry ∷ later_entry ∷ [])
insert_wtx-HoldsEntries_example =
    insert_wtx-HoldsEntries store open_wtx acceptance zeroed_header (entry ∷ []) (later_entry ∷ [])
      holds_entry

update_acceptance_wtx-HoldsEntries_example :
    (w : store.WriteTransaction) × (update_acceptance_wtx store open_wtx acceptance (hash 7) 5
      ≡ ok (w, output_of (entry ∷ [])))
    × HoldsEntries store w acceptance
        (header_bytes (record { accepting_block_hash = hash 7; accepting_daa = to_le 8 5 }))
        (entry ∷ [])
update_acceptance_wtx-HoldsEntries_example =
    update_acceptance_wtx-HoldsEntries store open_wtx acceptance zeroed_header (hash 7) 5
      (entry ∷ []) refl holds_entry

one_size : All (HasKeySize key_len) (entry ∷ [])
unfolding key_len
one_size = (refl, tt)

resolve_entries_wtx-entries_example :
    (resolve_entries_wtx store open_wtx acceptance key_len (resolve_callback store alice)
      ≡ bind
          (each_entry
            (resolve_callback store alice)
            (entry ∷ [])
            (truncated store open_wtx acceptance zeroed_header))
          (λ w. ok (w, true)))
    × HoldsEntries store
        (truncated store open_wtx acceptance zeroed_header)
        acceptance
        zeroed_header
        []
resolve_entries_wtx-entries_example =
    resolve_entries_wtx-entries store key_len (resolve_callback store alice) open_wtx acceptance
      zeroed_header (entry ∷ []) one_size holds_entry

only_key : IsOnlyKey store ([], []) [] acceptance
only_key j t n = (refl, refl)

key_by_tx_id-insert_wtx_example :
    key_by_tx_id store
      (store.commit (insert_wtx store ([], []) acceptance (entry ∷ [])) [])
      (hash 21)
    ≡ ok (some acceptance)
key_by_tx_id-insert_wtx_example =
    key_by_tx_id-insert_wtx store ([], []) [] acceptance (entry ∷ []) (refl, (refl, tt)) only_key

get_payment-insert_tx_id_to_payment_example :
    get_payment store
      (store.commit (insert_tx_id_to_payment store ([], []) (hash 21) 7 (ascii "ff")) [])
      (hash 21)
    ≡ ok (some (7, ascii "ff"))
get_payment-insert_tx_id_to_payment_example =
    get_payment-insert_tx_id_to_payment store ([], []) [] (hash 21) 7 (ascii "ff") (omega arith)

abbrev received : HandshakeKeyByReceiver
received = record {
  receiver = bob;
  block_time = replicate 8 0;
  block_hash = hash 7;
  version = 0;
  tx_id = hash 21;
}

abbrev known_wtx : store.WriteTransaction
known_wtx = (
  [],
  (Partition.handshake_by_receiver, by_receiver_bytes received, some (address_bytes alice)) ∷ [],
)

alice_is_held :
    store.get_wtx known_wtx Partition.handshake_by_receiver (by_receiver_bytes received)
    ≡ some (address_bytes alice)
unfolding by_receiver_bytes
alice_is_held = refl

insert_handshake_by_receiver-known_example :
    (w : store.WriteTransaction) × (insert_handshake_by_receiver store known_wtx received (some bob)
      ≡ ok w)
    × (store.get_wtx w Partition.handshake_by_receiver (by_receiver_bytes received)
        ≡ some (address_bytes alice))
    × ((q : Partition) (j : Bytes)
        → same_cell Partition.handshake_by_receiver (by_receiver_bytes received) q j ≡ false
        → store.get_wtx w q j ≡ store.get_wtx known_wtx q j)
insert_handshake_by_receiver-known_example =
    insert_handshake_by_receiver-known store known_wtx received bob alice refl refl alice_is_held

address_of_script-IsKnownAddress_example :
    (a : AddressPayload) × (address_of_script kaspa ScriptClass.script_hash ≡ ok a)
    × IsKnownAddress a
address_of_script-IsKnownAddress_example =
    address_of_script-IsKnownAddress kaspa ScriptClass.script_hash tt refl

remove_accepting_block-insert_example :
    (v : Bytes) × ((unaccepted store (accepted store [] (hash 7) (hash 1 ∷ hash 2 ∷ [])) (hash 7)).1
      ≡ some v)
    × (read_hashes (length v) v ≡ ok (hash 1 ∷ hash 2 ∷ []))
    × SameElsewhere store (hash 7) [] (accepted store [] (hash 7) (hash 1 ∷ hash 2 ∷ []))
    × SameElsewhere store
        (hash 7)
        []
        (unaccepted store (accepted store [] (hash 7) (hash 1 ∷ hash 2 ∷ [])) (hash 7)).0
    × (store.get
          (unaccepted store (accepted store [] (hash 7) (hash 1 ∷ hash 2 ∷ [])) (hash 7)).0
          (accepting store)
          (hash 7)
        ≡ none)
remove_accepting_block-insert_example =
    remove_accepting_block-insert store [] (hash 7) (hash 1 ∷ hash 2 ∷ []) (refl, (refl, tt))
