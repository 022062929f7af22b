-- ===== src/Api/Handshakes/Answers.antt =====
-- What a request for the handshakes of a receiver is answered with.
use kasia_indexer.Prelude.{
  unwrap_or, true, Option, ◌^◌, ◌<◌, ◌≡◌, ◌∙◌, refl, ap, some, List, [], suc,
}
use kasia_indexer.Prelude.Bytes.{Bytes, of_be}
use kasia_indexer.Prelude.Outcome.{ok}
use kasia_indexer.Fjall.{Fjall, Partition}
use kasia_indexer.Db.{Kaspa, AddressPayload, address_bytes, address_of_address, read_address}
use kasia_indexer.Db.Addresses.{address_of_address-IsStored}
use kasia_indexer.Db.Keys.{HandshakeKeyByReceiver}
use kasia_indexer.Db.Messages.Reads.{handshakes_by_receiver, get_handshake_rtx}
use kasia_indexer.Db.Messages.Reads.Range.{IsKeyed}
use kasia_indexer.Db.Messages.Reads.Found.{IsHeld, prefix-of_is_from}
use kasia_indexer.Db.Messages.Reads.Formats.{by_receiver_keys}
use kasia_indexer.Db.Acceptance.{acceptance_by_tx_id}
use kasia_indexer.Push.{Libraries}
use kasia_indexer.Push.Dispatch.Events.{to_rpc_address}
use kasia_indexer.Api.{acceptance, acceptance_of, Parsers, json, answer, limit_of, cursor_of}
use kasia_indexer.Api.Addresses.{
  with_address-next, has_version, required_address-known, has_version-of_address, same_version,
}
use kasia_indexer.Api.Page.{Shows, page_answers-Shows}
use kasia_indexer.Api.Handshakes.{
  HandshakePaginationParams, HandshakeResponse, handshake_by_receiver_response,
  get_handshakes_by_receiver,
}

module _ (lib : Libraries) (fj : Fjall) (k : Kaspa) (parsers : Parsers k) where
  -- The stored sender of a handshake can be written, its payload is stored, and whether it is
  -- accepted can be told.
  abbrev pub HasHandshake : fj.Keyspace → Bytes → Bytes → Type 0
  HasHandshake s tx_id value =
      ((x : AddressPayload) × (read_address value ≡ some x)
        × ((t : Option Bytes) × (to_rpc_address lib k x ≡ ok t)))
      × ((o : Option Bytes) × (acceptance_by_tx_id fj s tx_id ≡ ok o))
      × ((c : Bytes) × (fj.get s Partition.tx_id_to_handshake tx_id ≡ some c))

  handshake_by_receiver_response-answers :
      (s : fj.Keyspace) (key : HandshakeKeyByReceiver) (v : Bytes)
      → has_version lib fj k parsers key.receiver.inverse_version ≡ true
      → HasHandshake s key.tx_id v
      → (r : HandshakeResponse) × (handshake_by_receiver_response lib fj k parsers s key v ≡ ok r)
  unfolding handshake_by_receiver_response acceptance get_handshake_rtx
  handshake_by_receiver_response-answers s key v h ((x, e, (t, f)), (o, d), (c, g)) =
      let (receiver, q) = required_address-known lib fj k parsers key.receiver h in
      (
        record {
          tx_id = lib.hex_string key.tx_id;
          sender = unwrap_or t [];
          receiver = receiver;
          block_time = of_be key.block_time;
          accepting_block = (acceptance_of lib fj k parsers o).0;
          accepting_daa_score = (acceptance_of lib fj k parsers o).1;
          message_payload = lib.hex_string c;
        },
        rw e (rw f (rw q (rw d (rw g refl)))),
      )

  -- Let the partition of the handshakes by receiver hold only keys of its format, let the address
  -- of a request be well formed and its time be of 64 bits, and let each handshake that is stored
  -- for that receiver from that time on have its payload, a sender that is unknown or can be
  -- written, and at most one well-formed acceptance. The request is answered with a page: one
  -- response for each of some stored keys with that receiver and a time from the one asked for and
  -- below the largest time of all, in the order of their times, no transaction twice, and at most
  -- as many as the limit. The transaction of each such key is among them, unless there are as many
  -- as the limit and none of them has a later time than that key.
  pub get_handshakes_by_receiver-Shows :
      (params : HandshakePaginationParams) (s : fj.Keyspace) (a : k.Address)
      (receiver : AddressPayload)
      → IsKeyed fj by_receiver_keys Partition.handshake_by_receiver s
      → parsers.parse_address params.address ≡ some a
      → address_of_address k a ≡ ok receiver
      → cursor_of params.block_time < 256 ^ 8
      → ((key : HandshakeKeyByReceiver) (v : Bytes)
          → IsHeld fj by_receiver_keys Partition.handshake_by_receiver s
              (address_bytes receiver)
              (cursor_of params.block_time)
              (key, v)
          → HasHandshake s key.tx_id v)
      → (rs : List HandshakeResponse) × (get_handshakes_by_receiver lib fj k parsers params s
          ≡ json rs)
        × Shows fj by_receiver_keys Partition.handshake_by_receiver
            (handshake_by_receiver_response lib fj k parsers s)
            s
            (address_bytes receiver)
            (cursor_of params.block_time)
            (limit_of 10 params.limit)
            rs
  unfolding get_handshakes_by_receiver handshakes_by_receiver
  get_handshakes_by_receiver-Shows params s a receiver keyed pa pb c complete =
      let q = address_bytes receiver in
      let from = cursor_of params.block_time in
      let p = Partition.handshake_by_receiver in
      let (rs, e, shows) =
        page_answers-Shows fj by_receiver_keys p (handshake_by_receiver_response lib fj k parsers s)
          s q from (limit_of 10 params.limit) keyed
          (ap suc (address_of_address-IsStored k a receiver pb).0) c
          (λ key v held.
            handshake_by_receiver_response-answers s key v
              (same_version lib fj k parsers key.receiver.inverse_version receiver.inverse_version _
                _ (prefix-of_is_from fj by_receiver_keys p q from key held.1)
                (has_version-of_address lib fj k parsers a receiver pb))
              (complete key v held)) in
      (
        rs,
        with_address-next lib fj k parsers params.address _ a receiver pa pb ∙ ap answer e,
        shows,
      )
