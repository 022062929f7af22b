-- ===== src/Api/ContextualMessages/Answers.antt =====
-- What a request for contextual messages is answered with.
use kasia_indexer.Prelude.{
  true, Option, take, replicate, ◌-◌, length-take, length-replicate, ℕ, ◌^◌, ◌<◌, ◌≤◌, ◌≡◌, ◌∙◌,
  refl, ap, some, List, ◌++◌, length, length-append, ltb, arith, false,
}
use kasia_indexer.Prelude.Bytes.{Bytes, of_be}
use kasia_indexer.Prelude.Outcome.{ok}
use kasia_indexer.Fjall.{Fjall, Partition}
use kasia_indexer.Db.{Kaspa, AddressPayload, address_bytes, address_of_address}
use kasia_indexer.Db.Addresses.{address_of_address-IsStored}
use kasia_indexer.Db.Keys.{ContextualMessageBySenderKey, zero_padded}
use kasia_indexer.Db.Messages.Reads.{contextual_by_sender_alias, get_contextual_rtx}
use kasia_indexer.Db.Messages.Reads.Range.{IsKeyed}
use kasia_indexer.Db.Messages.Reads.Found.{IsHeld, prefix-of_is_from}
use kasia_indexer.Db.Acceptance.{acceptance_by_tx_id}
use kasia_indexer.Db.Messages.Reads.Formats.{contextual_keys}
use kasia_indexer.Push.{Libraries}
use kasia_indexer.Api.{
  acceptance, acceptance_of, Parsers, ApiResponse, json, answer, limit_of, cursor_of,
}
use kasia_indexer.Api.Addresses.{
  with_address-next, has_version, to_rpc_address-known, has_version-of_address, same_version,
}
use kasia_indexer.Api.Page.{Shows, page_answers-Shows}
use kasia_indexer.Api.ContextualMessages.{
  with_alias, ContextualMessagePaginationParams, ContextualMessageResponse, contextual_response,
  get_contextual_messages_by_sender,
}

length-zero_padded : (n : ℕ) (s : Bytes) → length (zero_padded n s) ≡ n
unfolding zero_padded
length-zero_padded n s = omega (
  arith,
  length-append {0} (take n s) (replicate (n - length s) 0),
  length-take {0} n s,
  length-replicate {A = ℕ} (n - length s) 0,
)

module _ (lib : Libraries) (fj : Fjall) (k : Kaspa) (parsers : Parsers k) where
  with_alias-next :
      (alias bytes : Bytes) (next : Bytes → ApiResponse ContextualMessageResponse)
      → parsers.hex_decode alias ≡ some bytes
      → length alias ≤ 32
      → with_alias lib fj k parsers alias next ≡ next (zero_padded 16 bytes)
  unfolding with_alias
  with_alias-next alias bytes next ph h =
      let c : ltb 32 (length alias) ≡ false = ground arith in rw (c, ph) refl

  -- the message of a transaction is stored, and whether it is accepted can be told
  abbrev pub HasMessage : fj.Keyspace → Bytes → Type 0
  HasMessage s tx_id =
      ((o : Option Bytes) × (acceptance_by_tx_id fj s tx_id ≡ ok o))
      × ((c : Bytes) × (fj.get s Partition.tx_id_to_contextual_message tx_id ≡ some c))

  contextual_response-answers :
      (s : fj.Keyspace) (alias : Bytes) (key : ContextualMessageBySenderKey) (v : Bytes)
      → has_version lib fj k parsers key.sender.inverse_version ≡ true
      → HasMessage s key.tx_id
      → (r : ContextualMessageResponse) × (contextual_response lib fj k parsers s alias key v
          ≡ ok r)
  unfolding contextual_response acceptance get_contextual_rtx
  contextual_response-answers s alias key v h ((o, d), (c, g)) =
      let (t, e) = to_rpc_address-known lib fj k parsers key.sender h in
      (
        record {
          tx_id = lib.hex_string key.tx_id;
          sender = t;
          alias = alias;
          block_time = of_be key.block_time;
          accepting_block = (acceptance_of lib fj k parsers o).0;
          accepting_daa_score = (acceptance_of lib fj k parsers o).1;
          message_payload = lib.hex_string c;
        },
        rw (e, d, g) refl,
      )

  -- Let the partition of the contextual messages by sender hold only keys of its format, let the
  -- address and the alias of a request be well formed and its time be of 64 bits, and let each
  -- transaction that is stored for them from that time on have its message and at most one well-
  -- formed acceptance. The request is answered with a page: one response for each of some stored
  -- keys with that sender, that alias and a time from the one asked for and below the largest time
  -- of all, in the order of their times, no transaction twice, and at most as many as the limit.
  -- The transaction of each such key is among them, unless there are as many as the limit and none
  -- of them has a later time than that key.
  pub get_contextual_messages_by_sender-Shows :
      (params : ContextualMessagePaginationParams) (s : fj.Keyspace) (a : k.Address)
      (sender : AddressPayload) (alias : Bytes)
      → IsKeyed fj contextual_keys Partition.contextual_message_by_sender s
      → parsers.parse_address params.address ≡ some a
      → address_of_address k a ≡ ok sender
      → parsers.hex_decode params.alias ≡ some alias
      → length params.alias ≤ 32
      → cursor_of params.block_time < 256 ^ 8
      → ((key : ContextualMessageBySenderKey) (v : Bytes)
          → IsHeld fj contextual_keys Partition.contextual_message_by_sender s
              (address_bytes sender ++ zero_padded 16 alias)
              (cursor_of params.block_time)
              (key, v)
          → HasMessage s key.tx_id)
      → (rs : List ContextualMessageResponse) × (get_contextual_messages_by_sender lib fj k parsers
            params s
          ≡ json rs)
        × Shows fj contextual_keys Partition.contextual_message_by_sender
            (contextual_response lib fj k parsers s params.alias)
            s
            (address_bytes sender ++ zero_padded 16 alias)
            (cursor_of params.block_time)
            (limit_of 10 params.limit)
            rs
  unfolding get_contextual_messages_by_sender contextual_by_sender_alias
  get_contextual_messages_by_sender-Shows params s a sender alias keyed pa pb ph l c complete =
      let q = address_bytes sender ++ zero_padded 16 alias in
      let from = cursor_of params.block_time in
      let p = Partition.contextual_message_by_sender in
      let width : length q ≡ 50 = omega (
        arith,
        length-append {0} (address_bytes sender) (zero_padded 16 alias),
        (address_of_address-IsStored k a sender pb).0,
        length-zero_padded 16 alias,
      ) in
      let (rs, e, shows) =
        page_answers-Shows fj contextual_keys p
          (contextual_response lib fj k parsers s params.alias) s q from (limit_of 10 params.limit)
          keyed width c
          (λ key v held.
            contextual_response-answers s params.alias key v
              (same_version lib fj k parsers key.sender.inverse_version sender.inverse_version _ _
                (prefix-of_is_from fj contextual_keys p q from key held.1)
                (has_version-of_address lib fj k parsers a sender pb))
              (complete key v held)) in
      (
        rs,
        with_address-next lib fj k parsers params.address _ a sender pa pb
            ∙ with_alias-next params.alias alias _ ph l
            ∙ ap answer e,
        shows,
      )
