-- ===== src/Db/Messages/Reads/Formats.antt =====
-- The keys of the message partitions as keys that are ordered by their block times.
use kasia_indexer.Prelude.{
  ℕ, ◌+◌, ◌^◌, ◌<◌, ◌≡◌, ◌∙◌, sym, ap, List, [], ◌∷◌, ◌++◌, length, length-append, append_assoc,
  arith,
}
use kasia_indexer.Prelude.Bytes.{Bytes, to_be, of_be}
use kasia_indexer.Db.{address_bytes}
use kasia_indexer.Db.Layout.{pack, HasSizes}
use kasia_indexer.Db.Keys.{
  HandshakeKeyBySender, HandshakeKeyByReceiver, ContextualMessageBySenderKey, SelfStashKeyByOwner,
  SelfStashKeyByScope, by_sender_sizes, by_receiver_sizes, contextual_sizes, by_owner_sizes,
  by_scope_sizes, by_sender_fields, by_receiver_fields, contextual_fields, by_owner_fields,
  by_scope_fields, by_sender_bytes, by_receiver_bytes, contextual_bytes, by_owner_bytes,
  by_scope_bytes, read_by_sender, read_by_receiver, read_contextual, read_by_owner, read_by_scope,
}
use kasia_indexer.Db.Keys.RoundTrip.{
  read_by_sender-bytes, read_by_receiver-bytes, read_contextual-bytes, read_by_owner-bytes,
  read_by_scope-bytes,
}
use kasia_indexer.Db.Messages.Reads.Range.{TimedKeys}

-- the eight bytes of a number
abbrev pub IsTime : Bytes → Type 0
IsTime t = (of_be t < 256 ^ 8) × (t ≡ to_be 8 (of_be t))

abbrev pub IsContextual : ContextualMessageBySenderKey → Type 0
IsContextual k = HasSizes contextual_sizes (contextual_fields k) × IsTime k.block_time

pub one_prefix : (a t r : Bytes) → IsTime t → a ++ (t ++ r) ≡ a ++ (to_be 8 (of_be t) ++ r)
one_prefix a t r z = ap (λ u. a ++ (u ++ r)) z.1

pub two_prefixes :
    (a b t r : Bytes) → IsTime t → a ++ (b ++ (t ++ r)) ≡ (a ++ b) ++ (to_be 8 (of_be t) ++ r)
two_prefixes a b t r z = sym (append_assoc a b (t ++ r)) ∙ one_prefix (a ++ b) t r z

pub two_lengths : (a b : Bytes) (m n : ℕ) → length a ≡ m → length b ≡ n → length (a ++ b) ≡ m + n
two_lengths a b m n h k = omega (arith, length-append {0} a b)

pub long_rest : (f : Bytes) (fs : List Bytes) → length f ≡ 32 → 0 < length (pack (f ∷ fs))
long_rest f fs h = omega (arith, length-append {0} f (pack fs))

pub long_address : (f : Bytes) (fs : List Bytes) → length f ≡ 34 → 0 < length (pack (f ∷ fs))
long_address f fs h = omega (arith, length-append {0} f (pack fs))

pub contextual_bytes_parts :
    (k : ContextualMessageBySenderKey)
    → IsTime k.block_time
    → contextual_bytes k
      ≡ (address_bytes k.sender ++ k.alias)
        ++ (to_be 8 (of_be k.block_time)
            ++ pack (k.block_hash ∷ address_bytes k.receiver ∷ (k.version ∷ []) ∷ k.tx_id ∷ []))
unfolding contextual_bytes
contextual_bytes_parts k z =
    two_prefixes (address_bytes k.sender) k.alias k.block_time
      (pack (k.block_hash ∷ address_bytes k.receiver ∷ (k.version ∷ []) ∷ k.tx_id ∷ [])) z

abbrev pub contextual_keys : TimedKeys
contextual_keys = record {
  Key = ContextualMessageBySenderKey;
  IsSized = IsContextual;
  bytes = contextual_bytes;
  read = read_contextual;
  width = 50;
  prefix = λ k. address_bytes k.sender ++ k.alias;
  time = λ k. of_be k.block_time;
  rest = λ k. pack (k.block_hash ∷ address_bytes k.receiver ∷ (k.version ∷ []) ∷ k.tx_id ∷ []);
  tx_id = λ k. k.tx_id;
  read-bytes = λ k z. read_contextual-bytes k z.0;
  time_small = λ k z. z.1.0;
  prefix_width = λ k z. two_lengths (address_bytes k.sender) k.alias 34 16 z.0.0 z.0.1.0;
  rest_long = λ k z.
      long_rest (k.block_hash) (address_bytes k.receiver ∷ (k.version ∷ []) ∷ k.tx_id ∷ [])
        z.0.1.1.1.0;
  bytes_parts = λ k z. contextual_bytes_parts k z.1;
}

abbrev pub IsBySender : HandshakeKeyBySender → Type 0
IsBySender k = HasSizes by_sender_sizes (by_sender_fields k) × IsTime k.block_time

pub by_sender_bytes_parts :
    (k : HandshakeKeyBySender)
    → IsTime k.block_time
    → by_sender_bytes k
      ≡ (address_bytes k.sender)
        ++ (to_be 8 (of_be k.block_time)
            ++ pack (k.block_hash ∷ address_bytes k.receiver ∷ (k.version ∷ []) ∷ k.tx_id ∷ []))
unfolding by_sender_bytes
by_sender_bytes_parts k z =
    one_prefix (address_bytes k.sender) k.block_time
      (pack (k.block_hash ∷ address_bytes k.receiver ∷ (k.version ∷ []) ∷ k.tx_id ∷ [])) z

abbrev pub by_sender_keys : TimedKeys
by_sender_keys = record {
  Key = HandshakeKeyBySender;
  IsSized = IsBySender;
  bytes = by_sender_bytes;
  read = read_by_sender;
  width = 34;
  prefix = λ k. address_bytes k.sender;
  time = λ k. of_be k.block_time;
  rest = λ k. pack (k.block_hash ∷ address_bytes k.receiver ∷ (k.version ∷ []) ∷ k.tx_id ∷ []);
  tx_id = λ k. k.tx_id;
  read-bytes = λ k z. read_by_sender-bytes k z.0;
  time_small = λ k z. z.1.0;
  prefix_width = λ k z. z.0.0;
  rest_long = λ k z.
      long_rest (k.block_hash) (address_bytes k.receiver ∷ (k.version ∷ []) ∷ k.tx_id ∷ [])
        z.0.1.1.0;
  bytes_parts = λ k z. by_sender_bytes_parts k z.1;
}

abbrev pub IsByReceiver : HandshakeKeyByReceiver → Type 0
IsByReceiver k = HasSizes by_receiver_sizes (by_receiver_fields k) × IsTime k.block_time

pub by_receiver_bytes_parts :
    (k : HandshakeKeyByReceiver)
    → IsTime k.block_time
    → by_receiver_bytes k
      ≡ (address_bytes k.receiver)
        ++ (to_be 8 (of_be k.block_time) ++ pack (k.block_hash ∷ (k.version ∷ []) ∷ k.tx_id ∷ []))
unfolding by_receiver_bytes
by_receiver_bytes_parts k z =
    one_prefix (address_bytes k.receiver) k.block_time
      (pack (k.block_hash ∷ (k.version ∷ []) ∷ k.tx_id ∷ [])) z

abbrev pub by_receiver_keys : TimedKeys
by_receiver_keys = record {
  Key = HandshakeKeyByReceiver;
  IsSized = IsByReceiver;
  bytes = by_receiver_bytes;
  read = read_by_receiver;
  width = 34;
  prefix = λ k. address_bytes k.receiver;
  time = λ k. of_be k.block_time;
  rest = λ k. pack (k.block_hash ∷ (k.version ∷ []) ∷ k.tx_id ∷ []);
  tx_id = λ k. k.tx_id;
  read-bytes = λ k z. read_by_receiver-bytes k z.0;
  time_small = λ k z. z.1.0;
  prefix_width = λ k z. z.0.0;
  rest_long = λ k z. long_rest (k.block_hash) ((k.version ∷ []) ∷ k.tx_id ∷ []) z.0.1.1.0;
  bytes_parts = λ k z. by_receiver_bytes_parts k z.1;
}

abbrev pub IsByOwner : SelfStashKeyByOwner → Type 0
IsByOwner k = HasSizes by_owner_sizes (by_owner_fields k) × IsTime k.block_time

pub by_owner_bytes_parts :
    (k : SelfStashKeyByOwner)
    → IsTime k.block_time
    → by_owner_bytes k
      ≡ (address_bytes k.owner ++ k.scope)
        ++ (to_be 8 (of_be k.block_time) ++ pack (k.block_hash ∷ (k.version ∷ []) ∷ k.tx_id ∷ []))
unfolding by_owner_bytes
by_owner_bytes_parts k z =
    two_prefixes (address_bytes k.owner) k.scope k.block_time
      (pack (k.block_hash ∷ (k.version ∷ []) ∷ k.tx_id ∷ [])) z

abbrev pub by_owner_keys : TimedKeys
by_owner_keys = record {
  Key = SelfStashKeyByOwner;
  IsSized = IsByOwner;
  bytes = by_owner_bytes;
  read = read_by_owner;
  width = 289;
  prefix = λ k. address_bytes k.owner ++ k.scope;
  time = λ k. of_be k.block_time;
  rest = λ k. pack (k.block_hash ∷ (k.version ∷ []) ∷ k.tx_id ∷ []);
  tx_id = λ k. k.tx_id;
  read-bytes = λ k z. read_by_owner-bytes k z.0;
  time_small = λ k z. z.1.0;
  prefix_width = λ k z. two_lengths (address_bytes k.owner) k.scope 34 255 z.0.0 z.0.1.0;
  rest_long = λ k z. long_rest (k.block_hash) ((k.version ∷ []) ∷ k.tx_id ∷ []) z.0.1.1.1.0;
  bytes_parts = λ k z. by_owner_bytes_parts k z.1;
}

abbrev pub IsByScope : SelfStashKeyByScope → Type 0
IsByScope k = HasSizes by_scope_sizes (by_scope_fields k) × IsTime k.block_time

pub by_scope_bytes_parts :
    (k : SelfStashKeyByScope)
    → IsTime k.block_time
    → by_scope_bytes k
      ≡ (k.scope)
        ++ (to_be 8 (of_be k.block_time)
            ++ pack (address_bytes k.owner ∷ k.block_hash ∷ (k.version ∷ []) ∷ k.tx_id ∷ []))
unfolding by_scope_bytes
by_scope_bytes_parts k z =
    one_prefix k.scope k.block_time
      (pack (address_bytes k.owner ∷ k.block_hash ∷ (k.version ∷ []) ∷ k.tx_id ∷ [])) z

abbrev pub by_scope_keys : TimedKeys
by_scope_keys = record {
  Key = SelfStashKeyByScope;
  IsSized = IsByScope;
  bytes = by_scope_bytes;
  read = read_by_scope;
  width = 255;
  prefix = λ k. k.scope;
  time = λ k. of_be k.block_time;
  rest = λ k. pack (address_bytes k.owner ∷ k.block_hash ∷ (k.version ∷ []) ∷ k.tx_id ∷ []);
  tx_id = λ k. k.tx_id;
  read-bytes = λ k z. read_by_scope-bytes k z.0;
  time_small = λ k z. z.1.0;
  prefix_width = λ k z. z.0.0;
  rest_long = λ k z.
      long_address (address_bytes k.owner) (k.block_hash ∷ (k.version ∷ []) ∷ k.tx_id ∷ [])
        z.0.1.1.0;
  bytes_parts = λ k z. by_scope_bytes_parts k z.1;
}
