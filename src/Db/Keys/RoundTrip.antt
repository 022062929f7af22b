-- ===== src/Db/Keys/RoundTrip.antt =====
-- A key that was stored is read back as it was.
use kasia_indexer.Prelude.{◌≡◌, some, ap}
use kasia_indexer.Db.Layout.{HasSizes, unpack-pack}
use kasia_indexer.Db.Keys.{
  HandshakeKeyBySender, HandshakeKeyByReceiver, ContextualMessageBySenderKey, SelfStashKeyByOwner,
  SelfStashKeyByScope, by_sender_sizes, by_receiver_sizes, contextual_sizes, by_owner_sizes,
  by_scope_sizes, by_sender_fields, by_receiver_fields, contextual_fields, by_owner_fields,
  by_scope_fields, by_sender_bytes, by_receiver_bytes, contextual_bytes, by_owner_bytes,
  by_scope_bytes, by_sender_of, by_receiver_of, contextual_of, by_owner_of, by_scope_of,
  read_by_sender, read_by_receiver, read_contextual, read_by_owner, read_by_scope,
}

pub read_by_sender-bytes :
    (k : HandshakeKeyBySender)
    → HasSizes by_sender_sizes (by_sender_fields k)
    → read_by_sender (by_sender_bytes k) ≡ some k
unfolding read_by_sender by_sender_bytes
read_by_sender-bytes k h = ap by_sender_of (unpack-pack by_sender_sizes (by_sender_fields k) h)

pub read_by_receiver-bytes :
    (k : HandshakeKeyByReceiver)
    → HasSizes by_receiver_sizes (by_receiver_fields k)
    → read_by_receiver (by_receiver_bytes k) ≡ some k
unfolding read_by_receiver by_receiver_bytes
read_by_receiver-bytes k h =
    ap by_receiver_of (unpack-pack by_receiver_sizes (by_receiver_fields k) h)

-- A key of a contextual message whose fields have their sizes is read back from its bytes as it
-- was.
pub read_contextual-bytes :
    (k : ContextualMessageBySenderKey)
    → HasSizes contextual_sizes (contextual_fields k)
    → read_contextual (contextual_bytes k) ≡ some k
unfolding read_contextual contextual_bytes
read_contextual-bytes k h = ap contextual_of (unpack-pack contextual_sizes (contextual_fields k) h)

pub read_by_owner-bytes :
    (k : SelfStashKeyByOwner)
    → HasSizes by_owner_sizes (by_owner_fields k)
    → read_by_owner (by_owner_bytes k) ≡ some k
unfolding read_by_owner by_owner_bytes
read_by_owner-bytes k h = ap by_owner_of (unpack-pack by_owner_sizes (by_owner_fields k) h)

pub read_by_scope-bytes :
    (k : SelfStashKeyByScope)
    → HasSizes by_scope_sizes (by_scope_fields k)
    → read_by_scope (by_scope_bytes k) ≡ some k
unfolding read_by_scope by_scope_bytes
read_by_scope-bytes k h = ap by_scope_of (unpack-pack by_scope_sizes (by_scope_fields k) h)
