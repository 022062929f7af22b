-- ===== src/Blocks/Operations/Late.antt =====
-- A message whose sender becomes known later. `handle_sender_address` works off the entries that a
-- handler returned; what is then stored is compared with what the handler stores where it knows
-- the sender.
pub mod Rest
pub mod Dispatch
use kasia_indexer.Prelude.{
  ℕ, ◌≡◌, refl, Bool, true, false, Option, none, some, List, [], ◌∷◌, length, unwrap_or, ◌==◌, ◌&&◌,
  ==-refl, arith, ◌∙◌, sym, ap,
}
use kasia_indexer.Prelude.Bytes.{Bytes, bytes_eq, bytes_eq_refl, length-to_be}
use kasia_indexer.Prelude.Outcome.{Outcome, ok, bind}
use kasia_indexer.Fjall.{Fjall, Partition, same_cell, partition_number}
use kasia_indexer.Protocol.{
  SealedMessageOrSealedHandshakeVNone, SealedHandshakeV2, SealedContextualMessageV1,
  SealedPaymentV1, SealedSelfStashV1,
}
use kasia_indexer.Db.{AddressPayload, default_address, PartitionId}
use kasia_indexer.Db.Layout.{HasSizes}
use kasia_indexer.Db.Keys.{
  HandshakeKeyBySender, HandshakeKeyByReceiver, by_sender_sizes, by_receiver_sizes,
  by_sender_fields, by_receiver_fields, by_sender_bytes, by_receiver_bytes,
}
use kasia_indexer.Db.Acceptance.{InsertionEntry}
use kasia_indexer.Db.Acceptance.Entries.{each_entry}
use kasia_indexer.Db.Messages.{
  insert_handshake_by_sender, insert_handshake_by_receiver, insert_tx_id_to_handshake,
}
use kasia_indexer.Db.Messages.Merge.{
  merged, cell_bytes, FitsCell, merged-late, FitsCell-merged, AreAlike, put_sender,
  get_wtx-put_sender, closure-merge_sender, AreAlike-put_twice, AreAlike-insert, AreAlike-swap,
}
use kasia_indexer.VirtualChain.Sender.{resolve_callback}
use kasia_indexer.VirtualChain.Sender.Late.{
  resolve-handshake_by_receiver, resolve-handshake_by_sender,
}
use kasia_indexer.Blocks.{RpcHeader}
use kasia_indexer.Blocks.Operations.{
  receiver_key, sender_key, Handled, update_entry, insert_entry, handle_handshake,
  handle_handshake_v2,
}

-- hashes have 32 bytes and addresses 34
pub record IsSized (header : RpcHeader) (tx_id : Bytes) (receiver : AddressPayload) : Type 0 where
  pub hash_length : length header.hash ≡ 32
  pub tx_id_length : length tx_id ≡ 32
  pub receiver_length : length receiver.payload ≡ 33

pub receiver_key-HasSizes :
    (header : RpcHeader) (version : ℕ) (tx_id : Bytes) (receiver : AddressPayload)
    → IsSized header tx_id receiver
    → HasSizes by_receiver_sizes (by_receiver_fields (receiver_key header version tx_id receiver))
unfolding receiver_key
receiver_key-HasSizes header version tx_id receiver h = (
  omega (arith, h.receiver_length),
  (length-to_be 8 header.timestamp, (h.hash_length, (refl, (h.tx_id_length, tt)))),
)

pub sender_key-HasSizes :
    (header : RpcHeader) (version : ℕ) (tx_id : Bytes) (receiver : AddressPayload)
    → IsSized header tx_id receiver
    → HasSizes by_sender_sizes
        (by_sender_fields (sender_key default_address (receiver_key header version tx_id receiver)))
unfolding receiver_key sender_key
sender_key-HasSizes header version tx_id receiver h = (
  refl,
  (
    length-to_be 8 header.timestamp,
    (h.hash_length, (omega (arith, h.receiver_length), (refl, (h.tx_id_length, tt)))),
  ),
)

-- Cells of different partitions differ.
pub apart :
    (m n l : ℕ) (b c : Bool) → (m == n) ≡ false → ((m == l) && b) ≡ true → ((n == l) && c) ≡ false
apart m n l b c d h = ground arith

module _ (fj : Fjall) where
  -- The late way `m`, with the entries worked off for `sender`, stores the same as the early way.
  abbrev pub SameLate : AddressPayload → Outcome (Handled fj) → Outcome (Handled fj) → Type 0
  SameLate sender late early =
      (wl : fj.WriteTransaction) × (entries : List InsertionEntry) × (wr : fj.WriteTransaction)
      × (we : fj.WriteTransaction) × (late ≡ ok (wl, entries))
      × (each_entry (resolve_callback fj sender) entries wl ≡ ok wr)
      × (early ≡ ok (we, []))
      × AreAlike fj wr we

  pub get_wtx-put_same :
      (w : fj.WriteTransaction) (p : Partition) (k : Bytes) (a : AddressPayload)
      → fj.get_wtx (put_sender fj w p k a) p k ≡ cell_bytes (some a)
  get_wtx-put_same w p k a =
      get_wtx-put_sender fj w p k a p k ∙ rw (==-refl (partition_number p), bytes_eq_refl k)

  abbrev pub handshakes :
      HandshakeKeyByReceiver → fj.WriteTransaction → AddressPayload → fj.WriteTransaction
  handshakes k w a = put_sender fj w Partition.handshake_by_receiver (by_receiver_bytes k) a

  insert_by_receiver-ok :
      (w : fj.WriteTransaction) (k : HandshakeKeyByReceiver) (sender : Option AddressPayload)
      (o : Option AddressPayload)
      → FitsCell o
      → fj.get_wtx w Partition.handshake_by_receiver (by_receiver_bytes k) ≡ cell_bytes o
      → insert_handshake_by_receiver fj w k sender
        ≡ ok (handshakes k w (merged (unwrap_or sender default_address) o))
  unfolding insert_handshake_by_receiver
  insert_by_receiver-ok w k sender o h c =
      closure-merge_sender fj w Partition.handshake_by_receiver (by_receiver_bytes k)
        (unwrap_or sender default_address) o h c

  behind_message :
      (w : fj.WriteTransaction) (tx_id hex k : Bytes)
      → fj.get_wtx (insert_tx_id_to_handshake fj w tx_id hex) Partition.handshake_by_receiver k
        ≡ fj.get_wtx w Partition.handshake_by_receiver k
  unfolding insert_tx_id_to_handshake
  behind_message w tx_id hex k =
      fj.get_wtx-insert_wtx w Partition.tx_id_to_handshake tx_id hex Partition.handshake_by_receiver
        k

  -- the second merge, with the sender
  merge_again :
      (w : fj.WriteTransaction) (k : HandshakeKeyByReceiver) (sender : AddressPayload)
      (o : Option AddressPayload)
      → FitsCell o
      → insert_handshake_by_receiver fj (handshakes k w (merged default_address o)) k (some sender)
        ≡ ok (handshakes k (handshakes k w (merged default_address o)) (merged sender o))
  merge_again w k sender o h =
      insert_by_receiver-ok (handshakes k w (merged default_address o)) k (some sender)
        (some (merged default_address o)) (FitsCell-merged default_address o refl h)
        (get_wtx-put_same w Partition.handshake_by_receiver (by_receiver_bytes k)
          (merged default_address o))
      ∙ rw (merged-late sender o)

  pub handle_handshake-SameLate :
      (w : fj.WriteTransaction) (header : RpcHeader) (tx_id : Bytes)
      (op : SealedMessageOrSealedHandshakeVNone) (receiver sender : AddressPayload)
      (o : Option AddressPayload)
      → IsSized header tx_id receiver
      → FitsCell o
      → fj.get_wtx w Partition.handshake_by_receiver
          (by_receiver_bytes (receiver_key header 0 tx_id receiver))
        ≡ cell_bytes o
      → SameLate sender
          (handle_handshake fj w header tx_id op receiver none)
          (handle_handshake fj w header tx_id op receiver (some sender))
  unfolding handle_handshake receiver_key sender_key each_entry insert_handshake_by_sender
  handle_handshake-SameLate w header tx_id op receiver sender o h f c =
      let k = receiver_key header 0 tx_id receiver in
      let w0 = insert_tx_id_to_handshake fj w tx_id op.sealed_hex in
      let c0 : fj.get_wtx w0 Partition.handshake_by_receiver (by_receiver_bytes k) ≡ cell_bytes o =
        behind_message w tx_id op.sealed_hex (by_receiver_bytes k) ∙ c in
      let by_key = sender_key sender k in
      let wl = handshakes k w0 (merged default_address o) in
      let wm = handshakes k wl (merged sender o) in
      (
        wl,
        update_entry PartitionId.handshake_by_receiver (by_receiver_bytes k)
            ∷ insert_entry PartitionId.handshake_by_sender
                (by_sender_bytes (sender_key default_address k))
            ∷ [],
        insert_handshake_by_sender fj wm by_key,
        insert_handshake_by_sender fj (handshakes k w0 (merged sender o)) by_key,
        rw (insert_by_receiver-ok w0 k none o f c0),
        rw (
          resolve-handshake_by_receiver fj sender wl k
              (receiver_key-HasSizes header 0 tx_id receiver h),
          merge_again w0 k sender o f,
          resolve-handshake_by_sender fj sender wm (sender_key default_address k)
              (sender_key-HasSizes header 0 tx_id receiver h),
        ),
        rw (insert_by_receiver-ok w0 k (some sender) o f c0),
        AreAlike-insert fj wm (handshakes k w0 (merged sender o)) Partition.handshake_by_sender
            (by_sender_bytes by_key) []
            (AreAlike-put_twice fj w0 Partition.handshake_by_receiver (by_receiver_bytes k)
              (merged default_address o) (merged sender o)),
      )

  -- the second merge behind the key by sender
  merge_behind :
      (w : fj.WriteTransaction) (k : HandshakeKeyByReceiver) (s : HandshakeKeyBySender)
      (sender : AddressPayload) (o : Option AddressPayload)
      → FitsCell o
      → fj.get_wtx w Partition.handshake_by_receiver (by_receiver_bytes k)
        ≡ cell_bytes (some (merged default_address o))
      → insert_handshake_by_receiver fj (insert_handshake_by_sender fj w s) k (some sender)
        ≡ ok (handshakes k (insert_handshake_by_sender fj w s) (merged sender o))
  unfolding insert_handshake_by_sender
  merge_behind w k s sender o h c =
      insert_by_receiver-ok (insert_handshake_by_sender fj w s) k (some sender)
        (some (merged default_address o)) (FitsCell-merged default_address o refl h)
        (fj.get_wtx-insert_wtx w Partition.handshake_by_sender (by_sender_bytes s) []
            Partition.handshake_by_receiver (by_receiver_bytes k)
          ∙ c)
      ∙ rw (merged-late sender o)

  pub handle_handshake_v2-SameLate :
      (w : fj.WriteTransaction) (header : RpcHeader) (tx_id : Bytes) (op : SealedHandshakeV2)
      (receiver sender : AddressPayload) (o : Option AddressPayload)
      → IsSized header tx_id receiver
      → FitsCell o
      → fj.get_wtx w Partition.handshake_by_receiver
          (by_receiver_bytes (receiver_key header 2 tx_id receiver))
        ≡ cell_bytes o
      → SameLate sender
          (handle_handshake_v2 fj w header tx_id op receiver none)
          (handle_handshake_v2 fj w header tx_id op receiver (some sender))
  unfolding handle_handshake_v2 receiver_key sender_key each_entry insert_handshake_by_sender
  handle_handshake_v2-SameLate w header tx_id op receiver sender o h f c =
      let k = receiver_key header 2 tx_id receiver in
      let w0 = insert_tx_id_to_handshake fj w tx_id op.sealed_hex in
      let c0 : fj.get_wtx w0 Partition.handshake_by_receiver (by_receiver_bytes k) ≡ cell_bytes o =
        behind_message w tx_id op.sealed_hex (by_receiver_bytes k) ∙ c in
      let by_key = sender_key sender k in
      let wl = handshakes k w0 (merged default_address o) in
      let ws = insert_handshake_by_sender fj wl by_key in
      (
        wl,
        insert_entry PartitionId.handshake_by_sender
              (by_sender_bytes (sender_key default_address k))
            ∷ update_entry PartitionId.handshake_by_receiver (by_receiver_bytes k)
            ∷ [],
        handshakes k ws (merged sender o),
        insert_handshake_by_sender fj (handshakes k w0 (merged sender o)) by_key,
        rw (insert_by_receiver-ok w0 k none o f c0),
        rw (
          resolve-handshake_by_sender fj sender wl (sender_key default_address k)
              (sender_key-HasSizes header 2 tx_id receiver h),
          resolve-handshake_by_receiver fj sender ws k
              (receiver_key-HasSizes header 2 tx_id receiver h),
          merge_behind wl k by_key sender o f (
              get_wtx-put_same w0 Partition.handshake_by_receiver (by_receiver_bytes k)
                (merged default_address o)),
        ),
        rw (insert_by_receiver-ok w0 k (some sender) o f c0),
        AreAlike-swap fj w0 Partition.handshake_by_sender (by_sender_bytes by_key) []
            Partition.handshake_by_receiver (by_receiver_bytes k) (merged default_address o)
            (merged sender o)
            (λ q j.
              apart 5 4 (partition_number q) (bytes_eq (by_sender_bytes by_key) j)
                (bytes_eq (by_receiver_bytes k) j) refl),
      )
