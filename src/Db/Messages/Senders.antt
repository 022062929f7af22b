-- ===== src/Db/Messages/Senders.antt =====
-- A sender that is stored stays: the first known sender of a handshake is kept.
use kasia_indexer.Prelude.{◌≡◌, false, some, length, ◌∙◌}
use kasia_indexer.Prelude.Bytes.{Bytes, bytes_eq_refl}
use kasia_indexer.Prelude.Outcome.{ok}
use kasia_indexer.Fjall.{Fjall, Partition, same_cell}
use kasia_indexer.Db.{AddressPayload, address_bytes, address_eq, default_address}
use kasia_indexer.Db.Keys.{HandshakeKeyByReceiver, by_receiver_bytes}
use kasia_indexer.Db.Messages.{insert_handshake_by_receiver}
use kasia_indexer.Db.Messages.Merge.{merged, put_sender, get_wtx-put_sender, closure-merge_sender}

merged_known :
    (sender old : AddressPayload)
    → address_eq old default_address ≡ false
    → merged sender (some old) ≡ old
unfolding merged
merged_known sender old n = rw n

module _ (fj : Fjall) where
  -- Let the by-receiver key of a handshake hold a sender of 34 bytes that is not the default
  -- address. The write of another sender succeeds, the key still holds the old one, and every
  -- other key reads as before.
  pub insert_handshake_by_receiver-known :
      (w : fj.WriteTransaction) (key : HandshakeKeyByReceiver) (sender old : AddressPayload)
      → length old.payload ≡ 33
      → address_eq old default_address ≡ false
      → fj.get_wtx w Partition.handshake_by_receiver (by_receiver_bytes key)
        ≡ some (address_bytes old)
      → (w' : fj.WriteTransaction) × (insert_handshake_by_receiver fj w key (some sender) ≡ ok w')
        × (fj.get_wtx w' Partition.handshake_by_receiver (by_receiver_bytes key)
            ≡ some (address_bytes old))
        × ((q : Partition) (j : Bytes)
            → same_cell Partition.handshake_by_receiver (by_receiver_bytes key) q j ≡ false
            → fj.get_wtx w' q j ≡ fj.get_wtx w q j)
  unfolding insert_handshake_by_receiver
  insert_handshake_by_receiver-known w key sender old size known held =
      let p = Partition.handshake_by_receiver in
      let kb = by_receiver_bytes key in
      (
        put_sender fj w p kb old,
        closure-merge_sender fj w p kb sender (some old) size held
            ∙ rw (merged_known sender old known),
        get_wtx-put_sender fj w p kb old p kb ∙ rw (bytes_eq_refl kb),
        λ q j d. get_wtx-put_sender fj w p kb old q j ∙ rw d,
      )
