-- ===== src/Db/Messages/Payments.antt =====
-- A payment as it is stored under the id of its transaction: the amount, then the message.
use kasia_indexer.Prelude.{
  ℕ, zero, suc, ◌*◌, ◌/◌, ◌^◌, ◌<◌, ◌≡◌, true, some, ◌++◌, length, leb, arith, length-append, ap,
}
use kasia_indexer.Prelude.Bytes.{Bytes, bytes_eq_refl, to_le, of_le, length-to_le}
use kasia_indexer.Prelude.Outcome.{ok}
use kasia_indexer.Fjall.{Fjall, Partition}
use kasia_indexer.Db.Messages.{insert_tx_id_to_payment, get_payment}
use native.Mathlib.Nat.{pow-succ'}

below : (p n : ℕ) → n < 256 * p → n / 256 < p
below p n h = omega arith

pub of_le-to_le : (w n : ℕ) → n < 256 ^ w → of_le (to_le w n) ≡ n
of_le-to_le zero n h = omega arith
of_le-to_le (suc w) n h =
    let rest = of_le-to_le w (n / 256) (below (256 ^ w) n (rw (pow-succ' 256 w) at h)) in
    omega (arith, rest)

module _ (fj : Fjall) where
  stored_payment :
      (w : fj.WriteTransaction) (s : fj.Keyspace) (tx_id : Bytes) (amount : ℕ) (hex : Bytes)
      → fj.get
          (fj.commit (insert_tx_id_to_payment fj w tx_id amount hex) s)
          Partition.tx_id_to_payment
          tx_id
        ≡ some (to_le 8 amount ++ hex)
  unfolding insert_tx_id_to_payment
  stored_payment w s tx_id amount hex =
      let p = Partition.tx_id_to_payment in
      let v = to_le 8 amount ++ hex in
      rw (
        fj.get-commit (fj.insert_wtx w p tx_id v) s p tx_id,
        fj.has_written-insert_wtx w p tx_id v p tx_id,
        fj.get_wtx-insert_wtx w p tx_id v p tx_id,
        bytes_eq_refl tx_id,
      )

  long_enough : (amount : ℕ) (hex : Bytes) → leb 8 (length (to_le 8 amount ++ hex)) ≡ true
  long_enough amount hex = ground (arith, length-append (to_le 8 amount) hex, length-to_le 8 amount)

  -- A payment with an amount of 64 bits, written in a transaction that is committed, is read back
  -- with the same amount and message.
  pub get_payment-insert_tx_id_to_payment :
      (w : fj.WriteTransaction) (s : fj.Keyspace) (tx_id : Bytes) (amount : ℕ) (hex : Bytes)
      → amount < 256 ^ 8
      → get_payment fj (fj.commit (insert_tx_id_to_payment fj w tx_id amount hex) s) tx_id
        ≡ ok (some (amount, hex))
  unfolding get_payment
  get_payment-insert_tx_id_to_payment w s tx_id amount hex h =
      rw (stored_payment w s tx_id amount hex, long_enough amount hex, get_payment)
        (ap (λ (a : ℕ). ok (some (a, hex))) (of_le-to_le 8 amount h))
