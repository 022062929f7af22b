-- ===== src/VirtualChain/Chain/Untouched.antt =====
-- The cells that a change of the virtual chain leaves alone: the messages, the headers, the gaps
-- and the block cursor.
use kasia_indexer.Prelude.{
  ◌≡◌, refl, false, Option, List, [], ◌∷◌, last?, All, Bool-cases, inl, inr, ◌∙◌,
}
use kasia_indexer.Prelude.Bytes.{Bytes}
use kasia_indexer.Prelude.Outcome.{
  ok, Ensures, ok-Ensures, Ensures-apply, bind-Ensures, bind-Ensures_any, of_option, panic,
}
use kasia_indexer.Fjall.{Fjall, Partition, same_cell}
use kasia_indexer.Fjall.Closure.{fetch_update_closure}
use kasia_indexer.RingMap.{RingMap}
use kasia_indexer.Db.Metadata
use kasia_indexer.Db.Metadata.{advance, set_latest_accepting_block_cursor}
use kasia_indexer.VirtualChain.{VirtualChainChange, Command, ChainBlock}
use kasia_indexer.VirtualChain.Chain.{Attempt, processed, attempt_vcc, handle_vcc}
use kasia_indexer.VirtualChain.Chain.Frame.{IsOutside, closure-Same}
use kasia_indexer.VirtualChain.Chain.Advance.{cursor_key, removals-Same, additions-Same, KeepsCell}

module _ (fj : Fjall) (rm : RingMap) (q : Partition) (j : Bytes) (out : IsOutside q)
    (no_cursor : same_cell Partition.metadata (cursor_key fj rm) q j ≡ false) where
  set_cursor-Keeps :
      (w : fj.WriteTransaction) (c : Metadata.Cursor)
      → Ensures
          (λ (w' : fj.WriteTransaction). fj.get_wtx w' q j ≡ fj.get_wtx w q j)
          (set_latest_accepting_block_cursor fj w c)
  unfolding set_latest_accepting_block_cursor
  set_cursor-Keeps w c =
      let put = fetch_update_closure fj w Partition.metadata (cursor_key fj rm) (advance c) in
      bind-Ensures _
        (λ (x : fj.WriteTransaction × Option Bytes). fj.get_wtx x.0 q j ≡ fj.get_wtx w q j) put
        (λ x. ok x.0)
        (closure-Same fj rm q j out w Partition.metadata (cursor_key fj rm) (advance c) no_cursor)
        λ x e. ok-Ensures _ _ e

  attempt_vcc-Keeps :
      (s : fj.Keyspace) (m : rm.Map) (vcc : VirtualChainChange) (sent : List Command)
      → Ensures
          (λ (x : ChainBlock × Attempt fj rm). fj.get_wtx x.1.wtx q j ≡ fj.get s q j)
          (attempt_vcc fj rm s m vcc sent)
  unfolding attempt_vcc
  attempt_vcc-Keeps s m vcc sent =
      bind-Ensures _ _ _ _ (removals-Same fj rm q j out s m vcc sent) λ removed r.
        bind-Ensures _ _ _ _ (additions-Same fj rm q j out s m vcc removed r) λ added a.
          bind-Ensures_any _
            (of_option (panic "called `Option::unwrap()` on a `None` value")
              (last? vcc.added_chain_block_hashes))
            _
            λ last.
              bind-Ensures_any _ (processed fj rm m last) _ λ x.
                bind-Ensures _ _ _ _ (set_cursor-Keeps added.wtx _) λ w e. ok-Ensures _ _ (e ∙ a)

  abbrev Holds : Option Bytes → ChainBlock × fj.Keyspace × List Command → Type 0
  Holds c x = fj.get x.1 q j ≡ c

  handle_vcc-Holds :
      (c : Option Bytes) (conflicts : List (fj.Keyspace → fj.Keyspace)) (s : fj.Keyspace)
      (m : rm.Map) (vcc : VirtualChainChange) (sent : List Command)
      → fj.get s q j ≡ c
      → All (KeepsCell fj rm q j) conflicts
      → Ensures (Holds c) (handle_vcc fj rm conflicts s m vcc sent)
  unfolding handle_vcc
  handle_vcc-Holds c [] s m vcc sent g keeps =
      bind-Ensures _ _ _ _ (attempt_vcc-Keeps s m vcc sent) λ x e. ok-Ensures _ _ (
        fj.get-commit x.1.wtx s q j
        ∙ elim (Bool-cases (fj.has_written x.1.wtx q j)) [ inl w ↦ rw w (e ∙ g) | inr n ↦ rw n g ])
  handle_vcc-Holds c (others ∷ conflicts) s m vcc sent g keeps =
      bind-Ensures_any _ (attempt_vcc fj rm s m vcc sent) _
        λ x. handle_vcc-Holds c conflicts (others s) m vcc x.1.sent (keeps.0 s ∙ g) keeps.1

  -- A key that is outside of the three acceptance partitions and is not that of the accepting-
  -- block cursor, and that no other actor writes meanwhile, holds the same before and after a
  -- change of the virtual chain that is applied.
  pub handle_vcc-untouched :
      (conflicts : List (fj.Keyspace → fj.Keyspace)) (s : fj.Keyspace) (m : rm.Map)
      (vcc : VirtualChainChange) (sent : List Command) (last : ChainBlock) (s' : fj.Keyspace)
      (sent' : List Command)
      → All (KeepsCell fj rm q j) conflicts
      → handle_vcc fj rm conflicts s m vcc sent ≡ ok (last, s', sent')
      → fj.get s' q j ≡ fj.get s q j
  handle_vcc-untouched conflicts s m vcc sent last s' sent' keeps r =
      Ensures-apply (Holds (fj.get s q j)) (handle_vcc fj rm conflicts s m vcc sent)
        (last, s', sent') (handle_vcc-Holds (fj.get s q j) conflicts s m vcc sent refl keeps) r
