-- ===== src/VirtualChain/Changes/Drain.antt =====
-- The queue of the changes that wait for their blocks, after a block has been processed.
use kasia_indexer.Prelude.{
  ℕ, ◌≡◌, ◌⊎◌, refl, true, false, List, [], ◌∷◌, ◌++◌, All, Bool-cases, inl, inr, ap, sym, subst,
}
use kasia_indexer.Prelude.Outcome.{Outcome, ok, bind, bind-eq_ok, ok-injective}
use kasia_indexer.Fjall.{Fjall}
use kasia_indexer.RingMap.{RingMap}
use kasia_indexer.VirtualChain.{
  CompactHeader, VirtualChainChange, Command, ChainBlock, Synced, synced, Actor,
}
use kasia_indexer.VirtualChain.Chain.{handle_vcc}
use kasia_indexer.VirtualChain.Sync.{
  changes_nothing, any_unprocessed, blocks, queue, set_blocks, set_queue, set_sync_state,
  next_conflicts, later_conflicts,
}
use kasia_indexer.VirtualChain.Changes.{
  commit_vcc, drain, evict, insert_block, processed_block_in, handle_processed_block,
}

module _ (fj : Fjall) (rm : RingMap) where
  -- a change that the queue does not have to keep
  abbrev pub IsReady : rm.Map → VirtualChainChange → Type 0
  IsReady m vcc =
      (changes_nothing vcc ≡ true) ⊎ (any_unprocessed fj rm m vcc.added_chain_block_hashes ≡ false)

  -- an empty queue, or one whose first change adds a block that is not processed
  abbrev pub IsBlocked : rm.Map → List VirtualChainChange → Type 0
  IsBlocked m [] = Unit
  IsBlocked m (vcc ∷ more) =
      (changes_nothing vcc ≡ false) × (any_unprocessed fj rm m vcc.added_chain_block_hashes ≡ true)

  -- The changes in order, each but the empty ones with `handle_vcc` on the store that those before
  -- it have left, under the conflicts of its turn. With the last accepting block, and with the
  -- commands that are sent.
  abbrev pub apply_changes :
      rm.Map
      → List VirtualChainChange
      → List (List (fj.Keyspace → fj.Keyspace))
      → ChainBlock × fj.Keyspace × List Command
      → Outcome (ChainBlock × fj.Keyspace × List Command)
  apply_changes m [] schedule a = ok a
  apply_changes m (vcc ∷ more) schedule (last, s, sent) = elim (changes_nothing vcc) [
    | true ↦ apply_changes m more schedule (last, s, sent)
    | false ↦
        bind (handle_vcc fj rm (next_conflicts schedule) s m vcc sent)
          (apply_changes m more (later_conflicts schedule))
  ]

  -- The changes of `q` up to the first that is not ready are gone, and have been applied; the
  -- others wait in order.
  pub record Drained (q : List VirtualChainChange) (m : rm.Map) (s : Synced) (v v' : Actor fj rm)
      : Type 0 where
    pub applied : List VirtualChainChange
    pub split : q ≡ applied ++ queue fj rm v'
    pub ready : All (IsReady m) applied
    pub blocked : IsBlocked m (queue fj rm v')
    pub last : ChainBlock
    pub effects :
        apply_changes m applied v.schedule (s.last_accepting_block, v.keyspace, v.sent)
        ≡ ok (last, v'.keyspace, v'.sent)
    pub same_blocks : blocks fj rm v' ≡ m
    pub in_sync : v'.state.sync_state ≡ synced (record s { last_accepting_block = last })

  commit_vcc-blocks :
      (vcc : VirtualChainChange) (v : Actor fj rm) (last : ChainBlock) (v' : Actor fj rm)
      → commit_vcc fj rm vcc v ≡ ok (last, v')
      → blocks fj rm v' ≡ blocks fj rm v
  unfolding commit_vcc
  commit_vcc-blocks vcc v last v' h =
      let ((l, s, sent), first, rest) =
        bind-eq_ok
          (handle_vcc fj rm (next_conflicts v.schedule) v.keyspace (blocks fj rm v) vcc v.sent) _
          h in
      cc

  skip_one :
      (vcc : VirtualChainChange) (q : List VirtualChainChange) (m : rm.Map) (s : Synced)
      (v v' : Actor fj rm)
      → changes_nothing vcc ≡ true
      → Drained q m s v v'
      → Drained (vcc ∷ q) m s v v'
  skip_one vcc q m s v v' e d = record {
    applied = vcc ∷ d.applied;
    split = ap (λ t. vcc ∷ t) d.split;
    ready = (inl e, d.ready);
    blocked = d.blocked;
    last = d.last;
    effects = rw (e, apply_changes) d.effects;
    same_blocks = d.same_blocks;
    in_sync = d.in_sync;
  }

  apply_one :
      (vcc : VirtualChainChange) (q : List VirtualChainChange) (s : Synced) (v w v' : Actor fj rm)
      (last : ChainBlock)
      → changes_nothing vcc ≡ false
      → any_unprocessed fj rm (blocks fj rm v) vcc.added_chain_block_hashes ≡ false
      → commit_vcc fj rm vcc v ≡ ok (last, w)
      → Drained q (blocks fj rm v) (record s { last_accepting_block = last }) w v'
      → Drained (vcc ∷ q) (blocks fj rm v) s v v'
  unfolding commit_vcc
  apply_one vcc q s v w v' last n r c d =
      let ((l, k, sent), first, rest) =
        bind-eq_ok
          (handle_vcc fj rm (next_conflicts v.schedule) v.keyspace (blocks fj rm v) vcc v.sent) _
          c in
      record {
        applied = vcc ∷ d.applied;
        split = ap (λ t. vcc ∷ t) d.split;
        ready = (inr r, d.ready);
        blocked = d.blocked;
        last = d.last;
        effects =
            rw (n, apply_changes)
              (rw first (
                subst
                  (λ (x : ChainBlock × Actor fj rm).
                    apply_changes (blocks fj rm v) d.applied x.1.schedule
                      (x.0, x.1.keyspace, x.1.sent)
                    ≡ ok (d.last, v'.keyspace, v'.sent))
                  (sym (ok-injective _ (last, w) rest)) d.effects));
        same_blocks = d.same_blocks;
        in_sync = d.in_sync;
      }

  -- The queue is what is left, and the state is synced.
  abbrev stopped : List VirtualChainChange → Synced → Actor fj rm → Actor fj rm
  stopped q s v = set_sync_state fj rm (synced s) (set_queue fj rm q v)

  stopped-Drained :
      (q : List VirtualChainChange) (s : Synced) (v v' : Actor fj rm)
      → IsBlocked (blocks fj rm v) q
      → ok (stopped q s v) ≡ ok v'
      → Drained q (blocks fj rm v) s v v'
  stopped-Drained q s v v' b h =
      subst (Drained q (blocks fj rm v) s v) (ok-injective (stopped q s v) v' h) (record {
        applied = [];
        split = refl;
        ready = tt;
        blocked = b;
        last = s.last_accepting_block;
        effects = refl;
        same_blocks = refl;
        in_sync = refl;
      })

  pub drain-Drained :
      (q : List VirtualChainChange) (s : Synced) (v v' : Actor fj rm)
      → drain fj rm q s v ≡ ok v'
      → Drained q (blocks fj rm v) s v v'
  unfolding drain
  drain-Drained [] s v v' h = stopped-Drained [] s v v' tt h
  drain-Drained (vcc ∷ more) s v v' h = elim (Bool-cases (changes_nothing vcc)) [
    | inl e ↦
        skip_one vcc more (blocks fj rm v) s v v' e (drain-Drained more s v v' (rw (e, drain) at h))
    | inr n ↦
        elim (Bool-cases (any_unprocessed fj rm (blocks fj rm v) vcc.added_chain_block_hashes)) [
          | inl u ↦ stopped-Drained (vcc ∷ more) s v v' (n, u) (rw (n, u, drain) at h)
          | inr r ↦
              let ((last, w), first, rest) =
                bind-eq_ok (commit_vcc fj rm vcc v)
                  (λ (l, x). drain fj rm more (record s { last_accepting_block = l }) x)
                  (rw (n, r, drain) at h) in
              let t = record s { last_accepting_block = last } in
              apply_one vcc more s v w v' last n r first (
                subst (λ m. Drained more m t w v') (commit_vcc-blocks vcc v last w first)
                  (drain-Drained more t w v' rest))
        ]
  ]

  -- After a block that is handled with success in the synced state, the queue is a tail of the old
  -- queue; every change before that tail was empty or had all its added blocks processed; the tail
  -- is empty or begins with a change that adds a block which is not processed. The store, the
  -- commands that are sent and the last accepting block are those after the changes before the
  -- tail have been applied one after the other, in order and without the empty ones, whatever
  -- conflicts there were. The processed blocks are the old ones within the capacity and the new
  -- block, and the state is still synced.
  pub handle_processed_block-Drained :
      (synced_capacity : ℕ) (h : CompactHeader) (s : Synced) (v v' : Actor fj rm)
      → v.state.sync_state ≡ synced s
      → handle_processed_block fj rm synced_capacity h v ≡ ok v'
      → Drained
          (queue fj rm v)
          (insert_block fj rm h (evict fj rm synced_capacity (blocks fj rm v)))
          s
          v
          v'
  unfolding handle_processed_block processed_block_in
  handle_processed_block-Drained synced_capacity h s v v' e r =
      let d =
        drain-Drained (queue fj rm v) s
          (set_blocks fj rm (insert_block fj rm h (evict fj rm synced_capacity (blocks fj rm v))) v)
          v' (subst (λ x. processed_block_in fj rm synced_capacity x h v ≡ ok v') e r) in
      record {
        applied = d.applied;
        split = d.split;
        ready = d.ready;
        blocked = d.blocked;
        last = d.last;
        effects = d.effects;
        same_blocks = d.same_blocks;
        in_sync = d.in_sync;
      }
