-- ===== src/Blocks/Process/Shutdown.antt =====
-- When the loop of the block processor returns.
use kasia_indexer.Prelude.{
  ◌≡◌, ◌<◌, arith, if◌then◌else◌, ◌∙◌, ◌⊎◌, refl, sym, ap, subst, Bool, true, false, ◌||◌, Option,
  none, some, List, [], ◌∷◌, ◌++◌, Bool-cases, inl, inr,
}
use kasia_indexer.Prelude.Bytes.{Bytes}
use kasia_indexer.Prelude.Outcome.{
  Outcome, ok, bind, for_each, bind-eq_ok, ok-injective, Ensures, ok-Ensures, bind-Ensures,
  bind-Ensures_any, Ensures-apply, for_each-Ensures,
}
use kasia_indexer.Fjall.{Fjall}
use kasia_indexer.Db.{Kaspa}
use kasia_indexer.VirtualChain.{CompactHeader}
use kasia_indexer.Blocks.{RpcBlock, PushDispatchEvent}
use kasia_indexer.Blocks.Process.{
  Worker, compact, announce, dispatch_push_events, take_block, handle_notification, gap_block,
  last_gap_block, finish_gap, filler_ended, reconnect, connect, interrupt_fillers, step,
  NotificationOrGapResult, from_node, from_filler, connected, disconnected, shutdown, notification,
  update, finished, interrupted, failed, is_done, process,
}

module _ (fj : Fjall) (k : Kaspa) (push_channel : Bool) where
  -- the flag of a state is `b`
  abbrev Flag : Bool → Worker fj → Type 0
  Flag b l = l.is_shutdown ≡ b

  if-Flag : (c b : Bool) (l l' : Worker fj) → Flag b l → Flag b l' → Flag b (if c then l else l')
  if-Flag true b l l' f g = f
  if-Flag false b l l' f g = g

  announce-Flag :
      (b : Bool) (h : CompactHeader) (l : Worker fj) → Flag b l → Flag b (announce fj h l)
  announce-Flag b h l f = if-Flag l.is_shutdown b l _ f f

  dispatch-Flag :
      (b channel : Bool) (events : List PushDispatchEvent) (l : Worker fj)
      → Flag b l
      → Flag b (dispatch_push_events fj channel events l)
  dispatch-Flag b true events l f = f
  dispatch-Flag b false events l f = f

  take_block-Flag :
      (b collect : Bool) (finish : fj.WriteTransaction → fj.WriteTransaction) (l : Worker fj)
      (block : RpcBlock k)
      → Flag b l
      → Ensures (λ x. Flag b x.1) (take_block fj k push_channel collect finish l block)
  unfolding take_block
  take_block-Flag b collect finish l block f =
      bind-Ensures_any _ _ _ λ h. ok-Ensures _ _ (announce-Flag b (compact block.header) _ f)

  gap_block-Flag :
      (b : Bool) (to : Bytes) (l : Worker fj) (block : RpcBlock k)
      → Flag b l
      → Ensures (Flag b) (gap_block fj k push_channel to l block)
  unfolding gap_block
  gap_block-Flag b to l block f =
      bind-Ensures _ _ _ _ (take_block-Flag b false _ l block f) λ x g. ok-Ensures _ _ g

  finish_gap-Flag :
      (b : Bool) (to : Bytes) (blocks : List (RpcBlock k)) (l : Worker fj)
      → Flag b l
      → Ensures (Flag b) (finish_gap fj k push_channel to blocks l)
  unfolding finish_gap last_gap_block
  finish_gap-Flag b to [] l f = ok-Ensures _ _ f
  finish_gap-Flag b to (block ∷ []) l f =
      bind-Ensures _ _ _ _ (take_block-Flag b false _ l block f) λ x g. ok-Ensures _ _ g
  finish_gap-Flag b to (block ∷ next ∷ more) l f =
      bind-Ensures _ _ _ _ (gap_block-Flag b to l block f)
        λ u g. finish_gap-Flag b to (next ∷ more) u g

  reconnect-Flag :
      (b : Bool) (sink : Bytes) (l : Worker fj) (last : Option Bytes)
      → Flag b l
      → Flag b (reconnect fj sink l last)
  unfolding reconnect
  reconnect-Flag b sink l none f = f
  reconnect-Flag b sink l (some last) f = f

  connect-Flag :
      (b : Bool) (sink pp : Bytes) (l : Worker fj)
      → Flag b l
      → Ensures (Flag b) (connect fj sink pp l)
  unfolding connect
  connect-Flag b sink pp l f = elim (Bool-cases l.has_first_connect) [
    | inl e ↦ rw (e, connect) (ok-Ensures _ _ (reconnect-Flag b sink l l.last_processed_block f))
    | inr n ↦ rw (n, connect) (bind-Ensures_any _ _ _ λ x. ok-Ensures _ _ f)
  ]

  abbrev pub is_shutdown_word : NotificationOrGapResult k → Bool
  is_shutdown_word (from_node shutdown) = true
  is_shutdown_word input = false

  abbrev pub has_shutdown : List (NotificationOrGapResult k) → Bool
  has_shutdown [] = false
  has_shutdown (input ∷ inputs) = is_shutdown_word input || has_shutdown inputs

  -- The flag is set by the word to shut down, and by nothing else.
  step-Flag :
      (input : NotificationOrGapResult k) (l : Worker fj)
      → Ensures (Flag (is_shutdown_word input || l.is_shutdown)) (step fj k push_channel input l)
  unfolding step interrupt_fillers filler_ended handle_notification
  step-Flag (from_node (connected sink pp)) l = connect-Flag l.is_shutdown sink pp l refl
  step-Flag (from_node disconnected) l = ok-Ensures _ _ refl
  step-Flag (from_node shutdown) l = ok-Ensures _ _ refl
  step-Flag (from_node (notification block)) l =
      bind-Ensures _ _ _ _ (take_block-Flag l.is_shutdown true _ l block refl)
        λ x g. ok-Ensures _ _ (dispatch-Flag l.is_shutdown push_channel x.0 _ g)
  step-Flag (from_filler (interrupted to)) l = ok-Ensures _ _ refl
  step-Flag (from_filler (failed to)) l = ok-Ensures _ _ refl
  step-Flag (from_filler (update to blocks)) l =
      for_each-Ensures _ _ blocks l refl λ u block f. gap_block-Flag l.is_shutdown to u block f
  step-Flag (from_filler (finished to blocks)) l =
      bind-Ensures _ _ _ _ (finish_gap-Flag l.is_shutdown to blocks l refl) λ u g. ok-Ensures _ _ g

  abbrev pub handle_input : Worker fj → NotificationOrGapResult k → Outcome (Worker fj)
  handle_input l input = step fj k push_channel input l

  -- The inputs that are handled, and the others. Where `told` says whether the word to shut down
  -- came before, the loop has returned exactly if it has come and the counter of the gap fillers is
  -- zero, and it handles all inputs otherwise.
  abbrev pub Halts : Bool → List (NotificationOrGapResult k) → Worker fj → Worker fj → Bool → Type 0
  Halts told inputs l l' returned =
      (handled : List (NotificationOrGapResult k)) × (rest : List (NotificationOrGapResult k))
      × (inputs ≡ handled ++ rest)
      × (for_each handle_input handled l ≡ ok l')
      × (((returned ≡ true)
            × ((told || has_shutdown handled) ≡ true)
            × (l'.gaps_filling_in_progress ≡ 0))
          ⊎ ((returned ≡ false)
              × (rest ≡ [])
              × ((handled ≡ [])
                  ⊎ (((told || has_shutdown handled) ≡ false)
                      ⊎ (0 < l'.gaps_filling_in_progress)))))

  or_swap : (a b c : Bool) → (a || (b || c)) ≡ ((b || a) || c)
  or_swap true true c = refl
  or_swap true false c = refl
  or_swap false true c = refl
  or_swap false false c = refl

  done :
      (u : Worker fj)
      → is_done fj k push_channel u ≡ true
      → (u.is_shutdown ≡ true) × (u.gaps_filling_in_progress ≡ 0)
  done u d = (ground (arith, d), ground (arith, d))

  not_done :
      (told : Bool) (u : Worker fj)
      → u.is_shutdown ≡ told
      → is_done fj k push_channel u ≡ false
      → (told ≡ false) ⊎ (0 < u.gaps_filling_in_progress)
  not_done false u f d = inl refl
  not_done true u f d = inr (ground (arith, f, d))

  step_first :
      (l : Worker fj) (input : NotificationOrGapResult k) (u : Worker fj)
      (handled : List (NotificationOrGapResult k))
      → step fj k push_channel input l ≡ ok u
      → for_each handle_input (input ∷ handled) l ≡ for_each handle_input handled u
  unfolding for_each
  step_first l input u handled e =
      ap (λ (m : Outcome (Worker fj)). bind m (for_each handle_input handled)) e

  one_step :
      (l : Worker fj) (input : NotificationOrGapResult k) (u : Worker fj)
      → step fj k push_channel input l ≡ ok u
      → for_each handle_input (input ∷ []) l ≡ ok u
  unfolding for_each
  one_step l input u e = step_first l input u [] e

  idle_end :
      (told word : Bool) (handled : List (NotificationOrGapResult k)) (u l' : Worker fj)
      → handled ≡ []
      → for_each handle_input handled u ≡ ok l'
      → ((word || told) ≡ false) ⊎ (0 < u.gaps_filling_in_progress)
      → ((told || (word || has_shutdown handled)) ≡ false) ⊎ (0 < l'.gaps_filling_in_progress)
  unfolding for_each
  idle_end told word [] u l' h run (inl n) = inl (or_swap told word false ∙ rw n refl)
  idle_end told word [] u l' h run (inr z) =
      inr (subst (λ (x : Worker fj). 0 < x.gaps_filling_in_progress) (ok-injective u l' run) z)
  idle_end told word (x ∷ handled) u l' h run o = cc

  process-Halts_from :
      (told : Bool) (inputs : List (NotificationOrGapResult k)) (l l' : Worker fj) (returned : Bool)
      → l.is_shutdown ≡ told
      → process fj k push_channel inputs l ≡ ok (l', returned)
      → Halts told inputs l l' returned
  unfolding process for_each
  process-Halts_from told [] l l' returned f e =
      let same = ok-injective (l, false) (l', returned) e in
      (
        [],
        [],
        refl,
        ap (λ (x : Worker fj × Bool). ok x.0) same,
        inr (sym (ap (λ (x : Worker fj × Bool). x.1) same), refl, inl refl),
      )
  process-Halts_from told (input ∷ inputs) l l' returned f e =
      let (u, first, rest) =
        bind-eq_ok (step fj k push_channel input l)
          (λ u. elim (is_done fj k push_channel u) [
            | true ↦ ok (u, true)
            | false ↦ process fj k push_channel inputs u
          ])
          e in
      let word = is_shutdown_word input in
      let flag : u.is_shutdown ≡ (word || told) =
        Ensures-apply _ (step fj k push_channel input l) u (step-Flag input l) first
        ∙ ap (λ b. word || b) f in
      elim (Bool-cases (is_done fj k push_channel u)) [
        | inl d ↦
            let same = ok-injective (u, true) (l', returned) (rw d at rest) in
            let end = ap (λ (x : Worker fj × Bool). x.0) same in
            let (shut, none_left) = done u d in
            (
              input ∷ [],
              inputs,
              refl,
              one_step l input u first ∙ ap ok end,
              inl (
                sym (ap (λ (x : Worker fj × Bool). x.1) same),
                or_swap told word false ∙ rw (sym flag, shut) refl,
                ap (λ (x : Worker fj). x.gaps_filling_in_progress) (sym end) ∙ none_left,
              ),
            )
        | inr d ↦
            let (handled, others, split, run, how) =
              process-Halts_from (word || told) inputs u l' returned flag (rw d at rest) in
            let turn = or_swap told word (has_shutdown handled) in
            (
              input ∷ handled,
              others,
              ap (λ t. input ∷ t) split,
              step_first l input u handled first ∙ run,
              elim how [
                | inl (r, t, z) ↦ inl (r, turn ∙ t, z)
                | inr (r, o, inl h) ↦ inr (
                  r,
                  o,
                  inr (idle_end told word handled u l' h run (not_done (word || told) u flag d)),
                )
                | inr (r, o, inr (inl t)) ↦ inr (r, o, inr (inl (turn ∙ t)))
                | inr (r, o, inr (inr z)) ↦ inr (r, o, inr (inr z))
              ],
            )
      ]

  -- Let the processor not be told to shut down yet. A run of its loop has handled its inputs up to
  -- some input, one after the other. It has returned only if the word to shut down was among these
  -- and its counter of the gap fillers is zero behind them. Otherwise it has handled all inputs,
  -- and if there were any, the word was not among them, or the counter is not zero.
  pub process-Halts :
      (inputs : List (NotificationOrGapResult k)) (l l' : Worker fj) (returned : Bool)
      → l.is_shutdown ≡ false
      → process fj k push_channel inputs l ≡ ok (l', returned)
      → Halts false inputs l l' returned
  process-Halts inputs l l' returned f e = process-Halts_from false inputs l l' returned f e
