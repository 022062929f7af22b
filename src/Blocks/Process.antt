-- ===== src/Blocks/Process.antt =====
-- The loop of `BlockProcessor::process`, over the inputs in the order in which `select_input`
-- yields them. The fillers of gaps, the virtual chain processor and the push service are other
-- actors: what the loop does to them is in the logs of its state.
pub mod Conflicts
pub mod Progress
pub mod Shutdown
use kasia_indexer.Prelude.{
  ℕ, zero, suc, ◌-◌, ◌^◌, Bool, true, false, not, ◌&&◌, Option, none, some, List, [], ◌∷◌, ◌++◌,
  map, length, ◌==◌, if◌then◌else◌,
}
use kasia_indexer.Prelude.Bytes.{Bytes, bytes_eq}
use kasia_indexer.Prelude.Outcome.{Outcome, ok, err, bind, for_each}
use kasia_indexer.Fjall.{Fjall}
use kasia_indexer.Db.{Kaspa}
use kasia_indexer.Db.Metadata.{get_latest_block_cursor, set_latest_block_cursor}
use kasia_indexer.Db.Headers.{BlockGap, add_gap, add_gap_wtx, remove_gap_wtx, get_all_gaps}
use kasia_indexer.VirtualChain.{CompactHeader}
use kasia_indexer.Blocks.{RpcHeader, RpcBlock, PushDispatchEvent}
use kasia_indexer.Blocks.Transaction.{Collected, Handling, handle_block}

pub data BlockNotification (k : Kaspa) : Type 0 where
  connected : Bytes → Bytes → BlockNotification k
  disconnected shutdown : BlockNotification k
  notification : RpcBlock k → BlockNotification k

-- the target of the gap first
pub data GapFillingProgress (k : Kaspa) : Type 0 where
  update finished : Bytes → List (RpcBlock k) → GapFillingProgress k
  interrupted failed : Bytes → GapFillingProgress k

pub data NotificationOrGapResult (k : Kaspa) : Type 0 where
  from_node : BlockNotification k → NotificationOrGapResult k
  from_filler : GapFillingProgress k → NotificationOrGapResult k

-- `CompactHeader::from(&RpcHeader)`
abbrev pub compact : RpcHeader → CompactHeader
compact h = record { block_hash = h.hash; blue_work = h.blue_work; daa_score = h.daa_score }

-- The keys of the map `gaps_fillers`. An insertion of a key that is there replaces its channel.
unfoldable pub remove_filler : Bytes → List Bytes → List Bytes
remove_filler to [] = []
remove_filler to (t ∷ ts) =
    let rest = remove_filler to ts in if bytes_eq t to then rest else t ∷ rest

unfoldable pub insert_filler : List Bytes → Bytes → List Bytes
unfolding remove_filler
insert_filler ts to = to ∷ remove_filler to ts

unfoldable pub collect_fillers : List BlockGap → List Bytes → List Bytes
unfolding insert_filler
collect_fillers [] ts = ts
collect_fillers (gap ∷ gaps) ts = collect_fillers gaps (insert_filler ts gap.to)

abbrev pub gap_between : Bytes → Bytes → BlockGap
gap_between from to = record { from = from; to = to }

-- `gaps_filling_in_progress -= 1` on a `usize` in a release build
unfoldable pub one_less : ℕ → ℕ
one_less zero = 2 ^ 64 - 1
one_less (suc n) = n

module _ (fj : Fjall) where
  -- The locals of the loop and its field, the committed store, and the logs. `schedule` holds for
  -- each commit what others commit while it conflicts.
  pub record Worker : Type 0 where
    pub keyspace : fj.Keyspace
    pub has_first_connect : Bool
    pub gaps_fillers : List Bytes
    pub is_shutdown : Bool
    pub last_processed_block : Option Bytes
    pub gaps_filling_in_progress : ℕ
    pub blocks_processed : ℕ
    pub spawned : List BlockGap
    pub interruptions : List Bytes
    pub processed_blocks : List CompactHeader
    pub offered_events : List PushDispatchEvent
    pub schedule : List (List (fj.Keyspace → fj.Keyspace))

  -- `last_real_time_block`, compared with the sink
  unfoldable pub first_gap : Bytes → Bytes → Option Bytes → Option BlockGap
  first_gap sink pp none = some (record { from = pp; to = sink })
  first_gap sink pp (some block) =
      if bytes_eq block sink then none else some (record { from = block; to = sink })

  abbrev pub with_gap : fj.Keyspace → List BlockGap → Option BlockGap → fj.Keyspace × List BlockGap
  with_gap s gaps none = (s, gaps)
  with_gap s gaps (some gap) = (add_gap fj s gap, gaps ++ gap ∷ [])

  unfoldable pub handle_first_connect :
      Bytes → Bytes → fj.Keyspace → Outcome (fj.Keyspace × List BlockGap)
  unfolding first_gap
  handle_first_connect sink pp s =
      bind (get_latest_block_cursor fj s)
        λ last. bind (get_all_gaps fj s) λ gaps. ok (with_gap s gaps (first_gap sink pp last))

  -- A filler for the blocks that were missed while the node was away.
  unfoldable pub reconnect : Bytes → Worker → Option Bytes → Worker
  unfolding insert_filler
  reconnect sink l none = l
  reconnect sink l (some last) =
      let gap = gap_between last sink in
      record l {
        keyspace = add_gap fj l.keyspace gap;
        last_processed_block = none;
        spawned = l.spawned ++ gap ∷ [];
        gaps_fillers = insert_filler l.gaps_fillers sink;
        gaps_filling_in_progress = suc l.gaps_filling_in_progress;
      }

  unfoldable pub connect : Bytes → Bytes → Worker → Outcome Worker
  unfolding handle_first_connect reconnect collect_fillers
  connect sink pp l = elim l.has_first_connect [
    | true ↦ ok (reconnect sink l l.last_processed_block)
    | false ↦ bind (handle_first_connect sink pp l.keyspace) λ (s, gaps). ok (record l {
      keyspace = s;
      has_first_connect = true;
      spawned = l.spawned ++ gaps;
      gaps_fillers = collect_fillers gaps [];
      gaps_filling_in_progress = length (collect_fillers gaps []);
    })
  ]

  -- The fillers are interrupted, in no particular order, and the map is empty.
  unfoldable pub interrupt_fillers : Worker → Worker
  interrupt_fillers l = record l {
    interruptions = l.interruptions ++ l.gaps_fillers;
    gaps_fillers = [];
  }

  -- The end of a filler.
  unfoldable pub filler_ended : Bytes → Worker → Worker
  unfolding remove_filler one_less
  filler_ended to l = record l {
    gaps_fillers = remove_filler to l.gaps_fillers;
    gaps_filling_in_progress = one_less l.gaps_filling_in_progress;
  }

  abbrev pub next_commit :
      List (List (fj.Keyspace → fj.Keyspace)) → List (fj.Keyspace → fj.Keyspace)
  next_commit [] = []
  next_commit (c ∷ cs) = c

  abbrev pub later_commits :
      List (List (fj.Keyspace → fj.Keyspace)) → List (List (fj.Keyspace → fj.Keyspace))
  later_commits [] = []
  later_commits (c ∷ cs) = cs

  -- `try_send` of each event where there is a channel; `processed_block_tx.send`
  abbrev pub dispatch_push_events : Bool → List PushDispatchEvent → Worker → Worker
  dispatch_push_events true events l = record l { offered_events = l.offered_events ++ events }
  dispatch_push_events false events l = l

  abbrev pub announce : CompactHeader → Worker → Worker
  announce h l =
      if l.is_shutdown then l else record l { processed_blocks = l.processed_blocks ++ h ∷ [] }

  module _ (k : Kaspa) (push_channel : Bool) where
    -- The retry loop around `handle_block`. `finish` is what is written behind the block, and each
    -- item of the list is what others commit while one commit conflicts.
    unfoldable pub commit_block :
        List (fj.Keyspace → fj.Keyspace)
        → RpcBlock k
        → Bool
        → (fj.WriteTransaction → fj.WriteTransaction)
        → fj.Keyspace
        → ℕ
        → Outcome (Handling fj k)
    commit_block [] block collect finish s n =
        bind
          (handle_block fj k block collect (record {
            keyspace = s;
            collected = record { wtx = fj.write_tx s; push_events = [] };
            blocks_processed = n;
          }))
          λ h. ok (record h { keyspace = fj.commit (finish h.collected.wtx) h.keyspace })
    commit_block (others ∷ conflicts) block collect finish s n =
        bind
          (handle_block fj k block collect (record {
            keyspace = s;
            collected = record { wtx = fj.write_tx s; push_events = [] };
            blocks_processed = n;
          }))
          λ h. commit_block conflicts block collect finish (others h.keyspace) h.blocks_processed

    -- A block, committed and announced.
    unfoldable pub take_block :
        Bool
        → (fj.WriteTransaction → fj.WriteTransaction)
        → Worker
        → RpcBlock k
        → Outcome (List PushDispatchEvent × Worker)
    unfolding commit_block
    take_block collect finish l block =
        bind
          (commit_block (next_commit l.schedule) block collect finish l.keyspace l.blocks_processed)
          λ h. ok (
            h.collected.push_events,
            announce (compact block.header) (record l {
              keyspace = h.keyspace;
              blocks_processed = h.blocks_processed;
              schedule = later_commits l.schedule;
            }),
          )

    unfoldable pub handle_notification : RpcBlock k → Worker → Outcome Worker
    unfolding take_block
    handle_notification block l =
        bind (take_block true (λ w. set_latest_block_cursor fj w block.header.hash) l block)
          λ (events, l'). ok (
            dispatch_push_events push_channel events
              (record l' { last_processed_block = some block.header.hash }))

    -- `update_gap_wtx` moves the start of the gap to the block.
    unfoldable pub gap_block : Bytes → Worker → RpcBlock k → Outcome Worker
    unfolding take_block
    gap_block to l block =
        bind
          (take_block false (λ w. add_gap_wtx fj w (record { from = block.header.hash; to = to })) l
            block)
          λ (events, l'). ok l'

    unfoldable pub last_gap_block : Bytes → Worker → RpcBlock k → Outcome Worker
    unfolding take_block
    last_gap_block to l block =
        bind (take_block false (λ w. remove_gap_wtx fj w to) l block) λ (events, l'). ok l'

    -- The last block removes the gap; the others move its start.
    unfoldable pub finish_gap : Bytes → List (RpcBlock k) → Worker → Outcome Worker
    unfolding gap_block last_gap_block
    finish_gap to [] l = ok l
    finish_gap to (block ∷ []) l = last_gap_block to l block
    finish_gap to (block ∷ next ∷ more) l =
        bind (gap_block to l block) λ l'. finish_gap to (next ∷ more) l'

    unfoldable pub step : NotificationOrGapResult k → Worker → Outcome Worker
    unfolding connect interrupt_fillers filler_ended handle_notification gap_block finish_gap
    step (from_node (connected sink pp)) l = connect sink pp l
    step (from_node disconnected) l = ok (interrupt_fillers l)
    step (from_node shutdown) l = ok (interrupt_fillers (record l { is_shutdown = true }))
    step (from_node (notification block)) l = handle_notification block l
    step (from_filler (interrupted to)) l = ok (filler_ended to l)
    step (from_filler (failed to)) l = ok (filler_ended to l)
    step (from_filler (update to blocks)) l = for_each (gap_block to) blocks l
    step (from_filler (finished to blocks)) l =
        bind (finish_gap to blocks l) λ l'. ok (filler_ended to l')

    -- whether the loop returns
    abbrev pub is_done : Worker → Bool
    is_done l = l.is_shutdown && (l.gaps_filling_in_progress == 0)

    -- The inputs behind the end of the loop are not read. The result says whether it has returned.
    unfoldable pub process : List (NotificationOrGapResult k) → Worker → Outcome (Worker × Bool)
    unfolding step
    process [] l = ok (l, false)
    process (input ∷ inputs) l =
        bind (step input l)
          λ l'. elim (is_done l') [ true ↦ ok (l', true) | false ↦ process inputs l' ]
