-- ===== src/VirtualChain/Syncer.antt =====
-- indexer-actors/src/virtual_chain_syncer.rs: a task that asks the node for the virtual chain
-- from a block on, one answer for each acknowledgement of the processor. A run is the list of what
-- arrives at it. The channels that it sends on stay open; where they do not, it ends with an
-- error, as it does where its other channels close.
pub mod Answers
use kasia_indexer.Prelude.{ℕ, Option, none, some, List, [], ◌∷◌, last?}
use kasia_indexer.Prelude.Bytes.{Bytes}
use kasia_indexer.VirtualChain.{
  VirtualChainChange, Command, request_virtual_chain, NotificationAck, continue, stop,
  SyncVccNotification, virtual_chain, stopped,
}

-- an answer to the open request, or what the channel of the acknowledgements yields
pub data Arrival : Type 0 where
  response : VirtualChainChange → Arrival
  response_failed ack_closed : Arrival
  ack : NotificationAck → Arrival

-- where the task waits: in one of the two `select!`s, or for an acknowledgement
pub data Phase : Type 0 where
  requested idle : Phase

-- how the task ends, if it does
pub data End : Type 0 where
  running returned failed unreachable : End

-- what the task has sent, in order
pub record Run : Type 0 where
  pub commands : List Command
  pub notifications : List SyncVccNotification
  pub end : End

-- `r.added_chain_block_hashes.last().map(|h| h.as_bytes()).unwrap_or(from)`
unfoldable pub next_from : Bytes → VirtualChainChange → Bytes
next_from from c = elim (last? c.added_chain_block_hashes) [ none ↦ from | some h ↦ h ]

-- The task is dropped at its end, whatever the end is.
abbrev pub drop_syncer : ℕ → End → Run
drop_syncer id e = record { commands = []; notifications = stopped id ∷ []; end = e }

abbrev pub send_request : Bytes → Run → Run
send_request from r = record r { commands = request_virtual_chain from ∷ r.commands }

abbrev pub send_virtual_chain : ℕ → VirtualChainChange → Run → Run
send_virtual_chain id c r = record r { notifications = virtual_chain id c ∷ r.notifications }

-- The two `select!`s and the loop, from one wait on. Where no request is open, its channel is gone
-- and yields nothing.
unfoldable pub wait : ℕ → Phase → Bytes → List Arrival → Run
wait id phase from [] = record { commands = []; notifications = []; end = running }
wait id requested from (response c ∷ more) =
    send_virtual_chain id c (wait id idle (next_from from c) more)
wait id requested from (response_failed ∷ more) = drop_syncer id failed
wait id requested from (ack_closed ∷ more) = drop_syncer id failed
wait id requested from (ack stop ∷ more) = drop_syncer id returned
wait id requested from (ack continue ∷ more) = drop_syncer id unreachable
wait id idle from (response c ∷ more) = wait id idle from more
wait id idle from (response_failed ∷ more) = wait id idle from more
wait id idle from (ack_closed ∷ more) = drop_syncer id failed
wait id idle from (ack stop ∷ more) = drop_syncer id returned
wait id idle from (ack continue ∷ more) = send_request from (wait id requested from more)

unfoldable pub process : ℕ → Bytes → List Arrival → Run
process id from more = send_request from (wait id requested from more)
