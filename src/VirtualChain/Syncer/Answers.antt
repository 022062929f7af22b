-- ===== src/VirtualChain/Syncer/Answers.antt =====
-- What a syncer asks for and what it passes on, and that its `unreachable!` is not reached.
use kasia_indexer.Prelude.{
  ℕ, suc, ◌+◌, ◌≡◌, ◌∙◌, refl, sym, ap, Bool, true, false, List, [], ◌∷◌, ◌++◌, map, take, arith,
}
use kasia_indexer.Prelude.Bytes.{Bytes}
use kasia_indexer.VirtualChain.{
  VirtualChainChange, Command, request_virtual_chain, continue, stop, SyncVccNotification,
  virtual_chain, stopped,
}
use kasia_indexer.VirtualChain.Syncer.{
  Arrival, response, response_failed, ack_closed, ack, Phase, requested, idle, End, running,
  returned, failed, unreachable, Run, next_from, send_request, wait, process,
}

-- The requests that go with a list of changes: from the first block, and from the last block known
-- behind each change.
abbrev pub requests : Bytes → List VirtualChainChange → List Command
requests from [] = request_virtual_chain from ∷ []
requests from (c ∷ cs) = request_virtual_chain from ∷ requests (next_from from c) cs

-- The arrivals of a node that answers each request once, and of a processor that acknowledges each
-- answer once to go on: `waits` says whether a request is not answered yet. What arrives behind a
-- word that ends the task is not read.
abbrev pub Alternates : Bool → List Arrival → Type 0
Alternates waits [] = Unit
Alternates waits (response c ∷ more) = (waits ≡ true) × Alternates false more
Alternates waits (response_failed ∷ more) = waits ≡ true
Alternates waits (ack_closed ∷ more) = Unit
Alternates waits (ack stop ∷ more) = Unit
Alternates waits (ack continue ∷ more) = (waits ≡ false) × Alternates true more

-- what arrives before the first word that ends the task
abbrev pub live : List Arrival → List Arrival
live [] = []
live (response c ∷ more) = response c ∷ live more
live (response_failed ∷ more) = []
live (ack_closed ∷ more) = []
live (ack stop ∷ more) = []
live (ack continue ∷ more) = ack continue ∷ live more

-- and what that word means
abbrev pub end_of : List Arrival → End
end_of [] = running
end_of (response c ∷ more) = end_of more
end_of (response_failed ∷ more) = failed
end_of (ack_closed ∷ more) = failed
end_of (ack stop ∷ more) = returned
end_of (ack continue ∷ more) = end_of more

abbrev pub responses : List Arrival → List VirtualChainChange
responses [] = []
responses (response c ∷ more) = c ∷ responses more
responses (a ∷ more) = responses more

abbrev pub continues : List Arrival → ℕ
continues [] = 0
continues (ack continue ∷ more) = suc (continues more)
continues (a ∷ more) = continues more

-- the word behind the last change
abbrev pub last_word : ℕ → End → List SyncVccNotification
last_word id running = []
last_word id e = stopped id ∷ []

-- What a syncer sends, and how it ends, where it has asked `asked` times for other reasons than an
-- acknowledgement.
abbrev pub Relays : ℕ → Bytes → ℕ → List Arrival → Run → Type 0
Relays id from asked more r =
    (r.notifications ≡ map (virtual_chain id) (responses (live more)) ++ last_word id (end_of more))
    × (r.commands ≡ take (continues (live more) + asked) (requests from (responses (live more))))
    × (r.end ≡ end_of more)

-- the commands of a run with those that have been sent before it
abbrev before : Phase → Bytes → Run → Run
before requested from r = send_request from r
before idle from r = r

abbrev open_in : Phase → Bool
open_in requested = true
open_in idle = false

abbrev asked_in : Phase → ℕ
asked_in requested = 1
asked_in idle = 0

take_one_more :
    (n : ℕ) (c : Command) (cs : List Command) → take (n + 1) (c ∷ cs) ≡ c ∷ take (n + 0) cs
take_one_more n c cs =
    ap (λ m. take m (c ∷ cs)) (the_suc n) ∙ ap (λ m. c ∷ take m cs) (sym (no_more n))
  where
    the_suc : (n : ℕ) → n + 1 ≡ suc n
    the_suc n = omega arith

    no_more : (n : ℕ) → n + 0 ≡ n
    no_more n = omega arith

is_answered_once : false ≡ true → ⊥
is_answered_once e = cc

wait-Relays :
    (id : ℕ) (phase : Phase) (from : Bytes) (more : List Arrival)
    → Alternates (open_in phase) more
    → Relays id from (asked_in phase) more (before phase from (wait id phase from more))
unfolding wait
wait-Relays id requested from [] a = (refl, refl, refl)
wait-Relays id idle from [] a = (refl, refl, refl)
wait-Relays id requested from (response c ∷ more) (o, a) =
    let (n, d, e) = wait-Relays id idle (next_from from c) more a in
    (
      ap (λ ns. virtual_chain id c ∷ ns) n,
      ap (λ ds. request_virtual_chain from ∷ ds) d
          ∙ sym (
              take_one_more (continues (live more)) (request_virtual_chain from)
                (requests (next_from from c) (responses (live more)))),
      e,
    )
wait-Relays id idle from (response c ∷ more) (o, a) = absurd (is_answered_once o)
wait-Relays id requested from (response_failed ∷ more) a = (refl, refl, refl)
wait-Relays id idle from (response_failed ∷ more) a = absurd (is_answered_once a)
wait-Relays id requested from (ack_closed ∷ more) a = (refl, refl, refl)
wait-Relays id idle from (ack_closed ∷ more) a = (refl, refl, refl)
wait-Relays id requested from (ack stop ∷ more) a = (refl, refl, refl)
wait-Relays id idle from (ack stop ∷ more) a = (refl, refl, refl)
wait-Relays id requested from (ack continue ∷ more) (o, a) = absurd (is_answered_once (sym o))
wait-Relays id idle from (ack continue ∷ more) (o, a) =
    let (n, d, e) = wait-Relays id requested from more a in
    (n, d ∙ ap (λ m. take m (requests from (responses (live more)))) (omega arith), e)

-- Let the node answer each request at most once, and let the processor acknowledge each answer at
-- most once to go on. A syncer passes on every answer that arrives before a word that ends it, in
-- order and under its id, and behind them the word that it has stopped exactly if there is such a
-- word. It asks from its first block, and once more for each acknowledgement, from the last block
-- that the answers before it have added, or from where it asked last where they have added none.
-- It returns if it is told to stop, and fails if a request fails or the channel is closed.
pub process-Relays :
    (id : ℕ) (from : Bytes) (more : List Arrival)
    → Alternates true more
    → Relays id from 1 more (process id from more)
unfolding process
process-Relays id from more a = wait-Relays id requested from more a

-- Each `continue` stands behind a response, with no other `continue` between them.
abbrev pub IsAcked : Bool → List Arrival → Type 0
IsAcked pending [] = Unit
IsAcked pending (response c ∷ more) = IsAcked true more
IsAcked pending (response_failed ∷ more) = IsAcked pending more
IsAcked pending (ack_closed ∷ more) = IsAcked pending more
IsAcked pending (ack stop ∷ more) = IsAcked pending more
IsAcked pending (ack continue ∷ more) = (pending ≡ true) × IsAcked false more

-- an acknowledgement is pending exactly where no request is open
abbrev pending_in : Phase → Bool
pending_in requested = false
pending_in idle = true

wait_reachable :
    (id : ℕ) (phase : Phase) (from : Bytes) (more : List Arrival)
    → IsAcked (pending_in phase) more
    → ¬ ((wait id phase from more).end ≡ unreachable)
unfolding wait
wait_reachable id requested from [] a = λ e. cc
wait_reachable id idle from [] a = λ e. cc
wait_reachable id requested from (response c ∷ more) a =
    wait_reachable id idle (next_from from c) more a
wait_reachable id requested from (response_failed ∷ more) a = λ e. cc
wait_reachable id requested from (ack_closed ∷ more) a = λ e. cc
wait_reachable id requested from (ack stop ∷ more) a = λ e. cc
wait_reachable id requested from (ack continue ∷ more) a = λ e. cc
wait_reachable id idle from (response c ∷ more) a = wait_reachable id idle from more a
wait_reachable id idle from (response_failed ∷ more) a = wait_reachable id idle from more a
wait_reachable id idle from (ack_closed ∷ more) a = λ e. cc
wait_reachable id idle from (ack stop ∷ more) a = λ e. cc
wait_reachable id idle from (ack continue ∷ more) a = wait_reachable id requested from more a.1

-- If each acknowledgement to continue stands behind a response, with no other one between them, a
-- syncer does not reach its arms that are marked as unreachable.
pub process_reachable :
    (id : ℕ) (from : Bytes) (more : List Arrival)
    → IsAcked false more
    → ¬ ((process id from more).end ≡ unreachable)
unfolding process
process_reachable id from more a = wait_reachable id requested from more a
