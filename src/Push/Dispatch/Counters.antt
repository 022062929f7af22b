-- ===== src/Push/Dispatch/Counters.antt =====
-- The counters of the dispatches add up, also where they wrap around.
use kasia_indexer.Prelude.{
  ℕ, ◌+◌, ◌%◌, ◌≡◌, List, [], ◌∷◌, length, arith, Option-cases, inl, inr, suc, All,
}
use kasia_indexer.Prelude.Bytes.{Bytes}
use kasia_indexer.Prelude.Dict
use kasia_indexer.Db.{Kaspa}
use kasia_indexer.Push.{Libraries, PushConfig, PushDispatchCounters, DeviceRegistration}
use kasia_indexer.Push.Dispatch.{
  Notification, SendOutcome, sent, invalid_token, failed, Dispatcher, next_delivery, unexpired,
  dispatch_dedupe_key, count_outcome, count_attempt, count_deduped, count_targets, send_one,
  send_all, send_targets, send_presence_one, send_presence_all, send_presence_targets,
}
use kasia_indexer.Push.Dispatch.Events.{Call, event, reply, presence, dispatch_calls}
use kasia_indexer.Push.Dispatch.Keeps.{IsKept, IsNamed, dispatch_calls_keeps}

-- `n` targets are counted and not handled yet. Each other one is an attempt or a duplicate, and
-- each attempt was sent, was refused as invalid, or failed.
abbrev pub Adds : ℕ → PushDispatchCounters → Type 0
Adds n c =
    ((c.attempts + c.deduped + n) % 18446744073709551616 ≡ c.targets)
    × ((c.sent + c.invalid + c.failed) % 18446744073709551616 ≡ c.attempts)

abbrev pub IsBalanced : Dispatcher → Type 0
IsBalanced d = Adds 0 d.service.dispatch_counters

outcome-Adds :
    (o : SendOutcome) (n : ℕ) (c : PushDispatchCounters)
    → Adds (suc n) c
    → Adds n (count_outcome o (count_attempt c))
outcome-Adds sent n c a = omega arith
outcome-Adds invalid_token n c a = omega arith
outcome-Adds failed n c a = omega arith

deduped-Adds : (n : ℕ) (c : PushDispatchCounters) → Adds (suc n) c → Adds n (count_deduped c)
deduped-Adds n c a = omega arith

targets-Adds : (n : ℕ) (c : PushDispatchCounters) → Adds 0 c → Adds n (count_targets n c)
targets-Adds n c a = omega arith

module _ (config : PushConfig) where
  send_one-Adds :
      (n : ℕ) (tx_id : Bytes) (i : Notification) (r : DeviceRegistration) (d : Dispatcher)
      → Adds (suc n) d.service.dispatch_counters
      → Adds n (send_one config tx_id i r d).service.dispatch_counters
  unfolding send_one
  send_one-Adds n tx_id i r d a =
      let delivery = next_delivery d.deliveries in
      let now = d.clock + delivery.before in
      let recent = unexpired config.dispatch_dedupe_ttl_ms now d.service.recent_dispatches in
      elim (Option-cases (Dict.get (dispatch_dedupe_key r.device_token tx_id) recent)) [
        | inl e ↦ rw e (outcome-Adds delivery.outcome n d.service.dispatch_counters a)
        | inr (t, e) ↦ rw e (deduped-Adds n d.service.dispatch_counters a)
      ]

  send_all-Adds :
      (tx_id : Bytes) (i : Notification) (rs : List DeviceRegistration) (d : Dispatcher)
      → Adds (length rs) d.service.dispatch_counters
      → IsBalanced (send_all config tx_id i rs d)
  unfolding send_all
  send_all-Adds tx_id i [] d a = a
  send_all-Adds tx_id i (r ∷ rs) d a =
      send_all-Adds tx_id i rs (send_one config tx_id i r d)
        (send_one-Adds (length rs) tx_id i r d a)

  send_presence_all-Adds :
      (rs : List DeviceRegistration) (d : Dispatcher)
      → Adds (length rs) d.service.dispatch_counters
      → IsBalanced (send_presence_all config rs d)
  unfolding send_presence_all send_presence_one
  send_presence_all-Adds [] d a = a
  send_presence_all-Adds (r ∷ rs) d a =
      send_presence_all-Adds rs (send_presence_one config r d) (
        outcome-Adds (next_delivery d.deliveries).outcome (length rs) d.service.dispatch_counters a)

module _ (lib : Libraries) (k : Kaspa) (config : PushConfig) where
  IsBalanced-kept : IsKept lib k config (λ i. Unit) IsBalanced
  unfolding send_targets send_presence_targets
  IsBalanced-kept = record {
    starts = λ d a. a;
    sends = λ n rs d i a.
        send_all-Adds config n.tx_id n rs _
          (targets-Adds (length rs) d.service.dispatch_counters a);
    sends_presence = λ rs d a.
        send_presence_all-Adds config rs _ (targets-Adds (length rs) d.service.dispatch_counters a);
    changes = λ s d same a. rw same.1 a;
  }

  no_names : (calls : List (Call lib k config)) → All (IsNamed lib k config (λ i. Unit)) calls
  no_names [] = tt
  no_names (event e disk ∷ calls) = (tt, no_names calls)
  no_names (reply e disk ∷ calls) = (tt, no_names calls)
  no_names (presence r disk ∷ calls) = (tt, no_names calls)

  -- If the targets are the attempts and the duplicates, and the attempts are those that were sent,
  -- that were invalid and that failed, each modulo 2 to the 64th, then this is still so after any
  -- run of dispatches, also where a counter wraps around.
  pub dispatch_calls-IsBalanced :
      (calls : List (Call lib k config)) (d : Dispatcher)
      → IsBalanced d
      → IsBalanced (dispatch_calls lib k config calls d)
  dispatch_calls-IsBalanced calls d a =
      dispatch_calls_keeps lib k config (λ i. Unit) IsBalanced IsBalanced-kept calls d
        (no_names calls) a
