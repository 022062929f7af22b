-- ===== src/Push/Dispatch.antt =====
-- indexer/src/push.rs: the notifications for an event. Each send is answered by a provider; what
-- it answers, and how long the code waits, are a list that is read one item for each target.
pub mod Events
pub mod Keeps
pub mod Once
pub mod Counters
use kasia_indexer.Prelude.{
  ℕ, ◌+◌, ◌-◌, ◌%◌, Bool, true, false, not, Option, none, some, List, [], ◌∷◌, ◌++◌, length, leb,
  is_some, if◌then◌else◌,
}
use kasia_indexer.Prelude.Bytes.{Bytes}
use kasia_indexer.Prelude.Dict.{Dict}
use kasia_indexer.Prelude.Dict
use kasia_indexer.Blocks.{PushMessageType}
use kasia_indexer.Push.{PushConfig, PushService, PushDispatchCounters, DeviceRegistration}

-- `Ok(Sent)`, `Ok(InvalidToken)` and an error, of either provider
pub data SendOutcome : Type 0 where
  sent invalid_token failed : SendOutcome

-- The time that passes before the look at the clock, the answer, and the time until it is there.
pub record Delivery : Type 0 where
  pub before : ℕ
  pub outcome : SendOutcome
  pub during : ℕ

-- What the data of a notification say: the transaction or reply, the sender and the type.
pub record Notification : Type 0 where
  pub tx_id : Bytes
  pub sender : Bytes
  pub message_type : PushMessageType

-- One notification that has been handed to a provider for the device with a token.
pub record Attempt : Type 0 where
  pub device_token : Bytes
  pub notification : Notification
  pub checked_at : ℕ
  pub outcome : SendOutcome
  pub answered_at : ℕ

-- The service at work: the clock, the answers to come, the tokens that are found invalid for this
-- event, and what has been handed over, the newest first.
pub record Dispatcher : Type 0 where
  pub service : PushService
  pub clock : ℕ
  pub deliveries : List Delivery
  pub stale_tokens : List Bytes
  pub attempts : List Attempt

-- `fetch_add` on an `AtomicU64`
abbrev pub fetch_add : ℕ → ℕ → ℕ
fetch_add n k = (n + k) % 18446744073709551616

unfoldable pub dispatch_dedupe_key : Bytes → Bytes → Bytes
dispatch_dedupe_key device_token tx_id = device_token ++ 58 ∷ tx_id

-- Behind the list each send fails at once.
abbrev pub next_delivery : List Delivery → Delivery
next_delivery [] = record { before = 0; outcome = failed; during = 0 }
next_delivery (d ∷ ds) = d

abbrev pub later_deliveries : List Delivery → List Delivery
later_deliveries [] = []
later_deliveries (d ∷ ds) = ds

-- `recent.retain(|_, ts| *ts >= cutoff)`
unfoldable pub unexpired : ℕ → ℕ → Dict ℕ → Dict ℕ
unexpired ttl now recent = Dict.retain (λ k ts. leb (now - ttl) ts) recent

abbrev pub count_deduped : PushDispatchCounters → PushDispatchCounters
count_deduped c = record c { deduped = fetch_add c.deduped 1 }

abbrev pub count_attempt : PushDispatchCounters → PushDispatchCounters
count_attempt c = record c { attempts = fetch_add c.attempts 1 }

abbrev pub count_outcome : SendOutcome → PushDispatchCounters → PushDispatchCounters
count_outcome sent c = record c { sent = fetch_add c.sent 1 }
count_outcome invalid_token c = record c { invalid = fetch_add c.invalid 1 }
count_outcome failed c = record c { failed = fetch_add c.failed 1 }

abbrev pub count_targets : ℕ → PushDispatchCounters → PushDispatchCounters
count_targets n c = record c { targets = fetch_add c.targets n }

abbrev pub count_event : PushDispatchCounters → PushDispatchCounters
count_event c = record c { events = fetch_add c.events 1 }

abbrev pub set_counters : (PushDispatchCounters → PushDispatchCounters) → Dispatcher → Dispatcher
set_counters f d = record d {
  service = record d.service { dispatch_counters = f d.service.dispatch_counters };
}

abbrev pub set_recent : Dict ℕ → Dispatcher → Dispatcher
set_recent m d = record d { service = record d.service { recent_dispatches = m } }

abbrev pub mark_stale : SendOutcome → Bytes → List Bytes → List Bytes
mark_stale invalid_token token stale = stale ++ token ∷ []
mark_stale sent token stale = stale
mark_stale failed token stale = stale

-- The answer to a notification that is handed over at `now`. Only one that is sent is marked.
abbrev pub mark_sent : SendOutcome → ℕ → Bytes → ℕ → Dict ℕ → Dict ℕ
mark_sent sent ttl key now recent = Dict.insert key now (unexpired ttl now recent)
mark_sent invalid_token ttl key now recent = recent
mark_sent failed ttl key now recent = recent

module _ (config : PushConfig) where
  abbrev ttl : ℕ
  ttl = config.dispatch_dedupe_ttl_ms

  -- `mark_recent_dispatch` with what is around it
  unfoldable pub attempt :
      Notification → DeviceRegistration → Bytes → ℕ → Delivery → Dispatcher → Dispatcher
  attempt n r key now delivery d =
      let answered = now + delivery.during in
      let counted = set_counters (λ c. count_outcome delivery.outcome (count_attempt c)) d in
      let marked =
        set_recent (mark_sent delivery.outcome ttl key answered d.service.recent_dispatches)
          counted in
      record marked {
        clock = answered;
        stale_tokens = mark_stale delivery.outcome r.device_token d.stale_tokens;
        attempts =
            record {
              device_token = r.device_token;
              notification = n;
              checked_at = now;
              outcome = delivery.outcome;
              answered_at = answered;
            }
            ∷ d.attempts;
      }

  -- The loop's body for one target, `was_recently_dispatched` first. `tx_id` is what it is asked
  -- about.
  unfoldable pub send_one : Bytes → Notification → DeviceRegistration → Dispatcher → Dispatcher
  unfolding attempt dispatch_dedupe_key
  send_one tx_id n r d =
      let delivery = next_delivery d.deliveries in
      let now = d.clock + delivery.before in
      let recent = unexpired ttl now d.service.recent_dispatches in
      let key = dispatch_dedupe_key r.device_token tx_id in
      let checked =
        set_recent recent (record d { clock = now; deliveries = later_deliveries d.deliveries }) in
      if is_some (Dict.get key recent)
      then set_counters count_deduped checked
      else attempt n r key now delivery checked

  unfoldable pub send_all : Bytes → Notification → List DeviceRegistration → Dispatcher → Dispatcher
  send_all tx_id n [] d = d
  send_all tx_id n (r ∷ rs) d = send_all tx_id n rs (send_one tx_id n r d)

  -- the part for one provider
  unfoldable pub send_targets :
      Bytes → Notification → List DeviceRegistration → Dispatcher → Dispatcher
  send_targets tx_id n targets d =
      send_all tx_id n targets (set_counters (count_targets (length targets)) d)

  -- A presence event is sent without a look at what has been sent.
  unfoldable pub send_presence_one : DeviceRegistration → Dispatcher → Dispatcher
  send_presence_one r d =
      let delivery = next_delivery d.deliveries in
      let answered = d.clock + delivery.before + delivery.during in
      record (set_counters (λ c. count_outcome delivery.outcome (count_attempt c)) d) {
        clock = answered;
        deliveries = later_deliveries d.deliveries;
        stale_tokens = mark_stale delivery.outcome r.device_token d.stale_tokens;
      }

  unfoldable pub send_presence_all : List DeviceRegistration → Dispatcher → Dispatcher
  send_presence_all [] d = d
  send_presence_all (r ∷ rs) d = send_presence_all rs (send_presence_one r d)

  unfoldable pub send_presence_targets : List DeviceRegistration → Dispatcher → Dispatcher
  send_presence_targets targets d =
      send_presence_all targets (set_counters (count_targets (length targets)) d)
