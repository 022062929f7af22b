-- ===== src/Push/Dispatch/Once/Calls.antt =====
-- The same for a run of calls of the service, and that it sends only what it is called for.
use kasia_indexer.Prelude.{◌≡◌, refl, true, List, [], ◌∷◌, All, ◌+◌, Option-cases, inl, inr, arith}
use kasia_indexer.Prelude.Bytes.{Bytes, contains, bytes_eq_refl}
use kasia_indexer.Prelude.Dict
use kasia_indexer.Db.{Kaspa}
use kasia_indexer.Push.{Libraries, PushConfig, DeviceRegistration}
use kasia_indexer.Push.Dispatch.{
  Dispatcher, Notification, next_delivery, unexpired, dispatch_dedupe_key, attempt, send_one,
  send_all, send_targets, send_presence_one, send_presence_all, send_presence_targets,
}
use kasia_indexer.Push.Dispatch.Events.{Call, event, reply, presence, dispatch_calls}
use kasia_indexer.Push.Dispatch.Keeps.{IsKept, IsNamed, dispatch_calls_keeps}
use kasia_indexer.Push.Dispatch.Once.{NoRepeat, IsOnce, send_all-IsOnce, send_presence_all-IsOnce}

module _ (config : PushConfig) (Named : Bytes → Type 0) where
  -- each notification is about an id that satisfies `Named`
  abbrev AreNamed : Dispatcher → Type 0
  AreNamed d = All (λ a. Named a.notification.tx_id) d.attempts

  send_one-AreNamed :
      (n : Notification) (r : DeviceRegistration) (d : Dispatcher)
      → Named n.tx_id
      → AreNamed d
      → AreNamed (send_one config n.tx_id n r d)
  unfolding send_one attempt
  send_one-AreNamed n r d i a =
      let now = d.clock + (next_delivery d.deliveries).before in
      let recent = unexpired config.dispatch_dedupe_ttl_ms now d.service.recent_dispatches in
      elim (Option-cases (Dict.get (dispatch_dedupe_key r.device_token n.tx_id) recent)) [
        | inl e ↦ rw e (i, a)
        | inr (t, e) ↦ rw e a
      ]

  send_all-AreNamed :
      (n : Notification) (rs : List DeviceRegistration) (d : Dispatcher)
      → Named n.tx_id
      → AreNamed d
      → AreNamed (send_all config n.tx_id n rs d)
  unfolding send_all
  send_all-AreNamed n [] d i a = a
  send_all-AreNamed n (r ∷ rs) d i a =
      send_all-AreNamed n rs (send_one config n.tx_id n r d) i (send_one-AreNamed n r d i a)

  send_presence_all-AreNamed :
      (rs : List DeviceRegistration) (d : Dispatcher)
      → AreNamed d
      → AreNamed (send_presence_all config rs d)
  unfolding send_presence_all send_presence_one
  send_presence_all-AreNamed [] d a = a
  send_presence_all-AreNamed (r ∷ rs) d a =
      send_presence_all-AreNamed rs (send_presence_one config r d) a

module _ (lib : Libraries) (k : Kaspa) (config : PushConfig) where
  IsOnce-kept :
      (Named : Bytes → Type 0)
      → IsKept lib k config Named (λ d. IsOnce config d × AreNamed config Named d)
  unfolding send_targets send_presence_targets
  IsOnce-kept Named = record {
    starts = λ d o. o;
    sends = λ n rs d i o.
        (send_all-IsOnce config n rs _ o.0, send_all-AreNamed config Named n rs _ i o.1);
    sends_presence = λ rs d o. (
      send_presence_all-IsOnce config rs _ o.0,
      send_presence_all-AreNamed config Named rs _ o.1,
    );
    changes = λ s d same o. (rw same.0 o.0, o.1);
  }

  -- the transactions and replies that calls are about, as texts
  abbrev pub subjects : List (Call lib k config) → List Bytes
  subjects [] = []
  subjects (event e disk ∷ calls) = lib.hex_string e.tx_id ∷ subjects calls
  subjects (reply e disk ∷ calls) = e.reply_id ∷ subjects calls
  subjects (presence r disk ∷ calls) = subjects calls

  contains-head : (t : Bytes) (ts : List Bytes) → contains t (t ∷ ts) ≡ true
  contains-head t ts = rw (bytes_eq_refl t) refl

  contains-tail :
      (t u : Bytes) (ts : List Bytes) → contains t ts ≡ true → contains t (u ∷ ts) ≡ true
  contains-tail t u ts c = ground (arith, c)

  subjects-IsNamed :
      (Named : Bytes → Type 0) (calls : List (Call lib k config))
      → ((t : Bytes) → contains t (subjects calls) ≡ true → Named t)
      → All (IsNamed lib k config Named) calls
  subjects-IsNamed Named [] f = tt
  subjects-IsNamed Named (event e disk ∷ calls) f =
      let id = lib.hex_string e.tx_id in
      (
        f id (contains-head id (subjects calls)),
        subjects-IsNamed Named calls (λ t c. f t (contains-tail t id (subjects calls) c)),
      )
  subjects-IsNamed Named (reply e disk ∷ calls) f = (
    f e.reply_id (contains-head e.reply_id (subjects calls)),
    subjects-IsNamed Named calls (λ t c. f t (contains-tail t e.reply_id (subjects calls) c)),
  )
  subjects-IsNamed Named (presence r disk ∷ calls) f = (tt, subjects-IsNamed Named calls f)

  -- In a run of dispatches that starts with no notification handed over, whatever the providers
  -- answer and however long they take, each notification says the transaction or the reply of one
  -- of the calls; and none is handed to a provider for a device token and a transaction for which
  -- an earlier one was sent, unless more time than a dispatch is remembered has passed since the
  -- answer to that one.
  pub dispatch_calls-NoRepeat :
      (calls : List (Call lib k config)) (d : Dispatcher)
      → d.attempts ≡ []
      → NoRepeat config.dispatch_dedupe_ttl_ms (dispatch_calls lib k config calls d).attempts
        × All
            (λ a. contains a.notification.tx_id (subjects calls) ≡ true)
            (dispatch_calls lib k config calls d).attempts
  dispatch_calls-NoRepeat calls d e =
      let Named = λ (t : Bytes). contains t (subjects calls) ≡ true in
      let kept =
        dispatch_calls_keeps lib k config Named (λ d. IsOnce config d × AreNamed config Named d)
          (IsOnce-kept Named) calls d (subjects-IsNamed Named calls (λ t c. c))
          (rw e ((tt, tt), tt)) in
      (kept.0.1, kept.1)
