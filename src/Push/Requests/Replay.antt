-- ===== src/Push/Requests/Replay.antt =====
-- Over a run of requests: who has answered a challenge once is not let in with it again.
use kasia_indexer.Prelude.{
  ◌-◌, ◌≡◌, ◌∙◌, ◌⊎◌, inl, inr, refl, subst, Bool, true, false, not, ◌&&◌, Option, none, some, List,
  [], ◌∷◌, leb, All, arith, Bool-cases,
}
use kasia_indexer.Prelude.Bytes.{Bytes, bytes_eq}
use kasia_indexer.Prelude.Dict.{get-insert, get-retain-none}
use kasia_indexer.Prelude.Dict
use kasia_indexer.Db.{Kaspa}
use kasia_indexer.Push.{
  Libraries, PushConfig, PushService, PushAuthRequest, PushPresenceRequest, ValidatedAuth, Result,
  ok, err, saturating_add,
}
use kasia_indexer.Push.Normalize.{normalize_address, apns, fcm}
use kasia_indexer.Push.Matching.{registrations_for_wallet}
use kasia_indexer.Push.Auth.{create_challenge, validate_auth}
use kasia_indexer.Push.Registry.{
  DiskWrite, store_registration, update_registration, remove_registration, register, update,
  unregister,
}
use kasia_indexer.Push.Dispatch.{Dispatcher, send_presence_targets}
use kasia_indexer.Push.Dispatch.Events.{
  set_service, start, when_ready, presence_from, presence_between, is_presence_event,
  dispatch_presence,
}
use kasia_indexer.Push.Dispatch.Events
use kasia_indexer.Push.Requests.{
  Request, create_challenge_now, register_device, update_device, unregister_device, send_presence,
  auth_of, issues, handle, responses,
}
use kasia_indexer.Push.Requests.Once.{
  IsSpent, Fails, answers, Spends, validate_auth-Spends, authenticated-Spends,
}
use kasia_indexer.Push.Requests.Challenges.{
  prune-challenges, send_presence_all-challenges, store-challenges, update-challenges,
  remove-challenges,
}

module _ (lib : Libraries) (k : Kaspa) (config : PushConfig) where
  -- a dispatcher's service, with the response
  abbrev served : Dispatcher × Result (Unit {0}) → PushService × Result (Unit {0})
  served (d, r) = (d.service, r)

  when_ready-challenges :
      (ready : Bool) (send : Dispatcher → Dispatcher) (d : Dispatcher)
      → ((c : Dispatcher) → (send c).service.challenges ≡ c.service.challenges)
      → (when_ready lib k config ready send d).service.challenges ≡ d.service.challenges
  when_ready-challenges true send d f = f d
  when_ready-challenges false send d f = refl

  send_presence-challenges :
      (recipient : Bytes) (d : Dispatcher)
      → (Events.send_presence lib k config recipient d).service.challenges ≡ d.service.challenges
  unfolding Events.send_presence send_presence_targets
  send_presence-challenges recipient d =
      let devices = λ (provider : Bytes) (c : Dispatcher).
        registrations_for_wallet lib config recipient provider
          (Dict.values c.service.registrations) in
      when_ready-challenges config.fcm_ready (λ c. send_presence_targets config (devices fcm c) c) _
        (λ c. send_presence_all-challenges lib config (devices fcm c) _)
      ∙ when_ready-challenges config.apns_ready
          (λ c. send_presence_targets config (devices apns c) c) d
          (λ c. send_presence_all-challenges lib config (devices apns c) _)

  -- all that a presence request does behind its check
  passed-challenges :
      (sender recipient : Bytes) (disk : DiskWrite) (d : Dispatcher) (s : PushService)
      (valid : ValidatedAuth)
      → (presence_from lib k config sender recipient disk d (s, ok valid)).0.service.challenges
        ≡ s.challenges
  passed-challenges sender recipient disk d s valid =
      elim (Bool-cases (not (bytes_eq valid.wallet_address sender))) [
        | inl t ↦ rw t refl
        | inr n ↦ elim (Bool-cases (not config.apns_ready && not config.fcm_ready)) [
          | inl t ↦ rw (n, t) refl
          | inr m ↦
              rw (n, m)
                (prune-challenges disk _ ∙ send_presence-challenges recipient (set_service s d))
        ]
      ]

  presence_from-Spends :
      (sender recipient : Bytes) (disk : DiskWrite) (d : Dispatcher) (auth : Option PushAuthRequest)
      (s : PushService) (r : Result ValidatedAuth)
      → Spends lib config auth d.service (s, r)
      → Spends lib config auth d.service
          (served (presence_from lib k config sender recipient disk d (s, r)))
  presence_from-Spends sender recipient disk d auth s (err e) y = y
  presence_from-Spends sender recipient disk d auth s (ok valid) (keep, fails, spends) =
      let same = passed-challenges sender recipient disk d s valid in
      (
        λ j h. rw same (keep j h),
        λ n a h. absurd (fails n a h),
        λ n a. elim (spends n a) [ inl f ↦ absurd f | inr e ↦ inr (rw same e) ],
      )

  presence_between-Spends :
      (q : PushPresenceRequest) (disk : DiskWrite) (sender recipient : Option Bytes)
      (d : Dispatcher)
      → Spends lib config q.auth d.service
          (served (presence_between lib k config q disk sender recipient d))
  presence_between-Spends q disk none recipient d = (λ j h. h, λ n a h. tt, λ n a. inl tt)
  presence_between-Spends q disk (some sender) none d = (λ j h. h, λ n a h. tt, λ n a. inl tt)
  presence_between-Spends q disk (some sender) (some recipient) d =
      let v = validate_auth lib config q.auth d.clock d.service in
      let event_type = lib.to_lowercase (lib.trim q.event_type) in
      elim (Bool-cases (bytes_eq sender recipient)) [
        | inl t ↦ rw t (λ j h. h, λ n a h. tt, λ n a. inl tt)
        | inr n ↦ elim (Bool-cases (not (is_presence_event lib k config event_type))) [
          | inl t ↦ rw (n, t) (λ j h. h, λ n a h. tt, λ n a. inl tt)
          | inr m ↦
              rw (n, m)
                (presence_from-Spends sender recipient disk d q.auth v.0 v.1
                  (validate_auth-Spends lib config q.auth d.clock d.service))
        ]
      ]

  -- What each request does; a challenge comes back only where its nonce is drawn again.
  pub handle-Spends :
      (q : Request) (d : Dispatcher)
      → ((j : Bytes)
          → issues j q ≡ false
          → IsSpent j d.service
          → IsSpent j (handle lib k config q d).0.service)
        × ((n : Bytes)
            → answers lib config n (auth_of q) ≡ true
            → IsSpent n d.service
            → Fails (handle lib k config q d).1)
        × ((n : Bytes)
            → answers lib config n (auth_of q) ≡ true
            → Fails (handle lib k config q d).1 ⊎ IsSpent n (handle lib k config q d).0.service)
  unfolding handle register update unregister dispatch_presence create_challenge
  handle-Spends (create_challenge_now drawn now) d = (
    λ j i h. ground (
      arith,
      get-insert drawn
          (record {
            issued_at_ms = now;
            expires_at_ms = saturating_add now config.challenge_ttl_ms;
          })
          j
          (Dict.retain (λ k e. leb (now - config.challenge_skew_ms) e.expires_at_ms)
            d.service.challenges),
      get-retain-none (λ k e. leb (now - config.challenge_skew_ms) e.expires_at_ms) j
          d.service.challenges h,
      i,
    ),
    λ n a h. cc,
    λ n a. cc,
  )
  handle-Spends (register_device q now auth_now disk) d =
      let (keep, fails, spends) =
        authenticated-Spends lib config q.device_token q.token_type q.auth auth_now
          (store_registration lib config q now disk) d.service
          (store-challenges lib config q now disk) in
      (λ j i h. keep j h, fails, spends)
  handle-Spends (update_device q now auth_now disk) d =
      let (keep, fails, spends) =
        authenticated-Spends lib config q.device_token q.token_type q.auth auth_now
          (update_registration lib config q now disk) d.service
          (update-challenges lib config q now disk) in
      (λ j i h. keep j h, fails, spends)
  handle-Spends (unregister_device q auth_now disk) d =
      let (keep, fails, spends) =
        authenticated-Spends lib config q.device_token q.token_type q.auth auth_now
          (remove_registration lib config disk) d.service (remove-challenges lib config disk) in
      (λ j i h. keep j h, fails, spends)
  handle-Spends (send_presence q disk) d =
      let (keep, fails, spends) =
        presence_between-Spends q disk (normalize_address lib q.sender_address)
          (normalize_address lib q.recipient_address) (start lib k config d) in
      (λ j i h. keep j h, fails, spends)

  -- the response to an answer to this challenge is an error
  abbrev pub IsRefused : Bytes → Request × Result (Unit {0}) → Type 0
  IsRefused n (q, r) = (answers lib config n (auth_of q) ≡ false) ⊎ Fails r

  refused :
      (n : Bytes) (q : Request) (d : Dispatcher)
      → IsSpent n d.service
      → IsRefused n (q, (handle lib k config q d).1)
  refused n q d h = elim (Bool-cases (answers lib config n (auth_of q))) [
    | inl a ↦ inr ((handle-Spends q d).1 n a h)
    | inr a ↦ inl a
  ]

  spent-IsRefused :
      (n : Bytes) (qs : List Request) (d : Dispatcher)
      → IsSpent n d.service
      → All (λ q. issues n q ≡ false) qs
      → All (IsRefused n) (responses lib k config qs d)
  unfolding responses
  spent-IsRefused n [] d h i = tt
  spent-IsRefused n (q ∷ qs) d h i = (
    refused n q d h,
    spent-IsRefused n qs (handle lib k config q d).0 ((handle-Spends q d).0 n i.0 h) i.1,
  )

  -- If a request whose authentication answers the challenge of a nonce has succeeded, then among
  -- any requests that come after it, as long as none of them draws the same nonce again, each one
  -- that answers that challenge gets an error.
  pub responses-IsRefused :
      (n : Bytes) (q : Request) (qs : List Request) (d : Dispatcher)
      → answers lib config n (auth_of q) ≡ true
      → (handle lib k config q d).1 ≡ ok tt
      → All (λ q. issues n q ≡ false) qs
      → All (IsRefused n) (responses lib k config qs (handle lib k config q d).0)
  responses-IsRefused n q qs d a e i = elim ((handle-Spends q d).2 n a) [
    | inl f ↦ absurd (subst Fails e f)
    | inr h ↦ spent-IsRefused n qs (handle lib k config q d).0 h i
  ]
