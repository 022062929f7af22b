-- ===== src/Push/Dispatch/Keeps.antt =====
-- What each send and each change of the registrations keeps, every call keeps.
use kasia_indexer.Prelude.{
  ℕ, ◌≡◌, refl, Bool, true, false, not, ◌&&◌, Option, none, some, List, [], ◌∷◌, Option-cases, inl,
  inr, leb, if◌then◌else◌, All,
}
use kasia_indexer.Prelude.Bytes.{Bytes, bytes_eq}
use kasia_indexer.Prelude.Dict
use kasia_indexer.Prelude.Outcome.{Outcome}
use kasia_indexer.Db.{Kaspa, AddressPayload}
use kasia_indexer.Blocks.{PushMessageType, PushDispatchEvent}
use kasia_indexer.Push.{
  Libraries, PushConfig, PushService, DeviceRegistration, PushAuthRequest, PushPresenceRequest,
  ValidatedAuth, Result, Result-cases, ok, err, saturating_add,
}
use kasia_indexer.Push.Normalize.{apns, fcm, normalize_address}
use kasia_indexer.Push.Auth.{validate_auth, take_challenge, check_wallet, check_request}
use kasia_indexer.Push.Registry.{DiskWrite, written, broken, remove_stale_registrations}
use kasia_indexer.Push.Matching.{registrations_for_wallet}
use kasia_indexer.Push.Dispatch.{Dispatcher, Notification, send_targets, send_presence_targets}
use kasia_indexer.Push.Dispatch.Events.{
  PulseReplyPushEvent, prune_stale, finish, set_service, address_payload_to_string, alias_to_match,
  when_ready, targets, notify, notify_about, dispatch_from, dispatch_known, start, dispatch_event,
  reply_from, dispatch_pulse_reply, send_presence, is_presence_event, presence_from,
  presence_between, dispatch_presence, Call, event, reply, presence, dispatch, dispatch_calls,
}

-- the parts of the state that no change of registrations or challenges concerns
abbrev pub SameSends : PushService → PushService → Type 0
SameSends s s' =
    (s'.recent_dispatches ≡ s.recent_dispatches) × (s'.dispatch_counters ≡ s.dispatch_counters)

remove_stale-SameSends :
    (stale : List Bytes) (disk : DiskWrite) (s : PushService)
    → SameSends s (remove_stale_registrations stale disk s).0
unfolding remove_stale_registrations
remove_stale-SameSends stale written s = (refl, refl)
remove_stale-SameSends stale (broken left) s = (refl, refl)

module _ (lib : Libraries) (config : PushConfig) where
  take_challenge-SameSends :
      (auth : PushAuthRequest) (valid : ValidatedAuth) (nonce : Bytes) (now : ℕ) (s : PushService)
      → SameSends s (take_challenge lib config auth valid nonce now s).0
  unfolding take_challenge
  take_challenge-SameSends auth valid nonce now s =
      elim (Option-cases (
        Dict.get nonce (
          Dict.retain (λ k e. leb now (saturating_add e.expires_at_ms config.challenge_skew_ms))
            s.challenges))) [
              | inl e ↦ rw (e, take_challenge) (refl, refl)
              | inr (c, e) ↦ rw (e, take_challenge) (refl, refl)
            ]

  pub validate_auth-SameSends :
      (auth : Option PushAuthRequest) (now : ℕ) (s : PushService)
      → SameSends s (validate_auth lib config auth now s).0
  unfolding validate_auth
  validate_auth-SameSends none now s = (refl, refl)
  validate_auth-SameSends (some auth) now s = elim (Result-cases (check_wallet lib config auth)) [
    | inr (e, h) ↦ rw (h, validate_auth) (refl, refl)
    | inl (valid, h) ↦ elim (Result-cases (check_request lib config auth now)) [
      | inr (e, h') ↦ rw (h, h', validate_auth) (refl, refl)
      | inl (u, h') ↦
          rw (h, h', validate_auth)
            (take_challenge-SameSends auth valid (lib.trim auth.nonce) now s)
    ]
  ]

module _ (lib : Libraries) (k : Kaspa) (config : PushConfig) where
  -- What a property must bear, where the notifications are for an id that satisfies `Named`: they
  -- say the id under which they are looked for and marked.
  pub record IsKept (Named : Bytes → Type 0) (P : Dispatcher → Type 0) : Type 0 where
    pub starts : (d : Dispatcher) → P d → P (start lib k config d)
    pub sends :
        (n : Notification) (rs : List DeviceRegistration) (d : Dispatcher)
        → Named n.tx_id
        → P d
        → P (send_targets config n.tx_id n rs d)
    pub sends_presence :
        (rs : List DeviceRegistration) (d : Dispatcher)
        → P d
        → P (send_presence_targets config rs d)
    pub changes :
        (s : PushService) (d : Dispatcher) → SameSends d.service s → P d → P (set_service s d)

  -- The transaction or the reply that a call is about has such an id.
  abbrev pub IsNamed : (Bytes → Type 0) → Call lib k config → Type 0
  IsNamed Named (event e disk) = Named (lib.hex_string e.tx_id)
  IsNamed Named (reply e disk) = Named e.reply_id
  IsNamed Named (presence r disk) = Unit

  module _ (Named : Bytes → Type 0) (P : Dispatcher → Type 0) (keep : IsKept Named P) where
    -- the state that a call leaves satisfies `P`
    Kept : Dispatcher × Result (Unit {0}) → Type 0
    Kept x = P x.0

    pair-Kept : (d : Dispatcher) (r : Result (Unit {0})) → P d → Kept (d, r)
    unfolding Kept
    pair-Kept d r p = p

    if-Kept :
        (b : Bool) (x y : Dispatcher × Result (Unit {0}))
        → Kept x
        → Kept y
        → Kept (if b then x else y)
    if-Kept true x y p q = p
    if-Kept false x y p q = q

    finish-Kept :
        (disk : DiskWrite) (stale : List Bytes) (d : Dispatcher) → P d → Kept (finish disk d stale)
    finish-Kept disk [] d p = pair-Kept _ _ p
    finish-Kept disk (t ∷ ts) d p = pair-Kept _ _ (
        keep.changes (remove_stale_registrations (t ∷ ts) disk d.service).0 d
          (remove_stale-SameSends (t ∷ ts) disk d.service) p)

    prune-Kept : (disk : DiskWrite) (d : Dispatcher) → P d → Kept (prune_stale disk d)
    unfolding prune_stale
    prune-Kept disk d p = finish-Kept disk d.stale_tokens d p

    when_ready_keeps :
        (ready : Bool) (send : Dispatcher → Dispatcher) (d : Dispatcher)
        → ((c : Dispatcher) → P c → P (send c))
        → P d
        → P (when_ready lib k config ready send d)
    when_ready_keeps true send d f p = f d p
    when_ready_keeps false send d f p = p

    notify_keeps :
        (type : PushMessageType) (sender : Bytes) (receiver alias : Option Bytes) (n : Notification)
        (d : Dispatcher)
        → Named n.tx_id
        → P d
        → P (notify lib k config type sender receiver alias n.tx_id n d)
    unfolding notify
    notify_keeps type sender receiver alias n d i p =
        when_ready_keeps config.fcm_ready _ _
          (λ c q. keep.sends n (targets lib k config type sender receiver alias fcm c) c i q)
          (when_ready_keeps config.apns_ready _ _
            (λ c q. keep.sends n (targets lib k config type sender receiver alias apns c) c i q) p)

    notify_about-Kept :
        (e : PushDispatchEvent) (disk : DiskWrite) (sender : Bytes) (receiver : Option Bytes)
        (alias : Option (Option Bytes)) (d : Dispatcher)
        → Named (lib.hex_string e.tx_id)
        → P d
        → Kept (notify_about lib k config e disk sender receiver alias d)
    notify_about-Kept e disk sender receiver none d i p = pair-Kept _ _ p
    notify_about-Kept e disk sender receiver (some alias) d i p = prune-Kept disk _ (
        notify_keeps e.message_type sender receiver alias
          (record {
            tx_id = lib.hex_string e.tx_id;
            sender = sender;
            message_type = e.message_type;
          })
          d i p)

    dispatch_from-Kept :
        (e : PushDispatchEvent) (disk : DiskWrite) (sender receiver : Outcome (Option Bytes))
        (d : Dispatcher)
        → Named (lib.hex_string e.tx_id)
        → P d
        → Kept (dispatch_from lib k config e disk sender receiver d)
    dispatch_from-Kept e disk (Outcome.err x) receiver d i p = pair-Kept _ _ p
    dispatch_from-Kept e disk (Outcome.ok none) receiver d i p = pair-Kept _ _ p
    dispatch_from-Kept e disk (Outcome.ok (some sender)) (Outcome.err x) d i p = pair-Kept _ _ p
    dispatch_from-Kept e disk (Outcome.ok (some sender)) (Outcome.ok receiver) d i p =
        notify_about-Kept e disk sender receiver
          (alias_to_match lib k config e.message_type e.payload) d i p

    dispatch_known-Kept :
        (e : PushDispatchEvent) (disk : DiskWrite) (sender : Option AddressPayload) (d : Dispatcher)
        → Named (lib.hex_string e.tx_id)
        → P d
        → Kept (dispatch_known lib k config e disk sender d)
    dispatch_known-Kept e disk none d i p = pair-Kept _ _ p
    dispatch_known-Kept e disk (some sender) d i p =
        dispatch_from-Kept e disk (address_payload_to_string lib k sender)
          (address_payload_to_string lib k e.receiver) d i p

    reply_from-Kept :
        (e : PulseReplyPushEvent) (disk : DiskWrite) (author actor : Option Bytes) (d : Dispatcher)
        → Named e.reply_id
        → P d
        → Kept (reply_from lib k config e disk author actor d)
    reply_from-Kept e disk none actor d i p = pair-Kept _ _ p
    reply_from-Kept e disk (some author) none d i p = pair-Kept _ _ p
    reply_from-Kept e disk (some author) (some actor) d i p = prune-Kept disk _ (
        notify_keeps PushMessageType.pulse_reply actor (some author) none
          (record {
            tx_id = e.reply_id;
            sender = actor;
            message_type = PushMessageType.pulse_reply;
          })
          d i p)

    send_presence_keeps :
        (recipient : Bytes) (d : Dispatcher) → P d → P (send_presence lib k config recipient d)
    unfolding send_presence
    send_presence_keeps recipient d p =
        let devices = λ (provider : Bytes) (c : Dispatcher).
          registrations_for_wallet lib config recipient provider
            (Dict.values c.service.registrations) in
        when_ready_keeps config.fcm_ready _ _ (λ c q. keep.sends_presence (devices fcm c) c q)
          (when_ready_keeps config.apns_ready _ _ (λ c q. keep.sends_presence (devices apns c) c q)
            p)

    presence_from-Kept :
        (sender recipient : Bytes) (disk : DiskWrite) (d : Dispatcher) (s : PushService)
        (r : Result ValidatedAuth)
        → SameSends d.service s
        → P d
        → Kept (presence_from lib k config sender recipient disk d (s, r))
    presence_from-Kept sender recipient disk d s (err e) same p =
        pair-Kept _ _ (keep.changes s d same p)
    presence_from-Kept sender recipient disk d s (ok valid) same p =
        let q = keep.changes s d same p in
        if-Kept (not (bytes_eq valid.wallet_address sender)) _ _ (pair-Kept _ _ q) (
          if-Kept (not config.apns_ready && not config.fcm_ready) _ _ (pair-Kept _ _ q)
            (prune-Kept disk _ (send_presence_keeps recipient _ q)))

    presence_between-Kept :
        (r : PushPresenceRequest) (disk : DiskWrite) (sender recipient : Option Bytes)
        (d : Dispatcher)
        → P d
        → Kept (presence_between lib k config r disk sender recipient d)
    presence_between-Kept r disk none recipient d p = pair-Kept _ _ p
    presence_between-Kept r disk (some sender) none d p = pair-Kept _ _ p
    presence_between-Kept r disk (some sender) (some recipient) d p =
        let v = validate_auth lib config r.auth d.clock d.service in
        let event_type = lib.to_lowercase (lib.trim r.event_type) in
        if-Kept (bytes_eq sender recipient) _ _ (pair-Kept _ _ p) (
          if-Kept (not (is_presence_event lib k config event_type)) _ _ (pair-Kept _ _ p) (
            presence_from-Kept sender recipient disk d v.0 v.1
              (validate_auth-SameSends lib config r.auth d.clock d.service) p))

    pub dispatch_keeps :
        (c : Call lib k config) (d : Dispatcher)
        → IsNamed Named c
        → P d
        → P (dispatch lib k config c d)
    unfolding dispatch dispatch_event dispatch_pulse_reply dispatch_presence Kept
    dispatch_keeps (event e disk) d i p =
        if-Kept _ _ _ (pair-Kept _ (ok tt) (keep.starts d p))
          (dispatch_known-Kept e disk e.sender _ i (keep.starts d p))
    dispatch_keeps (reply e disk) d i p = if-Kept _ _ _ (pair-Kept _ (ok tt) (keep.starts d p)) (
        reply_from-Kept e disk (normalize_address lib e.parent_author_address)
          (normalize_address lib e.actor_address) _ i (keep.starts d p))
    dispatch_keeps (presence r disk) d i p =
        presence_between-Kept r disk (normalize_address lib r.sender_address)
          (normalize_address lib r.recipient_address) _ (keep.starts d p)

    pub dispatch_calls_keeps :
        (cs : List (Call lib k config)) (d : Dispatcher)
        → All (IsNamed Named) cs
        → P d
        → P (dispatch_calls lib k config cs d)
    unfolding dispatch_calls
    dispatch_calls_keeps [] d i p = p
    dispatch_calls_keeps (c ∷ cs) d i p =
        dispatch_calls_keeps cs (dispatch lib k config c d) i.1 (dispatch_keeps c d i.0 p)
