-- ===== src/Push/Dispatch/Events.antt =====
-- indexer/src/push.rs, `dispatch_event`, `dispatch_pulse_reply` and `dispatch_presence`: which
-- events are sent, and to whom. What a notification says is left out.
use kasia_indexer.Prelude.{
  ◌-◌, Bool, true, false, not, ◌&&◌, ◌||◌, Option, none, some, List, [], ◌∷◌, take, ◌==◌,
  if◌then◌else◌,
}
use kasia_indexer.Prelude.Bytes.{Bytes, ascii, bytes_eq}
use kasia_indexer.Prelude.Dict
use kasia_indexer.Prelude.Outcome.{Outcome, bail}
use kasia_indexer.Db.{Kaspa, AddressPayload, empty_version}
use kasia_indexer.Blocks.{
  PushMessageType, contextual, handshake, payment, pulse_reply, PushDispatchEvent,
}
use kasia_indexer.Push.{
  Libraries, PushConfig, PushService, DeviceRegistration, PushPresenceRequest, ValidatedAuth,
  Result, ok, err, fail, bad_request, unauthorized,
}
use kasia_indexer.Push.Normalize.{apns, fcm, normalize_address}
use kasia_indexer.Push.Aliases.{
  silent, visible, unknown, extract_contextual_alias, parse_contextual_alias_policy, drops_unknown,
}
use kasia_indexer.Push.Auth.{validate_auth}
use kasia_indexer.Push.Registry.{DiskWrite, remove_stale_registrations}
use kasia_indexer.Push.Matching.{matching_registrations, registrations_for_wallet}
use kasia_indexer.Push.Dispatch.{
  Dispatcher, Notification, count_event, set_counters, send_targets, send_presence_targets,
}

pub record PulseReplyPushEvent : Type 0 where
  pub reply_id : Bytes
  pub parent_author_address : Bytes
  pub actor_address : Bytes

abbrev pub set_service : PushService → Dispatcher → Dispatcher
set_service s d = record d { service = s }

-- The end of each dispatch: the devices whose tokens are invalid are removed.
abbrev pub finish : DiskWrite → Dispatcher → List Bytes → Dispatcher × Result (Unit {0})
finish disk d [] = (d, ok tt)
finish disk d (t ∷ ts) =
    let (s, r) = remove_stale_registrations (t ∷ ts) disk d.service in (set_service s d, r)

unfoldable pub prune_stale : DiskWrite → Dispatcher → Dispatcher × Result (Unit {0})
prune_stale disk d = finish disk d d.stale_tokens

module _ (lib : Libraries) (k : Kaspa) where
  -- indexer/src/api.rs; `none` where no address is known. A slice of 32 of the 33 bytes cannot
  -- fail.
  unfoldable pub to_rpc_address : AddressPayload → Outcome (Option Bytes)
  to_rpc_address a =
      let version = 255 - a.inverse_version in
      if a.inverse_version == empty_version
      then Outcome.ok none
      else if version == k.version_pub_key || version == k.version_script_hash
      then Outcome.ok (some (lib.address_string version (take 32 a.payload)))
      else if version == k.version_pub_key_ecdsa
      then Outcome.ok (some (lib.address_string version a.payload))
      else Outcome.err (bail "Invalid version")

  unfoldable pub address_payload_to_string : AddressPayload → Outcome (Option Bytes)
  address_payload_to_string a = elim (to_rpc_address a) [
    | Outcome.err e ↦ Outcome.err e
    | Outcome.ok none ↦ Outcome.ok none
    | Outcome.ok (some text) ↦ Outcome.ok (some (lib.to_lowercase text))
  ]

  module _ (config : PushConfig) where
    -- whether a contextual message with this alias is to be seen
    unfoldable pub is_shown : Bytes → Bool
    is_shown alias = elim (parse_contextual_alias_policy lib alias config.allow_legacy_suffix) [
      | silent ↦ false
      | visible ↦ true
      | unknown ↦ not (drops_unknown lib config.unknown_policy)
    ]

    abbrev alias_in : Option Bytes → Option Bytes
    alias_in none = none
    alias_in (some payload) = extract_contextual_alias lib payload

    abbrev shown_alias : Option Bytes → Option (Option Bytes)
    shown_alias none = none
    shown_alias (some alias) = if is_shown alias then some (some alias) else none

    -- The alias to match with; `none` where the event is skipped.
    unfoldable pub alias_to_match : PushMessageType → Option Bytes → Option (Option Bytes)
    alias_to_match contextual payload = shown_alias (alias_in payload)
    alias_to_match handshake payload = some none
    alias_to_match payment payload = some none
    alias_to_match pulse_reply payload = some none

    -- the targets of one provider, as the registrations are when it is their turn
    abbrev pub targets :
        PushMessageType
        → Bytes
        → Option Bytes
        → Option Bytes
        → Bytes
        → Dispatcher
        → List DeviceRegistration
    targets type sender receiver alias provider d =
        matching_registrations lib config type sender receiver alias provider
          (Dict.values d.service.registrations)

    abbrev pub when_ready : Bool → (Dispatcher → Dispatcher) → Dispatcher → Dispatcher
    when_ready true send d = send d
    when_ready false send d = d

    -- what is sent to the devices of both providers
    unfoldable pub notify :
        PushMessageType
        → Bytes
        → Option Bytes
        → Option Bytes
        → Bytes
        → Notification
        → Dispatcher
        → Dispatcher
    notify type sender receiver alias tx_id n d =
        let d' =
          when_ready config.apns_ready
            (λ c. send_targets config tx_id n (targets type sender receiver alias apns c) c) d in
        when_ready config.fcm_ready
          (λ c. send_targets config tx_id n (targets type sender receiver alias fcm c) c) d'

    abbrev pub skip : Dispatcher → Dispatcher × Result (Unit {0})
    skip d = (d, ok tt)

    abbrev pub notify_about :
        PushDispatchEvent
        → DiskWrite
        → Bytes
        → Option Bytes
        → Option (Option Bytes)
        → Dispatcher
        → Dispatcher × Result (Unit {0})
    notify_about event disk sender receiver none d = skip d
    notify_about event disk sender receiver (some alias) d = prune_stale disk (
        notify event.message_type sender receiver alias (lib.hex_string event.tx_id)
          (record {
            tx_id = lib.hex_string event.tx_id;
            sender = sender;
            message_type = event.message_type;
          })
          d)

    -- An `anyhow` error of `dispatch_event` is logged; here it is one of the service.
    abbrev address_error : Dispatcher → Dispatcher × Result (Unit {0})
    address_error d = (d, fail bad_request "Invalid version")

    abbrev pub dispatch_from :
        PushDispatchEvent
        → DiskWrite
        → Outcome (Option Bytes)
        → Outcome (Option Bytes)
        → Dispatcher
        → Dispatcher × Result (Unit {0})
    dispatch_from event disk (Outcome.err e) receiver d = address_error d
    dispatch_from event disk (Outcome.ok none) receiver d = skip d
    dispatch_from event disk (Outcome.ok (some sender)) (Outcome.err e) d = address_error d
    dispatch_from event disk (Outcome.ok (some sender)) (Outcome.ok receiver) d =
        notify_about event disk sender receiver (alias_to_match event.message_type event.payload) d

    abbrev pub dispatch_known :
        PushDispatchEvent
        → DiskWrite
        → Option AddressPayload
        → Dispatcher
        → Dispatcher × Result (Unit {0})
    dispatch_known event disk none d = skip d
    dispatch_known event disk (some sender) d =
        dispatch_from event disk (address_payload_to_string sender)
          (address_payload_to_string event.receiver) d

    -- the start of a dispatch, with no token found invalid yet
    abbrev pub start : Dispatcher → Dispatcher
    start d = set_counters count_event (record d { stale_tokens = [] })

    unfoldable pub dispatch_event :
        PushDispatchEvent → DiskWrite → Dispatcher → Dispatcher × Result (Unit {0})
    dispatch_event event disk d =
        if not config.apns_ready && not config.fcm_ready
        then skip (start d)
        else dispatch_known event disk event.sender (start d)

    abbrev pub reply_from :
        PulseReplyPushEvent
        → DiskWrite
        → Option Bytes
        → Option Bytes
        → Dispatcher
        → Dispatcher × Result (Unit {0})
    reply_from event disk none actor d = (d, fail bad_request "invalid pulse reply target address")
    reply_from event disk (some author) none d =
        (d, fail bad_request "invalid pulse reply actor address")
    reply_from event disk (some author) (some actor) d = prune_stale disk (
        notify pulse_reply actor (some author) none event.reply_id
          (record { tx_id = event.reply_id; sender = actor; message_type = pulse_reply }) d)

    unfoldable pub dispatch_pulse_reply :
        PulseReplyPushEvent → DiskWrite → Dispatcher → Dispatcher × Result (Unit {0})
    dispatch_pulse_reply event disk d =
        if not config.apns_ready && not config.fcm_ready
        then skip (start d)
        else reply_from event disk (normalize_address lib event.parent_author_address)
            (normalize_address lib event.actor_address) (start d)

    abbrev pub is_presence_event : Bytes → Bool
    is_presence_event t =
        (bytes_eq t (ascii "presence_typing_start") || bytes_eq t (ascii "presence_typing_stop"))
        || bytes_eq t (ascii "presence_activity")

    unfoldable pub send_presence : Bytes → Dispatcher → Dispatcher
    send_presence recipient d =
        let wallet_targets = λ (provider : Bytes) (c : Dispatcher).
          registrations_for_wallet lib config recipient provider
            (Dict.values c.service.registrations) in
        let d' =
          when_ready config.apns_ready (λ c. send_presence_targets config (wallet_targets apns c) c)
            d in
        when_ready config.fcm_ready (λ c. send_presence_targets config (wallet_targets fcm c) c) d'

    abbrev pub presence_from :
        Bytes
        → Bytes
        → DiskWrite
        → Dispatcher
        → PushService × Result ValidatedAuth
        → Dispatcher × Result (Unit {0})
    presence_from sender recipient disk d (s, err e) = (set_service s d, err e)
    presence_from sender recipient disk d (s, ok valid) =
        if not (bytes_eq valid.wallet_address sender)
        then (
          set_service s d,
          fail unauthorized "presence sender does not match authenticated wallet",
        )
        else if not config.apns_ready && not config.fcm_ready
        then (set_service s d, ok tt)
        else prune_stale disk (send_presence recipient (set_service s d))

    abbrev pub presence_between :
        PushPresenceRequest
        → DiskWrite
        → Option Bytes
        → Option Bytes
        → Dispatcher
        → Dispatcher × Result (Unit {0})
    presence_between request disk none recipient d = (d, fail bad_request "invalid sender address")
    presence_between request disk (some sender) none d =
        (d, fail bad_request "invalid recipient address")
    presence_between request disk (some sender) (some recipient) d =
        let event_type = lib.to_lowercase (lib.trim request.event_type) in
        if bytes_eq sender recipient
        then (d, fail bad_request "sender and recipient must be different")
        else if not (is_presence_event event_type)
        then (d, fail bad_request "unsupported presence event type")
        else presence_from sender recipient disk d
            (validate_auth lib config request.auth d.clock d.service)

    unfoldable pub dispatch_presence :
        PushPresenceRequest → DiskWrite → Dispatcher → Dispatcher × Result (Unit {0})
    dispatch_presence request disk d =
        presence_between request disk (normalize_address lib request.sender_address)
          (normalize_address lib request.recipient_address) (start d)

    -- what the service is asked to dispatch, with what comes of a write of the file
    pub data Call : Type 0 where
      event : PushDispatchEvent → DiskWrite → Call
      reply : PulseReplyPushEvent → DiskWrite → Call
      presence : PushPresenceRequest → DiskWrite → Call

    unfoldable pub dispatch : Call → Dispatcher → Dispatcher
    dispatch (event e disk) d = (dispatch_event e disk d).0
    dispatch (reply e disk) d = (dispatch_pulse_reply e disk d).0
    dispatch (presence r disk) d = (dispatch_presence r disk d).0

    -- `run_dispatch_worker` and the requests, one call after the other; an error ends none.
    unfoldable pub dispatch_calls : List Call → Dispatcher → Dispatcher
    dispatch_calls [] d = d
    dispatch_calls (c ∷ cs) d = dispatch_calls cs (dispatch c d)
