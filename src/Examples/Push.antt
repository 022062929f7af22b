-- ===== src/Examples/Push.antt =====
-- Examples of the push service: two wallets with a device each, and texts that need no change.
use kasia_indexer.Prelude.{
  ℕ, ◌≡◌, ◌↔◌, ◌⊎◌, refl, true, false, none, some, List, [], ◌∷◌, length, replicate, All, arith,
}
use kasia_indexer.Prelude.Bytes.{Bytes, ascii, contains}
use kasia_indexer.Prelude.Filter.{Any}
use kasia_indexer.Prelude.Dict
use kasia_indexer.Blocks.{PushDispatchEvent, payment, contextual}
use kasia_indexer.Push.{
  Libraries, PushConfig, PushService, PushDispatchCounters, DeviceRegistration, PushAuthRequest,
  ChallengeEntry, ValidatedAuth, ok,
}
use kasia_indexer.Push.Normalize.{
  fcm, is_hex_string, normalize_address, normalize_token_type, normalize_device_token,
  normalize_bundle_id,
}
use kasia_indexer.Push.Aliases.{
  registration_allows_contextual_alias, contact_request_inbox_watch_aliases,
}
use kasia_indexer.Push.Auth.{
  create_challenge, validate_auth, check_wallet, check_request, take_challenge, check_window,
  validate_token_and_type,
}
use kasia_indexer.Push.Auth.Accepts.{validate_auth-create_challenge, validate_auth-signature}
use kasia_indexer.Push.Registry.{
  written, load_registrations, unregister, authenticated, check_device, remove_registration,
  persist_registrations,
}
use kasia_indexer.Push.Matching.{
  freshest_contextual_wallet, matching_registrations, contextual_wallet_scope, wallet_scope,
  registration_matches_address, non_sender_registrations,
}
use kasia_indexer.Push.Matching.Freshest.{
  IsFreshest, latest_of, freshest_contextual_wallet-IsFreshest,
}
use kasia_indexer.Push.Matching.OneWallet.{IsReached, matching_registrations-IsReached}
use kasia_indexer.Push.Dispatch.{
  Dispatcher, sent, send_targets, send_all, send_one, attempt, dispatch_dedupe_key, unexpired,
}
use kasia_indexer.Push.Dispatch.Events.{
  Call, event, dispatch_calls, dispatch, dispatch_event, address_payload_to_string, to_rpc_address,
  alias_to_match, notify, prune_stale,
}
use kasia_indexer.Push.Dispatch.Once.{NoRepeat}
use kasia_indexer.Push.Dispatch.Once.Calls.{subjects, dispatch_calls-NoRepeat}
use kasia_indexer.Push.Dispatch.Counters.{IsBalanced, dispatch_calls-IsBalanced}
use kasia_indexer.Push.Requests.{Request, unregister_device, handle, responses}
use kasia_indexer.Push.Requests.Replay.{IsRefused, responses-IsRefused}
use kasia_indexer.Push.Requests.Foreign.{handle-is_bound}
use kasia_indexer.Push.Requests.Restart.{IsRegistry, load_registrations-handle}
use kasia_indexer.Examples.{kaspa, alice}

abbrev pub lib : Libraries
lib = record {
  trim = λ s. s;
  to_lowercase = λ s. s;
  is_utf8 = λ s. true;
  sha256 = λ s. s;
  hex_string = λ s. s;
  address_string = λ v s. s;
}

abbrev config : PushConfig
config = record {
  push_fcm_enabled = true;
  challenge_ttl_ms = 300;
  challenge_skew_ms = 30;
  apns_bundle_id = none;
  apns_ready = false;
  fcm_ready = true;
  dispatch_dedupe_ttl_ms = 100;
  active_window_ms = 100;
  unknown_policy = none;
  allow_legacy_suffix = false;
}

abbrev key_of : ℕ → Bytes
key_of n = replicate 64 n

abbrev device : Bytes → Bytes → Bytes → ℕ → DeviceRegistration
device token key wallet updated = record {
  device_token = token;
  token_type = fcm;
  platform = ascii "web";
  app_bundle_id = none;
  watched_addresses = [];
  watch_pulse_reply_addresses = [];
  primary_address = none;
  aliases = [];
  contextual_routes = record { peer_address = ascii "carol"; aliases = ascii "al__kbp1" ∷ [] } ∷ [];
  wallet_pubkey = key;
  wallet_address = wallet;
  created_at_ms = 5;
  updated_at_ms = updated;
}

abbrev first_device : DeviceRegistration
first_device = device (ascii "d1") (key_of 97) (replicate 32 1) 5

abbrev second_device : DeviceRegistration
second_device = device (ascii "d2") (key_of 98) (replicate 32 2) 700000

abbrev devices : List DeviceRegistration
devices = first_device ∷ second_device ∷ []

abbrev counters : PushDispatchCounters
counters = record {
  events = 0;
  targets = 0;
  attempts = 0;
  sent = 0;
  invalid = 0;
  failed = 0;
  deduped = 0;
}

abbrev challenge : ChallengeEntry
challenge = record { issued_at_ms = 1000; expires_at_ms = 1300 }

abbrev service : PushService
service = record {
  registrations = (ascii "d1", first_device) ∷ (ascii "d2", second_device) ∷ [];
  challenges = (ascii "n", challenge) ∷ [];
  recent_dispatches = [];
  dispatch_counters = counters;
  registrations_file = none;
}

abbrev dispatcher : Dispatcher
dispatcher = record {
  service = service;
  clock = 1000;
  deliveries =
      record { before = 1; outcome = sent; during = 2 }
      ∷ record { before = 3; outcome = sent; during = 4 }
      ∷ [];
  stale_tokens = [];
  attempts = [];
}

abbrev auth : PushAuthRequest
auth = record {
  wallet_pubkey = key_of 97;
  wallet_address = replicate 32 1;
  nonce = ascii "n";
  timestamp_ms = 1100;
  expires_at_ms = 1300;
  signature = ascii "s";
}

abbrev valid : ValidatedAuth
valid = record { wallet_pubkey = key_of 97; wallet_address = replicate 32 1 }

abbrev goodbye : Request
goodbye =
    unregister_device (record { device_token = ascii "d1"; token_type = fcm; auth = some auth })
      1100 written

-- the same for the device of the other wallet
abbrev foreign_goodbye : Request
foreign_goodbye =
    unregister_device (record { device_token = ascii "d2"; token_type = fcm; auth = some auth })
      1100 written

check_wallet-valid : check_wallet lib config auth ≡ ok valid
unfolding check_wallet is_hex_string normalize_address
check_wallet-valid = refl

validate_auth-create_challenge_example :
    (validate_auth lib config
      (some auth)
      1100
      (create_challenge lib config (ascii "n") 1000 service).0).1
    ≡ ok valid
validate_auth-create_challenge_example =
    validate_auth-create_challenge lib config (ascii "n") 1000 1100 service auth valid
      check_wallet-valid refl refl refl (refl, omega arith, omega arith, omega arith, omega arith)

validate_auth-signature_example :
    validate_auth lib config (some (record auth { signature = ascii "x" })) 1100 service
    ≡ validate_auth lib config (some auth) 1100 service
validate_auth-signature_example =
    validate_auth-signature lib config auth (ascii "x") 1100 service refl refl

goodbye_ok : (handle lib kaspa config goodbye dispatcher).1 ≡ ok tt
unfolding handle unregister authenticated check_device normalize_token_type normalize_device_token
    validate_token_and_type validate_auth check_wallet is_hex_string normalize_address check_request
    take_challenge check_window remove_registration persist_registrations
goodbye_ok = refl

responses-IsRefused_example : All (IsRefused lib kaspa config (ascii "n")) (
    responses lib kaspa config
      (goodbye ∷ foreign_goodbye ∷ [])
      (handle lib kaspa config goodbye dispatcher).0)
responses-IsRefused_example =
    responses-IsRefused lib kaspa config (ascii "n") goodbye (goodbye ∷ foreign_goodbye ∷ [])
      dispatcher refl goodbye_ok (refl, (refl, tt))

handle-is_bound_example :
    Dict.get
      (ascii "d2")
      (handle lib kaspa config foreign_goodbye dispatcher).0.service.registrations
    ≡ some second_device
handle-is_bound_example =
    handle-is_bound lib kaspa config foreign_goodbye dispatcher (ascii "d2") second_device refl refl
      refl

load_registrations-handle_example :
    IsRegistry (handle lib kaspa config goodbye dispatcher).0.service.registrations
    × ((t : Bytes)
        → Dict.get t (
            load_registrations
              (handle lib kaspa config goodbye dispatcher).0.service.registrations_file)
          ≡ Dict.get t (handle lib kaspa config goodbye dispatcher).0.service.registrations)
load_registrations-handle_example =
    load_registrations-handle lib kaspa config goodbye dispatcher refl
      ((refl, (refl, tt)), (refl, (refl, tt))) goodbye_ok

abbrev paid : PushDispatchEvent
paid = record {
  message_type = payment;
  tx_id = ascii "t";
  sender = some alice;
  receiver = record { inverse_version = 255; payload = replicate 33 2 };
  amount = none;
  payload = none;
  timestamp = 5;
}

-- The same event twice.
abbrev calls : List (Call lib kaspa config)
calls = event paid written ∷ event paid written ∷ []

dispatch_calls-NoRepeat_example :
    NoRepeat 100 (dispatch_calls lib kaspa config calls dispatcher).attempts
    × All
        (λ a. contains a.notification.tx_id (subjects lib kaspa config calls) ≡ true)
        (dispatch_calls lib kaspa config calls dispatcher).attempts
dispatch_calls-NoRepeat_example = dispatch_calls-NoRepeat lib kaspa config calls dispatcher refl

dispatch_calls-IsBalanced_example : IsBalanced (dispatch_calls lib kaspa config calls dispatcher)
dispatch_calls-IsBalanced_example =
    dispatch_calls-IsBalanced lib kaspa config calls dispatcher (refl, refl)

one_attempt : length (dispatch_calls lib kaspa config calls dispatcher).attempts ≡ 1
unfolding dispatch_calls dispatch dispatch_event address_payload_to_string to_rpc_address
    alias_to_match notify matching_registrations registration_matches_address normalize_bundle_id
    send_targets send_all send_one attempt dispatch_dedupe_key unexpired prune_stale
one_attempt = refl

freshest_contextual_wallet-IsFreshest_example :
    (freshest_contextual_wallet devices ≡ some (replicate 32 2))
    ↔ IsFreshest (latest_of devices) (replicate 32 2)
freshest_contextual_wallet-IsFreshest_example =
    freshest_contextual_wallet-IsFreshest devices (replicate 32 2) (omega arith, (omega arith, tt))

matching_registrations-IsReached_example :
    (matching_registrations lib config contextual
        (ascii "carol")
        none
        (some (ascii "al__kbp1"))
        fcm
        devices
      ≡ [])
    ⊎ ((w : Bytes) × Any
          (λ r. r.wallet_address ≡ w)
          (non_sender_registrations lib config (ascii "carol") (ascii "al__kbp1") devices)
        × All (IsReached lib config (ascii "carol") (ascii "al__kbp1") w) (
            matching_registrations lib config contextual
              (ascii "carol")
              none
              (some (ascii "al__kbp1"))
              fcm
              devices))
matching_registrations-IsReached_example =
    matching_registrations-IsReached lib config (ascii "carol") none (ascii "al__kbp1") fcm devices

one_target :
    length (
      matching_registrations lib config contextual
        (ascii "carol")
        none
        (some (ascii "al__kbp1"))
        fcm
        devices)
    ≡ 1
unfolding matching_registrations contextual_wallet_scope non_sender_registrations
    registration_matches_address registration_allows_contextual_alias
    contact_request_inbox_watch_aliases wallet_scope freshest_contextual_wallet normalize_bundle_id
one_target = refl
