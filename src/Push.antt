-- ===== src/Push.antt =====
-- indexer/src/push.rs: the push service, which keeps the devices that wallets have registered and
-- sends them a notification for each message that concerns them. This file has its data; the
-- children have its operations. A text is its UTF-8 bytes.
pub mod Normalize
pub mod Aliases
pub mod Auth
pub mod Registry
pub mod Matching
pub mod Dispatch
pub mod Requests
use Prim.Native.String.{String}
use kasia_indexer.Prelude.{
  ℕ, ◌+◌, ◌≡◌, ◌⊎◌, refl, inl, inr, Bool, Option, none, some, List, [], ◌∷◌, ltb, if◌then◌else◌,
}
use kasia_indexer.Prelude.Bytes.{Bytes}
use kasia_indexer.Prelude.Dict.{Dict}
use kasia_indexer.Blocks.{PushMessageType}

-- What is used of the crates `faster_hex`, `sha2` and `kaspa_addresses`, and of the tables of
-- Unicode: `str::trim`, `str::to_lowercase` and `str::from_utf8`. No law of them is assumed.
pub record Libraries : Type 0 where
  pub trim : Bytes → Bytes
  pub to_lowercase : Bytes → Bytes
  pub is_utf8 : Bytes → Bool
  pub sha256 : Bytes → Bytes
  pub hex_string : Bytes → Bytes
  -- `Address::new(network, version, payload).to_string()`
  pub address_string : ℕ → Bytes → Bytes

-- The settings that are read, and whether each of the two clients could be set up.
pub record PushConfig : Type 0 where
  pub push_fcm_enabled : Bool
  pub challenge_ttl_ms : ℕ
  pub challenge_skew_ms : ℕ
  pub apns_bundle_id : Option Bytes
  pub apns_ready : Bool
  pub fcm_ready : Bool
  pub dispatch_dedupe_ttl_ms : ℕ
  pub active_window_ms : ℕ
  pub unknown_policy : Option Bytes
  pub allow_legacy_suffix : Bool

pub record ContextualPushRoute : Type 0 where
  pub peer_address : Bytes
  pub aliases : List Bytes

pub record DeviceRegistration : Type 0 where
  pub device_token : Bytes
  pub token_type : Bytes
  pub platform : Bytes
  pub app_bundle_id : Option Bytes
  pub watched_addresses : List Bytes
  pub watch_pulse_reply_addresses : List Bytes
  pub primary_address : Option Bytes
  pub aliases : List Bytes
  pub contextual_routes : List ContextualPushRoute
  pub wallet_pubkey : Bytes
  pub wallet_address : Bytes
  pub created_at_ms : ℕ
  pub updated_at_ms : ℕ

pub record ChallengeEntry : Type 0 where
  pub issued_at_ms : ℕ
  pub expires_at_ms : ℕ

pub data StatusCode : Type 0 where
  bad_request unauthorized not_found internal : StatusCode

pub record PushApiError : Type 0 where
  pub status : StatusCode
  pub message : String

-- `Result<A, PushApiError>`
pub data Result {ℓ} (A : Type ℓ) : Type ℓ where
  ok : A → Result A
  err : PushApiError → Result A

abbrev pub fail {ℓ} : {A : Type ℓ} → StatusCode → String → Result A
fail status message = err (record { status = status; message = message })

pub Result-cases {ℓ} :
    {A : Type ℓ} (r : Result A) → ((a : A) × (r ≡ ok a)) ⊎ ((e : PushApiError) × (r ≡ err e))
Result-cases (ok a) = inl (a, refl)
Result-cases (err e) = inr (e, refl)

-- `PushDispatchCounters`; a count wraps around at 64 bits.
pub record PushDispatchCounters : Type 0 where
  pub events : ℕ
  pub targets : ℕ
  pub attempts : ℕ
  pub sent : ℕ
  pub invalid : ℕ
  pub failed : ℕ
  pub deduped : ℕ

-- The shared state, with the file that holds the registrations.
pub record PushService : Type 0 where
  pub registrations : Dict DeviceRegistration
  pub challenges : Dict ChallengeEntry
  pub recent_dispatches : Dict ℕ
  pub dispatch_counters : PushDispatchCounters
  pub registrations_file : Option (List DeviceRegistration)

pub record PushAuthRequest : Type 0 where
  pub wallet_pubkey : Bytes
  pub wallet_address : Bytes
  pub nonce : Bytes
  pub timestamp_ms : ℕ
  pub expires_at_ms : ℕ
  pub signature : Bytes

pub record ValidatedAuth : Type 0 where
  pub wallet_pubkey : Bytes
  pub wallet_address : Bytes

pub record PushRegistrationRequest : Type 0 where
  pub device_token : Bytes
  pub token_type : Bytes
  pub platform : Bytes
  pub app_bundle_id : Option Bytes
  pub watched_addresses : List Bytes
  pub watch_pulse_reply_addresses : List Bytes
  pub primary_address : Option Bytes
  pub contextual_routes : List ContextualPushRoute
  pub replace_wallet_devices : Bool
  pub auth : Option PushAuthRequest

pub record PushUpdateRequest : Type 0 where
  pub device_token : Bytes
  pub token_type : Bytes
  pub app_bundle_id : Option Bytes
  pub watched_addresses : List Bytes
  pub watch_pulse_reply_addresses : List Bytes
  pub primary_address : Option Bytes
  pub contextual_routes : List ContextualPushRoute
  pub auth : Option PushAuthRequest

pub record PushUnregisterRequest : Type 0 where
  pub device_token : Bytes
  pub token_type : Bytes
  pub auth : Option PushAuthRequest

pub record PushPresenceRequest : Type 0 where
  pub sender_address : Bytes
  pub recipient_address : Bytes
  pub event_type : Bytes
  pub timestamp_ms : ℕ
  pub auth : Option PushAuthRequest

abbrev pub u64_max : ℕ
u64_max = 18446744073709551615

-- `u64::saturating_add`
abbrev pub saturating_add : ℕ → ℕ → ℕ
saturating_add a b = if ltb u64_max (a + b) then u64_max else a + b
