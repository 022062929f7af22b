-- ===== src/Push/Registry.antt =====
-- indexer/src/push.rs: the requests that change the registered devices, and the file behind them.
-- Requests do not overlap: each one writes the file before the next one starts.
use kasia_indexer.Prelude.{
  ℕ, Bool, false, not, ◌&&◌, ◌||◌, Option, none, some, List, [], ◌∷◌, if◌then◌else◌,
}
use kasia_indexer.Prelude.Bytes.{Bytes, bytes_eq}
use kasia_indexer.Prelude.Dict.{Dict}
use kasia_indexer.Prelude.Dict
use kasia_indexer.Push.{
  Libraries, PushConfig, PushService, DeviceRegistration, PushRegistrationRequest,
  PushUpdateRequest, PushUnregisterRequest, PushAuthRequest, ValidatedAuth, Result, ok, err, fail,
  unauthorized, not_found, internal,
}
use kasia_indexer.Push.Normalize.{
  contains, normalize_optional_address, normalize_optional_bundle_id, normalize_token_type,
  normalize_device_token, normalize_addresses, normalize_contextual_routes,
}
use kasia_indexer.Push.Aliases.{derived_contextual_registration_aliases}
use kasia_indexer.Push.Auth.{validate_token_and_type, validate_auth}

-- What comes of a write of the file. One that fails leaves something in the file.
pub data DiskWrite : Type 0 where
  written : DiskWrite
  broken : Option (List DeviceRegistration) → DiskWrite

-- whether an optional text is this one
abbrev pub is_text : Option Bytes → Bytes → Bool
is_text none value = false
is_text (some v) value = bytes_eq v value

-- The registrations of a file, the last one of a token.
abbrev pub collect_registrations :
    List DeviceRegistration → Dict DeviceRegistration → Dict DeviceRegistration
collect_registrations [] m = m
collect_registrations (r ∷ rs) m = collect_registrations rs (Dict.insert r.device_token r m)

unfoldable pub load_registrations : Option (List DeviceRegistration) → Dict DeviceRegistration
load_registrations none = []
load_registrations (some registrations) = collect_registrations registrations []

unfoldable pub persist_registrations : DiskWrite → PushService → PushService × Result (Unit {0})
persist_registrations written s =
    (record s { registrations_file = some (Dict.values s.registrations) }, ok tt)
persist_registrations (broken left) s =
    (record s { registrations_file = left }, fail internal "failed to persist registrations")

abbrev set_registrations : Dict DeviceRegistration → PushService → PushService
set_registrations m s = record s { registrations = m }

-- The devices of the pruned tokens are removed in memory also where the write fails.
unfoldable pub remove_stale_registrations :
    List Bytes → DiskWrite → PushService → PushService × Result (Unit {0})
unfolding persist_registrations
remove_stale_registrations stale_tokens disk s =
    persist_registrations disk
      (set_registrations (Dict.retain (λ t r. not (contains t stale_tokens)) s.registrations) s)

module _ (lib : Libraries) (config : PushConfig) where
  -- the token and its type, as they are stored
  unfoldable pub check_device : Bytes → Bytes → Result (Bytes × Bytes)
  check_device device_token raw_type =
      let token_type = normalize_token_type lib raw_type in
      elim (normalize_device_token lib device_token token_type) [
        | err e ↦ err e
        | ok token ↦ elim (validate_token_and_type lib config token token_type) [
          | err e ↦ err e
          | ok u ↦ ok (token, token_type)
        ]
      ]

  abbrev pub and_continue :
      (ValidatedAuth → PushService → PushService × Result (Unit {0}))
      → PushService × Result ValidatedAuth
      → PushService × Result (Unit {0})
  and_continue next (s, err e) = (s, err e)
  and_continue next (s, ok valid) = next valid s

  -- The start of each request: the device, then the wallet. What follows is the argument.
  unfoldable pub authenticated :
      Bytes
      → Bytes
      → Option PushAuthRequest
      → ℕ
      → (Bytes → Bytes → ValidatedAuth → PushService → PushService × Result (Unit {0}))
      → PushService
      → PushService × Result (Unit {0})
  authenticated device_token raw_type auth auth_now next s =
      elim (check_device device_token raw_type) [
        | err e ↦ (s, err e)
        | ok (token, token_type) ↦
            and_continue (next token token_type) (validate_auth lib config auth auth_now s)
      ]

  abbrev created_at : Option DeviceRegistration → Bytes → ℕ → ℕ
  created_at none wallet_pubkey now = now
  created_at (some r) wallet_pubkey now =
      if bytes_eq r.wallet_pubkey wallet_pubkey then r.created_at_ms else now

  -- the devices that stay where a registration replaces those of its wallet
  abbrev pub stays : Bytes → ValidatedAuth → Bytes → DeviceRegistration → Bool
  stays token valid t r =
      bytes_eq t token
      || ((not (bytes_eq r.wallet_pubkey valid.wallet_pubkey)
            && not (bytes_eq r.wallet_address valid.wallet_address))
          && not (is_text r.primary_address valid.wallet_address))

  unfoldable pub registration_of :
      PushRegistrationRequest → Bytes → Bytes → ValidatedAuth → ℕ → ℕ → DeviceRegistration
  registration_of request token token_type valid created now =
      let routes = normalize_contextual_routes lib request.contextual_routes in
      record {
        device_token = token;
        token_type = token_type;
        platform = lib.to_lowercase (lib.trim request.platform);
        app_bundle_id = normalize_optional_bundle_id lib request.app_bundle_id;
        watched_addresses = normalize_addresses lib request.watched_addresses;
        watch_pulse_reply_addresses = normalize_addresses lib request.watch_pulse_reply_addresses;
        primary_address = normalize_optional_address lib request.primary_address;
        aliases = derived_contextual_registration_aliases lib valid.wallet_address routes;
        contextual_routes = routes;
        wallet_pubkey = valid.wallet_pubkey;
        wallet_address = valid.wallet_address;
        created_at_ms = created;
        updated_at_ms = now;
      }

  unfoldable pub store_registration :
      PushRegistrationRequest
      → ℕ
      → DiskWrite
      → Bytes
      → Bytes
      → ValidatedAuth
      → PushService
      → PushService × Result (Unit {0})
  unfolding persist_registrations
  store_registration request now disk token token_type valid s =
      let created = created_at (Dict.get token s.registrations) valid.wallet_pubkey now in
      let others =
        if request.replace_wallet_devices
        then Dict.retain (stays token valid) s.registrations
        else s.registrations in
      let device = registration_of request token token_type valid created now in
      persist_registrations disk (set_registrations (Dict.insert token device others) s)

  unfoldable pub register :
      PushRegistrationRequest → ℕ → ℕ → DiskWrite → PushService → PushService × Result (Unit {0})
  register request now auth_now disk s =
      authenticated request.device_token request.token_type request.auth auth_now
        (store_registration request now disk) s

  unfoldable pub updated :
      PushUpdateRequest → Bytes → ValidatedAuth → ℕ → DeviceRegistration → DeviceRegistration
  updated request token_type valid now r =
      let routes = normalize_contextual_routes lib request.contextual_routes in
      record r {
        token_type = token_type;
        app_bundle_id = normalize_optional_bundle_id lib request.app_bundle_id;
        watched_addresses = normalize_addresses lib request.watched_addresses;
        watch_pulse_reply_addresses = normalize_addresses lib request.watch_pulse_reply_addresses;
        primary_address = normalize_optional_address lib request.primary_address;
        aliases = derived_contextual_registration_aliases lib valid.wallet_address routes;
        contextual_routes = routes;
        wallet_address = valid.wallet_address;
        updated_at_ms = now;
      }

  unfoldable pub update_registration :
      PushUpdateRequest
      → ℕ
      → DiskWrite
      → Bytes
      → Bytes
      → ValidatedAuth
      → PushService
      → PushService × Result (Unit {0})
  unfolding persist_registrations
  update_registration request now disk token token_type valid s =
      elim (Dict.get token s.registrations) [
        | none ↦ (s, fail not_found "registration not found")
        | some r ↦
            if not (bytes_eq r.wallet_pubkey valid.wallet_pubkey)
            then (s, fail unauthorized "device token is bound to another wallet")
            else persist_registrations disk (
                set_registrations
                  (Dict.insert token (updated request token_type valid now r) s.registrations) s)
      ]

  unfoldable pub update :
      PushUpdateRequest → ℕ → ℕ → DiskWrite → PushService → PushService × Result (Unit {0})
  update request now auth_now disk s =
      authenticated request.device_token request.token_type request.auth auth_now
        (update_registration request now disk) s

  -- whether a registration is bound to another wallet
  abbrev pub is_foreign : Option DeviceRegistration → ValidatedAuth → Bool
  is_foreign none valid = false
  is_foreign (some r) valid = not (bytes_eq r.wallet_pubkey valid.wallet_pubkey)

  unfoldable pub remove_registration :
      DiskWrite → Bytes → Bytes → ValidatedAuth → PushService → PushService × Result (Unit {0})
  unfolding persist_registrations
  remove_registration disk token token_type valid s =
      if is_foreign (Dict.get token s.registrations) valid
      then (s, fail unauthorized "device token is bound to another wallet")
      else persist_registrations disk (set_registrations (Dict.remove token s.registrations) s)

  unfoldable pub unregister :
      PushUnregisterRequest → ℕ → DiskWrite → PushService → PushService × Result (Unit {0})
  unregister request auth_now disk s =
      authenticated request.device_token request.token_type request.auth auth_now
        (remove_registration disk) s
