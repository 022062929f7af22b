-- ===== src/Push/Matching.antt =====
-- indexer/src/push.rs: which devices a message concerns. A contextual message goes to the devices
-- of one wallet: where several wallets listen to its alias, to those of the one that is freshest
-- by a margin, or to none.
pub mod Freshest
pub mod OneWallet
use kasia_indexer.Prelude.{
  ℕ, ◌-◌, Bool, true, false, not, ◌&&◌, ◌||◌, Option, none, some, List, [], ◌∷◌, length, leb, ltb,
  if◌then◌else◌, filterb,
}
use kasia_indexer.Prelude.Bytes.{Bytes, ascii, bytes_eq}
use kasia_indexer.Prelude.Dict.{Dict}
use kasia_indexer.Prelude.Dict
use kasia_indexer.Blocks.{PushMessageType, contextual, handshake, payment, pulse_reply}
use kasia_indexer.Push.{
  Libraries, PushConfig, PushService, DeviceRegistration, Result, ok, fail, bad_request,
  saturating_add,
}
use kasia_indexer.Push.Normalize.{
  contains, push_new, apns, normalize_address, normalize_bundle_id, and_then,
}
use kasia_indexer.Push.Aliases.{registration_allows_contextual_alias}
use kasia_indexer.Push.Registry.{is_text}

abbrev pub freshness_margin_ms : ℕ
freshness_margin_ms = 600000

unfoldable pub registration_matches_address : DeviceRegistration → Bytes → Bool
registration_matches_address r address =
    bytes_eq r.wallet_address address || is_text r.primary_address address

-- the latest update of a wallet, with one more
abbrev pub later : Option ℕ → ℕ → ℕ
later none updated_at = updated_at
later (some old) updated_at = if leb updated_at old then old else updated_at

abbrev pub wallet_updates : List DeviceRegistration → Dict ℕ → Dict ℕ
wallet_updates [] m = m
wallet_updates (r ∷ rs) m =
    wallet_updates rs
      (Dict.insert r.wallet_address (later (Dict.get r.wallet_address m) r.updated_at_ms) m)

-- `sort_by(|left, right| right.1.cmp(&left.1))`, which is stable
abbrev pub place_update : Bytes → ℕ → Dict ℕ → Dict ℕ
place_update w u [] = (w, u) ∷ []
place_update w u ((x, v) ∷ m) =
    let rest = place_update w u m in if leb v u then (w, u) ∷ (x, v) ∷ m else (x, v) ∷ rest

abbrev pub sort_updates : Dict ℕ → Dict ℕ
sort_updates [] = []
sort_updates ((w, u) ∷ m) = place_update w u (sort_updates m)

abbrev pub fresh_by_margin : Dict ℕ → Option Bytes
fresh_by_margin [] = none
fresh_by_margin (e ∷ []) = none
fresh_by_margin ((w, u) ∷ (x, v) ∷ m) =
    if leb (saturating_add v freshness_margin_ms) u then some w else none

unfoldable pub freshest_contextual_wallet : List DeviceRegistration → Option Bytes
freshest_contextual_wallet registrations =
    fresh_by_margin (sort_updates (wallet_updates registrations []))

-- the wallets of registrations, a `HashSet`
abbrev pub wallets_of : List DeviceRegistration → List Bytes → List Bytes
wallets_of [] set = set
wallets_of (r ∷ rs) set = wallets_of rs (push_new r.wallet_address set)

abbrev pub single_wallet : Option Bytes → Option (List Bytes)
single_wallet none = none
single_wallet (some w) = some (w ∷ [])

-- The scope of a list of registrations; `none` where the message is skipped.
unfoldable pub wallet_scope : List DeviceRegistration → Option (List Bytes)
wallet_scope registrations =
    let wallets = wallets_of registrations [] in
    if ltb 1 (length wallets)
    then single_wallet (freshest_contextual_wallet registrations)
    else some wallets

abbrev pub receiver_scoped : Option Bytes → List DeviceRegistration → List DeviceRegistration
receiver_scoped none registrations = []
receiver_scoped (some receiver) registrations =
    filterb (λ r. registration_matches_address r receiver) registrations

abbrev pub first_scope : List DeviceRegistration → List DeviceRegistration → Option (List Bytes)
first_scope (r ∷ rs) non_sender = wallet_scope (r ∷ rs)
first_scope [] (r ∷ rs) = wallet_scope (r ∷ rs)
first_scope [] [] = none

module _ (lib : Libraries) (config : PushConfig) where
  unfoldable pub non_sender_registrations :
      Bytes → Bytes → List DeviceRegistration → List DeviceRegistration
  non_sender_registrations sender_address alias registrations =
      filterb (λ r. not (registration_matches_address r sender_address))
        (filterb (λ r. registration_allows_contextual_alias lib r sender_address alias)
          registrations)

  unfoldable pub contextual_wallet_scope :
      Bytes → Option Bytes → Bytes → List DeviceRegistration → Option (List Bytes)
  contextual_wallet_scope sender_address receiver_address alias registrations =
      let others = non_sender_registrations sender_address alias registrations in
      first_scope (receiver_scoped receiver_address others) others

  abbrev configured_bundle_id : Option Bytes
  configured_bundle_id = and_then lib config.apns_bundle_id (normalize_bundle_id lib)

  abbrev has_bundle : Option Bytes → DeviceRegistration → Bool
  has_bundle none r = true
  has_bundle (some required) r = is_text r.app_bundle_id required

  -- the devices of one provider, for APNs those of the configured bundle
  abbrev pub of_provider : Bytes → DeviceRegistration → Bool
  of_provider token_type r =
      bytes_eq r.token_type token_type
      && (not (bytes_eq token_type apns) || has_bundle configured_bundle_id r)

  abbrev pub in_scope : Bytes → Bytes → List Bytes → DeviceRegistration → Bool
  in_scope sender_address alias wallets r =
      registration_allows_contextual_alias lib r sender_address alias
      && contains r.wallet_address wallets

  abbrev scoped_targets :
      Bytes
      → Bytes
      → Bytes
      → List DeviceRegistration
      → Option (List Bytes)
      → List DeviceRegistration
  scoped_targets sender_address alias token_type registrations none = []
  scoped_targets sender_address alias token_type registrations (some wallets) =
      filterb (in_scope sender_address alias wallets)
        (filterb (of_provider token_type) registrations)

  abbrev contextual_targets :
      Bytes
      → Option Bytes
      → Option Bytes
      → Bytes
      → List DeviceRegistration
      → List DeviceRegistration
  contextual_targets sender_address receiver_address none token_type registrations = []
  contextual_targets sender_address receiver_address (some alias) token_type registrations =
      scoped_targets sender_address alias token_type registrations
        (contextual_wallet_scope sender_address receiver_address alias registrations)

  abbrev receiver_targets :
      (DeviceRegistration → Bytes → Bool)
      → Option Bytes
      → Bytes
      → List DeviceRegistration
      → List DeviceRegistration
  receiver_targets concerns none token_type registrations = []
  receiver_targets concerns (some receiver) token_type registrations =
      filterb (λ r. concerns r receiver) (filterb (of_provider token_type) registrations)

  -- The registrations are the values of the map, as they are walked.
  unfoldable pub matching_registrations :
      PushMessageType
      → Bytes
      → Option Bytes
      → Option Bytes
      → Bytes
      → List DeviceRegistration
      → List DeviceRegistration
  matching_registrations contextual sender receiver alias token_type registrations =
      contextual_targets sender receiver alias token_type registrations
  matching_registrations handshake sender receiver alias token_type registrations =
      receiver_targets registration_matches_address receiver token_type registrations
  matching_registrations payment sender receiver alias token_type registrations =
      receiver_targets registration_matches_address receiver token_type registrations
  matching_registrations pulse_reply sender receiver alias token_type registrations =
      receiver_targets (λ r a. contains a r.watch_pulse_reply_addresses) receiver token_type
        registrations

  unfoldable pub registrations_for_wallet :
      Bytes → Bytes → List DeviceRegistration → List DeviceRegistration
  registrations_for_wallet wallet_address token_type registrations =
      filterb (λ r. registration_matches_address r wallet_address)
        (filterb (of_provider token_type) registrations)

  -- what a peer is told of the devices of a wallet
  pub record PushPeerStatusResponse : Type 0 where
    pub wallet_address : Bytes
    pub registered : Bool
    pub last_seen_ms : Option ℕ
    pub device_count : ℕ

  abbrev or_else : Option Bytes → Option Bytes → Option Bytes
  or_else none other = other
  or_else (some v) other = some v

  abbrev has_status : DeviceRegistration → Bool
  has_status r =
      not (bytes_eq r.token_type apns)
      || has_bundle (or_else configured_bundle_id (normalize_bundle_id lib (ascii "com.kbeam.app")))
          r

  abbrev last_update : List DeviceRegistration → Option ℕ → Option ℕ
  last_update [] seen = seen
  last_update (r ∷ rs) seen = last_update rs (some (later seen r.updated_at_ms))

  unfoldable pub peer_status_for_wallet_address :
      Bytes → ℕ → PushService → Result PushPeerStatusResponse
  peer_status_for_wallet_address wallet_address now s =
      elim (normalize_address lib wallet_address) [
        | none ↦ fail bad_request "invalid wallet address"
        | some wallet ↦
            let devices =
              filterb (λ r. registration_matches_address r wallet)
                (filterb has_status (Dict.values s.registrations)) in
            let active =
              filterb (λ r. leb (now - r.updated_at_ms) config.active_window_ms) devices in
            ok (record {
              wallet_address = wallet;
              registered = ltb 0 (length active);
              last_seen_ms = last_update devices none;
              device_count = length active;
            })
      ]
