-- ===== src/Push/Auth.antt =====
-- indexer/src/push.rs: challenges, and the check of what a wallet sends in answer to one. The
-- times are those that `now_ms` returns.
pub mod Accepts
use kasia_indexer.Prelude.{
  ℕ, ◌-◌, Bool, true, false, not, ◌||◌, Option, none, some, length, ltb, leb, ◌==◌, if◌then◌else◌,
}
use kasia_indexer.Prelude.Bytes.{Bytes, bytes_eq}
use kasia_indexer.Prelude.Dict
use kasia_indexer.Push.{
  Libraries, PushConfig, PushService, ChallengeEntry, PushAuthRequest, ValidatedAuth, Result, ok,
  err, fail, bad_request, unauthorized, saturating_add,
}
use kasia_indexer.Push.Normalize.{is_empty, is_hex_string, apns, fcm, normalize_address}

pub record PushChallengeResponse : Type 0 where
  pub nonce : Bytes
  pub issued_at_ms : ℕ
  pub expires_at_ms : ℕ

module _ (lib : Libraries) (config : PushConfig) where
  -- The nonce is that of `Uuid::new_v4`.
  unfoldable pub create_challenge : Bytes → ℕ → PushService → PushService × PushChallengeResponse
  create_challenge nonce now s =
      let expires = saturating_add now config.challenge_ttl_ms in
      let kept =
        Dict.retain (λ k e. leb (now - config.challenge_skew_ms) e.expires_at_ms) s.challenges in
      (
        record s {
          challenges =
              Dict.insert nonce (record { issued_at_ms = now; expires_at_ms = expires }) kept;
        },
        record { nonce = nonce; issued_at_ms = now; expires_at_ms = expires },
      )

  unfoldable pub validate_token_and_type : Bytes → Bytes → Result (Unit {0})
  validate_token_and_type token token_type =
      if bytes_eq token_type apns
      then (if not (length token == 64) || not (is_hex_string token)
          then fail bad_request "invalid device token length"
          else ok tt)
      else if bytes_eq token_type fcm
      then (if config.push_fcm_enabled then ok tt else fail bad_request "FCM push is disabled")
      else fail bad_request "unsupported token type"

  -- the checks behind the challenge's removal
  unfoldable pub check_window :
      PushAuthRequest → ChallengeEntry → ValidatedAuth → Result ValidatedAuth
  check_window auth challenge valid =
      let skew = config.challenge_skew_ms in
      if not (auth.expires_at_ms == challenge.expires_at_ms)
      then fail unauthorized "invalid challenge expiry"
      else if ltb auth.timestamp_ms (challenge.issued_at_ms - skew)
          || ltb (saturating_add challenge.expires_at_ms skew) auth.timestamp_ms
      then fail unauthorized "auth timestamp outside challenge window"
      else ok valid

  -- The part under the lock: old challenges go, and the one that is answered.
  unfoldable pub take_challenge :
      PushAuthRequest → ValidatedAuth → Bytes → ℕ → PushService → PushService × Result ValidatedAuth
  take_challenge auth valid nonce now s =
      let kept =
        Dict.retain (λ k e. leb now (saturating_add e.expires_at_ms config.challenge_skew_ms))
          s.challenges in
      elim (Dict.get nonce kept) [
        | none ↦ (record s { challenges = kept }, fail unauthorized "invalid challenge nonce")
        | some challenge ↦
            (record s { challenges = Dict.remove nonce kept }, check_window auth challenge valid)
      ]

  -- the checks on the request alone, behind those of the key and the address
  unfoldable pub check_request : PushAuthRequest → ℕ → Result (Unit {0})
  check_request auth now =
      let skew = config.challenge_skew_ms in
      if is_empty (lib.trim auth.signature)
      then fail unauthorized "invalid schnorr signature"
      else if ltb (saturating_add now skew) auth.timestamp_ms
      then fail unauthorized "auth timestamp is in the future"
      else if ltb (saturating_add auth.expires_at_ms skew) now
      then fail unauthorized "auth expired"
      else if is_empty (lib.trim auth.nonce)
      then fail unauthorized "invalid nonce"
      else ok tt

  unfoldable pub check_wallet : PushAuthRequest → Result ValidatedAuth
  check_wallet auth =
      let wallet_pubkey = lib.to_lowercase (lib.trim auth.wallet_pubkey) in
      if not (length wallet_pubkey == 64) || not (is_hex_string wallet_pubkey)
      then fail unauthorized "invalid wallet pubkey"
      else elim (normalize_address lib auth.wallet_address) [
        | none ↦ fail unauthorized "invalid wallet address"
        | some wallet_address ↦
            ok (record { wallet_pubkey = wallet_pubkey; wallet_address = wallet_address })
      ]

  -- the three parts of the check, each behind the one before
  abbrev pub checked :
      Result ValidatedAuth
      → Result (Unit {0})
      → (ValidatedAuth → PushService × Result ValidatedAuth)
      → PushService
      → PushService × Result ValidatedAuth
  checked (err e) request next s = (s, err e)
  checked (ok valid) (err e) next s = (s, err e)
  checked (ok valid) (ok u) next s = next valid

  unfoldable pub validate_auth :
      Option PushAuthRequest → ℕ → PushService → PushService × Result ValidatedAuth
  validate_auth none now s = (s, fail unauthorized "missing auth")
  validate_auth (some auth) now s =
      checked (check_wallet auth) (check_request auth now)
        (λ valid. take_challenge auth valid (lib.trim auth.nonce) now s) s
