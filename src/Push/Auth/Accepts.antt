-- ===== src/Push/Auth/Accepts.antt =====
-- Which answers to a challenge are accepted.
use kasia_indexer.Prelude.{ℕ, ◌-◌, ◌≤◌, ◌≡◌, ◌∙◌, refl, ap, false, some, leb, arith}
use kasia_indexer.Prelude.Bytes.{Bytes, bytes_eq_refl}
use kasia_indexer.Prelude.Dict.{get-insert, get-retain-some}
use kasia_indexer.Prelude.Dict
use kasia_indexer.Push.{
  Libraries, PushConfig, PushService, ChallengeEntry, PushAuthRequest, ValidatedAuth, ok,
  saturating_add,
}
use kasia_indexer.Push.Normalize.{is_empty}
use kasia_indexer.Push.Auth.{
  create_challenge, validate_auth, take_challenge, check_window, check_request, check_wallet,
  checked,
}

-- The request's own times are those of a challenge and lie around now, within the skew.
abbrev pub IsTimely : PushConfig → PushAuthRequest → ℕ → ℕ → ℕ → Type 0
IsTimely config auth issued expires now =
    (auth.expires_at_ms ≡ expires)
    × (issued - config.challenge_skew_ms ≤ auth.timestamp_ms)
    × (auth.timestamp_ms ≤ saturating_add expires config.challenge_skew_ms)
    × (auth.timestamp_ms ≤ saturating_add now config.challenge_skew_ms)
    × (now ≤ saturating_add expires config.challenge_skew_ms)

module _ (lib : Libraries) (config : PushConfig) where
  check_window_passes :
      (auth : PushAuthRequest) (valid : ValidatedAuth) (now : ℕ) (c : ChallengeEntry)
      → IsTimely config auth c.issued_at_ms c.expires_at_ms now
      → check_window lib config auth c valid ≡ ok valid
  unfolding check_window
  check_window_passes auth valid now c t = ground (arith, t.0, t.1, t.2)

  pub take_challenge-get :
      (auth : PushAuthRequest) (valid : ValidatedAuth) (nonce : Bytes) (now : ℕ) (s : PushService)
      (c : ChallengeEntry)
      → Dict.get nonce s.challenges ≡ some c
      → IsTimely config auth c.issued_at_ms c.expires_at_ms now
      → (take_challenge lib config auth valid nonce now s).1 ≡ ok valid
  unfolding take_challenge
  take_challenge-get auth valid nonce now s c e t =
      let k =
        get-retain-some (λ k e. leb now (saturating_add e.expires_at_ms config.challenge_skew_ms))
          nonce c s.challenges e (ground (arith, t.4)) in
      rw (k, take_challenge) (check_window_passes auth valid now c t)

  check_request_passes :
      (auth : PushAuthRequest) (now : ℕ)
      → is_empty (lib.trim auth.signature) ≡ false
      → is_empty (lib.trim auth.nonce) ≡ false
      → auth.timestamp_ms ≤ saturating_add now config.challenge_skew_ms
      → now ≤ saturating_add auth.expires_at_ms config.challenge_skew_ms
      → check_request lib config auth now ≡ ok tt
  unfolding check_request
  check_request_passes auth now g n h k = ground arith

  -- Let a challenge be drawn whose nonce is not empty. An authentication with its nonce and
  -- expiry, with a signature that is not blank, a wallet that passes its checks, and a time that
  -- lies in the challenge's validity and not after now, both give or take the skew, is accepted,
  -- as long as the challenge has not expired by more than the skew.
  pub validate_auth-create_challenge :
      (nonce : Bytes) (issued now : ℕ) (s : PushService) (auth : PushAuthRequest)
      (valid : ValidatedAuth)
      → check_wallet lib config auth ≡ ok valid
      → lib.trim auth.nonce ≡ nonce
      → is_empty nonce ≡ false
      → is_empty (lib.trim auth.signature) ≡ false
      → IsTimely config auth issued (saturating_add issued config.challenge_ttl_ms) now
      → (validate_auth lib config (some auth) now (create_challenge lib config nonce issued s).0).1
        ≡ ok valid
  unfolding validate_auth create_challenge
  validate_auth-create_challenge nonce issued now s auth valid w n b g t =
      let expires = saturating_add issued config.challenge_ttl_ms in
      let c : ChallengeEntry = record { issued_at_ms = issued; expires_at_ms = expires } in
      let s' = (create_challenge lib config nonce issued s).0 in
      let kept =
        Dict.retain (λ k e. leb (issued - config.challenge_skew_ms) e.expires_at_ms) s.challenges in
      let e : Dict.get (lib.trim auth.nonce) s'.challenges ≡ some c =
        get-insert nonce c (lib.trim auth.nonce) kept ∙ rw (n, bytes_eq_refl nonce) refl in
      rw (w, check_request_passes auth now g (ap is_empty n ∙ b) t.3 (rw t.0 t.4), validate_auth)
        (take_challenge-get auth valid (lib.trim auth.nonce) now s' c e t)

  check_request-signature :
      (auth : PushAuthRequest) (signature : Bytes) (now : ℕ)
      → is_empty (lib.trim auth.signature) ≡ false
      → is_empty (lib.trim signature) ≡ false
      → check_request lib config (record auth { signature = signature }) now
        ≡ check_request lib config auth now
  unfolding check_request
  check_request-signature auth signature now h g = rw (h, g) refl

  -- An authentication and the same one with another signature are checked with the same result and
  -- leave the same state, if neither signature is blank.
  pub validate_auth-signature :
      (auth : PushAuthRequest) (signature : Bytes) (now : ℕ) (s : PushService)
      → is_empty (lib.trim auth.signature) ≡ false
      → is_empty (lib.trim signature) ≡ false
      → validate_auth lib config (some (record auth { signature = signature })) now s
        ≡ validate_auth lib config (some auth) now s
  unfolding validate_auth check_wallet take_challenge check_window
  validate_auth-signature auth signature now s h g =
      ap
        (λ r.
          checked lib config (check_wallet lib config auth) r
            (λ valid. take_challenge lib config auth valid (lib.trim auth.nonce) now s) s)
        (check_request-signature auth signature now h g)
