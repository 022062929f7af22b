-- ===== src/Push/Requests/Once.antt =====
-- A challenge is good for one request.
use kasia_indexer.Prelude.{
  ℕ, ◌≡◌, ◌∙◌, ◌⊎◌, inl, inr, refl, Bool, true, false, Option, none, some, leb, arith, Option-cases,
}
use kasia_indexer.Prelude.Bytes.{Bytes, bytes_eq, bytes_eq_sound}
use kasia_indexer.Prelude.Dict.{get-remove, get-insert, get-retain-none}
use kasia_indexer.Prelude.Dict
use kasia_indexer.Push.{
  Libraries, PushConfig, PushService, PushAuthRequest, ValidatedAuth, Result, ok, err, Result-cases,
  PushApiError, ChallengeEntry, saturating_add,
}
use kasia_indexer.Push.Auth.{validate_auth, take_challenge, check_request, check_wallet}
use kasia_indexer.Push.Registry.{check_device, and_continue, authenticated}

abbrev pub IsSpent : Bytes → PushService → Type 0
IsSpent nonce s = Dict.get nonce s.challenges ≡ none

abbrev pub Fails : {A : Type 0} → Result A → Type 0
Fails (ok a) = ⊥
Fails (err e) = Unit

module _ (lib : Libraries) (config : PushConfig) where
  -- whether an authentication answers the challenge of this nonce
  abbrev pub answers : Bytes → Option PushAuthRequest → Bool
  answers nonce none = false
  answers nonce (some auth) = bytes_eq (lib.trim auth.nonce) nonce

  -- What a request with this authentication does: no challenge comes back, the request fails where
  -- the challenge that it answers is spent, and it has spent it where it succeeds.
  abbrev pub Spends :
      {A : Type 0} → Option PushAuthRequest → PushService → PushService × Result A → Type 0
  Spends auth s x =
      ((j : Bytes) → IsSpent j s → IsSpent j x.0)
      × ((n : Bytes) → answers n auth ≡ true → IsSpent n s → Fails x.1)
      × ((n : Bytes) → answers n auth ≡ true → Fails x.1 ⊎ IsSpent n x.0)

  pub fail-Spends :
      (A : Type 0) (auth : Option PushAuthRequest) (s : PushService) (e : PushApiError)
      → Spends {A = A} auth s (s, err e)
  fail-Spends A auth s e = (λ j h. h, λ n a h. tt, λ n a. inl tt)

  take_challenge-Spends :
      (auth : PushAuthRequest) (valid : ValidatedAuth) (now : ℕ) (s : PushService)
      → Spends (some auth) s (take_challenge lib config auth valid (lib.trim auth.nonce) now s)
  unfolding take_challenge
  take_challenge-Spends auth valid now s =
      let nonce = lib.trim auth.nonce in
      let p = λ (k : Bytes) (e : ChallengeEntry).
        leb now (saturating_add e.expires_at_ms config.challenge_skew_ms) in
      let kept = Dict.retain p s.challenges in
      elim (Option-cases (Dict.get nonce kept)) [
        | inl e ↦
            rw (e, take_challenge)
              (λ j h. get-retain-none p j s.challenges h, λ n a h. tt, λ n a. inl tt)
        | inr (c, e) ↦
            rw (e, take_challenge)
              (
                λ j h. ground (arith, get-remove nonce j kept, get-retain-none p j s.challenges h),
                λ n a h. absurd (
                    ground
                      (arith, e, bytes_eq_sound nonce n a, get-retain-none p n s.challenges h)),
                λ n a. inr (get-remove nonce n kept ∙ rw a refl),
              )
      ]

  pub validate_auth-Spends :
      (auth : Option PushAuthRequest) (now : ℕ) (s : PushService)
      → Spends auth s (validate_auth lib config auth now s)
  unfolding validate_auth
  validate_auth-Spends none now s = (λ j h. h, λ n a h. tt, λ n a. inl tt)
  validate_auth-Spends (some auth) now s = elim (Result-cases (check_wallet lib config auth)) [
    | inr (e, h) ↦ rw (h, validate_auth) (fail-Spends ValidatedAuth (some auth) s e)
    | inl (valid, h) ↦ elim (Result-cases (check_request lib config auth now)) [
      | inr (e, h') ↦ rw (h, h', validate_auth) (fail-Spends ValidatedAuth (some auth) s e)
      | inl (u, h') ↦ rw (h, h', validate_auth) (take_challenge-Spends auth valid now s)
    ]
  ]

  -- what follows a check and leaves the challenges alone
  and_continue-Spends :
      (auth : Option PushAuthRequest) (s : PushService)
      (next : ValidatedAuth → PushService → PushService × Result (Unit {0}))
      (x : PushService × Result ValidatedAuth)
      → ((valid : ValidatedAuth) (t : PushService) → (next valid t).0.challenges ≡ t.challenges)
      → Spends auth s x
      → Spends auth s (and_continue lib config next x)
  and_continue-Spends auth s next (s', err e) same y = y
  and_continue-Spends auth s next (s', ok valid) same (keep, fails, spends) = (
    λ j h. rw (same valid s') (keep j h),
    λ n a h. absurd (fails n a h),
    λ n a. elim (spends n a) [ inl f ↦ absurd f | inr e ↦ inr (rw (same valid s') e) ],
  )

  pub authenticated-Spends :
      (device_token raw_type : Bytes) (auth : Option PushAuthRequest) (now : ℕ)
      (next : Bytes → Bytes → ValidatedAuth → PushService → PushService × Result (Unit {0}))
      (s : PushService)
      → ((t y : Bytes) (valid : ValidatedAuth) (u : PushService)
          → (next t y valid u).0.challenges ≡ u.challenges)
      → Spends auth s (authenticated lib config device_token raw_type auth now next s)
  unfolding authenticated
  authenticated-Spends device_token raw_type auth now next s same =
      elim (Result-cases (check_device lib config device_token raw_type)) [
        | inr (e, h) ↦ rw (h, authenticated) (fail-Spends (Unit {0}) auth s e)
        | inl ((t, y), h) ↦
            rw (h, authenticated)
              (and_continue-Spends auth s (next t y) (validate_auth lib config auth now s)
                (same t y) (validate_auth-Spends auth now s))
      ]
