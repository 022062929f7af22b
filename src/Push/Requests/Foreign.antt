-- ===== src/Push/Requests/Foreign.antt =====
-- A device of another wallet is neither updated nor removed.
use kasia_indexer.Prelude.{
  ℕ, ◌≡◌, ◌∙◌, inl, inr, refl, ap, subst, Bool, true, false, not, ◌||◌, Option, none, some, leb,
  ltb, ◌-◌, ◌==◌, if◌then◌else◌, arith, Bool-cases, Option-cases,
}
use kasia_indexer.Prelude.Bytes.{Bytes, bytes_eq, bytes_eq_refl, bytes_eq_sound}
use kasia_indexer.Prelude.Dict.{Dict, get-insert, get-remove}
use kasia_indexer.Prelude.Dict
use kasia_indexer.Db.{Kaspa}
use kasia_indexer.Push.{
  Libraries, PushConfig, PushService, DeviceRegistration, ChallengeEntry, PushAuthRequest,
  PushUpdateRequest, ValidatedAuth, Result, ok, err, Result-cases, saturating_add,
}
use kasia_indexer.Push.Auth.{
  validate_auth, take_challenge, check_window, check_request, check_wallet,
}
use kasia_indexer.Push.Registry.{
  DiskWrite, written, broken, persist_registrations, check_device, and_continue, authenticated,
  update_registration, remove_registration, updated, is_foreign, update, unregister,
}
use kasia_indexer.Push.Dispatch.{Dispatcher}
use kasia_indexer.Push.Requests.{
  Request, create_challenge_now, register_device, update_device, unregister_device, send_presence,
  auth_of, handle,
}

pub persist-registrations :
    (disk : DiskWrite) (s : PushService)
    → (persist_registrations disk s).0.registrations ≡ s.registrations
unfolding persist_registrations
persist-registrations written s = refl
persist-registrations (broken left) s = refl

-- the requests that are about a device that is registered
abbrev pub is_bound : Request → Bool
is_bound (update_device q now auth_now disk) = true
is_bound (unregister_device q auth_now disk) = true
is_bound (create_challenge_now nonce now) = false
is_bound (register_device q now auth_now disk) = false
is_bound (send_presence q disk) = false

module _ (lib : Libraries) (config : PushConfig) where
  -- whether an authentication is for this public key
  abbrev pub names_key : Option PushAuthRequest → Bytes → Bool
  names_key none key = false
  names_key (some auth) key = bytes_eq (lib.to_lowercase (lib.trim auth.wallet_pubkey)) key

  abbrev pub Names : Option PushAuthRequest → Result ValidatedAuth → Type 0
  Names auth (ok valid) = names_key auth valid.wallet_pubkey ≡ true
  Names auth (err e) = Unit

  -- The check leaves the registrations alone, and what it passes has the key of the request.
  abbrev pub Checks :
      Option PushAuthRequest → PushService → PushService × Result ValidatedAuth → Type 0
  Checks auth s x = (x.0.registrations ≡ s.registrations) × Names auth x.1

  check_wallet-Names :
      (auth : PushAuthRequest) (valid : ValidatedAuth)
      → check_wallet lib config auth ≡ ok valid
      → names_key (some auth) valid.wallet_pubkey ≡ true
  unfolding check_wallet
  check_wallet-Names auth valid e =
      ground (arith, bytes_eq_refl (lib.to_lowercase (lib.trim auth.wallet_pubkey)))

  if_Names :
      (auth : Option PushAuthRequest) (b : Bool) (x y : Result ValidatedAuth)
      → Names auth x
      → Names auth y
      → Names auth (if b then x else y)
  if_Names auth true x y p q = p
  if_Names auth false x y p q = q

  check_window-Names :
      (auth : PushAuthRequest) (c : ChallengeEntry) (valid : ValidatedAuth)
      → names_key (some auth) valid.wallet_pubkey ≡ true
      → Names (some auth) (check_window lib config auth c valid)
  unfolding check_window
  check_window-Names auth c valid n =
      if_Names (some auth) (not (auth.expires_at_ms == c.expires_at_ms)) _ _ tt (
        if_Names (some auth)
          (ltb auth.timestamp_ms (c.issued_at_ms - config.challenge_skew_ms)
            || ltb (saturating_add c.expires_at_ms config.challenge_skew_ms) auth.timestamp_ms)
          _ _ tt n)

  take_challenge-Checks :
      (auth : PushAuthRequest) (valid : ValidatedAuth) (nonce : Bytes) (now : ℕ) (s : PushService)
      → names_key (some auth) valid.wallet_pubkey ≡ true
      → Checks (some auth) s (take_challenge lib config auth valid nonce now s)
  unfolding take_challenge
  take_challenge-Checks auth valid nonce now s n =
      elim (Option-cases (
        Dict.get nonce (
          Dict.retain (λ k e. leb now (saturating_add e.expires_at_ms config.challenge_skew_ms))
            s.challenges))) [
              | inl e ↦ rw (e, take_challenge) (refl, tt)
              | inr (c, e) ↦ rw (e, take_challenge) (refl, check_window-Names auth c valid n)
            ]

  pub validate_auth-Checks :
      (auth : Option PushAuthRequest) (now : ℕ) (s : PushService)
      → Checks auth s (validate_auth lib config auth now s)
  unfolding validate_auth
  validate_auth-Checks none now s = (refl, tt)
  validate_auth-Checks (some auth) now s = elim (Result-cases (check_wallet lib config auth)) [
    | inr (e, h) ↦ rw (h, validate_auth) (refl, tt)
    | inl (valid, h) ↦ elim (Result-cases (check_request lib config auth now)) [
      | inr (e, h') ↦ rw (h, h', validate_auth) (refl, tt)
      | inl (u, h') ↦
          rw (h, h', validate_auth)
            (take_challenge-Checks auth valid (lib.trim auth.nonce) now s
              (check_wallet-Names auth valid h))
    ]
  ]

  -- the device is still registered as it was
  abbrev Holds : Bytes → DeviceRegistration → PushService × Result (Unit {0}) → Type 0
  Holds t r x = Dict.get t x.0.registrations ≡ some r

  and_continue-Holds :
      (auth : Option PushAuthRequest) (t : Bytes) (r : DeviceRegistration)
      (next : ValidatedAuth → PushService → PushService × Result (Unit {0}))
      (x : PushService × Result ValidatedAuth)
      → ((valid : ValidatedAuth) (u : PushService)
          → names_key auth valid.wallet_pubkey ≡ true
          → Dict.get t u.registrations ≡ some r
          → Holds t r (next valid u))
      → Names auth x.1
      → Dict.get t x.0.registrations ≡ some r
      → Holds t r (and_continue lib config next x)
  and_continue-Holds auth t r next (u, err e) keep n h = h
  and_continue-Holds auth t r next (u, ok valid) keep n h = keep valid u n h

  authenticated-Holds :
      (device_token raw_type : Bytes) (auth : Option PushAuthRequest) (now : ℕ)
      (next : Bytes → Bytes → ValidatedAuth → PushService → PushService × Result (Unit {0}))
      (s : PushService) (t : Bytes) (r : DeviceRegistration)
      → ((token token_type : Bytes) (valid : ValidatedAuth) (u : PushService)
          → names_key auth valid.wallet_pubkey ≡ true
          → Dict.get t u.registrations ≡ some r
          → Holds t r (next token token_type valid u))
      → Dict.get t s.registrations ≡ some r
      → Holds t r (authenticated lib config device_token raw_type auth now next s)
  unfolding authenticated
  authenticated-Holds device_token raw_type auth now next s t r keep h =
      let (same, names) = validate_auth-Checks auth now s in
      elim (Result-cases (check_device lib config device_token raw_type)) [
        | inr (e, c) ↦ rw (c, authenticated) h
        | inl ((token, token_type), c) ↦
            rw (c, authenticated)
              (and_continue-Holds auth t r (next token token_type)
                (validate_auth lib config auth now s) (keep token token_type) names (rw same h))
      ]

  -- the key of the request is not that of another wallet's device
  other_key :
      (auth : Option PushAuthRequest) (key other : Bytes)
      → names_key auth key ≡ true
      → names_key auth other ≡ false
      → bytes_eq other key ≡ false
  other_key none key other n m = cc
  other_key (some a) key other n m = ground (arith, bytes_eq_sound other key)

  -- a device whose key is the request's is another one
  distinct :
      (token t key : Bytes) (old r : DeviceRegistration) (m : Dict DeviceRegistration)
      → Dict.get token m ≡ some old
      → Dict.get t m ≡ some r
      → not (bytes_eq old.wallet_pubkey key) ≡ false
      → bytes_eq r.wallet_pubkey key ≡ false
      → bytes_eq token t ≡ false
  distinct token t key old r m e h f n = elim (Bool-cases (bytes_eq token t)) [
    | inr b ↦ b
    | inl b ↦
        let q : Dict.get t m ≡ some old =
          subst (λ x. Dict.get x m ≡ some old) (bytes_eq_sound token t b) e in
        absurd (ground (arith, q, h, f, n))
  ]

  update_registration-Holds :
      (q : PushUpdateRequest) (now : ℕ) (disk : DiskWrite) (t : Bytes) (r : DeviceRegistration)
      (token token_type : Bytes) (valid : ValidatedAuth) (u : PushService)
      → bytes_eq r.wallet_pubkey valid.wallet_pubkey ≡ false
      → Dict.get t u.registrations ≡ some r
      → Holds t r (update_registration lib config q now disk token token_type valid u)
  unfolding update_registration
  update_registration-Holds q now disk t r token token_type valid u n h =
      elim (Option-cases (Dict.get token u.registrations)) [
        | inl e ↦ rw (e, update_registration) h
        | inr (old, e) ↦ elim (Bool-cases (not (bytes_eq old.wallet_pubkey valid.wallet_pubkey))) [
          | inl f ↦ rw (e, update_registration) (rw f h)
          | inr f ↦
              rw (e, update_registration)
                (rw f (
                  ap (Dict.get t) (persist-registrations disk _)
                  ∙ get-insert token (updated lib config q token_type valid now old) t
                      u.registrations
                  ∙ rw (distinct token t valid.wallet_pubkey old r u.registrations e h f n) h))
        ]
      ]

  not_own :
      (token t : Bytes) (r : DeviceRegistration) (valid : ValidatedAuth)
      (m : Dict DeviceRegistration)
      → Dict.get t m ≡ some r
      → is_foreign lib config (Dict.get token m) valid ≡ false
      → bytes_eq r.wallet_pubkey valid.wallet_pubkey ≡ false
      → bytes_eq token t ≡ false
  not_own token t r valid m h f n = elim (Bool-cases (bytes_eq token t)) [
    | inr b ↦ b
    | inl b ↦
        let q : is_foreign lib config (Dict.get t m) valid ≡ false =
          subst (λ x. is_foreign lib config (Dict.get x m) valid ≡ false) (bytes_eq_sound token t b)
            f in
        absurd (ground (arith, q, h, n))
  ]

  remove_registration-Holds :
      (disk : DiskWrite) (t : Bytes) (r : DeviceRegistration) (token token_type : Bytes)
      (valid : ValidatedAuth) (u : PushService)
      → bytes_eq r.wallet_pubkey valid.wallet_pubkey ≡ false
      → Dict.get t u.registrations ≡ some r
      → Holds t r (remove_registration lib config disk token token_type valid u)
  unfolding remove_registration
  remove_registration-Holds disk t r token token_type valid u n h =
      elim (Bool-cases (is_foreign lib config (Dict.get token u.registrations) valid)) [
        | inl f ↦ rw (f, remove_registration) h
        | inr f ↦
            rw (f, remove_registration)
              (ap (Dict.get t) (persist-registrations disk _)
                ∙ get-remove token t u.registrations
                ∙ rw (not_own token t r valid u.registrations h f n) h)
      ]

module _ (lib : Libraries) (k : Kaspa) (config : PushConfig) where
  -- After a request to update or to remove a device, a device that is registered for a public key
  -- other than the one that the request's authentication names is registered as before, whatever
  -- comes of the write of the file.
  pub handle-is_bound :
      (q : Request) (d : Dispatcher) (t : Bytes) (r : DeviceRegistration)
      → is_bound q ≡ true
      → Dict.get t d.service.registrations ≡ some r
      → names_key lib config (auth_of q) r.wallet_pubkey ≡ false
      → Dict.get t (handle lib k config q d).0.service.registrations ≡ some r
  unfolding handle update unregister
  handle-is_bound (update_device q now auth_now disk) d t r b h n =
      authenticated-Holds lib config q.device_token q.token_type q.auth auth_now
        (update_registration lib config q now disk) d.service t r
        (λ token token_type valid u m e.
          update_registration-Holds lib config q now disk t r token token_type valid u
            (other_key lib config q.auth valid.wallet_pubkey r.wallet_pubkey m n) e)
        h
  handle-is_bound (unregister_device q auth_now disk) d t r b h n =
      authenticated-Holds lib config q.device_token q.token_type q.auth auth_now
        (remove_registration lib config disk) d.service t r
        (λ token token_type valid u m e.
          remove_registration-Holds lib config disk t r token token_type valid u
            (other_key lib config q.auth valid.wallet_pubkey r.wallet_pubkey m n) e)
        h
  handle-is_bound (create_challenge_now nonce now) d t r b h n = cc
  handle-is_bound (register_device q now auth_now disk) d t r b h n = cc
  handle-is_bound (send_presence q disk) d t r b h n = cc
