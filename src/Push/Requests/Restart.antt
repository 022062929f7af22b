-- ===== src/Push/Requests/Restart.antt =====
-- What a request has stored is what a restart reads.
use kasia_indexer.Prelude.{
  ℕ, ◌≡◌, ◌∙◌, inl, inr, refl, ap, Bool, true, false, not, Option, none, some, [], ◌∷◌,
  if◌then◌else◌, arith, Bool-cases, Option-cases,
}
use kasia_indexer.Prelude.Bytes.{Bytes, bytes_eq, bytes_eq_sound}
use kasia_indexer.Prelude.Dict.{
  Dict, IsMap, AllEntries, get-insert, insert-IsMap, remove-IsMap, retain-IsMap, AllEntries-insert,
  AllEntries-remove, AllEntries-retain, AllEntries-get,
}
use kasia_indexer.Prelude.Dict
use kasia_indexer.Db.{Kaspa}
use kasia_indexer.Push.{
  Libraries, PushConfig, PushService, DeviceRegistration, PushAuthRequest, PushRegistrationRequest,
  PushUpdateRequest, ValidatedAuth, Result, ok, err, Result-cases,
}
use kasia_indexer.Push.Auth.{validate_auth}
use kasia_indexer.Push.Registry.{
  DiskWrite, written, broken, persist_registrations, collect_registrations, load_registrations,
  check_device, and_continue, authenticated, stays, store_registration, registration_of,
  update_registration, remove_registration, updated, is_foreign, register, update, unregister,
}
use kasia_indexer.Push.Dispatch.{Dispatcher}
use kasia_indexer.Push.Requests.{
  Request, create_challenge_now, register_device, update_device, unregister_device, send_presence,
  handle,
}
use kasia_indexer.Push.Requests.Foreign.{validate_auth-Checks}

abbrev HasToken : Bytes → DeviceRegistration → Type 0
HasToken t r = r.device_token ≡ t

-- each device stands once, under its own token
abbrev pub IsRegistry : Dict DeviceRegistration → Type 0
IsRegistry m = IsMap m × AllEntries HasToken m

abbrev over : Option DeviceRegistration → Option DeviceRegistration → Option DeviceRegistration
over none o = o
over (some r) o = some r

get-collect :
    (j : Bytes) (m acc : Dict DeviceRegistration)
    → IsRegistry m
    → Dict.get j (collect_registrations (Dict.values m) acc) ≡ over (Dict.get j m) (Dict.get j acc)
get-collect j [] acc r = refl
get-collect j ((i, w) ∷ m) acc ((u, v), (e, a)) =
    get-collect j m (Dict.insert w.device_token w acc) (v, a)
    ∙ ground (arith, get-insert w.device_token w j acc, bytes_eq_sound i j)

pub load-values :
    (m : Dict DeviceRegistration) (j : Bytes)
    → IsRegistry m
    → Dict.get j (load_registrations (some (Dict.values m))) ≡ Dict.get j m
unfolding load_registrations
load-values m j r = get-collect j m [] r ∙ over_none (Dict.get j m)
  where
    over_none : (o : Option DeviceRegistration) → over o none ≡ o
    over_none none = refl
    over_none (some r) = refl

-- the requests that write the file where they succeed
abbrev pub writes : Request → Bool
writes (register_device q now auth_now disk) = true
writes (update_device q now auth_now disk) = true
writes (unregister_device q auth_now disk) = true
writes (create_challenge_now nonce now) = false
writes (send_presence q disk) = false

-- where the request succeeds, the file holds the registrations
abbrev Persisted : PushService × Result (Unit {0}) → Type 0
Persisted (s, ok u) = s.registrations_file ≡ some (Dict.values s.registrations)
Persisted (s, err e) = Unit

abbrev Stored : PushService × Result (Unit {0}) → Type 0
Stored x = IsRegistry x.0.registrations × Persisted x

persist-Stored :
    (disk : DiskWrite) (s : PushService)
    → IsRegistry s.registrations
    → Stored (persist_registrations disk s)
unfolding persist_registrations
persist-Stored written s r = (r, refl)
persist-Stored (broken left) s r = (r, tt)

module _ (lib : Libraries) (config : PushConfig) where
  and_continue-Stored :
      (next : ValidatedAuth → PushService → PushService × Result (Unit {0}))
      (x : PushService × Result ValidatedAuth)
      → ((valid : ValidatedAuth) (u : PushService)
          → IsRegistry u.registrations
          → Stored (next valid u))
      → IsRegistry x.0.registrations
      → Stored (and_continue lib config next x)
  and_continue-Stored next (u, err e) f r = (r, tt)
  and_continue-Stored next (u, ok valid) f r = f valid u r

  authenticated-Stored :
      (device_token raw_type : Bytes) (auth : Option PushAuthRequest) (now : ℕ)
      (next : Bytes → Bytes → ValidatedAuth → PushService → PushService × Result (Unit {0}))
      (s : PushService)
      → ((token token_type : Bytes) (valid : ValidatedAuth) (u : PushService)
          → IsRegistry u.registrations
          → Stored (next token token_type valid u))
      → IsRegistry s.registrations
      → Stored (authenticated lib config device_token raw_type auth now next s)
  unfolding authenticated
  authenticated-Stored device_token raw_type auth now next s f r =
      elim (Result-cases (check_device lib config device_token raw_type)) [
        | inr (e, c) ↦ rw (c, authenticated) (r, tt)
        | inl ((token, token_type), c) ↦
            rw (c, authenticated)
              (and_continue-Stored (next token token_type) (validate_auth lib config auth now s)
                (f token token_type) (rw (validate_auth-Checks lib config auth now s).0 r))
      ]

  insert-IsRegistry :
      (t : Bytes) (r : DeviceRegistration) (m : Dict DeviceRegistration)
      → r.device_token ≡ t
      → IsRegistry m
      → IsRegistry (Dict.insert t r m)
  insert-IsRegistry t r m e (u, a) = (insert-IsMap t r m u, AllEntries-insert HasToken t r m e a)

  replaced-IsRegistry :
      (b : Bool) (p : Bytes → DeviceRegistration → Bool) (m : Dict DeviceRegistration)
      → IsRegistry m
      → IsRegistry (if b then Dict.retain p m else m)
  replaced-IsRegistry true p m (u, a) = (retain-IsMap p m u, AllEntries-retain HasToken p m a)
  replaced-IsRegistry false p m r = r

  store-Stored :
      (q : PushRegistrationRequest) (now : ℕ) (disk : DiskWrite) (token token_type : Bytes)
      (valid : ValidatedAuth) (u : PushService)
      → IsRegistry u.registrations
      → Stored (store_registration lib config q now disk token token_type valid u)
  unfolding store_registration registration_of
  store-Stored q now disk token token_type valid u r = persist-Stored disk _ (
      insert-IsRegistry token _ _ refl (
        replaced-IsRegistry q.replace_wallet_devices (stays lib config token valid) u.registrations
          r))

  update-Stored :
      (q : PushUpdateRequest) (now : ℕ) (disk : DiskWrite) (token token_type : Bytes)
      (valid : ValidatedAuth) (u : PushService)
      → IsRegistry u.registrations
      → Stored (update_registration lib config q now disk token token_type valid u)
  unfolding update_registration updated
  update-Stored q now disk token token_type valid u r =
      elim (Option-cases (Dict.get token u.registrations)) [
        | inl e ↦ rw (e, update_registration) (r, tt)
        | inr (old, e) ↦ elim (Bool-cases (not (bytes_eq old.wallet_pubkey valid.wallet_pubkey))) [
          | inl f ↦ rw (e, update_registration) (rw f (r, tt))
          | inr f ↦
              rw (e, update_registration)
                (rw f (
                  persist-Stored disk _ (
                    insert-IsRegistry token _ u.registrations
                      (AllEntries-get HasToken token old u.registrations r.1 e) r)))
        ]
      ]

  remove-Stored :
      (disk : DiskWrite) (token token_type : Bytes) (valid : ValidatedAuth) (u : PushService)
      → IsRegistry u.registrations
      → Stored (remove_registration lib config disk token token_type valid u)
  unfolding remove_registration
  remove-Stored disk token token_type valid u (m, a) =
      elim (Bool-cases (is_foreign lib config (Dict.get token u.registrations) valid)) [
        | inl f ↦ rw (f, remove_registration) ((m, a), tt)
        | inr f ↦
            rw (f, remove_registration)
              (persist-Stored disk _ (
                remove-IsMap token u.registrations m,
                AllEntries-remove HasToken token u.registrations a,
              ))
      ]

module _ (lib : Libraries) (k : Kaspa) (config : PushConfig) where
  handle-Stored :
      (q : Request) (d : Dispatcher)
      → writes q ≡ true
      → IsRegistry d.service.registrations
      → Stored ((handle lib k config q d).0.service, (handle lib k config q d).1)
  unfolding handle register update unregister
  handle-Stored (register_device q now auth_now disk) d w r =
      authenticated-Stored lib config q.device_token q.token_type q.auth auth_now
        (store_registration lib config q now disk) d.service (store-Stored lib config q now disk) r
  handle-Stored (update_device q now auth_now disk) d w r =
      authenticated-Stored lib config q.device_token q.token_type q.auth auth_now
        (update_registration lib config q now disk) d.service (update-Stored lib config q now disk)
        r
  handle-Stored (unregister_device q auth_now disk) d w r =
      authenticated-Stored lib config q.device_token q.token_type q.auth auth_now
        (remove_registration lib config disk) d.service (remove-Stored lib config disk) r
  handle-Stored (create_challenge_now nonce now) d w r = cc
  handle-Stored (send_presence q disk) d w r = cc

  stored_file :
      (s : PushService) (x : Result (Unit {0}))
      → x ≡ ok tt
      → Persisted (s, x)
      → s.registrations_file ≡ some (Dict.values s.registrations)
  stored_file s (ok u) e p = p
  stored_file s (err x) e p = cc

  -- Let each device stand once and under its own token. If a request to register, to update or to
  -- remove a device succeeds, that is still so, and the registrations that are loaded from the
  -- file afterwards are those in memory.
  pub load_registrations-handle :
      (q : Request) (d : Dispatcher)
      → writes q ≡ true
      → IsRegistry d.service.registrations
      → (handle lib k config q d).1 ≡ ok tt
      → IsRegistry (handle lib k config q d).0.service.registrations
        × ((t : Bytes)
            → Dict.get t (load_registrations (handle lib k config q d).0.service.registrations_file)
              ≡ Dict.get t (handle lib k config q d).0.service.registrations)
  load_registrations-handle q d w r e =
      let (r', p) = handle-Stored q d w r in
      let s = (handle lib k config q d).0.service in
      (
        r',
        λ t.
            ap (λ f. Dict.get t (load_registrations f))
              (stored_file s (handle lib k config q d).1 e p)
            ∙ load-values s.registrations t r',
      )
