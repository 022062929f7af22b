-- ===== src/Push/Requests.antt =====
-- indexer/src/api/v1/push.rs: the requests that the HTTP API passes to the push service, one after
-- the other. Each comes with the times at which the clock is read, and with what comes of a write
-- of the file.
pub mod Once
pub mod Challenges
pub mod Replay
pub mod Foreign
pub mod Restart
use kasia_indexer.Prelude.{ℕ, Bool, false, Option, none, some, List, [], ◌∷◌}
use kasia_indexer.Prelude.Bytes.{Bytes, bytes_eq}
use kasia_indexer.Db.{Kaspa}
use kasia_indexer.Push.{
  Libraries, PushConfig, PushService, PushAuthRequest, PushRegistrationRequest, PushUpdateRequest,
  PushUnregisterRequest, PushPresenceRequest, Result, ok, err,
}
use kasia_indexer.Push.Auth.{create_challenge}
use kasia_indexer.Push.Registry.{DiskWrite, register, update, unregister}
use kasia_indexer.Push.Dispatch.{Dispatcher}
use kasia_indexer.Push.Dispatch.Events.{dispatch_presence}

pub data Request : Type 0 where
  -- the nonce that is drawn
  create_challenge_now : Bytes → ℕ → Request
  register_device : PushRegistrationRequest → ℕ → ℕ → DiskWrite → Request
  update_device : PushUpdateRequest → ℕ → ℕ → DiskWrite → Request
  unregister_device : PushUnregisterRequest → ℕ → DiskWrite → Request
  send_presence : PushPresenceRequest → DiskWrite → Request

abbrev pub auth_of : Request → Option PushAuthRequest
auth_of (create_challenge_now nonce now) = none
auth_of (register_device r now auth_now disk) = r.auth
auth_of (update_device r now auth_now disk) = r.auth
auth_of (unregister_device r auth_now disk) = r.auth
auth_of (send_presence r disk) = r.auth

-- whether the request is one for a challenge, and this nonce is drawn
abbrev pub issues : Bytes → Request → Bool
issues nonce (create_challenge_now drawn now) = bytes_eq drawn nonce
issues nonce (register_device r now auth_now disk) = false
issues nonce (update_device r now auth_now disk) = false
issues nonce (unregister_device r auth_now disk) = false
issues nonce (send_presence r disk) = false

abbrev pub on_service :
    Dispatcher → PushService × Result (Unit {0}) → Dispatcher × Result (Unit {0})
on_service d (s, r) = (record d { service = s }, r)

module _ (lib : Libraries) (k : Kaspa) (config : PushConfig) where
  unfoldable pub handle : Request → Dispatcher → Dispatcher × Result (Unit {0})
  handle (create_challenge_now nonce now) d =
      (record d { service = (create_challenge lib config nonce now d.service).0 }, ok tt)
  handle (register_device r now auth_now disk) d =
      on_service d (register lib config r now auth_now disk d.service)
  handle (update_device r now auth_now disk) d =
      on_service d (update lib config r now auth_now disk d.service)
  handle (unregister_device r auth_now disk) d =
      on_service d (unregister lib config r auth_now disk d.service)
  handle (send_presence r disk) d = dispatch_presence lib k config r disk d

  -- the requests with their responses
  unfoldable pub responses : List Request → Dispatcher → List (Request × Result (Unit {0}))
  responses [] d = []
  responses (q ∷ qs) d = let (d', r) = handle q d in (q, r) ∷ responses qs d'
