-- ===== src/Push/Requests/Challenges.antt =====
-- What follows the check of an authentication leaves the challenges alone.
use kasia_indexer.Prelude.{ℕ, ◌≡◌, inl, inr, refl, not, List, [], ◌∷◌, Bool-cases, Option-cases}
use kasia_indexer.Prelude.Bytes.{Bytes, bytes_eq}
use kasia_indexer.Prelude.Dict.{get-insert, get-retain-none}
use kasia_indexer.Prelude.Dict
use kasia_indexer.Push.{
  Libraries, PushConfig, PushService, DeviceRegistration, PushRegistrationRequest,
  PushUpdateRequest, ValidatedAuth,
}
use kasia_indexer.Push.Registry.{
  DiskWrite, written, broken, persist_registrations, remove_stale_registrations, store_registration,
  update_registration, remove_registration, is_foreign,
}
use kasia_indexer.Push.Dispatch.{Dispatcher, send_presence_all, send_presence_one}
use kasia_indexer.Push.Dispatch.Events.{finish, prune_stale}

persist-challenges :
    (disk : DiskWrite) (s : PushService)
    → (persist_registrations disk s).0.challenges ≡ s.challenges
unfolding persist_registrations
persist-challenges written s = refl
persist-challenges (broken left) s = refl

finish-challenges :
    (disk : DiskWrite) (d : Dispatcher) (stale : List Bytes)
    → (finish disk d stale).0.service.challenges ≡ d.service.challenges
unfolding remove_stale_registrations
finish-challenges disk d [] = refl
finish-challenges disk d (t ∷ ts) = persist-challenges disk _

pub prune-challenges :
    (disk : DiskWrite) (d : Dispatcher)
    → (prune_stale disk d).0.service.challenges ≡ d.service.challenges
unfolding prune_stale
prune-challenges disk d = finish-challenges disk d d.stale_tokens

module _ (lib : Libraries) (config : PushConfig) where
  pub send_presence_all-challenges :
      (rs : List DeviceRegistration) (d : Dispatcher)
      → (send_presence_all config rs d).service.challenges ≡ d.service.challenges
  unfolding send_presence_all send_presence_one
  send_presence_all-challenges [] d = refl
  send_presence_all-challenges (r ∷ rs) d =
      send_presence_all-challenges rs (send_presence_one config r d)

  pub store-challenges :
      (q : PushRegistrationRequest) (now : ℕ) (disk : DiskWrite) (t y : Bytes)
      (valid : ValidatedAuth) (s : PushService)
      → (store_registration lib config q now disk t y valid s).0.challenges ≡ s.challenges
  unfolding store_registration
  store-challenges q now disk t y valid s = persist-challenges disk _

  pub update-challenges :
      (q : PushUpdateRequest) (now : ℕ) (disk : DiskWrite) (t y : Bytes) (valid : ValidatedAuth)
      (s : PushService)
      → (update_registration lib config q now disk t y valid s).0.challenges ≡ s.challenges
  unfolding update_registration
  update-challenges q now disk t y valid s = elim (Option-cases (Dict.get t s.registrations)) [
    | inl e ↦ rw (e, update_registration) refl
    | inr (r, e) ↦ elim (Bool-cases (not (bytes_eq r.wallet_pubkey valid.wallet_pubkey))) [
      | inl f ↦ rw (e, update_registration) (rw f refl)
      | inr f ↦ rw (e, update_registration) (rw f (persist-challenges disk _))
    ]
  ]

  pub remove-challenges :
      (disk : DiskWrite) (t y : Bytes) (valid : ValidatedAuth) (s : PushService)
      → (remove_registration lib config disk t y valid s).0.challenges ≡ s.challenges
  unfolding remove_registration
  remove-challenges disk t y valid s =
      elim (Bool-cases (is_foreign lib config (Dict.get t s.registrations) valid)) [
        | inl f ↦ rw (f, remove_registration) refl
        | inr f ↦ rw (f, remove_registration) (persist-challenges disk _)
      ]
