-- ===== src/Push/Dispatch/Once.antt =====
-- No device is notified of one transaction twice within the time for which a send is remembered.
pub mod Calls
use kasia_indexer.Prelude.{
  ℕ, ◌+◌, ◌-◌, ◌≤◌, ◌<◌, ◌≡◌, ◌⊎◌, inl, inr, refl, sym, ap, ◌∙◌, Bool, true, false, ◌&&◌, Option,
  none, some, List, [], ◌∷◌, All, leb, if◌then◌else◌, arith, Bool-cases, Option-cases, is_some,
}
use kasia_indexer.Prelude.Bytes.{Bytes, bytes_eq, bytes_eq_refl, bytes_eq_sound}
use kasia_indexer.Prelude.Dict.{Dict, get-insert, get-retain-some}
use kasia_indexer.Prelude.Dict
use kasia_indexer.Push.{PushConfig, DeviceRegistration}
use kasia_indexer.Push.Dispatch.{
  Attempt, Notification, SendOutcome, sent, invalid_token, failed, Delivery, next_delivery,
  later_deliveries, Dispatcher, unexpired, set_recent, set_counters, dispatch_dedupe_key, attempt,
  send_one, send_all, send_presence_one, send_presence_all, mark_sent,
}

abbrev pub is_sent : SendOutcome → Bool
is_sent sent = true
is_sent invalid_token = false
is_sent failed = false

-- `a` is handed over for the token and the transaction of `b`, which was sent, and not later than
-- that is remembered.
abbrev pub repeats : ℕ → Attempt → Attempt → Bool
repeats ttl a b =
    (is_sent b.outcome
      && (bytes_eq b.device_token a.device_token
          && bytes_eq b.notification.tx_id a.notification.tx_id))
    && leb a.checked_at (b.answered_at + ttl)

-- what an attempt is marked under
abbrev key_of : Attempt → Bytes
key_of a = dispatch_dedupe_key a.device_token a.notification.tx_id

same_keys :
    (a b : Attempt)
    → bytes_eq b.device_token a.device_token ≡ true
    → bytes_eq b.notification.tx_id a.notification.tx_id ≡ true
    → key_of b ≡ key_of a
same_keys a b e d =
    ap (λ t. dispatch_dedupe_key t b.notification.tx_id)
      (bytes_eq_sound b.device_token a.device_token e)
    ∙ ap (λ t. dispatch_dedupe_key a.device_token t)
        (bytes_eq_sound b.notification.tx_id a.notification.tx_id d)

-- The attempts, the newest first.
abbrev pub NoRepeat : ℕ → List Attempt → Type 0
NoRepeat ttl [] = Unit
NoRepeat ttl (a ∷ older) = All (λ b. repeats ttl a b ≡ false) older × NoRepeat ttl older

-- An attempt that was sent is still marked, or is no longer remembered.
abbrev Remembered : ℕ → ℕ → Dict ℕ → Attempt → Type 0
Remembered ttl clock recent b =
    (b.answered_at ≤ clock)
    × ((is_sent b.outcome ≡ false)
        ⊎ ((b.answered_at + ttl < clock)
            ⊎ ((t : ℕ) × (Dict.get (key_of b) recent ≡ some t) × (b.answered_at ≤ t))))

pub All-map {ℓ κ μ} :
    {A : Type ℓ} {P : A → Type κ} {Q : A → Type μ} (xs : List A)
    → ((x : A) → P x → Q x)
    → All P xs
    → All Q xs
All-map [] f a = tt
All-map (x ∷ xs) f a = (f x a.0, All-map xs f a.1)

unexpired-Remembered :
    (ttl clock now : ℕ) (recent : Dict ℕ) (b : Attempt)
    → clock ≤ now
    → Remembered ttl clock recent b
    → Remembered ttl now (unexpired ttl now recent) b
unfolding unexpired
unexpired-Remembered ttl clock now recent b h (le, inl n) = (omega arith, inl n)
unexpired-Remembered ttl clock now recent b h (le, inr (inl old)) =
    (omega arith, inr (inl (omega arith)))
unexpired-Remembered ttl clock now recent b h (le, inr (inr (t, e, l))) =
    elim (Bool-cases (leb (now - ttl) t)) [
      | inl k ↦ (
        omega arith,
        inr (inr (t, get-retain-some (λ j ts. leb (now - ttl) ts) (key_of b) t recent e k, l)),
      )
      | inr k ↦ (omega arith, inr (inl (ground arith)))
    ]

insert-Remembered :
    (ttl clock now : ℕ) (key : Bytes) (recent : Dict ℕ) (b : Attempt)
    → clock ≤ now
    → Remembered ttl clock recent b
    → Remembered ttl now (Dict.insert key now recent) b
insert-Remembered ttl clock now key recent b h (le, inl n) = (omega arith, inl n)
insert-Remembered ttl clock now key recent b h (le, inr (inl old)) =
    (omega arith, inr (inl (omega arith)))
insert-Remembered ttl clock now key recent b h (le, inr (inr (t, e, l))) =
    elim (Bool-cases (bytes_eq key (key_of b))) [
      | inl k ↦ (
        omega arith,
        inr (inr (now, ground (arith, get-insert key now (key_of b) recent, k), omega arith)),
      )
      | inr k ↦ (
        omega arith,
        inr (inr (t, ground (arith, get-insert key now (key_of b) recent, k, e), l)),
      )
    ]

later-Remembered :
    (ttl clock now : ℕ) (recent : Dict ℕ) (b : Attempt)
    → clock ≤ now
    → Remembered ttl clock recent b
    → Remembered ttl now recent b
later-Remembered ttl clock now recent b h (le, inl n) = (omega arith, inl n)
later-Remembered ttl clock now recent b h (le, inr (inl old)) =
    (omega arith, inr (inl (omega arith)))
later-Remembered ttl clock now recent b h (le, inr (inr m)) = (omega arith, inr (inr m))

sent_is_marked : (t : ℕ) → some t ≡ none → ⊥
sent_is_marked t e = cc

-- Where the key is not marked, an attempt repeats none that is remembered.
Remembered-repeats :
    (ttl now : ℕ) (recent : Dict ℕ) (a b : Attempt)
    → Dict.get (key_of a) recent ≡ none
    → a.checked_at ≡ now
    → Remembered ttl now recent b
    → repeats ttl a b ≡ false
Remembered-repeats ttl now recent a b e c (le, inl n) = rw n refl
Remembered-repeats ttl now recent a b e c (le, inr (inl old)) = ground arith
Remembered-repeats ttl now recent a b e c (le, inr (inr (t, g, l))) =
    elim (Bool-cases (bytes_eq b.device_token a.device_token)) [
      | inr n ↦ ground (arith, n)
      | inl d ↦ elim (Bool-cases (bytes_eq b.notification.tx_id a.notification.tx_id)) [
        | inr n ↦ ground (arith, n)
        | inl f ↦
            let s = sym g ∙ ap (λ x. Dict.get x recent) (same_keys a b d f) ∙ e in
            absurd (sent_is_marked t s)
      ]
    ]

mark-Remembered :
    (ttl clock now : ℕ) (outcome : SendOutcome) (key : Bytes) (recent : Dict ℕ) (b : Attempt)
    → clock ≤ now
    → Remembered ttl clock recent b
    → Remembered ttl now (mark_sent outcome ttl key now recent) b
mark-Remembered ttl clock now sent key recent b h r =
    insert-Remembered ttl now now key (unexpired ttl now recent) b (omega arith)
      (unexpired-Remembered ttl clock now recent b h r)
mark-Remembered ttl clock now invalid_token key recent b h r =
    later-Remembered ttl clock now recent b h r
mark-Remembered ttl clock now failed key recent b h r = later-Remembered ttl clock now recent b h r

-- the new attempt itself
abbrev new_attempt : Bytes → Notification → ℕ → SendOutcome → ℕ → Attempt
new_attempt device_token n checked outcome answered = record {
  device_token = device_token;
  notification = n;
  checked_at = checked;
  outcome = outcome;
  answered_at = answered;
}

marked-Remembered :
    (ttl checked now : ℕ) (outcome : SendOutcome) (token : Bytes) (n : Notification)
    (recent : Dict ℕ)
    → Remembered ttl now
        (mark_sent outcome ttl (dispatch_dedupe_key token n.tx_id) now recent)
        (new_attempt token n checked outcome now)
marked-Remembered ttl checked now sent token n recent =
    let key = dispatch_dedupe_key token n.tx_id in
    (
      omega arith,
      inr (
          inr (
            now,
            ground (arith, get-insert key now key (unexpired ttl now recent), bytes_eq_refl key),
            omega arith,
          )),
    )
marked-Remembered ttl checked now invalid_token token n recent = (omega arith, inl refl)
marked-Remembered ttl checked now failed token n recent = (omega arith, inl refl)

module _ (config : PushConfig) where
  abbrev ttl : ℕ
  ttl = config.dispatch_dedupe_ttl_ms

  -- each attempt that counts is remembered, and none repeats another
  abbrev pub IsOnce : Dispatcher → Type 0
  IsOnce d =
      All (Remembered ttl d.clock d.service.recent_dispatches) d.attempts × NoRepeat ttl d.attempts

  attempt-IsOnce :
      (n : Notification) (r : DeviceRegistration) (now : ℕ) (delivery : Delivery) (d : Dispatcher)
      → d.clock ≡ now
      → Dict.get (dispatch_dedupe_key r.device_token n.tx_id) d.service.recent_dispatches ≡ none
      → IsOnce d
      → IsOnce (attempt config n r (dispatch_dedupe_key r.device_token n.tx_id) now delivery d)
  unfolding attempt
  attempt-IsOnce n r now delivery d c e (a, o) =
      let recent = d.service.recent_dispatches in
      let answered = now + delivery.during in
      let key = dispatch_dedupe_key r.device_token n.tx_id in
      let new = new_attempt r.device_token n now delivery.outcome answered in
      (
        (
          marked-Remembered ttl now answered delivery.outcome r.device_token n recent,
          All-map d.attempts
              (λ b r.
                mark-Remembered ttl d.clock answered delivery.outcome key recent b (omega arith) r)
              a,
        ),
        (
          All-map d.attempts (λ b r. Remembered-repeats ttl d.clock recent new b e (omega arith) r)
              a,
          o,
        ),
      )

  send_one-IsOnce :
      (n : Notification) (r : DeviceRegistration) (d : Dispatcher)
      → IsOnce d
      → IsOnce (send_one config n.tx_id n r d)
  unfolding send_one
  send_one-IsOnce n r d (a, o) =
      let delivery = next_delivery d.deliveries in
      let now = d.clock + delivery.before in
      let recent = unexpired ttl now d.service.recent_dispatches in
      let key = dispatch_dedupe_key r.device_token n.tx_id in
      let checked =
        set_recent recent (record d { clock = now; deliveries = later_deliveries d.deliveries }) in
      let b : All (Remembered ttl now recent) d.attempts =
        All-map d.attempts
          (λ x m.
            unexpired-Remembered ttl d.clock now d.service.recent_dispatches x (omega arith) m)
          a in
      elim (Option-cases (Dict.get key recent)) [
        | inl e ↦ rw e (attempt-IsOnce n r now delivery checked refl e (b, o))
        | inr (t, e) ↦ rw e (b, o)
      ]

  pub send_all-IsOnce :
      (n : Notification) (rs : List DeviceRegistration) (d : Dispatcher)
      → IsOnce d
      → IsOnce (send_all config n.tx_id n rs d)
  unfolding send_all
  send_all-IsOnce n [] d o = o
  send_all-IsOnce n (r ∷ rs) d o =
      send_all-IsOnce n rs (send_one config n.tx_id n r d) (send_one-IsOnce n r d o)

  pub send_presence_all-IsOnce :
      (rs : List DeviceRegistration) (d : Dispatcher)
      → IsOnce d
      → IsOnce (send_presence_all config rs d)
  unfolding send_presence_all send_presence_one
  send_presence_all-IsOnce [] d o = o
  send_presence_all-IsOnce (r ∷ rs) d (a, n) =
      send_presence_all-IsOnce rs (send_presence_one config r d) (
        All-map d.attempts
            (λ b m.
              later-Remembered ttl d.clock (send_presence_one config r d).clock
                d.service.recent_dispatches b (omega arith) m)
            a,
        n,
      )
