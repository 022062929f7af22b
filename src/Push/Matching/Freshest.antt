-- ===== src/Push/Matching/Freshest.antt =====
-- Which wallet is the freshest, whatever the order in which the map of the updates is walked.
use kasia_indexer.Prelude.{
  ℕ, ◌+◌, ◌≤◌, ◌≡◌, ◌∙◌, ◌↔◌, ◌⊎◌, inl, inr, refl, sym, ap, subst, is_some, true, false, Option,
  none, some, List, [], ◌∷◌, All, fun_ext, if◌then◌else◌, arith, Bool-cases, Option-cases,
}
use kasia_indexer.Prelude.Bytes.{Bytes, bytes_eq, bytes_eq_refl, bytes_eq_sound, bytes_eq_comm}
use kasia_indexer.Prelude.Dict.{Dict, IsMap, AllEntries, get-insert, insert-IsMap, AllEntries-get}
use kasia_indexer.Prelude.Dict
use kasia_indexer.Push.{DeviceRegistration, u64_max}
use kasia_indexer.Push.Matching.{
  later, wallet_updates, place_update, sort_updates, fresh_by_margin, freshness_margin_ms,
  freshest_contextual_wallet,
}

-- the latest update of a wallet, by a walk over its registrations only
abbrev pub latest : Bytes → List DeviceRegistration → Option ℕ → Option ℕ
latest w [] o = o
latest w (r ∷ rs) o =
    latest w rs (if bytes_eq r.wallet_address w then some (later o r.updated_at_ms) else o)

get-wallet_updates :
    (w : Bytes) (rs : List DeviceRegistration) (m : Dict ℕ)
    → Dict.get w (wallet_updates rs m) ≡ latest w rs (Dict.get w m)
get-wallet_updates w [] m = refl
get-wallet_updates w (r ∷ rs) m =
    get-wallet_updates w rs _
    ∙ ap (latest w rs) (
        ground (
          arith,
          get-insert r.wallet_address (later (Dict.get r.wallet_address m) r.updated_at_ms) w m,
          bytes_eq_sound r.wallet_address w,
        ))

wallet_updates-IsMap :
    (rs : List DeviceRegistration) (m : Dict ℕ) → IsMap m → IsMap (wallet_updates rs m)
wallet_updates-IsMap [] m u = u
wallet_updates-IsMap (r ∷ rs) m u =
    wallet_updates-IsMap rs _
      (insert-IsMap r.wallet_address (later (Dict.get r.wallet_address m) r.updated_at_ms) m u)

-- the largest first
abbrev IsDesc : Dict ℕ → Type 0
IsDesc [] = Unit
IsDesc ((w, u) ∷ m) = AllEntries (λ x v. v ≤ u) m × IsDesc m

get-place_update :
    (w : Bytes) (u : ℕ) (j : Bytes) (m : Dict ℕ)
    → Dict.get w m ≡ none
    → Dict.get j (place_update w u m) ≡ (if bytes_eq w j then some u else Dict.get j m)
get-place_update w u j [] n = refl
get-place_update w u j ((x, v) ∷ m) n = ground (
  arith,
  get-place_update w u j m,
  bytes_eq_sound x j,
  bytes_eq_sound w j,
  bytes_eq_comm x w,
  bytes_eq_refl w,
)

place_update-IsMap :
    (w : Bytes) (u : ℕ) (m : Dict ℕ) → Dict.get w m ≡ none → IsMap m → IsMap (place_update w u m)
place_update-IsMap w u [] n i = (refl, tt)
place_update-IsMap w u ((x, v) ∷ m) n i = ground (
  arith,
  place_update-IsMap w u m,
  get-place_update w u x m,
  bytes_eq_sound w x,
  bytes_eq_comm x w,
  bytes_eq_refl w,
)

place_update-below :
    (w : Bytes) (u b : ℕ) (m : Dict ℕ)
    → u ≤ b
    → AllEntries (λ x v. v ≤ b) m
    → AllEntries (λ x v. v ≤ b) (place_update w u m)
place_update-below w u b [] h a = (h, tt)
place_update-below w u b ((x, v) ∷ m) h a = ground (arith, place_update-below w u b m h a.1)

below_trans :
    (u b : ℕ) (m : Dict ℕ) → u ≤ b → AllEntries (λ x v. v ≤ u) m → AllEntries (λ x v. v ≤ b) m
below_trans u b [] h a = tt
below_trans u b ((x, v) ∷ m) h a = (omega arith, below_trans u b m h a.1)

place_update-IsDesc : (w : Bytes) (u : ℕ) (m : Dict ℕ) → IsDesc m → IsDesc (place_update w u m)
place_update-IsDesc w u [] d = (tt, tt)
place_update-IsDesc w u ((x, v) ∷ m) d =
    ground (arith, place_update-IsDesc w u m d.1, place_update-below w u v m, below_trans v u m)

abbrev Sorts : Dict ℕ → Dict ℕ → Type 0
Sorts m s = IsMap s × IsDesc s × ((j : Bytes) → Dict.get j s ≡ Dict.get j m)

sort_updates-Sorts : (m : Dict ℕ) → IsMap m → Sorts m (sort_updates m)
sort_updates-Sorts [] u = (tt, tt, λ j. refl)
sort_updates-Sorts ((w, u) ∷ m) (n, i) =
    let (a, b, c) = sort_updates-Sorts m i in
    let e : Dict.get w (sort_updates m) ≡ none = c w ∙ n in
    (
      place_update-IsMap w u (sort_updates m) e a,
      place_update-IsDesc w u (sort_updates m) b,
      λ j. get-place_update w u j (sort_updates m) e ∙ rw (c j) refl,
    )

-- no update, or one that is older by the margin
abbrev pub Behind : ℕ → Option ℕ → Type 0
Behind u none = Unit
Behind u (some y) = y + freshness_margin_ms ≤ u

-- A wallet has an update, another one has one too, and each other one is behind by the margin.
abbrev pub IsFreshest : (Bytes → Option ℕ) → Bytes → Type 0
IsFreshest updates w =
    (u : ℕ) × (updates w ≡ some u)
    × ((x : Bytes) × (bytes_eq x w ≡ false) × (is_some (updates x) ≡ true))
    × ((x : Bytes) → (bytes_eq x w ≡ true) ⊎ Behind u (updates x))

latest-Behind :
    (w : Bytes) (rs : List DeviceRegistration) (o : Option ℕ)
    → All (λ r. r.updated_at_ms + freshness_margin_ms ≤ u64_max) rs
    → Behind u64_max o
    → Behind u64_max (latest w rs o)
latest-Behind w [] o a b = b
latest-Behind w (r ∷ rs) o a b = latest-Behind w rs _ a.1 (step o b)
  where
    step :
        (p : Option ℕ)
        → Behind u64_max p
        → Behind u64_max (if bytes_eq r.wallet_address w then some (later p r.updated_at_ms) else p)
    step none b = ground (arith, a.0)
    step (some y) b = ground (arith, a.0)

-- what stands behind the first two updates
rest-Behind :
    (u v : ℕ) (x y : Bytes) (m : Dict ℕ)
    → AllEntries (λ j z. z ≤ v) m
    → v + freshness_margin_ms ≤ u
    → Behind u (Dict.get y ((x, v) ∷ m))
rest-Behind u v x y m a h = elim (Option-cases (Dict.get y ((x, v) ∷ m))) [
  | inl e ↦ rw e tt
  | inr (z, e) ↦
      let l : z ≤ v = AllEntries-get (λ j t. t ≤ v) y z ((x, v) ∷ m) (omega arith, a) e in
      rw e (omega arith)
]

-- the first two updates of a map in order, where none is near the bound of the clock
module _ (a x : Bytes) (u v : ℕ) (m : Dict ℕ) where
  abbrev two : Dict ℕ
  two = (a, u) ∷ (x, v) ∷ m

  second_differs : IsMap two → bytes_eq x a ≡ false
  second_differs i = ground (arith, i.0)

  get-second : IsMap two → Dict.get x two ≡ some v
  get-second i = ground (arith, second_differs i, bytes_eq_comm x a, bytes_eq_refl x)

  second-Behind :
      IsMap two
      → ((j : Bytes) → Behind u64_max (Dict.get j two))
      → v + freshness_margin_ms ≤ u64_max
  second-Behind i b = subst (Behind u64_max) (get-second i) (b x)

  first-IsFreshest :
      IsMap two → IsDesc two → v + freshness_margin_ms ≤ u → IsFreshest (λ j. Dict.get j two) a
  first-IsFreshest i d h = (
    u,
    ground (arith, bytes_eq_refl a),
    (x, second_differs i, ap is_some (get-second i)),
    λ y. elim (Bool-cases (bytes_eq a y)) [
      | inl e ↦ inl (bytes_eq_comm y a ∙ e)
      | inr n ↦ inr (rw n (rest-Behind u v x y m d.1.0 h))
    ],
  )

  fresh_by_margin-two :
      (w : Bytes)
      → v + freshness_margin_ms ≤ u64_max
      → fresh_by_margin two ≡ some w ↔ ((a ≡ w) × (v + freshness_margin_ms ≤ u))
  fresh_by_margin-two w b = (λ e. ground arith, λ e. ground arith)

  get-first : Dict.get a two ≡ some u
  get-first = rw (bytes_eq_refl a) refl

  IsFreshest-first :
      (w : Bytes)
      → IsMap two
      → IsDesc two
      → IsFreshest (λ j. Dict.get j two) w
      → (a ≡ w) × (v + freshness_margin_ms ≤ u)
  IsFreshest-first w i d (t, e, o, f) =
      let l : t ≤ u = AllEntries-get (λ j z. z ≤ u) w t two (omega arith, d.0) e in
      let q : a ≡ w = elim (f a) [
        | inl h ↦ bytes_eq_sound a w h
        | inr h ↦ let k : u + freshness_margin_ms ≤ t = subst (Behind t) get-first h in ground arith
      ] in
      let z : u ≡ t = ground (arith, get-first, e, q) in
      (
        q,
        elim (f x) [
          | inl h ↦ ground (arith, h, q, second_differs i)
          | inr h ↦
              let k : v + freshness_margin_ms ≤ t = subst (Behind t) (get-second i) h in omega arith
        ],
      )

fresh_by_margin_sound :
    (s : Dict ℕ) (w : Bytes)
    → IsMap s
    → IsDesc s
    → ((x : Bytes) → Behind u64_max (Dict.get x s))
    → fresh_by_margin s ≡ some w
    → IsFreshest (λ x. Dict.get x s) w
fresh_by_margin_sound [] w i d b e = cc
fresh_by_margin_sound (p ∷ []) w i d b e = cc
fresh_by_margin_sound ((a, u) ∷ (x, v) ∷ m) w i d b e =
    let (q, h) = (fresh_by_margin-two a x u v m w (second-Behind a x u v m i b)).0 e in
    subst (IsFreshest (λ j. Dict.get j ((a, u) ∷ (x, v) ∷ m))) q (first-IsFreshest a x u v m i d h)

fresh_by_margin_complete :
    (s : Dict ℕ) (w : Bytes)
    → IsMap s
    → IsDesc s
    → ((x : Bytes) → Behind u64_max (Dict.get x s))
    → IsFreshest (λ x. Dict.get x s) w
    → fresh_by_margin s ≡ some w
fresh_by_margin_complete [] w i d b (u, e, o, f) = cc
fresh_by_margin_complete ((a, v) ∷ []) w i d b (u, e, (x, n, g), f) =
    ground (arith, bytes_eq_sound a w, bytes_eq_sound a x, bytes_eq_comm a x, bytes_eq_refl a)
fresh_by_margin_complete ((a, u) ∷ (x, v) ∷ m) w i d b (t, e, o, f) =
    (fresh_by_margin-two a x u v m w (second-Behind a x u v m i b)).1
      (IsFreshest-first a x u v m w i d (t, e, o, f))

updates-Sorts :
    (rs : List DeviceRegistration)
    → Sorts (wallet_updates rs []) (sort_updates (wallet_updates rs []))
updates-Sorts rs = sort_updates-Sorts _ (wallet_updates-IsMap rs [] tt)

-- what the sorted updates say of a wallet
abbrev pub sorted_update : List DeviceRegistration → Bytes → Option ℕ
sorted_update rs x = Dict.get x (sort_updates (wallet_updates rs []))

abbrev pub latest_of : List DeviceRegistration → Bytes → Option ℕ
latest_of rs x = latest x rs none

pub updates_latest : (rs : List DeviceRegistration) → sorted_update rs ≡ latest_of rs
updates_latest rs = fun_ext (λ x. (updates-Sorts rs).2 x ∙ get-wallet_updates x rs [])

-- If no registration was updated within the margin of the end of the clock, a wallet is found as
-- the freshest exactly if it has a registration, another wallet has one too, and the latest update
-- of each other wallet is older than its own by at least the margin.
pub freshest_contextual_wallet-IsFreshest :
    (rs : List DeviceRegistration) (w : Bytes)
    → All (λ r. r.updated_at_ms + freshness_margin_ms ≤ u64_max) rs
    → (freshest_contextual_wallet rs ≡ some w) ↔ IsFreshest (latest_of rs) w
unfolding freshest_contextual_wallet
freshest_contextual_wallet-IsFreshest rs w a =
    let (i, d, g) = updates-Sorts rs in
    let b : (x : Bytes) → Behind u64_max (Dict.get x (sort_updates (wallet_updates rs []))) = λ x.
      subst (λ k. Behind u64_max (k x)) (sym (updates_latest rs)) (latest-Behind x rs none a tt) in
    (
      λ e. subst (λ k. IsFreshest k w) (updates_latest rs) (fresh_by_margin_sound _ w i d b e),
      λ h.
          fresh_by_margin_complete _ w i d b
            (subst (λ k. IsFreshest k w) (sym (updates_latest rs)) h),
    )
