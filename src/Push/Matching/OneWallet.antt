-- ===== src/Push/Matching/OneWallet.antt =====
-- A contextual message reaches the devices of one wallet.
use kasia_indexer.Prelude.{
  ℕ, ◌≤◌, ◌≡◌, ◌∙◌, ◌⊎◌, ◌&&◌, ◌||◌, inl, inr, refl, sym, ap, subst, is_some, Bool, true, false,
  Option, none, some, List, [], ◌∷◌, ◌++◌, length, length-append, filterb, All, ltb, if◌then◌else◌,
  arith, Bool-cases, Option-cases,
}
use kasia_indexer.Prelude.Bytes.{Bytes, bytes_eq, bytes_eq_refl, bytes_eq_sound}
use kasia_indexer.Prelude.Filter.{Any, Any-filterb, All-filterb_test}
use kasia_indexer.Prelude.Dict
use kasia_indexer.Blocks.{contextual}
use kasia_indexer.Push.{Libraries, PushConfig, DeviceRegistration}
use kasia_indexer.Push.Normalize.{contains}
use kasia_indexer.Push.Aliases.{registration_allows_contextual_alias}
use kasia_indexer.Push.Matching.{
  wallets_of, fresh_by_margin, freshest_contextual_wallet, single_wallet, wallet_scope,
  receiver_scoped, first_scope, non_sender_registrations, contextual_wallet_scope, in_scope,
  of_provider, matching_registrations, registration_matches_address,
}
use kasia_indexer.Push.Matching.Freshest.{latest, updates_latest}

abbrev Owned : Bytes → DeviceRegistration → Type 0
Owned w r = r.wallet_address ≡ w

wallets_of-more :
    (rs : List DeviceRegistration) (set : List Bytes) → length set ≤ length (wallets_of rs set)
wallets_of-more [] set = omega arith
wallets_of-more (r ∷ rs) set = elim (Bool-cases (contains r.wallet_address set)) [
  | inl e ↦ rw e (wallets_of-more rs set)
  | inr e ↦ rw e (
      omega (
        arith,
        wallets_of-more rs (set ++ r.wallet_address ∷ []),
        length-append set (r.wallet_address ∷ []),
      ))
]

wallets_of-one :
    (rs : List DeviceRegistration) (w : Bytes)
    → length (wallets_of rs (w ∷ [])) ≤ 1
    → wallets_of rs (w ∷ []) ≡ w ∷ []
wallets_of-one [] w h = refl
wallets_of-one (r ∷ rs) w h = step (bytes_eq r.wallet_address w) (wallets_of-one rs w) h
  where
    step :
        (b : Bool)
        → (length (wallets_of rs (w ∷ [])) ≤ 1 → wallets_of rs (w ∷ []) ≡ w ∷ [])
        → length (wallets_of rs (if b || false then w ∷ [] else w ∷ r.wallet_address ∷ [])) ≤ 1
        → wallets_of rs (if b || false then w ∷ [] else w ∷ r.wallet_address ∷ []) ≡ w ∷ []
    step true f h = f h
    step false f h = absurd (omega (arith, h, wallets_of-more rs (w ∷ r.wallet_address ∷ [])))

latest-Owned :
    (w : Bytes) (rs : List DeviceRegistration) (o : Option ℕ)
    → is_some (latest w rs o) ≡ true
    → (is_some o ≡ true) ⊎ Any (Owned w) rs
latest-Owned w [] o h = inl h
latest-Owned w (r ∷ rs) o h = elim (Bool-cases (bytes_eq r.wallet_address w)) [
  | inl e ↦ inr (inl (bytes_eq_sound _ _ e))
  | inr e ↦ elim (latest-Owned w rs o (ground (arith, e, h))) [
    | inl i ↦ inl i
    | inr a ↦ inr (inr a)
  ]
]

fresh_by_margin-is_some :
    (s : Dict.Dict ℕ) (w : Bytes) → fresh_by_margin s ≡ some w → is_some (Dict.get w s) ≡ true
fresh_by_margin-is_some [] w e = cc
fresh_by_margin-is_some (p ∷ []) w e = cc
fresh_by_margin-is_some ((a, u) ∷ (x, v) ∷ m) w e = ground (arith, bytes_eq_refl a)

freshest_contextual_wallet-Owned :
    (rs : List DeviceRegistration) (w : Bytes)
    → freshest_contextual_wallet rs ≡ some w
    → Any (Owned w) rs
unfolding freshest_contextual_wallet
freshest_contextual_wallet-Owned rs w e =
    elim (latest-Owned w rs none
      (subst (λ f. is_some (f w) ≡ true) (updates_latest rs) (fresh_by_margin-is_some _ w e))) [
        | inl n ↦ cc
        | inr a ↦ a
      ]

wallet_scope-Owned :
    (r : DeviceRegistration) (rs : List DeviceRegistration) (ws : List Bytes)
    → wallet_scope (r ∷ rs) ≡ some ws
    → (w : Bytes) × (ws ≡ w ∷ []) × Any (Owned w) (r ∷ rs)
unfolding wallet_scope
wallet_scope-Owned r rs ws e =
    step (ltb 1 (length (wallets_of rs (r.wallet_address ∷ [])))) refl
      (freshest_contextual_wallet (r ∷ rs)) refl e
  where
    one :
        (w : Bytes)
        → some (w ∷ []) ≡ some ws
        → Any (Owned w) (r ∷ rs)
        → (w : Bytes) × (ws ≡ w ∷ []) × Any (Owned w) (r ∷ rs)
    one w e a = (w, cc, a)

    step :
        (b : Bool)
        → ltb 1 (length (wallets_of rs (r.wallet_address ∷ []))) ≡ b
        → (f : Option Bytes) → freshest_contextual_wallet (r ∷ rs) ≡ f
        → (if b then single_wallet f else some (wallets_of rs (r.wallet_address ∷ []))) ≡ some ws
        → (w : Bytes) × (ws ≡ w ∷ []) × Any (Owned w) (r ∷ rs)
    step true q none p e = cc
    step true q (some w) p e = one w e (freshest_contextual_wallet-Owned (r ∷ rs) w p)
    step false q f p e =
        let k : wallets_of rs (r.wallet_address ∷ []) ≡ r.wallet_address ∷ [] =
          wallets_of-one rs r.wallet_address (ground arith) in
        one r.wallet_address (ap some (sym k) ∙ e) (inl refl)

first_scope-Owned :
    (scoped others : List DeviceRegistration) (ws : List Bytes)
    → (((w : Bytes) → Any (Owned w) scoped → Any (Owned w) others))
    → first_scope scoped others ≡ some ws
    → (w : Bytes) × (ws ≡ w ∷ []) × Any (Owned w) others
first_scope-Owned (r ∷ rs) others ws f e =
    let (w, q, a) = wallet_scope-Owned r rs ws e in (w, q, f w a)
first_scope-Owned [] (r ∷ rs) ws f e = wallet_scope-Owned r rs ws e
first_scope-Owned [] [] ws f e = cc

receiver_scoped-Owned :
    (receiver : Option Bytes) (rs : List DeviceRegistration) (w : Bytes)
    → Any (Owned w) (receiver_scoped receiver rs)
    → Any (Owned w) rs
receiver_scoped-Owned none rs w a = absurd a
receiver_scoped-Owned (some receiver) rs w a =
    Any-filterb (Owned w) (λ r. registration_matches_address r receiver) rs a

module _ (lib : Libraries) (config : PushConfig) where
  -- what a device that is told of a contextual message has to be
  abbrev pub IsReached : Bytes → Bytes → Bytes → DeviceRegistration → Type 0
  IsReached sender alias w r =
      Owned w r × (registration_allows_contextual_alias lib r sender alias ≡ true)

  in_scope-IsReached :
      (sender alias w : Bytes) (rs : List DeviceRegistration)
      → All (λ r. in_scope lib config sender alias (w ∷ []) r ≡ true) rs
      → All (IsReached sender alias w) rs
  in_scope-IsReached sender alias w [] a = tt
  in_scope-IsReached sender alias w (r ∷ rs) a = (
    and_parts (registration_allows_contextual_alias lib r sender alias)
        (bytes_eq r.wallet_address w) (bytes_eq_sound r.wallet_address w) a.0,
    in_scope-IsReached sender alias w rs a.1,
  )
    where
      and_parts :
          {P : Type 0} (b c : Bool) → (c ≡ true → P) → (b && (c || false)) ≡ true → P × (b ≡ true)
      and_parts true true f e = (f refl, refl)
      and_parts true false f e = cc
      and_parts false c f e = cc

  -- The devices of one provider that a contextual message with an alias is sent to are none, or
  -- they all belong to one wallet and let the sender's messages under the alias through; that
  -- wallet has a registration which also lets them through and is not the sender's own.
  pub matching_registrations-IsReached :
      (sender : Bytes) (receiver : Option Bytes) (alias token_type : Bytes)
      (rs : List DeviceRegistration)
      → (matching_registrations lib config contextual sender receiver (some alias) token_type rs
          ≡ [])
        ⊎ ((w : Bytes) × Any
              (λ r. r.wallet_address ≡ w)
              (non_sender_registrations lib config sender alias rs)
            × All (IsReached sender alias w) (
                matching_registrations lib config contextual sender receiver
                  (some alias)
                  token_type
                  rs))
  unfolding matching_registrations contextual_wallet_scope
  matching_registrations-IsReached sender receiver alias token_type rs =
      elim (Option-cases (contextual_wallet_scope lib config sender receiver alias rs)) [
        | inl n ↦ inl (rw n refl)
        | inr (ws, e) ↦
            let others = non_sender_registrations lib config sender alias rs in
            let (w, q, a) =
              first_scope-Owned (receiver_scoped receiver others) others ws
                (receiver_scoped-Owned receiver others) e in
            inr (
              w,
              a,
              rw (e, q)
                  (in_scope-IsReached sender alias w _ (
                    All-filterb_test (in_scope lib config sender alias (w ∷ []))
                      (filterb (of_provider lib config token_type) rs))),
            )
      ]
