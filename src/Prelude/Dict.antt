-- ===== src/Prelude/Dict.antt =====
-- A hash map whose keys are texts, as an association list. Its order is the one in which the map
-- happens to be walked; an insertion keeps the place of a key that is there.
use mathlib.Core.Bool.{Bool, true}
use mathlib.Core.Path.{◌≡◌, refl, subst}
use mathlib.Core.List.{List, [], ◌∷◌}
use mathlib.Core.Option.{Option, none, some}
use native.Mathlib.Omega.{arith}
use mathlib.Core.Logic.{inl, inr}
use kasia_indexer.Prelude.Tests.{if◌then◌else◌, Bool-cases}
use kasia_indexer.Prelude.Bytes.{Bytes, bytes_eq, bytes_eq_refl, bytes_eq_sound}

abbrev pub Dict {ℓ} : Type ℓ → Type ℓ
Dict V = List (Bytes × V)

module _ {ℓ} {V : Type ℓ} where
  abbrev pub get : Bytes → Dict V → Option V
  get j [] = none
  get j ((k, v) ∷ m) = let rest = get j m in if bytes_eq k j then some v else rest

  abbrev pub insert : Bytes → V → Dict V → Dict V
  insert k v [] = (k, v) ∷ []
  insert k v ((i, w) ∷ m) =
      let rest = insert k v m in if bytes_eq i k then (k, v) ∷ m else (i, w) ∷ rest

  abbrev pub remove : Bytes → Dict V → Dict V
  remove k [] = []
  remove k ((i, w) ∷ m) = let rest = remove k m in if bytes_eq i k then rest else (i, w) ∷ rest

  abbrev pub retain : (Bytes → V → Bool) → Dict V → Dict V
  retain p [] = []
  retain p ((i, w) ∷ m) = let rest = retain p m in if p i w then (i, w) ∷ rest else rest

  abbrev pub values : Dict V → List V
  values [] = []
  values ((i, w) ∷ m) = w ∷ values m

  abbrev pub keep : (Bytes → V → Bool) → Bytes → Option V → Option V
  keep p j none = none
  keep p j (some v) = if p j v then some v else none

  -- each entry satisfies `P`
  abbrev pub AllEntries {κ} : (Bytes → V → Type κ) → Dict V → Type κ
  AllEntries P [] = Unit
  AllEntries P ((i, w) ∷ m) = P i w × AllEntries P m

  -- no key stands twice
  abbrev pub IsMap : Dict V → Type ℓ
  IsMap [] = Unit
  IsMap ((i, w) ∷ m) = (get i m ≡ none) × IsMap m

  pub get-insert :
      (k : Bytes) (v : V) (j : Bytes) (m : Dict V)
      → get j (insert k v m) ≡ (if bytes_eq k j then some v else get j m)
  get-insert k v j [] = refl
  get-insert k v j ((i, w) ∷ m) = ground (
    arith,
    get-insert k v j m,
    bytes_eq_sound i k,
    bytes_eq_sound i j,
    bytes_eq_sound k j,
    bytes_eq_refl k,
  )

  pub get-remove :
      (k j : Bytes) (m : Dict V) → get j (remove k m) ≡ (if bytes_eq k j then none else get j m)
  get-remove k j [] = ground arith
  get-remove k j ((i, w) ∷ m) = ground (
    arith,
    get-remove k j m,
    bytes_eq_sound i k,
    bytes_eq_sound i j,
    bytes_eq_sound k j,
    bytes_eq_refl k,
  )

  -- An entry that the test passes is still found.
  pub get-retain-some :
      (p : Bytes → V → Bool) (j : Bytes) (v : V) (m : Dict V)
      → get j m ≡ some v
      → p j v ≡ true
      → get j (retain p m) ≡ some v
  get-retain-some p j v [] e h = cc
  get-retain-some p j v ((i, w) ∷ m) e h =
      ground (arith, get-retain-some p j v m, bytes_eq_sound i j, bytes_eq_refl j)

  pub get-retain-none :
      (p : Bytes → V → Bool) (j : Bytes) (m : Dict V) → get j m ≡ none → get j (retain p m) ≡ none
  get-retain-none p j [] e = refl
  get-retain-none p j ((i, w) ∷ m) e = ground (arith, get-retain-none p j m)

  pub insert-IsMap : (k : Bytes) (v : V) (m : Dict V) → IsMap m → IsMap (insert k v m)
  insert-IsMap k v [] u = (refl, tt)
  insert-IsMap k v ((i, w) ∷ m) u = ground (
    arith,
    insert-IsMap k v m u.1,
    get-insert k v i m,
    bytes_eq_sound i k,
    bytes_eq_sound k i,
    bytes_eq_refl i,
    bytes_eq_refl k,
  )

  pub remove-IsMap : (k : Bytes) (m : Dict V) → IsMap m → IsMap (remove k m)
  remove-IsMap k [] u = tt
  remove-IsMap k ((i, w) ∷ m) u = ground (arith, remove-IsMap k m u.1, get-remove k i m)

  pub retain-IsMap : (p : Bytes → V → Bool) (m : Dict V) → IsMap m → IsMap (retain p m)
  retain-IsMap p [] u = tt
  retain-IsMap p ((i, w) ∷ m) u = ground (arith, retain-IsMap p m u.1, get-retain-none p i m u.0)

  module _ {κ} (P : Bytes → V → Type κ) where
    pub AllEntries-insert :
        (k : Bytes) (v : V) (m : Dict V) → P k v → AllEntries P m → AllEntries P (insert k v m)
    AllEntries-insert k v [] p a = (p, tt)
    AllEntries-insert k v ((i, w) ∷ m) p a = elim (Bool-cases (bytes_eq i k)) [
      | inl e ↦ rw e (p, a.1)
      | inr n ↦ rw n (a.0, AllEntries-insert k v m p a.1)
    ]

    pub AllEntries-remove : (k : Bytes) (m : Dict V) → AllEntries P m → AllEntries P (remove k m)
    AllEntries-remove k [] a = tt
    AllEntries-remove k ((i, w) ∷ m) a = elim (Bool-cases (bytes_eq i k)) [
      | inl e ↦ rw e (AllEntries-remove k m a.1)
      | inr n ↦ rw n (a.0, AllEntries-remove k m a.1)
    ]

    pub AllEntries-retain :
        (p : Bytes → V → Bool) (m : Dict V) → AllEntries P m → AllEntries P (retain p m)
    AllEntries-retain p [] a = tt
    AllEntries-retain p ((i, w) ∷ m) a = elim (Bool-cases (p i w)) [
      | inl e ↦ rw e (a.0, AllEntries-retain p m a.1)
      | inr n ↦ rw n (AllEntries-retain p m a.1)
    ]

    pub AllEntries-get :
        (j : Bytes) (v : V) (m : Dict V) → AllEntries P m → get j m ≡ some v → P j v
    AllEntries-get j v [] a e = cc
    AllEntries-get j v ((i, w) ∷ m) a e = elim (Bool-cases (bytes_eq i j)) [
      | inl t ↦
          let q : w ≡ v = ground (arith, t, e) in
          subst (λ x. P x v) (bytes_eq_sound i j t) (subst (λ x. P i x) q a.0)
      | inr n ↦ AllEntries-get j v m a.1 (ground (arith, n, e))
    ]
