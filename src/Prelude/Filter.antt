-- ===== src/Prelude/Filter.antt =====
-- What `filter` keeps of a list, and that some item of a list satisfies a predicate.
use mathlib.Core.Path.{◌≡◌}
use mathlib.Core.Logic.{◌⊎◌, inl, inr}
use mathlib.Core.List.{List, [], ◌∷◌}
use mathlib.Core.Bool.{Bool, true, false}
use kasia_indexer.Prelude.Tests.{if◌then◌else◌, Bool-cases}
use kasia_indexer.Prelude.Lists.{All, filterb}

module _ {ℓ} {A : Type ℓ} where
  -- Some item satisfies `P`.
  abbrev pub Any : (A → Type 0) → List A → Type 0
  Any P [] = ⊥
  Any P (x ∷ xs) = P x ⊎ Any P xs

  pub All-filterb_test : (p : A → Bool) (xs : List A) → All (λ x. p x ≡ true) (filterb p xs)
  All-filterb_test p [] = tt
  All-filterb_test p (x ∷ xs) = elim (Bool-cases (p x)) [
    | inl e ↦ rw e (e, All-filterb_test p xs)
    | inr e ↦ rw e (All-filterb_test p xs)
  ]

  module _ (P : A → Type 0) where
    Any-kept :
        (b : Bool) (x : A) (ys xs : List A)
        → (Any P ys → Any P xs)
        → Any P (if b then x ∷ ys else ys)
        → Any P (x ∷ xs)
    Any-kept true x ys xs f (inl p) = inl p
    Any-kept true x ys xs f (inr a) = inr (f a)
    Any-kept false x ys xs f a = inr (f a)

    pub Any-filterb : (p : A → Bool) (xs : List A) → Any P (filterb p xs) → Any P xs
    Any-filterb p [] a = a
    Any-filterb p (x ∷ xs) a = Any-kept (p x) x (filterb p xs) xs (Any-filterb p xs) a
