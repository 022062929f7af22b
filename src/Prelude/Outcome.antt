-- ===== src/Prelude/Outcome.antt =====
-- Failure as a value. A failure ends the actor that meets it, so the state that it had reached
-- is lost with it.
use Prim.Native.String.{String}
use mathlib.Core.Bool.{Bool, true, false}
use mathlib.Core.Path.{◌≡◌, refl, subst}
use mathlib.Core.List.{List, [], ◌∷◌}
use mathlib.Core.Option.{Option, none, some}
use kasia_indexer.Prelude.Tests.{if◌then◌else◌}

-- An `anyhow` error that `?` passes up, or a panic.
pub data Fault : Type 0 where
  bail : String → Fault
  panic : String → Fault
  -- the fuel of a loop of the model ran out, which no run of the program does
  out_of_fuel : Fault

pub data Outcome {ℓ} (A : Type ℓ) : Type ℓ where
  ok : A → Outcome A
  err : Fault → Outcome A

-- `opt.ok_or(fault)?`, `opt.unwrap()`, `opt.expect(..)`
abbrev pub of_option {ℓ} : {A : Type ℓ} → Fault → Option A → Outcome A
of_option e none = err e
of_option e (some a) = ok a

abbrev pub bind {ℓ κ} : {A : Type ℓ} {B : Type κ} → Outcome A → (A → Outcome B) → Outcome B
bind (ok a) f = f a
bind (err e) f = err e

-- `iter.try_for_each(..)`, and a `for` loop whose body uses `?`
unfoldable pub for_each {ℓ κ} :
    {A : Type ℓ} {S : Type κ} → (S → A → Outcome S) → List A → S → Outcome S
for_each step [] s = ok s
for_each step (x ∷ xs) s = bind (step s x) λ s'. for_each step xs s'

-- `assert!`
abbrev pub assert {ℓ} : {A : Type ℓ} → Bool → Outcome A → Outcome A
assert true rest = rest
assert false rest = err (panic "assertion failed")

-- Inversion of a successful bind.
pub bind-eq_ok {ℓ κ} :
    {A : Type ℓ} {B : Type κ} (m : Outcome A) (f : A → Outcome B) {b : B}
    → bind m f ≡ ok b
    → (a : A) × (m ≡ ok a) × (f a ≡ ok b)
bind-eq_ok (ok a) f h = (a, refl, h)
bind-eq_ok (err e) f h = cc

pub ok-injective {ℓ} : {A : Type ℓ} (a b : A) → ok a ≡ ok b → a ≡ b
ok-injective a b h = cc

-- A result, where there is one, satisfies `P`.
unfoldable pub Ensures {ℓ μ} : {A : Type ℓ} → (A → Type μ) → Outcome A → Type μ
Ensures P (ok a) = P a
Ensures P (err e) = Unit

pub ok-Ensures {ℓ μ} : {A : Type ℓ} (P : A → Type μ) (a : A) → P a → Ensures P (ok a)
unfolding Ensures
ok-Ensures P a p = p

pub err-Ensures {ℓ μ} : {A : Type ℓ} (P : A → Type μ) (e : Fault) → Ensures P (err e)
unfolding Ensures
err-Ensures P e = tt

pub assert-Ensures {ℓ μ} :
    {A : Type ℓ} (P : A → Type μ) (b : Bool) (m : Outcome A) → Ensures P m → Ensures P (assert b m)
unfolding Ensures
assert-Ensures P true m h = h
assert-Ensures P false m h = tt

-- A test with two results.
pub if-Ensures {ℓ μ} :
    {A : Type ℓ} (P : A → Type μ) (b : Bool) (m n : Outcome A)
    → Ensures P m
    → Ensures P n
    → Ensures P (if b then m else n)
if-Ensures P true m n h k = h
if-Ensures P false m n h k = k

pub Ensures-apply {ℓ μ} :
    {A : Type ℓ} (P : A → Type μ) (m : Outcome A) (a : A) → Ensures P m → m ≡ ok a → P a
unfolding Ensures
Ensures-apply P (ok b) a h e = subst P (ok-injective b a e) h
Ensures-apply P (err f) a h e = cc

pub bind-Ensures {ℓ κ μ ν} :
    {A : Type ℓ} {B : Type κ} (P : B → Type μ) (Q : A → Type ν) (m : Outcome A) (f : A → Outcome B)
    → Ensures Q m
    → ((a : A) → Q a → Ensures P (f a))
    → Ensures P (bind m f)
unfolding Ensures
bind-Ensures P Q (ok a) f q h = h a q
bind-Ensures P Q (err e) f q h = tt

-- The same, where nothing is known of the first result.
pub bind-Ensures_any {ℓ κ μ} :
    {A : Type ℓ} {B : Type κ} (P : B → Type μ) (m : Outcome A) (f : A → Outcome B)
    → ((a : A) → Ensures P (f a))
    → Ensures P (bind m f)
unfolding Ensures
bind-Ensures_any P (ok a) f h = h a
bind-Ensures_any P (err e) f h = tt

pub for_each-Ensures {ℓ κ μ} :
    {A : Type ℓ} {S : Type κ} (P : S → Type μ) (step : S → A → Outcome S) (xs : List A) (s : S)
    → P s
    → ((s : S) (x : A) → P s → Ensures P (step s x))
    → Ensures P (for_each step xs s)
unfolding for_each Ensures
for_each-Ensures P step [] s p h = p
for_each-Ensures P step (x ∷ xs) s p h =
    bind-Ensures P _ (step s x) (for_each step xs) (h s x p)
      (λ t q. for_each-Ensures P step xs t q h)
