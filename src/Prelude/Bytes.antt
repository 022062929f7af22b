-- ===== src/Prelude/Bytes.antt =====
-- Byte strings: equality, prefixes, cutting, and the big-endian and little-endian forms of a word.
pub mod Order
use mathlib.Core.Bool.{Bool, true, false, ◌&&◌, ◌||◌}
use mathlib.Core.Path.{◌≡◌, refl, ap}
use mathlib.Core.Logic.{◌↔◌}
use mathlib.Core.Option.{Option, none, some}
use mathlib.Core.List.{List, [], ◌∷◌, ◌++◌}
use Prim.Native.Nat.{ℕ, zero, suc, ◌+◌, ◌*◌, ◌/◌, ◌%◌, ◌^◌}
use Prim.Native.Char.{code}
use Prim.Native.String.{String}
use native.Mathlib.Omega.{arith}
use kasia_indexer.Prelude.Tests.{◌==◌, ltb, if◌then◌else◌}
use kasia_indexer.Prelude.Lists.{length}

-- A byte is a number below 256.
abbrev pub Bytes : Type 0
Bytes = List ℕ

-- The bytes of an ASCII literal.
abbrev pub ascii : String → Bytes
ascii String.[] = []
ascii (String.◌∷◌ c s) = code c ∷ ascii s

abbrev pub bytes_eq : Bytes → Bytes → Bool
bytes_eq [] [] = true
bytes_eq [] (y ∷ ys) = false
bytes_eq (x ∷ xs) [] = false
bytes_eq (x ∷ xs) (y ∷ ys) = x == y && bytes_eq xs ys

pub bytes_eq_refl : (xs : Bytes) → bytes_eq xs xs ≡ true
bytes_eq_refl [] = refl
bytes_eq_refl (x ∷ xs) = ground (arith, bytes_eq_refl xs)

pub bytes_eq_sound : (xs ys : Bytes) → bytes_eq xs ys ≡ true → xs ≡ ys
bytes_eq_sound [] [] h = refl
bytes_eq_sound [] (y ∷ ys) h = cc
bytes_eq_sound (x ∷ xs) [] h = cc
bytes_eq_sound (x ∷ xs) (y ∷ ys) h = ground (arith, bytes_eq_sound xs ys)

pub bytes_eq_comm : (xs ys : Bytes) → bytes_eq xs ys ≡ bytes_eq ys xs
bytes_eq_comm [] [] = refl
bytes_eq_comm [] (y ∷ ys) = refl
bytes_eq_comm (x ∷ xs) [] = refl
bytes_eq_comm (x ∷ xs) (y ∷ ys) = ground (arith, bytes_eq_comm xs ys)

-- `slice.starts_with(p)`, the prefix first
abbrev pub starts_with : Bytes → Bytes → Bool
starts_with [] ys = true
starts_with (x ∷ xs) [] = false
starts_with (x ∷ xs) (y ∷ ys) = x == y && starts_with xs ys

pub starts_with-append : (p ys : Bytes) → starts_with p (p ++ ys) ≡ true
starts_with-append [] ys = refl
starts_with-append (x ∷ p) ys = ground (arith, starts_with-append p ys)

-- `slice.strip_prefix(p)`, the prefix first
abbrev pub strip_prefix : Bytes → Bytes → Option Bytes
strip_prefix [] ys = some ys
strip_prefix (x ∷ xs) [] = none
strip_prefix (x ∷ xs) (y ∷ ys) = let rest = strip_prefix xs ys in if x == y then rest else none

pub strip_prefix_sound : (p ys r : Bytes) → strip_prefix p ys ≡ some r → ys ≡ p ++ r
strip_prefix_sound [] ys r h = ground arith
strip_prefix_sound (x ∷ p) [] r h = cc
strip_prefix_sound (x ∷ p) (y ∷ ys) r h = ground (arith, strip_prefix_sound p ys r)

-- The `w` bytes of `n`, the most significant first: `n.to_be_bytes()`.
abbrev pub to_be : ℕ → ℕ → Bytes
to_be zero n = []
to_be (suc w) n = (n / 256 ^ w) % 256 ∷ to_be w n

-- The `w` bytes of `n`, the least significant first: `n.to_le_bytes()`.
abbrev pub to_le : ℕ → ℕ → Bytes
to_le zero n = []
to_le (suc w) n = n % 256 ∷ to_le w (n / 256)

abbrev pub of_le : Bytes → ℕ
of_le [] = 0
of_le (b ∷ bs) = b + 256 * of_le bs

-- `from_be_bytes`, with the number read so far
abbrev pub of_be_from : ℕ → Bytes → ℕ
of_be_from acc [] = acc
of_be_from acc (b ∷ bs) = of_be_from (256 * acc + b) bs

abbrev pub of_be : Bytes → ℕ
of_be bs = of_be_from 0 bs

pub length-to_be : (w n : ℕ) → length (to_be w n) ≡ w
length-to_be zero n = refl
length-to_be (suc w) n = ap suc (length-to_be w n)

pub length-to_le : (w n : ℕ) → length (to_le w n) ≡ w
length-to_le zero n = refl
length-to_le (suc w) n = ap suc (length-to_le w (n / 256))

-- `a < b` on byte slices: the first byte that differs decides, and a proper prefix is smaller.
abbrev pub bytes_lt : Bytes → Bytes → Bool
bytes_lt [] [] = false
bytes_lt [] (y ∷ ys) = true
bytes_lt (x ∷ xs) [] = false
bytes_lt (x ∷ xs) (y ∷ ys) = let rest = bytes_lt xs ys in if x == y then rest else ltb x y

pub bytes_lt_irrefl : (xs : Bytes) → bytes_lt xs xs ≡ false
bytes_lt_irrefl [] = refl
bytes_lt_irrefl (x ∷ xs) = ground (arith, bytes_lt_irrefl xs)

pub bytes_lt_trans :
    (xs ys zs : Bytes) → bytes_lt xs ys ≡ true → bytes_lt ys zs ≡ true → bytes_lt xs zs ≡ true
bytes_lt_trans [] [] zs h k = cc
bytes_lt_trans [] (y ∷ ys) [] h k = cc
bytes_lt_trans [] (y ∷ ys) (z ∷ zs) h k = refl
bytes_lt_trans (x ∷ xs) [] zs h k = cc
bytes_lt_trans (x ∷ xs) (y ∷ ys) [] h k = cc
bytes_lt_trans (x ∷ xs) (y ∷ ys) (z ∷ zs) h k = ground (arith, bytes_lt_trans xs ys zs)

-- Of two different slices one is smaller.
pub bytes_lt_total :
    (xs ys : Bytes) → bytes_eq xs ys ≡ false → bytes_lt xs ys ≡ false → bytes_lt ys xs ≡ true
bytes_lt_total [] [] h k = cc
bytes_lt_total [] (y ∷ ys) h k = cc
bytes_lt_total (x ∷ xs) [] h k = refl
bytes_lt_total (x ∷ xs) (y ∷ ys) h k = ground (arith, bytes_lt_total xs ys)

-- `value.contains(&x)`
abbrev pub contains : Bytes → List Bytes → Bool
contains x [] = false
contains x (y ∷ ys) = bytes_eq x y || contains x ys
