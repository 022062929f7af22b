-- ===== src/Prelude/Bytes/Order.antt =====
-- The big-endian bytes of words are ordered as the words are.
use kasia_indexer.Prelude.Tests.{ltb, ◌==◌, if◌then◌else◌}
use kasia_indexer.Prelude.Lists.{length}
use mathlib.Core.Bool.{false, not}
use mathlib.Core.List.{[], ◌∷◌, ◌++◌}
use kasia_indexer.Prelude.Bytes.{Bytes, to_be, of_be, of_be_from, bytes_eq, bytes_lt}
use Prim.Native.Nat.{ℕ, zero, suc, ◌+◌, ◌*◌, ◌/◌, ◌%◌, ◌^◌, ◌<◌}
use mathlib.Core.Path.{◌≡◌, refl, ap, ◌∙◌}
use native.Mathlib.Omega.{arith}
use native.Mathlib.Nat.{div-add-mod', mod-lt, mod-eq_of_lt, pow-succ', add-mul-mod_self_right}

below : (p d r : ℕ) → d < 256 → r < p → d * p + r < 256 * p
below p d r h k = grind arith

-- one digit more: the remainder by `256 * p` is a digit before the remainder by `p`
digit : (p n : ℕ) → 0 < p → n % (256 * p) ≡ (n / p % 256) * p + n % p
digit p n h =
    let q : n ≡ ((n / p % 256) * p + n % p) + (n / p / 256) * (256 * p) =
      omega (arith, div-add-mod' n p, ap (λ (t : ℕ). t * p) (div-add-mod' (n / p) 256)) in
    ap (λ (t : ℕ). t % (256 * p)) q
    ∙ add-mul-mod_self_right ((n / p % 256) * p + n % p) (n / p / 256) (256 * p)
    ∙ mod-eq_of_lt (below p (n / p % 256) (n % p) (omega arith) (omega arith))

step_below : (p d r e s : ℕ) → d < e → r < p → d * p + r < e * p + s
step_below p d r e s h k = grind arith

-- the first digit decides, and the rest where the digits are equal
lex :
    (p d r e s : ℕ)
    → r < p
    → s < p
    → (if d == e then ltb r s else ltb d e) ≡ ltb (d * p + r) (e * p + s)
lex p d r e s h k = ground (arith, step_below p d r e s, step_below p e s d r)

pow_pos : (w : ℕ) → 0 < 256 ^ w
pow_pos zero = omega arith
pow_pos (suc w) = rw (pow-succ' 256 w) (omega (arith, pow_pos w))

remainder : (w n : ℕ) → n % 256 ^ suc w ≡ (n / 256 ^ w % 256) * 256 ^ w + n % 256 ^ w
remainder w n = rw (pow-succ' 256 w) (digit (256 ^ w) n (pow_pos w))

pub bytes_lt-to_be_mod :
    (w a b : ℕ) → bytes_lt (to_be w a) (to_be w b) ≡ ltb (a % 256 ^ w) (b % 256 ^ w)
bytes_lt-to_be_mod zero a b = ground arith
bytes_lt-to_be_mod (suc w) a b =
    let p = 256 ^ w in
    rw (bytes_lt-to_be_mod w a b, remainder w a, remainder w b)
      (lex p (a / p % 256) (a % p) (b / p % 256) (b % p) (mod-lt a (pow_pos w))
        (mod-lt b (pow_pos w)))

-- For words of `w` bytes the order of the bytes is the order of the words.
pub bytes_lt-to_be :
    (w a b : ℕ) → a < 256 ^ w → b < 256 ^ w → bytes_lt (to_be w a) (to_be w b) ≡ ltb a b
bytes_lt-to_be w a b h k = bytes_lt-to_be_mod w a b ∙ rw (mod-eq_of_lt h, mod-eq_of_lt k)

horner : (a d p r : ℕ) → (256 * a + d) * p + r ≡ a * (256 * p) + (d * p + r)
horner a d p r = grind arith

of_be_from-to_be : (acc w n : ℕ) → of_be_from acc (to_be w n) ≡ acc * 256 ^ w + n % 256 ^ w
of_be_from-to_be acc zero n = omega arith
of_be_from-to_be acc (suc w) n =
    of_be_from-to_be (256 * acc + n / 256 ^ w % 256) w n
    ∙ rw (remainder w n, pow-succ' 256 w) (horner acc (n / 256 ^ w % 256) (256 ^ w) (n % 256 ^ w))

-- The bytes of a word are read back.
pub of_be-to_be : (w n : ℕ) → n < 256 ^ w → of_be (to_be w n) ≡ n
of_be-to_be w n h = of_be_from-to_be 0 w n ∙ omega (arith, mod-eq_of_lt h)

bytes_lt-nil : (r : Bytes) → bytes_lt r [] ≡ false
bytes_lt-nil [] = refl
bytes_lt-nil (x ∷ r) = refl

-- What stands behind the first bytes does not put a key below a bound of their length.
pub bytes_lt-append : (a r b : Bytes) → length a ≡ length b → bytes_lt (a ++ r) b ≡ bytes_lt a b
bytes_lt-append [] r [] h = bytes_lt-nil r
bytes_lt-append [] r (y ∷ b) h = absurd (omega (arith, h))
bytes_lt-append (x ∷ a) r [] h = absurd (omega (arith, h))
bytes_lt-append (x ∷ a) r (y ∷ b) h = rw (bytes_lt-append a r b (omega (arith, h))) refl

-- The same for a bound above: a longer key is not below it.
pub bytes_lt-append_right :
    (a r b : Bytes) → length a ≡ length b → 0 < length r → bytes_lt b (a ++ r) ≡ not (bytes_lt a b)
bytes_lt-append_right [] [] [] h l = absurd (omega (arith, l))
bytes_lt-append_right [] (x ∷ r) [] h l = refl
bytes_lt-append_right [] r (y ∷ b) h l = absurd (omega (arith, h))
bytes_lt-append_right (x ∷ a) r [] h l = absurd (omega (arith, h))
bytes_lt-append_right (x ∷ a) r (y ∷ b) h l =
    rw (bytes_lt-append_right a r b (omega (arith, h)) l) (ground arith)

-- Behind two prefixes of one length.
pub bytes_lt-prefixes :
    (q a p b : Bytes)
    → length q ≡ length p
    → bytes_lt (q ++ a) (p ++ b) ≡ (if bytes_eq q p then bytes_lt a b else bytes_lt q p)
bytes_lt-prefixes [] a [] b h = refl
bytes_lt-prefixes [] a (y ∷ p) b h = absurd (omega (arith, h))
bytes_lt-prefixes (x ∷ q) a [] b h = absurd (omega (arith, h))
bytes_lt-prefixes (x ∷ q) a (y ∷ p) b h =
    rw (bytes_lt-prefixes q a p b (omega (arith, h))) (ground arith)
