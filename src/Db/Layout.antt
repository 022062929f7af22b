-- ===== src/Db/Layout.antt =====
-- Packed structs (`#[repr(C)]` with unaligned fields): the bytes of a struct are those of its
-- fields in order, and a read succeeds on exactly as many bytes as the fields have.
use kasia_indexer.Prelude.{
  ℕ, ◌+◌, ◌≡◌, refl, true, Option, none, some, List, [], ◌∷◌, ◌++◌, length, take, drop, leb,
  if◌then◌else◌, arith, take-append-length, drop-append-length, length-append,
}
use kasia_indexer.Prelude.Bytes.{Bytes}

-- The bytes of a struct with these fields.
abbrev pub pack : List Bytes → Bytes
pack [] = []
pack (f ∷ fs) = f ++ pack fs

-- The sizes of the fields agree.
abbrev pub HasSizes : List ℕ → List Bytes → Type 0
HasSizes [] [] = Unit
HasSizes [] (f ∷ fs) = ⊥
HasSizes (n ∷ ns) [] = ⊥
HasSizes (n ∷ ns) (f ∷ fs) = (length f ≡ n) × HasSizes ns fs

abbrev prepend : Bytes → Option (List Bytes) → Option (List Bytes)
prepend f none = none
prepend f (some fs) = some (f ∷ fs)

-- Cuts the bytes of a struct into fields of these sizes.
unfoldable pub unpack : List ℕ → Bytes → Option (List Bytes)
unpack [] [] = some []
unpack [] (b ∷ bs) = none
unpack (n ∷ ns) bs =
    let rest = unpack ns (drop n bs) in if leb n (length bs) then prepend (take n bs) rest else none

leb-append : (n : ℕ) (xs ys : Bytes) → length xs ≡ n → leb n (length (xs ++ ys)) ≡ true
leb-append n xs ys h = ground (arith, length-append xs ys)

-- What was packed is read back.
pub unpack-pack : (ns : List ℕ) (fs : List Bytes) → HasSizes ns fs → unpack ns (pack fs) ≡ some fs
unfolding unpack
unpack-pack [] [] h = refl
unpack-pack [] (f ∷ fs) h = absurd h
unpack-pack (n ∷ ns) [] h = absurd h
unpack-pack (n ∷ ns) (f ∷ fs) h = rw (
  leb-append n f (pack fs) h.0,
  take-append-length n f (pack fs) h.0,
  drop-append-length n f (pack fs) h.0,
  unpack-pack ns fs h.1,
)

-- The size of a struct.
abbrev pub total : List ℕ → ℕ
total [] = 0
total (n ∷ ns) = n + total ns
