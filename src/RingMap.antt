-- ===== src/RingMap.antt =====
-- The interface of `ringmap::RingMap`, which is not part of the repository: a map that keeps the
-- order of insertion. The keys are block hashes, the values a DAA score and a blue work.
pub mod InMemory
use kasia_indexer.Prelude.{ℕ, suc, ◌-◌, ◌≡◌, Option, none, some, if◌then◌else◌, is_some}
use kasia_indexer.Prelude.Bytes.{Bytes, bytes_eq}

pub record RingMap : Type 1 where
  pub Map : Type 0
  pub new : Map
  pub get : Map → Bytes → Option (ℕ × ℕ)
  pub insert : Map → Bytes → ℕ × ℕ → Map
  pub pop_front : Map → Map
  pub len : Map → ℕ
  pub get-new : (k : Bytes) → get new k ≡ none
  pub len-new : len new ≡ 0
  pub get-insert :
      (m : Map) (k : Bytes) (v : ℕ × ℕ) (j : Bytes)
      → get (insert m k v) j ≡ (if bytes_eq k j then some v else get m j)
  -- an old key keeps its place
  pub len-insert :
      (m : Map) (k : Bytes) (v : ℕ × ℕ)
      → len (insert m k v) ≡ (if is_some (get m k) then len m else suc (len m))
  pub len-pop_front : (m : Map) → len (pop_front m) ≡ len m - 1
