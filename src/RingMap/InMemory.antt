-- ===== src/RingMap/InMemory.antt =====
-- A list in the order of insertion, which meets the interface.
use kasia_indexer.Prelude.{
  ℕ, suc, ◌-◌, ◌≡◌, refl, Option, none, some, List, [], ◌∷◌, length, if◌then◌else◌, is_some, arith,
}
use kasia_indexer.Prelude.Bytes.{Bytes, bytes_eq, bytes_eq_sound, bytes_eq_refl}
use kasia_indexer.RingMap.{RingMap}

abbrev Items : Type 0
Items = List (Bytes × ℕ × ℕ)

abbrev find : Items → Bytes → Option (ℕ × ℕ)
find [] j = none
find ((k, d, b) ∷ m) j = let rest = find m j in if bytes_eq k j then some (d, b) else rest

abbrev put : Items → Bytes → ℕ × ℕ → Items
put [] k v = (k, v.0, v.1) ∷ []
put ((i, d, b) ∷ m) k v =
    let rest = put m k v in if bytes_eq i k then (k, v.0, v.1) ∷ m else (i, d, b) ∷ rest

abbrev behind_front : Items → Items
behind_front [] = []
behind_front (x ∷ m) = m

pub find-put :
    (m : Items) (k : Bytes) (v : ℕ × ℕ) (j : Bytes)
    → find (put m k v) j ≡ (if bytes_eq k j then some v else find m j)
find-put [] k v j = refl
find-put ((i, d, b) ∷ m) k v j = ground (
  arith,
  find-put m k v j,
  bytes_eq_sound i k,
  bytes_eq_sound i j,
  bytes_eq_sound k j,
  bytes_eq_refl k,
)

pub length-put :
    (m : Items) (k : Bytes) (v : ℕ × ℕ)
    → length (put m k v) ≡ (if is_some (find m k) then length m else suc (length m))
length-put [] k v = refl
length-put ((i, d, b) ∷ m) k v = ground (arith, length-put m k v)

pub length-behind_front : (m : Items) → length (behind_front m) ≡ length m - 1
length-behind_front [] = refl
length-behind_front (x ∷ m) = omega arith

abbrev pub in_memory : RingMap
in_memory = record {
  Map = Items;
  new = [];
  get = find;
  insert = put;
  pop_front = behind_front;
  len = length;
  get-new = λ k. refl;
  len-new = refl;
  get-insert = find-put;
  len-insert = length-put;
  len-pop_front = length-behind_front;
}
