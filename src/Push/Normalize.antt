-- ===== src/Push/Normalize.antt =====
-- indexer/src/push.rs, `normalize_*`: what is asked for, as it is stored.
pub use kasia_indexer.Prelude.Bytes.{contains}
use kasia_indexer.Prelude.{
  ℕ, Bool, true, false, ◌&&◌, ◌||◌, Option, none, some, List, [], ◌∷◌, ◌++◌, leb, if◌then◌else◌,
}
use kasia_indexer.Prelude.Bytes.{Bytes, ascii, bytes_eq, bytes_lt}
use kasia_indexer.Prelude.Dict.{Dict}
use kasia_indexer.Prelude.Dict
use kasia_indexer.Push.{Libraries, ContextualPushRoute, Result, ok, fail, bad_request}

abbrev pub is_empty : Bytes → Bool
is_empty [] = true
is_empty (b ∷ bs) = false

-- a value behind the others, unless it is there
abbrev pub push_new : Bytes → List Bytes → List Bytes
push_new x ys = if contains x ys then ys else ys ++ x ∷ []

abbrev pub push_all_new : List Bytes → List Bytes → List Bytes
push_all_new [] ys = ys
push_all_new (x ∷ xs) ys = push_all_new xs (push_new x ys)

abbrev pub apns : Bytes
apns = ascii "apns"

abbrev pub fcm : Bytes
fcm = ascii "fcm"

-- `is_ascii_hexdigit`
abbrev is_hex_digit : ℕ → Bool
is_hex_digit b = (leb 48 b && leb b 57) || (leb 65 b && leb b 70) || (leb 97 b && leb b 102)

abbrev all_hex : Bytes → Bool
all_hex [] = true
all_hex (b ∷ bs) = is_hex_digit b && all_hex bs

unfoldable pub is_hex_string : Bytes → Bool
is_hex_string s = elim (is_empty s) [ true ↦ false | false ↦ all_hex s ]

module _ (lib : Libraries) where
  -- a text that is not blank, trimmed and in lower case
  abbrev lower : Bytes → Option Bytes
  lower value =
      let normalized = lib.to_lowercase (lib.trim value) in
      if is_empty normalized then none else some normalized

  unfoldable pub normalize_address : Bytes → Option Bytes
  normalize_address value = lower value

  unfoldable pub normalize_bundle_id : Bytes → Option Bytes
  normalize_bundle_id value = lower value

  abbrev pub and_then : Option Bytes → (Bytes → Option Bytes) → Option Bytes
  and_then none f = none
  and_then (some v) f = f v

  abbrev pub normalize_optional_address : Option Bytes → Option Bytes
  normalize_optional_address value = and_then value normalize_address

  abbrev pub normalize_optional_bundle_id : Option Bytes → Option Bytes
  normalize_optional_bundle_id value = and_then value normalize_bundle_id

  unfoldable pub normalize_token_type : Bytes → Bytes
  normalize_token_type value =
      let normalized = lib.to_lowercase (lib.trim value) in
      if is_empty normalized then apns else normalized

  unfoldable pub normalize_device_token : Bytes → Bytes → Result Bytes
  normalize_device_token value token_type =
      let token = lib.trim value in
      if is_empty token
      then fail bad_request "missing device token"
      else if bytes_eq token_type apns
      then ok (lib.to_lowercase token)
      else ok token

  -- a `HashSet`, in the order of the first occurrences
  abbrev add_address : Option Bytes → List Bytes → List Bytes
  add_address none set = set
  add_address (some a) set = push_new a set

  abbrev collect_addresses : List Bytes → List Bytes → List Bytes
  collect_addresses [] set = set
  collect_addresses (v ∷ vs) set = collect_addresses vs (add_address (normalize_address v) set)

  unfoldable pub normalize_addresses : List Bytes → List Bytes
  normalize_addresses values = collect_addresses values []

  abbrev add_alias : Bytes → List Bytes → List Bytes
  add_alias normalized aliases =
      if is_empty normalized then aliases else push_new normalized aliases

  abbrev collect_aliases : List Bytes → List Bytes → List Bytes
  collect_aliases [] aliases = aliases
  collect_aliases (v ∷ vs) aliases = collect_aliases vs (add_alias (lib.trim v) aliases)

  unfoldable pub normalize_aliases : List Bytes → List Bytes
  normalize_aliases values = collect_aliases values []

  -- The aliases of one peer, `entry(peer_address).or_default()`.
  abbrev entry : Bytes → Dict (List Bytes) → List Bytes
  entry peer m = elim (Dict.get peer m) [ none ↦ [] | some aliases ↦ aliases ]

  abbrev add_route : Option Bytes → ContextualPushRoute → Dict (List Bytes) → Dict (List Bytes)
  add_route none route m = m
  add_route (some peer) route m =
      Dict.insert peer (push_all_new (normalize_aliases route.aliases) (entry peer m)) m

  abbrev group_routes : List ContextualPushRoute → Dict (List Bytes) → Dict (List Bytes)
  group_routes [] m = m
  group_routes (r ∷ rs) m = group_routes rs (add_route (normalize_address r.peer_address) r m)

  -- sorted by the address of the peer
  abbrev place_route : ContextualPushRoute → List ContextualPushRoute → List ContextualPushRoute
  place_route r [] = r ∷ []
  place_route r (s ∷ ss) =
      let rest = place_route r ss in
      if bytes_lt s.peer_address r.peer_address then s ∷ rest else r ∷ s ∷ ss

  abbrev add_sorted : Bytes → List Bytes → List ContextualPushRoute → List ContextualPushRoute
  add_sorted peer [] routes = routes
  add_sorted peer (a ∷ more) routes =
      place_route (record { peer_address = peer; aliases = a ∷ more }) routes

  abbrev sorted_routes : Dict (List Bytes) → List ContextualPushRoute
  sorted_routes [] = []
  sorted_routes ((peer, aliases) ∷ m) = add_sorted peer aliases (sorted_routes m)

  unfoldable pub normalize_contextual_routes : List ContextualPushRoute → List ContextualPushRoute
  unfolding normalize_aliases normalize_address
  normalize_contextual_routes values = sorted_routes (group_routes values [])
