-- ===== src/Push/Aliases.antt =====
-- indexer/src/push.rs: the aliases of contextual messages. A wallet that has registered listens to
-- the aliases of its inbox for contact requests, which are derived from its address, and to those
-- of its routes. The end of an alias says whether a message is to be seen.
use kasia_indexer.Prelude.{
  ℕ, zero, suc, Bool, true, false, ◌||◌, ◌&&◌, Option, none, some, List, [], ◌∷◌, ◌++◌, take,
  reverse, ◌==◌, if◌then◌else◌,
}
use kasia_indexer.Prelude.Bytes.{Bytes, ascii, bytes_eq, starts_with}
use kasia_indexer.Push.{Libraries, ContextualPushRoute, DeviceRegistration}
use kasia_indexer.Push.Normalize.{is_empty, contains, push_all_new}

pub data ContextualAliasPolicy : Type 0 where
  visible silent unknown : ContextualAliasPolicy

abbrev pub push_suppressed_alias_suffix : Bytes
push_suppressed_alias_suffix = ascii "__kbs1"

abbrev pub push_visible_alias_suffix : Bytes
push_visible_alias_suffix = ascii "__kbp1"

abbrev pub legacy_push_suppressed_alias_suffix : Bytes
legacy_push_suppressed_alias_suffix = ascii "__silent"

abbrev pub legacy_push_visible_alias_suffix : Bytes
legacy_push_visible_alias_suffix = ascii "__push"

-- `text.ends_with(suffix)`, the suffix first
abbrev pub ends_with : Bytes → Bytes → Bool
ends_with suffix text = starts_with (reverse suffix) (reverse text)

-- `text.split_once(':')`
abbrev before_colon : ℕ → Option (Bytes × Bytes) → Option (Bytes × Bytes)
before_colon c none = none
before_colon c (some (p, r)) = some (c ∷ p, r)

abbrev split_colon : Bytes → Option (Bytes × Bytes)
split_colon [] = none
split_colon (b ∷ bs) =
    let rest = before_colon b (split_colon bs) in if b == 58 then some ([], bs) else rest

abbrev pieces : Bytes → (Bytes → List Bytes) → Option (Bytes × Bytes) → List Bytes
pieces s split none = s ∷ []
pieces s split (some (p, r)) = p ∷ split r

-- `text.splitn(n, ':')`
abbrev pub splitn : ℕ → Bytes → List Bytes
splitn zero s = []
splitn (suc zero) s = s ∷ []
splitn (suc (suc n)) s = pieces s (splitn (suc n)) (split_colon s)

module _ (lib : Libraries) where
  -- the first three parts are fixed, and the fourth is the alias
  abbrev alias_of : List Bytes → Option Bytes
  alias_of (a ∷ b ∷ c ∷ d ∷ more) =
      let alias = lib.trim d in
      if (bytes_eq a (ascii "ciph_msg") && bytes_eq b (ascii "1")) && bytes_eq c (ascii "comm")
      then (if is_empty alias then none else some alias)
      else none
  alias_of parts = none

  unfoldable pub extract_contextual_alias : Bytes → Option Bytes
  extract_contextual_alias payload =
      if lib.is_utf8 payload then alias_of (splitn 5 payload) else none

  unfoldable pub parse_contextual_alias_policy : Bytes → Bool → ContextualAliasPolicy
  parse_contextual_alias_policy alias allow_legacy_suffix =
      let normalized = lib.trim alias in
      if ends_with push_suppressed_alias_suffix normalized
      then ContextualAliasPolicy.silent
      else if ends_with push_visible_alias_suffix normalized
      then ContextualAliasPolicy.visible
      else if allow_legacy_suffix && ends_with legacy_push_suppressed_alias_suffix normalized
      then ContextualAliasPolicy.silent
      else if allow_legacy_suffix && ends_with legacy_push_visible_alias_suffix normalized
      then ContextualAliasPolicy.visible
      else ContextualAliasPolicy.unknown

  -- Whether a message whose alias has no known end is dropped; the default is that it is.
  unfoldable pub drops_unknown : Option Bytes → Bool
  drops_unknown none = true
  drops_unknown (some value) =
      if bytes_eq (lib.to_lowercase (lib.trim value)) (ascii "visible") then false else true

  unfoldable pub contact_request_inbox_watch_aliases : Bytes → List Bytes
  contact_request_inbox_watch_aliases wallet_address =
      let normalized = lib.to_lowercase (lib.trim wallet_address) in
      let base = ascii "crin_" ++ lib.hex_string (take 8 (lib.sha256 normalized)) in
      if is_empty normalized
      then []
      else base
        ∷ (base ++ push_suppressed_alias_suffix)
        ∷ (base ++ push_visible_alias_suffix)
        ∷ (base ++ legacy_push_suppressed_alias_suffix)
        ∷ (base ++ legacy_push_visible_alias_suffix)
        ∷ []

  abbrev route_aliases : List ContextualPushRoute → List Bytes
  route_aliases [] = []
  route_aliases (r ∷ rs) = r.aliases ++ route_aliases rs

  unfoldable pub derived_contextual_registration_aliases :
      Bytes → List ContextualPushRoute → List Bytes
  derived_contextual_registration_aliases wallet_address routes =
      push_all_new (route_aliases routes)
        (push_all_new (contact_request_inbox_watch_aliases wallet_address) [])

  abbrev any_route_allows : Bytes → Bytes → List ContextualPushRoute → Bool
  any_route_allows sender alias [] = false
  any_route_allows sender alias (r ∷ rs) =
      (bytes_eq r.peer_address sender && contains alias r.aliases)
      || any_route_allows sender alias rs

  unfoldable pub registration_allows_contextual_alias : DeviceRegistration → Bytes → Bytes → Bool
  registration_allows_contextual_alias registration sender_address alias =
      contains alias (contact_request_inbox_watch_aliases registration.wallet_address)
      || any_route_allows sender_address alias registration.contextual_routes
