-- ===== src/Api/SelfStash.antt =====
-- indexer/src/api/v1/self_stash.rs
use kasia_indexer.Prelude.{
  ℕ, suc, Bool, true, false, not, ◌&&◌, ◌||◌, Option, none, some, List, [], ◌∷◌, length, leb, ltb,
  if◌then◌else◌,
}
use kasia_indexer.Prelude.Bytes.{Bytes, contains, of_be, starts_with}
use kasia_indexer.Prelude.Outcome.{Outcome, ok, bail, panic, bind, of_option}
use kasia_indexer.Fjall.{Fjall}
use kasia_indexer.Db.{Kaspa}
use kasia_indexer.Db.Keys.{
  SelfStashKeyByOwner, SelfStashKeyByScope, read_by_owner, read_by_scope, zero_padded, scope_len,
}
use kasia_indexer.Db.Messages.Reads.{
  self_stash_by_owner_and_scope, self_stash_by_scope, get_self_stash_rtx,
}
use kasia_indexer.Push.{Libraries}
use kasia_indexer.Push.Normalize.{is_empty}
use kasia_indexer.Push.Dispatch.Events.{to_rpc_address}
use kasia_indexer.Api.{
  Parsers, ApiResponse, bad_request, answer, limit_of, cursor_of, page, with_address, acceptance,
}

pub record SelfStashPaginationParams : Type 0 where
  pub limit : Option ℕ
  pub block_time : Option ℕ
  pub scope : Bytes
  pub owner : Bytes

pub record SelfStashByScopePaginationParams : Type 0 where
  pub limit : Option ℕ
  pub block_time : Option ℕ
  pub scope : Bytes
  pub q : Option Bytes

pub record SelfStashResponse : Type 0 where
  pub tx_id : Bytes
  pub owner : Option Bytes
  pub scope : Bytes
  pub block_time : ℕ
  pub accepting_block : Option Bytes
  pub accepting_daa_score : Option ℕ
  pub stashed_data : Bytes

-- `text.contains(query)`
abbrev pub has_part : Bytes → Bytes → Bool
has_part query [] = is_empty query
has_part query (b ∷ text) = starts_with query (b ∷ text) || has_part query text

module _ (lib : Libraries) (fj : Fjall) (k : Kaspa) (parsers : Parsers k) where
  -- The scope of a request in 255 bytes, `decode_scope_hex`.
  unfoldable pub decode_scope_hex :
      Bytes → (Bytes → ApiResponse SelfStashResponse) → ApiResponse SelfStashResponse
  decode_scope_hex scope next =
      if ltb 510 (length scope)
      then bad_request "Scope hex length cannot exceed 510 characters"
      else elim (parsers.hex_decode scope) [
        | none ↦ bad_request "Invalid scope hex"
        | some bytes ↦ next (zero_padded scope_len bytes)
      ]

  abbrev stash_of : fj.Keyspace → Bytes → Outcome Bytes
  stash_of s tx_id = of_option (bail "Self stash not found") (get_self_stash_rtx fj s tx_id)

  unfoldable pub self_stash_by_owner_response :
      fj.Keyspace → Bytes → SelfStashKeyByOwner → Bytes → Outcome SelfStashResponse
  self_stash_by_owner_response s scope key value = bind (to_rpc_address lib k key.owner) λ owner.
      bind (acceptance lib fj k parsers s key.tx_id) λ (accepting_block, accepting_daa_score).
        bind (stash_of s key.tx_id) λ stash. ok (record {
          tx_id = lib.hex_string key.tx_id;
          owner = owner;
          scope = scope;
          block_time = of_be key.block_time;
          accepting_block = accepting_block;
          accepting_daa_score = accepting_daa_score;
          stashed_data = lib.hex_string stash;
        })

  unfoldable pub get_self_stash_by_owner :
      SelfStashPaginationParams → fj.Keyspace → ApiResponse SelfStashResponse
  get_self_stash_by_owner params s = with_address lib fj k parsers params.owner λ owner.
      decode_scope_hex params.scope λ scope_bytes. answer (
        page read_by_owner (λ key. key.tx_id) (self_stash_by_owner_response s params.scope)
          (limit_of 10 params.limit) []
          (self_stash_by_owner_and_scope fj s scope_bytes owner (cursor_of params.block_time)))

  abbrev owner_matches : Bytes → Option Bytes → Bool
  owner_matches query none = false
  owner_matches query (some owner) = has_part query (lib.to_lowercase owner)

  -- whether an entry is one that a query, where there is one, asks for
  unfoldable pub query_matches : Option Bytes → Option Bytes → Bytes → Bool
  query_matches none owner stash = true
  query_matches (some query) owner stash =
      owner_matches query owner || (lib.is_utf8 stash && has_part query (lib.to_lowercase stash))

  abbrev query_of : Option Bytes → Option Bytes
  query_of none = none
  query_of (some q) =
      let query = lib.to_lowercase (lib.trim q) in if is_empty query then none else some query

  -- The entry for a key, or nothing where the query leaves it out.
  unfoldable pub self_stash_by_scope_response :
      fj.Keyspace → Bytes → Option Bytes → SelfStashKeyByScope → Outcome (Option SelfStashResponse)
  self_stash_by_scope_response s scope query key = bind (to_rpc_address lib k key.owner) λ owner.
      bind (stash_of s key.tx_id) λ stash.
        if not (query_matches query owner stash)
        then ok none
        else bind (acceptance lib fj k parsers s key.tx_id)
            λ (accepting_block, accepting_daa_score). ok (
              some (record {
                tx_id = lib.hex_string key.tx_id;
                owner = owner;
                scope = scope;
                block_time = of_be key.block_time;
                accepting_block = accepting_block;
                accepting_daa_score = accepting_daa_score;
                stashed_data = lib.hex_string stash;
              }))

  -- The loop over the keys; `count` messages are pushed already.
  unfoldable pub scope_loop :
      (SelfStashKeyByScope → Outcome (Option SelfStashResponse))
      → ℕ
      → ℕ
      → List Bytes
      → List (Bytes × Bytes)
      → Outcome (List SelfStashResponse)
  scope_loop respond limit count seen [] = ok []
  scope_loop respond limit count seen ((key, value) ∷ es) =
      bind (of_option (panic "SharedImmutable: wrong size") (read_by_scope key)) λ k.
        elim (contains k.tx_id seen) [
          | true ↦ scope_loop respond limit count seen es
          | false ↦ bind (respond k) λ found. elim found [
            | none ↦ scope_loop respond limit count (k.tx_id ∷ seen) es
            | some message ↦ elim (leb limit (suc count)) [
              | true ↦ ok (message ∷ [])
              | false ↦
                  bind (scope_loop respond limit (suc count) (k.tx_id ∷ seen) es)
                    λ messages. ok (message ∷ messages)
            ]
          ]
        ]

  unfoldable pub get_self_stash_by_scope :
      SelfStashByScopePaginationParams → fj.Keyspace → ApiResponse SelfStashResponse
  get_self_stash_by_scope params s = decode_scope_hex params.scope λ scope_bytes. answer (
      scope_loop (self_stash_by_scope_response s params.scope (query_of params.q))
        (limit_of 20 params.limit) 0 []
        (self_stash_by_scope fj s scope_bytes (cursor_of params.block_time)))
