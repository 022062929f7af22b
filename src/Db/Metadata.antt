-- ===== src/Db/Metadata.antt =====
-- indexer-db/src/metadata.rs: the cursors from which the indexer resumes, and the database version.
use kasia_indexer.Prelude.{ℕ, Option, none, some, List, [], ◌∷◌, length, ◌==◌, if◌then◌else◌}
use kasia_indexer.Prelude.Bytes.{Bytes, bytes_lt, to_le, of_le}
use kasia_indexer.Prelude.Outcome.{Outcome, ok, err, bail, panic, bind, of_option}
use kasia_indexer.Fjall.{Fjall, Partition}
use kasia_indexer.Fjall.Closure.{fetch_update_closure}
use kasia_indexer.Db.Layout.{pack, unpack}

pub data MetadataKey : Type 0 where
  latest_block_cursor latest_accepting_block_cursor db_version_key : MetadataKey

-- `[key as u8]`
abbrev pub metadata_key : MetadataKey → Bytes
metadata_key latest_block_cursor = 0 ∷ []
metadata_key latest_accepting_block_cursor = 1 ∷ []
metadata_key db_version_key = 2 ∷ []

-- `blue_work` in 24 bytes, big-endian; `daa_score` in 8, little-endian.
pub record Cursor : Type 0 where
  pub blue_work : Bytes
  pub block_hash : Bytes
  pub daa_score : Bytes

abbrev pub cursor_sizes : List ℕ
cursor_sizes = 24 ∷ 32 ∷ 8 ∷ []

abbrev pub cursor_fields : Cursor → List Bytes
cursor_fields c = c.blue_work ∷ c.block_hash ∷ c.daa_score ∷ []

unfoldable pub cursor_bytes : Cursor → Bytes
cursor_bytes c = pack (cursor_fields c)

abbrev pub cursor_of : Option (List Bytes) → Option Cursor
cursor_of (some (b ∷ h ∷ d ∷ [])) = some (record { blue_work = b; block_hash = h; daa_score = d })
cursor_of _ = none

unfoldable pub read_cursor : Bytes → Option Cursor
read_cursor bs = cursor_of (unpack cursor_sizes bs)

-- The closure of `set_latest_accepting_block_cursor`: the cursor with more blue work.
unfoldable pub advance : Cursor → Option Bytes → Outcome (Option Bytes)
advance cursor none = ok (some (cursor_bytes cursor))
advance cursor (some old_value_bytes) = elim (read_cursor old_value_bytes) [
  | none ↦ err (panic "db corrupted, failed to read cursor")
  | some old_value ↦ ok (
      some (
        if bytes_lt old_value.blue_work cursor.blue_work
        then cursor_bytes cursor
        else old_value_bytes))
]

-- `<[u8; 32]>::try_from(bytes)`
abbrev pub hash_of : Option Bytes → Outcome (Option Bytes)
hash_of none = ok none
hash_of (some bytes) =
    if length bytes == 32 then ok (some bytes) else err (bail "could not convert slice to array")

unfoldable pub cursor_of_value : Option Bytes → Outcome (Option Cursor)
cursor_of_value none = ok none
cursor_of_value (some bytes) =
    bind (of_option (bail "db corrupted, failed to read cursor") (read_cursor bytes))
      λ c. ok (some c)

module _ (fj : Fjall) where
  open fj use {Keyspace, WriteTransaction}

  unfoldable pub set_latest_block_cursor : WriteTransaction → Bytes → WriteTransaction
  set_latest_block_cursor w hash =
      fj.insert_wtx w Partition.metadata (metadata_key latest_block_cursor) hash

  -- also `get_latest_block_cursor_rtx`
  unfoldable pub get_latest_block_cursor : Keyspace → Outcome (Option Bytes)
  get_latest_block_cursor s =
      hash_of (fj.get s Partition.metadata (metadata_key latest_block_cursor))

  unfoldable pub get_latest_block_cursor_wtx : WriteTransaction → Outcome (Option Bytes)
  get_latest_block_cursor_wtx w =
      hash_of (fj.get_wtx w Partition.metadata (metadata_key latest_block_cursor))

  unfoldable pub set_latest_accepting_block_cursor :
      WriteTransaction → Cursor → Outcome WriteTransaction
  set_latest_accepting_block_cursor w cursor =
      bind
        (fetch_update_closure fj w Partition.metadata (metadata_key latest_accepting_block_cursor)
          (advance cursor))
        λ (w', old). ok w'

  -- also `get_latest_accepting_block_cursor_rtx`
  unfoldable pub get_latest_accepting_block_cursor : Keyspace → Outcome (Option Cursor)
  get_latest_accepting_block_cursor s =
      cursor_of_value (fj.get s Partition.metadata (metadata_key latest_accepting_block_cursor))

  unfoldable pub get_latest_accepting_block_cursor_wtx : WriteTransaction → Outcome (Option Cursor)
  get_latest_accepting_block_cursor_wtx w =
      cursor_of_value (fj.get_wtx w Partition.metadata (metadata_key latest_accepting_block_cursor))

  unfoldable pub remove_latest_block_cursor : WriteTransaction → WriteTransaction
  remove_latest_block_cursor w =
      fj.remove_wtx w Partition.metadata (metadata_key latest_block_cursor)

  unfoldable pub remove_latest_accepting_block_cursor : WriteTransaction → WriteTransaction
  remove_latest_accepting_block_cursor w =
      fj.remove_wtx w Partition.metadata (metadata_key latest_accepting_block_cursor)

  unfoldable pub db_version : Keyspace → Outcome ℕ
  db_version s = elim (fj.get s Partition.metadata (metadata_key db_version_key)) [
    | none ↦ ok 0
    | some bytes ↦
        if length bytes == 4
        then ok (of_le bytes)
        else err (bail "db corrupted, failed to read db version")
  ]

  unfoldable pub set_db_version_wtx : WriteTransaction → ℕ → WriteTransaction
  set_db_version_wtx w version =
      fj.insert_wtx w Partition.metadata (metadata_key db_version_key) (to_le 4 version)

  unfoldable pub set_db_version : Keyspace → ℕ → Keyspace
  set_db_version s version =
      fj.insert s Partition.metadata (metadata_key db_version_key) (to_le 4 version)
