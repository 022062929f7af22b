-- ===== src/Api.antt =====
-- indexer/src/api/v1/*.rs: the requests that read messages. Each one answers with a page: the
-- first entries of a range over the block times, one for each transaction.
pub mod Addresses
pub mod Handshakes
pub mod Payments
pub mod ContextualMessages
pub mod SelfStash
pub mod Page
use Prim.Native.String.{String}
use kasia_indexer.Prelude.{
  ℕ, zero, suc, true, false, Option, none, some, List, [], ◌∷◌, take, drop, leb, if◌then◌else◌,
}
use kasia_indexer.Prelude.Bytes.{Bytes, contains, of_le}
use kasia_indexer.Prelude.Outcome.{Outcome, Fault, ok, err, bail, panic, bind, of_option}
use kasia_indexer.Fjall.{Fjall}
use kasia_indexer.Db.{Kaspa, AddressPayload, address_of_address}
use kasia_indexer.Db.Acceptance.{acceptance_by_tx_id}
use kasia_indexer.Push.{Libraries}
use kasia_indexer.Push.Dispatch.Events.{to_rpc_address}

-- What is used of the parsers of the libraries: `RpcAddress::try_from`, and
-- `faster_hex::hex_decode` of a text into half as many bytes.
pub record Parsers (k : Kaspa) : Type 0 where
  pub parse_address : Bytes → Option k.Address
  pub hex_decode : Bytes → Option Bytes

-- `Ok(Json(..))`, and the two statuses of an error
pub data ApiResponse (R : Type 0) : Type 0 where
  json : List R → ApiResponse R
  bad_request : String → ApiResponse R
  internal_server_error : Fault → ApiResponse R

-- A panic of the task is an error of its `join`.
abbrev pub answer : {R : Type 0} → Outcome (List R) → ApiResponse R
answer (ok rs) = json rs
answer (err e) = internal_server_error e

-- `limit.unwrap_or(10).min(50)`, with the default
abbrev pub limit_of : ℕ → Option ℕ → ℕ
limit_of default none = default
limit_of default (some n) = if leb n 50 then n else 50

abbrev pub cursor_of : Option ℕ → ℕ
cursor_of none = 0
cursor_of (some t) = t

module _ {K R : Type 0} (read : Bytes → Option K) (tx_id : K → Bytes)
    (respond : K → Bytes → Outcome R) where
  -- One entry, with the page of the others where it is skipped, and where it is shown.
  abbrev pub page_entry :
      Option K
      → Bytes
      → List Bytes
      → Outcome (List R)
      → (List Bytes → Outcome (List R))
      → Outcome (List R)
  page_entry none value seen others rest = err (panic "SharedImmutable: wrong size")
  page_entry (some k) value seen others rest =
      if contains (tx_id k) seen
      then others
      else bind (respond k value) λ r. bind (rest (tx_id k ∷ seen)) λ rs. ok (r ∷ rs)

  -- `iter.filter(seen_tx_ids.insert).take(limit).map(respond).collect::<Result<..>>()`
  unfoldable pub page : ℕ → List Bytes → List (Bytes × Bytes) → Outcome (List R)
  page zero seen es = ok []
  page (suc limit) seen [] = ok []
  page (suc limit) seen ((key, value) ∷ es) =
      page_entry (read key) value seen (page (suc limit) seen es) (λ seen'. page limit seen' es)

module _ (lib : Libraries) (fj : Fjall) (k : Kaspa) (parsers : Parsers k) where
  abbrev payload_response :
      {R : Type 0} → (AddressPayload → ApiResponse R) → Outcome AddressPayload → ApiResponse R
  payload_response next (err e) = bad_request "Invalid address payload"
  payload_response next (ok a) = next a

  abbrev address_response :
      {R : Type 0} → (AddressPayload → ApiResponse R) → Option k.Address → ApiResponse R
  address_response next none = bad_request "Invalid address"
  address_response next (some a) = payload_response next (address_of_address k a)

  -- The two checks of the address of a request, before the rest.
  unfoldable pub with_address :
      {R : Type 0} → Bytes → (AddressPayload → ApiResponse R) → ApiResponse R
  with_address address next = address_response next (parsers.parse_address address)

  abbrev text_or_error : String → Option Bytes → Outcome Bytes
  text_or_error message none = err (bail message)
  text_or_error message (some text) = ok text

  -- the text of an address that is known
  unfoldable pub required_address : AddressPayload → Outcome Bytes
  required_address a =
      bind (to_rpc_address lib k a)
        (text_or_error "Database consistency error: receiver address has EMPTY_VERSION")

  -- the accepting block and its DAA score
  abbrev acceptance_of : Option Bytes → Option Bytes × Option ℕ
  acceptance_of none = (none, none)
  acceptance_of (some value) =
      (some (lib.hex_string (take 32 value)), some (of_le (take 8 (drop 32 value))))

  unfoldable pub acceptance : fj.Keyspace → Bytes → Outcome (Option Bytes × Option ℕ)
  acceptance s tx_id = bind (acceptance_by_tx_id fj s tx_id) λ value. ok (acceptance_of value)
