-- ===== src/Protocol.antt =====
-- protocol/src/operation.rs and protocol/src/operation/deserializer.rs: the payload of a
-- transaction is read as a sealed operation. `parse_sealed_operation` is total on byte strings.
pub mod Grammar
use kasia_indexer.Prelude.{
  ℕ, suc, ◌+◌, Option, none, some, [], ◌∷◌, take, drop, ◌==◌, if◌then◌else◌,
}
use kasia_indexer.Prelude.Bytes.{Bytes, ascii, strip_prefix}

pub record SealedContextualMessageV1 : Type 0 where
  pub alias : Bytes
  pub sealed_hex : Bytes

pub record SealedPaymentV1 : Type 0 where
  pub sealed_hex : Bytes

pub record SealedHandshakeV2 : Type 0 where
  pub sealed_hex : Bytes

pub record SealedMessageOrSealedHandshakeVNone : Type 0 where
  pub sealed_hex : Bytes

pub record SealedSelfStashV1 : Type 0 where
  pub key : Option Bytes
  pub sealed_hex : Bytes

pub data SealedOperation : Type 0 where
  sealed_message_or_sealed_handshake_v_none : SealedMessageOrSealedHandshakeVNone → SealedOperation
  contextual_message_v1 : SealedContextualMessageV1 → SealedOperation
  payment_v1 : SealedPaymentV1 → SealedOperation
  self_stash_v1 : SealedSelfStashV1 → SealedOperation
  sealed_handshake_v2 : SealedHandshakeV2 → SealedOperation

abbrev pub protocol_prefix : Bytes
protocol_prefix = ascii "ciph_msg:"

abbrev pub version_1_part : Bytes
version_1_part = ascii "1:"

-- `iter().position(|b| b == &b':')`
unfoldable pub delimiter_position : Bytes → Option ℕ
delimiter_position [] = none
delimiter_position (b ∷ bs) =
    let later = delimiter_position bs in
    if b == b':' then some 0 else elim later [ none ↦ none | some i ↦ some (suc i) ]

-- The arm for `comm:`.
unfoldable pub parse_comm : Bytes → Option SealedOperation
unfolding delimiter_position
parse_comm remaining = elim (delimiter_position remaining) [
  | none ↦ none
  | some i ↦ some (
      contextual_message_v1
        (record { alias = take i remaining; sealed_hex = drop (suc i) remaining }))
]

-- The arm for `self_stash:`.
unfoldable pub parse_self_stash : Bytes → Option SealedOperation
unfolding delimiter_position
parse_self_stash remaining = elim (delimiter_position remaining) [
  | some i ↦ some (
      self_stash_v1 (record { key = some (take i remaining); sealed_hex = drop (suc i) remaining }))
  | none ↦ some (self_stash_v1 (record { key = none; sealed_hex = remaining }))
]

-- The arms behind the version, in the order of the match.
unfoldable pub parse_v1 : Bytes → Option SealedOperation
unfolding parse_comm parse_self_stash
parse_v1 body = elim (strip_prefix (ascii "payment:") body) [
  | some sealed_hex ↦ some (payment_v1 (record { sealed_hex = sealed_hex }))
  | none ↦ elim (strip_prefix (ascii "pay:") body) [
    | some sealed_hex ↦ some (payment_v1 (record { sealed_hex = sealed_hex }))
    | none ↦ elim (strip_prefix (ascii "handshake:") body) [
      | some sealed_hex ↦ some (sealed_handshake_v2 (record { sealed_hex = sealed_hex }))
      | none ↦ elim (strip_prefix (ascii "comm:") body) [
        | some remaining ↦ parse_comm remaining
        | none ↦ elim (strip_prefix (ascii "self_stash:") body) [
          | some remaining ↦ parse_self_stash remaining
          | none ↦ none
        ]
      ]
    ]
  ]
]

-- What stands behind `ciph_msg:`.
unfoldable pub parse_versioned : Bytes → Option SealedOperation
unfolding parse_v1
parse_versioned [] = none
parse_versioned (b ∷ bs) = elim (strip_prefix version_1_part (b ∷ bs)) [
  | none ↦ some (sealed_message_or_sealed_handshake_v_none (record { sealed_hex = b ∷ bs }))
  | some body ↦ parse_v1 body
]

unfoldable pub parse_sealed_operation : Bytes → Option SealedOperation
unfolding parse_versioned
parse_sealed_operation payload_bytes = elim (strip_prefix protocol_prefix payload_bytes) [
  | none ↦ none
  | some payload_without_protocol ↦ parse_versioned payload_without_protocol
]
