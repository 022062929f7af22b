-- ===== src/Protocol/Grammar.antt =====
-- The payload grammar of protocol/src/PROTO.md, stated without the parser, and the parser
-- against it.
use kasia_indexer.Prelude.{
  ℕ, zero, suc, ◌≡◌, ◌≢◌, refl, sym, ◌∙◌, ap, append_assoc, ◌↔◌, ◌⊎◌, inl, inr, false, Option, none,
  some, [], ◌∷◌, ◌++◌, length, take, drop, take-append-length, All, ◌==◌, arith, Option-cases,
}
use kasia_indexer.Prelude.Bytes.{Bytes, ascii, strip_prefix, strip_prefix_sound}
use kasia_indexer.Protocol.{
  SealedOperation, sealed_message_or_sealed_handshake_v_none, contextual_message_v1, payment_v1,
  self_stash_v1, sealed_handshake_v2, version_1_part, protocol_prefix, delimiter_position,
  parse_comm, parse_self_stash, parse_v1, parse_versioned, parse_sealed_operation,
}

-- No byte is a colon.
abbrev pub NoColon : Bytes → Type 0
NoColon bs = All (λ b. (b == b':') ≡ false) bs

-- `Renders op p`: the payload `p` is a writing of `op`.
abbrev pub Renders : SealedOperation → Bytes → Type 0
Renders (sealed_message_or_sealed_handshake_v_none m) p =
    (m.sealed_hex ≢ [])
    × (strip_prefix version_1_part m.sealed_hex ≡ none)
    × (p ≡ ascii "ciph_msg:" ++ m.sealed_hex)
Renders (contextual_message_v1 m) p =
    NoColon m.alias × (p ≡ ascii "ciph_msg:1:comm:" ++ (m.alias ++ b':' ∷ m.sealed_hex))
Renders (payment_v1 m) p =
    (p ≡ ascii "ciph_msg:1:payment:" ++ m.sealed_hex)
    ⊎ (p ≡ ascii "ciph_msg:1:pay:" ++ m.sealed_hex)
Renders (self_stash_v1 m) p = elim m.key [
  | some k ↦ NoColon k × (p ≡ ascii "ciph_msg:1:self_stash:" ++ (k ++ b':' ∷ m.sealed_hex))
  | none ↦ NoColon m.sealed_hex × (p ≡ ascii "ciph_msg:1:self_stash:" ++ m.sealed_hex)
]
Renders (sealed_handshake_v2 m) p = p ≡ ascii "ciph_msg:1:handshake:" ++ m.sealed_hex

-- The delimiter is found where the colon-free part ends.
delimiter_position-append :
    (k h : Bytes) → NoColon k → delimiter_position (k ++ b':' ∷ h) ≡ some (length k)
unfolding delimiter_position
delimiter_position-append [] h n = refl
delimiter_position-append (b ∷ k) h n = ground (arith, delimiter_position-append k h n.1)

delimiter_position-none : (h : Bytes) → NoColon h → delimiter_position h ≡ none
unfolding delimiter_position
delimiter_position-none [] n = refl
delimiter_position-none (b ∷ h) n = ground (arith, delimiter_position-none h n.1)

-- Where no delimiter is found, there is none.
NoColon-of_none : (h : Bytes) → delimiter_position h ≡ none → NoColon h
unfolding delimiter_position
NoColon-of_none [] e = tt
NoColon-of_none (b ∷ h) e = ground (arith, NoColon-of_none h)

-- Where one is found, the parts before and behind it make up the input.
delimiter_position_sound :
    (h : Bytes) (i : ℕ)
    → delimiter_position h ≡ some i
    → NoColon (take i h) × (h ≡ take i h ++ b':' ∷ drop (suc i) h)
unfolding delimiter_position
delimiter_position_sound [] i e = cc
delimiter_position_sound (b ∷ h) zero e = ground arith
delimiter_position_sound (b ∷ h) (suc i) e = ground (arith, delimiter_position_sound h i)

-- What a parser returns, if anything, is rendered by the payload.
abbrev RendersIfSome : Option SealedOperation → Bytes → Type 0
RendersIfSome none p = Unit
RendersIfSome (some op) p = Renders op p

parse_comm_sound :
    (r p : Bytes) → p ≡ ascii "ciph_msg:1:comm:" ++ r → RendersIfSome (parse_comm r) p
unfolding parse_comm
parse_comm_sound r p h = elim (Option-cases (delimiter_position r)) [
  | inl n ↦ rw (n, RendersIfSome) tt
  | inr (i, s) ↦
      let (clear, cut) = delimiter_position_sound r i s in
      rw (s, RendersIfSome) (clear, h ∙ ap (λ t. ascii "ciph_msg:1:comm:" ++ t) cut)
]

parse_self_stash_sound :
    (r p : Bytes) → p ≡ ascii "ciph_msg:1:self_stash:" ++ r → RendersIfSome (parse_self_stash r) p
unfolding parse_self_stash
parse_self_stash_sound r p h = elim (Option-cases (delimiter_position r)) [
  | inl n ↦ rw (n, RendersIfSome) (NoColon-of_none r n, h)
  | inr (i, s) ↦
      let (clear, cut) = delimiter_position_sound r i s in
      rw (s, RendersIfSome) (clear, h ∙ ap (λ t. ascii "ciph_msg:1:self_stash:" ++ t) cut)
]

-- A stripped part extends what the payload is known to begin with.
extend : (q a body r p : Bytes) → strip_prefix a body ≡ some r → p ≡ q ++ body → p ≡ (q ++ a) ++ r
extend q a body r p s h =
    h ∙ ap (λ t. q ++ t) (strip_prefix_sound a body r s) ∙ sym (append_assoc q a r)

parse_v1_sound :
    (body p : Bytes) → p ≡ ascii "ciph_msg:1:" ++ body → RendersIfSome (parse_v1 body) p
unfolding parse_v1
parse_v1_sound body p h = elim (Option-cases (strip_prefix (ascii "payment:") body)) [
  | inr (r, s) ↦
      rw (s, RendersIfSome) (inl (extend (ascii "ciph_msg:1:") (ascii "payment:") body r p s h))
  | inl n₁ ↦ elim (Option-cases (strip_prefix (ascii "pay:") body)) [
    | inr (r, s) ↦
        rw (n₁, s, RendersIfSome) (inr (extend (ascii "ciph_msg:1:") (ascii "pay:") body r p s h))
    | inl n₂ ↦ elim (Option-cases (strip_prefix (ascii "handshake:") body)) [
      | inr (r, s) ↦
          rw (n₁, n₂, s, RendersIfSome)
            (extend (ascii "ciph_msg:1:") (ascii "handshake:") body r p s h)
      | inl n₃ ↦ elim (Option-cases (strip_prefix (ascii "comm:") body)) [
        | inr (r, s) ↦
            rw (n₁, n₂, n₃, s, RendersIfSome)
              (parse_comm_sound r p (extend (ascii "ciph_msg:1:") (ascii "comm:") body r p s h))
        | inl n₄ ↦ elim (Option-cases (strip_prefix (ascii "self_stash:") body)) [
          | inr (r, s) ↦
              rw (n₁, n₂, n₃, n₄, s, RendersIfSome)
                (parse_self_stash_sound r p
                  (extend (ascii "ciph_msg:1:") (ascii "self_stash:") body r p s h))
          | inl n₅ ↦ rw (n₁, n₂, n₃, n₄, n₅, RendersIfSome) tt
        ]
      ]
    ]
  ]
]

parse_versioned_sound :
    (r p : Bytes) → p ≡ ascii "ciph_msg:" ++ r → RendersIfSome (parse_versioned r) p
unfolding parse_versioned
parse_versioned_sound [] p h = tt
parse_versioned_sound (b ∷ bs) p h = elim (Option-cases (strip_prefix version_1_part (b ∷ bs))) [
  | inl n ↦ rw (n, RendersIfSome) ((λ e. cc), n, h)
  | inr (r, s) ↦
      rw (s, RendersIfSome)
        (parse_v1_sound r p (extend (ascii "ciph_msg:") version_1_part (b ∷ bs) r p s h))
]

parse_sealed_operation_sound : (p : Bytes) → RendersIfSome (parse_sealed_operation p) p
unfolding parse_sealed_operation
parse_sealed_operation_sound p = elim (Option-cases (strip_prefix protocol_prefix p)) [
  | inl n ↦ rw (n, RendersIfSome) tt
  | inr (r, s) ↦
      rw (s, RendersIfSome) (parse_versioned_sound r p (strip_prefix_sound protocol_prefix p r s))
]

drop-past : (k h : Bytes) (x : ℕ) → drop (suc (length k)) (k ++ x ∷ h) ≡ h
drop-past [] h x = refl
drop-past (b ∷ k) h x = drop-past k h x

parse_comm_complete :
    (k h : Bytes)
    → NoColon k
    → parse_comm (k ++ b':' ∷ h)
      ≡ some (contextual_message_v1 (record { alias = k; sealed_hex = h }))
unfolding parse_comm
parse_comm_complete k h n =
    rw (delimiter_position-append k h n, parse_comm)
      (rw (take-append-length (length k) k (b':' ∷ h) refl, drop-past k h b':') refl)

parse_self_stash_complete :
    (k h : Bytes)
    → NoColon k
    → parse_self_stash (k ++ b':' ∷ h)
      ≡ some (self_stash_v1 (record { key = some k; sealed_hex = h }))
unfolding parse_self_stash
parse_self_stash_complete k h n =
    rw (delimiter_position-append k h n, parse_self_stash)
      (rw (take-append-length (length k) k (b':' ∷ h) refl, drop-past k h b':') refl)

parse_self_stash-no_key :
    (h : Bytes)
    → NoColon h
    → parse_self_stash h ≡ some (self_stash_v1 (record { key = none; sealed_hex = h }))
unfolding parse_self_stash
parse_self_stash-no_key h n = rw (delimiter_position-none h n, parse_self_stash) refl

parse_versioned-unversioned :
    (h : Bytes)
    → h ≢ []
    → strip_prefix version_1_part h ≡ none
    → parse_versioned h
      ≡ some (sealed_message_or_sealed_handshake_v_none (record { sealed_hex = h }))
unfolding parse_versioned
parse_versioned-unversioned [] n s = absurd (n refl)
parse_versioned-unversioned (b ∷ bs) n s = rw (s, parse_versioned) refl

self_stash_complete :
    (p h : Bytes) (key : Option Bytes)
    → Renders (self_stash_v1 (record { key = key; sealed_hex = h })) p
    → parse_sealed_operation p ≡ some (self_stash_v1 (record { key = key; sealed_hex = h }))
unfolding parse_sealed_operation
self_stash_complete p h (some k) r = rw r.1 (parse_self_stash_complete k h r.0)
self_stash_complete p h none r = rw r.1 (parse_self_stash-no_key h r.0)

parse_sealed_operation_complete :
    (p : Bytes) (op : SealedOperation) → Renders op p → parse_sealed_operation p ≡ some op
unfolding parse_sealed_operation
parse_sealed_operation_complete p (sealed_message_or_sealed_handshake_v_none m) h =
    rw h.2 (parse_versioned-unversioned m.sealed_hex h.0 h.1)
parse_sealed_operation_complete p (contextual_message_v1 m) h = rw h.1 (parse_comm_complete _ _ h.0)
parse_sealed_operation_complete p (payment_v1 m) (inl h) = rw h refl
parse_sealed_operation_complete p (payment_v1 m) (inr h) = rw h refl
parse_sealed_operation_complete p (self_stash_v1 m) h = self_stash_complete p m.sealed_hex m.key h
parse_sealed_operation_complete p (sealed_handshake_v2 m) h = rw h refl

-- The parser returns an operation exactly for the payloads that are a writing of it, so that it
-- rejects every other payload and no payload has two readings.
pub parse_sealed_operation_iff :
    (p : Bytes) (op : SealedOperation) → (parse_sealed_operation p ≡ some op) ↔ Renders op p
parse_sealed_operation_iff p op =
    ((λ e. rw e at (parse_sealed_operation_sound p)), parse_sealed_operation_complete p op)
