-- ===== src/Examples.antt =====
-- Concrete inputs for the tests and examples: the stores in memory, scripts, blocks and messages.
mod Messages
mod Blocks
mod Chain
mod Periodic
mod Push
mod Api
use kasia_indexer.Prelude.{
  ℕ, ◌≡◌, refl, some, none, Option, List, [], ◌∷◌, length, replicate, arith,
}
use kasia_indexer.Prelude.Bytes.{Bytes, ascii}
use kasia_indexer.Prelude.Outcome.{Outcome, ok, err}
use kasia_indexer.Fjall.{Fjall}
use kasia_indexer.Fjall.InMemory
use kasia_indexer.RingMap.{RingMap}
use kasia_indexer.RingMap.InMemory.{in_memory}
use kasia_indexer.Db.{
  AddressPayload, Kaspa, ScriptClass, non_standard, pub_key, pub_key_ecdsa, script_hash,
}
use kasia_indexer.Blocks.{RpcHeader, RpcTransaction, RpcBlock}

abbrev pub store : Fjall
store = InMemory.in_memory

abbrev pub ring : RingMap
ring = in_memory

abbrev pub hash : ℕ → Bytes
hash n = replicate 32 n

-- the script of each class
abbrev pub script_of : ScriptClass → Bytes
script_of non_standard = []
script_of pub_key = replicate 34 1
script_of pub_key_ecdsa = replicate 35 2
script_of script_hash = replicate 35 3

abbrev pub class_version_of : ScriptClass → ℕ
class_version_of s = 0

pub pub_key-length : (s : ScriptClass) → s ≡ pub_key → length (script_of s) ≡ 34
pub_key-length s e = rw e refl

pub ecdsa-length : (s : ScriptClass) → s ≡ pub_key_ecdsa → length (script_of s) ≡ 35
ecdsa-length s e = rw e refl

pub script_hash-length : (s : ScriptClass) → s ≡ script_hash → length (script_of s) ≡ 35
script_hash-length s e = rw e refl

-- A script is named by its class.
abbrev pub kaspa : Kaspa
kaspa = record {
  ScriptPublicKey = ScriptClass;
  class_of = λ s. s;
  script = script_of;
  script_version = class_version_of;
  class_version = class_version_of;
  version_pub_key = 0;
  version_pub_key_ecdsa = 1;
  version_script_hash = 8;
  pub_key_small = omega arith;
  pub_key_ecdsa_small = omega arith;
  script_hash_small = omega arith;
  pub_key_length = pub_key-length;
  pub_key_ecdsa_length = ecdsa-length;
  script_hash_length = script_hash-length;
  Address = ScriptClass;
  pay_to_address_script = λ s. s;
}

abbrev pub alice : AddressPayload
alice = record { inverse_version = 255; payload = replicate 33 1 }

abbrev pub bob : AddressPayload
bob = record { inverse_version = 254; payload = replicate 33 2 }

abbrev pub header : RpcHeader
header = record { hash = hash 7; timestamp = 5; blue_work = 9; daa_score = 3 }

-- The value of a run, or another value where it fails.
abbrev pub value {ℓ} : {A : Type ℓ} → A → Outcome A → A
value d (ok a) = a
value d (err e) = d

-- A contextual message to a public key, whose sender is not known.
abbrev pub message : RpcTransaction kaspa
message = record {
  verbose_id = some (hash 21);
  computed_id = none;
  payload = ascii "ciph_msg:1:comm:al:00ff";
  outputs = record { value = 20; script_public_key = pub_key } ∷ [];
  inputs = record { transaction_id = hash 20; index = 1 } ∷ [];
}

abbrev pub block : RpcBlock kaspa
block = record { header = header; transactions = message ∷ [] }
