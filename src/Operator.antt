-- ===== src/Operator.antt =====
-- src/domain/operator.rs: the operator's key pair, derived from the key of the node with HKDF.
-- `HmacSha256`, Ed25519 and `hex::encode` are parameters.
pub mod Derived
use wqc_node.Base.{
  ℕ, zero, suc, ◌+◌, List, [], ◌∷◌, ◌++◌, Result, ok, err, ltb, min, ◌==◌, is_empty, if◌then◌else◌,
  length, take, replicate,
}
use wqc_node.Base.Bytes.{Bytes, as_bytes}
use wqc_node.Base.Text.{Text, text}

abbrev pub hkdf_info : Bytes
hkdf_info = text "wqc-operator-v1"

pub record Primitives : Type 0 where
  -- The tag of a message under a key.
  pub hmac : Bytes → Bytes → Bytes
  pub sha256 : Bytes → Bytes
  -- `signing_key.verifying_key().to_bytes()`
  pub verifying_key : Bytes → Bytes
  pub hex : Bytes → Text

pub data OperatorError : Type 0 where
  no_node_key seed_length : OperatorError

module _ (p : Primitives) where
  -- The block that one round of the loop adds.
  abbrev pub next_block : Bytes → Bytes → Bytes → ℕ → Bytes
  next_block prk info t counter = p.hmac prk (t ++ info ++ counter ∷ [])

  -- `while out.len() < length`, with the rounds left as fuel; `counter` is a `u8` that saturates.
  unfoldable pub expand_loop : ℕ → Bytes → Bytes → ℕ → Bytes → Bytes → ℕ → Bytes
  expand_loop zero prk info wanted out t counter = out
  expand_loop (suc fuel) prk info wanted out t counter =
      let block = next_block prk info t counter in
      let rest = expand_loop fuel prk info wanted (out ++ block) block (min (counter + 1) 255) in
      if ltb (length out) wanted then rest else out

  -- A block is not empty, so `length` rounds are enough.
  unfoldable pub hkdf_expand : Bytes → Bytes → ℕ → Bytes
  unfolding expand_loop
  hkdf_expand prk info wanted = take wanted (expand_loop wanted prk info wanted [] [] 1)

  unfoldable pub hkdf_sha256 : Bytes → Bytes → Bytes → ℕ → Bytes
  unfolding hkdf_expand
  hkdf_sha256 ikm salt info wanted =
      hkdf_expand (p.hmac (if is_empty salt then replicate 32 0 else salt) ikm) info wanted

  unfoldable pub operator_id_from_pubkey : Bytes → Text
  operator_id_from_pubkey pubkey = p.hex (p.sha256 pubkey)

  -- A signing key is its seed.
  unfoldable pub derive_operator_keypair : Text → Result (Text × Bytes) OperatorError
  unfolding hkdf_sha256 operator_id_from_pubkey as_bytes
  derive_operator_keypair node_key =
      let seed = hkdf_sha256 (as_bytes node_key) [] hkdf_info 32 in
      if is_empty node_key
      then err no_node_key
      else if length seed == 32
      then ok (operator_id_from_pubkey (p.verifying_key seed), seed)
      else err seed_length
