-- ===== src/Crypto.antt =====
-- The crates base64, ed25519-dalek and sha2: parameters of the definitions that call them. Keys and
-- signatures are their bytes.
use wqc_node.Base.{Bool, Option}
use wqc_node.Base.Bytes.{Bytes}
use wqc_node.Base.Text.{Text}

pub record Crypto : Type 0 where
  -- `STANDARD.encode`, `STANDARD.decode`
  pub encode : Bytes → Text
  pub decode : Text → Option Bytes
  -- `Signature::from_slice`
  pub signature_from_slice : Bytes → Option Bytes
  -- `VerifyingKey::from_bytes`, of 32 bytes
  pub key_from_bytes : Bytes → Option Bytes
  -- `verify`: the key, the payload and the signature
  pub verify : Bytes → Bytes → Bytes → Bool
  -- `sign`: the key and the payload
  pub sign : Bytes → Bytes → Bytes
  -- `Sha256`
  pub sha256 : Bytes → Bytes
