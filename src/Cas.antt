-- ===== src/Cas.antt =====
-- src/infra/cas_client.rs: the check of a fetched leaf proof. The hexadecimal text of a digest is
-- what the crate hex writes, a parameter.
pub mod Verify
use wqc_node.Base.{Bool, true, false, not, Result, ok, err, if◌then◌else◌, ◌>>=◌, ◌>>◌, ℕ}
use wqc_node.Base.Bytes.{Bytes}
use wqc_node.Base.Text.{Text, trim, eq_ignore_ascii_case}
use wqc_node.Crypto.{Crypto}

pub data CasError : Type 0 where
  get_failed body_failed : CasError
  get_status : ℕ → Text → CasError
  -- What was got and what was wanted.
  hash_mismatch : Text → Text → CasError

-- What the GET meets: no answer, a status that is no success, a body that cannot be read, a body.
pub data CasReply : Type 0 where
  no_answer unread : CasReply
  status : ℕ → Text → CasReply
  body : Bytes → CasReply

module _ (crypto : Crypto) (hex : Bytes → Text) where
  unfoldable pub sha256_hex : Bytes → Text
  sha256_hex bytes = hex (crypto.sha256 bytes)

  unfoldable pub verify_cas_blob : Bytes → Text → Result (Unit {0}) CasError
  unfolding sha256_hex trim eq_ignore_ascii_case
  verify_cas_blob bytes expected_hash =
      if not (eq_ignore_ascii_case (sha256_hex bytes) (trim expected_hash))
      then err (hash_mismatch (sha256_hex bytes) (trim expected_hash))
      else ok tt

  -- An unexpected size is only logged.
  unfoldable pub fetch_and_verify : CasReply → Text → Result Bytes CasError
  unfolding verify_cas_blob
  fetch_and_verify no_answer expected_hash = err get_failed
  fetch_and_verify unread expected_hash = err body_failed
  fetch_and_verify (status s t) expected_hash = err (get_status s t)
  fetch_and_verify (body bytes) expected_hash = verify_cas_blob bytes expected_hash >> ok bytes
