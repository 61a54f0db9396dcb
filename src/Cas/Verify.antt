-- ===== src/Cas/Verify.antt =====
-- What a fetched leaf proof is (src/infra/cas_client.rs).
use wqc_node.Base.{◌≡◌, ◌↔◌, ok, arith}
use wqc_node.Base.Bytes.{Bytes}
use wqc_node.Base.Text.{Text, trim, text_eq_iff, to_ascii_lowercase, eq_ignore_ascii_case}
use wqc_node.Cas.{
  CasReply, no_answer, unread, status, body, sha256_hex, verify_cas_blob, fetch_and_verify,
}
use wqc_node.Crypto.{Crypto}

-- A proof is fetched exactly when the answer has a body, and the body's digest is the wanted one up
-- to the case of letters and the space around it. Then the proof is that body.
pub fetch_and_verify_iff :
    (c : Crypto) (hex : Bytes → Text) (reply : CasReply) (hash : Text) (bytes : Bytes)
    → (fetch_and_verify c hex reply hash ≡ ok bytes) ↔ (
        (reply ≡ body bytes)
        × (to_ascii_lowercase (sha256_hex c hex bytes) ≡ to_ascii_lowercase (trim hash)))
unfolding fetch_and_verify verify_cas_blob eq_ignore_ascii_case
fetch_and_verify_iff c hex no_answer hash bytes = ground arith
fetch_and_verify_iff c hex unread hash bytes = ground arith
fetch_and_verify_iff c hex (status s t) hash bytes = ground arith
fetch_and_verify_iff c hex (body got) hash bytes = ground (
  arith,
  text_eq_iff (to_ascii_lowercase (sha256_hex c hex got)) (to_ascii_lowercase (trim hash)),
)
