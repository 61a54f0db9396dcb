-- ===== src/P2p.antt =====
-- src/domain/p2p.rs: task announcements and what the node checks before it trusts one. The text of
-- an error is a constructor that carries the label in it.
pub mod Announce
pub mod Layout
use Prim.Native.Nat.{bit_and}
use wqc_node.Base.{
  ℕ, ◌≡◌, Bool, true, false, not, ◌&&◌, ◌||◌, List, [], ◌∷◌, ◌++◌, Option, none, some, Result, ok,
  err, ◌>>=◌, ◌>>◌, guard, ok_or, length, concat, ◌==◌, if◌then◌else◌,
}
use wqc_node.Base.Bytes.{Bytes, to_be_bytes, as_bytes}
use wqc_node.Base.Text.{Text, text, trim}
use wqc_node.Crypto.{Crypto}
use wqc_node.Features.{feature_work_budget}
use wqc_node.Work.{Work}

pub record TaskAnnouncement : Type 0 where
  pub task_id : Text
  pub global_qubit_count : ℕ
  pub required_features : ℕ
  pub bid_difficulty : ℕ
  pub required_votes : ℕ
  pub nonce : ℕ
  pub deadline_secs : Option ℕ
  pub work : Option Work

pub record TaskAnnouncementMessage : Type 0 where
  pub announcement : TaskAnnouncement
  pub signature : Text
  pub signature_v2 : Option Text

pub data SignatureError : Type 0 where
  invalid_base64 invalid_signature : Text → SignatureError
  invalid_key_base64 key_not_32_bytes invalid_key : SignatureError
  verification_failed : Text → SignatureError

pub data AnnouncementError : Type 0 where
  invalid_json work_missing no_deadline not_signed : AnnouncementError
  bad_signature : SignatureError → AnnouncementError

unfoldable pub serialize_announcement_payload : TaskAnnouncement → Bytes
unfolding as_bytes to_be_bytes
serialize_announcement_payload a = concat (
    as_bytes a.task_id
    ∷ to_be_bytes 4 a.global_qubit_count
    ∷ to_be_bytes 4 a.required_features
    ∷ to_be_bytes 4 a.bid_difficulty
    ∷ to_be_bytes 4 a.required_votes
    ∷ to_be_bytes 8 a.nonce
    ∷ [])

-- The bytes that the second layout adds.
abbrev pub work_bytes : ℕ → Work → Bytes
work_bytes deadline_secs work =
    concat (
      to_be_bytes 4 deadline_secs
      ∷ to_be_bytes 8 work.traffic_bytes
      ∷ to_be_bytes 8 work.flops
      ∷ [])

unfoldable pub serialize_announcement_payload_v2 : TaskAnnouncement → Option Bytes
unfolding serialize_announcement_payload
serialize_announcement_payload_v2 a = elim a.work [
  | none ↦ none
  | some work ↦ elim a.deadline_secs [
    | none ↦ none
    | some deadline ↦ some (serialize_announcement_payload a ++ work_bytes deadline work)
  ]
]

abbrev pub is_some {ℓ} : {A : Type ℓ} → Option A → Bool
is_some none = false
is_some (some a) = true

module _ (crypto : Crypto) where
  unfoldable pub verify_orchestrator_signature :
      Bytes → Text → Text → Text → Result (Unit {0}) SignatureError
  unfolding trim
  verify_orchestrator_signature payload signature_b64 orchestrator_public_key_b64 label =
      ok_or (crypto.decode (trim signature_b64)) (invalid_base64 label) >>= λ signature_bytes.
      ok_or (crypto.signature_from_slice signature_bytes) (invalid_signature label) >>= λ signature.
      ok_or (crypto.decode (trim orchestrator_public_key_b64)) invalid_key_base64
      >>= λ public_key_bytes.
          guard (length public_key_bytes == 32) key_not_32_bytes
          >> (ok_or (crypto.key_from_bytes public_key_bytes) invalid_key >>= λ verifying_key.
              guard (crypto.verify verifying_key payload signature) (verification_failed label))

  -- `map_err`
  abbrev pub signed_by : Bytes → Text → Text → Text → Result (Unit {0}) AnnouncementError
  signed_by payload signature key label =
      elim (verify_orchestrator_signature payload signature key label) [
        | ok u ↦ ok u
        | err e ↦ err (bad_signature e)
      ]

  unfoldable pub verify_announcement_message :
      TaskAnnouncementMessage → Text → Result (Unit {0}) AnnouncementError
  unfolding serialize_announcement_payload serialize_announcement_payload_v2
  verify_announcement_message message key =
      let a = message.announcement in
      if not (bit_and a.required_features feature_work_budget == 0)
        && (not (is_some a.work) || not (is_some a.deadline_secs))
      then err work_missing
      else if is_some a.work
      then (ok_or (serialize_announcement_payload_v2 a) no_deadline >>= λ signed_payload.
          ok_or message.signature_v2 not_signed >>= λ signature.
          signed_by signed_payload signature key (text "announcement v2"))
      else signed_by (serialize_announcement_payload a) message.signature key (text "announcement")

  -- The message is what `serde_json::from_slice` reads, if it reads one.
  unfoldable pub parse_signed_announcement :
      Option TaskAnnouncementMessage → Text → Result TaskAnnouncement AnnouncementError
  unfolding verify_announcement_message
  parse_signed_announcement payload key = ok_or payload invalid_json >>= λ message.
      verify_announcement_message message key >> ok message.announcement
