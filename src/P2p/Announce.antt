-- ===== src/P2p/Announce.antt =====
-- What is trusted of an announcement (src/domain/p2p.rs).
use Prim.Native.Nat.{bit_and}
use wqc_node.Base.{
  ℕ, ◌≡◌, ◌↔◌, ◌⊎◌, refl, true, none, some, ok, err, length, arith, ◌==◌, inl, inr, ◌++◌,
  Option-cases, Result-cases, Bool-cases, ok_or-ok, guard-ok, guard_last, ==_iff, sym, ◌∙◌,
  if◌then◌else◌,
}
use wqc_node.Base.Bytes.{Bytes}
use wqc_node.Base.Text.{Text, text, trim}
use wqc_node.Crypto.{Crypto}
use wqc_node.Features.{feature_work_budget}
use wqc_node.P2p.{
  TaskAnnouncementMessage, serialize_announcement_payload, serialize_announcement_payload_v2,
  work_bytes, verify_orchestrator_signature, verify_announcement_message, signed_by, work_missing,
}
use wqc_node.Work.{Work}

-- A signature is accepted exactly when both texts decode, the key has 32 bytes and is a key, and the
-- key verifies the payload.
pub verify_orchestrator_signature_iff :
    (c : Crypto) (payload : Bytes) (signature key label : Text)
    → (verify_orchestrator_signature c payload signature key label ≡ ok tt) ↔ (
        (signature_bytes key_bytes parsed_signature parsed_key : Bytes) × (c.decode (trim signature)
          ≡ some signature_bytes)
        × (c.signature_from_slice signature_bytes ≡ some parsed_signature)
        × (c.decode (trim key) ≡ some key_bytes)
        × (length key_bytes ≡ 32)
        × (c.key_from_bytes key_bytes ≡ some parsed_key)
        × (c.verify parsed_key payload parsed_signature ≡ true))
unfolding verify_orchestrator_signature
verify_orchestrator_signature_iff c payload signature key label = (
  λ h.
      let (s, es, h1) = ok_or-ok (c.decode (trim signature)) _ _ tt h in
      let (ps, eps, h2) = ok_or-ok (c.signature_from_slice s) _ _ tt h1 in
      let (k, ek, h3) = ok_or-ok (c.decode (trim key)) _ _ tt h2 in
      let (el, h4) = guard-ok (length k == 32) _ _ tt h3 in
      let (pk, epk, h5) = ok_or-ok (c.key_from_bytes k) _ _ tt h4 in
      (s, k, ps, pk, es, eps, ek, (==_iff _ _).0 el, epk, guard_last _ _ tt h5),
  λ (s, k, ps, pk, es, eps, ek, el, epk, v). rw (es, eps, ek, (==_iff _ _).1 el, epk, v) refl,
)

module _ (c : Crypto) (key : Text) where
  -- The announcement has no work, does not ask for the work budget and is signed in the first
  -- layout; or it has work and a deadline, and both are in what the second signature covers.
  abbrev pub IsTrusted : TaskAnnouncementMessage → Type 0
  IsTrusted m =
      let a = m.announcement in
      ((a.work ≡ none)
        × (bit_and a.required_features feature_work_budget ≡ 0)
        × (verify_orchestrator_signature c (serialize_announcement_payload a) m.signature key
              (text "announcement")
            ≡ ok tt))
      ⊎ ((w : Work) × (d : ℕ) × (s : Text) × (a.work ≡ some w)
          × (a.deadline_secs ≡ some d)
          × (m.signature_v2 ≡ some s)
          × (verify_orchestrator_signature c (serialize_announcement_payload a ++ work_bytes d w) s
                key (text "announcement v2")
              ≡ ok tt))

  signed_by-ok :
      (payload : Bytes) (s label : Text)
      → signed_by c payload s key label ≡ ok tt
      → verify_orchestrator_signature c payload s key label ≡ ok tt
  signed_by-ok payload s label h =
      elim (Result-cases (verify_orchestrator_signature c payload s key label)) [
        | inl (u, e) ↦ e
        | inr (x, e) ↦ ground (arith, h, e)
      ]

  signed_by_iff :
      (payload : Bytes) (s label : Text)
      → (signed_by c payload s key label ≡ ok tt)
        ↔ (verify_orchestrator_signature c payload s key label ≡ ok tt)
  signed_by_iff payload s label = (signed_by-ok payload s label, λ e. rw (e, signed_by) refl)

  module _ (m : TaskAnnouncementMessage) where
    without_work :
        m.announcement.work ≡ none
        → verify_announcement_message c m key ≡ (
            if bit_and m.announcement.required_features feature_work_budget == 0
            then signed_by c
                (serialize_announcement_payload m.announcement)
                m.signature
                key
                (text "announcement")
            else err work_missing)
    unfolding verify_announcement_message
    without_work n = ground (arith, n)

    with_work :
        (w : Work) (d : ℕ) (s : Text)
        → m.announcement.work ≡ some w
        → m.announcement.deadline_secs ≡ some d
        → m.signature_v2 ≡ some s
        → verify_announcement_message c m key
          ≡ signed_by c
              (serialize_announcement_payload m.announcement ++ work_bytes d w)
              s
              key
              (text "announcement v2")
    unfolding verify_announcement_message serialize_announcement_payload_v2
    with_work w d s ew ed es = ground (arith, ew, ed, es)

    with_work-ok :
        (w : Work)
        → m.announcement.work ≡ some w
        → verify_announcement_message c m key ≡ ok tt
        → ((d : ℕ) × (m.announcement.deadline_secs ≡ some d))
          × ((s : Text) × (m.signature_v2 ≡ some s))
    unfolding verify_announcement_message serialize_announcement_payload_v2
    with_work-ok w ew h = (
      elim (Option-cases m.announcement.deadline_secs) [
        | inl n ↦ absurd (ground (arith, ew, n, h))
        | inr f ↦ f
      ],
      elim (Option-cases m.signature_v2) [
        | inl n ↦ absurd (ground (arith, ew, n, h, Option-cases m.announcement.deadline_secs))
        | inr f ↦ f
      ],
    )

  pub verify_announcement_message_iff :
      (m : TaskAnnouncementMessage) → (verify_announcement_message c m key ≡ ok tt) ↔ IsTrusted m
  verify_announcement_message_iff m = (
    λ h. elim (Option-cases m.announcement.work) [
      | inl n ↦
          elim (Bool-cases (bit_and m.announcement.required_features feature_work_budget == 0)) [
            | inl b ↦ inl (
              n,
              (==_iff _ _).0 b,
              (signed_by_iff _ _ _).0 (ground (arith, without_work m n, h, b)),
            )
            | inr b ↦ absurd (ground (arith, without_work m n, h, b))
          ]
      | inr (w, ew) ↦
          let ((d, ed), (s, es)) = with_work-ok m w ew h in
          inr (w, d, s, ew, ed, es, (signed_by_iff _ _ _).0 (sym (with_work m w d s ew ed es) ∙ h))
    ],
    λ t. elim t [
      | inl (n, b, v) ↦ without_work m n ∙ rw ((==_iff _ _).1 b) ((signed_by_iff _ _ _).1 v)
      | inr (w, d, s, ew, ed, es, v) ↦ with_work m w d s ew ed es ∙ (signed_by_iff _ _ _).1 v
    ],
  )
