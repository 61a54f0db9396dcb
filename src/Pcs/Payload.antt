-- ===== src/Pcs/Payload.antt =====
-- What the signed bytes of an open call depend on and determine (src/domain/pcs.rs).
use mathlib.Core.List.{Perm}
use wqc_node.Base.{
  ℕ, ◌%◌, ◌^◌, ◌<◌, ◌≡◌, refl, List, [], ◌∷◌, ◌++◌, arith, length, map, All, append-injective,
}
use wqc_node.Base.Bytes.{Bytes, word-injective, as_bytes}
use wqc_node.Base.Text.{Text}
use wqc_node.Crypto.{Crypto}
use wqc_node.Pcs.{
  PcsOpenCall, refused_bytes, len_bytes, serialize_pcs_open_call_payload,
  verify_pcs_open_call_signature,
}
use wqc_node.Pcs.Sorting.{sort-Perm}

-- The order in which a call lists the builders that refused changes neither the signed bytes nor
-- the answer of the signature check.
pub open_call_payload-Perm :
    (c : Crypto) (call : PcsOpenCall) (others : List Text) (signature key : Text)
    → Perm call.refused_builders others
    → let call' : PcsOpenCall = record call { refused_builders = others } in
      (serialize_pcs_open_call_payload call ≡ serialize_pcs_open_call_payload call')
      × (verify_pcs_open_call_signature c call signature key
          ≡ verify_pcs_open_call_signature c call' signature key)
unfolding serialize_pcs_open_call_payload verify_pcs_open_call_signature
open_call_payload-Perm c call others signature key p = (
  rw (sort-Perm call.refused_builders others p) refl,
  rw (sort-Perm call.refused_builders others p) refl,
)

-- Every text is shorter than 2^32 bytes.
abbrev pub IsShort : Text → Type 0
IsShort t = length (as_bytes t) < 2 ^ 32

len-injective :
    (m n : ℕ) (xs ys : Bytes)
    → m < 2 ^ 32
    → n < 2 ^ 32
    → len_bytes m ++ xs ≡ len_bytes n ++ ys
    → (m ≡ n) × (xs ≡ ys)
len-injective m n xs ys h k e =
    let (w, rest) =
      word-injective 4 (m % 2 ^ 32) (n % 2 ^ 32) xs ys (omega arith) (omega arith) e in
    (omega (arith, w, h, k), rest)

-- Equal bytes for as many builders are of the same builders in the same order.
pub refused_bytes-injective :
    (ts us : List Text)
    → length ts ≡ length us
    → All IsShort ts
    → All IsShort us
    → refused_bytes ts ≡ refused_bytes us
    → map as_bytes ts ≡ map as_bytes us
unfolding refused_bytes
refused_bytes-injective [] [] n h k e = refl
refused_bytes-injective [] (u ∷ us) n h k e = absurd (omega (arith, n))
refused_bytes-injective (t ∷ ts) [] n h k e = absurd (omega (arith, n))
refused_bytes-injective (t ∷ ts) (u ∷ us) n h k e =
    let (l, e1) = len-injective (length (as_bytes t)) (length (as_bytes u)) _ _ h.0 k.0 e in
    let (b, e2) = append-injective (as_bytes t) (as_bytes u) _ _ l e1 in
    let rest = refused_bytes-injective ts us (omega (arith, n)) h.1 k.1 e2 in rw (b, rest) refl
