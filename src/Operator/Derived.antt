-- ===== src/Operator/Derived.antt =====
-- The loop of `hkdf_expand` against the recurrence of RFC 5869 (src/domain/operator.rs).
use wqc_node.Base.{
  ℕ, zero, suc, ◌+◌, ◌*◌, ◌/◌, ◌<◌, ◌≤◌, ◌≡◌, ◌≢◌, refl, ap, subst, ◌∙◌, ==_iff, [], ◌∷◌, ◌++◌, ok,
  ltb, ltb→lt, min, arith, length, take, replicate, length-append, Bool-cases, inl, inr,
  is_empty_iff,
}
use wqc_node.Base.Bytes.{Bytes, as_bytes}
use wqc_node.Base.Text.{Text}
use wqc_node.Operator.{
  Primitives, expand_loop, hkdf_expand, hkdf_sha256, hkdf_info, derive_operator_keypair,
  operator_id_from_pubkey,
}

-- T(0) is empty and T(i) is the tag of T(i-1), the info and the byte i, one after the other, as in
-- section 2.3 of the RFC; and T(1) … T(i).
abbrev pub block : Primitives → Bytes → Bytes → ℕ → Bytes
block p prk info zero = []
block p prk info (suc i) = p.hmac prk (block p prk info i ++ info ++ suc i ∷ [])

abbrev pub blocks : Primitives → Bytes → Bytes → ℕ → Bytes
blocks p prk info zero = []
blocks p prk info (suc i) = blocks p prk info i ++ block p prk info (suc i)

-- The number of blocks that hold so many bytes.
abbrev pub rounds : ℕ → ℕ
rounds wanted = (wanted + 31) / 32

pub length-take : (n : ℕ) (xs : Bytes) → n ≤ length xs → length (take n xs) ≡ n
length-take zero xs h = refl
length-take (suc n) [] h = absurd (omega (arith, h))
length-take (suc n) (x ∷ xs) h = ap suc (length-take n xs (omega (arith, h)))

take-all : (xs : Bytes) → take (length xs) xs ≡ xs
take-all [] = refl
take-all (x ∷ xs) = ap (λ ys. x ∷ ys) (take-all xs)

module _ (p : Primitives) (prk info : Bytes)
    (tag : (key message : Bytes) → length (p.hmac key message) ≡ 32) where
  length-blocks : (i : ℕ) → length (blocks p prk info i) ≡ 32 * i
  length-blocks zero = refl
  length-blocks (suc i) = omega (
    arith,
    length-append (blocks p prk info i) (block p prk info (suc i)),
    length-blocks i,
    tag prk (block p prk info i ++ info ++ suc i ∷ []),
  )

  expand_loop-blocks :
      (fuel wanted i : ℕ)
      → rounds wanted ≤ 255
      → i ≤ rounds wanted
      → rounds wanted ≤ i + fuel
      → expand_loop p fuel prk info wanted
          (blocks p prk info i)
          (block p prk info i)
          (min (i + 1) 255)
        ≡ blocks p prk info (rounds wanted)
  unfolding expand_loop
  expand_loop-blocks zero wanted i most le enough =
      let last : i ≡ rounds wanted = omega (arith, le, enough) in ap (blocks p prk info) last
  expand_loop-blocks (suc fuel) wanted i most le enough =
      elim (Bool-cases (ltb (length (blocks p prk info i)) wanted)) [
        | inl more ↦
            let left : 32 * i < wanted =
              subst (λ n. n < wanted) (length-blocks i) (ltb→lt _ wanted more) in
            let counter : min (i + 1) 255 ≡ suc i = omega (arith, left, most) in
            rw more (
              rw counter (
                expand_loop-blocks fuel wanted (suc i) most (omega (arith, left))
                  (omega (arith, enough))))
        | inr done ↦
            let left : wanted ≤ 32 * i = ground (arith, done, length-blocks i) in
            let last : i ≡ rounds wanted = omega (arith, le, left) in
            rw done (ap (blocks p prk info) last)
      ]

  -- For at most 255 blocks of 32 bytes, the loop ends and its bytes are the first of T(1) T(2) …
  -- as section 2.3 of RFC 5869 defines them: as many as were asked for.
  pub hkdf_expand_lem :
      (wanted : ℕ)
      → wanted ≤ 255 * 32
      → (hkdf_expand p prk info wanted ≡ take wanted (blocks p prk info (rounds wanted)))
        × (length (hkdf_expand p prk info wanted) ≡ wanted)
  unfolding hkdf_expand
  hkdf_expand_lem wanted most =
      let same =
        expand_loop-blocks wanted wanted 0 (omega (arith, most)) (omega arith) (omega arith) in
      rw same (
        refl,
        length-take wanted (blocks p prk info (rounds wanted))
            (omega (arith, length-blocks (rounds wanted))),
      )

-- A node key that is not empty always gives a key pair: the seed is the first block T(1) of HKDF
-- with a salt of 32 zeros, and the identifier is that of its public key.
pub derive_operator_keypair_lem :
    (p : Primitives) (node_key : Text)
    → ((key message : Bytes) → length (p.hmac key message) ≡ 32)
    → node_key ≢ []
    → let seed = p.hmac (p.hmac (replicate 32 0) (as_bytes node_key)) (hkdf_info ++ 1 ∷ []) in
      derive_operator_keypair p node_key
      ≡ ok (operator_id_from_pubkey p (p.verifying_key seed), seed)
unfolding derive_operator_keypair hkdf_sha256
derive_operator_keypair_lem p node_key tag ne =
    let prk = p.hmac (replicate 32 0) (as_bytes node_key) in
    let seed = p.hmac prk (hkdf_info ++ 1 ∷ []) in
    let size = tag prk (hkdf_info ++ 1 ∷ []) in
    let whole : take 32 seed ≡ seed = subst (λ n. take n seed ≡ seed) size (take-all seed) in
    let made : hkdf_expand p prk hkdf_info 32 ≡ seed =
      (hkdf_expand_lem p prk hkdf_info tag 32 (omega arith)).0 ∙ whole in
    let named = (is_empty_iff node_key).1 ne in
    let fits = (==_iff (length seed) 32).1 size in rw named (rw made (rw fits refl))
