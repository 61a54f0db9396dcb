-- ===== src/Core/Wait.antt =====
-- The wait for core at start-up ends (src/infra/core_client.rs).
use wqc_node.Base.{
  ℕ, zero, suc, ◌+◌, ◌≤◌, ◌<◌, ◌≡◌, refl, ◌↔◌, inl, inr, Bool, true, false, none, some, leb, arith,
  Bool-cases, leb→le, ap, subst, ◌≢◌,
}
use wqc_node.Core.{wait_rounds, wait_until_up}

module _ (probes : ℕ → Bool) (clock : ℕ → ℕ) (deadline : ℕ) where
  -- Core answers in round `j`, and until then neither did it answer nor was it too late.
  abbrev pub AnswersAt : ℕ → ℕ → Type 0
  AnswersAt i j =
      (i ≤ j)
      × (probes j ≡ true)
      × ((k : ℕ) → i ≤ k → k < j → (probes k ≡ false) × (clock k < deadline))

  wait_rounds-answers :
      (fuel i : ℕ)
      → (wait_rounds probes clock deadline fuel i ≡ some true)
      → (j : ℕ) × AnswersAt i j
  unfolding wait_rounds
  wait_rounds-answers zero i h = ground (arith, h)
  wait_rounds-answers (suc fuel) i h = elim (Bool-cases (probes i)) [
    | inl up ↦ (i, (omega arith, up, λ k a b. absurd (omega (arith, a, b))))
    | inr down ↦
        let early : leb deadline (clock i) ≡ false = ground (arith, h, down) in
        let later : wait_rounds probes clock deadline fuel (i + 1) ≡ some true =
          ground (arith, h, down, early) in
        let (j, (le, up, before)) = wait_rounds-answers fuel (i + 1) later in
        (
          j,
          (
            omega (arith, le),
            up,
            λ k a b. elim (Bool-cases (leb k i)) [
              | inl at ↦
                  let same : i ≡ k = omega (arith, a, leb→le k i at) in
                  (ground (arith, same, down), ground (arith, same, early))
              | inr past ↦ before k (ground (arith, past)) b
            ],
          ),
        )
  ]

  wait_rounds-found :
      (fuel i j : ℕ)
      → AnswersAt i j
      → j < i + fuel
      → wait_rounds probes clock deadline fuel i ≡ some true
  unfolding wait_rounds
  wait_rounds-found zero i j (le, _, _) room = absurd (omega (arith, le, room))
  wait_rounds-found (suc fuel) i j (le, up, before) room = elim (Bool-cases (leb j i)) [
    | inl at ↦
        let same : i ≡ j = omega (arith, le, leb→le j i at) in
        let here : probes i ≡ true = ground (arith, same, up) in rw here refl
    | inr past ↦
        let now = before i (omega arith) (ground (arith, past)) in
        let rest =
          wait_rounds-found fuel (i + 1) j
            (ground (arith, past), up, λ k a b. before k (omega (arith, a)) b)
            (omega (arith, room)) in
        let early : leb deadline (clock i) ≡ false = ground (arith, now) in rw now.0 (rw early rest)
  ]

  wait_rounds-ends :
      (fuel i : ℕ)
      → deadline ≤ clock (i + fuel)
      → wait_rounds probes clock deadline (suc fuel) i ≢ none
  unfolding wait_rounds
  wait_rounds-ends zero i late = elim (Bool-cases (probes i)) [
    | inl up ↦ rw up (λ e. ground (arith, e))
    | inr down ↦
        let at : clock (i + 0) ≡ clock i = ap clock (omega arith) in
        let over : leb deadline (clock i) ≡ true = ground (arith, late, at) in
        rw down (rw over (λ e. ground (arith, e)))
  ]
  wait_rounds-ends (suc fuel) i late = elim (Bool-cases (probes i)) [
    | inl up ↦ rw up (λ e. ground (arith, e))
    | inr down ↦ rw down (elim (Bool-cases (leb deadline (clock i))) [
      | inl over ↦ rw over (λ e. ground (arith, e))
      | inr early ↦
          let at : clock (i + suc fuel) ≡ clock (i + 1 + fuel) = ap clock (omega arith) in
          rw early (wait_rounds-ends fuel (i + 1) (omega (arith, late, at)))
    ])
  ]

-- With a clock that has gone on by a second for each round, the wait ends, and it ends well
-- exactly when core answers in a round that no reading at or after the deadline comes before.
pub wait_until_up_lem :
    (probes : ℕ → Bool) (clock : ℕ → ℕ) (start limit : ℕ)
    → ((k : ℕ) → start + k ≤ clock k)
    → (wait_until_up probes clock start limit ≢ none)
      × ((wait_until_up probes clock start limit ≡ some true)
          ↔ ((j : ℕ) × AnswersAt probes clock (start + limit) 0 j))
unfolding wait_until_up
wait_until_up_lem probes clock start limit ticks =
    let zero_left : limit ≡ 0 + limit = omega arith in
    let round : (j : ℕ)
        → AnswersAt probes clock (start + limit) 0 j
        → wait_rounds probes clock (start + limit) (suc limit) 0 ≡ some true =
      λ j (le, up, before). elim (Bool-cases (leb j limit)) [
        | inl in_time ↦
            wait_rounds-found probes clock (start + limit) (suc limit) 0 j (le, up, before)
              (omega (arith, leb→le j limit in_time))
        | inr late ↦
            absurd
              (omega (arith, (before limit (omega arith) (ground (arith, late))).1, ticks limit))
      ] in
    (
      wait_rounds-ends probes clock (start + limit) limit 0
          (subst (λ n. start + limit ≤ clock n) zero_left (ticks limit)),
      (wait_rounds-answers probes clock (start + limit) (suc limit) 0, λ (j, at). round j at),
    )
