-- ===== src/Bid/Lottery.antt =====
-- The lottery of a bid (src/domain/bid.rs).
use wqc_node.Base.{
  ℕ, zero, suc, ◌+◌, ◌%◌, ◌^◌, ◌≤◌, ◌≡◌, ◌↔◌, refl, subst, Bool, true, false, [], ◌∷◌, Option, none,
  some, arith, ltb, ◌==◌, ==_iff, if◌then◌else◌, length, take, replicate, all, Bool-cases, inl, inr,
}
use wqc_node.Base.Bytes.{Bytes}
use wqc_node.Base.Int.{ℤ}
use wqc_node.Base.Text.{Text}
use wqc_node.Bid.{
  Mined, meets_difficulty, lottery_hash, mine_loop, mine_lottery, lottery_time_window_secs,
}
use wqc_node.Crypto.{Crypto}
use wqc_node.Work.{from_secs}

all_zero_iff :
    (n : ℕ) (hash : Bytes)
    → n ≤ length hash
    → (all (λ b. b == 0) (take n hash) ≡ true) ↔ (take n hash ≡ replicate n 0)
all_zero_iff zero hash h = (λ _. refl, λ _. refl)
all_zero_iff (suc n) [] h = absurd (omega (arith, h))
all_zero_iff (suc n) (b ∷ hash) h =
    ground (arith, all_zero_iff n hash (omega (arith, h)), ==_iff b 0)

-- A hash meets a difficulty exactly when it starts with that many zero bytes.
pub meets_difficulty_iff :
    (hash : Bytes) (difficulty : ℕ)
    → (meets_difficulty hash difficulty ≡ true)
      ↔ ((difficulty ≤ length hash) × (take difficulty hash ≡ replicate difficulty 0))
unfolding meets_difficulty
meets_difficulty_iff hash zero = ground arith
meets_difficulty_iff hash (suc n) = elim (Bool-cases (ltb (length hash) (suc n))) [
  | inl s ↦ ground (arith, s)
  | inr l ↦ ground (arith, l, all_zero_iff (suc n) hash (ground (arith, l)))
]

if_some {ℓ} :
    {A : Type ℓ} (b : Bool) {x y : Option A}
    → (r : A) × (x ≡ some r)
    → (r : A) × (y ≡ some r)
    → (r : A) × ((if b then x else y) ≡ some r)
if_some true p q = p
if_some false p q = q

module _ (c : Crypto) (node_id : Text) (nonce difficulty : ℕ) (timestamp : ℤ) (clock : ℕ → ℕ) where
  -- The proof is the hash of the attempt, and it meets the difficulty.
  abbrev IsProof : Mined → Type 0
  IsProof (t, (attempt, proof)) =
      (t ≡ timestamp)
      × (proof ≡ lottery_hash c node_id nonce timestamp attempt)
      × (meets_difficulty proof difficulty ≡ true)

  mine_loop-IsProof :
      (fuel deadline k attempt : ℕ) (m : Mined)
      → mine_loop c node_id nonce difficulty timestamp clock fuel deadline k attempt ≡ some (some m)
      → IsProof m
  unfolding mine_loop
  mine_loop-IsProof zero deadline k attempt m e = ground (arith, e)
  mine_loop-IsProof (suc fuel) deadline k attempt m e = ground (
    arith,
    e,
    mine_loop-IsProof fuel deadline (suc k) ((attempt + 1) % 2 ^ 64) m,
    Bool-cases (meets_difficulty (lottery_hash c node_id nonce timestamp attempt) difficulty),
  )

  -- What the lottery finds is the hash of the attempt that it names and meets the difficulty.
  pub mine_lottery-IsProof :
      (fuel : ℕ) (m : Mined)
      → mine_lottery c node_id nonce difficulty timestamp clock fuel ≡ some (some m)
      → IsProof m
  unfolding mine_lottery meets_difficulty
  mine_lottery-IsProof fuel m e = ground (
    arith,
    e,
    mine_loop-IsProof fuel (clock 0 + from_secs lottery_time_window_secs) 1 0 m,
    Bool-cases (difficulty == 0),
  )

  mine_loop-ends :
      (fuel deadline k attempt : ℕ)
      → deadline ≤ clock (k + fuel)
      → (r : Option Mined) × (mine_loop c node_id nonce difficulty timestamp clock
            (suc fuel)
            deadline
            k
            attempt
          ≡ some r)
  unfolding mine_loop
  mine_loop-ends zero deadline k attempt h = (none, ground (arith, h))
  mine_loop-ends (suc fuel) deadline k attempt h =
      if_some (ltb (clock k) deadline)
        (if_some (meets_difficulty (lottery_hash c node_id nonce timestamp attempt) difficulty)
          (some (timestamp, (attempt, lottery_hash c node_id nonce timestamp attempt)), refl)
          (mine_loop-ends fuel deadline (suc k) ((attempt + 1) % 2 ^ 64)
            (subst (λ (i : ℕ). deadline ≤ clock i) (omega arith) h)))
        (none, refl)

  -- Once a reading of the clock is at the deadline, the lottery has ended: fuel for the readings up
  -- to it is enough.
  pub mine_lottery-ends :
      (n : ℕ)
      → clock 0 + from_secs lottery_time_window_secs ≤ clock (1 + n)
      → (r : Option Mined) × (mine_lottery c node_id nonce difficulty timestamp clock (suc n)
          ≡ some r)
  unfolding mine_lottery
  mine_lottery-ends n h =
      if_some (difficulty == 0)
        (some (timestamp, (0, lottery_hash c node_id nonce timestamp 0)), refl)
        (mine_loop-ends n (clock 0 + from_secs lottery_time_window_secs) 1 0 h)
