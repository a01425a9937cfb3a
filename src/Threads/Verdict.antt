-- ===== src/Threads/Verdict.antt =====
-- The sample's self-check on an accelerator that multiplies: staged operands, product, comparison.
use rv32imac_soc.Common.{
  ℕ, zero, suc, ◌+◌, ◌*◌, ◌/◌, ◌^◌, min, ◌≤◌, ◌<◌, ◌≡◌, ◌↔◌, subst, sym, ap, ◌∙◌, arith,
}
use native.Mathlib.Nat.{mod-eq_of_lt, mul-le-mul, suc-mul}
use rv32imac_soc.Threads.{Panels, Tally, stage_operands, check_results, wanted, shift_out}
use rv32imac_soc.Threads.Stage.{stage_operands_lem}
use rv32imac_soc.Threads.Check.{check_results_lem}

-- The sum of f over the first n numbers.
unfoldable pub sum_below : ℕ → (ℕ → ℕ) → ℕ
sum_below zero f = 0
sum_below (suc n) f = sum_below n f + f n

-- The accelerator's documented result, for operands that are not negative: the inner product of a lane
-- of A and a lane of B, shifted down and clipped to the largest int8_t.
abbrev pub lane_product : Panels → ℕ → ℕ → ℕ → ℕ → ℕ
lane_product s k_len p i j =
    min 127 (
      sum_below k_len (λ k. s.a_panel (i * k_len + k) * s.b_panel p (j * k_len + k))
      / 2 ^ shift_out)

abbrev pub IsProduct : (ℕ → ℕ → ℕ) → Panels → ℕ → ℕ → ℕ → Type 0
IsProduct dest s dim k_len n_tiles =
    (p i j : ℕ)
    → p < n_tiles
    → i < dim
    → j < dim
    → dest p (i * dim + j) ≡ lane_product s k_len p i j

sum_const : (n c : ℕ) (f : ℕ → ℕ) → ((k : ℕ) → k < n → f k ≡ c) → sum_below n f ≡ n * c
unfolding sum_below
sum_const zero c f h = omega arith
sum_const (suc n) c f h =
    let before = sum_const n c f (λ k lt. h k (omega arith)) in
    let last = h n (omega arith) in omega (arith, before, last, suc-mul n c)

-- A word of the result, and the word that the check wants.
module _ (p i j : ℕ) (hp : p < 8) (hi : i < 8) (hj : j < 8) where
  small : (i + 1) * (j + 1 + p) ≤ 120
  small =
      let rows : i + 1 ≤ 8 = omega arith in
      let columns : j + 1 + p ≤ 15 = omega arith in mul-le-mul rows columns

  wanted_lem : wanted p i j ≡ (i + 1) * (j + 1 + p)
  wanted_lem = mod-eq_of_lt (omega (arith, small))

  product_lem :
      (dim k_len : ℕ) (s : Panels)
      → i < dim
      → j < dim
      → sum_below k_len (λ k.
        (stage_operands dim k_len s).a_panel (i * k_len + k)
        * (stage_operands dim k_len s).b_panel p (j * k_len + k))
        ≡ k_len * ((i + 1) * (j + 1 + p))
  product_lem dim k_len s id jd = sum_const k_len ((i + 1) * (j + 1 + p)) _ (λ k lt.
      let a = (stage_operands_lem dim k_len i k p s id lt hp).0 in
      let b = (stage_operands_lem dim k_len j k p s jd lt hp).1 in
      ap (λ x. x * (stage_operands dim k_len s).b_panel p (j * k_len + k))
        (a ∙ mod-eq_of_lt (omega arith))
      ∙ ap (λ y. (i + 1) * y) (b ∙ mod-eq_of_lt (omega arith)))

-- Whether the lanes of the panels hold bytes of numbers that are not negative.
abbrev pub IsPositive : Panels → ℕ → ℕ → Type 0
IsPositive s dim k_len =
    (p lane k : ℕ)
    → p < 8
    → lane < dim
    → k < k_len
    → (s.a_panel (lane * k_len + k) < 128) × (s.b_panel p (lane * k_len + k) < 128)

pub staged-IsPositive :
    (dim k_len : ℕ) (s : Panels) → dim ≤ 8 → IsPositive (stage_operands dim k_len s) dim k_len
staged-IsPositive dim k_len s few p lane k hp hl hk =
    let (a, b) = stage_operands_lem dim k_len lane k p s hl hk hp in
    (
      subst (λ n. n < 128) (sym (a ∙ mod-eq_of_lt (omega arith))) (omega arith),
      subst (λ n. n < 128) (sym (b ∙ mod-eq_of_lt (omega arith))) (omega arith),
    )

-- At the full depth the shift divides exactly, and nothing is clipped.
exact : (c : ℕ) → c ≤ 120 → min 127 (64 * c / 64) ≡ c
exact c h = omega arith

-- On an accelerator that multiplies, of at most eight lanes, the check of the staged operands
-- reports no wrong word exactly if the reduction has its full depth of 64: a shallower one, which
-- `main` chooses if the accelerator's operand buffers hold less, fails the check though every
-- result is right. There are one to eight lanes, one to eight tiles, and a depth of at most 64.
pub self_check_lem :
    (dim n_tiles k_len : ℕ) (s : Panels) (dest : ℕ → ℕ → ℕ) (t : Tally)
    → 0 < dim
    → dim ≤ 8
    → 0 < n_tiles
    → n_tiles ≤ 8
    → k_len ≤ 64
    → IsProduct dest (stage_operands dim k_len s) dim k_len n_tiles
    → ((check_results dest dim n_tiles t).gemm_bad ≡ t.gemm_bad) ↔ (k_len ≡ 64)
self_check_lem dim n_tiles k_len s dest t dim_pos dim_small n_pos n_small shallow product =
    let checked = (check_results_lem dest dim n_tiles t).1 in
    (
      (λ passes.
          let want = checked.0 passes 0 0 0 n_pos dim_pos dim_pos in
          let got = product 0 0 0 n_pos dim_pos dim_pos in
          let total =
            product_lem 0 0 0 (omega arith) (omega arith) (omega arith) dim k_len s dim_pos
              dim_pos in
          let one : min 127 (k_len * 1 / 64) ≡ 1 =
            sym (ap (λ v. min 127 (v / 64)) total) ∙ sym got ∙ want in
          omega arith),
      (λ full. checked.1 (λ p i j hp hi hj.
          product p i j hp hi hj
          ∙ ap (λ v. min 127 (v / 2 ^ shift_out))
              (product_lem p i j (omega arith) (omega arith) (omega arith) dim k_len s hi hj)
          ∙ ap (λ n. min 127 (n * ((i + 1) * (j + 1 + p)) / 64)) full
          ∙ exact ((i + 1) * (j + 1 + p)) (small p i j (omega arith) (omega arith) (omega arith))
          ∙ sym (wanted_lem p i j (omega arith) (omega arith) (omega arith)))),
    )
