-- ===== src/CacheTest/Ratio.antt =====
-- The ratio that the smoke test prints.
use rv32imac_soc.Common.{
  ℕ, ◌+◌, ◌*◌, ◌/◌, ◌%◌, ◌^◌, ◌<◌, ◌≡◌, ap, ◌∙◌, u32, ◌==◌, false, [], ◌∷◌, if◌then◌else◌, arith,
}
use native.Mathlib.Nat.{div-div-eq-div-mul, mul-div-mul_right}
use rv32imac_soc.CacheTest.{cheaper, ratio_lines}

-- If the flush of the range took some cycle, and a hundred times the cycles of the whole cache fit in
-- 32 bits, the two numbers that are printed are the whole and the hundredths of the quotient of the
-- cycles.
pub ratio_lines_lem :
    (t_range t_all : ℕ)
    → 0 < t_range
    → t_all * 100 < 2 ^ 32
    → (whole hundredths : ℕ) × (ratio_lines t_range t_all ≡ cheaper whole hundredths ∷ [])
      × (hundredths < 100)
      × (whole * 100 + hundredths ≡ t_all * 100 / t_range)
unfolding ratio_lines
ratio_lines_lem t_range t_all some_cycles fits =
    let some : (t_range == 0) ≡ false = ground arith in
    let hundred : t_all * 100 / t_range / 100 ≡ t_all / t_range =
      div-div-eq-div-mul (t_all * 100) t_range 100
      ∙ mul-div-mul_right {m = 100} t_all t_range (omega arith) in
    (
      t_all / t_range,
      t_all * 100 / t_range % 100,
      ap (λ b. if b then [] else cheaper (t_all / t_range) (u32 (t_all * 100) / t_range % 100) ∷ [])
            some
          ∙ ap (λ n. cheaper (t_all / t_range) (n / t_range % 100) ∷ []) (omega arith),
      omega arith,
      omega (arith, hundred),
    )
