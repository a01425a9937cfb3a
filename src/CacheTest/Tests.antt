-- ===== src/CacheTest/Tests.antt =====
-- The smoke test of the cache driver on the small cache.
use rv32imac_soc.Common.{ℕ, ◌+◌, ◌*◌, ◌<◌, ◌≡◌, false, ◌==◌, some, [], ◌∷◌, arith}
use rv32imac_soc.Cache.Tests.{
  round_down, round_down-RoundDown, small, small-Fits, dirty_memory, dirty_memory-IsCoherent,
}
use rv32imac_soc.Cache.Flat.{view}
use rv32imac_soc.CacheTest.{banner, sizes, preserved, cheaper, Run, pattern_of, ratio_lines, main}
use rv32imac_soc.CacheTest.Preserve.{cost_lines, main_lem}
use rv32imac_soc.CacheTest.Ratio.{ratio_lines_lem}

abbrev clock : ℕ → ℕ
clock n = n * n * 100

main_example :
    (s : Run) × (main 4 small round_down 300 8192 clock dirty_memory ≡ some s)
    × (s.out ≡ banner ∷ sizes 16 64 ∷ preserved 4096 ∷ cost_lines small clock)
    × ((i : ℕ) → i < 4096 → view 4 (omega arith) s.memory (8192 + i) ≡ pattern_of i)
    × ((y : ℕ)
        → ((i : ℕ) → i < 4096 → (8192 + i == y) ≡ false)
        → view 4 (omega arith) s.memory y ≡ view 4 (omega arith) dirty_memory y)
main_example =
    main_lem small-Fits round_down-RoundDown 300 8192 clock (omega arith, omega arith) dirty_memory
      dirty_memory-IsCoherent

ratio_lines_example :
    (whole hundredths : ℕ) × (ratio_lines 100 523 ≡ cheaper whole hundredths ∷ [])
    × (hundredths < 100)
    × (whole * 100 + hundredths ≡ 523)
ratio_lines_example = ratio_lines_lem 100 523 (omega arith) (omega arith)
