-- ===== src/Port/Clock.antt =====
-- The time of a CoreMark run, and the alignment of its memory.
use rv32imac_soc.Common.{
  ℕ, ◌+◌, ◌-◌, ◌*◌, ◌/◌, ◌%◌, ◌^◌, ◌≤◌, ◌<◌, ◌≡◌, refl, ap, ◌∙◌, bit_and, not32, u32, sub32,
  bit_and-digit, arith,
}
use rv32imac_soc.Cache.Mask.{mask_lem}
use rv32imac_soc.Bus.{Bus}
use rv32imac_soc.Port.{
  Times, align_mem, clint_mtime_lo, barebones_clock, start_time, stop_time, get_time,
}

-- The timer of the board: `now` is its 64-bit mtime, whose low word is read at CLINT_MTIME_LO.
pub record IsClint {D : Type 0} (bus : Bus D) (now : D → ℕ) : Type 0 where
  pub low_word : (d : D) → (bus.read32 clint_mtime_lo d).0 ≡ u32 (now d)

module _ {D : Type 0} (bus : Bus D) (now : D → ℕ) (clint : IsClint bus now) where
  -- Between a start and a stop, whatever the board does in between, get_time returns the cycles of
  -- mtime modulo 2^32, if mtime did not go back.
  pub get_time_lem :
      (s : Times) (d1 d2 : D)
      → now d1 ≤ now d2
      → get_time (stop_time bus (start_time bus s d1).0 d2).0 ≡ u32 (now d2 - now d1)
  unfolding get_time start_time stop_time barebones_clock
  get_time_lem s d1 d2 later =
      ap (λ a. sub32 (u32 (bus.read32 clint_mtime_lo d2).0) (u32 a)) (clint.low_word d1)
      ∙ ap (λ a. sub32 (u32 a) (u32 (u32 (now d1)))) (clint.low_word d2)
      ∙ omega arith

-- Clearing the two low bits of a word.
clear_two : (x : ℕ) → x < 2 ^ 32 → bit_and x (not32 3) ≡ x / 4 * 4
clear_two x small =
    let deep : bit_and (x / 2 / 2) (2 ^ 30 - 1) ≡ x / 2 / 2 % 2 ^ 30 =
      mask_lem (2 ^ 30) (x / 2 / 2) (omega arith) refl in
    omega (arith, deep, bit_and-digit x 4294967292, bit_and-digit (x / 2) 2147483646)

-- An address is aligned to the next multiple of four, and by less than four, if it is not 0 and lies
-- below the last word of memory.
pub align_mem_lem :
    (x : ℕ)
    → 0 < x
    → x + 4 ≤ 2 ^ 32
    → (align_mem x % 4 ≡ 0) × (x ≤ align_mem x) × (align_mem x < x + 4)
unfolding align_mem
align_mem_lem x pos small =
    let word : sub32 x 1 ≡ x - 1 = omega arith in
    let cleared : align_mem x ≡ u32 (4 + (x - 1) / 4 * 4) =
      ap (λ y. u32 (4 + y)) (clear_two (sub32 x 1) (omega arith))
      ∙ ap (λ y. u32 (4 + y / 4 * 4)) word in
    (omega (arith, cleared), omega (arith, cleared), omega (arith, cleared))
