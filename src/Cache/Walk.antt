-- ===== src/Cache/Walk.antt =====
-- Which sets the two walks of the driver touch, over any memory.
use rv32imac_soc.Common.{
  ℕ, zero, suc, ◌+◌, ◌*◌, ◌/◌, ◌%◌, ◌^◌, ◌≤◌, ◌<◌, ◌≡◌, refl, sym, ap, ◌∙◌, u32, ltb, true, some,
  List, [], ◌∷◌, length, arith,
}
use native.Mathlib.Nat.{mod-eq_of_lt}
use rv32imac_soc.Bus.{Exec}
use rv32imac_soc.Cache.{
  Config, dc_sets, IsBuilt, RoundDown, displace_set, displace_from, displace_range, displace_sets,
  displace_all,
}
use rv32imac_soc.Cache.Mask.{mask_lem}

-- n consecutive numbers from la on.
abbrev pub run_of : ℕ → ℕ → List ℕ
run_of la zero = []
run_of la (suc n) = la ∷ run_of (la + 1) n

-- The lines that the bytes addr .. addr + size - 1 lie in, counted from addr / 16.
abbrev pub lines_of : ℕ → ℕ → ℕ
lines_of addr size = (addr % 16 + size + 15) / 16

module _ {D : Type 0} (load : ℕ → Exec D ℕ) (cfg : Config) where
  -- A displacement for each line of a list, in its order.
  abbrev pub displace_lines : List ℕ → D → D
  displace_lines [] d = d
  displace_lines (la ∷ las) d = displace_lines las (displace_set load cfg (la % dc_sets cfg) d).1

  sets_pos : IsBuilt cfg → 0 < dc_sets cfg
  sets_pos built = omega (arith, built.whole, built.some_set)

  displace_from_lem :
      IsBuilt cfg
      → (n fuel la end sink : ℕ) (d : D) → n < fuel
      → end ≤ (la + n) * 16
      → (la + n) * 16 < end + 16
      → (la + n) * 16 < 2 ^ 32
      → displace_from load cfg fuel (la * 16) end sink d ≡ some (displace_lines (run_of la n) d)
  unfolding displace_from
  displace_from_lem built n zero la end sink d hf lo hi wrap = absurd (omega arith)
  displace_from_lem built zero (suc fuel) la end sink d hf lo hi wrap = ground arith
  displace_from_lem built (suc n) (suc fuel) la end sink d hf lo hi wrap =
      let more : ltb (la * 16) end ≡ true = ground arith in
      let number : la * 16 / 16 ≡ la = omega arith in
      let next : u32 (la * 16 + 16) ≡ (la + 1) * 16 = omega arith in
      rw (more, number, next, mask_lem (dc_sets cfg) la (sets_pos built) built.power)
        (displace_from_lem built n fuel (la + 1) end _ _ (omega arith) (omega arith) (omega arith)
          (omega arith))

  -- A range that ends at least a line below the top of the address space is walked to its end, and
  -- the walk displaces exactly one set for each line that the range occupies, in the order of the
  -- lines: its cost is the size of the range, not of the cache. The driver's assertions on its set
  -- count and its buffer hold, and the fuel is more than those lines.
  pub displace_range_lem :
      IsBuilt cfg
      → {round_down : ℕ → ℕ → ℕ} → RoundDown round_down
      → (fuel addr size : ℕ) (d : D) → addr + size + 16 ≤ 2 ^ 32
      → lines_of addr size < fuel
      → displace_range load cfg round_down fuel addr size d
        ≡ some (displace_lines (run_of (addr / 16) (lines_of addr size)) d)
  unfolding displace_range
  displace_range_lem built {round_down} laws fuel addr size d top hf =
      let start : round_down addr 16 ≡ addr / 16 * 16 =
        omega (arith, laws.below addr 16, laws.near addr 16 (omega arith), laws.multiple addr 16) in
      let stop : u32 (addr + size) ≡ addr + size = omega arith in
      rw (start, stop)
        (displace_from_lem built (lines_of addr size) fuel (addr / 16) (addr + size) 0 d hf
          (omega arith) (omega arith) (omega arith))

  displace_sets_lem :
      (left set sink : ℕ) (d : D)
      → set + left ≤ dc_sets cfg
      → displace_sets load cfg left set sink d ≡ displace_lines (run_of set left) d
  unfolding displace_sets
  displace_sets_lem zero set sink d h = refl
  displace_sets_lem (suc left) set sink d h =
      let own : set % dc_sets cfg ≡ set = mod-eq_of_lt (omega arith) in
      displace_sets_lem left (set + 1) _ _ (omega arith)
      ∙ ap (λ t. displace_lines (run_of (set + 1) left) (displace_set load cfg t d).1) (sym own)

  -- The full walk displaces every set once.
  pub displace_all_lem :
      (d : D) → displace_all load cfg d ≡ displace_lines (run_of 0 (dc_sets cfg)) d
  unfolding displace_all
  displace_all_lem d = displace_sets_lem (dc_sets cfg) 0 0 d (omega arith)

pub length-run_of : (la n : ℕ) → length (run_of la n) ≡ n
length-run_of la zero = refl
length-run_of la (suc n) = ap suc (length-run_of (la + 1) n)
