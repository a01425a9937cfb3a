-- ===== src/CacheTest/Preserve.antt =====
-- The smoke test of the cache driver passes, on every cache that the driver was configured for.
use rv32imac_soc.Common.{
  ℕ, ◌+◌, ◌*◌, ◌/◌, ◌%◌, ◌<◌, ◌≡◌, refl, sym, ap, ◌∙◌, subst, ◌==◌, ==_iff, Bool-cases, true, false,
  inl, inr, bit_xor, u8, sub32, some, List, [], ◌∷◌, ◌++◌, if◌then◌else◌, arith,
}
use rv32imac_soc.Common.Loops.{upto-inv}
use rv32imac_soc.Cache.{Config, RoundDown, dc_sets, displace_set, cache_data_flush_all}
use rv32imac_soc.Cache.Hw.{Memory, load, store}
use rv32imac_soc.Cache.Walk.{displace_lines, run_of, lines_of, displace_all_lem}
use rv32imac_soc.Cache.Release.{Fits}
use rv32imac_soc.Cache.Coherence.{InReach, walked, flush_walks}
use rv32imac_soc.Cache.Flat.{view, IsCoherent, store-view, load-view}
use rv32imac_soc.CacheTest.{
  Line, banner, sizes, preserved, range_cost, all_cost, end_mark, Run, pattern_of, verdict_line,
  ratio_lines, fill, check_byte, check_all, measure, report_costs, print, check_flush, main,
}

-- Whatever is walked, the CPU sees the same memory.
record Keeps (num_sets : ℕ) (pos : 0 < num_sets) (m m' : Memory) : Type 0 where
  coherent : IsCoherent num_sets pos m'
  same : (y : ℕ) → view num_sets pos m' y ≡ view num_sets pos m y

module _ {num_sets : ℕ} (pos : 0 < num_sets) (cfg : Config) where
  displace_lines-Keeps :
      (las : List ℕ) (m : Memory)
      → IsCoherent num_sets pos m
      → Keeps num_sets pos m (displace_lines (load num_sets) cfg las m)
  unfolding displace_set
  displace_lines-Keeps [] m coherent = record { coherent = coherent; same = λ y. refl }
  displace_lines-Keeps (la ∷ las) m coherent =
      let step = load-view num_sets pos (cfg.displace_buf + la % dc_sets cfg * 16) m coherent in
      let rest = displace_lines-Keeps las _ step.1 in
      record { coherent = rest.coherent; same = λ y. rest.same y ∙ step.2 y }

  -- Memory shows the first n bytes of `buf` as given, and elsewhere what it showed before.
  record Filled (buf n : ℕ) (byte : ℕ → ℕ) (m0 m : Memory) : Type 0 where
    coherent : IsCoherent num_sets pos m
    inside : (i : ℕ) → i < n → view num_sets pos m (buf + i) ≡ u8 (byte i)
    outside :
        (y : ℕ)
        → ((i : ℕ) → i < n → (buf + i == y) ≡ false)
        → view num_sets pos m y ≡ view num_sets pos m0 y

  -- One store of the loop that fills.
  Filled-store :
      (buf j : ℕ) (byte : ℕ → ℕ) (m0 t : Memory)
      → Filled buf j byte m0 t
      → Filled buf (j + 1) byte m0 (store num_sets (buf + j) (byte j) t)
  Filled-store buf j byte m0 t before =
      let (coherent, seen) = store-view num_sets pos (buf + j) (byte j) t before.coherent in
      record {
        coherent = coherent;
        inside = λ i h. seen (buf + i) ∙ elim (Bool-cases (buf + j == buf + i)) [
          | inl here ↦
              let e : j ≡ i = (let same = (==_iff _ _).0 here in omega arith) in
              ap (λ b. if b then u8 (byte j) else view num_sets pos t (buf + i)) here
              ∙ ap (λ k. u8 (byte k)) e
          | inr other ↦
              let less : i < j = ground arith in
              ap (λ b. if b then u8 (byte j) else view num_sets pos t (buf + i)) other
              ∙ before.inside i less
        ];
        outside = λ y away.
            seen y
            ∙ ap (λ b. if b then u8 (byte j) else view num_sets pos t y) (away j (omega arith))
            ∙ before.outside y (λ i h. away i (omega arith));
      }

  module _ (round_down : ℕ → ℕ → ℕ) (fuel buf : ℕ) (cycle : ℕ → ℕ) where
    fill-Filled :
        (byte : ℕ → ℕ) (m : Memory)
        → IsCoherent num_sets pos m
        → Filled buf 4096 byte m (fill num_sets cfg round_down fuel buf cycle byte m)
    unfolding fill
    fill-Filled byte m coherent =
        upto-inv (λ i t. Filled buf i byte m t) _ 4096 0 m
          (λ j t lo hi before. Filled-store buf j byte m t before)
          (record {
            coherent = coherent;
            inside = λ i h. absurd (omega arith);
            outside = λ y away. refl;
          })

    -- The comparing loop on a memory that shows the pattern.
    record Passing (s0 s : Run) : Type 0 where
      keeps : Keeps num_sets pos s0.memory s.memory
      bad : s.bad ≡ s0.bad
      out : s.out ≡ s0.out

    check_byte-Passing :
        (i : ℕ) (s0 s : Run)
        → view num_sets pos s0.memory (buf + i) ≡ pattern_of i
        → Passing s0 s
        → Passing s0 (check_byte num_sets cfg round_down fuel buf cycle i s)
    unfolding check_byte
    check_byte-Passing i s0 s shown before =
        let step = load-view num_sets pos (buf + i) s.memory before.keeps.coherent in
        let right : ((load num_sets (buf + i) s.memory).0 == pattern_of i) ≡ true =
          (==_iff _ _).1 (step.0 ∙ before.keeps.same (buf + i) ∙ shown) in
        rw right (record {
          keeps = record { coherent = step.1; same = λ y. step.2 y ∙ before.keeps.same y };
          bad = before.bad;
          out = before.out;
        })

    check_all-Passing :
        (s : Run)
        → IsCoherent num_sets pos s.memory
        → ((i : ℕ) → i < 4096 → view num_sets pos s.memory (buf + i) ≡ pattern_of i)
        → Passing s (check_all num_sets cfg round_down fuel buf cycle s)
    unfolding check_all
    check_all-Passing s coherent shown =
        upto-inv (λ i t. Passing s t) _ 4096 0 s
          (λ j t lo hi before. check_byte-Passing j s t (shown j (omega arith)) before)
          (record {
            keeps = record { coherent = coherent; same = λ y. refl };
            bad = refl;
            out = refl;
          })

byte_of_pattern : (i : ℕ) → u8 (pattern_of i) ≡ pattern_of i
byte_of_pattern i = omega arith

-- The cycles that `main` reports for the range and for the whole cache.
abbrev pub range_cycles : (ℕ → ℕ) → ℕ
range_cycles cycle = sub32 (cycle 1) (cycle 0)

abbrev pub all_cycles : (ℕ → ℕ) → ℕ
all_cycles cycle = sub32 (cycle 3) (cycle 2)

passed : verdict_line 0 ≡ preserved 4096
unfolding verdict_line
passed = refl

-- The lines about the costs.
abbrev pub cost_lines : Config → (ℕ → ℕ) → List Line
cost_lines cfg cycle =
    range_cost 4096 256 (range_cycles cycle)
    ∷ all_cost cfg.dc_bytes (cfg.dc_bytes / 16) (all_cycles cycle)
    ∷ (ratio_lines (range_cycles cycle) (all_cycles cycle) ++ (end_mark ∷ []))

-- No byte of `buf` is at y.
abbrev pub Beside : ℕ → ℕ → Type 0
Beside buf y = (i : ℕ) → i < 4096 → (buf + i == y) ≡ false

module _ {cfg : Config} {num_sets : ℕ} (fits : Fits cfg num_sets) {round_down : ℕ → ℕ → ℕ}
    (laws : RoundDown round_down) (fuel buf : ℕ) (cycle : ℕ → ℕ)
    (reach : InReach fuel buf 4096) where
  flush_all-Keeps :
      (m : Memory)
      → IsCoherent num_sets fits.pos m
      → Keeps num_sets fits.pos m (cache_data_flush_all (load num_sets) cfg m).1
  unfolding cache_data_flush_all
  flush_all-Keeps m coherent =
      subst (Keeps num_sets fits.pos m) (sym (displace_all_lem (load num_sets) cfg m))
        (displace_lines-Keeps fits.pos cfg (run_of 0 (dc_sets cfg)) m coherent)

  measure_lem :
      (s : Run)
      → IsCoherent num_sets fits.pos s.memory
      → (s' : Run) × (measure num_sets cfg round_down fuel buf cycle s ≡ some s')
        × (s'.out ≡ s.out ++ cost_lines cfg cycle)
        × ((i : ℕ) → i < 4096 → view num_sets fits.pos s'.memory (buf + i) ≡ pattern_of i)
        × ((y : ℕ)
            → Beside buf y
            → view num_sets fits.pos s'.memory y ≡ view num_sets fits.pos s.memory y)
  unfolding measure
  measure_lem s coherent =
      let flipped : ℕ → ℕ = λ i. bit_xor (pattern_of i) 0xFF in
      let m1 = fill num_sets cfg round_down fuel buf cycle flipped s.memory in
      let f1 = fill-Filled fits.pos cfg round_down fuel buf cycle flipped s.memory coherent in
      let w1 = walked fits laws buf 4096 m1 in
      let k1 =
        displace_lines-Keeps fits.pos cfg (run_of (buf / 16) (lines_of buf 4096)) m1 f1.coherent in
      let m2 = fill num_sets cfg round_down fuel buf cycle pattern_of w1 in
      let f2 = fill-Filled fits.pos cfg round_down fuel buf cycle pattern_of w1 k1.coherent in
      let k2 = flush_all-Keeps m2 f2.coherent in
      (
        _,
        ap (report_costs num_sets cfg round_down fuel buf cycle s)
            (flush_walks fits laws fuel buf 4096 m1 reach),
        refl,
        (λ i h. k2.same (buf + i) ∙ f2.inside i h ∙ byte_of_pattern i),
        (λ y away. k2.same y ∙ f2.outside y away ∙ k1.same y ∙ f1.outside y away),
      )

  -- The driver was configured for this cache, `buf` ends at least a line below the top of the address
  -- space, the fuel is more than its lines, and each clean line of the cache is what DRAM holds. Then
  -- the smoke test ends and reports that all 4096 bytes are preserved. The CPU then sees the pattern
  -- in `buf`, and at every other address what it saw before the test, `displace_buf` included.
  pub main_lem :
      (m : Memory)
      → IsCoherent num_sets fits.pos m
      → (s : Run) × (main num_sets cfg round_down fuel buf cycle m ≡ some s)
        × (s.out ≡ banner ∷ sizes 16 cfg.dc_bytes ∷ preserved 4096 ∷ cost_lines cfg cycle)
        × ((i : ℕ) → i < 4096 → view num_sets fits.pos s.memory (buf + i) ≡ pattern_of i)
        × ((y : ℕ) → Beside buf y → view num_sets fits.pos s.memory y ≡ view num_sets fits.pos m y)
  unfolding main
  main_lem m coherent =
      let m1 = fill num_sets cfg round_down fuel buf cycle pattern_of m in
      let f1 = fill-Filled fits.pos cfg round_down fuel buf cycle pattern_of m coherent in
      let w1 = walked fits laws buf 4096 m1 in
      let k1 =
        displace_lines-Keeps fits.pos cfg (run_of (buf / 16) (lines_of buf 4096)) m1 f1.coherent in
      let start : Run = record {
        memory = m1;
        bad = 0;
        out = banner ∷ sizes 16 cfg.dc_bytes ∷ [];
      } in
      let s0 : Run = record start { memory = w1 } in
      let shown : (i : ℕ) → i < 4096 → view num_sets fits.pos w1 (buf + i) ≡ pattern_of i =
        (λ i h. k1.same (buf + i) ∙ f1.inside i h ∙ byte_of_pattern i) in
      let s1 = check_all num_sets cfg round_down fuel buf cycle s0 in
      let passing = check_all-Passing fits.pos cfg round_down fuel buf cycle s0 k1.coherent shown in
      let verdict : verdict_line s1.bad ≡ preserved 4096 = ap verdict_line passing.bad ∙ passed in
      let s2 = print (verdict_line s1.bad ∷ []) s1 in
      let (s3, ran, out, inside, outside) = measure_lem s2 passing.keeps.coherent in
      (
        s3,
        ap (check_flush num_sets cfg round_down fuel buf cycle start)
              (flush_walks fits laws fuel buf 4096 m1 reach)
            ∙ ran,
        out ∙ (λ i. (passing.out i ++ (verdict i ∷ [])) ++ cost_lines cfg cycle),
        inside,
        (λ y away. outside y away ∙ passing.keeps.same y ∙ k1.same y ∙ f1.outside y away),
      )
