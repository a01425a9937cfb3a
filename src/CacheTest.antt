-- ===== src/CacheTest.antt =====
-- zephyr/samples/cache_test/src/main.c: the smoke test of the cache driver, on the cache of
-- src/dcache_bram.v.
pub mod Preserve
pub mod Ratio
mod Tests
use rv32imac_soc.Common.{
  ℕ, ◌+◌, ◌*◌, ◌/◌, ◌%◌, bit_and, bit_xor, u8, u32, sub32, ltb, ◌==◌, Option, none, some, Status,
  ok, einval, ebusy, etimedout, enotsup, List, [], ◌∷◌, ◌++◌, if◌then◌else◌,
}
use rv32imac_soc.Common.Loops.{upto}
use rv32imac_soc.Cache.{
  Config, cache_data_flush_range, cache_data_flush_all, cache_data_line_size_get,
}
use rv32imac_soc.Cache.Hw.{Memory, load, store}

abbrev pub buf_bytes : ℕ
buf_bytes = 4096

-- LINE
abbrev pub line_bytes : ℕ
line_bytes = 16

abbrev pub pattern_of : ℕ → ℕ
pattern_of i = u8 (bit_and (u32 (i * 31 + 7)) 0xFF)

-- The calls of printk with their numbers.
pub data Line : Type 0 where
  banner : Line
  sizes : ℕ → ℕ → Line
  flush_failed : Status → Line
  mismatch : ℕ → ℕ → ℕ → Line
  corrupted : ℕ → Line
  preserved : ℕ → Line
  range_cost : ℕ → ℕ → ℕ → Line
  all_cost : ℕ → ℕ → ℕ → Line
  cheaper : ℕ → ℕ → Line
  end_mark : Line

-- Memory, the count of wrong bytes, and what was printed.
pub record Run : Type 0 where
  pub memory : Memory
  pub bad : ℕ
  pub out : List Line

abbrev pub print : List Line → Run → Run
print lines s = record s { out = s.out ++ lines }

-- The verdict on the bytes.
unfoldable pub verdict_line : ℕ → Line
verdict_line bad = if bad == 0 then preserved buf_bytes else corrupted bad

-- The comparison of the two costs; the product wraps.
unfoldable pub ratio_lines : ℕ → ℕ → List Line
ratio_lines t_range t_all =
    if t_range == 0 then [] else cheaper (t_all / t_range) (u32 (t_all * 100) / t_range % 100) ∷ []

-- The board: the sets of its cache, the driver's configuration, ROUND_DOWN, the fuel of a walk, the
-- address of `buf`, and the readings of the cycle counter in their order.
module _ (num_sets : ℕ) (cfg : Config) (round_down : ℕ → ℕ → ℕ) (fuel : ℕ) (buf : ℕ)
    (cycle : ℕ → ℕ) where
  -- A loop that fills `buf`.
  unfoldable pub fill : (ℕ → ℕ) → Memory → Memory
  fill byte m = upto buf_bytes 0 (λ i m. store num_sets (buf + i) (byte i) m) m

  -- The body of the comparing loop; a mismatch is loaded again to be printed.
  unfoldable pub check_byte : ℕ → Run → Run
  check_byte i s =
      let (got, m1) = load num_sets (buf + i) s.memory in
      let (again, m2) = load num_sets (buf + i) m1 in
      let counted = record s { memory = m1; bad = s.bad + 1 } in
      let shown : Run = record {
        memory = m2;
        bad = s.bad + 1;
        out = s.out ++ (mismatch i again (pattern_of i) ∷ []);
      } in
      if got == pattern_of i
      then record s { memory = m1 }
      else if ltb s.bad 4
      then shown
      else counted

  unfoldable pub check_all : Run → Run
  check_all s = upto buf_bytes 0 check_byte s

  -- After the measured flush of the range: the flush of the whole cache and the two costs.
  abbrev pub report_costs : Run → Option (Status × Memory) → Option Run
  report_costs s flushed = elim flushed [
    | none ↦ none
    | some (rc_range, m1) ↦
        let t_range = sub32 (cycle 1) (cycle 0) in
        let (rc_all, m2) = cache_data_flush_all (load num_sets) cfg (fill pattern_of m1) in
        let t_all = sub32 (cycle 3) (cycle 2) in
        let costs =
          range_cost buf_bytes (buf_bytes / line_bytes) t_range
          ∷ all_cost cfg.dc_bytes (cfg.dc_bytes / line_bytes) t_all
          ∷ (ratio_lines t_range t_all ++ (end_mark ∷ [])) in
        some (record s { memory = m2; out = s.out ++ costs })
  ]

  -- The two measurements, from the second filling on.
  unfoldable pub measure : Run → Option Run
  measure s = report_costs s (
      cache_data_flush_range (load num_sets) cfg round_down fuel buf buf_bytes
        (fill (λ i. bit_xor (pattern_of i) 0xFF) s.memory))

  -- `main` after its first flush.
  abbrev pub check_flush : Run → Option (Status × Memory) → Option Run
  check_flush s none = none
  check_flush s (some (ok, m)) =
      let s1 = check_all (record s { memory = m }) in measure (print (verdict_line s1.bad ∷ []) s1)
  check_flush s (some (einval, m)) =
      some (print (flush_failed einval ∷ []) (record s { memory = m }))
  check_flush s (some (ebusy, m)) = some (print (flush_failed ebusy ∷ []) (record s { memory = m }))
  check_flush s (some (etimedout, m)) =
      some (print (flush_failed etimedout ∷ []) (record s { memory = m }))
  check_flush s (some (enotsup, m)) =
      some (print (flush_failed enotsup ∷ []) (record s { memory = m }))

  unfoldable pub main : Memory → Option Run
  main m =
      let m1 = fill pattern_of m in
      check_flush
        (record {
          memory = m1;
          bad = 0;
          out = banner ∷ sizes cache_data_line_size_get cfg.dc_bytes ∷ [];
        })
        (cache_data_flush_range (load num_sets) cfg round_down fuel buf buf_bytes m1)
