-- ===== src/Baremetal/Flush.antt =====
-- The test's own cache maintenance is the driver's, for a cache of 16 KB.
use rv32imac_soc.Common.{
  ℕ, zero, suc, ◌+◌, ◌*◌, ◌/◌, ◌^◌, ◌<◌, ◌≡◌, refl, sym, ap, ◌∙◌, ltb, Bool-cases, inl, inr,
  bit_and, bit_and-digit, not32, u8, u32, bit_xor, arith,
}
use rv32imac_soc.Bus.{Exec}
use rv32imac_soc.Cache.{
  Config, RoundDown, displace_set, displace_from, displace_range, displace_sets, displace_all,
}
use rv32imac_soc.Cache.Mask.{mask_lem}
use rv32imac_soc.Baremetal.{evict_from, dcache_evict, flush_from, dcache_flush_range}

-- The driver configured like the test.
abbrev pub as_driver : ℕ → Config
as_driver evict_buf = record { dc_bytes = 16384; displace_buf = evict_buf }

-- Clearing the four low bits of an address.
line_start : (p : ℕ) → p < 2 ^ 32 → bit_and p (not32 15) ≡ p / 16 * 16
line_start p h =
    let a = bit_and-digit p 0xFFFFFFF0 in
    let b = bit_and-digit (p / 2) 0x7FFFFFF8 in
    let c = bit_and-digit (p / 2 / 2) 0x3FFFFFFC in
    let d = bit_and-digit (p / 2 / 2 / 2) 0x1FFFFFFE in
    let e = mask_lem (2 ^ 28) (p / 2 / 2 / 2 / 2) (omega arith) refl in omega arith

RoundDown-start :
    {round_down : ℕ → ℕ → ℕ} → RoundDown round_down → (p : ℕ) → round_down p 16 ≡ p / 16 * 16
RoundDown-start {round_down} laws p =
    let a = laws.below p 16 in
    let b = laws.near p 16 (omega arith) in let c = laws.multiple p 16 in omega arith

module _ {D : Type 0} (load : ℕ → Exec D ℕ) (evict_buf : ℕ) where
  flush_from-displace_from :
      (fuel a end sink : ℕ) (d : D)
      → flush_from load evict_buf fuel a end sink d
        ≡ displace_from load (as_driver evict_buf) fuel a end sink d
  unfolding flush_from displace_from displace_set
  flush_from-displace_from zero a end sink d = refl
  flush_from-displace_from (suc fuel) a end sink d = elim (Bool-cases (ltb a end)) [
    | inl going ↦ rw going (flush_from-displace_from fuel _ end _ _)
    | inr over ↦ rw over refl
  ]

  -- On any memory, the test's flush of a range at a 32-bit address is the driver's walk over the
  -- range, round for round, although the one masks the start and the other rounds it down.
  -- ROUND_DOWN is as Zephyr documents it.
  pub dcache_flush_range_lem :
      {round_down : ℕ → ℕ → ℕ}
      → RoundDown round_down
      → (fuel p len : ℕ) (d : D) → p < 2 ^ 32
      → dcache_flush_range load evict_buf fuel p len d
        ≡ displace_range load (as_driver evict_buf) round_down fuel p len d
  unfolding dcache_flush_range displace_range
  dcache_flush_range_lem laws fuel p len d h =
      ap (λ a. flush_from load evict_buf fuel a (u32 (p + len)) 0 d)
        (line_start p h ∙ sym (RoundDown-start laws p))
      ∙ flush_from-displace_from fuel _ _ 0 d

  evict_from-displace_sets :
      (left set sink : ℕ) (d : D)
      → evict_from load evict_buf left (set * 16) sink d
        ≡ displace_sets load (as_driver evict_buf) left set sink d
  unfolding evict_from displace_sets displace_set
  evict_from-displace_sets zero set sink d = refl
  evict_from-displace_sets (suc left) set sink d =
      ap
        (λ at.
          evict_from load evict_buf left at (bit_xor sink (u8 (load (evict_buf + set * 16) d).0))
            (load (evict_buf + set * 16) d).1)
        (omega arith)
      ∙ evict_from-displace_sets left (set + 1) _ _

  -- The test's eviction of the whole cache is the driver's.
  pub dcache_evict_lem :
      (d : D) → dcache_evict load evict_buf d ≡ displace_all load (as_driver evict_buf) d
  unfolding dcache_evict displace_all
  dcache_evict_lem d = evict_from-displace_sets 1024 0 0 d
