-- ===== src/Cache.antt =====
-- zephyr/drivers/cache/cache_rv32_5stage.c: cache maintenance by displacement, over any memory that
-- can be loaded from. `Cache.Hw` is the write-back cache that makes it work, src/dcache_bram.v.
pub mod Hw
pub mod Fsm
pub mod Mask
pub mod Walk
pub mod Displace
pub mod Release
pub mod Coherence
pub mod Flat
pub mod Tests
use rv32imac_soc.Common.{
  ℕ, zero, suc, ◌+◌, ◌-◌, ◌*◌, ◌/◌, ◌%◌, ◌^◌, ◌≤◌, ◌<◌, ◌≡◌, bit_and, bit_xor, u8, u32, ltb, Option,
  none, some, Status, ok, enotsup, if◌then◌else◌,
}
use rv32imac_soc.Bus.{Exec}

-- CONFIG_DCACHE_LINE_SIZE of the SoC.
abbrev pub dc_line : ℕ
dc_line = 16

-- CONFIG_CACHE_RV32_5STAGE_DCACHE_BYTES, and the address of `displace_buf`.
pub record Config : Type 0 where
  pub dc_bytes : ℕ
  pub displace_buf : ℕ

abbrev pub dc_sets : Config → ℕ
dc_sets cfg = cfg.dc_bytes / dc_line

-- The two BUILD_ASSERTs, and the alignment and the extent of `displace_buf`.
pub record IsBuilt (cfg : Config) : Type 0 where
  pub whole : cfg.dc_bytes % dc_line ≡ 0
  pub some_set : 0 < cfg.dc_bytes
  pub power : bit_and (dc_sets cfg) (dc_sets cfg - 1) ≡ 0
  pub aligned : cfg.displace_buf % cfg.dc_bytes ≡ 0

-- What Zephyr documents of ROUND_DOWN(a, n): the largest multiple of n that is not above a.
pub record RoundDown (round_down : ℕ → ℕ → ℕ) : Type 0 where
  pub below : (a n : ℕ) → round_down a n ≤ a
  pub near : (a n : ℕ) → 0 < n → a < round_down a n + n
  pub multiple : (a n : ℕ) → round_down a n % n ≡ 0

-- `return 0` after a walk.
abbrev pub returned : {D : Type 0} → Option D → Option (Status × D)
returned none = none
returned (some d) = some (ok, d)

module _ {D : Type 0} (load : ℕ → Exec D ℕ) (cfg : Config) where
  -- One displacement: a load from the line of `displace_buf` that lies in `set`.
  unfoldable pub displace_set : ℕ → Exec D ℕ
  displace_set set d = load (cfg.displace_buf + set * dc_line) d

  -- The loop from address `a` to `end`; `none` means that the fuel ran out. The sums of addresses
  -- wrap at 32 bits.
  unfoldable pub displace_from : ℕ → ℕ → ℕ → ℕ → D → Option D
  displace_from zero a end sink d = none
  displace_from (suc fuel) a end sink d =
      let set = bit_and (a / dc_line) (dc_sets cfg - 1) in
      let rest =
        (let (v, d') = displace_set set d in
          displace_from fuel (u32 (a + dc_line)) end (bit_xor sink (u8 v)) d') in
      if ltb a end then rest else some d

  unfoldable pub displace_range : (ℕ → ℕ → ℕ) → ℕ → ℕ → ℕ → D → Option D
  displace_range round_down fuel addr size d =
      displace_from fuel (round_down addr dc_line) (u32 (addr + size)) 0 d

  -- The loop over all sets, with the number of sets that are left and the next one.
  unfoldable pub displace_sets : ℕ → ℕ → ℕ → D → D
  displace_sets zero set sink d = d
  displace_sets (suc left) set sink d =
      let (v, d') = displace_set set d in displace_sets left (set + 1) (bit_xor sink (u8 v)) d'

  unfoldable pub displace_all : D → D
  displace_all d = displace_sets (dc_sets cfg) 0 0 d

  -- The interface that Zephyr calls: the status beside the memory afterwards.
  unfoldable pub cache_data_flush_all : Exec D Status
  cache_data_flush_all d = (ok, displace_all d)

  unfoldable pub cache_data_invd_all : Exec D Status
  cache_data_invd_all d = (ok, displace_all d)

  unfoldable pub cache_data_flush_and_invd_all : Exec D Status
  cache_data_flush_and_invd_all d = (ok, displace_all d)

  unfoldable pub cache_data_flush_range : (ℕ → ℕ → ℕ) → ℕ → ℕ → ℕ → D → Option (Status × D)
  cache_data_flush_range round_down fuel addr size d =
      returned (displace_range round_down fuel addr size d)

  unfoldable pub cache_data_invd_range : (ℕ → ℕ → ℕ) → ℕ → ℕ → ℕ → D → Option (Status × D)
  cache_data_invd_range round_down fuel addr size d =
      returned (displace_range round_down fuel addr size d)

  unfoldable pub cache_data_flush_and_invd_range : (ℕ → ℕ → ℕ) → ℕ → ℕ → ℕ → D → Option (Status × D)
  cache_data_flush_and_invd_range round_down fuel addr size d =
      returned (displace_range round_down fuel addr size d)

  unfoldable pub cache_data_enable : D → D
  cache_data_enable d = d

  unfoldable pub cache_data_disable : D → D
  cache_data_disable d = d

abbrev pub cache_data_line_size_get : ℕ
cache_data_line_size_get = dc_line

-- The instruction cache cannot be maintained: every request is refused, and none touches memory.
module _ {D : Type 0} where
  unfoldable pub cache_instr_flush_all : Exec D Status
  cache_instr_flush_all d = (enotsup, d)

  unfoldable pub cache_instr_invd_all : Exec D Status
  cache_instr_invd_all d = (enotsup, d)

  unfoldable pub cache_instr_flush_and_invd_all : Exec D Status
  cache_instr_flush_and_invd_all d = (enotsup, d)

  unfoldable pub cache_instr_flush_range : ℕ → ℕ → Exec D Status
  cache_instr_flush_range addr size d = (enotsup, d)

  unfoldable pub cache_instr_invd_range : ℕ → ℕ → Exec D Status
  cache_instr_invd_range addr size d = (enotsup, d)

  unfoldable pub cache_instr_flush_and_invd_range : ℕ → ℕ → Exec D Status
  cache_instr_flush_and_invd_range addr size d = (enotsup, d)

  unfoldable pub cache_instr_enable : D → D
  cache_instr_enable d = d

  unfoldable pub cache_instr_disable : D → D
  cache_instr_disable d = d

abbrev pub cache_instr_line_size_get : ℕ
cache_instr_line_size_get = dc_line
