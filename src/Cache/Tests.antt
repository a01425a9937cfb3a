-- ===== src/Cache/Tests.antt =====
-- The theorems about the cache driver at a small cache.
use rv32imac_soc.Common.{
  inl, ℕ, ◌*◌, ◌/◌, ◌≡◌, refl, true, false, some, ok, ◌==◌, if◌then◌else◌, arith,
}
use native.Mathlib.Nat.{div-add-mod, mod-lt, mul_comm, mul-mod_left}
use rv32imac_soc.Cache.{
  Config, IsBuilt, RoundDown, displace_range, cache_data_flush_range, cache_data_invd_range,
}
use rv32imac_soc.Cache.Flat.{view, IsCoherent, store-view, load-view}
use rv32imac_soc.Cache.Hw.{Memory, load, store, resident, dma_write, dma_read}
use rv32imac_soc.Cache.Walk.{displace_lines, run_of, displace_range_lem}
use rv32imac_soc.Cache.Release.{Fits}
use rv32imac_soc.Cache.Coherence.{
  InReach, flush_range-coherent, invd_range_after_dma, flush_dma_invd,
}

-- The macro of Zephyr for a power of two, in arithmetic.
abbrev pub round_down : ℕ → ℕ → ℕ
round_down a n = a / n * n

pub round_down-RoundDown : RoundDown round_down
round_down-RoundDown = record {
  below = λ a n. omega (arith, div-add-mod a n, mul_comm n (a / n));
  near = λ a n h. omega (arith, div-add-mod a n, mul_comm n (a / n), mod-lt a h);
  multiple = λ a n. mul-mod_left (a / n) n;
}

-- A driver for 64 bytes of cache in four sets.
abbrev pub small : Config
small = record { dc_bytes = 64; displace_buf = 1024 }

small-IsBuilt : IsBuilt small
small-IsBuilt = record { whole = refl; some_set = omega arith; power = refl; aligned = refl }

pub small-Fits : Fits small 4
small-Fits = record { built = small-IsBuilt; pos = omega arith; sets_multiple = refl }

-- Every set holds a line of tag 0, dirty, with a 7 in each byte; DRAM holds zeros.
abbrev pub dirty_memory : Memory
dirty_memory = record {
  entries = λ s. record { valid = true; tag = 0; dirty = true; line = λ o. 7 };
  dram = λ la o. 0;
}

small_reach : InReach 4 32 20
small_reach = (omega arith, omega arith)

flush_range-coherent_example :
    (m' : Memory) × (cache_data_flush_range (load 4) small round_down 4 32 20 dirty_memory
      ≡ some (ok, m'))
    × (dma_read 2 m' 5 ≡ (load 4 37 dirty_memory).0)
    × (resident 4 2 m' ≡ false)
flush_range-coherent_example =
    flush_range-coherent small-Fits round_down-RoundDown 4 32 20 37 dirty_memory small_reach
      (omega arith) (omega arith) (inl (omega arith)) (λ held clean. ground arith)

invd_range_after_dma_example :
    (m' : Memory) × (cache_data_invd_range
        (load 4)
        small
        round_down
        4
        32
        20
        (dma_write 2 (λ o. 9) dirty_memory)
      ≡ some (ok, m'))
    × ((load 4 37 m').0 ≡ 7)
    × (dma_read 2 m' ≡ λ o. 7)
invd_range_after_dma_example =
    invd_range_after_dma small-Fits round_down-RoundDown 4 32 20 37 (λ o. 9) dirty_memory
      small_reach (omega arith) (omega arith) (inl (omega arith))

flush_dma_invd_example :
    (m1 m2 : Memory) × (cache_data_flush_range (load 4) small round_down 4 32 20 dirty_memory
      ≡ some (ok, m1))
    × (cache_data_invd_range (load 4) small round_down 4 32 20 (dma_write 2 (λ o. 9) m1)
        ≡ some (ok, m2))
    × ((load 4 37 m2).0 ≡ 9)
flush_dma_invd_example =
    flush_dma_invd small-Fits round_down-RoundDown 4 32 20 37 (λ o. 9) dirty_memory small_reach
      (omega arith) (omega arith) (inl (omega arith))

displace_range_example :
    displace_range (load 4) small round_down 4 32 20 dirty_memory
    ≡ some (displace_lines (load 4) small (run_of 2 2) dirty_memory)
displace_range_example =
    displace_range_lem (load 4) small small-IsBuilt round_down-RoundDown 4 32 20 dirty_memory
      (omega arith) (omega arith)

-- The byte at 37 is dirty in the cache, and stays in step with itself.
pub dirty_memory-IsCoherent : IsCoherent 4 (omega arith) dirty_memory
dirty_memory-IsCoherent lb held clean = ground arith

store-view_example :
    IsCoherent 4 (omega arith) (store 4 37 300 dirty_memory)
    × ((y : ℕ)
        → view 4 (omega arith) (store 4 37 300 dirty_memory) y
          ≡ (if 37 == y then 44 else view 4 (omega arith) dirty_memory y))
store-view_example = store-view 4 (omega arith) 37 300 dirty_memory dirty_memory-IsCoherent

load-view_example :
    let (v, m') = load 4 37 dirty_memory in
    (v ≡ 7)
    × IsCoherent 4 (omega arith) m'
    × ((y : ℕ) → view 4 (omega arith) m' y ≡ view 4 (omega arith) dirty_memory y)
load-view_example = load-view 4 (omega arith) 37 dirty_memory dirty_memory-IsCoherent
