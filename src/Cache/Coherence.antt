-- ===== src/Cache/Coherence.antt =====
-- Coherence with a device behind the cache: what it reads after a flush, and what the CPU reads after
-- the device has written memory.
use rv32imac_soc.Common.{
  ℕ, ◌+◌, ◌/◌, ◌%◌, ◌^◌, ◌≤◌, ◌<◌, ◌≡◌, refl, sym, ap, ◌∙◌, ==_refl, Bool-cases, true, false, ◌&&◌,
  inl, inr, some, ok, if◌then◌else◌, arith,
}
use rv32imac_soc.Cache.{Config, RoundDown, returned, cache_data_flush_range, cache_data_invd_range}
use rv32imac_soc.Cache.Hw.{Line, Memory, idx, resident, access, load, refill, dma_write, dma_read}
use rv32imac_soc.Cache.Walk.{displace_lines, run_of, lines_of, displace_range_lem}
use rv32imac_soc.Cache.Displace.{backed, write_back-at}
use rv32imac_soc.Cache.Release.{Fits, Outside, walked_line}

-- A clean line of the cache is what DRAM holds.
abbrev pub IsSynced : ℕ → ℕ → Memory → Type 0
IsSynced num_sets lb m =
    resident num_sets lb m ≡ true
    → (m.entries (idx num_sets lb)).dirty ≡ false
    → (m.entries (idx num_sets lb)).line ≡ m.dram lb

-- The call can be made: it fits the fuel and ends below the top of the address space.
abbrev pub InReach : ℕ → ℕ → ℕ → Type 0
InReach fuel addr size = (addr + size + 16 ≤ 2 ^ 32) × (lines_of addr size < fuel)

module _ {num_sets : ℕ} (pos : 0 < num_sets) where
  -- A byte of a line in the memory after its access.
  abbrev loaded : ℕ → Memory → ℕ
  loaded x m = (m.entries (idx num_sets (x / 16))).line (x % 16)

  load_lem : (x : ℕ) (m : Memory) → (load num_sets x m).0 ≡ loaded x (access num_sets (x / 16) m)
  unfolding load
  load_lem x m = refl

  pub access_miss :
      (la : ℕ) (m : Memory)
      → resident num_sets la m ≡ false
      → access num_sets la m ≡ refill num_sets la m
  unfolding access
  access_miss la m miss = rw miss

  pub access_hit : (la : ℕ) (m : Memory) → resident num_sets la m ≡ true → access num_sets la m ≡ m
  unfolding access
  access_hit la m hit = rw hit

  -- A line that is fetched is what DRAM holds: the victim was another line.
  refill-line :
      (la : ℕ) (m : Memory)
      → resident num_sets la m ≡ false
      → ((refill num_sets la m).entries (idx num_sets la)).line ≡ m.dram la
  unfolding refill
  refill-line la m miss =
      rw (==_refl (idx num_sets la)) (ground (arith, write_back-at num_sets pos la la m, miss))

  -- What a load of a line that the cache does not hold returns.
  load_miss :
      (x : ℕ) (m : Memory)
      → resident num_sets (x / 16) m ≡ false
      → (load num_sets x m).0 ≡ m.dram (x / 16) (x % 16)
  load_miss x m out =
      load_lem x m
      ∙ ap (loaded x) (access_miss (x / 16) m out)
      ∙ ap (λ (l : Line). l (x % 16)) (refill-line (x / 16) m out)

  load_hit :
      (x : ℕ) (m : Memory)
      → resident num_sets (x / 16) m ≡ true
      → (load num_sets x m).0 ≡ (m.entries (idx num_sets (x / 16))).line (x % 16)
  load_hit x m hit = load_lem x m ∙ ap (loaded x) (access_hit (x / 16) m hit)

  -- If clean lines are in step with DRAM, a load returns what backs the line.
  pub load-backed :
      (x : ℕ) (m : Memory)
      → IsSynced num_sets (x / 16) m
      → (load num_sets x m).0 ≡ backed num_sets pos (x / 16) m (x % 16)
  load-backed x m synced = elim (Bool-cases (resident num_sets (x / 16) m)) [
    | inr miss ↦ rw (load_miss x m miss, miss)
    | inl hit ↦ elim (Bool-cases (m.entries (idx num_sets (x / 16))).dirty) [
      | inl dirty ↦ rw (load_hit x m hit, hit, dirty)
      | inr clean ↦
          rw (load_hit x m hit, hit, clean) (ap (λ (l : Line). l (x % 16)) (synced hit clean))
    ]
  ]

module _ {cfg : Config} {num_sets : ℕ} (fits : Fits cfg num_sets) {round_down : ℕ → ℕ → ℕ}
    (laws : RoundDown round_down) where
  -- The memory after a walk over a range.
  abbrev pub walked : ℕ → ℕ → Memory → Memory
  walked addr size m =
      displace_lines (load num_sets) cfg (run_of (addr / 16) (lines_of addr size)) m

  pub flush_walks :
      (fuel addr size : ℕ) (m : Memory)
      → InReach fuel addr size
      → cache_data_flush_range (load num_sets) cfg round_down fuel addr size m
        ≡ some (ok, walked addr size m)
  unfolding cache_data_flush_range
  flush_walks fuel addr size m h =
      ap returned (displace_range_lem (load num_sets) cfg fits.built laws fuel addr size m h.0 h.1)

  invd_walks :
      (fuel addr size : ℕ) (m : Memory)
      → InReach fuel addr size
      → cache_data_invd_range (load num_sets) cfg round_down fuel addr size m
        ≡ some (ok, walked addr size m)
  unfolding cache_data_invd_range
  invd_walks fuel addr size m h =
      ap returned (displace_range_lem (load num_sets) cfg fits.built laws fuel addr size m h.0 h.1)

  -- A flush of a range succeeds, and afterwards a device that reads DRAM gets, for each byte of
  -- the range outside `displace_buf`, what the CPU would have loaded before the flush. The driver
  -- was configured for this cache, the fuel is more than the lines of the range, and the range
  -- ends at least a line below the top of the address space. A line that the cache holds clean is
  -- what DRAM holds.
  pub flush_range-coherent :
      (fuel addr size x : ℕ) (m : Memory)
      → InReach fuel addr size
      → addr ≤ x
      → x < addr + size
      → Outside cfg (x / 16)
      → IsSynced num_sets (x / 16) m
      → (m' : Memory) × (cache_data_flush_range (load num_sets) cfg round_down fuel addr size m
          ≡ some (ok, m'))
        × (dma_read (x / 16) m' (x % 16) ≡ (load num_sets x m).0)
        × (resident num_sets (x / 16) m' ≡ false)
  flush_range-coherent fuel addr size x m h lo hi out synced =
      let (gone, kept) =
        walked_line fits (lines_of addr size) (addr / 16) (x / 16) m out (omega arith)
          (omega arith) in
      (
        walked addr size m,
        flush_walks fuel addr size m h,
        ap (λ (l : Line). l (x % 16)) kept ∙ sym (load-backed fits.pos x m synced),
        gone,
      )

  -- A device writes a line of DRAM, the driver then invalidates a range around it, and the CPU
  -- loads a byte of the line. The load returns the byte that the device wrote, unless the cache
  -- held the line dirty when the device wrote it: then it returns the old byte, and the device's
  -- line is lost from DRAM too. The driver was configured for this cache, the fuel is more than
  -- the lines of the range, and the range ends at least a line below the top of the address space.
  -- The line is not one of `displace_buf`.
  pub invd_range_after_dma :
      (fuel addr size x : ℕ) (v : Line) (m : Memory)
      → InReach fuel addr size
      → addr ≤ x
      → x < addr + size
      → Outside cfg (x / 16)
      → let e = m.entries (idx num_sets (x / 16)) in
        let survivor = (if resident num_sets (x / 16) m && e.dirty then e.line else v) in
        (m' : Memory) × (cache_data_invd_range
            (load num_sets)
            cfg
            round_down
            fuel
            addr
            size
            (dma_write (x / 16) v m)
          ≡ some (ok, m'))
        × ((load num_sets x m').0 ≡ survivor (x % 16))
        × (dma_read (x / 16) m' ≡ survivor)
  invd_range_after_dma fuel addr size x v m h lo hi out =
      let m1 = dma_write (x / 16) v m in
      let (gone, kept) =
        walked_line fits (lines_of addr size) (addr / 16) (x / 16) m1 out (omega arith)
          (omega arith) in
      let held : m1.dram (x / 16) ≡ v = rw (==_refl (x / 16)) in
      let after : (walked addr size m1).dram (x / 16) ≡ (
          if resident num_sets (x / 16) m && (m.entries (idx num_sets (x / 16))).dirty
          then (m.entries (idx num_sets (x / 16))).line
          else v) =
        kept
        ∙ ap
            (λ (l : Line).
              if resident num_sets (x / 16) m && (m.entries (idx num_sets (x / 16))).dirty
              then (m.entries (idx num_sets (x / 16))).line
              else l)
            held in
      (
        walked addr size m1,
        invd_walks fuel addr size m1 h,
        load_miss fits.pos x (walked addr size m1) gone ∙ ap (λ (l : Line). l (x % 16)) after,
        after,
      )

  -- The sequence that the cache driver's comment calls safe: flush the destination, let the device
  -- write it, invalidate it. Whatever the cache held before, the CPU then loads what was written.
  -- The driver was configured for this cache, the fuel is more than the lines of the range, and
  -- the range ends at least a line below the top of the address space. The line is not one of
  -- `displace_buf`.
  pub flush_dma_invd :
      (fuel addr size x : ℕ) (v : Line) (m : Memory)
      → InReach fuel addr size
      → addr ≤ x
      → x < addr + size
      → Outside cfg (x / 16)
      → (m1 m2 : Memory) × (cache_data_flush_range (load num_sets) cfg round_down fuel addr size m
          ≡ some (ok, m1))
        × (cache_data_invd_range
              (load num_sets)
              cfg
              round_down
              fuel
              addr
              size
              (dma_write (x / 16) v m1)
            ≡ some (ok, m2))
        × ((load num_sets x m2).0 ≡ v (x % 16))
  flush_dma_invd fuel addr size x v m h lo hi out =
      let m1 = walked addr size m in
      let (gone, kept) =
        walked_line fits (lines_of addr size) (addr / 16) (x / 16) m out (omega arith)
          (omega arith) in
      let (m2, returns, loads, held) = invd_range_after_dma fuel addr size x v m1 h lo hi out in
      (m1, m2, flush_walks fuel addr size m h, returns, loads ∙ rw gone)
