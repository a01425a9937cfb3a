-- ===== src/Gemm.antt =====
-- zephyr/drivers/misc/gemm_rv32_5stage.c and zephyr/include/rv32_5stage/gemm.h: the driver of the
-- matrix accelerator. `Gemm.World` is what it runs against.
pub mod World
pub mod Run
pub mod Submit
pub mod Batch
pub mod Descriptor
pub mod Init
pub mod Account
pub mod Lock
pub mod Race
pub mod Tests
use rv32imac_soc.Common.{
  ℕ, zero, suc, ◌+◌, ◌*◌, ◌/◌, ◌%◌, ◌^◌, bit_and, bit_or, bit, u32, sub32, ltb, ◌==◌, Bool, true,
  false, ◌&&◌, not, Option, none, some, List, [], ◌∷◌, length, Status, ok, einval, ebusy, etimedout,
  if◌then◌else◌,
}
use rv32imac_soc.Bus.{Exec, ◌>>=◌, ◌>>◌, pure, update}
use World.{
  Effect, write, flush, invd, mutex_init, lock, unlock, sem_init, sem_reset, irq_config, irq_enable,
  Env, Info, Stats, Data, emit, ask, set_stats,
}

-- The register map, as offsets.
abbrev pub reg_ctrl : ℕ
reg_ctrl = 0x00

abbrev pub reg_status : ℕ
reg_status = 0x04

abbrev pub reg_info : ℕ
reg_info = 0x24

abbrev pub reg_dest_stride : ℕ
reg_dest_stride = 0x2C

abbrev pub reg_desc_a_src : ℕ
reg_desc_a_src = 0x44

abbrev pub reg_desc_b_src : ℕ
reg_desc_b_src = 0x48

abbrev pub reg_desc_dest : ℕ
reg_desc_dest = 0x4C

abbrev pub reg_desc_push : ℕ
reg_desc_push = 0x50

abbrev pub reg_queue_free : ℕ
reg_queue_free = 0x54

abbrev pub reg_out_ctrl : ℕ
reg_out_ctrl = 0x58

abbrev pub ctrl_soft_rst : ℕ
ctrl_soft_rst = bit 1

abbrev pub ctrl_start_queue : ℕ
ctrl_start_queue = bit 5

abbrev pub st_queue_done : ℕ
st_queue_done = bit 7

abbrev pub out_int8_flag : ℕ
out_int8_flag = bit 8

abbrev pub desc_bonly : ℕ
desc_bonly = bit 16

-- struct gemm_tile; a pointer is its address, and NULL is 0.
pub record Tile : Type 0 where
  pub a_src : ℕ
  pub b_src : ℕ
  pub dest : ℕ
  pub k_len : ℕ
  pub panel_use : ℕ
  pub panel_load : ℕ
  pub b_only : Bool
  pub src_coherent : Bool

-- struct gemm_config, without the interrupt controller and the callback, which are effects.
pub record Config : Type 0 where
  pub base : ℕ
  pub batch_irq : ℕ
  pub dma_irq : ℕ

-- The words that the driver composes.
unfoldable pub desc_push : Tile → ℕ
desc_push t =
    bit_or
      (bit_or (bit_or (if t.b_only then desc_bonly else 0) (bit_and t.panel_load 0xF * 2 ^ 12))
        (bit_and t.panel_use 0xF * 2 ^ 8))
      (bit_and t.k_len 0xFF)

unfoldable pub out_ctrl : Bool → ℕ → ℕ
out_ctrl out_int8 out_shift = if out_int8 then bit_or out_int8_flag (bit_and out_shift 0x1F) else 0

abbrev pub tile_bytes : Info → Bool → ℕ
tile_bytes info out_int8 = if out_int8 then info.dim * info.dim else info.dim * info.dim * 4

abbrev pub operand_bytes : Info → Tile → ℕ
operand_bytes info t = info.dim * t.k_len

abbrev pub zero_stats : Stats
zero_stats = record {
  batches = 0;
  wait_cycles = 0;
  flush_cycles = 0;
  submit_cycles = 0;
  already_done = 0;
  isr_cycles = 0;
  resume_cycles = 0;
  isr_seen = 0;
}

abbrev pub W : Type 0
W = World.World

-- sys_cache_data_flush_range of an operand, if there is one.
abbrev pub flush_some : ℕ → ℕ → World.World → World.World
flush_some ptr bytes w = if ptr == 0 then w else emit (flush ptr bytes) w

-- sys_cache_data_invd_range of a destination, if there is one.
abbrev pub invd_some : ℕ → ℕ → W → W
invd_some ptr bytes w = if ptr == 0 then w else emit (invd ptr bytes) w

-- The flush of A for a tile in `gemm_run_batch`: none if the caller vouches for the operands, and
-- none if the tile reuses the panel that is loaded.
abbrev pub flush_a : Tile → ℕ → World.World → World.World
flush_a t bytes w =
    if t.src_coherent then w else if not t.b_only then flush_some t.a_src bytes w else w

module _ (env : Env) (cfg : Config) where
  abbrev pub rd : ℕ → W → ℕ × W
  rd off w = ask (λ n es. env.mmio n es (cfg.base + off)) w

  abbrev pub wr : ℕ → ℕ → W → W
  wr off v w = emit (write v (cfg.base + off)) w

  abbrev pub k_cycle_get_32 : W → ℕ × W
  k_cycle_get_32 w = ask env.cycle w

  -- `t_isr` is published before `isr_fired`, and both before the semaphore is given.
  unfoldable pub isr : W → W
  isr w =
      let (t, w1) = k_cycle_get_32 w in
      record w1 { gemm = record w1.gemm { t_isr = t; isr_fired = true }; gives = w1.gives + 1 }

  -- A point at which the completion interrupt may be taken.
  unfoldable pub interrupt_point : W → W
  unfolding isr
  interrupt_point w = let (taken, w1) = ask env.interrupted w in if taken then isr w1 else w1

  unfoldable pub get_info : W → Info
  get_info w = w.gemm.info

  unfoldable pub get_stats : W → Stats
  get_stats w = w.gemm.stats

  unfoldable pub reset_stats : W → W
  reset_stats w = set_stats zero_stats w

  unfoldable pub set_poll_mode : Bool → W → W
  set_poll_mode poll w =
      let w1 = emit lock w in emit unlock (record w1 { gemm = record w1.gemm { poll_mode = poll } })

  unfoldable pub flush_tiles : List Tile → W → W
  flush_tiles [] w = w
  flush_tiles (t ∷ ts) w =
      let bytes = operand_bytes w.gemm.info t in
      flush_tiles ts (flush_some t.b_src bytes (flush_some t.a_src bytes w))

  -- A pointer to tiles with their number is a list; NULL is `none`.
  unfoldable pub flush_operands : Option (List Tile) → W → Status × W
  flush_operands none w = (einval, w)
  flush_operands (some []) w = (einval, w)
  flush_operands (some (t ∷ ts)) w = (ok, flush_tiles (t ∷ ts) w)

  -- The flushes of one tile in `gemm_run_batch`.
  unfoldable pub flush_tile : Tile → W → W
  flush_tile t w =
      let bytes = operand_bytes w.gemm.info t in flush_some t.b_src bytes (flush_a t bytes w)

  -- The loop that pushes the descriptors, with the cycles spent in flushes so far.
  unfoldable pub submit : List Tile → ℕ → W → ℕ × W
  submit [] spent w = (spent, w)
  submit (t ∷ ts) spent w =
      let (t_flush, w1) = k_cycle_get_32 w in
      let w2 = flush_tile t w1 in
      let (now, w3) = k_cycle_get_32 w2 in
      let w4 = wr reg_desc_a_src (u32 t.a_src) w3 in
      let w5 = wr reg_desc_b_src (u32 t.b_src) w4 in
      let w6 = wr reg_desc_dest (u32 t.dest) w5 in
      let w7 = wr reg_desc_push (desc_push t) w6 in submit ts (u32 (spent + sub32 now t_flush)) w7

  -- The loop after the batch that displaces the lines of the destinations.
  unfoldable pub drop_dests : ℕ → List Tile → W → W
  drop_dests bytes [] w = w
  drop_dests bytes (t ∷ ts) w = drop_dests bytes ts (invd_some t.dest bytes w)

  -- The spin on STATUS with fuel.
  unfoldable pub spin : ℕ → W → Option W
  spin zero w = none
  spin (suc fuel) w =
      let (status, w1) = rd reg_status w in
      let again = spin fuel w1 in if bit_and status st_queue_done == 0 then again else some w1

  -- How the wait ended, with the world then; `none` means that it did not end: the fuel ran out in the
  -- spin, or the semaphore was never given to a thread that waits for ever.
  unfoldable pub wait : ℕ → ℕ → W → Option (Bool × W)
  wait fuel timeout w =
      if w.gemm.poll_mode
      then elim (spin fuel w) [ none ↦ none | some w1 ↦ some (true, w1) ]
      else let (taken, w1) = ask (λ n es. env.sem_take n es timeout) w in
        elim taken [ none ↦ none | some rc ↦ some (rc == 0, w1) ]
