-- ===== src/Gemm/Run.antt =====
-- `gemm_run_batch` and `gemm_init`: the phases of a batch, in the order of the source.
use rv32imac_soc.Common.{
  ℕ, ◌+◌, ◌/◌, ◌^◌, bit_and, u32, sub32, ltb, ◌==◌, Bool, false, ◌&&◌, not, Option, none, some,
  List, [], ◌∷◌, length, Status, ok, einval, ebusy, etimedout, if◌then◌else◌,
}
use rv32imac_soc.Gemm.World.{
  lock, unlock, sem_init, mutex_init, sem_reset, irq_config, irq_enable, Env, World, emit, ask,
  set_stats,
}
use rv32imac_soc.Gemm.{
  Tile, Config, rd, wr, k_cycle_get_32, interrupt_point, submit, drop_dests, wait, out_ctrl,
  tile_bytes, reg_ctrl, reg_info, reg_queue_free, reg_dest_stride, reg_out_ctrl, ctrl_soft_rst,
  ctrl_start_queue,
}

module _ (env : Env) (cfg : Config) where
  -- The lock, the start of the account and the two control registers.
  unfoldable pub enter : ℕ → Bool → ℕ → World → ℕ × World
  enter dest_stride out_int8 out_shift w =
      let (t_mark, w2) = k_cycle_get_32 env cfg (emit lock w) in
      let w3 = wr env cfg reg_dest_stride dest_stride w2 in
      (t_mark, wr env cfg reg_out_ctrl (out_ctrl out_int8 out_shift) w3)

  -- The accounts of the submission, after the last descriptor.
  unfoldable pub settle : ℕ → ℕ → World → World
  settle t_mark spent w =
      let (now, w1) = k_cycle_get_32 env cfg w in
      let s = w1.gemm.stats in
      set_stats
        (record s {
          submit_cycles = u32 (s.submit_cycles + sub32 (sub32 now t_mark) spent);
          flush_cycles = u32 (s.flush_cycles + spent);
        })
        w1

  -- From the lock to the end of the submission.
  unfoldable pub prepare : List Tile → ℕ → Bool → ℕ → World → World
  unfolding enter settle
  prepare tiles dest_stride out_int8 out_shift w =
      let (t_mark, w1) = enter dest_stride out_int8 out_shift w in
      let (spent, w2) = submit env cfg tiles 0 w1 in settle t_mark spent w2

  -- A completion that is there before the wait begins is counted.
  unfoldable pub note_early : ℕ → World → World
  note_early count w =
      let s = w.gemm.stats in
      if ltb 0 count then set_stats (record s { already_done = u32 (s.already_done + 1) }) w else w

  -- The kick: with the cycle of the kick and of the start of the wait.
  unfoldable pub kick : World → (ℕ × ℕ) × World
  kick w =
      let w1 = emit sem_reset w in
      let w2 = record w1 { gemm = record w1.gemm { isr_fired = false } } in
      let w3 = interrupt_point env cfg (wr env cfg reg_ctrl ctrl_start_queue w2) in
      let (t_kick, w4) = k_cycle_get_32 env cfg w3 in
      let (count, w5) = ask env.sem_count w4 in
      let w6 = note_early count w5 in
      let (t_mark, w7) = k_cycle_get_32 env cfg w6 in ((t_kick, t_mark), w7)

  -- The end of a batch that was never signalled.
  unfoldable pub give_up : ℕ → World → World
  give_up t_mark w =
      let (now, w1) = k_cycle_get_32 env cfg w in
      let s = w1.gemm.stats in
      let w2 = set_stats (record s { wait_cycles = u32 (s.wait_cycles + sub32 now t_mark) }) w1 in
      emit unlock (wr env cfg reg_ctrl ctrl_soft_rst w2)

  -- The accounts of a batch that is done.
  unfoldable pub account : ℕ → ℕ → World → World
  account t_kick t_mark w =
      let (t_resume, w1) = k_cycle_get_32 env cfg w in
      let s = w1.gemm.stats in
      let s1 = (record s {
        wait_cycles = u32 (s.wait_cycles + sub32 t_resume t_mark);
        batches = u32 (s.batches + 1);
      }) in
      let t_isr = w1.gemm.t_isr in
      let split = (record s1 {
        isr_cycles = u32 (s1.isr_cycles + sub32 t_isr t_kick);
        resume_cycles = u32 (s1.resume_cycles + sub32 t_resume t_isr);
        isr_seen = u32 (s1.isr_seen + 1);
      }) in
      set_stats (if w1.gemm.isr_fired then split else s1) w1

  unfoldable pub collect : List Tile → Bool → World → World
  collect tiles out_int8 w =
      let (t_mark, w1) = k_cycle_get_32 env cfg w in
      let w2 = drop_dests env cfg (tile_bytes w1.gemm.info out_int8) tiles w1 in
      let (now, w3) = k_cycle_get_32 env cfg w2 in
      let s = w3.gemm.stats in
      emit unlock
        (set_stats (record s { flush_cycles = u32 (s.flush_cycles + sub32 now t_mark) }) w3)

  -- After the wait: the interrupt may be taken at any time of it.
  abbrev pub resumed : List Tile → Bool → ℕ × ℕ → Option (Bool × World) → Option (Status × World)
  resumed tiles out_int8 marks waited = elim waited [
    | none ↦ none
    | some (signalled, w) ↦
        let w1 = interrupt_point env cfg w in
        if signalled
        then some (ok, collect tiles out_int8 (account marks.0 marks.1 w1))
        else some (etimedout, give_up marks.1 w1)
  ]

  -- After the kick.
  unfoldable pub await : ℕ → ℕ → List Tile → Bool → (ℕ × ℕ) × World → Option (Status × World)
  await fuel timeout tiles out_int8 (marks, w) =
      resumed tiles out_int8 marks (wait env cfg fuel timeout w)

  unfoldable pub run_batch :
      ℕ → Option (List Tile) → ℕ → Bool → ℕ → ℕ → World → Option (Status × World)
  run_batch fuel none dest_stride out_int8 out_shift timeout w = some (einval, w)
  run_batch fuel (some []) dest_stride out_int8 out_shift timeout w = some (einval, w)
  run_batch fuel (some (t ∷ ts)) dest_stride out_int8 out_shift timeout w =
      let (free, w1) = rd env cfg reg_queue_free w in
      if ltb free (length (t ∷ ts))
      then some (ebusy, w1)
      else if out_int8 && not (dest_stride == 0)
      then some (einval, w1)
      else await fuel timeout (t ∷ ts) out_int8
          (kick (prepare (t ∷ ts) dest_stride out_int8 out_shift w1))

  unfoldable pub initialize : World → Status × World
  initialize w =
      let w1 = emit mutex_init (emit sem_init w) in
      let (info, w2) = rd env cfg reg_info w1 in
      let w3 = (record w2 {
        gemm = record w2.gemm {
          info = record {
            dim = bit_and info 0xFF;
            max_k = bit_and (info / 2 ^ 8) 0xFF;
            panels = bit_and (info / 2 ^ 16) 0xFF;
          };
        };
      }) in
      (ok, emit (irq_enable cfg.batch_irq) (emit irq_config w3))
