-- ===== src/Gemm/Account.antt =====
-- The accounts of a batch: what `prepare` and `account` add to the statistics.
use rv32imac_soc.Common.{
  ℕ, ◌+◌, ◌-◌, ◌^◌, ◌<◌, ◌≡◌, refl, ap, ◌∙◌, u32, sub32, Bool, Bool-cases, inl, inr, List, [], ◌∷◌,
  ◌++◌, if◌then◌else◌, arith,
}
use native.Mathlib.Nat.{mod-lt}
use rv32imac_soc.Gemm.World.{lock, write, Env, Data, World}
use rv32imac_soc.Gemm.{Tile, Config, submit, reg_dest_stride, reg_out_ctrl, out_ctrl}
use rv32imac_soc.Gemm.Run.{prepare, account}
use rv32imac_soc.Gemm.Submit.{submit_lem}

-- Two parts of a wrapped difference add up to it.
parts_add :
    (x y whole part : ℕ)
    → part < 2 ^ 32
    → u32 (u32 (x + sub32 whole part) + u32 (y + part)) ≡ u32 (x + y + whole)
parts_add x y whole part h = omega arith

differences_add :
    (x y t0 t1 t2 : ℕ)
    → t0 < 2 ^ 32
    → t1 < 2 ^ 32
    → u32 (u32 (x + sub32 t1 t0) + u32 (y + sub32 t2 t1)) ≡ u32 (x + y + sub32 t2 t0)
differences_add x y t0 t1 t2 h0 h1 = omega arith

grows : (x d : ℕ) → x < 2 ^ 32 → d < 2 ^ 32 → sub32 (u32 (x + d)) x ≡ d
grows x d hx hd = omega arith

module _ (env : Env) (cfg : Config) where
  submit-lt :
      (ts : List Tile) (spent : ℕ) (w : World)
      → spent < 2 ^ 32
      → (submit env cfg ts spent w).0 < 2 ^ 32
  unfolding submit
  submit-lt [] spent w h = h
  submit-lt (t ∷ ts) spent w h = submit-lt ts _ _ (mod-lt _ (omega arith))

  -- The submission and its flushes partition the time under the lock: on a 32-bit cycle counter the
  -- two accounts together grow by exactly the cycles between the first and the last reading of
  -- the counter in `prepare`, wraps included.
  pub prepare_partition :
      (tiles : List Tile) (stride : ℕ) (int8 : Bool) (shift : ℕ) (w : World)
      → let w' = prepare env cfg tiles stride int8 shift w in
        let start = env.cycle w.asked (w.effects ++ (lock ∷ [])) in
        let end = env.cycle (w'.asked - 1) w'.effects in
        u32 (w'.gemm.stats.submit_cycles + w'.gemm.stats.flush_cycles)
        ≡ u32 (w.gemm.stats.submit_cycles + w.gemm.stats.flush_cycles + sub32 end start)
  unfolding prepare
  prepare_partition tiles stride int8 shift w =
      let w4 = (record w {
        asked = w.asked + 1;
        effects =
            ((w.effects ++ (lock ∷ [])) ++ (write stride (cfg.base + reg_dest_stride) ∷ []))
            ++ (write (out_ctrl int8 shift) (cfg.base + reg_out_ctrl) ∷ []);
      }) in
      let (spent, w5) = submit env cfg tiles 0 w4 in
      let same = (submit_lem env cfg tiles 0 w4).1 in
      let start = env.cycle w.asked (w.effects ++ (lock ∷ [])) in
      let now = env.cycle w5.asked w5.effects in
      let back : w5.asked ≡ w5.asked + 1 - 1 = omega arith in
      parts_add w5.gemm.stats.submit_cycles w5.gemm.stats.flush_cycles (sub32 now start) spent
        (submit-lt tiles 0 w4 (omega arith))
      ∙ ap (λ (d : Data). u32 (d.stats.submit_cycles + d.stats.flush_cycles + sub32 now start)) same
      ∙ ap
          (λ n. u32 (
            w.gemm.stats.submit_cycles
            + w.gemm.stats.flush_cycles
            + sub32 (env.cycle n w5.effects) start))
          back

  -- A batch that is done counts once. If its interrupt was taken, the accelerator's account grows by
  -- the cycles from the kick to the interrupt and the kernel's by those from the interrupt to the
  -- resumption, so that the two partition the time from the kick to the resumption, wraps included,
  -- and the sample counts; otherwise these accounts stay as they are. The cycles of the kick and of
  -- the interrupt and the two accounts are of 32 bits.
  pub account_partition :
      (t_kick t_mark : ℕ) (w : World)
      → t_kick < 2 ^ 32
      → w.gemm.t_isr < 2 ^ 32
      → (w.gemm.stats.isr_cycles < 2 ^ 32) × (w.gemm.stats.resume_cycles < 2 ^ 32)
      → let s = w.gemm.stats in
        let s' = (account env cfg t_kick t_mark w).gemm.stats in
        let resumed = env.cycle w.asked w.effects in
        (s'.batches ≡ u32 (s.batches + 1))
        × (sub32 s'.isr_cycles s.isr_cycles
            ≡ (if w.gemm.isr_fired then sub32 w.gemm.t_isr t_kick else 0))
        × (sub32 s'.resume_cycles s.resume_cycles
            ≡ (if w.gemm.isr_fired then sub32 resumed w.gemm.t_isr else 0))
        × (u32 (s'.isr_cycles + s'.resume_cycles)
            ≡ u32 (
                s.isr_cycles
                + s.resume_cycles
                + (if w.gemm.isr_fired then sub32 resumed t_kick else 0)))
        × (s'.isr_seen ≡ (if w.gemm.isr_fired then u32 (s.isr_seen + 1) else s.isr_seen))
  unfolding account
  account_partition t_kick t_mark w hk hi small = elim (Bool-cases w.gemm.isr_fired) [
    | inl fired ↦ rw fired (
      refl,
      grows w.gemm.stats.isr_cycles (sub32 w.gemm.t_isr t_kick) small.0 (mod-lt _ (omega arith)),
      grows w.gemm.stats.resume_cycles (sub32 (env.cycle w.asked w.effects) w.gemm.t_isr) small.1
          (mod-lt _ (omega arith)),
      differences_add w.gemm.stats.isr_cycles w.gemm.stats.resume_cycles t_kick w.gemm.t_isr
          (env.cycle w.asked w.effects) hk hi,
      refl,
    )
    | inr missed ↦ rw missed (refl, omega arith, omega arith, omega arith, refl)
  ]
