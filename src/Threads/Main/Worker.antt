-- ===== src/Threads/Main/Worker.antt =====
-- The other thread of the accelerator sample, and its measurement alone.
use rv32imac_soc.Common.{
  ℕ, zero, suc, ◌+◌, ◌<◌, ◌^◌, ◌/◌, ◌≡◌, refl, ap, ◌∙◌, u32, sub32, ◌==◌, true, false, [], ◌∷◌,
  ◌++◌, if◌then◌else◌, arith,
}
use rv32imac_soc.Gemm.World.{Env}
use rv32imac_soc.Gemm.{Config}
use rv32imac_soc.Threads.{Buffers, churn}
use rv32imac_soc.Threads.Report.{worker_alone, sweep_title, header, Build}
use rv32imac_soc.Threads.Main.{Kernel, Work, Sample, worker_pass, worker, measure_alone}

-- The n-th value of the generator.
abbrev pub churned : ℕ → ℕ → ℕ
churned zero seed = seed
churned (suc n) seed = churned n (churn seed)

-- The last value that n passes write to `work_sink`.
abbrev pub sink_after : ℕ → ℕ → ℕ → ℕ
sink_after zero sink seed = sink
sink_after (suc n) sink seed = churned (suc n) seed

-- What n passes leave of the counters.
abbrev pub after_passes : ℕ → Work → Work
after_passes n s = record {
  work_done = u32 (s.work_done + n);
  work_polls = u32 (s.work_polls + n);
  work_sink = sink_after n s.work_sink s.acc;
  acc = churned n s.acc;
}

sink_step :
    (n sink seed : ℕ) → sink_after n (churn seed) (churn seed) ≡ sink_after (suc n) sink seed
sink_step zero sink seed = refl
sink_step (suc n) sink seed = refl

wrapped_suc : (x n : ℕ) → u32 (u32 (x + 1) + n) ≡ u32 (x + suc n)
wrapped_suc x n = omega arith

wrapped_small : (x : ℕ) → x < 2 ^ 32 → x ≡ u32 (x + 0)
wrapped_small x small = omega arith

zero_left : (n : ℕ) → 0 + n ≡ n
zero_left n = omega arith

worker_lem :
    (n : ℕ) (s : Work)
    → s.work_done < 2 ^ 32
    → s.work_polls < 2 ^ 32
    → worker n true s ≡ after_passes n s
unfolding worker worker_pass
worker_lem zero s done polls = λ i. record {
  work_done = wrapped_small s.work_done done i;
  work_polls = wrapped_small s.work_polls polls i;
  work_sink = s.work_sink;
  acc = s.acc;
}
worker_lem (suc n) s done polls =
    worker_lem n (worker_pass true s) (omega arith) (omega arith) ∙ (λ i. record {
      work_done = wrapped_suc s.work_done n i;
      work_polls = wrapped_suc s.work_polls n i;
      work_sink = sink_step n s.work_sink s.acc i;
      acc = churned (suc n) s.acc;
    })

-- The measurement of the worker alone prints, as its iterations, the passes that the worker got while
-- `main` slept, modulo 2^32, with the cycles of that time and the cycles for each pass, 0 if there
-- was none. Both counters end at the number of the passes, the sink holds the last value of the
-- generator started at the accumulator, and the worker is told to stop.
pub measure_alone_lem :
    (env : Env) (cfg : Config) (os : Kernel) (build : Build) (buffers : Buffers) (s : Sample)
    → let s' = measure_alone env cfg os build buffers s in
      let w = s.world in
      let passes = os.passes (w.asked + 1) w.effects in
      let cycles = sub32 (env.cycle (w.asked + 1 + 1) w.effects) (env.cycle w.asked w.effects) in
      let each = if u32 passes == 0 then 0 else cycles / u32 passes in
      (s'.out ≡ s.out ++ (worker_alone (u32 passes) cycles each ∷ sweep_title 16 ∷ header ∷ []))
      × (s'.work ≡ record {
        work_done = u32 passes;
        work_polls = u32 passes;
        work_sink = sink_after passes s.work.work_sink s.work.acc;
        acc = churned passes s.work.acc;
      })
      × (s'.work_run ≡ false)
unfolding measure_alone
measure_alone_lem env cfg os build buffers s =
    let w = s.world in
    let passes = os.passes (w.asked + 1) w.effects in
    let fresh : Work = record s.work { work_done = 0; work_polls = 0 } in
    let cycles = sub32 (env.cycle (w.asked + 1 + 1) w.effects) (env.cycle w.asked w.effects) in
    let ran = worker_lem passes fresh (omega arith) (omega arith) ∙ (λ i. record {
      work_done = u32 (zero_left passes i);
      work_polls = u32 (zero_left passes i);
      work_sink = sink_after passes s.work.work_sink s.work.acc;
      acc = churned passes s.work.acc;
    }) in
    (
      ap
          (λ (v : Work).
            s.out
            ++ (worker_alone v.work_done cycles
                  (if v.work_done == 0 then 0 else cycles / v.work_done)
                ∷ sweep_title 16
                ∷ header
                ∷ []))
          ran,
      ran,
      refl,
    )
