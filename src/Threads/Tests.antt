-- ===== src/Threads/Tests.antt =====
-- The theorems about the accelerator sample at concrete runs.
use rv32imac_soc.Common.{
  ℕ, ◌+◌, ◌*◌, ◌≡◌, ◌↔◌, refl, sym, ap, ◌∙◌, ok, some, none, [], ◌++◌, true, false, if◌then◌else◌,
  ◌==◌, arith,
}
use rv32imac_soc.Gemm.{Config}
use rv32imac_soc.Gemm.World.{Env, World}
use rv32imac_soc.Gemm.{zero_stats}
use rv32imac_soc.Gemm.Submit.{stagings}
use rv32imac_soc.Gemm.Batch.{script}
use rv32imac_soc.Threads.{Panels, Tally, Buffers, stage_operands, check_results, shift_out, klen}
use rv32imac_soc.Threads.Verdict.{lane_product, IsProduct, self_check_lem}
use rv32imac_soc.Threads.Runner.{tiles_from, gemm_runner, times, gemm_runner_lem}

abbrev pub no_panels : Panels
no_panels = record { a_panel = λ x. 0; b_panel = λ p x. 0 }

abbrev pub no_tally : Tally
no_tally = record { gemm_bad = 0; words_checked = 0; printed = [] }

-- The destination of two tiles of one lane, as the accelerator leaves it.
abbrev pub some_dest : ℕ → ℕ → ℕ
some_dest p x = lane_product (stage_operands 1 64 no_panels) 64 p 0 0

pub some_dest-IsProduct : (n : ℕ) → IsProduct some_dest (stage_operands 1 64 no_panels) 1 64 n
some_dest-IsProduct n p i j hp hi hj =
    let s = stage_operands 1 64 no_panels in
    let row : i ≡ 0 = omega arith in
    let column : j ≡ 0 = omega arith in
    ap (λ i. lane_product s 64 p i 0) (sym row) ∙ ap (λ j. lane_product s 64 p i j) (sym column)

self_check_example : ((check_results some_dest 1 2 no_tally).gemm_bad ≡ 0) ↔ (klen ≡ 64)
self_check_example =
    self_check_lem 1 2 64 no_panels some_dest no_tally (omega arith) (omega arith) (omega arith)
      (omega arith) (omega arith) (some_dest-IsProduct 2)

abbrev pub device : Config
device = record { base = 0x5000; batch_irq = 2; dma_irq = 3 }

-- STATUS always shows the queue done, and QUEUE_FREE eight places.
abbrev pub quick_env : Env
quick_env = record {
  mmio = λ n es addr. if addr == 0x5004 then 128 else 8;
  cycle = λ n es. n * 10;
  sem_count = λ n es. 0;
  sem_take = λ n es timeout. some 0;
  interrupted = λ n es. true;
}

abbrev pub polling : World
polling = record {
  gemm = record {
    info = record { dim = 4; max_k = 255; panels = 2 };
    stats = zero_stats;
    poll_mode = true;
    t_isr = 0;
    isr_fired = false;
  };
  asked = 0;
  effects = [];
  gives = 0;
}

abbrev pub some_buffers : Buffers
some_buffers = record { a_at = 4096; b_at = λ p. 8192 + p * 1024; dest_at = λ p. 16384 + p * 256 }

gemm_runner_example :
    (w' : World) × (gemm_runner quick_env device 1 some_buffers 64 2 2 100 polling
      ≡ some (none, w'))
    × (w'.effects
        ≡ stagings polling.gemm.info (tiles_from some_buffers 64 2 2 0)
          ++ times quick_env device 16 (
              script device polling.gemm.info
                (tiles_from some_buffers 64 2 2 0)
                0
                true
                shift_out
                ok))
gemm_runner_example =
    gemm_runner_lem quick_env device 1 some_buffers 64 2 1 100 polling (λ k es. omega arith)
      (λ n before. (0, omega arith, refl)) refl
