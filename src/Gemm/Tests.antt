-- ===== src/Gemm/Tests.antt =====
-- The theorems about the accelerator driver at concrete environments and tiles.
use rv32imac_soc.Common.{
  ℕ, ◌+◌, ◌*◌, ◌%◌, ◌<◌, ◌≡◌, ◌↔◌, refl, true, false, some, Status, u32, sub32, ok, [], ◌∷◌, ◌==◌,
  if◌then◌else◌, arith,
}
use rv32imac_soc.Gemm.Lock.{IsReleased}
use rv32imac_soc.Gemm.Lock.Calls.{
  Calls, made, none_made, mode_set, submitted, interrupt, Calls-IsReleased,
}
use rv32imac_soc.Gemm.World.{flush, sem_init, mutex_init, irq_config, irq_enable, Env, World}
use rv32imac_soc.Common.{einval}
use rv32imac_soc.Gemm.{isr, set_poll_mode}
use rv32imac_soc.Gemm.{Tile, Config, desc_push, flush_operands, get_info, zero_stats}
use rv32imac_soc.Gemm.Run.{run_batch, account, initialize}
use rv32imac_soc.Gemm.Submit.{flush_operands_lem}
use rv32imac_soc.Gemm.Batch.{Did, script}
use rv32imac_soc.Gemm.Batch.Wait.{Finishes, Wakes}
use rv32imac_soc.Gemm.Batch.Returns.{may_return, run_batch_lem}
use rv32imac_soc.Gemm.Descriptor.{fields, desc_push_lem}
use rv32imac_soc.Gemm.Account.{account_partition}
use rv32imac_soc.Gemm.Init.{info-initialize}

abbrev pub device : Config
device = record { base = 0x5000; batch_irq = 2; dma_irq = 3 }

-- STATUS shows a queue that is done at every second reading, INFO four rows, 255 products and two
-- panels, and QUEUE_FREE eight places.
abbrev pub some_env : Env
some_env = record {
  mmio = λ n es addr.
      if addr == 0x5004
      then (if n % 2 == 0 then 128 else 0)
      else if addr == 0x5024
      then 0x2FF04
      else 8;
  cycle = λ n es. n * 10;
  sem_count = λ n es. 0;
  sem_take = λ n es timeout. some 0;
  interrupted = λ n es. true;
}

abbrev pub polling : World
polling = record {
  gemm = record {
    info = record { dim = 4; max_k = 255; panels = 2 };
    stats = zero_stats;
    poll_mode = true;
    t_isr = 0;
    isr_fired = false;
  };
  asked = 0;
  effects = [];
  gives = 0;
}

abbrev pub first_tile : Tile
first_tile = record {
  a_src = 4096;
  b_src = 8192;
  dest = 12288;
  k_len = 300;
  panel_use = 1;
  panel_load = 1;
  b_only = false;
  src_coherent = false;
}

pub some_env-Finishes : Finishes some_env device 3
some_env-Finishes n before =
    let even : (n + n % 2) % 2 ≡ 0 = omega arith in (n % 2, omega arith, rw even refl)

some_env-Wakes : (timeout : ℕ) → Wakes some_env device timeout
some_env-Wakes timeout n es = (0, refl)

run_batch_example :
    (r : Status × World) × (run_batch some_env device 3
        (some (first_tile ∷ []))
        0
        true
        5
        100
        polling
      ≡ some r)
    × (may_return some_env device (some (first_tile ∷ [])) 0 true polling r.0 ≡ true)
    × Did (script device polling.gemm.info (first_tile ∷ []) 0 true 5 r.0) polling r.1
run_batch_example =
    run_batch_lem some_env device 3 (some (first_tile ∷ [])) 0 true 5 100 polling
      (λ poll. some_env-Finishes) (λ sleep. some_env-Wakes 100)

flush_operands_example :
    ((flush_operands some_env device (some (first_tile ∷ [])) polling).0 ≡ ok)
    × ((flush_operands some_env device (some (first_tile ∷ [])) polling).1.effects
        ≡ flush 4096 1200 ∷ flush 8192 1200 ∷ [])
    × ((flush_operands some_env device (some (first_tile ∷ [])) polling).1.gemm ≡ polling.gemm)
flush_operands_example = flush_operands_lem some_env device (some (first_tile ∷ [])) polling

desc_push_example :
    (fields (desc_push first_tile)
      ≡ record { k_len = 44; panel_use = 1; panel_load = 1; b_only = 0 })
    × (((fields (desc_push first_tile)).k_len ≡ 300) ↔ (300 < 256))
desc_push_example = desc_push_lem first_tile

info-initialize_example :
    let (status, w') = initialize some_env device polling in
    (status ≡ ok)
    × (get_info some_env device w' ≡ record { dim = 4; max_k = 255; panels = 2 })
    × (w'.effects ≡ sem_init ∷ mutex_init ∷ irq_config ∷ irq_enable 2 ∷ [])
info-initialize_example =
    info-initialize some_env device 4 255 2 0 polling (omega arith) (omega arith) (omega arith) refl

-- A world whose interrupt was taken, and whose counter is about to wrap.
abbrev interrupted_world : World
interrupted_world = record polling {
  gemm = record polling.gemm { t_isr = 4294967290; isr_fired = true };
  asked = 7;
}

account_partition_example :
    ((account some_env device 4294967200 4294967210 interrupted_world).gemm.stats.batches ≡ 1)
    × (sub32
          (account some_env device 4294967200 4294967210 interrupted_world).gemm.stats.isr_cycles
          0
        ≡ 90)
    × (sub32
          (account some_env device 4294967200 4294967210 interrupted_world).gemm.stats.resume_cycles
          0
        ≡ 76)
    × (u32 (
          (account some_env device 4294967200 4294967210 interrupted_world).gemm.stats.isr_cycles
          + (account some_env device 4294967200 4294967210
              interrupted_world).gemm.stats.resume_cycles)
        ≡ 166)
    × ((account some_env device 4294967200 4294967210 interrupted_world).gemm.stats.isr_seen ≡ 1)
account_partition_example =
    account_partition some_env device 4294967200 4294967210 interrupted_world (omega arith)
      (omega arith) (omega arith)

-- Polling chosen, then a batch of no tiles, then an interrupt.
unheard :
    run_batch some_env device 3 (some []) 0 true 5 100 (set_poll_mode some_env device true polling)
    ≡ some (einval, set_poll_mode some_env device true polling)
unfolding run_batch
unheard = refl

some-Calls :
    Calls some_env device 3 polling
      (isr some_env device (set_poll_mode some_env device true polling))
some-Calls =
    made (mode_set true)
      (made (submitted (some []) 0 true 5 100 unheard) (made interrupt none_made))

Calls-IsReleased_example :
    IsReleased (isr some_env device (set_poll_mode some_env device true polling)).effects
    × (get_info some_env device (isr some_env device (set_poll_mode some_env device true polling))
        ≡ get_info some_env device polling)
Calls-IsReleased_example =
    Calls-IsReleased some_env device 3 polling
      (isr some_env device (set_poll_mode some_env device true polling)) some-Calls refl
