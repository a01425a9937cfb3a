-- ===== src/Gemm/World.antt =====
-- What the accelerator driver runs against: the effects that it has on the outside, in their order,
-- and an environment that answers its questions.
use rv32imac_soc.Common.{ℕ, ◌+◌, Bool, Option, List, [], ◌∷◌, ◌++◌}

-- The calls of the threads that use the driver which change something outside of its own data. What
-- the interrupt handler does, k_sem_give, is counted apart.
pub data Effect : Type 0 where
  -- sys_write32 of the value at the address
  write : ℕ → ℕ → Effect
  -- sys_cache_data_flush_range and sys_cache_data_invd_range
  flush : ℕ → ℕ → Effect
  invd : ℕ → ℕ → Effect
  -- k_mutex_init, k_mutex_lock and k_mutex_unlock of the device's lock
  mutex_init lock unlock : Effect
  -- k_sem_init and k_sem_reset of the completion semaphore
  sem_init sem_reset : Effect
  -- the interrupt configuration of the instance, and irq_enable_next_level of a source
  irq_config : Effect
  irq_enable : ℕ → Effect

-- The hardware and the kernel. An answer may depend on how many questions came before and on all
-- effects so far, so time passes between two questions.
pub record Env : Type 0 where
  -- sys_read32 of an address
  pub mmio : ℕ → List Effect → ℕ → ℕ
  -- k_cycle_get_32
  pub cycle : ℕ → List Effect → ℕ
  -- k_sem_count_get, and the result of k_sem_take with a timeout, if it returns: with K_FOREVER a
  -- thread whose semaphore is never given stays where it is
  pub sem_count : ℕ → List Effect → ℕ
  pub sem_take : ℕ → List Effect → ℕ → Option ℕ
  -- whether the completion interrupt is taken at this point
  pub interrupted : ℕ → List Effect → Bool

-- struct gemm_info
pub record Info : Type 0 where
  pub dim : ℕ
  pub max_k : ℕ
  pub panels : ℕ

-- struct gemm_stats; every field wraps at 32 bits.
pub record Stats : Type 0 where
  pub batches : ℕ
  pub wait_cycles : ℕ
  pub flush_cycles : ℕ
  pub submit_cycles : ℕ
  pub already_done : ℕ
  pub isr_cycles : ℕ
  pub resume_cycles : ℕ
  pub isr_seen : ℕ

-- struct gemm_data, without the semaphore and the mutex, which are the kernel's.
pub record Data : Type 0 where
  pub info : Info
  pub stats : Stats
  pub poll_mode : Bool
  pub t_isr : ℕ
  pub isr_fired : Bool

pub record World : Type 0 where
  pub gemm : Data
  pub asked : ℕ
  pub effects : List Effect
  -- how often the handler has given the semaphore
  pub gives : ℕ

abbrev pub emit : Effect → World → World
emit e w = record w { effects = w.effects ++ (e ∷ []) }

-- A question to the environment.
abbrev pub ask : {A : Type 0} → (ℕ → List Effect → A) → World → A × World
ask q w = (q w.asked w.effects, record w { asked = w.asked + 1 })

abbrev pub set_stats : Stats → World → World
set_stats s w = record w { gemm = record w.gemm { stats = s } }
