-- ===== src/Wiring/Boot.antt =====
-- How the three drivers start: the DEVICE_DT_INST_DEFINE of each driver's macro, and what their init
-- functions do to the board together. Zephyr's order of starting is the argument.
mod Quieted
pub mod Both
pub mod Started
mod Tests
use rv32imac_soc.Common.{
  false, ℕ, ◌+◌, ◌≤◌, ◌<◌, ◌≡◌, ◌≢◌, ◌⊎◌, ◌==◌, Bool, true, Option, some, Status, ok, einval, ebusy,
  etimedout, enotsup, List, [], ◌∷◌, if◌then◌else◌, refl, inl, inr, arith,
}
use rv32imac_soc.Bus.{Bus}
use rv32imac_soc.Uart
use rv32imac_soc.Intc
use rv32imac_soc.Intc.Hw.{Board}
use rv32imac_soc.Intc.Hw
use rv32imac_soc.Gemm.World.{Effect, irq_config, irq_enable, Env, World}
use rv32imac_soc.Gemm.World
use rv32imac_soc.Gemm.Run
use rv32imac_soc.Wiring.{
  Handler, Levels, UartNode, GemmNode, IntcNode, gemm_cfg, intc_cfg, uart_irq_config,
  gemm_irq_config, intc_config_irq,
}
use rv32imac_soc.Wiring.Table.{IsrTable, connect}

-- The aggregator, the table of handlers, the lines of the CPU that are enabled, and the accelerator
-- with its driver.
pub record Soc : Type 0 where
  pub board : Board
  pub table : IsrTable
  pub enabled : ℕ → Bool
  pub accelerator : World

-- The aggregator's registers as they are reached from there.
abbrev pub soc_bus : Bus Soc
soc_bus = record {
  read32 = λ a s. let (v, b) = Hw.bus.read32 a s.board in (v, record s { board = b });
  write32 = λ v a s. record s { board = Hw.bus.write32 v a s.board };
}

-- The levels that the macros name, and Zephyr's number for a level.
pub data InitLevel : Type 0 where
  pre_kernel_1 post_kernel : InitLevel

abbrev pub level_number : InitLevel → ℕ
level_number pre_kernel_1 = 1
level_number post_kernel = 3

-- CONFIG_SERIAL_INIT_PRIORITY, CONFIG_INTC_RV32_5STAGE_INIT_PRIORITY and
-- CONFIG_GEMM_RV32_5STAGE_INIT_PRIORITY.
pub record Priorities : Type 0 where
  pub serial : ℕ
  pub intc : ℕ
  pub gemm : ℕ

pub data Driver : Type 0 where
  uart_driver intc_driver gemm_driver : Driver

-- What DEVICE_DT_INST_DEFINE registers of a driver, besides its tables: the init function, which says
-- whether it returned 0, and its place in the order of starting.
pub record Definition : Type 0 where
  pub init : Soc → Bool × Soc
  pub level : InitLevel
  pub priority : ℕ

abbrev pub is_ok : Status → Bool
is_ok st = elim st [ ok ↦ true | _ ↦ false ]

-- IRQ_CONNECT and irq_enable.
abbrev pub irq_connect : (ℕ → ℕ) → Handler → ℕ → Soc → Soc
irq_connect index h irqn s = record s { table = connect index h irqn s.table }

abbrev pub irq_enable_line : ℕ → Soc → Soc
irq_enable_line irqn s = record s { enabled = λ n. if irqn == n then true else s.enabled n }

module _ (levels : Levels) (uart : UartNode) (intc : IntcNode) (gemm : GemmNode) (index : ℕ → ℕ)
    (env : Env) (priorities : Priorities) where
  -- The effects of the accelerator's driver that reach the rest of the board: its handler is
  -- connected, and irq_enable_next_level calls the driver of the aggregator.
  unfoldable pub carry_out : List Effect → Soc → Soc
  carry_out [] s = s
  carry_out (irq_config ∷ es) s = carry_out es (gemm_irq_config (irq_connect index) gemm s)
  carry_out (irq_enable n ∷ es) s = carry_out es (Intc.intr_enable soc_bus (intc_cfg intc) n s).1
  carry_out (e ∷ es) s = carry_out es s

  unfoldable pub uart_init : Soc → Bool × Soc
  uart_init s =
      let (rc, s') = Uart.initialize (uart_irq_config (irq_connect index) uart) s in (rc == 0, s')

  unfoldable pub intc_init : Soc → Bool × Soc
  intc_init s =
      let (rc, s') =
        Intc.initialize soc_bus (intc_cfg intc)
          (intc_config_irq (irq_connect index) irq_enable_line intc) s in
      (rc == 0, s')

  unfoldable pub gemm_init : Soc → Bool × Soc
  gemm_init s =
      let (status, w) = Run.initialize env (gemm_cfg levels gemm) s.accelerator in
      (is_ok status, carry_out w.effects (record s { accelerator = w }))

  -- The DEVICE_DT_INST_DEFINE of each macro.
  abbrev pub uart_device : Definition
  uart_device = record { init = uart_init; level = pre_kernel_1; priority = priorities.serial }

  abbrev pub intc_device : Definition
  intc_device = record { init = intc_init; level = pre_kernel_1; priority = priorities.intc }

  abbrev pub gemm_device : Definition
  gemm_device = record { init = gemm_init; level = post_kernel; priority = priorities.gemm }

  -- DT_INST_FOREACH_STATUS_OKAY, for one node of each kind.
  abbrev pub definition_of : Driver → Definition
  definition_of uart_driver = uart_device
  definition_of intc_driver = intc_device
  definition_of gemm_driver = gemm_device

  -- Zephyr starts the drivers one after the other.
  unfoldable pub boot : List Driver → Soc → List Bool × Soc
  boot [] s = ([], s)
  boot (d ∷ ds) s =
      let (r, s1) = (definition_of d).init s in let (rs, s2) = boot ds s1 in (r ∷ rs, s2)

  -- What Zephyr documents of the order: a lower level first, and within a level a lower priority
  -- first.
  abbrev pub ComesBefore : Driver → Driver → Type 0
  ComesBefore d e =
      let m = level_number (definition_of d).level in
      let n = level_number (definition_of e).level in
      (m < n) ⊎ ((m ≡ n) × ((definition_of d).priority ≤ (definition_of e).priority))

  -- Each of the three drivers once.
  pub record IsStartOrder (first second third : Driver) : Type 0 where
    pub distinct : (first ≢ second) × (first ≢ third) × (second ≢ third)
    pub ordered : ComesBefore first second × ComesBefore second third

  -- Whatever the priorities, the accelerator's driver starts last.
  pub start_cases :
      (first second third : Driver)
      → IsStartOrder first second third
      → (third ≡ gemm_driver)
        × (((first ≡ uart_driver) × (second ≡ intc_driver))
            ⊎ ((first ≡ intc_driver) × (second ≡ uart_driver)))
  start_cases uart_driver intc_driver gemm_driver order = (refl, inl (refl, refl))
  start_cases intc_driver uart_driver gemm_driver order = (refl, inr (refl, refl))
  start_cases first second third order = ground (arith, order.distinct, order.ordered)
