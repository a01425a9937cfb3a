-- ===== src/Wiring.antt =====
-- How the instances of the drivers are wired: UART_RV32_5STAGE_INIT of
-- zephyr/drivers/serial/uart_rv32_5stage.c, RV32_5STAGE_INTC_INIT of
-- zephyr/drivers/interrupt_controller/intc_rv32_5stage.c and GEMM_INIT of
-- zephyr/drivers/misc/gemm_rv32_5stage.c, with the tables of operations that they register. What the
-- build takes from the device tree is the argument.
pub mod Table
pub mod Service
pub mod Boot
pub mod Tests
use rv32imac_soc.Common.{
  Status, ℕ, ◌-◌, ◌^◌, u32, sub32, bit_and, ◌/◌, Bool, Option, none, some, List,
}
use rv32imac_soc.Common.Int.{ℤ}
use rv32imac_soc.Bus.{Bus, Exec}
use rv32imac_soc.Uart
use rv32imac_soc.Intc
use rv32imac_soc.Gemm
use rv32imac_soc.Gemm.World.{Env, Info, Stats, World}
use rv32imac_soc.Gemm.Run.{run_batch}

-- CONFIG_1ST_LEVEL_INTERRUPT_BITS and CONFIG_2ND_LEVEL_INTERRUPT_BITS.
pub record Levels : Type 0 where
  pub first_bits : ℕ
  pub second_bits : ℕ

-- The nodes of the device tree: DT_INST_REG_ADDR and the encoded interrupt numbers of
-- DT_INST_IRQN_BY_NAME, or DT_INST_IRQN.
pub record UartNode : Type 0 where
  pub reg_addr : ℕ
  pub tx_irqn : ℕ
  pub rx_irqn : ℕ

pub record GemmNode : Type 0 where
  pub reg_addr : ℕ
  pub batch_irqn : ℕ
  pub dma_irqn : ℕ

-- With INTC_INST_ISR_TBL_OFFSET and the level of the aggregator.
pub record IntcNode : Type 0 where
  pub reg_addr : ℕ
  pub irqn : ℕ
  pub isr_tbl_offset : ℕ
  pub level : ℕ

-- GEMM_IRQ_FROM_L2
unfoldable pub gemm_irq_from_l2 : Levels → ℕ → ℕ
gemm_irq_from_l2 levels irq =
    sub32 (bit_and (irq / 2 ^ levels.first_bits) (2 ^ levels.second_bits - 1)) 1

-- The configuration of each instance.
abbrev pub uart_cfg : Levels → UartNode → Uart.Config
uart_cfg levels node = record {
  base = node.reg_addr;
  tx_irq = Uart.irq_from_l2 levels.first_bits levels.second_bits node.tx_irqn;
  rx_irq = Uart.irq_from_l2 levels.first_bits levels.second_bits node.rx_irqn;
}

abbrev pub gemm_cfg : Levels → GemmNode → Gemm.Config
gemm_cfg levels node = record {
  base = node.reg_addr;
  batch_irq = gemm_irq_from_l2 levels node.batch_irqn;
  dma_irq = gemm_irq_from_l2 levels node.dma_irqn;
}

abbrev pub intc_cfg : IntcNode → Intc.Config
intc_cfg node = record { base = node.reg_addr; isr_table_offset = node.isr_tbl_offset }

-- IRQ_PARENT_ENTRY_DEFINE
pub record ParentEntry : Type 0 where
  pub irqn : ℕ
  pub isr_tbl_offset : ℕ
  pub level : ℕ

abbrev pub intc_parent : IntcNode → ParentEntry
intc_parent node = record {
  irqn = node.irqn;
  isr_tbl_offset = node.isr_tbl_offset;
  level = node.level;
}

-- The handlers that the drivers connect.
pub data Handler : Type 0 where
  uart_isr gemm_isr intc_isr : Handler

-- The functions that connect an instance's interrupts; `irq_connect` is IRQ_CONNECT at priority 0 and
-- `irq_enable` is Zephyr's.
module _ {D : Type 0} (irq_connect : Handler → ℕ → D → D) where
  unfoldable pub uart_irq_config : UartNode → D → D
  uart_irq_config node d = irq_connect uart_isr node.rx_irqn (irq_connect uart_isr node.tx_irqn d)

  unfoldable pub gemm_irq_config : GemmNode → D → D
  gemm_irq_config node d = irq_connect gemm_isr node.batch_irqn d

  unfoldable pub intc_config_irq : (ℕ → D → D) → IntcNode → D → D
  intc_config_irq irq_enable node d = irq_enable node.irqn (irq_connect intc_isr node.irqn d)

-- uart_rv32_5stage_api, without its NULL entry.
pub record UartApi (D : Type 0) : Type 0 where
  pub poll_in : Exec D (Option ℕ)
  pub poll_out : ℕ → ℕ → D → Option D
  pub fifo_fill : List ℕ → ℤ → D → Option (ℕ × D)
  pub fifo_read : ℤ → Exec D (Option ℕ)
  pub irq_tx_enable : (ℕ → D → D) → Uart.State D → D → D
  pub irq_tx_disable : (ℕ → D → D) → D → D
  pub irq_tx_ready : Exec D Bool
  pub irq_tx_complete : Exec D Bool
  pub irq_rx_enable : (ℕ → D → D) → D → D
  pub irq_rx_disable : (ℕ → D → D) → D → D
  pub irq_rx_ready : Exec D Bool
  pub irq_is_pending : Exec D Bool
  pub irq_update : D → D
  pub irq_callback_set : Option (ℕ → D → D) → ℕ → Uart.State D → Uart.State D

abbrev pub uart_api : {D : Type 0} → Bus D → Uart.Config → UartApi D
uart_api bus cfg = record {
  poll_in = Uart.poll_in bus cfg;
  poll_out = Uart.poll_out bus cfg;
  fifo_fill = Uart.fifo_fill bus cfg;
  fifo_read = Uart.fifo_read bus cfg;
  irq_tx_enable = Uart.irq_tx_enable bus cfg;
  irq_tx_disable = Uart.irq_tx_disable bus cfg;
  irq_tx_ready = Uart.irq_tx_ready bus cfg;
  irq_tx_complete = Uart.irq_tx_complete bus cfg;
  irq_rx_enable = Uart.irq_rx_enable bus cfg;
  irq_rx_disable = Uart.irq_rx_disable bus cfg;
  irq_rx_ready = Uart.irq_rx_ready bus cfg;
  irq_is_pending = Uart.irq_is_pending bus cfg;
  irq_update = Uart.irq_update;
  irq_callback_set = Uart.irq_callback_set;
}

-- rv32_5stage_intc_apis
pub record IntcApi (D : Type 0) : Type 0 where
  pub intr_enable : ℕ → Exec D (Unit {0})
  pub intr_disable : ℕ → Exec D (Unit {0})
  pub intr_get_state : Exec D Bool
  pub intr_get_line_state : ℕ → Exec D Bool

abbrev pub intc_api : {D : Type 0} → Bus D → Intc.Config → IntcApi D
intc_api bus cfg = record {
  intr_enable = Intc.intr_enable bus cfg;
  intr_disable = Intc.intr_disable bus cfg;
  intr_get_state = Intc.intr_get_state bus cfg;
  intr_get_line_state = Intc.intr_get_line_state bus cfg;
}

-- The functions that zephyr/include/rv32_5stage/gemm.h declares, over the states of a device; NULL is
-- `none`. A batch that never comes to an end is `none`.
pub record GemmApi (W : Type 0) : Type 0 where
  pub get_info : W → Info
  pub flush_operands : Option (List Gemm.Tile) → W → Status × W
  pub set_poll_mode : Bool → W → W
  pub get_stats : W → Stats
  pub reset_stats : W → W
  pub run_batch : Option (List Gemm.Tile) → ℕ → Bool → ℕ → ℕ → W → Option (Status × W)

-- The driver behind the header, with the fuel of a batch.
abbrev pub gemm_api : Env → Gemm.Config → ℕ → GemmApi World
gemm_api env cfg fuel = record {
  get_info = Gemm.get_info env cfg;
  flush_operands = Gemm.flush_operands env cfg;
  set_poll_mode = Gemm.set_poll_mode env cfg;
  get_stats = Gemm.get_stats env cfg;
  reset_stats = Gemm.reset_stats env cfg;
  run_batch = run_batch env cfg fuel;
}
