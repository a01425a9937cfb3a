-- ===== src/Wiring/Boot/Both.antt =====
-- The serial port's and the aggregator's drivers, started in either order.
use rv32imac_soc.Common.{ℕ, ◌+◌, ◌<◌, ◌≡◌, refl, ◌==◌, ==_refl, true, false, some, arith}
use rv32imac_soc.Intc
use rv32imac_soc.Intc.{intr_enable}
use rv32imac_soc.Gemm.World.{Env}
use rv32imac_soc.Uart
use rv32imac_soc.Wiring.{
  Levels, UartNode, GemmNode, IntcNode, intc_isr, uart_irq_config, intc_config_irq,
}
use rv32imac_soc.Wiring.Table.{connect, IsMultiLevel, IsWired, at_number}
use rv32imac_soc.Wiring.Boot.Quieted.{quieted}
use rv32imac_soc.Wiring.Boot.{Soc, Priorities, uart_init, intc_init}

-- The aggregator of the board: its registers are where src/intc.v has them.
abbrev pub intc_at : ℕ → ℕ → ℕ → IntcNode
intc_at offset irqn level = record {
  reg_addr = 0x4000;
  irqn = irqn;
  isr_tbl_offset = offset;
  level = level;
}

-- Both the serial port's and the aggregator's drivers have started.
pub record BothStarted (index : ℕ → ℕ) (offset irqn : ℕ) (uart : UartNode) (s s' : Soc)
    : Type 0 where
  pub board : s'.board ≡ quieted offset s.board
  pub untouched : s'.accelerator ≡ s.accelerator
  pub line : s'.enabled irqn ≡ true
  pub serial :
      (k : ℕ) → s'.table (offset + k) ≡ uart_irq_config (connect index) uart s.table (offset + k)
  pub own : s'.table (index irqn) ≡ some intc_isr

module _ (index : ℕ → ℕ) {offset : ℕ} {irqn : ℕ} (first_level : index irqn < offset) where
  below : (k : ℕ) → (index irqn == offset + k) ≡ false
  below k = ground (arith, first_level)

  pub elsewhere : (n k : ℕ) → index n ≡ offset + k → (index n == index irqn) ≡ false
  elsewhere n k at = ground (arith, first_level)

module _ {levels : Levels} {parent offset : ℕ} {index : ℕ → ℕ}
    (zephyr : IsMultiLevel levels parent offset index) {uart : UartNode} {gemm : GemmNode}
    {tx rx batch dma : ℕ} (nodes : IsWired zephyr uart gemm tx rx batch dma) (irqn level : ℕ)
    (first_level : index irqn < offset) (env : Env) (priorities : Priorities) where
  abbrev pub node : IntcNode
  node = intc_at offset irqn level

  pub uart_then_intc :
      (s : Soc)
      → BothStarted index offset irqn uart s
          (intc_init levels uart node gemm index env priorities
            (uart_init levels uart node gemm index env priorities s).1).1
  unfolding intc_init uart_init intc_config_irq uart_irq_config Uart.initialize Intc.initialize
  uart_then_intc s = record {
    board = refl;
    untouched = refl;
    line = rw (==_refl irqn) refl;
    serial = λ k. rw (below index first_level k) refl;
    own = rw (==_refl (index irqn)) refl;
  }

  pub intc_then_uart :
      (s : Soc)
      → BothStarted index offset irqn uart s
          (uart_init levels uart node gemm index env priorities
            (intc_init levels uart node gemm index env priorities s).1).1
  unfolding intc_init uart_init intc_config_irq uart_irq_config Uart.initialize Intc.initialize
  intc_then_uart s = record {
    board = refl;
    untouched = refl;
    line = rw (==_refl irqn) refl;
    serial = λ k. rw (below index first_level k) refl;
    own =
        rw
          (
            elsewhere index first_level uart.rx_irqn rx
                (at_number zephyr nodes uart.rx_irqn rx nodes.rx_number nodes.rx_fits),
            elsewhere index first_level uart.tx_irqn tx
                (at_number zephyr nodes uart.tx_irqn tx nodes.tx_number nodes.tx_fits),
            ==_refl (index irqn),
          )
          refl;
  }
