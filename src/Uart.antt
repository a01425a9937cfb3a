-- ===== src/Uart.antt =====
-- zephyr/drivers/serial/uart_rv32_5stage.c: the serial driver, polled and interrupt-driven, over any
-- bus. `Uart.Hw` is the register block that it drives, src/uart_mmio.v.
pub mod Hw
pub mod Poll
pub mod Fifo
pub mod Irq
pub mod Lines
mod Tests
use rv32imac_soc.Common.{
  ℕ, zero, suc, ◌+◌, ◌-◌, ◌/◌, ◌%◌, ◌^◌, bit_and, u8, ◌==◌, Bool, true, false, not, Option, none,
  some, List, get_elem?, if◌then◌else◌,
}
use rv32imac_soc.Common.Int.{ℤ, pos, ltb_ℤ}
use rv32imac_soc.Bus.{Bus, Exec, ◌>>=◌, ◌>>◌, pure, update}

abbrev pub tx_data_reg : ℕ
tx_data_reg = 0x0

abbrev pub tx_status_reg : ℕ
tx_status_reg = 0x4

abbrev pub rx_data_reg : ℕ
rx_data_reg = 0x8

abbrev pub rx_status_reg : ℕ
rx_status_reg = 0xC

abbrev pub tx_ready_bit : ℕ
tx_ready_bit = 1

abbrev pub rx_has_data_bit : ℕ
rx_has_data_bit = 1

-- struct uart_rv32_5stage_config; the interrupt controller and the wiring of the interrupts are
-- arguments of the operations that use them.
pub record Config : Type 0 where
  pub base : ℕ
  pub tx_irq : ℕ
  pub rx_irq : ℕ

-- struct uart_rv32_5stage_data: the callback of the user and its argument.
pub record State (D : Type 0) : Type 0 where
  pub cb : Option (ℕ → D → D)
  pub cb_data : ℕ

-- UART_RV32_5STAGE_IRQ_FROM_L2, with the two configured widths.
unfoldable pub irq_from_l2 : ℕ → ℕ → ℕ → ℕ
irq_from_l2 level1_bits level2_bits irq =
    (irq / 2 ^ level1_bits % 2 ^ level2_bits + 2 ^ 32 - 1) % 2 ^ 32

module _ {D : Type 0} where
  unfoldable pub isr : State D → D → D
  isr s d = elim s.cb [ none ↦ d | some cb ↦ cb s.cb_data d ]

  unfoldable pub irq_update : D → D
  irq_update d = d

  unfoldable pub irq_callback_set : Option (ℕ → D → D) → ℕ → State D → State D
  irq_callback_set cb cb_data s = record s { cb = cb; cb_data = cb_data }

  unfoldable pub initialize : (D → D) → Exec D ℕ
  initialize irq_config_func d = (0, irq_config_func d)

module _ {D : Type 0} (bus : Bus D) (cfg : Config) where
  open bus use {read32, write32}

  -- The status tests of the driver.
  unfoldable pub irq_tx_ready : Exec D Bool
  irq_tx_ready = do
    status ← read32 (cfg.base + tx_status_reg)
    pure (not (bit_and status tx_ready_bit == 0))

  unfoldable pub irq_tx_complete : Exec D Bool
  unfolding irq_tx_ready
  irq_tx_complete = irq_tx_ready

  unfoldable pub irq_rx_ready : Exec D Bool
  irq_rx_ready = do
    status ← read32 (cfg.base + rx_status_reg)
    pure (not (bit_and status rx_has_data_bit == 0))

  -- The spin on TX_STATUS with fuel, then the write; `none` means that the fuel ran out.
  unfoldable pub poll_out : ℕ → ℕ → D → Option D
  poll_out zero c d = none
  poll_out (suc fuel) c d =
      let (status, d') = read32 (cfg.base + tx_status_reg) d in
      let again = poll_out fuel c d' in
      if bit_and status tx_ready_bit == 0
      then again
      else some (write32 c (cfg.base + tx_data_reg) d')

  -- `none` is the return value -1; `some c` is 0 with the byte stored through the pointer.
  unfoldable pub poll_in : Exec D (Option ℕ)
  poll_in d =
      let (status, d') = read32 (cfg.base + rx_status_reg) d in
      if bit_and status rx_has_data_bit == 0
      then (none, d')
      else let (v, d'') = read32 (cfg.base + rx_data_reg) d' in (some (u8 v), d'')

  -- The bytes sent, and the device. A read of the buffer out of range is `none`.
  unfoldable pub fifo_fill : List ℕ → ℤ → D → Option (ℕ × D)
  fifo_fill tx_data len d =
      if ltb_ℤ len (pos 1)
      then some (0, d)
      else let (status, d') = read32 (cfg.base + tx_status_reg) d in
        if bit_and status tx_ready_bit == 0 then some (0, d') else elim (get_elem? tx_data 0) [
          | none ↦ none
          | some c ↦ some (1, write32 c (cfg.base + tx_data_reg) d')
        ]

  -- The bytes read: how many, and the one stored at rx_data[0].
  unfoldable pub fifo_read : ℤ → Exec D (Option ℕ)
  fifo_read size d =
      if ltb_ℤ size (pos 1)
      then (none, d)
      else let (status, d') = read32 (cfg.base + rx_status_reg) d in
        if bit_and status rx_has_data_bit == 0
        then (none, d')
        else let (v, d'') = read32 (cfg.base + rx_data_reg) d' in (some (u8 v), d'')

  -- The second status is read only if the first does not decide.
  unfoldable pub irq_is_pending : Exec D Bool
  unfolding irq_tx_ready irq_rx_ready
  irq_is_pending d = let (t, d') = irq_tx_ready d in if t then (true, d') else irq_rx_ready d'

  -- `enable_next_level` is Zephyr's irq_enable_next_level on the interrupt controller. The callback
  -- runs at once if the transmitter is idle already.
  unfoldable pub irq_tx_enable : (ℕ → D → D) → State D → D → D
  unfolding irq_tx_ready isr
  irq_tx_enable enable_next_level s d =
      let (ready, d') = irq_tx_ready (enable_next_level cfg.tx_irq d) in
      if ready then isr s d' else d'

  unfoldable pub irq_tx_disable : (ℕ → D → D) → D → D
  irq_tx_disable disable_next_level d = disable_next_level cfg.tx_irq d

  unfoldable pub irq_rx_enable : (ℕ → D → D) → D → D
  irq_rx_enable enable_next_level d = enable_next_level cfg.rx_irq d

  unfoldable pub irq_rx_disable : (ℕ → D → D) → D → D
  irq_rx_disable disable_next_level d = disable_next_level cfg.rx_irq d
