-- ===== src/Wiring/Tests.antt =====
-- The theorems about the wiring of the board at concrete numbers.
use rv32imac_soc.Common.{
  ℕ, zero, suc, ◌+◌, ◌-◌, ◌/◌, ◌≡◌, ◌≢◌, refl, ◌==◌, is_set, is_set-zero, ap, ◌∙◌, ◌&&◌, none, some,
  arith,
}
use rv32imac_soc.Uart.{irq_from_l2}
use rv32imac_soc.Intc.{isr, acknowledge}
use rv32imac_soc.Intc.Hw.{Board, bus}
use rv32imac_soc.Intc.Masks.{at_hw}
use rv32imac_soc.Intc.Service.{due}
use rv32imac_soc.Intc.Tests.{lsb, lsb_laws, calm_board, some_regs-IsValid}
use rv32imac_soc.Wiring.{
  Levels, UartNode, GemmNode, Handler, uart_isr, gemm_isr, uart_cfg, gemm_cfg,
}
use rv32imac_soc.Wiring.Table.{IsrTable, IsMultiLevel, IsWired, wired, connected_lem}
use rv32imac_soc.Wiring.Service.{Connects, by_rx, call_entry, serviced_lem}

abbrev pub eight_bits : Levels
eight_bits = record { first_bits = 8; second_bits = 8 }

-- The entries of the aggregator follow the twelve of the first level.
abbrev pub entry_of : ℕ → ℕ
entry_of irqn = 12 + irqn / 256 - 1

pub some_levels : IsMultiLevel eight_bits 11 12 entry_of
some_levels = record {
  parent_fits = omega arith;
  word = omega arith;
  entry = λ local fits. omega arith;
}

abbrev pub some_uart : UartNode
some_uart = record { reg_addr = 0x40001000; tx_irqn = 0x10B; rx_irqn = 0x20B }

abbrev pub some_gemm : GemmNode
some_gemm = record { reg_addr = 0x5000; batch_irqn = 0x30B; dma_irqn = 0x40B }

pub some_nodes : IsWired some_levels some_uart some_gemm 0 1 2 3
some_nodes = record {
  tx_number = refl;
  rx_number = refl;
  batch_number = refl;
  dma_number = refl;
  tx_fits = omega arith;
  rx_fits = omega arith;
  batch_fits = omega arith;
  dma_fits = omega arith;
  words = (omega arith, omega arith, omega arith, omega arith);
  apart = ((λ e. omega arith), (λ e. omega arith), (λ e. omega arith));
}

abbrev pub empty_table : IsrTable
empty_table n = none

connected_example :
    let table = wired some_levels some_uart some_gemm empty_table in
    (((uart_cfg eight_bits some_uart).tx_irq ≡ 0)
      × (table (12 + (uart_cfg eight_bits some_uart).tx_irq) ≡ some uart_isr))
    × (((uart_cfg eight_bits some_uart).rx_irq ≡ 1)
        × (table (12 + (uart_cfg eight_bits some_uart).rx_irq) ≡ some uart_isr))
    × (((gemm_cfg eight_bits some_gemm).batch_irq ≡ 2)
        × (table (12 + (gemm_cfg eight_bits some_gemm).batch_irq) ≡ some gemm_isr))
    × ((gemm_cfg eight_bits some_gemm).dma_irq ≡ 3)
    × ((local : ℕ) → 0 ≢ local → 1 ≢ local → 2 ≢ local → table (12 + local) ≡ none)
connected_example = connected_lem some_levels some_nodes empty_table

-- Source 1 of the calm board is pending and enabled, and no other.
calm_due : (j : ℕ) → due calm_board j ≡ (1 == j)
calm_due zero = refl
calm_due (suc zero) = refl
calm_due (suc (suc zero)) = refl
calm_due (suc (suc (suc zero))) = refl
calm_due (suc (suc (suc (suc n)))) = ap (λ b. b && is_set 0 n) (is_set-zero n) ∙ ground arith

rx_line : Connects eight_bits some_uart some_gemm uart_isr 1
unfolding irq_from_l2
rx_line = by_rx

abbrev marks : Handler → Board → Board
marks h b = record b { now = b.now + 100 }

serviced_example :
    isr bus
      (at_hw 12)
      (lsb 32)
      (call_entry (λ b. b) marks (wired some_levels some_uart some_gemm empty_table))
      9
      calm_board
    ≡ some (marks uart_isr (acknowledge bus (at_hw 12) calm_board).1)
serviced_example =
    serviced_lem some_levels some_nodes lsb_laws (λ b. b) marks empty_table uart_isr 1 calm_board
      rx_line (omega arith) some_regs-IsValid calm_due
