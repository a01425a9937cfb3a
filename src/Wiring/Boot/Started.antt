-- ===== src/Wiring/Boot/Started.antt =====
-- The board after the three drivers have started, in either order that Zephyr may choose.
use rv32imac_soc.Common.{ℕ, ◌+◌, ◌<◌, ◌≡◌, ◌==◌, true, is_set, some, List, [], ◌∷◌}
use rv32imac_soc.Intc
use rv32imac_soc.Intc.{intr_enable}
use rv32imac_soc.Intc.Masks.{at_hw, goes_up}
use rv32imac_soc.Gemm.World.{Env, World}
use rv32imac_soc.Gemm.Run
use rv32imac_soc.Uart
use rv32imac_soc.Wiring.{
  Levels, UartNode, GemmNode, IntcNode, gemm_cfg, uart_isr, gemm_isr, intc_isr, gemm_irq_config,
}
use rv32imac_soc.Wiring.Table.{connect, IsMultiLevel, IsWired}
use rv32imac_soc.Wiring.Boot.Both.{intc_at}
use rv32imac_soc.Wiring.Boot.{Soc, soc_bus, Priorities, Driver, boot}

module _ {levels : Levels} {parent offset : ℕ} {index : ℕ → ℕ}
    (zephyr : IsMultiLevel levels parent offset index) {uart : UartNode} {gemm : GemmNode}
    {tx rx batch dma : ℕ} (nodes : IsWired zephyr uart gemm tx rx batch dma) (irqn level : ℕ)
    (first_level : index irqn < offset) (env : Env) (priorities : Priorities) where
  abbrev pub node : IntcNode
  node = intc_at offset irqn level

  -- What the accelerator's driver does to the board.
  with_gemm : Soc → Soc
  with_gemm s =
      (intr_enable soc_bus (at_hw offset) (gemm_cfg levels gemm).batch_irq
        (record s { table = gemm_irq_config (connect index) gemm s.table })).1

  -- The board once all three have started, from the one on which two have.
  abbrev pub Started : Soc → Soc → Type 0
  Started s s' =
      ((j : ℕ) → j < 8 → is_set s'.board.regs.enable j ≡ (batch == j))
      × (is_set s'.board.regs.pending batch ≡ goes_up s.board (s.board.now + 3) batch)
      × (s'.table (offset + tx) ≡ some uart_isr)
      × (s'.table (offset + rx) ≡ some uart_isr)
      × (s'.table (offset + batch) ≡ some gemm_isr)
      × (s'.table (index irqn) ≡ some intc_isr)
      × (s'.enabled irqn ≡ true)

  -- All three report success, and the board is as described.
  abbrev pub StartsWell : Soc → List Driver → Type 0
  StartsWell s order =
      let (results, s') = boot levels uart node gemm index env priorities order s in
      (results ≡ true ∷ true ∷ true ∷ []) × Started s s'
