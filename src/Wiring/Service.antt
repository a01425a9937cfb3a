-- ===== src/Wiring/Service.antt =====
-- An interrupt line at the aggregator ends in the handler of the driver that connected it.
use rv32imac_soc.Common.{
  ℕ, zero, suc, ◌+◌, ◌≤◌, ◌<◌, ◌≡◌, refl, sym, ap, ◌∙◌, ◌==◌, ==_iff, Bool-cases, false, inl, inr,
  Option, none, some, [], ◌∷◌, arith,
}
use rv32imac_soc.Intc.{FindLsbSet, isr, acknowledge}
use rv32imac_soc.Intc.Hw.{Board, bus}
use rv32imac_soc.Intc.Wires.{IsValid}
use rv32imac_soc.Intc.Dispatch.{sources_from, serve}
use rv32imac_soc.Intc.Masks.{at_hw}
use rv32imac_soc.Intc.Service.{due, isr_lem}
use rv32imac_soc.Wiring.{
  Levels, UartNode, GemmNode, Handler, uart_isr, gemm_isr, uart_cfg, gemm_cfg,
}
use rv32imac_soc.Wiring.Table.{IsrTable, IsMultiLevel, IsWired, wired, connected_lem}

-- An entry of the table as a call; an entry that nothing is connected to runs `spurious`.
abbrev pub call_entry : (Board → Board) → (Handler → Board → Board) → IsrTable → ℕ → Board → Board
call_entry spurious handlers table n b = elim (table n) [
  | none ↦ spurious b
  | some h ↦ handlers h b
]

past : (i n p : ℕ) → i < p → sources_from (λ j. i == j) p n ≡ []
past i zero p h = refl
past i (suc n) p h =
    let other : (i == p) ≡ false = ground arith in rw other (past i n (p + 1) (omega arith))

only_one : (i n p : ℕ) → p ≤ i → i < p + n → sources_from (λ j. i == j) p n ≡ i ∷ []
only_one i zero p lo hi = absurd (omega arith)
only_one i (suc n) p lo hi = elim (Bool-cases (i == p)) [
  | inl here ↦
      let e : i ≡ p = (==_iff i p).0 here in
      rw here (ap (λ xs. p ∷ xs) (past i n (p + 1) (omega arith)) ∙ ap (λ q. q ∷ []) (sym e))
  | inr later ↦ rw later (only_one i n (p + 1) (ground arith) (omega arith))
]

-- Which driver connected the line that its configuration holds.
pub data Connects (levels : Levels) (uart : UartNode) (gemm : GemmNode) : Handler → ℕ → Type 0 where
  by_tx : Connects levels uart gemm uart_isr (uart_cfg levels uart).tx_irq
  by_rx : Connects levels uart gemm uart_isr (uart_cfg levels uart).rx_irq
  by_batch : Connects levels uart gemm gemm_isr (gemm_cfg levels gemm).batch_irq

module _ {levels : Levels} {parent offset : ℕ} {index : ℕ → ℕ}
    (zephyr : IsMultiLevel levels parent offset index) {uart : UartNode} {gemm : GemmNode}
    {tx rx batch dma : ℕ} (nodes : IsWired zephyr uart gemm tx rx batch dma) {find_lsb_set : ℕ → ℕ}
    (laws : FindLsbSet find_lsb_set) (spurious : Board → Board) (handlers : Handler → Board → Board)
    (t : IsrTable) where
  entry-Connects :
      {h : Handler} {i : ℕ}
      → Connects levels uart gemm h i
      → wired zephyr uart gemm t (offset + i) ≡ some h
  entry-Connects by_tx = (connected_lem zephyr nodes t).0.1
  entry-Connects by_rx = (connected_lem zephyr nodes t).1.1
  entry-Connects by_batch = (connected_lem zephyr nodes t).2.1

  -- One source is due: the handler calls its entry of the table, after acknowledging it.
  only_due :
      (b : Board) (i : ℕ)
      → IsValid b.regs
      → i < 8
      → ((j : ℕ) → due b j ≡ (i == j))
      → let table = wired zephyr uart gemm t in
        isr bus (at_hw offset) find_lsb_set (call_entry spurious handlers table) 9 b
        ≡ some
            (call_entry spurious handlers table (offset + i) (acknowledge bus (at_hw offset) b).1)
  only_due b i valid small one =
      let table = wired zephyr uart gemm t in
      let acked = (acknowledge bus (at_hw offset) b).1 in
      let sources : sources_from (due b) 0 8 ≡ i ∷ [] =
        ap (λ f. sources_from f 0 8) (λ k j. one j k)
        ∙ only_one i 8 0 (omega arith) (omega arith) in
      isr_lem offset b valid laws (call_entry spurious handlers table)
      ∙ ap (λ is. some (serve (call_entry spurious handlers table) offset is acked)) sources

  -- The drivers of the serial port and of the accelerator have connected their interrupts, and one
  -- source alone of the aggregator is pending and enabled. Then the aggregator's handler ends, and
  -- it has called exactly one handler, after acknowledging the source: the serial driver's if the
  -- source is the number that its configuration holds for the transmitter or the receiver, the
  -- accelerator driver's if it is the number of the batch. Zephyr numbers interrupts and finds the
  -- lowest bit as it documents, the three local numbers differ, and the registers hold eight bits.
  pub serviced_lem :
      (h : Handler) (i : ℕ) (b : Board)
      → Connects levels uart gemm h i
      → i < 8
      → IsValid b.regs
      → ((j : ℕ) → due b j ≡ (i == j))
      → isr bus
          (at_hw offset)
          find_lsb_set
          (call_entry spurious handlers (wired zephyr uart gemm t))
          9
          b
        ≡ some (handlers h (acknowledge bus (at_hw offset) b).1)
  serviced_lem h i b owns small valid one =
      let acked = (acknowledge bus (at_hw offset) b).1 in
      let run : Option Handler → Option Board =
        (λ entry. some (elim entry [ none ↦ spurious acked | some h ↦ handlers h acked ])) in
      only_due b i valid small one ∙ ap run (entry-Connects owns)
