-- ===== src/Wiring/Table.antt =====
-- The interrupt lines that the drivers recover are the ones at which their handlers are connected.
use rv32imac_soc.Common.{
  ℕ, zero, suc, ◌+◌, ◌-◌, ◌*◌, ◌/◌, ◌^◌, ◌<◌, ◌≡◌, ◌≢◌, refl, sym, ap, ◌∙◌, bit_and, bit_and-digit,
  sub32, ◌==◌, ==_iff, ==_refl, Bool-cases, false, inl, inr, Option, some, if◌then◌else◌, arith,
}
use native.Mathlib.Nat.{mod-eq_of_lt, one-le-pow, pow-suc}
use rv32imac_soc.Cache.Hw.{set_at}
use rv32imac_soc.Cache.Mask.{mask_lem}
use rv32imac_soc.Uart.{irq_from_l2}
use rv32imac_soc.Uart.Irq.{irq_from_l2_lem}
use rv32imac_soc.Wiring.{
  Levels, UartNode, GemmNode, Handler, uart_isr, gemm_isr, uart_cfg, gemm_cfg, gemm_irq_from_l2,
  uart_irq_config, gemm_irq_config,
}

-- Zephyr's number of a second-level interrupt: the local number plus one, above the parent's bits.
abbrev pub encoded : Levels → ℕ → ℕ → ℕ
encoded levels parent local = suc local * 2 ^ levels.first_bits + parent

-- _sw_isr_table, and IRQ_CONNECT, which fills the entry of an interrupt number.
abbrev pub IsrTable : Type 0
IsrTable = ℕ → Option Handler

abbrev pub connect : (ℕ → ℕ) → Handler → ℕ → IsrTable → IsrTable
connect index h irqn t = set_at t (index irqn) (some h)

-- What Zephyr documents of the entries: those of an aggregator start at its offset, in the order of
-- its local numbers. Local numbers plus one fit in the bits of the second level.
pub record IsMultiLevel (levels : Levels) (parent offset : ℕ) (index : ℕ → ℕ) : Type 0 where
  pub parent_fits : parent < 2 ^ levels.first_bits
  pub word : levels.second_bits < 32
  pub entry :
      (local : ℕ)
      → suc local < 2 ^ levels.second_bits
      → index (encoded levels parent local) ≡ offset + local

pow-masked : (k : ℕ) → bit_and (2 ^ k) (2 ^ k - 1) ≡ 0
pow-masked zero = refl
pow-masked (suc k) = omega (
  arith,
  pow-suc 2 k,
  one-le-pow k 2,
  bit_and-digit (2 ^ suc k) (2 ^ suc k - 1),
  ap (λ n. bit_and n (n - 1)) {x = 2 ^ suc k / 2} {y = 2 ^ k} (omega (arith, pow-suc 2 k)),
  ap (bit_and (2 ^ suc k / 2)) {x = (2 ^ suc k - 1) / 2} {y = 2 ^ suc k / 2 - 1}
      (omega (arith, pow-suc 2 k, one-le-pow k 2)),
  pow-masked k,
)

differ : (a b : ℕ) → a ≢ b → (a == b) ≡ false
differ a b apart = elim (Bool-cases (a == b)) [
  | inl same ↦ absurd (apart ((==_iff _ _).0 same))
  | inr other ↦ other
]

shifted : (offset a b : ℕ) → (offset + a == offset + b) ≡ (a == b)
shifted offset a b = ground arith

module _ {levels : Levels} {parent offset : ℕ} {index : ℕ → ℕ}
    (zephyr : IsMultiLevel levels parent offset index) where
  -- The accelerator driver's macro, which masks where the serial driver's takes the remainder.
  gemm_irq_from_l2_lem :
      (local : ℕ)
      → suc local < 2 ^ levels.second_bits
      → local < 2 ^ 32
      → gemm_irq_from_l2 levels (encoded levels parent local) ≡ local
  unfolding gemm_irq_from_l2
  gemm_irq_from_l2_lem local fits small =
      let up : (suc local * 2 ^ levels.first_bits + parent) / 2 ^ levels.first_bits ≡ suc local =
        (let fits = zephyr.parent_fits in grind arith) in
      let masked : bit_and (suc local) (2 ^ levels.second_bits - 1) ≡ suc local =
        mask_lem (2 ^ levels.second_bits) (suc local) (omega arith) (pow-masked levels.second_bits)
        ∙ mod-eq_of_lt fits in
      ap (λ n. sub32 (bit_and n (2 ^ levels.second_bits - 1)) 1) up
      ∙ ap (λ n. sub32 n 1) masked
      ∙ omega arith

  -- The table after both drivers have connected their interrupts.
  abbrev pub wired : UartNode → GemmNode → IsrTable → IsrTable
  wired uart gemm t = gemm_irq_config (connect index) gemm (uart_irq_config (connect index) uart t)

  -- The serial port's and the accelerator's nodes, by their local numbers.
  pub record IsWired (uart : UartNode) (gemm : GemmNode) (tx rx batch dma : ℕ) : Type 0 where
    pub tx_number : uart.tx_irqn ≡ encoded levels parent tx
    pub rx_number : uart.rx_irqn ≡ encoded levels parent rx
    pub batch_number : gemm.batch_irqn ≡ encoded levels parent batch
    pub dma_number : gemm.dma_irqn ≡ encoded levels parent dma
    pub tx_fits : suc tx < 2 ^ levels.second_bits
    pub rx_fits : suc rx < 2 ^ levels.second_bits
    pub batch_fits : suc batch < 2 ^ levels.second_bits
    pub dma_fits : suc dma < 2 ^ levels.second_bits
    pub words : (tx < 2 ^ 32) × (rx < 2 ^ 32) × (batch < 2 ^ 32) × (dma < 2 ^ 32)
    pub apart : (tx ≢ rx) × (tx ≢ batch) × (rx ≢ batch)

  module _ {uart : UartNode} {gemm : GemmNode} {tx rx batch dma : ℕ}
      (nodes : IsWired uart gemm tx rx batch dma) where
    pub at_number :
        (irqn local : ℕ)
        → irqn ≡ encoded levels parent local
        → suc local < 2 ^ levels.second_bits
        → index irqn ≡ offset + local
    at_number irqn local number fits = ap index number ∙ zephyr.entry local fits

    wired_lem :
        (t : IsrTable) (local : ℕ)
        → wired uart gemm t (offset + local) ≡ (
            if batch == local
            then some gemm_isr
            else if rx == local
            then some uart_isr
            else if tx == local
            then some uart_isr
            else t (offset + local))
    unfolding uart_irq_config gemm_irq_config
    wired_lem t local =
        let to : (irqn number : ℕ)
            → irqn ≡ encoded levels parent number
            → suc number < 2 ^ levels.second_bits
            → (index irqn == offset + local) ≡ (number == local) =
          (λ irqn number e fits.
            ap (λ n. n == offset + local) (at_number irqn number e fits)
            ∙ shifted offset number local) in
        let to_batch = to gemm.batch_irqn batch nodes.batch_number nodes.batch_fits in
        let to_rx = to uart.rx_irqn rx nodes.rx_number nodes.rx_fits in
        let to_tx = to uart.tx_irqn tx nodes.tx_number nodes.tx_fits in
        λ i.
          if to_batch i
          then some gemm_isr
          else if to_rx i
          then some uart_isr
          else if to_tx i
          then some uart_isr
          else t (offset + local)

    numbers_lem :
        ((uart_cfg levels uart).tx_irq ≡ tx)
        × ((uart_cfg levels uart).rx_irq ≡ rx)
        × ((gemm_cfg levels gemm).batch_irq ≡ batch)
        × ((gemm_cfg levels gemm).dma_irq ≡ dma)
    numbers_lem =
        let (tx_word, rx_word, batch_word, dma_word) = nodes.words in
        let l1 = levels.first_bits in
        let l2 = levels.second_bits in
        (
          ap (irq_from_l2 l1 l2) nodes.tx_number
              ∙ irq_from_l2_lem l1 l2 parent tx zephyr.parent_fits nodes.tx_fits tx_word,
          ap (irq_from_l2 l1 l2) nodes.rx_number
              ∙ irq_from_l2_lem l1 l2 parent rx zephyr.parent_fits nodes.rx_fits rx_word,
          ap (gemm_irq_from_l2 levels) nodes.batch_number
              ∙ gemm_irq_from_l2_lem batch nodes.batch_fits batch_word,
          ap (gemm_irq_from_l2 levels) nodes.dma_number
              ∙ gemm_irq_from_l2_lem dma nodes.dma_fits dma_word,
        )

    -- If Zephyr numbers the interrupts of the aggregator as it documents, and the device tree gives the
    -- serial port and the accelerator three different local numbers for the lines that they
    -- connect, then the number that each driver recovers from the device tree for a line is the
    -- local one, and the entry of the table that the aggregator's handler calls for it holds that
    -- driver's handler. No other entry of the aggregator is changed. Local numbers are words.
    pub connected_lem :
        (t : IsrTable)
        → let table = wired uart gemm t in
          (((uart_cfg levels uart).tx_irq ≡ tx)
            × (table (offset + (uart_cfg levels uart).tx_irq) ≡ some uart_isr))
          × (((uart_cfg levels uart).rx_irq ≡ rx)
              × (table (offset + (uart_cfg levels uart).rx_irq) ≡ some uart_isr))
          × (((gemm_cfg levels gemm).batch_irq ≡ batch)
              × (table (offset + (gemm_cfg levels gemm).batch_irq) ≡ some gemm_isr))
          × ((gemm_cfg levels gemm).dma_irq ≡ dma)
          × ((local : ℕ)
              → tx ≢ local
              → rx ≢ local
              → batch ≢ local
              → table (offset + local) ≡ t (offset + local))
    connected_lem t =
        let table = wired uart gemm t in
        let (to_tx, to_rx, to_batch, to_dma) = numbers_lem in
        let (tx_rx, tx_batch, rx_batch) = nodes.apart in
        (
          (
            to_tx,
            ap (λ n. table (offset + n)) to_tx
                ∙ wired_lem t tx
                ∙ rw
                    (
                      differ batch tx (λ e. tx_batch (sym e)),
                      differ rx tx (λ e. tx_rx (sym e)),
                      ==_refl tx,
                    )
                    refl,
          ),
          (
            to_rx,
            ap (λ n. table (offset + n)) to_rx
                ∙ wired_lem t rx
                ∙ rw (differ batch rx (λ e. rx_batch (sym e)), ==_refl rx) refl,
          ),
          (
            to_batch,
            ap (λ n. table (offset + n)) to_batch ∙ wired_lem t batch ∙ rw (==_refl batch) refl,
          ),
          to_dma,
          (λ local not_tx not_rx not_batch.
              wired_lem t local
              ∙ rw (differ batch local not_batch, differ rx local not_rx, differ tx local not_tx)
                  refl),
        )
