-- ===== src/Uart/Lines.antt =====
-- The interrupt outputs of src/uart_mmio.v, and their way to the aggregator in src/cpu.v, a clock edge
-- at a time.
use rv32imac_soc.Common.{
  ℕ, zero, suc, ◌+◌, ◌*◌, ◌^◌, ◌<◌, ◌≡◌, ap, ◌∙◌, is_set, Bool, true, false, ◌&&◌, ◌||◌, not,
  Option, arith,
}
use rv32imac_soc.Intc.Hw.{Regs, step, reset}
use rv32imac_soc.Intc.Wires.{IsValid, clears, pending-step, prev-step, step-IsValid}
use rv32imac_soc.Uart.Hw.{flag}
use rv32imac_soc.Uart.Poll.{is_some}

-- What a cycle brings: the transmitter's ready wire, the receiver's byte, the two lines of the
-- accelerator, and the aggregator's side of the bus.
pub record Cycle : Type 0 where
  pub tx_ready : Bool
  pub rx : Option ℕ
  pub irq_batch : Bool
  pub irq_dma : Bool
  pub request : rv32imac_soc.Intc.Hw.Request

-- The edge detector of the transmitter and the aggregator.
pub record Lines : Type 0 where
  pub tx_ready_prev : Bool
  pub tx_irq : Bool
  pub intc : Regs

-- Under rst.
abbrev pub lines_reset : Lines
lines_reset = record { tx_ready_prev = true; tx_irq = false; intc = reset }

abbrev pub irq_in : Cycle → Bool → ℕ
irq_in c tx_irq = 8 * flag c.irq_dma + 4 * flag c.irq_batch + 2 * flag (is_some c.rx) + flag tx_irq

unfoldable pub edge : Cycle → Lines → Lines
edge c s = record {
  tx_ready_prev = c.tx_ready;
  tx_irq = c.tx_ready && not s.tx_ready_prev;
  intc = step (irq_in c s.tx_irq) c.request s.intc;
}

-- n cycles from the one numbered `at`.
unfoldable pub edges : (ℕ → Cycle) → ℕ → ℕ → Lines → Lines
edges cycles at zero s = s
edges cycles at (suc n) s = edges cycles (at + 1) n (edge (cycles at) s)

-- The end of a byte in n cycles: ready, and not so in the cycle before.
unfoldable pub any_sent : (ℕ → Cycle) → ℕ → ℕ → Bool → Bool
any_sent cycles at zero prev = false
any_sent cycles at (suc n) prev =
    ((cycles at).tx_ready && not prev) || any_sent cycles (at + 1) n (cycles at).tx_ready

-- The arrival of a byte in n cycles.
unfoldable pub any_received : (ℕ → Cycle) → ℕ → ℕ → Bool
any_received cycles at zero = false
any_received cycles at (suc n) = is_some (cycles at).rx || any_received cycles (at + 1) n

-- Between two cycles: the pulse of the transmitter is one cycle long, and an arrival that the
-- aggregator has just seen is pending.
pub record IsSettled (s : Lines) : Type 0 where
  pub regs : IsValid s.intc
  pub pulse : (s.tx_irq && not s.tx_ready_prev) ≡ false
  pub once : (s.tx_irq && is_set s.intc.irq_in_prev 0) ≡ false
  pub seen : (is_set s.intc.irq_in_prev 1 && not (is_set s.intc.pending 1)) ≡ false

flag_lt : (b : Bool) → flag b < 2
flag_lt b = ground arith

wires :
    (c : Cycle) (tx : Bool)
    → (irq_in c tx < 2 ^ 8)
      × (is_set (irq_in c tx) 0 ≡ tx)
      × (is_set (irq_in c tx) 1 ≡ is_some c.rx)
wires c tx = (ground arith, ground arith, ground arith)

-- The bus does not write a one to the two pending bits.
abbrev pub IsKept : Cycle → Type 0
IsKept c = (clears c.request 0 ≡ false) × (clears c.request 1 ≡ false)

edge_pending :
    (c : Cycle) (s : Lines)
    → IsKept c
    → IsSettled s
    → (is_set (edge c s).intc.pending 0 ≡ (is_set s.intc.pending 0 || s.tx_irq))
      × (is_set (edge c s).intc.pending 1 ≡ (is_set s.intc.pending 1 || is_some c.rx))
unfolding edge
edge_pending c s kept ok =
    let (small, tx, rx) = wires c s.tx_irq in
    (
      ground (
        arith,
        pending-step (irq_in c s.tx_irq) c.request s.intc 0 ok.regs (omega arith),
        tx,
        kept.0,
        ok.once,
      ),
      ground (
        arith,
        pending-step (irq_in c s.tx_irq) c.request s.intc 1 ok.regs (omega arith),
        rx,
        kept.1,
        ok.seen,
      ),
    )

edge-IsSettled : (c : Cycle) (s : Lines) → IsKept c → IsSettled s → IsSettled (edge c s)
unfolding edge
edge-IsSettled c s kept ok =
    let (small, tx, rx) = wires c s.tx_irq in
    let prev = prev-step (irq_in c s.tx_irq) c.request s.intc in
    record {
      regs = step-IsValid (irq_in c s.tx_irq) c.request s.intc ok.regs small;
      pulse = ground arith;
      once = ground (arith, ap (λ w. is_set w 0) prev, tx, ok.pulse);
      seen = ground (arith, ap (λ w. is_set w 1) prev, rx, (edge_pending c s kept ok).1);
    }

-- While the bus clears neither pending bit, no interrupt of the serial port is lost and none is made up.
-- At the start the aggregator's registers hold eight bits, the pulse of the transmitter is not up
-- without its ready wire nor seen already, and an arrival that the aggregator saw in the last cycle is
-- still pending. Then over n + 1 cycles without a clear the pending bit of the transmitter is set at the end exactly if it was, the
-- pulse was up, or the transmitter became ready in one of the first n cycles; that of the receiver
-- exactly if it was or a byte arrived in one of the n + 1.
pub edges-pending :
    (cycles : ℕ → Cycle) (at n : ℕ) (s : Lines)
    → IsSettled s
    → ((k : ℕ) → IsKept (cycles k))
    → (is_set (edges cycles at (suc n) s).intc.pending 0
        ≡ (is_set s.intc.pending 0 || (s.tx_irq || any_sent cycles at n s.tx_ready_prev)))
      × (is_set (edges cycles at (suc n) s).intc.pending 1
          ≡ (is_set s.intc.pending 1 || any_received cycles at (suc n)))
unfolding edges any_sent any_received edge
edges-pending cycles at zero s ok kept =
    let (tx, rx) = edge_pending (cycles at) s (kept at) ok in
    (ground (arith, tx), ground (arith, rx))
edges-pending cycles at (suc n) s ok kept =
    let (tx, rx) = edge_pending (cycles at) s (kept at) ok in
    let (sent, received) =
      edges-pending cycles (at + 1) n (edge (cycles at) s)
        (edge-IsSettled (cycles at) s (kept at) ok) kept in
    (sent ∙ ground (arith, tx), received ∙ ground (arith, rx))
