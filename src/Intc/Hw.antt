-- ===== src/Intc/Hw.antt =====
-- src/intc.v: the enable mask, the edge-latched pending register and the bus decode, a clock edge at
-- a time; and the controller as a bus, with the interrupt lines chosen by an environment.
use rv32imac_soc.Common.{
  ℕ, ◌+◌, ◌/◌, ◌%◌, bit_and, bit_or, not8, u8, ◌==◌, Bool, ◌&&◌, not, if◌then◌else◌,
}
use rv32imac_soc.Bus.{Bus}

pub record Regs : Type 0 where
  pub enable : ℕ
  pub pending : ℕ
  pub irq_in_prev : ℕ

-- What the CPU puts on the data bus in a cycle.
pub data Request : Type 0 where
  quiet : Request
  read : ℕ → Request
  write : ℕ → ℕ → Request

-- The address decode of the module; the page is 0x0000_4XXX.
abbrev pub is_intc_addr : ℕ → Bool
is_intc_addr a = a / 0x1000 == 0x4

abbrev pub is_enable_reg : ℕ → Bool
is_enable_reg a = is_intc_addr a && a % 0x1000 == 0x0

abbrev pub is_pending_reg : ℕ → Bool
is_pending_reg a = is_intc_addr a && a % 0x1000 == 0x4

-- irq_edge: the lines that rise in this cycle.
abbrev pub irq_edge : ℕ → Regs → ℕ
irq_edge irq_in r = bit_and irq_in (not8 r.irq_in_prev)

-- The registers after a clock edge without a bus write.
abbrev pub latch : ℕ → Regs → Regs
latch irq_in r = record r { pending = bit_or r.pending (irq_edge irq_in r); irq_in_prev = irq_in }

unfoldable pub step : ℕ → Request → Regs → Regs
step irq_in quiet r = latch irq_in r
step irq_in (read a) r = latch irq_in r
step irq_in (write a v) r =
    if is_enable_reg a
    then record (latch irq_in r) { enable = u8 v }
    else if is_pending_reg a
    then record (latch irq_in r) {
      pending = bit_and (bit_or r.pending (irq_edge irq_in r)) (not8 (u8 v));
    }
    else latch irq_in r

-- d_rdata after a read cycle.
unfoldable pub rdata : ℕ → Regs → ℕ
rdata a r = if is_enable_reg a then r.enable else if is_pending_reg a then r.pending else 0

-- irq_out, the line to mip.MEIP.
unfoldable pub irq_out : Regs → Bool
irq_out r = not (bit_and r.pending r.enable == 0)

-- The registers under rst.
abbrev pub reset : Regs
reset = record { enable = 0; pending = 0; irq_in_prev = 0 }

-- The controller and its surroundings: what the interrupt lines are in each cycle.
pub record Board : Type 0 where
  pub regs : Regs
  pub lines : ℕ → ℕ
  pub now : ℕ

unfoldable pub tick : Request → Board → Board
tick q b = record b { regs = step (u8 (b.lines b.now)) q b.regs; now = b.now + 1 }

-- The controller as seen by a CPU that accesses it in successive cycles. Intc.Pauses has the bus with
-- the quiet cycles that src/cpu.v leaves between two accesses.
abbrev pub bus : Bus Board
bus = record {
  read32 = λ a b. (rdata a b.regs, tick (read a) b);
  write32 = λ v a b. tick (write a v) b;
}
