-- ===== src/Uart/Hw.antt =====
-- src/uart_mmio.v: the transmit and receive registers and the bus decode, a clock edge at a time. The
-- transmitter and the receiver behind it (src/uart_tx.v, src/uart_rx.v) are an environment: when the
-- one is ready, and which bytes the other delivers.
use rv32imac_soc.Common.{
  ℕ, ◌+◌, ◌/◌, ◌%◌, u8, ◌==◌, Bool, true, false, ◌&&◌, Option, none, some, if◌then◌else◌,
}
use rv32imac_soc.Bus.{Bus}

pub record Regs : Type 0 where
  pub tx_start : Bool
  pub tx_data : ℕ
  pub rx_holding : ℕ
  pub rx_has_data : Bool

abbrev pub reset : Regs
reset = record { tx_start = false; tx_data = 0; rx_holding = 0; rx_has_data = false }

-- What the CPU puts on the data bus in a cycle.
pub data Request : Type 0 where
  read : ℕ → Request
  write : ℕ → ℕ → Request

-- The address decode; the page is 0x4000_1XXX.
abbrev pub is_uart_addr : ℕ → Bool
is_uart_addr a = a / 0x1000 == 0x40001

abbrev pub is_tx_data : ℕ → Bool
is_tx_data a = is_uart_addr a && a % 0x1000 == 0x0

abbrev pub is_tx_status : ℕ → Bool
is_tx_status a = is_uart_addr a && a % 0x1000 == 0x4

abbrev pub is_rx_data : ℕ → Bool
is_rx_data a = is_uart_addr a && a % 0x1000 == 0x8

abbrev pub is_rx_status : ℕ → Bool
is_rx_status a = is_uart_addr a && a % 0x1000 == 0xC

-- A byte that arrives is latched in its own cycle, over whatever is held; the start pulse drops.
unfoldable pub latch : Option ℕ → Regs → Regs
latch none r = record r { tx_start = false }
latch (some byte) r = record r { tx_start = false; rx_holding = u8 byte; rx_has_data = true }

-- A read of RX_DATA consumes the held byte, unless a new one lands in the same cycle.
unfoldable pub consume : Option ℕ → Regs → Regs
consume none r = record r { rx_has_data = false }
consume (some byte) r = r

unfoldable pub step : Option ℕ → Request → Regs → Regs
step rx (write a v) r =
    if is_tx_data a then record (latch rx r) { tx_data = u8 v; tx_start = true } else latch rx r
step rx (read a) r = if is_rx_data a then consume rx (latch rx r) else latch rx r

-- The status bit on 32 wires.
abbrev pub flag : Bool → ℕ
flag b = if b then 1 else 0

-- d_rdata after a read cycle in which the transmitter's ready wire is `tx_ready`.
unfoldable pub rdata : Bool → ℕ → Regs → ℕ
rdata tx_ready a r =
    if is_tx_status a
    then flag tx_ready
    else if is_rx_data a
    then r.rx_holding
    else if is_rx_status a
    then flag r.rx_has_data
    else 0

-- The registers, and for each cycle whether the transmitter is ready and what byte is received.
pub record Board : Type 0 where
  pub regs : Regs
  pub tx_ready : ℕ → Bool
  pub rx : ℕ → Option ℕ
  pub now : ℕ

unfoldable pub tick : Request → Board → Board
tick q b = record b { regs = step (b.rx b.now) q b.regs; now = b.now + 1 }

abbrev pub bus : Bus Board
bus = record {
  read32 = λ a b. (rdata (b.tx_ready b.now) a b.regs, tick (read a) b);
  write32 = λ v a b. tick (write a v) b;
}
