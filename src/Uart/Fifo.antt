-- ===== src/Uart/Fifo.antt =====
-- The FIFO half of the serial driver: the calls that move at most one byte.
use rv32imac_soc.Common.{
  Bool-cases, inl, inr, ℕ, ◌≡◌, refl, u8, ◌==◌, false, ◌&&◌, not, none, some, List, ◌∷◌,
  if◌then◌else◌, arith,
}
use rv32imac_soc.Common.Int.{ℤ, pos, ltb_ℤ}
use rv32imac_soc.Bus.{Bus}
use rv32imac_soc.Uart.{Config, poll_in, fifo_fill, fifo_read}
use rv32imac_soc.Uart.Hw.{read, write, step, latch, rdata, Board, tick, bus}
use rv32imac_soc.Uart.Poll.{at_hw}

-- `fifo_fill` on an idle start line takes one byte exactly if it is offered one and the transmitter
-- is ready, and none otherwise; the start line goes up exactly if it takes one, and then that byte
-- is the first of the buffer.
pub fifo_fill_lem :
    (x : ℕ) (xs : List ℕ) (len : ℤ) (b : Board)
    → b.regs.tx_start ≡ false
    → (n : ℕ) × (b' : Board) × (fifo_fill bus at_hw (x ∷ xs) len b ≡ some (n, b'))
      × (n ≡ (if not (ltb_ℤ len (pos 1)) && b.tx_ready b.now then 1 else 0))
      × (b'.regs.tx_start ≡ (n == 1))
      × (b'.regs.tx_data ≡ (if n == 1 then u8 x else b.regs.tx_data))
unfolding fifo_fill tick step rdata latch
fifo_fill_lem x xs len b idle = elim (Bool-cases (ltb_ℤ len (pos 1))) [
  | inl none_offered ↦ (0, b, ground arith, ground arith, idle, refl)
  | inr offered ↦ elim (Bool-cases (b.tx_ready b.now)) [
    | inl ready ↦ (
      1,
      tick (write 0x40001000 x) (tick (read 0x40001004) b),
      ground arith,
      ground arith,
      refl,
      refl,
    )
    | inr busy ↦
        (0, tick (read 0x40001004) b, ground arith, ground arith, ground arith, ground arith)
  ]
]

-- With room for a byte `fifo_read` is `poll_in`, over any bus; without room it leaves the device
-- alone and returns nothing.
pub fifo_read_lem :
    {D : Type 0} (bus' : Bus D) (cfg : Config) (size : ℤ) (d : D)
    → fifo_read bus' cfg size d ≡ (if ltb_ℤ size (pos 1) then (none, d) else poll_in bus' cfg d)
unfolding fifo_read poll_in
fifo_read_lem bus' cfg size d = ground arith
