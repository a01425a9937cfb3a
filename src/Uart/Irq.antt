-- ===== src/Uart/Irq.antt =====
-- The interrupt half of the serial driver: callbacks, status and the recovered interrupt numbers.
use rv32imac_soc.Common.{
  ℕ, suc, ◌+◌, ◌*◌, ◌/◌, ◌^◌, ◌<◌, ◌≡◌, ◌||◌, Option, none, some, if◌then◌else◌, arith,
}
use native.Mathlib.Nat.{mod-eq_of_lt}
use rv32imac_soc.Uart.{State, isr, irq_callback_set, irq_tx_enable, irq_is_pending, irq_from_l2}
use rv32imac_soc.Uart.Hw.{read, step, latch, rdata, Board, tick, bus}
use rv32imac_soc.Uart.Poll.{at_hw, is_some}

-- An interrupt is pending when the transmitter is ready in the cycle of the first status read, or
-- else a byte is held in the cycle of the second.
pub irq_is_pending_lem :
    (b : Board)
    → (irq_is_pending bus at_hw b).0
      ≡ (b.tx_ready b.now || (b.regs.rx_has_data || is_some (b.rx b.now)))
unfolding irq_is_pending tick step rdata latch
irq_is_pending_lem b = ground arith

-- A registered callback run with its argument.
abbrev pub called : Option (ℕ → Board → Board) → ℕ → Board → Board
called none arg b = b
called (some f) arg b = f arg b

-- The callback that was registered last is the one that runs, with its own argument, both on an
-- interrupt and at once when transmission is enabled on an idle transmitter; on a busy one
-- enabling runs nothing. Without a callback neither does anything.
pub irq_callback_lem :
    (cb : Option (ℕ → Board → Board)) (arg : ℕ) (s : State Board) (enable : ℕ → Board → Board)
    (b : Board)
    → let b' = enable 0 b in
      (isr (irq_callback_set cb arg s) b ≡ called cb arg b)
      × (irq_tx_enable bus at_hw enable (irq_callback_set cb arg s) b ≡ (
          if b'.tx_ready b'.now
          then called cb arg (tick (read 0x40001004) b')
          else tick (read 0x40001004) b'))
unfolding isr irq_callback_set irq_tx_enable rdata
irq_callback_lem none arg s enable b = ground arith
irq_callback_lem (some f) arg s enable b = ground arith

-- The macro recovers the local number from Zephyr's encoding of a second-level interrupt: the
-- local number plus one above the bits of the parent's number. The parent's number and the local
-- one plus one fit in their bits.
pub irq_from_l2_lem :
    (l1 l2 parent local : ℕ)
    → parent < 2 ^ l1
    → suc local < 2 ^ l2
    → local < 2 ^ 32
    → irq_from_l2 l1 l2 (suc local * 2 ^ l1 + parent) ≡ local
unfolding irq_from_l2
irq_from_l2_lem l1 l2 parent local hp hl small =
    let up : (suc local * 2 ^ l1 + parent) / 2 ^ l1 ≡ suc local = grind arith in
    rw (up, mod-eq_of_lt hl) (omega arith)
