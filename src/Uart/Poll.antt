-- ===== src/Uart/Poll.antt =====
-- The polled half of the serial driver on the registers of src/uart_mmio.v.
use rv32imac_soc.Common.{
  ℕ, zero, suc, ◌+◌, ◌<◌, ◌^◌, ◌≡◌, refl, ap, ◌∙◌, u8, Bool, true, false, Option, none, some,
  if◌then◌else◌, arith,
}
use rv32imac_soc.Uart.{Config, poll_out, poll_in}
use rv32imac_soc.Uart.Hw.{read, write, step, latch, consume, rdata, Board, tick, bus}

-- The window in the device tree, with the two local interrupt numbers.
abbrev pub at_hw : Config
at_hw = record { base = 0x40001000; tx_irq = 0; rx_irq = 1 }

abbrev pub status_read : Board → Board
status_read b = tick (read 0x40001004) b

pub poll_out_ready :
    (fuel c : ℕ) (b : Board)
    → b.tx_ready b.now ≡ true
    → poll_out bus at_hw (suc fuel) c b ≡ some (tick (write 0x40001000 c) (status_read b))
unfolding poll_out rdata
poll_out_ready fuel c b h = rw h

pub poll_out_busy :
    (fuel c : ℕ) (b : Board)
    → b.tx_ready b.now ≡ false
    → poll_out bus at_hw (suc fuel) c b ≡ poll_out bus at_hw fuel c (status_read b)
unfolding poll_out rdata
poll_out_busy fuel c b h = rw h

-- `b'` is the board with the transmission of c started.
pub record Started (c : ℕ) (t : ℕ) (b' : Board) : Type 0 where
  pub pulse : b'.regs.tx_start ≡ true
  pub byte : b'.regs.tx_data ≡ u8 c
  pub time : b'.now ≡ t

pub write-Started : (c : ℕ) (b : Board) → Started c (b.now + 1) (tick (write 0x40001000 c) b)
unfolding tick step
write-Started c b = record { pulse = refl; byte = refl; time = refl }

pub Started-at : (c : ℕ) {s t : ℕ} {b' : Board} → s ≡ t → Started c s b' → Started c t b'
Started-at c e st = record { pulse = st.pulse; byte = st.byte; time = st.time ∙ e }

pub now-status_read : (b : Board) → (status_read b).now ≡ b.now + 1
unfolding tick
now-status_read b = refl

pub later :
    (b : Board) (j : ℕ)
    → (status_read b).tx_ready ((status_read b).now + j) ≡ b.tx_ready (b.now + suc j)
unfolding tick
later b j = ap b.tx_ready (omega arith)

-- When the transmitter becomes ready in cycle k of the spin and not before, `poll_out` with fuel
-- for more than k rounds returns, and it has started the transmission of the byte in the cycle
-- after the one in which it saw the transmitter ready: never while it was busy.
pub poll_out_lem :
    (k fuel c : ℕ) (b : Board)
    → k < fuel
    → ((j : ℕ) → j < k → b.tx_ready (b.now + j) ≡ false)
    → b.tx_ready (b.now + k) ≡ true
    → (b' : Board) × (poll_out bus at_hw fuel c b ≡ some b') × Started c (b.now + k + 2) b'
poll_out_lem k zero c b h busy ready = absurd (omega arith)
poll_out_lem zero (suc fuel) c b h busy ready =
    let now_ready : b.tx_ready b.now ≡ true =
      ap b.tx_ready {x = b.now} {y = b.now + 0} (omega arith) ∙ ready in
    (
      tick (write 0x40001000 c) (status_read b),
      poll_out_ready fuel c b now_ready,
      Started-at c (omega (arith, now-status_read b)) (write-Started c (status_read b)),
    )
poll_out_lem (suc k) (suc fuel) c b h busy ready =
    let now_busy : b.tx_ready b.now ≡ false =
      ap b.tx_ready {x = b.now} {y = b.now + 0} (omega arith) ∙ busy 0 (omega arith) in
    let (b', returns, started) =
      poll_out_lem k fuel c (status_read b) (omega arith)
        (λ j lt. later b j ∙ busy (suc j) (omega arith)) (later b k ∙ ready) in
    (
      b',
      poll_out_busy fuel c b now_busy ∙ returns,
      Started-at c (omega (arith, now-status_read b)) started,
    )

-- While the transmitter stays busy nothing is written: the fuel runs out in the spin.
pub poll_out_starves :
    (fuel c : ℕ) (b : Board)
    → ((j : ℕ) → j < fuel → b.tx_ready (b.now + j) ≡ false)
    → poll_out bus at_hw fuel c b ≡ none
poll_out_starves zero c b busy = unfold poll_out in refl
poll_out_starves (suc fuel) c b busy =
    poll_out_busy fuel c b
      (ap b.tx_ready {x = b.now} {y = b.now + 0} (omega arith) ∙ busy 0 (omega arith))
    ∙ poll_out_starves fuel c (status_read b) (λ j lt. later b j ∙ busy (suc j) (omega arith))

-- What RX holds in a cycle, a byte that lands in that cycle included.
abbrev pub landed : Option ℕ → ℕ → ℕ
landed none held = held
landed (some byte) held = u8 byte

abbrev pub is_some : Option ℕ → Bool
is_some none = false
is_some (some byte) = true

-- `poll_in` fails exactly if no byte is held. Otherwise it returns the held byte, or the one that
-- landed on top of it in the cycle of the status read, and leaves a byte to be read only if one
-- lands in the cycle of the data read. The held byte is of eight bits.
pub poll_in_lem :
    (b : Board)
    → b.regs.rx_holding < 2 ^ 8
    → ((poll_in bus at_hw b).0
        ≡ (if b.regs.rx_has_data then some (landed (b.rx b.now) b.regs.rx_holding) else none))
      × ((poll_in bus at_hw b).1.regs.rx_has_data
          ≡ (if b.regs.rx_has_data then is_some (b.rx (b.now + 1)) else is_some (b.rx b.now)))
unfolding poll_in tick step rdata latch consume
poll_in_lem b small = ground arith
