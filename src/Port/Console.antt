-- ===== src/Port/Console.antt =====
-- The console of CoreMark on the board.
use rv32imac_soc.Common.{
  ℕ, zero, suc, ◌+◌, ◌<◌, ◌≡◌, refl, ap, Bool, u8, ◌==◌, bit_and, some, List, [], ◌∷◌, true,
  if◌then◌else◌,
}
use rv32imac_soc.Bus.{Bus}
use rv32imac_soc.Uart.{poll_out}
use rv32imac_soc.Uart.Hw.{Board}
use rv32imac_soc.Uart.Poll.{at_hw, Started}
use rv32imac_soc.Port.{uart_send_char}

module _ {D : Type 0} (any_bus : Bus D) where
  -- The benchmark sends a character exactly as the serial driver of Zephyr does: the two are one
  -- function of the device, for every bus and every fuel, but for the cut to eight bits.
  pub uart_send_char_lem :
      (fuel c : ℕ) (d : D) → uart_send_char any_bus fuel c d ≡ poll_out any_bus at_hw fuel (u8 c) d
  unfolding uart_send_char poll_out
  uart_send_char_lem zero c d = refl
  uart_send_char_lem (suc fuel) c d =
      let (status, d') = any_bus.read32 0x40001004 d in
      ap (λ o. if bit_and status 1 == 0 then o else some (any_bus.write32 (u8 c) 0x40001000 d'))
        (uart_send_char_lem fuel c d')

-- The bytes before the first NUL.
abbrev pub until_nul : List ℕ → List ℕ
until_nul [] = []
until_nul (c ∷ cs) = if c == 0 then [] else c ∷ until_nul cs

-- The transmission of the characters, one after the other: each is started in the cycle after one in
-- which the transmitter was seen ready, on the board of src/uart_mmio.v.
pub data Sends : List ℕ → Board → Board → Type 0 where
  silent : {b : Board} → Sends [] b b
  sends :
      {c : ℕ} {cs : List ℕ} {b b1 b' : Board} (k : ℕ)
      → b.tx_ready (b.now + k) ≡ true
      → Started c (b.now + k + 2) b1
      → Sends cs b1 b'
      → Sends (c ∷ cs) b b'

-- The transmitter is ready within `fuel` cycles of any cycle.
abbrev pub IsServed : ℕ → (ℕ → Bool) → Type 0
IsServed fuel tx_ready = (t : ℕ) → (k : ℕ) × (k < fuel) × (tx_ready (t + k) ≡ true)

-- A character that the board has started, with the time of the transmitter as it was.
abbrev Sent : ℕ → Board → Board → Type 0
Sent c b b1 =
    (k : ℕ) × (b.tx_ready (b.now + k) ≡ true)
    × Started c (b.now + k + 2) b1
    × (b1.tx_ready ≡ b.tx_ready)
