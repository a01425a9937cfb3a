-- ===== src/Port/Tests.antt =====
-- The theorems about the port of CoreMark on small devices.
use rv32imac_soc.Common.{ℕ, ◌≡◌, refl, ◌%◌, ◌==◌, false, none, u32, List, [], ◌∷◌, ◌++◌}
use rv32imac_soc.Bus.{Bus}
use rv32imac_soc.Uart.{poll_out}
use rv32imac_soc.Uart.Hw.{Board}
use rv32imac_soc.Uart.Poll.{at_hw}
use rv32imac_soc.Port.{Times, uart_send_char}
use rv32imac_soc.Port.Clock.{IsClint}
use rv32imac_soc.Port.Console.{uart_send_char_lem}

-- A timer alone.
abbrev timer : Bus ℕ
timer = record { read32 = λ addr t. (u32 t, t); write32 = λ v addr t. t }

timer-IsClint : IsClint timer (λ t. t)
timer-IsClint = record { low_word = λ t. refl }

abbrev no_times : Times
no_times = record { start_time_val = 0; stop_time_val = 0 }

-- A transmitter that is always ready.
abbrev quick : Bus (List ℕ)
quick = record { read32 = λ addr out. (1, out); write32 = λ v addr out. out ++ (v ∷ []) }

uart_send_char_example : uart_send_char quick 3 328 [] ≡ poll_out quick at_hw 3 72 []
uart_send_char_example = uart_send_char_lem quick 3 328 []

-- "Hi", a NUL, and a byte after it.
abbrev hi_text : List ℕ
hi_text = 72 ∷ 105 ∷ 0 ∷ 33 ∷ []

-- A board whose transmitter is ready in every third cycle.
abbrev slow_board : Board
slow_board = record {
  regs = record { tx_start = false; tx_data = 0; rx_holding = 0; rx_has_data = false };
  tx_ready = λ t. t % 3 == 0;
  rx = λ t. none;
  now = 0;
}
