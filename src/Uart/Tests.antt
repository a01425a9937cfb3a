-- ===== src/Uart/Tests.antt =====
-- The theorems about the serial driver at concrete boards.
use rv32imac_soc.Common.{
  ℕ, ◌+◌, ◌≡◌, refl, is_set, leb, ◌||◌, ◌==◌, true, false, none, some, if◌then◌else◌, arith,
}
use rv32imac_soc.Uart.{State, poll_out, poll_in}
use rv32imac_soc.Uart.Hw.{Board, bus}
use rv32imac_soc.Uart.Poll.{at_hw, Started, landed, is_some, poll_out_lem, poll_in_lem}
use rv32imac_soc.Uart.Lines.{
  Cycle, lines_reset, edges, any_sent, any_received, IsSettled, edges-pending,
}
use rv32imac_soc.Intc.Hw.{quiet}

-- The transmitter is busy until time 2; a byte is held, and another lands at time 1.
abbrev some_board : Board
some_board = record {
  regs = record { tx_start = false; tx_data = 0; rx_holding = 65; rx_has_data = true };
  tx_ready = λ t. leb 2 t;
  rx = λ t. if t == 1 then some 66 else none;
  now = 0;
}

poll_out_example : (b' : Board) × (poll_out bus at_hw 5 72 some_board ≡ some b') × Started 72 4 b'
poll_out_example = poll_out_lem 2 5 72 some_board (omega arith) (λ j lt. ground arith) refl

poll_in_example :
    ((poll_in bus at_hw some_board).0 ≡ some (landed none 65))
    × ((poll_in bus at_hw some_board).1.regs.rx_has_data ≡ is_some (some 66))
poll_in_example = poll_in_lem some_board (omega arith)

-- A callback that shows its argument, and an enable that takes a cycle.
abbrev mark : ℕ → Board → Board
mark arg b = record b { now = b.now + arg }

abbrev no_data : State Board
no_data = record { cb = none; cb_data = 0 }

-- The transmitter is busy up to the fifth cycle; a byte arrives in the second.
abbrev some_cycles : ℕ → Cycle
some_cycles n = record {
  tx_ready = n == 5;
  rx = if n == 2 then some 65 else none;
  irq_batch = false;
  irq_dma = false;
  request = quiet;
}

lines_reset-IsSettled : IsSettled lines_reset
lines_reset-IsSettled = record {
  regs = record {
    enable_small = omega arith;
    pending_small = omega arith;
    prev_small = omega arith;
  };
  pulse = refl;
  once = refl;
  seen = refl;
}

edges-pending_example :
    (is_set (edges some_cycles 0 7 lines_reset).intc.pending 0
      ≡ (false || (false || any_sent some_cycles 0 6 true)))
    × (is_set (edges some_cycles 0 7 lines_reset).intc.pending 1
        ≡ (false || any_received some_cycles 0 7))
edges-pending_example =
    edges-pending some_cycles 0 6 lines_reset lines_reset-IsSettled (λ k. (refl, refl))
