-- ===== src/Wiring/Boot/Tests.antt =====
-- The start of the drivers at concrete nodes and priorities.
use rv32imac_soc.Common.{false}
use rv32imac_soc.Intc.Tests.{calm_board}
use rv32imac_soc.Gemm.Tests.{polling}
use rv32imac_soc.Wiring.Tests.{empty_table}
use rv32imac_soc.Wiring.Boot.{Soc, Priorities}

-- The defaults of the build: the aggregator before the serial port.
abbrev defaults : Priorities
defaults = record { serial = 50; intc = 0; gemm = 60 }

abbrev off : Soc
off = record {
  board = calm_board;
  table = empty_table;
  enabled = λ n. false;
  accelerator = polling;
}
