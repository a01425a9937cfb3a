-- ===== src/Threads/Main/Tests.antt =====
-- The theorems about `main` of the accelerator sample at a concrete run.
use rv32imac_soc.Common.{true, false, []}
use rv32imac_soc.Threads.Tests.{polling, no_panels, no_tally}
use rv32imac_soc.Threads.Verdict.{lane_product}
use rv32imac_soc.Threads.Report.{Build}
use rv32imac_soc.Threads.Main.{Kernel, Work, Sample}

-- A board with one lane, whose accelerator multiplies.
abbrev board : Kernel
board = record {
  is_ready = true;
  passes = λ n es. 3;
  execution_cycles = λ t n es. n;
  dest_bytes = λ held es p x. lane_product held 64 p 0 0;
  threads = λ n es. [];
  msec = λ n. n;
  forever = 0;
}

abbrev full_build : Build
full_build = record { runtime_stats = true; monitor = true }

abbrev idle : Work
idle = record { work_done = 7; work_polls = 9; work_sink = 0; acc = 1 }

abbrev at_start : Sample
at_start = record {
  world = record polling {
    gemm = record polling.gemm { info = record { dim = 1; max_k = 255; panels = 2 } };
  };
  operands = no_panels;
  tally = no_tally;
  work = idle;
  work_run = false;
  dim = 0;
  k_len = 0;
  panels = 0;
  batch_timeout = 0;
  out = [];
}
