-- ===== src/Threads/Main/Passes.antt =====
-- `main` of the accelerator sample on an accelerator that works.
use rv32imac_soc.Gemm.Batch.Signals.{Signals}
use rv32imac_soc.Threads.Main.Going.{Going}
