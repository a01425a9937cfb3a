-- ===== src/Threads/Main.antt =====
-- zephyr/samples/gemm_threads/src/main.c: `main`, the runs that it makes and the lines that it prints, on
-- the accelerator driver and a kernel.
pub mod Loop
pub mod Returns
pub mod Going
pub mod Worker
pub mod Passes
mod Tests
use rv32imac_soc.Common.{
  ℕ, zero, suc, ◌+◌, ◌-◌, ◌*◌, ◌/◌, ◌&&◌, u32, sub32, ltb, leb, ◌==◌, Bool, true, false, Option,
  none, some, Status, List, [], ◌∷◌, ◌++◌, map, if◌then◌else◌,
}
use rv32imac_soc.Common.Int.{ℤ}
use rv32imac_soc.Gemm.World.{Effect, Env, Info, World, Stats, ask}
use rv32imac_soc.Gemm.{Config, k_cycle_get_32, get_info, get_stats, reset_stats, set_poll_mode}
use rv32imac_soc.Threads.{
  Panels, Mismatch, Tally, Buffers, klen, max_tiles, churn, depth_of, panels_of, stage_operands,
  check_results,
}
use rv32imac_soc.Threads.Runner.{num_batches, gemm_runner}
use rv32imac_soc.Threads.Report.{
  Build, Known, Line, banner, crossover_line, end_mark, failure_lines, geometry, mismatch,
  not_ready, point_lines, report_header, sweep_title, thread, thread_table, verdict_line,
  verdict_title, worker_alone,
}
use rv32imac_soc.Threads.Sweep.{RunResult, Point, best_of, sweep}

-- The two threads that `main` starts.
pub data Thread : Type 0 where
  gemm_thread work_thread : Thread

-- What the kernel and the board answer beside the driver's environment: whether the device is ready,
-- the passes that the worker gets while `main` waits, the cycles that a thread has executed, the
-- bytes of the destinations as the CPU reads them, which depend on what is in the operand arrays and
-- on all effects so far, and the timeouts.
pub record Kernel : Type 0 where
  pub is_ready : Bool
  pub passes : ℕ → List Effect → ℕ
  pub execution_cycles : Thread → ℕ → List Effect → ℕ
  pub dest_bytes : Panels → List Effect → ℕ → ℕ → ℕ
  pub threads : ℕ → List Effect → List Known
  pub msec : ℕ → ℕ
  pub forever : ℕ

-- The counters of the worker and its local accumulator.
pub record Work : Type 0 where
  pub work_done : ℕ
  pub work_polls : ℕ
  pub work_sink : ℕ
  pub acc : ℕ

-- The statics of the file, the driver's world and what was printed.
pub record Sample : Type 0 where
  pub world : World
  pub operands : Panels
  pub tally : Tally
  pub work : Work
  pub work_run : Bool
  pub dim : ℕ
  pub k_len : ℕ
  pub panels : ℕ
  pub batch_timeout : ℕ
  pub out : List Line

abbrev pub print : List Line → Sample → Sample
print lines s = record s { out = s.out ++ lines }

-- A pass of the worker's loop.
unfoldable pub worker_pass : Bool → Work → Work
worker_pass work_run s =
    let s1 = record s { work_polls = u32 (s.work_polls + 1) } in
    let acc = churn s.acc in
    if work_run
    then record s1 { acc = acc; work_sink = acc; work_done = u32 (s.work_done + 1) }
    else s1

unfoldable pub worker : ℕ → Bool → Work → Work
worker zero work_run s = s
worker (suc n) work_run s = worker n work_run (worker_pass work_run s)

abbrev pub tile_sweep : List ℕ
tile_sweep = 1 ∷ 2 ∷ 4 ∷ 8 ∷ []

module _ (env : Env) (cfg : Config) (os : Kernel) (build : Build) (buffers : Buffers) where
  unfoldable pub thread_cycles : Thread → World → ℕ × World
  thread_cycles t w =
      if build.runtime_stats
      then (u32 (os.execution_cycles t w.asked w.effects), record w { asked = w.asked + 1 })
      else (0, w)

  -- `gemm_runner` after its batches: the failure is printed, and the check runs in any case.
  abbrev pub check_end : ℕ → Sample → Option (Option (ℕ × Status) × World) → Option Sample
  check_end n_tiles s batches = elim batches [
    | none ↦ none
    | some (failure, w) ↦
        let t =
          check_results (os.dest_bytes s.operands w.effects) s.dim n_tiles
            (record s.tally { printed = [] }) in
        some (record s {
          world = w;
          tally = t;
          out = s.out ++ (failure_lines n_tiles failure ++ map mismatch t.printed);
        })
  ]

  -- The other thread makes its passes while a call waits.
  abbrev pub overlapped : Sample → Sample
  overlapped s =
      let (passes, w) = ask os.passes s.world in
      record s { world = w; work = worker passes s.work_run s.work }

  -- The whole of `gemm_runner` as the thread that `run_mode` starts and joins.
  unfoldable pub gemm_thread_run : ℕ → ℕ → Sample → Option Sample
  gemm_thread_run fuel n_tiles s =
      let s1 = overlapped s in
      check_end n_tiles s1
        (gemm_runner env cfg fuel buffers s1.k_len s1.panels n_tiles s1.batch_timeout s1.world)

  -- `run_mode` up to the join, with the worker's cycles before and the start.
  unfoldable pub start_run : Bool → ℕ → Sample → ℕ × ℕ × Sample
  start_run poll timeout s =
      let w = reset_stats env cfg (set_poll_mode env cfg poll s.world) in
      let (w_before, w1) = thread_cycles work_thread w in
      let (t0, w2) = k_cycle_get_32 env cfg w1 in
      (w_before, t0, record s { world = w2; batch_timeout = timeout; work_run = true })

  -- `run_mode` after the join.
  unfoldable pub end_run : ℕ → ℕ → Sample → RunResult × Sample
  end_run w_before t0 s =
      let (t1, w1) = k_cycle_get_32 env cfg s.world in
      let (gemm_ran, w2) = thread_cycles gemm_thread w1 in
      let (w_after, w3) = thread_cycles work_thread w2 in
      (
        record {
          wall = sub32 t1 t0;
          gemm_ran = gemm_ran;
          worker_ran = sub32 w_after w_before;
          st = get_stats env cfg w3;
        },
        record s { world = w3; work_run = false },
      )

  abbrev pub joined : ℕ → ℕ → Option Sample → Option (RunResult × Sample)
  joined w_before t0 ended = elim ended [ none ↦ none | some s ↦ some (end_run w_before t0 s) ]

  unfoldable pub run_mode : ℕ → Bool → ℕ → ℕ → Sample → Option (RunResult × Sample)
  run_mode fuel poll n_tiles timeout s =
      let (w_before, t0, s1) = start_run poll timeout s in
      joined w_before t0 (gemm_thread_run fuel n_tiles s1)

  -- The three runs of a point.
  unfoldable pub run_point : ℕ → ℕ → Sample → Option (Point × Sample)
  run_point fuel n s = elim (run_mode fuel true n (os.msec 500) s) [
    | none ↦ none
    | some (poll_run, s1) ↦ elim (run_mode fuel false n (os.msec 500) s1) [
      | none ↦ none
      | some (irq_run, s2) ↦ elim (run_mode fuel false n os.forever s2) [
        | none ↦ none
        | some (fvr_run, s3) ↦
            some
              (record { tiles = n; poll_run = poll_run; irq_run = irq_run; fvr_run = fvr_run }, s3)
      ]
    ]
  ]

  -- The loop over the sweep, with the crossover so far.
  unfoldable pub run_sweep : ℕ → List ℕ → ℕ → Sample → Option (ℕ × Sample)
  run_sweep fuel [] crossover s = some (crossover, s)
  run_sweep fuel (n ∷ ns) crossover s = elim (run_point fuel n s) [
    | none ↦ none
    | some (x, s1) ↦
        run_sweep fuel ns (if build.runtime_stats then sweep (x ∷ []) crossover else crossover)
          (print (point_lines build x) s1)
  ]

  -- `main` from the geometry to the start of the worker.
  unfoldable pub set_up : Sample → Sample
  set_up s =
      let info = get_info env cfg s.world in
      let k_len = depth_of info in
      let panels = panels_of info in
      print (geometry info.dim info.max_k info.panels k_len ∷ []) (record s {
        dim = info.dim;
        k_len = k_len;
        panels = panels;
        operands = stage_operands info.dim k_len s.operands;
      })

  -- The worker alone for 200 ms.
  unfoldable pub measure_alone : Sample → Sample
  measure_alone s =
      let fresh = record s.work { work_done = 0; work_polls = 0 } in
      let (t0, w1) = k_cycle_get_32 env cfg s.world in
      let (passes, w2) = ask os.passes w1 in
      let work = worker passes true fresh in
      let (t1, w3) = k_cycle_get_32 env cfg w2 in
      let cycles = sub32 t1 t0 in
      let baseline = work.work_done in
      print
        (worker_alone baseline cycles (if baseline == 0 then 0 else cycles / baseline)
          ∷ sweep_title num_batches
          ∷ report_header
          ∷ [])
        (record s { world = w3; work = work; work_run = false })

  -- What is printed after the sweep.
  unfoldable pub last_lines : ℕ → Sample → List Line
  last_lines crossover s =
      verdict_title
      ∷ crossover_line build crossover
      ∷ verdict_line s.tally
      ∷ (thread_table build (os.threads s.world.asked s.world.effects) ++ (end_mark ∷ []))

  -- `main` after the sweep.
  abbrev pub finish : Option (ℕ × Sample) → Option Sample
  finish swept = elim swept [
    | none ↦ none
    | some (crossover, s) ↦ some (print (last_lines crossover s) s)
  ]

  -- Whether staging and checking stay inside a_panel and b_panel, of 16 * KLEN bytes, and dest, of
  -- 16 * 16.
  unfoldable pub fits_arrays : Info → Bool
  fits_arrays info =
      leb (info.dim * depth_of info) (16 * klen) && leb (info.dim * info.dim) (16 * 16)

  -- An access outside of the arrays has no result in C, so the program has none here.
  unfoldable pub main : ℕ → Sample → Option Sample
  main fuel s =
      let s1 = print (banner ∷ []) s in
      if os.is_ready
      then (if fits_arrays (get_info env cfg s1.world)
          then finish (run_sweep fuel tile_sweep 0 (measure_alone (set_up s1)))
          else none)
      else some (print (not_ready ∷ []) s1)
