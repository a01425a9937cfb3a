-- ===== src/Threads/Report.antt =====
-- zephyr/samples/gemm_threads/src/main.c: what `main` prints, a `Line` for each call of printk.
use rv32imac_soc.Common.{
  ℕ, ◌-◌, ◌/◌, u32, ltb, leb, ◌==◌, Bool, Option, none, some, Status, List, [], ◌∷◌, map,
  if◌then◌else◌,
}
use rv32imac_soc.Common.Int.{ℤ}
use rv32imac_soc.Gemm.World.{Stats}
use rv32imac_soc.Threads.{Mismatch, Tally, max_tiles}
use rv32imac_soc.Threads.Runner.{num_batches}
use rv32imac_soc.Threads.Sweep.{RunResult, Point, best_of}

-- A thread as the kernel describes it; no name is the empty one.
pub record Known : Type 0 where
  pub name : List ℕ
  pub priority : ℤ
  pub state : List ℕ
  pub cycles : ℕ

-- CONFIG_THREAD_RUNTIME_STATS and CONFIG_THREAD_MONITOR.
pub record Build : Type 0 where
  pub runtime_stats : Bool
  pub monitor : Bool

-- The columns of a row.
pub record Row : Type 0 where
  pub wall : ℕ
  pub sub_cpu : ℕ
  pub worker : ℕ
  pub cache : ℕ
  pub accel : ℕ
  pub wake : ℕ
  pub early : ℕ

pub data Mode : Type 0 where
  polled irq_500ms irq_forever : Mode

-- A call of printk, with its numbers; the parts of a message that are always printed together are one.
pub data Line : Type 0 where
  banner not_ready : Line
  geometry : ℕ → ℕ → ℕ → ℕ → Line
  worker_alone : ℕ → ℕ → ℕ → Line
  sweep_title : ℕ → Line
  header : Line
  batch_failed : ℕ → ℕ → Status → Line
  mismatch : Mismatch → Line
  row : ℕ → Mode → Row → Line
  irq_frees : ℕ → Line
  irq_costs : ℕ → Line
  wall_change : ℕ → ℕ → Bool → ℕ → Line
  cannot_judge net_faster : Line
  net_ahead : ℕ → ℕ → ℕ → Line
  net_behind : ℕ → ℕ → Line
  verdict_title no_verdict : Line
  pays_from : ℕ → Line
  polling_wins : ℕ → Line
  wrong_words : ℕ → ℕ → Line
  all_correct : ℕ → Line
  threads_title : Line
  thread : List ℕ → ℤ → List ℕ → ℕ → Line
  lean_note end_mark : Line

-- `isr_seen`, but never 0.
abbrev pub seen_of : Stats → ℕ
seen_of st = if st.isr_seen == 0 then 1 else st.isr_seen

unfoldable pub report_row : ℕ → Mode → RunResult → Line
report_row n_tiles mode r =
    let seen = seen_of r.st in
    row n_tiles mode (record {
      wall = r.wall / num_batches;
      sub_cpu = r.gemm_ran / num_batches;
      worker = r.worker_ran / num_batches;
      cache = r.st.flush_cycles / num_batches;
      accel = r.st.isr_cycles / seen;
      wake = r.st.resume_cycles / seen;
      early = r.st.already_done;
    })

abbrev pub report_header : Line
report_header = header

-- (unnamed)
abbrev pub unnamed : List ℕ
unnamed = 40 ∷ 117 ∷ 110 ∷ 110 ∷ 97 ∷ 109 ∷ 101 ∷ 100 ∷ 41 ∷ []

unfoldable pub shown_name : List ℕ → List ℕ
shown_name [] = unnamed
shown_name (c ∷ cs) = c ∷ cs

-- What the last two branches of a point print.
unfoldable pub net_line : Build → Point → Line
net_line build x =
    let best = best_of x in
    let p_wall = x.poll_run.wall / num_batches in
    let i_wall = best.wall / num_batches in
    let i_work = best.worker_ran / num_batches in
    if build.runtime_stats
    then if leb i_wall p_wall
      then net_faster
      else if ltb (i_wall - p_wall) i_work
      then net_ahead i_work (i_wall - p_wall) (i_work - (i_wall - p_wall))
      else net_behind i_work (i_wall - p_wall)
    else cannot_judge

unfoldable pub point_lines : Build → Point → List Line
point_lines build x =
    let best = best_of x in
    let p_sub = x.poll_run.gemm_ran / num_batches in
    let p_wall = x.poll_run.wall / num_batches in
    let i_sub = best.gemm_ran / num_batches in
    let i_wall = best.wall / num_batches in
    let rises = ltb p_wall i_wall in
    report_row x.tiles polled x.poll_run
    ∷ report_row x.tiles irq_500ms x.irq_run
    ∷ report_row x.tiles irq_forever x.fvr_run
    ∷ (if ltb i_sub p_sub then irq_frees (p_sub - i_sub) else irq_costs (i_sub - p_sub))
    ∷ wall_change p_wall i_wall rises (if rises then i_wall - p_wall else p_wall - i_wall)
    ∷ net_line build x
    ∷ []

-- What is printed of a batch that failed.
abbrev pub failure_lines : ℕ → Option (ℕ × Status) → List Line
failure_lines n_tiles none = []
failure_lines n_tiles (some (n, rc)) = batch_failed n_tiles n rc ∷ []

-- The verdict on the crossover, and on the result words.
unfoldable pub crossover_line : Build → ℕ → Line
crossover_line build crossover =
    if build.runtime_stats
    then if crossover == 0 then polling_wins max_tiles else pays_from crossover
    else no_verdict

unfoldable pub verdict_line : Tally → Line
verdict_line t =
    if t.gemm_bad == 0 then all_correct t.words_checked else wrong_words t.gemm_bad t.words_checked

module _ (build : Build) where
  unfoldable pub dump_thread : Known → Line
  dump_thread t =
      thread (shown_name t.name) t.priority t.state
        (if build.runtime_stats then u32 t.cycles else 0)

  unfoldable pub thread_table : List Known → List Line
  thread_table known =
      if build.monitor then threads_title ∷ map dump_thread known else lean_note ∷ []
