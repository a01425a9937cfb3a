-- ===== src/Threads/Main/Going.antt =====
-- The runs of the accelerator sample on an accelerator that works: every check finds every word right.
use rv32imac_soc.Common.{
  ℕ, zero, suc, ◌+◌, ◌*◌, ◌≤◌, ◌<◌, ◌≡◌, refl, sym, ap, ◌∙◌, subst, Bool, true, Bool-cases, inl,
  inr, none, some, ok, List, [], ◌++◌, arith,
}
use mathlib.Core.List.{append-nil, append_assoc}
use rv32imac_soc.Gemm.World.{Effect, Env, Info, Data, World}
use rv32imac_soc.Gemm.{Config, set_poll_mode, reset_stats}
use rv32imac_soc.Gemm.Batch.{script, Did}
use rv32imac_soc.Gemm.Batch.Wait.{Finishes}
use rv32imac_soc.Gemm.Batch.Signals.{Signals}
use rv32imac_soc.Gemm.Submit.{stagings}
use rv32imac_soc.Threads.{
  Tally, Buffers, Panels, panels_of, shift_out, stage_operands, check_results,
}
use rv32imac_soc.Threads.Check.{check_results-words}
use rv32imac_soc.Threads.Verdict.{IsProduct, IsPositive, staged-IsPositive, self_check_lem}
use rv32imac_soc.Threads.Runner.{tiles_from, times, HasRoom, gemm_runner-completes}
use rv32imac_soc.Threads.Sweep.{RunResult}
use rv32imac_soc.Threads.Report.{Build}
use rv32imac_soc.Threads.Main.{
  Thread, gemm_thread, work_thread, Kernel, Sample, joined, overlapped, check_end, start_run,
  end_run, gemm_thread_run, run_mode, thread_cycles,
}
use rv32imac_soc.Threads.Main.Loop.{IsSize, Carries}

squares : (k n d : ℕ) → k * d * d + n * d * d ≡ (k + n) * d * d
squares k n d = grind arith

module _ (env : Env) (cfg : Config) (os : Kernel) (build : Build) (buffers : Buffers) where
  -- What the accelerator is documented to do, for operand arrays of any contents: when the lines of the
  -- operands have been flushed, and batches of the same n tiles have completed after that, the last
  -- one with the invalidation of its destinations, the CPU reads in the destinations the products of
  -- what the arrays hold. The bytes of the lanes are those of numbers that are not negative.
  abbrev pub Delivers : Info → Type 0
  Delivers info =
      (held : Panels) (es : List Effect) (m n : ℕ)
      → n ≤ 8
      → IsPositive held info.dim 64
      → let tiles = tiles_from buffers 64 (panels_of info) n 0 in
        let batch = script cfg info tiles 0 true shift_out ok in
        IsProduct
          (os.dest_bytes held ((es ++ (stagings info tiles ++ times env cfg m batch)) ++ batch))
          held info.dim 64 n

  -- The sample is set up for the geometry and its operands are staged, and it has found no wrong word
  -- among k per square of lanes.
  pub record Going (info : Info) (k : ℕ) (s : Sample) : Type 0 where
    pub before : Panels
    pub staged : s.operands ≡ stage_operands info.dim 64 before
    pub geometry : s.world.gemm.info ≡ info
    pub dim : s.dim ≡ info.dim
    pub k_len : s.k_len ≡ 64
    pub panels : s.panels ≡ panels_of info
    pub bad : s.tally.gemm_bad ≡ 0
    pub words : s.tally.words_checked ≡ k * info.dim * info.dim

  times_last : (n : ℕ) (es : List Effect) → times env cfg (suc n) es ≡ times env cfg n es ++ es
  times_last zero es = append-nil es
  times_last (suc n) es = ap (λ fs. es ++ fs) (times_last n es) ∙ sym (append_assoc es _ es)

  -- The accounting leaves the driver's data alone.
  thread_cycles-gemm :
      (t : Thread) (w : World) → (thread_cycles env cfg os build buffers t w).1.gemm ≡ w.gemm
  unfolding thread_cycles
  thread_cycles-gemm t w = elim (Bool-cases build.runtime_stats) [
    | inl accounted ↦ rw accounted refl
    | inr lean ↦ rw lean refl
  ]

  start_run-Going :
      (info : Info) (poll : Bool) (timeout k : ℕ) (s : Sample)
      → Going info k s
      → let (w_before, t0, s1) = start_run env cfg os build buffers poll timeout s in
        Going info k s1
  unfolding start_run set_poll_mode reset_stats
  start_run-Going info poll timeout k s here = record {
    before = here.before;
    staged = here.staged;
    geometry =
        ap (λ (d : Data). d.info)
          (thread_cycles-gemm work_thread
            (reset_stats env cfg (set_poll_mode env cfg poll s.world)))
        ∙ here.geometry;
    dim = here.dim;
    k_len = here.k_len;
    panels = here.panels;
    bad = here.bad;
    words = here.words;
  }

  end_run-Going :
      (info : Info) (w_before t0 k : ℕ) (s : Sample)
      → Going info k s
      → Going info k (end_run env cfg os build buffers w_before t0 s).1
  unfolding end_run
  end_run-Going info w_before t0 k s here =
      let w1 = record s.world { asked = s.world.asked + 1 } in
      let w2 = (thread_cycles env cfg os build buffers gemm_thread w1).1 in
      record {
        before = here.before;
        staged = here.staged;
        geometry =
            ap (λ (d : Data). d.info)
              (thread_cycles-gemm work_thread w2 ∙ thread_cycles-gemm gemm_thread w1)
            ∙ here.geometry;
        dim = here.dim;
        k_len = here.k_len;
        panels = here.panels;
        bad = here.bad;
        words = here.words;
      }

  -- The check after sixteen completed batches finds every word right.
  module _ (info : Info) (lanes : (0 < info.dim) × (info.dim ≤ 8)) (delivers : Delivers info) where
    check-Going :
        (m k : ℕ) (s : Sample) (w w1 : World)
        → suc m ≤ 8
        → Going info k s
        → w.gemm.info ≡ info
        → let tiles = tiles_from buffers 64 (panels_of info) (suc m) 0 in
          Did
            (stagings info tiles ++ times env cfg 16 (script cfg info tiles 0 true shift_out ok))
            w
            w1
          → (s' : Sample) × (check_end env cfg os build buffers (suc m) s (some (none, w1))
              ≡ some s')
            × Going info (k + suc m) s'
    check-Going m k s w w1 few here kept did =
        let tiles = tiles_from buffers 64 (panels_of info) (suc m) 0 in
        let batch = script cfg info tiles 0 true shift_out ok in
        let so_far = w.effects ++ (stagings info tiles ++ times env cfg 15 batch) in
        let last : w1.effects ≡ so_far ++ batch =
          did.effects
          ∙ ap (λ es. w.effects ++ (stagings info tiles ++ es)) (times_last 15 batch)
          ∙ simp append_assoc in
        let held = stage_operands info.dim 64 here.before in
        let dest = os.dest_bytes s.operands w1.effects in
        let t : Tally = record s.tally { printed = [] } in
        let product : IsProduct dest (stage_operands s.dim 64 here.before) s.dim 64 (suc m) =
          subst
            (λ (g : Panels × List Effect × ℕ).
              IsProduct (os.dest_bytes g.0 g.1) (stage_operands g.2 64 here.before) g.2 64 (suc m))
            (λ i. (sym here.staged i, sym last i, sym here.dim i))
            (delivers held w.effects 15 (suc m) few
              (staged-IsPositive info.dim 64 here.before lanes.1)) in
        let right : (check_results dest s.dim (suc m) t).gemm_bad ≡ s.tally.gemm_bad =
          (self_check_lem s.dim (suc m) 64 here.before dest t (ground (arith, here.dim))
              (ground (arith, here.dim)) (omega arith) few (omega arith) product).1
            refl in
        (
          _,
          refl,
          record {
            before = here.before;
            staged = here.staged;
            geometry = did.info ∙ kept;
            dim = here.dim;
            k_len = here.k_len;
            panels = here.panels;
            bad = right ∙ here.bad;
            words =
                check_results-words dest s.dim (suc m) t
                ∙ rw (here.words, here.dim) (squares k (suc m) info.dim);
          },
        )

    one_run :
        (fuel : ℕ)
        → HasRoom env cfg 8
        → Finishes env cfg fuel
        → Signals env cfg
        → (poll : Bool) (m timeout k : ℕ) (s : Sample) → suc m ≤ 8
        → Going info k s
        → (r : RunResult × Sample) × (run_mode env cfg os build buffers fuel poll (suc m) timeout s
            ≡ some r)
          × Going info (k + suc m) r.1
    unfolding run_mode gemm_thread_run
    one_run fuel room ends signals poll m timeout k s few here =
        let (w_before, t0, s1) = start_run env cfg os build buffers poll timeout s in
        let started = start_run-Going info poll timeout k s here in
        let s2 = overlapped env cfg os build buffers s1 in
        let enough : HasRoom env cfg (suc m) = (λ q es. let r = room q es in omega arith) in
        let (w1, ran, did) =
          gemm_runner-completes env cfg fuel buffers s2.k_len s2.panels m s2.batch_timeout s2.world
            enough ends signals in
        let (s3, checked, going) =
          check-Going m k s2 s2.world w1 few
            (record {
              before = started.before;
              staged = started.staged;
              geometry = started.geometry;
              dim = started.dim;
              k_len = started.k_len;
              panels = started.panels;
              bad = started.bad;
              words = started.words;
            })
            started.geometry
            (subst
              (λ (g : Info × ℕ × ℕ).
                let tiles = tiles_from buffers g.1 g.2 (suc m) 0 in
                Did
                  (stagings g.0 tiles
                    ++ times env cfg 16 (script cfg g.0 tiles 0 true shift_out ok))
                  s2.world w1)
              (λ i. (started.geometry i, started.k_len i, started.panels i)) did) in
        (
          end_run env cfg os build buffers w_before t0 s3,
          ap
                (λ o.
                  joined env cfg os build buffers w_before t0
                    (check_end env cfg os build buffers (suc m) s2 o))
                ran
              ∙ ap (joined env cfg os build buffers w_before t0) checked,
          end_run-Going info w_before t0 (k + suc m) s3 going,
        )

    pub sound-Carries :
        (fuel : ℕ)
        → HasRoom env cfg 8
        → Finishes env cfg fuel
        → Signals env cfg
        → Carries env cfg os build buffers fuel (Going info)
    unfolding run_mode gemm_thread_run
    sound-Carries fuel room ends signals = record {
      run = λ poll n timeout k s size here.
          elim n
              as (λ n.
                IsSize n
                → (r : RunResult × Sample) × (run_mode env cfg os build buffers fuel poll n timeout
                      s
                    ≡ some r)
                  × Going info (k + n) r.1) [
                    | zero ↦ λ size. absurd (omega arith)
                    | suc m ↦ λ size. one_run fuel room ends signals poll m timeout k s size.1 here
                  ]
            size;
      printing = λ lines k s here. record {
        before = here.before;
        staged = here.staged;
        geometry = here.geometry;
        dim = here.dim;
        k_len = here.k_len;
        panels = here.panels;
        bad = here.bad;
        words = here.words;
      };
    }
