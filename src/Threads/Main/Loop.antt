-- ===== src/Threads/Main/Loop.antt =====
-- `main` of the accelerator sample: how its runs compose, for any claim that every run keeps.
use rv32imac_soc.Common.{
  ℕ, ◌+◌, ◌*◌, ◌≤◌, ◌<◌, ◌≡◌, refl, sym, ap, ◌∙◌, subst, Bool, true, false, some, List, [], ◌∷◌,
  map, All, none, if◌then◌else◌, arith,
}
use native.Mathlib.Nat.{mul-le-mul}
use rv32imac_soc.Gemm.World.{Env, Info}
use rv32imac_soc.Gemm.{Config, get_info}
use rv32imac_soc.Threads.{Buffers, depth_of}
use rv32imac_soc.Threads.Sweep.{RunResult, Point, sweep, first_paying, sweep_lem, depth_of-min}
use rv32imac_soc.Threads.Report.{Line, banner, not_ready, Build, point_lines}
use rv32imac_soc.Threads.Main.{
  Kernel, Sample, print, tile_sweep, run_mode, run_point, run_sweep, set_up, measure_alone,
  last_lines, finish, fits_arrays, main,
}

abbrev pub total : List ℕ → ℕ
total [] = 0
total (n ∷ ns) = n + total ns

-- The sizes that the sample supports.
abbrev pub IsSize : ℕ → Type 0
IsSize n = (0 < n) × (n ≤ 8)

same_branches : (b : Bool) (c : ℕ) → (if b then c else c) ≡ c
same_branches true c = refl
same_branches false c = refl

sizes_of :
    (xs : List Point)
    → All IsSize (map (λ (x : Point). x.tiles) xs)
    → All (λ (x : Point). 0 < x.tiles) xs
sizes_of [] h = tt
sizes_of (x ∷ xs) h = (h.0.0, sizes_of xs h.1)

crossover_step :
    (b : Bool) (x : Point) (xs : List Point) (c : ℕ)
    → let c' = if b then sweep (x ∷ []) c else c in
      (if b then sweep xs c' else c') ≡ (if b then sweep (x ∷ xs) c else c)
unfolding sweep
crossover_step true x xs c = refl
crossover_step false x xs c = refl

module _ (env : Env) (cfg : Config) (os : Kernel) (build : Build) (buffers : Buffers) where
  -- Sixteen lanes fit.
  pub small_fits : (info : Info) → info.dim ≤ 16 → fits_arrays env cfg os build buffers info ≡ true
  unfolding fits_arrays
  small_fits info small =
      let deep : depth_of info ≤ 64 = omega (arith, depth_of-min info) in
      let a : info.dim * depth_of info ≤ 1024 = mul-le-mul small deep in
      let c : info.dim * info.dim ≤ 256 = mul-le-mul small small in ground (arith, a, c)

module _ (env : Env) (cfg : Config) (os : Kernel) (build : Build) (buffers : Buffers)
    (fuel : ℕ) where
  -- The loop measured these points one after the other, from the first state to the last.
  pub data Swept : List ℕ → Sample → List Point → Sample → Type 0 where
    over : {s : Sample} → Swept [] s [] s
    measured :
        {n : ℕ} {ns : List ℕ} {s s1 s' : Sample} {x : Point} {xs : List Point}
        → run_point env cfg os build buffers fuel n s ≡ some (x, s1)
        → Swept ns (print (point_lines build x) s1) xs s'
        → Swept (n ∷ ns) s (x ∷ xs) s'

  -- A claim J with a count, which each run of n tiles keeps and raises by n; printing keeps it too.
  pub record Carries (J : ℕ → Sample → Type 0) : Type 0 where
    pub run :
        (poll : Bool) (n timeout k : ℕ) (s : Sample)
        → IsSize n
        → J k s
        → (r : RunResult × Sample) × (run_mode env cfg os build buffers fuel poll n timeout s
            ≡ some r)
          × J (k + n) r.1
    pub printing : (lines : List Line) (k : ℕ) (s : Sample) → J k s → J k (print lines s)

  module _ {J : ℕ → Sample → Type 0} (carries : Carries J) where
    run_point_lem :
        (n k : ℕ) (s : Sample)
        → IsSize n
        → J k s
        → (r : Point × Sample) × (run_point env cfg os build buffers fuel n s ≡ some r)
          × (r.0.tiles ≡ n)
          × J (k + n * 3) r.1
    unfolding run_point
    run_point_lem n k s size here =
        let (r1, ran1, j1) = carries.run true n (os.msec 500) k s size here in
        let (r2, ran2, j2) = carries.run false n (os.msec 500) (k + n) r1.1 size j1 in
        let (r3, ran3, j3) = carries.run false n os.forever (k + n + n) r2.1 size j2 in
        (
          (record { tiles = n; poll_run = r1.0; irq_run = r2.0; fvr_run = r3.0 }, r3.1),
          rw (run_point, ran1, ran2, ran3) refl,
          refl,
          subst (λ m. J m r3.1) (omega arith) j3,
        )

    -- The crossover of the loop is that of the points that it measured.
    run_sweep_lem :
        (ns : List ℕ) (c k : ℕ) (s : Sample)
        → All IsSize ns
        → J k s
        → (xs : List Point) × (s' : Sample) × (run_sweep env cfg os build buffers fuel ns c s
            ≡ some (if build.runtime_stats then sweep xs c else c, s'))
          × (map (λ (x : Point). x.tiles) xs ≡ ns)
          × Swept ns s xs s'
          × J (k + total ns * 3) s'
    unfolding run_sweep sweep
    run_sweep_lem [] c k s sizes here = (
      [],
      s,
      ap (λ d. some (d, s)) (sym (same_branches build.runtime_stats c)),
      refl,
      over,
      subst (λ m. J m s) (omega arith) here,
    )
    run_sweep_lem (n ∷ ns) c k s sizes here =
        let ((x, s1), ran, tiles, j) = run_point_lem n k s sizes.0 here in
        let c' = if build.runtime_stats then sweep (x ∷ []) c else c in
        let (xs, s', rest, all_tiles, swept, j') =
          run_sweep_lem ns c' (k + n * 3) (print (point_lines build x) s1) sizes.1
            (carries.printing _ _ s1 j) in
        (
          x ∷ xs,
          s',
          rw (run_sweep, ran)
              (rest ∙ ap (λ d. some (d, s')) (crossover_step build.runtime_stats x xs c)),
          (λ i. tiles i ∷ all_tiles i),
          measured ran swept,
          subst (λ m. J m s') (omega arith) j',
        )

    -- If the claim holds when the sweep begins, `main` returns on a ready device
    -- whose geometry fits the arrays, with a verdict on the
    -- four points that it measured.
    pub main-Carries :
        (s : Sample)
        → os.is_ready ≡ true
        → fits_arrays env cfg os build buffers s.world.gemm.info ≡ true
        → let s0 =
            measure_alone env cfg os build buffers
              (set_up env cfg os build buffers (print (banner ∷ []) s)) in
          J 0 s0
          → (xs : List Point) × (s1 : Sample) × Swept tile_sweep s0 xs s1
            × (main env cfg os build buffers fuel s
                ≡ some (
                    print
                      (last_lines env cfg os build buffers
                        (if build.runtime_stats then first_paying xs else 0)
                        s1)
                      s1))
            × J 45 s1
    unfolding main get_info
    main-Carries s ready fits here =
        let s0 =
          measure_alone env cfg os build buffers
            (set_up env cfg os build buffers (print (banner ∷ []) s)) in
        let (xs, s1, ran, tiles, swept, j) = run_sweep_lem tile_sweep 0 0 s0 (omega arith) here in
        let points : sweep xs 0 ≡ first_paying xs =
          sweep_lem xs (sizes_of xs (subst (All IsSize) (sym tiles) (omega arith))) in
        (
          xs,
          s1,
          swept,
          ap
                (λ (t : Bool × Bool).
                  if t.0
                  then (if t.1
                      then finish env cfg os build buffers
                          (run_sweep env cfg os build buffers fuel tile_sweep 0 s0)
                      else none)
                  else some (print (not_ready ∷ []) (print (banner ∷ []) s)))
                (λ i. (ready i, fits i))
              ∙ ap (finish env cfg os build buffers) ran
              ∙ ap
                  (λ c. some (
                    print
                      (last_lines env cfg os build buffers (if build.runtime_stats then c else 0)
                        s1)
                      s1))
                  points,
          j,
        )
