-- ===== src/Threads/Sweep.antt =====
-- zephyr/samples/gemm_threads/src/main.c: the figures of a run and the verdict of `main` over the sweep, and
-- the descriptors that the sample's tiles become.
use rv32imac_soc.Common.{
  ℕ, ◌+◌, ◌-◌, ◌/◌, ◌%◌, min, ◌≤◌, ◌<◌, ◌≡◌, refl, sym, ap, ◌∙◌, ltb, leb, ◌==◌, Bool, Bool-cases,
  true, false, not, ◌&&◌, inl, inr, List, [], ◌∷◌, All, if◌then◌else◌, arith,
}
use Prim.Native.Nat.{max}
use native.Mathlib.Nat.{mod-eq_of_lt, mod-lt}
use rv32imac_soc.Gemm.{desc_push}
use rv32imac_soc.Gemm.World.{Stats, Info}
use rv32imac_soc.Gemm.Descriptor.{fields, desc_push_lem}
use rv32imac_soc.Threads.{Buffers, tile_at, depth_of, panels_of}
use rv32imac_soc.Threads.Runner.{num_batches}

-- struct run_result
pub record RunResult : Type 0 where
  pub wall : ℕ
  pub gemm_ran : ℕ
  pub worker_ran : ℕ
  pub st : Stats

-- A point of the sweep: its batch size and its three runs.
pub record Point : Type 0 where
  pub tiles : ℕ
  pub poll_run : RunResult
  pub irq_run : RunResult
  pub fvr_run : RunResult

-- The three lines that `main` can print under "net", with the cycles that it is ahead.
pub data Net : Type 0 where
  faster : Net
  ahead : ℕ → Net
  behind : Net

abbrev pub best_of : Point → RunResult
best_of x = if ltb x.fvr_run.wall x.irq_run.wall then x.fvr_run else x.irq_run

unfoldable pub net : Point → Net
net x =
    let best = best_of x in
    let p_wall = x.poll_run.wall / num_batches in
    let i_wall = best.wall / num_batches in
    let i_work = best.worker_ran / num_batches in
    if leb i_wall p_wall
    then faster
    else if ltb (i_wall - p_wall) i_work
    then ahead (i_work - (i_wall - p_wall))
    else behind

abbrev pub pays : Net → Bool
pays faster = true
pays (ahead gain) = true
pays behind = false

-- The loop over the sweep, with the crossover so far; 0 is none.
unfoldable pub sweep : List Point → ℕ → ℕ
sweep [] crossover = crossover
sweep (x ∷ xs) crossover = sweep xs (if pays (net x) && crossover == 0 then x.tiles else crossover)

-- The first size of the sweep at which interrupts pay: the quicker of the two interrupt runs takes
-- less per batch than polling and what the other thread gained together.
abbrev pub first_paying : List Point → ℕ
first_paying [] = 0
first_paying (x ∷ xs) =
    if ltb (min x.irq_run.wall x.fvr_run.wall / 16)
      (x.poll_run.wall / 16 + max 1 ((best_of x).worker_ran / 16))
    then x.tiles
    else first_paying xs

best_wall : (x : Point) → (best_of x).wall ≡ min x.irq_run.wall x.fvr_run.wall
best_wall x = elim (Bool-cases (ltb x.fvr_run.wall x.irq_run.wall)) [
  | inl quicker ↦ rw quicker (ground arith)
  | inr slower ↦ rw slower (ground arith)
]

-- The two tests of the verdict are one.
net_sum :
    (p_wall i_wall i_work gain : ℕ)
    → pays (
        if leb i_wall p_wall
        then faster
        else if ltb (i_wall - p_wall) i_work
        then ahead gain
        else behind)
      ≡ ltb i_wall (p_wall + max 1 i_work)
net_sum p_wall i_wall i_work gain = elim (Bool-cases (leb i_wall p_wall)) [
  | inl first ↦ rw first (ground arith)
  | inr later ↦ elim (Bool-cases (ltb (i_wall - p_wall) i_work)) [
    | inl covered ↦ rw (later, covered) (ground arith)
    | inr lost ↦ rw (later, lost) (ground arith)
  ]
]

pays_lem :
    (x : Point)
    → pays (net x)
      ≡ ltb
          (min x.irq_run.wall x.fvr_run.wall / 16)
          (x.poll_run.wall / 16 + max 1 ((best_of x).worker_ran / 16))
unfolding net
pays_lem x =
    let gained = (best_of x).worker_ran / 16 in
    net_sum (x.poll_run.wall / 16) ((best_of x).wall / 16) gained _
    ∙ ap (λ w. ltb (w / 16) (x.poll_run.wall / 16 + max 1 gained)) (best_wall x)

not_again : (b : Bool) (c : ℕ) → 0 < c → (b && c == 0) ≡ false
not_again true c h = ground arith
not_again false c h = refl

sweep_done : (xs : List Point) (c : ℕ) → 0 < c → sweep xs c ≡ c
unfolding sweep
sweep_done [] c h = refl
sweep_done (x ∷ xs) c h =
    let set : (pays (net x) && c == 0) ≡ false = not_again (pays (net x)) c h in
    ap (λ b. sweep xs (if b then x.tiles else c)) set ∙ sweep_done xs c h

-- If every size of the sweep is positive, the crossover that `main` reports is the first size at which
-- the quicker interrupt run is no slower than polling per batch, or is slower by less than the
-- cycles that the other thread got, and 0 if there is no such size.
pub sweep_lem :
    (xs : List Point) → All (λ (x : Point). 0 < x.tiles) xs → sweep xs 0 ≡ first_paying xs
unfolding sweep
sweep_lem [] sizes = refl
sweep_lem (x ∷ xs) sizes =
    let spec : Bool → ℕ = λ b. if b then x.tiles else first_paying xs in
    elim (Bool-cases (pays (net x))) [
      | inl paying ↦
          ap (λ b. sweep xs (if b && 0 == 0 then x.tiles else 0)) paying
          ∙ sweep_done xs x.tiles sizes.0
          ∙ ap spec (sym paying ∙ pays_lem x)
      | inr losing ↦
          ap (λ b. sweep xs (if b && 0 == 0 then x.tiles else 0)) losing
          ∙ sweep_lem xs sizes.1
          ∙ ap spec (sym losing ∙ pays_lem x)
    ]

pub depth_of-min : (info : Info) → depth_of info ≡ min info.max_k 64
unfolding depth_of
depth_of-min info = ground arith

panels_of-max : (info : Info) → panels_of info ≡ max 1 info.panels
unfolding panels_of
panels_of-max info = ground arith

panel_small : (panels p : ℕ) → panels ≤ 16 → p % max 1 panels < 16
panel_small panels p few =
    let below : p % max 1 panels < max 1 panels = mod-lt p (omega arith) in omega arith

flip : (b : Bool) → ◌≡◌ {A = ℕ} (if not b then 1 else 0) (if b then 0 else 1)
flip true = refl
flip false = refl

-- On an accelerator of one to sixteen panels the descriptor of each tile of the sample reads back as
-- the panel numbered like the tile modulo the panels, loaded by the tile itself, with the depth
-- that `main` chose, and keeps the panel of A for every tile but the first.
pub sample_descriptor_lem :
    (info : Info) (buffers : Buffers) (p : ℕ)
    → info.panels ≤ 16
    → fields (desc_push (tile_at buffers (depth_of info) (panels_of info) p)) ≡ record {
      k_len = min info.max_k 64;
      panel_use = p % max 1 info.panels;
      panel_load = p % max 1 info.panels;
      b_only = if p == 0 then 0 else 1;
    }
sample_descriptor_lem info buffers p few =
    let t = tile_at buffers (depth_of info) (panels_of info) p in
    let read = (desc_push_lem t).0 in
    let panel : ℕ = p % max 1 info.panels in
    let k : depth_of info % 256 ≡ min info.max_k 64 =
      ap (λ n. n % 256) (depth_of-min info) ∙ mod-eq_of_lt (omega arith) in
    let bound : panel < 16 = panel_small info.panels p few in
    let u : p % panels_of info % 16 ≡ panel =
      ap (λ n. p % n % 16) (panels_of-max info) ∙ mod-eq_of_lt bound in
    read
    ∙ (λ i. record { k_len = k i; panel_use = u i; panel_load = u i; b_only = flip (p == 0) i })
