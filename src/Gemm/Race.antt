-- ===== src/Gemm/Race.antt =====
-- Threads that use the accelerator driver of zephyr/drivers/misc/gemm_rv32_5stage.c at the same time.
-- `gemm_run_batch` is cut where another thread may run: before the lock, between two descriptors,
-- before the kick and during the wait. `k_mutex_lock` with K_FOREVER lets a thread pass when nobody
-- holds the lock.
pub mod Woven
pub mod Owner
pub mod Pieces
pub mod Inv
mod Tests
pub mod Serial
use rv32imac_soc.Common.{
  ℕ, zero, suc, ◌≡◌, ◌==◌, ltb, Bool, true, false, ◌&&◌, not, Option, none, some, List, [], ◌∷◌,
  ◌++◌, length, Status, einval, ebusy, if◌then◌else◌,
}
use rv32imac_soc.Gemm.World.{Env, World}
use rv32imac_soc.Gemm.{
  Tile, Config, rd, isr, submit, reg_queue_free, flush_operands, reset_stats, set_poll_mode,
}
use rv32imac_soc.Gemm.Submit.{tiles_of}
use rv32imac_soc.Gemm.Run.{enter, settle, kick, await}

-- The arguments of a call of `gemm_run_batch`.
pub record Job : Type 0 where
  pub tiles : Option (List Tile)
  pub stride : ℕ
  pub int8 : Bool
  pub shift : ℕ
  pub timeout : ℕ

-- Where a thread is in the driver.
pub data Stage : Type 0 where
  outside : Stage
  -- past the checks, at the lock
  admitted : Job → Stage
  -- at the head of the loop: the tiles pushed, those left, `t_mark` and `flush_in_submit`
  pushing : Job → List Tile → List Tile → ℕ → ℕ → Stage
  -- at the wait, with `t_kick` and `t_mark`
  kicked : Job → ℕ × ℕ → Stage

-- A use of the lock that is over.
pub data Entry : Type 0 where
  batch : Job → Status → Entry
  mode : Entry

-- The world, who holds the lock, where the threads are, and the uses of the lock so far, in order.
pub record Machine : Type 0 where
  pub world : World
  pub owner : Option ℕ
  pub stage : ℕ → Stage
  pub log : List Entry

abbrev pub move : ℕ → Stage → (ℕ → Stage) → ℕ → Stage
move i s stage j = if i == j then s else stage j

module _ (env : Env) (cfg : Config) where
  -- What the checks before the lock refuse a batch with, if they do.
  unfoldable pub refused : Option (List Tile) → ℕ → Bool → World → Option Status × World
  refused none stride int8 w = (some einval, w)
  refused (some []) stride int8 w = (some einval, w)
  refused (some (t ∷ ts)) stride int8 w =
      let (free, w1) = rd env cfg reg_queue_free w in
      (
        if ltb free (length (t ∷ ts))
            then some ebusy
            else if int8 && not (stride == 0)
            then some einval
            else none,
        w1,
      )

  abbrev pub refusal : Job → World → Option Status × World
  refusal job w = refused job.tiles job.stride job.int8 w

  -- The lock is free, and thread i goes on to the loop.
  abbrev pub locked : ℕ → Job → Machine → Machine
  locked i job m =
      let (t_mark, w) = enter env cfg job.stride job.int8 job.shift m.world in
      record m {
        world = w;
        owner = some i;
        stage = move i (pushing job [] (tiles_of job.tiles) t_mark 0) m.stage;
      }

  -- One round of the loop.
  abbrev pub one_pushed : ℕ → Job → List Tile → Tile → List Tile → ℕ → ℕ → Machine → Machine
  one_pushed i job pushed t rest t_mark spent m =
      let (spent', w) = submit env cfg (t ∷ []) spent m.world in
      record m {
        world = w;
        stage = move i (pushing job (pushed ++ (t ∷ [])) rest t_mark spent') m.stage;
      }

  -- After the loop, up to the wait.
  abbrev pub started : ℕ → Job → ℕ → ℕ → Machine → Machine
  started i job t_mark spent m =
      let (marks, w) = kick env cfg (settle env cfg t_mark spent m.world) in
      record m { world = w; stage = move i (kicked job marks) m.stage }

module _ (env : Env) (cfg : Config) (fuel : ℕ) where
  -- A step of a thread, by its number, or an interrupt.
  pub data Step : Machine → Machine → Type 0 where
    refuse :
        (i : ℕ) (job : Job) (st : Status) {m : Machine}
        → m.stage i ≡ outside
        → (refusal env cfg job m.world).0 ≡ some st
        → Step m (record m { world = (refusal env cfg job m.world).1 })
    admit :
        (i : ℕ) (job : Job) {m : Machine}
        → m.stage i ≡ outside
        → (refusal env cfg job m.world).0 ≡ none
        → Step m (record m {
          world = (refusal env cfg job m.world).1;
          stage = move i (admitted job) m.stage;
        })
    take_lock :
        (i : ℕ) (job : Job) {m : Machine}
        → m.stage i ≡ admitted job
        → m.owner ≡ none
        → Step m (locked env cfg i job m)
    push :
        (i : ℕ) (job : Job) (pushed : List Tile) (t : Tile) (rest : List Tile) (t_mark spent : ℕ)
        {m : Machine}
        → m.stage i ≡ pushing job pushed (t ∷ rest) t_mark spent
        → Step m (one_pushed env cfg i job pushed t rest t_mark spent m)
    start :
        (i : ℕ) (job : Job) (pushed : List Tile) (t_mark spent : ℕ) {m : Machine}
        → m.stage i ≡ pushing job pushed [] t_mark spent
        → Step m (started env cfg i job t_mark spent m)
    finish :
        (i : ℕ) (job : Job) (marks : ℕ × ℕ) (st : Status) (w : World) {m : Machine}
        → m.stage i ≡ kicked job marks
        → await env cfg fuel job.timeout (tiles_of job.tiles) job.int8 (marks, m.world)
          ≡ some (st, w)
        → Step m (record m {
          world = w;
          owner = none;
          stage = move i outside m.stage;
          log = m.log ++ (batch job st ∷ []);
        })
    choose_mode :
        (i : ℕ) (poll : Bool) {m : Machine}
        → m.stage i ≡ outside
        → m.owner ≡ none
        → Step m
            (record m { world = set_poll_mode env cfg poll m.world; log = m.log ++ (mode ∷ []) })
    stage_operands :
        (i : ℕ) (tiles : Option (List Tile)) {m : Machine}
        → m.stage i ≡ outside
        → Step m (record m { world = (flush_operands env cfg tiles m.world).1 })
    clear_stats :
        (i : ℕ) {m : Machine}
        → m.stage i ≡ outside
        → Step m (record m { world = reset_stats env cfg m.world })
    interrupt : {m : Machine} → Step m (record m { world = isr env cfg m.world })

  pub data Steps : Machine → Machine → Type 0 where
    still : {m : Machine} → Steps m m
    followed : {m m1 m' : Machine} → Steps m m1 → Step m1 m' → Steps m m'
