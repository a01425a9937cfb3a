-- ===== src/Gemm/Race/Tests.antt =====
-- Two threads race for the accelerator: both pass the checks, and the second stages its operands
-- while the first has the lock.
use rv32imac_soc.Common.{ℕ, ◌≡◌, refl, none, some, Status, einval, [], ◌∷◌, ◌++◌, true}
use rv32imac_soc.Gemm.World.{World}
use rv32imac_soc.Gemm.{interrupt_point, spin, wait, submit, flush_tile, flush_operands, flush_tiles}
use rv32imac_soc.Gemm.Run.{enter, settle, note_early, kick, await}
use rv32imac_soc.Gemm.Tests.{device, some_env, polling, first_tile}
use rv32imac_soc.Gemm.Race.{
  Job, outside, admitted, batch, Machine, move, refusal, refused, locked, one_pushed, started,
  Steps, admit, take_lock, push, start, finish, stage_operands, still, followed,
}
use rv32imac_soc.Gemm.Race.Woven.{Woven}
use rv32imac_soc.Gemm.Race.Owner.{inside, holds}
use rv32imac_soc.Gemm.Race.Inv.{all_done, under_way}
use rv32imac_soc.Gemm.Race.Serial.{Steps-serial}

abbrev some_job : Job
some_job = record {
  tiles = some (first_tile ∷ []);
  stride = 0;
  int8 = true;
  shift = 5;
  timeout = 100;
}

abbrev calm : Machine
calm = record { world = polling; owner = none; stage = λ i. outside; log = [] }

abbrev admit_one : ℕ → Machine → Machine
admit_one i m = record m {
  world = (refusal some_env device some_job m.world).1;
  stage = move i (admitted some_job) m.stage;
}

abbrev both_admitted : Machine
both_admitted = admit_one 1 (admit_one 0 calm)

abbrev first_inside : Machine
first_inside = locked some_env device 0 some_job both_admitted

abbrev staged : Machine
staged = record first_inside {
  world = (flush_operands some_env device (some (first_tile ∷ [])) first_inside.world).1;
}

both_pass : (refusal some_env device some_job polling).0 ≡ none
unfolding refused
both_pass = refl

second_passes : (refusal some_env device some_job (admit_one 0 calm).world).0 ≡ none
unfolding refused
second_passes = refl

abbrev pushed_one : Machine
pushed_one =
    one_pushed some_env device 0 some_job [] first_tile []
      (enter some_env device 0 true 5 both_admitted.world).0 0 staged

abbrev spent_one : ℕ
spent_one = (submit some_env device (first_tile ∷ []) 0 staged.world).0

abbrev at_wait : Machine
at_wait =
    started some_env device 0 some_job (enter some_env device 0 true 5 both_admitted.world).0
      spent_one pushed_one

abbrev marks : ℕ × ℕ
marks =
    (kick some_env device (
      settle some_env device (enter some_env device 0 true 5 both_admitted.world).0 spent_one
        pushed_one.world)).0

abbrev result : Status × World
result = elim (await some_env device 3 100 (first_tile ∷ []) true (marks, at_wait.world)) [
  | none ↦ (einval, polling)
  | some r ↦ r
]

returns : await some_env device 3 100 (first_tile ∷ []) true (marks, at_wait.world) ≡ some result
unfolding await wait spin enter settle kick note_early interrupt_point submit flush_tile refused
    flush_operands flush_tiles
returns = refl

abbrev over : Machine
over = record at_wait {
  world = result.1;
  owner = none;
  stage = move 0 outside at_wait.stage;
  log = batch some_job result.0 ∷ [];
}

some-Steps : Steps some_env device 3 calm over
some-Steps =
    followed
      (followed
        (followed
          (followed
            (followed
              (followed (followed still (admit 0 some_job refl both_pass))
                (admit 1 some_job refl second_passes))
              (take_lock 0 some_job refl refl))
            (stage_operands 2 (some (first_tile ∷ [])) refl))
          (push 0 some_job [] first_tile [] _ 0 refl))
        (start 0 some_job (first_tile ∷ []) _ spent_one refl))
      (finish 0 some_job marks result.0 result.1 refl returns)

Steps-serial_example :
    ((i : ℕ) → inside (over.stage i) ≡ holds over.owner i)
    × Woven []
        (all_done device polling.gemm.info over.log
          ++ under_way device polling.gemm.info over.owner over.stage)
        over.world.effects
    × (over.world.gemm.info ≡ polling.gemm.info)
Steps-serial_example =
    Steps-serial some_env device 3 calm over
      (record { free = refl; none_inside = λ i. refl; nothing_done = refl }) some-Steps
