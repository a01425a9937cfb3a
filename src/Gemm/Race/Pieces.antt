-- ===== src/Gemm/Race/Pieces.antt =====
-- What the pieces of a batch between two switches of threads do on the outside.
use rv32imac_soc.Common.{
  Yields, Yields-if, Yields-map, some_result, ℕ, zero, suc, ◌+◌, ◌≡◌, refl, sym, ap, subst, ltb,
  ◌==◌, bit_and, Bool, Bool-cases, true, false, ◌&&◌, not, inl, inr, Option, none, some, Status,
  List, [], ◌∷◌, ◌++◌, length,
}
use mathlib.Core.List.{append-nil, append_assoc}
use rv32imac_soc.Gemm.World.{lock, unlock, write, Effect, Env, Info, Data, World}
use rv32imac_soc.Gemm.{
  Tile, Config, interrupt_point, tile_bytes, spin, wait, rd, submit, reg_status, st_queue_done,
  out_ctrl, reg_out_ctrl, reg_dest_stride, reg_queue_free,
}
use rv32imac_soc.Gemm.Run.{
  enter, settle, account, collect, resumed, await, prepare, kick, run_batch,
}
use rv32imac_soc.Gemm.Submit.{submissions, submit_lem, tiles_of, invalidations}
use rv32imac_soc.Gemm.Batch.{
  closing, was_kicked, Did, Did-trans, interrupt_point-Did, give_up-Did, account-Did, collect-Did,
}
use rv32imac_soc.Gemm.Race.{Job, refusal, refused}

-- The effects of `enter`.
abbrev pub entrance : Config → ℕ → Bool → ℕ → List Effect
entrance cfg stride int8 shift =
    lock
    ∷ write stride (cfg.base + reg_dest_stride)
    ∷ write (out_ctrl int8 shift) (cfg.base + reg_out_ctrl)
    ∷ []

module _ (env : Env) (cfg : Config) where
  pub enter-Did :
      (stride : ℕ) (int8 : Bool) (shift : ℕ) (w : World)
      → Did (entrance cfg stride int8 shift) w (enter env cfg stride int8 shift w).1
  unfolding enter
  enter-Did stride int8 shift w = record { effects = simp append_assoc; info = refl; poll = refl }

  pub settle-Did : (t_mark spent : ℕ) (w : World) → Did [] w (settle env cfg t_mark spent w)
  unfolding settle
  settle-Did t_mark spent w = record {
    effects = sym (append-nil w.effects);
    info = refl;
    poll = refl;
  }

  pub submit-Did :
      (ts : List Tile) (spent : ℕ) (w : World)
      → Did (submissions cfg w.gemm.info ts) w (submit env cfg ts spent w).1
  submit-Did ts spent w =
      let (e, g) = submit_lem env cfg ts spent w in
      record {
        effects = e;
        info = ap (λ (d : Data). d.info) g;
        poll = ap (λ (d : Data). d.poll_mode) g;
      }

  spin-Did : (fuel : ℕ) (w : World) → Yields (Did [] w) (spin env cfg fuel w)
  unfolding spin
  spin-Did zero w = tt
  spin-Did (suc fuel) w =
      let w1 = record w { asked = w.asked + 1 } in
      let read : Did [] w w1 = record {
        effects = sym (append-nil w.effects);
        info = refl;
        poll = refl;
      } in
      Yields-if (Did [] w)
        (bit_and (env.mmio w.asked w.effects (cfg.base + reg_status)) st_queue_done == 0) _ _
        (Yields-map (spin env cfg fuel w1) (λ w'. Did-trans read) (spin-Did fuel w1)) read

  spun-Did :
      (w : World) (o : Option World)
      → Yields (Did [] w) o
      → Yields
          (λ (r : Bool × World). Did [] w r.1)
          (elim o [ none ↦ none | some w1 ↦ some (true, w1) ])
  spun-Did w none did = did
  spun-Did w (some w1) did = did

  taken-Did :
      (w : World) (taken : Option ℕ)
      → Yields
          (λ (r : Bool × World). Did [] w r.1)
          (elim taken [ none ↦ none | some rc ↦ some (rc == 0, record w { asked = w.asked + 1 }) ])
  taken-Did w none = tt
  taken-Did w (some rc) = record { effects = sym (append-nil w.effects); info = refl; poll = refl }

  wait-Did :
      (fuel timeout : ℕ) (w : World)
      → Yields (λ (r : Bool × World). Did [] w r.1) (wait env cfg fuel timeout w)
  unfolding wait
  wait-Did fuel timeout w =
      Yields-if (λ (r : Bool × World). Did [] w r.1) w.gemm.poll_mode _ _
        (spun-Did w (spin env cfg fuel w) (spin-Did fuel w))
        (taken-Did w (env.sem_take w.asked w.effects timeout))

  -- A batch that is past its wait ends as one that was kicked, with the effects of its status.
  abbrev Ended : List Tile → Bool → World → Status × World → Type 0
  Ended tiles int8 w r =
      (was_kicked r.0 ≡ true) × Did (closing cfg w.gemm.info tiles int8 r.0) w r.1

  resumed-Ended :
      (tiles : List Tile) (int8 : Bool) (marks : ℕ × ℕ) (w : World) (o : Option (Bool × World))
      → Yields (λ (r : Bool × World). Did [] w r.1) o
      → Yields (Ended tiles int8 w) (resumed env cfg tiles int8 marks o)
  resumed-Ended tiles int8 marks w none did = tt
  resumed-Ended tiles int8 marks w (some (true, w1)) did =
      let w2 = interrupt_point env cfg w1 in
      let w3 = account env cfg marks.0 marks.1 w2 in
      let there =
        Did-trans (Did-trans did (interrupt_point-Did env cfg w1))
          (account-Did env cfg marks.0 marks.1 w2) in
      (
        refl,
        subst
            (λ (info : Info).
              Did (invalidations (tile_bytes info int8) tiles ++ (unlock ∷ [])) w
                (collect env cfg tiles int8 w3))
            there.info (Did-trans there (collect-Did env cfg tiles int8 w3)),
      )
  resumed-Ended tiles int8 marks w (some (false, w1)) did = (
    refl,
    Did-trans (Did-trans did (interrupt_point-Did env cfg w1))
        (give_up-Did env cfg marks.1 (interrupt_point env cfg w1)),
  )

  pub await-Ended :
      (fuel timeout : ℕ) (tiles : List Tile) (int8 : Bool) (marks : ℕ × ℕ) (w : World) (st : Status)
      (w' : World)
      → await env cfg fuel timeout tiles int8 (marks, w) ≡ some (st, w')
      → (was_kicked st ≡ true) × Did (closing cfg w.gemm.info tiles int8 st) w w'
  unfolding await
  await-Ended fuel timeout tiles int8 marks w st w' ended =
      some_result (Ended tiles int8 w) _ _ ended
        (resumed-Ended tiles int8 marks w (wait env cfg fuel timeout w) (wait-Did fuel timeout w))

  run_batch_pieces :
      (fuel : ℕ) (tiles : Option (List Tile)) (stride : ℕ) (int8 : Bool) (shift timeout : ℕ)
      (w : World)
      → run_batch env cfg fuel tiles stride int8 shift timeout w ≡ (
          let (checked, w1) = refused env cfg tiles stride int8 w in
          elim checked [
            | some st ↦ some (st, w1)
            | none ↦
                let (t_mark, w2) = enter env cfg stride int8 shift w1 in
                let (spent, w3) = submit env cfg (tiles_of tiles) 0 w2 in
                await env cfg fuel timeout
                  (tiles_of tiles)
                  int8
                  (kick env cfg (settle env cfg t_mark spent w3))
          ])
  unfolding run_batch prepare refused
  run_batch_pieces fuel none stride int8 shift timeout w = refl
  run_batch_pieces fuel (some []) stride int8 shift timeout w = refl
  run_batch_pieces fuel (some (t ∷ ts)) stride int8 shift timeout w =
      elim (Bool-cases (ltb (rd env cfg reg_queue_free w).0 (length (t ∷ ts)))) [
        | inl full ↦ rw full refl
        | inr fits ↦ elim (Bool-cases (int8 && not (stride == 0))) [
          | inl clash ↦ rw (fits, clash) refl
          | inr clear ↦ rw (fits, clear) refl
        ]
      ]

  -- A call of `gemm_run_batch` during which no other thread runs is made of the same pieces.
  pub run_batch-refusal :
      (fuel : ℕ) (job : Job) (w : World)
      → run_batch env cfg fuel job.tiles job.stride job.int8 job.shift job.timeout w ≡ (
          let (checked, w1) = refusal env cfg job w in
          elim checked [
            | some st ↦ some (st, w1)
            | none ↦
                let (t_mark, w2) = enter env cfg job.stride job.int8 job.shift w1 in
                let (spent, w3) = submit env cfg (tiles_of job.tiles) 0 w2 in
                await env cfg fuel job.timeout
                  (tiles_of job.tiles)
                  job.int8
                  (kick env cfg (settle env cfg t_mark spent w3))
          ])
  run_batch-refusal fuel job w =
      run_batch_pieces fuel job.tiles job.stride job.int8 job.shift job.timeout w
