-- ===== src/Gemm/Batch/Signals.antt =====
-- `gemm_run_batch` on a kernel whose k_sem_take never times out.
use rv32imac_soc.Common.{
  Yields, Yields-if, some_result, ℕ, ◌+◌, ◌≡◌, refl, sym, ap, ◌∙◌, subst, ltb, Bool, true, false,
  ◌==◌, Option, none, some, Status, ok, List, ◌∷◌, length, arith,
}
use rv32imac_soc.Gemm.World.{Effect, Env, World}
use rv32imac_soc.Gemm.{Tile, Config, rd, spin, wait, reg_queue_free}
use rv32imac_soc.Gemm.Run.{resumed, prepare, kick, await, run_batch}
use rv32imac_soc.Gemm.Batch.{script, Did}
use rv32imac_soc.Gemm.Batch.Wait.{Finishes}
use rv32imac_soc.Gemm.Batch.Returns.{run_batch_lem}

module _ (env : Env) (cfg : Config) where
  -- The semaphore is always given before the timeout.
  abbrev pub Signals : Type 0
  Signals = (k : ℕ) (es : List Effect) (timeout : ℕ) → env.sem_take k es timeout ≡ some 0

  spun_lem :
      (o : Option World)
      → Yields
          (λ (r : Bool × World). r.0 ≡ true)
          (elim o [ none ↦ none | some w1 ↦ some (true, w1) ])
  spun_lem none = tt
  spun_lem (some w) = refl

  wait_signalled :
      Signals
      → (fuel timeout : ℕ) (w : World)
      → Yields (λ (r : Bool × World). r.0 ≡ true) (wait env cfg fuel timeout w)
  unfolding wait
  wait_signalled signals fuel timeout w =
      Yields-if (λ (r : Bool × World). r.0 ≡ true) w.gemm.poll_mode _ _
        (spun_lem (spin env cfg fuel w))
        (subst
          (λ (taken : Option ℕ).
            Yields (λ (r : Bool × World). r.0 ≡ true)
              (elim taken [
                | none ↦ none
                | some rc ↦ some (rc == 0, record w { asked = w.asked + 1 })
              ]))
          (sym (signals w.asked w.effects timeout)) refl)

  resumed_lem :
      (tiles : List Tile) (int8 : Bool) (marks : ℕ × ℕ) (o : Option (Bool × World))
      → Yields (λ (r : Bool × World). r.0 ≡ true) o
      → Yields (λ (r : Status × World). r.0 ≡ ok) (resumed env cfg tiles int8 marks o)
  resumed_lem tiles int8 marks none h = tt
  resumed_lem tiles int8 marks (some (true, w)) h = refl
  resumed_lem tiles int8 marks (some (false, w)) h = ground arith

  -- On an accelerator with room for the tiles an int8 batch without a stride completes, whichever
  -- way the driver waits.
  pub run_batch-completes :
      (fuel : ℕ) (t : Tile) (ts : List Tile) (shift timeout : ℕ) (w : World)
      → Signals
      → (w.gemm.poll_mode ≡ true → Finishes env cfg fuel)
      → ltb (rd env cfg reg_queue_free w).0 (length (t ∷ ts)) ≡ false
      → (w' : World) × (run_batch env cfg fuel (some (t ∷ ts)) 0 true shift timeout w
          ≡ some (ok, w'))
        × Did (script cfg w.gemm.info (t ∷ ts) 0 true shift ok) w w'
  unfolding run_batch await
  run_batch-completes fuel t ts shift timeout w signals ends fits =
      let (r, ran, may, did) =
        run_batch_lem env cfg fuel (some (t ∷ ts)) 0 true shift timeout w ends
          (λ sleep k es. (0, signals k es timeout)) in
      let (marks, w1) =
        kick env cfg (prepare env cfg (t ∷ ts) 0 true shift (rd env cfg reg_queue_free w).1) in
      let run : run_batch env cfg fuel (some (t ∷ ts)) 0 true shift timeout w
          ≡ resumed env cfg (t ∷ ts) true marks (wait env cfg fuel timeout w1) =
        rw fits refl in
      let fine : r.0 ≡ ok =
        some_result (λ (r : Status × World). r.0 ≡ ok) _ r (sym run ∙ ran)
          (resumed_lem (t ∷ ts) true marks _ (wait_signalled signals fuel timeout w1)) in
      (
        r.1,
        ran ∙ ap (λ st. some (st, r.1)) fine,
        subst (λ st. Did (script cfg w.gemm.info (t ∷ ts) 0 true shift st) w r.1) fine did,
      )
