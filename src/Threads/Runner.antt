-- ===== src/Threads/Runner.antt =====
-- zephyr/samples/gemm_threads/src/main.c: `gemm_runner`, the thread that submits the batches, on the
-- accelerator driver.
pub mod Returns
use rv32imac_soc.Common.{
  ℕ, zero, suc, ◌+◌, ◌≤◌, ◌≡◌, refl, sym, ap, ◌∙◌, subst, ltb, true, false, Option, none, some,
  Status, ok, einval, ebusy, etimedout, enotsup, List, [], ◌∷◌, ◌++◌, length, arith,
}
use mathlib.Core.List.{append-nil}
use rv32imac_soc.Gemm.World.{Effect, Env, Info, Data, World}
use rv32imac_soc.Gemm.{Tile, Config, flush_operands, rd, reg_queue_free}
use rv32imac_soc.Gemm.Run.{run_batch}
use rv32imac_soc.Gemm.Submit.{stagings, is_batch, tiles_of, flush_operands_lem}
use rv32imac_soc.Gemm.Batch.{Did, Did-trans, script}
use rv32imac_soc.Gemm.Batch.Signals.{Signals, run_batch-completes}
use rv32imac_soc.Gemm.Batch.Wait.{Finishes}
use rv32imac_soc.Gemm.Batch.Returns.{may_return, run_batch_lem}
use rv32imac_soc.Threads.{Buffers, tile_at, shift_out}

-- BATCHES
abbrev pub num_batches : ℕ
num_batches = 16

-- The loop that fills `tiles`, from tile p on.
unfoldable pub tiles_from : Buffers → ℕ → ℕ → ℕ → ℕ → List Tile
tiles_from buffers k_len panels zero p = []
tiles_from buffers k_len panels (suc left) p =
    tile_at buffers k_len panels p ∷ tiles_from buffers k_len panels left (p + 1)

-- After a batch: the next one, or the number of the batch that failed with its status.
abbrev pub after_batch :
    (World → Option (Option (ℕ × Status) × World))
    → ℕ
    → Option (Status × World)
    → Option (Option (ℕ × Status) × World)
after_batch next n none = none
after_batch next n (some (ok, w)) = next w
after_batch next n (some (einval, w)) = some (some (n, einval), w)
after_batch next n (some (ebusy, w)) = some (some (n, ebusy), w)
after_batch next n (some (etimedout, w)) = some (some (n, etimedout), w)
after_batch next n (some (enotsup, w)) = some (some (n, enotsup), w)

module _ (env : Env) (cfg : Config) where
  -- The loop over the batches: the batch that failed with its status, if one did. The fuel is that of
  -- each batch.
  unfoldable pub run_batches :
      ℕ → ℕ → List Tile → ℕ → ℕ → World → Option (Option (ℕ × Status) × World)
  run_batches fuel zero tiles timeout n w = some (none, w)
  run_batches fuel (suc left) tiles timeout n w =
      after_batch (λ w'. run_batches fuel left tiles timeout (n + 1) w') n
        (run_batch env cfg fuel (some tiles) 0 true shift_out timeout w)

  -- `gemm_runner` up to its check.
  unfoldable pub gemm_runner :
      ℕ → Buffers → ℕ → ℕ → ℕ → ℕ → World → Option (Option (ℕ × Status) × World)
  gemm_runner fuel buffers k_len panels n_tiles timeout w =
      let tiles = tiles_from buffers k_len panels n_tiles 0 in
      let (status, w1) = flush_operands env cfg (some tiles) w in
      run_batches fuel num_batches tiles timeout 0 w1

  -- A list of effects, several times.
  abbrev pub times : ℕ → List Effect → List Effect
  times zero es = []
  times (suc n) es = es ++ times n es

  -- QUEUE_FREE always has room for n tiles.
  abbrev pub HasRoom : ℕ → Type 0
  HasRoom n = (k : ℕ) (es : List Effect) → n ≤ env.mmio k es (cfg.base + reg_queue_free)

  only_ok :
      (tiles : Option (List Tile)) (w : World) (st : Status)
      → is_batch tiles ≡ true
      → w.gemm.poll_mode ≡ true
      → ltb (rd env cfg reg_queue_free w).0 (length (tiles_of tiles)) ≡ false
      → may_return env cfg tiles 0 true w st ≡ true
      → st ≡ ok
  only_ok tiles w ok some_tiles poll fits may = refl
  only_ok tiles w etimedout some_tiles poll fits may = ground arith
  only_ok tiles w einval some_tiles poll fits may = ground arith
  only_ok tiles w ebusy some_tiles poll fits may = ground arith
  only_ok tiles w enotsup some_tiles poll fits may = ground arith

  -- A batch of the tiles, started in a world where P holds, completes, and P holds after it.
  abbrev pub Works : (World → Type 0) → ℕ → List Tile → ℕ → Type 0
  Works P fuel tiles timeout =
      (w : World)
      → P w
      → (w' : World) × (run_batch env cfg fuel (some tiles) 0 true shift_out timeout w
          ≡ some (ok, w'))
        × P w'
        × Did (script cfg w.gemm.info tiles 0 true shift_out ok) w w'

  pub run_batches_lem :
      (P : World → Type 0) (fuel left : ℕ) (tiles : List Tile) (timeout n : ℕ) (w : World)
      → Works P fuel tiles timeout
      → P w
      → (w' : World) × (run_batches fuel left tiles timeout n w ≡ some (none, w'))
        × Did (times left (script cfg w.gemm.info tiles 0 true shift_out ok)) w w'
  unfolding run_batches
  run_batches_lem P fuel zero tiles timeout n w works here =
      (w, refl, record { effects = sym (append-nil w.effects); info = refl; poll = refl })
  run_batches_lem P fuel (suc left) tiles timeout n w works here =
      let (w1, ran, there, batch) = works w here in
      let (w', rest, did') = run_batches_lem P fuel left tiles timeout (n + 1) w1 works there in
      let more : Did (times left (script cfg w.gemm.info tiles 0 true shift_out ok)) w1 w' =
        subst (λ (info : Info). Did (times left (script cfg info tiles 0 true shift_out ok)) w1 w')
          batch.info did' in
      (
        w',
        ap (after_batch (λ w'. run_batches fuel left tiles timeout (n + 1) w') n) ran ∙ rest,
        Did-trans batch more,
      )

  -- While the driver polls, a batch that the queue has room for works.
  polled-Works :
      (fuel : ℕ) (tiles : List Tile) (timeout : ℕ)
      → is_batch (some tiles) ≡ true
      → HasRoom (length tiles)
      → Finishes env cfg fuel
      → Works (λ w. w.gemm.poll_mode ≡ true) fuel tiles timeout
  polled-Works fuel tiles timeout some_tiles room ends w poll =
      let (r, ran, may, did) =
        run_batch_lem env cfg fuel (some tiles) 0 true shift_out timeout w (λ p. ends)
          (λ sleep. absurd (cc)) in
      let fits : ltb (rd env cfg reg_queue_free w).0 (length tiles) ≡ false =
        (let enough = room w.asked w.effects in ground arith) in
      let fine = only_ok (some tiles) w r.0 some_tiles poll fits may in
      (
        r.1,
        ran ∙ ap (λ st. some (st, r.1)) fine,
        did.poll ∙ poll,
        subst (λ st. Did (script cfg w.gemm.info tiles 0 true shift_out st) w r.1) fine did,
      )

  -- If the semaphore is always given in time, it works whichever way the driver waits.
  signalled-Works :
      (fuel : ℕ) (t : Tile) (ts : List Tile) (timeout : ℕ)
      → HasRoom (length (t ∷ ts))
      → Finishes env cfg fuel
      → Signals env cfg
      → Works (λ w. Unit) fuel (t ∷ ts) timeout
  signalled-Works fuel t ts timeout room ends signals w here =
      let fits : ltb (rd env cfg reg_queue_free w).0 (length (t ∷ ts)) ≡ false =
        (let enough = room w.asked w.effects in ground arith) in
      let (w', ran, did) =
        run_batch-completes env cfg fuel t ts shift_out timeout w signals (λ p. ends) fits in
      (w', ran, tt, did)

  length-tiles_from :
      (buffers : Buffers) (k_len panels left p : ℕ)
      → length (tiles_from buffers k_len panels left p) ≡ left
  unfolding tiles_from
  length-tiles_from buffers k_len panels zero p = refl
  length-tiles_from buffers k_len panels (suc left) p =
      let rest = length-tiles_from buffers k_len panels left (p + 1) in omega arith

  -- The flushes and the batches together.
  staged_batches_lem :
      (P : World → Type 0) (fuel : ℕ) (buffers : Buffers) (k_len panels n timeout : ℕ) (w : World)
      → let tiles = tiles_from buffers k_len panels (suc n) 0 in
        Works P fuel tiles timeout
        → P (flush_operands env cfg (some tiles) w).1
        → (w' : World) × (gemm_runner fuel buffers k_len panels (suc n) timeout w ≡ some (none, w'))
          × Did
              (stagings w.gemm.info tiles
                ++ times 16 (script cfg w.gemm.info tiles 0 true shift_out ok))
              w
              w'
  unfolding gemm_runner tiles_from
  staged_batches_lem P fuel buffers k_len panels n timeout w works start =
      let tiles = tiles_from buffers k_len panels (suc n) 0 in
      let w1 = (flush_operands env cfg (some tiles) w).1 in
      let staged = flush_operands_lem env cfg (some tiles) w in
      let (w', ran, did) = run_batches_lem P fuel 16 tiles timeout 0 w1 works start in
      let flushed : Did (stagings w.gemm.info tiles) w w1 = record {
        effects = staged.1;
        info = ap (λ (d : Data). d.info) staged.2;
        poll = ap (λ (d : Data). d.poll_mode) staged.2;
      } in
      (
        w',
        ran,
        Did-trans flushed (
            subst
              (λ (info : Info). Did (times 16 (script cfg info tiles 0 true shift_out ok)) w1 w')
              flushed.info did),
      )

  -- In the polling mode, on an accelerator whose queue always has room for the tiles and which
  -- finishes what is started, the submitting thread completes all sixteen batches without an error.
  -- Its effects are one flush of each operand of each tile, and then sixteen times the script of a
  -- successful batch over the same tiles, with int8 results and no stride.
  pub gemm_runner_lem :
      (fuel : ℕ) (buffers : Buffers) (k_len panels n timeout : ℕ) (w : World)
      → HasRoom (suc n)
      → Finishes env cfg fuel
      → w.gemm.poll_mode ≡ true
      → let tiles = tiles_from buffers k_len panels (suc n) 0 in
        (w' : World) × (gemm_runner fuel buffers k_len panels (suc n) timeout w ≡ some (none, w'))
        × (w'.effects
            ≡ w.effects
              ++ (stagings w.gemm.info tiles
                  ++ times 16 (script cfg w.gemm.info tiles 0 true shift_out ok)))
  unfolding tiles_from
  gemm_runner_lem fuel buffers k_len panels n timeout w room ends poll =
      let tiles = tiles_from buffers k_len panels (suc n) 0 in
      let staged = flush_operands_lem env cfg (some tiles) w in
      let (w', ran, did) =
        staged_batches_lem (λ w. w.gemm.poll_mode ≡ true) fuel buffers k_len panels n timeout w
          (polled-Works fuel tiles timeout refl
            (subst HasRoom (sym (length-tiles_from buffers k_len panels (suc n) 0)) room) ends)
          (ap (λ (d : Data). d.poll_mode) staged.2 ∙ poll) in
      (w', ran, did.effects)

  -- The same for either way of waiting.
  pub gemm_runner-completes :
      (fuel : ℕ) (buffers : Buffers) (k_len panels n timeout : ℕ) (w : World)
      → HasRoom (suc n)
      → Finishes env cfg fuel
      → Signals env cfg
      → let tiles = tiles_from buffers k_len panels (suc n) 0 in
        (w' : World) × (gemm_runner fuel buffers k_len panels (suc n) timeout w ≡ some (none, w'))
        × Did
            (stagings w.gemm.info tiles
              ++ times 16 (script cfg w.gemm.info tiles 0 true shift_out ok))
            w
            w'
  unfolding tiles_from
  gemm_runner-completes fuel buffers k_len panels n timeout w room ends signals =
      let tiles = tiles_from buffers k_len panels (suc n) 0 in
      staged_batches_lem (λ w. Unit) fuel buffers k_len panels n timeout w
        (signalled-Works fuel (tile_at buffers k_len panels 0) (tiles_from buffers k_len panels n 1)
          timeout (subst HasRoom (sym (length-tiles_from buffers k_len panels (suc n) 0)) room) ends
          signals)
        tt
