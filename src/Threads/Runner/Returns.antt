-- ===== src/Threads/Runner/Returns.antt =====
-- `gemm_runner` ends, whatever its batches return.
use rv32imac_soc.Common.{
  ℕ, zero, suc, ◌+◌, ◌≡◌, refl, ap, ◌∙◌, true, Option, none, some, Status, ok, einval, ebusy,
  etimedout, enotsup, List,
}
use rv32imac_soc.Gemm.World.{Env, World}
use rv32imac_soc.Gemm.{Tile, Config}
use rv32imac_soc.Gemm.Batch.Wait.{Finishes, Wakes}
use rv32imac_soc.Gemm.Batch.Returns.{run_batch_lem}
use rv32imac_soc.Threads.{Buffers, shift_out}
use rv32imac_soc.Threads.Runner.{after_batch, tiles_from, run_batches, gemm_runner}

after_batch-returns :
    (next : World → Option (Option (ℕ × Status) × World)) (n : ℕ) (st : Status) (w : World)
    → (r : Option (ℕ × Status) × World) × (next w ≡ some r)
    → (r : Option (ℕ × Status) × World) × (after_batch next n (some (st, w)) ≡ some r)
after_batch-returns next n ok w h = h
after_batch-returns next n einval w h = ((some (n, einval), w), refl)
after_batch-returns next n ebusy w h = ((some (n, ebusy), w), refl)
after_batch-returns next n etimedout w h = ((some (n, etimedout), w), refl)
after_batch-returns next n enotsup w h = ((some (n, enotsup), w), refl)

module _ (env : Env) (cfg : Config) where
  run_batches-returns :
      (fuel left : ℕ) (tiles : List Tile) (timeout n : ℕ) (w : World)
      → Finishes env cfg fuel
      → Wakes env cfg timeout
      → (r : Option (ℕ × Status) × World) × (run_batches env cfg fuel left tiles timeout n w
          ≡ some r)
  unfolding run_batches
  run_batches-returns fuel zero tiles timeout n w ends wakes = ((none, w), refl)
  run_batches-returns fuel (suc left) tiles timeout n w ends wakes =
      let next = λ (w' : World). run_batches env cfg fuel left tiles timeout (n + 1) w' in
      let ((st, w1), ran, may, did) =
        run_batch_lem env cfg fuel (some tiles) 0 true shift_out timeout w (λ p. ends)
          (λ sleep. wakes) in
      let (r, rest) =
        after_batch-returns next n st w1
          (run_batches-returns fuel left tiles timeout (n + 1) w1 ends wakes) in
      (r, ap (after_batch next n) ran ∙ rest)

  pub gemm_runner-returns :
      (fuel : ℕ) (buffers : Buffers) (k_len panels n timeout : ℕ) (w : World)
      → Finishes env cfg fuel
      → Wakes env cfg timeout
      → (r : Option (ℕ × Status) × World) × (gemm_runner env cfg fuel buffers k_len panels n timeout
            w
          ≡ some r)
  unfolding gemm_runner
  gemm_runner-returns fuel buffers k_len panels n timeout w ends wakes =
      run_batches-returns fuel 16 (tiles_from buffers k_len panels n 0) timeout 0 _ ends wakes
