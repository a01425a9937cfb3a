-- ===== src/Gemm/Batch/Wait.antt =====
-- The wait of `gemm_run_batch`, and what follows it.
use rv32imac_soc.Common.{
  ℕ, zero, suc, false, ◌+◌, ◌<◌, ◌≡◌, refl, sym, ap, ◌∙◌, ◌==◌, Bool, Bool-cases, true, inl, inr,
  subst, not, Option, none, some, Status, ok, etimedout, List, [], ◌∷◌, ◌++◌, bit_and,
  if◌then◌else◌, arith,
}
use mathlib.Core.List.{append-nil}
use rv32imac_soc.Gemm.World.{Effect, write, unlock, sem_reset, Env, Info, World}
use rv32imac_soc.Gemm.{
  Tile, Config, tile_bytes, interrupt_point, spin, wait, reg_ctrl, reg_status, ctrl_start_queue,
  st_queue_done,
}
use rv32imac_soc.Gemm.Run.{resumed, give_up, account, collect, await}
use rv32imac_soc.Gemm.Submit.{invalidations}
use rv32imac_soc.Gemm.Batch.{
  closing, was_kicked, Did, Did-trans, interrupt_point-Did, give_up-Did, account-Did, collect-Did,
}

module _ (env : Env) (cfg : Config) where
  -- Whether the n-th answer of STATUS after the effects es says that the queue is done.
  abbrev pub shows_done : ℕ → List Effect → Bool
  shows_done n es = not (bit_and (env.mmio n es (cfg.base + reg_status)) st_queue_done == 0)

  -- After each start of the queue, one of the next `fuel` readings of STATUS says that it is done.
  abbrev pub Finishes : ℕ → Type 0
  Finishes fuel =
      (n : ℕ) (before : List Effect)
      → (i : ℕ) × (i < fuel)
        × (shows_done (n + i)
              (before ++ (sem_reset ∷ write ctrl_start_queue (cfg.base + reg_ctrl) ∷ []))
            ≡ true)

  -- k_sem_take with the timeout always returns. Zephyr documents it of every timeout but K_FOREVER;
  -- with that it says that the semaphore is always given.
  abbrev pub Wakes : ℕ → Type 0
  Wakes timeout = (n : ℕ) (es : List Effect) → (rc : ℕ) × (env.sem_take n es timeout ≡ some rc)

  -- A done bit that is not there yet is there later.
  later_lem :
      (fuel i : ℕ) (w : World)
      → (bit_and (env.mmio w.asked w.effects (cfg.base + reg_status)) st_queue_done == 0) ≡ true
      → i < suc fuel
      → shows_done (w.asked + i) w.effects ≡ true
      → (j : ℕ) × (j < fuel) × (shows_done (w.asked + 1 + j) w.effects ≡ true)
  later_lem fuel zero w busy lt done = ground arith
  later_lem fuel (suc j) w busy lt done =
      (j, ground arith, ap (λ n. shows_done n w.effects) (omega arith) ∙ done)

  spin_lem :
      (fuel i : ℕ) (w : World)
      → i < fuel
      → shows_done (w.asked + i) w.effects ≡ true
      → (w' : World) × (spin env cfg fuel w ≡ some w') × Did [] w w'
  unfolding spin
  spin_lem zero i w lt done = ground arith
  spin_lem (suc fuel) i w lt done =
      let status = env.mmio w.asked w.effects (cfg.base + reg_status) in
      let w1 = record w { asked = w.asked + 1 } in
      let read : Did [] w w1 = record {
        effects = sym (append-nil w.effects);
        info = refl;
        poll = refl;
      } in
      elim (Bool-cases (bit_and status st_queue_done == 0)) [
        | inl busy ↦
            let (j, before, at) = later_lem fuel i w busy lt done in
            let (w', ran, did) = spin_lem fuel j w1 before at in
            (w', rw busy ran, Did-trans read did)
        | inr finished ↦ (w1, rw finished refl, read)
      ]

  -- The two ways of waiting, by the result of the spin and by the semaphore.
  abbrev after_spin : Option World → Option (Bool × World)
  after_spin spun = elim spun [ none ↦ none | some w1 ↦ some (true, w1) ]

  abbrev after_take : World → Option ℕ → Option (Bool × World)
  after_take w taken = elim taken [
    | none ↦ none
    | some rc ↦ some (rc == 0, record w { asked = w.asked + 1 })
  ]

  abbrev slept : ℕ → ℕ → World → Option (Bool × World)
  slept fuel timeout w = after_take w (env.sem_take w.asked w.effects timeout)

  wait_lem :
      (fuel timeout : ℕ) (w : World)
      → (w.gemm.poll_mode ≡ true
          → (i : ℕ) × (i < fuel) × (shows_done (w.asked + i) w.effects ≡ true))
      → (w.gemm.poll_mode ≡ false → Wakes timeout)
      → (r : Bool × World) × (wait env cfg fuel timeout w ≡ some r)
        × Did [] w r.1
        × (w.gemm.poll_mode ≡ true → r.0 ≡ true)
  unfolding wait
  wait_lem fuel timeout w ends wakes = elim (Bool-cases w.gemm.poll_mode) [
    | inl poll ↦
        let (i, lt, done) = ends poll in
        let (w', ran, did) = spin_lem fuel i w lt done in
        (
          (true, w'),
          ap (λ b. if b then after_spin (spin env cfg fuel w) else slept fuel timeout w) poll
              ∙ ap after_spin ran,
          did,
          λ _. refl,
        )
    | inr sleep ↦
        let w1 = record w { asked = w.asked + 1 } in
        let (rc, taken) = wakes sleep w.asked w.effects in
        (
          (rc == 0, w1),
          ap (λ b. if b then after_spin (spin env cfg fuel w) else slept fuel timeout w) sleep
              ∙ ap (after_take w) taken,
          record { effects = sym (append-nil w.effects); info = refl; poll = refl },
          λ poll. ground arith,
        )
  ]

  pub await_lem :
      (fuel timeout : ℕ) (tiles : List Tile) (int8 : Bool) (marks : ℕ × ℕ) (w : World)
      → (w.gemm.poll_mode ≡ true
          → (i : ℕ) × (i < fuel) × (shows_done (w.asked + i) w.effects ≡ true))
      → (w.gemm.poll_mode ≡ false → Wakes timeout)
      → (r : Status × World) × (await env cfg fuel timeout tiles int8 (marks, w) ≡ some r)
        × Did (closing cfg w.gemm.info tiles int8 r.0) w r.1
        × (was_kicked r.0 ≡ true)
        × (w.gemm.poll_mode ≡ true → r.0 ≡ ok)
  unfolding await
  await_lem fuel timeout tiles int8 marks w ends wakes =
      let ((b, w1), ran, waited, sure) = wait_lem fuel timeout w ends wakes in
      let w2 = interrupt_point env cfg w1 in
      let here = Did-trans waited (interrupt_point-Did env cfg w1) in
      elim (Bool-cases b) [
        | inl signalled ↦
            let w3 = account env cfg marks.0 marks.1 w2 in
            let there = Did-trans here (account-Did env cfg marks.0 marks.1 w2) in
            (
              (ok, collect env cfg tiles int8 w3),
              ap (resumed env cfg tiles int8 marks) ran
                  ∙ ap (λ b. resumed env cfg tiles int8 marks (some (b, w1))) signalled,
              subst
                  (λ (info : Info).
                    Did (invalidations (tile_bytes info int8) tiles ++ (unlock ∷ [])) w
                      (collect env cfg tiles int8 w3))
                  there.info (Did-trans there (collect-Did env cfg tiles int8 w3)),
              refl,
              λ _. refl,
            )
        | inr late ↦ (
          (etimedout, give_up env cfg marks.1 w2),
          ap (resumed env cfg tiles int8 marks) ran
              ∙ ap (λ b. resumed env cfg tiles int8 marks (some (b, w1))) late,
          Did-trans here (give_up-Did env cfg marks.1 w2),
          refl,
          λ poll. let p = sure poll in ground arith,
        )
      ]
