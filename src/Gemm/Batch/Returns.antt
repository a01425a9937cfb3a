-- ===== src/Gemm/Batch/Returns.antt =====
-- `gemm_run_batch` returns, with the status and the effects of the way that it took.
use rv32imac_soc.Common.{
  ℕ, ◌+◌, ◌<◌, ◌≡◌, refl, sym, ◌∙◌, ◌==◌, ltb, Bool, Bool-cases, true, false, ◌&&◌, ◌||◌, inl, inr,
  subst, not, Option, none, some, Status, ok, einval, ebusy, etimedout, enotsup, List, [], ◌∷◌,
  ◌++◌, length, if◌then◌else◌, arith,
}
use mathlib.Core.List.{append-nil}
use rv32imac_soc.Gemm.World.{Env, Info, World}
use rv32imac_soc.Gemm.{Tile, Config, rd, reg_queue_free}
use rv32imac_soc.Gemm.Run.{prepare, kick, await, run_batch}
use rv32imac_soc.Gemm.Submit.{tiles_of, is_batch}
use rv32imac_soc.Gemm.Batch.{
  opening, closing, was_kicked, script, Did, Did-trans, prepare-Did, kick-Did,
}
use rv32imac_soc.Gemm.Batch.Wait.{shows_done, Finishes, Wakes, await_lem}

module _ (env : Env) (cfg : Config) where
  -- Which statuses a call may return.
  abbrev pub may_return : Option (List Tile) → ℕ → Bool → World → Status → Bool
  may_return tiles stride int8 w st =
      let full = ltb (rd env cfg reg_queue_free w).0 (length (tiles_of tiles)) in
      let clash = int8 && not (stride == 0) in
      let accepted = is_batch tiles && (not full && not clash) in
      elim st [
        | ok ↦ accepted
        | etimedout ↦ accepted && not w.gemm.poll_mode
        | ebusy ↦ is_batch tiles && full
        | einval ↦ not (is_batch tiles) || (not full && clash)
        | enotsup ↦ false
      ]

  -- From the lock to the end, for a batch that was not refused.
  accepted_lem :
      (fuel : ℕ) (tiles : List Tile) (stride : ℕ) (int8 : Bool) (shift timeout : ℕ) (w : World)
      → (w.gemm.poll_mode ≡ true → Finishes env cfg fuel)
      → (w.gemm.poll_mode ≡ false → Wakes env cfg timeout)
      → (r : Status × World) × (await env cfg fuel timeout tiles int8
            (kick env cfg (prepare env cfg tiles stride int8 shift w))
          ≡ some r)
        × Did (script cfg w.gemm.info tiles stride int8 shift r.0) w r.1
        × (was_kicked r.0 ≡ true)
        × (w.gemm.poll_mode ≡ true → r.0 ≡ ok)
  accepted_lem fuel tiles stride int8 shift timeout w ends wakes =
      let start = opening cfg w.gemm.info tiles stride int8 shift in
      let wp = prepare env cfg tiles stride int8 shift w in
      let (marks, wk) = kick env cfg wp in
      let prepared = prepare-Did env cfg tiles stride int8 shift w in
      let kicked = kick-Did env cfg wp in
      let opened = Did-trans prepared kicked in
      let (r, ran, did, done, sure) =
        (await_lem env cfg fuel timeout tiles int8 marks wk
          (λ poll.
            subst (λ es. (i : ℕ) × (i < fuel) × (shows_done env cfg (wk.asked + i) es ≡ true))
              (sym kicked.effects) (ends (sym opened.poll ∙ poll) wk.asked wp.effects))
          (λ sleep. wakes (sym opened.poll ∙ sleep))) in
      (
        r,
        ran,
        subst (λ b. Did (if b then start ++ closing cfg w.gemm.info tiles int8 r.0 else []) w r.1)
            (sym done)
            (subst (λ (info : Info). Did (start ++ closing cfg info tiles int8 r.0) w r.1)
              opened.info (Did-trans opened did)),
        done,
        λ poll. sure (opened.poll ∙ poll),
      )

  -- An accepted batch may end with any status of a batch that was kicked, by polling with `ok` alone.
  accepted_may :
      (tiles : Option (List Tile)) (stride : ℕ) (int8 : Bool) (w : World) (st : Status)
      → is_batch tiles ≡ true
      → ltb (rd env cfg reg_queue_free w).0 (length (tiles_of tiles)) ≡ false
      → (int8 && not (stride == 0)) ≡ false
      → was_kicked st ≡ true
      → (w.gemm.poll_mode ≡ true → st ≡ ok)
      → may_return tiles stride int8 w st ≡ true
  accepted_may tiles stride int8 w ok some_tiles fits clear done sure =
      rw (some_tiles, fits, clear) refl
  accepted_may tiles stride int8 w etimedout some_tiles fits clear done sure =
      elim (Bool-cases w.gemm.poll_mode) [
        | inl poll ↦ let late = sure poll in ground arith
        | inr sleep ↦ rw (some_tiles, fits, clear, sleep) refl
      ]
  accepted_may tiles stride int8 w einval some_tiles fits clear done sure = ground arith
  accepted_may tiles stride int8 w ebusy some_tiles fits clear done sure = ground arith
  accepted_may tiles stride int8 w enotsup some_tiles fits clear done sure = ground arith

  -- If, where the driver polls, one of the first `fuel` readings of STATUS after a start of the queue
  -- shows that the queue is done, and, where it sleeps, k_sem_take with the timeout always returns,
  -- then `gemm_run_batch` returns. It returns -EINVAL exactly for an
  -- empty batch, or for one that fits in the queue and asks for a stride in the int8 mode, -EBUSY
  -- exactly if the tiles do not fit in the queue, and else 0 or, only where it does not poll,
  -- -ETIMEDOUT. With each status its effects are the script of that status: nothing at all if the
  -- batch is refused, else, under the lock, the two control registers, each tile's flushes before
  -- its descriptor, the reset of the semaphore before the kick, and after the wait the
  -- invalidation of the destinations, or the soft reset if the wait timed out.
  pub run_batch_lem :
      (fuel : ℕ) (tiles : Option (List Tile)) (stride : ℕ) (int8 : Bool) (shift timeout : ℕ)
      (w : World)
      → (w.gemm.poll_mode ≡ true → Finishes env cfg fuel)
      → (w.gemm.poll_mode ≡ false → Wakes env cfg timeout)
      → (r : Status × World) × (run_batch env cfg fuel tiles stride int8 shift timeout w ≡ some r)
        × (may_return tiles stride int8 w r.0 ≡ true)
        × Did (script cfg w.gemm.info (tiles_of tiles) stride int8 shift r.0) w r.1
  unfolding run_batch
  run_batch_lem fuel none stride int8 shift timeout w ends wakes = (
    (einval, w),
    refl,
    refl,
    record { effects = sym (append-nil w.effects); info = refl; poll = refl },
  )
  run_batch_lem fuel (some []) stride int8 shift timeout w ends wakes = (
    (einval, w),
    refl,
    refl,
    record { effects = sym (append-nil w.effects); info = refl; poll = refl },
  )
  run_batch_lem fuel (some (t ∷ ts)) stride int8 shift timeout w ends wakes =
      let (free, w1) = rd env cfg reg_queue_free w in
      let read : Did [] w w1 = record {
        effects = sym (append-nil w.effects);
        info = refl;
        poll = refl;
      } in
      elim (Bool-cases (ltb free (length (t ∷ ts)))) [
        | inl full ↦ ((ebusy, w1), rw full refl, full, read)
        | inr fits ↦ elim (Bool-cases (int8 && not (stride == 0))) [
          | inl clash ↦ ((einval, w1), rw (fits, clash) refl, rw (fits, clash) refl, read)
          | inr clear ↦
              let (r, ran, did, done, sure) =
                accepted_lem fuel (t ∷ ts) stride int8 shift timeout w1 ends wakes in
              (
                r,
                rw (fits, clear) ran,
                accepted_may (some (t ∷ ts)) stride int8 w r.0 refl fits clear done sure,
                Did-trans read did,
              )
        ]
      ]
