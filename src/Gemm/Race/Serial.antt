-- ===== src/Gemm/Race/Serial.antt =====
-- The batches of threads that race for the accelerator are serial.
use rv32imac_soc.Common.{
  ℕ, ◌+◌, ◌≡◌, refl, sym, ap, ◌∙◌, subst, Bool, Option, none, some, Status, List, [], ◌∷◌, ◌++◌,
  if◌then◌else◌,
}
use mathlib.Core.List.{append-nil, append_assoc}
use rv32imac_soc.Gemm.World.{Effect, write, sem_reset, lock, unlock, Env, Info, Data, World}
use rv32imac_soc.Gemm.{
  Tile, Config, isr, submit, set_poll_mode, reset_stats, flush_operands, reg_ctrl, ctrl_start_queue,
}
use rv32imac_soc.Gemm.Run.{enter, settle, kick, await}
use rv32imac_soc.Gemm.Submit.{submissions, tiles_of, is_batch, flush_operands_lem}
use rv32imac_soc.Gemm.Batch.{opening, closing, Did, Did-trans, kick-Did}
use rv32imac_soc.Gemm.Race.{
  Job, outside, admitted, pushing, kicked, batch, mode, Machine, move, refused, one_pushed, started,
  Step, refuse, admit, take_lock, push, start, finish, choose_mode, stage_operands, clear_stats,
  interrupt, Steps, still, followed,
}
use rv32imac_soc.Gemm.Race.Woven.{Woven, begun, Woven-append, Woven-staged}
use rv32imac_soc.Gemm.Race.Owner.{inside, holds}
use rv32imac_soc.Gemm.Race.Inv.{
  all_done, begun_by, under_way, Divides, Inv, submissions-append, idle, outside_step, inside_step,
  take_step, leave_step, all_done-append,
}
use rv32imac_soc.Gemm.Race.Pieces.{entrance, enter-Did, settle-Did, submit-Did, await-Ended}

module _ (env : Env) (cfg : Config) (fuel : ℕ) where
  refused-quiet :
      (tiles : Option (List Tile)) (stride : ℕ) (int8 : Bool) (w : World)
      → ((refused env cfg tiles stride int8 w).1.effects ≡ w.effects)
        × ((refused env cfg tiles stride int8 w).1.gemm ≡ w.gemm)
  unfolding refused
  refused-quiet none stride int8 w = (refl, refl)
  refused-quiet (some []) stride int8 w = (refl, refl)
  refused-quiet (some (t ∷ ts)) stride int8 w = (refl, refl)

  module _ {before : List Effect} {info : Info} where
    pushed-Inv :
        (i : ℕ) (job : Job) (pushed : List Tile) (t : Tile) (rest : List Tile) (t_mark spent : ℕ)
        {m : Machine}
        → m.stage i ≡ pushing job pushed (t ∷ rest) t_mark spent
        → Inv cfg before info m
        → Inv cfg before info (one_pushed env cfg i job pushed t rest t_mark spent m)
    pushed-Inv i job pushed t rest t_mark spent {m} at inv =
        let (spent', w) = submit env cfg (t ∷ []) spent m.world in
        let entry = entrance cfg job.stride job.int8 job.shift in
        inside_step i (pushing job (pushed ++ (t ∷ [])) rest t_mark spent') w (ap inside at) refl
          (append_assoc pushed (t ∷ []) rest ∙ subst Divides at (inv.divides i))
          (ap (λ es. entry ++ es) (submissions-append cfg info pushed (t ∷ []))
            ∙ sym (append_assoc entry (submissions cfg info pushed) (submissions cfg info (t ∷ [])))
            ∙ ap (λ s. begun_by cfg info s ++ submissions cfg info (t ∷ [])) (sym at))
          (subst (λ (g : Info). Did (submissions cfg g (t ∷ [])) m.world w) inv.geometry
            (submit-Did env cfg (t ∷ []) spent m.world))
          inv

    started-Inv :
        (i : ℕ) (job : Job) (pushed : List Tile) (t_mark spent : ℕ) {m : Machine}
        → m.stage i ≡ pushing job pushed [] t_mark spent
        → Inv cfg before info m
        → Inv cfg before info (started env cfg i job t_mark spent m)
    started-Inv i job pushed t_mark spent {m} at inv =
        let (marks, w) = kick env cfg (settle env cfg t_mark spent m.world) in
        let kicks = sem_reset ∷ write ctrl_start_queue (cfg.base + reg_ctrl) ∷ [] in
        let entry = entrance cfg job.stride job.int8 job.shift in
        let all : tiles_of job.tiles ≡ pushed =
          sym (subst Divides at (inv.divides i)) ∙ append-nil pushed in
        inside_step i (kicked job marks) w (ap inside at) refl tt
          (ap (λ ts. opening cfg info ts job.stride job.int8 job.shift) all
            ∙ sym (append_assoc entry (submissions cfg info pushed) kicks)
            ∙ ap (λ s. begun_by cfg info s ++ kicks) (sym at))
          (Did-trans (settle-Did env cfg t_mark spent m.world)
            (kick-Did env cfg (settle env cfg t_mark spent m.world)))
          inv

    finished-Inv :
        (i : ℕ) (job : Job) (marks : ℕ × ℕ) (st : Status) (w : World) {m : Machine}
        → m.stage i ≡ kicked job marks
        → await env cfg fuel job.timeout (tiles_of job.tiles) job.int8 (marks, m.world)
          ≡ some (st, w)
        → Inv cfg before info m
        → Inv cfg before info (record m {
          world = w;
          owner = none;
          stage = move i outside m.stage;
          log = m.log ++ (batch job st ∷ []);
        })
    finished-Inv i job marks st w {m} at ended inv =
        let (done, did) =
          await-Ended env cfg fuel job.timeout (tiles_of job.tiles) job.int8 marks m.world st w
            ended in
        let close = closing cfg info (tiles_of job.tiles) job.int8 st in
        leave_step i (batch job st) w (ap inside at)
          (ap (λ s. begun_by cfg info s ++ close) at
            ∙ ap
                (λ b.
                  if b
                  then opening cfg info (tiles_of job.tiles) job.stride job.int8 job.shift ++ close
                  else [])
                (sym done))
          (subst (λ (g : Info). Did (closing cfg g (tiles_of job.tiles) job.int8 st) m.world w)
            inv.geometry did)
          inv

    chosen-Inv :
        (poll : Bool) {m : Machine}
        → m.owner ≡ none
        → Inv cfg before info m
        → Inv cfg before info
            (record m { world = set_poll_mode env cfg poll m.world; log = m.log ++ (mode ∷ []) })
    unfolding set_poll_mode
    chosen-Inv poll {m} free inv = record {
      owned = inv.owned;
      divides = inv.divides;
      geometry = inv.geometry;
      traced =
          subst (λ es. Woven before es ((m.world.effects ++ (lock ∷ [])) ++ (unlock ∷ [])))
            (append_assoc (all_done cfg info m.log) _ (lock ∷ unlock ∷ [])
              ∙ ap (λ es. all_done cfg info m.log ++ es)
                  (ap (λ o. under_way cfg info o m.stage ++ (lock ∷ unlock ∷ [])) free)
              ∙ sym (all_done-append cfg info m.log mode)
              ∙ sym (append-nil _)
              ∙ ap (λ o. all_done cfg info (m.log ++ (mode ∷ [])) ++ under_way cfg info o m.stage)
                  (sym free))
            (subst (Woven before _) (sym (append_assoc m.world.effects (lock ∷ []) (unlock ∷ [])))
              (Woven-append (lock ∷ unlock ∷ []) inv.traced));
    }

    staged-Inv :
        (tiles : Option (List Tile)) {m : Machine}
        → Inv cfg before info m
        → Inv cfg before info (record m { world = (flush_operands env cfg tiles m.world).1 })
    staged-Inv tiles {m} inv =
        let (status, effects, gemm) = flush_operands_lem env cfg tiles m.world in
        record {
          owned = inv.owned;
          divides = inv.divides;
          geometry = ap (λ (d : Data). d.info) gemm ∙ inv.geometry;
          traced =
              subst (Woven before _) (sym effects)
                (Woven-staged m.world.gemm.info (tiles_of tiles) (is_batch tiles) inv.traced);
        }

    Step-Inv :
        {m m' : Machine} → Step env cfg fuel m m' → Inv cfg before info m → Inv cfg before info m'
    unfolding reset_stats isr
    Step-Inv (refuse i job st {m} at said) inv =
        let (quiet, same) = refused-quiet job.tiles job.stride job.int8 m.world in
        idle _ quiet (ap (λ (d : Data). d.info) same) inv
    Step-Inv (admit i job {m} at said) inv =
        let (quiet, same) = refused-quiet job.tiles job.stride job.int8 m.world in
        outside_step i (admitted job) _ (ap inside at) refl tt quiet
          (ap (λ (d : Data). d.info) same) inv
    Step-Inv (take_lock i job {m} at free) inv =
        take_step i _ _ free refl refl
          (subst (λ es. Did es m.world (enter env cfg job.stride job.int8 job.shift m.world).1)
            (sym (append-nil _)) (enter-Did env cfg job.stride job.int8 job.shift m.world))
          inv
    Step-Inv (push i job pushed t rest t_mark spent at) inv =
        pushed-Inv i job pushed t rest t_mark spent at inv
    Step-Inv (start i job pushed t_mark spent at) inv = started-Inv i job pushed t_mark spent at inv
    Step-Inv (finish i job marks st w at ended) inv = finished-Inv i job marks st w at ended inv
    Step-Inv (choose_mode i poll at free) inv = chosen-Inv poll free inv
    Step-Inv (stage_operands i tiles at) inv = staged-Inv tiles inv
    Step-Inv (clear_stats i {m} at) inv = idle _ refl refl inv
    Step-Inv (interrupt {m}) inv = idle _ refl refl inv

    Steps-Inv :
        {m m' : Machine} → Steps env cfg fuel m m' → Inv cfg before info m → Inv cfg before info m'
    Steps-Inv still inv = inv
    Steps-Inv (followed before step) inv = Step-Inv step (Steps-Inv before inv)

  -- A machine in which no thread is in the driver and nothing was done yet.
  pub record IsFresh (m : Machine) : Type 0 where
    pub free : m.owner ≡ none
    pub none_inside : (i : ℕ) → m.stage i ≡ outside
    pub nothing_done : m.log ≡ []

  -- Threads call the driver at the same time, and switch before the lock, between two descriptors,
  -- before the kick and during the wait. Then at most one thread is between the lock and the unlock,
  -- the one that holds the lock; and at each moment what the driver has done is the scripts of the
  -- batches that are over, with the statuses that they returned, and the locks of the changes of
  -- mode, one whole after the other in the order of the lock, then what the thread that holds the
  -- lock has done so far, with nothing in between but the flushes of gemm_flush_operands. The
  -- geometry is kept.
  pub Steps-serial :
      (m m' : Machine)
      → IsFresh m
      → Steps env cfg fuel m m'
      → let info = m.world.gemm.info in
        ((i : ℕ) → inside (m'.stage i) ≡ holds m'.owner i)
        × Woven m.world.effects
            (all_done cfg info m'.log ++ under_way cfg info m'.owner m'.stage)
            m'.world.effects
        × (m'.world.gemm.info ≡ info)
  Steps-serial m m' fresh steps =
      let start_Inv : Inv cfg m.world.effects m.world.gemm.info m = record {
        owned = λ j. ap inside (fresh.none_inside j) ∙ ap (λ o. holds o j) (sym fresh.free);
        divides = λ j. subst Divides (sym (fresh.none_inside j)) tt;
        geometry = refl;
        traced =
            subst (λ es. Woven m.world.effects es m.world.effects)
              (sym (
                ap
                  (λ l.
                    all_done cfg m.world.gemm.info l
                    ++ under_way cfg m.world.gemm.info m.owner m.stage)
                  fresh.nothing_done
                ∙ ap (λ o. under_way cfg m.world.gemm.info o m.stage) fresh.free))
              begun;
      } in
      let inv = Steps-Inv steps start_Inv in (inv.owned, inv.traced, inv.geometry)
