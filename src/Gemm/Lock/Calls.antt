-- ===== src/Gemm/Lock/Calls.antt =====
-- The lock and the geometry of the accelerator driver over any sequence of calls.
use rv32imac_soc.Common.{
  Yields, Yields-if, some_result, ltb, ◌==◌, ◌&&◌, not, length, ◌++◌, if◌then◌else◌, ℕ, ◌≡◌, refl,
  sym, ap, ◌∙◌, subst, Bool, Option, none, some, Status, List, [], ◌∷◌,
}
use mathlib.Core.List.{append-nil, append_assoc}
use rv32imac_soc.Gemm.World.{lock, unlock, Env, Info, Data, World}
use rv32imac_soc.Gemm.{
  Tile, Config, rd, reg_queue_free, get_info, isr, reset_stats, set_poll_mode, flush_operands,
}
use rv32imac_soc.Gemm.Run.{prepare, kick, await, run_batch}
use rv32imac_soc.Gemm.Submit.{tiles_of, is_batch, flush_operands_lem}
use rv32imac_soc.Gemm.Batch.{opening, closing, script, Did, Did-trans, prepare-Did, kick-Did}
use rv32imac_soc.Gemm.Race.Pieces.{await-Ended}
use rv32imac_soc.Gemm.Lock.{IsReleased, IsReleased-append, script-IsReleased, staged-IsReleased}

-- What holds of each result holds of the result, if there is one.
Yields-all :
    {A : Type 0} (P : A → Type 0) (o : Option A) → ((r : A) → o ≡ some r → P r) → Yields P o
Yields-all P none h = tt
Yields-all P (some r) h = h r refl

module _ (env : Env) (cfg : Config) (fuel : ℕ) where
  -- A batch that returns has had the effects of its status.
  kicked-Did :
      (tiles : List Tile) (stride : ℕ) (int8 : Bool) (shift timeout : ℕ) (w : World)
      (r : Status × World)
      → await env cfg fuel timeout tiles int8
          (kick env cfg (prepare env cfg tiles stride int8 shift w))
        ≡ some r
      → Did (script cfg w.gemm.info tiles stride int8 shift r.0) w r.1
  kicked-Did tiles stride int8 shift timeout w r ran =
      let start = opening cfg w.gemm.info tiles stride int8 shift in
      let wp = prepare env cfg tiles stride int8 shift w in
      let (marks, wk) = kick env cfg wp in
      let opened =
        Did-trans (prepare-Did env cfg tiles stride int8 shift w) (kick-Did env cfg wp) in
      let (done, did) = await-Ended env cfg fuel timeout tiles int8 marks wk r.0 r.1 ran in
      subst (λ b. Did (if b then start ++ closing cfg w.gemm.info tiles int8 r.0 else []) w r.1)
        (sym done)
        (subst (λ (info : Info). Did (start ++ closing cfg info tiles int8 r.0) w r.1) opened.info
          (Did-trans opened did))

  returned-Did :
      (tiles : Option (List Tile)) (stride : ℕ) (int8 : Bool) (shift timeout : ℕ) (w : World)
      → Yields
          (λ (r : Status × World).
            Did (script cfg w.gemm.info (tiles_of tiles) stride int8 shift r.0) w r.1)
          (run_batch env cfg fuel tiles stride int8 shift timeout w)
  unfolding run_batch
  returned-Did none stride int8 shift timeout w = record {
    effects = sym (append-nil w.effects);
    info = refl;
    poll = refl;
  }
  returned-Did (some []) stride int8 shift timeout w = record {
    effects = sym (append-nil w.effects);
    info = refl;
    poll = refl;
  }
  returned-Did (some (t ∷ ts)) stride int8 shift timeout w =
      let (free, w1) = rd env cfg reg_queue_free w in
      let read : Did [] w w1 = record {
        effects = sym (append-nil w.effects);
        info = refl;
        poll = refl;
      } in
      let P = (λ (r : Status × World).
        Did (script cfg w.gemm.info (t ∷ ts) stride int8 shift r.0) w r.1) in
      Yields-if P (ltb free (length (t ∷ ts))) _ _ read (
        Yields-if P (int8 && not (stride == 0)) _ _ read (
          Yields-all P _
            (λ r ran. Did-trans read (kicked-Did (t ∷ ts) stride int8 shift timeout w1 r ran))))

  -- A call of the driver's interface that changes the world, and an interrupt between two calls.
  pub data Call : World → World → Type 0 where
    flushed : (tiles : Option (List Tile)) {w : World} → Call w (flush_operands env cfg tiles w).1
    mode_set : (poll : Bool) {w : World} → Call w (set_poll_mode env cfg poll w)
    stats_reset : {w : World} → Call w (reset_stats env cfg w)
    submitted :
        (tiles : Option (List Tile)) (stride : ℕ) (int8 : Bool) (shift timeout : ℕ) {st : Status}
        {w w' : World}
        → run_batch env cfg fuel tiles stride int8 shift timeout w ≡ some (st, w')
        → Call w w'
    interrupt : {w : World} → Call w (isr env cfg w)

  pub data Calls : World → World → Type 0 where
    none_made : {w : World} → Calls w w
    made : {w w1 w' : World} → Call w w1 → Calls w1 w' → Calls w w'

  -- A world whose lock is released, of the given geometry.
  record Sound (info : Info) (w : World) : Type 0 where
    released : IsReleased w.effects
    geometry : w.gemm.info ≡ info

  Call-Sound : {info : Info} {w w' : World} → Call w w' → Sound info w → Sound info w'
  unfolding set_poll_mode reset_stats isr
  Call-Sound {info} (flushed tiles {w}) here =
      let (status, effects, gemm) = flush_operands_lem env cfg tiles w in
      record {
        released = subst IsReleased (sym effects) (
            IsReleased-append w.effects _ here.released
              (staged-IsReleased w.gemm.info (tiles_of tiles) (is_batch tiles)));
        geometry = ap (λ (d : Data). d.info) gemm ∙ here.geometry;
      }
  Call-Sound {info} (mode_set poll {w}) here = record {
    released =
        subst IsReleased (sym (append_assoc w.effects (lock ∷ []) (unlock ∷ [])))
          (IsReleased-append w.effects (lock ∷ unlock ∷ []) here.released refl);
    geometry = here.geometry;
  }
  Call-Sound {info} stats_reset here = record { released = here.released; geometry = here.geometry }
  Call-Sound {info} (submitted tiles stride int8 shift timeout {st} {w} {w'} returned) here =
      let batch = script cfg w.gemm.info (tiles_of tiles) stride int8 shift st in
      let did =
        some_result
          (λ (r : Status × World).
            Did (script cfg w.gemm.info (tiles_of tiles) stride int8 shift r.0) w r.1)
          _ (st, w') returned (returned-Did tiles stride int8 shift timeout w) in
      record {
        released = subst IsReleased (sym did.effects) (
            IsReleased-append w.effects batch here.released
              (script-IsReleased cfg w.gemm.info (tiles_of tiles) stride int8 shift st));
        geometry = did.info ∙ here.geometry;
      }
  Call-Sound {info} interrupt here = record { released = here.released; geometry = here.geometry }

  Calls-Sound : {info : Info} {w w' : World} → Calls w w' → Sound info w → Sound info w'
  Calls-Sound none_made here = here
  Calls-Sound (made c cs) here = Calls-Sound cs (Call-Sound c here)

  -- After any sequence of calls of the driver that return, with interrupts between them, the lock has
  -- been given back as often as it was taken, whatever the calls return, if it was so before, and the
  -- geometry that `gemm_get_info` hands out is the one of the beginning.
  pub Calls-IsReleased :
      (w w' : World)
      → Calls w w'
      → IsReleased w.effects
      → IsReleased w'.effects × (get_info env cfg w' ≡ get_info env cfg w)
  unfolding get_info
  Calls-IsReleased w w' cs before =
      let after = Calls-Sound cs (record { released = before; geometry = refl }) in
      (after.released, after.geometry)
