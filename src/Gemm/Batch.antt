-- ===== src/Gemm/Batch.antt =====
-- What `gemm_run_batch` does on the outside, on each way through it.
pub mod Wait
pub mod Returns
pub mod Signals
use rv32imac_soc.Common.{
  ℕ, zero, suc, ◌+◌, ◌≡◌, refl, sym, ap, ◌∙◌, ◌==◌, ltb, Bool, Bool-cases, true, false, ◌&&◌, inl,
  inr, not, Option, none, some, Status, ok, einval, ebusy, etimedout, enotsup, List, [], ◌∷◌, ◌++◌,
  length, bit_and, if◌then◌else◌, arith,
}
use mathlib.Core.List.{append-nil, append_assoc}
use rv32imac_soc.Gemm.World.{
  Effect, write, flush, invd, lock, unlock, sem_reset, Env, Info, Data, World, emit, ask,
}
use rv32imac_soc.Gemm.{
  Tile, Config, W, isr, interrupt_point, rd, spin, wait, out_ctrl, tile_bytes, reg_ctrl,
  reg_dest_stride, reg_out_ctrl, reg_queue_free, ctrl_soft_rst, ctrl_start_queue, submit,
  drop_dests,
}
use rv32imac_soc.Gemm.Run.{prepare, note_early, kick, give_up, account, collect, await, run_batch}
use rv32imac_soc.Gemm.Submit.{submissions, invalidations, submit_lem, drop_dests_lem}

-- The part of a batch up to the kick, the kick included.
abbrev pub opening : Config → Info → List Tile → ℕ → Bool → ℕ → List Effect
opening cfg info tiles stride int8 shift =
    lock
    ∷ write stride (cfg.base + reg_dest_stride)
    ∷ write (out_ctrl int8 shift) (cfg.base + reg_out_ctrl)
    ∷ (submissions cfg info tiles
        ++ (sem_reset ∷ write ctrl_start_queue (cfg.base + reg_ctrl) ∷ []))

-- The part of a batch after the wait: the stale lines of the results are dropped, or the
-- accelerator is reset.
abbrev pub closing : Config → Info → List Tile → Bool → Status → List Effect
closing cfg info tiles int8 ok = invalidations (tile_bytes info int8) tiles ++ (unlock ∷ [])
closing cfg info tiles int8 etimedout = write ctrl_soft_rst (cfg.base + reg_ctrl) ∷ unlock ∷ []
closing cfg info tiles int8 einval = []
closing cfg info tiles int8 ebusy = []
closing cfg info tiles int8 enotsup = []

-- Whether a batch with this status was kicked.
abbrev pub was_kicked : Status → Bool
was_kicked ok = true
was_kicked etimedout = true
was_kicked einval = false
was_kicked ebusy = false
was_kicked enotsup = false

-- All effects of a batch with the given status.
abbrev pub script : Config → Info → List Tile → ℕ → Bool → ℕ → Status → List Effect
script cfg info tiles stride int8 shift st =
    if was_kicked st
    then opening cfg info tiles stride int8 shift ++ closing cfg info tiles int8 st
    else []

-- From w to w' the driver did es, and kept its geometry and its way of waiting.
pub record Did (es : List Effect) (w w' : World) : Type 0 where
  pub effects : w'.effects ≡ w.effects ++ es
  pub info : w'.gemm.info ≡ w.gemm.info
  pub poll : w'.gemm.poll_mode ≡ w.gemm.poll_mode

pub Did-trans :
    {es fs : List Effect} {w w1 w2 : World} → Did es w w1 → Did fs w1 w2 → Did (es ++ fs) w w2
Did-trans {es} {fs} {w} p q = record {
  effects = q.effects ∙ ap (λ xs. xs ++ fs) p.effects ∙ append_assoc w.effects es fs;
  info = q.info ∙ p.info;
  poll = q.poll ∙ p.poll;
}

module _ (env : Env) (cfg : Config) where
  pub interrupt_point-Did : (w : World) → Did [] w (interrupt_point env cfg w)
  unfolding interrupt_point
  interrupt_point-Did w = elim (Bool-cases (env.interrupted w.asked w.effects)) [
    | inl taken ↦ record { effects = rw (taken, append-nil); info = rw taken; poll = rw taken }
    | inr quiet ↦ record { effects = rw (quiet, append-nil); info = rw quiet; poll = rw quiet }
  ]

  pub prepare-Did :
      (tiles : List Tile) (stride : ℕ) (int8 : Bool) (shift : ℕ) (w : World)
      → Did
          (lock
            ∷ write stride (cfg.base + reg_dest_stride)
            ∷ write (out_ctrl int8 shift) (cfg.base + reg_out_ctrl)
            ∷ submissions cfg w.gemm.info tiles)
          w
          (prepare env cfg tiles stride int8 shift w)
  unfolding prepare
  prepare-Did tiles stride int8 shift w =
      let w4 = (record w {
        asked = w.asked + 1;
        effects =
            ((w.effects ++ (lock ∷ [])) ++ (write stride (cfg.base + reg_dest_stride) ∷ []))
            ++ (write (out_ctrl int8 shift) (cfg.base + reg_out_ctrl) ∷ []);
      }) in
      let (e, g) = submit_lem env cfg tiles 0 w4 in
      record {
        effects = e ∙ simp append_assoc;
        info = ap (λ (d : Data). d.info) g;
        poll = ap (λ (d : Data). d.poll_mode) g;
      }

  note_early-Did : (count : ℕ) (w : World) → Did [] w (note_early env cfg count w)
  unfolding note_early
  note_early-Did count w = elim (Bool-cases (ltb 0 count)) [
    | inl early ↦ record { effects = rw (early, append-nil); info = rw early; poll = rw early }
    | inr late ↦ record { effects = rw (late, append-nil); info = rw late; poll = rw late }
  ]

  pub kick-Did :
      (w : World)
      → Did (sem_reset ∷ write ctrl_start_queue (cfg.base + reg_ctrl) ∷ []) w (kick env cfg w).1
  unfolding kick
  kick-Did w =
      let w1 = (record w {
        gemm = record w.gemm { isr_fired = false };
        effects =
            (w.effects ++ (sem_reset ∷ [])) ++ (write ctrl_start_queue (cfg.base + reg_ctrl) ∷ []);
      }) in
      let p = interrupt_point-Did w1 in
      let w2 = interrupt_point env cfg w1 in
      let w3 = record w2 { asked = w2.asked + 1 + 1 } in
      let q = note_early-Did (env.sem_count (w2.asked + 1) w2.effects) w3 in
      record {
        effects =
            q.effects
            ∙ append-nil w3.effects
            ∙ p.effects
            ∙ append-nil w1.effects
            ∙ append_assoc w.effects (sem_reset ∷ []) _;
        info = q.info ∙ p.info;
        poll = q.poll ∙ p.poll;
      }

  pub give_up-Did :
      (t_mark : ℕ) (w : World)
      → Did (write ctrl_soft_rst (cfg.base + reg_ctrl) ∷ unlock ∷ []) w (give_up env cfg t_mark w)
  unfolding give_up
  give_up-Did t_mark w = record { effects = append_assoc w.effects _ _; info = refl; poll = refl }

  pub account-Did : (t_kick t_mark : ℕ) (w : World) → Did [] w (account env cfg t_kick t_mark w)
  unfolding account
  account-Did t_kick t_mark w = record {
    effects = sym (append-nil w.effects);
    info = refl;
    poll = refl;
  }

  pub collect-Did :
      (tiles : List Tile) (int8 : Bool) (w : World)
      → Did
          (invalidations (tile_bytes w.gemm.info int8) tiles ++ (unlock ∷ []))
          w
          (collect env cfg tiles int8 w)
  unfolding collect
  collect-Did tiles int8 w =
      let (e, g) =
        drop_dests_lem env cfg (tile_bytes w.gemm.info int8) tiles
          (record w { asked = w.asked + 1 }) in
      record {
        effects = ap (λ es. es ++ (unlock ∷ [])) e ∙ append_assoc w.effects _ _;
        info = ap (λ (d : Data). d.info) g;
        poll = ap (λ (d : Data). d.poll_mode) g;
      }
