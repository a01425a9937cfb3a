-- ===== src/Gemm/Lock.antt =====
-- How often the calls of the accelerator driver take its lock and give it back.
pub mod Calls
use rv32imac_soc.Common.{
  ℕ, zero, suc, ◌+◌, u32, ◌≡◌, refl, sym, ap, ◌∙◌, subst, ◌==◌, Bool, Bool-cases, true, false, inl,
  inr, not, Option, none, some, Status, ok, einval, ebusy, etimedout, enotsup, List, [], ◌∷◌, ◌++◌,
  if◌then◌else◌, arith,
}
use mathlib.Core.List.{append_assoc}
use rv32imac_soc.Gemm.World.{
  Effect, write, flush, invd, mutex_init, lock, unlock, sem_init, sem_reset, irq_config, irq_enable,
  Env, Info, Data, World,
}
use rv32imac_soc.Gemm.{
  Tile, Config, desc_push, reg_desc_a_src, reg_desc_b_src, reg_desc_dest, reg_desc_push,
  reg_dest_stride, reg_out_ctrl, reg_ctrl, ctrl_start_queue, ctrl_soft_rst, out_ctrl, get_info, isr,
  reset_stats, set_poll_mode, flush_operands, operand_bytes, tile_bytes,
}
use rv32imac_soc.Gemm.Run.{run_batch}
use rv32imac_soc.Gemm.Submit.{
  flush_of, a_flush, operand_flushes, descriptor_writes, submissions, invd_of, invalidations,
  stagings, tiles_of, is_batch, flush_operands_lem,
}
use rv32imac_soc.Gemm.Batch.{opening, closing, was_kicked, script, Did}
use rv32imac_soc.Gemm.Batch.Wait.{Finishes}
use rv32imac_soc.Gemm.Batch.Returns.{run_batch_lem}

-- Whether an effect takes the lock, and whether it gives it back.
abbrev pub takes_lock : Effect → ℕ
takes_lock (write v a) = 0
takes_lock (flush p n) = 0
takes_lock (invd p n) = 0
takes_lock mutex_init = 0
takes_lock lock = 1
takes_lock unlock = 0
takes_lock sem_init = 0
takes_lock sem_reset = 0
takes_lock irq_config = 0
takes_lock (irq_enable i) = 0

abbrev pub gives_lock : Effect → ℕ
gives_lock (write v a) = 0
gives_lock (flush p n) = 0
gives_lock (invd p n) = 0
gives_lock mutex_init = 0
gives_lock lock = 0
gives_lock unlock = 1
gives_lock sem_init = 0
gives_lock sem_reset = 0
gives_lock irq_config = 0
gives_lock (irq_enable i) = 0

-- How often es does what f counts.
abbrev pub count : (Effect → ℕ) → List Effect → ℕ
count f [] = 0
count f (e ∷ es) = f e + count f es

-- The lock has been given back as often as it was taken.
abbrev pub IsReleased : List Effect → Type 0
IsReleased es = count takes_lock es ≡ count gives_lock es

count-append : (f : Effect → ℕ) (es fs : List Effect) → count f (es ++ fs) ≡ count f es + count f fs
count-append f [] fs = omega arith
count-append f (e ∷ es) fs = let rest = count-append f es fs in omega arith

-- Neither register writes nor cache maintenance counts.
record IsQuiet (f : Effect → ℕ) : Type 0 where
  on_write : (v a : ℕ) → f (write v a) ≡ 0
  on_flush : (p n : ℕ) → f (flush p n) ≡ 0
  on_invd : (p n : ℕ) → f (invd p n) ≡ 0

module _ {f : Effect → ℕ} (quiet : IsQuiet f) where
  count-flush_of : (ptr bytes : ℕ) → count f (flush_of ptr bytes) ≡ 0
  count-flush_of ptr bytes = elim (Bool-cases (ptr == 0)) [
    | inl null ↦ rw null refl
    | inr there ↦ rw there (omega (arith, quiet.on_flush ptr bytes))
  ]

  count-invd_of : (ptr bytes : ℕ) → count f (invd_of ptr bytes) ≡ 0
  count-invd_of ptr bytes = elim (Bool-cases (ptr == 0)) [
    | inl null ↦ rw null refl
    | inr there ↦ rw there (omega (arith, quiet.on_invd ptr bytes))
  ]

  count-a_flush : (t : Tile) (bytes : ℕ) → count f (a_flush t bytes) ≡ 0
  count-a_flush t bytes = elim (Bool-cases t.src_coherent) [
    | inl vouched ↦ rw vouched refl
    | inr dirty ↦ elim (Bool-cases t.b_only) [
      | inl reused ↦ rw (dirty, reused) refl
      | inr fetched ↦ rw (dirty, fetched) (count-flush_of t.a_src bytes)
    ]
  ]

  count-submissions :
      (cfg : Config) (info : Info) (ts : List Tile) → count f (submissions cfg info ts) ≡ 0
  count-submissions cfg info [] = refl
  count-submissions cfg info (t ∷ ts) =
      let bytes = operand_bytes info t in
      let rest = descriptor_writes cfg t ++ submissions cfg info ts in
      omega (
        arith,
        count-append f (operand_flushes info t) rest,
        count-append f (a_flush t bytes) (flush_of t.b_src bytes),
        count-a_flush t bytes,
        count-flush_of t.b_src bytes,
        quiet.on_write (u32 t.a_src) (cfg.base + reg_desc_a_src),
        quiet.on_write (u32 t.b_src) (cfg.base + reg_desc_b_src),
        quiet.on_write (u32 t.dest) (cfg.base + reg_desc_dest),
        quiet.on_write (desc_push t) (cfg.base + reg_desc_push),
        count-submissions cfg info ts,
      )

  count-invalidations : (bytes : ℕ) (ts : List Tile) → count f (invalidations bytes ts) ≡ 0
  count-invalidations bytes [] = refl
  count-invalidations bytes (t ∷ ts) = omega (
    arith,
    count-append f (invd_of t.dest bytes) (invalidations bytes ts),
    count-invd_of t.dest bytes,
    count-invalidations bytes ts,
  )

  count-stagings : (info : Info) (ts : List Tile) → count f (stagings info ts) ≡ 0
  count-stagings info [] = refl
  count-stagings info (t ∷ ts) =
      let bytes = operand_bytes info t in
      omega (
        arith,
        count-append f (flush_of t.a_src bytes) (flush_of t.b_src bytes ++ stagings info ts),
        count-append f (flush_of t.b_src bytes) (stagings info ts),
        count-flush_of t.a_src bytes,
        count-flush_of t.b_src bytes,
        count-stagings info ts,
      )

  count-opening :
      (cfg : Config) (info : Info) (ts : List Tile) (stride : ℕ) (int8 : Bool) (shift : ℕ)
      → count f (opening cfg info ts stride int8 shift) ≡ f lock + f sem_reset
  count-opening cfg info ts stride int8 shift = omega (
    arith,
    count-append f (submissions cfg info ts)
        (sem_reset ∷ write ctrl_start_queue (cfg.base + reg_ctrl) ∷ []),
    count-submissions cfg info ts,
    quiet.on_write stride (cfg.base + reg_dest_stride),
    quiet.on_write (out_ctrl int8 shift) (cfg.base + reg_out_ctrl),
    quiet.on_write ctrl_start_queue (cfg.base + reg_ctrl),
  )

  -- A batch that is kicked counts its lock, its reset of the semaphore and its unlock.
  count-script :
      (cfg : Config) (info : Info) (ts : List Tile) (stride : ℕ) (int8 : Bool) (shift : ℕ)
      (st : Status)
      → count f (script cfg info ts stride int8 shift st)
        ≡ (if was_kicked st then f lock + f sem_reset + f unlock else 0)
  count-script cfg info ts stride int8 shift ok = omega (
    arith,
    count-append f (opening cfg info ts stride int8 shift) (closing cfg info ts int8 ok),
    count-opening cfg info ts stride int8 shift,
    count-append f (invalidations (tile_bytes info int8) ts) (unlock ∷ []),
    count-invalidations (tile_bytes info int8) ts,
  )
  count-script cfg info ts stride int8 shift etimedout = omega (
    arith,
    count-append f (opening cfg info ts stride int8 shift) (closing cfg info ts int8 etimedout),
    count-opening cfg info ts stride int8 shift,
    quiet.on_write ctrl_soft_rst (cfg.base + reg_ctrl),
  )
  count-script cfg info ts stride int8 shift einval = refl
  count-script cfg info ts stride int8 shift ebusy = refl
  count-script cfg info ts stride int8 shift enotsup = refl

takes-IsQuiet : IsQuiet takes_lock
takes-IsQuiet = record { on_write = λ v a. refl; on_flush = λ p n. refl; on_invd = λ p n. refl }

gives-IsQuiet : IsQuiet gives_lock
gives-IsQuiet = record { on_write = λ v a. refl; on_flush = λ p n. refl; on_invd = λ p n. refl }

-- What a call does to the effects keeps the lock released if it counts as many of each.
pub IsReleased-append :
    (es fs : List Effect) → IsReleased es → IsReleased fs → IsReleased (es ++ fs)
IsReleased-append es fs before call =
    omega (arith, count-append takes_lock es fs, count-append gives_lock es fs, before, call)

pub script-IsReleased :
    (cfg : Config) (info : Info) (ts : List Tile) (stride : ℕ) (int8 : Bool) (shift : ℕ)
    (st : Status)
    → IsReleased (script cfg info ts stride int8 shift st)
script-IsReleased cfg info ts stride int8 shift st =
    count-script takes-IsQuiet cfg info ts stride int8 shift st
    ∙ sym (count-script gives-IsQuiet cfg info ts stride int8 shift st)

stagings-IsReleased : (info : Info) (ts : List Tile) → IsReleased (stagings info ts)
stagings-IsReleased info ts =
    count-stagings takes-IsQuiet info ts ∙ sym (count-stagings gives-IsQuiet info ts)

pub staged-IsReleased :
    (info : Info) (ts : List Tile) (b : Bool) → IsReleased (if b then stagings info ts else [])
staged-IsReleased info ts true = stagings-IsReleased info ts
staged-IsReleased info ts false = refl
