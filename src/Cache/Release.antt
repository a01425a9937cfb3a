-- ===== src/Cache/Release.antt =====
-- The driver's walks on the cache of src/dcache_bram.v: which lines they make the cache let go of.
use rv32imac_soc.Common.{
  ℕ, zero, suc, ◌+◌, ◌*◌, ◌/◌, ◌%◌, ◌≤◌, ◌<◌, ◌≡◌, ◌≢◌, ◌⊎◌, refl, sym, ap, ◌∙◌, ◌==◌, ==_iff, true,
  false, ◌&&◌, not, arith,
}
use native.Mathlib.Nat.{div-add-mod, mod-lt, add-mul-mod_self_left}
use native.Mathlib.Decide.{dec_lt}
use rv32imac_soc.Cache.{Config, dc_sets, IsBuilt, displace_set}
use rv32imac_soc.Cache.Hw.{Memory, idx, resident, access, load}
use rv32imac_soc.Cache.Walk.{displace_lines, run_of}
use rv32imac_soc.Cache.Displace.{backed, access_other}

-- The driver was configured for this cache: its set count is a multiple of the cache's own.
pub record Fits (cfg : Config) (num_sets : ℕ) : Type 0 where
  pub built : IsBuilt cfg
  pub pos : 0 < num_sets
  pub sets_multiple : dc_sets cfg % num_sets ≡ 0

-- A line that is not one of `displace_buf`.
abbrev pub Outside : Config → ℕ → Type 0
Outside cfg lb = (lb < cfg.displace_buf / 16) ⊎ (cfg.displace_buf / 16 + dc_sets cfg ≤ lb)

module _ {cfg : Config} {num_sets : ℕ} (fits : Fits cfg num_sets) where
  pub sets_pos : 0 < dc_sets cfg
  sets_pos = omega (arith, fits.built.whole, fits.built.some_set)

  buf_sets : cfg.displace_buf / 16 ≡ dc_sets cfg * (cfg.displace_buf / cfg.dc_bytes)
  buf_sets =
      let whole : cfg.dc_bytes ≡ 16 * dc_sets cfg = omega (arith, fits.built.whole) in
      omega (
        arith,
        div-add-mod cfg.displace_buf cfg.dc_bytes,
        fits.built.aligned,
        ap (λ t. t * (cfg.displace_buf / cfg.dc_bytes)) whole,
      )

  sets_split : dc_sets cfg ≡ num_sets * (dc_sets cfg / num_sets)
  sets_split = omega (arith, div-add-mod (dc_sets cfg) num_sets, fits.sets_multiple)

  -- Adding a multiple of the driver's set count does not change the set in the cache.
  add_sets : (x q : ℕ) → (x + dc_sets cfg * q) % num_sets ≡ x % num_sets
  add_sets x q =
      let regroup : x + dc_sets cfg * q ≡ x + num_sets * (dc_sets cfg / num_sets * q) =
        omega (arith, ap (λ t. t * q) sets_split) in
      ap (λ t. t % num_sets) regroup ∙ add-mul-mod_self_left x num_sets (dc_sets cfg / num_sets * q)

  -- The line of `displace_buf` for a line lies in that line's set of the cache.
  alias_idx : (la : ℕ) → idx num_sets (cfg.displace_buf / 16 + la % dc_sets cfg) ≡ idx num_sets la
  alias_idx la =
      let here : cfg.displace_buf / 16 + la % dc_sets cfg
          ≡ la % dc_sets cfg + dc_sets cfg * (cfg.displace_buf / cfg.dc_bytes) =
        omega (arith, buf_sets) in
      let there : la % dc_sets cfg + dc_sets cfg * (la / dc_sets cfg) ≡ la =
        omega (arith, div-add-mod la (dc_sets cfg)) in
      ap (λ t. t % num_sets) here
      ∙ add_sets (la % dc_sets cfg) (cfg.displace_buf / cfg.dc_bytes)
      ∙ sym (add_sets (la % dc_sets cfg) (la / dc_sets cfg))
      ∙ ap (λ t. t % num_sets) there

  -- A displacement is an access of the alias.
  displace_set-access :
      (la : ℕ) (m : Memory)
      → (displace_set (load num_sets) cfg (la % dc_sets cfg) m).1
        ≡ access num_sets (cfg.displace_buf / 16 + la % dc_sets cfg) m
  unfolding displace_set load
  displace_set-access la m =
      ap (λ t. access num_sets t m) {x = (cfg.displace_buf + la % dc_sets cfg * 16) / 16}
        {y = cfg.displace_buf / 16 + la % dc_sets cfg} (omega arith)

  -- One displacement, seen from a line that is not in `displace_buf`.
  pub displace_step :
      (la lb : ℕ) (m : Memory)
      → Outside cfg lb
      → let m' = (displace_set (load num_sets) cfg (la % dc_sets cfg) m).1 in
        (backed num_sets fits.pos lb m' ≡ backed num_sets fits.pos lb m)
        × (resident num_sets lb m'
            ≡ (resident num_sets lb m && not (idx num_sets la == idx num_sets lb)))
  displace_step la lb m out =
      let alias = cfg.displace_buf / 16 + la % dc_sets cfg in
      let other : alias ≢ lb = omega (arith, mod-lt la sets_pos) in
      rw (displace_set-access la m, ← alias_idx la)
        (access_other num_sets fits.pos alias lb m other)

  -- A walk changes what no line outside the buffer is backed by, and lets go of each line that
  -- shares its set of the driver with a line of the walk.
  pub walk_lem :
      (n a lb : ℕ) (m : Memory)
      → Outside cfg lb
      → let m' = displace_lines (load num_sets) cfg (run_of a n) m in
        (backed num_sets fits.pos lb m' ≡ backed num_sets fits.pos lb m)
        × (resident num_sets lb m ≡ false → resident num_sets lb m' ≡ false)
        × ((x : ℕ)
            → a ≤ x
            → x < a + n
            → idx num_sets x ≡ idx num_sets lb
            → resident num_sets lb m' ≡ false)
  walk_lem zero a lb m out = (refl, λ h. h, λ x lo hi e. absurd (omega arith))
  walk_lem (suc n) a lb m out =
      let m1 = (displace_set (load num_sets) cfg (a % dc_sets cfg) m).1 in
      let step = displace_step a lb m out in
      let rest = walk_lem n (a + 1) lb m1 out in
      (
        rest.0 ∙ step.0,
        λ h. rest.1 (step.1 ∙ ap (λ t. t && not (idx num_sets a == idx num_sets lb)) h),
        λ x lo hi e. elim (dec_lt a x) [
          | yes later ↦ rest.2 x (omega arith) (omega arith) e
          | no same ↦
              let here : x ≡ a = omega arith in
              let both : (idx num_sets a == idx num_sets lb) ≡ true =
                (==_iff _ _).1 (ap (λ t. idx num_sets t) (sym here) ∙ e) in
              rest.1 (step.1 ∙ rw both (ground arith))
        ],
      )

  -- After a walk over the lines of a range, DRAM holds each line of the range outside the buffer
  -- as it was backed, and the cache does not hold it. The driver was configured for this cache.
  pub walked_line :
      (n a lb : ℕ) (m : Memory)
      → Outside cfg lb
      → a ≤ lb
      → lb < a + n
      → let m' = displace_lines (load num_sets) cfg (run_of a n) m in
        (resident num_sets lb m' ≡ false) × (m'.dram lb ≡ backed num_sets fits.pos lb m)
  walked_line n a lb m out lo hi =
      let walk = walk_lem n a lb m out in
      let gone = walk.2 lb lo hi refl in
      (gone, sym (unbacked lb (displace_lines (load num_sets) cfg (run_of a n) m) gone) ∙ walk.0)
    where
      unbacked :
          (lb : ℕ) (m : Memory)
          → resident num_sets lb m ≡ false
          → backed num_sets fits.pos lb m ≡ m.dram lb
      unbacked lb m h = rw h
