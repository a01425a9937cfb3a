-- ===== src/Threads.antt =====
-- zephyr/samples/gemm_threads/src/main.c: the sample that runs the accelerator from a thread. An int8_t
-- is the byte of its two's complement.
pub mod Stage
pub mod Check
pub mod Verdict
pub mod Runner
pub mod Sweep
pub mod Report
pub mod Main
mod Tests
use rv32imac_soc.Common.{
  ℕ, ◌+◌, ◌-◌, ◌*◌, ◌/◌, ◌%◌, ◌^◌, u8, u32, bit_xor, ltb, ◌==◌, Bool, true, false, not, List, [],
  ◌∷◌, ◌++◌, if◌then◌else◌,
}
use rv32imac_soc.Common.Loops.{upto}
use rv32imac_soc.Cache.Hw.{set_at}
use rv32imac_soc.Gemm.{Tile}
use rv32imac_soc.Gemm.World.{Info}

abbrev pub max_tiles : ℕ
max_tiles = 8

abbrev pub klen : ℕ
klen = 64

abbrev pub shift_out : ℕ
shift_out = 6

-- The work unit of the other thread.
unfoldable pub churn : ℕ → ℕ
unfolding upto
churn seed = upto 4 0 (λ i s. let t = u32 (s * 1664525 + 1013904223) in bit_xor t (t / 2 ^ 13)) seed

-- The reduction depth and the panel count that `main` derives from the geometry.
unfoldable pub depth_of : Info → ℕ
depth_of info = if ltb info.max_k klen then info.max_k else klen

unfoldable pub panels_of : Info → ℕ
panels_of info = if info.panels == 0 then 1 else info.panels

-- a_panel and b_panel.
pub record Panels : Type 0 where
  pub a_panel : ℕ → ℕ
  pub b_panel : ℕ → ℕ → ℕ

-- The body of the two outer loops of `stage_operands` at a lane and a k.
unfoldable pub stage_cell : ℕ → ℕ → ℕ → Panels → Panels
stage_cell k_len lane k s =
    let at = lane * k_len + k in
    let s1 = record s { a_panel = set_at s.a_panel at (u8 (lane + 1)) } in
    upto max_tiles 0
      (λ p t. record t {
        b_panel = set_at t.b_panel p (set_at (t.b_panel p) at (u8 (lane + 1 + p)));
      })
      s1

unfoldable pub stage_operands : ℕ → ℕ → Panels → Panels
stage_operands dim k_len s =
    upto dim 0 (λ lane t. upto k_len 0 (λ k u. stage_cell k_len lane k u) t) s

-- A line that `check_results` prints: tile, row, column, and the two bytes.
pub record Mismatch : Type 0 where
  pub tile : ℕ
  pub row : ℕ
  pub column : ℕ
  pub got : ℕ
  pub want : ℕ

-- gemm_bad, words_checked, and what was printed.
pub record Tally : Type 0 where
  pub gemm_bad : ℕ
  pub words_checked : ℕ
  pub printed : List Mismatch

abbrev pub wanted : ℕ → ℕ → ℕ → ℕ
wanted p i j = u8 ((i + 1) * (j + 1 + p))

unfoldable pub check_cell : (ℕ → ℕ → ℕ) → ℕ → ℕ → ℕ → ℕ → Tally → Tally
check_cell dest dim p i j s =
    let got = dest p (i * dim + j) in
    let want = wanted p i j in
    let line : Mismatch = record { tile = p; row = i; column = j; got = got; want = want } in
    let printed = (if ltb s.gemm_bad 4 then s.printed ++ (line ∷ []) else s.printed) in
    if got == want then s else record s { gemm_bad = s.gemm_bad + 1; printed = printed }

unfoldable pub check_results : (ℕ → ℕ → ℕ) → ℕ → ℕ → Tally → Tally
check_results dest dim n_tiles s =
    upto n_tiles 0 (λ p t. upto dim 0 (λ i u. upto dim 0 (λ j v. check_cell dest dim p i j v) u) t)
      (record s { words_checked = s.words_checked + n_tiles * dim * dim })

-- The tiles that `gemm_runner` builds, with the addresses of the three buffers.
pub record Buffers : Type 0 where
  pub a_at : ℕ
  pub b_at : ℕ → ℕ
  pub dest_at : ℕ → ℕ

abbrev pub tile_at : Buffers → ℕ → ℕ → ℕ → Tile
tile_at buffers k_len panels p = record {
  a_src = buffers.a_at;
  b_src = buffers.b_at p;
  dest = buffers.dest_at p;
  k_len = k_len;
  panel_use = p % panels;
  panel_load = p % panels;
  b_only = not (p == 0);
  src_coherent = true;
}
