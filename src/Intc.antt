-- ===== src/Intc.antt =====
-- zephyr/drivers/interrupt_controller/intc_rv32_5stage.c: the driver of the second-level interrupt
-- aggregator, over any bus. `Intc.Hw` is the controller itself, src/intc.v.
pub mod Hw
pub mod Wires
pub mod Dispatch
pub mod Masks
pub mod Service
pub mod Pauses
pub mod Tests
use rv32imac_soc.Common.{
  ℕ, zero, suc, ◌+◌, ◌-◌, ◌^◌, ◌≡◌, ◌≤◌, ◌<◌, bit_and, bit_or, bit, not32, is_set, ◌==◌, Bool, true,
  false, not, Option, none, some, if◌then◌else◌,
}
use rv32imac_soc.Bus.{Bus, Exec, ◌>>=◌, ◌>>◌, pure, update}

-- RV32_5STAGE_INTC_NUM_SOURCES and the two registers.
abbrev pub num_sources : ℕ
num_sources = 8

abbrev pub enable_reg : ℕ
enable_reg = 0x0

abbrev pub pending_reg : ℕ
pending_reg = 0x4

-- struct rv32_5stage_intc_config without its callback, which is an argument of `initialize`.
pub record Config : Type 0 where
  pub base : ℕ
  pub isr_table_offset : ℕ

-- Zephyr's find_lsb_set: the position, from 1, of the lowest bit that is set in a nonzero word.
pub record FindLsbSet (find_lsb_set : ℕ → ℕ) : Type 0 where
  pub positive : (w : ℕ) → 0 < w → w < 2 ^ 32 → 1 ≤ find_lsb_set w
  pub found : (w : ℕ) → 0 < w → w < 2 ^ 32 → is_set w (find_lsb_set w - 1) ≡ true
  pub lowest : (w : ℕ) → 0 < w → w < 2 ^ 32 → (j : ℕ) → j < find_lsb_set w - 1 → is_set w j ≡ false

module _ {D : Type 0} (bus : Bus D) (cfg : Config) where
  open bus use {read32, write32}

  -- The `while (pending)` loop. `isr_table i` is the call of entry `i` of `_sw_isr_table`; `none`
  -- means that the fuel ran out.
  unfoldable pub dispatch : (ℕ → ℕ) → (ℕ → D → D) → ℕ → ℕ → D → Option D
  dispatch find_lsb_set isr_table zero pending d = none
  dispatch find_lsb_set isr_table (suc fuel) pending d =
      let b = find_lsb_set pending - 1 in
      let rest =
        dispatch find_lsb_set isr_table fuel (bit_and pending (not32 (bit b)))
          (isr_table (cfg.isr_table_offset + b) d) in
      if pending == 0 then some d else rest

  -- The part of the handler before the loop: which sources to serve, already acknowledged.
  unfoldable pub acknowledge : Exec D ℕ
  acknowledge = do
    p ← read32 (cfg.base + pending_reg)
    e ← read32 (cfg.base + enable_reg)
    let pending = bit_and p e
    update (write32 pending (cfg.base + pending_reg))
    pure pending

  unfoldable pub isr : (ℕ → ℕ) → (ℕ → D → D) → ℕ → D → Option D
  isr find_lsb_set isr_table fuel d =
      let (pending, d') = acknowledge d in dispatch find_lsb_set isr_table fuel pending d'

  unfoldable pub intr_enable : ℕ → Exec D (Unit {0})
  intr_enable irq = do
    enable ← read32 (cfg.base + enable_reg)
    update (write32 (bit irq) (cfg.base + pending_reg))
    update (write32 (bit_or enable (bit irq)) (cfg.base + enable_reg))

  unfoldable pub intr_disable : ℕ → Exec D (Unit {0})
  intr_disable irq = do
    enable ← read32 (cfg.base + enable_reg)
    update (write32 (bit_and enable (not32 (bit irq))) (cfg.base + enable_reg))

  unfoldable pub intr_get_state : Exec D Bool
  intr_get_state = do enable ← read32 (cfg.base + enable_reg); pure (not (enable == 0))

  unfoldable pub intr_get_line_state : ℕ → Exec D Bool
  intr_get_line_state irq = do
    enable ← read32 (cfg.base + enable_reg)
    pure (not (bit_and enable (bit irq) == 0))

  -- `config_func` connects and enables the level-1 line.
  unfoldable pub initialize : (D → D) → Exec D ℕ
  initialize config_func = do
    update (write32 0 (cfg.base + enable_reg))
    update (write32 (2 ^ num_sources - 1) (cfg.base + pending_reg))
    update config_func
    pure 0
