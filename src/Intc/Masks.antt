-- ===== src/Intc/Masks.antt =====
-- The driver's mask operations on the controller of src/intc.v: which lines they leave enabled and
-- which edges they leave pending.
use rv32imac_soc.Common.{
  ℕ, ◌+◌, ◌^◌, ◌<◌, ◌≡◌, refl, ap, ◌∙◌, bit_and, bit_or, bit, not32, u8, is_set, is_set-and,
  is_set-or, is_set-not, is_set-bit, is_set-zero, bit_and-le, bit_or-lt, bit_lt, word_ext, ◌==◌,
  inl, inr, Bool, Bool-cases, true, false, ◌&&◌, ◌||◌, not, arith,
}
use rv32imac_soc.Intc.{Config, intr_enable, intr_disable, intr_get_line_state, initialize}
use rv32imac_soc.Intc.Dispatch.{positive_of_set, cleared-set}
use rv32imac_soc.Intc.Hw.{Regs, read, write, step, Board, tick, rdata, bus}
use rv32imac_soc.Intc.Wires.{IsValid, pending-step, enable-step, prev-step, step-IsValid}

-- The controller's window in the device tree; the table offset is the build's.
abbrev pub at_hw : ℕ → Config
at_hw offset = record { base = 0x4000; isr_table_offset = offset }

-- Line i goes up between two cycles.
abbrev pub goes_up : Board → ℕ → ℕ → Bool
goes_up b t i = is_set (u8 (b.lines (t + 1))) i && not (is_set (u8 (b.lines t)) i)

only_bit : (e j n : ℕ) → is_set e j ≡ false → is_set (bit_and e (bit j)) n ≡ is_set 0 n
only_bit e j n down =
    ground (arith, is_set-and e (bit j) n, is_set-bit j n, is_set-zero n, same_bit e j n)
  where
    same_bit : (e j n : ℕ) → (j == n) ≡ true → is_set e j ≡ is_set e n
    same_bit e j n q = ap (λ t. is_set e t) {x = j} {y = n} (ground arith)

-- The test `(e & BIT(j)) != 0` reads bit j.
pub masked_bit : (e j : ℕ) → e < 2 ^ 8 → j < 8 → not (bit_and e (bit j) == 0) ≡ is_set e j
masked_bit e j he hj = elim (Bool-cases (is_set e j)) [
  | inl up ↦
      let kept : is_set (bit_and e (bit j)) j ≡ true =
        ground (arith, is_set-and e (bit j) j, is_set-bit j j) in
      ground (arith, positive_of_set (bit_and e (bit j)) j kept)
  | inr down ↦
      let gone : bit_and e (bit j) ≡ 0 =
        word_ext 8 (bit_and e (bit j)) 0 (omega (arith, bit_and-le e (bit j))) (omega arith)
          (λ n h. only_bit e j n down) in
      rw (gone, down)
]

or-u8 : (e irq : ℕ) → e < 2 ^ 8 → irq < 8 → u8 (bit_or e (bit irq)) ≡ bit_or e (bit irq)
or-u8 e irq v h = omega (arith, bit_or-lt 8 e (bit irq) v (bit_lt 8 irq h))

pub and-u8 : (e m : ℕ) → e < 2 ^ 8 → u8 (bit_and e m) ≡ bit_and e m
and-u8 e m v = omega (arith, bit_and-le e m)

pub bit-u8 : (irq : ℕ) → irq < 8 → u8 (bit irq) ≡ bit irq
bit-u8 irq h = omega (arith, bit_lt 8 irq h)

module _ (offset irq : ℕ) (b : Board) (v : IsValid b.regs) (h : irq < 8) where
  -- The registers after the read of ENABLE and after the write to PENDING.
  abbrev seen : Regs
  seen = step (u8 (b.lines b.now)) (read 0x4000) b.regs

  abbrev cleared : Regs
  cleared = step (u8 (b.lines (b.now + 1))) (write 0x4004 (bit irq)) seen

  seen-IsValid : IsValid seen
  seen-IsValid = step-IsValid (u8 (b.lines b.now)) (read 0x4000) b.regs v (omega arith)

  cleared-IsValid : IsValid cleared
  cleared-IsValid =
      step-IsValid (u8 (b.lines (b.now + 1))) (write 0x4004 (bit irq)) seen seen-IsValid
        (omega arith)

  -- Enabling a source leaves its line enabled and every other line as it was.
  pub enable-intr_enable :
      (j : ℕ)
      → j < 8
      → is_set (intr_enable bus (at_hw offset) irq b).1.regs.enable j
        ≡ (is_set b.regs.enable j || (irq == j))
  unfolding intr_enable tick rdata
  enable-intr_enable j hj =
      rw (enable-step, or-u8 b.regs.enable irq v.enable_small h)
        (is_set-or b.regs.enable (bit irq) j
          ∙ ap (λ t. is_set b.regs.enable j || t) (is_set-bit irq j))

  -- With accesses in three successive cycles, enabling a source leaves its bit set exactly if its line
  -- went up in the cycle after that of the clear, which is the cycle of the write that unmasks it. The
  -- registers hold eight bits before.
  pub pending-intr_enable :
      is_set (intr_enable bus (at_hw offset) irq b).1.regs.pending irq ≡ goes_up b (b.now + 1) irq
  unfolding intr_enable tick rdata
  pending-intr_enable = ground (
    arith,
    pending-step (u8 (b.lines (b.now + 1 + 1))) (write 0x4000 (bit_or b.regs.enable (bit irq)))
        cleared irq cleared-IsValid h,
    pending-step (u8 (b.lines (b.now + 1))) (write 0x4004 (bit irq)) seen irq seen-IsValid h,
    prev-step (u8 (b.lines (b.now + 1))) (write 0x4004 (bit irq)) seen,
    bit-u8 irq h,
    is_set-bit irq irq,
  )

  -- Disabling a source masks its line and leaves every other line as it was.
  pub enable-intr_disable :
      (j : ℕ)
      → j < 8
      → is_set (intr_disable bus (at_hw offset) irq b).1.regs.enable j
        ≡ (is_set b.regs.enable j && not (irq == j))
  unfolding intr_disable tick rdata
  enable-intr_disable j hj =
      rw (enable-step, and-u8 b.regs.enable (not32 (bit irq)) v.enable_small)
        (cleared-set b.regs.enable irq j (omega arith) (omega arith))

-- The mask that `intr_get_line_state` reads back is the mask that the other two calls wrote.
pub line_state_lem :
    (offset j : ℕ) (b : Board)
    → IsValid b.regs
    → j < 8
    → (intr_get_line_state bus (at_hw offset) j b).0 ≡ is_set b.regs.enable j
unfolding intr_get_line_state tick rdata
line_state_lem offset j b v h = masked_bit b.regs.enable j v.enable_small h

-- Each operation of the driver keeps the registers within their eight wires.
pub intr_enable-IsValid :
    (offset irq : ℕ) (b : Board)
    → IsValid b.regs
    → IsValid (intr_enable bus (at_hw offset) irq b).1.regs
unfolding intr_enable tick
intr_enable-IsValid offset irq b v =
    step-IsValid _ _ _ (step-IsValid _ _ _ (step-IsValid _ _ _ v (omega arith)) (omega arith))
      (omega arith)

pub intr_disable-IsValid :
    (offset irq : ℕ) (b : Board)
    → IsValid b.regs
    → IsValid (intr_disable bus (at_hw offset) irq b).1.regs
unfolding intr_disable tick
intr_disable-IsValid offset irq b v =
    step-IsValid _ _ _ (step-IsValid _ _ _ v (omega arith)) (omega arith)

-- A source that has just been enabled reads back as enabled, one that has just been disabled reads
-- back as disabled, and neither call changes what is read back for another source. The sources are
-- two of the eight, and the registers hold eight bits before.
pub line_state-enable_disable :
    (offset irq j : ℕ) (b : Board)
    → IsValid b.regs
    → irq < 8
    → j < 8
    → ((intr_get_line_state bus (at_hw offset) j (intr_enable bus (at_hw offset) irq b).1).0
        ≡ (is_set b.regs.enable j || (irq == j)))
      × ((intr_get_line_state bus (at_hw offset) j (intr_disable bus (at_hw offset) irq b).1).0
          ≡ (is_set b.regs.enable j && not (irq == j)))
line_state-enable_disable offset irq j b v h hj = (
  line_state_lem offset j _ (intr_enable-IsValid offset irq b v) hj
      ∙ enable-intr_enable offset irq b v h j hj,
  line_state_lem offset j _ (intr_disable-IsValid offset irq b v) hj
      ∙ enable-intr_disable offset irq b v h j hj,
)

-- After initialisation, up to the call that connects the level-1 line, no source is enabled, and
-- nothing is pending on any of the eight lines, whatever had been latched before. The registers
-- hold eight bits before.
pub initialize_lem :
    (offset j : ℕ) (config_func : Board → Board) (b : Board)
    → IsValid b.regs
    → j < 8
    → (b' : Board) × (initialize bus (at_hw offset) config_func b ≡ (0, config_func b'))
      × (b'.regs.enable ≡ 0)
      × (is_set b'.regs.pending j ≡ false)
unfolding initialize tick rdata
initialize_lem offset j config_func b v h =
    let masked : Regs = step (u8 (b.lines b.now)) (write 0x4000 0) b.regs in
    let valid : IsValid masked =
      step-IsValid (u8 (b.lines b.now)) (write 0x4000 0) b.regs v (omega arith) in
    (
      tick (write 0x4004 255) (tick (write 0x4000 0) b),
      refl,
      enable-step (u8 (b.lines (b.now + 1))) (write 0x4004 255) masked
          ∙ enable-step (u8 (b.lines b.now)) (write 0x4000 0) b.regs,
      ground (
        arith,
        pending-step (u8 (b.lines (b.now + 1))) (write 0x4004 255) masked j valid h,
        is_set-not 8 0 j,
        is_set-zero j,
      ),
    )
