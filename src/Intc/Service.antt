-- ===== src/Intc/Service.antt =====
-- The interrupt handler of the driver on the controller of src/intc.v.
use rv32imac_soc.Common.{
  ℕ, ◌+◌, ◌<◌, ◌≡◌, bit_and, u8, is_set, is_set-and, is_set-zero, bit_and-le, word_ext, Bool, false,
  ◌&&◌, ◌||◌, not, some, arith,
}
use rv32imac_soc.Intc.{FindLsbSet, isr, acknowledge}
use rv32imac_soc.Intc.Hw.{Regs, read, write, step, Board, tick, rdata, bus, irq_out}
use rv32imac_soc.Intc.Wires.{IsValid, rises, pending-step, enable-step, prev-step, step-IsValid}
use rv32imac_soc.Intc.Dispatch.{sources_from, serve, dispatch_from}
use rv32imac_soc.Intc.Masks.{at_hw, goes_up, and-u8}

-- What the handler serves: the sources that are pending and enabled when it reads the registers.
abbrev pub due : Board → ℕ → Bool
due b i = is_set b.regs.pending i && is_set b.regs.enable i

module _ (offset : ℕ) (b : Board) (v : IsValid b.regs) where
  acknowledge_word : (acknowledge bus (at_hw offset) b).0 ≡ bit_and b.regs.pending b.regs.enable
  unfolding acknowledge tick rdata
  acknowledge_word = rw (enable-step)

  pub isr_lem :
      {find_lsb_set : ℕ → ℕ} (laws : FindLsbSet find_lsb_set) (isr_table : ℕ → Board → Board)
      → isr bus (at_hw offset) find_lsb_set isr_table 9 b
        ≡ some
            (serve isr_table offset (sources_from (due b) 0 8) (acknowledge bus (at_hw offset) b).1)
  unfolding isr
  isr_lem laws isr_table =
      dispatch_from laws bus (at_hw offset) isr_table 8 0 8 9 _ (due b) _ (omega arith)
        (omega arith)
        (rw acknowledge_word
          (omega (arith, bit_and-le b.regs.pending b.regs.enable, v.pending_small)))
        (omega arith) (λ j h. absurd (omega arith))
        (λ i lo hi. rw acknowledge_word (is_set-and b.regs.pending b.regs.enable i))

  abbrev first : Regs
  first = step (u8 (b.lines b.now)) (read 0x4004) b.regs

  abbrev second : Regs
  second = step (u8 (b.lines (b.now + 1))) (read 0x4000) first

  first-IsValid : IsValid first
  first-IsValid = step-IsValid (u8 (b.lines b.now)) (read 0x4004) b.regs v (omega arith)

  second-IsValid : IsValid second
  second-IsValid =
      step-IsValid (u8 (b.lines (b.now + 1))) (read 0x4000) first first-IsValid (omega arith)

  acknowledged-set : (j : ℕ) → is_set (u8 (acknowledge bus (at_hw offset) b).0) j ≡ due b j
  acknowledged-set j =
      rw (acknowledge_word, and-u8 b.regs.pending b.regs.enable v.pending_small)
        (is_set-and b.regs.pending b.regs.enable j)

  acknowledge-IsValid : IsValid (acknowledge bus (at_hw offset) b).1.regs
  unfolding acknowledge tick
  acknowledge-IsValid = step-IsValid _ _ _ second-IsValid (omega arith)

  pub acknowledge_pending :
      (j : ℕ)
      → j < 8
      → is_set (acknowledge bus (at_hw offset) b).1.regs.pending j ≡ (
          (((is_set b.regs.pending j || rises (u8 (b.lines b.now)) b.regs j) || goes_up b b.now j)
            || goes_up b (b.now + 1) j)
          && not (due b j))
  unfolding acknowledge tick rdata
  acknowledge_pending j h = ground (
    arith,
    pending-step (u8 (b.lines (b.now + 1 + 1))) (write 0x4004 (acknowledge bus (at_hw offset) b).0)
        second j second-IsValid h,
    acknowledged-set j,
    pending-step (u8 (b.lines (b.now + 1))) (read 0x4000) first j first-IsValid h,
    pending-step (u8 (b.lines b.now)) (read 0x4004) b.regs j v h,
    prev-step (u8 (b.lines (b.now + 1))) (read 0x4000) first,
    prev-step (u8 (b.lines b.now)) (read 0x4004) b.regs,
  )

  acknowledge_enable : (acknowledge bus (at_hw offset) b).1.regs.enable ≡ b.regs.enable
  unfolding acknowledge tick
  acknowledge_enable = ground (
    arith,
    enable-step (u8 (b.lines (b.now + 1))) (read 0x4000) first,
    enable-step (u8 (b.lines b.now)) (read 0x4004) b.regs,
    enable-step (u8 (b.lines (b.now + 1 + 1))) (write 0x4004 (acknowledge bus (at_hw offset) b).0)
        second,
  )

  -- If no line goes up during the accesses, the acknowledgement takes down the line to the CPU.
  -- The registers hold eight bits before.
  pub acknowledge-irq_out :
      ((j : ℕ)
        → j < 8
        → (rises (u8 (b.lines b.now)) b.regs j ≡ false)
          × (goes_up b b.now j ≡ false)
          × (goes_up b (b.now + 1) j ≡ false))
      → irq_out (acknowledge bus (at_hw offset) b).1.regs ≡ false
  unfolding irq_out
  acknowledge-irq_out still = rw empty
    where
      open (acknowledge bus (at_hw offset) b).1.regs use {pending, enable}

      dark : (j : ℕ) → j < 8 → is_set (bit_and pending enable) j ≡ is_set 0 j
      dark j h = ground (
        arith,
        is_set-and pending enable j,
        is_set-zero j,
        acknowledge_pending j h,
        acknowledge_enable,
        still j h,
      )

      empty : bit_and pending enable ≡ 0
      empty =
          word_ext 8 (bit_and pending enable) 0
            (omega (arith, bit_and-le pending enable, acknowledge-IsValid.pending_small))
            (omega arith) dark
