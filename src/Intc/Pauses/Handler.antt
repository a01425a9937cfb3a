-- ===== src/Intc/Pauses/Handler.antt =====
-- The interrupt handler of the driver on the controller behind the bus of src/cpu.v, with quiet cycles
-- between its accesses.
use rv32imac_soc.Common.{
  ℕ, zero, suc, ◌+◌, ◌<◌, ◌≡◌, refl, ap, ◌∙◌, u8, bit_and, is_set, is_set-and, bit_and-le, ◌&&◌,
  ◌||◌, not, some, arith,
}
use rv32imac_soc.Intc.{FindLsbSet, isr, acknowledge}
use rv32imac_soc.Intc.Hw.{quiet, read, write, Board, tick, rdata}
use rv32imac_soc.Intc.Wires.{IsValid, rises, pending-step, enable-step}
use rv32imac_soc.Intc.Dispatch.{sources_from, serve, dispatch_from}
use rv32imac_soc.Intc.Masks.{at_hw, goes_up, and-u8}
use rv32imac_soc.Intc.Service.{due}
use rv32imac_soc.Intc.Pauses.{
  idle, paused_bus, any_up, any_up-split, IsAfter, tick-IsAfter, next-IsAfter, idle-IsAfter,
  tick_pending, idle_pending,
}

tick_enable : (b : Board) → (tick quiet b).regs.enable ≡ b.regs.enable
unfolding tick
tick_enable b = enable-step (u8 (b.lines b.now)) quiet b.regs

read_enable : (a : ℕ) (b : Board) → (tick (read a) b).regs.enable ≡ b.regs.enable
unfolding tick
read_enable a b = enable-step (u8 (b.lines b.now)) (read a) b.regs

idle_enable : (n : ℕ) (b : Board) → (idle n b).regs.enable ≡ b.regs.enable
unfolding idle
idle_enable zero b = refl
idle_enable (suc n) b = idle_enable n (tick quiet b) ∙ tick_enable b

read_pending :
    (a i : ℕ) (b : Board)
    → IsValid b.regs
    → i < 8
    → is_set (tick (read a) b).regs.pending i
      ≡ (is_set b.regs.pending i || rises (u8 (b.lines b.now)) b.regs i)
unfolding tick
read_pending a i b v h = ground (arith, pending-step (u8 (b.lines b.now)) (read a) b.regs i v h)

module _ (gaps : ℕ → ℕ) (offset : ℕ) (b : Board) (v : IsValid b.regs) where
  -- The boards in the cycle of the read of ENABLE and in that of the write to PENDING.
  abbrev at_read : Board
  at_read = idle (gaps b.now) (tick (read 0x4004) b)

  abbrev at_write : Board
  at_write = idle (gaps at_read.now) (tick (read 0x4000) at_read)

  read-IsAfter : IsAfter b (b.now + gaps b.now) at_read
  read-IsAfter =
      idle-IsAfter (gaps b.now) b b.now (tick (read 0x4004) b)
        (tick-IsAfter (read 0x4004) b b v refl)

  between-IsAfter : IsAfter b at_read.now (tick (read 0x4000) at_read)
  between-IsAfter = tick-IsAfter (read 0x4000) b at_read read-IsAfter.valid read-IsAfter.lines

  write-IsAfter : IsAfter b (at_read.now + gaps at_read.now) at_write
  write-IsAfter =
      idle-IsAfter (gaps at_read.now) b at_read.now (tick (read 0x4000) at_read) between-IsAfter

  paused_word :
      (acknowledge (paused_bus gaps) (at_hw offset) b).0 ≡ bit_and b.regs.pending b.regs.enable
  unfolding acknowledge rdata
  paused_word =
      ap (bit_and b.regs.pending)
        (idle_enable (gaps b.now) (tick (read 0x4004) b) ∙ read_enable 0x4004 b)

  -- With any quiet cycles between the accesses, the handler ends within nine rounds of its loop. It has
  -- called the handlers of exactly the sources that were pending and enabled at the first read,
  -- each once, in rising order, after acknowledging them. `find_lsb_set` is as Zephyr documents
  -- it. The registers hold eight bits before.
  pub isr_paused :
      {find_lsb_set : ℕ → ℕ} (laws : FindLsbSet find_lsb_set) (isr_table : ℕ → Board → Board)
      → isr (paused_bus gaps) (at_hw offset) find_lsb_set isr_table 9 b
        ≡ some (
            serve isr_table offset
              (sources_from (due b) 0 8)
              (acknowledge (paused_bus gaps) (at_hw offset) b).1)
  unfolding isr
  isr_paused laws isr_table =
      dispatch_from laws (paused_bus gaps) (at_hw offset) isr_table 8 0 8 9 _ (due b) _
        (omega arith) (omega arith)
        (rw paused_word (omega (arith, bit_and-le b.regs.pending b.regs.enable, v.pending_small)))
        (omega arith) (λ j h. absurd (omega arith))
        (λ i lo hi. rw paused_word (is_set-and b.regs.pending b.regs.enable i))

  paused-set : (j : ℕ) → is_set (u8 (acknowledge (paused_bus gaps) (at_hw offset) b).0) j ≡ due b j
  paused-set j =
      rw (paused_word, and-u8 b.regs.pending b.regs.enable v.pending_small)
        (is_set-and b.regs.pending b.regs.enable j)

  before_write :
      (j : ℕ)
      → j < 8
      → is_set at_write.regs.pending j ≡ (
          ((is_set b.regs.pending j || rises (u8 (b.lines b.now)) b.regs j)
            || any_up b b.now (gaps b.now) j)
          || (goes_up b (b.now + gaps b.now) j || any_up b at_read.now (gaps at_read.now) j))
  before_write j h = ground (
    arith,
    read_pending 0x4004 j b v h,
    idle_pending (gaps b.now) b b.now j (tick (read 0x4004) b) h
        (tick-IsAfter (read 0x4004) b b v refl),
    tick_pending (read 0x4000) b (b.now + gaps b.now) j at_read h read-IsAfter,
    idle_pending (gaps at_read.now) b at_read.now j (tick (read 0x4000) at_read) h between-IsAfter,
  )

  -- Acknowledging clears exactly the sources to be served, with the edges that they show up to the cycle
  -- of the write; any other source keeps its pending edge and gains those of its line, and after
  -- the write every source gains them: with any quiet cycles between the accesses. The registers
  -- hold eight bits before, and there are eight sources.
  pub acknowledge_pending_paused :
      (j : ℕ)
      → j < 8
      → let t = b.now + gaps b.now + 1 in
        let u = t + gaps t + 1 in
        is_set (acknowledge (paused_bus gaps) (at_hw offset) b).1.regs.pending j ≡ (
          (((is_set b.regs.pending j || rises (u8 (b.lines b.now)) b.regs j)
              || any_up b b.now (gaps b.now + suc (gaps t + suc 0)) j)
            && not (due b j))
          || any_up b u (gaps u) j)
  unfolding acknowledge rdata any_up
  acknowledge_pending_paused j h =
      let w = (acknowledge (paused_bus gaps) (at_hw offset) b).0 in
      let t0 = b.now + gaps b.now + 1 in
      let parts = (λ (s : ℕ).
        (is_set b.regs.pending j || rises (u8 (b.lines b.now)) b.regs j)
        || (any_up b b.now (gaps b.now) j
            || (goes_up b (b.now + gaps b.now) j
                || (any_up b s (gaps s) j || goes_up b (s + gaps s) j)))) in
      let joined : parts t0 ≡ (
          (is_set b.regs.pending j || rises (u8 (b.lines b.now)) b.regs j)
          || any_up b b.now (gaps b.now + suc (gaps t0 + suc 0)) j) =
        ground (
          arith,
          any_up-split b b.now (gaps b.now) (gaps t0 + suc 0) j,
          any_up-split b t0 (gaps t0) 0 j,
        ) in
      let t = at_read.now in
      let u = at_write.now in
      let g = gaps u in
      let q = write 0x4004 w in
      let whole : is_set (idle g (tick q at_write)).regs.pending j ≡ (
          (((is_set b.regs.pending j || rises (u8 (b.lines b.now)) b.regs j)
              || (any_up b b.now (gaps b.now) j
                  || (goes_up b (b.now + gaps b.now) j
                      || (any_up b t (gaps t) j || goes_up b (t + gaps t) j))))
            && not (due b j))
          || any_up b (t + gaps t + 1) g j) =
        ground (
          arith,
          before_write j h,
          paused-set j,
          tick_pending q b (t + gaps t) j at_write h write-IsAfter,
          idle_pending g b (t + gaps t + 1) j (tick q at_write) h
              (next-IsAfter q b (t + gaps t) at_write write-IsAfter),
        ) in
      whole
      ∙ ap (λ n. (parts t && not (due b j)) || any_up b (t + gaps t + 1) (gaps n) j)
          write-IsAfter.now
      ∙ ap (λ s. (parts s && not (due b j)) || any_up b (s + gaps s + 1) (gaps (s + gaps s + 1)) j)
          read-IsAfter.now
      ∙ ap (λ x. (x && not (due b j)) || any_up b (t0 + gaps t0 + 1) (gaps (t0 + gaps t0 + 1)) j)
          joined
