-- ===== src/Intc/Pauses.antt =====
-- The controller of src/intc.v behind the bus of src/cpu.v, which leaves quiet cycles between two accesses:
-- a request is one cycle long, and the next one waits for the answer and for the pipeline.
pub mod Handler
use rv32imac_soc.Common.{
  ℕ, zero, suc, ◌+◌, ◌<◌, ◌≡◌, refl, ap, ◌∙◌, subst, u8, bit, bit_or, is_set, is_set-bit, Bool,
  false, ◌&&◌, ◌||◌, not, arith,
}
use rv32imac_soc.Bus.{Bus}
use rv32imac_soc.Intc.{intr_enable}
use rv32imac_soc.Intc.Hw.{Request, quiet, read, write, Board, tick, rdata}
use rv32imac_soc.Intc.Wires.{IsValid, clears, pending-step, prev-step, step-IsValid}
use rv32imac_soc.Intc.Masks.{at_hw, goes_up, bit-u8}

-- n cycles without an access.
unfoldable pub idle : ℕ → Board → Board
idle zero b = b
idle (suc n) b = idle n (tick quiet b)

-- Each access is followed by quiet cycles, as many as `gaps` says for its cycle.
abbrev pub paused_bus : (ℕ → ℕ) → Bus Board
paused_bus gaps = record {
  read32 = λ a b. (rdata a b.regs, idle (gaps b.now) (tick (read a) b));
  write32 = λ v a b. idle (gaps b.now) (tick (write a v) b);
}

-- Line i goes up in one of the n cycles after cycle t.
unfoldable pub any_up : Board → ℕ → ℕ → ℕ → Bool
any_up b t zero i = false
any_up b t (suc n) i = goes_up b t i || any_up b (t + 1) n i

-- A board after a clock edge in cycle t, of the same lines as b.
pub record IsAfter (b : Board) (t : ℕ) (b' : Board) : Type 0 where
  pub valid : IsValid b'.regs
  pub now : b'.now ≡ t + 1
  pub prev : b'.regs.irq_in_prev ≡ u8 (b.lines t)
  pub lines : b'.lines ≡ b.lines

pub tick-IsAfter :
    (q : Request) (b b' : Board)
    → IsValid b'.regs
    → b'.lines ≡ b.lines
    → IsAfter b b'.now (tick q b')
unfolding tick
tick-IsAfter q b b' v same = record {
  valid = step-IsValid (u8 (b'.lines b'.now)) q b'.regs v (omega arith);
  now = refl;
  prev = prev-step (u8 (b'.lines b'.now)) q b'.regs ∙ ap (λ f. u8 (f b'.now)) same;
  lines = same;
}

-- A clock edge after another: what it adds to a pending bit, and what a write clears.
pub tick_pending :
    (q : Request) (b : Board) (t i : ℕ) (b' : Board)
    → i < 8
    → IsAfter b t b'
    → is_set (tick q b').regs.pending i
      ≡ ((is_set b'.regs.pending i || goes_up b t i) && not (clears q i))
unfolding tick
tick_pending q b t i b' h after =
    let up : u8 (b'.lines b'.now) ≡ u8 (b.lines (t + 1)) =
      (λ k. u8 (after.lines k (after.now k))) in
    pending-step (u8 (b'.lines b'.now)) q b'.regs i after.valid h ∙ (λ k.
      (is_set b'.regs.pending i || (is_set (up k) i && not (is_set (after.prev k) i)))
      && not (clears q i))

pub next-IsAfter :
    (q : Request) (b : Board) (t : ℕ) (b' : Board) → IsAfter b t b' → IsAfter b (t + 1) (tick q b')
next-IsAfter q b t b' after =
    subst (λ n. IsAfter b n (tick q b')) after.now (tick-IsAfter q b b' after.valid after.lines)

pub idle-IsAfter :
    (n : ℕ) (b : Board) (t : ℕ) (b' : Board) → IsAfter b t b' → IsAfter b (t + n) (idle n b')
unfolding idle
idle-IsAfter zero b t b' after = subst (λ m. IsAfter b m b') (omega arith) after
idle-IsAfter (suc n) b t b' after =
    subst (λ m. IsAfter b m (idle n (tick quiet b'))) (omega arith)
      (idle-IsAfter n b (t + 1) (tick quiet b') (next-IsAfter quiet b t b' after))

pub idle_pending :
    (n : ℕ) (b : Board) (t i : ℕ) (b' : Board)
    → i < 8
    → IsAfter b t b'
    → is_set (idle n b').regs.pending i ≡ (is_set b'.regs.pending i || any_up b t n i)
unfolding idle any_up
idle_pending zero b t i b' h after = ground arith
idle_pending (suc n) b t i b' h after =
    let later = idle_pending n b (t + 1) i (tick quiet b') h (next-IsAfter quiet b t b' after) in
    later ∙ ground (arith, tick_pending quiet b t i b' h after)

pub any_up-split :
    (b : Board) (t n m i : ℕ)
    → any_up b t (n + suc m) i
      ≡ (any_up b t n i || (goes_up b (t + n) i || any_up b (t + n + 1) m i))
unfolding any_up
any_up-split b t zero m i =
    ap (λ k. any_up b t k i) {x = 0 + suc m} {y = suc m} (omega arith)
    ∙ ap (λ s. goes_up b s i || any_up b (s + 1) m i) {x = t} {y = t + 0} (omega arith)
any_up-split b t (suc n) m i =
    ap (λ k. any_up b t k i) {x = suc n + suc m} {y = suc (n + suc m)} (omega arith)
    ∙ ap (λ x. goes_up b t i || x) (any_up-split b (t + 1) n m i)
    ∙ ap (λ s. goes_up b t i || (any_up b (t + 1) n i || (goes_up b s i || any_up b (s + 1) m i)))
        {x = t + 1 + n} {y = t + suc n} (omega arith)
    ∙ ground arith

module _ (gaps : ℕ → ℕ) (offset irq : ℕ) (b : Board) (v : IsValid b.regs) (h : irq < 8) where
  -- The boards in the cycle of the write to PENDING and in that of the write to ENABLE.
  abbrev at_clear : Board
  at_clear = idle (gaps b.now) (tick (read 0x4000) b)

  abbrev at_enable : Board
  at_enable = idle (gaps at_clear.now) (tick (write 0x4004 (bit irq)) at_clear)

  clear-IsAfter : IsAfter b (b.now + gaps b.now) at_clear
  clear-IsAfter =
      idle-IsAfter (gaps b.now) b b.now (tick (read 0x4000) b)
        (tick-IsAfter (read 0x4000) b b v refl)

  cleared-IsAfter : IsAfter b at_clear.now (tick (write 0x4004 (bit irq)) at_clear)
  cleared-IsAfter =
      tick-IsAfter (write 0x4004 (bit irq)) b at_clear clear-IsAfter.valid clear-IsAfter.lines

  cleared_bit : is_set (tick (write 0x4004 (bit irq)) at_clear).regs.pending irq ≡ false
  cleared_bit = ground (
    arith,
    tick_pending (write 0x4004 (bit irq)) b (b.now + gaps b.now) irq at_clear h clear-IsAfter,
    bit-u8 irq h,
    is_set-bit irq irq,
  )

  enable-IsAfter : IsAfter b (at_clear.now + gaps at_clear.now) at_enable
  enable-IsAfter =
      idle-IsAfter (gaps at_clear.now) b at_clear.now (tick (write 0x4004 (bit irq)) at_clear)
        cleared-IsAfter

  -- Enabling a source discards every edge that its line has shown up to the cycle of the
  -- write-one-to-clear, that cycle included, and keeps every later one, also those before the write
  -- that unmasks it: with any quiet cycles between the accesses, the bit is set afterwards exactly if
  -- the line went up in a cycle after that of the clear. The registers hold eight bits before, and
  -- there are eight sources.
  pub pending-intr_enable_paused :
      let t = b.now + gaps b.now + 1 in
      is_set (intr_enable (paused_bus gaps) (at_hw offset) irq b).1.regs.pending irq
      ≡ any_up b t (gaps t + suc (gaps (t + gaps t + 1))) irq
  unfolding intr_enable rdata
  pending-intr_enable_paused =
      let t = at_clear.now in
      let e = write 0x4000 (bit_or b.regs.enable (bit irq)) in
      let g = gaps at_enable.now in
      let end =
        idle_pending g b (t + gaps t + 1) irq (tick e at_enable) h
          (next-IsAfter e b (t + gaps t) at_enable enable-IsAfter) in
      let whole : is_set (idle g (tick e at_enable)).regs.pending irq
          ≡ any_up b t (gaps t + suc g) irq =
        end
        ∙ ground (
          arith,
          tick_pending e b (t + gaps t) irq at_enable h enable-IsAfter,
          idle_pending (gaps t) b t irq (tick (write 0x4004 (bit irq)) at_clear) h cleared-IsAfter,
          cleared_bit,
          any_up-split b t (gaps t) g irq,
        ) in
      whole
      ∙ ap (λ n. any_up b t (gaps t + suc (gaps n)) irq) enable-IsAfter.now
      ∙ ap (λ n. any_up b n (gaps n + suc (gaps (n + gaps n + 1))) irq) clear-IsAfter.now
