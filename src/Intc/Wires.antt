-- ===== src/Intc/Wires.antt =====
-- What one clock edge of src/intc.v does to each wire of its two registers.
use rv32imac_soc.Common.{
  and_true, ℕ, ◌^◌, ◌<◌, ◌≡◌, refl, bit_and, bit_or, not8, u8, is_set, is_set-and, is_set-or,
  is_set-not, bit_and-le, bit_or-lt, ap, ◌∙◌, inl, inr, Bool-cases, Bool, true, false, ◌&&◌, ◌||◌,
  not, arith, if◌then◌else◌,
}
use rv32imac_soc.Intc.Hw.{
  Regs, Request, quiet, read, write, step, is_pending_reg, is_enable_reg, irq_edge,
}

-- Both registers hold eight bits, and so do the lines as last seen.
pub record IsValid (r : Regs) : Type 0 where
  pub enable_small : r.enable < 2 ^ 8
  pub pending_small : r.pending < 2 ^ 8
  pub prev_small : r.irq_in_prev < 2 ^ 8

-- Line i is up in this cycle and was not in the last.
abbrev pub rises : ℕ → Regs → ℕ → Bool
rises irq_in r i = is_set irq_in i && not (is_set r.irq_in_prev i)

-- The bus request writes a one to bit i of the pending register.
abbrev pub clears : Request → ℕ → Bool
clears quiet i = false
clears (read a) i = false
clears (write a v) i = not (is_enable_reg a) && is_pending_reg a && is_set (u8 v) i

-- The bus request writes the enable register.
abbrev pub enable_after : Request → ℕ → ℕ
enable_after quiet e = e
enable_after (read a) e = e
enable_after (write a v) e = if is_enable_reg a then u8 v else e

irq_edge-set :
    (irq_in : ℕ) (r : Regs) (i : ℕ)
    → IsValid r
    → i < 8
    → is_set (irq_edge irq_in r) i ≡ rises irq_in r i
irq_edge-set irq_in r i v h =
    ground (arith, is_set-and irq_in (not8 r.irq_in_prev) i, is_set-not 8 r.irq_in_prev i)

irq_edge-lt : (irq_in : ℕ) (r : Regs) → irq_in < 2 ^ 8 → irq_edge irq_in r < 2 ^ 8
irq_edge-lt irq_in r h = omega (arith, bit_and-le irq_in (not8 r.irq_in_prev))

latch-set :
    (irq_in : ℕ) (r : Regs) (i : ℕ)
    → IsValid r
    → i < 8
    → is_set (bit_or r.pending (irq_edge irq_in r)) i ≡ (is_set r.pending i || rises irq_in r i)
latch-set irq_in r i v h =
    is_set-or r.pending (irq_edge irq_in r) i
    ∙ ap (λ b. is_set r.pending i || b) (irq_edge-set irq_in r i v h)

latch-lt :
    (irq_in : ℕ) (r : Regs)
    → IsValid r
    → irq_in < 2 ^ 8
    → bit_or r.pending (irq_edge irq_in r) < 2 ^ 8
latch-lt irq_in r v h =
    bit_or-lt 8 r.pending (irq_edge irq_in r) v.pending_small (irq_edge-lt irq_in r h)

-- A bit survives being cleared by a mask exactly where the mask is zero.
clear-set :
    (p m i : ℕ)
    → m < 2 ^ 8
    → i < 8
    → is_set (bit_and p (not8 m)) i ≡ (is_set p i && not (is_set m i))
clear-set p m i hm h = ground (arith, is_set-and p (not8 m) i, is_set-not 8 m i)

-- After a clock edge a pending bit is set exactly if it was set or its line has just risen, and
-- the request does not write a one to it. The registers hold eight bits before.
pub pending-step :
    (irq_in : ℕ) (q : Request) (r : Regs) (i : ℕ)
    → IsValid r
    → i < 8
    → is_set (step irq_in q r).pending i
      ≡ ((is_set r.pending i || rises irq_in r i) && not (clears q i))
unfolding step
pending-step irq_in quiet r i v h = latch-set irq_in r i v h ∙ and_true _
pending-step irq_in (read a) r i v h = latch-set irq_in r i v h ∙ and_true _
pending-step irq_in (write a w) r i v h = elim (Bool-cases (is_enable_reg a)) [
  | inl en ↦ rw en (latch-set irq_in r i v h ∙ and_true _)
  | inr en ↦ elim (Bool-cases (is_pending_reg a)) [
    | inl pe ↦
        rw (en, pe)
          (clear-set (bit_or r.pending (irq_edge irq_in r)) (u8 w) i (omega arith) h
            ∙ ap (λ b. b && not (is_set (u8 w) i)) (latch-set irq_in r i v h))
    | inr pe ↦ rw (en, pe) (latch-set irq_in r i v h ∙ and_true _)
  ]
]

pub enable-step :
    (irq_in : ℕ) (q : Request) (r : Regs) → (step irq_in q r).enable ≡ enable_after q r.enable
unfolding step
enable-step irq_in quiet r = refl
enable-step irq_in (read a) r = refl
enable-step irq_in (write a w) r = ground arith

pub prev-step : (irq_in : ℕ) (q : Request) (r : Regs) → (step irq_in q r).irq_in_prev ≡ irq_in
unfolding step
prev-step irq_in quiet r = refl
prev-step irq_in (read a) r = refl
prev-step irq_in (write a w) r = ground arith

-- A clock edge keeps both registers and the remembered lines within eight bits. The lines are
-- eight bits.
pub step-IsValid :
    (irq_in : ℕ) (q : Request) (r : Regs) → IsValid r → irq_in < 2 ^ 8 → IsValid (step irq_in q r)
unfolding step
step-IsValid irq_in quiet r v h = record {
  enable_small = v.enable_small;
  pending_small = latch-lt irq_in r v h;
  prev_small = h;
}
step-IsValid irq_in (read a) r v h = record {
  enable_small = v.enable_small;
  pending_small = latch-lt irq_in r v h;
  prev_small = h;
}
step-IsValid irq_in (write a w) r v h =
    ground (
      arith,
      latch-lt irq_in r v h,
      bit_and-le (bit_or r.pending (irq_edge irq_in r)) (not8 (u8 w)),
    )

-- A line that goes up in the very cycle of a write-one-to-clear of its bit is lost: the bit is not
-- set after that cycle, and it is not set after the next one either while the line stays up. The
-- registers hold eight bits before.
pub clear_drops_edge :
    (irq_in later v i : ℕ) (q : Request) (r : Regs)
    → IsValid r
    → irq_in < 2 ^ 8
    → i < 8
    → rises irq_in r i ≡ true
    → is_set (u8 v) i ≡ true
    → (is_set (step irq_in (write 0x4004 v) r).pending i ≡ false)
      × (is_set (step later q (step irq_in (write 0x4004 v) r)).pending i ≡ false)
clear_drops_edge irq_in later v i q r valid hl h up ones = (first, second)
  where
    first : is_set (step irq_in (write 0x4004 v) r).pending i ≡ false
    first = ground (arith, pending-step irq_in (write 0x4004 v) r i valid h)

    up_before : is_set (step irq_in (write 0x4004 v) r).irq_in_prev i ≡ true
    up_before = rw (prev-step irq_in (write 0x4004 v) r) (ground arith)

    second : is_set (step later q (step irq_in (write 0x4004 v) r)).pending i ≡ false
    second = ground (
      arith,
      first,
      up_before,
      pending-step later q (step irq_in (write 0x4004 v) r) i
          (step-IsValid irq_in (write 0x4004 v) r valid hl) h,
    )
