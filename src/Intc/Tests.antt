-- ===== src/Intc/Tests.antt =====
-- The theorems about the interrupt controller at concrete boards.
use rv32imac_soc.Common.{
  ℕ, ◌+◌, zero, suc, ◌-◌, ◌/◌, ◌%◌, ◌^◌, ◌≤◌, ◌<◌, ◌≡◌, refl, is_set, is_set-zero, ◌==◌, Bool-cases,
  inl, inr, true, false, some, if◌then◌else◌, u8, ltb, ◌&&◌, ◌||◌, not, arith,
}
use native.Mathlib.Nat.{pow-suc}
use rv32imac_soc.Intc.{FindLsbSet, acknowledge, isr, intr_enable, intr_disable, intr_get_line_state}
use rv32imac_soc.Intc.Hw.{Regs, Board, write, quiet, step, irq_out, bus}
use rv32imac_soc.Intc.Wires.{IsValid, clear_drops_edge, rises}
use rv32imac_soc.Intc.Dispatch.{serve, sources_from}
use rv32imac_soc.Intc.Pauses.Handler.{isr_paused, acknowledge_pending_paused}
use rv32imac_soc.Intc.Pauses.{paused_bus, any_up, pending-intr_enable_paused}
use rv32imac_soc.Intc.Masks.{at_hw, line_state-enable_disable}
use rv32imac_soc.Intc.Service.{due, acknowledge-irq_out}

-- A find_lsb_set that meets Zephyr's documentation.
pub lsb : ℕ → ℕ → ℕ
lsb zero w = 1
lsb (suc n) w = let above = lsb n (w / 2) in if w % 2 == 1 then 1 else suc above

lsb-positive : (n w : ℕ) → 1 ≤ lsb n w
unfolding lsb
lsb-positive zero w = omega arith
lsb-positive (suc n) w = ground arith

lsb-found : (n w : ℕ) → 0 < w → w < 2 ^ n → is_set w (lsb n w - 1) ≡ true
unfolding lsb
lsb-found zero w some_bit small = absurd (omega arith)
lsb-found (suc n) w some_bit small = elim (Bool-cases (w % 2 == 1)) [
  | inl odd ↦ rw odd odd
  | inr even ↦
      let shift : suc (lsb n (w / 2)) - 1 ≡ suc (lsb n (w / 2) - 1) =
        omega (arith, lsb-positive n (w / 2)) in
      rw (even, shift) (lsb-found n (w / 2) (ground arith) (omega (arith, pow-suc 2 n)))
]

lsb-lowest : (n w j : ℕ) → w < 2 ^ n → j < lsb n w - 1 → is_set w j ≡ false
unfolding lsb
lsb-lowest zero w j small h = ground arith
lsb-lowest (suc n) w zero small h = ground arith
lsb-lowest (suc n) w (suc j) small h =
    lsb-lowest n (w / 2) j (omega (arith, pow-suc 2 n)) (ground arith)

pub lsb_laws : FindLsbSet (lsb 32)
lsb_laws = record {
  positive = λ w p q. lsb-positive 32 w;
  found = λ w p q. lsb-found 32 w p q;
  lowest = λ w p q j h. lsb-lowest 32 w j q h;
}

-- Sources 1 and 3 are enabled, 1 and 2 are pending; line 3 goes up at time 1.
abbrev pub some_regs : Regs
some_regs = record { enable = 0b1010; pending = 0b0110; irq_in_prev = 0 }

abbrev some_board : Board
some_board = record { regs = some_regs; lines = λ t. if ltb 0 t then 0b1000 else 0; now = 0 }

-- The lines stay down.
abbrev pub calm_board : Board
calm_board = record { regs = some_regs; lines = λ t. 0; now = 0 }

pub some_regs-IsValid : IsValid some_regs
some_regs-IsValid = record {
  enable_small = omega arith;
  pending_small = omega arith;
  prev_small = omega arith;
}

-- A handler that does nothing.
abbrev idle_table : ℕ → Board → Board
idle_table i b = b

still : (j : ℕ) → (is_set 0 j && not (is_set 0 j)) ≡ false
still j = rw (is_set-zero j) refl

acknowledge-irq_out_example : irq_out (acknowledge bus (at_hw 16) calm_board).1.regs ≡ false
acknowledge-irq_out_example =
    acknowledge-irq_out 16 calm_board some_regs-IsValid (λ j h. (still j, still j, still j))

line_state_example :
    ((intr_get_line_state bus (at_hw 16) 3 (intr_enable bus (at_hw 16) 0 some_board).1).0
      ≡ (is_set some_regs.enable 3 || (0 == 3)))
    × ((intr_get_line_state bus (at_hw 16) 3 (intr_disable bus (at_hw 16) 0 some_board).1).0
        ≡ (is_set some_regs.enable 3 && not (0 == 3)))
line_state_example =
    line_state-enable_disable 16 0 3 some_board some_regs-IsValid (omega arith) (omega arith)

pending-intr_enable_paused_example :
    is_set (intr_enable (paused_bus (λ t. t + 2)) (at_hw 16) 2 some_board).1.regs.pending 2
    ≡ any_up some_board 3 (5 + 12) 2
pending-intr_enable_paused_example =
    pending-intr_enable_paused (λ t. t + 2) 16 2 some_board some_regs-IsValid (omega arith)

clear_drops_edge_example :
    (is_set (step 0b1000 (write 0x4004 0b1000) some_regs).pending 3 ≡ false)
    × (is_set (step 0b1000 quiet (step 0b1000 (write 0x4004 0b1000) some_regs)).pending 3 ≡ false)
clear_drops_edge_example =
    clear_drops_edge 0b1000 0b1000 0b1000 3 quiet some_regs some_regs-IsValid (omega arith)
      (omega arith) refl refl

isr_paused_example :
    isr (paused_bus (λ t. t + 2)) (at_hw 16) (lsb 32) idle_table 9 some_board
    ≡ some (
        serve idle_table 16
          (sources_from (due some_board) 0 8)
          (acknowledge (paused_bus (λ t. t + 2)) (at_hw 16) some_board).1)
isr_paused_example = isr_paused (λ t. t + 2) 16 some_board some_regs-IsValid lsb_laws idle_table

acknowledge_pending_paused_example :
    is_set (acknowledge (paused_bus (λ t. t + 2)) (at_hw 16) some_board).1.regs.pending 3 ≡ (
      (((is_set some_regs.pending 3 || rises (u8 (some_board.lines 0)) some_regs 3)
          || any_up some_board 0 9 3)
        && not (due some_board 3))
      || any_up some_board 9 11 3)
acknowledge_pending_paused_example =
    acknowledge_pending_paused (λ t. t + 2) 16 some_board some_regs-IsValid 3 (omega arith)
