-- ===== src/Wiring/Boot/Quieted.antt =====
-- The aggregator after its driver has started.
use rv32imac_soc.Common.{ℕ, ◌+◌, ◌≡◌, ap, ◌∙◌, arith}
use rv32imac_soc.Intc
use rv32imac_soc.Intc.{intr_enable}
use rv32imac_soc.Intc.Hw.{Board, bus, tick}
use rv32imac_soc.Intc.Wires.{IsValid, step-IsValid}
use rv32imac_soc.Intc.Masks.{at_hw, goes_up, initialize_lem}

-- The aggregator's driver has started, from the board b on.
abbrev pub quieted : ℕ → Board → Board
quieted offset b = (Intc.initialize bus (at_hw offset) (λ b. b) b).1

pub quieted-IsValid : (offset : ℕ) (b : Board) → IsValid b.regs → IsValid (quieted offset b).regs
unfolding Intc.initialize tick
quieted-IsValid offset b v = step-IsValid _ _ _ (step-IsValid _ _ _ v (omega arith)) (omega arith)

pub quieted-enable : (offset : ℕ) (b : Board) → IsValid b.regs → (quieted offset b).regs.enable ≡ 0
quieted-enable offset b v =
    let (b', ran, masked, cleared) = initialize_lem offset 0 (λ b. b) b v (omega arith) in
    ap (λ (r : ℕ × Board). r.1.regs.enable) ran ∙ masked

pub quieted-lines :
    (offset : ℕ) (b : Board) (i : ℕ)
    → goes_up (quieted offset b) ((quieted offset b).now + 1) i ≡ goes_up b (b.now + 3) i
unfolding Intc.initialize tick
quieted-lines offset b i =
    ap (λ n. goes_up b n i) {x = b.now + 1 + 1 + 1} {y = b.now + 3} (omega arith)
