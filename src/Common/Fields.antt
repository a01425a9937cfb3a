-- ===== src/Common/Fields.antt =====
-- Disjoint fields of a word, in arithmetic.
use Prim.Native.Nat.{ℕ, zero, suc, ◌+◌, ◌*◌, ◌/◌, ◌^◌, ◌<◌, ◌≤◌, bit_or, bit_or-bitwise}
use mathlib.Core.Path.{◌≡◌, sym, ap, ◌∙◌}
use native.Mathlib.Omega.{arith}
use native.Mathlib.Nat.{pow-suc, mul_assoc, mul_comm}
use rv32imac_soc.Common.Bits.{bit_or-digit}

bit_or-zero_right : (k a : ℕ) → a ≤ k → bit_or a 0 ≡ a
bit_or-zero_right k zero h = omega (arith, bit_or-bitwise 0 0)
bit_or-zero_right zero (suc a) h = absurd (omega arith)
bit_or-zero_right (suc k) (suc a) h =
    omega (arith, bit_or-digit (suc a) 0, bit_or-zero_right k (suc a / 2) (omega arith))

-- A word whose lower k bits are free takes d there.
pub bit_or-split : (k c d m : ℕ) → m ≡ c * 2 ^ k → d < 2 ^ k → bit_or m d ≡ m + d
bit_or-split zero c d m e h =
    let none : d ≡ 0 = omega arith in rw none (omega (arith, bit_or-zero_right m m (omega arith)))
bit_or-split (suc k) c d m e h =
    let even : m ≡ 2 * (c * 2 ^ k) =
      e ∙ ap (λ n. c * n) (pow-suc 2 k) ∙ sym (mul_assoc c (2 ^ k) 2) ∙ mul_comm (c * 2 ^ k) 2 in
    let rest : bit_or (m / 2) (d / 2) ≡ m / 2 + d / 2 =
      bit_or-split k c (d / 2) (m / 2) (omega arith) (omega (arith, pow-suc 2 k)) in
    omega (arith, bit_or-digit m d)
