-- ===== src/Cache/Mask.antt =====
-- The set of an address: `& (DC_SETS - 1)` is a remainder because of the BUILD_ASSERT on DC_SETS.
use rv32imac_soc.Common.{
  ℕ, zero, suc, ◌+◌, ◌-◌, ◌*◌, ◌/◌, ◌%◌, ◌≤◌, ◌<◌, ◌≡◌, ◌⊎◌, inl, inr, bit_and, bit_and-digit,
  bit_and-le, ap, ◌∙◌, arith,
}
use native.Mathlib.Nat.{div-add-mod, mod-lt, mod-eq_of_lt, add-mul-mod_self_left}

bit_and-self_fuel : (k a : ℕ) → a ≤ k → bit_and a a ≡ a
bit_and-self_fuel k zero h = omega (arith, bit_and-le 0 0)
bit_and-self_fuel zero (suc a) h = absurd (omega arith)
bit_and-self_fuel (suc k) (suc a) h =
    omega (arith, bit_and-digit (suc a) (suc a), bit_and-self_fuel k (suc a / 2) (omega arith))

bit_and-zero_right : (k a : ℕ) → a ≤ k → bit_and a 0 ≡ 0
bit_and-zero_right k zero h = omega (arith, bit_and-le 0 0)
bit_and-zero_right zero (suc a) h = absurd (omega arith)
bit_and-zero_right (suc k) (suc a) h =
    omega (arith, bit_and-digit (suc a) 0, bit_and-zero_right k (suc a / 2) (omega arith))

even_or_odd : (n : ℕ) → (n ≡ 2 * (n / 2)) ⊎ (n ≡ 2 * (n / 2) + 1)
even_or_odd n = omega arith

-- x % 2m in terms of the halves.
mod_double : (x m : ℕ) → 0 < m → x % (2 * m) ≡ x / 2 % m * 2 + x % 2
mod_double x m h =
    let r = x / 2 % m in
    let q = x / 2 / m in
    let whole : x ≡ (r * 2 + x % 2) + 2 * m * q = omega (arith, div-add-mod (x / 2) m) in
    let small : r * 2 + x % 2 < 2 * m = omega (arith, mod-lt (x / 2) h) in
    ap (λ t. t % (2 * m)) whole
    ∙ add-mul-mod_self_left (r * 2 + x % 2) (2 * m) q
    ∙ mod-eq_of_lt small

mask_fuel : (k n x : ℕ) → n ≤ k → 0 < n → bit_and n (n - 1) ≡ 0 → bit_and x (n - 1) ≡ x % n
mask_fuel zero n x hk pos h = absurd (omega arith)
mask_fuel (suc k) n x hk pos h = elim (even_or_odd n) [
  | inr odd ↦
      let half : (n - 1) / 2 ≡ n / 2 = omega arith in
      let one : n ≡ 1 = omega (
        arith,
        bit_and-digit n (n - 1),
        ap (λ t. bit_and (n / 2) t) half,
        bit_and-self_fuel (n / 2) (n / 2) (omega arith),
      ) in
      rw one (omega (arith, bit_and-zero_right x x (omega arith)))
  | inl even ↦
      let half : (n - 1) / 2 ≡ n / 2 - 1 = omega arith in
      let ih : bit_and (x / 2) (n / 2 - 1) ≡ x / 2 % (n / 2) =
        mask_fuel k (n / 2) (x / 2) (omega arith) (omega arith)
          (omega (arith, bit_and-digit n (n - 1), ap (λ t. bit_and (n / 2) t) half)) in
      omega (
        arith,
        bit_and-digit x (n - 1),
        ap (λ t. bit_and (x / 2) t) half,
        ih,
        mod_double x (n / 2) (omega arith),
        ap (λ t. x % t) even,
      )
]

pub mask_lem : (n x : ℕ) → 0 < n → bit_and n (n - 1) ≡ 0 → bit_and x (n - 1) ≡ x % n
mask_lem n x pos h = mask_fuel n n x (omega arith) pos h
