-- ===== src/Baremetal/Print.antt =====
-- What `uart_print_int32` sends reads back as the number.
use rv32imac_soc.Common.{
  ℕ, zero, suc, some, ◌+◌, ◌-◌, ◌*◌, ◌/◌, ◌%◌, ◌^◌, ◌≤◌, ◌<◌, ◌≡◌, refl, ap, ◌∙◌, ◌==◌, Bool-cases,
  inl, inr, List, [], ◌∷◌, length, All, false, if◌then◌else◌, arith,
}
use native.Mathlib.Nat.{pow-suc}
use rv32imac_soc.Common.Int.{ℤ, pos, negsuc}
use rv32imac_soc.Baremetal.{negated, push_digits, print_magnitude, uart_print_int32}

-- A reader of decimal digits after a number that is read already, and of a signed number.
abbrev pub read_from : ℕ → List ℕ → ℕ
read_from n [] = n
read_from n (c ∷ cs) = read_from (n * 10 + (c - 48)) cs

abbrev pub read_int32 : List ℕ → ℤ
read_int32 [] = pos 0
read_int32 (c ∷ cs) = if c == 45 then negsuc (read_from 0 cs - 1) else pos (read_from 0 (c ∷ cs))

push_digits-read :
    (fuel u : ℕ) (buf : List ℕ)
    → u < 10 ^ fuel
    → read_from 0 (push_digits fuel u buf) ≡ read_from u buf
unfolding push_digits
push_digits-read zero u buf h = ap (λ n. read_from n buf) (omega arith)
push_digits-read (suc fuel) u buf h = elim (Bool-cases (u == 0)) [
  | inl none_left ↦ rw none_left (ap (λ n. read_from n buf) (ground arith))
  | inr more ↦ rw more (
      push_digits-read fuel (u / 10) ((48 + u % 10) ∷ buf) (omega (arith, pow-suc 10 fuel))
      ∙ ap (λ n. read_from n buf) (omega arith))
]

length-push_digits :
    (fuel u : ℕ) (buf : List ℕ) → length (push_digits fuel u buf) ≤ fuel + length buf
unfolding push_digits
length-push_digits zero u buf = omega arith
length-push_digits (suc fuel) u buf = elim (Bool-cases (u == 0)) [
  | inl none_left ↦ rw none_left (omega arith)
  | inr more ↦
      rw more (let rest = length-push_digits fuel (u / 10) ((48 + u % 10) ∷ buf) in omega arith)
]

print_magnitude-read : (u : ℕ) → u < 2 ^ 32 → read_from 0 (print_magnitude u) ≡ u
unfolding print_magnitude
print_magnitude-read u h = elim (Bool-cases (u == 0)) [
  | inl none_left ↦ rw none_left (ground arith)
  | inr more ↦ rw more (push_digits-read 10 u [] (omega arith))
]

-- Only digits are printed for a magnitude.
push_digits-All :
    (fuel u : ℕ) (buf : List ℕ) → All (λ c. 48 ≤ c) buf → All (λ c. 48 ≤ c) (push_digits fuel u buf)
unfolding push_digits
push_digits-All zero u buf digits = digits
push_digits-All (suc fuel) u buf digits = elim (Bool-cases (u == 0)) [
  | inl none_left ↦ rw none_left digits
  | inr more ↦ rw more (push_digits-All fuel (u / 10) ((48 + u % 10) ∷ buf) (omega arith, digits))
]

print_magnitude-All : (u : ℕ) → All (λ c. 48 ≤ c) (print_magnitude u)
unfolding print_magnitude
print_magnitude-All u = elim (Bool-cases (u == 0)) [
  | inl none_left ↦ rw none_left (omega arith, tt)
  | inr more ↦ rw more (push_digits-All 10 u [] tt)
]

length-print_magnitude : (u : ℕ) → length (print_magnitude u) ≤ 10
unfolding print_magnitude
length-print_magnitude u = elim (Bool-cases (u == 0)) [
  | inl none_left ↦ rw none_left (omega arith)
  | inr more ↦ rw more (let most = length-push_digits 10 u [] in omega arith)
]

read_digits : (cs : List ℕ) → All (λ c. 48 ≤ c) cs → read_int32 cs ≡ pos (read_from 0 cs)
read_digits [] digits = refl
read_digits (c ∷ cs) digits =
    let signless : (c == 45) ≡ false = (let low = digits.0 in ground arith) in rw signless refl

-- The range of int32_t without its smallest number.
abbrev pub IsNegatable : ℤ → Type 0
IsNegatable (pos n) = n < 2 ^ 31
IsNegatable (negsuc n) = n < 2 ^ 31 - 1

-- For each int32_t but the smallest, whose negation is undefined, `uart_print_int32` is defined, the
-- characters that it sends read back as the number, and there are at most eleven: the digits fit in
-- its buffer of twelve.
pub uart_print_int32_lem :
    (v : ℤ)
    → IsNegatable v
    → (cs : List ℕ) × (uart_print_int32 v ≡ some cs) × (read_int32 cs ≡ v) × (length cs ≤ 11)
unfolding uart_print_int32 negated
uart_print_int32_lem (pos n) range =
    let most = length-print_magnitude n in
    (
      print_magnitude n,
      refl,
      read_digits (print_magnitude n) (print_magnitude-All n)
          ∙ ap pos (print_magnitude-read n (omega arith)),
      omega arith,
    )
uart_print_int32_lem (negsuc n) range =
    let most = length-print_magnitude (suc n) in
    let fits : (n == 2 ^ 31 - 1) ≡ false = ground arith in
    (
      45 ∷ print_magnitude (suc n),
      rw (uart_print_int32, negated, fits) refl,
      ap (λ m. negsuc (m - 1)) (print_magnitude-read (suc n) (omega arith))
          ∙ ap negsuc (omega arith),
      omega arith,
    )
