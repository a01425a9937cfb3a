-- ===== src/Baremetal/Tests.antt =====
-- The theorems about the bare-metal helpers at concrete arguments.
use rv32imac_soc.Common.{
  ℕ, some, Bool-cases, inl, inr, ◌%◌, ◌^◌, ◌<◌, List, ◌+◌, ◌*◌, ◌/◌, ◌≤◌, ◌≡◌, length, ◌==◌,
  if◌then◌else◌, arith,
}
use native.Mathlib.Nat.{div-add-mod, mod-lt, mul_comm, mul-mod_left}
use rv32imac_soc.Common.Int.{ℤ, pos, negsuc}
use rv32imac_soc.Bus.{Exec}
use rv32imac_soc.Cache.{RoundDown, displace_range}
use rv32imac_soc.Baremetal.{uart_print_int32, dcache_flush_range, scalar_gemm}
use rv32imac_soc.Baremetal.Print.{read_int32, uart_print_int32_lem}
use rv32imac_soc.Baremetal.Flush.{as_driver, dcache_flush_range_lem}
use rv32imac_soc.Baremetal.Product.{IsInt8, size, inner, scalar_gemm_lem}

uart_print_int32_example :
    (cs : List ℕ) × (uart_print_int32 (negsuc 2147483646) ≡ some cs)
    × (read_int32 cs ≡ negsuc 2147483646)
    × (length cs ≤ 11)
uart_print_int32_example = uart_print_int32_lem (negsuc 2147483646) (omega arith)

-- A memory that counts and sums the addresses it is asked for.
abbrev summing : ℕ → Exec (ℕ × ℕ) ℕ
summing addr (count, sum) = (count, (count + 1, sum + addr))

abbrev round_down : ℕ → ℕ → ℕ
round_down a n = a / n * n

down_laws : RoundDown round_down
down_laws = record {
  below = λ a n. omega (arith, div-add-mod a n, mul_comm n (a / n));
  near = λ a n h. omega (arith, div-add-mod a n, mul_comm n (a / n), mod-lt a h);
  multiple = λ a n. mul-mod_left (a / n) n;
}

dcache_flush_range_example :
    dcache_flush_range summing 65536 5 100 40 (0, 0)
    ≡ displace_range summing (as_driver 65536) round_down 5 100 40 (0, 0)
dcache_flush_range_example =
    dcache_flush_range_lem summing 65536 down_laws 5 100 40 (0, 0) (omega arith)

-- Operands of both signs.
abbrev some_operand : ℕ → ℤ
some_operand x = if x == 0 then negsuc 4 else pos (x % 100)

some_operand-IsInt8 : IsInt8 some_operand
some_operand-IsInt8 x = elim (Bool-cases (x == 0)) [
  | inl first ↦ rw first (omega arith)
  | inr later ↦ rw later (omega arith)
]

scalar_gemm_example :
    (scalar_gemm some_operand some_operand 2 3 (λ x. pos 0) (1 * 2 + 0)
      ≡ inner some_operand some_operand 3 1 0 3)
    × (size (inner some_operand some_operand 3 1 0 2) < 2 ^ 31)
scalar_gemm_example =
    scalar_gemm_lem some_operand some_operand 2 3 1 0 2 (λ x. pos 0) some_operand-IsInt8
      some_operand-IsInt8 (omega arith) (omega arith) (omega arith) (omega arith)
