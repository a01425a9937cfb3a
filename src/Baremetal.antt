-- ===== src/Baremetal.antt =====
-- fpga/tests/test_mm_accel.c: the helpers of the bare-metal test of the accelerator.
pub mod Print
pub mod Flush
pub mod Product
mod Tests
use rv32imac_soc.Common.{
  ℕ, zero, suc, ◌+◌, ◌-◌, ◌*◌, ◌/◌, ◌%◌, ◌^◌, bit_and, bit_xor, not32, u8, u32, ltb, ◌==◌, Option,
  none, some, List, [], ◌∷◌, if◌then◌else◌,
}
use rv32imac_soc.Common.Int.{ℤ, pos, negsuc, ◌+ℤ◌, ◌*ℤ◌}
use rv32imac_soc.Common.Loops.{upto}
use rv32imac_soc.Bus.{Exec}
use rv32imac_soc.Cache.Hw.{set_at}

-- The loop that fills `buf`, with the character stored last first: that is the order in which the
-- second loop prints them. A number of 32 bits has at most ten digits, the fuel of the callers.
unfoldable pub push_digits : ℕ → ℕ → List ℕ → List ℕ
push_digits zero u buf = buf
push_digits (suc fuel) u buf =
    let rest = push_digits fuel (u / 10) ((48 + u % 10) ∷ buf) in if u == 0 then buf else rest

unfoldable pub print_magnitude : ℕ → List ℕ
print_magnitude u = if u == 0 then 48 ∷ [] else push_digits 10 u []

-- `(uint32_t)(-v)` of a negative int32_t -(n + 1): the negation of the smallest one overflows, which C
-- leaves undefined.
unfoldable pub negated : ℕ → Option ℕ
negated n = if n == 2 ^ 31 - 1 then none else some (suc n)

-- The characters that `uart_print_int32` sends, if it is defined.
unfoldable pub uart_print_int32 : ℤ → Option (List ℕ)
uart_print_int32 (pos n) = some (print_magnitude n)
uart_print_int32 (negsuc n) = elim (negated n) [
  | none ↦ none
  | some u ↦ some (45 ∷ print_magnitude u)
]

abbrev pub dc_sets_hw : ℕ
dc_sets_hw = 1024

-- The two walks over `evict_buf`, which starts at the address `evict_buf`; a load may change the
-- memory `D`.
module _ {D : Type 0} (load : ℕ → Exec D ℕ) (evict_buf : ℕ) where
  unfoldable pub evict_from : ℕ → ℕ → ℕ → D → D
  evict_from zero i sink d = d
  evict_from (suc left) i sink d =
      let (v, d') = load (evict_buf + i) d in evict_from left (i + 16) (bit_xor sink (u8 v)) d'

  unfoldable pub dcache_evict : D → D
  dcache_evict d = evict_from dc_sets_hw 0 0 d

  unfoldable pub flush_from : ℕ → ℕ → ℕ → ℕ → D → Option D
  flush_from zero a end sink d = none
  flush_from (suc fuel) a end sink d =
      let set = bit_and (a / 16) (dc_sets_hw - 1) in
      let rest =
        (let (v, d') = load (evict_buf + set * 16) d in
          flush_from fuel (u32 (a + 16)) end (bit_xor sink (u8 v)) d') in
      if ltb a end then rest else some d

  unfoldable pub dcache_flush_range : ℕ → ℕ → ℕ → D → Option D
  dcache_flush_range fuel p len d = flush_from fuel (bit_and p (not32 (16 - 1))) (u32 (p + len)) 0 d

-- `scalar_gemm`: the accumulator of an element, and the product. Elements and accumulator are numbers
-- without bounds here, also where C has int8_t and int32_t; the arrays hold dim * klen and dim * dim.
unfoldable pub accumulate : (ℕ → ℤ) → (ℕ → ℤ) → ℕ → ℕ → ℕ → ℤ
accumulate a b klen i j = upto klen 0 (λ k acc. acc +ℤ a (i * klen + k) *ℤ b (j * klen + k)) (pos 0)

unfoldable pub scalar_gemm : (ℕ → ℤ) → (ℕ → ℤ) → ℕ → ℕ → (ℕ → ℤ) → ℕ → ℤ
scalar_gemm a b dim klen c =
    upto dim 0 (λ i c. upto dim 0 (λ j c. set_at c (i * dim + j) (accumulate a b klen i j)) c) c
