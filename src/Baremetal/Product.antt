-- ===== src/Baremetal/Product.antt =====
-- `scalar_gemm`: the product that the accelerator is measured against.
use rv32imac_soc.Common.{
  ℕ, ◌^◌, zero, suc, ◌+◌, ◌*◌, ◌/◌, ◌%◌, ◌<◌, ◌≤◌, ◌≡◌, leb, refl, sym, ap, ◌∙◌, ◌==◌, ==_iff,
  Bool-cases, inl, inr, subst, if◌then◌else◌, arith,
}
use native.Mathlib.Nat.{
  mul-le-mul, mul-add-div_right, div-eq_of_lt, mul-add-mod_self_right, mod-eq_of_lt,
}
use rv32imac_soc.Common.Int.{ℤ, pos, negsuc, pos_part, neg_part, sub_ℕ, ◌+ℤ◌, ◌*ℤ◌}
use rv32imac_soc.Common.Loops.{upto, upto-inv, row_end, cell_inside}
use rv32imac_soc.Cache.Hw.{set_at}
use rv32imac_soc.Baremetal.{accumulate, scalar_gemm}

-- The inner product of lane i of a and lane j of b over the first n positions.
abbrev pub inner : (ℕ → ℤ) → (ℕ → ℤ) → ℕ → ℕ → ℕ → ℕ → ℤ
inner a b klen i j zero = pos 0
inner a b klen i j (suc n) = inner a b klen i j n +ℤ a (i * klen + n) *ℤ b (j * klen + n)

-- The magnitude of a number.
abbrev pub size : ℤ → ℕ
size (pos n) = n
size (negsuc n) = suc n

-- An array of int8_t.
abbrev pub IsInt8 : (ℕ → ℤ) → Type 0
IsInt8 a = (x : ℕ) → size (a x) ≤ 128

size_parts : (x : ℤ) → pos_part x + neg_part x ≡ size x
size_parts (pos n) = omega arith
size_parts (negsuc n) = omega arith

size_sub : (x y : ℕ) → size (sub_ℕ x y) ≤ x + y
size_sub x y = elim (Bool-cases (leb y x)) [
  | inl up ↦ rw up (omega arith)
  | inr down ↦ rw down (ground arith)
]

size-+ℤ : (x y : ℤ) → size (x +ℤ y) ≤ size x + size y
unfolding ◌+ℤ◌
size-+ℤ x y = omega (
  arith,
  size_sub (pos_part x + pos_part y) (neg_part x + neg_part y),
  size_parts x,
  size_parts y,
)

size-*ℤ : (x y : ℤ) → size (x *ℤ y) ≤ size x * size y
unfolding ◌*ℤ◌
size-*ℤ (pos m) (pos n) = omega (arith, size_sub (m * n + 0 * 0) (m * 0 + 0 * n))
size-*ℤ (pos m) (negsuc n) = omega (arith, size_sub (m * 0 + 0 * suc n) (m * suc n + 0 * 0))
size-*ℤ (negsuc m) (pos n) = omega (arith, size_sub (0 * n + suc m * 0) (0 * 0 + suc m * n))
size-*ℤ (negsuc m) (negsuc n) =
    omega (arith, size_sub (0 * 0 + suc m * suc n) (0 * suc n + suc m * 0))

module _ (a b : ℕ → ℤ) (dim klen : ℕ) where
  accumulate-inner : (i j : ℕ) → accumulate a b klen i j ≡ inner a b klen i j klen
  unfolding accumulate
  accumulate-inner i j =
      subst (λ n. accumulate a b klen i j ≡ inner a b klen i j n) (omega arith)
        (upto-inv (λ k acc. acc ≡ inner a b klen i j k)
          (λ k acc. acc +ℤ a (i * klen + k) *ℤ b (j * klen + k)) klen 0 (pos 0)
          (λ k acc lo hi before.
            let next : suc k ≡ k + 1 = omega arith in
            ap (λ x. x +ℤ a (i * klen + k) *ℤ b (j * klen + k)) before
            ∙ ap (inner a b klen i j) next)
          refl)

  -- The elements before element n are done.
  abbrev Filled : ℕ → (ℕ → ℤ) → Type 0
  Filled n c = (x : ℕ) → x < n → c x ≡ inner a b klen (x / dim) (x % dim) klen

  element_row : (i j : ℕ) → j < dim → (i * dim + j) / dim ≡ i
  element_row i j h =
      mul-add-div_right (omega arith) i j ∙ ap (λ n. i + n) (div-eq_of_lt h) ∙ omega arith

  element_column : (i j : ℕ) → j < dim → (i * dim + j) % dim ≡ j
  element_column i j h = mul-add-mod_self_right i dim j ∙ mod-eq_of_lt h

  element-Filled :
      (i j : ℕ) (c : ℕ → ℤ)
      → j < dim
      → Filled (i * dim + j) c
      → Filled (i * dim + j + 1) (set_at c (i * dim + j) (accumulate a b klen i j))
  element-Filled i j c h before x lt =
      let at = i * dim + j in
      elim (Bool-cases (at == x)) [
        | inl here ↦
            ap (λ t. if t then accumulate a b klen i j else c x) here
            ∙ accumulate-inner i j
            ∙ ap (λ n. inner a b klen n j klen) (sym (element_row i j h))
            ∙ ap (λ n. inner a b klen (at / dim) n klen) (sym (element_column i j h))
            ∙ ap (λ y. inner a b klen (y / dim) (y % dim) klen) ((==_iff at x).0 here)
        | inr left ↦
            ap (λ t. if t then accumulate a b klen i j else c x) left ∙ before x (ground arith)
      ]

  element_lem :
      (i j : ℕ) (c : ℕ → ℤ)
      → i < dim
      → j < dim
      → scalar_gemm a b dim klen c (i * dim + j) ≡ inner a b klen i j klen
  unfolding scalar_gemm
  element_lem i j c hi hj =
      let done : Filled ((0 + dim) * dim + 0) (scalar_gemm a b dim klen c) =
        upto-inv (λ i c. Filled (i * dim + 0) c)
          (λ i c. upto dim 0 (λ j c. set_at c (i * dim + j) (accumulate a b klen i j)) c) dim 0 c
          (λ i c lo hi before.
            subst
              (λ n.
                Filled n (upto dim 0 (λ j c. set_at c (i * dim + j) (accumulate a b klen i j)) c))
              (row_end i dim)
              (upto-inv (λ j c. Filled (i * dim + j) c)
                (λ j c. set_at c (i * dim + j) (accumulate a b klen i j)) dim 0 c
                (λ j c lo hi before.
                  subst (λ n. Filled n (set_at c (i * dim + j) (accumulate a b klen i j)))
                    (omega arith) (element-Filled i j c (omega arith) before))
                before))
          (λ x h. absurd (omega arith)) in
      done (i * dim + j) (cell_inside dim dim i j hi hj)
      ∙ ap (λ n. inner a b klen n ((i * dim + j) % dim) klen) (element_row i j hj)
      ∙ ap (λ n. inner a b klen i n klen) (element_column i j hj)

  size-inner : IsInt8 a → IsInt8 b → (i j n : ℕ) → size (inner a b klen i j n) ≤ n * 16384
  size-inner ha hb i j zero = omega arith
  size-inner ha hb i j (suc n) =
      let x = a (i * klen + n) in
      let y = b (j * klen + n) in
      let product : size x * size y ≤ 128 * 128 =
        mul-le-mul (ha (i * klen + n)) (hb (j * klen + n)) in
      omega (
        arith,
        size-+ℤ (inner a b klen i j n) (x *ℤ y),
        size-*ℤ x y,
        product,
        size-inner ha hb i j n,
      )

  -- `scalar_gemm` leaves in row i and column j the inner product of lane i of A and lane j of B, for
  -- each i and j below the dimension, whatever the result held before; and no sum on the way
  -- there, after any number of terms, leaves the range of int32_t. The operands are of int8_t and the
  -- lanes of at most 65536 of them.
  pub scalar_gemm_lem :
      (i j n : ℕ) (c : ℕ → ℤ)
      → IsInt8 a
      → IsInt8 b
      → klen ≤ 2 ^ 16
      → i < dim
      → j < dim
      → n ≤ klen
      → (scalar_gemm a b dim klen c (i * dim + j) ≡ inner a b klen i j klen)
        × (size (inner a b klen i j n) < 2 ^ 31)
  scalar_gemm_lem i j n c ha hb deep hi hj le =
      (element_lem i j c hi hj, omega (arith, size-inner ha hb i j n))
