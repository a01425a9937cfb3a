-- ===== src/Threads/Check.antt =====
-- `check_results`: what the count of wrong words says.
use rv32imac_soc.Common.{
  ℕ, ◌+◌, ◌*◌, ◌≤◌, ◌<◌, ◌≡◌, ◌↔◌, refl, ◌==◌, ==_iff, ◌∙◌, Bool-cases, inl, inr, arith,
}
use rv32imac_soc.Common.Loops.{upto, upto-inv, upto-Detects, Detects}
use rv32imac_soc.Threads.{Tally, wanted, check_cell, check_results}

check_cell-words :
    (dest : ℕ → ℕ → ℕ) (dim p i j : ℕ) (s : Tally)
    → (check_cell dest dim p i j s).words_checked ≡ s.words_checked
unfolding check_cell
check_cell-words dest dim p i j s = elim (Bool-cases (dest p (i * dim + j) == wanted p i j)) [
  | inl right ↦ rw right refl
  | inr wrong ↦ rw wrong refl
]

module _ (dest : ℕ → ℕ → ℕ) (dim : ℕ) where
  check_cell-Detects :
      (p i j : ℕ)
      → Detects
          (λ (t : Tally). t.gemm_bad)
          (check_cell dest dim p i j)
          (dest p (i * dim + j) ≡ wanted p i j)
  unfolding check_cell
  check_cell-Detects p i j s = elim (Bool-cases (dest p (i * dim + j) == wanted p i j)) [
    | inl right ↦ rw right (omega arith, ((λ e. (==_iff _ _).0 right), (λ e. refl)))
    | inr wrong ↦ rw wrong (
      omega arith,
      ((λ e. absurd (omega arith)), (λ e. let same = (==_iff _ _).1 e in ground arith)),
    )
  ]

  -- `check_results` reports no wrong word exactly if each word of each tile is what the staged
  -- operands should give; the count of wrong words never falls.
  pub check_results_lem :
      (n_tiles : ℕ) (s : Tally)
      → (s.gemm_bad ≤ (check_results dest dim n_tiles s).gemm_bad)
        × (((check_results dest dim n_tiles s).gemm_bad ≡ s.gemm_bad)
            ↔ ((p i j : ℕ) → p < n_tiles → i < dim → j < dim → dest p (i * dim + j) ≡ wanted p i j))
  unfolding check_results
  check_results_lem n_tiles s =
      let bad = λ (t : Tally). t.gemm_bad in
      let (grows, whole) =
        (upto-Detects bad
          (λ p.
            (i : ℕ)
            → 0 ≤ i
            → i < 0 + dim
            → (j : ℕ) → 0 ≤ j
            → j < 0 + dim
            → dest p (i * dim + j) ≡ wanted p i j)
          (λ p t. upto dim 0 (λ i u. upto dim 0 (λ j v. check_cell dest dim p i j v) u) t) n_tiles 0
          (λ p lo hi.
            upto-Detects bad
              (λ i. (j : ℕ) → 0 ≤ j → j < 0 + dim → dest p (i * dim + j) ≡ wanted p i j)
              (λ i u. upto dim 0 (λ j v. check_cell dest dim p i j v) u) dim 0
              (λ i lo hi.
                upto-Detects bad (λ j. dest p (i * dim + j) ≡ wanted p i j)
                  (λ j v. check_cell dest dim p i j v) dim 0 (λ j lo hi. check_cell-Detects p i j)))
          (record s { words_checked = s.words_checked + n_tiles * dim * dim })) in
      (
        grows,
        (
          (λ e p i j hp hi hj.
              whole.0 e p (omega arith) (omega arith) i (omega arith) (omega arith) j (omega arith)
                (omega arith)),
          (λ all.
              whole.1
                (λ p _ hp i _ hi j _ hj. all p i j (omega arith) (omega arith) (omega arith))),
        ),
      )

-- Each word of each tile is counted, right or wrong.
pub check_results-words :
    (dest : ℕ → ℕ → ℕ) (dim n_tiles : ℕ) (s : Tally)
    → (check_results dest dim n_tiles s).words_checked ≡ s.words_checked + n_tiles * dim * dim
unfolding check_results
check_results-words dest dim n_tiles s =
    let Counted : ℕ → Tally → Type 0 =
      (λ i t. t.words_checked ≡ s.words_checked + n_tiles * dim * dim) in
    upto-inv Counted _ n_tiles 0 _
      (λ p t _ _ tiles.
        upto-inv Counted _ dim 0 t
          (λ i u _ _ rows.
            upto-inv Counted _ dim 0 u (λ j v _ _ cells. check_cell-words dest dim p i j v ∙ cells)
              rows)
          tiles)
      refl
