-- ===== src/Threads/Stage.antt =====
-- `stage_operands`: what it leaves in the two panels, and that the check accepts their product.
use rv32imac_soc.Common.{
  ℕ, ◌+◌, ◌*◌, ◌/◌, ◌<◌, ◌≡◌, ◌⊎◌, ==_iff, refl, sym, ap, ◌∙◌, ◌==◌, ltb, u8, Bool-cases, true,
  false, inl, inr, subst, if◌then◌else◌, arith,
}
use native.Mathlib.Nat.{mul-add-div_right, div-eq_of_lt}
use rv32imac_soc.Common.Loops.{upto, upto-inv, row_end, cell_inside}
use rv32imac_soc.Cache.Hw.{set_at}
use rv32imac_soc.Threads.{Panels, stage_cell, stage_operands}

-- The first n bytes of each panel are staged.
record Before (k_len n : ℕ) (s : Panels) : Type 0 where
  a_done : (x : ℕ) → x < n → s.a_panel x ≡ u8 (x / k_len + 1)
  b_done : (x p : ℕ) → p < 8 → x < n → s.b_panel p x ≡ u8 (x / k_len + 1 + p)

-- So are byte n of the panel of A, and byte n of the first q panels of B.
record Within (k_len n q : ℕ) (s : Panels) : Type 0 where
  a_done : (x : ℕ) → x < n + 1 → s.a_panel x ≡ u8 (x / k_len + 1)
  b_done :
      (x p : ℕ)
      → p < 8
      → x < n + (if ltb p q then 1 else 0)
      → s.b_panel p x ≡ u8 (x / k_len + 1 + p)

last_or_before : (x n : ℕ) → x < n + 1 → (n ≡ x) ⊎ (x < n)
last_or_before x n h = omega arith

below : (n x : ℕ) → x < n → (n == x) ≡ false
below n x h = ground arith

set_at_same :
    {A : Type 0} (f : ℕ → A) (i : ℕ) (v : A) (j : ℕ) → (i == j) ≡ true → set_at f i v j ≡ v
set_at_same f i v j same = rw same refl

set_at_other :
    {A : Type 0} (f : ℕ → A) (i : ℕ) (v : A) (j : ℕ) → (i == j) ≡ false → set_at f i v j ≡ f j
set_at_other f i v j other = rw other refl

module _ (k_len lane k : ℕ) (lt : k < k_len) where
  abbrev at : ℕ
  at = lane * k_len + k

  at-lane : at / k_len ≡ lane
  at-lane =
      mul-add-div_right (omega arith) lane k ∙ ap (λ n. lane + n) (div-eq_of_lt lt) ∙ omega arith

  -- The lane of the byte that is being staged.
  lane_here : (x : ℕ) → at ≡ x → lane ≡ x / k_len
  lane_here x here = sym at-lane ∙ ap (λ n. n / k_len) here

  set_a-Within :
      (s : Panels)
      → Before k_len at s
      → Within k_len at 0 (record s { a_panel = set_at s.a_panel at (u8 (lane + 1)) })
  set_a-Within s before = record {
    a_done = λ x h. elim (last_or_before x at h) [
      | inl here ↦
          set_at_same s.a_panel at (u8 (lane + 1)) x ((==_iff at x).1 here)
          ∙ ap (λ l. u8 (l + 1)) (lane_here x here)
      | inr left ↦
          set_at_other s.a_panel at (u8 (lane + 1)) x (below at x left) ∙ before.a_done x left
    ];
    b_done = λ x p hp h. before.b_done x p hp (ground arith);
  }

  abbrev set_b : ℕ → Panels → Panels
  set_b p t = record t {
    b_panel = set_at t.b_panel p (set_at (t.b_panel p) at (u8 (lane + 1 + p)));
  }

  row_done :
      (q : ℕ) (t : Panels) (x : ℕ)
      → q < 8
      → Within k_len at q t
      → x < at + 1
      → set_at (t.b_panel q) at (u8 (lane + 1 + q)) x ≡ u8 (x / k_len + 1 + q)
  row_done q t x hq done h = elim (last_or_before x at h) [
    | inl here ↦
        set_at_same (t.b_panel q) at (u8 (lane + 1 + q)) x ((==_iff at x).1 here)
        ∙ ap (λ l. u8 (l + 1 + q)) (lane_here x here)
    | inr left ↦
        set_at_other (t.b_panel q) at (u8 (lane + 1 + q)) x (below at x left)
        ∙ done.b_done x q hq (ground arith)
  ]

  set_b-Within :
      (q : ℕ) (t : Panels) → q < 8 → Within k_len at q t → Within k_len at (q + 1) (set_b q t)
  set_b-Within q t hq done = record {
    a_done = done.a_done;
    b_done = λ x p hp h. elim (Bool-cases (q == p)) [
      | inl same ↦
          ap (λ (row : ℕ → ℕ). row x)
            (set_at_same t.b_panel q (set_at (t.b_panel q) at (u8 (lane + 1 + q))) p same)
          ∙ row_done q t x hq done (ground arith)
          ∙ ap (λ p. u8 (x / k_len + 1 + p)) ((==_iff q p).0 same)
      | inr other ↦
          ap (λ (row : ℕ → ℕ). row x)
            (set_at_other t.b_panel q (set_at (t.b_panel q) at (u8 (lane + 1 + q))) p other)
          ∙ done.b_done x p hp (ground arith)
    ];
  }

  stage_cell-Before :
      (s : Panels) → Before k_len at s → Before k_len (at + 1) (stage_cell k_len lane k s)
  unfolding stage_cell
  stage_cell-Before s before =
      let done =
        upto-inv (Within k_len at) set_b 8 0 _ (λ q t lo hi. set_b-Within q t (omega arith))
          (set_a-Within s before) in
      record { a_done = done.a_done; b_done = λ x p hp h. done.b_done x p hp (ground arith) }

-- `stage_operands` fills each lane of the panel of A with the lane's number from 1, and each lane
-- of the panels of B with that number plus the panel's: in every byte of the lane, whatever the
-- panels held before. There are eight panels of B.
pub stage_operands_lem :
    (dim k_len lane k p : ℕ) (s : Panels)
    → lane < dim
    → k < k_len
    → p < 8
    → ((stage_operands dim k_len s).a_panel (lane * k_len + k) ≡ u8 (lane + 1))
      × ((stage_operands dim k_len s).b_panel p (lane * k_len + k) ≡ u8 (lane + 1 + p))
unfolding stage_operands
stage_operands_lem dim k_len lane k p s hl hk hp =
    let done : Before k_len ((0 + dim) * k_len + 0) (stage_operands dim k_len s) =
      upto-inv (λ lane t. Before k_len (lane * k_len + 0) t)
        (λ lane t. upto k_len 0 (λ k u. stage_cell k_len lane k u) t) dim 0 s
        (λ lane t lo hi before.
          subst (λ n. Before k_len n (upto k_len 0 (λ k u. stage_cell k_len lane k u) t))
            (row_end lane k_len)
            (upto-inv (λ k u. Before k_len (lane * k_len + k) u) (λ k u. stage_cell k_len lane k u)
              k_len 0 t
              (λ k u lo hi before.
                subst (λ n. Before k_len n (stage_cell k_len lane k u)) (omega arith)
                  (stage_cell-Before k_len lane k (omega arith) u before))
              before))
        (record {
          a_done = λ x h. absurd (omega arith);
          b_done = λ x p hp h. absurd (omega arith);
        }) in
    let x = lane * k_len + k in
    let lane_of : x / k_len ≡ lane = at-lane k_len lane k hk in
    let inside : x < (0 + dim) * k_len + 0 = cell_inside dim k_len lane k hl hk in
    (
      done.a_done x inside ∙ ap (λ l. u8 (l + 1)) lane_of,
      done.b_done x p hp inside ∙ ap (λ l. u8 (l + 1 + p)) lane_of,
    )
