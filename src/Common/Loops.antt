-- ===== src/Common/Loops.antt =====
-- Counting loops over a state, with their induction.
use Prim.Native.Nat.{ℕ, zero, suc, ◌+◌, ◌*◌, ◌≤◌, ◌<◌}
use mathlib.Core.Path.{◌≡◌, refl, ◌∙◌, subst}
use mathlib.Core.Logic.{◌↔◌, ◌⊎◌, inl, inr}
use native.Mathlib.Omega.{arith}

-- for (i = first; i < first + left; i++) body
unfoldable pub upto : {S : Type 0} → ℕ → ℕ → (ℕ → S → S) → S → S
upto zero i body s = s
upto (suc left) i body s = upto left (i + 1) body (body i s)

-- What holds on entry and is carried from each index to the next holds at the end.
pub upto-inv :
    {S : Type 0} (P : ℕ → S → Type 0) (body : ℕ → S → S) (left i : ℕ) (s : S)
    → ((j : ℕ) (t : S) → i ≤ j → j < i + left → P j t → P (j + 1) (body j t))
    → P i s
    → P (i + left) (upto left i body s)
unfolding upto
upto-inv P body zero i s carry here = subst (λ n. P n s) (omega arith) here
upto-inv P body (suc left) i s carry here =
    subst (λ n. P n (upto left (i + 1) body (body i s))) (omega arith)
      (upto-inv P body left (i + 1) (body i s) (λ j t lo hi. carry j t (omega arith) (omega arith))
        (carry i s (omega arith) (omega arith) here))

first_or_later : (i j : ℕ) → i ≤ j → (i ≡ j) ⊎ (i + 1 ≤ j)
first_or_later i j lo = omega arith

-- Whatever state f runs in, the count m does not fall, and it stays the same exactly if Good holds.
abbrev pub Detects : {S : Type 0} → (S → ℕ) → (S → S) → Type 0 → Type 0
Detects {S} m f Good = (s : S) → (m s ≤ m (f s)) × ((m (f s) ≡ m s) ↔ Good)

-- A loop over such bodies counts nothing exactly if all of them are good.
pub upto-Detects :
    {S : Type 0} (m : S → ℕ) (Good : ℕ → Type 0) (body : ℕ → S → S) (left i : ℕ)
    → ((j : ℕ) → i ≤ j → j < i + left → Detects m (body j) (Good j))
    → Detects m (upto left i body) ((j : ℕ) → i ≤ j → j < i + left → Good j)
unfolding upto
upto-Detects m Good body zero i each s =
    (omega arith, ((λ e j lo hi. absurd (omega arith)), (λ good. refl)))
upto-Detects m Good body (suc left) i each s =
    let s' = body i s in
    let (first, here) = each i (omega arith) (omega arith) s in
    let (rest, after) =
      upto-Detects m Good body left (i + 1) (λ j lo hi. each j (omega arith) (omega arith)) s' in
    (
      omega arith,
      (
        (λ e j lo hi. elim (first_or_later i j lo) [
          | inl same ↦ subst Good same (here.0 (omega arith))
          | inr later ↦ after.0 (omega arith) j later (omega arith)
        ]),
        (λ good.
            after.1 (λ j lo hi. good j (omega arith) (omega arith))
            ∙ here.1 (good i (omega arith) (omega arith))),
      ),
    )

-- The cells of an array by rows.
pub row_end : (row width : ℕ) → row * width + (0 + width) ≡ (row + 1) * width + 0
row_end row width = grind arith

pub cell_inside :
    (dim width row column : ℕ)
    → row < dim
    → column < width
    → row * width + column < (0 + dim) * width + 0
cell_inside dim width row column hl hk = grind arith
