-- ===== src/Intc/Dispatch.antt =====
-- The service loop of `rv32_5stage_intc_isr` against the plain list of the sources to serve.
use rv32imac_soc.Common.{
  ℕ, zero, suc, ◌+◌, ◌-◌, ◌^◌, ◌≤◌, ◌<◌, ◌≡◌, refl, sym, ◌∙◌, bit_and, bit, not32, is_set,
  is_set-and, is_set-not, is_set-bit, is_set-zero, bit_and-le, bit_lt, word_ext, ◌==◌, inl, inr,
  Bool, Bool-cases, true, false, ◌&&◌, not, some, List, [], ◌∷◌, if◌then◌else◌, arith,
}
use native.Mathlib.Decide.{dec_lt}
use native.Mathlib.Nat.{pow-le-pow_right}
use rv32imac_soc.Bus.{Bus}
use rv32imac_soc.Intc.{Config, FindLsbSet, dispatch}

-- The sources i with p ≤ i < p + n at which f holds, in rising order.
abbrev pub sources_from : (ℕ → Bool) → ℕ → ℕ → List ℕ
sources_from f p zero = []
sources_from f p (suc n) = if f p then p ∷ sources_from f (p + 1) n else sources_from f (p + 1) n

-- The handlers of a list of sources, called in its order.
abbrev pub serve : {D : Type 0} → (ℕ → D → D) → ℕ → List ℕ → D → D
serve isr_table offset [] d = d
serve isr_table offset (i ∷ is) d = serve isr_table offset is (isr_table (offset + i) d)

-- Bits below p are clear.
abbrev pub NoneBelow : ℕ → ℕ → Type 0
NoneBelow p w = (j : ℕ) → j < p → is_set w j ≡ false

pub positive_of_set : (w i : ℕ) → is_set w i ≡ true → 0 < w
positive_of_set zero i h = ground (arith, is_set-zero i)
positive_of_set (suc w) i h = omega arith

pub cleared-set :
    (w p i : ℕ)
    → p < 32
    → i < 32
    → is_set (bit_and w (not32 (bit p))) i ≡ (is_set w i && not (p == i))
cleared-set w p i hp hi =
    ground
      (arith, is_set-and w (not32 (bit p)) i, is_set-not 32 (bit p) i, is_set-bit p i, bit_lt 32 p)

NoneBelow-suc : (w p : ℕ) → NoneBelow p w → is_set w p ≡ false → NoneBelow (p + 1) w
NoneBelow-suc w p nb h j lt = elim (dec_lt j p) [
  | yes below ↦ nb j below
  | no last ↦ let same : j ≡ p = omega arith in rw same h
]

module _ {find_lsb_set : ℕ → ℕ} (laws : FindLsbSet find_lsb_set) where
  -- The lowest set bit is where `find_lsb_set` says.
  lsb_at : (w p : ℕ) → w < 2 ^ 32 → NoneBelow p w → is_set w p ≡ true → find_lsb_set w - 1 ≡ p
  lsb_at w p hw none_below hp =
      let pos : 0 < w = positive_of_set w p hp in
      elim (dec_lt (find_lsb_set w - 1) p) [
        | yes below ↦ ground (arith, none_below (find_lsb_set w - 1) below, laws.found w pos hw)
        | no above ↦ elim (dec_lt p (find_lsb_set w - 1)) [
          | yes past ↦ ground (arith, laws.lowest w pos hw p past)
          | no same ↦ omega arith
        ]
      ]

  module _ {D : Type 0} (bus : Bus D) (cfg : Config) (isr_table : ℕ → D → D) where
    -- From position p on, with the bits below it clear, the loop serves exactly the sources that
    -- are set, in rising order.
    pub dispatch_from :
        (n p k fuel w : ℕ) (f : ℕ → Bool) (d : D)
        → p + n ≡ k
        → k ≤ 32
        → w < 2 ^ k
        → n < fuel
        → NoneBelow p w
        → ((i : ℕ) → p ≤ i → i < k → is_set w i ≡ f i)
        → dispatch bus cfg find_lsb_set isr_table fuel w d
          ≡ some (serve isr_table cfg.isr_table_offset (sources_from f p n) d)
    unfolding dispatch
    dispatch_from n p k zero w f d e hk hw hf nb agree = absurd (omega arith)
    dispatch_from zero p k (suc fuel) w f d e hk hw hf nb agree =
        let empty : w ≡ 0 =
          word_ext k w 0 hw (omega arith) (λ i h. nb i (omega arith) ∙ sym (is_set-zero i)) in
        rw empty
    dispatch_from (suc n) p k (suc fuel) w f d e hk hw hf nb agree = elim (Bool-cases (f p)) [
      | inr clear ↦ rw clear (
          dispatch_from n (p + 1) k (suc fuel) w f d (omega arith) hk hw (omega arith)
            (NoneBelow-suc w p nb (agree p (omega arith) (omega arith) ∙ clear))
            (λ i lo hi. agree i (omega arith) hi))
      | inl set ↦
          let hp : is_set w p ≡ true = agree p (omega arith) (omega arith) ∙ set in
          let small : w < 2 ^ 32 = omega (arith, pow-le-pow_right {n = 2} (omega arith) hk) in
          let busy : (w == 0) ≡ false = ground (arith, positive_of_set w p hp) in
          rw (busy, lsb_at w p small nb hp, set)
            (dispatch_from n (p + 1) k fuel (bit_and w (not32 (bit p))) f
              (isr_table (cfg.isr_table_offset + p) d) (omega arith) hk
              (omega (arith, bit_and-le w (not32 (bit p)))) (omega arith)
              (λ i lo. ground (arith, cleared-set w p i, nb i))
              (λ i lo hi. ground (arith, cleared-set w p i, agree i)))
    ]

-- For a word of k bits, k at most 32, and fuel for more than k rounds the loop ends, and has
-- called the handlers of exactly the sources that are set in the word, each once, in rising order;
-- `find_lsb_set` is as Zephyr documents it.
pub dispatch_lem :
    {find_lsb_set : ℕ → ℕ}
    → FindLsbSet find_lsb_set
    → {D : Type 0} (bus : Bus D) (cfg : Config) (isr_table : ℕ → D → D) (k fuel w : ℕ) (d : D)
    → k ≤ 32
    → w < 2 ^ k
    → k < fuel
    → dispatch bus cfg find_lsb_set isr_table fuel w d
      ≡ some (serve isr_table cfg.isr_table_offset (sources_from (is_set w) 0 k) d)
dispatch_lem laws bus cfg isr_table k fuel w d hk hw hf =
    dispatch_from laws bus cfg isr_table k 0 k fuel w (is_set w) d (omega arith) hk hw hf
      (λ j h. absurd (omega arith)) (λ i lo hi. refl)
