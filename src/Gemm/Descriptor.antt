-- ===== src/Gemm/Descriptor.antt =====
-- The word that pushes a descriptor, read back field by field.
use rv32imac_soc.Common.{
  ℕ, ◌+◌, ◌*◌, ◌/◌, ◌%◌, ◌^◌, ◌<◌, ◌≡◌, ◌↔◌, refl, ap, ◌∙◌, Bool-cases, inl, inr, bit_and, bit_or,
  if◌then◌else◌, arith,
}
use rv32imac_soc.Common.Fields.{bit_or-split}
use native.Mathlib.Nat.{mod-lt}
use rv32imac_soc.Cache.Mask.{mask_lem}
use rv32imac_soc.Gemm.{Tile, desc_push}

-- The fields of a pushed word.
pub record Fields : Type 0 where
  pub k_len : ℕ
  pub panel_use : ℕ
  pub panel_load : ℕ
  pub b_only : ℕ

abbrev pub fields : ℕ → Fields
fields w = record {
  k_len = w % 256;
  panel_use = w / 2 ^ 8 % 16;
  panel_load = w / 2 ^ 12 % 16;
  b_only = w / 2 ^ 16;
}

-- Four disjoint fields add up.
fields_sum :
    (f l u k : ℕ)
    → l < 16
    → u < 16
    → k < 256
    → bit_or (bit_or (bit_or (f * 65536) (l * 4096)) (u * 256)) k
      ≡ f * 65536 + l * 4096 + u * 256 + k
fields_sum f l u k hl hu hk =
    let a : bit_or (f * 65536) (l * 4096) ≡ f * 65536 + l * 4096 =
      bit_or-split 16 f (l * 4096) (f * 65536) refl (omega arith) in
    let b : bit_or (f * 65536 + l * 4096) (u * 256) ≡ f * 65536 + l * 4096 + u * 256 =
      bit_or-split 12 (f * 16 + l) (u * 256) (f * 65536 + l * 4096) (omega arith) (omega arith) in
    let c : bit_or (f * 65536 + l * 4096 + u * 256) k ≡ f * 65536 + l * 4096 + u * 256 + k =
      bit_or-split 8 (f * 256 + l * 16 + u) k (f * 65536 + l * 4096 + u * 256) (omega arith)
        (omega arith) in
    ap (λ x. bit_or (bit_or x (u * 256)) k) a ∙ ap (λ x. bit_or x k) b ∙ c

desc_push-sum :
    (t : Tile)
    → desc_push t
      ≡ (if t.b_only then 1 else 0) * 65536
        + t.panel_load % 16 * 4096
        + t.panel_use % 16 * 256
        + t.k_len % 256
unfolding desc_push
desc_push-sum t =
    let load : bit_and t.panel_load 15 ≡ t.panel_load % 16 =
      mask_lem 16 t.panel_load (omega arith) refl in
    let used : bit_and t.panel_use 15 ≡ t.panel_use % 16 =
      mask_lem 16 t.panel_use (omega arith) refl in
    let len : bit_and t.k_len 255 ≡ t.k_len % 256 = mask_lem 256 t.k_len (omega arith) refl in
    let hl = mod-lt t.panel_load (omega arith) in
    let hu = mod-lt t.panel_use (omega arith) in
    let hk = mod-lt t.k_len (omega arith) in
    elim (Bool-cases t.b_only) [
      | inl reuse ↦
          rw (load, used, len, reuse)
            (fields_sum 1 (t.panel_load % 16) (t.panel_use % 16) (t.k_len % 256) hl hu hk)
      | inr fresh ↦
          rw (load, used, len, fresh)
            (fields_sum 0 (t.panel_load % 16) (t.panel_use % 16) (t.k_len % 256) hl hu hk)
    ]

-- The fields of a sum of fields.
fields-sum :
    (f l u k w : ℕ)
    → l < 16
    → u < 16
    → k < 256
    → w ≡ f * 65536 + l * 4096 + u * 256 + k
    → fields w ≡ record { k_len = k; panel_use = u; panel_load = l; b_only = f }
fields-sum f l u k w hl hu hk e =
    let p : w % 256 ≡ k = omega arith in
    let q : w / 256 % 16 ≡ u = omega arith in
    let r : w / 4096 % 16 ≡ l = omega arith in
    let s : w / 65536 ≡ f = omega arith in
    λ i. record { k_len = p i; panel_use = q i; panel_load = r i; b_only = s i }

-- The pushed word reads back, field by field, as the tile: the panels modulo 16, the flag that keeps
-- the panel of A, and the length modulo 256. So the accelerator sees the length of the tile exactly
-- if it is below 256, although `k_len` has 16 bits.
pub desc_push_lem :
    (t : Tile)
    → (fields (desc_push t) ≡ record {
      k_len = t.k_len % 256;
      panel_use = t.panel_use % 16;
      panel_load = t.panel_load % 16;
      b_only = if t.b_only then 1 else 0;
    })
      × (((fields (desc_push t)).k_len ≡ t.k_len) ↔ (t.k_len < 256))
desc_push_lem t =
    let sum = desc_push-sum t in
    let small : t.k_len % 256 < 256 = mod-lt t.k_len (omega arith) in
    (
      fields-sum (if t.b_only then 1 else 0) (t.panel_load % 16) (t.panel_use % 16) (t.k_len % 256)
          (desc_push t) (mod-lt t.panel_load (omega arith)) (mod-lt t.panel_use (omega arith)) small
          sum,
      ((λ e. omega arith), (λ lt. omega arith)),
    )
