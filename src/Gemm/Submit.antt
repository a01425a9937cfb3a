-- ===== src/Gemm/Submit.antt =====
-- What the two loops of a batch do on the outside, and what they leave alone.
use rv32imac_soc.Common.{
  ℕ, ◌+◌, ◌≡◌, refl, sym, ap, ◌∙◌, u32, ◌==◌, Bool, Bool-cases, true, false, inl, inr, not, Option,
  none, some, ok, einval, List, [], ◌∷◌, ◌++◌, if◌then◌else◌,
}
use mathlib.Core.List.{append-nil, append_assoc}
use rv32imac_soc.Gemm.World.{Effect, write, flush, invd, Env, Info, Data, World}
use rv32imac_soc.Gemm.{
  Tile, Config, desc_push, operand_bytes, flush_some, invd_some, flush_a, flush_operands,
  flush_tile, flush_tiles, submit, drop_dests, reg_desc_a_src, reg_desc_b_src, reg_desc_dest,
  reg_desc_push,
}

-- The flush of a buffer that is there.
abbrev pub flush_of : ℕ → ℕ → List Effect
flush_of ptr bytes = if ptr == 0 then [] else flush ptr bytes ∷ []

abbrev pub a_flush : Tile → ℕ → List Effect
a_flush t bytes = if t.src_coherent then [] else if not t.b_only then flush_of t.a_src bytes else []

-- What a tile's operands need before the accelerator reads them: A unless the tile reuses it or the
-- caller vouches for it, and B in any case.
abbrev pub operand_flushes : Info → Tile → List Effect
operand_flushes info t = a_flush t (operand_bytes info t) ++ flush_of t.b_src (operand_bytes info t)

-- The four writes that push a descriptor.
abbrev pub descriptor_writes : Config → Tile → List Effect
descriptor_writes cfg t =
    write (u32 t.a_src) (cfg.base + reg_desc_a_src)
    ∷ write (u32 t.b_src) (cfg.base + reg_desc_b_src)
    ∷ write (u32 t.dest) (cfg.base + reg_desc_dest)
    ∷ write (desc_push t) (cfg.base + reg_desc_push)
    ∷ []

abbrev pub submissions : Config → Info → List Tile → List Effect
submissions cfg info [] = []
submissions cfg info (t ∷ ts) =
    operand_flushes info t ++ (descriptor_writes cfg t ++ submissions cfg info ts)

-- The invalidation of a destination that is there.
abbrev pub invd_of : ℕ → ℕ → List Effect
invd_of ptr bytes = if ptr == 0 then [] else invd ptr bytes ∷ []

abbrev pub invalidations : ℕ → List Tile → List Effect
invalidations bytes [] = []
invalidations bytes (t ∷ ts) = invd_of t.dest bytes ++ invalidations bytes ts

-- Both operands of each tile.
abbrev pub stagings : Info → List Tile → List Effect
stagings info [] = []
stagings info (t ∷ ts) =
    flush_of t.a_src (operand_bytes info t)
    ++ (flush_of t.b_src (operand_bytes info t) ++ stagings info ts)

-- The tiles of a batch, and whether there are any.
abbrev pub tiles_of : Option (List Tile) → List Tile
tiles_of none = []
tiles_of (some ts) = ts

abbrev pub is_batch : Option (List Tile) → Bool
is_batch none = false
is_batch (some []) = false
is_batch (some (t ∷ ts)) = true

push_four :
    (es : List Effect) (a b c d : Effect) (rest : List Effect)
    → (((es ++ (a ∷ [])) ++ (b ∷ [])) ++ (c ∷ [])) ++ (d ∷ []) ++ rest
      ≡ es ++ (a ∷ b ∷ c ∷ d ∷ rest)
push_four es a b c d rest = simp append_assoc

flush_some_lem :
    (ptr bytes : ℕ) (w : World)
    → ((flush_some ptr bytes w).effects ≡ w.effects ++ flush_of ptr bytes)
      × ((flush_some ptr bytes w).gemm ≡ w.gemm)
flush_some_lem ptr bytes w = elim (Bool-cases (ptr == 0)) [
  | inl null ↦ rw null (sym (append-nil w.effects), refl)
  | inr there ↦ rw there (refl, refl)
]

invd_some_lem :
    (ptr bytes : ℕ) (w : World)
    → ((invd_some ptr bytes w).effects ≡ w.effects ++ invd_of ptr bytes)
      × ((invd_some ptr bytes w).gemm ≡ w.gemm)
invd_some_lem ptr bytes w = elim (Bool-cases (ptr == 0)) [
  | inl null ↦ rw null (sym (append-nil w.effects), refl)
  | inr there ↦ rw there (refl, refl)
]

flush_a_lem :
    (t : Tile) (bytes : ℕ) (w : World)
    → ((flush_a t bytes w).effects ≡ w.effects ++ a_flush t bytes)
      × ((flush_a t bytes w).gemm ≡ w.gemm)
flush_a_lem t bytes w = elim (Bool-cases t.src_coherent) [
  | inl vouched ↦ rw vouched (sym (append-nil w.effects), refl)
  | inr dirty ↦ elim (Bool-cases t.b_only) [
    | inl reused ↦ rw (dirty, reused) (sym (append-nil w.effects), refl)
    | inr fetched ↦ rw (dirty, fetched) (flush_some_lem t.a_src bytes w)
  ]
]

module _ (env : Env) (cfg : Config) where
  pub flush_tile_lem :
      (t : Tile) (w : World)
      → ((flush_tile env cfg t w).effects ≡ w.effects ++ operand_flushes w.gemm.info t)
        × ((flush_tile env cfg t w).gemm ≡ w.gemm)
  unfolding flush_tile
  flush_tile_lem t w =
      let bytes = operand_bytes w.gemm.info t in
      let (a_effects, a_gemm) = flush_a_lem t bytes w in
      let (b_effects, b_gemm) = flush_some_lem t.b_src bytes (flush_a t bytes w) in
      (
        b_effects
            ∙ ap (λ es. es ++ flush_of t.b_src bytes) a_effects
            ∙ append_assoc w.effects (a_flush t bytes) (flush_of t.b_src bytes),
        b_gemm ∙ a_gemm,
      )

  -- The submission has exactly the effects of its tiles, in their order, and leaves the driver's
  -- data alone.
  pub submit_lem :
      (ts : List Tile) (spent : ℕ) (w : World)
      → ((submit env cfg ts spent w).1.effects ≡ w.effects ++ submissions cfg w.gemm.info ts)
        × ((submit env cfg ts spent w).1.gemm ≡ w.gemm)
  unfolding submit
  submit_lem [] spent w = (sym (append-nil w.effects), refl)
  submit_lem (t ∷ ts) spent w =
      let w1 = record w { asked = w.asked + 1 } in
      let (e1, g1) = flush_tile_lem t w1 in
      let (e2, g2) = submit_lem ts _ _ in
      let writes = descriptor_writes cfg t in
      let flushes = operand_flushes w.gemm.info t in
      (
        e2
            ∙ push_four _ _ _ _ _ _
            ∙ ap (λ es. es ++ (writes ++ submissions cfg (flush_tile env cfg t w1).gemm.info ts)) e1
            ∙ append_assoc w.effects flushes
                (writes ++ submissions cfg (flush_tile env cfg t w1).gemm.info ts)
            ∙ ap (λ (g : Data). w.effects ++ (flushes ++ (writes ++ submissions cfg g.info ts))) g1,
        g2 ∙ g1,
      )

  pub drop_dests_lem :
      (bytes : ℕ) (ts : List Tile) (w : World)
      → ((drop_dests env cfg bytes ts w).effects ≡ w.effects ++ invalidations bytes ts)
        × ((drop_dests env cfg bytes ts w).gemm ≡ w.gemm)
  unfolding drop_dests
  drop_dests_lem bytes [] w = (sym (append-nil w.effects), refl)
  drop_dests_lem bytes (t ∷ ts) w =
      let (e1, g1) = invd_some_lem t.dest bytes w in
      let (e2, g2) = drop_dests_lem bytes ts (invd_some t.dest bytes w) in
      (
        e2
            ∙ ap (λ es. es ++ invalidations bytes ts) e1
            ∙ append_assoc w.effects (invd_of t.dest bytes) (invalidations bytes ts),
        g2 ∙ g1,
      )

  flush_tiles_lem :
      (ts : List Tile) (w : World)
      → ((flush_tiles env cfg ts w).effects ≡ w.effects ++ stagings w.gemm.info ts)
        × ((flush_tiles env cfg ts w).gemm ≡ w.gemm)
  unfolding flush_tiles
  flush_tiles_lem [] w = (sym (append-nil w.effects), refl)
  flush_tiles_lem (t ∷ ts) w =
      let bytes = operand_bytes w.gemm.info t in
      let w1 = flush_some t.a_src bytes w in
      let w2 = flush_some t.b_src bytes w1 in
      let (e1, g1) = flush_some_lem t.a_src bytes w in
      let (e2, g2) = flush_some_lem t.b_src bytes w1 in
      let (e3, g3) = flush_tiles_lem ts w2 in
      let a = flush_of t.a_src bytes in
      let b = flush_of t.b_src bytes in
      (
        e3
            ∙ ap (λ es. es ++ stagings w2.gemm.info ts) (e2 ∙ ap (λ es. es ++ b) e1)
            ∙ ap (λ (g : Data). ((w.effects ++ a) ++ b) ++ stagings g.info ts) (g2 ∙ g1)
            ∙ simp append_assoc,
        g3 ∙ g2 ∙ g1,
      )

  -- `gemm_flush_operands` refuses an empty batch and touches nothing. Otherwise it flushes, tile
  -- after tile, each operand that is there, whatever the tile's flags say, and writes no register.
  pub flush_operands_lem :
      (tiles : Option (List Tile)) (w : World)
      → let (status, w') = flush_operands env cfg tiles w in
        (status ≡ (if is_batch tiles then ok else einval))
        × (w'.effects
            ≡ w.effects ++ (if is_batch tiles then stagings w.gemm.info (tiles_of tiles) else []))
        × (w'.gemm ≡ w.gemm)
  unfolding flush_operands
  flush_operands_lem none w = (refl, sym (append-nil w.effects), refl)
  flush_operands_lem (some []) w = (refl, sym (append-nil w.effects), refl)
  flush_operands_lem (some (t ∷ ts)) w =
      (refl, (flush_tiles_lem (t ∷ ts) w).0, (flush_tiles_lem (t ∷ ts) w).1)
