-- ===== src/Gemm/Race/Woven.antt =====
-- A sequence of effects with the operand flushes of other threads in between.
use rv32imac_soc.Common.{
  ℕ, sym, subst, ◌==◌, Bool, Bool-cases, true, false, inl, inr, List, [], ◌∷◌, ◌++◌, if◌then◌else◌,
}
use mathlib.Core.List.{append-nil, append_assoc}
use rv32imac_soc.Gemm.World.{Effect, flush, Info, World}
use rv32imac_soc.Gemm.{Tile, operand_bytes}
use rv32imac_soc.Gemm.Submit.{flush_of, stagings}
use rv32imac_soc.Gemm.Batch.{Did}

-- From the effects `before` on, what was done is the sequence, in its order and with no other effect
-- in between than flushes.
pub data Woven (before : List Effect) : List Effect → List Effect → Type 0 where
  begun : Woven before [] before
  own :
      (e : Effect) {es all : List Effect}
      → Woven before es all
      → Woven before (es ++ (e ∷ [])) (all ++ (e ∷ []))
  other :
      (ptr bytes : ℕ) {es all : List Effect}
      → Woven before es all
      → Woven before es (all ++ (flush ptr bytes ∷ []))

module _ {before : List Effect} where
  pub Woven-append :
      (fs : List Effect) {es all : List Effect}
      → Woven before es all
      → Woven before (es ++ fs) (all ++ fs)
  Woven-append [] {es} {all} w = rw (append-nil es, append-nil all) w
  Woven-append (f ∷ fs) {es} {all} w =
      rw (← append_assoc es (f ∷ []) fs, ← append_assoc all (f ∷ []) fs) (Woven-append fs (own f w))

  pub Woven-Did :
      {es fs : List Effect} {w w' : World}
      → Did fs w w'
      → Woven before es w.effects
      → Woven before (es ++ fs) w'.effects
  Woven-Did {es} {fs} did here =
      subst (Woven before (es ++ fs)) (sym did.effects) (Woven-append fs here)

  Woven-flush_of :
      (ptr bytes : ℕ) {es all : List Effect}
      → Woven before es all
      → Woven before es (all ++ flush_of ptr bytes)
  Woven-flush_of ptr bytes {es} {all} w = elim (Bool-cases (ptr == 0)) [
    | inl null ↦ rw (null, append-nil all) w
    | inr there ↦ rw there (other ptr bytes w)
  ]

  pub Woven-stagings :
      (info : Info) (ts : List Tile) {es all : List Effect}
      → Woven before es all
      → Woven before es (all ++ stagings info ts)
  Woven-stagings info [] {es} {all} w = rw (append-nil all) w
  Woven-stagings info (t ∷ ts) {es} {all} w =
      let bytes = operand_bytes info t in
      rw
        (
          ← append_assoc all (flush_of t.a_src bytes) (flush_of t.b_src bytes ++ stagings info ts),
          ← append_assoc (all ++ flush_of t.a_src bytes) (flush_of t.b_src bytes)
              (stagings info ts),
        )
        (Woven-stagings info ts (Woven-flush_of t.b_src bytes (Woven-flush_of t.a_src bytes w)))

  pub Woven-staged :
      (info : Info) (ts : List Tile) (b : Bool) {es all : List Effect}
      → Woven before es all
      → Woven before es (all ++ (if b then stagings info ts else []))
  Woven-staged info ts true w = Woven-stagings info ts w
  Woven-staged info ts false {es} {all} w = rw (append-nil all) w
