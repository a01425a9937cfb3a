-- ===== src/Gemm/Init.antt =====
-- `gemm_init`: the geometry that it reads, and the interrupts that it enables.
use rv32imac_soc.Common.{
  ℕ, ◌+◌, ◌*◌, ◌/◌, ◌<◌, ◌≡◌, refl, ap, ◌∙◌, ◌++◌, [], ◌∷◌, bit_and, ok, arith,
}
use mathlib.Core.List.{append_assoc}
use rv32imac_soc.Cache.Mask.{mask_lem}
use rv32imac_soc.Gemm.World.{Env, World, sem_init, mutex_init, irq_config, irq_enable}
use rv32imac_soc.Gemm.{Config, get_info, reg_info}
use rv32imac_soc.Gemm.Run.{initialize}

module _ (env : Env) (cfg : Config) where
  -- If the INFO word that the accelerator shows holds a dimension, a largest length and a number of
  -- panels in its three low bytes, under any top byte, then after `gemm_init` `gemm_get_info` hands
  -- back these three. The initialisation succeeds, sets up the semaphore and the lock before
  -- the interrupt, and enables the source of the batch and no other.
  pub info-initialize :
      (dim max_k panels top : ℕ) (w : World)
      → dim < 256
      → max_k < 256
      → panels < 256
      → env.mmio w.asked (w.effects ++ (sem_init ∷ mutex_init ∷ [])) (cfg.base + reg_info)
        ≡ dim + 256 * max_k + 65536 * panels + 16777216 * top
      → let (status, w') = initialize env cfg w in
        (status ≡ ok)
        × (get_info env cfg w' ≡ record { dim = dim; max_k = max_k; panels = panels })
        × (w'.effects
            ≡ w.effects ++ (sem_init ∷ mutex_init ∷ irq_config ∷ irq_enable cfg.batch_irq ∷ []))
  unfolding initialize get_info
  info-initialize dim max_k panels top w hd hm hp shown =
      let same = append_assoc w.effects (sem_init ∷ []) (mutex_init ∷ []) in
      let word =
        env.mmio w.asked ((w.effects ++ (sem_init ∷ [])) ++ (mutex_init ∷ []))
          (cfg.base + reg_info) in
      let reads : word ≡ dim + 256 * max_k + 65536 * panels + 16777216 * top =
        ap (λ es. env.mmio w.asked es (cfg.base + reg_info)) same ∙ shown in
      let d : bit_and word 255 ≡ dim = mask_lem 256 word (omega arith) refl ∙ omega arith in
      let m : bit_and (word / 256) 255 ≡ max_k =
        mask_lem 256 (word / 256) (omega arith) refl ∙ omega arith in
      let p : bit_and (word / 65536) 255 ≡ panels =
        mask_lem 256 (word / 65536) (omega arith) refl ∙ omega arith in
      (refl, (λ i. record { dim = d i; max_k = m i; panels = p i }), simp append_assoc)
