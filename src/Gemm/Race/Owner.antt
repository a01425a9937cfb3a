-- ===== src/Gemm/Race/Owner.antt =====
-- Who holds the lock of the driver, and how a step changes that.
use rv32imac_soc.Common.{
  ℕ, ◌≡◌, ◌==◌, ==_iff, ap, Bool, Bool-cases, true, false, inl, inr, Option, none, some, arith,
}
use rv32imac_soc.Gemm.Race.{Stage, outside, admitted, pushing, kicked, move}

-- Whether a thread is between `k_mutex_lock` and `k_mutex_unlock`.
abbrev pub inside : Stage → Bool
inside outside = false
inside (admitted job) = false
inside (pushing job pushed rest t_mark spent) = true
inside (kicked job marks) = true

abbrev pub holds : Option ℕ → ℕ → Bool
holds none j = false
holds (some i) j = i == j

-- The thread that holds the lock is the one that is inside.
abbrev pub IsOwned : Option ℕ → (ℕ → Stage) → Type 0
IsOwned owner stage = (j : ℕ) → inside (stage j) ≡ holds owner j

pub holds-owner : (owner : Option ℕ) (i : ℕ) → holds owner i ≡ true → owner ≡ some i
holds-owner none i h = ground arith
holds-owner (some j) i h = ap some ((==_iff j i).0 h)

module _ (i : ℕ) (s : Stage) (stage : ℕ → Stage) where
  pub IsOwned-take : inside s ≡ true → IsOwned none stage → IsOwned (some i) (move i s stage)
  IsOwned-take now owned j = ground (arith, owned j)

  pub IsOwned-keep : inside s ≡ true → IsOwned (some i) stage → IsOwned (some i) (move i s stage)
  IsOwned-keep now owned j = ground (arith, owned j)

  pub IsOwned-leave : inside s ≡ false → IsOwned (some i) stage → IsOwned none (move i s stage)
  IsOwned-leave now owned j = ground (arith, owned j)

  pub IsOwned-pass :
      (owner : Option ℕ)
      → inside (stage i) ≡ false
      → inside s ≡ false
      → IsOwned owner stage
      → IsOwned owner (move i s stage)
  IsOwned-pass owner was now owned j = elim (Bool-cases (i == j)) [
    | inl same ↦
        let e : i ≡ j = (==_iff i j).0 same in
        rw same (ground (arith, owned j, ap (λ k. inside (stage k)) e))
    | inr apart ↦ rw apart (owned j)
  ]
