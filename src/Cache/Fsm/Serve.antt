-- ===== src/Cache/Fsm/Serve.antt =====
-- Serving a request to the cache of src/dcache_bram.v: the phases on the way, and the last part of a
-- miss, the wait for the line.
use rv32imac_soc.Common.{
  ℕ, zero, suc, ◌+◌, ◌≤◌, ◌<◌, ◌≡◌, refl, sym, ap, ◌∙◌, subst, ==_refl, Bool, Bool-cases, true,
  false, ◌&&◌, none, some, inl, inr, if◌then◌else◌, arith,
}
use rv32imac_soc.Cache.Hw.{Memory, resident}
use rv32imac_soc.Cache.Fsm.{
  FsmState, s_idle, s_fill, s_recheck, is_idle, Request, System, m_idx, m_tag, spec_ok, hit,
  cpu_ready, next_state, clock, cycle, contents, serve,
}
use rv32imac_soc.Cache.Fsm.Phases.{at, at_state, IsFresh, filled, Phase, hit-resident, i, la}
use rv32imac_soc.Cache.Fsm.Steps.{line_arrives, waits_step}

some_same : {s s' : System} → some s ≡ some s' → s ≡ s'
some_same {s} {s'} e = ap (λ o. elim o [ none ↦ s | some x ↦ x ]) e

module _ (num_sets : ℕ) (pos : 0 < num_sets) (r : Request) (asks : r.valid ≡ true)
    (aims : r.next ≡ i num_sets pos r) (m : Memory) (answers : ℕ → Bool) where
  abbrev pub Ends : ℕ → ℕ → System → Type 0
  Ends fuel n s = (s' : System) × (serve num_sets answers fuel n r s ≡ some s')

  pub Ends-next :
      (fuel n : ℕ) (s : System)
      → Ends fuel (n + 1) (cycle num_sets (answers n) r s)
      → Ends (suc fuel) n s
  unfolding serve
  Ends-next fuel n s (s', later) = elim (Bool-cases (cpu_ready num_sets s.core r)) [
    | inl now ↦ (s, rw now refl)
    | inr waits ↦ (s', rw waits later)
  ]

  abbrev pub there : System → Bool
  there s = resident num_sets (la num_sets pos r) (contents s)

  pub Ends-hit :
      (fuel n : ℕ) (s : System)
      → 1 ≤ fuel
      → s.core.state ≡ s_idle
      → IsFresh s.core
      → spec_ok num_sets s.core r ≡ true
      → there s ≡ true
      → Ends fuel n s
  unfolding serve
  Ends-hit zero n s enough st fresh right held = absurd (omega arith)
  Ends-hit (suc fuel) n s enough st fresh right held =
      let hits : hit num_sets s.core r ≡ true = hit-resident num_sets pos r s fresh right ∙ held in
      let now : cpu_ready num_sets s.core r ≡ true = (λ k. is_idle (st k) && (asks k && hits k)) in
      (s, rw now refl)

  -- What S_RECHECK leaves.
  pub rechecked :
      (b : Bool) (s : System)
      → let s' = cycle num_sets b r (at s_recheck s) in
        (s'.core.state ≡ s_idle)
        × IsFresh s'.core
        × (spec_ok num_sets s'.core r ≡ true)
        × (contents s' ≡ contents s)
  unfolding cycle clock next_state
  rechecked b s = (
    refl,
    record { valid = refl; tag = refl; line = λ o. refl },
    rw aims (==_refl (m_idx num_sets r)),
    refl,
  )

  Ends-refilled :
      (fuel n : ℕ) (s : System) → 2 ≤ fuel → there s ≡ true → Ends fuel n (at s_recheck s)
  Ends-refilled zero n s enough held = absurd (omega arith)
  Ends-refilled (suc fuel) n s enough held =
      let (st, fresh, right, same) = rechecked (answers n) s in
      Ends-next fuel n (at s_recheck s) (
        Ends-hit fuel (n + 1) _ (omega arith) st fresh right
          (ap (resident num_sets (la num_sets pos r)) same ∙ held))

  pub in_state :
      (st : FsmState) (fuel n : ℕ) (s : System)
      → s.core.state ≡ st
      → Ends fuel n (at st s)
      → Ends fuel n s
  in_state st fuel n s e = subst (Ends fuel n) (at_state st s e)

  after_refill :
      (fuel n : ℕ) (s : System)
      → s.core.state ≡ s_recheck
      → contents s ≡ m
      → resident num_sets (la num_sets pos r) m ≡ true
      → 2 ≤ fuel
      → Ends fuel n s
  after_refill fuel n s st here held enough =
      in_state s_recheck fuel n s st
        (Ends-refilled fuel n s enough (ap (resident num_sets (la num_sets pos r)) here ∙ held))

  arrives_state : (s : System) → (cycle num_sets true r (at s_fill s)).core.state ≡ s_recheck
  unfolding cycle clock next_state
  arrives_state s = refl

  stays_fill :
      (s : System)
      → let s' = cycle num_sets false r (at s_fill s) in
        (s'.core.state ≡ s_fill)
        × (s'.core.miss_idx ≡ s.core.miss_idx)
        × (s'.core.miss_tag ≡ s.core.miss_tag)
        × (filled num_sets pos r s' ≡ filled num_sets pos r s)
  unfolding cycle clock next_state
  stays_fill s = (refl, refl, refl, refl)

  -- An answer that does not come now comes later.
  pub sooner :
      (j n : ℕ)
      → answers n ≡ false
      → answers (n + j) ≡ true
      → (k : ℕ) × (k < j) × (answers (n + 1 + k) ≡ true)
  sooner zero n later answered = ground (arith, ap answers {x = n + 0} {y = n} (omega arith))
  sooner (suc j) n later answered =
      (j, omega arith, ap answers {x = n + 1 + j} {y = n + suc j} (omega arith) ∙ answered)

  pub Ends-fill :
      (j fuel n : ℕ) (s : System)
      → j + 3 ≤ fuel
      → answers (n + j) ≡ true
      → s.core.state ≡ s_fill
      → (s.core.miss_idx ≡ m_idx num_sets r) × (s.core.miss_tag ≡ m_tag num_sets r)
      → filled num_sets pos r s ≡ m
      → Ends fuel n s
  Ends-fill j zero n s enough answered st to e = absurd (omega arith)
  Ends-fill j (suc fuel) n s enough answered st to e = in_state s_fill (suc fuel) n s st (
      Ends-next fuel n (at s_fill s) (elim (Bool-cases (answers n)) [
        | inl now ↦
            let (here, held) = line_arrives num_sets pos r asks aims m s to e in
            subst (λ b. Ends fuel (n + 1) (cycle num_sets b r (at s_fill s))) (sym now)
              (after_refill fuel (n + 1) _ (arrives_state s) here held (omega arith))
        | inr later ↦
            let (k, less, next) = sooner j n later answered in
            let (st', idx', tag', same) = stays_fill s in
            subst (λ b. Ends fuel (n + 1) (cycle num_sets b r (at s_fill s))) (sym later)
              (Ends-fill k fuel (n + 1) (cycle num_sets false r (at s_fill s)) (omega arith) next
                st' (idx' ∙ to.0, tag' ∙ to.1) (same ∙ e))
      ]))

  -- When the request is served, the system is in the phase of an idle cache.
  pub serve-Phase :
      (fuel n : ℕ) (s s' : System)
      → serve num_sets answers fuel n r s ≡ some s'
      → Phase num_sets pos r m s
      → (cpu_ready num_sets s'.core r ≡ true) × Phase num_sets pos r m s'
  unfolding serve
  serve-Phase zero n s s' ran phase = cc
  serve-Phase (suc fuel) n s s' ran phase = elim (Bool-cases (cpu_ready num_sets s.core r)) [
    | inl now ↦
        let same : s ≡ s' = some_same (
          sym (
            ap
              (λ b.
                if b
                then some s
                else serve num_sets answers fuel (n + 1) r (cycle num_sets (answers n) r s))
              now)
          ∙ ran) in
        subst (λ s. (cpu_ready num_sets s.core r ≡ true) × Phase num_sets pos r m s) same
          (now, phase)
    | inr waits ↦
        serve-Phase fuel (n + 1) (cycle num_sets (answers n) r s) s'
          (sym (
              ap
                (λ b.
                  if b
                  then some s
                  else serve num_sets answers fuel (n + 1) r (cycle num_sets (answers n) r s))
                waits)
            ∙ ran)
          (waits_step num_sets pos r asks aims m (answers n) s waits phase)
  ]
