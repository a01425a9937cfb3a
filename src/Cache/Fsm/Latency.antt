-- ===== src/Cache/Fsm/Latency.antt =====
-- A request to the cache of src/dcache_bram.v is served within a bound.
use rv32imac_soc.Common.{
  ℕ, zero, suc, ◌+◌, ◌≤◌, ◌<◌, ◌≡◌, refl, sym, ap, ◌∙◌, ◌==◌, Bool, Bool-cases, true, false, ◌&&◌,
  not, inl, inr, if◌then◌else◌, arith,
}
use rv32imac_soc.Cache.Hw.{Memory, access}
use rv32imac_soc.Cache.Fsm.{
  FsmState, s_idle, s_cap, s_wb, s_fill, s_recheck, is_idle, Request, System, m_tag, spec_ok, hit,
  cpu_ready, wb_needed, next_state, clock, cycle, contents,
}
use rv32imac_soc.Cache.Fsm.Phases.{
  at, at_state, IsFresh, Phase, idle, recheck, cap, wb, fill, hit-resident, i, la,
}
use rv32imac_soc.Cache.Fsm.Steps.{waits_step}
use rv32imac_soc.Cache.Fsm.Serve.{
  Ends, Ends-next, Ends-hit, Ends-fill, there, rechecked, in_state, sooner,
}

-- The memory answers within L cycles, whenever it is asked.
abbrev pub AnswersWithin : ℕ → (ℕ → Bool) → Type 0
AnswersWithin L answers = (n : ℕ) → (j : ℕ) × (j < L) × (answers (n + j) ≡ true)

module _ (num_sets : ℕ) (pos : 0 < num_sets) (r : Request) (asks : r.valid ≡ true)
    (aims : r.next ≡ i num_sets pos r) (m : Memory) (answers : ℕ → Bool) (L : ℕ)
    (prompt : AnswersWithin L answers) where
  -- The phases with the cycles that they may take.
  Ends-filling :
      (fuel n : ℕ) (s : System)
      → L + 2 ≤ fuel
      → s.core.state ≡ s_fill
      → Phase num_sets pos r m s
      → Ends num_sets pos r asks aims m answers fuel n s
  Ends-filling fuel n s enough st (fill st' to e) =
      let (j, soon, answered) = prompt n in
      Ends-fill num_sets pos r asks aims m answers j fuel n s (omega arith) answered st to e
  Ends-filling fuel n s enough st (idle st' fresh e) = cc
  Ends-filling fuel n s enough st (recheck st' e) = cc
  Ends-filling fuel n s enough st (cap st' missing q e) = cc
  Ends-filling fuel n s enough st (wb st' missing victim e) = cc

  busy :
      (st : FsmState) (s : System)
      → s.core.state ≡ st
      → is_idle st ≡ false
      → cpu_ready num_sets s.core r ≡ false
  busy st s e away = λ k. (ap is_idle e ∙ away) k && (r.valid && hit num_sets s.core r)

  moves :
      (b : Bool) (st : FsmState) (s : System)
      → s.core.state ≡ st
      → is_idle st ≡ false
      → Phase num_sets pos r m s
      → Phase num_sets pos r m (cycle num_sets b r s)
  moves b st s e away = waits_step num_sets pos r asks aims m b s (busy st s e away)

  next_of : FsmState → Bool → System → FsmState
  next_of st b s = (cycle num_sets b r (at st s)).core.state

  written_state : (b : Bool) (s : System) → next_of s_wb b s ≡ (if b then s_fill else s_wb)
  unfolding cycle clock next_state next_of
  written_state b s = refl

  captured_state :
      (b : Bool) (s : System)
      → next_of s_cap b s ≡ (if wb_needed num_sets s.core r then s_wb else s_fill)
  unfolding cycle clock next_state next_of
  captured_state b s = refl

  next_state_of :
      (st : FsmState) (b : Bool) (s : System)
      → s.core.state ≡ st
      → (cycle num_sets b r s).core.state ≡ next_of st b s
  unfolding next_of
  next_state_of st b s e = ap (λ s. (cycle num_sets b r s).core.state) (sym (at_state st s e))

  Ends-writing :
      (j fuel n : ℕ) (s : System)
      → j + L + 3 ≤ fuel
      → answers (n + j) ≡ true
      → s.core.state ≡ s_wb
      → Phase num_sets pos r m s
      → Ends num_sets pos r asks aims m answers fuel n s
  Ends-writing j zero n s enough answered st phase = absurd (omega arith)
  Ends-writing j (suc fuel) n s enough answered st phase =
      let to = next_state_of s_wb (answers n) s st ∙ written_state (answers n) s in
      let phase' = moves (answers n) s_wb s st refl phase in
      Ends-next num_sets pos r asks aims m answers fuel n s (elim (Bool-cases (answers n)) [
        | inl now ↦
            Ends-filling fuel (n + 1) _ (omega arith)
              (to ∙ ap (λ b. if b then s_fill else s_wb) now) phase'
        | inr later ↦
            let (k, less, next) = sooner num_sets pos r asks aims m answers j n later answered in
            Ends-writing k fuel (n + 1) _ (omega arith) next
              (to ∙ ap (λ b. if b then s_fill else s_wb) later) phase'
      ])

  Ends-capturing :
      (fuel n : ℕ) (s : System)
      → L + L + 3 ≤ fuel
      → s.core.state ≡ s_cap
      → Phase num_sets pos r m s
      → Ends num_sets pos r asks aims m answers fuel n s
  Ends-capturing zero n s enough st phase = absurd (omega arith)
  Ends-capturing (suc fuel) n s enough st phase =
      let to = next_state_of s_cap (answers n) s st ∙ captured_state (answers n) s in
      let phase' = moves (answers n) s_cap s st refl phase in
      Ends-next num_sets pos r asks aims m answers fuel n s
        (elim (Bool-cases (wb_needed num_sets s.core r)) [
          | inl stale ↦
              let (j, soon, answered) = prompt (n + 1) in
              Ends-writing j fuel (n + 1) _ (omega arith) answered
                (to ∙ ap (λ b. if b then s_wb else s_fill) stale) phase'
          | inr clean ↦
              Ends-filling fuel (n + 1) _ (omega arith)
                (to ∙ ap (λ b. if b then s_wb else s_fill) clean) phase'
        ])

  looked_up :
      (b : Bool) (s : System)
      → next_of s_idle b s ≡ (
          if r.valid && not (hit num_sets s.core r)
          then (if spec_ok num_sets s.core r then s_cap else s_recheck)
          else s_idle)
  unfolding cycle clock next_state next_of
  looked_up b s = refl

  looks_up :
      (b : Bool) (s : System)
      → s.core.state ≡ s_idle
      → hit num_sets s.core r ≡ false
      → (cycle num_sets b r s).core.state ≡ (if spec_ok num_sets s.core r then s_cap else s_recheck)
  looks_up b s st miss = next_state_of s_idle b s st ∙ looked_up b s ∙ (λ k.
      if asks k && not (miss k)
      then (if spec_ok num_sets s.core r then s_cap else s_recheck)
      else s_idle)

  not_ready : (s : System) → hit num_sets s.core r ≡ false → cpu_ready num_sets s.core r ≡ false
  not_ready s miss = (λ k. is_idle s.core.state && (r.valid && miss k)) ∙ ground arith

  -- A request at the right index.
  Ends-right :
      (fuel n : ℕ) (s : System)
      → L + L + 4 ≤ fuel
      → s.core.state ≡ s_idle
      → IsFresh s.core
      → spec_ok num_sets s.core r ≡ true
      → access num_sets (la num_sets pos r) (contents s) ≡ m
      → Ends num_sets pos r asks aims m answers fuel n s
  Ends-right zero n s enough st fresh right e = absurd (omega arith)
  Ends-right (suc fuel) n s enough st fresh right e =
      elim (Bool-cases (there num_sets pos r asks aims m answers s)) [
        | inl held ↦
            Ends-hit num_sets pos r asks aims m answers (suc fuel) n s (omega arith) st fresh right
              held
        | inr away ↦
            let miss = hit-resident num_sets pos r s fresh right ∙ away in
            Ends-next num_sets pos r asks aims m answers fuel n s (
              Ends-capturing fuel (n + 1) _ (omega arith)
                (looks_up (answers n) s st miss ∙ ap (λ b. if b then s_cap else s_recheck) right)
                (waits_step num_sets pos r asks aims m (answers n) s (not_ready s miss)
                  (idle st fresh e)))
      ]

  Ends-rechecking :
      (fuel n : ℕ) (s : System)
      → L + L + 5 ≤ fuel
      → s.core.state ≡ s_recheck
      → access num_sets (la num_sets pos r) (contents s) ≡ m
      → Ends num_sets pos r asks aims m answers fuel n s
  Ends-rechecking zero n s enough st e = absurd (omega arith)
  Ends-rechecking (suc fuel) n s enough st e =
      in_state num_sets pos r asks aims m answers s_recheck (suc fuel) n s st (
        let (st', fresh, right, same) =
          rechecked num_sets pos r asks aims m answers (answers n) s in
        Ends-next num_sets pos r asks aims m answers fuel n (at s_recheck s) (
          Ends-right fuel (n + 1) _ (omega arith) st' fresh right
            (ap (access num_sets (la num_sets pos r)) same ∙ e)))

  Ends-after_lookup :
      (fuel n : ℕ) (s : System)
      → L + L + 5 ≤ fuel
      → s.core.state ≡ s_recheck
      → Phase num_sets pos r m s
      → Ends num_sets pos r asks aims m answers fuel n s
  Ends-after_lookup fuel n s enough st (recheck st' e) = Ends-rechecking fuel n s enough st e
  Ends-after_lookup fuel n s enough st (idle st' fresh e) = cc
  Ends-after_lookup fuel n s enough st (cap st' missing q e) = cc
  Ends-after_lookup fuel n s enough st (wb st' missing victim e) = cc
  Ends-after_lookup fuel n s enough st (fill st' to e) = cc

  -- Any request to an idle cache.
  pub Ends-idle :
      (fuel n : ℕ) (s : System)
      → L + L + 6 ≤ fuel
      → s.core.state ≡ s_idle
      → IsFresh s.core
      → access num_sets (la num_sets pos r) (contents s) ≡ m
      → Ends num_sets pos r asks aims m answers fuel n s
  Ends-idle zero n s enough st fresh e = absurd (omega arith)
  Ends-idle (suc fuel) n s enough st fresh e = elim (Bool-cases (spec_ok num_sets s.core r)) [
    | inl right ↦ Ends-right (suc fuel) n s (omega arith) st fresh right e
    | inr wrong ↦
        let miss : hit num_sets s.core r ≡ false =
          (λ k. (s.core.q_valid && s.core.q_tag == m_tag num_sets r) && wrong k) ∙ ground arith in
        let phase =
          waits_step num_sets pos r asks aims m (answers n) s (not_ready s miss)
            (idle st fresh e) in
        Ends-next num_sets pos r asks aims m answers fuel n s (
          Ends-after_lookup fuel (n + 1) _ (omega arith)
            (looks_up (answers n) s st miss ∙ ap (λ b. if b then s_cap else s_recheck) wrong) phase)
  ]
