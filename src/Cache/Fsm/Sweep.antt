-- ===== src/Cache/Fsm/Sweep.antt =====
-- The sweep of the tags after a reset of the cache of src/dcache_bram.v.
use rv32imac_soc.Common.{
  ℕ, zero, suc, ◌+◌, ◌-◌, ◌%◌, ◌<◌, ◌≡◌, refl, sym, ap, ◌∙◌, subst, ◌==◌, Bool, true, false,
  if◌then◌else◌, arith,
}
use native.Mathlib.Nat.{mod-eq_of_lt}
use rv32imac_soc.Cache.Hw.{Line, set_at}
use rv32imac_soc.Cache.Fsm.{
  s_init, s_recheck, Core, Request, System, next_state, clock, cycle, reset,
}
use rv32imac_soc.Cache.Fsm.Phases.{at, at_state}
use rv32imac_soc.Cache.Fsm.Found.{IsIdle}

module _ (num_sets : ℕ) where
  -- The cycles from the n-th on, with what the CPU asks and when the memory answers.
  unfoldable pub run : (ℕ → Request) → (ℕ → Bool) → ℕ → ℕ → System → System
  run asked answers zero n s = s
  run asked answers (suc cycles) n s =
      run asked answers cycles (n + 1) (cycle num_sets (answers n) (asked n) s)

  -- The sweep has come to set k.
  record IsSwept (k : ℕ) (s : System) : Type 0 where
    state : s.core.state ≡ s_init
    count : s.core.sweep_cnt ≡ k
    empty : (j : ℕ) → j < k → s.core.valid j ≡ false

  sweep_facts :
      (b : Bool) (r : Request) (s : System)
      → let c = (cycle num_sets b r (at s_init s)).core in
        (c.state ≡ (if s.core.sweep_cnt == num_sets - 1 then s_recheck else s_init))
        × (c.sweep_cnt ≡ (s.core.sweep_cnt + 1) % num_sets)
        × (c.valid ≡ set_at s.core.valid s.core.sweep_cnt false)
  unfolding cycle clock next_state
  sweep_facts b r s = (refl, refl, refl)

  emptied :
      (k : ℕ) (s : System)
      → IsSwept k s
      → (j : ℕ) → j < k + 1
      → set_at s.core.valid s.core.sweep_cnt false j ≡ false
  emptied k s swept j lt = ground (arith, swept.empty j, swept.count)

  -- One more cycle.
  sweep_step :
      (b : Bool) (r : Request) (k : ℕ) (s : System)
      → IsSwept k s
      → let c = (cycle num_sets b r s).core in
        (c.state ≡ (if k == num_sets - 1 then s_recheck else s_init))
        × (c.sweep_cnt ≡ (k + 1) % num_sets)
        × ((j : ℕ) → j < k + 1 → c.valid j ≡ false)
  sweep_step b r k s swept =
      let (st, count, valid) = sweep_facts b r s in
      let back = ap (λ s. (cycle num_sets b r s).core) (sym (at_state s_init s swept.state)) in
      (
        ap (λ (c : Core). c.state) back
            ∙ st
            ∙ ap (λ n. if n == num_sets - 1 then s_recheck else s_init) swept.count,
        ap (λ (c : Core). c.sweep_cnt) back ∙ count ∙ ap (λ n. (n + 1) % num_sets) swept.count,
        λ j lt.
            ap (λ (c : Core). c.valid j) back
            ∙ ap (λ (f : ℕ → Bool). f j) valid
            ∙ emptied k s swept j lt,
      )

  recheck_facts :
      (b : Bool) (r : Request) (s : System)
      → let s' = cycle num_sets b r (at s_recheck s) in IsIdle s' × (s'.core.valid ≡ s.core.valid)
  unfolding cycle clock next_state
  recheck_facts b r s =
      (record { state = refl; fresh = record { valid = refl; tag = refl; line = λ o. refl } }, refl)

  -- Idle, and no set holds a line.
  abbrev pub IsEmpty : System → Type 0
  IsEmpty s = IsIdle s × ((j : ℕ) → j < num_sets → s.core.valid j ≡ false)

  settles :
      (b : Bool) (r : Request) (s : System)
      → s.core.state ≡ s_recheck
      → ((j : ℕ) → j < num_sets → s.core.valid j ≡ false)
      → IsEmpty (cycle num_sets b r s)
  settles b r s st empty =
      subst (λ s. IsEmpty (cycle num_sets b r s)) (at_state s_recheck s st)
        (let (calm, same) = recheck_facts b r s in
          (calm, λ j lt. ap (λ (f : ℕ → Bool). f j) same ∙ empty j lt))

  sweeps :
      (asked : ℕ → Request) (answers : ℕ → Bool) (left k n : ℕ) (s : System)
      → k + left + 1 ≡ num_sets
      → IsSwept k s
      → IsEmpty (run asked answers (suc (suc left)) n s)
  unfolding run
  sweeps asked answers zero k n s sum swept =
      let (st, count, empty) = sweep_step (answers n) (asked n) k s swept in
      let last : (k == num_sets - 1) ≡ true = ground arith in
      settles (answers (n + 1)) (asked (n + 1)) _
        (st ∙ ap (λ b. if b then s_recheck else s_init) last) (λ j lt. empty j (omega arith))
  sweeps asked answers (suc left) k n s sum swept =
      let (st, count, empty) = sweep_step (answers n) (asked n) k s swept in
      let more : (k == num_sets - 1) ≡ false = ground arith in
      sweeps asked answers left (k + 1) (n + 1) _ (omega arith) (record {
        state = st ∙ ap (λ b. if b then s_recheck else s_init) more;
        count = count ∙ mod-eq_of_lt (omega arith);
        empty = empty;
      })

  reset-IsSwept :
      (mem_ready : Bool) (mem_rline : Line) (r : Request) (s : System)
      → IsSwept 0 (record s { core = reset num_sets mem_ready mem_rline r s.core })
  unfolding reset
  reset-IsSwept mem_ready mem_rline r s = record {
    state = refl;
    count = refl;
    empty = λ j lt. absurd (omega arith);
  }

  -- A cycle under rst and as many cycles as there are sets, and one more, leave the cache idle, its
  -- output registers in step with its arrays and no set with a line, whatever the arrays held, the
  -- CPU asked and the memory answered. There is a set.
  pub run-IsEmpty :
      (asked : ℕ → Request) (answers : ℕ → Bool) (mem_ready : Bool) (mem_rline : Line) (r : Request)
      (s : System)
      → 0 < num_sets
      → IsEmpty (
          run asked answers
            (num_sets + 1)
            0
            (record s { core = reset num_sets mem_ready mem_rline r s.core }))
  run-IsEmpty asked answers mem_ready mem_rline r s pos =
      let rounds : suc (suc (num_sets - 1)) ≡ num_sets + 1 = omega arith in
      subst
        (λ n.
          IsEmpty (
            run asked answers n 0
              (record s { core = reset num_sets mem_ready mem_rline r s.core })))
        rounds
        (sweeps asked answers (num_sets - 1) 0 0 _ (omega arith)
          (reset-IsSwept mem_ready mem_rline r s))
