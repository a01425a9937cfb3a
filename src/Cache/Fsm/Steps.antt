-- ===== src/Cache/Fsm/Steps.antt =====
-- How a clock edge takes a request to the cache of src/dcache_bram.v from phase to phase while it waits.
use rv32imac_soc.Common.{
  ℕ, ◌+◌, ◌*◌, ◌<◌, ◌≡◌, refl, sym, ap, ◌∙◌, subst, Bool, Bool-cases, true, false, ◌&&◌, inl, inr,
  if◌then◌else◌, arith,
}
use rv32imac_soc.Cache.Hw.{Line, Memory, set_at, resident, refill, access}
use rv32imac_soc.Cache.Coherence.{access_hit, access_miss}
use rv32imac_soc.Cache.Fsm.{
  s_idle, s_cap, s_wb, s_fill, s_recheck, Request, System, masked, m_bank, m_idx, spec_ok, hit,
  cpu_ready, next_state, clock, cycle, contents,
}
use rv32imac_soc.Cache.Fsm.Phases.{
  at, at_state, IsFresh, IsMissing, filled, Phase, idle, recheck, cap, wb, fill, hit-resident,
  cleanly, written, arrived, filled-resident, i, la, t,
}

module _ (num_sets : ℕ) (pos : 0 < num_sets) (r : Request) (asks : r.valid ≡ true)
    (aims : r.next ≡ m_idx num_sets r) (m : Memory) where
  recheck_step :
      (mem_ready : Bool) (s : System)
      → access num_sets (la num_sets pos r) (contents s) ≡ m
      → Phase num_sets pos r m (cycle num_sets mem_ready r (at s_recheck s))
  unfolding cycle clock next_state
  recheck_step mem_ready s e = idle refl (record { valid = refl; tag = refl; line = λ o. refl }) e

  -- Without a hit an idle cycle writes nothing.
  unwritten :
      (mem_ready : Bool) (s : System)
      → cpu_ready num_sets (at s_idle s).core r ≡ false
      → let c = (cycle num_sets mem_ready r (at s_idle s)).core in
        (c.banks ≡ s.core.banks) × (c.dirty ≡ s.core.dirty)
  unfolding cycle clock
  unwritten mem_ready s waits = (
    ap
        (λ b.
          if b && r.write
          then set_at s.core.banks (i num_sets pos r)
              (masked (m_bank r) r.wmask r.wdata (s.core.banks (i num_sets pos r)))
          else s.core.banks)
        waits,
    ap (λ b. if b && r.write then set_at s.core.dirty (i num_sets pos r) true else s.core.dirty)
        waits,
  )

  unchanged :
      (mem_ready : Bool) (s : System)
      → cpu_ready num_sets (at s_idle s).core r ≡ false
      → contents (cycle num_sets mem_ready r (at s_idle s)) ≡ contents s
  unfolding cycle clock
  unchanged mem_ready s waits =
      let (banks, dirty) = unwritten mem_ready s waits in
      λ k. record {
        entries = λ j. record {
          valid = s.core.valid j;
          tag = s.core.tag j;
          dirty = dirty k j;
          line = banks k j;
        };
        dram = s.dram;
      }

  idle_step :
      (mem_ready : Bool) (s : System)
      → IsFresh s.core
      → cpu_ready num_sets (at s_idle s).core r ≡ false
      → access num_sets (la num_sets pos r) (contents s) ≡ m
      → Phase num_sets pos r m (cycle num_sets mem_ready r (at s_idle s))
  unfolding cycle clock next_state
  idle_step mem_ready s fresh waits e =
      let miss : hit num_sets s.core r ≡ false =
        (λ k. sym asks k && hit num_sets s.core r) ∙ waits in
      let same = unchanged mem_ready s waits in
      let still = ap (access num_sets (la num_sets pos r)) same ∙ e in
      elim (Bool-cases (spec_ok num_sets s.core r)) [
        | inl right ↦
            let away =
              ap (resident num_sets (la num_sets pos r)) same
              ∙ sym (hit-resident num_sets pos r s fresh right)
              ∙ miss in
            cap (rw (asks, miss, right) refl)
              (rw (asks, miss, right) refl, rw (asks, miss, right) refl, away)
              (
                ap s.core.valid aims,
                ap s.core.tag aims,
                ap s.core.banks aims
                    ∙ ap (λ (f : ℕ → Line). f (i num_sets pos r))
                        (sym (unwritten mem_ready s waits).0),
              )
              still
        | inr wrong ↦ recheck (rw (asks, miss, wrong) refl) still
      ]

  missed :
      (s : System)
      → resident num_sets (la num_sets pos r) (contents s) ≡ false
      → access num_sets (la num_sets pos r) (contents s) ≡ m
      → refill num_sets (la num_sets pos r) (contents s) ≡ m
  missed s away e = sym (access_miss pos (la num_sets pos r) (contents s) away) ∙ e

  cap_step :
      (mem_ready : Bool) (s : System)
      → IsMissing num_sets pos r s
      → (s.core.q_valid ≡ s.core.valid (i num_sets pos r))
        × (s.core.q_tag ≡ s.core.tag (i num_sets pos r))
        × (s.core.q_line ≡ s.core.banks (i num_sets pos r))
      → access num_sets (la num_sets pos r) (contents s) ≡ m
      → Phase num_sets pos r m (cycle num_sets mem_ready r (at s_cap s))
  unfolding cycle clock next_state
  cap_step mem_ready s (to_idx, to_tag, away) (valid, tag, line) e =
      elim (Bool-cases (s.core.q_valid && s.core.dirty (i num_sets pos r))) [
        | inl stale ↦
            let parts : (s.core.q_valid ≡ true) × (s.core.dirty (i num_sets pos r) ≡ true) =
              ground arith in
            wb (rw stale refl) (to_idx, to_tag, away) (tag, line, sym valid ∙ parts.0, parts.1) e
        | inr clean ↦
            fill (rw clean refl) (to_idx, to_tag)
              (cleanly num_sets pos r s
                  ((λ k. sym valid k && s.core.dirty (i num_sets pos r)) ∙ clean)
                ∙ missed s away e)
      ]

  wb_step :
      (mem_ready : Bool) (s : System)
      → IsMissing num_sets pos r s
      → (s.core.wb_tag ≡ s.core.tag (i num_sets pos r))
        × (s.core.wb_line ≡ s.core.banks (i num_sets pos r))
        × (s.core.valid (i num_sets pos r) ≡ true)
        × (s.core.dirty (i num_sets pos r) ≡ true)
      → access num_sets (la num_sets pos r) (contents s) ≡ m
      → Phase num_sets pos r m (cycle num_sets mem_ready r (at s_wb s))
  unfolding cycle clock next_state
  wb_step false s missing victim e = wb refl missing victim e
  wb_step true s (to_idx, to_tag, away) (tag, line, valid, dirty) e =
      fill refl (to_idx, to_tag)
        ((λ k.
            filled num_sets pos r
              (record s { dram = set_at s.dram (tag k * num_sets + to_idx k) (line k) }))
          ∙ written num_sets pos r s valid dirty
          ∙ missed s away e)

  -- The memory has answered: the line is there.
  pub line_arrives :
      (s : System)
      → (s.core.miss_idx ≡ (i num_sets pos r)) × (s.core.miss_tag ≡ (t num_sets pos r))
      → filled num_sets pos r s ≡ m
      → (contents (cycle num_sets true r (at s_fill s)) ≡ m)
        × (resident num_sets (la num_sets pos r) m ≡ true)
  unfolding cycle clock
  line_arrives s (to_idx, to_tag) e = (
    (λ k. record {
      entries = λ j. record {
        valid = set_at s.core.valid (to_idx k) true j;
        tag = set_at s.core.tag (to_idx k) (to_tag k) j;
        dirty = set_at s.core.dirty (to_idx k) false j;
        line = set_at s.core.banks (to_idx k) (s.dram (to_tag k * num_sets + to_idx k)) j;
      };
      dram = s.dram;
    })
        ∙ arrived num_sets pos r s
        ∙ e,
    ap (resident num_sets (la num_sets pos r)) (sym e) ∙ filled-resident num_sets pos r s,
  )

  fill_step :
      (mem_ready : Bool) (s : System)
      → (s.core.miss_idx ≡ (i num_sets pos r)) × (s.core.miss_tag ≡ (t num_sets pos r))
      → filled num_sets pos r s ≡ m
      → Phase num_sets pos r m (cycle num_sets mem_ready r (at s_fill s))
  unfolding cycle clock next_state
  fill_step false s to e = fill refl to e
  fill_step true s to e =
      let (here, held) = line_arrives s to e in
      recheck refl
        (ap (access num_sets (la num_sets pos r)) here ∙ access_hit pos (la num_sets pos r) m held)

  -- A waiting request goes from phase to phase.
  pub waits_step :
      (mem_ready : Bool) (s : System)
      → cpu_ready num_sets s.core r ≡ false
      → Phase num_sets pos r m s
      → Phase num_sets pos r m (cycle num_sets mem_ready r s)
  waits_step mem_ready s waits (idle st fresh e) =
      subst (λ s. Phase num_sets pos r m (cycle num_sets mem_ready r s)) (at_state s_idle s st)
        (idle_step mem_ready s fresh
          (ap (λ s. cpu_ready num_sets s.core r) (at_state s_idle s st) ∙ waits) e)
  waits_step mem_ready s waits (recheck st e) =
      subst (λ s. Phase num_sets pos r m (cycle num_sets mem_ready r s)) (at_state s_recheck s st)
        (recheck_step mem_ready s e)
  waits_step mem_ready s waits (cap st missing q e) =
      subst (λ s. Phase num_sets pos r m (cycle num_sets mem_ready r s)) (at_state s_cap s st)
        (cap_step mem_ready s missing q e)
  waits_step mem_ready s waits (wb st missing victim e) =
      subst (λ s. Phase num_sets pos r m (cycle num_sets mem_ready r s)) (at_state s_wb s st)
        (wb_step mem_ready s missing victim e)
  waits_step mem_ready s waits (fill st to e) =
      subst (λ s. Phase num_sets pos r m (cycle num_sets mem_ready r s)) (at_state s_fill s st)
        (fill_step mem_ready s to e)
