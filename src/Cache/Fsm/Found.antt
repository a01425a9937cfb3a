-- ===== src/Cache/Fsm/Found.antt =====
-- What a request to the cache of src/dcache_bram.v finds when it is served, and what it leaves.
use rv32imac_soc.Common.{
  ℕ, ◌+◌, ◌*◌, ◌/◌, ◌%◌, ◌≤◌, ◌<◌, ◌≡◌, refl, sym, ap, ◌∙◌, subst, ◌==◌, ==_iff, Bool, Bool-cases,
  true, false, ◌&&◌, some, inl, inr, if◌then◌else◌, arith,
}
use rv32imac_soc.Cache.Hw.{Line, Memory, set_at, resident, access}
use rv32imac_soc.Cache.Coherence.{access_hit}
use rv32imac_soc.Cache.Fsm.{
  s_idle, is_idle, Request, System, masked, m_bank, m_idx, spec_ok, hit, cpu_ready, cpu_rdata,
  next_state, clock, cycle, contents, serve,
}
use rv32imac_soc.Cache.Fsm.Phases.{
  at, at_state, IsFresh, Phase, idle, recheck, cap, wb, fill, hit-resident,
}
use rv32imac_soc.Cache.Fsm.Serve.{serve-Phase}
use rv32imac_soc.Cache.Fsm.Latency.{AnswersWithin, Ends-idle}

-- The cache waits for a request, its output registers in step with its arrays.
pub record IsIdle (s : System) : Type 0 where
  pub state : s.core.state ≡ s_idle
  pub fresh : IsFresh s.core

-- The request in its last cycle, in which the CPU already shows the index of the one after it.
abbrev pub last : ℕ → Request → Request
last k r = record r { next = k }

-- The output register with the bypass is the array after the write.
bypassed :
    (banks : ℕ → Line) (w : Bool) (i k bank : ℕ) (be : ℕ → Bool) (wdata : ℕ → ℕ) (o : ℕ)
    → (if ((w && i == k) && bank == o / 4) && be (o % 4) then wdata (o % 4) else banks k o)
      ≡ (if w then set_at banks i (masked bank be wdata (banks i)) else banks) k o
bypassed banks false i k bank be wdata o = refl
bypassed banks true i k bank be wdata o = elim (Bool-cases (i == k)) [
  | inl same ↦ rw same (
      ap (λ j. if bank == o / 4 && be (o % 4) then wdata (o % 4) else banks j o)
        (sym ((==_iff i k).0 same)))
  | inr apart ↦ rw apart refl
]

module _ (num_sets : ℕ) (pos : 0 < num_sets) (r : Request) (asks : r.valid ≡ true) where
  abbrev i : ℕ
  i = m_idx num_sets r

  -- What a request that is served finds.
  record Found (m : Memory) (s : System) : Type 0 where
    idle_now : IsIdle s
    hits : hit num_sets s.core r ≡ true
    right : spec_ok num_sets s.core r ≡ true
    here : contents s ≡ m
    held : resident num_sets (r.addr / 16) m ≡ true

  found :
      (m : Memory) (s : System)
      → cpu_ready num_sets s.core r ≡ true
      → Phase num_sets pos r m s
      → Found m s
  found m s now (idle st fresh e) =
      let hits : hit num_sets s.core r ≡ true =
        (λ k. is_idle (sym st k) && (sym asks k && hit num_sets s.core r)) ∙ now in
      let right : spec_ok num_sets s.core r ≡ true = ground arith in
      let held = sym (hit-resident num_sets pos r s fresh right) ∙ hits in
      let here = sym (access_hit pos (r.addr / 16) (contents s) held) ∙ e in
      record {
        idle_now = record { state = st; fresh = fresh };
        hits = hits;
        right = right;
        here = here;
        held = ap (resident num_sets (r.addr / 16)) (sym here) ∙ held;
      }
  found m s now (recheck st e) = cc
  found m s now (cap st missing q e) = cc
  found m s now (wb st missing victim e) = cc
  found m s now (fill st to e) = cc

  -- A byte of the word that the CPU reads.
  rdata_lane :
      (m : Memory) (s : System)
      → Found m s
      → cpu_rdata num_sets s.core r (r.addr % 4) ≡ (m.entries i).line (r.addr % 16)
  unfolding cpu_rdata
  rdata_lane m s f =
      let o = r.addr % 16 in
      let lane : r.addr % 4 ≡ o % 4 = omega arith in
      let offset : 4 * (o / 4) + r.addr % 4 ≡ o = omega arith in
      let c = s.core in
      (λ k.
        if (c.byp_v && c.byp_word == o / 4) && c.byp_be (lane k)
        then c.byp_data (lane k)
        else c.q_line (offset k))
      ∙ f.idle_now.fresh.line o
      ∙ ap (λ j. c.banks j o) ((==_iff c.q_a_idx i).0 f.right)
      ∙ ap (λ (m : Memory). (m.entries i).line o) f.here

  -- What a store that hits makes of the contents, if the request is one.
  abbrev pub stored : Bool → System → Memory
  stored w s = record {
    entries = λ j. record {
      valid = s.core.valid j;
      tag = s.core.tag j;
      dirty = (if w then set_at s.core.dirty i true else s.core.dirty) j;
      line =
          (if w
              then set_at s.core.banks i (masked (m_bank r) r.wmask r.wdata (s.core.banks i))
              else s.core.banks)
            j;
    };
    dram = s.dram;
  }

  -- The clock edge of the last cycle.
  last_cycle :
      (s : System) (b : Bool) (k : ℕ)
      → hit num_sets s.core r ≡ true
      → let s' = cycle num_sets b (last k r) (at s_idle s) in
        IsIdle s' × (contents s' ≡ stored r.write s)
  unfolding cycle clock next_state
  last_cycle s b k hits =
      let wrote : ((r.valid && hit num_sets s.core r) && r.write) ≡ r.write =
        λ n. (asks n && hits n) && r.write in
      (
        record {
          state = rw (asks, hits) refl;
          fresh = record {
            valid = refl;
            tag = refl;
            line = λ o.
                bypassed s.core.banks ((r.valid && hit num_sets s.core r) && r.write) i k (m_bank r)
                  r.wmask r.wdata o;
          };
        },
        ap (λ w. stored w s) wrote,
      )

  -- From an idle cache to the next.
  pub served :
      (L : ℕ) (answers : ℕ → Bool) (fuel n : ℕ) (s : System)
      → r.next ≡ i
      → AnswersWithin L answers
      → L + L + 6 ≤ fuel
      → IsIdle s
      → (s' : System) × (serve num_sets answers fuel n r s ≡ some s')
        × (cpu_rdata num_sets s'.core r (r.addr % 4)
            ≡ ((access num_sets (r.addr / 16) (contents s)).entries i).line (r.addr % 16))
        × (contents s' ≡ access num_sets (r.addr / 16) (contents s))
        × ((b : Bool) (k : ℕ)
            → let s'' = cycle num_sets b (last k r) s' in
              IsIdle s'' × (contents s'' ≡ stored r.write s'))
  served L answers fuel n s aims prompt enough calm =
      let m = access num_sets (r.addr / 16) (contents s) in
      let (s', ran) =
        Ends-idle num_sets pos r asks aims m answers L prompt fuel n s enough calm.state calm.fresh
          refl in
      let (now, phase) =
        serve-Phase num_sets pos r asks aims m answers fuel n s s' ran
          (idle calm.state calm.fresh refl) in
      let f = found m s' now phase in
      (
        s',
        ran,
        rdata_lane m s' f,
        f.here,
        λ b k.
            subst
              (λ t.
                IsIdle (cycle num_sets b (last k r) t)
                × (contents (cycle num_sets b (last k r) t) ≡ stored r.write t))
              (at_state s_idle s' f.idle_now.state) (last_cycle s' b k f.hits),
      )
