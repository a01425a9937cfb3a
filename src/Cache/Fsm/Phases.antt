-- ===== src/Cache/Fsm/Phases.antt =====
-- The phases of a request to the cache of src/dcache_bram.v, and the set of the request when its line
-- has arrived.
use rv32imac_soc.Common.{
  and_true, ℕ, ◌+◌, ◌*◌, ◌/◌, ◌%◌, ◌<◌, ◌≡◌, refl, sym, ap, ◌∙◌, ◌==◌, ==_iff, ==_refl, Bool-cases,
  true, false, ◌&&◌, inl, inr, if◌then◌else◌, arith,
}
use native.Mathlib.Nat.{div-add-mod, mul_comm}
use rv32imac_soc.Cache.Hw.{Memory, set_at, resident, write_back, refill, access}
use rv32imac_soc.Cache.Fsm.{
  FsmState, s_idle, s_cap, s_wb, s_fill, s_recheck, Core, Request, System, m_idx, m_tag, spec_ok,
  hit, contents,
}

-- The system in a given state.
abbrev pub at : FsmState → System → System
at st s = record s { core = record s.core { state = st } }

pub at_state : (st : FsmState) (s : System) → s.core.state ≡ st → at st s ≡ s
at_state st s e = λ k. record s { core = record s.core { state = sym e k } }

-- The output registers show the arrays at the index that they were read at, a byte that the last
-- store has just written by the bypass.
pub record IsFresh (c : Core) : Type 0 where
  pub valid : c.q_valid ≡ c.valid c.q_a_idx
  pub tag : c.q_tag ≡ c.tag c.q_a_idx
  pub line :
      (o : ℕ)
      → (if (c.byp_v && c.byp_word == o / 4) && c.byp_be (o % 4)
          then c.byp_data (o % 4)
          else c.q_line o)
        ≡ c.banks c.q_a_idx o

module _ (num_sets : ℕ) (pos : 0 < num_sets) (r : Request) where
  abbrev pub la : ℕ
  la = r.addr / 16

  abbrev pub i : ℕ
  i = m_idx num_sets r

  abbrev pub t : ℕ
  t = m_tag num_sets r

  -- The registers of a miss.
  abbrev pub IsMissing : System → Type 0
  IsMissing s =
      (s.core.miss_idx ≡ i) × (s.core.miss_tag ≡ t) × (resident num_sets la (contents s) ≡ false)

  -- Once the line has arrived.
  abbrev pub filled : System → Memory
  filled s = record {
    entries =
        set_at (contents s).entries i
          (record { valid = true; tag = t; dirty = false; line = s.dram la });
    dram = s.dram;
  }

  pub data Phase (m : Memory) (s : System) : Type 0 where
    idle : s.core.state ≡ s_idle → IsFresh s.core → access num_sets la (contents s) ≡ m → Phase m s
    recheck : s.core.state ≡ s_recheck → access num_sets la (contents s) ≡ m → Phase m s
    cap :
        s.core.state ≡ s_cap
        → IsMissing s
        → (s.core.q_valid ≡ s.core.valid i)
          × (s.core.q_tag ≡ s.core.tag i)
          × (s.core.q_line ≡ s.core.banks i)
        → access num_sets la (contents s) ≡ m
        → Phase m s
    wb :
        s.core.state ≡ s_wb
        → IsMissing s
        → (s.core.wb_tag ≡ s.core.tag i)
          × (s.core.wb_line ≡ s.core.banks i)
          × (s.core.valid i ≡ true)
          × (s.core.dirty i ≡ true)
        → access num_sets la (contents s) ≡ m
        → Phase m s
    fill :
        s.core.state ≡ s_fill
        → (s.core.miss_idx ≡ i) × (s.core.miss_tag ≡ t)
        → filled s ≡ m
        → Phase m s

  -- A request at the right index sees whether its line is there.
  pub hit-resident :
      (s : System)
      → IsFresh s.core
      → spec_ok num_sets s.core r ≡ true
      → hit num_sets s.core r ≡ resident num_sets la (contents s)
  hit-resident s fresh right =
      let e : s.core.q_a_idx ≡ i = (==_iff _ _).0 right in
      let v : s.core.q_valid ≡ s.core.valid i = fresh.valid ∙ ap s.core.valid e in
      let g : s.core.q_tag ≡ s.core.tag i = fresh.tag ∙ ap s.core.tag e in
      (λ k. (v k && g k == t) && right k) ∙ sym (and_true (s.core.valid i && s.core.tag i == t))

  line_number : t * num_sets + i ≡ la
  line_number = omega (arith, div-add-mod la num_sets, mul_comm t num_sets)

  -- The refill of a set whose line need not be written back.
  pub cleanly :
      (s : System)
      → (s.core.valid i && s.core.dirty i) ≡ false
      → filled s ≡ refill num_sets la (contents s)
  unfolding refill write_back
  cleanly s clean = rw clean refl

  -- The refill of a set whose line has been written back.
  pub written :
      (s : System)
      → s.core.valid i ≡ true
      → s.core.dirty i ≡ true
      → filled (record s { dram = set_at s.dram (s.core.tag i * num_sets + i) (s.core.banks i) })
        ≡ refill num_sets la (contents s)
  unfolding refill write_back
  written s valid dirty = rw (valid, dirty) refl

  -- The four arrays after the line has arrived.
  pub arrived :
      (s : System)
      → record {
        entries = λ j. record {
          valid = set_at s.core.valid i true j;
          tag = set_at s.core.tag i t j;
          dirty = set_at s.core.dirty i false j;
          line = set_at s.core.banks i (s.dram (t * num_sets + i)) j;
        };
        dram = s.dram;
      }
        ≡ filled s
  arrived s =
      let entry : (j : ℕ)
          → record {
            valid = set_at s.core.valid i true j;
            tag = set_at s.core.tag i t j;
            dirty = set_at s.core.dirty i false j;
            line = set_at s.core.banks i (s.dram (t * num_sets + i)) j;
          }
            ≡ (filled s).entries j =
        (λ j. elim (Bool-cases (i == j)) [
          | inl same ↦ rw same (
              ap (λ l. record { valid = true; tag = t; dirty = false; line = s.dram l })
                line_number)
          | inr other ↦ rw other refl
        ]) in
      λ k. record { entries = λ j. entry j k; dram = s.dram }

  pub filled-resident : (s : System) → resident num_sets la (filled s) ≡ true
  filled-resident s = rw (==_refl i) (==_refl t)
