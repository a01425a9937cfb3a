-- ===== src/Cache/Fsm.antt =====
-- src/dcache_bram.v a clock edge at a time, with the inferred block RAM: the arrays with their output
-- registers, the speculative read, the store-to-load bypass and the states of a miss. A word is its
-- four bytes by lane, a line its sixteen bytes by offset; the four banks stand side by side. As the
-- text of the module says it, a word that is read in the cycle of its write is the old one.
pub mod Phases
pub mod Steps
pub mod Serve
pub mod Latency
pub mod Found
pub mod Refine
pub mod Sweep
mod Tests
use rv32imac_soc.Common.{
  ℕ, zero, suc, Option, none, some, ◌+◌, ◌-◌, ◌*◌, ◌/◌, ◌%◌, ◌==◌, Bool, true, false, ◌&&◌, not,
  if◌then◌else◌,
}
use rv32imac_soc.Cache.Hw.{Line, Memory, set_at, idx, tag_of}

pub data FsmState : Type 0 where
  s_init s_idle s_cap s_wb s_fill s_recheck : FsmState

pub record Core : Type 0 where
  pub state : FsmState
  pub sweep_cnt : ℕ
  pub miss_idx : ℕ
  pub miss_tag : ℕ
  pub wb_tag : ℕ
  pub wb_line : Line
  -- the arrays
  pub valid : ℕ → Bool
  pub tag : ℕ → ℕ
  pub banks : ℕ → Line
  pub dirty : ℕ → Bool
  -- their output registers
  pub q_a_idx : ℕ
  pub q_valid : Bool
  pub q_tag : ℕ
  pub q_line : Line
  -- the bypass
  pub byp_v : Bool
  pub byp_word : ℕ
  pub byp_be : ℕ → Bool
  pub byp_data : ℕ → ℕ

-- The CPU's side in a cycle; `next` is the index of cpu_req_addr_next.
pub record Request : Type 0 where
  pub valid : Bool
  pub write : Bool
  pub addr : ℕ
  pub wdata : ℕ → ℕ
  pub wmask : ℕ → Bool
  pub next : ℕ

-- The cache with the memory behind it, by line.
pub record System : Type 0 where
  pub core : Core
  pub dram : ℕ → Line

abbrev pub is_idle : FsmState → Bool
is_idle st = elim st [ s_idle ↦ true | _ ↦ false ]

abbrev pub is_fill : FsmState → Bool
is_fill st = elim st [ s_fill ↦ true | _ ↦ false ]

abbrev pub is_wb : FsmState → Bool
is_wb st = elim st [ s_wb ↦ true | _ ↦ false ]

abbrev pub is_init : FsmState → Bool
is_init st = elim st [ s_init ↦ true | _ ↦ false ]

abbrev pub m_bank : Request → ℕ
m_bank r = r.addr % 16 / 4

-- The bytes of a line after a store of the enabled lanes to a bank.
abbrev pub masked : ℕ → (ℕ → Bool) → (ℕ → ℕ) → Line → Line
masked bank be wdata line o = if bank == o / 4 && be (o % 4) then wdata (o % 4) else line o

module _ (num_sets : ℕ) where
  abbrev pub m_idx : Request → ℕ
  m_idx r = idx num_sets (r.addr / 16)

  abbrev pub m_tag : Request → ℕ
  m_tag r = tag_of num_sets (r.addr / 16)

  abbrev pub spec_ok : Core → Request → Bool
  spec_ok c r = c.q_a_idx == m_idx r

  abbrev pub hit : Core → Request → Bool
  hit c r = c.q_valid && c.q_tag == m_tag r && spec_ok c r

  abbrev pub cpu_ready : Core → Request → Bool
  cpu_ready c r = is_idle c.state && (r.valid && hit c r)

  abbrev pub wr_hit : Core → Request → Bool
  wr_hit c r = cpu_ready c r && r.write

  -- A lane of cpu_rdata.
  unfoldable pub cpu_rdata : Core → Request → ℕ → ℕ
  cpu_rdata c r lane =
      if (c.byp_v && c.byp_word == m_bank r) && c.byp_be lane
      then c.byp_data lane
      else c.q_line (4 * m_bank r + lane)

  abbrev pub wb_needed : Core → Request → Bool
  wb_needed c r = c.q_valid && c.dirty (m_idx r)

  -- The line that the memory port asks for.
  abbrev pub mem_req_line : Core → ℕ
  mem_req_line c = (if is_wb c.state then c.wb_tag else c.miss_tag) * num_sets + c.miss_idx

  -- The states.
  unfoldable pub next_state : Bool → Request → Core → FsmState
  next_state mem_ready r c = elim c.state [
    | s_init ↦ if c.sweep_cnt == num_sets - 1 then s_recheck else s_init
    | s_idle ↦ if r.valid && not (hit c r) then if spec_ok c r then s_cap else s_recheck else s_idle
    | s_cap ↦ if wb_needed c r then s_wb else s_fill
    | s_wb ↦ if mem_ready then s_fill else s_wb
    | s_fill ↦ if mem_ready then s_recheck else s_fill
    | s_recheck ↦ s_idle
  ]

  -- What S_IDLE latches of a miss.
  abbrev pub starts_miss : Request → Core → Bool
  starts_miss r c = is_idle c.state && ((r.valid && not (hit c r)) && spec_ok c r)

  abbrev pub is_cap : FsmState → Bool
  is_cap st = elim st [ s_cap ↦ true | _ ↦ false ]

  -- A clock edge of the module, with mem_ready and mem_rline.
  unfoldable pub clock : Bool → Line → Request → Core → Core
  unfolding next_state
  clock mem_ready mem_rline r c =
      let fill_en = is_fill c.state && mem_ready in
      let wr = wr_hit c r in
      record {
        state = next_state mem_ready r c;
        sweep_cnt = if is_init c.state then (c.sweep_cnt + 1) % num_sets else c.sweep_cnt;
        miss_idx = if starts_miss r c then m_idx r else c.miss_idx;
        miss_tag = if starts_miss r c then m_tag r else c.miss_tag;
        wb_tag = if is_cap c.state then c.q_tag else c.wb_tag;
        wb_line = if is_cap c.state then c.q_line else c.wb_line;
        valid =
            if is_init c.state
            then set_at c.valid c.sweep_cnt false
            else if fill_en
            then set_at c.valid c.miss_idx true
            else c.valid;
        tag =
            if is_init c.state
            then set_at c.tag c.sweep_cnt 0
            else if fill_en
            then set_at c.tag c.miss_idx c.miss_tag
            else c.tag;
        banks =
            if fill_en
            then set_at c.banks c.miss_idx mem_rline
            else if wr
            then set_at c.banks (m_idx r) (masked (m_bank r) r.wmask r.wdata (c.banks (m_idx r)))
            else c.banks;
        dirty =
            if fill_en
            then set_at c.dirty c.miss_idx false
            else if wr
            then set_at c.dirty (m_idx r) true
            else c.dirty;
        q_a_idx = r.next;
        q_valid = c.valid r.next;
        q_tag = c.tag r.next;
        q_line = c.banks r.next;
        byp_v = wr && (not fill_en && m_idx r == r.next);
        byp_word = m_bank r;
        byp_be = r.wmask;
        byp_data = r.wdata;
      }

  -- A clock edge under rst, which leaves the arrays, their registers and the other latches to
  -- themselves.
  unfoldable pub reset : Bool → Line → Request → Core → Core
  reset mem_ready mem_rline r c = record (clock mem_ready mem_rline r c) {
    state = s_init;
    sweep_cnt = 0;
    miss_idx = 0;
    miss_tag = 0;
    wb_tag = c.wb_tag;
    wb_line = c.wb_line;
    byp_v = false;
    byp_word = c.byp_word;
    byp_be = c.byp_be;
    byp_data = c.byp_data;
  }

  -- With the memory behind the port, which answers in this cycle or does not.
  unfoldable pub cycle : Bool → Request → System → System
  cycle mem_ready r s = record {
    core = clock mem_ready (s.dram (mem_req_line s.core)) r s.core;
    dram =
        if is_wb s.core.state && mem_ready
        then set_at s.dram (mem_req_line s.core) s.core.wb_line
        else s.dram;
  }

  -- The CPU holds a request until it is served; the memory answers in the cycles that `answers` says.
  -- What is returned is the system in the cycle in which cpu_ready is high.
  unfoldable pub serve : (ℕ → Bool) → ℕ → ℕ → Request → System → Option System
  serve answers zero n r s = none
  serve answers (suc fuel) n r s =
      let rest = serve answers fuel (n + 1) r (cycle (answers n) r s) in
      if cpu_ready s.core r then some s else rest

-- The cache and DRAM as a memory by sets and lines.
abbrev pub contents : System → Memory
contents s = record {
  entries = λ i. record {
    valid = s.core.valid i;
    tag = s.core.tag i;
    dirty = s.core.dirty i;
    line = s.core.banks i;
  };
  dram = s.dram;
}
