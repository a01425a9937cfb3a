-- ===== src/Cache/Hw.antt =====
-- src/dcache_bram.v, an access at a time: a direct-mapped write-back cache in front of DRAM. A miss
-- runs the states S_CAP, S_WB and S_FILL of the module in one step. Cache/Fsm is the same module clock
-- edge by clock edge.
use rv32imac_soc.Common.{ℕ, ◌+◌, ◌*◌, ◌/◌, ◌%◌, ◌==◌, Bool, true, false, ◌&&◌, u8, if◌then◌else◌}

-- A line by the offset of its bytes.
abbrev pub Line : Type 0
Line = ℕ → ℕ

-- An entry of the arrays: tagv, dirty and the data banks.
pub record Entry : Type 0 where
  pub valid : Bool
  pub tag : ℕ
  pub dirty : Bool
  pub line : Line

-- The cache by set, and DRAM by line number (the address without its offset bits).
pub record Memory : Type 0 where
  pub entries : ℕ → Entry
  pub dram : ℕ → Line

abbrev pub set_at : {A : Type 0} → (ℕ → A) → ℕ → A → ℕ → A
set_at f i v j = if i == j then v else f j

-- NUM_SETS is the parameter of the section; the line number la has its set and its tag.
module _ (num_sets : ℕ) where
  abbrev pub idx : ℕ → ℕ
  idx la = la % num_sets

  abbrev pub tag_of : ℕ → ℕ
  tag_of la = la / num_sets

  -- hit
  abbrev pub resident : ℕ → Memory → Bool
  resident la m = (m.entries (idx la)).valid && (m.entries (idx la)).tag == tag_of la

  -- S_CAP and S_WB: the victim goes to DRAM if it is valid and dirty.
  unfoldable pub write_back : ℕ → Memory → ℕ → Line
  write_back la m =
      let victim = m.entries (idx la) in
      if victim.valid && victim.dirty
      then set_at m.dram (victim.tag * num_sets + idx la) victim.line
      else m.dram

  -- S_FILL: the line is fetched, valid and clean.
  unfoldable pub refill : ℕ → Memory → Memory
  refill la m =
      let dram = write_back la m in
      record {
        entries =
            set_at m.entries (idx la)
              (record { valid = true; tag = tag_of la; dirty = false; line = dram la });
        dram = dram;
      }

  -- What a request does to the cache before it is served.
  unfoldable pub access : ℕ → Memory → Memory
  access la m = if resident la m then m else refill la m

  -- cpu_rdata of a byte load.
  unfoldable pub load : ℕ → Memory → ℕ × Memory
  load addr m =
      let m' = access (addr / 16) m in ((m'.entries (idx (addr / 16))).line (addr % 16), m')

  -- A byte store: wr_hit, and dirty is set.
  unfoldable pub store : ℕ → ℕ → Memory → Memory
  store addr v m =
      let m' = access (addr / 16) m in
      let e = m'.entries (idx (addr / 16)) in
      record m' {
        entries =
            set_at m'.entries (idx (addr / 16))
              (record e { dirty = true; line = set_at e.line (addr % 16) (u8 v) });
      }

-- A line that the accelerator writes or reads over its port behind the cache.
abbrev pub dma_write : ℕ → Line → Memory → Memory
dma_write la v m = record m { dram = set_at m.dram la v }

abbrev pub dma_read : ℕ → Memory → Line
dma_read la m = m.dram la
