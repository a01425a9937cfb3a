-- ===== src/Cache/Fsm/Refine.antt =====
-- The cache of src/dcache_bram.v, clock edge by clock edge, is the cache that serves an access at once.
use rv32imac_soc.Common.{
  ℕ, ◌+◌, ◌/◌, ◌%◌, ◌<◌, ◌≡◌, refl, sym, ap, ◌∙◌, ◌==◌, ==_iff, Bool, Bool-cases, true, false, ◌&&◌,
  some, inl, inr, u8, if◌then◌else◌, arith,
}
use rv32imac_soc.Cache.Hw.{Memory, set_at, idx, access, load, store}
use rv32imac_soc.Cache.Fsm.{Request, System, masked, cpu_rdata, cycle, contents, serve}
use rv32imac_soc.Cache.Fsm.Latency.{AnswersWithin}
use rv32imac_soc.Cache.Fsm.Found.{IsIdle, last, served}

-- The requests of a byte load and of a byte store, as they are held while they wait.
abbrev pub byte_load : ℕ → ℕ → Request
byte_load num_sets addr = record {
  valid = true;
  write = false;
  addr = addr;
  wdata = λ lane. 0;
  wmask = λ lane. false;
  next = idx num_sets (addr / 16);
}

abbrev pub byte_store : ℕ → ℕ → ℕ → Request
byte_store num_sets addr v = record {
  valid = true;
  write = true;
  addr = addr;
  wdata = λ lane. u8 v;
  wmask = λ lane. addr % 4 == lane;
  next = idx num_sets (addr / 16);
}

-- One lane of one bank is one byte of the line.
one_byte : (addr o : ℕ) → (addr % 16 / 4 == o / 4 && addr % 4 == o % 4) ≡ (addr % 16 == o)
one_byte addr o = ground arith

module _ (num_sets addr v : ℕ) where
  abbrev set : ℕ
  set = idx num_sets (addr / 16)

  -- A store by lanes, on a memory.
  abbrev by_lanes : Memory → Memory
  by_lanes m = record {
    entries = λ j. record {
      valid = (m.entries j).valid;
      tag = (m.entries j).tag;
      dirty = set_at (λ j. (m.entries j).dirty) set true j;
      line =
          set_at (λ j. (m.entries j).line) set
            (masked (addr % 16 / 4) (λ lane. addr % 4 == lane) (λ lane. u8 v) (m.entries set).line)
            j;
    };
    dram = m.dram;
  }

  abbrev by_byte : Memory → Memory
  by_byte m = record m {
    entries = set_at m.entries set (record (m.entries set) {
      dirty = true;
      line = set_at (m.entries set).line (addr % 16) (u8 v);
    });
  }

  by_lanes-by_byte : (m : Memory) → by_lanes m ≡ by_byte m
  by_lanes-by_byte m =
      let line : masked (addr % 16 / 4) (λ lane. addr % 4 == lane) (λ lane. u8 v)
            (m.entries set).line
          ≡ set_at (m.entries set).line (addr % 16) (u8 v) =
        (λ k o. if one_byte addr o k then u8 v else (m.entries set).line o) in
      let entry : (j : ℕ) → (by_lanes m).entries j ≡ (by_byte m).entries j = (λ j.
        elim (Bool-cases (set == j)) [
          | inl same ↦ rw same (λ k. record {
            valid = (m.entries (sym ((==_iff set j).0 same) k)).valid;
            tag = (m.entries (sym ((==_iff set j).0 same) k)).tag;
            dirty = true;
            line = line k;
          })
          | inr other ↦ rw other refl
        ]) in
      λ k. record { entries = λ j. entry j k; dram = m.dram }

module _ (num_sets : ℕ) (pos : 0 < num_sets) (L : ℕ) (answers : ℕ → Bool)
    (prompt : AnswersWithin L answers) where
  -- The module refines the cache that serves an access at once. If the memory answers within L cycles
  -- whenever it is asked, then the cache, idle and with its output registers in step with its
  -- arrays, at whatever index they were read, makes a byte load or a byte store ready within
  -- 2 L + 6 cycles. The byte that is loaded, and the arrays and DRAM after the cycle in which it
  -- is ready, are those of the access at once, and the cache is then idle again in that sense,
  -- whatever index the CPU reads ahead.
  pub serve-access :
      (addr v : ℕ) (s : System)
      → IsIdle s
      → ((s' : System) × (serve num_sets answers (L + L + 6) 0 (byte_load num_sets addr) s
            ≡ some s')
          × ((b : Bool) (k : ℕ)
              → let s'' = cycle num_sets b (last k (byte_load num_sets addr)) s' in
                ((cpu_rdata num_sets s'.core (byte_load num_sets addr) (addr % 4), contents s'')
                  ≡ load num_sets addr (contents s))
                × IsIdle s''))
        × ((s' : System) × (serve num_sets answers (L + L + 6) 0 (byte_store num_sets addr v) s
              ≡ some s')
            × ((b : Bool) (k : ℕ)
                → let s'' = cycle num_sets b (last k (byte_store num_sets addr v)) s' in
                  (contents s'' ≡ store num_sets addr v (contents s)) × IsIdle s''))
  unfolding load store
  serve-access addr v s calm =
      let (s1, ran1, read1, here1, then1) =
        served num_sets pos (byte_load num_sets addr) refl L answers (L + L + 6) 0 s refl prompt
          (omega arith) calm in
      let (s2, ran2, read2, here2, then2) =
        served num_sets pos (byte_store num_sets addr v) refl L answers (L + L + 6) 0 s refl prompt
          (omega arith) calm in
      (
        (s1, ran1, λ b k. ((λ n. (read1 n, ((then1 b k).1 ∙ here1) n)), (then1 b k).0)),
        (
          s2,
          ran2,
          λ b k. (
            (then2 b k).1
                ∙ ap (by_lanes num_sets addr v) here2
                ∙ by_lanes-by_byte num_sets addr v (access num_sets (addr / 16) (contents s)),
            (then2 b k).0,
          ),
        ),
      )
