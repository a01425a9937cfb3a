-- ===== src/Cache/Fsm/Tests.antt =====
-- The cache of src/dcache_bram.v at a concrete system of four sets.
use rv32imac_soc.Common.{ℕ, ◌+◌, ◌%◌, ◌≡◌, refl, ◌==◌, Bool, true, false, some, arith}
use rv32imac_soc.Cache.Hw.{load, store}
use rv32imac_soc.Cache.Fsm.{s_idle, Core, System, cycle, cpu_rdata, contents, serve, reset}
use rv32imac_soc.Cache.Fsm.Latency.{AnswersWithin}
use rv32imac_soc.Cache.Fsm.Found.{IsIdle, last}
use rv32imac_soc.Cache.Fsm.Refine.{byte_load, byte_store, serve-access}
use rv32imac_soc.Cache.Fsm.Sweep.{run, IsEmpty, run-IsEmpty}

-- Every set holds a dirty line of tag 3; set 0 was read ahead.
abbrev full_core : Core
full_core = record {
  state = s_idle;
  sweep_cnt = 0;
  miss_idx = 0;
  miss_tag = 0;
  wb_tag = 0;
  wb_line = λ o. 0;
  valid = λ i. true;
  tag = λ i. 3;
  banks = λ i o. i + o;
  dirty = λ i. true;
  q_a_idx = 0;
  q_valid = true;
  q_tag = 3;
  q_line = λ o. 0 + o;
  byp_v = false;
  byp_word = 0;
  byp_be = λ lane. false;
  byp_data = λ lane. 0;
}

abbrev full : System
full = record { core = full_core; dram = λ la o. 7 }

full-IsIdle : IsIdle full
full-IsIdle = record { state = refl; fresh = record { valid = refl; tag = refl; line = λ o. refl } }

-- The memory answers in every second cycle.
abbrev even : ℕ → Bool
even n = n % 2 == 0

even-AnswersWithin : AnswersWithin 2 even
even-AnswersWithin n = (n % 2, omega arith, ground arith)

serve-access_example :
    ((s' : System) × (serve 4 even 10 0 (byte_load 4 37) full ≡ some s')
      × ((b : Bool) (k : ℕ)
          → let s'' = cycle 4 b (last k (byte_load 4 37)) s' in
            ((cpu_rdata 4 s'.core (byte_load 4 37) 1, contents s'') ≡ load 4 37 (contents full))
            × IsIdle s''))
    × ((s' : System) × (serve 4 even 10 0 (byte_store 4 37 300) full ≡ some s')
        × ((b : Bool) (k : ℕ)
            → let s'' = cycle 4 b (last k (byte_store 4 37 300)) s' in
              (contents s'' ≡ store 4 37 300 (contents full)) × IsIdle s''))
serve-access_example =
    serve-access 4 (omega arith) 2 even even-AnswersWithin 37 300 full full-IsIdle

run-IsEmpty_example : IsEmpty 4 (
    run 4
      (λ n. byte_load 4 n)
      even
      5
      0
      (record full { core = reset 4 true (λ o. 9) (byte_load 4 0) full_core }))
run-IsEmpty_example =
    run-IsEmpty 4 (λ n. byte_load 4 n) even true (λ o. 9) (byte_load 4 0) full (omega arith)
