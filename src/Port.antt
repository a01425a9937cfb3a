-- ===== src/Port.antt =====
-- fpga/coremark/core_portme.c, core_portme.h and the end of ee_printf.c: what the repository adds to
-- CoreMark so that it runs on the board. The benchmark itself is EEMBC's.
pub mod Clock
pub mod Console
pub mod Types
mod Tests
use rv32imac_soc.Common.{
  ℕ, zero, suc, ◌+◌, ◌-◌, ◌/◌, ◌^◌, bit_and, not32, u8, u32, sub32, ltb, ◌==◌, not, Option, none,
  some, List, [], ◌∷◌, ◌++◌, length, if◌then◌else◌,
}
use rv32imac_soc.Bus.{Bus, Exec}
use Types.{CType, pointer, ee_u32, ee_ptr_int}

-- CLINT_MTIME_LO
abbrev pub clint_mtime_lo : ℕ
clint_mtime_lo = 0x02000000

abbrev pub clocks_per_sec : ℕ
clocks_per_sec = 60000000

abbrev pub uart_tx_data : ℕ
uart_tx_data = 0x40001000

abbrev pub uart_tx_status : ℕ
uart_tx_status = 0x40001004

abbrev pub timer_res_divider : ℕ
timer_res_divider = 1

abbrev pub ee_ticks_per_sec : ℕ
ee_ticks_per_sec = clocks_per_sec / timer_res_divider

abbrev pub sample_time_implementation : ℕ
sample_time_implementation = 1

abbrev pub default_num_contexts : ℕ
default_num_contexts = 1

-- The next multiple of four; ee_ptr_int is a uint32_t.
unfoldable pub align_mem : ℕ → ℕ
align_mem x = u32 (4 + bit_and (sub32 x 1) (not32 3))

-- What a build may define itself before it includes core_portme.h: each macro with its value.
pub record Given : Type 0 where
  pub has_float : Option ℕ
  pub has_time_h : Option ℕ
  pub use_clock : Option ℕ
  pub has_stdio : Option ℕ
  pub has_printf : Option ℕ
  pub seed_method : Option ℕ
  pub mem_method : Option ℕ
  pub multithread : Option ℕ
  pub main_has_noargc : Option ℕ
  pub main_has_noreturn : Option ℕ

-- #ifndef with a default.
abbrev pub or_default : Option ℕ → ℕ → ℕ
or_default none d = d
or_default (some v) d = v

-- The configuration that the header leaves to the benchmark. USE_PTHREAD, USE_FORK and USE_SOCKET are
-- defined by the header only along with MULTITHREAD.
pub record Settings : Type 0 where
  pub has_float : ℕ
  pub has_time_h : ℕ
  pub use_clock : ℕ
  pub has_stdio : ℕ
  pub has_printf : ℕ
  pub seed_method : ℕ
  pub mem_method : ℕ
  pub multithread : ℕ
  pub parallel : Option (ℕ × ℕ × ℕ)
  pub main_has_noargc : ℕ
  pub main_has_noreturn : ℕ

abbrev parallel_of : Option ℕ → Option (ℕ × ℕ × ℕ)
parallel_of none = some (0, 0, 0)
parallel_of (some v) = none

-- SEED_VOLATILE and MEM_STATIC are coremark.h's.
unfoldable pub settings_of : ℕ → ℕ → Given → Settings
settings_of seed_volatile mem_static g = record {
  has_float = or_default g.has_float 1;
  has_time_h = or_default g.has_time_h 0;
  use_clock = or_default g.use_clock 0;
  has_stdio = or_default g.has_stdio 0;
  has_printf = or_default g.has_printf 0;
  seed_method = or_default g.seed_method seed_volatile;
  mem_method = or_default g.mem_method mem_static;
  multithread = or_default g.multithread 1;
  parallel = parallel_of g.multithread;
  main_has_noargc = or_default g.main_has_noargc 1;
  main_has_noreturn = or_default g.main_has_noreturn 1;
}

-- The three kinds of run, each a macro.
pub data RunKind : Type 0 where
  validation performance profile : RunKind

-- Which of them are on, from those that the build defines and TOTAL_DATA_SIZE.
unfoldable pub run_kinds : List RunKind → ℕ → List RunKind
run_kinds [] total_data_size =
    if total_data_size == 1200
    then profile ∷ []
    else if total_data_size == 2000
    then performance ∷ []
    else validation ∷ []
run_kinds (k ∷ ks) total_data_size = k ∷ ks

-- seed1_volatile to seed5_volatile, with ITERATIONS.
pub record Seeds : Type 0 where
  pub seed1 : ℕ
  pub seed2 : ℕ
  pub seed3 : ℕ
  pub seed4 : ℕ
  pub seed5 : ℕ

unfoldable pub seeds_of : RunKind → ℕ → Seeds
seeds_of validation iterations = record {
  seed1 = 0x3415;
  seed2 = 0x3415;
  seed3 = 0x66;
  seed4 = iterations;
  seed5 = 0;
}
seeds_of performance iterations = record {
  seed1 = 0;
  seed2 = 0;
  seed3 = 0x66;
  seed4 = iterations;
  seed5 = 0;
}
seeds_of profile iterations = record {
  seed1 = 8;
  seed2 = 8;
  seed3 = 8;
  seed4 = iterations;
  seed5 = 0;
}

-- start_time_val and stop_time_val.
pub record Times : Type 0 where
  pub start_time_val : ℕ
  pub stop_time_val : ℕ

-- MYTIMEDIFF
abbrev pub my_time_diff : ℕ → ℕ → ℕ
my_time_diff fin ini = sub32 fin ini

unfoldable pub get_time : Times → ℕ
get_time s = my_time_diff s.stop_time_val s.start_time_val

-- `secs_ret` is a type of floating-point numbers, with its conversion and its division.
unfoldable pub time_in_secs : {F : Type 0} → (ℕ → F) → (F → F → F) → ℕ → F
time_in_secs of_u32 divide ticks = divide (of_u32 ticks) (of_u32 ee_ticks_per_sec)

-- core_portable
pub record Portable : Type 0 where
  pub portable_id : ℕ

-- The two messages about the sizes of types.
pub data SizeError : Type 0 where
  ptr_int_size u32_size : SizeError

-- sizeof is the argument.
unfoldable pub portable_init : (CType → ℕ) → Portable → List SizeError × Portable
portable_init size_of p =
    let first = if size_of ee_ptr_int == size_of pointer then [] else ptr_int_size ∷ [] in
    let second = if size_of ee_u32 == 4 then [] else u32_size ∷ [] in
    (first ++ second, record p { portable_id = 1 })

unfoldable pub portable_fini : Portable → Portable
portable_fini p = record p { portable_id = 0 }

module _ {D : Type 0} (bus : Bus D) where
  open bus use {read32, write32}

  unfoldable pub barebones_clock : Exec D ℕ
  barebones_clock d = let (t, d') = read32 clint_mtime_lo d in (u32 t, d')

  -- GETMYTIME
  abbrev pub get_my_time : Exec D ℕ
  get_my_time d = barebones_clock d

  unfoldable pub start_time : Times → Exec D Times
  start_time s d = let (t, d') = get_my_time d in (record s { start_time_val = t }, d')

  unfoldable pub stop_time : Times → Exec D Times
  stop_time s d = let (t, d') = get_my_time d in (record s { stop_time_val = t }, d')

  -- The spin on TX_STATUS with fuel, then the write.
  unfoldable pub uart_send_char : ℕ → ℕ → D → Option D
  uart_send_char zero c d = none
  uart_send_char (suc fuel) c d =
      let (status, d') = read32 uart_tx_status d in
      let again = uart_send_char fuel c d' in
      if bit_and status 1 == 0 then again else some (write32 (u8 c) uart_tx_data d')

  -- The loop over the buffer up to its NUL, with the count so far.
  unfoldable pub send_from : ℕ → List ℕ → ℕ → D → Option (ℕ × D)
  send_from fuel [] n d = some (n, d)
  send_from fuel (c ∷ cs) n d =
      if c == 0
      then some (n, d)
      else elim (uart_send_char fuel c d) [ none ↦ none | some d' ↦ send_from fuel cs (n + 1) d' ]

  -- `ee_printf` with the bytes that ee_vsprintf writes before its NUL. The buffer holds 1024; `none`
  -- is a text that does not fit, or a spin that does not end.
  unfoldable pub ee_printf : ℕ → List ℕ → D → Option (ℕ × D)
  ee_printf fuel formatted d =
      if ltb (length formatted) 1024 then send_from fuel formatted 0 d else none
